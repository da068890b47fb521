-- ===== src/Word.antt =====
-- The flag word `dmlog_ring_t.flags` (include/dmlog.h) and 32-bit arithmetic: `|`, `&`, `~` on
-- `uint32_t`, and the value of one bit of a word.
mod Digits
pub mod Bits
use dmlog.Base.{ℕ, zero, suc, ◌+◌, ◌-◌, ◌/◌, ◌%◌, ◌^◌, bit_and, bit_or, Bool, not, ◌==◌}

-- `uint32_t` addition and subtraction.
abbrev pub add32 : ℕ → ℕ → ℕ
add32 a b = (a + b) % 2 ^ 32

abbrev pub sub32 : ℕ → ℕ → ℕ
sub32 a b = (a + 2 ^ 32 - b) % 2 ^ 32

-- The bit at place `k`, 0 or 1.
unfoldable pub bit : ℕ → ℕ → ℕ
bit zero f = f % 2
bit (suc k) f = bit k (f / 2)

-- `flags & mask`, as a condition.
unfoldable pub has : ℕ → ℕ → Bool
has f mask = not (bit_and f mask == 0)

-- `flags |= mask`.
unfoldable pub raise : ℕ → ℕ → ℕ
raise f mask = bit_or f mask

-- `flags &= ~mask`.
unfoldable pub lower : ℕ → ℕ → ℕ
lower f mask = bit_and f (2 ^ 32 - 1 - mask)
