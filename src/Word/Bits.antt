-- ===== src/Word/Bits.antt =====
-- What `|`, `&` and `& ~` do to each bit of a word, and what a one-bit test says.
use native.Mathlib.Nat.{pow-suc, one-le-pow}
use dmlog.Base.{
  ℕ, zero, suc, ◌-◌, ◌*◌, ◌/◌, ◌^◌, ◌≤◌, min, max, bit_and, bit_or, ◌≡◌, refl, ap, ◌∙◌, true, false,
  arith, ◌==◌,
}
use dmlog.Word.{bit, has, raise, lower}
use dmlog.Word.Digits.{bit_or-digit, bit_and-digit}

pub bit-le : (k f : ℕ) → bit k f ≤ 1
unfolding bit
bit-le zero f = omega arith
bit-le (suc k) f = bit-le k (f / 2)

pub bit-bit_or : (k a b : ℕ) → bit k (bit_or a b) ≡ max (bit k a) (bit k b)
unfolding bit
bit-bit_or zero a b = omega (arith, bit_or-digit a b)
bit-bit_or (suc k) a b = ap (bit k) half ∙ bit-bit_or k (a / 2) (b / 2)
  where
    half : bit_or a b / 2 ≡ bit_or (a / 2) (b / 2)
    half = omega (arith, bit_or-digit a b)

pub bit-bit_and : (k a b : ℕ) → bit k (bit_and a b) ≡ min (bit k a) (bit k b)
unfolding bit
bit-bit_and zero a b = omega (arith, bit_and-digit a b)
bit-bit_and (suc k) a b = ap (bit k) half ∙ bit-bit_and k (a / 2) (b / 2)
  where
    half : bit_and a b / 2 ≡ bit_and (a / 2) (b / 2)
    half = omega (arith, bit_and-digit a b)

bit_and-zero : (n a : ℕ) → a ≤ n → bit_and a 0 ≡ 0
bit_and-zero n zero h = refl
bit_and-zero zero (suc a) h = absurd (omega arith)
bit_and-zero (suc n) (suc a) h =
    omega (arith, bit_and-digit (suc a) 0, bit_and-zero n (suc a / 2) (omega arith))

-- A mask of one bit cuts that bit out.
bit_and-pow : (k f : ℕ) → bit_and f (2 ^ k) ≡ bit k f * 2 ^ k
unfolding bit
bit_and-pow zero f = omega (arith, bit_and-digit f 1, bit_and-zero (f / 2) (f / 2) (omega arith))
bit_and-pow (suc k) f = rw (pow-suc 2 k) (
    omega (
      arith,
      bit_and-digit f (2 ^ k * 2),
      bit_and-pow k (f / 2),
      ap (λ (m : ℕ). bit_and (f / 2) m) half,
    ))
  where
    half : 2 ^ k * 2 / 2 ≡ 2 ^ k
    half = omega arith

pub has-bit : (k f : ℕ) → has f (2 ^ k) ≡ (bit k f == 1)
unfolding has
has-bit k f = ground (arith, bit_and-pow k f, one-le-pow k 2, bit-le k f)

-- `~mask` of a one-bit mask below 2 ^ 32 has every other bit below 32.
pub bit-raise : (k f mask : ℕ) → bit k (raise f mask) ≡ max (bit k f) (bit k mask)
unfolding raise
bit-raise k f mask = bit-bit_or k f mask

pub bit-lower : (k f mask : ℕ) → bit k (lower f mask) ≡ min (bit k f) (bit k (2 ^ 32 - 1 - mask))
unfolding lower
bit-lower k f mask = bit-bit_and k f (2 ^ 32 - 1 - mask)

-- The same in the form of a test, for a one-bit mask that a raise or a lowering leaves alone.
pub has-raise_other : (k f mask : ℕ) → bit k mask ≡ 0 → has (raise f mask) (2 ^ k) ≡ has f (2 ^ k)
has-raise_other k f mask h =
    ground (arith, has-bit k f, has-bit k (raise f mask), bit-raise k f mask)

pub has-lower_other :
    (k f mask : ℕ) → bit k (2 ^ 32 - 1 - mask) ≡ 1 → has (lower f mask) (2 ^ k) ≡ has f (2 ^ k)
has-lower_other k f mask h =
    ground (arith, has-bit k f, has-bit k (lower f mask), bit-lower k f mask, bit-le k f)

pub has-raise_self : (k f mask : ℕ) → bit k mask ≡ 1 → has (raise f mask) (2 ^ k) ≡ true
has-raise_self k f mask h = ground (arith, has-bit k (raise f mask), bit-raise k f mask, bit-le k f)

pub has-lower_self :
    (k f mask : ℕ) → bit k (2 ^ 32 - 1 - mask) ≡ 0 → has (lower f mask) (2 ^ k) ≡ false
has-lower_self k f mask h = ground (arith, has-bit k (lower f mask), bit-lower k f mask, bit-le k f)
