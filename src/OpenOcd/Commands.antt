-- ===== src/OpenOcd/Commands.antt =====
-- The commands `mww` and `mwb` of OpenOCD, read from a line as its users' guide describes them: an
-- address and a value, numbers as in C.
use dmlog.Base.{
  ℕ, zero, suc, ◌/◌, ◌%◌, ◌^◌, ◌<◌, ◌≡◌, refl, ap, ap₂, ◌∙◌, true, false, none, List, [], ◌∷◌, ◌++◌,
  arith, drop, ◌==◌, ◌||◌, if◌then◌else◌,
}
use native.Mathlib.Nat.{mod-eq_of_lt}
use dmlog.Gdb.{digit_value}
use dmlog.Gdb.Session.Memory.{overwrite}
use dmlog.Monitor.{to_bytes}
use dmlog.CommandLine.{read_number, strtoul0}
use dmlog.CommandLine.Numbers.{strtoul0-hex_before, strtoul0-byte_before}
use dmlog.OpenOcd.{Store, word_at, byte_at, store_command, padded_hex, upper_digit}
use dmlog.OpenOcd.Session.{starts_as}

abbrev mww : List ℕ
mww = b'm' ∷ b'w' ∷ b'w' ∷ 32 ∷ []

abbrev mwb : List ℕ
mwb = b'm' ∷ b'w' ∷ b'b' ∷ 32 ∷ []

-- What stands behind the first space.
unfoldable pub behind_space : List ℕ → List ℕ
behind_space [] = []
behind_space (c ∷ cs) = let rest = behind_space cs in if c == 32 then cs else rest

abbrev pub IsWrite : List ℕ → Type 0
IsWrite line = (starts_as mww line || starts_as mwb line) ≡ true

-- What a line does to the memory of the target, a word with its lowest byte first.
abbrev pub executed : List ℕ → (ℕ → ℕ) → ℕ → ℕ
executed line cell =
    let address = strtoul0 (drop 4 line) in
    let value = strtoul0 (behind_space (drop 4 line)) in
    if starts_as mww line
    then overwrite cell address (to_bytes 4 value)
    else (if starts_as mwb line then overwrite cell address (value % 256 ∷ []) else cell)

-- What a command is to do, and the numbers that it can write.
abbrev pub stored : (ℕ → ℕ) → Store → ℕ → ℕ
stored cell (word_at address word) = overwrite cell address (to_bytes 4 word)
stored cell (byte_at address byte) = overwrite cell address (byte ∷ [])

abbrev pub Fits : Store → Type 0
Fits (word_at address word) = (address < 2 ^ 32) × (word < 2 ^ 32)
Fits (byte_at address byte) = (address < 2 ^ 32) × (byte < 256)

behind_space-padded_hex :
    (places n : ℕ) (tail : List ℕ) → behind_space (padded_hex places n tail) ≡ behind_space tail
unfolding padded_hex behind_space
behind_space-padded_hex zero n tail = refl
behind_space-padded_hex (suc places) n tail =
    behind_space-padded_hex places (n / 16) (upper_digit (n % 16) ∷ tail) ∙ skips
  where
    no_space : (upper_digit (n % 16) == 32) ≡ false
    no_space = ground arith

    skips : behind_space (upper_digit (n % 16) ∷ tail) ≡ behind_space tail
    skips = rw no_space refl

padded_hex-append :
    (places n : ℕ) (tail more : List ℕ)
    → padded_hex places n tail ++ more ≡ padded_hex places n (tail ++ more)
unfolding padded_hex
padded_hex-append zero n tail more = refl
padded_hex-append (suc places) n tail more =
    padded_hex-append places (n / 16) (upper_digit (n % 16) ∷ tail) more

ends_at : (n c : ℕ) (cs : List ℕ) → digit_value c ≡ none → read_number 16 n (c ∷ cs) ≡ n
unfolding read_number
ends_at n c cs e = rw (e, read_number) refl

second_number :
    (address : ℕ) (value : List ℕ)
    → behind_space (b'0' ∷ b'x' ∷ padded_hex 8 address (32 ∷ value)) ≡ value
unfolding behind_space
second_number address value = behind_space-padded_hex 8 address (32 ∷ value)

-- The line of a command does what the command is to do.
pub executed-store_command :
    (command : Store) (cell : ℕ → ℕ)
    → Fits command
    → executed (store_command command ++ 13 ∷ b'\n' ∷ []) cell ≡ stored cell command
unfolding store_command starts_as digit_value
executed-store_command (word_at address word) cell (small, fits) =
    let tail = 13 ∷ b'\n' ∷ [] in
    let value = b'0' ∷ b'x' ∷ padded_hex 8 word tail in
    let line : padded_hex 8 address (32 ∷ b'0' ∷ b'x' ∷ padded_hex 8 word []) ++ tail
        ≡ padded_hex 8 address (32 ∷ value) =
      padded_hex-append 8 address _ tail
      ∙ ap (λ v. padded_hex 8 address (32 ∷ b'0' ∷ b'x' ∷ v)) (padded_hex-append 8 word [] tail) in
    rw line (
      ap₂ (λ a v. overwrite cell a (to_bytes 4 v))
        (strtoul0-hex_before address (32 ∷ value) small (ends_at address 32 value refl))
        (ap strtoul0 (second_number address value)
          ∙ strtoul0-hex_before word tail fits (ends_at word 13 (b'\n' ∷ []) refl)))
executed-store_command (byte_at address byte) cell (small, fits) =
    let tail = 13 ∷ b'\n' ∷ [] in
    let value = b'0' ∷ b'x' ∷ padded_hex 2 byte tail in
    let line : padded_hex 8 address (32 ∷ b'0' ∷ b'x' ∷ padded_hex 2 byte []) ++ tail
        ≡ padded_hex 8 address (32 ∷ value) =
      padded_hex-append 8 address _ tail
      ∙ ap (λ v. padded_hex 8 address (32 ∷ b'0' ∷ b'x' ∷ v)) (padded_hex-append 2 byte [] tail) in
    let number : strtoul0 value % 256 ≡ byte =
      ap (λ v. v % 256) (strtoul0-byte_before byte tail fits (ends_at byte 13 (b'\n' ∷ []) refl))
      ∙ mod-eq_of_lt fits in
    rw line (
      ap₂ (λ a v. overwrite cell a (v ∷ []))
        (strtoul0-hex_before address (32 ∷ value) small (ends_at address 32 value refl))
        (ap (λ v. strtoul0 v % 256) (second_number address value) ∙ number))
