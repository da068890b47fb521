-- ===== src/CommandLine/Numbers.antt =====
-- The numbers on the command line: what the monitor prints as `%d` and `0x%08X` is read back.
use dmlog.Base.{
  ℕ, zero, suc, ◌+◌, ◌*◌, ◌/◌, ◌%◌, ◌^◌, ◌≤◌, ◌<◌, ◌≡◌, refl, ap, sym, ◌∙◌, inl, inr, true, false,
  some, List, [], ◌∷◌, arith, ltb, Bool-cases,
}
use dmlog.Gdb.{digit_value, is_space}
use dmlog.OpenOcd.{decimal, padded_hex, upper_digit}
use dmlog.CommandLine.{read_number, skip_space, split_sign, split_base, atoi, strtoul0}

abbrev power : ℕ → ℕ → ℕ
power base zero = 1
power base (suc places) = base * power base places

next_digit :
    (base m c d : ℕ) (cs : List ℕ)
    → digit_value c ≡ some d
    → d < base
    → read_number base m (c ∷ cs) ≡ read_number base (m * base + d) cs
unfolding read_number
next_digit base m c d cs e small = rw (e, ltb-small, read_number) refl
  where
    ltb-small : ltb d base ≡ true
    ltb-small = ground arith

decimal_digit : (d : ℕ) → d < 10 → digit_value (b'0' + d) ≡ some d
unfolding digit_value
decimal_digit d small = ground arith

hex_digit : (d : ℕ) → d < 16 → digit_value (upper_digit d) ≡ some d
unfolding digit_value
hex_digit d small = ground arith

read_number-decimal :
    (places n : ℕ) (tail : List ℕ)
    → n < power 10 places
    → read_number 10 0 (decimal places n tail) ≡ read_number 10 n tail
unfolding decimal
read_number-decimal zero n tail small = ap (λ k. read_number 10 k tail) (omega arith)
read_number-decimal (suc places) n tail small =
    let digit = decimal_digit (n % 10) (omega arith) in
    elim (Bool-cases (ltb n 10)) [
      | inl last ↦ rw last (
          next_digit 10 0 (b'0' + n % 10) (n % 10) tail digit (omega arith)
          ∙ ap (λ k. read_number 10 k tail) (ground arith))
      | inr more ↦ rw more (
          read_number-decimal places (n / 10) ((b'0' + n % 10) ∷ tail) (omega arith)
          ∙ next_digit 10 (n / 10) (b'0' + n % 10) (n % 10) tail digit (omega arith)
          ∙ ap (λ k. read_number 10 k tail) (omega arith))
    ]

read_number-hex :
    (places n : ℕ) (tail : List ℕ)
    → n < power 16 places
    → read_number 16 0 (padded_hex places n tail) ≡ read_number 16 n tail
unfolding padded_hex
read_number-hex zero n tail small = ap (λ k. read_number 16 k tail) (omega arith)
read_number-hex (suc places) n tail small =
    read_number-hex places (n / 16) (upper_digit (n % 16) ∷ tail) (omega arith)
    ∙ next_digit 16 (n / 16) (upper_digit (n % 16)) (n % 16) tail (hex_digit (n % 16) (omega arith))
        (omega arith)
    ∙ ap (λ k. read_number 16 k tail) (omega arith)

-- A printed number starts with a digit.
decimal-head :
    (places n : ℕ) (tail : List ℕ)
    → (c : ℕ) × (cs : List ℕ) × (decimal (suc places) n tail ≡ c ∷ cs) × (48 ≤ c) × (c < 58)
unfolding decimal
decimal-head zero n tail = elim (Bool-cases (ltb n 10)) [
  | inl last ↦ (b'0' + n % 10, tail, rw last refl, omega arith, omega arith)
  | inr more ↦ (b'0' + n % 10, tail, rw more refl, omega arith, omega arith)
]
decimal-head (suc places) n tail =
    let rest = decimal-head places (n / 10) ((b'0' + n % 10) ∷ tail) in
    elim (Bool-cases (ltb n 10)) [
      | inl last ↦ (b'0' + n % 10, tail, rw last refl, omega arith, omega arith)
      | inr more ↦ rw more rest
    ]

-- Neither white space nor a sign stands before a digit.
unsigned :
    (c : ℕ) (cs : List ℕ) → 48 ≤ c → c < 58 → split_sign (skip_space (c ∷ cs)) ≡ (false, c ∷ cs)
unfolding skip_space is_space split_sign
unsigned c cs low high = ground arith

read_number-nil : (base n : ℕ) → read_number base n [] ≡ n
unfolding read_number
read_number-nil base n = refl

pub atoi-decimal : (n : ℕ) → n < 2 ^ 31 → atoi (decimal 10 n []) ≡ n
unfolding atoi
atoi-decimal n small =
    let (c, cs, e, low, high) = decimal-head 9 n [] in
    let number : read_number 10 0 (decimal 10 n []) ≡ n =
      read_number-decimal 10 n [] (omega arith) ∙ read_number-nil 10 n in
    rw (e, unsigned c cs low high) (omega (arith, sym (ap (read_number 10 0) e) ∙ number))

-- Behind `0x` and a digit the base is 16.
hexadecimal :
    (d : ℕ) (cs : List ℕ)
    → d < 16
    → split_base (b'0' ∷ b'x' ∷ upper_digit d ∷ cs) ≡ (16, upper_digit d ∷ cs)
unfolding split_base
hexadecimal d cs small = rw (hex_digit d small, split_base) refl

-- A padded number is read where what stands behind it does not go on with it.
pub strtoul0-hex_before :
    (a : ℕ) (tail : List ℕ)
    → a < 2 ^ 32
    → read_number 16 a tail ≡ a
    → strtoul0 (b'0' ∷ b'x' ∷ padded_hex 8 a tail) ≡ a
unfolding strtoul0 skip_space is_space split_sign padded_hex
strtoul0-hex_before a tail small ends =
    let first = a / 16 / 16 / 16 / 16 / 16 / 16 / 16 % 16 in
    let number : read_number 16 0 (padded_hex 8 a tail) ≡ a =
      read_number-hex 8 a tail (omega arith) ∙ ends in
    rw (hexadecimal first _ (omega arith)) (ground (arith, number))

pub strtoul0-hex : (a : ℕ) → a < 2 ^ 32 → strtoul0 (b'0' ∷ b'x' ∷ padded_hex 8 a []) ≡ a
strtoul0-hex a small = strtoul0-hex_before a [] small (read_number-nil 16 a)

pub strtoul0-byte_before :
    (a : ℕ) (tail : List ℕ)
    → a < 256
    → read_number 16 a tail ≡ a
    → strtoul0 (b'0' ∷ b'x' ∷ padded_hex 2 a tail) ≡ a
unfolding strtoul0 skip_space is_space split_sign padded_hex
strtoul0-byte_before a tail small ends =
    let number : read_number 16 0 (padded_hex 2 a tail) ≡ a =
      read_number-hex 2 a tail (omega arith) ∙ ends in
    rw (hexadecimal (a / 16 % 16) _ (omega arith)) (ground (arith, number))
