-- ===== src/Gdb/Hex.antt =====
-- Digits that are printed are read back.
use dmlog.Base.{
  ℕ, ◌+◌, ◌*◌, ◌/◌, ◌%◌, ◌≤◌, ◌<◌, ◌≡◌, refl, ap₂, ◌⊎◌, some, List, [], ◌∷◌, ◌++◌, arith, length,
}
use dmlog.Gdb.{
  hex_digit, hex_byte, hex_bytes, digit_value, is_space, read_digits, read_signed, strtoul16,
  parse_hex,
}

-- A digit as it is printed, in the two ranges of its characters.
hex_digit_bounds : (d : ℕ) → d < 16 → (48 ≤ hex_digit d) × (hex_digit d ≤ 102)
unfolding hex_digit
hex_digit_bounds d h = ground arith

pub digit_value-hex_digit : (d : ℕ) → d < 16 → digit_value (hex_digit d) ≡ some d
unfolding digit_value hex_digit
digit_value-hex_digit d h = ground arith

read_two :
    (a b m n : ℕ)
    → 48 ≤ a
    → digit_value a ≡ some m
    → digit_value b ≡ some n
    → strtoul16 (a ∷ b ∷ []) ≡ m * 16 + n
unfolding strtoul16 read_signed read_digits is_space
read_two a b m n big e f = ground arith

pub strtoul16-hex_byte : (x : ℕ) → x < 256 → strtoul16 (hex_byte x) % 256 ≡ x
unfolding hex_byte
strtoul16-hex_byte x h = omega (
  arith,
  read_two (hex_digit (x / 16 % 16)) (hex_digit (x % 16)) (x / 16 % 16) (x % 16)
      ((hex_digit_bounds (x / 16 % 16) (omega arith)).0)
      (digit_value-hex_digit (x / 16 % 16) (omega arith))
      (digit_value-hex_digit (x % 16) (omega arith)),
)

-- Every element fits in a `uint8_t`.
abbrev pub AllBytes : List ℕ → Type 0
AllBytes [] = Unit {0}
AllBytes (x ∷ xs) = (x < 256) × AllBytes xs

-- The bytes that are printed as two digits each are read back, whatever stands behind them.
pub parse_hex-hex_bytes :
    (xs rest : List ℕ) → AllBytes xs → parse_hex (length xs) (hex_bytes xs ++ rest) ≡ xs
unfolding parse_hex hex_bytes hex_byte
parse_hex-hex_bytes [] rest small = refl
parse_hex-hex_bytes (x ∷ xs) rest small =
    ap₂ ◌∷◌ (strtoul16-hex_byte x small.0) (parse_hex-hex_bytes xs rest small.1)

pub length-hex_bytes : (xs : List ℕ) → length (hex_bytes xs) ≡ 2 * length xs
unfolding hex_bytes hex_byte
length-hex_bytes [] = omega arith
length-hex_bytes (x ∷ xs) = omega (arith, length-hex_bytes xs)

-- A digit is neither the end of a packet, nor a repeat, nor the end of a string, nor `S`, `T` or `E`.
pub hex_digit-range :
    (d : ℕ) → d < 16 → (48 ≤ hex_digit d) × ((hex_digit d < 58) ⊎ (97 ≤ hex_digit d))
unfolding hex_digit
hex_digit-range d h = ground arith
