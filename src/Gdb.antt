-- ===== src/Gdb.antt =====
-- tools/monitor/gdb.c, what the GDB remote protocol does to bytes: checksum and frame of a packet,
-- hexadecimal digits, run lengths, stop replies. A character is its byte.
-- `%02x`, `%lx`, `strtoul` and `isxdigit` are those of the C library, in the C locale.
use dmlog.Base.{
  ℕ, zero, suc, ◌+◌, ◌-◌, ◌*◌, ◌/◌, ◌%◌, ◌^◌, Bool, true, false, not, ◌&&◌, ◌||◌, Option, none,
  some, List, [], ◌∷◌, ◌++◌, length, take, min, ltb, leb, ◌==◌, if◌then◌else◌, replicate,
}
use dmlog.Output.{cstring}
pub mod Hex
pub mod Runs
pub mod Session

-- The loop of `gdb_calculate_checksum`, on a `uint8_t`.
unfoldable pub checksum_from : ℕ → List ℕ → ℕ
checksum_from sum [] = sum
checksum_from sum (x ∷ xs) = checksum_from ((sum + x) % 256) xs

unfoldable pub calculate_checksum : List ℕ → ℕ
calculate_checksum xs = checksum_from 0 xs

-- A digit of a number that is printed in base 16.
unfoldable pub hex_digit : ℕ → ℕ
hex_digit d = if ltb d 10 then b'0' + d else b'a' + d - 10

-- `%02x` of a byte.
unfoldable pub hex_byte : ℕ → List ℕ
hex_byte x = hex_digit (x / 16 % 16) ∷ hex_digit (x % 16) ∷ []

unfoldable pub hex_bytes : List ℕ → List ℕ
hex_bytes [] = []
hex_bytes (x ∷ xs) = hex_byte x ++ hex_bytes xs

-- `%lx` and `%zx` of a number below 2 ^ 64: at most 16 digits, with no leading 0.
unfoldable pub hex_digits : ℕ → ℕ → List ℕ → List ℕ
hex_digits zero n tail = tail
hex_digits (suc places) n tail =
    let more = hex_digits places (n / 16) (hex_digit (n % 16) ∷ tail) in
    if ltb n 16 then hex_digit (n % 16) ∷ tail else more

unfoldable pub hex_number : ℕ → List ℕ
hex_number n = hex_digits 16 n []

-- The value of a hexadecimal digit.
unfoldable pub digit_value : ℕ → Option ℕ
digit_value c =
    if leb b'0' c && leb c b'9'
    then some (c - b'0')
    else (if leb b'a' c && leb c b'f'
        then some (c - b'a' + 10)
        else (if leb b'A' c && leb c b'F' then some (c - b'A' + 10) else none))

unfoldable pub is_xdigit : ℕ → Bool
unfolding digit_value
is_xdigit c = elim (digit_value c) [ none ↦ false | some d ↦ true ]

-- `isspace`.
unfoldable pub is_space : ℕ → Bool
is_space c = c == 32 || (leb 9 c && leb c 13)

-- The digits of `strtoul` in base 16, up to the first character that is none. Two digits at most
-- are read here, so that nothing overflows.
unfoldable pub read_digits : ℕ → List ℕ → ℕ
read_digits n [] = n
read_digits n (c ∷ cs) = elim (digit_value c) [ none ↦ n | some d ↦ read_digits (n * 16 + d) cs ]

-- After an optional sign; a prefix `0x` would leave no room for a digit in two characters.
unfoldable pub read_signed : List ℕ → ℕ
read_signed [] = 0
read_signed (c ∷ cs) =
    if c == b'-'
    then (2 ^ 64 - read_digits 0 cs) % 2 ^ 64
    else (if c == b'+' then read_digits 0 cs else read_digits 0 (c ∷ cs))

-- `strtoul(s, NULL, 16)` of a string of at most two characters.
unfoldable pub strtoul16 : List ℕ → ℕ
strtoul16 [] = 0
strtoul16 (c ∷ cs) = if is_space c then strtoul16 cs else read_signed (c ∷ cs)

abbrev pub dollar : ℕ
dollar = b'$'

abbrev pub hash : ℕ
hash = b'#'

-- The packet that `gdb_send_packet` formats.
unfoldable pub frame : List ℕ → List ℕ
frame text = dollar ∷ (cstring text ++ hash ∷ hex_byte (calculate_checksum (cstring text)))

abbrev pub signal_digits : List ℕ → Bool
signal_digits (a ∷ b ∷ rest) = is_xdigit a && is_xdigit b
signal_digits (a ∷ []) = false
signal_digits [] = false

unfoldable pub is_stop_reply : List ℕ → Bool
is_stop_reply [] = false
is_stop_reply (x ∷ xs) = (x == b'S' || x == b'T') && signal_digits (cstring xs)

abbrev pub star : ℕ
star = b'*'

abbrev pub prepend : List ℕ → Option (List ℕ) → Option (List ℕ)
prepend xs none = none
prepend xs (some ys) = some (xs ++ ys)

-- The loop of `gdb_decode_rle`, with the room that is left in the output and the character before
-- the place that is written next, if there is one: what it writes from there on. `none` is the
-- result -1.
unfoldable pub decode_rle_from : List ℕ → ℕ → Option ℕ → Option (List ℕ)
decode_rle_from [] room prev = some []
decode_rle_from (x ∷ []) room prev =
    if room == 0 || x == 0 then some [] else (if x == star then none else some (x ∷ []))
decode_rle_from (x ∷ n ∷ input) room prev =
    let count = min (n - 29) room in
    let plain = prepend (x ∷ []) (decode_rle_from (n ∷ input) (room - 1) (some x)) in
    let run : Option (List ℕ) = elim prev [
      | none ↦ none
      | some before ↦
          prepend (replicate count before) (decode_rle_from input (room - count) (some before))
    ] in
    if room == 0 || x == 0
    then some []
    else (if x == star then (if n == 0 || leb n 29 then none else run) else plain)

unfoldable pub decode_rle : List ℕ → ℕ → Option (List ℕ)
decode_rle input output_size = decode_rle_from input (output_size - 1) none

-- The loop of `gdb_read_memory` over the decoded digits, for so many bytes.
unfoldable pub parse_hex : ℕ → List ℕ → List ℕ
parse_hex zero text = []
parse_hex (suc length) [] = []
parse_hex (suc length) (a ∷ []) = []
parse_hex (suc length) (a ∷ b ∷ text) = strtoul16 (a ∷ b ∷ []) % 256 ∷ parse_hex length text
