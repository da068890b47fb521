-- ===== src/OpenOcd.antt =====
-- tools/monitor/openocd.c, what goes over the telnet line of OpenOCD as text: memory dumps and commands.
-- `isspace`, `isdigit`, `sscanf`, `snprintf` and `strstr` are those of the C library, in the C
-- locale. A character is its byte.
use dmlog.Base.{
  ℕ, zero, suc, ◌+◌, ◌-◌, ◌*◌, ◌/◌, ◌%◌, ◌^◌, Bool, true, false, not, ◌&&◌, ◌||◌, Option, none,
  some, List, [], ◌∷◌, ◌++◌, length, take, drop, min, ltb, leb, ◌==◌, if◌then◌else◌,
}
use dmlog.Output.{cstring}
use dmlog.Gdb.{is_space, read_digits}
use dmlog.Monitor.{from_bytes, to_bytes}
pub mod Dump
pub mod Stores
pub mod Session
pub mod Commands
pub mod Answers
pub mod Connect

unfoldable pub ishexchar : ℕ → Bool
ishexchar c = leb b'0' c && leb c b'9' || leb b'a' c && leb c b'f' || leb b'A' c && leb c b'F'

-- The loop of `contains_prompt` over what it looks at.
unfoldable pub contains_prompt : List ℕ → Bool
contains_prompt [] = false
contains_prompt (c ∷ cs) = c == b'>' || contains_prompt cs

-- `sscanf(s, "%8x")` of text that starts with a hexadecimal digit.
unfoldable pub scan_word : List ℕ → Option ℕ
scan_word (a ∷ b ∷ cs) =
    if a == b'0' && (b == b'x' || b == b'X')
    then (if ishexchar (elim cs [ [] ↦ 0 | c ∷ more ↦ c ])
        then some (read_digits 0 (take 6 cs))
        else none)
    else some (read_digits 0 (take 8 (a ∷ b ∷ cs)))
scan_word (a ∷ []) = some (read_digits 0 (a ∷ []))
scan_word [] = none

-- A word goes into the buffer, its lowest byte first, as far as there is room.
abbrev pub store_word : List ℕ → ℕ → ℕ → List ℕ
store_word stored max_length word =
    stored ++ take (min 4 (max_length - length stored)) (to_bytes 4 word)

-- The loop of `parse_memory_line` behind the `:`, in one pass: `in_word` says that the pointer stands
-- in a word that has been read. The bytes that are stored so far are the buffer up to `offset`.
unfoldable pub parse_words : Bool → List ℕ → ℕ → List ℕ → Bool × List ℕ
parse_words in_word [] max_length stored = (true, stored)
parse_words in_word (c ∷ cs) max_length stored =
    let between = parse_words false cs max_length stored in
    let inside = parse_words true cs max_length stored in
    let read : Bool × List ℕ = elim (scan_word (c ∷ cs)) [
      | none ↦ (false, stored)
      | some word ↦
          let next = parse_words true cs max_length (store_word stored max_length word) in
          if ltb (length stored) max_length then next else (false, stored)
    ] in
    if c == 0 || c == b'\n'
    then (true, stored)
    else (if is_space c
        then between
        else (if in_word then inside else (if ishexchar c then read else (true, stored))))

unfoldable pub parse_memory_line : List ℕ → ℕ → List ℕ → Bool × List ℕ
parse_memory_line [] max_length stored = (false, stored)
parse_memory_line (c ∷ cs) max_length stored =
    let rest = parse_memory_line cs max_length stored in
    let words = parse_words false cs max_length stored in
    if c == 0 then (false, stored) else (if c == b':' then words else rest)

-- Past the end of the line, where there is one.
unfoldable pub next_line : List ℕ → List ℕ
next_line [] = []
next_line (c ∷ cs) =
    let rest = next_line cs in if c == 0 then c ∷ cs else (if c == b'\n' then cs else rest)

-- The loop of `openocd_read_memory` over the lines, on fuel. A pointer at the end of the response
-- is the empty list.
unfoldable pub parse_lines : ℕ → List ℕ → ℕ → List ℕ → List ℕ
parse_lines zero text max_length stored = stored
parse_lines (suc lines) [] max_length stored = stored
parse_lines (suc lines) (c ∷ cs) max_length stored =
    let (parsed, stored') = parse_memory_line (c ∷ cs) max_length stored in
    let rest = parse_lines lines (next_line (c ∷ cs)) max_length stored' in
    if parsed then rest else stored'

-- Behind the first 0 of the response, from the first digit on.
unfoldable pub skip_string : List ℕ → List ℕ
skip_string [] = []
skip_string (c ∷ cs) = let rest = skip_string cs in if c == 0 then c ∷ cs else rest

unfoldable pub skip_to_digit : List ℕ → List ℕ
skip_to_digit [] = []
skip_to_digit (c ∷ cs) =
    let rest = skip_to_digit cs in if leb b'0' c && leb c b'9' then c ∷ cs else rest

-- What is stored of a response.
unfoldable pub parse_response : List ℕ → ℕ → List ℕ
parse_response response max_length =
    let text = skip_to_digit (skip_string response) in parse_lines (length text) text max_length []

-- A digit of `%X`.
abbrev pub upper_digit : ℕ → ℕ
upper_digit d = if ltb d 10 then b'0' + d else b'A' + d - 10

-- `%0nX` of a number of at most `n` digits.
unfoldable pub padded_hex : ℕ → ℕ → List ℕ → List ℕ
padded_hex zero n tail = tail
padded_hex (suc places) n tail = padded_hex places (n / 16) (upper_digit (n % 16) ∷ tail)

-- `%zu`.
unfoldable pub decimal : ℕ → ℕ → List ℕ → List ℕ
decimal zero n tail = tail
decimal (suc places) n tail =
    let more = decimal places (n / 10) ((b'0' + n % 10) ∷ tail) in
    if ltb n 10 then (b'0' + n % 10) ∷ tail else more

-- "mdw 0x%08X %zu".
unfoldable pub read_words_command : ℕ → ℕ → List ℕ
read_words_command address word_count =
    b'm'
    ∷ b'd'
    ∷ b'w'
    ∷ 32
    ∷ b'0'
    ∷ b'x'
    ∷ padded_hex 8 (address % 2 ^ 32) (32 ∷ decimal 20 word_count [])

-- The commands that write memory.
pub data Store : Type 0 where
  word_at : ℕ → ℕ → Store
  byte_at : ℕ → ℕ → Store

-- "mww 0x%08X 0x%08X" and "mwb 0x%08X 0x%02X".
unfoldable pub store_command : Store → List ℕ
store_command (word_at address word) =
    b'm'
    ∷ b'w'
    ∷ b'w'
    ∷ 32
    ∷ b'0'
    ∷ b'x'
    ∷ padded_hex 8 address (32 ∷ b'0' ∷ b'x' ∷ padded_hex 8 word [])
store_command (byte_at address byte) =
    b'm'
    ∷ b'w'
    ∷ b'b'
    ∷ 32
    ∷ b'0'
    ∷ b'x'
    ∷ padded_hex 8 address (32 ∷ b'0' ∷ b'x' ∷ padded_hex 2 byte [])

-- The commands of `openocd_write_memory`, in their order: whole words first, then single bytes.
unfoldable pub stores : ℕ → List ℕ → List Store
stores address [] = []
stores address (a ∷ b ∷ c ∷ d ∷ bytes) =
    word_at (address % 2 ^ 32) (from_bytes (a ∷ b ∷ c ∷ d ∷ [])) ∷ stores (address + 4) bytes
stores address (a ∷ bytes) = byte_at (address % 2 ^ 32) a ∷ stores (address + 1) bytes
