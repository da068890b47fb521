-- ===== src/Input.antt =====
-- src/dmlog.c, the input ring, which the host fills: `dmlog_input_available`,
-- `dmlog_input_getc`, `dmlog_input_gets`, `dmlog_input_request` and their helpers.
use dmlog.Base.{
  ℕ, zero, suc, ◌+◌, ◌-◌, ◌%◌, Bool, true, false, not, ◌||◌, ◌&&◌, some, List, [], ◌∷◌, ◌++◌,
  bit_and, bit_or, get_or, set, length, ltb, leb, ◌==◌, if◌then◌else◌,
}
use dmlog.Flag
use dmlog.Word.{add32, sub32, raise, lower}
use dmlog.Context.{
  Context, max_entry_size, set_flags, zeros, is_valid, context_lock, context_unlock,
}
use dmlog.Output.{newline}
use dmlog.Reader.{pred_size}
pub mod Stream
pub mod Loop
pub mod Fetch
pub mod Getc
pub mod Available
pub mod Gets
pub mod Request
pub mod Locks

unfoldable pub get_input_free_space : Context → ℕ
get_input_free_space c =
    let free_space =
      if leb c.ring.input_tail_offset c.ring.input_head_offset
      then sub32 c.ring.input_buffer_size (c.ring.input_head_offset - c.ring.input_tail_offset)
      else c.ring.input_tail_offset - c.ring.input_head_offset in
    if ltb 0 free_space then free_space - 1 else 0

-- Where the byte at an offset of the input buffer stands in the context's memory.
abbrev pub input_place : Context → ℕ → ℕ
input_place c offset = c.ring.input_buffer - c.buffer_address + offset

unfoldable pub read_byte_from_input_tail : Context → Bool × ℕ × Context
read_byte_from_input_tail c =
    if c.ring.input_tail_offset == c.ring.input_head_offset then (true, 0, c) else (
      false,
      get_or c.buffer (input_place c c.ring.input_tail_offset) 0,
      record c {
        ring = record (c.ring) {
          input_tail_offset = add32 c.ring.input_tail_offset 1 % c.ring.input_buffer_size;
        };
      },
    )

unfoldable pub write_byte_to_input_head : Context → ℕ → Bool × Context
write_byte_to_input_head c byte =
    let next_head = add32 c.ring.input_head_offset 1 % c.ring.input_buffer_size in
    if next_head == c.ring.input_tail_offset then (false, c) else (
      true,
      record c {
        buffer = set c.buffer (input_place c c.ring.input_head_offset) byte;
        ring = record (c.ring) { input_head_offset = next_head };
      },
    )

-- No character of the entry that `dmlog_input_getc` last fetched is left.
abbrev pub entry_used_up : Context → Bool
entry_used_up c =
    leb max_entry_size c.input_read_entry_offset
    || get_or c.input_read_buffer c.input_read_entry_offset 0 == 0

unfoldable pub input_available : Context → Bool
input_available c =
    is_valid (some c)
    && (not (c.ring.input_tail_offset == c.ring.input_head_offset)
        || (ltb c.input_read_entry_offset max_entry_size
            && not (get_or c.input_read_buffer c.input_read_entry_offset 0 == 0)))

unfoldable pub input_get_free_space : Context → ℕ
input_get_free_space c = if is_valid (some c) then get_input_free_space c else 0

-- The loop of `dmlog_input_getc` from turn `i` on: the index after the last byte it stored.
unfoldable pub input_loop : ℕ → ℕ → Context → ℕ × Context
input_loop zero i c = (i, c)
input_loop (suc turns) i c =
    let (empty, byte, next) = read_byte_from_input_tail c in
    let stored = record next { input_read_buffer = set next.input_read_buffer i byte } in
    let rest = input_loop turns (i + 1) stored in
    if empty then (i, c) else (if byte == newline then (i + 1, stored) else rest)

unfoldable pub fetch_entry : Context → Context
fetch_entry c =
    let (i, done) =
      input_loop (max_entry_size - 1) 0 (record c { input_read_buffer = zeros max_entry_size }) in
    let drained = done.ring.input_tail_offset == done.ring.input_head_offset in
    record (set_flags done
      (if drained then lower done.ring.flags Flag.input_available else done.ring.flags)) {
        input_read_buffer =
            if ltb i max_entry_size then set done.input_read_buffer i 0 else done.input_read_buffer;
        input_read_entry_offset = 0;
      }

-- The next character of the entry, 0 if there is none.
unfoldable pub next_char : Context → ℕ × Context
next_char c =
    let char = get_or c.input_read_buffer c.input_read_entry_offset 0 in
    if char == 0
    then (0, c)
    else (char, record c { input_read_entry_offset = add32 c.input_read_entry_offset 1 })

unfoldable pub input_getc : Context → ℕ × Context
input_getc c =
    if is_valid (some c)
    then (let held = context_lock c in
        let (char, done) = next_char (if entry_used_up held then fetch_entry held else held) in
        (char, context_unlock done))
    else (0, c)

-- The loop of `dmlog_input_gets`, with room for so many characters.
unfoldable pub input_gets_loop : ℕ → Context → List ℕ × Context
input_gets_loop zero c = ([], c)
input_gets_loop (suc room) c =
    let (char, next) = input_getc c in
    let more = input_gets_loop room next in
    if char == 0
    then ([], next)
    else (if char == newline then (char ∷ [], next) else (char ∷ more.0, more.1))

-- The list is what is stored in `s`, its final 0 included.
unfoldable pub input_gets : Context → ℕ → Bool × List ℕ × Context
input_gets c max_len =
    if is_valid (some c)
    then (let (line, done) = input_gets_loop (pred_size max_len) (context_lock c) in
        (ltb 0 (length line), line ++ 0 ∷ [], context_unlock done))
    else (false, [], c)

abbrev pub request_mask : ℕ
request_mask = Flag.input_echo_off + Flag.input_line_mode

unfoldable pub input_request : Context → ℕ → Context
input_request c flags =
    if is_valid (some c)
    then (let held = context_lock c in
        context_unlock (
          set_flags held (
            raise (lower held.ring.flags request_mask)
              (bit_or Flag.input_requested (bit_and flags request_mask)))))
    else c
