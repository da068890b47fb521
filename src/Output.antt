-- ===== src/Output.antt =====
-- src/dmlog.c, the writing side: `dmlog_putc`, `dmlog_puts`, `dmlog_putsn`, `dmlog_flush`.
-- A C string is the list of its bytes; what stands from the first 0 on is not part of it.
use dmlog.Base.{
  ℕ, zero, suc, ◌+◌, ◌-◌, Bool, true, false, not, ◌&&◌, some, List, [], ◌∷◌, get_or, set, take,
  length, ltb, ◌==◌, if◌then◌else◌,
}
use dmlog.Flag
use dmlog.Word.{add32, has, lower}
use dmlog.Context.{
  Context, max_entry_size, set_flags, zeros, is_valid, context_lock, context_unlock, get_free_space,
  read_byte_from_tail, write_byte_to_tail, left_entry_space, clear,
}
pub mod Flush
pub mod Putc
pub mod Strings
pub mod Locks

abbrev pub newline : ℕ
newline = 10

-- The bytes of the memory at `s` that `strlen` counts.
abbrev pub cstring : List ℕ → List ℕ
cstring [] = []
cstring (x ∷ s) = if x == 0 then [] else x ∷ cstring s

-- One turn of the loop of `dmlog_flush`: make room by dropping the oldest byte, and write.
unfoldable pub flush_byte : Context → ℕ → Bool × Context
flush_byte c byte =
    write_byte_to_tail (if get_free_space c == 0 then (read_byte_from_tail c).2 else c) byte

-- The loop, over the bytes of `write_buffer` below `write_entry_offset`.
unfoldable pub flush_loop : List ℕ → Context → Bool × Context
flush_loop [] c = (true, c)
flush_loop (x ∷ xs) c =
    let (written, next) = flush_byte c x in
    let rest = flush_loop xs next in if written then rest else (false, next)

unfoldable pub flush : Context → Bool × Context
flush c =
    if is_valid (some c)
    then (let held = context_lock c in
        let (result, done) = flush_loop (take held.write_entry_offset held.write_buffer) held in
        (
          result,
          context_unlock
              (record done { write_buffer = zeros max_entry_size; write_entry_offset = 0 }),
        ))
    else (false, c)

-- The steps of `dmlog_putc` between lock and unlock, in their order.
unfoldable pub obey_clear : Context → Context
obey_clear c =
    if has c.ring.flags Flag.clear_buffer
    then (let cleared = clear c in set_flags cleared (lower cleared.ring.flags Flag.clear_buffer))
    else c

unfoldable pub make_room : Context → Context
make_room c = if left_entry_space c == 0 then (flush c).1 else c

unfoldable pub store_char : Context → ℕ → Bool × Context
store_char c char =
    if ltb 0 (left_entry_space c)
    then (
      true,
      record c {
        write_buffer = set c.write_buffer c.write_entry_offset char;
        write_entry_offset = add32 c.write_entry_offset 1;
      },
    )
    else (false, c)

unfoldable pub end_line : Bool × Context → ℕ → Bool × Context
end_line (result, c) char = if char == newline then flush c else (result, c)

unfoldable pub putc : Context → ℕ → Bool × Context
putc c char =
    if is_valid (some c)
    then (let (result, done) =
          end_line (store_char (make_room (obey_clear (context_lock c))) char) char in
        (result, context_unlock done))
    else (false, c)

unfoldable pub puts_loop : List ℕ → Context → Bool × Context
puts_loop [] c = (true, c)
puts_loop (x ∷ xs) c =
    let (written, next) = putc c x in
    let rest = puts_loop xs next in if written then rest else (false, next)

-- The flush of `dmlog_puts` for a text that does not end its line.
unfoldable pub finish_text : List ℕ → Bool × Context → Bool × Context
finish_text text (result, c) =
    if result && ltb 0 (length text) && not (get_or text (length text - 1) 0 == newline)
    then flush c
    else (result, c)

unfoldable pub puts : Context → List ℕ → Bool × Context
puts c s =
    if is_valid (some c)
    then (let (result, done) = finish_text (cstring s) (puts_loop (cstring s) (context_lock c)) in
        (result, context_unlock done))
    else (false, c)

-- The loop of `dmlog_putsn`: at most `n` characters, up to the first 0.
unfoldable pub putsn_loop : ℕ → List ℕ → Context → Context
putsn_loop zero s c = c
putsn_loop (suc n) [] c = c
putsn_loop (suc n) (x ∷ s) c =
    let (written, next) = putc c x in
    let rest = putsn_loop n s next in if x == 0 then c else (if written then rest else next)

unfoldable pub putsn : Context → List ℕ → ℕ → Bool × Context
putsn c s n = if is_valid (some c) then flush (putsn_loop n s c) else (false, c)
