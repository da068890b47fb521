-- ===== src/Reader.antt =====
-- src/dmlog.c, the reading side: `dmlog_read_next`, `dmlog_getc`, `dmlog_gets`.
-- The result is `none` where the wait of `dmlog_read_next` for the lock does not end by itself.
use dmlog.Base.{
  ℕ, zero, suc, ◌+◌, ◌-◌, ◌%◌, ◌^◌, Bool, true, false, ◌||◌, Option, none, some, List, [], ◌∷◌,
  ◌++◌, get_or, set, drop, length, ltb, leb, ◌==◌, if◌then◌else◌,
}
use dmlog.Word.{add32}
use dmlog.Context.{
  Context, max_entry_size, zeros, is_valid, context_lock, context_unlock, wait_for_unlock,
  read_byte_from_tail,
}
use dmlog.Output.{newline, cstring}
pub mod Entry
pub mod Loop
pub mod ReadNext
pub mod Locks
pub mod Gets

-- The loop of `dmlog_read_next` from turn `i` on, with the turns that are left: the index after
-- the last byte, whether a byte was read, and the context.
unfoldable pub read_loop : ℕ → ℕ → Bool → Context → ℕ × Bool × Context
read_loop zero i result c = (i, result, c)
read_loop (suc turns) i result c =
    let (empty, byte, next) = read_byte_from_tail c in
    let stored = record next { read_buffer = set next.read_buffer i byte } in
    let rest = read_loop turns (i + 1) true stored in
    if empty then (i, result, c) else (if byte == newline then (i + 1, true, stored) else rest)

unfoldable pub read_entry : Context → Bool × Context
read_entry c =
    let (i, result, done) =
      read_loop (max_entry_size - 1) 0 false (record c { read_buffer = zeros max_entry_size }) in
    (
      result,
      record done {
        read_buffer = if ltb i max_entry_size then set done.read_buffer i 0 else done.read_buffer;
        read_entry_offset = 0;
      },
    )

unfoldable pub read_next : Context → Option (Bool × Context)
read_next c =
    if is_valid (some c)
    then (elim (wait_for_unlock c) [
      | none ↦ none
      | some free ↦
          some
            (let (result, done) = read_entry (context_lock free) in (result, context_unlock done))
    ])
    else some (false, c)

-- The null pointer is `none`; otherwise the whole read buffer, of which a reader takes the text.
unfoldable pub get_ref_buffer : Context → Option (List ℕ)
get_ref_buffer c = if is_valid (some c) then some c.read_buffer else none

-- The end of `dmlog_getc`: the next character of the entry, and the unlock.
unfoldable pub take_char : Context → ℕ × Context
take_char c = (
  get_or c.read_buffer c.read_entry_offset 0,
  context_unlock (record c { read_entry_offset = add32 c.read_entry_offset 1 }),
)

-- After `dmlog_read_next`: without an entry `dmlog_getc` returns at once, with no unlock.
unfoldable pub getc_entry : Option (Bool × Context) → Option (ℕ × Context)
getc_entry none = none
getc_entry (some (found, c)) =
    some (if found then take_char (record c { read_entry_offset = 0 }) else (0, c))

unfoldable pub getc : Context → Option (ℕ × Context)
getc c =
    if is_valid (some c)
    then (let held = context_lock c in
        if leb max_entry_size held.read_entry_offset
          || get_or held.read_buffer held.read_entry_offset 0 == 0
        then getc_entry (read_next held)
        else some (take_char held))
    else some (0, c)

-- `size_t` subtraction of one.
abbrev pub pred_size : ℕ → ℕ
pred_size n = (n + 2 ^ 64 - 1) % 2 ^ 64

-- The copying loop of `dmlog_gets`, over the unread bytes, with room for so many.
unfoldable pub copy_line : ℕ → List ℕ → List ℕ
copy_line zero xs = []
copy_line (suc room) [] = []
copy_line (suc room) (x ∷ xs) = x ∷ (if x == newline then [] else copy_line room xs)

-- The bytes of `read_buffer` from `read_entry_offset` up to its `strlen`.
abbrev pub unread : Context → List ℕ
unread c = drop c.read_entry_offset (cstring c.read_buffer)

-- The list is what is stored in `s`, its final 0 included.
unfoldable pub gets : Context → ℕ → Bool × List ℕ × Context
gets c max_len =
    if is_valid (some c)
    then (let held = context_lock c in
        let copied = copy_line (pred_size max_len) (unread held) in
        (
          ltb 0 (length copied),
          copied ++ 0 ∷ [],
          context_unlock
              (record held { read_entry_offset = add32 held.read_entry_offset (length copied) }),
        ))
    else (false, [], c)
