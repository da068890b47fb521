-- ===== src/Context.antt =====
-- The context of src/dmlog.c: `struct dmlog_ctx`, the control block `dmlog_ring_t` of
-- include/dmlog.h at its head, and the operations on the two positions of the output ring.
-- A function that changes `*ctx` returns the new context, after its result if it has one.
-- A byte is a number; `char` and `uint8_t` are converted back and forth without change.
use dmlog.Base.{
  ℕ, zero, suc, ◌+◌, ◌-◌, ◌%◌, Bool, true, false, Option, none, some, List, ◌++◌, get_or, set, drop,
  replicate, ltb, leb, ◌==◌, ◌&&◌, if◌then◌else◌,
}
use dmlog.Flag
use dmlog.Word.{add32, sub32, has, raise, lower}
pub mod Invariant
pub mod Lock
pub mod Positions

abbrev pub magic_number : ℕ
magic_number = 0x444d4c4f

abbrev pub max_entry_size : ℕ
max_entry_size = 500

pub record Ring : Type 0 where
  pub magic : ℕ
  pub flags : ℕ
  pub head_offset : ℕ
  pub tail_offset : ℕ
  pub buffer_size : ℕ
  pub buffer : ℕ
  pub input_head_offset : ℕ
  pub input_tail_offset : ℕ
  pub input_buffer_size : ℕ
  pub input_buffer : ℕ
  pub file_transfer : ℕ

-- `buffer` is the memory from `ctx->buffer` on, both areas of it, and `buffer_address` where it
-- lies; the fields of the ring hold addresses.
pub record Context : Type 0 where
  pub ring : Ring
  pub write_buffer : List ℕ
  pub write_entry_offset : ℕ
  pub read_buffer : List ℕ
  pub read_entry_offset : ℕ
  pub input_read_buffer : List ℕ
  pub input_read_entry_offset : ℕ
  pub lock_recursion : ℕ
  pub buffer_address : ℕ
  pub buffer : List ℕ

abbrev pub set_flags : Context → ℕ → Context
set_flags c f = record c { ring = record (c.ring) { flags = f } }

-- `memset(array, 0, size)` of a whole array.
abbrev pub zeros : ℕ → List ℕ
zeros n = replicate n 0

-- `memset(memory, 0, n)`.
abbrev pub clear_bytes : ℕ → List ℕ → List ℕ
clear_bytes n memory = replicate n 0 ++ drop n memory

-- The null pointer is `none`. The other functions take a context that is there.
unfoldable pub is_valid : Option Context → Bool
is_valid none = false
is_valid (some c) = c.ring.magic == magic_number

-- The busy wait at the start of `context_lock`, for the values that `ring.flags` has at the
-- successive turns: the timeout that is left.
unfoldable pub lock_wait : (ℕ → ℕ) → ℕ → ℕ → ℕ → ℕ
lock_wait reads lock_recursion turn zero = zero
lock_wait reads lock_recursion turn (suc timeout) =
    let rest = lock_wait reads lock_recursion (turn + 1) timeout in
    if lock_recursion == 0 && has (reads turn) Flag.busy then rest else suc timeout

-- What `context_lock` does after the wait, whatever ended that.
unfoldable pub context_lock : Context → Context
context_lock c = record (set_flags c (raise c.ring.flags Flag.busy)) {
  lock_recursion = add32 c.lock_recursion 1;
}

unfoldable pub context_unlock : Context → Context
context_unlock c =
    let depth = if ltb 0 c.lock_recursion then c.lock_recursion - 1 else c.lock_recursion in
    record (set_flags c (if depth == 0 then lower c.ring.flags Flag.busy else c.ring.flags)) {
      lock_recursion = depth;
    }

-- `none` is a wait that goes on: nothing that runs on the target clears the flag meanwhile.
unfoldable pub wait_for_unlock : Context → Option Context
wait_for_unlock c =
    if ltb 0 c.lock_recursion then some c else (if has c.ring.flags Flag.busy then none else some c)

unfoldable pub get_free_space : Context → ℕ
get_free_space c =
    let free_space =
      if leb c.ring.tail_offset c.ring.head_offset
      then sub32 c.ring.buffer_size (c.ring.head_offset - c.ring.tail_offset)
      else c.ring.tail_offset - c.ring.head_offset in
    if ltb 0 free_space then free_space - 1 else 0

-- Whether the ring is empty, and the byte if it is not.
unfoldable pub read_byte_from_tail : Context → Bool × ℕ × Context
read_byte_from_tail c = if c.ring.tail_offset == c.ring.head_offset then (true, 0, c) else (
  false,
  get_or c.buffer c.ring.tail_offset 0,
  record c {
    ring = record (c.ring) { tail_offset = add32 c.ring.tail_offset 1 % c.ring.buffer_size };
  },
)

unfoldable pub write_byte_to_tail : Context → ℕ → Bool × Context
write_byte_to_tail c byte =
    let next_head = add32 c.ring.head_offset 1 % c.ring.buffer_size in
    if next_head == c.ring.tail_offset then (false, c) else (
      true,
      record c {
        buffer = set c.buffer c.ring.head_offset byte;
        ring = record (c.ring) { head_offset = next_head };
      },
    )

unfoldable pub left_entry_space : Context → ℕ
left_entry_space c = if is_valid (some c) then sub32 max_entry_size c.write_entry_offset else 0

unfoldable pub free_space : Context → ℕ
unfolding get_free_space
free_space c = if is_valid (some c) then get_free_space c else 0

-- `dmlog_get_required_size`, for the size that `struct dmlog_ctx` has up to its `buffer`.
unfoldable pub get_required_size : ℕ → ℕ → ℕ
get_required_size control_size buffer_size = control_size + 4 + buffer_size - 4

unfoldable pub clear : Context → Context
clear c =
    if is_valid (some c)
    then (let held = context_lock c in
        context_unlock (record held {
          ring = record (held.ring) {
            head_offset = 0;
            tail_offset = 0;
            buffer = held.buffer_address;
            input_head_offset = 0;
            input_tail_offset = 0;
            flags =
                lower held.ring.flags
                  (Flag.clear_buffer + Flag.input_available + Flag.input_requested);
          };
          write_entry_offset = 0;
          read_entry_offset = 0;
          input_read_entry_offset = 0;
          write_buffer = zeros max_entry_size;
          read_buffer = zeros max_entry_size;
          input_read_buffer = zeros max_entry_size;
          buffer =
              clear_bytes (add32 held.ring.buffer_size held.ring.input_buffer_size) held.buffer;
        }))
    else c

unfoldable pub exit_monitor : Context → Context
exit_monitor c =
    if is_valid (some c)
    then (let held = context_lock c in
        context_unlock (set_flags held (raise held.ring.flags Flag.exit_requested)))
    else c
