-- ===== src/Life.antt =====
-- src/dmlog.c, the life of a context: `dmlog_create` and `dmlog_destroy`.
-- The size that `struct dmlog_ctx` has up to its `buffer`, and the text of the version, which the
-- build defines, are parameters. Where DMOD_ASSERT_MSG returns, the code goes on, as here.
use dmlog.Base.{ℕ, ◌+◌, ◌/◌, Bool, Option, none, some, List, ltb, leb, if◌then◌else◌}
use dmlog.Word.{sub32}
use dmlog.Context.{
  Context, Ring, magic_number, max_entry_size, zeros, clear_bytes, is_valid, context_lock,
  context_unlock, clear,
}
use dmlog.Output.{puts}
pub mod Clear
pub mod Create
pub mod Destroy

abbrev pub sizeof_ring : ℕ
sizeof_ring = 56

-- DMLOG_INPUT_BUFFER_SIZE
abbrev pub default_input_size : ℕ
default_input_size = 512

-- How much of the buffer goes to the input.
unfoldable pub input_part : ℕ → ℕ
input_part total = if leb total default_input_size then total / 5 else default_input_size

-- The context that `dmlog_create` writes over the memory at `buffer`.
unfoldable pub blank : ℕ → Context → ℕ → Context
blank control_size memory buffer_size =
    let total = sub32 buffer_size control_size in
    let input_size = input_part total in
    let output_size = sub32 total input_size in
    record {
      ring = record {
        magic = magic_number;
        flags = 0;
        head_offset = 0;
        tail_offset = 0;
        buffer_size = output_size;
        buffer = memory.buffer_address;
        input_head_offset = 0;
        input_tail_offset = 0;
        input_buffer_size = input_size;
        input_buffer = memory.buffer_address + output_size;
        file_transfer = 0;
      };
      write_buffer = zeros max_entry_size;
      write_entry_offset = 0;
      read_buffer = zeros max_entry_size;
      read_entry_offset = 0;
      input_read_buffer = zeros max_entry_size;
      input_read_entry_offset = 0;
      lock_recursion = 0;
      buffer_address = memory.buffer_address;
      buffer = clear_bytes total memory.buffer;
    }

-- `memory` is what lies at the buffer, read as a context.
unfoldable pub create : ℕ → List ℕ → Context → ℕ → Option Context
create control_size version memory buffer_size =
    if ltb buffer_size sizeof_ring
    then none
    else (if is_valid (some memory)
        then none
        else some (puts (blank control_size memory buffer_size) version).1)

unfoldable pub destroy : Context → Context
destroy c =
    if is_valid (some c)
    then (let cleared = clear (context_lock c) in
        context_unlock (record cleared { ring = record (cleared.ring) { magic = 0 } }))
    else c
