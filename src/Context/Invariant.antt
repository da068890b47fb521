-- ===== src/Context/Invariant.antt =====
-- What a context satisfies between the calls of src/dmlog.c: positions inside their rings, the
-- input area behind the output area, offsets inside the line buffers.
use dmlog.Base.{ℕ, ◌+◌, ◌-◌, ◌^◌, ◌≤◌, ◌<◌, max, ◌≡◌, refl, ◌∙◌, Bool, List, length, get_or, take}
use dmlog.Flag
use dmlog.Word.{has}
use dmlog.Cells.{held, window, length-window}
use dmlog.Context.{Context, magic_number, max_entry_size}

pub record WellFormed (c : Context) : Type 0 where
  pub magic : c.ring.magic ≡ magic_number
  pub sizes : c.ring.buffer_size + c.ring.input_buffer_size < 2 ^ 32
  pub memory : length c.buffer ≡ c.ring.buffer_size + c.ring.input_buffer_size
  pub placed : c.ring.input_buffer ≡ c.buffer_address + c.ring.buffer_size
  pub head_in : c.ring.head_offset < c.ring.buffer_size
  pub tail_in : c.ring.tail_offset < c.ring.buffer_size
  pub input_head_in : c.ring.input_head_offset < max 1 c.ring.input_buffer_size
  pub input_tail_in : c.ring.input_tail_offset < max 1 c.ring.input_buffer_size
  pub write_buffer_size : length c.write_buffer ≡ max_entry_size
  pub write_offset_in : c.write_entry_offset ≤ max_entry_size
  pub read_buffer_size : length c.read_buffer ≡ max_entry_size
  pub read_offset_in : c.read_entry_offset ≤ max_entry_size
  pub input_read_buffer_size : length c.input_read_buffer ≡ max_entry_size
  pub input_read_offset_in : c.input_read_entry_offset ≤ max_entry_size

-- How many bytes the output ring can hold.
abbrev pub capacity : Context → ℕ
capacity c = c.ring.buffer_size - 1

abbrev pub used : Context → ℕ
used c = held c.ring.buffer_size c.ring.head_offset c.ring.tail_offset

abbrev pub output_cell : Context → ℕ → ℕ
output_cell c i = get_or c.buffer i 0

-- The bytes in the output ring, oldest first.
abbrev pub contents : Context → List ℕ
contents c = window c.ring.buffer_size (output_cell c) c.ring.tail_offset (used c)

-- The characters of the entry that is being written.
abbrev pub pending : Context → List ℕ
pending c = take c.write_entry_offset c.write_buffer

abbrev pub input_used : Context → ℕ
input_used c = held c.ring.input_buffer_size c.ring.input_head_offset c.ring.input_tail_offset

abbrev pub input_cell : Context → ℕ → ℕ
input_cell c i = get_or c.buffer (c.ring.input_buffer - c.buffer_address + i) 0

-- The bytes in the input ring, oldest first.
abbrev pub input_contents : Context → List ℕ
input_contents c =
    window c.ring.input_buffer_size (input_cell c) c.ring.input_tail_offset (input_used c)

pub length-contents : (c : Context) → length (contents c) ≡ used c
length-contents c = length-window c.ring.buffer_size (output_cell c) c.ring.tail_offset (used c)

abbrev pub clear_asked : Context → Bool
clear_asked c = has c.ring.flags Flag.clear_buffer

-- What the writing side and the reading side of the output leave as it was, in a context that
-- they keep well formed.
pub record OutputOnly (c d : Context) : Type 0 where
  pub well : WellFormed d
  pub same_size : d.ring.buffer_size ≡ c.ring.buffer_size
  pub same_clear : clear_asked d ≡ clear_asked c
  pub same_input : input_contents d ≡ input_contents c
  pub same_input_entry : d.input_read_buffer ≡ c.input_read_buffer
  pub same_input_offset : d.input_read_entry_offset ≡ c.input_read_entry_offset

pub OutputOnly-refl : {c : Context} → WellFormed c → OutputOnly c c
OutputOnly-refl w = record {
  well = w;
  same_size = refl;
  same_clear = refl;
  same_input = refl;
  same_input_entry = refl;
  same_input_offset = refl;
}

pub OutputOnly-trans : {c d e : Context} → OutputOnly c d → OutputOnly d e → OutputOnly c e
OutputOnly-trans p q = record {
  well = q.well;
  same_size = q.same_size ∙ p.same_size;
  same_clear = q.same_clear ∙ p.same_clear;
  same_input = q.same_input ∙ p.same_input;
  same_input_entry = q.same_input_entry ∙ p.same_input_entry;
  same_input_offset = q.same_input_offset ∙ p.same_input_offset;
}
