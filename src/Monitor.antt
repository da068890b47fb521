-- ===== src/Monitor.antt =====
-- tools/monitor/monitor.c: what the host keeps of a context of the target, and how it reads and
-- writes it. `backend_read_memory` and `backend_write_memory` are parameters, and so is
-- `gdb_resume_briefly`, which is the identity for a backend other than gdb. `M` is the world behind
-- them: the target runs between the calls, so each of them returns a new one.
-- A wait is on fuel, `none` where it is not over by then; the sleeps inside it are the target's.
use dmlog.Base.{
  ℕ, zero, suc, ◌+◌, ◌-◌, ◌*◌, ◌/◌, ◌%◌, ◌^◌, min, Bool, true, false, not, ◌||◌, ◌&&◌, Option, none,
  some, List, [], ◌∷◌, ◌++◌, length, take, drop, ltb, leb, ◌==◌, if◌then◌else◌,
}
use dmlog.Flag
use dmlog.Word.{add32, sub32, has, raise, lower}
use dmlog.Context.{Ring, magic_number, max_entry_size, zeros}
use dmlog.Life.{sizeof_ring}
pub mod Bytes
pub mod Buffer
pub mod Commands
pub mod Send
pub mod Files
pub mod Answer
pub mod Run
pub mod Connect
pub mod Snapshot
pub mod Terminal

-- A number in memory, its lowest byte first.
unfoldable pub from_bytes : List ℕ → ℕ
from_bytes [] = 0
from_bytes (x ∷ bs) = x + 256 * from_bytes bs

unfoldable pub to_bytes : ℕ → ℕ → List ℕ
to_bytes zero v = []
to_bytes (suc n) v = v % 256 ∷ to_bytes n (v / 256)

-- `n` bytes of a packed struct, from an offset on.
abbrev field : List ℕ → ℕ → ℕ → ℕ
field bytes offset n = from_bytes (take n (drop offset bytes))

-- `dmlog_ring_t` in memory.
unfoldable pub ring_of_bytes : List ℕ → Ring
ring_of_bytes bytes = record {
  magic = field bytes 0 4;
  flags = field bytes 4 4;
  head_offset = field bytes 8 4;
  tail_offset = field bytes 12 4;
  buffer_size = field bytes 16 4;
  buffer = field bytes 20 8;
  input_head_offset = field bytes 28 4;
  input_tail_offset = field bytes 32 4;
  input_buffer_size = field bytes 36 4;
  input_buffer = field bytes 40 8;
  file_transfer = field bytes 48 8;
}

abbrev pub flags_offset : ℕ
flags_offset = 4

abbrev pub input_head_offset_offset : ℕ
input_head_offset_offset = 28

-- What `monitor_ctx_t` keeps of the target.
pub record Monitor : Type 0 where
  pub ring : Ring
  pub ring_address : ℕ
  pub tail_offset : ℕ
  pub entry_buffer : List ℕ
  pub owns_busy_flag : Bool

unfoldable pub get_left_data_in_buffer : Monitor → ℕ
get_left_data_in_buffer m =
    if leb m.tail_offset m.ring.head_offset
    then m.ring.head_offset - m.tail_offset
    else sub32 m.ring.buffer_size (m.tail_offset - m.ring.head_offset)

unfoldable pub is_buffer_empty : Monitor → Bool
is_buffer_empty m = m.ring.head_offset == m.tail_offset

-- The room for the input that the ring shows.
unfoldable pub input_room : Ring → ℕ
input_room r =
    let free_space =
      if leb r.input_tail_offset r.input_head_offset
      then sub32 r.input_buffer_size (r.input_head_offset - r.input_tail_offset)
      else r.input_tail_offset - r.input_head_offset in
    if ltb 0 free_space then free_space - 1 else 0

module _ {M : Type 0} (read_memory : M → ℕ → ℕ → Option (List ℕ) × M)
    (write_memory : M → ℕ → List ℕ → Bool × M) (resume_briefly : M → M) where
  -- What a call leaves: whether it succeeded, the monitor and the world.
  abbrev pub Outcome : Type 0
  Outcome = Option (Bool × Monitor × M)

  -- Going on after success only.
  abbrev pub and_then : Outcome → (Monitor → M → Outcome) → Outcome
  and_then none next = none
  and_then (some (false, m, w)) next = some (false, m, w)
  and_then (some (true, m, w)) next = next m w

  -- The end of a read: the bytes are there, and the tail moves. `dst` is the entry buffer, where the
  -- bytes before stay if the rest cannot be read.
  abbrev pub taken : List ℕ → ℕ → Monitor → Option (List ℕ) × M → Option (List ℕ) × Monitor × M
  taken before tail m (none, w) =
      (none, record m { entry_buffer = before ++ drop (length before) m.entry_buffer }, w)
  taken before tail m (some bytes, w) = (some (before ++ bytes), record m { tail_offset = tail }, w)

  -- The second part of a read that goes round.
  abbrev pub read_rest : ℕ → Monitor → Option (List ℕ) × M → Option (List ℕ) × Monitor × M
  read_rest remaining m (none, w) = (none, m, w)
  read_rest remaining m (some start, w) =
      taken start remaining m (read_memory w (add32 m.ring.buffer 0) remaining)

  -- The bytes that are stored at `dst`, if the read succeeds.
  unfoldable pub read_from_buffer : ℕ → Monitor → M → Option (List ℕ) × Monitor × M
  read_from_buffer wanted m w =
      let available = get_left_data_in_buffer m in
      let count = min wanted available in
      let left_size = sub32 m.ring.buffer_size m.tail_offset in
      let address = add32 m.ring.buffer m.tail_offset in
      if available == 0
      then (none, m, w)
      else (if leb count left_size
          then taken [] ((m.tail_offset + count) % m.ring.buffer_size) m
              (read_memory w address count)
          else read_rest (count - left_size) m (read_memory w address left_size))
