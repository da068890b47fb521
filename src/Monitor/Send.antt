-- ===== src/Monitor/Send.antt =====
-- tools/monitor/monitor.c, `monitor_send_input`: the host writes into the input ring.
use native.Mathlib.Nat.{mod-eq_of_lt, mod-eq-sub-mod}
use native.Mathlib.Decide.{dec_lt}
use dmlog.Base.{
  ℕ, ◌+◌, ◌-◌, ◌%◌, ◌^◌, ◌≤◌, ◌<◌, min, ◌≡◌, sym, ◌∙◌, Bool, true, false, Option, none, some, List,
  arith, length, take, drop, ltb, if◌then◌else◌, ◌==◌,
}
use dmlog.Flag
use dmlog.Word.{add32, sub32, raise}
use dmlog.Cells.{held}
use dmlog.Context.{Ring}
use dmlog.Monitor.{Monitor, input_room, flags_offset, input_head_offset_offset}
use dmlog.Monitor.Commands.{update_ring, write_word}
pub mod Grows

-- How many bytes go before the end of the ring.
abbrev pub first_part : Ring → ℕ → ℕ
first_part r count = min count (sub32 r.input_buffer_size r.input_head_offset)

-- The position that is written back for so many bytes.
unfoldable pub head_after : Ring → ℕ → ℕ
head_after r count =
    if ltb (first_part r count) count
    then count - first_part r count
    else (r.input_head_offset + first_part r count) % r.input_buffer_size

module _ {M : Type 0} (read_memory : M → ℕ → ℕ → Option (List ℕ) × M)
    (write_memory : M → ℕ → List ℕ → Bool × M) (resume_briefly : M → M) where
  -- The two writes of the bytes.
  unfoldable pub write_input : Ring → List ℕ → M → Bool × M
  write_input r input w =
      let first = first_part r (length input) in
      let (written, w') =
        write_memory w (add32 r.input_buffer r.input_head_offset) (take first input) in
      if written
      then (if ltb first (length input)
          then write_memory w' (add32 r.input_buffer 0) (drop first input)
          else (true, w'))
      else (false, w')

  -- The writes of the position and of the flags behind them.
  unfoldable pub announce_input : ℕ → Monitor → M → Bool × Monitor × M
  announce_input count m w =
      let (moved, w') =
        write_word read_memory write_memory resume_briefly m w input_head_offset_offset
          (head_after m.ring count) in
      let flags = raise m.ring.flags Flag.input_available in
      let (raised, w'') =
        write_word read_memory write_memory resume_briefly m w' flags_offset flags in
      if moved
      then (if raised
          then (true, record m { ring = record (m.ring) { flags = flags } }, resume_briefly w'')
          else (false, m, w''))
      else (false, m, w')

  -- After the ring is read anew.
  unfoldable pub put_input : List ℕ → Monitor → M → Bool × Monitor × M
  put_input input m w =
      let (written, w') = write_input m.ring input w in
      let announced = announce_input (length input) m w' in
      if ltb (input_room m.ring) (length input)
      then (false, m, w)
      else (if written then announced else (false, m, w'))

  -- A null `input` is `none`.
  unfoldable pub send_input : Option (List ℕ) → Monitor → M → Bool × Monitor × M
  send_input none m w = (false, m, w)
  send_input (some input) m w =
      let (updated, m', w') = update_ring read_memory write_memory resume_briefly m w in
      let put = put_input input m' w' in
      if length input == 0 then (false, m, w) else (if updated then put else (false, m', w'))

mod-once : (n size : ℕ) → n < size + size → n % size ≡ (if ltb n size then n else n - size)
mod-once n size h = elim (dec_lt n size) [
  | yes p ↦ ground (arith, mod-eq_of_lt p)
  | no p ↦ ground (
    arith,
    mod-eq-sub-mod {n = n} {m = size} (omega arith),
    mod-eq_of_lt {n = n - size} {m = size} (omega arith),
  )
]

pub input_room-held :
    (r : Ring) (count : ℕ)
    → r.input_head_offset < r.input_buffer_size
    → r.input_tail_offset < r.input_buffer_size
    → r.input_buffer_size < 2 ^ 32
    → count ≤ input_room r
    → held r.input_buffer_size r.input_head_offset r.input_tail_offset + count < r.input_buffer_size
unfolding input_room
input_room-held r count head_in tail_in small fits = ground arith

head_after-eq :
    (r : Ring) (count : ℕ)
    → r.input_head_offset < r.input_buffer_size
    → r.input_buffer_size < 2 ^ 32
    → count < r.input_buffer_size
    → head_after r count ≡ (
        if ltb (r.input_head_offset + count) r.input_buffer_size
        then r.input_head_offset + count
        else r.input_head_offset + count - r.input_buffer_size)
unfolding head_after
head_after-eq r count head_in small inside =
    let before : sub32 r.input_buffer_size r.input_head_offset
        ≡ r.input_buffer_size - r.input_head_offset =
      omega arith in
    rw before (
      ground (
        arith,
        mod-once (r.input_head_offset + min count (r.input_buffer_size - r.input_head_offset))
            r.input_buffer_size (omega arith),
      ))

-- In a ring whose input positions lie inside it and which is smaller than 2 ^ 32 bytes, for as
-- many bytes as `monitor_send_input` accepts: the position that it writes lies inside the
-- ring, is that many bytes further on, and makes the ring hold that many bytes more.
pub head_after-held :
    (r : Ring) (count : ℕ)
    → r.input_head_offset < r.input_buffer_size
    → r.input_tail_offset < r.input_buffer_size
    → r.input_buffer_size < 2 ^ 32
    → count ≤ input_room r
    → (head_after r count < r.input_buffer_size)
      × (head_after r count ≡ (r.input_head_offset + count) % r.input_buffer_size)
      × (held r.input_buffer_size (head_after r count) r.input_tail_offset
          ≡ held r.input_buffer_size r.input_head_offset r.input_tail_offset + count)
head_after-held r count head_in tail_in small fits =
    let where_to = head_after-eq r count head_in small (omega (arith, room)) in
    (
      ground (arith, where_to, wrapped),
      where_to ∙ sym wrapped,
      ground (arith, where_to, room, wrapped),
    )
  where
    room :
        held r.input_buffer_size r.input_head_offset r.input_tail_offset + count
        < r.input_buffer_size
    room = input_room-held r count head_in tail_in small fits

    wrapped : (r.input_head_offset + count) % r.input_buffer_size ≡ (
        if ltb (r.input_head_offset + count) r.input_buffer_size
        then r.input_head_offset + count
        else r.input_head_offset + count - r.input_buffer_size)
    wrapped = mod-once (r.input_head_offset + count) r.input_buffer_size (omega (arith, room))
