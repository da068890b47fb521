-- ===== src/Context/Positions.antt =====
-- `get_free_space`, `read_byte_from_tail` and `write_byte_to_tail` as operations on the bytes
-- that the output ring holds.
use native.Mathlib.Decide.{dec_lt}
use dmlog.Base.{
  ℕ, ◌+◌, ◌%◌, ◌^◌, ◌<◌, ◌≡◌, refl, ap, sym, ◌≢◌, true, false, [], ◌∷◌, ◌++◌, arith, set,
  length-set, get_or-set_self, get_or-set_ne,
}
use dmlog.Word.{add32}
use dmlog.Cells.{
  held-lt, held-write, held_full, held-read, held_empty, tail-add-held, window, window_agree,
  window-write,
}
use dmlog.Context.{Context, get_free_space, read_byte_from_tail, write_byte_to_tail}
use dmlog.Context.Invariant.{
  WellFormed, OutputOnly, contents, used, capacity, output_cell, input_contents, input_cell,
  input_used,
}

-- In a well-formed context, `get_free_space` and the bytes that the ring holds add up to one less
-- than the size of the ring.
pub get_free_space-add-used : {c : Context} → WellFormed c → get_free_space c + used c ≡ capacity c
unfolding get_free_space
get_free_space-add-used w = ground arith

-- A position moves on by one without wrapping at 2 ^ 32.
add32-one : (h size : ℕ) → h < size → size < 2 ^ 32 → add32 h 1 ≡ h + 1
add32-one h size p q = omega arith

abbrev advance_tail : Context → Context
advance_tail c = record c {
  ring = record (c.ring) { tail_offset = add32 c.ring.tail_offset 1 % c.ring.buffer_size };
}

read_byte_from_tail-eq :
    {c : Context}
    → WellFormed c
    → used c ≢ 0
    → read_byte_from_tail c ≡ (false, output_cell c c.ring.tail_offset, advance_tail c)
unfolding read_byte_from_tail
read_byte_from_tail-eq w ne = ground arith

advance_tail-OutputOnly : {c : Context} → WellFormed c → OutputOnly c (advance_tail c)
advance_tail-OutputOnly {c} w = record {
  well = ground arith;
  same_size = refl;
  same_clear = refl;
  same_input = refl;
  same_input_entry = refl;
  same_input_offset = refl;
}

contents-advance_tail :
    {c : Context}
    → WellFormed c
    → used c ≢ 0
    → contents c ≡ output_cell c c.ring.tail_offset ∷ contents (advance_tail c)
contents-advance_tail {c} w ne = rw (add32-one tail size w.tail_in (omega arith)) (
    ap (window size (output_cell c) tail)
      (sym (held-read size c.ring.head_offset tail w.head_in w.tail_in (λ e. ne (ground arith)))))
  where
    tail : ℕ
    tail = c.ring.tail_offset

    size : ℕ
    size = c.ring.buffer_size

-- A read takes the oldest byte off, and touches nothing but the output ring.
pub read_byte_from_tail-some :
    {c : Context}
    → WellFormed c
    → used c ≢ 0
    → let (empty, byte, next) = read_byte_from_tail c in
      (empty ≡ false) × (contents c ≡ byte ∷ contents next) × OutputOnly c next
read_byte_from_tail-some {c} w ne =
    rw (read_byte_from_tail-eq w ne) (refl, contents-advance_tail w ne, advance_tail-OutputOnly w)

-- A read of the empty ring says so and changes nothing.
pub read_byte_from_tail-none :
    {c : Context} → WellFormed c → used c ≡ 0 → read_byte_from_tail c ≡ (true, 0, c)
unfolding read_byte_from_tail
read_byte_from_tail-none {c} w e = ground (
  arith,
  held_empty c.ring.buffer_size c.ring.head_offset c.ring.tail_offset w.head_in w.tail_in e,
)

-- What a write changes when there is room.
abbrev put_byte : Context → ℕ → Context
put_byte c byte = record c {
  buffer = set c.buffer c.ring.head_offset byte;
  ring = record (c.ring) { head_offset = add32 c.ring.head_offset 1 % c.ring.buffer_size };
}

next_head_full :
    {c : Context}
    → WellFormed c
    → ((add32 c.ring.head_offset 1 % c.ring.buffer_size ≡ c.ring.tail_offset) → used c ≡ capacity c)
      × ((add32 c.ring.head_offset 1 % c.ring.buffer_size ≢ c.ring.tail_offset)
          → used c < capacity c)
next_head_full {c} w = rw (add32-one head size w.head_in (omega arith)) (
  (λ full. omega (arith, held_full size head tail w.head_in w.tail_in full)),
  (λ room. omega (
    arith,
    held-write size head tail w.head_in w.tail_in room,
    held-lt size ((head + 1) % size) tail (omega arith) w.tail_in,
  )),
)
  where
    head : ℕ
    head = c.ring.head_offset

    tail : ℕ
    tail = c.ring.tail_offset

    size : ℕ
    size = c.ring.buffer_size

write_byte_to_tail-eq :
    {c : Context} (byte : ℕ)
    → WellFormed c
    → used c < capacity c
    → write_byte_to_tail c byte ≡ (true, put_byte c byte)
unfolding write_byte_to_tail
write_byte_to_tail-eq {c} byte w room = ground (arith, next_head_full w)

put_byte-same_input :
    {c : Context} (byte : ℕ) → WellFormed c → input_contents (put_byte c byte) ≡ input_contents c
put_byte-same_input {c} byte w = elim (dec_lt 0 c.ring.input_buffer_size) [
  | yes some_cells ↦
      window_agree c.ring.input_buffer_size (input_cell (put_byte c byte)) (input_cell c)
        (λ i lt. get_or-set_ne c.buffer c.ring.head_offset _ byte 0 (omega arith))
        c.ring.input_tail_offset (input_used c) (omega arith)
  | no no_cells ↦ let unused : input_used c ≡ 0 = ground arith in rw unused
]

contents-put_byte :
    {c : Context} (byte : ℕ)
    → WellFormed c
    → used c < capacity c
    → contents (put_byte c byte) ≡ contents c ++ byte ∷ []
contents-put_byte {c} byte w room = rw (add32-one head size w.head_in (omega arith)) (
    rw (held-write size head tail w.head_in w.tail_in not_full) (
      window-write size (output_cell c) (output_cell (put_byte c byte)) byte head
        (get_or-set_self c.buffer head byte 0 (omega arith))
        (λ j lt ne. get_or-set_ne c.buffer head j byte 0 ne) tail (used c) w.tail_in
        (held-lt size head tail w.head_in w.tail_in)
        (tail-add-held size head tail w.head_in w.tail_in)))
  where
    head : ℕ
    head = c.ring.head_offset

    tail : ℕ
    tail = c.ring.tail_offset

    size : ℕ
    size = c.ring.buffer_size

    not_full : (head + 1) % size ≢ tail
    not_full full = omega (arith, held_full size head tail w.head_in w.tail_in full)

put_byte-OutputOnly : {c : Context} (byte : ℕ) → WellFormed c → OutputOnly c (put_byte c byte)
put_byte-OutputOnly {c} byte w = record {
  well = ground (arith, length-set c.buffer c.ring.head_offset byte);
  same_size = refl;
  same_clear = refl;
  same_input = put_byte-same_input byte w;
  same_input_entry = refl;
  same_input_offset = refl;
}

-- A write into a ring that is not full adds its byte at the end, and touches nothing but the
-- output ring: not the input area either, which lies behind it in the same memory.
pub write_byte_to_tail-some :
    {c : Context} (byte : ℕ)
    → WellFormed c
    → used c < capacity c
    → let (written, next) = write_byte_to_tail c byte in
      (written ≡ true) × (contents next ≡ contents c ++ byte ∷ []) × OutputOnly c next
write_byte_to_tail-some {c} byte w room =
    rw (write_byte_to_tail-eq byte w room)
      (refl, contents-put_byte byte w room, put_byte-OutputOnly byte w)

-- A write into the full ring fails and changes nothing.
pub write_byte_to_tail-none :
    {c : Context} (byte : ℕ)
    → WellFormed c
    → used c ≡ capacity c
    → write_byte_to_tail c byte ≡ (false, c)
unfolding write_byte_to_tail
write_byte_to_tail-none {c} byte w full = ground (arith, next_head_full w)
