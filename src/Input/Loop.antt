-- ===== src/Input/Loop.antt =====
-- The loop of `dmlog_input_getc`, which takes one entry off the input ring.
use dmlog.Base.{
  ℕ, zero, suc, ◌+◌, ◌%◌, ◌≡◌, ◌≢◌, refl, ap, sym, ◌∙◌, true, false, List, [], ◌∷◌, arith, set,
  length, length-set, ◌==◌, Bool-cases, inl, inr,
}
use dmlog.Word.{add32}
use dmlog.Cells.{held-read, window, length-window}
use dmlog.Context.{Context}
use dmlog.Context.Invariant.{WellFormed, input_contents, input_cell, input_used}
use dmlog.Output.{newline}
use dmlog.Reader.Entry.{entry, after_entry, write_at}
use dmlog.Input.{read_byte_from_input_tail, input_loop}
use dmlog.Input.Stream.{NoZeros, InputOnly, InputOnly-refl, InputOnly-trans}

abbrev advance_input : Context → Context
advance_input c = record c {
  ring = record (c.ring) {
    input_tail_offset = add32 c.ring.input_tail_offset 1 % c.ring.input_buffer_size;
  };
}

pub length-input_contents : (c : Context) → length (input_contents c) ≡ input_used c
length-input_contents c =
    length-window c.ring.input_buffer_size (input_cell c) c.ring.input_tail_offset (input_used c)

advance_input-WellFormed :
    {c : Context} → WellFormed c → input_used c ≢ 0 → WellFormed (advance_input c)
advance_input-WellFormed {c} w ne = ground arith

input_contents-advance :
    {c : Context}
    → WellFormed c
    → input_used c ≢ 0
    → input_contents c ≡ input_cell c c.ring.input_tail_offset ∷ input_contents (advance_input c)
input_contents-advance {c} w ne =
    let wide : add32 tail 1 ≡ tail + 1 = ground arith in
    rw wide (
      ap (window size (input_cell c) tail) (
        sym (
          held-read size c.ring.input_head_offset tail (ground arith) (ground arith)
            (λ e. ne (ground arith)))))
  where
    tail : ℕ
    tail = c.ring.input_tail_offset

    size : ℕ
    size = c.ring.input_buffer_size

read_byte_from_input_tail-eq :
    (c : Context)
    → input_used c ≢ 0
    → read_byte_from_input_tail c ≡ (false, input_cell c c.ring.input_tail_offset, advance_input c)
unfolding read_byte_from_input_tail
read_byte_from_input_tail-eq c ne = ground arith

pub read_input-some :
    {c : Context} (x : ℕ) (xs : List ℕ)
    → WellFormed c
    → input_contents c ≡ x ∷ xs
    → NoZeros xs
    → let (empty, byte, next) = read_byte_from_input_tail c in
      (empty ≡ false)
      × (byte ≡ x)
      × (input_contents next ≡ xs)
      × (next.input_read_buffer ≡ c.input_read_buffer)
      × InputOnly c next
read_input-some {c} x xs w e z =
    let used_up : input_used c ≢ 0 = omega (arith, ap length e, length-input_contents c) in
    let split = sym (input_contents-advance w used_up) ∙ e in
    let rest : input_contents (advance_input c) ≡ xs = ground (arith, split) in
    let clean : NoZeros (input_contents (advance_input c)) = rw rest z in
    rw (read_byte_from_input_tail-eq c used_up) (
      refl,
      ground (arith, split),
      rest,
      refl,
      record {
        well = advance_input-WellFormed w used_up;
        clean = clean;
        same_size = refl;
        same_output = refl;
        same_pending = refl;
        same_clear = refl;
      },
    )

pub read_input-none :
    (c : Context)
    → WellFormed c
    → input_contents c ≡ []
    → read_byte_from_input_tail c ≡ (true, 0, c)
unfolding read_byte_from_input_tail
read_input-none c w e = ground (arith, length-input_contents c, ap length e)

-- The loop from turn `i` on, which takes the bytes `line` and leaves `rest`.
pub record Fetches (i : ℕ) (line rest : List ℕ) (c : Context) (out : ℕ × Context) : Type 0 where
  pub index : out.0 ≡ i + length line
  pub bytes : out.1.input_read_buffer ≡ write_at i line c.input_read_buffer
  pub left : input_contents out.1 ≡ rest
  pub only : InputOnly c out.1

Fetches-stop :
    (i : ℕ) {c : Context} (xs : List ℕ)
    → WellFormed c
    → input_contents c ≡ xs
    → NoZeros xs
    → Fetches i [] xs c (i, c)
Fetches-stop i xs w e z = record {
  index = omega arith;
  bytes = refl;
  left = e;
  only = InputOnly-refl w (rw e z);
}

store-WellFormed :
    {c : Context} (i x : ℕ)
    → WellFormed c
    → WellFormed (record c { input_read_buffer = set c.input_read_buffer i x })
store-WellFormed {c} i x w = ground (arith, length-set c.input_read_buffer i x)

store-InputOnly :
    {c : Context} (i x : ℕ)
    → WellFormed c
    → NoZeros (input_contents c)
    → InputOnly c (record c { input_read_buffer = set c.input_read_buffer i x })
store-InputOnly {c} i x w z = record {
  well = store-WellFormed i x w;
  clean = z;
  same_size = refl;
  same_output = refl;
  same_pending = refl;
  same_clear = refl;
}

pub input_loop-Fetches :
    (turns i : ℕ) (xs : List ℕ) {c : Context}
    → WellFormed c
    → input_contents c ≡ xs
    → NoZeros xs
    → Fetches i (entry turns xs) (after_entry turns xs) c (input_loop turns i c)
unfolding input_loop
input_loop-Fetches zero i xs w e z = Fetches-stop i xs w e z
input_loop-Fetches (suc turns) i [] {c} w e z =
    rw (read_input-none c w e) (Fetches-stop i [] w e tt)
input_loop-Fetches (suc turns) i (x ∷ xs) {c} w e z =
    let (not_empty, byte, rest, buffer, only) = read_input-some x xs w e z.1 in
    let stored = store-InputOnly i x only.well only.clean in
    elim (Bool-cases (x == newline)) [
      | inl ends ↦
          rw (not_empty, byte, ends)
            (record {
              index = refl;
              bytes = ap (λ (b : List ℕ). set b i x) buffer;
              left = rest;
              only = InputOnly-trans only stored;
            })
      | inr goes_on ↦
          let more = input_loop-Fetches turns (i + 1) xs stored.well rest z.1 in
          rw (not_empty, byte, goes_on)
            (record {
              index = omega (arith, more.index);
              bytes =
                  more.bytes
                  ∙ ap (λ (b : List ℕ). write_at (i + 1) (entry turns xs) (set b i x)) buffer;
              left = more.left;
              only = InputOnly-trans only (InputOnly-trans stored more.only);
            })
    ]
