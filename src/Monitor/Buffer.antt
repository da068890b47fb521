-- ===== src/Monitor/Buffer.antt =====
-- `read_from_buffer` takes the oldest bytes off the ring as the host sees it.
use native.Mathlib.Nat.{mod-eq_of_lt, mod-eq-sub-mod, mod_self}
use dmlog.Base.{
  ℕ, zero, suc, ◌+◌, ◌-◌, ◌%◌, ◌^◌, ◌≤◌, ◌<◌, min, ◌≡◌, ◌≢◌, inl, inr, refl, ap, ap₂, sym, ◌∙◌,
  Bool, false, Option, none, some, List, [], ◌∷◌, ◌++◌, arith, leb, ◌==◌, Bool-cases, ne→==,
}
use mathlib.Core.Option.{some-injective}
use dmlog.Word.{add32, sub32}
use dmlog.Cells.{held, window, held-lt}
use dmlog.Context.{Ring}
use dmlog.Monitor.{Monitor, get_left_data_in_buffer, taken, read_rest, read_from_buffer}

-- `n` cells from `h` on, without going round.
abbrev pub slice : (ℕ → ℕ) → ℕ → ℕ → List ℕ
slice cell h zero = []
slice cell h (suc n) = cell h ∷ slice cell (h + 1) n

module _ (size : ℕ) (cell : ℕ → ℕ) where
  window-slice : (h n : ℕ) → h + n ≤ size → window size cell h n ≡ slice cell h n
  window-slice h zero fits = refl
  window-slice h (suc zero) fits = refl
  window-slice h (suc (suc n)) fits = ap (◌∷◌ (cell h)) (
      ap (λ k. window size cell k (suc n)) (mod-eq_of_lt {n = h + 1} {m = size} (omega arith))
      ∙ window-slice (h + 1) (suc n) (omega arith))

  more : (k n : ℕ) → suc k + n ≡ suc (k + n)
  more k n = omega arith

  zero-plus : (n : ℕ) → 0 + n ≡ n
  zero-plus n = omega arith

  -- Going round once.
  window-wrap :
      (h k n : ℕ)
      → h + suc k ≡ size
      → window size cell h (suc k + n) ≡ slice cell h (suc k) ++ window size cell 0 n
  window-wrap h zero n e =
      ap (window size cell h) (more zero n)
      ∙ ap₂ (λ k i. cell h ∷ window size cell k i) (ap (λ k. k % size) e ∙ mod_self size)
          (zero-plus n)
      ∙ refl
  window-wrap h (suc k) n e =
      ap (window size cell h) (more (suc k) n)
      ∙ ap (λ i. cell h ∷ window size cell i (suc k + n))
          (mod-eq_of_lt {n = h + 1} {m = size} (omega arith))
      ∙ ap (◌∷◌ (cell h)) (window-wrap (h + 1) k n (omega arith))

-- The host reads the cells of the ring from the memory of the target, at most so many at a time,
-- from worlds of a kind that its reads do not leave.
abbrev pub Shows :
    {M : Type 0} → (M → ℕ → ℕ → Option (List ℕ) × M) → (M → Type 0) → ℕ → (ℕ → ℕ) → Ring → Type 0
Shows {M} read_memory Rests most cell r =
    (w : M) (h n : ℕ)
    → Rests w
    → n ≤ most
    → h + n ≤ r.buffer_size
    → ((read_memory w (add32 r.buffer h) n).0 ≡ some (slice cell h n))
      × Rests (read_memory w (add32 r.buffer h) n).1

left_data-held :
    (m : Monitor)
    → m.ring.head_offset < m.ring.buffer_size
    → m.tail_offset < m.ring.buffer_size
    → m.ring.buffer_size < 2 ^ 32
    → get_left_data_in_buffer m ≡ held m.ring.buffer_size m.ring.head_offset m.tail_offset
unfolding get_left_data_in_buffer
left_data-held m h t small = ground arith

module _ {M : Type 0} (read_memory : M → ℕ → ℕ → Option (List ℕ) × M)
    (write_memory : M → ℕ → List ℕ → Bool × M) (resume_briefly : M → M) (Rests : M → Type 0)
    (most : ℕ) (cell : ℕ → ℕ) (m : Monitor) (shows : Shows read_memory Rests most cell m.ring)
    (head_in : m.ring.head_offset < m.ring.buffer_size)
    (tail_in : m.tail_offset < m.ring.buffer_size) (small : m.ring.buffer_size < 2 ^ 32) where
  abbrev left : ℕ
  left = held m.ring.buffer_size m.ring.head_offset m.tail_offset

  abbrev before_wrap : ℕ
  before_wrap = m.ring.buffer_size - m.tail_offset

  left_size-eq : sub32 m.ring.buffer_size m.tail_offset ≡ before_wrap
  left_size-eq = omega (arith, tail_in, small)

  taken-some :
      (before : List ℕ) (tail : ℕ) (got : Option (List ℕ) × M) {bytes : List ℕ}
      → got.0 ≡ some bytes
      → taken read_memory write_memory resume_briefly before tail m got
        ≡ (some (before ++ bytes), record m { tail_offset = tail }, got.1)
  taken-some before tail (none, w) e = cc
  taken-some before tail (some b, w) e =
      ap (λ bs. (some (before ++ bs), record m { tail_offset = tail }, w)) (some-injective _ _ e)

  read_rest-some :
      (remaining : ℕ) (got : Option (List ℕ) × M) {start rest : List ℕ}
      → got.0 ≡ some start
      → (read_memory got.1 (add32 m.ring.buffer 0) remaining).0 ≡ some rest
      → read_rest read_memory write_memory resume_briefly remaining m got ≡ (
        some (start ++ rest),
        record m { tail_offset = remaining },
        (read_memory got.1 (add32 m.ring.buffer 0) remaining).1,
      )
  read_rest-some remaining (none, w) e f = cc
  read_rest-some remaining (some b, w) e f =
      rw (← some-injective _ _ e)
        (taken-some b remaining (read_memory w (add32 m.ring.buffer 0) remaining) f)

  some_left : left ≢ 0 → (left == 0) ≡ false
  some_left ne = ne→== left 0 ne

  left_lt : left < m.ring.buffer_size
  left_lt = held-lt m.ring.buffer_size m.ring.head_offset m.tail_offset head_in tail_in

  tail_round :
      (count : ℕ)
      → before_wrap < count
      → count < m.ring.buffer_size
      → (m.tail_offset + count) % m.ring.buffer_size ≡ count - before_wrap
  tail_round count over inside = omega (
    arith,
    mod-eq-sub-mod {n = m.tail_offset + count} {m = m.ring.buffer_size} (omega arith),
    mod-eq_of_lt {n = m.tail_offset + count - m.ring.buffer_size} {m = m.ring.buffer_size}
        (omega arith),
  )

  going_round :
      (count : ℕ)
      → before_wrap < count
      → count < m.ring.buffer_size
      → window m.ring.buffer_size cell m.tail_offset count
        ≡ slice cell m.tail_offset before_wrap ++ slice cell 0 (count - before_wrap)
  going_round count over inside =
      ap (window m.ring.buffer_size cell m.tail_offset) parts
      ∙ window-wrap m.ring.buffer_size cell m.tail_offset (before_wrap - 1) (count - before_wrap)
          (omega (arith, tail_in))
      ∙ ap₂ (λ k rest. slice cell m.tail_offset k ++ rest) back
          (window-slice m.ring.buffer_size cell 0 (count - before_wrap) (omega arith))
    where
      back : suc (before_wrap - 1) ≡ before_wrap
      back = omega (arith, tail_in)

      parts : count ≡ suc (before_wrap - 1) + (count - before_wrap)
      parts = omega (arith, tail_in)

  -- With a ring whose positions lie inside it and which is smaller than 2 ^ 32 bytes, over a
  -- backend that reads the cells of the ring, at most so many at a time and with no more wanted: where
  -- the ring is not empty, `read_from_buffer` stores its oldest bytes, as many as are wanted or all
  -- there are, round the end of the ring where they lie so; the tail moves on by as many; the rest of
  -- what the host keeps is as it was; and the backend still reads the cells.
  pub read_from_buffer-window :
      (wanted : ℕ) (w : M)
      → wanted ≤ most
      → Rests w
      → left ≢ 0
      → let count = min wanted left in
        (w' : M) × (read_from_buffer read_memory write_memory resume_briefly wanted m w ≡ (
          some (window m.ring.buffer_size cell m.tail_offset count),
          record m { tail_offset = (m.tail_offset + count) % m.ring.buffer_size },
          w',
        ))
        × Rests w'
  unfolding read_from_buffer
  read_from_buffer-window wanted w bound rests ne =
      elim (Bool-cases (leb (min wanted left) before_wrap)) [
        | inl fits ↦
            let reached : min wanted left ≤ before_wrap = ground arith in
            let got = shows w m.tail_offset (min wanted left) rests (omega arith) (omega arith) in
            (
              (read_memory w (add32 m.ring.buffer m.tail_offset) (min wanted left)).1,
              rw (left_data-held m head_in tail_in small, left_size-eq, fits, some_left ne)
                  (rw
                    (window-slice m.ring.buffer_size cell m.tail_offset (min wanted left)
                      (omega arith))
                    (taken-some [] _
                      (read_memory w (add32 m.ring.buffer m.tail_offset) (min wanted left)) got.0)),
              got.1,
            )
        | inr round ↦
            let over : before_wrap < min wanted left = ground arith in
            let read_first = read_memory w (add32 m.ring.buffer m.tail_offset) before_wrap in
            let first = shows w m.tail_offset before_wrap rests (omega arith) (omega arith) in
            let second =
              shows read_first.1 0 (min wanted left - before_wrap) first.1 (omega arith)
                (omega (arith, left_lt)) in
            let w' =
              (read_memory read_first.1 (add32 m.ring.buffer 0)
                (min wanted left - before_wrap)).1 in
            (
              w',
              rw (left_data-held m head_in tail_in small, left_size-eq, round, some_left ne)
                  (read_rest-some (min wanted left - before_wrap) read_first first.0 second.0
                    ∙ ap₂ (λ bs t. (some bs, record m { tail_offset = t }, w'))
                        (sym (going_round (min wanted left) over (omega (arith, left_lt))))
                        (sym (tail_round (min wanted left) over (omega (arith, left_lt))))),
              second.1,
            )
      ]
