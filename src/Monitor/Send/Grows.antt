-- ===== src/Monitor/Send/Grows.antt =====
-- The input of the target grows by what the host sends.
use native.Mathlib.Nat.{mod-add-mod, mod-eq_of_lt, mod_self}
use dmlog.Base.{
  ℕ, zero, suc, ◌+◌, ◌%◌, ◌^◌, ◌≤◌, ◌<◌, ◌≡◌, inl, inr, refl, ap, ap₂, sym, ◌∙◌, Bool, true,
  Bool-cases, Option, List, [], ◌∷◌, ◌++◌, append-nil, append_assoc, arith, length, length-take,
  length-drop, take, drop, ltb, if◌then◌else◌, ◌==◌,
}
use dmlog.Word.{add32}
use dmlog.Cells.{held, tail-add-held, window, window-write}
use dmlog.Context.{Ring}
use dmlog.Monitor.{input_room}
use dmlog.Monitor.Send.{first_part, head_after, write_input, input_room-held, head_after-held}
use dmlog.Transfer.Send.{take-append-drop}
use dmlog.Gdb.Session.Memory.{overwrite}

-- Cells of the ring at `base`.
abbrev pub view : ℕ → (ℕ → ℕ) → ℕ → ℕ
view base cell i = cell (base + i)

module _ (size base tail : ℕ) (tail_in : tail < size) where
  block :
      (cell : ℕ → ℕ) (p n : ℕ) (xs : List ℕ)
      → (0 < length xs → (tail + n) % size ≡ p)
      → p + length xs ≤ size
      → n + length xs ≤ size
      → window size (view base (overwrite cell (base + p) xs)) tail (n + length xs)
        ≡ window size (view base cell) tail n ++ xs
  block cell p n [] reached fits room =
      ap (window size (view base cell) tail) (omega arith)
      ∙ sym (append-nil (window size (view base cell) tail n))
  block cell p n (x ∷ xs) reached fits room =
      let now = reached (omega arith) in
      let put : ℕ → ℕ = λ i. if i == base + p then x else cell i in
      let one : window size (view base put) tail (suc n)
          ≡ window size (view base cell) tail n ++ x ∷ [] =
        window-write size (view base cell) (view base put) x p (ground arith)
          (λ j inside ne. ground arith) tail n tail_in (omega arith) now in
      ap₂ (λ k m. window size (view base (overwrite put k xs)) tail m) (omega arith) (omega arith)
      ∙ block put (p + 1) (suc n) xs (λ more. next p n (length xs) now more fits) (omega arith)
          (omega arith)
      ∙ ap (λ bs. bs ++ xs) one
      ∙ append_assoc (window size (view base cell) tail n) (x ∷ []) xs
    where
      next :
          (p n k : ℕ)
          → (tail + n) % size ≡ p
          → 0 < k
          → p + suc k ≤ size
          → (tail + suc n) % size ≡ p + 1
      next p n k e more fits =
          let step : ((tail + n) % size + 1) % size ≡ (tail + suc n) % size =
            rw mod-add-mod (ap (λ i. i % size) (omega arith)) in
          sym step ∙ ap (λ i. (i + 1) % size) e ∙ mod-eq_of_lt {n = p + 1} {m = size} (omega arith)

around :
    (size tail n k head : ℕ)
    → (tail + n) % size ≡ head
    → head + k ≡ size
    → (tail + (n + k)) % size ≡ 0
around size tail n k head e whole =
    let step : ((tail + n) % size + k) % size ≡ (tail + (n + k)) % size =
      rw mod-add-mod (ap (λ i. i % size) (omega arith)) in
    sym step ∙ ap (λ i. (i + k) % size) e ∙ ap (λ i. i % size) whole ∙ mod_self size

drop_all : (n : ℕ) (xs : List ℕ) → length xs ≤ n → drop n xs ≡ []
drop_all zero [] h = refl
drop_all zero (x ∷ xs) h = absurd (omega arith)
drop_all (suc n) [] h = refl
drop_all (suc n) (x ∷ xs) h = drop_all n xs (omega arith)

module _ {M : Type 0} (read_memory : M → ℕ → ℕ → Option (List ℕ) × M)
    (write_memory : M → ℕ → List ℕ → Bool × M) (resume_briefly : M → M) (cells : M → ℕ → ℕ) where
  -- A write succeeds and stores its bytes.
  abbrev pub Writes : Type 0
  Writes =
      (w : M) (a : ℕ) (bytes : List ℕ)
      → ((write_memory w a bytes).0 ≡ true)
        × (cells (write_memory w a bytes).1 ≡ overwrite (cells w) a bytes)

  -- The bytes of input that the target holds.
  abbrev pub input_of : Ring → ℕ → M → List ℕ
  input_of r head w =
      window r.input_buffer_size (view r.input_buffer (cells w)) r.input_tail_offset
        (held r.input_buffer_size head r.input_tail_offset)

  pub write_input-parts :
      (r : Ring) (input : List ℕ) (w : M)
      → Writes
      → r.input_head_offset < r.input_buffer_size
      → r.input_buffer + r.input_buffer_size ≤ 2 ^ 32
      → let first = first_part r (length input) in
        ((write_input read_memory write_memory resume_briefly r input w).0 ≡ true)
        × (cells (write_input read_memory write_memory resume_briefly r input w).1
            ≡ overwrite
                (overwrite (cells w) (r.input_buffer + r.input_head_offset) (take first input))
                (r.input_buffer + 0)
                (drop first input))
  unfolding write_input
  write_input-parts r input w writes head_in fits =
      let first = first_part r (length input) in
      let address : add32 r.input_buffer r.input_head_offset
          ≡ r.input_buffer + r.input_head_offset =
        omega arith in
      let start : add32 r.input_buffer 0 ≡ r.input_buffer + 0 = omega arith in
      let (done, held_now) = writes w (r.input_buffer + r.input_head_offset) (take first input) in
      let (_, w') = write_memory w (r.input_buffer + r.input_head_offset) (take first input) in
      elim (Bool-cases (ltb first (length input))) [
        | inl round ↦
            let (done', held_then) = writes w' (r.input_buffer + 0) (drop first input) in
            rw (address, done, round, start)
              (
                done',
                held_then ∙ ap (λ c. overwrite c (r.input_buffer + 0) (drop first input)) held_now,
              )
        | inr straight ↦
            let all_gone : drop first input ≡ [] = drop_all first input (ground arith) in
            let stored =
              overwrite (cells w) (r.input_buffer + r.input_head_offset) (take first input) in
            rw (address, done, straight)
              (refl, held_now ∙ sym (ap (overwrite stored (r.input_buffer + 0)) all_gone))
      ]

  -- With a ring whose input positions lie inside it and which lies below 2 ^ 32, over a backend whose
  -- writes succeed and store their bytes: where `monitor_send_input` finds room for the input,
  -- what it writes, in one part or round the end of the ring in two, together with the position
  -- behind it, makes the target's input what it was before and the new bytes behind it.
  pub write_input-grows :
      (r : Ring) (input : List ℕ) (w : M)
      → Writes
      → r.input_head_offset < r.input_buffer_size
      → r.input_tail_offset < r.input_buffer_size
      → r.input_buffer + r.input_buffer_size < 2 ^ 32
      → length input ≤ input_room r
      → let (written, w') = write_input read_memory write_memory resume_briefly r input w in
        (written ≡ true)
        × (input_of r (head_after r (length input)) w' ≡ input_of r r.input_head_offset w ++ input)
  write_input-grows r input w writes head_in tail_in fits room =
      let size = r.input_buffer_size in
      let tail = r.input_tail_offset in
      let n = held size r.input_head_offset tail in
      let first = first_part r (length input) in
      let (done, stored) = write_input-parts r input w writes head_in (omega arith) in
      let now = take first input in
      let later = drop first input in
      let inside = input_room-held r (length input) head_in tail_in (omega arith) room in
      let grown = (head_after-held r (length input) head_in tail_in (omega arith) room).2 in
      let now_length : length now ≡ first = omega (arith, length-take first input) in
      let sizes : n + length now + length later ≡ n + length input =
        omega (arith, now_length, length-drop first input) in
      (
        done,
        ap₂ (λ c k. window size (view r.input_buffer c) tail k) stored (grown ∙ sym sizes)
            ∙ block size r.input_buffer tail tail_in
                (overwrite (cells w) (r.input_buffer + r.input_head_offset) now) 0 (n + length now)
                later
                (λ more.
                  around size tail n (length now) r.input_head_offset
                    (tail-add-held size r.input_head_offset tail head_in tail_in)
                    (omega (arith, now_length, length-drop first input, more, head_in, fits)))
                (omega (arith, sizes, inside)) (omega (arith, sizes, inside))
            ∙ ap (λ bs. bs ++ later)
                (block size r.input_buffer tail tail_in (cells w) r.input_head_offset n now
                  (λ more. tail-add-held size r.input_head_offset tail head_in tail_in)
                  (omega (arith, now_length)) (omega (arith, now_length, inside)))
            ∙ append_assoc (input_of r r.input_head_offset w) now later
            ∙ ap (λ bs. input_of r r.input_head_offset w ++ bs) (take-append-drop first input),
      )
