-- ===== src/Kernel/Read.antt =====
-- `Dmod_ReadKernel` asks the host until there is input, and then takes the oldest bytes of it.
use dmlog.Base.{
  ℕ, zero, suc, ◌+◌, ◌≤◌, ◌<◌, ◌≡◌, ◌≢◌, refl, ap, ◌∙◌, true, false, some, List, [], ◌∷◌, arith,
  take, drop,
}
use dmlog.Context.{Context}
use dmlog.Context.Invariant.{WellFormed, input_contents}
use dmlog.Input.{input_available, input_request}
use dmlog.Input.Stream.{NoZeros, stream, InputOnly, InputOnly-refl, InputOnly-trans}
use dmlog.Input.Getc.{input_getc-Gives}
use dmlog.Input.Available.{input_available-stream}
use dmlog.Input.Gets.{char_given}
use dmlog.Reader.Entry.{is_cons}
use dmlog.Kernel.{Kernel, get_default, set_as_default, wait_for_input, read_available, read_kernel}

read_available-Takes :
    (room : ℕ) (xs : List ℕ) {c : Context}
    → WellFormed c
    → NoZeros (input_contents c)
    → stream c ≡ xs
    → ((read_available room c).0 ≡ take room xs)
      × (stream (read_available room c).1 ≡ drop room xs)
      × InputOnly c (read_available room c).1
unfolding read_available
read_available-Takes zero xs w z e = (refl, e, InputOnly-refl w z)
read_available-Takes (suc room) [] {c} w z e =
    let none_left : input_available c ≡ false = input_available-stream w ∙ ap is_cons e in
    rw none_left (refl, e, InputOnly-refl w z)
read_available-Takes (suc room) (x ∷ xs) {c} w z e =
    let some_left : input_available c ≡ true = input_available-stream w ∙ ap is_cons e in
    let g = input_getc-Gives w z in
    let (char, rest, not_zero) = char_given g e in
    let more = read_available-Takes room xs g.only.well g.only.clean rest in
    rw (some_left, char, more.0) (refl, more.1, InputOnly-trans g.only more.2)

-- The memory after so many requests of the wait, each with the host's turn behind it.
abbrev pub waited : (ℕ → Context → Context) → ℕ → ℕ → ℕ → Context → Context
waited host flags turn zero c = c
waited host flags turn (suc n) c =
    waited host flags (turn + 1) n (host turn (input_request c flags))

-- Enough turns for the wait to see the input.
wait_for_input-waited :
    (host : ℕ → Context → Context) (flags : ℕ) (n turns turn : ℕ) (c : Context)
    → n < turns
    → ((m : ℕ) → m < n → input_available (waited host flags turn m c) ≡ false)
    → input_available (waited host flags turn n c) ≡ true
    → wait_for_input turns host turn flags c ≡ some (waited host flags turn n c)
unfolding wait_for_input
wait_for_input-waited host flags n zero turn c enough before now = absurd (omega arith)
wait_for_input-waited host flags zero (suc turns) turn c enough before now = rw now refl
wait_for_input-waited host flags (suc n) (suc turns) turn c enough before now =
    rw (before 0 (omega arith)) (
      wait_for_input-waited host flags n turns (turn + 1) (host turn (input_request c flags))
        (omega arith) (λ m h. before (suc m) (omega arith)) now)

is_cons-true : (xs : List ℕ) → xs ≢ [] → is_cons xs ≡ true
is_cons-true [] ne = absurd (ne refl)
is_cons-true (x ∷ xs) ne = refl

-- `Dmod_ReadKernel` of at least one byte, with a default context: where the host, after `n`
-- requests and not before, has left input in a well-formed memory, and that input holds no 0, it
-- returns as soon as it is given more than `n` turns; what it stores in the buffer are the oldest
-- bytes of the input, `size` of them or all there are; the rest of the input stays in its order;
-- and the output side is as it was.
pub read_kernel-Takes :
    (host : ℕ → Context → Context) (k : Kernel) (n turns size : ℕ) {c : Context}
    → get_default k ≡ some c
    → 1 ≤ size
    → n < turns
    → ((m : ℕ) → m < n → input_available (waited host k.stdin_flags 0 m c) ≡ false)
    → let there = waited host k.stdin_flags 0 n c in
      WellFormed there
      → NoZeros (input_contents there)
      → stream there ≢ []
      → (d : Context) × (read_kernel turns host k false size
          ≡ some (take size (stream there), set_as_default k (some d)))
        × (stream d ≡ drop size (stream there))
        × InputOnly there d
unfolding read_kernel get_default set_as_default
read_kernel-Takes host k n turns zero is_default some_room enough before w z ne =
    absurd (omega arith)
read_kernel-Takes host k n turns (suc room) {c} is_default some_room enough before w z ne =
    let there = waited host k.stdin_flags 0 n c in
    let t = read_available-Takes (suc room) (stream there) w z refl in
    let waits =
      wait_for_input-waited host k.stdin_flags n turns 0 c enough before
        (input_available-stream w ∙ is_cons-true (stream there) ne) in
    (
      (read_available (suc room) there).1,
      rw (read_kernel, is_default, waits, read_kernel, t.0) refl,
      t.1,
      t.2,
    )
