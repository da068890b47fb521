-- ===== src/Input/Gets.antt =====
-- `dmlog_input_gets` takes one line of the input.
use dmlog.Base.{
  ℕ, zero, suc, ◌-◌, ◌^◌, ◌≤◌, ◌<◌, ◌≡◌, ◌≢◌, ◌⊎◌, refl, ap, sym, ◌∙◌, List, [], ◌∷◌, ◌++◌, arith,
  length, length-append, ◌==◌, Bool-cases, inl, inr, ne→==,
}
use dmlog.Context.{Context, context_lock, context_unlock}
use dmlog.Context.Invariant.{WellFormed, input_contents}
use dmlog.Context.Lock.{is_valid-WellFormed, context_lock-OutputOnly}
use dmlog.Output.{newline}
use dmlog.Reader.{pred_size}
use dmlog.Reader.Entry.{entry, after_entry, is_cons, length-entry-le}
use dmlog.Reader.Gets.{is_cons-length}
use dmlog.Input.{input_gets_loop, input_gets}
use dmlog.Input.Stream.{NoZeros, stream, InputOnly, InputOnly-refl, InputOnly-trans}
use dmlog.Input.Getc.{Gives, input_getc-Gives, locked_clean, InputOnly-locked}

-- The characters `line` are taken off the input of `c`, which leaves `rest`.
pub record Lines (c : Context) (taken line rest : List ℕ) (d : Context) : Type 0 where
  pub text : taken ≡ line
  pub left : stream d ≡ rest
  pub only : InputOnly c d

nothing_given :
    {c d : Context} {char : ℕ}
    → Gives c char d
    → stream c ≡ []
    → ((char ≡ 0) × (stream d ≡ [])) × InputOnly c d
nothing_given {c} {d} {char} g e = (given g.gives, g.only)
  where
    given :
        ((stream c ≡ []) × (char ≡ 0) × (stream d ≡ []))
          ⊎ ((stream c ≡ char ∷ stream d) × (char ≢ 0))
        → (char ≡ 0) × (stream d ≡ [])
    given (inl n) = (n.1, n.2)
    given (inr s) = cc (sym s.0 ∙ e)

pub char_given :
    {c d : Context} {char x : ℕ} {xs : List ℕ}
    → Gives c char d
    → stream c ≡ x ∷ xs
    → (char ≡ x) × (stream d ≡ xs) × (x ≢ 0)
char_given {c} {d} {char} {x} {xs} g e = given g.gives
  where
    given :
        ((stream c ≡ []) × (char ≡ 0) × (stream d ≡ []))
          ⊎ ((stream c ≡ char ∷ stream d) × (char ≢ 0))
        → (char ≡ x) × (stream d ≡ xs) × (x ≢ 0)
    given (inl n) = cc (sym n.0 ∙ e)
    given (inr s) = let same = sym s.0 ∙ e in ground (arith, same, s.1)

input_gets_loop-Lines :
    (room : ℕ) (xs : List ℕ) {c : Context}
    → WellFormed c
    → NoZeros (input_contents c)
    → stream c ≡ xs
    → Lines c
        (input_gets_loop room c).0
        (entry room xs)
        (after_entry room xs)
        (input_gets_loop room c).1
unfolding input_gets_loop
input_gets_loop-Lines zero xs w z e = record { text = refl; left = e; only = InputOnly-refl w z }
input_gets_loop-Lines (suc room) [] {c} w z e =
    let g = input_getc-Gives w z in
    let (none_left, only) = nothing_given g e in
    rw none_left.0 (record { text = refl; left = none_left.1; only = only })
input_gets_loop-Lines (suc room) (x ∷ xs) {c} w z e =
    let g = input_getc-Gives w z in
    let (char, rest, not_zero) = char_given g e in
    rw (char, ne→== x 0 not_zero)
      (elim (Bool-cases (x == newline)) [
        | inl ends ↦ rw ends (record { text = refl; left = rest; only = g.only })
        | inr goes_on ↦
            let more = input_gets_loop-Lines room xs g.only.well g.only.clean rest in
            rw goes_on (record {
              text = ap (◌∷◌ x) more.text;
              left = more.left;
              only = InputOnly-trans g.only more.only;
            })
      ])

-- In a well-formed context whose input holds no 0, with a buffer of `max_len` bytes at `s`:
-- `dmlog_input_gets` stores the next line of the input, with its newline and a 0 behind it; the
-- line is cut where it would not fit; what it stores fits in the buffer; it says whether it
-- stored a character; and the rest of the input stays in its order.
pub input_gets-Lines :
    (max_len : ℕ) {c : Context}
    → WellFormed c
    → NoZeros (input_contents c)
    → 1 ≤ max_len
    → max_len < 2 ^ 64
    → let (found, stored, done) = input_gets c max_len in
      let line = entry (max_len - 1) (stream c) in
      (found ≡ is_cons line)
      × (stored ≡ line ++ 0 ∷ [])
      × (length stored ≤ max_len)
      × (stream done ≡ after_entry (max_len - 1) (stream c))
      × InputOnly c done
unfolding input_gets context_lock context_unlock
input_gets-Lines max_len {c} w z some_room small =
    let locked = context_lock-OutputOnly w in
    let room : pred_size max_len ≡ max_len - 1 = omega arith in
    let loop = input_gets_loop-Lines (max_len - 1) (stream c) locked.well (locked_clean c z) refl in
    rw (is_valid-WellFormed w, room, loop.text)
      (
        is_cons-length (entry (max_len - 1) (stream c)),
        refl,
        omega (
          arith,
          length-append (entry (max_len - 1) (stream c)) (0 ∷ []),
          length-entry-le (max_len - 1) (stream c),
        ),
        loop.left,
        InputOnly-locked w loop.only,
      )
