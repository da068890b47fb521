-- ===== src/Input/Available.antt =====
-- `dmlog_input_available` says whether there is a byte of input.
use dmlog.Base.{
  ℕ, ◌≡◌, refl, ap, ◌∙◌, Bool, true, false, not, ◌||◌, ◌&&◌, List, [], ◌∷◌, ◌++◌, arith, length,
  get_or, lt_of_get_or, ◌==◌, ltb, lt→ltb, Bool-cases, inl, inr, ==_iff, ==→ne,
}
use dmlog.Context.{Context, max_entry_size}
use dmlog.Context.Invariant.{WellFormed, input_contents, input_used}
use dmlog.Context.Lock.{is_valid-WellFormed}
use dmlog.Reader.Entry.{is_cons}
use dmlog.Input.{input_available}
use dmlog.Input.Stream.{cstring-drop_end, cstring-drop_char, fetched, stream}
use dmlog.Input.Loop.{length-input_contents}

and_false : (b : Bool) → false ≡ (b && false)
and_false true = refl
and_false false = refl

is_cons-append : (xs ys : List ℕ) → is_cons (xs ++ ys) ≡ (is_cons ys || is_cons xs)
is_cons-append [] [] = refl
is_cons-append [] (y ∷ ys) = refl
is_cons-append (x ∷ xs) [] = refl
is_cons-append (x ∷ xs) (y ∷ ys) = refl

is_cons-fetched :
    {c : Context}
    → WellFormed c
    → is_cons (fetched c) ≡ (
        ltb c.input_read_entry_offset max_entry_size
        && not (get_or c.input_read_buffer c.input_read_entry_offset 0 == 0))
is_cons-fetched {c} w =
    elim (Bool-cases (get_or c.input_read_buffer c.input_read_entry_offset 0 == 0)) [
      | inl used_up ↦
          rw
            (
              cstring-drop_end c.input_read_entry_offset c.input_read_buffer
                  ((==_iff _ 0).0 used_up),
              used_up,
            )
            (and_false _)
      | inr char ↦
          let some_char = ==→ne (get_or c.input_read_buffer c.input_read_entry_offset 0) 0 char in
          let inside = lt_of_get_or c.input_read_buffer c.input_read_entry_offset 0 some_char in
          rw (
            cstring-drop_char c.input_read_entry_offset c.input_read_buffer some_char,
            char,
            lt→ltb c.input_read_entry_offset max_entry_size
                (omega (arith, w.input_read_buffer_size, inside)),
          )
    ]

is_cons-length : (xs : List ℕ) → is_cons xs ≡ ltb 0 (length xs)
is_cons-length [] = refl
is_cons-length (x ∷ xs) = ground arith

is_cons-input_contents :
    (c : Context)
    → WellFormed c
    → is_cons (input_contents c) ≡ not (c.ring.input_tail_offset == c.ring.input_head_offset)
is_cons-input_contents c w =
    let count : ltb 0 (input_used c) ≡ not (c.ring.input_tail_offset == c.ring.input_head_offset) =
      ground arith in
    is_cons-length (input_contents c) ∙ ap (ltb 0) (length-input_contents c) ∙ count

-- In a well-formed context, `dmlog_input_available` says whether there is a byte of input.
pub input_available-stream : {c : Context} → WellFormed c → input_available c ≡ is_cons (stream c)
unfolding input_available
input_available-stream {c} w = rw (
  is_valid-WellFormed w,
  is_cons-append (fetched c) (input_contents c),
  is_cons-fetched w,
  is_cons-input_contents c w,
)
