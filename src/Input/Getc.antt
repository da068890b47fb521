-- ===== src/Input/Getc.antt =====
-- `dmlog_input_getc` takes the next byte of the input.
use dmlog.Base.{
  ℕ, suc, ◌≡◌, ◌≢◌, ◌⊎◌, refl, ap, sym, ◌∙◌, true, false, List, [], ◌∷◌, ◌++◌, arith, get_or,
  get_or_above, lt_of_get_or, ◌==◌, if◌then◌else◌, Bool-cases, inl, inr, ==_iff, ==→ne,
}
use dmlog.Word.{add32}
use dmlog.Context.{Context, context_lock, context_unlock}
use dmlog.Context.Invariant.{WellFormed, input_contents}
use dmlog.Context.Lock.{is_valid-WellFormed, context_lock-OutputOnly, context_unlock-OutputOnly}
use dmlog.Reader.Entry.{is_cons, is_cons-false}
use dmlog.Input.{fetch_entry, entry_used_up, next_char, input_getc}
use dmlog.Input.Stream.{
  NoZeros, cstring-drop_end, cstring-drop_char, fetched, stream, InputOnly, InputOnly-refl,
  InputOnly-trans,
}
use dmlog.Input.Fetch.{fetch_entry-Fetched}

-- `dmlog_input_getc`, in terms of the stream: it takes the first byte off, or says 0.
pub record Gives (c : Context) (char : ℕ) (d : Context) : Type 0 where
  pub only : InputOnly c d
  pub gives :
      ((stream c ≡ []) × (char ≡ 0) × (stream d ≡ [])) ⊎ ((stream c ≡ char ∷ stream d) × (char ≢ 0))

advance_char-WellFormed :
    {c : Context}
    → WellFormed c
    → get_or c.input_read_buffer c.input_read_entry_offset 0 ≢ 0
    → WellFormed (record c { input_read_entry_offset = suc c.input_read_entry_offset })
advance_char-WellFormed {c} w ne =
    let inside = lt_of_get_or c.input_read_buffer c.input_read_entry_offset 0 ne in ground arith

advance_char-InputOnly :
    {c : Context}
    → WellFormed c
    → NoZeros (input_contents c)
    → get_or c.input_read_buffer c.input_read_entry_offset 0 ≢ 0
    → InputOnly c (record c { input_read_entry_offset = suc c.input_read_entry_offset })
advance_char-InputOnly w z ne = record {
  well = advance_char-WellFormed w ne;
  clean = z;
  same_size = refl;
  same_output = refl;
  same_pending = refl;
  same_clear = refl;
}

next_char-Gives :
    {c : Context}
    → WellFormed c
    → NoZeros (input_contents c)
    → is_cons (fetched c) ≡ is_cons (stream c)
    → Gives c (next_char c).0 (next_char c).1
unfolding next_char
next_char-Gives {c} w z primed = elim (Bool-cases (get_or buffer i 0 == 0)) [
  | inl used_up ↦
      let nothing = cstring-drop_end i buffer ((==_iff _ 0).0 used_up) in
      let empty = is_cons-false (stream c) (sym primed ∙ ap is_cons nothing) in
      rw used_up (record { only = InputOnly-refl w z; gives = inl (empty, refl, empty) })
  | inr char ↦
      let some_char = ==→ne (get_or buffer i 0) 0 char in
      rw (char, one_more)
        (record {
          only = advance_char-InputOnly w z some_char;
          gives = inr (
            ap (λ (xs : List ℕ). xs ++ input_contents c) (cstring-drop_char i buffer some_char),
            some_char,
          );
        })
]
  where
    i : ℕ
    i = c.input_read_entry_offset

    buffer : List ℕ
    buffer = c.input_read_buffer

    one_more : add32 i 1 ≡ suc i
    one_more = omega (arith, w.input_read_offset_in)

Gives-after :
    {c d e : Context} {char : ℕ}
    → InputOnly c d
    → stream d ≡ stream c
    → Gives d char e
    → Gives c char e
Gives-after only same g = record { only = InputOnly-trans only g.only; gives = rw same at g.gives }

used_up_zero :
    {c : Context}
    → WellFormed c
    → entry_used_up c ≡ true
    → get_or c.input_read_buffer c.input_read_entry_offset 0 ≡ 0
used_up_zero {c} w e = ground (arith, get_or_above c.input_read_buffer c.input_read_entry_offset 0)

not_used_up :
    (c : Context)
    → entry_used_up c ≡ false
    → get_or c.input_read_buffer c.input_read_entry_offset 0 ≢ 0
not_used_up c e = ground arith

-- The fetch, where it is due.
refill-Gives :
    {c : Context}
    → WellFormed c
    → NoZeros (input_contents c)
    → let out = next_char (if entry_used_up c then fetch_entry c else c) in Gives c out.0 out.1
refill-Gives {c} w z = elim (Bool-cases (entry_used_up c)) [
  | inl used_up ↦
      let f = fetch_entry-Fetched w z in
      let nothing : fetched c ≡ [] =
        cstring-drop_end c.input_read_entry_offset c.input_read_buffer (used_up_zero w used_up) in
      rw used_up (
        Gives-after f.only
          (f.same_stream ∙ ap (λ (xs : List ℕ). xs ++ input_contents c) (sym nothing))
          (next_char-Gives f.only.well f.only.clean (f.primed ∙ ap is_cons (sym f.same_stream))))
  | inr some_left ↦
      rw some_left (next_char-Gives w z (rw (cstring-drop_char _ _ (not_used_up c some_left))))
]

-- What happens to the input under the lock.
pub InputOnly-locked :
    {c d : Context} → WellFormed c → InputOnly (context_lock c) d → InputOnly c (context_unlock d)
unfolding context_lock context_unlock
InputOnly-locked w only = record {
  well = (context_unlock-OutputOnly only.well).well;
  clean = only.clean;
  same_size = only.same_size;
  same_output = only.same_output;
  same_pending = only.same_pending;
  same_clear =
      (context_unlock-OutputOnly only.well).same_clear
      ∙ only.same_clear
      ∙ (context_lock-OutputOnly w).same_clear;
}

Gives-locked :
    {c d : Context} {char : ℕ}
    → WellFormed c
    → Gives (context_lock c) char d
    → Gives c char (context_unlock d)
unfolding context_lock context_unlock
Gives-locked w g = record { only = InputOnly-locked w g.only; gives = g.gives }

pub locked_clean :
    (c : Context) → NoZeros (input_contents c) → NoZeros (input_contents (context_lock c))
unfolding context_lock
locked_clean c z = z

-- In a well-formed context whose input holds no 0, `dmlog_input_getc` takes the oldest byte of
-- the input off and returns it, or returns 0 if there is none; the output side is as it was.
pub input_getc-Gives :
    {c : Context}
    → WellFormed c
    → NoZeros (input_contents c)
    → Gives c (input_getc c).0 (input_getc c).1
unfolding input_getc
input_getc-Gives {c} w z =
    rw (is_valid-WellFormed w)
      (Gives-locked w (refill-Gives (context_lock-OutputOnly w).well (locked_clean c z)))
