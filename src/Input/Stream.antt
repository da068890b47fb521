-- ===== src/Input/Stream.antt =====
-- The input of a context as the firmware sees it: the characters of the entry that was fetched
-- last, and the bytes of the input ring behind them.
use dmlog.Base.{
  ℕ, zero, suc, ◌≡◌, ◌≢◌, refl, ◌∙◌, List, [], ◌∷◌, ◌++◌, arith, drop, get_or, ◌==◌, Bool-cases,
  inl, inr,
}
use dmlog.Context.{Context}
use dmlog.Context.Invariant.{WellFormed, contents, pending, input_contents, clear_asked}
use dmlog.Output.{cstring, newline}
use dmlog.Reader.Entry.{entry, after_entry}

-- No byte is 0, the character that stands for "no input".
abbrev pub NoZeros : List ℕ → Type 0
NoZeros [] = Unit {0}
NoZeros (x ∷ xs) = (x ≢ 0) × NoZeros xs

pub NoZeros-entry :
    (room : ℕ) (xs : List ℕ) → NoZeros xs → NoZeros (entry room xs) × NoZeros (after_entry room xs)
NoZeros-entry zero xs h = (tt, h)
NoZeros-entry (suc room) [] h = (tt, tt)
NoZeros-entry (suc room) (x ∷ xs) h = elim (Bool-cases (x == newline)) [
  | inl ends ↦ rw ends ((h.0, tt), h.1)
  | inr goes_on ↦ let more = NoZeros-entry room xs h.1 in rw goes_on ((h.0, more.0), more.1)
]

pub cstring-NoZeros : (xs : List ℕ) → NoZeros xs → cstring xs ≡ xs
cstring-NoZeros [] h = refl
cstring-NoZeros (x ∷ xs) h = ground (arith, cstring-NoZeros xs h.1)

-- The text from a position on, by the byte at the position.
pub cstring-drop_end : (i : ℕ) (b : List ℕ) → get_or b i 0 ≡ 0 → cstring (drop i b) ≡ []
cstring-drop_end zero [] e = refl
cstring-drop_end (suc i) [] e = refl
cstring-drop_end zero (x ∷ b) e = rw e
cstring-drop_end (suc i) (x ∷ b) e = cstring-drop_end i b e

pub cstring-drop_char :
    (i : ℕ) (b : List ℕ)
    → get_or b i 0 ≢ 0
    → cstring (drop i b) ≡ get_or b i 0 ∷ cstring (drop (suc i) b)
cstring-drop_char zero [] ne = absurd (ne refl)
cstring-drop_char (suc i) [] ne = absurd (ne refl)
cstring-drop_char zero (x ∷ b) ne = ground arith
cstring-drop_char (suc i) (x ∷ b) ne = cstring-drop_char i b ne

abbrev pub fetched : Context → List ℕ
fetched c = cstring (drop c.input_read_entry_offset c.input_read_buffer)

abbrev pub stream : Context → List ℕ
stream c = fetched c ++ input_contents c

-- What the input side leaves as it was.
pub record InputOnly (c d : Context) : Type 0 where
  pub well : WellFormed d
  pub clean : NoZeros (input_contents d)
  pub same_size : d.ring.buffer_size ≡ c.ring.buffer_size
  pub same_output : contents d ≡ contents c
  pub same_pending : pending d ≡ pending c
  pub same_clear : clear_asked d ≡ clear_asked c

pub InputOnly-refl : {c : Context} → WellFormed c → NoZeros (input_contents c) → InputOnly c c
InputOnly-refl w z = record {
  well = w;
  clean = z;
  same_size = refl;
  same_output = refl;
  same_pending = refl;
  same_clear = refl;
}

pub InputOnly-trans : {c d e : Context} → InputOnly c d → InputOnly d e → InputOnly c e
InputOnly-trans p q = record {
  well = q.well;
  clean = q.clean;
  same_size = q.same_size ∙ p.same_size;
  same_output = q.same_output ∙ p.same_output;
  same_pending = q.same_pending ∙ p.same_pending;
  same_clear = q.same_clear ∙ p.same_clear;
}
