-- ===== src/Reader/Gets.antt =====
-- `dmlog_gets` hands out the fetched entry, line by line.
use dmlog.Base.{
  ℕ, zero, suc, ◌+◌, ◌-◌, ◌^◌, ◌≤◌, ◌<◌, ◌≡◌, refl, ap, sym, ◌∙◌, List, [], ◌∷◌, ◌++◌, arith, drop,
  drop-drop, length-drop, length, length-append, ◌==◌, ltb, Bool-cases, inl, inr,
}
use dmlog.Word.{add32}
use dmlog.Context.{Context, max_entry_size, context_lock, context_unlock}
use dmlog.Context.Invariant.{WellFormed, OutputOnly, OutputOnly-trans, contents, pending}
use dmlog.Context.Lock.{is_valid-WellFormed, context_lock-OutputOnly, context_unlock-OutputOnly}
use dmlog.Output.{newline, cstring}
use dmlog.Reader.{pred_size, copy_line, unread, gets}
use dmlog.Reader.Entry.{entry, length-entry-le, is_cons}

copy_line-entry : (room : ℕ) (xs : List ℕ) → copy_line room xs ≡ entry room xs
unfolding copy_line
copy_line-entry zero xs = refl
copy_line-entry (suc room) [] = refl
copy_line-entry (suc room) (x ∷ xs) = rw (copy_line-entry room xs)

entry-append-drop :
    (room : ℕ) (xs : List ℕ) → entry room xs ++ drop (length (entry room xs)) xs ≡ xs
entry-append-drop zero xs = refl
entry-append-drop (suc room) [] = refl
entry-append-drop (suc room) (x ∷ xs) = elim (Bool-cases (x == newline)) [
  | inl ends ↦ rw ends
  | inr goes_on ↦ rw goes_on (ap (◌∷◌ x) (entry-append-drop room xs))
]

length-cstring-le : (b : List ℕ) → length (cstring b) ≤ length b
length-cstring-le [] = omega arith
length-cstring-le (x ∷ b) = elim (Bool-cases (x == 0)) [
  | inl ends ↦ rw ends (omega arith)
  | inr char ↦ rw char (omega (arith, length-cstring-le b))
]

length-entry-le_length : (room : ℕ) (xs : List ℕ) → length (entry room xs) ≤ length xs
length-entry-le_length room xs = omega (
  arith,
  ap length (entry-append-drop room xs),
  length-append (entry room xs) (drop (length (entry room xs)) xs),
)

pub is_cons-length : (xs : List ℕ) → ltb 0 (length xs) ≡ is_cons xs
is_cons-length [] = refl
is_cons-length (x ∷ xs) = ground arith

advance-OutputOnly :
    {c : Context} (n : ℕ)
    → WellFormed c
    → c.read_entry_offset + n ≤ max_entry_size
    → OutputOnly c (record c { read_entry_offset = c.read_entry_offset + n })
advance-OutputOnly {c} n w h = record {
  well = ground arith;
  same_size = refl;
  same_clear = refl;
  same_input = refl;
  same_input_entry = refl;
  same_input_offset = refl;
}

-- In a well-formed context, with a buffer of `max_len` bytes at `s`: `dmlog_gets` stores the next
-- line of the fetched entry, cut where it would not fit, with a 0 behind it; what it stores fits
-- in the buffer; it says whether it stored a character; what it did not store is still unread;
-- and the ring, the pending entry and the input side are as they were.
pub gets-unread :
    (max_len : ℕ) {c : Context}
    → WellFormed c
    → 1 ≤ max_len
    → max_len < 2 ^ 64
    → let (found, stored, done) = gets c max_len in
      let line = entry (max_len - 1) (unread c) in
      (found ≡ is_cons line)
      × (stored ≡ line ++ 0 ∷ [])
      × (length stored ≤ max_len)
      × (line ++ unread done ≡ unread c)
      × (contents done ≡ contents c)
      × (pending done ≡ pending c)
      × OutputOnly c done
unfolding gets context_lock context_unlock
gets-unread max_len {c} w some_room small =
    rw (is_valid-WellFormed w, room, copy_line-entry (max_len - 1) (unread c), add_small)
      (
        is_cons-length line,
        refl,
        omega (arith, length-append line (0 ∷ []), length-entry-le (max_len - 1) (unread c)),
        ap (λ (xs : List ℕ). line ++ xs)
              (sym (drop-drop n c.read_entry_offset (cstring c.read_buffer)))
            ∙ entry-append-drop (max_len - 1) (unread c),
        refl,
        refl,
        OutputOnly-trans locked (OutputOnly-trans moved (context_unlock-OutputOnly moved.well)),
      )
  where
    line : List ℕ
    line = entry (max_len - 1) (unread c)

    locked : OutputOnly c (context_lock c)
    locked = context_lock-OutputOnly w

    n : ℕ
    n = length line

    room : pred_size max_len ≡ max_len - 1
    room = omega arith

    inside : c.read_entry_offset + n ≤ max_entry_size
    inside = omega (
      arith,
      w.read_offset_in,
      w.read_buffer_size,
      length-cstring-le c.read_buffer,
      length-drop c.read_entry_offset (cstring c.read_buffer),
      length-entry-le_length (max_len - 1) (unread c),
    )

    add_small : add32 c.read_entry_offset n ≡ c.read_entry_offset + n
    add_small = omega (arith, inside)

    moved :
        OutputOnly
          (context_lock c)
          (record (context_lock c) { read_entry_offset = (context_lock c).read_entry_offset + n })
    moved = advance-OutputOnly n locked.well inside
