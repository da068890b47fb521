-- ===== src/Reader/Entry.antt =====
-- One log entry: the bytes up to the first newline, or as many as a line buffer takes.
use dmlog.Base.{
  ℕ, zero, suc, ◌+◌, ◌≤◌, ◌≡◌, refl, ap, sym, ◌∙◌, Bool, true, false, List, [], ◌∷◌, ◌++◌, arith,
  append-nil, append_assoc, length, length-set, take, set, take-set, take-set_above, get_or,
  get_or-set_self, length-replicate, ◌==◌, if◌then◌else◌, Bool-cases, inl, inr,
}
use dmlog.Context.{max_entry_size, zeros}
use dmlog.Output.{newline, cstring}

-- The first entry of `xs`, of at most so many bytes, with its newline.
abbrev pub entry : ℕ → List ℕ → List ℕ
entry zero xs = []
entry (suc room) [] = []
entry (suc room) (x ∷ xs) = x ∷ (if x == newline then [] else entry room xs)

-- What stands behind it.
abbrev pub after_entry : ℕ → List ℕ → List ℕ
after_entry zero xs = xs
after_entry (suc room) [] = []
after_entry (suc room) (x ∷ xs) = if x == newline then xs else after_entry room xs

abbrev pub is_cons : List ℕ → Bool
is_cons [] = false
is_cons (x ∷ xs) = true

pub is_cons-false : (xs : List ℕ) → is_cons xs ≡ false → xs ≡ []
is_cons-false [] e = refl
is_cons-false (x ∷ xs) e = cc

pub entry-append-after_entry : (room : ℕ) (xs : List ℕ) → entry room xs ++ after_entry room xs ≡ xs
entry-append-after_entry zero xs = refl
entry-append-after_entry (suc room) [] = refl
entry-append-after_entry (suc room) (x ∷ xs) = elim (Bool-cases (x == newline)) [
  | inl ends ↦ rw ends
  | inr goes_on ↦ rw goes_on (ap (◌∷◌ x) (entry-append-after_entry room xs))
]

pub length-entry-le : (room : ℕ) (xs : List ℕ) → length (entry room xs) ≤ room
length-entry-le zero xs = omega arith
length-entry-le (suc room) [] = omega arith
length-entry-le (suc room) (x ∷ xs) = elim (Bool-cases (x == newline)) [
  | inl ends ↦ rw ends (omega arith)
  | inr goes_on ↦ rw goes_on (omega (arith, length-entry-le room xs))
]

-- Storing bytes one behind the other.
abbrev pub write_at : ℕ → List ℕ → List ℕ → List ℕ
write_at i [] memory = memory
write_at i (x ∷ xs) memory = write_at (i + 1) xs (set memory i x)

pub length-write_at :
    (xs : List ℕ) (i : ℕ) (memory : List ℕ) → length (write_at i xs memory) ≡ length memory
length-write_at [] i memory = refl
length-write_at (x ∷ xs) i memory =
    length-write_at xs (i + 1) (set memory i x) ∙ length-set memory i x

pub take-write_at :
    (xs : List ℕ) (i : ℕ) (memory : List ℕ)
    → i + length xs ≤ length memory
    → take (i + length xs) (write_at i xs memory) ≡ take i memory ++ xs
take-write_at [] i memory h =
    let none_added : i + 0 ≡ i = omega arith in rw none_added (sym (append-nil (take i memory)))
take-write_at (x ∷ xs) i memory h =
    let regroup : i + suc (length xs) ≡ i + 1 + length xs = omega arith in
    let next : i + 1 ≡ suc i = omega arith in
    let stored : take (i + 1) (set memory i x) ≡ take i memory ++ x ∷ [] =
      rw next (take-set i memory x (omega arith)) in
    rw regroup (
      take-write_at xs (i + 1) (set memory i x) (omega (arith, length-set memory i x))
      ∙ ap (λ (ys : List ℕ). ys ++ xs) stored
      ∙ append_assoc (take i memory) (x ∷ []) xs)

-- A buffer that holds an entry and a 0 behind it holds the entry's text.
pub cstring-buffer :
    (xs memory : List ℕ)
    → take (length xs) memory ≡ xs
    → get_or memory (length xs) 0 ≡ 0
    → cstring memory ≡ cstring xs
cstring-buffer [] [] t e = refl
cstring-buffer [] (y ∷ memory) t e = rw e
cstring-buffer (x ∷ xs) [] t e = cc
cstring-buffer (x ∷ xs) (y ∷ memory) t e = ground (arith, cstring-buffer xs memory)

-- The longest entry that a line buffer takes, with room for the final 0.
abbrev pub line_room : ℕ
line_room = 499

pub is_cons-entry : (xs : List ℕ) → is_cons (entry line_room xs) ≡ is_cons xs
is_cons-entry [] = refl
is_cons-entry (x ∷ xs) = refl

-- A line buffer that was cleared, then filled with an entry, then ended by a 0.
pub terminated :
    (xs : List ℕ) {buffer : List ℕ}
    → buffer ≡ write_at 0 (entry line_room xs) (zeros max_entry_size)
    → let n = length (entry line_room xs) in
      (take n (set buffer n 0) ≡ entry line_room xs) × (get_or (set buffer n 0) n 0 ≡ 0)
terminated xs {buffer} e = (
  take-set_above n n buffer 0 (omega arith)
      ∙ ap (take n) e
      ∙ rw from_start at (
          take-write_at (entry line_room xs) 0 (zeros max_entry_size)
            (omega (arith, short, length-replicate {A = ℕ} 500 0))),
  get_or-set_self buffer n 0 0 (
      omega (
        arith,
        short,
        ap length e,
        length-replicate {A = ℕ} 500 0,
        length-write_at (entry line_room xs) 0 (zeros max_entry_size),
      )),
)
  where
    n : ℕ
    n = length (entry line_room xs)

    from_start : 0 + n ≡ n
    from_start = omega arith

    short : n ≤ line_room
    short = length-entry-le line_room xs
