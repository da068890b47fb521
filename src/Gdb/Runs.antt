-- ===== src/Gdb/Runs.antt =====
-- Run lengths: what `gdb_decode_rle` makes of text that is written as characters with repeats.
use dmlog.Base.{
  ℕ, zero, suc, ◌+◌, ◌-◌, ◌≤◌, ◌≡◌, ◌≢◌, refl, ap, sym, ◌∙◌, inl, inr, false, Option, none, some,
  List, [], ◌∷◌, ◌++◌, arith, take, min, replicate, leb, ◌==◌, if◌then◌else◌, ne→==, Bool-cases,
}
use dmlog.Gdb.{star, prepend, decode_rle_from, decode_rle}

-- A character and how often it is repeated behind its first time.
pub record Run : Type 0 where
  pub char : ℕ
  pub repeats : ℕ

-- A run that is repeated is written with `*` and a character that stands for the number.
abbrev pub written : Run → List ℕ
written r = if r.repeats == 0 then r.char ∷ [] else r.char ∷ star ∷ (r.repeats + 29) ∷ []

abbrev pub encode : List Run → List ℕ
encode [] = []
encode (r ∷ rs) = written r ++ encode rs

abbrev pub expand : List Run → List ℕ
expand [] = []
expand (r ∷ rs) = r.char ∷ (replicate r.repeats r.char ++ expand rs)

-- Characters that are neither `*` nor the end of the string.
abbrev pub Plain : List Run → Type 0
Plain [] = Unit {0}
Plain (r ∷ rs) = (r.char ≢ 0) × (r.char ≢ star) × Plain rs

suc-==_zero : (n : ℕ) → (suc n == 0) ≡ false
suc-==_zero n = ground arith

decode-char :
    (x : ℕ) (input : List ℕ) (room : ℕ) (prev : Option ℕ)
    → x ≢ 0
    → x ≢ star
    → decode_rle_from (x ∷ input) (suc room) prev
      ≡ prepend (x ∷ []) (decode_rle_from input room (some x))
unfolding decode_rle_from
decode-char x [] room prev not_end not_star =
    rw (suc-==_zero room, ne→== x 0 not_end, ne→== x star not_star) refl
decode-char x (n ∷ input) room prev not_end not_star =
    let less : suc room - 1 ≡ room = omega arith in
    rw (suc-==_zero room, ne→== x 0 not_end, ne→== x star not_star, less) refl

decode-none : (input : List ℕ) (prev : Option ℕ) → decode_rle_from input 0 prev ≡ some []
unfolding decode_rle_from
decode-none [] prev = refl
decode-none (x ∷ []) prev = refl
decode-none (x ∷ n ∷ input) prev = refl

decode-star :
    (k : ℕ) (input : List ℕ) (room y : ℕ)
    → 1 ≤ k
    → decode_rle_from (star ∷ (k + 29) ∷ input) (suc room) (some y)
      ≡ prepend
          (replicate (min k (suc room)) y)
          (decode_rle_from input (suc room - min k (suc room)) (some y))
unfolding decode_rle_from
decode-star k input room y some_repeat =
    let count : k + 29 - 29 ≡ k = omega arith in
    let not_end : (k + 29 == 0) ≡ false = ground arith in
    let enough : leb (k + 29) 29 ≡ false = ground arith in
    rw (suc-==_zero room, not_end, enough, count) refl

take-none : (n : ℕ) (xs : List ℕ) → n ≡ 0 → take n xs ≡ []
take-none zero xs e = refl
take-none (suc n) xs e = absurd (omega arith)

-- The first `room` of `k` times `y` and what stands behind.
take-replicate :
    (room k y : ℕ) (xs : List ℕ)
    → take room (replicate k y ++ xs) ≡ replicate (min k room) y ++ take (room - min k room) xs
unfolding replicate
take-replicate room zero y xs =
    let none_min : min 0 room ≡ 0 = omega arith in
    let all : room - 0 ≡ room = omega arith in rw (none_min, all) refl
take-replicate zero (suc k) y xs =
    let none_min : min (suc k) 0 ≡ 0 = omega arith in
    rw (none_min) (sym (take-none (0 - 0) xs (omega arith)))
take-replicate (suc room) (suc k) y xs =
    let both : min (suc k) (suc room) ≡ suc (min k room) = omega arith in
    let less : suc room - suc (min k room) ≡ room - min k room = omega arith in
    rw (both, less) (ap (◌∷◌ y) (take-replicate room k y xs))

-- The repeats of a run, if what stands behind it is decoded as it should be.
decode-repeats :
    (k y : ℕ) (input text : List ℕ)
    → ((room : ℕ) → decode_rle_from input room (some y) ≡ some (take room text))
    → (room : ℕ) → 1 ≤ k
    → decode_rle_from (star ∷ (k + 29) ∷ input) room (some y)
      ≡ some (take room (replicate k y ++ text))
decode-repeats k y input text behind zero some_repeat =
    decode-none (star ∷ (k + 29) ∷ input) (some y)
decode-repeats k y input text behind (suc room) some_repeat =
    decode-star k input room y some_repeat
    ∙ ap (prepend (replicate (min k (suc room)) y)) (behind (suc room - min k (suc room)))
    ∙ ap some (sym (take-replicate (suc room) k y text))

decode-nil : (room : ℕ) (prev : Option ℕ) → decode_rle_from [] room prev ≡ some []
unfolding decode_rle_from
decode-nil room prev = refl

decode_rle_from-encode :
    (rs : List Run) (room : ℕ) (prev : Option ℕ)
    → Plain rs
    → decode_rle_from (encode rs) room prev ≡ some (take room (expand rs))
unfolding replicate
decode_rle_from-encode [] zero prev plain = decode-nil zero prev
decode_rle_from-encode [] (suc room) prev plain = decode-nil (suc room) prev
decode_rle_from-encode (r ∷ rs) zero prev plain = decode-none (encode (r ∷ rs)) prev
decode_rle_from-encode (r ∷ rs) (suc room) prev plain =
    let behind = λ (n : ℕ). decode_rle_from-encode rs n (some r.char) plain.2 in
    elim (Bool-cases (r.repeats == 0)) [
      | inl once ↦
          let no_repeat : r.repeats ≡ 0 = ground arith in
          rw no_repeat (
            decode-char r.char (encode rs) room prev plain.0 plain.1
            ∙ ap (prepend (r.char ∷ [])) (behind room))
      | inr again ↦ rw again (
          decode-char r.char (star ∷ (r.repeats + 29) ∷ encode rs) room prev plain.0 plain.1
          ∙ ap (prepend (r.char ∷ []))
              (decode-repeats r.repeats r.char (encode rs) (expand rs) behind room (ground arith)))
    ]

-- A text that is written as runs of characters other than `*` and 0, each with any number of repeats,
-- is decoded to the characters that it stands for, as many of them as leave room for a final 0 in
-- the output.
pub decode_rle-encode :
    (rs : List Run) (output_size : ℕ)
    → Plain rs
    → decode_rle (encode rs) output_size ≡ some (take (output_size - 1) (expand rs))
unfolding decode_rle
decode_rle-encode rs output_size plain = decode_rle_from-encode rs (output_size - 1) none plain
