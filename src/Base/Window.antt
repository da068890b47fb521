-- ===== src/Base/Window.antt =====
-- The last elements of a list: what a full ring keeps.
use Prim.Native.Nat.{ℕ, suc, ◌-◌, ◌≤◌, min}
use mathlib.Core.Path.{◌≡◌, sym, ap, ◌∙◌}
use mathlib.Core.List.{List, ◌∷◌, ◌++◌}
use native.Mathlib.Omega.{arith}
use dmlog.Base.Lists.{length, drop, length-append, length-drop, drop-append_le, drop-drop}

module _ {ℓ} {A : Type ℓ} where
  abbrev pub last_n : ℕ → List A → List A
  last_n n xs = drop (length xs - n) xs

  pub last_n_short : (n : ℕ) (xs : List A) → length xs ≤ n → last_n n xs ≡ xs
  last_n_short n xs h = let none_lost : length xs - n ≡ 0 = omega arith in rw none_lost

  pub length-last_n : (n : ℕ) (xs : List A) → length (last_n n xs) ≡ min n (length xs)
  length-last_n n xs = omega (arith, length-drop (length xs - n) xs)

  -- Forgetting early loses nothing that would have been kept.
  pub last_n-last_n-append :
      (n : ℕ) (xs ys : List A) → last_n n (last_n n xs ++ ys) ≡ last_n n (xs ++ ys)
  last_n-last_n-append n xs ys =
      ap (last_n n) (sym (drop-append_le d xs ys (omega arith)))
      ∙ drop-drop (length (drop d (xs ++ ys)) - n) d (xs ++ ys)
      ∙ ap (λ k. drop k (xs ++ ys)) (omega (arith, length-drop d (xs ++ ys), length-append xs ys))
    where
      d : ℕ
      d = length xs - n

  -- A full queue makes room for one by losing its first.
  pub last_n_full :
      (n : ℕ) (a : A) (xs ys : List A)
      → suc (length xs) ≡ n
      → length ys ≡ 1
      → last_n n ((a ∷ xs) ++ ys) ≡ xs ++ ys
  last_n_full n a xs ys full one =
      let one_lost : length ((a ∷ xs) ++ ys) - n ≡ 1 = omega (arith, length-append xs ys) in
      rw one_lost
