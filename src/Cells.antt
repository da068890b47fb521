-- ===== src/Cells.antt =====
-- A ring of `size` cells between two positions, as both rings of a context use it: the position
-- that reads is `tail`, the one that writes is `head`, and one cell stays free.
use native.Mathlib.Nat.{mod-add-mod, mod-eq_of_lt, mod-eq-sub-mod, add-zero}
use native.Mathlib.Decide.{dec_lt}
use dmlog.Base.{
  ℕ, zero, suc, ◌+◌, ◌-◌, ◌%◌, ◌<◌, ◌≡◌, refl, ap, ap₂, ◌∙◌, ◌≢◌, ◌⊎◌, inl, inr, List, [], ◌∷◌,
  ◌++◌, arith, length, leb, if◌then◌else◌,
}

-- How many cells are in use.
abbrev pub held : ℕ → ℕ → ℕ → ℕ
held size head tail = if leb tail head then head - tail else size - (tail - head)

-- The position after `h`.
pub next_cases :
    (h size : ℕ)
    → h < size
    → ((suc h < size) × ((h + 1) % size ≡ h + 1)) ⊎ ((suc h ≡ size) × ((h + 1) % size ≡ 0))
next_cases h size lt = elim (dec_lt (h + 1) size) [
  | yes p ↦ inl (omega arith, mod-eq_of_lt p)
  | no p ↦ inr (
    omega arith,
    omega (
      arith,
      mod-eq-sub-mod {n = h + 1} {m = size} (omega arith),
      mod-eq_of_lt {n = h + 1 - size} {m = size} (omega arith),
    ),
  )
]

module _ (size head tail : ℕ) (head_in : head < size) (tail_in : tail < size) where
  pub held-lt : held size head tail < size
  held-lt = ground arith

  pub held-write :
      (head + 1) % size ≢ tail → held size ((head + 1) % size) tail ≡ suc (held size head tail)
  held-write room = ground (arith, next_cases head size head_in)

  pub held_full : (head + 1) % size ≡ tail → suc (held size head tail) ≡ size
  held_full full = ground (arith, next_cases head size head_in)

  pub held-read : head ≢ tail → suc (held size head ((tail + 1) % size)) ≡ held size head tail
  held-read some_left = ground (arith, next_cases tail size tail_in)

  pub held_empty : held size head tail ≡ 0 → head ≡ tail
  held_empty e = ground arith

  pub tail-add-held : (tail + held size head tail) % size ≡ head
  tail-add-held = elim (dec_lt head tail) [
    | yes behind ↦ ground (
      arith,
      mod-eq-sub-mod {n = tail + held size head tail} {m = size} (ground arith),
      mod-eq_of_lt {n = tail + held size head tail - size} {m = size} (ground arith),
    )
    | no ahead ↦
        ground (arith, mod-eq_of_lt {n = tail + held size head tail} {m = size} (ground arith))
  ]

-- The `n` bytes from `h` on, going round at `size`.
module _ (size : ℕ) where
  abbrev pub window : (ℕ → ℕ) → ℕ → ℕ → List ℕ
  window cell h zero = []
  window cell h (suc n) = cell h ∷ window cell ((h + 1) % size) n

  pub length-window : (cell : ℕ → ℕ) (h n : ℕ) → length (window cell h n) ≡ n
  length-window cell h zero = refl
  length-window cell h (suc n) = ap suc (length-window cell ((h + 1) % size) n)

  -- Cells outside the ring do not matter.
  pub window_agree :
      (cell cell' : ℕ → ℕ)
      → ((i : ℕ) → i < size → cell i ≡ cell' i)
      → (h n : ℕ) → h < size
      → window cell h n ≡ window cell' h n
  window_agree cell cell' same h zero lt = refl
  window_agree cell cell' same h (suc n) lt =
      ap₂ ◌∷◌ (same h lt) (window_agree cell cell' same ((h + 1) % size) n (omega arith))

  -- Fewer than `size` steps do not come back to the start.
  not_round : (h k : ℕ) → h < size → suc k < size → (h + suc k) % size ≢ h
  not_round h k hh hk = elim (dec_lt (h + suc k) size) [
    | yes p ↦ omega (arith, mod-eq_of_lt p)
    | no p ↦ omega (
      arith,
      mod-eq-sub-mod {n = h + suc k} {m = size} (omega arith),
      mod-eq_of_lt {n = h + suc k - size} {m = size} (omega arith),
    )
  ]

  -- A write just past the bytes in use adds one to them.
  pub window-write :
      (cell cell' : ℕ → ℕ) (x i : ℕ)
      → cell' i ≡ x
      → ((j : ℕ) → j < size → i ≢ j → cell' j ≡ cell j)
      → (h n : ℕ) → h < size
      → n < size
      → (h + n) % size ≡ i
      → window cell' h (suc n) ≡ window cell h n ++ x ∷ []
  window-write cell cell' x i new old h zero hh hn e =
      let here : i ≡ h =
        omega (arith, mod-eq_of_lt {n = h} {m = size} hh, ap (λ (k : ℕ). k % size) (add-zero h)) in
      ap (λ y. y ∷ []) (rw (← here) new)
  window-write cell cell' x i new old h (suc n) hh hn e =
      ap₂ ◌∷◌ (old h hh (rw (← e) (not_round h n hh hn))) (
        window-write cell cell' x i new old ((h + 1) % size) n (omega arith) (omega arith)
          (shift ∙ e))
    where
      shift : ((h + 1) % size + n) % size ≡ (h + suc n) % size
      shift = rw mod-add-mod (ap (λ k. k % size) (omega arith))
