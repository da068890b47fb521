-- ===== src/Kernel/Flags.antt =====
-- The flags of the standard input that are set are the flags that are read back.
use dmlog.Base.{
  ℕ, zero, suc, ◌^◌, ◌≡◌, refl, ◌∙◌, Bool, true, false, Option, none, some, arith, if◌then◌else◌,
  not, Bool-cases, inl, inr,
}
use dmlog.Flag
use dmlog.Word.{bit, has, raise}
use dmlog.Word.Bits.{has-bit, has-raise_other, has-raise_self}
use dmlog.Kernel.{
  Kernel, get_kernel_input_flags, set_kernel_input_flags, stdin_get_flags, stdin_set_flags,
}

-- Two flags, each of one bit, and the bits differ.
pub record Distinct (i j : ℕ) : Type 0 where
  pub apart : bit i (2 ^ j) ≡ 0
  pub apart_back : bit j (2 ^ i) ≡ 0
  pub own : bit i (2 ^ i) ≡ 1
  pub own_back : bit j (2 ^ j) ≡ 1

bit-zero : (i : ℕ) → bit i 0 ≡ 0
unfolding bit
bit-zero zero = refl
bit-zero (suc i) = bit-zero i

zero-has : (i : ℕ) → has 0 (2 ^ i) ≡ false
zero-has i = ground (arith, has-bit i 0, bit-zero i)

module _ {i j : ℕ} (d : Distinct i j) where
  encode : Bool → Bool → ℕ
  encode a b = let f = if a then raise 0 (2 ^ i) else 0 in if b then raise f (2 ^ j) else f

  encode-has : (a b : Bool) → (has (encode a b) (2 ^ i) ≡ a) × (has (encode a b) (2 ^ j) ≡ b)
  unfolding encode
  encode-has true true = (
    has-raise_other i (raise 0 (2 ^ i)) (2 ^ j) d.apart ∙ has-raise_self i 0 (2 ^ i) d.own,
    has-raise_self j _ (2 ^ j) d.own_back,
  )
  encode-has true false =
      (has-raise_self i 0 (2 ^ i) d.own, has-raise_other j 0 (2 ^ i) d.apart_back ∙ zero-has j)
  encode-has false true =
      (has-raise_other i 0 (2 ^ j) d.apart ∙ zero-has i, has-raise_self j _ (2 ^ j) d.own_back)
  encode-has false false = (zero-has i, zero-has j)

mode-Distinct : Distinct 4 5
unfolding bit
mode-Distinct = record { apart = refl; apart_back = refl; own = refl; own_back = refl }

tty-Distinct : Distinct 0 1
unfolding bit
tty-Distinct = record { apart = refl; apart_back = refl; own = refl; own_back = refl }

not-not : (b : Bool) → not (not b) ≡ b
not-not true = refl
not-not false = refl

-- Both directions of the translation, in terms of the code.
module _ {i j : ℕ} (d : Distinct i j) where
  set-eq :
      (k : Kernel) (flags : ℕ)
      → set_kernel_input_flags (2 ^ i) (2 ^ j) k flags ≡ record k {
        stdin_flags = encode mode-Distinct (not (has flags (2 ^ i))) (has flags (2 ^ j));
      }
  unfolding set_kernel_input_flags encode
  set-eq k flags = elim (Bool-cases (has flags (2 ^ i))) [
    | inl on ↦ rw on refl
    | inr off ↦ rw off refl
  ]

  get-eq :
      (k : Kernel)
      → get_kernel_input_flags (2 ^ i) (2 ^ j) k
        ≡ encode d
            (not (has k.stdin_flags Flag.input_echo_off))
            (has k.stdin_flags Flag.input_line_mode)
  unfolding get_kernel_input_flags encode
  get-eq k = elim (Bool-cases (has k.stdin_flags Flag.input_echo_off)) [
    | inl on ↦ rw on refl
    | inr off ↦ rw off refl
  ]

  -- Where ECHO and CANONICAL are two different bits, the flags that `Dmod_SetKernelInputFlags` is
  -- given are the flags that `Dmod_GetKernelInputFlags` then reports, as far as these two go.
  pub get-set_kernel_input_flags :
      (k : Kernel) (flags : ℕ)
      → let got =
          get_kernel_input_flags (2 ^ i) (2 ^ j) (set_kernel_input_flags (2 ^ i) (2 ^ j) k flags) in
        (has got (2 ^ i) ≡ has flags (2 ^ i)) × (has got (2 ^ j) ≡ has flags (2 ^ j))
  get-set_kernel_input_flags k flags =
      let modes = encode-has mode-Distinct (not (has flags (2 ^ i))) (has flags (2 ^ j)) in
      rw
        (
          set-eq k flags,
          get-eq (record k {
            stdin_flags = encode mode-Distinct (not (has flags (2 ^ i))) (has flags (2 ^ j));
          }),
          modes.0,
          modes.1,
        )
        (let both = encode-has d (not (not (has flags (2 ^ i)))) (has flags (2 ^ j)) in
          (both.0 ∙ not-not (has flags (2 ^ i)), both.1))

  module _ {D : Type 0} (ioctl_get : D → ℕ × ℕ) (ioctl_set : D → ℕ → ℕ × D) where
    -- Where ECHO and CANONICAL are two different bits, and a bound driver accepts flags and
    -- reports the flags it accepted: `Dmod_Stdin_SetFlags` succeeds, and the flags it is given are
    -- the flags that `Dmod_Stdin_GetFlags` then reports, as far as these two go, whether the
    -- standard input is bound to the driver or not.
    pub stdin_get-set_flags :
        ((driver : D) (f : ℕ)
          → ((ioctl_set driver f).0 ≡ 0) × (ioctl_get (ioctl_set driver f).1 ≡ (0, f)))
        → (k : Kernel) (bound : Option D) (flags : ℕ)
        → let (result, k', bound') =
            stdin_set_flags (2 ^ i) (2 ^ j) ioctl_get ioctl_set k bound flags in
          let got = stdin_get_flags (2 ^ i) (2 ^ j) ioctl_get ioctl_set k' bound' in
          (result ≡ 0)
          × (has got (2 ^ i) ≡ has flags (2 ^ i))
          × (has got (2 ^ j) ≡ has flags (2 ^ j))
    unfolding stdin_set_flags stdin_get_flags encode
    stdin_get-set_flags honest k none flags =
        let same = get-set_kernel_input_flags k flags in (refl, same.0, same.1)
    stdin_get-set_flags honest k (some driver) flags =
        let f = encode tty-Distinct (has flags (2 ^ i)) (has flags (2 ^ j)) in
        let h = honest driver f in
        let tty = encode-has tty-Distinct (has flags (2 ^ i)) (has flags (2 ^ j)) in
        let both = encode-has d (has flags (2 ^ i)) (has flags (2 ^ j)) in
        rw (h.1, tty.0, tty.1) (h.0, both.0, both.1)
