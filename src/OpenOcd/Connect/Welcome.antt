-- ===== src/OpenOcd/Connect/Welcome.antt =====
-- The wait of openocd.c for the prompt in OpenOCD's welcome.
use mathlib.Core.Option.{some-injective}
use dmlog.Base.{ℕ, zero, suc, ◌≡◌, refl, ap, ◌∙◌, Bool, false, Option, none, some, List, []}
use dmlog.OpenOcd.{contains_prompt}
use dmlog.OpenOcd.Connect.{welcome_loop, read_welcome, welcome_size, bytes_of, welcomed}

module _ {S : Type 0} (send : S → List ℕ → Bool × S)
    (recv recv_now : S → ℕ → Option (List ℕ) × S) where
  -- Every further receive fails or is at the end.
  abbrev pub Silent : Type 0
  Silent = (s : S) → bytes_of (recv_now s welcome_size).0 ≡ []

  loop_waits :
      (turns : ℕ) (buffer : List ℕ) (s : S)
      → Silent
      → contains_prompt buffer ≡ false
      → welcome_loop send recv recv_now turns buffer s ≡ none
  unfolding welcome_loop contains_prompt
  loop_waits zero buffer s silent e = refl
  loop_waits (suc turns) buffer s silent e =
      let (got, s') = recv_now s welcome_size in
      rw e (loop_waits turns (bytes_of got) s' silent (ap contains_prompt (silent s)))

  -- Where the server ends the connection, or an error comes, before the prompt: if what came first has
  -- no prompt and every further receive fails or is at the end, then `openocd_read_welcome` has not
  -- returned after any number of turns.
  pub read_welcome-waits :
      (turns : ℕ) (s : S) (first : List ℕ)
      → (recv s welcome_size).0 ≡ some first
      → contains_prompt first ≡ false
      → Silent
      → read_welcome send recv recv_now turns s ≡ none
  unfolding read_welcome
  read_welcome-waits turns s first came no_prompt silent = by_first (recv s welcome_size) came
    where
      by_first :
          (got : Option (List ℕ) × S)
          → got.0 ≡ some first
          → welcomed send recv recv_now turns got ≡ none
      by_first (none, s') e = cc
      by_first (some buffer, s') e =
          loop_waits turns buffer s' silent (ap contains_prompt (some-injective _ _ e) ∙ no_prompt)
