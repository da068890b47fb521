-- ===== src/OpenOcd/Stores.antt =====
-- The commands of a write store exactly its bytes.
use dmlog.Base.{
  ℕ, zero, suc, ◌+◌, ◌/◌, ◌%◌, ◌^◌, ◌≤◌, ◌<◌, ◌≡◌, ◌⊎◌, inl, inr, refl, ap, ap₂, ◌∙◌, Bool, true,
  false, Option, some, List, [], ◌∷◌, ◌++◌, length, length-append, arith, ◌==◌,
}
use native.Mathlib.Nat.{mod-eq_of_lt}
use dmlog.Monitor.{from_bytes, to_bytes}
use dmlog.Gdb.Hex.{AllBytes}
use dmlog.Gdb.Session.Memory.{overwrite, overwrite-append}
use dmlog.OpenOcd.{Store, word_at, byte_at, stores, store_command, padded_hex, upper_digit}
use dmlog.OpenOcd.Session.{starts_as, send_command, store_all, write_memory}
use dmlog.OpenOcd.Commands.{IsWrite, executed, stored, Fits, executed-store_command}
use dmlog.OpenOcd.Answers.{Inner, AllInner, Gives, Answers, Obeyed, send_command-Obeyed}

abbrev pub stored_all : (ℕ → ℕ) → List Store → ℕ → ℕ
stored_all cell [] = cell
stored_all cell (command ∷ commands) = stored_all (stored cell command) commands

word-bytes :
    (a b c d : ℕ)
    → a < 256
    → b < 256
    → c < 256
    → d < 256
    → to_bytes 4 (from_bytes (a ∷ b ∷ c ∷ d ∷ [])) ≡ a ∷ b ∷ c ∷ d ∷ []
unfolding to_bytes from_bytes
word-bytes a b c d ha hb hc hd =
    ap₂ ◌∷◌ (omega arith)
      (ap₂ ◌∷◌ (omega arith) (ap₂ ◌∷◌ (omega arith) (ap₂ ◌∷◌ (omega arith) refl)))

inside : (k : ℕ) → k < 2 ^ 32 → k % 2 ^ 32 ≡ k
inside k h = mod-eq_of_lt h

stores-overwrite :
    (cell : ℕ → ℕ) (address : ℕ) (bytes : List ℕ)
    → AllBytes bytes
    → address + length bytes ≤ 2 ^ 32
    → stored_all cell (stores address bytes) ≡ overwrite cell address bytes
unfolding stores
stores-overwrite cell address [] small fits = refl
stores-overwrite cell address (a ∷ []) small fits =
    ap (λ k. overwrite cell k (a ∷ [])) (inside address (omega arith))
stores-overwrite cell address (a ∷ b ∷ []) small fits =
    rw (inside address (omega arith), inside (address + 1) (omega arith)) refl
stores-overwrite cell address (a ∷ b ∷ c ∷ []) small fits =
    rw
      (
        inside address (omega arith),
        inside (address + 1) (omega arith),
        inside (address + 1 + 1) (omega arith),
      )
      refl
stores-overwrite cell address (a ∷ b ∷ c ∷ d ∷ bytes) small fits =
    ap₂ (λ k word. stored_all (overwrite cell k word) (stores (address + 4) bytes))
      (inside address (omega arith))
      (word-bytes a b c d small.0 small.1.0 small.1.1.0 small.1.1.1.0)
    ∙ stores-overwrite (overwrite cell address (a ∷ b ∷ c ∷ d ∷ [])) (address + 4) bytes
        small.1.1.1.1 (omega arith)
    ∙ overwrite-append cell address (a ∷ b ∷ c ∷ d ∷ []) bytes

-- The numbers of the commands fit into their words, and so does their text into a line.
abbrev AllFit : List Store → Type 0
AllFit [] = Unit {0}
AllFit (command ∷ commands) = Fits command × AllFit commands

word-fits :
    (a b c d : ℕ) → a < 256 → b < 256 → c < 256 → d < 256 → from_bytes (a ∷ b ∷ c ∷ d ∷ []) < 2 ^ 32
unfolding from_bytes
word-fits a b c d ha hb hc hd = omega arith

stores-AllFit : (address : ℕ) (bytes : List ℕ) → AllBytes bytes → AllFit (stores address bytes)
unfolding stores
stores-AllFit address [] small = tt
stores-AllFit address (a ∷ []) small = ((omega arith, small.0), tt)
stores-AllFit address (a ∷ b ∷ []) small = ((omega arith, small.0), ((omega arith, small.1.0), tt))
stores-AllFit address (a ∷ b ∷ c ∷ []) small =
    ((omega arith, small.0), ((omega arith, small.1.0), ((omega arith, small.1.1.0), tt)))
stores-AllFit address (a ∷ b ∷ c ∷ d ∷ bytes) small = (
  (omega arith, word-fits a b c d small.0 small.1.0 small.1.1.0 small.1.1.1.0),
  stores-AllFit (address + 4) bytes small.1.1.1.1,
)

digit-Inner : (d : ℕ) → d < 16 → Inner (upper_digit d)
digit-Inner d small = ground arith

padded_hex-AllInner :
    (places n : ℕ) (tail : List ℕ) → AllInner tail → AllInner (padded_hex places n tail)
unfolding padded_hex
padded_hex-AllInner zero n tail h = h
padded_hex-AllInner (suc places) n tail h =
    padded_hex-AllInner places (n / 16) (upper_digit (n % 16) ∷ tail)
      (digit-Inner (n % 16) (omega arith), h)

literal-Inner : (c : ℕ) → 13 < c → (c == b'>') ≡ false → Inner c
literal-Inner c big other = ground arith

zero_x-AllInner : (rest : List ℕ) → AllInner rest → AllInner (32 ∷ b'0' ∷ b'x' ∷ rest)
zero_x-AllInner rest h = (
  literal-Inner 32 (omega arith) refl,
  (literal-Inner b'0' (omega arith) refl, (literal-Inner b'x' (omega arith) refl, h)),
)

command-AllInner :
    (size : ℕ) (rest : List ℕ)
    → Inner size
    → AllInner rest
    → AllInner (b'm' ∷ b'w' ∷ size ∷ 32 ∷ b'0' ∷ b'x' ∷ rest)
command-AllInner size rest inner h = (
  literal-Inner b'm' (omega arith) refl,
  (literal-Inner b'w' (omega arith) refl, (inner, zero_x-AllInner rest h)),
)

store_command-AllInner : (command : Store) → AllInner (store_command command)
unfolding store_command
store_command-AllInner (word_at address word) =
    command-AllInner b'w' _ (literal-Inner b'w' (omega arith) refl)
      (padded_hex-AllInner 8 address _ (zero_x-AllInner _ (padded_hex-AllInner 8 word [] tt)))
store_command-AllInner (byte_at address byte) =
    command-AllInner b'b' _ (literal-Inner b'b' (omega arith) refl)
      (padded_hex-AllInner 8 address _ (zero_x-AllInner _ (padded_hex-AllInner 2 byte [] tt)))

length-store_command : (command : Store) → length (store_command command) ≤ 25
unfolding store_command padded_hex
length-store_command (word_at address word) = omega arith
length-store_command (byte_at address byte) = omega arith

store_command-IsWrite : (command : Store) (tail : List ℕ) → IsWrite (store_command command ++ tail)
unfolding store_command starts_as
store_command-IsWrite (word_at address word) tail = refl
store_command-IsWrite (byte_at address byte) tail = refl

module _ {S : Type 0} (send : S → List ℕ → Bool × S) (recv : S → ℕ → Option (List ℕ) × S)
    (incoming : S → List ℕ) (cells : S → ℕ → ℕ) (gives : Gives send recv incoming cells)
    (answers : Answers send recv incoming cells IsWrite executed) where
  -- Between two commands nothing is left to be read, or what stands behind the prompt.
  abbrev pub Idle : S → Type 0
  Idle s = (incoming s ≡ []) ⊎ (incoming s ≡ 32 ∷ [])

  store_command-stored :
      (turns : ℕ) (command : Store) (s : S)
      → 3 ≤ turns
      → Fits command
      → Idle s
      → (response : List ℕ) × (s' : S) × (send_command send recv turns (store_command command) 256 s
          ≡ some (some response, s'))
        × Idle s'
        × (cells s' ≡ stored (cells s) command)
  store_command-stored turns command s enough fits idle =
      let (s', sends, left, held) : Obeyed send recv incoming cells turns (store_command command)
          executed s =
        elim idle [
          | inl none_left ↦
              send_command-Obeyed send recv incoming cells IsWrite executed gives answers turns s
                (store_command command) [] enough (store_command-IsWrite command _)
                (store_command-AllInner command) tt (short command [] (omega arith)) none_left
          | inr space ↦
              send_command-Obeyed send recv incoming cells IsWrite executed gives answers turns s
                (store_command command) (32 ∷ []) enough (store_command-IsWrite command _)
                (store_command-AllInner command) (literal-Inner 32 (omega arith) refl, tt)
                (short command (32 ∷ []) (omega arith)) space
        ] in
      (13 ∷ b'>' ∷ [], s', sends, inr left, held ∙ executed-store_command command (cells s) fits)
    where
      short :
          (command : Store) (left : List ℕ)
          → length left ≤ 1
          → length ((left ++ store_command command) ++ 13 ∷ []) < 511
      short command left small =
          let all = length-append (left ++ store_command command) (13 ∷ []) in
          let both = length-append left (store_command command) in
          let text = length-store_command command in omega (arith, small, all, both, text)

  store_all-stored :
      (turns : ℕ) (commands : List Store) (s : S)
      → 3 ≤ turns
      → AllFit commands
      → Idle s
      → (s' : S) × (store_all send recv turns commands s ≡ some (true, s'))
        × (cells s' ≡ stored_all (cells s) commands)
  unfolding store_all
  store_all-stored turns [] s enough fits idle = (s, refl, refl)
  store_all-stored turns (command ∷ commands) s enough fits idle =
      let (response, s1, sent, idle1, held) =
        store_command-stored turns command s enough fits.0 idle in
      let (s', stores_rest, held') = store_all-stored turns commands s1 enough fits.1 idle1 in
      (s', rw sent stores_rest, held' ∙ ap (λ c. stored_all c commands) held)

  -- Where the socket gives the bytes that come, and the server carries out a line that it reads as
  -- `mww` or `mwb`, echoes it and prompts: with nothing left to be read but what stands
  -- behind a prompt, and bytes that end at 2 ^ 32 at most, `openocd_write_memory`
  -- succeeds with three turns for each command, and the memory of the target holds all the bytes at
  -- the address, those behind the last whole word as well, and is as it was elsewhere.
  pub write_memory-stored :
      (turns address : ℕ) (bytes : List ℕ) (s : S)
      → 3 ≤ turns
      → Idle s
      → AllBytes bytes
      → address + length bytes ≤ 2 ^ 32
      → (s' : S) × (write_memory send recv turns address bytes s ≡ some (true, s'))
        × (cells s' ≡ overwrite (cells s) address bytes)
  unfolding write_memory
  write_memory-stored turns address bytes s enough idle small fits =
      let (s', writes, held) =
        store_all-stored turns (stores address bytes) s enough (stores-AllFit address bytes small)
          idle in
      (s', writes, held ∙ stores-overwrite (cells s) address bytes small fits)
