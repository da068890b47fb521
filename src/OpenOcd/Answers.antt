-- ===== src/OpenOcd/Answers.antt =====
-- What `openocd_send_command` makes of a server that echoes a line and prompts.
use dmlog.Base.{
  ℕ, zero, suc, ◌≤◌, ◌<◌, ◌≡◌, ◌≢◌, refl, ap, sym, ◌∙◌, Bool, true, false, ◌||◌, Option, some, List,
  [], ◌∷◌, ◌++◌, append-nil, append_assoc, arith, length, ◌==◌, if◌then◌else◌,
}
use dmlog.Output.{cstring}
use dmlog.OpenOcd.Session.{
  starts_as, contains, is_noise, read_line, on_line, receive_loop, send_command,
}
use dmlog.OpenOcd.{contains_prompt}

-- A character that neither ends a line nor a string.
abbrev pub Inner : ℕ → Type 0
Inner c = (c ≢ 0) × ((c == b'\n' || c == b'>') ≡ false)

abbrev pub AllInner : List ℕ → Type 0
AllInner [] = Unit {0}
AllInner (c ∷ cs) = Inner c × AllInner cs

pub AllInner-append : (xs ys : List ℕ) → AllInner xs → AllInner ys → AllInner (xs ++ ys)
AllInner-append [] ys h k = k
AllInner-append (x ∷ xs) ys (inner, h) k = (inner, AllInner-append xs ys h k)

cstring-inner : (xs tail : List ℕ) → AllInner xs → cstring (xs ++ tail) ≡ xs ++ cstring tail
cstring-inner [] tail h = refl
cstring-inner (x ∷ xs) tail (inner, h) =
    let some_char : (x == 0) ≡ false = ground (arith, inner.0) in
    rw some_char (ap (λ s. x ∷ s) (cstring-inner xs tail h))

cstring-AllInner : (xs : List ℕ) → AllInner xs → cstring xs ≡ xs
cstring-AllInner xs h = ap cstring (sym (append-nil xs)) ∙ cstring-inner xs [] h ∙ append-nil xs

return-Inner : Inner 13
return-Inner = ((λ e. absurd (omega (arith, e))), refl)

starts_as-append : (xs ys : List ℕ) → starts_as xs (xs ++ ys) ≡ true
unfolding starts_as
starts_as-append [] [] = refl
starts_as-append [] (y ∷ ys) = refl
starts_as-append (x ∷ xs) ys =
    let same : (x == x) ≡ true = ground arith in rw same (starts_as-append xs ys)

contains-here : (word text : List ℕ) → starts_as word text ≡ true → contains word text ≡ true
unfolding contains
contains-here word [] h = h
contains-here word (x ∷ xs) h = rw h refl

contains-append : (word xs ys : List ℕ) → contains word ys ≡ true → contains word (xs ++ ys) ≡ true
unfolding contains
contains-append word [] ys h = h
contains-append word (x ∷ xs) ys h = let rest = contains-append word xs ys h in ground (arith, rest)

-- A socket: a receive of one byte gives the next of those that have come.
module _ {S : Type 0} (send : S → List ℕ → Bool × S) (recv : S → ℕ → Option (List ℕ) × S)
    (incoming : S → List ℕ) (cells : S → ℕ → ℕ) where
  abbrev pub Gives : Type 0
  Gives =
      (s : S) (c : ℕ) (cs : List ℕ)
      → incoming s ≡ c ∷ cs
      → ((recv s 1).0 ≡ some (c ∷ []))
        × (incoming (recv s 1).1 ≡ cs)
        × (cells (recv s 1).1 ≡ cells s)

  -- It sends a line, and the server does what the line says, echoes it and prompts with "\r> ".
  abbrev pub Answers : (List ℕ → Type 0) → (List ℕ → (ℕ → ℕ) → ℕ → ℕ) → Type 0
  Answers Known effect =
      (s : S) (line : List ℕ)
      → Known line
      → ((send s line).0 ≡ true)
        × (incoming (send s line).1 ≡ incoming s ++ line ++ 13 ∷ b'>' ∷ 32 ∷ [])
        × (cells (send s line).1 ≡ effect line (cells s))

  abbrev Line : ℕ → S → List ℕ → List ℕ → Type 0
  Line room s line tail =
      (s' : S) × (read_line send recv room s ≡ (some line, s'))
      × (incoming s' ≡ tail)
      × (cells s' ≡ cells s)

  -- A line is read with the character that ends it.
  read_line-inner :
      (gives : Gives) (room : ℕ) (s : S) (xs : List ℕ) (end : ℕ) (tail : List ℕ)
      → AllInner xs
      → (end == b'\n' || end == b'>') ≡ true
      → length xs < room
      → incoming s ≡ xs ++ end ∷ tail
      → Line room s (xs ++ end ∷ []) tail
  unfolding read_line
  read_line-inner gives zero s xs end tail inner ends fits comes = absurd (omega arith)
  read_line-inner gives (suc room) s [] end tail inner ends fits comes =
      let (got, left, same) = gives s end tail comes in
      let pair : recv s 1 ≡ (some (end ∷ []), (recv s 1).1) = ap (λ o. (o, (recv s 1).1)) got in
      ((recv s 1).1, rw (pair, ends) refl, left, same)
  read_line-inner gives (suc room) s (x ∷ xs) end tail (inner, more) ends fits comes =
      let (got, left, same) = gives s x (xs ++ end ∷ tail) comes in
      let pair : recv s 1 ≡ (some (x ∷ []), (recv s 1).1) = ap (λ o. (o, (recv s 1).1)) got in
      let (s', reads, rest, kept) =
        read_line-inner gives room (recv s 1).1 xs end tail more ends (omega arith) left in
      (s', rw (pair, inner.1, reads) refl, rest, kept ∙ same)

  -- How a command ends, with what is left behind the prompt.
  abbrev pub Obeyed : ℕ → List ℕ → (List ℕ → (ℕ → ℕ) → ℕ → ℕ) → S → Type 0
  Obeyed turns cmd effect s =
      (s' : S) × (send_command send recv turns cmd 256 s ≡ some (some (13 ∷ b'>' ∷ []), s'))
      × (incoming s' ≡ 32 ∷ [])
      × (cells s' ≡ effect (cmd ++ 13 ∷ b'\n' ∷ []) (cells s))

  echo_line :
      (cmd left : List ℕ)
      → AllInner cmd
      → AllInner left
      → contains (cstring cmd) (cstring (((left ++ cmd) ++ 13 ∷ []) ++ b'\n' ∷ [])) ≡ true
  echo_line cmd left inner old =
      let text : ((left ++ cmd) ++ 13 ∷ []) ++ b'\n' ∷ [] ≡ left ++ (cmd ++ 13 ∷ b'\n' ∷ []) =
        append_assoc (left ++ cmd) (13 ∷ []) (b'\n' ∷ [])
        ∙ append_assoc left cmd (13 ∷ b'\n' ∷ []) in
      let whole : cstring (((left ++ cmd) ++ 13 ∷ []) ++ b'\n' ∷ [])
          ≡ left ++ (cmd ++ 13 ∷ b'\n' ∷ []) =
        ap cstring text
        ∙ cstring-inner left (cmd ++ 13 ∷ b'\n' ∷ []) old
        ∙ ap (λ t. left ++ t) (cstring-inner cmd (13 ∷ b'\n' ∷ []) inner) in
      rw (cstring-AllInner cmd inner, whole)
        (contains-append cmd left (cmd ++ 13 ∷ b'\n' ∷ [])
          (contains-here cmd (cmd ++ 13 ∷ b'\n' ∷ []) (starts_as-append cmd (13 ∷ b'\n' ∷ []))))

  -- The turn with the echo, and those with the prompt.
  receive_loop-echo :
      (turns : ℕ) (cmd echo : List ℕ) (s s' : S)
      → read_line send recv 511 s ≡ (some echo, s')
      → contains (cstring cmd) (cstring echo) ≡ true
      → receive_loop send recv (suc turns) cmd 256 false [] [] s
        ≡ receive_loop send recv turns cmd 256 true echo [] s'
  unfolding receive_loop contains_prompt
  receive_loop-echo turns cmd echo s s' reads seen =
      ap (λ line. on_line send recv cmd 256 false [] line (receive_loop send recv turns cmd 256))
        reads
      ∙ ap
          (λ b.
            if b
            then receive_loop send recv turns cmd 256 true echo [] s'
            else receive_loop send recv turns cmd 256 false echo [] s')
          seen

  receive_loop-prompt :
      (turns : ℕ) (cmd echo : List ℕ) (s s' : S)
      → read_line send recv 511 s ≡ (some (13 ∷ b'>' ∷ []), s')
      → receive_loop send recv (suc (suc turns)) cmd 256 true echo [] s
        ≡ some (some (13 ∷ b'>' ∷ []), s')
  unfolding receive_loop contains_prompt is_noise contains starts_as
  receive_loop-prompt turns cmd echo s s' reads =
      ap
        (λ line.
          on_line send recv cmd 256 true [] line (receive_loop send recv (suc turns) cmd 256))
        reads

  -- A command whose echo fits in a line succeeds in three turns, whatever was left to be read in its
  -- line.
  pub send_command-Obeyed :
      (Known : List ℕ → Type 0) (effect : List ℕ → (ℕ → ℕ) → ℕ → ℕ)
      → Gives
      → Answers Known effect
      → (turns : ℕ) (s : S) (cmd left : List ℕ) → 3 ≤ turns
      → Known (cmd ++ 13 ∷ b'\n' ∷ [])
      → AllInner cmd
      → AllInner left
      → length ((left ++ cmd) ++ 13 ∷ []) < 511
      → incoming s ≡ left
      → Obeyed turns cmd effect s
  unfolding send_command
  send_command-Obeyed Known effect gives answers zero s cmd left enough known inner old fits comes =
      absurd (omega arith)
  send_command-Obeyed Known effect gives answers (suc zero) s cmd left enough known inner old fits
        comes =
      absurd (omega arith)
  send_command-Obeyed Known effect gives answers (suc (suc zero)) s cmd left enough known inner old
        fits comes =
      absurd (omega arith)
  send_command-Obeyed Known effect gives answers (suc (suc (suc turns))) s cmd left enough known
        inner old fits comes =
      let line = cmd ++ 13 ∷ b'\n' ∷ [] in
      let (sent, waits, done) = answers s line known in
      let s1 = (send s line).1 in
      let came : incoming s1 ≡ ((left ++ cmd) ++ 13 ∷ []) ++ b'\n' ∷ 13 ∷ b'>' ∷ 32 ∷ [] =
        waits
        ∙ ap (λ l. (l ++ line) ++ 13 ∷ b'>' ∷ 32 ∷ []) comes
        ∙ ap (λ l. l ++ 13 ∷ b'>' ∷ 32 ∷ []) (sym (append_assoc left cmd (13 ∷ b'\n' ∷ [])))
        ∙ append_assoc (left ++ cmd) (13 ∷ b'\n' ∷ []) (13 ∷ b'>' ∷ 32 ∷ [])
        ∙ sym (append_assoc (left ++ cmd) (13 ∷ []) (b'\n' ∷ 13 ∷ b'>' ∷ 32 ∷ [])) in
      let (s2, echoes, rest, same) =
        read_line-inner gives 511 s1 ((left ++ cmd) ++ 13 ∷ []) b'\n' (13 ∷ b'>' ∷ 32 ∷ [])
          (AllInner-append (left ++ cmd) (13 ∷ []) (AllInner-append left cmd old inner)
            (return-Inner, tt))
          refl fits came in
      let (s3, prompts, behind, same') =
        read_line-inner gives 511 s2 (13 ∷ []) b'>' (32 ∷ []) (return-Inner, tt) refl (omega arith)
          rest in
      let pair : send s line ≡ (true, s1) = ap (λ b. (b, s1)) sent in
      (
        s3,
        rw (cstring-AllInner cmd inner, pair)
            (receive_loop-echo (suc (suc turns)) cmd _ s1 s2 echoes (echo_line cmd left inner old)
              ∙ receive_loop-prompt turns cmd _ s2 s3 prompts),
        behind,
        same' ∙ same ∙ done,
      )
