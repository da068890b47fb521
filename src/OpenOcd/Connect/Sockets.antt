-- ===== src/OpenOcd/Connect/Sockets.antt =====
-- The sockets that `openocd_connect` of openocd.c opens and closes.
use dmlog.Base.{
  ℕ, zero, suc, ◌+◌, ◌-◌, ◌≡◌, ◌∙◌, subst, Bool, true, false, not, ◌&&◌, Option, none, some, List,
  [], ◌∷◌, ◌++◌, arith, inl, inr, Bool-cases, length, take, ltb, ◌||◌, ◌==◌, if◌then◌else◌,
}
use dmlog.Output.{cstring}
use dmlog.Backend.{Address}
use dmlog.CommandLine.Main.{count}
use dmlog.OpenOcd.{contains_prompt}
use dmlog.OpenOcd.Session.{
  read_line, line_with, on_line, receive_loop, send_command, command_line, contains, is_noise,
  chunk_size,
}
use dmlog.OpenOcd.Connect.{
  welcome_loop, read_welcome, welcomed, welcome_size, bytes_of, set_debug_level,
  debug_level_command, try_addresses, with_socket, attempted, greeted, levelled, resolved,
  openocd_connect, port_text,
}

-- What a call that may go on waiting leaves.
abbrev Leaves : {S X : Type 0} → (S → ℕ) → ℕ → Option (X × S) → Type 0
Leaves opened n none = Unit {0}
Leaves opened n (some (x, s)) = opened s ≡ n

Leaves-if :
    {S X : Type 0} (opened : S → ℕ) (n : ℕ) (b : Bool) (x y : Option (X × S))
    → Leaves opened n x
    → Leaves opened n y
    → Leaves opened n (if b then x else y)
Leaves-if opened n true x y p q = p
Leaves-if opened n false x y p q = q

module _ {S : Type 0} (opened : S → ℕ) (send : S → List ℕ → Bool × S)
    (recv recv_now : S → ℕ → Option (List ℕ) × S)
    (sends : (s : S) (bytes : List ℕ) → opened (send s bytes).1 ≡ opened s)
    (receives : (s : S) (n : ℕ) → opened (recv s n).1 ≡ opened s)
    (receives_now : (s : S) (n : ℕ) → opened (recv_now s n).1 ≡ opened s) where
  line_with-keeps :
      (n : ℕ) (got : Option (List ℕ) × S) (rest : S → Option (List ℕ) × S)
      → opened got.1 ≡ n
      → ((s : S) → opened s ≡ n → opened (rest s).1 ≡ n)
      → opened (line_with send recv got rest).1 ≡ n
  line_with-keeps n (none, s) rest e more = e
  line_with-keeps n (some [], s) rest e more = e
  line_with-keeps n (some (c ∷ cs), s) rest e more = elim (Bool-cases (c == b'\n' || c == b'>')) [
    | inl ends ↦ rw ends e
    | inr goes_on ↦ rw goes_on (more s e)
  ]

  read_line-keeps :
      (room : ℕ) (s : S) (n : ℕ) → opened s ≡ n → opened (read_line send recv room s).1 ≡ n
  unfolding read_line
  read_line-keeps zero s n e = e
  read_line-keeps (suc room) s n e =
      line_with-keeps n (recv s 1) (read_line send recv room) (receives s 1 ∙ e)
        (λ s' e'. read_line-keeps room s' n e')

  on_line-keeps :
      (cmd : List ℕ) (size : ℕ) (echo : Bool) (response : List ℕ) (n : ℕ)
      (got : Option (List ℕ) × S) (next : Bool → List ℕ → List ℕ → S → Option (Option (List ℕ) × S))
      → opened got.1 ≡ n
      → ((echo : Bool) (chunk response : List ℕ) (s : S)
          → opened s ≡ n
          → Leaves opened n (next echo chunk response s))
      → Leaves opened n (on_line send recv cmd size echo response got next)
  on_line-keeps cmd size echo response n (none, s) next e more = more echo [] response s e
  on_line-keeps cmd size echo response n (some line, s) next e more =
      Leaves-if opened n (not echo && contains (cstring cmd) (cstring line)) _ _
        (more true line response s e)
        (Leaves-if opened n (not echo || is_noise (cstring line)) _ _ (more echo line response s e)
          (Leaves-if opened n (ltb (length response + length line) size) _ _
            (more echo line (response ++ line) s e) e))

  receive_loop-keeps :
      (turns : ℕ) (cmd : List ℕ) (size : ℕ) (echo : Bool) (chunk response : List ℕ) (s : S) (n : ℕ)
      → opened s ≡ n
      → Leaves opened n (receive_loop send recv turns cmd size echo chunk response s)
  unfolding receive_loop
  receive_loop-keeps zero cmd size echo chunk response s n e = tt
  receive_loop-keeps (suc turns) cmd size echo chunk response s n e =
      Leaves-if opened n (contains_prompt (take (length response) chunk)) _ _ e (
        on_line-keeps cmd size echo response n (read_line send recv (chunk_size - 1) s)
          (receive_loop send recv turns cmd size) (read_line-keeps (chunk_size - 1) s n e)
          (λ echo' chunk' response' s' e'.
            receive_loop-keeps turns cmd size echo' chunk' response' s' n e'))

  send_command-keeps :
      (turns : ℕ) (cmd : List ℕ) (size : ℕ) (s : S)
      → Leaves opened (opened s) (send_command send recv turns cmd size s)
  unfolding send_command
  send_command-keeps turns cmd size s =
      Leaves-if opened (opened s) (send s (command_line cmd)).0 _ _
        (receive_loop-keeps turns cmd size false [] [] (send s (command_line cmd)).1 (opened s)
          (sends s (command_line cmd)))
        (sends s (command_line cmd))

  welcome_loop-keeps :
      (turns : ℕ) (buffer : List ℕ) (s : S) (n : ℕ)
      → opened s ≡ n
      → Leaves opened n (welcome_loop send recv recv_now turns buffer s)
  unfolding welcome_loop
  welcome_loop-keeps zero buffer s n e = tt
  welcome_loop-keeps (suc turns) buffer s n e = Leaves-if opened n (contains_prompt buffer) _ _ e (
      welcome_loop-keeps turns (bytes_of (recv_now s welcome_size).0) (recv_now s welcome_size).1 n
        (receives_now s welcome_size ∙ e))

  read_welcome-keeps :
      (turns : ℕ) (s : S) (n : ℕ)
      → opened s ≡ n
      → Leaves opened n (read_welcome send recv recv_now turns s)
  unfolding read_welcome
  read_welcome-keeps turns s n e = by_first (recv s welcome_size) (receives s welcome_size ∙ e)
    where
      by_first :
          (got : Option (List ℕ) × S)
          → opened got.1 ≡ n
          → Leaves opened n (welcomed send recv recv_now turns got)
      by_first (none, s') e' = e'
      by_first (some buffer, s') e' = welcome_loop-keeps turns buffer s' n e'

-- A call that gives a socket has opened one, and one that gives none has not.
abbrev pub Opened : {S : Type 0} → (S → ℕ) → ℕ → Option (Option ℕ × S) → Type 0
Opened opened n none = Unit {0}
Opened opened n (some (r, s)) = opened s ≡ n + count r

-- What the calls of the system do to the number of open sockets.
pub record Counts {S A : Type 0} (opened : S → ℕ)
    (getaddrinfo : List ℕ → List ℕ → S → Option (List A) × S) (socket : A → S → Option ℕ × S)
    (connect : ℕ → A → S → Bool × S) (close : ℕ → S → S) (send : ℕ → S → List ℕ → Bool × S)
    (recv recv_now : ℕ → S → ℕ → Option (List ℕ) × S) : Type 0 where
  pub resolves : (h p : List ℕ) (s : S) → opened (getaddrinfo h p s).1 ≡ opened s
  pub makes : (a : A) (s : S) → let (r, s') = socket a s in opened s' ≡ opened s + count r
  pub connects : (sock : ℕ) (a : A) (s : S) → opened (connect sock a s).1 ≡ opened s
  pub closes : (sock : ℕ) (s : S) → opened (close sock s) ≡ opened s - 1
  pub sends : (sock : ℕ) (s : S) (bytes : List ℕ) → opened (send sock s bytes).1 ≡ opened s
  pub receives : (sock : ℕ) (s : S) (n : ℕ) → opened (recv sock s n).1 ≡ opened s
  pub receives_now : (sock : ℕ) (s : S) (n : ℕ) → opened (recv_now sock s n).1 ≡ opened s

module _ {S A : Type 0} (opened : S → ℕ) (getaddrinfo : List ℕ → List ℕ → S → Option (List A) × S)
    (socket : A → S → Option ℕ × S) (connect : ℕ → A → S → Bool × S) (close : ℕ → S → S)
    (send : ℕ → S → List ℕ → Bool × S) (recv recv_now : ℕ → S → ℕ → Option (List ℕ) × S)
    (counts : Counts opened getaddrinfo socket connect close send recv recv_now) where
  greeted-Opened :
      (turns sock n : ℕ) (welcome : Option (Bool × S))
      → Leaves opened (n + 1) welcome
      → Opened opened n
          (greeted getaddrinfo socket connect close send recv recv_now turns sock welcome)
  unfolding set_debug_level
  greeted-Opened turns sock n none e = tt
  greeted-Opened turns sock n (some (false, s)) e = omega (arith, counts.closes sock s)
  greeted-Opened turns sock n (some (true, s)) e =
      by_level (set_debug_level (send sock) (recv sock) (recv_now sock) turns 0 s) (
        subst
          (λ k. Leaves opened k (set_debug_level (send sock) (recv sock) (recv_now sock) turns 0 s))
          e
          (send_command-keeps opened (send sock) (recv sock) (recv_now sock) (counts.sends sock)
            (counts.receives sock) (counts.receives_now sock) turns (debug_level_command 0) 256 s))
    where
      by_level :
          (level : Option (Option (List ℕ) × S))
          → Leaves opened (n + 1) level
          → Opened opened n
              (levelled getaddrinfo socket connect close send recv recv_now sock level)
      by_level none e' = tt
      by_level (some (response, s')) e' = e'

  attempted-Opened :
      (turns sock n : ℕ) (made : Bool × S) (next : S → Option (Option ℕ × S))
      → opened made.1 ≡ n + 1
      → ((s : S) → opened s ≡ n → Opened opened n (next s))
      → Opened opened n
          (attempted getaddrinfo socket connect close send recv recv_now turns sock made next)
  attempted-Opened turns sock n (false, s) next e more =
      more (close sock s) (omega (arith, counts.closes sock s))
  attempted-Opened turns sock n (true, s) next e more =
      greeted-Opened turns sock n (read_welcome (send sock) (recv sock) (recv_now sock) turns s) (
        read_welcome-keeps opened (send sock) (recv sock) (recv_now sock) (counts.sends sock)
          (counts.receives sock) (counts.receives_now sock) turns s (n + 1) e)

  with_socket-Opened :
      (turns : ℕ) (a : A) (n : ℕ) (made : Option ℕ × S) (next : S → Option (Option ℕ × S))
      → opened made.1 ≡ n + count made.0
      → ((s : S) → opened s ≡ n → Opened opened n (next s))
      → Opened opened n
          (with_socket getaddrinfo socket connect close send recv recv_now turns a made next)
  with_socket-Opened turns a n (none, s) next e more = more s (omega arith)
  with_socket-Opened turns a n (some sock, s) next e more =
      attempted-Opened turns sock n (connect sock a s) next (counts.connects sock a s ∙ e) more

  try_addresses-Opened :
      (turns : ℕ) (addresses : List A) (s : S) (n : ℕ)
      → opened s ≡ n
      → Opened opened n
          (try_addresses getaddrinfo socket connect close send recv recv_now turns addresses s)
  unfolding try_addresses
  try_addresses-Opened turns [] s n e = omega arith
  try_addresses-Opened turns (a ∷ more) s n e =
      with_socket-Opened turns a n (socket a s)
        (try_addresses getaddrinfo socket connect close send recv recv_now turns more)
        (omega (arith, counts.makes a s)) (λ s' e'. try_addresses-Opened turns more s' n e')

  -- Over calls of the system that open, keep and close sockets as documented: where
  -- `openocd_connect` returns a socket, one socket more is open than before, and where it returns
  -- -1, none, on every path: an address that takes no socket or no connection, a welcome that fails,
  -- a level that cannot be set.
  pub openocd_connect-Opened :
      (turns : ℕ) (addr : Address) (s : S)
      → Opened opened
          (opened s)
          (openocd_connect getaddrinfo socket connect close send recv recv_now turns addr s)
  unfolding openocd_connect
  openocd_connect-Opened turns addr s =
      by_addresses (getaddrinfo (cstring addr.host) (port_text addr.port) s)
        (counts.resolves (cstring addr.host) (port_text addr.port) s)
    where
      by_addresses :
          (found : Option (List A) × S)
          → opened found.1 ≡ opened s
          → Opened opened
              (opened s)
              (resolved getaddrinfo socket connect close send recv recv_now turns found)
      by_addresses (none, s') e = omega arith
      by_addresses (some addresses, s') e = try_addresses-Opened turns addresses s' (opened s) e
