-- ===== src/OpenOcd/Connect.antt =====
-- tools/monitor/openocd.c: connecting to OpenOCD, its welcome, and leaving.
-- The calls of the system are parameters: `getaddrinfo` gives the addresses of a host, `socket` and
-- `connect` an endpoint, `recv_now` is `recv` with `MSG_DONTWAIT`. A receive gives `none` for an error
-- and no bytes at the end of the connection. A wait is on fuel, `none` where it is not over by then.
use dmlog.Base.{
  ℕ, zero, suc, ◌-◌, ◌^◌, Bool, true, false, Option, none, some, List, [], ◌∷◌, ◌++◌, take, ltb,
  if◌then◌else◌,
}
use dmlog.Output.{cstring}
use dmlog.Backend.{Address, codes}
use dmlog.OpenOcd.{contains_prompt, decimal}
use dmlog.OpenOcd.Session.{send_command}
pub mod Welcome
pub mod Sockets

-- `snprintf` of the port as `%d` into 6 bytes.
unfoldable pub port_text : ℕ → List ℕ
port_text port =
    take 5 (if ltb port (2 ^ 31) then decimal 10 port [] else b'-' ∷ decimal 10 (2 ^ 32 - port) [])

-- "debug_level %d", for a level that is not negative.
unfoldable pub debug_level_command : ℕ → List ℕ
debug_level_command level = codes "debug_level " ++ decimal 10 level []

-- The size of the buffer for the welcome, less the final 0.
abbrev pub welcome_size : ℕ
welcome_size = 255

abbrev pub bytes_of : Option (List ℕ) → List ℕ
bytes_of none = []
bytes_of (some bytes) = bytes

module _ {S : Type 0} (send : S → List ℕ → Bool × S)
    (recv recv_now : S → ℕ → Option (List ℕ) × S) where
  -- The loop of `openocd_read_welcome`, with what is in the buffer.
  unfoldable pub welcome_loop : ℕ → List ℕ → S → Option (Bool × S)
  welcome_loop zero buffer s = none
  welcome_loop (suc turns) buffer s =
      let (got, s') = recv_now s welcome_size in
      let rest = welcome_loop turns (bytes_of got) s' in
      if contains_prompt buffer then some (true, s) else rest

  abbrev pub welcomed : ℕ → Option (List ℕ) × S → Option (Bool × S)
  welcomed turns (none, s) = some (false, s)
  welcomed turns (some buffer, s) = welcome_loop turns buffer s

  unfoldable pub read_welcome : ℕ → S → Option (Bool × S)
  read_welcome turns s = welcomed turns (recv s welcome_size)

  unfoldable pub set_debug_level : ℕ → ℕ → S → Option (Option (List ℕ) × S)
  set_debug_level turns level s = send_command send recv turns (debug_level_command level) 256 s

module _ {S A : Type 0} (getaddrinfo : List ℕ → List ℕ → S → Option (List A) × S)
    (socket : A → S → Option ℕ × S) (connect : ℕ → A → S → Bool × S) (close : ℕ → S → S)
    (send : ℕ → S → List ℕ → Bool × S) (recv recv_now : ℕ → S → ℕ → Option (List ℕ) × S) where
  -- How a wait for a connection ends: with a socket, without one, or not by now.
  abbrev pub Connected : Type 0
  Connected = Option (Option ℕ × S)

  -- A warning is all that comes of a level that could not be set.
  abbrev pub levelled : ℕ → Option (Option (List ℕ) × S) → Connected
  levelled sock none = none
  levelled sock (some (response, s)) = some (some sock, s)

  abbrev pub greeted : ℕ → ℕ → Option (Bool × S) → Connected
  greeted turns sock none = none
  greeted turns sock (some (false, s)) = some (none, close sock s)
  greeted turns sock (some (true, s)) =
      levelled sock (set_debug_level (send sock) (recv sock) (recv_now sock) turns 0 s)

  -- After the attempt to connect: on with the other addresses, or the end.
  abbrev pub attempted : ℕ → ℕ → Bool × S → (S → Connected) → Connected
  attempted turns sock (false, s) next = next (close sock s)
  attempted turns sock (true, s) next =
      greeted turns sock (read_welcome (send sock) (recv sock) (recv_now sock) turns s)

  abbrev pub with_socket : ℕ → A → Option ℕ × S → (S → Connected) → Connected
  with_socket turns a (none, s) next = next s
  with_socket turns a (some sock, s) next = attempted turns sock (connect sock a s) next

  unfoldable pub try_addresses : ℕ → List A → S → Connected
  try_addresses turns [] s = some (none, s)
  try_addresses turns (a ∷ more) s = with_socket turns a (socket a s) (try_addresses turns more)

  abbrev pub resolved : ℕ → Option (List A) × S → Connected
  resolved turns (none, s) = some (none, s)
  resolved turns (some addresses, s) = try_addresses turns addresses s

  unfoldable pub openocd_connect : ℕ → Address → S → Connected
  openocd_connect turns addr s =
      resolved turns (getaddrinfo (cstring addr.host) (port_text addr.port) s)

  unfoldable pub openocd_disconnect : ℕ → S → S
  openocd_disconnect sock s = close sock s
