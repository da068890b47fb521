-- ===== src/OpenOcd/Session.antt =====
-- tools/monitor/openocd.c, a session: commands and their responses, and reading and writing memory.
-- The socket is a parameter: `send` tells whether the bytes were sent, `recv` gives at most as many
-- bytes as are asked for, `none` for an error or the end. A wait is on fuel, `none` where it is
-- not over by then. What is printed for the user is left out.
use dmlog.Base.{
  ℕ, zero, suc, ◌+◌, ◌-◌, ◌*◌, ◌/◌, Bool, true, false, not, ◌&&◌, ◌||◌, Option, none, some, List,
  [], ◌∷◌, ◌++◌, length, take, ltb, ◌==◌, if◌then◌else◌, replicate,
}
use dmlog.Output.{cstring}
use dmlog.OpenOcd.{
  contains_prompt, Store, store_command, stores, read_words_command, parse_response,
}

-- Whether a string starts with another one, and `strstr`.
unfoldable pub starts_as : List ℕ → List ℕ → Bool
starts_as [] text = true
starts_as (c ∷ cs) [] = false
starts_as (c ∷ cs) (x ∷ xs) = let rest = starts_as cs xs in c == x && rest

unfoldable pub contains : List ℕ → List ℕ → Bool
contains word [] = starts_as word []
contains word (x ∷ xs) = starts_as word (x ∷ xs) || contains word xs

-- "failure", "failed", "error" and "Polling" mark lines that are not of the response.
unfoldable pub is_noise : List ℕ → Bool
is_noise line =
    contains (b'f' ∷ b'a' ∷ b'i' ∷ b'l' ∷ b'u' ∷ b'r' ∷ b'e' ∷ []) line
    || contains (b'f' ∷ b'a' ∷ b'i' ∷ b'l' ∷ b'e' ∷ b'd' ∷ []) line
    || contains (b'e' ∷ b'r' ∷ b'r' ∷ b'o' ∷ b'r' ∷ []) line
    || contains (b'P' ∷ b'o' ∷ b'l' ∷ b'l' ∷ b'i' ∷ b'n' ∷ b'g' ∷ []) line

-- The size of `chunk`, and the line that a command makes.
abbrev pub chunk_size : ℕ
chunk_size = 512

abbrev pub command_line : List ℕ → List ℕ
command_line cmd = cstring cmd ++ 13 ∷ b'\n' ∷ []

module _ {S : Type 0} (send : S → List ℕ → Bool × S) (recv : S → ℕ → Option (List ℕ) × S) where
  -- A byte that was read, and the line behind it.
  abbrev pub line_with : Option (List ℕ) × S → (S → Option (List ℕ) × S) → Option (List ℕ) × S
  line_with (none, s) rest = (none, s)
  line_with (some [], s) rest = (none, s)
  line_with (some (c ∷ cs), s) rest =
      let (line, s') = rest s in
      let whole : Option (List ℕ) = elim line [ none ↦ none | some more ↦ some (c ∷ more) ] in
      if c == b'\n' || c == b'>' then (some (c ∷ []), s) else (whole, s')

  -- `read_line`, with so much room; `none` is the result -1.
  unfoldable pub read_line : ℕ → S → Option (List ℕ) × S
  read_line zero s = (some [], s)
  read_line (suc room) s = line_with (recv s 1) (read_line room)

  -- How a wait for a response ends: with the response, with -1, or not by now.
  abbrev pub Response : Type 0
  Response = Option (Option (List ℕ) × S)

  -- What becomes of a line: the echo of the command, a line to skip, or a part of the response.
  abbrev pub on_line :
      List ℕ
      → ℕ
      → Bool
      → List ℕ
      → Option (List ℕ) × S
      → (Bool → List ℕ → List ℕ → S → Response)
      → Response
  on_line cmd response_size echo_received response (none, s) next = next echo_received [] response s
  on_line cmd response_size echo_received response (some line, s) next =
      if not echo_received && contains (cstring cmd) (cstring line)
      then next true line response s
      else (if not echo_received || is_noise (cstring line)
          then next echo_received line response s
          else (if ltb (length response + length line) response_size
              then next echo_received line (response ++ line) s
              else some (none, s)))

  -- The loop of `openocd_send_command`: `chunk` is the last line, and what is received so far is in
  -- `response`, of at most `response_size` bytes.
  unfoldable pub receive_loop : ℕ → List ℕ → ℕ → Bool → List ℕ → List ℕ → S → Response
  receive_loop zero cmd response_size echo_received chunk response s = none
  receive_loop (suc turns) cmd response_size echo_received chunk response s =
      let more =
        on_line cmd response_size echo_received response (read_line (chunk_size - 1) s)
          (receive_loop turns cmd response_size) in
      if contains_prompt (take (length response) chunk) then some (some response, s) else more

  unfoldable pub send_command : ℕ → List ℕ → ℕ → S → Option (Option (List ℕ) × S)
  send_command turns cmd response_size s =
      let (sent, s') = send s (command_line cmd) in
      let received = receive_loop turns cmd response_size false [] [] s' in
      if sent then received else some (none, s')

  -- `malloc` has succeeded. The response is zero behind what was received.
  abbrev pub stored_response : ℕ → Option (Option (List ℕ) × S) → Option (Option (List ℕ) × S)
  stored_response count none = none
  stored_response count (some (none, s)) = some (none, s)
  stored_response count (some (some response, s)) = some (
    some (parse_response (response ++ replicate (count * 10 + 128 - length response) 0) count),
    s,
  )

  unfoldable pub read_memory : ℕ → ℕ → ℕ → S → Option (Option (List ℕ) × S)
  read_memory turns address count s =
      stored_response count
        (send_command turns (read_words_command address ((count + 3) / 4)) (count * 10 + 128) s)

  abbrev pub stored_and : Option (Option (List ℕ) × S) → (S → Option (Bool × S)) → Option (Bool × S)
  stored_and none next = none
  stored_and (some (none, s)) next = some (false, s)
  stored_and (some (some response, s)) next = next s

  unfoldable pub store_all : ℕ → List Store → S → Option (Bool × S)
  store_all turns [] s = some (true, s)
  store_all turns (command ∷ commands) s =
      stored_and (send_command turns (store_command command) 256 s) (store_all turns commands)

  unfoldable pub write_memory : ℕ → ℕ → List ℕ → S → Option (Bool × S)
  write_memory turns address bytes s = store_all turns (stores address bytes) s
