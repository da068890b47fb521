-- ===== src/Gdb/Session.antt =====
-- tools/monitor/gdb.c, a session with a GDB server: packets, acknowledgements, interrupting and
-- resuming the target, and reading and writing its memory.
-- The socket is a parameter: `send` gives the number of bytes that were sent, `none` for an error;
-- `recv` gives the bytes that came, at most as many as were asked for, and none for an error or the
-- end; `select` tells whether there is something to read, `none` for an error.
use dmlog.Base.{
  ℕ, zero, suc, ◌+◌, ◌-◌, ◌*◌, ◌%◌, ◌^◌, Bool, true, false, not, ◌&&◌, ◌||◌, Option, none, some,
  List, [], ◌∷◌, ◌++◌, length, take, drop, min, ltb, ◌==◌, if◌then◌else◌,
}
use dmlog.Output.{cstring}
use dmlog.Gdb.{
  calculate_checksum, frame, strtoul16, dollar, hash, is_stop_reply, decode_rle, parse_hex,
  hex_number, hex_bytes,
}
pub mod Packets
pub mod Memory
pub mod Running
pub mod Bounds
pub mod Ends

-- The socket, and the flag `target_is_running` of the file.
pub record World (S : Type 0) : Type 0 where
  pub socket : S
  pub target_is_running : Bool

-- How a call ends: with a result, with -1, or not yet.
pub data Reply (S A : Type 0) : Type 0 where
  done : A → World S → Reply S A
  failed : World S → Reply S A
  waiting : Reply S A

abbrev pub Io : Type 0 → Type 0 → Type 0
Io S A = World S → Reply S A

module _ {S A B : Type 0} where
  abbrev pub and_then : Reply S A → (A → Io S B) → Reply S B
  and_then (done a w) f = f a w
  and_then (failed w) f = failed w
  and_then waiting f = waiting

  infixl 5 ◌>>=◌ ◌>>◌
  abbrev pub ◌>>=◌ : Io S A → (A → Io S B) → Io S B
  ◌>>=◌ m f w = and_then (m w) f

  abbrev pub ◌>>◌ : Io S A → Io S B → Io S B
  m >> k = m >>= λ _. k

abbrev pub succeed : {S A : Type 0} → A → Io S A
succeed a w = done a w

abbrev pub fail : {S A : Type 0} → Io S A
fail w = failed w

abbrev pub on : {S : Type 0} → World S → S → World S
on w s = record w { socket = s }

abbrev pub plus : ℕ
plus = b'+'

abbrev pub minus : ℕ
minus = b'-'

-- Ctrl-C.
abbrev pub interrupt_byte : ℕ
interrupt_byte = 3

abbrev pub starts_with : ℕ → List ℕ → Bool
starts_with c [] = false
starts_with c (x ∷ xs) = x == c

-- What `gdb_read_memory` makes of the answer.
unfoldable pub decode_answer : ℕ → List ℕ → Option (List ℕ)
decode_answer length_wanted response =
    if starts_with b'E' response then none else elim (decode_rle response 8192) [
      | none ↦ none
      | some decoded ↦
          if ltb (length decoded) (length_wanted * 2)
          then none
          else some (parse_hex length_wanted decoded)
    ]

unfoldable pub read_command : ℕ → ℕ → List ℕ
read_command address count = b'm' ∷ (hex_number address ++ b',' ∷ hex_number count)

abbrev pub max_write_size : ℕ
max_write_size = 1024

unfoldable pub write_command : ℕ → List ℕ → List ℕ
write_command address bytes =
    b'M' ∷ (hex_number address ++ b',' ∷ (hex_number (length bytes) ++ b':' ∷ hex_bytes bytes))

abbrev pub is_ok : List ℕ → Bool
is_ok (a ∷ b ∷ []) = a == b'O' && b == b'K'
is_ok (a ∷ b ∷ c ∷ more) = false
is_ok (a ∷ []) = false
is_ok [] = false

module _ {S : Type 0} (send : S → List ℕ → Option ℕ × S) (recv : S → ℕ → List ℕ × S) where
  -- The test `sent < 0`.
  abbrev pub sent_or_fail : World S → Option ℕ × S → Reply S (Unit {0})
  sent_or_fail w (none, s) = failed (on w s)
  sent_or_fail w (some n, s) = done tt (on w s)

  -- The packets that are sent fit in the buffer that they are printed into.
  unfoldable pub send_packet : List ℕ → Io S (Unit {0})
  send_packet text w = sent_or_fail w (send w.socket (frame text))

  -- The wait for the start of a packet, on fuel.
  unfoldable pub skip_to_start : ℕ → Io S (Unit {0})
  skip_to_start zero w = waiting
  skip_to_start (suc turns) w =
      let (got, s) = recv w.socket 1 in
      let rest = skip_to_start turns (on w s) in
      elim got [ [] ↦ failed (on w s) | c ∷ cs ↦ if c == dollar then done tt (on w s) else rest ]

  -- The text of a packet, for so much room in the buffer.
  unfoldable pub read_text : ℕ → Io S (List ℕ)
  read_text zero w = done [] w
  read_text (suc room) w =
      let (got, s) = recv w.socket 1 in
      let rest = read_text room (on w s) in
      elim got [
        | [] ↦ failed (on w s)
        | c ∷ cs ↦
            if c == hash then done [] (on w s) else and_then rest (λ text w. done (c ∷ text) w)
      ]

  -- The end of `gdb_receive_packet`, with what came for the two digits.
  abbrev pub verify : List ℕ → World S → List ℕ → Reply S (List ℕ)
  verify text w digits =
      if length digits == 2
      then (if strtoul16 digits % 256 == calculate_checksum text
          then done text (on w (send w.socket (plus ∷ [])).1)
          else failed (on w (send w.socket (minus ∷ [])).1))
      else failed w

  unfoldable pub read_checksum : List ℕ → Io S (List ℕ)
  read_checksum text w = let (digits, s) = recv w.socket 2 in verify text (on w s) digits

  unfoldable pub receive_packet : ℕ → ℕ → Io S (List ℕ)
  receive_packet turns buffer_size =
      skip_to_start turns >>= λ _. read_text (buffer_size - 1) >>= λ text. read_checksum text

  abbrev pub judge_ack : World S → List ℕ → Reply S (Unit {0})
  judge_ack w [] = failed w
  judge_ack w (ack ∷ more) = if ack == plus then done tt w else failed w

  unfoldable pub wait_for_ack : Io S (Unit {0})
  wait_for_ack w = let (got, s) = recv w.socket 1 in judge_ack (on w s) got

  abbrev pub one_sent : World S → Option ℕ × S → Reply S (Unit {0})
  one_sent w (none, s) = failed (on w s)
  one_sent w (some n, s) = if n == 1 then done tt (on w s) else failed (on w s)

  abbrev pub send_interrupt : Io S (Unit {0})
  send_interrupt w = one_sent w (send w.socket (interrupt_byte ∷ []))

  abbrev pub set_running : Bool → Io S (Unit {0})
  set_running running w = done tt (record w { target_is_running = running })

  unfoldable pub interrupt : ℕ → Io S (Unit {0})
  interrupt turns w =
      if w.target_is_running
      then (send_interrupt >>= λ _. receive_packet turns 256 >>= λ _. set_running false) w
      else done tt w

  unfoldable pub resume : Io S (Unit {0})
  resume w =
      if w.target_is_running
      then done tt w
      else (send_packet (b'c' ∷ []) >>= λ _. set_running true) w

  -- `gdb_continue`; the target runs for a second before it is interrupted.
  unfoldable pub continue_target : ℕ → Io S (Unit {0})
  continue_target turns = send_packet (b'c' ∷ []) >>= λ _.
      send_interrupt >>= λ _. receive_packet turns 256 >>= λ _. succeed tt

  -- Where it does not fail, one of the answers that are not looked at.
  abbrev pub after : {A : Type 0} → Reply S A → World S → World S
  after (done a w) w' = w
  after (failed w) w' = w
  after waiting w' = w'

  -- The end of a call that found the target running or not: it resumes it, whatever comes of that.
  abbrev pub restore : {A : Type 0} → Bool → Reply S A → Reply S A
  restore false r = r
  restore true (done a w) = done a (after (resume w) w)
  restore true (failed w) = failed (after (resume w) w)
  restore true waiting = waiting

  module _ (select : S → Option Bool × S) where
    -- A packet that cannot be read ends the draining.
    abbrev pub drained : Reply S (List ℕ) → Io S (Unit {0}) → Reply S (Unit {0})
    drained (done text w) next = next w
    drained (failed w) next = done tt w
    drained waiting next = waiting

    -- What `gdb_drain_pending_packets` leaves, in at most so many attempts.
    unfoldable pub drain : ℕ → ℕ → Io S (Unit {0})
    drain turns zero w = done tt w
    drain turns (suc attempts) w =
        let (ready, s) = select w.socket in
        let rest = drained (receive_packet turns 256 (on w s)) (drain turns attempts) in
        elim ready [ none ↦ done tt (on w s) | some more ↦ if more then rest else done tt (on w s) ]

    -- `gdb_connect`, over the addresses of the host: `none` where none of them takes a connection.
    -- `dial` makes a socket and connects it.
    module _ {A : Type 0} (dial : A → Option S) where
      unfoldable pub connect : ℕ → List A → Bool → Option (Reply S (Unit {0}))
      connect turns [] running = none
      connect turns (address ∷ addresses) running =
          let rest = connect turns addresses running in
          elim (dial address) [
            | none ↦ rest
            | some s ↦ some (
                (drain turns 5 >>= λ _. continue_target turns)
                  (record { socket = s; target_is_running = running }))
          ]

    -- A command, its acknowledgement and the answer.
    unfoldable pub ask : ℕ → ℕ → List ℕ → Io S (List ℕ)
    ask turns buffer_size command =
        send_packet command >>= λ _. wait_for_ack >>= λ _. receive_packet turns buffer_size

    -- The answer to a read: asked for again, once, where a stop reply came in its place.
    unfoldable pub ask_twice : ℕ → List ℕ → Io S (List ℕ)
    ask_twice turns command = ask turns 8192 command >>= λ response.
        if is_stop_reply response
        then (drain turns 5 >>= λ _. ask turns 8192 command)
        else succeed response

    abbrev pub or_fail : Option (List ℕ) → Io S (List ℕ)
    or_fail none w = failed w
    or_fail (some bytes) w = done bytes w

    unfoldable pub read_memory : ℕ → ℕ → ℕ → Io S (List ℕ)
    read_memory turns address count w =
        (interrupt turns >>= λ _ w'. restore w.target_is_running (
            (ask_twice turns (read_command address count) >>= λ response.
            or_fail (decode_answer count response))
              w'))
          w

    -- The loop of `gdb_write_memory`, with so many bytes left at most.
    unfoldable pub write_loop : ℕ → ℕ → ℕ → List ℕ → Io S (Unit {0})
    write_loop turns zero address bytes w = done tt w
    write_loop turns (suc left) address [] w = done tt w
    write_loop turns (suc left) address (x ∷ bytes) w =
        let chunk = take max_write_size (x ∷ bytes) in
        let rest =
          write_loop turns left ((address + length chunk) % 2 ^ 64)
            (drop max_write_size (x ∷ bytes)) in
        (ask turns 256 (write_command address chunk) >>= λ response.
        if is_ok (cstring response) then rest else fail)
          w

    unfoldable pub write_memory : ℕ → ℕ → List ℕ → Io S (Unit {0})
    write_memory turns address bytes w =
        (interrupt turns >>= λ _ w'.
        restore w.target_is_running (write_loop turns (length bytes) address bytes w'))
          w
