-- ===== src/Gdb/Session/Running.antt =====
-- The flag `target_is_running` over a read or a write of memory, whatever the server answers.
use dmlog.Base.{
  arith, ℕ, zero, suc, ◌≡◌, refl, Bool, true, false, Option, none, some, List, [], ◌∷◌, ◌==◌,
  if◌then◌else◌, length, ◌%◌, ◌^◌, ◌+◌, ◌-◌, take, drop,
}
use dmlog.Gdb.{calculate_checksum, frame, strtoul16, dollar, hash, is_stop_reply}
use dmlog.Output.{cstring}
use dmlog.Gdb.Session.{
  interrupt_byte, read_command, is_ok, fail, max_write_size, World, Reply, done, failed, waiting,
  Io, on, and_then, plus, sent_or_fail, send_packet, skip_to_start, read_text, read_checksum,
  receive_packet, judge_ack, wait_for_ack, one_sent, interrupt, resume, restore, after, drained,
  drain, ask, ask_twice, or_fail, decode_answer, read_memory, write_loop, write_memory,
}

module _ {S A : Type 0} where
  -- A call that has ended leaves the flag so.
  abbrev pub Leaves : Bool → Reply S A → Type 0
  Leaves running (done a w) = w.target_is_running ≡ running
  Leaves running (failed w) = w.target_is_running ≡ running
  Leaves running waiting = Unit {0}

  Leaves-if :
      (running b : Bool) (r s : Reply S A)
      → Leaves running r
      → Leaves running s
      → Leaves running (if b then r else s)
  Leaves-if running true r s h k = h
  Leaves-if running false r s h k = k

  Leaves-elim :
      (running : Bool) (l : List ℕ) (r : Reply S A) (f : ℕ → List ℕ → Reply S A)
      → Leaves running r
      → ((c : ℕ) (cs : List ℕ) → Leaves running (f c cs))
      → Leaves running (elim l [ [] ↦ r | c ∷ cs ↦ f c cs ])
  Leaves-elim running [] r f h k = h
  Leaves-elim running (c ∷ cs) r f h k = k c cs

  Leaves-option :
      (running : Bool) (o : Option Bool) (r : Reply S A) (f : Bool → Reply S A)
      → Leaves running r
      → ((b : Bool) → Leaves running (f b))
      → Leaves running (elim o [ none ↦ r | some b ↦ f b ])
  Leaves-option running none r f h k = h
  Leaves-option running (some b) r f h k = k b

  Leaves-io :
      (running b : Bool) (m n : Io S A) (w : World S)
      → Leaves running (m w)
      → Leaves running (n w)
      → Leaves running ((if b then m else n) w)
  Leaves-io running true m n w h k = h
  Leaves-io running false m n w h k = k

Leaves-and_then :
    {S A B : Type 0} (running : Bool) (r : Reply S A) (f : A → Io S B)
    → Leaves running r
    → ((a : A) (w : World S) → w.target_is_running ≡ running → Leaves running (f a w))
    → Leaves running (and_then r f)
Leaves-and_then running (done a w) f h next = next a w h
Leaves-and_then running (failed w) f h next = h
Leaves-and_then running waiting f h next = tt

module _ {S : Type 0} (send : S → List ℕ → Option ℕ × S) (recv : S → ℕ → List ℕ × S) where
  -- A call that leaves the flag as it is.
  abbrev Keeping : {A : Type 0} → Io S A → Type 0
  Keeping m = (running : Bool) (w : World S) → w.target_is_running ≡ running → Leaves running (m w)

  Keeping-and_then :
      {A B : Type 0} (m : Io S A) (f : A → Io S B)
      → Keeping m
      → ((a : A) → Keeping (f a))
      → Keeping (λ w. and_then (m w) f)
  Keeping-and_then m f h next running w e =
      Leaves-and_then running (m w) f (h running w e) (λ a w' e'. next a running w' e')

  sent_or_fail-Leaves :
      (running : Bool) (w : World S) (r : Option ℕ × S)
      → w.target_is_running ≡ running
      → Leaves running (sent_or_fail send recv w r)
  sent_or_fail-Leaves running w (none, s) e = e
  sent_or_fail-Leaves running w (some n, s) e = e

  send_packet-Keeping : (text : List ℕ) → Keeping (send_packet send recv text)
  unfolding send_packet
  send_packet-Keeping text running w e =
      sent_or_fail-Leaves running w (send w.socket (frame text)) e

  skip_to_start-Keeping : (turns : ℕ) → Keeping (skip_to_start send recv turns)
  unfolding skip_to_start
  skip_to_start-Keeping zero running w e = tt
  skip_to_start-Keeping (suc turns) running w e =
      Leaves-elim running (recv w.socket 1).0 _ _ e (λ c cs.
        Leaves-if running (c == dollar) _ _ e
          (skip_to_start-Keeping turns running (on w (recv w.socket 1).1) e))

  read_text-Keeping : (room : ℕ) → Keeping (read_text send recv room)
  unfolding read_text
  read_text-Keeping zero running w e = e
  read_text-Keeping (suc room) running w e = Leaves-elim running (recv w.socket 1).0 _ _ e (λ c cs.
      Leaves-if running (c == hash) _ _ e (
        Leaves-and_then running _ _ (read_text-Keeping room running (on w (recv w.socket 1).1) e)
          (λ text w' e'. e')))

  read_checksum-Keeping : (text : List ℕ) → Keeping (read_checksum send recv text)
  unfolding read_checksum
  read_checksum-Keeping text running w e =
      Leaves-if running (length (recv w.socket 2).0 == 2) _ _
        (Leaves-if running (strtoul16 (recv w.socket 2).0 % 256 == calculate_checksum text) _ _ e e)
        e

  receive_packet-Keeping : (turns size : ℕ) → Keeping (receive_packet send recv turns size)
  unfolding receive_packet
  receive_packet-Keeping turns size =
      Keeping-and_then _ _ (skip_to_start-Keeping turns)
        (λ u. Keeping-and_then _ _ (read_text-Keeping (size - 1)) read_checksum-Keeping)

  wait_for_ack-Keeping : Keeping (wait_for_ack send recv)
  unfolding wait_for_ack
  wait_for_ack-Keeping running w e = judged (recv w.socket 1).0
    where
      judged : (got : List ℕ) → Leaves running (judge_ack send recv (on w (recv w.socket 1).1) got)
      judged [] = e
      judged (c ∷ cs) = Leaves-if running (c == plus) _ _ e e

  module _ (select : S → Option Bool × S) where
    drained-Leaves :
        (running : Bool) (r : Reply S (List ℕ)) (next : Io S (Unit {0}))
        → Leaves running r
        → Keeping next
        → Leaves running (drained send recv select r next)
    drained-Leaves running (done text w) next h keeps = keeps running w h
    drained-Leaves running (failed w) next h keeps = h
    drained-Leaves running waiting next h keeps = tt

    drain-Keeping : (turns attempts : ℕ) → Keeping (drain send recv select turns attempts)
    unfolding drain
    drain-Keeping turns zero running w e = e
    drain-Keeping turns (suc attempts) running w e =
        let w' = on w (select w.socket).1 in
        Leaves-option running (select w.socket).0 _ _ e (λ more.
          Leaves-if running more _ _
            (drained-Leaves running _ _ (receive_packet-Keeping turns 256 running w' e)
              (drain-Keeping turns attempts))
            e)

    ask-Keeping :
        (turns size : ℕ) (command : List ℕ) → Keeping (ask send recv select turns size command)
    unfolding ask
    ask-Keeping turns size command =
        Keeping-and_then _ _ (send_packet-Keeping command)
          (λ u. Keeping-and_then _ _ wait_for_ack-Keeping (λ v. receive_packet-Keeping turns size))

    ask_twice-Keeping :
        (turns : ℕ) (command : List ℕ) → Keeping (ask_twice send recv select turns command)
    unfolding ask_twice
    ask_twice-Keeping turns command =
        Keeping-and_then _ _ (ask-Keeping turns 8192 command) (λ response running w e.
          Leaves-io running (is_stop_reply response) _ _ w
            (Keeping-and_then _ _ (drain-Keeping turns 5) (λ u. ask-Keeping turns 8192 command)
              running w e)
            e)

    or_fail-Keeping : (answer : Option (List ℕ)) → Keeping (or_fail send recv select answer)
    or_fail-Keeping none running w e = e
    or_fail-Keeping (some bytes) running w e = e

    write_loop-Keeping :
        (turns left a : ℕ) (bytes : List ℕ)
        → Keeping (write_loop send recv select turns left a bytes)
    unfolding write_loop
    write_loop-Keeping turns zero a bytes running w e = e
    write_loop-Keeping turns (suc left) a [] running w e = e
    write_loop-Keeping turns (suc left) a (x ∷ bytes) running w e =
        Keeping-and_then _ _ (ask-Keeping turns 256 _)
          (λ response running w e.
            Leaves-io running (is_ok (cstring response)) _ fail w
              (write_loop-Keeping turns left
                ((a + length (take max_write_size (x ∷ bytes))) % 2 ^ 64)
                (drop max_write_size (x ∷ bytes)) running w e)
              e)
          running w e

    module _ (sends : (s : S) (bytes : List ℕ) → (n : ℕ) × ((send s bytes).0 ≡ some n)) where
      after-resume :
          (w : World S)
          → w.target_is_running ≡ false
          → (after send recv (resume send recv w) w).target_is_running ≡ true
      unfolding resume send_packet
      after-resume w e = rw (e, (sends w.socket (frame (b'c' ∷ []))).1) refl

      restore-Leaves :
          {A : Type 0} (r : Reply S A) (running : Bool)
          → Leaves false r
          → Leaves running (restore send recv running r)
      restore-Leaves r false h = h
      restore-Leaves (done a w) true h = after-resume w h
      restore-Leaves (failed w) true h = after-resume w h
      restore-Leaves waiting true h = tt

      -- What an interrupt leaves: the target is stopped, or the call has failed and it runs.
      abbrev Stops : Reply S (Unit {0}) → Type 0
      Stops (done a w) = w.target_is_running ≡ false
      Stops (failed w) = w.target_is_running ≡ true
      Stops waiting = Unit {0}

      Stops-and_then :
          {A : Type 0} (r : Reply S A) (f : A → Io S (Unit {0}))
          → Leaves true r
          → ((a : A) (w : World S) → w.target_is_running ≡ true → Stops (f a w))
          → Stops (and_then r f)
      Stops-and_then (done a w) f h next = next a w h
      Stops-and_then (failed w) f h next = h
      Stops-and_then waiting f h next = tt

      Stops-if :
          (b : Bool) (r s : Reply S (Unit {0})) → b ≡ true → Stops r → Stops (if b then r else s)
      Stops-if true r s e h = h
      Stops-if false r s e h = absurd (ground arith)

      one_sent-Leaves :
          (w : World S) (r : Option ℕ × S)
          → w.target_is_running ≡ true
          → Leaves true (one_sent send recv w r)
      one_sent-Leaves w (none, s) e = e
      one_sent-Leaves w (some n, s) e = Leaves-if true (n == 1) _ _ e e

      interrupt-Stops :
          (turns : ℕ) (w : World S)
          → w.target_is_running ≡ true
          → Stops (interrupt send recv turns w)
      unfolding interrupt
      interrupt-Stops turns w e = Stops-if w.target_is_running _ _ e (
          Stops-and_then _ _ (one_sent-Leaves w (send w.socket (interrupt_byte ∷ [])) e) (λ u w' e'.
            Stops-and_then _ _ (receive_packet-Keeping turns 256 true w' e')
              (λ text w'' e''. refl)))

      interrupt-done :
          (turns : ℕ) (w : World S)
          → w.target_is_running ≡ false
          → interrupt send recv turns w ≡ done tt w
      unfolding interrupt
      interrupt-done turns w e = rw e refl

      stopped-Leaves :
          {A : Type 0} (r : Reply S (Unit {0})) (m : Io S A)
          → Keeping m
          → Stops r
          → Leaves true (and_then r (λ u w'. restore send recv true (m w')))
      stopped-Leaves (done a w) m keeps h = restore-Leaves (m w) true (keeps false w h)
      stopped-Leaves (failed w) m keeps h = h
      stopped-Leaves waiting m keeps h = tt

      -- Whatever is done while the target is stopped.
      within-Leaves :
          {A : Type 0} (turns : ℕ) (m : Io S A) (w : World S) (running : Bool)
          → Keeping m
          → w.target_is_running ≡ running
          → Leaves running
              (and_then (interrupt send recv turns w) (λ u w'. restore send recv running (m w')))
      within-Leaves turns m w true keeps e =
          stopped-Leaves (interrupt send recv turns w) m keeps (interrupt-Stops turns w e)
      within-Leaves turns m w false keeps e = rw (interrupt-done turns w e) (keeps false w e)

      -- With a socket on which sending does not fail, whatever the server answers: where
      -- `gdb_read_memory` or `gdb_write_memory` ends, with success or with an error,
      -- `target_is_running` is as it was before.
      pub memory_calls-Leaves :
          (turns a n : ℕ) (bytes : List ℕ) (w : World S)
          → Leaves w.target_is_running (read_memory send recv select turns a n w)
            × Leaves w.target_is_running (write_memory send recv select turns a bytes w)
      unfolding read_memory write_memory
      memory_calls-Leaves turns a n bytes w = (
        within-Leaves turns _ w w.target_is_running
            (Keeping-and_then _ _ (ask_twice-Keeping turns (read_command a n))
              (λ response. or_fail-Keeping (decode_answer n response)))
            refl,
        within-Leaves turns _ w w.target_is_running
            (write_loop-Keeping turns (length bytes) a bytes) refl,
      )
