-- ===== src/Gdb/Session/Ends.antt =====
-- The waits of `gdb_receive_packet` come to an end with the bytes of the socket.
use dmlog.Base.{
  ℕ, zero, suc, ◌-◌, ◌%◌, ◌<◌, ◌≡◌, refl, ap, Bool, true, false, Option, List, [], ◌∷◌, length,
  length-drop, length-take, arith, ◌==◌, if◌then◌else◌,
}
use dmlog.Gdb.{calculate_checksum, strtoul16, dollar, hash}
use dmlog.Gdb.Session.{
  World, Reply, done, failed, waiting, Io, on, and_then, skip_to_start, read_text, read_checksum,
  receive_packet,
}
use dmlog.Gdb.Session.Packets.{Streams}

module _ {S A : Type 0} where
  -- A call that is over, with a result or with -1.
  abbrev pub Ended : Reply S A → Type 0
  Ended (done a w) = Unit {0}
  Ended (failed w) = Unit {0}
  Ended waiting = ⊥

  Ended-if : (b : Bool) (r s : Reply S A) → Ended r → Ended s → Ended (if b then r else s)
  Ended-if true r s h k = h
  Ended-if false r s h k = k

  Ended-elim :
      (l : List ℕ) (r : Reply S A) (f : ℕ → List ℕ → Reply S A)
      → Ended r
      → ((c : ℕ) (cs : List ℕ) → l ≡ c ∷ cs → Ended (f c cs))
      → Ended (elim l [ [] ↦ r | c ∷ cs ↦ f c cs ])
  Ended-elim [] r f h k = h
  Ended-elim (c ∷ cs) r f h k = k c cs refl

Ended-and_then :
    {S A B : Type 0} (r : Reply S A) (f : A → Io S B)
    → Ended r
    → ((a : A) (w : World S) → Ended (f a w))
    → Ended (and_then r f)
Ended-and_then (done a w) f h next = next a w
Ended-and_then (failed w) f h next = tt
Ended-and_then waiting f h next = absurd h

module _ {S : Type 0} (send : S → List ℕ → Option ℕ × S) (recv : S → ℕ → List ℕ × S)
    (incoming : S → List ℕ) (streams : Streams send recv incoming) where
  -- A byte that was taken is one less to come.
  fewer :
      (turns : ℕ) (s : S) (c : ℕ) (cs : List ℕ)
      → length (incoming s) < suc turns
      → (recv s 1).0 ≡ c ∷ cs
      → length (incoming (recv s 1).1) < turns
  fewer turns s c cs enough e = omega (
    arith,
    ap length (streams s 1).1,
    ap length (streams s 1).0,
    ap length e,
    length-drop 1 (incoming s),
    length-take 1 (incoming s),
  )

  skip_to_start-Ended :
      (turns : ℕ) (w : World S)
      → length (incoming w.socket) < turns
      → Ended (skip_to_start send recv turns w)
  unfolding skip_to_start
  skip_to_start-Ended zero w enough = absurd (omega arith)
  skip_to_start-Ended (suc turns) w enough = Ended-elim (recv w.socket 1).0 _ _ tt (λ c cs e.
      Ended-if (c == dollar) _ _ tt
        (skip_to_start-Ended turns (on w (recv w.socket 1).1) (fewer turns w.socket c cs enough e)))

  read_text-Ended : (room : ℕ) (w : World S) → Ended (read_text send recv room w)
  unfolding read_text
  read_text-Ended zero w = tt
  read_text-Ended (suc room) w = Ended-elim (recv w.socket 1).0 _ _ tt (λ c cs e.
      Ended-if (c == hash) _ _ tt
        (Ended-and_then _ _ (read_text-Ended room (on w (recv w.socket 1).1)) (λ text w'. tt)))

  read_checksum-Ended : (text : List ℕ) (w : World S) → Ended (read_checksum send recv text w)
  unfolding read_checksum
  read_checksum-Ended text w =
      Ended-if (length (recv w.socket 2).0 == 2) _ _
        (Ended-if (strtoul16 (recv w.socket 2).0 % 256 == calculate_checksum text) _ _ tt tt) tt

  -- With a socket that gives the bytes that come and then nothing more: `gdb_receive_packet` ends,
  -- with a text or with -1, whatever the bytes are, once it may look at one more byte than come.
  pub receive_packet-Ended :
      (turns buffer_size : ℕ) (w : World S)
      → length (incoming w.socket) < turns
      → Ended (receive_packet send recv turns buffer_size w)
  unfolding receive_packet
  receive_packet-Ended turns buffer_size w enough =
      Ended-and_then _ _ (skip_to_start-Ended turns w enough)
        (λ u w'. Ended-and_then _ _ (read_text-Ended (buffer_size - 1) w') read_checksum-Ended)
