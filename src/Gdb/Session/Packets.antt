-- ===== src/Gdb/Session/Packets.antt =====
-- A packet that comes over the socket: what `gdb_receive_packet` takes and what it refuses.
use dmlog.Base.{
  ℕ, zero, suc, ◌+◌, ◌-◌, ◌%◌, ◌≤◌, ◌<◌, ◌≡◌, ◌≢◌, refl, ap, ◌∙◌, true, Option, List, [], ◌∷◌, ◌++◌,
  append_assoc, arith, length, take, drop, ◌==◌, if◌then◌else◌, ne→==, ==_iff, ◌/◌,
}
use dmlog.Output.{cstring}
use dmlog.Gdb.{
  hex_digit, checksum_from, calculate_checksum, hex_byte, frame, strtoul16, dollar, hash,
}
use dmlog.Gdb.Hex.{strtoul16-hex_byte}
use dmlog.Gdb.Session.{
  World, done, failed, on, and_then, plus, minus, skip_to_start, read_text, verify, read_checksum,
  receive_packet,
}

-- The byte `c` does not occur.
abbrev pub Without : ℕ → List ℕ → Type 0
Without c [] = Unit {0}
Without c (x ∷ xs) = (x ≢ c) × Without c xs

pub cstring-Without : (xs : List ℕ) → Without 0 xs → cstring xs ≡ xs
cstring-Without [] h = refl
cstring-Without (x ∷ xs) h = rw (ne→== x 0 h.0) (ap (◌∷◌ x) (cstring-Without xs h.1))

pub checksum_from-lt : (n : ℕ) (xs : List ℕ) → n < 256 → checksum_from n xs < 256
unfolding checksum_from
checksum_from-lt n [] h = h
checksum_from-lt n (x ∷ xs) h = checksum_from-lt ((n + x) % 256) xs (omega arith)

-- The digits of the checksum are verified.
verified :
    (text : List ℕ)
    → (strtoul16 (hex_byte (calculate_checksum text)) % 256 == calculate_checksum text) ≡ true
unfolding calculate_checksum
verified text =
    (==_iff (strtoul16 (hex_byte (checksum_from 0 text)) % 256) (checksum_from 0 text)).1
      (strtoul16-hex_byte (checksum_from 0 text) (checksum_from-lt 0 text (omega arith)))

module _ {S : Type 0} (send : S → List ℕ → Option ℕ × S) (recv : S → ℕ → List ℕ × S)
    (incoming : S → List ℕ) where
  -- The socket gives the bytes that come, in their order, as many as are asked for while there are any.
  abbrev pub Streams : Type 0
  Streams =
      (s : S) (n : ℕ)
      → ((recv s n).0 ≡ take n (incoming s)) × (incoming (recv s n).1 ≡ drop n (incoming s))

  module _ (streams : Streams) (Kept : S → Type 0)
      (keeps : (s : S) (n : ℕ) → Kept s → Kept (recv s n).1) where
    pub recv_one :
        (s : S) (x : ℕ) (xs : List ℕ)
        → incoming s ≡ x ∷ xs
        → ((recv s 1).0 ≡ x ∷ []) × (incoming (recv s 1).1 ≡ xs)
    recv_one s x xs e = ((streams s 1).0 ∙ ap (take 1) e, (streams s 1).1 ∙ ap (drop 1) e)

    skip_to_start-step :
        (turns : ℕ) (w : World S) (x : ℕ)
        → (recv w.socket 1).0 ≡ x ∷ []
        → skip_to_start send recv (suc turns) w ≡ (
            if x == dollar
            then done tt (on w (recv w.socket 1).1)
            else skip_to_start send recv turns (on w (recv w.socket 1).1))
    unfolding skip_to_start
    skip_to_start-step turns w x e = rw (e, skip_to_start) refl

    skip_to_start-noise :
        (noise rest : List ℕ) (turns : ℕ) (w : World S)
        → Without dollar noise
        → length noise < turns
        → incoming w.socket ≡ noise ++ dollar ∷ rest
        → Kept w.socket
        → (s : S) × (skip_to_start send recv turns w ≡ done tt (on w s))
          × (incoming s ≡ rest)
          × Kept s
    skip_to_start-noise noise rest zero w clean enough e kept = absurd (omega arith)
    skip_to_start-noise [] rest (suc turns) w clean enough e kept =
        let one = recv_one w.socket dollar rest e in
        ((recv w.socket 1).1, skip_to_start-step turns w dollar one.0, one.1, keeps w.socket 1 kept)
    skip_to_start-noise (x ∷ noise) rest (suc turns) w clean enough e kept =
        let one = recv_one w.socket x (noise ++ dollar ∷ rest) e in
        let (s, skips, left, kept') =
          skip_to_start-noise noise rest turns (on w (recv w.socket 1).1) clean.1 (omega arith)
            one.1 (keeps w.socket 1 kept) in
        (s, skip_to_start-step turns w x one.0 ∙ rw (ne→== x dollar clean.0) skips, left, kept')

    read_text-step :
        (room : ℕ) (w : World S) (x : ℕ)
        → (recv w.socket 1).0 ≡ x ∷ []
        → read_text send recv (suc room) w ≡ (
            if x == hash
            then done [] (on w (recv w.socket 1).1)
            else and_then
                (read_text send recv room (on w (recv w.socket 1).1))
                (λ text w. done (x ∷ text) w))
    unfolding read_text
    read_text-step room w x e = rw (e, read_text) refl

    read_text-text :
        (text rest : List ℕ) (room : ℕ) (w : World S)
        → Without hash text
        → length text < room
        → incoming w.socket ≡ text ++ hash ∷ rest
        → Kept w.socket
        → (s : S) × (read_text send recv room w ≡ done text (on w s)) × (incoming s ≡ rest) × Kept s
    read_text-text text rest zero w clean enough e kept = absurd (omega arith)
    read_text-text [] rest (suc room) w clean enough e kept =
        let one = recv_one w.socket hash rest e in
        ((recv w.socket 1).1, read_text-step room w hash one.0, one.1, keeps w.socket 1 kept)
    read_text-text (x ∷ text) rest (suc room) w clean enough e kept =
        let one = recv_one w.socket x (text ++ hash ∷ rest) e in
        let (s, reads, left, kept') =
          read_text-text text rest room (on w (recv w.socket 1).1) clean.1 (omega arith) one.1
            (keeps w.socket 1 kept) in
        (s, read_text-step room w x one.0 ∙ rw (ne→== x hash clean.0, reads) refl, left, kept')

    -- A packet of any two characters in the place of the checksum.
    receive_packet-verify :
        (noise text : List ℕ) (a b : ℕ) (rest : List ℕ) (turns buffer_size : ℕ) (w : World S)
        → Without dollar noise
        → Without hash text
        → length noise < turns
        → length text + 2 ≤ buffer_size
        → incoming w.socket ≡ noise ++ dollar ∷ (text ++ hash ∷ a ∷ b ∷ rest)
        → Kept w.socket
        → (s : S) × (receive_packet send recv turns buffer_size w
            ≡ verify send recv text (on w s) (a ∷ b ∷ []))
          × (incoming s ≡ rest)
          × Kept s
    unfolding receive_packet read_checksum
    receive_packet-verify noise text a b rest turns buffer_size w quiet clean enough fits e kept =
        let (s, skips, left, kept_s) =
          skip_to_start-noise noise (text ++ hash ∷ a ∷ b ∷ rest) turns w quiet enough e kept in
        let (s', reads, left', kept_s') =
          read_text-text text (a ∷ b ∷ rest) (buffer_size - 1) (on w s) clean (omega arith) left
            kept_s in
        let digits = streams s' 2 in
        (
          (recv s' 2).1,
          rw (skips, reads, digits.0, left') refl,
          digits.1 ∙ ap (drop 2) left',
          keeps s' 2 kept_s',
        )

    -- A packet that is as it should be.
    pub receive_packet-framed :
        (noise text rest : List ℕ) (turns buffer_size : ℕ) (w : World S)
        → Without dollar noise
        → Without 0 text
        → Without hash text
        → length noise < turns
        → length text + 2 ≤ buffer_size
        → incoming w.socket ≡ noise ++ (frame text ++ rest)
        → Kept w.socket
        → (s : S) × (receive_packet send recv turns buffer_size w
            ≡ done text (on w (send s (plus ∷ [])).1))
          × (incoming s ≡ rest)
          × Kept s
    unfolding frame hex_byte calculate_checksum
    receive_packet-framed noise text rest turns buffer_size w quiet no_end clean enough fits e
          kept =
        let sum = calculate_checksum text in
        let shape : noise ++ (frame text ++ rest)
            ≡ noise
              ++ dollar
                ∷ (text ++ hash ∷ (hex_digit (sum / 16 % 16) ∷ hex_digit (sum % 16) ∷ rest)) =
          rw (cstring-Without text no_end, append_assoc text (hash ∷ hex_byte sum) rest) refl in
        let (s, receives, left, kept') =
          receive_packet-verify noise text (hex_digit (sum / 16 % 16)) (hex_digit (sum % 16)) rest
            turns buffer_size w quiet clean enough fits (e ∙ shape) kept in
        (s, receives ∙ rw (verified text) refl, left, kept')

  abbrev Anything : S → Type 0
  Anything s = Unit {0}

  module _ (streams : Streams) where
    -- From a socket that gives the bytes that come: where bytes other than `$` and then the packet
    -- of a text come, the text without 0 and `#` and two bytes shorter than the buffer at least,
    -- `gdb_receive_packet` returns the text, once it may look at one more byte than those before the
    -- packet; it has acknowledged it by `+`, and what comes behind the packet is still to be read.
    pub receive_packet-frame :
        (noise text rest : List ℕ) (turns buffer_size : ℕ) (w : World S)
        → Without dollar noise
        → Without 0 text
        → Without hash text
        → length noise < turns
        → length text + 2 ≤ buffer_size
        → incoming w.socket ≡ noise ++ (frame text ++ rest)
        → (s : S) × (receive_packet send recv turns buffer_size w
            ≡ done text (on w (send s (plus ∷ [])).1))
          × (incoming s ≡ rest)
    receive_packet-frame noise text rest turns buffer_size w quiet no_end clean enough fits e =
        let (s, receives, left, kept) =
          receive_packet-framed streams Anything (λ s n k. k) noise text rest turns buffer_size w
            quiet no_end clean enough fits e tt in
        (s, receives, left)

    -- From a socket that gives the bytes that come: where the two characters in the place of the
    -- checksum do not stand for the checksum of the text before them, `gdb_receive_packet`
    -- fails; it has refused the packet by `-`, and what comes behind it is still to be read.
    pub receive_packet-corrupt :
        (noise text : List ℕ) (a b : ℕ) (rest : List ℕ) (turns buffer_size : ℕ) (w : World S)
        → Without dollar noise
        → Without hash text
        → length noise < turns
        → length text + 2 ≤ buffer_size
        → strtoul16 (a ∷ b ∷ []) % 256 ≢ calculate_checksum text
        → incoming w.socket ≡ noise ++ dollar ∷ (text ++ hash ∷ a ∷ b ∷ rest)
        → (s : S) × (receive_packet send recv turns buffer_size w
            ≡ failed (on w (send s (minus ∷ [])).1))
          × (incoming s ≡ rest)
    receive_packet-corrupt noise text a b rest turns buffer_size w quiet clean enough fits wrong e =
        let (s, receives, left, kept) =
          receive_packet-verify streams Anything (λ s n k. k) noise text a b rest turns buffer_size
            w quiet clean enough fits e tt in
        (
          s,
          receives ∙ rw (ne→== (strtoul16 (a ∷ b ∷ []) % 256) (calculate_checksum text) wrong) refl,
          left,
        )
