-- ===== src/Gdb/Session/Memory.antt =====
-- What a server answers that serves the memory of a target, and what a command leaves that it answers.
use dmlog.Base.{
  ℕ, zero, suc, ◌+◌, ◌-◌, ◌*◌, ◌/◌, ◌%◌, ◌^◌, ◌≤◌, ◌<◌, ◌≡◌, ◌≢◌, inl, inr, refl, ap, ap₂, subst,
  sym, ◌∙◌, Bool, true, false, ◌&&◌, ◌||◌, Option, none, some, List, [], ◌∷◌, ◌++◌, append-nil,
  append_assoc, arith, length, length-take, length-drop, take, drop, min, ltb, leb, get_or,
  Bool-cases, ◌==◌, if◌then◌else◌, ne→==,
}
use native.Mathlib.Nat.{mod-eq_of_lt}
use dmlog.Monitor.Buffer.{slice}
use dmlog.Transfer.Send.{take-append-drop, ==-same}
use dmlog.Gdb.{
  hex_digit, hex_byte, hex_bytes, frame, hash, decode_rle, star, parse_hex, is_xdigit,
  is_stop_reply,
}
use dmlog.Gdb.Hex.{AllBytes, hex_digit-range, length-hex_bytes, parse_hex-hex_bytes}
use dmlog.Gdb.Runs.{Run, Plain, encode, expand, decode_rle-encode}
use dmlog.Output.{cstring}
use dmlog.Gdb.Session.{
  is_ok, Reply, restore, sent_or_fail, receive_packet, World, done, failed, waiting, on, and_then,
  plus, starts_with, ask, ask_twice, decode_answer, wait_for_ack, send_packet, interrupt,
  read_command, read_memory, max_write_size, write_command, write_loop, write_memory,
}
use dmlog.Gdb.Session.Packets.{Without, cstring-Without, Streams, recv_one, receive_packet-framed}
pub mod Read
pub mod Write

-- Memory after bytes are stored from `a` on.
abbrev pub overwrite : (ℕ → ℕ) → ℕ → List ℕ → ℕ → ℕ
overwrite cell a [] = cell
overwrite cell a (x ∷ xs) = overwrite (λ i. if i == a then x else cell i) (a + 1) xs

pub overwrite-append :
    (cell : ℕ → ℕ) (a : ℕ) (xs ys : List ℕ)
    → overwrite (overwrite cell a xs) (a + length xs) ys ≡ overwrite cell a (xs ++ ys)
overwrite-append cell a [] ys = ap (λ i. overwrite cell i ys) (omega arith)
overwrite-append cell a (x ∷ xs) ys =
    ap (λ i. overwrite (overwrite cell a (x ∷ xs)) i ys) (omega arith)
    ∙ overwrite-append (λ i. if i == a then x else cell i) (a + 1) xs ys

pub overwrite_below :
    (cell : ℕ → ℕ) (a : ℕ) (xs : List ℕ) (i : ℕ) → i < a → overwrite cell a xs i ≡ cell i
overwrite_below cell a [] i below = refl
overwrite_below cell a (x ∷ xs) i below =
    overwrite_below (λ i. if i == a then x else cell i) (a + 1) xs i (omega arith) ∙ ground arith

pub slice-overwrite :
    (cell : ℕ → ℕ) (a : ℕ) (xs : List ℕ) → slice (overwrite cell a xs) a (length xs) ≡ xs
slice-overwrite cell a [] = refl
slice-overwrite cell a (x ∷ xs) =
    ap₂ ◌∷◌
      (overwrite_below (λ i. if i == a then x else cell i) (a + 1) xs a (omega arith)
        ∙ ground arith)
      (slice-overwrite (λ i. if i == a then x else cell i) (a + 1) xs)

module _ {S : Type 0} (send : S → List ℕ → Option ℕ × S) (recv : S → ℕ → List ℕ × S)
    (select : S → Option Bool × S) (incoming : S → List ℕ) (cells : S → ℕ → ℕ) where
  -- The answer of the server to a packet it was sent: the socket took it, and `+` and a packet of
  -- the text come.
  abbrev pub Answers : List ℕ → Option ℕ × S → Type 0
  Answers text (none, s) = ⊥
  Answers text (some n, s) = incoming s ≡ plus ∷ frame text

  -- A server for a target that is stopped. It answers a read by digits, which it may write with run
  -- lengths, and a write by `OK` after it has stored the bytes.
  pub record Server : Type 0 where
    pub streams : Streams send recv incoming
    pub recv_cells : (s : S) (n : ℕ) → cells (recv s n).1 ≡ cells s
    pub ack_incoming : (s : S) → incoming (send s (plus ∷ [])).1 ≡ incoming s
    pub ack_cells : (s : S) → cells (send s (plus ∷ [])).1 ≡ cells s
    pub answers_read :
        (s : S) (a n : ℕ)
        → a < 2 ^ 64
        → n < 2048
        → incoming s ≡ []
        → AllBytes (slice (cells s) a n)
        → (rs : List Run) × Plain rs
          × Without hash (encode rs)
          × (length (encode rs) + 2 ≤ 8192)
          × (expand rs ≡ hex_bytes (slice (cells s) a n))
          × Answers (encode rs) (send s (frame (read_command a n)))
          × (cells (send s (frame (read_command a n))).1 ≡ cells s)
    pub answers_write :
        (s : S) (a : ℕ) (bytes : List ℕ)
        → a < 2 ^ 64
        → AllBytes bytes
        → length bytes ≤ max_write_size
        → incoming s ≡ []
        → Answers (b'O' ∷ b'K' ∷ []) (send s (frame (write_command a bytes)))
          × (cells (send s (frame (write_command a bytes))).1 ≡ overwrite (cells s) a bytes)

  module _ (server : Server) where
    answered :
        (turns buffer_size : ℕ) (text : List ℕ) (w : World S) (r : Option ℕ × S)
        → 1 ≤ turns
        → length text + 2 ≤ buffer_size
        → Without 0 text
        → Without hash text
        → Answers text r
        → (s : S) × (and_then (sent_or_fail send recv w r) (λ _ w'.
              and_then
                (wait_for_ack send recv w')
                (λ _. receive_packet send recv turns buffer_size))
            ≡ done text (on w s))
          × (incoming s ≡ [])
          × (cells s ≡ cells r.1)
    unfolding wait_for_ack
    answered turns buffer_size text w (none, s) enough fits no_end clean answers = absurd answers
    answered turns buffer_size text w (some n, s) enough fits no_end clean answers =
        let kept_cells : S → Type 0 = λ s'. cells s' ≡ cells s in
        let one =
          recv_one send recv incoming server.streams kept_cells
            (λ s' n same. server.recv_cells s' n ∙ same) s plus (frame text) answers in
        let (s', receives, left, kept) =
          receive_packet-framed send recv incoming server.streams kept_cells
            (λ s' n same. server.recv_cells s' n ∙ same) [] text [] turns buffer_size
            (on w (recv s 1).1) tt no_end clean enough fits (one.1 ∙ sym (append-nil (frame text)))
            (server.recv_cells s 1) in
        (
          (send s' (plus ∷ [])).1,
          rw one.0 receives,
          server.ack_incoming s' ∙ left,
          server.ack_cells s' ∙ kept,
        )

    -- A command that is answered.
    pub ask-answered :
        (turns buffer_size : ℕ) (command text : List ℕ) (w : World S)
        → 1 ≤ turns
        → length text + 2 ≤ buffer_size
        → Without 0 text
        → Without hash text
        → Answers text (send w.socket (frame command))
        → (s : S) × (ask send recv select turns buffer_size command w ≡ done text (on w s))
          × (incoming s ≡ [])
          × (cells s ≡ cells (send w.socket (frame command)).1)
    unfolding ask send_packet
    ask-answered turns buffer_size command text w =
        answered turns buffer_size text w (send w.socket (frame command))

    pub stopped :
        (turns : ℕ) (w : World S)
        → w.target_is_running ≡ false
        → interrupt send recv turns w ≡ done tt w
    unfolding interrupt
    stopped turns w rests = rw rests refl

    pub restore_stopped :
        {A : Type 0} (running : Bool) (r : Reply S A)
        → running ≡ false
        → restore send recv running r ≡ r
    restore_stopped true r rests = absurd (ground arith)
    restore_stopped false r rests = refl
