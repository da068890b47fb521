-- ===== src/Gdb/Session/Memory/Read.antt =====
-- `gdb_read_memory` of a target that is stopped.
use dmlog.Base.{
  ℕ, zero, suc, ◌+◌, ◌*◌, ◌/◌, ◌%◌, ◌^◌, ◌≤◌, ◌<◌, ◌≡◌, ◌≢◌, inl, inr, refl, ap, sym, ◌∙◌, Bool,
  false, Option, some, List, [], ◌∷◌, append-nil, arith, length, take, ltb, get_or, Bool-cases,
  ◌==◌, ne→==,
}
use dmlog.Monitor.Buffer.{slice}
use dmlog.Gdb.{hex_digit, hex_byte, hex_bytes, decode_rle, star, parse_hex, is_stop_reply}
use dmlog.Gdb.Hex.{AllBytes, hex_digit-range, length-hex_bytes, parse_hex-hex_bytes}
use dmlog.Gdb.Runs.{Run, Plain, encode, expand, decode_rle-encode}
use dmlog.Gdb.Session.{
  World, done, on, starts_with, ask_twice, decode_answer, read_command, read_memory,
}
use dmlog.Gdb.Session.Packets.{Without}
use dmlog.Gdb.Session.Memory.{Server, ask-answered, stopped, restore_stopped}

pub length-slice : (cell : ℕ → ℕ) (a n : ℕ) → length (slice cell a n) ≡ n
length-slice cell a zero = refl
length-slice cell a (suc n) = ap suc (length-slice cell (a + 1) n)

run_Without : (c k : ℕ) (xs : List ℕ) → c ≢ 0 → Without 0 xs → Without 0 (c ∷ star ∷ (k + 29) ∷ xs)
run_Without c k xs ne h = (ne, ((λ e. absurd (omega arith)), ((λ e. absurd (omega arith)), h)))

encode-Without : (rs : List Run) → Plain rs → Without 0 (encode rs)
encode-Without [] plain = tt
encode-Without (r ∷ rs) plain = elim (Bool-cases (r.repeats == 0)) [
  | inl once ↦ rw once (plain.0, encode-Without rs plain.2)
  | inr again ↦
      rw again (run_Without r.char r.repeats (encode rs) plain.0 (encode-Without rs plain.2))
]

-- What an answer to a read starts with.
abbrev StartsWithDigit : List ℕ → Type 0
StartsWithDigit [] = Unit {0}
StartsWithDigit (x ∷ xs) = (d : ℕ) × (d < 16) × (x ≡ hex_digit d)

first_digit : (x : ℕ) (xs bytes : List ℕ) → x ∷ xs ≡ hex_bytes bytes → StartsWithDigit (x ∷ xs)
unfolding hex_bytes hex_byte
first_digit x xs [] e = absurd (omega (arith, ap length e))
first_digit x xs (y ∷ bytes) e = (y / 16 % 16, omega arith, ap (λ l. get_or l 0 0) e)

-- Such an answer is neither an error nor a stop reply.
starts_with-digit : (c : ℕ) (xs : List ℕ) → 58 ≤ c → c < 97 → StartsWithDigit xs → get_or xs 0 0 ≢ c
starts_with-digit c [] low high digit e = absurd (omega arith)
starts_with-digit c (x ∷ xs) low high (d, small, e') e = elim (hex_digit-range d small).1 [
  | inl decimal ↦ absurd (omega arith)
  | inr letter ↦ absurd (omega arith)
]

not_error : (xs : List ℕ) → StartsWithDigit xs → starts_with b'E' xs ≡ false
not_error [] digit = refl
not_error (x ∷ xs) digit =
    ne→== x b'E' (starts_with-digit b'E' (x ∷ xs) (omega arith) (omega arith) digit)

not_stop : (xs : List ℕ) → StartsWithDigit xs → is_stop_reply xs ≡ false
unfolding is_stop_reply
not_stop [] digit = refl
not_stop (x ∷ xs) digit =
    rw
      (
        ne→== x b'S' (starts_with-digit b'S' (x ∷ xs) (omega arith) (omega arith) digit),
        ne→== x b'T' (starts_with-digit b'T' (x ∷ xs) (omega arith) (omega arith) digit),
      )
      refl

expand_digit :
    (rs : List Run) (bytes : List ℕ) → expand rs ≡ hex_bytes bytes → StartsWithDigit (encode rs)
expand_digit [] bytes e = tt
expand_digit (r ∷ rs) bytes e = elim (Bool-cases (r.repeats == 0)) [
  | inl once ↦ rw once (first_digit r.char _ bytes e)
  | inr again ↦ rw again (first_digit r.char _ bytes e)
]

take_all : (n : ℕ) (xs : List ℕ) → length xs ≤ n → take n xs ≡ xs
take_all zero [] h = refl
take_all (suc n) [] h = refl
take_all zero (x ∷ xs) h = absurd (omega arith)
take_all (suc n) (x ∷ xs) h = ap (◌∷◌ x) (take_all n xs (omega arith))

-- What `gdb_read_memory` makes of the answer to a read.
decode_answer-encode :
    (rs : List Run) (bytes : List ℕ)
    → Plain rs
    → AllBytes bytes
    → length bytes * 2 < 8192
    → expand rs ≡ hex_bytes bytes
    → decode_answer (length bytes) (encode rs) ≡ some bytes
unfolding decode_answer
decode_answer-encode rs bytes plain small fits e =
    let decoded : decode_rle (encode rs) 8192 ≡ some (hex_bytes bytes) =
      decode_rle-encode rs 8192 plain
      ∙ ap some (
          ap (take 8191) e
          ∙ take_all 8191 (hex_bytes bytes) (omega (arith, length-hex_bytes bytes))) in
    let parsed : parse_hex (length bytes) (hex_bytes bytes) ≡ bytes =
      ap (parse_hex (length bytes)) (sym (append-nil (hex_bytes bytes)))
      ∙ parse_hex-hex_bytes bytes [] small in
    let enough : ltb (length (hex_bytes bytes)) (length bytes * 2) ≡ false =
      ground (arith, length-hex_bytes bytes) in
    rw (not_error (encode rs) (expand_digit rs bytes e), decoded, enough, parsed) refl

module _ {S : Type 0} (send : S → List ℕ → Option ℕ × S) (recv : S → ℕ → List ℕ × S)
    (select : S → Option Bool × S) (incoming : S → List ℕ) (cells : S → ℕ → ℕ)
    (server : Server send recv select incoming cells) where
  -- From a server that answers as the protocol says, with run lengths or without, where nothing is
  -- left to be read and the target is stopped: `gdb_read_memory` of fewer than 2048 bytes returns the
  -- bytes of the target's memory at the address, each below 256; memory is as it was, the target is
  -- stopped, and nothing is left to be read.
  pub read_memory-slice :
      (turns a n : ℕ) (w : World S)
      → 1 ≤ turns
      → a < 2 ^ 64
      → n < 2048
      → incoming w.socket ≡ []
      → w.target_is_running ≡ false
      → AllBytes (slice (cells w.socket) a n)
      → (s : S) × (read_memory send recv select turns a n w
          ≡ done (slice (cells w.socket) a n) (on w s))
        × (incoming s ≡ [])
        × (cells s ≡ cells w.socket)
  unfolding read_memory ask_twice
  read_memory-slice turns a n w enough in_range fits quiet rests small =
      let (rs, plain, clean, short, digits, answers, same) =
        server.answers_read w.socket a n in_range fits quiet small in
      let bytes = slice (cells w.socket) a n in
      let (s, asks, left, kept) =
        ask-answered send recv select incoming cells server turns 8192 (read_command a n)
          (encode rs) w enough short (encode-Without rs plain) clean answers in
      let decodes : decode_answer n (encode rs) ≡ some bytes =
        ap (λ k. decode_answer k (encode rs)) (sym (length-slice (cells w.socket) a n))
        ∙ decode_answer-encode rs bytes plain small
            (omega (arith, length-slice (cells w.socket) a n)) digits in
      (
        s,
        rw (stopped send recv select incoming cells server turns w rests) (
            restore_stopped send recv select incoming cells server w.target_is_running _ rests
            ∙ rw (asks, not_stop (encode rs) (expand_digit rs bytes digits), decodes) refl),
        left,
        kept ∙ same,
      )
