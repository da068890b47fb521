-- ===== src/Tests/GdbServer.antt =====
-- A GDB server for a target that is stopped: it reads the commands that are sent and answers them.
use dmlog.Base.{
  ℕ, zero, suc, ◌+◌, ◌*◌, ◌/◌, ◌%◌, ◌^◌, ◌≤◌, ◌<◌, ◌≡◌, ◌≢◌, inl, inr, refl, ap, subst, sym, ◌∙◌,
  Bool, false, Option, none, some, List, [], ◌∷◌, ◌++◌, append_assoc, arith, length, replicate,
  take, drop, ltb, Bool-cases, ◌==◌, if◌then◌else◌,
}
use dmlog.Output.{cstring}
use dmlog.Monitor.Buffer.{slice}
use dmlog.Gdb.{
  calculate_checksum, hex_digit, hex_byte, hex_bytes, hex_digits, hex_number, frame, hash, star,
  digit_value, parse_hex,
}
use dmlog.Gdb.Hex.{
  AllBytes, hex_digit-range, digit_value-hex_digit, length-hex_bytes, parse_hex-hex_bytes,
}
use dmlog.Gdb.Runs.{Run, Plain, encode, expand}
use dmlog.Gdb.Session.{plus, read_command, write_command}
use dmlog.Gdb.Session.Packets.{Without, cstring-Without}
use dmlog.Gdb.Session.Memory.Read.{length-slice}
use dmlog.Gdb.Session.Memory.{Answers, Server, overwrite}

-- The bytes that come and the memory.
pub record Target : Type 0 where
  pub incoming : List ℕ
  pub cells : ℕ → ℕ

-- A number up to the first character that is no digit, and what stands behind that one.
unfoldable pub number : ℕ → List ℕ → ℕ × List ℕ
number n [] = (n, [])
number n (c ∷ cs) = elim (digit_value c) [ none ↦ (n, cs) | some d ↦ number (n * 16 + d) cs ]

abbrev pub singles : List ℕ → List Run
singles [] = []
singles (c ∷ cs) = record { char = c; repeats = 0 } ∷ singles cs

abbrev pub answer : Target → List ℕ → Target
answer t text = record t { incoming = plus ∷ frame text }

abbrev pub serve_read : Target → List ℕ → Target
serve_read t text =
    let (a, rest) = number 0 text in
    answer t (encode (singles (hex_bytes (slice t.cells a (number 0 rest).0))))

abbrev pub serve_write : Target → List ℕ → Target
serve_write t text =
    let (a, rest) = number 0 text in
    let (n, digits) = number 0 rest in
    answer (record t { cells = overwrite t.cells a (parse_hex n digits) }) (b'O' ∷ b'K' ∷ [])

abbrev pub server_send : Target → List ℕ → Option ℕ × Target
server_send t [] = (some 0, t)
server_send t (x ∷ []) = (some 1, t)
server_send t (x ∷ y ∷ text) = (
  some (length text + 2),
  if y == b'm' then serve_read t text else (if y == b'M' then serve_write t text else t),
)

abbrev pub server_recv : Target → ℕ → List ℕ × Target
server_recv t n = (take n t.incoming, record t { incoming = drop n t.incoming })

abbrev pub server_select : Target → Option Bool × Target
server_select t = (some false, t)

-- Numbers that are printed are read back.
abbrev power : ℕ → ℕ
power zero = 1
power (suc places) = 16 * power places

hex_digits-append :
    (places n : ℕ) (tail rest : List ℕ)
    → hex_digits places n tail ++ rest ≡ hex_digits places n (tail ++ rest)
unfolding hex_digits
hex_digits-append zero n tail rest = refl
hex_digits-append (suc places) n tail rest = elim (Bool-cases (ltb n 16)) [
  | inl small ↦ rw small refl
  | inr big ↦ rw big (hex_digits-append places (n / 16) (hex_digit (n % 16) ∷ tail) rest)
]

number-digit :
    (m d : ℕ) (tail : List ℕ) → d < 16 → number m (hex_digit d ∷ tail) ≡ number (m * 16 + d) tail
unfolding number
number-digit m d tail small = rw (digit_value-hex_digit d small, number) refl

number-hex_digits :
    (places n : ℕ) (tail : List ℕ)
    → n < power places
    → number 0 (hex_digits places n tail) ≡ number n tail
unfolding hex_digits
number-hex_digits zero n tail small = ap (λ k. number k tail) (omega arith)
number-hex_digits (suc places) n tail small = elim (Bool-cases (ltb n 16)) [
  | inl one ↦
      rw one (number-digit 0 (n % 16) tail (omega arith) ∙ ap (λ k. number k tail) (ground arith))
  | inr more ↦ rw more (
      number-hex_digits places (n / 16) (hex_digit (n % 16) ∷ tail) (omega arith)
      ∙ number-digit (n / 16) (n % 16) tail (omega arith)
      ∙ ap (λ k. number k tail) (omega arith))
]

number-hex_number :
    (n c : ℕ) (rest : List ℕ)
    → n < 2 ^ 64
    → digit_value c ≡ none
    → number 0 (hex_number n ++ c ∷ rest) ≡ (n, rest)
unfolding hex_number number
number-hex_number n c rest small stop =
    ap (number 0) (hex_digits-append 16 n [] (c ∷ rest))
    ∙ number-hex_digits 16 n (c ∷ rest) small
    ∙ rw (stop, number) refl

-- No 0 is printed.
Without-append : (c : ℕ) (xs ys : List ℕ) → Without c xs → Without c ys → Without c (xs ++ ys)
Without-append c [] ys h k = k
Without-append c (x ∷ xs) ys h k = (h.0, Without-append c xs ys h.1 k)

-- `#` and `*` are no digits either.
hex_digit-ne : (d c : ℕ) → d < 16 → c < 48 → hex_digit d ≢ c
hex_digit-ne d c small low e = absurd (omega (arith, (hex_digit-range d small).0))

hex_digits-Without :
    (c places n : ℕ) (tail : List ℕ)
    → c < 48
    → Without c tail
    → Without c (hex_digits places n tail)
unfolding hex_digits
hex_digits-Without c zero n tail low h = h
hex_digits-Without c (suc places) n tail low h = elim (Bool-cases (ltb n 16)) [
  | inl small ↦ rw small (hex_digit-ne (n % 16) c (omega arith) low, h)
  | inr big ↦ rw big (
      hex_digits-Without c places (n / 16) (hex_digit (n % 16) ∷ tail) low
        (hex_digit-ne (n % 16) c (omega arith) low, h))
]

hex_number-Without : (c n : ℕ) → c < 48 → Without c (hex_number n)
unfolding hex_number
hex_number-Without c n low = hex_digits-Without c 16 n [] low tt

hex_bytes-Without : (c : ℕ) (xs : List ℕ) → c < 48 → Without c (hex_bytes xs)
unfolding hex_bytes hex_byte
hex_bytes-Without c [] low = tt
hex_bytes-Without c (x ∷ xs) low = (
  hex_digit-ne (x / 16 % 16) c (omega arith) low,
  (hex_digit-ne (x % 16) c (omega arith) low, hex_bytes-Without c xs low),
)

-- Digits that are written without repeats.
encode-singles : (cs : List ℕ) → encode (singles cs) ≡ cs
encode-singles [] = refl
encode-singles (c ∷ cs) = ap (◌∷◌ c) (encode-singles cs)

expand-singles : (cs : List ℕ) → expand (singles cs) ≡ cs
unfolding replicate
expand-singles [] = refl
expand-singles (c ∷ cs) = ap (◌∷◌ c) (expand-singles cs)

singles-Plain : (cs : List ℕ) → Without 0 cs → Without star cs → Plain (singles cs)
singles-Plain [] h k = tt
singles-Plain (c ∷ cs) h k = (h.0, k.0, singles-Plain cs h.1 k.1)

digits_stop : (digit_value b',' ≡ none) × (digit_value b':' ≡ none) × (digit_value hash ≡ none)
unfolding digit_value
digits_stop = (refl, refl, refl)

served_read :
    (t : Target) (a n : ℕ) (ck : List ℕ)
    → a < 2 ^ 64
    → n < 2048
    → serve_read t (hex_number a ++ b',' ∷ (hex_number n ++ hash ∷ ck))
      ≡ answer t (encode (singles (hex_bytes (slice t.cells a n))))
served_read t a n ck small few =
    rw
      (
        number-hex_number a b',' (hex_number n ++ hash ∷ ck) small digits_stop.0,
        number-hex_number n hash ck (omega arith) digits_stop.2,
      )
      refl

served_write :
    (t : Target) (a : ℕ) (bytes ck : List ℕ)
    → a < 2 ^ 64
    → length bytes < 2 ^ 64
    → AllBytes bytes
    → serve_write t (
        hex_number a ++ b',' ∷ (hex_number (length bytes) ++ b':' ∷ (hex_bytes bytes ++ hash ∷ ck)))
      ≡ answer (record t { cells = overwrite t.cells a bytes }) (b'O' ∷ b'K' ∷ [])
served_write t a bytes ck small short all =
    rw
      (
        number-hex_number a b','
            (hex_number (length bytes) ++ b':' ∷ (hex_bytes bytes ++ hash ∷ ck)) small
            digits_stop.0,
        number-hex_number (length bytes) b':' (hex_bytes bytes ++ hash ∷ ck) short digits_stop.1,
        parse_hex-hex_bytes bytes (hash ∷ ck) all,
      )
      refl

read_text-Without : (a n : ℕ) → Without 0 (hex_number a ++ b',' ∷ hex_number n)
read_text-Without a n =
    Without-append 0 (hex_number a) (b',' ∷ hex_number n) (hex_number-Without 0 a (omega arith))
      ((λ e. absurd (omega arith)), hex_number-Without 0 n (omega arith))

write_text-Without :
    (a : ℕ) (bytes : List ℕ)
    → Without 0 (hex_number a ++ b',' ∷ (hex_number (length bytes) ++ b':' ∷ hex_bytes bytes))
write_text-Without a bytes =
    Without-append 0 (hex_number a) (b',' ∷ (hex_number (length bytes) ++ b':' ∷ hex_bytes bytes))
      (hex_number-Without 0 a (omega arith))
      (
        (λ e. absurd (omega arith)),
        Without-append 0 (hex_number (length bytes)) (b':' ∷ hex_bytes bytes)
            (hex_number-Without 0 (length bytes) (omega arith))
            ((λ e. absurd (omega arith)), hex_bytes-Without 0 bytes (omega arith)),
      )

sends_read :
    (t : Target) (a n : ℕ)
    → a < 2 ^ 64
    → n < 2048
    → (k : ℕ) × (server_send t (frame (read_command a n))
        ≡ (some k, answer t (encode (singles (hex_bytes (slice t.cells a n))))))
unfolding frame read_command
sends_read t a n small few =
    let text = hex_number a ++ b',' ∷ hex_number n in
    let ck = hex_byte (calculate_checksum (cstring (b'm' ∷ text))) in
    (
      length (cstring text ++ hash ∷ ck) + 2,
      ap (λ u. (some (length (cstring text ++ hash ∷ ck) + 2), u))
          (ap (λ l. serve_read t (l ++ hash ∷ ck)) (cstring-Without text (read_text-Without a n))
            ∙ ap (serve_read t) (append_assoc (hex_number a) (b',' ∷ hex_number n) (hash ∷ ck))
            ∙ served_read t a n ck small few),
    )

sends_write :
    (t : Target) (a : ℕ) (bytes : List ℕ)
    → a < 2 ^ 64
    → length bytes < 2 ^ 64
    → AllBytes bytes
    → (k : ℕ) × (server_send t (frame (write_command a bytes))
        ≡ (some k, answer (record t { cells = overwrite t.cells a bytes }) (b'O' ∷ b'K' ∷ [])))
unfolding frame write_command
sends_write t a bytes small short all =
    let digits = hex_number (length bytes) ++ b':' ∷ hex_bytes bytes in
    let text = hex_number a ++ b',' ∷ digits in
    let ck = hex_byte (calculate_checksum (cstring (b'M' ∷ text))) in
    (
      length (cstring text ++ hash ∷ ck) + 2,
      ap (λ u. (some (length (cstring text ++ hash ∷ ck) + 2), u))
          (ap (λ l. serve_write t (l ++ hash ∷ ck))
              (cstring-Without text (write_text-Without a bytes))
            ∙ ap (serve_write t) (
                append_assoc (hex_number a) (b',' ∷ digits) (hash ∷ ck)
                ∙ ap (λ l. hex_number a ++ b',' ∷ l)
                    (append_assoc (hex_number (length bytes)) (b':' ∷ hex_bytes bytes) (hash ∷ ck)))
            ∙ served_write t a bytes ck small short all),
    )

abbrev Served : List ℕ → (ℕ → ℕ) → Option ℕ × Target → Type 0
Served text memory r =
    Answers server_send server_recv server_select (λ t. t.incoming) (λ t. t.cells) text r
    × (r.1.cells ≡ memory)

answered_read :
    (t : Target) (a n : ℕ)
    → a < 2 ^ 64
    → n < 2048
    → (rs : List Run) × Plain rs
      × Without hash (encode rs)
      × (length (encode rs) + 2 ≤ 8192)
      × (expand rs ≡ hex_bytes (slice t.cells a n))
      × Served (encode rs) t.cells (server_send t (frame (read_command a n)))
answered_read t a n small few =
    let digits = hex_bytes (slice t.cells a n) in
    let (k, e) = sends_read t a n small few in
    (
      singles digits,
      singles-Plain digits (hex_bytes-Without 0 _ (omega arith))
          (hex_bytes-Without star _ (omega arith)),
      subst (Without hash) (sym (encode-singles digits)) (hex_bytes-Without hash _ (omega arith)),
      omega (
        arith,
        ap length (encode-singles digits),
        length-hex_bytes (slice t.cells a n),
        length-slice t.cells a n,
      ),
      expand-singles digits,
      subst (Served (encode (singles digits)) t.cells) (sym e) (refl, refl),
    )

pub server : Server server_send server_recv server_select (λ t. t.incoming) (λ t. t.cells)
server = record {
  streams = λ t n. (refl, refl);
  recv_cells = λ t n. refl;
  ack_incoming = λ t. refl;
  ack_cells = λ t. refl;
  answers_read = λ t a n small few quiet all.
      let (rs, plain, clean, short, digits, served) = answered_read t a n small few in
      (rs, plain, clean, short, digits, served.0, served.1);
  answers_write = λ t a bytes small all short quiet.
      subst (Served (b'O' ∷ b'K' ∷ []) (overwrite t.cells a bytes))
        (sym (sends_write t a bytes small (omega arith) all).1) (refl, refl);
}
