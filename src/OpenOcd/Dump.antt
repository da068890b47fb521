-- ===== src/OpenOcd/Dump.antt =====
-- The words of a memory dump, as they are printed and read back.
use dmlog.Base.{
  ℕ, zero, suc, ◌+◌, ◌-◌, ◌*◌, ◌/◌, ◌%◌, ◌^◌, ◌≤◌, ◌<◌, min, ◌≡◌, refl, ap, sym, ◌∙◌, Bool, true,
  false, ◌&&◌, ◌||◌, Option, some, List, [], ◌∷◌, ◌++◌, append-nil, append_assoc, length,
  length-append, length-take, take, arith, lt→ltb, ◌==◌, if◌then◌else◌, ne→==,
}
use dmlog.Monitor.{to_bytes}
use dmlog.Gdb.{hex_digit, read_digits, is_space}
use dmlog.Gdb.Hex.{digit_value-hex_digit}
use dmlog.Gdb.Session.Packets.{Without}
use dmlog.OpenOcd.{ishexchar, scan_word, store_word, parse_words, parse_memory_line}
pub mod Line

-- `%08x`, in general with so many digits.
abbrev pub lower_hex : ℕ → ℕ → List ℕ → List ℕ
lower_hex zero n tail = tail
lower_hex (suc places) n tail = lower_hex places (n / 16) (hex_digit (n % 16) ∷ tail)

-- The words of a line, each with a space behind it, and their bytes.
abbrev pub dumped : List ℕ → List ℕ
dumped [] = []
dumped (word ∷ words) = lower_hex 8 word [] ++ 32 ∷ dumped words

abbrev pub word_bytes : List ℕ → List ℕ
word_bytes [] = []
word_bytes (word ∷ words) = to_bytes 4 word ++ word_bytes words

abbrev pub AllWords : List ℕ → Type 0
AllWords [] = Unit {0}
AllWords (word ∷ words) = (word < 2 ^ 32) × AllWords words

abbrev power : ℕ → ℕ
power zero = 1
power (suc places) = 16 * power places

read_digit :
    (m d : ℕ) (tail : List ℕ)
    → d < 16
    → read_digits m (hex_digit d ∷ tail) ≡ read_digits (m * 16 + d) tail
unfolding read_digits
read_digit m d tail small = rw (digit_value-hex_digit d small, read_digits) refl

read_digits-lower_hex :
    (places n : ℕ) (tail : List ℕ)
    → n < power places
    → read_digits 0 (lower_hex places n tail) ≡ read_digits n tail
read_digits-lower_hex zero n tail small = ap (λ k. read_digits k tail) (omega arith)
read_digits-lower_hex (suc places) n tail small =
    read_digits-lower_hex places (n / 16) (hex_digit (n % 16) ∷ tail) (omega arith)
    ∙ read_digit (n / 16) (n % 16) tail (omega arith)
    ∙ ap (λ k. read_digits k tail) (omega arith)

read_digits-nil : (n : ℕ) → read_digits n [] ≡ n
unfolding read_digits
read_digits-nil n = refl

-- A digit is part of a word.
abbrev Solid : List ℕ → Type 0
Solid [] = Unit {0}
Solid (c ∷ cs) = ((c == 0 || c == b'\n') ≡ false) × (is_space c ≡ false) × Solid cs

digit_facts :
    (d : ℕ)
    → d < 16
    → ((hex_digit d == 0 || hex_digit d == b'\n') ≡ false)
      × (is_space (hex_digit d) ≡ false)
      × (ishexchar (hex_digit d) ≡ true)
      × ((hex_digit d == b'x' || hex_digit d == b'X') ≡ false)
unfolding hex_digit is_space ishexchar
digit_facts d small = (ground arith, ground arith, ground arith, ground arith)

lower_hex-Solid : (places n : ℕ) (tail : List ℕ) → Solid tail → Solid (lower_hex places n tail)
lower_hex-Solid zero n tail h = h
lower_hex-Solid (suc places) n tail h =
    let facts = digit_facts (n % 16) (omega arith) in
    lower_hex-Solid places (n / 16) (hex_digit (n % 16) ∷ tail) (facts.0, facts.1, h)

in_word-step :
    (c : ℕ) (cs : List ℕ) (max_length : ℕ) (stored : List ℕ)
    → (c == 0 || c == b'\n') ≡ false
    → is_space c ≡ false
    → parse_words true (c ∷ cs) max_length stored ≡ parse_words true cs max_length stored
unfolding parse_words
in_word-step c cs max_length stored e f = rw (e, f) refl

skip-Solid :
    (xs rest : List ℕ) (max_length : ℕ) (stored : List ℕ)
    → Solid xs
    → parse_words true (xs ++ 32 ∷ rest) max_length stored
      ≡ parse_words false rest max_length stored
unfolding parse_words is_space
skip-Solid [] rest max_length stored h = refl
skip-Solid (c ∷ xs) rest max_length stored h =
    in_word-step c (xs ++ 32 ∷ rest) max_length stored h.0 h.1
    ∙ skip-Solid xs rest max_length stored h.2

take-length : (xs ys : List ℕ) → take (length xs) (xs ++ ys) ≡ xs
take-length [] ys = refl
take-length (x ∷ xs) ys = ap (◌∷◌ x) (take-length xs ys)

no_prefix : (a b : Bool) → b ≡ false → (x y : Option ℕ) → (if a && b then x else y) ≡ y
no_prefix true b e x y = rw e refl
no_prefix false b e x y = refl

scan_word-digits :
    (d e : ℕ) (cs rest : List ℕ) (word : ℕ)
    → d < 16
    → e < 16
    → length cs ≡ 6
    → read_digits 0 (hex_digit d ∷ hex_digit e ∷ cs) ≡ word
    → scan_word (hex_digit d ∷ hex_digit e ∷ (cs ++ rest)) ≡ some word
unfolding scan_word
scan_word-digits d e cs rest word hd he six reads =
    let facts = digit_facts e he in
    let whole : take 6 (cs ++ rest) ≡ cs =
      ap (λ k. take k (cs ++ rest)) (sym six) ∙ take-length cs rest in
    no_prefix (hex_digit d == b'0') _ facts.3 _ _
    ∙ ap (λ ds. some (read_digits 0 (hex_digit d ∷ hex_digit e ∷ ds))) whole
    ∙ ap some reads

read-step :
    (c : ℕ) (cs : List ℕ) (max_length : ℕ) (stored : List ℕ) (word : ℕ)
    → (c == 0 || c == b'\n') ≡ false
    → is_space c ≡ false
    → ishexchar c ≡ true
    → scan_word (c ∷ cs) ≡ some word
    → length stored < max_length
    → parse_words false (c ∷ cs) max_length stored
      ≡ parse_words true cs max_length (store_word stored max_length word)
unfolding parse_words
read-step c cs max_length stored word e f g scans room =
    rw (e, f, g, scans, lt→ltb (length stored) max_length room) refl

skip-digit :
    (d : ℕ) (xs rest : List ℕ) (max_length : ℕ) (stored : List ℕ)
    → (hex_digit d == 0 || hex_digit d == b'\n') ≡ false
    → is_space (hex_digit d) ≡ false
    → Solid xs
    → parse_words true (hex_digit d ∷ (xs ++ 32 ∷ rest)) max_length stored
      ≡ parse_words false rest max_length stored
skip-digit d xs rest max_length stored e f h =
    in_word-step (hex_digit d) (xs ++ 32 ∷ rest) max_length stored e f
    ∙ skip-Solid xs rest max_length stored h

-- A word where there is room for a byte of it.
pub word-step :
    (word : ℕ) (rest : List ℕ) (max_length : ℕ) (stored : List ℕ)
    → word < 2 ^ 32
    → length stored < max_length
    → parse_words false (lower_hex 8 word [] ++ 32 ∷ rest) max_length stored
      ≡ parse_words false rest max_length (store_word stored max_length word)
word-step word rest max_length stored small room =
    let first = word / 16 / 16 / 16 / 16 / 16 / 16 / 16 % 16 in
    let second = word / 16 / 16 / 16 / 16 / 16 / 16 % 16 in
    let more = lower_hex 6 word [] in
    let facts = digit_facts first (omega arith) in
    let next = digit_facts second (omega arith) in
    let scans : scan_word (hex_digit first ∷ hex_digit second ∷ (more ++ 32 ∷ rest)) ≡ some word =
      scan_word-digits first second more (32 ∷ rest) word (omega arith) (omega arith) refl
        (read_digits-lower_hex 8 word [] small ∙ read_digits-nil word) in
    read-step (hex_digit first) (hex_digit second ∷ (more ++ 32 ∷ rest)) max_length stored word
      facts.0 facts.1 facts.2 scans room
    ∙ skip-digit second more rest max_length (store_word stored max_length word) next.0 next.1
        (lower_hex-Solid 6 word [] tt)
