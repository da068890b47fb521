-- ===== src/OpenOcd/Dump/Line.antt =====
-- A line of a memory dump is read back.
use dmlog.Base.{
  ℕ, zero, suc, ◌+◌, ◌-◌, ◌*◌, ◌/◌, ◌≤◌, ◌<◌, min, ◌≡◌, refl, ap, sym, ◌∙◌, true, false, List, [],
  ◌∷◌, ◌++◌, append-nil, append_assoc, length, length-append, length-take, take, arith, ne→==,
}
use dmlog.Monitor.{to_bytes}
use dmlog.Gdb.{is_space}
use dmlog.Gdb.Session.Packets.{Without}
use dmlog.OpenOcd.{store_word, parse_words, parse_memory_line}
use dmlog.OpenOcd.Dump.{dumped, word_bytes, AllWords, lower_hex, word-step}

take-append :
    (room : ℕ) (xs ys : List ℕ)
    → take (min (length xs) room) xs ++ take (room - length xs) ys ≡ take room (xs ++ ys)
take-append room [] ys =
    let no_byte : min 0 room ≡ 0 = omega arith in
    let all : room - 0 ≡ room = omega arith in rw (no_byte, all) refl
take-append zero (x ∷ xs) ys =
    let no_byte : min (suc (length xs)) 0 ≡ 0 = omega arith in
    let nothing : 0 - suc (length xs) ≡ 0 = omega arith in rw (no_byte, nothing) refl
take-append (suc room) (x ∷ xs) ys =
    let both : min (suc (length xs)) (suc room) ≡ suc (min (length xs) room) = omega arith in
    let less : suc room - suc (length xs) ≡ room - length xs = omega arith in
    rw (both, less) (ap (◌∷◌ x) (take-append room xs ys))

take-append_short :
    (n room : ℕ) (xs ys : List ℕ)
    → length xs ≡ n
    → take (min n room) xs ++ take (room - n) ys ≡ take room (xs ++ ys)
take-append_short n room xs ys e =
    ap (λ k. take (min k room) xs ++ take (room - k) ys) (sym e) ∙ take-append room xs ys

length-to_bytes : (n v : ℕ) → length (to_bytes n v) ≡ n
unfolding to_bytes
length-to_bytes zero v = refl
length-to_bytes (suc n) v = ap suc (length-to_bytes n (v / 256))

words-start :
    (text : List ℕ) (max_length : ℕ) (stored : List ℕ)
    → parse_words false (32 ∷ text) max_length stored ≡ parse_words false text max_length stored
unfolding parse_words is_space
words-start text max_length stored = refl

words-end :
    (rest : List ℕ) (max_length : ℕ) (stored : List ℕ)
    → parse_words false (b'\n' ∷ rest) max_length stored ≡ (true, stored)
unfolding parse_words
words-end rest max_length stored = refl

take-nil : (n : ℕ) → take {A = ℕ} n [] ≡ []
take-nil zero = refl
take-nil (suc n) = refl

-- The bytes of a word and of the words behind it, as far as there is room.
bytes-step :
    (word : ℕ) (words : List ℕ) (max_length : ℕ) (stored : List ℕ)
    → length stored ≤ max_length
    → length (store_word stored max_length word)
      ≡ length stored + min 4 (max_length - length stored)
    → store_word stored max_length word
        ++ take (max_length - length (store_word stored max_length word)) (word_bytes words)
      ≡ stored ++ take (max_length - length stored) (word_bytes (word ∷ words))
bytes-step word words max_length stored inside now =
    let room = max_length - length stored in
    let left : max_length - length (store_word stored max_length word) ≡ room - 4 =
      omega (arith, now) in
    append_assoc stored (take (min 4 room) (to_bytes 4 word))
      (take (max_length - length (store_word stored max_length word)) (word_bytes words))
    ∙ ap (λ k. stored ++ (take (min 4 room) (to_bytes 4 word) ++ take k (word_bytes words))) left
    ∙ ap (λ xs. stored ++ xs)
        (take-append_short 4 room (to_bytes 4 word) (word_bytes words) (length-to_bytes 4 word))

parse_words-dumped :
    (words rest : List ℕ) (max_length : ℕ) (stored : List ℕ)
    → AllWords words
    → length stored ≤ max_length
    → 4 * length words < max_length - length stored + 4
    → parse_words false (dumped words ++ b'\n' ∷ rest) max_length stored
      ≡ (true, stored ++ take (max_length - length stored) (word_bytes words))
parse_words-dumped [] rest max_length stored small inside fits =
    words-end rest max_length stored
    ∙ ap (λ xs. (true, xs))
        (sym (ap (λ xs. stored ++ xs) (take-nil (max_length - length stored)) ∙ append-nil stored))
parse_words-dumped (word ∷ words) rest max_length stored small inside fits =
    let after = store_word stored max_length word in
    let stored_now : length after ≡ length stored + min 4 (max_length - length stored) = omega (
      arith,
      length-append stored (take (min 4 (max_length - length stored)) (to_bytes 4 word)),
      length-take (min 4 (max_length - length stored)) (to_bytes 4 word),
      length-to_bytes 4 word,
    ) in
    ap (λ text. parse_words false text max_length stored)
      (append_assoc (lower_hex 8 word []) (32 ∷ dumped words) (b'\n' ∷ rest))
    ∙ word-step word (dumped words ++ b'\n' ∷ rest) max_length stored small.0 (omega arith)
    ∙ parse_words-dumped words rest max_length after small.1 (omega (arith, stored_now))
        (omega (arith, stored_now))
    ∙ ap (λ xs. (true, xs)) (bytes-step word words max_length stored inside stored_now)

-- A line of a dump, an address without `:` and 0 before the `:`, then the words of 32 bits with a space
-- before and behind each: where each of the words has room for one byte at least,
-- `parse_memory_line` succeeds and stores the bytes of the words behind those that are stored
-- already, the lowest byte of each word first, up to the end of the buffer.
pub parse_memory_line-dumped :
    (address words rest : List ℕ) (max_length : ℕ) (stored : List ℕ)
    → Without 0 address
    → Without b':' address
    → AllWords words
    → length stored ≤ max_length
    → 4 * length words < max_length - length stored + 4
    → parse_memory_line (address ++ b':' ∷ 32 ∷ (dumped words ++ b'\n' ∷ rest)) max_length stored
      ≡ (true, stored ++ take (max_length - length stored) (word_bytes words))
unfolding parse_memory_line
parse_memory_line-dumped [] words rest max_length stored no_end clean small inside fits =
    words-start (dumped words ++ b'\n' ∷ rest) max_length stored
    ∙ parse_words-dumped words rest max_length stored small inside fits
parse_memory_line-dumped (c ∷ address) words rest max_length stored no_end clean small inside fits =
    rw (ne→== c 0 no_end.0, ne→== c b':' clean.0)
      (parse_memory_line-dumped address words rest max_length stored no_end.1 clean.1 small inside
        fits)
