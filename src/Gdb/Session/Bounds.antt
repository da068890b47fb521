-- ===== src/Gdb/Session/Bounds.antt =====
-- The buffers that the commands and their packets are printed into.
use dmlog.Base.{
  ℕ, zero, suc, ◌+◌, ◌/◌, ◌%◌, ◌≤◌, Bool, true, false, List, [], ◌∷◌, ◌++◌, length, length-append,
  arith, ltb, ◌==◌, if◌then◌else◌,
}
use dmlog.Output.{cstring}
use dmlog.Gdb.{
  hex_digit, hex_byte, hex_bytes, hex_digits, hex_number, frame, calculate_checksum, hash,
}
use dmlog.Gdb.Hex.{length-hex_bytes}
use dmlog.Gdb.Session.{read_command, write_command, max_write_size}

length-if-le :
    (b : Bool) (xs ys : List ℕ) (n : ℕ)
    → length xs ≤ n
    → length ys ≤ n
    → length (if b then xs else ys) ≤ n
length-if-le true xs ys n h k = h
length-if-le false xs ys n h k = k

length-hex_digits :
    (places n : ℕ) (tail : List ℕ) → length (hex_digits places n tail) ≤ places + length tail
unfolding hex_digits
length-hex_digits zero n tail = omega arith
length-hex_digits (suc places) n tail =
    length-if-le (ltb n 16) _ _ _ (omega arith)
      (omega (arith, length-hex_digits places (n / 16) (hex_digit (n % 16) ∷ tail)))

length-hex_number : (n : ℕ) → length (hex_number n) ≤ 16
unfolding hex_number
length-hex_number n = omega (arith, length-hex_digits 16 n [])

length-cstring : (xs : List ℕ) → length (cstring xs) ≤ length xs
length-cstring [] = omega arith
length-cstring (x ∷ xs) =
    length-if-le (x == 0) _ _ _ (omega arith) (omega (arith, length-cstring xs))

length-frame : (text : List ℕ) → length (frame text) ≤ length text + 4
unfolding frame hex_byte
length-frame text = omega (
  arith,
  length-cstring text,
  length-append (cstring text) (hash ∷ hex_byte (calculate_checksum (cstring text))),
)

read_command-le : (a n : ℕ) → length (read_command a n) ≤ 34
unfolding read_command
read_command-le a n = omega (
  arith,
  length-append (hex_number a) (b',' ∷ hex_number n),
  length-hex_number a,
  length-hex_number n,
)

write_command-le :
    (a : ℕ) (bytes : List ℕ) → length bytes ≤ max_write_size → length (write_command a bytes) ≤ 2083
unfolding write_command
write_command-le a bytes small = omega (
  arith,
  small,
  length-append (hex_number a) (b',' ∷ (hex_number (length bytes) ++ b':' ∷ hex_bytes bytes)),
  length-append (hex_number (length bytes)) (b':' ∷ hex_bytes bytes),
  length-hex_number a,
  length-hex_number (length bytes),
  length-hex_bytes bytes,
)

-- Whatever the address and the number of bytes: the command of a read with its final 0 fits in the
-- 64 bytes of `command`, that of a write of at most `MAX_WRITE_SIZE` bytes in the 4096 bytes of
-- its `command`, and the packets that are made of them in the 4096 bytes of `packet`.
pub commands-fit :
    (a n : ℕ) (bytes : List ℕ)
    → length bytes ≤ max_write_size
    → (length (read_command a n) + 1 ≤ 64)
      × (length (frame (read_command a n)) + 1 ≤ 4096)
      × (length (write_command a bytes) + 1 ≤ 4096)
      × (length (frame (write_command a bytes)) + 1 ≤ 4096)
commands-fit a n bytes small =
    let read = read_command-le a n in
    let write = write_command-le a bytes small in
    (
      omega (arith, read),
      omega (arith, read, length-frame (read_command a n)),
      omega (arith, write),
      omega (arith, write, length-frame (write_command a bytes)),
    )
