-- ===== src/Output/Locks.antt =====
-- Every call of the writing side gives the lock back as it found it.
use dmlog.Base.{
  ℕ, zero, suc, ◌+◌, ◌-◌, ◌^◌, ◌<◌, ◌≡◌, refl, inl, inr, Bool, some, List, [], ◌∷◌, arith, ◌==◌,
  Bool-cases,
}
use dmlog.Flag
use dmlog.Word.{bit, has, lower}
use dmlog.Word.Bits.{has-lower_other}
use dmlog.Context.{
  Context, is_valid, context_lock, context_unlock, get_free_space, read_byte_from_tail,
  write_byte_to_tail, clear,
}
use dmlog.Context.Lock.{Locked, Locked-same, context_lock-Locked, context_unlock-Locked}
use dmlog.Output.{
  cstring, flush_byte, flush_loop, flush, obey_clear, make_room, store_char, end_line, putc,
  puts_loop, finish_text, puts, putsn_loop, putsn,
}

-- `f` gives the lock back, wherever it is taken less than 2 ^ 32 - 1 - `k` times.
abbrev pub Balanced : ℕ → (Context → Context) → Type 0
Balanced k f = (n : ℕ) (c : Context) → n + k < 2 ^ 32 → Locked n c → Locked n (f c)

pub read_byte_from_tail-Balanced : Balanced 0 (λ c. (read_byte_from_tail c).2)
unfolding read_byte_from_tail
read_byte_from_tail-Balanced n c small l = ground arith

write_byte_to_tail-Balanced : (x : ℕ) → Balanced 0 (λ c. (write_byte_to_tail c x).1)
unfolding write_byte_to_tail
write_byte_to_tail-Balanced x n c small l = ground arith

flush_byte-Balanced : (x : ℕ) → Balanced 0 (λ c. (flush_byte c x).1)
unfolding flush_byte
flush_byte-Balanced x n c small l = elim (Bool-cases (get_free_space c == 0)) [
  | inl full ↦
      rw full (write_byte_to_tail-Balanced x n _ small (read_byte_from_tail-Balanced n c small l))
  | inr room ↦ rw room (write_byte_to_tail-Balanced x n c small l)
]

flush_loop-Balanced : (xs : List ℕ) → Balanced 0 (λ c. (flush_loop xs c).1)
unfolding flush_loop
flush_loop-Balanced [] n c small l = l
flush_loop-Balanced (x ∷ xs) n c small l =
    let first = flush_byte-Balanced x n c small l in
    ground (arith, first, flush_loop-Balanced xs n (flush_byte c x).1 small first)

-- What is done between a lock and its unlock.
pub bracket :
    (n : ℕ) (c : Context) (d : Context)
    → n + 1 < 2 ^ 32
    → Locked n c
    → (Locked (suc n) (context_lock c) → Locked (suc n) d)
    → Locked n (context_unlock d)
bracket n c d small l inside = context_unlock-Locked (inside (context_lock-Locked small l))

pub flush-Balanced : Balanced 1 (λ c. (flush c).1)
unfolding flush
flush-Balanced n c small l = elim (Bool-cases (is_valid (some c))) [
  | inl valid ↦ rw valid (
      bracket n c _ small l (λ h.
        Locked-same refl refl (flush_loop-Balanced _ (suc n) (context_lock c) (omega arith) h)))
  | inr invalid ↦ rw invalid l
]

-- Lowering flags other than BUSY leaves the lock alone.
pub Locked-lower :
    (mask : ℕ) {n : ℕ} {c d : Context}
    → bit 1 (2 ^ 32 - 1 - mask) ≡ 1
    → d.lock_recursion ≡ c.lock_recursion
    → d.ring.flags ≡ lower c.ring.flags mask
    → Locked n c
    → Locked n d
Locked-lower mask {n} {c} {d} other e f l = record {
  depth = rw e l.depth;
  busy = rw (f, has-lower_other 1 c.ring.flags mask other) l.busy;
}

pub clear-Balanced : Balanced 1 clear
unfolding clear bit
clear-Balanced n c small l = elim (Bool-cases (is_valid (some c))) [
  | inl valid ↦
      rw valid (bracket n c _ small l (λ h. Locked-lower 13 {c = context_lock c} refl refl refl h))
  | inr invalid ↦ rw invalid l
]

obey_clear-Balanced : Balanced 1 obey_clear
unfolding obey_clear bit
obey_clear-Balanced n c small l = elim (Bool-cases (has c.ring.flags Flag.clear_buffer)) [
  | inl asked ↦ rw asked (Locked-lower 1 {c = clear c} refl refl refl (clear-Balanced n c small l))
  | inr not_asked ↦ rw not_asked l
]

make_room-Balanced : Balanced 1 make_room
unfolding make_room
make_room-Balanced n c small l = ground (arith, flush-Balanced n c small l)

store_char-Balanced : (x : ℕ) → Balanced 0 (λ c. (store_char c x).1)
unfolding store_char
store_char-Balanced x n c small l = ground arith

end_line-Balanced : (x : ℕ) (r : Bool) → Balanced 1 (λ c. (end_line (r, c) x).1)
unfolding end_line
end_line-Balanced x r n c small l = ground (arith, flush-Balanced n c small l)

-- `dmlog_putc` gives the lock back as it found it, with BUSY clear unless the caller holds it.
pub putc-Balanced : (x : ℕ) → Balanced 2 (λ c. (putc c x).1)
unfolding putc
putc-Balanced x n c small l = elim (Bool-cases (is_valid (some c))) [
  | inl valid ↦ rw valid (
      bracket n c _ (omega arith) l (λ h. end_line-Balanced x _ (suc n) _ (omega arith) (
        store_char-Balanced x (suc n) _ (omega arith) (
          make_room-Balanced (suc n) _ (omega arith)
            (obey_clear-Balanced (suc n) _ (omega arith) h)))))
  | inr invalid ↦ rw invalid l
]

puts_loop-Balanced : (xs : List ℕ) → Balanced 2 (λ c. (puts_loop xs c).1)
unfolding puts_loop
puts_loop-Balanced [] n c small l = l
puts_loop-Balanced (x ∷ xs) n c small l =
    let first = putc-Balanced x n c small l in
    ground (arith, first, puts_loop-Balanced xs n (putc c x).1 small first)

finish_text-Balanced : (xs : List ℕ) (r : Bool) → Balanced 1 (λ c. (finish_text xs (r, c)).1)
unfolding finish_text
finish_text-Balanced xs r n c small l = ground (arith, flush-Balanced n c small l)

pub puts-Balanced : (s : List ℕ) → Balanced 3 (λ c. (puts c s).1)
unfolding puts
puts-Balanced s n c small l = elim (Bool-cases (is_valid (some c))) [
  | inl valid ↦ rw valid (
      bracket n c _ (omega arith) l (λ h.
        finish_text-Balanced (cstring s) _ (suc n) _ (omega arith)
          (puts_loop-Balanced (cstring s) (suc n) _ (omega arith) h)))
  | inr invalid ↦ rw invalid l
]

putsn_loop-Balanced : (k : ℕ) (s : List ℕ) → Balanced 2 (putsn_loop k s)
unfolding putsn_loop
putsn_loop-Balanced zero s n c small l = l
putsn_loop-Balanced (suc k) [] n c small l = l
putsn_loop-Balanced (suc k) (x ∷ s) n c small l =
    let first = putc-Balanced x n c small l in
    ground (arith, first, putsn_loop-Balanced k s n (putc c x).1 small first)

pub putsn-Balanced : (s : List ℕ) (k : ℕ) → Balanced 2 (λ c. (putsn c s k).1)
unfolding putsn
putsn-Balanced s k n c small l =
    ground (
      arith,
      flush-Balanced n (putsn_loop k s c) (omega arith) (putsn_loop-Balanced k s n c small l),
    )

-- Where the lock is taken `n` times, with `n` + 3 below 2 ^ 32, and BUSY says whether it is
-- taken: after `dmlog_putc`, `dmlog_puts`, `dmlog_putsn`, `dmlog_flush` and `dmlog_clear`, on every
-- branch, the lock is taken `n` times and BUSY says whether it is taken.
pub writers-Locked :
    (n : ℕ) (c : Context) (char : ℕ) (s : List ℕ) (size : ℕ)
    → n + 3 < 2 ^ 32
    → Locked n c
    → Locked n (putc c char).1
      × Locked n (puts c s).1
      × Locked n (putsn c s size).1
      × Locked n (flush c).1
      × Locked n (clear c)
writers-Locked n c char s size small l = (
  putc-Balanced char n c (omega arith) l,
  puts-Balanced s n c small l,
  putsn-Balanced s size n c (omega arith) l,
  flush-Balanced n c (omega arith) l,
  clear-Balanced n c (omega arith) l,
)
