-- ===== src/Input/Locks.antt =====
-- Every call of the input side gives the lock back as it found it.
use dmlog.Base.{
  ℕ, zero, suc, ◌+◌, ◌^◌, ◌<◌, ◌≡◌, refl, ◌∙◌, inl, inr, Bool, true, false, some, set, arith,
  if◌then◌else◌, Bool-cases, bit_or, bit_and,
}
use dmlog.Flag
use dmlog.Word.{bit, has, raise, lower}
use dmlog.Word.Bits.{has-raise_other, has-lower_other, bit-bit_or, bit-bit_and, bit-le}
use dmlog.Context.{Context, is_valid, context_lock, exit_monitor}
use dmlog.Context.Lock.{Locked, Locked-same}
use dmlog.Output.Locks.{Balanced, bracket, Locked-lower}
use dmlog.Input.{
  read_byte_from_input_tail, entry_used_up, input_loop, fetch_entry, next_char, input_getc,
  input_gets_loop, input_gets, request_mask, input_request,
}

read_byte-Balanced : Balanced 0 (λ c. (read_byte_from_input_tail c).2)
unfolding read_byte_from_input_tail
read_byte-Balanced n c small l = ground arith

store-Locked :
    (i x : ℕ) {n : ℕ} {c : Context}
    → Locked n c
    → Locked n (record c { input_read_buffer = set c.input_read_buffer i x })
store-Locked i x l = Locked-same refl refl l

input_loop-Balanced : (turns i : ℕ) → Balanced 0 (λ c. (input_loop turns i c).1)
unfolding input_loop
input_loop-Balanced zero i n c small l = l
input_loop-Balanced (suc turns) i n c small l =
    let next = read_byte-Balanced n c small l in
    let stored = store-Locked i (read_byte_from_input_tail c).1 next in
    ground (arith, next, input_loop-Balanced turns (i + 1) n _ small stored)

-- Lowering INPUT_AVAILABLE leaves the lock alone.
not_available :
    (drained : Bool) {n : ℕ} {c d : Context}
    → d.lock_recursion ≡ c.lock_recursion
    → d.ring.flags ≡ (if drained then lower c.ring.flags Flag.input_available else c.ring.flags)
    → Locked n c
    → Locked n d
unfolding bit
not_available true e f l = Locked-lower Flag.input_available refl e f l
not_available false e f l = Locked-same e f l

fetch_entry-Balanced : Balanced 0 fetch_entry
unfolding fetch_entry
fetch_entry-Balanced n c small l =
    not_available _ refl refl (input_loop-Balanced 499 0 n _ small (Locked-same refl refl l))

next_char-Balanced : Balanced 0 (λ c. (next_char c).1)
unfolding next_char
next_char-Balanced n c small l = ground arith

refill-Balanced : Balanced 0 (λ c. if entry_used_up c then fetch_entry c else c)
refill-Balanced n c small l = ground (arith, fetch_entry-Balanced n c small l)

input_getc-Balanced : Balanced 1 (λ c. (input_getc c).1)
unfolding input_getc
input_getc-Balanced n c small l = elim (Bool-cases (is_valid (some c))) [
  | inl valid ↦ rw valid (
      bracket n c _ small l (λ h.
        next_char-Balanced (suc n) _ (omega arith)
          (refill-Balanced (suc n) (context_lock c) (omega arith) h)))
  | inr invalid ↦ rw invalid l
]

input_gets_loop-Balanced : (room : ℕ) → Balanced 1 (λ c. (input_gets_loop room c).1)
unfolding input_gets_loop
input_gets_loop-Balanced zero n c small l = l
input_gets_loop-Balanced (suc room) n c small l =
    let first = input_getc-Balanced n c small l in
    ground (arith, first, input_gets_loop-Balanced room n (input_getc c).1 small first)

input_gets-Balanced : (max_len : ℕ) → Balanced 2 (λ c. (input_gets c max_len).2)
unfolding input_gets
input_gets-Balanced max_len n c small l = elim (Bool-cases (is_valid (some c))) [
  | inl valid ↦ rw valid (
      bracket n c _ (omega arith) l
        (λ h. input_gets_loop-Balanced _ (suc n) (context_lock c) (omega arith) h))
  | inr invalid ↦ rw invalid l
]

-- The request changes bits other than BUSY.
busy-request :
    (f flags : ℕ)
    → has
        (raise (lower f request_mask) (bit_or Flag.input_requested (bit_and flags request_mask)))
        Flag.busy
      ≡ has f Flag.busy
unfolding bit
busy-request f flags =
    has-raise_other 1 (lower f request_mask)
      (bit_or Flag.input_requested (bit_and flags request_mask))
      (omega (
        arith,
        bit-bit_or 1 Flag.input_requested (bit_and flags request_mask),
        bit-bit_and 1 flags request_mask,
        bit-le 1 flags,
      ))
    ∙ has-lower_other 1 f request_mask refl

input_request-Balanced : (flags : ℕ) → Balanced 1 (λ c. input_request c flags)
unfolding input_request
input_request-Balanced flags n c small l = elim (Bool-cases (is_valid (some c))) [
  | inl valid ↦ rw valid (
      bracket n c _ small l (λ h. record {
        depth = h.depth;
        busy = busy-request (context_lock c).ring.flags flags ∙ h.busy;
      }))
  | inr invalid ↦ rw invalid l
]

exit_monitor-Balanced : Balanced 1 exit_monitor
unfolding exit_monitor bit
exit_monitor-Balanced n c small l = elim (Bool-cases (is_valid (some c))) [
  | inl valid ↦ rw valid (
      bracket n c _ small l (λ h. record {
        depth = h.depth;
        busy = has-raise_other 1 (context_lock c).ring.flags Flag.exit_requested refl ∙ h.busy;
      }))
  | inr invalid ↦ rw invalid l
]

-- Where the lock is taken `n` times, with `n` + 2 below 2 ^ 32, and BUSY says whether it is
-- taken: after `dmlog_input_getc`, `dmlog_input_gets`, `dmlog_input_request` and
-- `dmlog_exit_monitor`, on every branch, the lock is taken `n` times and BUSY says whether it is
-- taken.
pub input-Locked :
    (n : ℕ) (c : Context) (max_len flags : ℕ)
    → n + 2 < 2 ^ 32
    → Locked n c
    → Locked n (input_getc c).1
      × Locked n (input_gets c max_len).2
      × Locked n (input_request c flags)
      × Locked n (exit_monitor c)
input-Locked n c max_len flags small l = (
  input_getc-Balanced n c (omega arith) l,
  input_gets-Balanced max_len n c small l,
  input_request-Balanced flags n c (omega arith) l,
  exit_monitor-Balanced n c (omega arith) l,
)
