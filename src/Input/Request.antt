-- ===== src/Input/Request.antt =====
-- `dmlog_input_request` and `dmlog_exit_monitor` change their bits of the flag word only.
use dmlog.Base.{ℕ, ◌-◌, ◌^◌, min, max, bit_and, bit_or, ◌≡◌, refl, arith}
use dmlog.Flag
use dmlog.Word.{bit, raise, lower}
use dmlog.Word.Bits.{bit-le, bit-bit_or, bit-bit_and, bit-raise, bit-lower}
use dmlog.Context.{Context, set_flags, context_lock, context_unlock, exit_monitor}
use dmlog.Context.Invariant.{WellFormed}
use dmlog.Context.Lock.{is_valid-WellFormed, Locked}
use dmlog.Input.{request_mask, input_request}

abbrev pub flag : Context → ℕ → ℕ
flag c k = bit k c.ring.flags

-- A change of the flags under a lock that was free.
flags-unlock :
    (g : ℕ → ℕ) (c : Context)
    → c.lock_recursion ≡ 0
    → (context_unlock (set_flags (context_lock c) (g (context_lock c).ring.flags))).ring.flags
      ≡ lower (g (raise c.ring.flags Flag.busy)) Flag.busy
unfolding context_lock context_unlock
flags-unlock g c free = rw free refl

-- The flag word after the request.
asked : ℕ → ℕ → ℕ
asked flags f =
    lower
      (raise (lower (raise f Flag.busy) request_mask)
        (bit_or Flag.input_requested (bit_and flags request_mask)))
      Flag.busy

bit-asked :
    (k flags f : ℕ)
    → bit k (asked flags f)
      ≡ min
          (max
            (min (max (bit k f) (bit k Flag.busy)) (bit k (2 ^ 32 - 1 - request_mask)))
            (max (bit k Flag.input_requested) (min (bit k flags) (bit k request_mask))))
          (bit k (2 ^ 32 - 1 - Flag.busy))
unfolding asked
bit-asked k flags f =
    rw
      (
        bit-lower k
            (raise (lower (raise f Flag.busy) request_mask)
              (bit_or Flag.input_requested (bit_and flags request_mask)))
            Flag.busy,
        bit-raise k (lower (raise f Flag.busy) request_mask)
            (bit_or Flag.input_requested (bit_and flags request_mask)),
        bit-lower k (raise f Flag.busy) request_mask,
        bit-raise k f Flag.busy,
        bit-bit_or k Flag.input_requested (bit_and flags request_mask),
        bit-bit_and k flags request_mask,
      )
      refl

module _ (k flags f : ℕ) (not_busy : bit k (2 ^ 32 - 1 - Flag.busy) ≡ 1) where
  mode :
      bit k (2 ^ 32 - 1 - request_mask) ≡ 0
      → bit k Flag.input_requested ≡ 0
      → bit k request_mask ≡ 1
      → bit k (asked flags f) ≡ bit k flags
  mode cut other own = omega (arith, bit-asked k flags f, bit-le k flags)

  kept :
      bit k Flag.busy ≡ 0
      → bit k (2 ^ 32 - 1 - request_mask) ≡ 1
      → bit k Flag.input_requested ≡ 0
      → bit k request_mask ≡ 0
      → bit k (asked flags f) ≡ bit k f
  kept a b d e = omega (arith, bit-asked k flags f, bit-le k f)

requested_set :
    (flags f : ℕ)
    → bit 3 Flag.input_requested ≡ 1
    → bit 3 (2 ^ 32 - 1 - Flag.busy) ≡ 1
    → bit 3 request_mask ≡ 0
    → bit 3 (asked flags f) ≡ 1
requested_set flags f a b d = omega (arith, bit-asked 3 flags f, bit-le 3 f)

busy_clear : (flags f : ℕ) → bit 1 (2 ^ 32 - 1 - Flag.busy) ≡ 0 → bit 1 (asked flags f) ≡ 0
busy_clear flags f a = omega (arith, bit-asked 1 flags f)

asked-bits :
    (flags f : ℕ)
    → let g = asked flags f in
      (bit 3 g ≡ 1)
      × (bit 4 g ≡ bit 4 flags)
      × (bit 5 g ≡ bit 5 flags)
      × (bit 1 g ≡ 0)
      × (bit 0 g ≡ bit 0 f)
      × (bit 2 g ≡ bit 2 f)
      × (bit 6 g ≡ bit 6 f)
      × (bit 7 g ≡ bit 7 f)
      × (bit 31 g ≡ bit 31 f)
unfolding bit
asked-bits flags f = (
  requested_set flags f refl refl refl,
  mode 4 flags f refl refl refl refl,
  mode 5 flags f refl refl refl refl,
  busy_clear flags f refl,
  kept 0 flags f refl refl refl refl refl,
  kept 2 flags f refl refl refl refl refl,
  kept 6 flags f refl refl refl refl refl,
  kept 7 flags f refl refl refl refl refl,
  kept 31 flags f refl refl refl refl refl,
)

-- With the lock free, after `dmlog_input_request` with some mode flags the bit INPUT_REQUESTED is
-- set, the bits ECHO_OFF and LINE_MODE are those of the mode flags, BUSY is clear, and the
-- bits CLEAR_BUFFER, INPUT_AVAILABLE, FILE_SEND_REQ, FILE_RECV_REQ and EXIT_REQUESTED are as they
-- were.
pub input_request-bits :
    (flags : ℕ) {c : Context}
    → WellFormed c
    → Locked 0 c
    → let d = input_request c flags in
      (flag d 3 ≡ 1)
      × (flag d 4 ≡ bit 4 flags)
      × (flag d 5 ≡ bit 5 flags)
      × (flag d 1 ≡ 0)
      × (flag d 0 ≡ flag c 0)
      × (flag d 2 ≡ flag c 2)
      × (flag d 6 ≡ flag c 6)
      × (flag d 7 ≡ flag c 7)
      × (flag d 31 ≡ flag c 31)
unfolding input_request asked
input_request-bits flags {c} w l =
    rw
      (
        is_valid-WellFormed w,
        flags-unlock
            (λ f.
              raise (lower f request_mask)
                (bit_or Flag.input_requested (bit_and flags request_mask)))
            c l.depth,
      )
      (asked-bits flags c.ring.flags)

exited : ℕ → ℕ
exited f = lower (raise (raise f Flag.busy) Flag.exit_requested) Flag.busy

bit-exited :
    (k f : ℕ)
    → bit k (exited f)
      ≡ min
          (max (max (bit k f) (bit k Flag.busy)) (bit k Flag.exit_requested))
          (bit k (2 ^ 32 - 1 - Flag.busy))
unfolding exited
bit-exited k f =
    rw
      (
        bit-lower k (raise (raise f Flag.busy) Flag.exit_requested) Flag.busy,
        bit-raise k (raise f Flag.busy) Flag.exit_requested,
        bit-raise k f Flag.busy,
      )
      refl

exit_kept :
    (k f : ℕ)
    → bit k Flag.busy ≡ 0
    → bit k Flag.exit_requested ≡ 0
    → bit k (2 ^ 32 - 1 - Flag.busy) ≡ 1
    → bit k (exited f) ≡ bit k f
exit_kept k f a b d = omega (arith, bit-exited k f, bit-le k f)

exit_set :
    (f : ℕ)
    → bit 31 Flag.exit_requested ≡ 1
    → bit 31 (2 ^ 32 - 1 - Flag.busy) ≡ 1
    → bit 31 (exited f) ≡ 1
exit_set f a b = omega (arith, bit-exited 31 f, bit-le 31 f)

exited-bits :
    (f : ℕ)
    → let g = exited f in
      (bit 31 g ≡ 1)
      × (bit 0 g ≡ bit 0 f)
      × (bit 2 g ≡ bit 2 f)
      × (bit 3 g ≡ bit 3 f)
      × (bit 4 g ≡ bit 4 f)
      × (bit 5 g ≡ bit 5 f)
      × (bit 6 g ≡ bit 6 f)
      × (bit 7 g ≡ bit 7 f)
unfolding bit
exited-bits f = (
  exit_set f refl refl,
  exit_kept 0 f refl refl refl,
  exit_kept 2 f refl refl refl,
  exit_kept 3 f refl refl refl,
  exit_kept 4 f refl refl refl,
  exit_kept 5 f refl refl refl,
  exit_kept 6 f refl refl refl,
  exit_kept 7 f refl refl refl,
)

-- With the lock free, after `dmlog_exit_monitor` the bit EXIT_REQUESTED is set and the bits 0 and
-- 2 to 7 are as they were.
pub exit_monitor-bits :
    {c : Context}
    → WellFormed c
    → Locked 0 c
    → let d = exit_monitor c in
      (flag d 31 ≡ 1)
      × (flag d 0 ≡ flag c 0)
      × (flag d 2 ≡ flag c 2)
      × (flag d 3 ≡ flag c 3)
      × (flag d 4 ≡ flag c 4)
      × (flag d 5 ≡ flag c 5)
      × (flag d 6 ≡ flag c 6)
      × (flag d 7 ≡ flag c 7)
unfolding exit_monitor exited
exit_monitor-bits {c} w l =
    rw (is_valid-WellFormed w, flags-unlock (λ f. raise f Flag.exit_requested) c l.depth)
      (exited-bits c.ring.flags)
