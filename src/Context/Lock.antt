-- ===== src/Context/Lock.antt =====
-- `context_lock` and `context_unlock` touch the flag BUSY and the depth of the lock, nothing else.
use dmlog.Base.{
  ℕ, zero, suc, ◌+◌, ◌^◌, ◌<◌, ◌≡◌, refl, sym, ◌∙◌, ap, lt→ltb, ◌==◌, ◌-◌, some, Bool, true, false,
  arith, if◌then◌else◌, ltb,
}
use dmlog.Flag
use dmlog.Word.{bit, has, lower}
use dmlog.Word.Bits.{has-raise_other, has-lower_other, has-raise_self, has-lower_self}
use dmlog.Context.{Context, is_valid, context_lock, context_unlock}
use dmlog.Context.Invariant.{WellFormed, OutputOnly}

pub is_valid-WellFormed : {c : Context} → WellFormed c → is_valid (some c) ≡ true
unfolding is_valid
is_valid-WellFormed w = ground arith

pub context_lock-OutputOnly : {c : Context} → WellFormed c → OutputOnly c (context_lock c)
unfolding context_lock bit
context_lock-OutputOnly {c} w = record {
  well = ground arith;
  same_size = refl;
  same_clear = has-raise_other 0 c.ring.flags Flag.busy refl;
  same_input = refl;
  same_input_entry = refl;
  same_input_offset = refl;
}

clear-if_lower :
    (drop_busy : Bool) (f : ℕ)
    → has (if drop_busy then lower f Flag.busy else f) Flag.clear_buffer ≡ has f Flag.clear_buffer
unfolding bit
clear-if_lower true f = has-lower_other 0 f Flag.busy refl
clear-if_lower false f = refl

pub context_unlock-OutputOnly : {c : Context} → WellFormed c → OutputOnly c (context_unlock c)
unfolding context_unlock
context_unlock-OutputOnly {c} w = record {
  well = ground arith;
  same_size = refl;
  same_clear = clear-if_lower _ c.ring.flags;
  same_input = refl;
  same_input_entry = refl;
  same_input_offset = refl;
}

-- The lock is taken `n` times, and the flag BUSY says whether it is taken at all.
pub record Locked (n : ℕ) (c : Context) : Type 0 where
  pub depth : c.lock_recursion ≡ n
  pub busy : has c.ring.flags Flag.busy ≡ ltb 0 n

-- Two contexts that agree about the lock.
pub Locked-same :
    {n : ℕ} {c d : Context}
    → d.lock_recursion ≡ c.lock_recursion
    → d.ring.flags ≡ c.ring.flags
    → Locked n c
    → Locked n d
Locked-same e f l = record { depth = rw e l.depth; busy = rw f l.busy }

lowered : (f : ℕ) → has (lower f Flag.busy) Flag.busy ≡ false
unfolding bit
lowered f = has-lower_self 1 f Flag.busy refl

pub context_lock-Locked :
    {n : ℕ} {c : Context} → n + 1 < 2 ^ 32 → Locked n c → Locked (suc n) (context_lock c)
unfolding context_lock bit
context_lock-Locked {n} {c} small l = record {
  depth = omega (arith, l.depth);
  busy = has-raise_self 1 c.ring.flags Flag.busy refl ∙ sym (lt→ltb 0 (suc n) (omega arith));
}

pub context_unlock-Locked : {n : ℕ} {c : Context} → Locked (suc n) c → Locked n (context_unlock c)
unfolding context_unlock
context_unlock-Locked {n} {c} l = record {
  depth = less;
  busy =
      ap (λ (k : ℕ). has (if k == 0 then lower c.ring.flags Flag.busy else c.ring.flags) Flag.busy)
        less
      ∙ still n;
}
  where
    less : (if ltb 0 c.lock_recursion then c.lock_recursion - 1 else c.lock_recursion) ≡ n
    less = ground (arith, l.depth)

    still :
        (k : ℕ)
        → has (if k == 0 then lower c.ring.flags Flag.busy else c.ring.flags) Flag.busy ≡ ltb 0 k
    still zero = lowered c.ring.flags
    still (suc k) = ground (arith, l.busy)
