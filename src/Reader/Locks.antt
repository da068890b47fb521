-- ===== src/Reader/Locks.antt =====
-- `dmlog_read_next` and `dmlog_gets` give the lock back; `dmlog_getc` keeps it when it finds
-- no entry.
use dmlog.Base.{
  ℕ, zero, suc, ◌+◌, ◌^◌, ◌<◌, ◌≡◌, refl, ap, sym, subst, ◌∙◌, inl, inr, Bool, true, false, ◌||◌,
  Option, some, [], arith, get_or, set, leb, ◌==◌, Bool-cases,
}
use dmlog.Context.{Context, max_entry_size, is_valid, context_lock, read_byte_from_tail}
use dmlog.Context.Invariant.{WellFormed, contents}
use dmlog.Context.Lock.{
  Locked, Locked-same, context_lock-Locked, is_valid-WellFormed, context_lock-OutputOnly,
}
use mathlib.Core.Option.{some-injective}
use dmlog.Output.Locks.{Balanced, bracket, read_byte_from_tail-Balanced}
use dmlog.Reader.{read_loop, read_entry, read_next, getc_entry, getc, gets}
use dmlog.Reader.Entry.{is_cons}
use dmlog.Reader.ReadNext.{Unblocked, read_next-Reads, read_next-eq}

-- A context whose lock state is as it should be does not block its reader.
pub Locked-Unblocked : {n : ℕ} {c : Context} → Locked n c → Unblocked c
Locked-Unblocked {n = zero} l = inr l.busy
Locked-Unblocked {n = suc n} l = inl (omega (arith, l.depth))

store-Locked :
    (i x : ℕ) {n : ℕ} {c : Context}
    → Locked n c
    → Locked n (record c { read_buffer = set c.read_buffer i x })
store-Locked i x l = Locked-same refl refl l

read_loop-Balanced : (turns i : ℕ) (found : Bool) → Balanced 0 (λ c. (read_loop turns i found c).2)
unfolding read_loop
read_loop-Balanced zero i found n c small l = l
read_loop-Balanced (suc turns) i found n c small l =
    let next = read_byte_from_tail-Balanced n c small l in
    let stored = store-Locked i (read_byte_from_tail c).1 next in
    ground (arith, next, read_loop-Balanced turns (i + 1) true n _ small stored)

read_entry-Balanced : Balanced 0 (λ c. (read_entry c).1)
unfolding read_entry
read_entry-Balanced n c small l =
    Locked-same refl refl (read_loop-Balanced 499 0 false n _ small (Locked-same refl refl l))

pub returned_context :
    {x y : Bool × Context} → ◌≡◌ {A = Option (Bool × Context)} (some x) (some y) → x.1 ≡ y.1
returned_context e = ap (λ (r : Bool × Context). r.1) (some-injective _ _ e)

-- `dmlog_read_next` returns, and gives the lock back.
pub read_next-Balanced :
    (n : ℕ) (c : Context) (found : Bool) (d : Context)
    → n + 1 < 2 ^ 32
    → Locked n c
    → read_next c ≡ some (found, d)
    → Locked n d
unfolding read_next
read_next-Balanced n c found d small l e = elim (Bool-cases (is_valid (some c))) [
  | inl valid ↦
      subst (Locked n) (returned_context (sym (read_next-eq c valid (Locked-Unblocked l)) ∙ e))
        (bracket n c _ small l (λ h. read_entry-Balanced (suc n) (context_lock c) (omega arith) h))
  | inr invalid ↦ subst (Locked n) (returned_context (rw (read_next, invalid) at e)) l
]

pub gets-Balanced : (max_len : ℕ) → Balanced 1 (λ c. (gets c max_len).2)
unfolding gets
gets-Balanced max_len n c small l = elim (Bool-cases (is_valid (some c))) [
  | inl valid ↦ rw valid (bracket n c _ small l (λ h. Locked-same refl refl h))
  | inr invalid ↦ rw invalid l
]

or_right : (a : Bool) {b : Bool} → b ≡ true → (a || b) ≡ true
or_right true e = refl
or_right false e = e

used_up_test :
    (c : Context)
    → get_or c.read_buffer c.read_entry_offset 0 ≡ 0
    → (get_or c.read_buffer c.read_entry_offset 0 == 0) ≡ true
used_up_test c e = rw e

-- The early return of `dmlog_getc`.
getc-none :
    (c : Context) {d : Context}
    → is_valid (some c) ≡ true
    → (leb max_entry_size c.read_entry_offset || get_or c.read_buffer c.read_entry_offset 0 == 0)
      ≡ true
    → read_next (context_lock c) ≡ some (false, d)
    → getc c ≡ some (0, d)
unfolding getc getc_entry context_lock
getc-none c valid test e = rw (valid, test, e)

-- In a well-formed context with an empty ring and no character left of the last entry, in which
-- the lock is taken `n` times, with `n` + 2 below 2 ^ 32, and BUSY says whether it is taken:
-- `dmlog_getc` returns the character 0 and leaves the lock taken `n` + 1 times, with BUSY set.
pub getc_keeps_lock :
    (n : ℕ) {c : Context}
    → WellFormed c
    → Locked n c
    → n + 2 < 2 ^ 32
    → contents c ≡ []
    → get_or c.read_buffer c.read_entry_offset 0 ≡ 0
    → (d : Context) × (getc c ≡ some (0, d)) × Locked (suc n) d
unfolding context_lock
getc_keeps_lock n {c} w l small empty used_up =
    let locked = context_lock-OutputOnly w in
    let held = context_lock-Locked (omega arith) l in
    let (found, d, returned, r) = read_next-Reads locked.well (Locked-Unblocked held) in
    let none_found : found ≡ false = r.result ∙ ap is_cons empty in
    (
      d,
      getc-none c (is_valid-WellFormed w) (or_right _ (used_up_test c used_up))
          (rw none_found at returned),
      read_next-Balanced (suc n) (context_lock c) found d (omega arith) held returned,
    )

-- In a well-formed context in which the lock is taken `n` times, with `n` + 1 below 2 ^ 32, and
-- BUSY says whether it is taken: `dmlog_read_next` returns; and after it, as after `dmlog_gets`,
-- the lock is taken `n` times and BUSY says whether it is taken.
pub readers-Locked :
    (n : ℕ) (c : Context) (max_len : ℕ)
    → n + 1 < 2 ^ 32
    → WellFormed c
    → Locked n c
    → (found : Bool) × (d : Context) × (read_next c ≡ some (found, d))
      × Locked n d
      × Locked n (gets c max_len).2
readers-Locked n c max_len small w l =
    let (found, d, returned, r) = read_next-Reads w (Locked-Unblocked l) in
    (
      found,
      d,
      returned,
      read_next-Balanced n c found d small l returned,
      gets-Balanced max_len n c small l,
    )
