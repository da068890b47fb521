-- ===== src/Output/Strings.antt =====
-- `dmlog_puts` and `dmlog_putsn` log their text whole, and leave nothing pending.
use dmlog.Base.{
  ℕ, zero, suc, ◌-◌, ◌≡◌, refl, ap, sym, ◌∙◌, ◌≢◌, inl, inr, Bool, true, List, [], ◌∷◌, ◌++◌, arith,
  append_assoc, length, get_or, take, ltb, ◌==◌, Bool-cases, ==_iff, last_n, last_n-last_n-append,
}
use dmlog.Context.{Context, context_lock, context_unlock}
use dmlog.Context.Invariant.{WellFormed, OutputOnly, OutputOnly-trans, contents, capacity, pending}
use dmlog.Context.Lock.{is_valid-WellFormed, context_lock-OutputOnly, context_unlock-OutputOnly}
use dmlog.Output.Flush.{flush-Keeps}
use dmlog.Output.Putc.{
  Logs, log, Ready, OutputOnly-Ready, Logs-refl, Logs-trans, putc-Logs, stored-Logs,
  obey_clear_not_asked,
}
use dmlog.Output.{
  newline, cstring, flush, putc, end_line, puts_loop, finish_text, puts, putsn_loop, putsn,
}

pub puts_loop-Logs :
    (xs : List ℕ) {c : Context} → Ready c → Logs c xs (puts_loop xs c).0 (puts_loop xs c).1
unfolding puts_loop
puts_loop-Logs [] r = Logs-refl r.well
puts_loop-Logs (x ∷ xs) r =
    let first = putc-Logs x r in
    let rest = puts_loop-Logs xs (OutputOnly-Ready r first.only) in
    rw first.wrote (Logs-trans first rest)

-- `done` is what a call that logs `xs` in `c` and flushes leaves: the ring holds the last bytes
-- of the log with `xs` behind it.
pub record Prints (c : Context) (xs : List ℕ) (written : Bool) (done : Context) : Type 0 where
  pub wrote : written ≡ true
  pub printed : contents done ≡ last_n (capacity c) (log c ++ xs)
  pub flushed : pending done ≡ []
  pub only : OutputOnly c done

-- A flush after logging.
pub flush-Prints :
    {c d : Context} {xs : List ℕ} {r : Bool}
    → Ready c
    → Logs c xs r d
    → Prints c xs (flush d).0 (flush d).1
flush-Prints {c} {d} {xs} ready l =
    let there = OutputOnly-Ready ready l.only in
    let f = flush-Keeps there.well there.big in
    record {
      wrote = f.0.wrote;
      printed = f.0.kept ∙ ap (λ (k : ℕ). last_n (k - 1) (log d)) l.only.same_size ∙ l.logged;
      flushed = f.1;
      only = OutputOnly-trans l.only f.0.only;
    }

Prints-locked :
    {c d : Context} {xs : List ℕ} {r : Bool}
    → WellFormed c
    → Prints (context_lock c) xs r d
    → Prints c xs r (context_unlock d)
unfolding context_lock context_unlock
Prints-locked w p = record {
  wrote = p.wrote;
  printed = p.printed;
  flushed = p.flushed;
  only =
      OutputOnly-trans (context_lock-OutputOnly w)
        (OutputOnly-trans p.only (context_unlock-OutputOnly p.only.well));
}

-- A newline is flushed at once.
putc-newline-Prints :
    {c : Context} → Ready c → Prints c (newline ∷ []) (putc c newline).0 (putc c newline).1
unfolding putc end_line
putc-newline-Prints {c} r =
    let ready = OutputOnly-Ready r (context_lock-OutputOnly r.well) in
    let stored = stored-Logs newline ready in
    rw (is_valid-WellFormed r.well, obey_clear_not_asked {c = context_lock c} ready.no_clear)
      (Prints-locked r.well (flush-Prints ready stored))

putsn_loop-Logs :
    (n : ℕ) (s : List ℕ) {c : Context}
    → Ready c
    → Logs c (take n (cstring s)) true (putsn_loop n s c)
unfolding putsn_loop
putsn_loop-Logs zero s r = Logs-refl r.well
putsn_loop-Logs (suc n) [] r = Logs-refl r.well
putsn_loop-Logs (suc n) (x ∷ s) {c} r = elim (Bool-cases (x == 0)) [
  | inl ends ↦ rw ends (Logs-refl r.well)
  | inr char ↦
      let first = putc-Logs x r in
      let rest = putsn_loop-Logs n s (OutputOnly-Ready r first.only) in
      rw (char, first.wrote) (Logs-trans first rest)
]

-- In a context that is ready, `dmlog_putsn` succeeds; the ring then holds the last bytes of the
-- log and the first `n` characters of the text behind it, as many as fit; no entry is pending;
-- and the input side is as it was.
pub putsn-Prints :
    {c : Context} (s : List ℕ) (n : ℕ)
    → Ready c
    → Prints c (take n (cstring s)) (putsn c s n).0 (putsn c s n).1
unfolding putsn
putsn-Prints s n r = rw (is_valid-WellFormed r.well) (flush-Prints r (putsn_loop-Logs n s r))

-- The last character of a text, 0 if it is empty.
abbrev last_char : List ℕ → ℕ
last_char [] = 0
last_char (x ∷ []) = x
last_char (x ∷ y ∷ ys) = last_char (y ∷ ys)

get_or-last_char : (xs : List ℕ) → get_or xs (length xs - 1) 0 ≡ last_char xs
get_or-last_char [] = refl
get_or-last_char (x ∷ []) = refl
get_or-last_char (x ∷ y ∷ ys) =
    let less : suc (suc (length ys)) - 1 ≡ suc (length ys) = omega arith in
    let less' : suc (length ys) - 1 ≡ length ys = omega arith in
    rw less (rw less' at (get_or-last_char (y ∷ ys)))

-- Logging first, then printing, is printing both.
Logs-Prints :
    {c d e : Context} {xs ys : List ℕ} {r s : Bool}
    → Logs c xs r d
    → Prints d ys s e
    → Prints c (xs ++ ys) s e
Logs-Prints {c} {d} {e} {xs} {ys} l p = record {
  wrote = p.wrote;
  printed =
      p.printed
      ∙ ap (λ (k : ℕ). last_n (k - 1) (log d ++ ys)) l.only.same_size
      ∙ sym (last_n-last_n-append (capacity c) (log d) ys)
      ∙ ap (λ (zs : List ℕ). last_n (capacity c) (zs ++ ys)) l.logged
      ∙ last_n-last_n-append (capacity c) (log c ++ xs) ys
      ∙ ap (last_n (capacity c)) (append_assoc (log c) xs ys);
  flushed = p.flushed;
  only = OutputOnly-trans l.only p.only;
}

-- A text that ends its line is flushed by its last character.
puts_loop-Prints :
    (xs : List ℕ) {c : Context}
    → Ready c
    → last_char xs ≡ newline
    → Prints c xs (puts_loop xs c).0 (puts_loop xs c).1
unfolding puts_loop
puts_loop-Prints [] r e = cc
puts_loop-Prints (x ∷ []) {c} r e =
    let p = putc-newline-Prints r in rw e (rw p.wrote (rw p.wrote at p))
puts_loop-Prints (x ∷ y ∷ ys) r e =
    let first = putc-Logs x r in
    let rest = puts_loop-Prints (y ∷ ys) (OutputOnly-Ready r first.only) e in
    rw first.wrote (Logs-Prints first rest)

ltb-length : (xs : List ℕ) → xs ≢ [] → ltb 0 (length xs) ≡ true
ltb-length [] ne = absurd (ne refl)
ltb-length (x ∷ xs) ne = ground arith

finish_text-Prints :
    (xs : List ℕ) {c : Context}
    → Ready c
    → xs ≢ []
    → let done = finish_text xs (puts_loop xs c) in Prints c xs done.0 done.1
unfolding finish_text
finish_text-Prints xs {c} r ne = elim (Bool-cases (get_or xs (length xs - 1) 0 == newline)) [
  | inl ends ↦
      let p = puts_loop-Prints xs r (sym (get_or-last_char xs) ∙ (==_iff _ newline).0 ends) in
      rw (p.wrote, ltb-length xs ne, ends) (rw p.wrote at p)
  | inr goes_on ↦
      let l = puts_loop-Logs xs r in rw (l.wrote, ltb-length xs ne, goes_on) (flush-Prints r l)
]

-- In a context that is ready, `dmlog_puts` of a text that is not empty succeeds; the ring then
-- holds the last bytes of the log and the text behind it, as many as fit; no entry is pending;
-- and the input side is as it was.
pub puts-Prints :
    {c : Context} (s : List ℕ)
    → Ready c
    → cstring s ≢ []
    → Prints c (cstring s) (puts c s).0 (puts c s).1
unfolding puts
puts-Prints {c} s r ne = rw (is_valid-WellFormed r.well) (
    Prints-locked r.well
      (finish_text-Prints (cstring s) (OutputOnly-Ready r (context_lock-OutputOnly r.well)) ne))
