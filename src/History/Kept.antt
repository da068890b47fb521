-- ===== src/History/Kept.antt =====
-- What every turn keeps, also when the target has an order to clear the log.
use dmlog.Base.{
  ℕ, zero, suc, ◌-◌, ◌≤◌, ◌≡◌, refl, sym, ◌∙◌, subst, inl, inr, Bool, List, [], ◌∷◌, ◌++◌, arith,
  length, get_or, ltb, ◌==◌, ◌&&◌, not, Bool-cases,
}
use dmlog.Context.{Context, context_lock, context_unlock, clear}
use dmlog.Context.Invariant.{WellFormed, OutputOnly, input_contents, clear_asked}
use dmlog.Context.Lock.{is_valid-WellFormed, context_lock-OutputOnly, context_unlock-OutputOnly}
use dmlog.Output.{
  newline, cstring, putc, puts_loop, puts, putsn_loop, putsn, flush, obey_clear, finish_text,
}
use dmlog.Output.Flush.{flush-Keeps}
use dmlog.Output.Putc.{Ready, stored-Logs, end_line-Logs, obey_clear_not_asked}
use dmlog.Life.Clear.{clear-IsEmpty, obeyed}
use dmlog.Input.Stream.{NoZeros, InputOnly}

-- The context is well formed, has its size, and no input of it is 0.
pub record Kept (c d : Context) : Type 0 where
  pub well : WellFormed d
  pub same_size : d.ring.buffer_size ≡ c.ring.buffer_size
  pub clean : NoZeros (input_contents c) → NoZeros (input_contents d)

pub OutputOnly-Kept : {c d : Context} → OutputOnly c d → Kept c d
OutputOnly-Kept o = record {
  well = o.well;
  same_size = o.same_size;
  clean = λ z. subst NoZeros (sym o.same_input) z;
}

pub InputOnly-Kept : {c d : Context} → InputOnly c d → Kept c d
InputOnly-Kept o = record { well = o.well; same_size = o.same_size; clean = λ z. o.clean }

pub Kept-trans : {c d e : Context} → Kept c d → Kept d e → Kept c e
Kept-trans p q = record {
  well = q.well;
  same_size = q.same_size ∙ p.same_size;
  clean = λ z. q.clean (p.clean z);
}

-- A step under the lock.
Kept-locked : {c d : Context} → WellFormed c → Kept (context_lock c) d → Kept c (context_unlock d)
Kept-locked w k =
    Kept-trans (OutputOnly-Kept (context_lock-OutputOnly w))
      (Kept-trans k (OutputOnly-Kept (context_unlock-OutputOnly k.well)))

Kept-refl : {c : Context} → WellFormed c → Kept c c
Kept-refl w = record { well = w; same_size = refl; clean = λ z. z }

pub clear-Kept : {c : Context} → WellFormed c → Kept c (clear c)
clear-Kept {c} w =
    let (empty, well, size, taken_back) = clear-IsEmpty w in
    record { well = well; same_size = size; clean = λ z. subst NoZeros (sym empty.no_input) tt }

pub second_empty : (xs ys : List ℕ) → xs ++ ys ≡ [] → ys ≡ []
second_empty [] ys e = e
second_empty (x ∷ xs) ys e = cc

-- What `dmlog_putc` goes on with after it has looked at the order to clear.
obey_clear-Kept :
    {c : Context}
    → WellFormed c
    → 2 ≤ c.ring.buffer_size
    → Ready (obey_clear c) × Kept c (obey_clear c)
obey_clear-Kept {c} w big = elim (Bool-cases (clear_asked c)) [
  | inl asked ↦
      let (ready, no_log, no_stream, size) = obeyed w big asked in
      (
        ready,
        record {
          well = ready.well;
          same_size = size;
          clean = λ z. subst NoZeros (sym (second_empty _ _ no_stream)) tt;
        },
      )
  | inr not_asked ↦
      rw (obey_clear_not_asked {c = c} not_asked)
        (record { well = w; big = big; no_clear = not_asked }, Kept-refl w)
]

pub putc-Kept : {c : Context} (x : ℕ) → WellFormed c → 2 ≤ c.ring.buffer_size → Kept c (putc c x).1
unfolding putc context_lock
putc-Kept {c} x w big =
    let (ready, kept) = obey_clear-Kept (context_lock-OutputOnly w).well big in
    rw (is_valid-WellFormed w) (
      Kept-locked w
        (Kept-trans kept (OutputOnly-Kept (end_line-Logs x ready (stored-Logs x ready)).only)))

pub flush-Kept : {c : Context} → WellFormed c → 2 ≤ c.ring.buffer_size → Kept c (flush c).1
flush-Kept w big = OutputOnly-Kept (flush-Keeps w big).0.only

puts_loop-Kept :
    (xs : List ℕ) {c : Context} → WellFormed c → 2 ≤ c.ring.buffer_size → Kept c (puts_loop xs c).1
unfolding puts_loop
puts_loop-Kept [] w big = Kept-refl w
puts_loop-Kept (x ∷ xs) {c} w big =
    let first = putc-Kept x w big in
    let rest = puts_loop-Kept xs first.well (omega (arith, first.same_size)) in
    elim (Bool-cases (putc c x).0) [
      | inl written ↦ rw written (Kept-trans first rest)
      | inr failed ↦ rw failed first
    ]

finish_text-Kept :
    (text : List ℕ) (written : Bool) {c : Context}
    → WellFormed c
    → 2 ≤ c.ring.buffer_size
    → Kept c (finish_text text (written, c)).1
unfolding finish_text
finish_text-Kept text written {c} w big =
    elim (Bool-cases
      (written && ltb 0 (length text) && not (get_or text (length text - 1) 0 == newline))) [
        | inl open_line ↦ rw open_line (flush-Kept w big)
        | inr ended ↦ rw ended (Kept-refl w)
      ]

pub puts-Kept :
    {c : Context} (s : List ℕ) → WellFormed c → 2 ≤ c.ring.buffer_size → Kept c (puts c s).1
unfolding puts context_lock
puts-Kept {c} s w big =
    let locked = context_lock-OutputOnly w in
    let first = puts_loop-Kept (cstring s) {c = context_lock c} locked.well big in
    rw (is_valid-WellFormed w) (
      Kept-locked w (
        Kept-trans first
          (finish_text-Kept (cstring s) _ first.well (omega (arith, big, first.same_size)))))

putsn_loop-Kept :
    (n : ℕ) (s : List ℕ) {c : Context}
    → WellFormed c
    → 2 ≤ c.ring.buffer_size
    → Kept c (putsn_loop n s c)
unfolding putsn_loop
putsn_loop-Kept zero s w big = Kept-refl w
putsn_loop-Kept (suc n) [] w big = Kept-refl w
putsn_loop-Kept (suc n) (x ∷ s) {c} w big =
    let first = putc-Kept x w big in
    let rest = putsn_loop-Kept n s first.well (omega (arith, first.same_size)) in
    elim (Bool-cases (x == 0)) [
      | inl ends ↦ rw ends (Kept-refl w)
      | inr char ↦ elim (Bool-cases (putc c x).0) [
        | inl written ↦ rw (char, written) (Kept-trans first rest)
        | inr failed ↦ rw (char, failed) first
      ]
    ]

pub putsn-Kept :
    {c : Context} (s : List ℕ) (n : ℕ)
    → WellFormed c
    → 2 ≤ c.ring.buffer_size
    → Kept c (putsn c s n).1
unfolding putsn
putsn-Kept {c} s n w big =
    let first = putsn_loop-Kept n s w big in
    rw (is_valid-WellFormed w)
      (Kept-trans first (flush-Kept first.well (omega (arith, first.same_size))))
