-- ===== src/History/Invariant.antt =====
-- What holds of a context after every sequence of turns.
use dmlog.Base.{ℕ, ◌≤◌, ◌≡◌, refl, sym, ◌∙◌, subst, Bool, some, List, [], ◌∷◌, ◌++◌, arith}
use dmlog.Flag
use dmlog.Word.{raise, bit}
use dmlog.Word.Bits.{has-raise_other}
use dmlog.Context.{Context, set_flags, context_lock, context_unlock, exit_monitor}
use dmlog.Context.Invariant.{WellFormed, input_contents}
use dmlog.Context.Lock.{Locked, is_valid-WellFormed}
use dmlog.Output.Locks.{
  putc-Balanced, puts-Balanced, putsn-Balanced, flush-Balanced, clear-Balanced,
}
use dmlog.Reader.{read_next}
use dmlog.Reader.ReadNext.{read_next-Reads}
use dmlog.Reader.Gets.{gets-unread}
use dmlog.Reader.Locks.{Locked-Unblocked, read_next-Balanced, gets-Balanced, returned_context}
use dmlog.Input.{input_request}
use dmlog.Input.Stream.{NoZeros}
use dmlog.Input.Getc.{input_getc-Gives}
use dmlog.Input.Gets.{input_gets-Lines}
use dmlog.Input.Locks.{input-Locked}
use dmlog.History.Kept.{
  Kept, OutputOnly-Kept, InputOnly-Kept, putc-Kept, puts-Kept, putsn-Kept, flush-Kept, clear-Kept,
}
use dmlog.History.{Says, Turn, Reach, Types, typed}

-- A context of `size` bytes for the output that is well formed, with room for a byte and the
-- lock free, in whose input there is no 0.
pub record Sound (size : ℕ) (c : Context) : Type 0 where
  pub well : WellFormed c
  pub big : 2 ≤ c.ring.buffer_size
  pub same_size : c.ring.buffer_size ≡ size
  pub clean : NoZeros (input_contents c)
  pub free : Locked 0 c

Kept-Sound : {size : ℕ} {c d : Context} → Sound size c → Kept c d → Locked 0 d → Sound size d
Kept-Sound s k l = record {
  well = k.well;
  big = omega (arith, s.big, k.same_size);
  same_size = k.same_size ∙ s.same_size;
  clean = k.clean s.clean;
  free = l;
}

-- Other flags do not matter.
flagged-Kept : {c : Context} (flags : ℕ) → WellFormed c → Kept c (set_flags c flags)
flagged-Kept flags w = record { well = ground arith; same_size = refl; clean = λ z. z }

flagged-locked-Kept :
    {c : Context} (flags : ℕ)
    → WellFormed c
    → Kept c (context_unlock (set_flags (context_lock c) flags))
unfolding context_lock context_unlock
flagged-locked-Kept flags w = record { well = ground arith; same_size = refl; clean = λ z. z }

input_request-Kept : {c : Context} (flags : ℕ) → WellFormed c → Kept c (input_request c flags)
unfolding input_request
input_request-Kept flags w = rw (is_valid-WellFormed w) (flagged-locked-Kept _ w)

exit_monitor-Kept : {c : Context} → WellFormed c → Kept c (exit_monitor c)
unfolding exit_monitor
exit_monitor-Kept w = rw (is_valid-WellFormed w) (flagged-locked-Kept _ w)

raised-free :
    {c : Context} (mask : ℕ)
    → bit 1 mask ≡ 0
    → Locked 0 c
    → Locked 0 (set_flags c (raise c.ring.flags mask))
raised-free {c} mask other l = record {
  depth = l.depth;
  busy = has-raise_other 1 c.ring.flags mask other ∙ l.busy;
}

NoZeros-append : (xs ys : List ℕ) → NoZeros xs → NoZeros ys → NoZeros (xs ++ ys)
NoZeros-append [] ys p q = q
NoZeros-append (x ∷ xs) ys p q = (p.0, NoZeros-append xs ys p.1 q)

pub typed-Kept :
    {c : Context} {memory text : List ℕ} {head : ℕ}
    → WellFormed c
    → Types c memory head text
    → Kept c (typed c memory head)
typed-Kept {c} {memory} {text} w t = record {
  well = ground (arith, t.cells, t.head_in);
  same_size = refl;
  clean = λ z. subst NoZeros (sym t.grown) (NoZeros-append (input_contents c) text z t.clean);
}

says-Kept : {size : ℕ} {c d : Context} {text : List ℕ} → Sound size c → Says text c d → Kept c d
says-Kept s (Says.putc x) = putc-Kept x s.well s.big
says-Kept s (Says.puts t) = puts-Kept t s.well s.big
says-Kept s (Says.putsn t n) = putsn-Kept t n s.well s.big
says-Kept s Says.flush = flush-Kept s.well s.big
says-Kept s (Says.gets n some_room small) =
    let (found, stored, size, rest, same, pending, only) = gets-unread n s.well some_room small in
    OutputOnly-Kept only
says-Kept s Says.input_getc = InputOnly-Kept (input_getc-Gives s.well s.clean).only
says-Kept s (Says.input_gets n some_room small) =
    let (found, stored, size, rest, only) = input_gets-Lines n s.well s.clean some_room small in
    InputOnly-Kept only
says-Kept s (Says.input_request flags) = input_request-Kept flags s.well
says-Kept s Says.exit_monitor = exit_monitor-Kept s.well
says-Kept s (Says.types t) = typed-Kept s.well t

says-free : {c d : Context} {text : List ℕ} → Locked 0 c → Says text c d → Locked 0 d
unfolding bit
says-free l (Says.putc x) = putc-Balanced x 0 _ (omega arith) l
says-free l (Says.puts t) = puts-Balanced t 0 _ (omega arith) l
says-free l (Says.putsn t n) = putsn-Balanced t n 0 _ (omega arith) l
says-free l Says.flush = flush-Balanced 0 _ (omega arith) l
says-free l (Says.gets n some_room small) = gets-Balanced n 0 _ (omega arith) l
says-free l Says.input_getc = (input-Locked 0 _ 0 0 (omega arith) l).0
says-free l (Says.input_gets n some_room small) = (input-Locked 0 _ n 0 (omega arith) l).1
says-free l (Says.input_request flags) = (input-Locked 0 _ 0 flags (omega arith) l).2
says-free l Says.exit_monitor = (input-Locked 0 _ 0 0 (omega arith) l).3
says-free l (Says.types t) = record {
  depth = l.depth;
  busy = has-raise_other 1 _ Flag.input_available refl ∙ l.busy;
}

-- What the entry is read from is the output side.
read-Kept :
    {c d : Context} {found : Bool}
    → WellFormed c
    → Locked 0 c
    → read_next c ≡ some (found, d)
    → Kept c d
read-Kept w l e =
    let (found', d', returned, r) = read_next-Reads w (Locked-Unblocked l) in
    subst (Kept _) (returned_context (sym returned ∙ e)) (OutputOnly-Kept r.takes.only)

pub says-Sound :
    {size : ℕ} {c d : Context} {text : List ℕ} → Sound size c → Says text c d → Sound size d
says-Sound s t = Kept-Sound s (says-Kept s t) (says-free s.free t)

turn-Sound : {size : ℕ} {c d : Context} → Sound size c → Turn c d → Sound size d
unfolding bit
turn-Sound s (Turn.says t) = says-Sound s t
turn-Sound s (Turn.read_next e) =
    Kept-Sound s (read-Kept s.well s.free e) (read_next-Balanced 0 _ _ _ (omega arith) s.free e)
turn-Sound s Turn.clear = Kept-Sound s (clear-Kept s.well) (clear-Balanced 0 _ (omega arith) s.free)
turn-Sound s Turn.asks_to_clear =
    Kept-Sound s (flagged-Kept _ s.well) (raised-free Flag.clear_buffer refl s.free)

-- From a context that is well formed, with room for a byte, the lock free and no 0 in its input,
-- every sequence of turns leads to such a context with the same size for the output: calls of
-- `dmlog_putc`, `dmlog_puts`, `dmlog_putsn`, `dmlog_flush`, `dmlog_read_next`, `dmlog_gets`,
-- `dmlog_clear`, `dmlog_input_getc`, `dmlog_input_gets`, `dmlog_input_request` and
-- `dmlog_exit_monitor`, orders of the host to clear the log, and input that the host writes.
pub Reach-Sound : {size : ℕ} {c d : Context} → Sound size c → Reach c d → Sound size d
Reach-Sound s Reach.here = s
Reach-Sound s (Reach.next r t) = turn-Sound (Reach-Sound s r) t
