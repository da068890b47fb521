-- ===== src/History/Log.antt =====
-- What is in the log after a sequence of turns that take nothing off it.
use dmlog.Base.{
  ℕ, ◌-◌, ◌≡◌, refl, ap, ap₂, sym, ◌∙◌, subst, Bool, false, List, [], ◌∷◌, ◌++◌, append-nil,
  append_assoc, last_n, last_n-last_n-append, ◌==◌,
}
use dmlog.Flag
use dmlog.Word.{bit, has}
use dmlog.Word.Bits.{has-raise_other, has-bit}
use dmlog.Cells.{window_agree}
use dmlog.Context.{Context, context_lock, context_unlock, exit_monitor}
use dmlog.Context.Invariant.{WellFormed, contents, pending, capacity, clear_asked, used}
use dmlog.Context.Lock.{is_valid-WellFormed, context_lock-OutputOnly, context_unlock-OutputOnly}
use dmlog.Output.{cstring, puts, puts_loop, finish_text}
use dmlog.Output.Putc.{Ready, Logs, log, putc-Logs, flush-Logs}
use dmlog.Output.Strings.{Prints, puts-Prints, putsn-Prints}
use dmlog.Reader.Gets.{gets-unread}
use dmlog.Input.{input_request}
use dmlog.Input.Stream.{InputOnly, NoZeros}
use dmlog.Input.Getc.{input_getc-Gives}
use dmlog.Input.Gets.{input_gets-Lines}
use dmlog.Input.Request.{input_request-bits, exit_monitor-bits}
use dmlog.Life.{input_part}
use dmlog.Life.Create.{Fresh}
use dmlog.History.Kept.{second_empty}
use dmlog.History.Invariant.{Sound, says-Sound}
use dmlog.History.{Says, SaysAll, Types, typed}

-- The log is what it was and `text` behind it, as far as the ring can hold it.
pub record Adds (c : Context) (text : List ℕ) (d : Context) : Type 0 where
  pub logged : last_n (capacity c) (log d) ≡ last_n (capacity c) (log c ++ text)
  pub same_clear : clear_asked d ≡ clear_asked c

Logs-Adds : {c d : Context} {text : List ℕ} {written : Bool} → Logs c text written d → Adds c text d
Logs-Adds l = record { logged = l.logged; same_clear = l.only.same_clear }

Prints-Adds :
    {c d : Context} {text : List ℕ} {written : Bool} → Prints c text written d → Adds c text d
Prints-Adds {c} {d} {text} p = record {
  logged =
      ap (last_n (capacity c)) (ap₂ ◌++◌ p.printed p.flushed)
      ∙ last_n-last_n-append (capacity c) (log c ++ text) []
      ∙ ap (last_n (capacity c)) (append-nil (log c ++ text));
  same_clear = p.only.same_clear;
}

-- Neither the ring nor the entry has changed.
Same-Adds :
    {c d : Context}
    → contents d ≡ contents c
    → pending d ≡ pending c
    → clear_asked d ≡ clear_asked c
    → Adds c [] d
Same-Adds {c} e f g = record {
  logged = ap (last_n (capacity c)) (ap₂ ◌++◌ e f ∙ sym (append-nil (log c)));
  same_clear = g;
}

InputOnly-Adds : {c d : Context} → InputOnly c d → Adds c [] d
InputOnly-Adds o = Same-Adds o.same_output o.same_pending o.same_clear

-- Only the lock is taken and given back for an empty text.
locked-Adds : {c : Context} → WellFormed c → Adds c [] (context_unlock (context_lock c))
unfolding context_lock context_unlock
locked-Adds w =
    let locked = context_lock-OutputOnly w in
    Same-Adds refl refl ((context_unlock-OutputOnly locked.well).same_clear ∙ locked.same_clear)

puts_empty :
    {c : Context} (s : List ℕ)
    → WellFormed c
    → cstring s ≡ []
    → (puts c s).1 ≡ context_unlock (context_lock c)
unfolding puts puts_loop finish_text
puts_empty s w e = rw (is_valid-WellFormed w, e) refl

puts-Adds :
    {c : Context} (s text : List ℕ) → Ready c → cstring s ≡ text → Adds c (cstring s) (puts c s).1
puts-Adds {c} s [] r e =
    subst (λ d. Adds c (cstring s) d) (sym (puts_empty s r.well e))
      (subst (λ t. Adds c t (context_unlock (context_lock c))) (sym e) (locked-Adds r.well))
puts-Adds s (x ∷ text) r e = Prints-Adds (puts-Prints s r (λ f. cc))

-- A flag by its bit.
bit_same : (f g : ℕ) → bit 0 f ≡ bit 0 g → has f Flag.clear_buffer ≡ has g Flag.clear_buffer
bit_same f g e = has-bit 0 f ∙ ap (λ (b : ℕ). b == 1) e ∙ sym (has-bit 0 g)

request_output :
    {c : Context} (flags : ℕ)
    → WellFormed c
    → let d = input_request c flags in (contents d ≡ contents c) × (pending d ≡ pending c)
unfolding input_request context_lock context_unlock
request_output flags w = rw (is_valid-WellFormed w) (refl, refl)

exit_output :
    {c : Context}
    → WellFormed c
    → let d = exit_monitor c in (contents d ≡ contents c) × (pending d ≡ pending c)
unfolding exit_monitor context_lock context_unlock
exit_output w = rw (is_valid-WellFormed w) (refl, refl)

typed-Adds :
    {c : Context} {memory text : List ℕ} {head : ℕ}
    → WellFormed c
    → Types c memory head text
    → Adds c [] (typed c memory head)
unfolding bit
typed-Adds {c} w t =
    Same-Adds (window_agree c.ring.buffer_size _ _ t.output c.ring.tail_offset (used c) w.tail_in)
      refl (has-raise_other 0 c.ring.flags Flag.input_available refl)

says-Adds :
    {size : ℕ} {c d : Context} {text : List ℕ}
    → Sound size c
    → clear_asked c ≡ false
    → Says text c d
    → Adds c text d
says-Adds {c} {d} s not_asked t = by_turn t
  where
    ready : Ready c
    ready = record { well = s.well; big = s.big; no_clear = not_asked }

    by_turn : {e : Context} {text : List ℕ} → Says text c e → Adds c text e
    by_turn (Says.putc x) = Logs-Adds (putc-Logs x ready)
    by_turn (Says.puts t) = puts-Adds t (cstring t) ready refl
    by_turn (Says.putsn t n) = Prints-Adds (putsn-Prints t n ready)
    by_turn Says.flush = Logs-Adds (flush-Logs ready)
    by_turn (Says.gets n some_room small) =
        let (found, stored, size, rest, same, entry, only) = gets-unread n s.well some_room small in
        Same-Adds same entry only.same_clear
    by_turn Says.input_getc = InputOnly-Adds (input_getc-Gives s.well s.clean).only
    by_turn (Says.input_gets n some_room small) =
        let (found, stored, size, rest, only) = input_gets-Lines n s.well s.clean some_room small in
        InputOnly-Adds only
    by_turn (Says.input_request flags) =
        let (same, entry) = request_output flags s.well in
        Same-Adds same entry (bit_same _ _ (input_request-bits flags s.well s.free).4)
    by_turn Says.exit_monitor =
        let (same, entry) = exit_output s.well in
        Same-Adds same entry (bit_same _ _ (exit_monitor-bits s.well s.free).1)
    by_turn (Says.types t) = typed-Adds s.well t

SaysAll-Log :
    {size : ℕ} {c d : Context} {text : List ℕ}
    → Sound size c
    → clear_asked c ≡ false
    → SaysAll c text d
    → (last_n (size - 1) (log d) ≡ last_n (size - 1) (log c ++ text))
      × Sound size d
      × (clear_asked d ≡ false)
SaysAll-Log {size} {c} s f SaysAll.none_yet =
    (ap (last_n (size - 1)) (sym (append-nil (log c))), s, f)
SaysAll-Log {size} {c} s f (SaysAll.more {c = m} {d = d} {before = before} {text = text} p t) =
    let (so_far, sound, not_asked) = SaysAll-Log s f p in
    let added = says-Adds sound not_asked t in
    (
      ap (λ (k : ℕ). last_n (k - 1) (log d)) (sym sound.same_size)
          ∙ added.logged
          ∙ ap (λ (k : ℕ). last_n (k - 1) (log m ++ text)) sound.same_size
          ∙ sym (last_n-last_n-append (size - 1) (log m) text)
          ∙ ap (λ (xs : List ℕ). last_n (size - 1) (xs ++ text)) so_far
          ∙ last_n-last_n-append (size - 1) (log c ++ before) text
          ∙ ap (last_n (size - 1)) (append_assoc (log c) before text),
      says-Sound sound t,
      added.same_clear ∙ not_asked,
    )

-- What `dmlog_create` makes is a context to start from.
pub Fresh-Sound :
    {total : ℕ} {version : List ℕ} {c : Context}
    → Fresh total version c
    → Sound (total - input_part total) c
Fresh-Sound f = record {
  well = f.ready.well;
  big = f.ready.big;
  same_size = f.share;
  clean = subst NoZeros (sym (second_empty _ _ f.no_input)) tt;
  free = f.free;
}

-- In a context that `dmlog_create` has made, after any number of calls of `dmlog_putc`,
-- `dmlog_puts`, `dmlog_putsn`, `dmlog_flush`, `dmlog_gets`, `dmlog_input_getc`,
-- `dmlog_input_gets`, `dmlog_input_request` and `dmlog_exit_monitor`, in any order and with input of
-- the host between them: the ring and the pending entry behind it hold the last bytes of the version
-- and of all that was logged since, in its order and as many as the ring can hold; and the context
-- is still well formed, with the lock free and no order to clear.
pub created-Log :
    {total : ℕ} {version text : List ℕ} {c d : Context}
    → Fresh total version c
    → SaysAll c text d
    → let size = total - input_part total in
      (last_n (size - 1) (log d) ≡ last_n (size - 1) (cstring version ++ text))
      × Sound size d
      × (clear_asked d ≡ false)
created-Log {total} {version} {text} {c} f said =
    let size = total - input_part total in
    let (logged, sound, not_asked) = SaysAll-Log (Fresh-Sound f) f.ready.no_clear said in
    (
      logged
          ∙ ap (λ (xs : List ℕ). last_n (size - 1) (xs ++ text))
              (ap₂ ◌++◌ f.holds f.no_pending ∙ append-nil (last_n (size - 1) (cstring version)))
          ∙ last_n-last_n-append (size - 1) (cstring version) text,
      sound,
      not_asked,
    )
