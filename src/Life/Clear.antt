-- ===== src/Life/Clear.antt =====
-- `dmlog_clear` empties both rings and all line buffers.
use dmlog.Base.{
  ℕ, zero, suc, ◌+◌, ◌-◌, ◌≤◌, ◌≡◌, refl, ap, ap₂, sym, ◌∙◌, Bool, true, false, List, [], ◌∷◌, ◌++◌,
  arith, length, length-append, length-replicate, length-drop, replicate, drop, if◌then◌else◌,
  last_n, last_n_short,
}
use dmlog.Flag
use dmlog.Word.{add32, bit, has, lower}
use dmlog.Word.Bits.{has-lower_self, has-lower_other}
use dmlog.Context.{Context, context_lock, context_unlock, clear, clear_bytes, max_entry_size, zeros}
use dmlog.Context.Invariant.{WellFormed, contents, pending, input_contents, clear_asked, capacity}
use dmlog.Context.Lock.{is_valid-WellFormed, context_lock-OutputOnly, context_unlock-OutputOnly}
use dmlog.Output.{cstring, make_room, store_char, obey_clear, putc, end_line}
use dmlog.Output.Putc.{Ready, log, stored-Logs, end_line-Logs}
use dmlog.Input.Stream.{fetched, stream}

-- Nothing is logged, pending, fetched or waiting to be read.
pub record IsEmpty (c : Context) : Type 0 where
  pub no_output : contents c ≡ []
  pub no_pending : pending c ≡ []
  pub no_input : input_contents c ≡ []
  pub none_fetched : fetched c ≡ []

pub cstring-zeros : (n : ℕ) → cstring (zeros n) ≡ []
unfolding replicate
cstring-zeros zero = refl
cstring-zeros (suc n) = refl

pub length-clear_bytes : (n : ℕ) (b : List ℕ) → length b ≡ n → length (clear_bytes n b) ≡ n
length-clear_bytes n b e =
    omega (
      arith,
      length-append (replicate n 0) (drop n b),
      length-replicate {A = ℕ} n 0,
      length-drop n b,
    )

-- What `dmlog_clear` writes, whatever it does to the flags.
abbrev cleared : ℕ → Context → Context
cleared flags c = record c {
  ring = record (c.ring) {
    head_offset = 0;
    tail_offset = 0;
    buffer = c.buffer_address;
    input_head_offset = 0;
    input_tail_offset = 0;
    flags = flags;
  };
  write_entry_offset = 0;
  read_entry_offset = 0;
  input_read_entry_offset = 0;
  write_buffer = zeros max_entry_size;
  read_buffer = zeros max_entry_size;
  input_read_buffer = zeros max_entry_size;
  buffer = clear_bytes (add32 c.ring.buffer_size c.ring.input_buffer_size) c.buffer;
}

cleared-WellFormed : (flags : ℕ) {c : Context} → WellFormed c → WellFormed (cleared flags c)
cleared-WellFormed flags {c} w =
    let fits : add32 c.ring.buffer_size c.ring.input_buffer_size
        ≡ c.ring.buffer_size + c.ring.input_buffer_size =
      omega arith in
    rw fits (
      ground (
        arith,
        length-clear_bytes (c.ring.buffer_size + c.ring.input_buffer_size) c.buffer,
        length-replicate {A = ℕ} 500 0,
      ))

not_asked :
    (unlocked : Bool) (f : ℕ)
    → has (if unlocked then lower (lower f 13) Flag.busy else lower f 13) Flag.clear_buffer ≡ false
unfolding bit
not_asked true f = has-lower_other 0 (lower f 13) Flag.busy refl ∙ has-lower_self 0 f 13 refl
not_asked false f = has-lower_self 0 f 13 refl

-- In a well-formed context `dmlog_clear` leaves nothing of the output, the pending entry and the
-- input, keeps the sizes of the rings, and takes the order to clear back.
pub clear-IsEmpty :
    {c : Context}
    → WellFormed c
    → IsEmpty (clear c)
      × WellFormed (clear c)
      × ((clear c).ring.buffer_size ≡ c.ring.buffer_size)
      × (clear_asked (clear c) ≡ false)
unfolding clear context_lock context_unlock
clear-IsEmpty {c} w =
    let locked = context_lock-OutputOnly w in
    let done = cleared-WellFormed (lower (context_lock c).ring.flags 13) locked.well in
    rw (is_valid-WellFormed w) (
      record {
        no_output = refl;
        no_pending = refl;
        no_input = refl;
        none_fetched = cstring-zeros max_entry_size;
      },
      (context_unlock-OutputOnly done).well,
      refl,
      not_asked _ _,
    )

-- The context that `dmlog_putc` goes on with when there is an order to clear.
pub obeyed :
    {c : Context}
    → WellFormed c
    → 2 ≤ c.ring.buffer_size
    → clear_asked c ≡ true
    → let d = obey_clear c in
      Ready d × (log d ≡ []) × (stream d ≡ []) × (d.ring.buffer_size ≡ c.ring.buffer_size)
unfolding obey_clear bit
obeyed {c} w big asked =
    let e = clear-IsEmpty w in
    rw asked (
      record {
        well = ground (arith, e.1);
        big = omega (arith, e.2);
        no_clear = has-lower_self 0 (clear c).ring.flags Flag.clear_buffer refl;
      },
      ap₂ ◌++◌ e.0.no_output e.0.no_pending,
      ap₂ ◌++◌ e.0.none_fetched e.0.no_input,
      e.2,
    )

-- With an order to clear, `dmlog_putc` first drops all that was logged and all input: in a
-- well-formed context with room for a byte, what the ring can hold of the log is then the
-- character alone, there is no input, and the order is taken back.
pub putc_obeys_clear :
    {c : Context} (x : ℕ)
    → WellFormed c
    → 2 ≤ c.ring.buffer_size
    → clear_asked c ≡ true
    → let (written, done) = putc c x in
      (written ≡ true)
      × (last_n (capacity c) (log done) ≡ x ∷ [])
      × (stream done ≡ [])
      × (clear_asked done ≡ false)
      × WellFormed done
unfolding putc context_lock context_unlock
putc_obeys_clear {c} x w big asked =
    let locked = context_lock-OutputOnly w in
    let o = obeyed locked.well big (locked.same_clear ∙ asked) in
    let l = end_line-Logs x o.0 (stored-Logs x o.0) in
    let ended = (end_line (store_char (make_room (obey_clear (context_lock c))) x) x).1 in
    let unlocked = context_unlock-OutputOnly l.only.well in
    rw (is_valid-WellFormed w) (
      l.wrote,
      ap (λ k. last_n (k - 1) (log ended)) (sym o.3)
          ∙ l.logged
          ∙ ap (λ xs. last_n (capacity (obey_clear (context_lock c))) (xs ++ x ∷ [])) o.1
          ∙ last_n_short (capacity (obey_clear (context_lock c))) (x ∷ []) (omega (arith, o.0.big)),
      ap₂ ◌++◌ (ap₂ (λ i b. cstring (drop i b)) l.only.same_input_offset l.only.same_input_entry)
            l.only.same_input
          ∙ o.2,
      unlocked.same_clear ∙ l.only.same_clear ∙ o.0.no_clear,
      unlocked.well,
    )
