-- ===== src/Delivery.antt =====
-- From src/dmlog.c on the target to tools/monitor/monitor.c on the host: what the firmware logs is
-- what the monitor prints.
use dmlog.Base.{
  ℕ, zero, suc, ◌-◌, ◌≤◌, ◌≡◌, refl, ap, sym, ◌∙◌, subst, Bool, true, false, Option, some, List, [],
  ◌∷◌, ◌++◌, inr, arith, append-nil, length, last_n, drop, last_n_short,
}
use dmlog.Cells.{held-lt}
use dmlog.Context.{Context, max_entry_size}
use dmlog.Context.Invariant.{contents, pending, output_cell, length-contents}
use dmlog.Output.{cstring}
use dmlog.Life.{input_part}
use dmlog.Life.Create.{Fresh}
use dmlog.History.{SaysAll}
use dmlog.History.Invariant.{Sound}
use dmlog.History.Log.{created-Log}
use dmlog.Gdb.Session.Packets.{Without}
use dmlog.Monitor.{Monitor, is_buffer_empty}
use dmlog.Monitor.Buffer.{Shows}
use dmlog.Monitor.Run.{print_loop}
use dmlog.Monitor.Run.Prints.{Steady, print_loop-unread}
pub mod OverGdb
pub mod Typed

-- The monitor right after it has looked at the target, as `monitor_connect` leaves it: BUSY is not its
-- own.
abbrev pub looking_at : Context → Monitor → Monitor
looking_at c m = record m {
  ring = c.ring;
  tail_offset = c.ring.tail_offset;
  owns_busy_flag = false;
}

Without-cstring : (s : List ℕ) → Without 0 (cstring s)
Without-cstring [] = tt
Without-cstring (x ∷ s) = ground (arith, Without-cstring s)

Without-append : (xs ys : List ℕ) → Without 0 xs → Without 0 ys → Without 0 (xs ++ ys)
Without-append [] ys p q = q
Without-append (x ∷ xs) ys p q = (p.0, Without-append xs ys p.1 q)

Without-drop : (n : ℕ) (xs : List ℕ) → Without 0 xs → Without 0 (drop n xs)
Without-drop zero xs p = p
Without-drop (suc n) [] p = tt
Without-drop (suc n) (x ∷ xs) p = Without-drop n xs p.1

-- After what was said, with the entry flushed, the ring holds its last bytes.
contents-said :
    {total : ℕ} {version text : List ℕ} {c d : Context}
    → Fresh total version c
    → SaysAll c text d
    → pending d ≡ []
    → contents d ≡ last_n (total - input_part total - 1) (cstring version ++ text)
contents-said {total} {version} {text} {c} {d} f said flushed =
    let (logged, sound, not_asked) = created-Log f said in
    let inside =
      held-lt d.ring.buffer_size d.ring.head_offset d.ring.tail_offset sound.well.head_in
        sound.well.tail_in in
    let short : length (contents d) ≤ total - input_part total - 1 =
      omega (arith, length-contents d, inside, sound.same_size) in
    sym (last_n_short (total - input_part total - 1) (contents d) short)
    ∙ ap (last_n (total - input_part total - 1))
        (sym (append-nil (contents d)) ∙ ap (λ xs. contents d ++ xs) (sym flushed))
    ∙ logged

module _ {M : Type 0} (read_memory : M → ℕ → ℕ → Option (List ℕ) × M)
    (write_memory : M → ℕ → List ℕ → Bool × M) (resume_briefly : M → M) (timestamp : M → List ℕ)
    (Rests : M → Type 0) where
  looking-Steady :
      {size : ℕ} {c : Context} (m : Monitor)
      → Sound size c
      → Shows read_memory Rests max_entry_size (output_cell c) c.ring
      → Steady read_memory write_memory resume_briefly timestamp Rests
          (output_cell c)
          (looking_at c m)
  looking-Steady m s shows = record {
    shows = shows;
    free = inr s.free.busy;
    not_owner = refl;
    head_in = s.well.head_in;
    tail_in = s.well.tail_in;
    small = omega (arith, s.well.sizes);
  }

  -- From `dmlog_create` to the terminal. In a context that `dmlog_create` has made, after any calls that
  -- take nothing off the log, none of whose text holds a 0, with the last entry flushed: a monitor that
  -- has just looked at the target, while BUSY is not its own, whose backend reads the ring as it lies there and goes on doing so,
  -- without timestamps and without blocking, and with fuel for every byte, prints the last bytes of the
  -- version and of all that was logged, as many as the ring can hold and in their order; it has then
  -- read the ring empty, and the target is still at rest.
  pub print_loop-said :
      {total : ℕ} {version text : List ℕ} {c d : Context} (entries turns : ℕ) (m : Monitor) (w : M)
      (out : List ℕ)
      → Fresh total version c
      → SaysAll c text d
      → pending d ≡ []
      → Without 0 text
      → Shows read_memory Rests max_entry_size (output_cell d) d.ring
      → Rests w
      → 1 ≤ turns
      → total ≤ entries
      → (m' : Monitor) × (w' : M) × (print_loop read_memory write_memory resume_briefly timestamp
            entries turns false false
            (looking_at d m)
            w
            out
          ≡ some (
            true,
            m',
            w',
            out ++ last_n (total - input_part total - 1) (cstring version ++ text),
          ))
        × (is_buffer_empty m' ≡ true)
        × Rests w'
  print_loop-said {total} {version} {text} {c} {d} entries turns m w out f said flushed clean shows
        rests some_turn fuel =
      let (logged, sound, not_asked) = created-Log f said in
      let holds = contents-said f said flushed in
      let inside =
        held-lt d.ring.buffer_size d.ring.head_offset d.ring.tail_offset sound.well.head_in
          sound.well.tail_in in
      let no_zero : Without 0 (contents d) = subst (Without 0) (sym holds) (
        Without-drop _ _ (Without-append (cstring version) text (Without-cstring version) clean)) in
      let (m', w', prints, empty, same, rests') =
        print_loop-unread read_memory write_memory resume_briefly timestamp Rests (output_cell d)
          entries turns (looking_at d m) w out some_turn (looking-Steady m sound shows) rests
          (omega (arith, inside, sound.same_size)) no_zero in
      (m', w', prints ∙ ap (λ xs. some (true, m', w', out ++ xs)) holds, empty, rests')
