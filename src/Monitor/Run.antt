-- ===== src/Monitor/Run.antt =====
-- tools/monitor/monitor.c, `monitor_run`: the loops of the monitor in live mode.
-- Parameters: the backend, the files of the host, the clock, which gives the text of a timestamp, and
-- the handlers of the requests, which Monitor/Answer and Monitor/Files define. What is printed is a
-- list of bytes. The sleeps are the target's, and the trace output is left out.
use dmlog.Base.{
  ℕ, zero, suc, ◌+◌, Bool, true, false, not, ◌||◌, ◌&&◌, Option, none, some, List, [], ◌∷◌, ◌++◌,
  length, ◌==◌, if◌then◌else◌,
}
use dmlog.Flag
use dmlog.Word.{has}
use dmlog.Output.{cstring}
use dmlog.Context.{Ring}
use dmlog.Monitor.{Monitor, is_buffer_empty}
use dmlog.Monitor.Commands.{synchronize, send_clear_command, update_entry, wait_for_new_data}
pub mod Prints

module _ {M : Type 0} (read_memory : M → ℕ → ℕ → Option (List ℕ) × M)
    (write_memory : M → ℕ → List ℕ → Bool × M) (resume_briefly : M → M)
    (timestamp : M → List ℕ) where
  -- Whether the monitor goes on, what it keeps, the target and what was printed.
  abbrev pub Printed : Type 0
  Printed = Option (Bool × Monitor × M × List ℕ)

  -- The entry is a C string. One that fills its buffer is ended by `owns_busy_flag`, which lies behind
  -- it, where that is false: where it is true, `printf` goes on with what lies behind, which is not
  -- modelled.
  abbrev pub shown : Bool → Monitor → M → List ℕ
  shown show_timestamps m w =
      let text = cstring m.entry_buffer in
      if length text == 0 then [] else (if show_timestamps then timestamp w ++ text else text)

  -- After an entry that could not be read.
  abbrev pub recovered : ℕ → Bool × Monitor × M → Option (Bool × Monitor × M)
  recovered turns (true, m, w) = some (true, m, w)
  recovered turns (false, m, w) =
      let (synchronized, m', w') = synchronize read_memory write_memory resume_briefly m w in
      let cleared = send_clear_command read_memory write_memory resume_briefly turns m' w' in
      if synchronized then some (true, m', w') else cleared

  abbrev pub recover : ℕ → Option (Bool × Monitor × M) → Option (Bool × Monitor × M)
  recover turns none = none
  recover turns (some r) = recovered turns r

  -- Printing goes on with the next entry, unless the target could not be told to clear the ring.
  abbrev pub print_and :
      Bool → List ℕ → Option (Bool × Monitor × M) → (Monitor → M → List ℕ → Printed) → Printed
  print_and show_timestamps out none next = none
  print_and show_timestamps out (some (false, m, w)) next = some (false, m, w, out)
  print_and show_timestamps out (some (true, m, w)) next =
      next m w (out ++ shown show_timestamps m w)

  -- The loop over the entries, on fuel, each of whose waits is on fuel, too.
  unfoldable pub print_loop : ℕ → ℕ → Bool → Bool → Monitor → M → List ℕ → Printed
  print_loop zero turns show_timestamps blocking m w out = none
  print_loop (suc entries) turns show_timestamps blocking m w out =
      let rest =
        print_and show_timestamps out
          (recover turns (update_entry read_memory write_memory resume_briefly turns blocking m w))
          (print_loop entries turns show_timestamps blocking) in
      if is_buffer_empty m then some (true, m, w, out) else rest

  -- The handlers keep what they need of the host in `H`.
  module _ {H : Type 0}
      (handle_input handle_send handle_receive : Monitor
        → M
        → H
        → Option (Bool × Monitor × M × H)) where
    -- What is left when the monitor ends.
    abbrev pub Ended : Type 0
    Ended = Option (Monitor × M × H × List ℕ)

    -- A handler runs where its flag is set, and ends the monitor where it fails.
    abbrev pub handled :
        Option (Bool × Monitor × M × H) → List ℕ → (Monitor → M → H → Ended) → Ended
    handled none out next = none
    handled (some (false, m, w, h)) out next = some (m, w, h, out)
    handled (some (true, m, w, h)) out next = next m w h

    abbrev pub handle :
        (Monitor → M → H → Option (Bool × Monitor × M × H))
        → ℕ
        → Monitor
        → M
        → H
        → List ℕ
        → (Monitor → M → H → Ended)
        → Ended
    handle handler flag m w h out next =
        let asked = handled (handler m w h) out next in
        let unasked = next m w h in if has m.ring.flags flag then asked else unasked

    -- What follows the entries.
    abbrev pub requests : Monitor → M → H → List ℕ → (Monitor → M → H → Ended) → Ended
    requests m w h out next = handle handle_input Flag.input_requested m w h out (λ m w h.
        handle handle_send Flag.file_send_req m w h out (λ m w h.
          handle handle_receive Flag.file_recv_req m w h out (λ m w h.
            let rest = next m w h in
            if has m.ring.flags Flag.exit_requested then some (m, w, h, out) else rest)))

    abbrev pub after_entries : Printed → H → (Monitor → M → H → List ℕ → Ended) → Ended
    after_entries none h next = none
    after_entries (some (false, m, w, out)) h next = some (m, w, h, out)
    after_entries (some (true, m, w, out)) h next = requests m w h out (λ m w h. next m w h out)

    abbrev pub after_wait : Option (Bool × Monitor × M) → H → List ℕ → (Monitor → M → Ended) → Ended
    after_wait none h out next = none
    after_wait (some (false, m, w)) h out next = some (m, w, h, out)
    after_wait (some (true, m, w)) h out next = next m w

    -- The outer loop, on fuel, with the fuel of the inner loops.
    unfoldable pub run_live : ℕ → ℕ → ℕ → Bool → Bool → Monitor → M → H → List ℕ → Ended
    run_live zero entries turns show_timestamps blocking m w h out = none
    run_live (suc rounds) entries turns show_timestamps blocking m w h out =
        after_wait (wait_for_new_data read_memory write_memory resume_briefly turns m w) h out
          (λ m w.
            after_entries (print_loop entries turns show_timestamps blocking m w out) h
              (λ m w h out. run_live rounds entries turns show_timestamps blocking m w h out))
