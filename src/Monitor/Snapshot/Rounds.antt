-- ===== src/Monitor/Snapshot/Rounds.antt =====
-- The rounds of the snapshot mode of `monitor_run`: what each prints of a target that does nothing.
use dmlog.Base.{
  ℕ, zero, suc, ◌+◌, ◌≤◌, ◌≡◌, refl, ap, sym, ◌∙◌, Bool, true, false, Option, some, List, [], ◌++◌,
  arith, inl, inr, Bool-cases, append-nil, append_assoc, length, if◌then◌else◌,
}
use dmlog.Flag
use dmlog.Word.{has}
use dmlog.Context.{Context, set_flags}
use dmlog.Context.Invariant.{WellFormed, contents}
use dmlog.Context.Lock.{Locked, is_valid-WellFormed}
use dmlog.Input.Stream.{NoZeros}
use dmlog.Monitor.{Monitor}
use dmlog.Monitor.Commands.{wait_until_not_busy, wait_loop}
use dmlog.Monitor.Snapshot.{load_snapshot, run_snapshot, after_load, after_entries, after_input}
use dmlog.Monitor.Snapshot.Drain.{drain-Drained, stamped, stamped-nil}

-- A text that is printed again and again.
abbrev pub repeated : ℕ → List ℕ → List ℕ
repeated zero text = []
repeated (suc n) text = text ++ repeated n text

module _ {M H : Type 0} (read_memory : M → ℕ → ℕ → Option (List ℕ) × M)
    (write_memory : M → ℕ → List ℕ → Bool × M) (resume_briefly : M → M)
    (context_of_bytes : List ℕ → Context) (timestamp : M → List ℕ) (sleep : M → M)
    (handle_input : Monitor → M → H → Option (Bool × Monitor × M × H)) where
  -- The target holds a context that nobody has locked, and neither the reads, the handler of the
  -- input request nor the sleep change anything. Its output has no 0.
  pub record Idle (size : ℕ) (m : Monitor) (w : M) (h : H) (c : Context) : Type 0 where
    pub bytes : List ℕ
    pub not_busy : has m.ring.flags Flag.busy ≡ false
    pub answers : read_memory w m.ring_address size ≡ (some bytes, w)
    pub layout : context_of_bytes bytes ≡ c
    pub well : WellFormed c
    pub unlocked : c.lock_recursion ≡ 0
    pub clean : NoZeros (contents c)
    pub outcome : Bool
    pub no_request : handle_input m w h ≡ some (outcome, m, w, h)
    pub sleeps : sleep w ≡ w

  copied-WellFormed : {c : Context} → WellFormed c → WellFormed (set_flags c 0)
  copied-WellFormed w = ground arith

  copied-Locked : (c : Context) → c.lock_recursion ≡ 0 → Locked 0 (set_flags c 0)
  unfolding has
  copied-Locked c e = record { depth = e; busy = refl }

  abbrev load : ℕ → Option ℕ → Monitor → M → Option (Option Context × Monitor × M)
  load turns size m w =
      load_snapshot read_memory write_memory resume_briefly context_of_bytes turns false size m w

  not_waiting :
      (turns : ℕ) (m : Monitor) (w : M)
      → has m.ring.flags Flag.busy ≡ false
      → wait_until_not_busy read_memory write_memory resume_briefly (suc turns) m w
        ≡ some (true, m, w)
  unfolding wait_until_not_busy wait_loop
  not_waiting turns m w e = elim (Bool-cases m.owns_busy_flag) [
    | inl owned ↦ rw owned refl
    | inr free ↦ rw (free, e) refl
  ]

  -- The copy of the context, with its flags cleared.
  load-Idle :
      (turns size : ℕ) {m : Monitor} {w : M} {h : H} {c : Context}
      → Idle size m w h c
      → load (suc turns) (some size) m w ≡ some (some (set_flags c 0), m, w)
  unfolding load_snapshot
  load-Idle turns size {m} {w} i =
      rw
        (
          load_snapshot,
          not_waiting turns m w i.not_busy,
          i.answers,
          i.layout,
          is_valid-WellFormed i.well,
        )
        refl

  module _ (entries turns size : ℕ) (show_timestamps : Bool) (m : Monitor) (w : M) (h : H)
      (c : Context) (i : Idle size m w h c) where
    abbrev run_on : ℕ → Monitor → M → H → List ℕ → Option (Monitor × M × H × List ℕ)
    run_on rounds m w h out =
        run_snapshot read_memory write_memory resume_briefly context_of_bytes timestamp sleep
          handle_input rounds (suc entries) (suc turns) show_timestamps false (some size) m w h out

    abbrev Next : Type 0
    Next = Monitor → M → H → List ℕ → Option (Monitor × M × H × List ℕ)

    abbrev loaded :
        Option (Option Context × Monitor × M)
        → H
        → List ℕ
        → Next
        → Option (Monitor × M × H × List ℕ)
    loaded =
        after_load read_memory write_memory resume_briefly context_of_bytes timestamp sleep
          handle_input (suc entries) show_timestamps

    abbrev finished :
        Option (Context × List ℕ) → Monitor → M → H → Next → Option (Monitor × M × H × List ℕ)
    finished =
        after_entries read_memory write_memory resume_briefly context_of_bytes timestamp sleep
          handle_input

    abbrev answered :
        Option (Bool × Monitor × M × H) → List ℕ → Next → Option (Monitor × M × H × List ℕ)
    answered =
        after_input read_memory write_memory resume_briefly context_of_bytes timestamp sleep
          handle_input

    abbrev rounds_from : ℕ → List ℕ → Option (Monitor × M × H × List ℕ)
    rounds_from rounds out = run_on rounds m w h out

    abbrev stamp : List ℕ
    stamp = if show_timestamps then timestamp w else []

    round :
        (rounds : ℕ) (out : List ℕ)
        → length (contents c) ≤ entries
        → rounds_from (suc rounds) out
          ≡ rounds_from rounds (out ++ stamped entries stamp (contents c))
    unfolding run_snapshot
    round rounds out enough =
        let drained =
          drain-Drained entries stamp out (contents c) {c = set_flags c 0}
            (copied-WellFormed i.well) (copied-Locked c i.unlocked) refl i.clean enough in
        ap (λ l. loaded l h out (run_on rounds)) (load-Idle turns size i)
        ∙ ap (λ r. finished r m w h (run_on rounds)) drained.returned
        ∙ ap (λ r. answered r (out ++ stamped entries stamp (contents c)) (run_on rounds))
            i.no_request
        ∙ ap (λ v. run_on rounds m v h (out ++ stamped entries stamp (contents c))) i.sleeps

    -- On a target that does nothing, without blocking, with fuel for an entry for each byte of the
    -- ring: every round prints all that is in the ring again, the entries in their order, each behind
    -- the timestamp, and changes nothing, so that after any number of rounds the monitor goes on as
    -- before with the ring printed that many times. Without timestamps that is its contents.
    pub run_snapshot-repeated :
        (rounds more : ℕ) (out : List ℕ)
        → length (contents c) ≤ entries
        → (rounds_from (rounds + more) out
            ≡ rounds_from more (out ++ repeated rounds (stamped entries stamp (contents c))))
          × (stamped entries [] (contents c) ≡ contents c)
    run_snapshot-repeated rounds more out enough =
        (go rounds out, stamped-nil entries (contents c) enough)
      where
        text : List ℕ
        text = stamped entries stamp (contents c)

        go :
            (rounds : ℕ) (out : List ℕ)
            → rounds_from (rounds + more) out ≡ rounds_from more (out ++ repeated rounds text)
        go zero out =
            ap (λ k. rounds_from k out) (omega arith) ∙ ap (rounds_from more) (sym (append-nil out))
        go (suc rounds) out =
            ap (λ k. rounds_from k out) (omega arith)
            ∙ round (rounds + more) out enough
            ∙ go rounds (out ++ text)
            ∙ ap (rounds_from more) (append_assoc out text (repeated rounds text))
