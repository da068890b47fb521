-- ===== src/Monitor/Snapshot.antt =====
-- tools/monitor/monitor.c, the snapshot mode: `monitor_load_snapshot`, and the loop of `monitor_run`
-- that prints snapshots. The monitor reads a whole context of the target into its own memory, and
-- calls src/dmlog.c on it. `context_of_bytes` is the layout of `struct dmlog_ctx`; what lies behind the
-- bytes that were read is not looked at. The backend, the clock and the handler of the input request
-- are parameters as in Monitor/Run.
use dmlog.Base.{
  ℕ, zero, suc, ◌+◌, Bool, true, false, not, ◌&&◌, Option, none, some, List, [], ◌∷◌, ◌++◌, length,
  if◌then◌else◌,
}
use dmlog.Context.{Context, set_flags, is_valid}
use dmlog.Output.{cstring}
use dmlog.Reader.{read_next, get_ref_buffer}
use dmlog.Monitor.{Monitor, Outcome, and_then}
use dmlog.Monitor.Commands.{send_busy_command, send_not_busy_command, wait_until_not_busy}
pub mod Drain
pub mod Rounds

-- What is printed for an entry, behind the timestamp if there is one.
abbrev pub printed : List ℕ → Option (List ℕ) → List ℕ
printed stamp none = []
printed stamp (some buffer) = stamp ++ cstring buffer

-- The loop over the entries of a snapshot, on fuel: the context, and what was printed.
unfoldable pub drain : ℕ → List ℕ → Context → List ℕ → Option (Context × List ℕ)
drain zero stamp c out = none
drain (suc entries) stamp c out = elim (read_next c) [
  | none ↦ none
  | some (found, d) ↦
      let rest = drain entries stamp d (out ++ printed stamp (get_ref_buffer d)) in
      if found then rest else some (d, out)
]

module _ {M : Type 0} (read_memory : M → ℕ → ℕ → Option (List ℕ) × M)
    (write_memory : M → ℕ → List ℕ → Bool × M) (resume_briefly : M → M)
    (context_of_bytes : List ℕ → Context) where
  -- The snapshot, if there is one.
  abbrev pub Loaded : Type 0
  Loaded = Option (Option Context × Monitor × M)

  abbrev pub refused : Bool × Monitor × M → Loaded
  refused (ok, m, w) = some (none, m, w)

  -- The flags of the copy are cleared.
  abbrev pub accepted : Context → Monitor → M → Loaded
  accepted c m w =
      if is_valid (some c) then some (some (set_flags c 0), m, w) else some (none, m, w)

  -- Behind the read.
  abbrev pub with_bytes : ℕ → Bool → Monitor → Option (List ℕ) × M → Loaded
  with_bytes turns blocking m (none, w) = some (none, m, w)
  with_bytes turns blocking m (some bytes, w) =
      let given_back = send_not_busy_command read_memory write_memory resume_briefly turns m w in
      let blocked : Loaded = elim given_back [
        | none ↦ none
        | some (ok, m', w') ↦
            if ok then accepted (context_of_bytes bytes) m' w' else some (none, m', w')
      ] in
      if blocking then blocked else accepted (context_of_bytes bytes) m w

  -- `size` is `snapshot_size`, `none` where snapshots are not enabled.
  unfoldable pub load_snapshot : ℕ → Bool → Option ℕ → Monitor → M → Loaded
  load_snapshot turns blocking none m w = some (none, m, w)
  load_snapshot turns blocking (some size) m w =
      elim (if blocking
        then send_busy_command read_memory write_memory resume_briefly turns m w
        else wait_until_not_busy read_memory write_memory resume_briefly turns m w) [
          | none ↦ none
          | some (ok, m', w') ↦
              if ok
              then with_bytes turns blocking m' (read_memory w' m'.ring_address size)
              else some (none, m', w')
        ]

  module _ {H : Type 0} (timestamp : M → List ℕ) (sleep : M → M)
      (handle_input : Monitor → M → H → Option (Bool × Monitor × M × H)) where
    abbrev pub Ended : Type 0
    Ended = Option (Monitor × M × H × List ℕ)

    abbrev pub after_input :
        Option (Bool × Monitor × M × H) → List ℕ → (Monitor → M → H → List ℕ → Ended) → Ended
    after_input none out next = none
    after_input (some (ok, m, w, h)) out next = next m (sleep w) h out

    -- What follows the entries of a round; the result of the handler is not looked at.
    abbrev pub after_entries :
        Option (Context × List ℕ) → Monitor → M → H → (Monitor → M → H → List ℕ → Ended) → Ended
    after_entries none m w h next = none
    after_entries (some (c, out)) m w h next = after_input (handle_input m w h) out next

    abbrev pub after_load :
        ℕ → Bool → Loaded → H → List ℕ → (Monitor → M → H → List ℕ → Ended) → Ended
    after_load entries show_timestamps none h out next = none
    after_load entries show_timestamps (some (none, m, w)) h out next = some (m, w, h, out)
    after_load entries show_timestamps (some (some c, m, w)) h out next =
        after_entries (drain entries (if show_timestamps then timestamp w else []) c out) m w h next

    -- The loop of `monitor_run`, on fuel, with the fuel of the loop over the entries and the waits.
    unfoldable pub run_snapshot :
        ℕ → ℕ → ℕ → Bool → Bool → Option ℕ → Monitor → M → H → List ℕ → Ended
    run_snapshot zero entries turns show_timestamps blocking size m w h out = none
    run_snapshot (suc rounds) entries turns show_timestamps blocking size m w h out =
        after_load entries show_timestamps (load_snapshot turns blocking size m w) h out
          (run_snapshot rounds entries turns show_timestamps blocking size)
