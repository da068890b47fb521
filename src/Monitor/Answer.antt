-- ===== src/Monitor/Answer.antt =====
-- tools/monitor/monitor.c, `monitor_handle_input_request`: the input that the target asks for.
-- The files of the host are a parameter: `fgets` gives the line that it read with what it leaves of
-- the file, `none` for NULL; `feof` and `ferror` are those of the C library. The terminal is its last
-- setting. The messages are left out.
use dmlog.Base.{
  ℕ, zero, suc, Bool, true, false, not, ◌||◌, ◌&&◌, Option, none, some, List, length, ◌==◌,
  if◌then◌else◌,
}
use dmlog.Flag
use dmlog.Word.{has, lower}
use dmlog.Output.{cstring}
use dmlog.Context.{Ring}
use dmlog.Monitor.{Monitor, flags_offset}
use dmlog.Monitor.Commands.{write_word}
use dmlog.Monitor.Send.{send_input}
pub mod Restored

-- What `configure_input_mode` was given last.
pub record Terminal : Type 0 where
  pub echo_on : Bool
  pub line_mode : Bool

-- Where the input comes from.
pub record Source (F : Type 0) : Type 0 where
  pub input_file : Option F
  pub init_script_mode : Bool
  pub stdin : F
  pub terminal : Terminal

abbrev pub normal : Terminal
normal = record { echo_on = true; line_mode = true }

abbrev pub restored : {F : Type 0} → Source F → Source F
restored s = record s { terminal = normal }

abbrev pub without_file : {F : Type 0} → Source F → Source F
without_file s = record s { input_file = none }

module _ {F : Type 0} (fgets : F → Option (List ℕ) × F) (feof ferror : F → Bool) where
  -- A line, or `none` where there is no more input; on fuel, for the source may be read again.
  abbrev pub Line : Type 0
  Line = Option (Option (List ℕ) × Source F)

  -- A turn with a file, and what is left of the file.
  abbrev pub from_file : Source F → F → Option (List ℕ) × F → Line → Line
  from_file s f (some text, f') again = some (some text, record s { input_file = some f' })
  from_file s f (none, f') again =
      if feof f' && s.init_script_mode then again else some (none, restored (without_file s))

  abbrev pub from_stdin : Bool → Source F → Option (List ℕ) × F → Line → Line
  from_stdin line_mode s (some text, f') again = some (some text, record s { stdin = f' })
  from_stdin line_mode s (none, f') again =
      if line_mode && (ferror f' || feof f')
      then some (none, restored (record s { stdin = f' }))
      else again

  unfoldable pub read_line : ℕ → Bool → Source F → Line
  read_line zero line_mode s = none
  read_line (suc turns) line_mode s = elim s.input_file [
    | none ↦
        let (got, f') = fgets s.stdin in
        from_stdin line_mode s (got, f') (read_line turns line_mode (record s { stdin = f' }))
    | some f ↦ from_file s f (fgets f) (read_line turns line_mode (without_file s))
  ]

  module _ {M : Type 0} (read_memory : M → ℕ → ℕ → Option (List ℕ) × M)
      (write_memory : M → ℕ → List ℕ → Bool × M) (resume_briefly : M → M) where
    abbrev pub Answered : Type 0
    Answered = Bool × Monitor × M × Source F

    -- A file that is not an init script ends the monitor with its last line.
    abbrev pub goes_on : Bool → Option F → Bool
    goes_on init_script none = true
    goes_on init_script (some f) = init_script || not (feof f)

    -- The request is taken back, without a wait.
    abbrev pub cleared : Bool × Monitor × M → Source F → Answered
    cleared (false, m, w) s = (false, m, w, restored s)
    cleared (true, m, w) s =
        let flags = lower m.ring.flags Flag.input_requested in
        let (written, w') =
          write_word read_memory write_memory resume_briefly m w flags_offset flags in
        if written
        then (
          goes_on s.init_script_mode s.input_file,
          record m { ring = record (m.ring) { flags = flags } },
          w',
          s,
        )
        else (false, m, w', restored s)

    abbrev pub answer_line : Monitor → M → Line → Option Answered
    answer_line m w none = none
    answer_line m w (some (none, s)) = some (false, m, w, s)
    answer_line m w (some (some text, s)) =
        some
          (cleared (send_input read_memory write_memory resume_briefly (some (cstring text)) m w) s)

    unfoldable pub handle_input_request : ℕ → Monitor → M → Source F → Option Answered
    handle_input_request turns m w s =
        let echo_on = not (has m.ring.flags Flag.input_echo_off) in
        let line_mode = has m.ring.flags Flag.input_line_mode in
        let answered = answer_line m w (
          read_line turns line_mode
            (record s { terminal = record { echo_on = echo_on; line_mode = line_mode } })) in
        if has m.ring.flags Flag.input_requested then answered else some (false, m, w, s)
