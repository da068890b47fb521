-- ===== src/Monitor/Terminal.antt =====
-- tools/monitor/monitor.c: the settings of the terminal, in `configure_input_mode` and
-- `monitor_restore_terminal`. Of `termios` and the status flags of the descriptor, what the two
-- functions write; what they ask the system to read or write it does, except where the second tests it.
use dmlog.Base.{ℕ, ◌≡◌, refl, inl, inr, Bool, true, false, not, if◌then◌else◌, Bool-cases}
use dmlog.Monitor.Answer.{Terminal, normal}

pub record Stdin : Type 0 where
  pub echo : Bool
  pub canonical : Bool
  pub nonblocking : Bool
  pub min_chars : ℕ
  pub timeout : ℕ

unfoldable pub configure_input_mode : Bool → Bool → Stdin → Stdin
configure_input_mode echo line_mode s =
    let echoing = record s { echo = echo } in
    if line_mode
    then record echoing { canonical = true; nonblocking = false }
    else record echoing { canonical = false; min_chars = 1; timeout = 0; nonblocking = true }

-- Whether `tcgetattr`, `tcsetattr` and the reading `fcntl` succeed.
unfoldable pub restore_terminal : Bool → Bool → Bool → Stdin → Stdin
restore_terminal readable writable flags_readable s =
    let set = if writable then record s { echo = true; canonical = true } else s in
    let blocking = if flags_readable then record set { nonblocking = false } else set in
    if readable then blocking else s

-- The terminal is as `configure_input_mode` was told last, which is what Monitor/Answer keeps of it.
pub record Follows (t : Terminal) (s : Stdin) : Type 0 where
  pub echoes : s.echo ≡ t.echo_on
  pub lines : s.canonical ≡ t.line_mode
  pub waits : s.nonblocking ≡ not t.line_mode

pub configure_input_mode-Follows :
    (t : Terminal) (s : Stdin) → Follows t (configure_input_mode t.echo_on t.line_mode s)
unfolding configure_input_mode
configure_input_mode-Follows t s = elim (Bool-cases t.line_mode) [
  | inl lines ↦ rw lines (record { echoes = refl; lines = refl; waits = refl })
  | inr chars ↦ rw chars (record { echoes = refl; lines = refl; waits = refl })
]

-- Where the system lets it.
pub restore_terminal-Follows : (s : Stdin) → Follows normal (restore_terminal true true true s)
unfolding restore_terminal
restore_terminal-Follows s = record { echoes = refl; lines = refl; waits = refl }
