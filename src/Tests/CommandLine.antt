-- ===== src/Tests/CommandLine.antt =====
-- Command lines of the monitor.
use dmlog.Base.{
  ℕ, suc, ◌-◌, ◌≡◌, refl, true, false, Bool, Option, none, some, List, [], ◌∷◌, arith,
  if◌then◌else◌, ◌==◌,
}
use dmlog.Monitor.Connect.{Session, monitor_connect, monitor_disconnect, set_input}
use dmlog.Monitor.Connect.Released.{Opens, main-Disconnected}
use dmlog.Backend.{Interface, Address, BackendType, codes}
use dmlog.CommandLine.{parse, initial, TraceLevel, main, atoi}
use dmlog.CommandLine.Options.{Wish, Input, options, granted}
use dmlog.CommandLine.Main.{options-parse}
use dmlog.CommandLine.Order.{gdb_at, gdb-port}

abbrev wish : Wish
wish = record {
  type = BackendType.gdb;
  host = codes "10.0.0.7";
  port = 4444;
  address = 0x20000100;
  trace_level = TraceLevel.warn;
  show_timestamps = true;
  blocking_mode = false;
  snapshot_mode = true;
  input = Input.script_at (codes "setup.txt");
}

options-parse_example : parse (options wish []) initial ≡ parse [] (granted wish)
options-parse_example = options-parse wish [] (omega arith) (omega arith)

-- The world is the number of connections, and an open connection is all that is known of one.
abbrev connect_always : Address → ℕ → Bool → ℕ → Option (Unit {0}) × ℕ
connect_always a r b w = (some tt, suc w)

abbrev open_nothing : List ℕ → ℕ → Option (Unit {0}) × ℕ
open_nothing path w = (none, w)

abbrev run_once : Bool → Bool → Unit {0} → ℕ → Unit {0} × ℕ
run_once t b c w = (c, w)

abbrev leave : ℕ → ℕ
leave w = w

abbrev disconnect : Unit {0} → ℕ → ℕ
disconnect c w = w - 1

abbrev keep : Unit {0} → Bool → Unit {0} → Unit {0}
keep f b c = c

-- A backend that connects always, and whose memory cannot be read.
abbrev backend : Interface ℕ
backend = record {
  connect = λ a w. (some 5, suc w);
  disconnect = λ socket w. w - 1;
  read_memory = λ socket address n w. (none, w);
  write_memory = λ socket address bytes w. (true, w);
}

backend-Opens : Opens (λ w. w) backend
backend-Opens = record {
  connects = λ a w. omega arith;
  disconnects = λ socket w. refl;
  reads = λ socket address n w. refl;
}

abbrev memory_for_all : ℕ → ℕ → Bool
memory_for_all n w = true

abbrev close_file : Unit {0} → ℕ → ℕ
close_file f w = w

abbrev run_session : Bool → Bool → Session (Unit {0}) → ℕ → Session (Unit {0}) × ℕ
run_session t b s w = (s, w)

main-Disconnected_example :
    (main
      (monitor_connect backend backend leave memory_for_all close_file 700 60)
      open_nothing
      run_session
      leave
      (monitor_disconnect backend backend leave memory_for_all close_file 700 60)
      set_input
      (options wish [])
      3).1
    ≡ 3
main-Disconnected_example =
    main-Disconnected backend backend leave memory_for_all close_file 700 60 (λ w. w) backend-Opens
      backend-Opens (λ f w. refl) open_nothing run_session leave (λ path w. refl) (λ t b s w. refl)
      (λ w. refl) (options wish []) 3

gdb-port_example :
    (parse (codes "--gdb" ∷ codes "--port" ∷ codes "4444" ∷ []) initial
      ≡ parse [] (gdb_at (atoi (codes "4444"))))
    × (parse (codes "--port" ∷ codes "4444" ∷ codes "--gdb" ∷ []) initial
        ≡ parse [] (gdb_at (if atoi (codes "4444") == 4444 then 3333 else atoi (codes "4444"))))
gdb-port_example = gdb-port (codes "4444") []
