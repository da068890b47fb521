-- ===== src/CommandLine/Main.antt =====
-- What `main` of main.c makes of a whole command line.
use dmlog.Base.{
  ℕ, ◌+◌, ◌^◌, ◌<◌, ◌≡◌, ◌≢◌, refl, ap, sym, ◌∙◌, Bool, false, Option, none, some, List, [], ◌∷◌,
  ne→==, ◌==◌, arith, ◌-◌,
}
use dmlog.OpenOcd.{decimal, padded_hex}
use dmlog.Backend.{BackendType, Address, codes, host_array, default_addr}
use dmlog.CommandLine.Numbers.{atoi-decimal}
use dmlog.CommandLine.Options.{
  Wish, options, granted, flag_if, is_gdb, level_name, input_options, parse-gdb, parse-port,
  parse-host, parse-addr, parse-level, parse-input, parse-flag_if,
}
use dmlog.CommandLine.{
  Settings, host, port, time, blocking, snapshot, look_up, names, apply_flag, parse, initial,
  Parsed, run, when_opened, with_input, when_connected, carry_out, stopped, settings, choose_gdb,
  same_text, main,
}

-- The settings where all of a wish is read but the flags and the input.
partly_granted : Wish → Bool → Bool → Bool → Settings
partly_granted w timed blocked snapped = record {
  show_timestamps = timed;
  blocking_mode = blocked;
  snapshot_mode = snapped;
  input_file_path = none;
  init_script_mode = false;
  ring_buffer_address = w.address;
  backend_addr = record { host = host_array w.host; port = w.port; type = w.type };
  default_of = w.type;
  trace_level = w.trace_level;
}

flags-parse :
    (w : Wish) (args : List (List ℕ))
    → parse
        (flag_if w.show_timestamps (codes "--time") (
          flag_if w.blocking_mode
            (codes "--blocking")
            (flag_if w.snapshot_mode (codes "--snapshot") (input_options w.input args))))
        (partly_granted w false false false)
      ≡ parse args (granted w)
unfolding partly_granted look_up names same_text apply_flag
flags-parse w args =
    parse-flag_if time (codes "--time") _ (λ b. partly_granted w b false false) w.show_timestamps
      refl refl refl
    ∙ parse-flag_if blocking (codes "--blocking") _
        (λ b. partly_granted w w.show_timestamps b false) w.blocking_mode refl refl refl
    ∙ parse-flag_if snapshot (codes "--snapshot") _
        (partly_granted w w.show_timestamps w.blocking_mode) w.snapshot_mode refl refl refl
    ∙ parse-input args _ w.input refl refl

-- The settings after the choice of a backend.
chosen : BackendType → Settings
unfolding initial
chosen b = record initial { backend_addr = record (default_addr b) { type = b }; default_of = b }

backend-parse :
    (b : BackendType) (args : List (List ℕ))
    → parse (flag_if (is_gdb b) (codes "--gdb") args) initial ≡ parse args (chosen b)
unfolding chosen initial choose_gdb default_addr same_text dmlog.Base.replicate
backend-parse BackendType.openocd args = refl
backend-parse BackendType.gdb args = parse-gdb args initial

values-parse :
    (w : Wish) (args : List (List ℕ))
    → w.port < 2 ^ 31
    → w.address < 2 ^ 32
    → parse
        (codes "--host"
          ∷ w.host
          ∷ codes "--port"
          ∷ decimal 10 w.port []
          ∷ codes "--addr"
          ∷ (b'0' ∷ b'x' ∷ padded_hex 8 w.address [])
          ∷ codes "--trace-level"
          ∷ level_name w.trace_level
          ∷ args)
        (chosen w.type)
      ≡ parse args (partly_granted w false false false)
unfolding chosen partly_granted initial
values-parse w args port_small address_small =
    parse-host _ (chosen w.type) w.host
    ∙ parse-port _ _ _
    ∙ parse-addr _ _ w.address address_small
    ∙ parse-level args _ w.trace_level
    ∙ ap
        (λ p. parse args (record (partly_granted w false false false) {
          backend_addr = record { host = host_array w.host; port = p; type = w.type };
        }))
        (atoi-decimal w.port port_small)

-- A command line written with the backend, the host, the port (below 2 ^ 31) in decimal, the address
-- (below 2 ^ 32) as `0x` and eight digits, the level of the trace, the flags and the file for the
-- input is read back: `main` goes on, whatever stands behind it, with exactly these settings.
pub options-parse :
    (w : Wish) (args : List (List ℕ))
    → w.port < 2 ^ 31
    → w.address < 2 ^ 32
    → parse (options w args) initial ≡ parse args (granted w)
options-parse w args port_small address_small =
    backend-parse w.type _ ∙ values-parse w _ port_small address_small ∙ flags-parse w args

-- How many there are.
abbrev pub count : {C : Type 0} → Option C → ℕ
count none = 0
count (some c) = 1

module _ {W C F : Type 0} (monitor_connect : Address → ℕ → Bool → W → Option C × W)
    (fopen : List ℕ → W → Option F × W) (monitor_run : Bool → Bool → C → W → C × W)
    (monitor_restore_terminal : W → W) (monitor_disconnect : C → W → W)
    (set_input : F → Bool → C → C) where
  abbrev call : List (List ℕ) → W → ℕ × W
  call =
      main monitor_connect fopen monitor_run monitor_restore_terminal monitor_disconnect set_input

  abbrev carried_out : W → Parsed → ℕ × W
  carried_out =
      carry_out monitor_connect fopen monitor_run monitor_restore_terminal monitor_disconnect
        set_input

  -- What `main` relies on: `opened` counts the connections; to connect makes one where it succeeds,
  -- to disconnect takes one back, and the other calls leave them.
  pub record Counts (opened : W → ℕ) : Type 0 where
    pub connects :
        (a : Address) (r : ℕ) (b : Bool) (w : W)
        → let (c, w') = monitor_connect a r b w in opened w' ≡ opened w + count c
    pub opens : (path : List ℕ) (w : W) → opened (fopen path w).1 ≡ opened w
    pub runs : (t b : Bool) (c : C) (w : W) → opened (monitor_run t b c w).1 ≡ opened w
    pub restores : (w : W) → opened (monitor_restore_terminal w) ≡ opened w
    pub disconnects : (c : C) (w : W) → opened (monitor_disconnect c w) ≡ opened w - 1

  module _ (opened : W → ℕ) (counts : Counts opened) where
    run-Released :
        (s : Settings) (c : C) (w : W)
        → opened
            (run monitor_connect fopen monitor_run monitor_restore_terminal monitor_disconnect
              set_input s c w).1
          ≡ opened w - 1
    unfolding run
    run-Released s c w =
        let (c', w') = monitor_run s.show_timestamps s.blocking_mode c w in
        counts.disconnects c' (monitor_restore_terminal w')
        ∙ ap (λ n. n - 1) (counts.restores w' ∙ counts.runs s.show_timestamps s.blocking_mode c w)

    opened-Released :
        (s : Settings) (c : C) (o : Option F) (w : W)
        → opened
            (when_opened monitor_connect fopen monitor_run monitor_restore_terminal
              monitor_disconnect set_input s c
              (o, w)).1
          ≡ opened w - 1
    opened-Released s c none w = counts.disconnects c w
    opened-Released s c (some f) w = run-Released s (set_input f s.init_script_mode c) w

    input-Released :
        (s : Settings) (c : C) (w : W) (path : Option (List ℕ))
        → opened
            (with_input monitor_connect fopen monitor_run monitor_restore_terminal
              monitor_disconnect set_input s c w path).1
          ≡ opened w - 1
    input-Released s c w none = run-Released s c w
    input-Released s c w (some path) =
        opened-Released s c (fopen path w).0 (fopen path w).1
        ∙ ap (λ n. n - 1) (counts.opens path w)

    connected-Released :
        (s : Settings) (o : Option C) (w : W)
        → opened
            (when_connected monitor_connect fopen monitor_run monitor_restore_terminal
              monitor_disconnect set_input s
              (o, w)).1
          ≡ opened w - count o
    connected-Released s none w = omega arith
    connected-Released s (some c) w = input-Released s c w s.input_file_path

    carried_out-Released : (w : W) (p : Parsed) → opened (carried_out w p).1 ≡ opened w
    carried_out-Released w (stopped why) = refl
    carried_out-Released w (settings s) =
        let a = s.backend_addr in
        let tried = monitor_connect a s.ring_buffer_address s.snapshot_mode w in
        let made = counts.connects a s.ring_buffer_address s.snapshot_mode w in
        omega (arith, connected-Released s tried.0 tried.1, made)

  -- Where the calls of `main` keep the count of the connections, `main` closes what it opens: on
  -- every command line, also where the file for the input is not there, it returns with as many
  -- connections as it started with.
  pub main-Released :
      (opened : W → ℕ)
      → Counts opened
      → (args : List (List ℕ)) (w : W) → opened (call args w).1 ≡ opened w
  unfolding main
  main-Released opened counts args w = carried_out-Released opened counts w (parse args initial)
