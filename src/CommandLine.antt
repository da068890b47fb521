-- ===== src/CommandLine.antt =====
-- tools/monitor/main.c: the options of the monitor, and what `main` does with them.
-- An argument is the list of the bytes that `strlen` counts. `atoi` and `strtoul` are those of the C
-- library, with a `long` of 64 bits.
use dmlog.Base.{
  ℕ, zero, suc, ◌+◌, ◌-◌, ◌*◌, ◌%◌, ◌^◌, min, Bool, true, false, ◌&&◌, ◌||◌, Option, none, some,
  List, [], ◌∷◌, ltb, leb, ◌==◌, if◌then◌else◌,
}
use dmlog.Gdb.{digit_value, is_space}
use dmlog.Output.{cstring}
use dmlog.Backend.{BackendType, Address, codes, host_array, default_addr}
pub mod Numbers
pub mod Options
pub mod Main
pub mod Order

-- The test `strcmp(a, b) == 0`.
unfoldable pub same_text : List ℕ → List ℕ → Bool
same_text [] [] = true
same_text [] (y ∷ ys) = false
same_text (x ∷ xs) [] = false
same_text (x ∷ xs) (y ∷ ys) = let rest = same_text xs ys in x == y && rest

-- The digits of a number, up to the first character that is none in this base.
unfoldable pub read_number : ℕ → ℕ → List ℕ → ℕ
read_number base n [] = n
read_number base n (c ∷ cs) = elim (digit_value c) [
  | none ↦ n
  | some d ↦ let more = read_number base (n * base + d) cs in if ltb d base then more else n
]

-- A sign and what follows; `strtol` and `strtoul` skip white space first.
unfoldable pub split_sign : List ℕ → Bool × List ℕ
split_sign [] = (false, [])
split_sign (c ∷ cs) =
    if c == b'-' then (true, cs) else (if c == b'+' then (false, cs) else (false, c ∷ cs))

unfoldable pub skip_space : List ℕ → List ℕ
skip_space [] = []
skip_space (c ∷ cs) = if is_space c then skip_space cs else c ∷ cs

-- `atoi`, which is `strtol` in base 10, held at the ends of `long`: the 32 bits of the `int`.
unfoldable pub atoi : List ℕ → ℕ
unfolding skip_space split_sign read_number
atoi text =
    let (negative, digits) = split_sign (skip_space text) in
    let n = read_number 10 0 digits in
    if negative then (2 ^ 64 - min n (2 ^ 63)) % 2 ^ 32 else min n (2 ^ 63 - 1) % 2 ^ 32

-- The base that base 0 stands for, and the digits.
unfoldable pub split_base : List ℕ → ℕ × List ℕ
split_base [] = (10, [])
split_base (c ∷ []) = (10, c ∷ [])
split_base (a ∷ b ∷ []) = if a == b'0' then (8, a ∷ b ∷ []) else (10, a ∷ b ∷ [])
split_base (a ∷ b ∷ c ∷ cs) =
    let hexadecimal : Bool = elim (digit_value c) [ none ↦ false | some d ↦ true ] in
    if a == b'0'
    then (if (b == b'x' || b == b'X') && hexadecimal then (16, c ∷ cs) else (8, a ∷ b ∷ c ∷ cs))
    else (10, a ∷ b ∷ c ∷ cs)

-- `strtoul(text, NULL, 0)`, held at the end of `unsigned long`.
unfoldable pub strtoul0 : List ℕ → ℕ
strtoul0 text =
    let (negative, unsigned) = split_sign (skip_space text) in
    let (base, digits) = split_base unsigned in
    let n = read_number base 0 digits in
    if ltb n (2 ^ 64) then (if negative then (2 ^ 64 - n) % 2 ^ 64 else n) else 2 ^ 64 - 1

-- `trace_level_t`.
pub data TraceLevel : Type 0 where
  error : TraceLevel
  warn : TraceLevel
  info : TraceLevel
  verbose : TraceLevel

-- The local variables of `main`, and `current_trace_level`. `default_addr` points into the table.
pub record Settings : Type 0 where
  pub show_timestamps : Bool
  pub blocking_mode : Bool
  pub snapshot_mode : Bool
  pub input_file_path : Option (List ℕ)
  pub init_script_mode : Bool
  pub ring_buffer_address : ℕ
  pub backend_addr : Address
  pub default_of : BackendType
  pub trace_level : TraceLevel

unfoldable pub initial : Settings
initial = record {
  show_timestamps = false;
  blocking_mode = false;
  snapshot_mode = false;
  input_file_path = none;
  init_script_mode = false;
  ring_buffer_address = 0x20010000;
  backend_addr = default_addr BackendType.openocd;
  default_of = BackendType.openocd;
  trace_level = info;
}

-- The names that the chain of comparisons tells apart.
pub data Name : Type 0 where
  help : Name
  version : Name
  host : Name
  port : Name
  addr : Name
  level : Name
  be_verbose : Name
  time : Name
  blocking : Name
  snapshot : Name
  input_file : Name
  init_script : Name
  use_gdb : Name
  unknown : Name

-- The first entry of the table that has this text.
unfoldable pub look_up : List (List ℕ × Name) → List ℕ → Name
look_up [] text = unknown
look_up ((known, name) ∷ names) text =
    let rest = look_up names text in if same_text text known then name else rest

-- In the order of the comparisons.
unfoldable pub names : List (List ℕ × Name)
names =
    (codes "--help", help)
    ∷ (codes "--version", version)
    ∷ (codes "--host", host)
    ∷ (codes "--port", port)
    ∷ (codes "--addr", addr)
    ∷ (codes "--trace-level", level)
    ∷ (codes "--verbose", be_verbose)
    ∷ (codes "--time", time)
    ∷ (codes "--blocking", blocking)
    ∷ (codes "--snapshot", snapshot)
    ∷ (codes "--input-file", input_file)
    ∷ (codes "--init-script", init_script)
    ∷ (codes "--gdb", use_gdb)
    ∷ []

-- How reading the options ends early.
pub data Stop : Type 0 where
  showed_usage : Stop
  showed_version : Stop
  unknown_level : Stop
  unknown_option : Stop

pub data Parsed : Type 0 where
  stopped : Stop → Parsed
  settings : Settings → Parsed

abbrev pub and_then : Parsed → (Settings → Parsed) → Parsed
and_then (stopped why) next = stopped why
and_then (settings s) next = next s

abbrev set_addr : Settings → Address → Settings
set_addr s a = record s { backend_addr = a }

unfoldable pub level_of : List ℕ → Option TraceLevel
level_of text =
    if same_text text (codes "error")
    then some error
    else (if same_text text (codes "warn")
        then some warn
        else (if same_text text (codes "info")
            then some info
            else (if same_text text (codes "verbose") then some verbose else none)))

-- The options with an argument behind them; without one they are unknown.
abbrev pub takes_value : Name → Bool
takes_value host = true
takes_value port = true
takes_value addr = true
takes_value level = true
takes_value input_file = true
takes_value init_script = true
takes_value name = false

-- What an option does with the argument behind it.
unfoldable pub apply_value : Name → List ℕ → Settings → Parsed
apply_value host text s =
    settings (record s { backend_addr = record (s.backend_addr) { host = host_array text } })
apply_value port text s =
    settings (record s { backend_addr = record (s.backend_addr) { port = atoi text } })
apply_value addr text s = settings (record s { ring_buffer_address = strtoul0 text % 2 ^ 32 })
apply_value level text s = elim (level_of text) [
  | none ↦ stopped unknown_level
  | some l ↦ settings (record s { trace_level = l })
]
apply_value input_file text s = settings (record s { input_file_path = some text })
apply_value init_script text s =
    settings (record s { input_file_path = some text; init_script_mode = true })
apply_value name text s = stopped unknown_option

-- `--gdb` replaces what is still the default; the table has an entry for GDB.
unfoldable pub choose_gdb : Settings → Settings
choose_gdb s =
    let old = default_addr s.default_of in
    let new = default_addr BackendType.gdb in
    record s {
      backend_addr = record {
        host =
            if same_text (cstring s.backend_addr.host) (cstring old.host)
            then host_array (cstring new.host)
            else s.backend_addr.host;
        port = if s.backend_addr.port == old.port then new.port else s.backend_addr.port;
        type = BackendType.gdb;
      };
      default_of = BackendType.gdb;
    }

-- What an option does by itself.
unfoldable pub apply_flag : Name → Settings → Parsed
apply_flag help s = stopped showed_usage
apply_flag version s = stopped showed_version
apply_flag be_verbose s = settings (record s { trace_level = verbose })
apply_flag time s = settings (record s { show_timestamps = true })
apply_flag blocking s = settings (record s { blocking_mode = true })
apply_flag snapshot s = settings (record s { snapshot_mode = true })
apply_flag use_gdb s = settings (choose_gdb s)
apply_flag name s = stopped unknown_option

-- The loop of `main` over its arguments.
unfoldable pub parse : List (List ℕ) → Settings → Parsed
parse [] s = settings s
parse (arg ∷ []) s = apply_flag (look_up names arg) s
parse (arg ∷ value ∷ args) s = elim (takes_value (look_up names arg)) [
  | true ↦ and_then (apply_value (look_up names arg) value s) (parse args)
  | false ↦ and_then (apply_flag (look_up names arg) s) (parse (value ∷ args))
]

abbrev pub stop_code : Stop → ℕ
stop_code showed_usage = 0
stop_code showed_version = 0
stop_code unknown_level = 1
stop_code unknown_option = 1

-- The parts of the monitor that `main` calls, and `fopen`; a world stands for all that they change.
module _ {W C F : Type 0} (monitor_connect : Address → ℕ → Bool → W → Option C × W)
    (fopen : List ℕ → W → Option F × W) (monitor_run : Bool → Bool → C → W → C × W)
    (monitor_restore_terminal : W → W) (monitor_disconnect : C → W → W)
    (set_input : F → Bool → C → C) where
  -- From the registration of the signal handlers on.
  unfoldable pub run : Settings → C → W → ℕ × W
  run s ctx w =
      let (ctx', w') = monitor_run s.show_timestamps s.blocking_mode ctx w in
      (0, monitor_disconnect ctx' (monitor_restore_terminal w'))

  abbrev pub when_opened : Settings → C → Option F × W → ℕ × W
  when_opened s ctx (none, w) = (1, monitor_disconnect ctx w)
  when_opened s ctx (some file, w) = run s (set_input file s.init_script_mode ctx) w

  abbrev pub with_input : Settings → C → W → Option (List ℕ) → ℕ × W
  with_input s ctx w none = run s ctx w
  with_input s ctx w (some path) = when_opened s ctx (fopen path w)

  abbrev pub when_connected : Settings → Option C × W → ℕ × W
  when_connected s (none, w) = (1, w)
  when_connected s (some ctx, w) = with_input s ctx w s.input_file_path

  abbrev pub carry_out : W → Parsed → ℕ × W
  carry_out w (stopped why) = (stop_code why, w)
  carry_out w (settings s) =
      when_connected s (monitor_connect s.backend_addr s.ring_buffer_address s.snapshot_mode w)

  -- `main` behind the name of the program: its result.
  unfoldable pub main : List (List ℕ) → W → ℕ × W
  main args w = carry_out w (parse args initial)
