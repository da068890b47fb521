-- ===== src/CommandLine/Options.antt =====
-- The options of main.c as a user writes them, and what the loop over them makes of them.
use dmlog.Base.{
  ℕ, ◌^◌, ◌<◌, ◌≡◌, refl, ap, sym, ◌∙◌, Bool, true, false, Option, none, some, List, [], ◌∷◌, ◌%◌,
  arith,
}
use dmlog.OpenOcd.{decimal, padded_hex}
use dmlog.Backend.{BackendType, codes, host_array}
use dmlog.CommandLine.Numbers.{strtoul0-hex}
use dmlog.CommandLine.{
  Settings, TraceLevel, error, warn, info, verbose, Name, host, port, addr, level, input_file,
  init_script, use_gdb, look_up, names, takes_value, apply_flag, apply_value, and_then, parse,
  Parsed, stopped, unknown_level, settings, choose_gdb, level_of, same_text, atoi,
}

-- Where the input comes from.
pub data Input : Type 0 where
  keyboard : Input
  file_at : List ℕ → Input
  script_at : List ℕ → Input

-- What a user may ask for.
pub record Wish : Type 0 where
  pub type : BackendType
  pub host : List ℕ
  pub port : ℕ
  pub address : ℕ
  pub trace_level : TraceLevel
  pub show_timestamps : Bool
  pub blocking_mode : Bool
  pub snapshot_mode : Bool
  pub input : Input

abbrev pub level_name : TraceLevel → List ℕ
level_name error = codes "error"
level_name warn = codes "warn"
level_name info = codes "info"
level_name verbose = codes "verbose"

abbrev pub is_gdb : BackendType → Bool
is_gdb BackendType.openocd = false
is_gdb BackendType.gdb = true

abbrev pub flag_if : Bool → List ℕ → List (List ℕ) → List (List ℕ)
flag_if true name args = name ∷ args
flag_if false name args = args

abbrev pub input_options : Input → List (List ℕ) → List (List ℕ)
input_options keyboard args = args
input_options (file_at path) args = codes "--input-file" ∷ path ∷ args
input_options (script_at path) args = codes "--init-script" ∷ path ∷ args

-- The command line that asks for it, with `args` behind.
abbrev pub options : Wish → List (List ℕ) → List (List ℕ)
options w args = flag_if (is_gdb w.type) (codes "--gdb") (
    codes "--host"
    ∷ w.host
    ∷ codes "--port"
    ∷ decimal 10 w.port []
    ∷ codes "--addr"
    ∷ (b'0' ∷ b'x' ∷ padded_hex 8 w.address [])
    ∷ codes "--trace-level"
    ∷ level_name w.trace_level
    ∷ flag_if w.show_timestamps (codes "--time") (
        flag_if w.blocking_mode (codes "--blocking")
          (flag_if w.snapshot_mode (codes "--snapshot") (input_options w.input args))))

abbrev pub path_of : Input → Option (List ℕ)
path_of keyboard = none
path_of (file_at path) = some path
path_of (script_at path) = some path

abbrev pub is_script : Input → Bool
is_script keyboard = false
is_script (file_at path) = false
is_script (script_at path) = true

-- The settings that carry it out.
abbrev pub granted : Wish → Settings
granted w = record {
  show_timestamps = w.show_timestamps;
  blocking_mode = w.blocking_mode;
  snapshot_mode = w.snapshot_mode;
  input_file_path = path_of w.input;
  init_script_mode = is_script w.input;
  ring_buffer_address = w.address;
  backend_addr = record { host = host_array w.host; port = w.port; type = w.type };
  default_of = w.type;
  trace_level = w.trace_level;
}

and_then-settings : (p : Parsed) → and_then p settings ≡ p
and_then-settings (stopped why) = refl
and_then-settings (settings s) = refl

-- One turn of the loop.
pub parse-flag :
    (name : Name) (text : List ℕ) (args : List (List ℕ)) (s : Settings)
    → look_up names text ≡ name
    → takes_value name ≡ false
    → parse (text ∷ args) s ≡ and_then (apply_flag name s) (parse args)
unfolding parse
parse-flag name text [] s e f = rw (parse, e) (sym (and_then-settings (apply_flag name s)))
parse-flag name text (value ∷ args) s e f = rw (parse, e, f, e) refl

pub parse-value :
    (name : Name) (text value : List ℕ) (args : List (List ℕ)) (s : Settings)
    → look_up names text ≡ name
    → takes_value name ≡ true
    → parse (text ∷ value ∷ args) s ≡ and_then (apply_value name value s) (parse args)
unfolding parse
parse-value name text value args s e f = rw (parse, e, f, e) refl

level_of-name : (l : TraceLevel) → level_of (level_name l) ≡ some l
unfolding level_of same_text
level_of-name error = refl
level_of-name warn = refl
level_of-name info = refl
level_of-name verbose = refl

-- What an option that changes the settings goes on with.
flag-step :
    (name : Name) (text : List ℕ) (args : List (List ℕ)) (s t : Settings)
    → look_up names text ≡ name
    → takes_value name ≡ false
    → apply_flag name s ≡ settings t
    → parse (text ∷ args) s ≡ parse args t
flag-step name text args s t e f g =
    parse-flag name text args s e f ∙ ap (λ p. and_then p (parse args)) g

value-step :
    (name : Name) (text value : List ℕ) (args : List (List ℕ)) (s t : Settings)
    → look_up names text ≡ name
    → takes_value name ≡ true
    → apply_value name value s ≡ settings t
    → parse (text ∷ value ∷ args) s ≡ parse args t
value-step name text value args s t e f g =
    parse-value name text value args s e f ∙ ap (λ p. and_then p (parse args)) g

module _ (args : List (List ℕ)) (s : Settings) where
  pub parse-gdb : parse (codes "--gdb" ∷ args) s ≡ parse args (choose_gdb s)
  unfolding look_up names same_text apply_flag
  parse-gdb = flag-step use_gdb (codes "--gdb") args s (choose_gdb s) refl refl refl

  pub parse-port :
      (text : List ℕ)
      → parse (codes "--port" ∷ text ∷ args) s
        ≡ parse args (record s { backend_addr = record (s.backend_addr) { port = atoi text } })
  unfolding look_up names same_text apply_value
  parse-port text = value-step port (codes "--port") text args s _ refl refl refl

  pub parse-host :
      (text : List ℕ)
      → parse (codes "--host" ∷ text ∷ args) s
        ≡ parse args
            (record s { backend_addr = record (s.backend_addr) { host = host_array text } })
  unfolding look_up names same_text apply_value
  parse-host text = value-step host (codes "--host") text args s _ refl refl refl

  pub parse-addr :
      (a : ℕ)
      → a < 2 ^ 32
      → parse (codes "--addr" ∷ (b'0' ∷ b'x' ∷ padded_hex 8 a []) ∷ args) s
        ≡ parse args (record s { ring_buffer_address = a })
  unfolding look_up names same_text apply_value
  parse-addr a small = value-step addr (codes "--addr") _ args s _ refl refl (
      ap (λ k. settings (record s { ring_buffer_address = k % 2 ^ 32 })) (strtoul0-hex a small)
      ∙ ap (λ k. settings (record s { ring_buffer_address = k })) (omega arith))

  pub parse-level :
      (l : TraceLevel)
      → parse (codes "--trace-level" ∷ level_name l ∷ args) s
        ≡ parse args (record s { trace_level = l })
  unfolding look_up names same_text apply_value
  parse-level l = value-step level (codes "--trace-level") (level_name l) args s _ refl refl (
      ap
        (λ o. elim o [
          | none ↦ stopped unknown_level
          | some l ↦ settings (record s { trace_level = l })
        ])
        (level_of-name l))

  pub parse-input :
      (i : Input)
      → s.input_file_path ≡ none
      → s.init_script_mode ≡ false
      → parse (input_options i args) s
        ≡ parse args (record s { input_file_path = path_of i; init_script_mode = is_script i })
  unfolding look_up names same_text apply_value
  parse-input keyboard e f = ap (parse args) (rw (← e, ← f) refl)
  parse-input (file_at path) e f =
      value-step input_file (codes "--input-file") path args s _ refl refl (rw (← f) refl)
  parse-input (script_at path) e f =
      value-step init_script (codes "--init-script") path args s _ refl refl refl

-- An option that may be left out, where that is the same as asking for less.
pub parse-flag_if :
    (name : Name) (text : List ℕ) (args : List (List ℕ)) (f : Bool → Settings) (b : Bool)
    → look_up names text ≡ name
    → takes_value name ≡ false
    → apply_flag name (f false) ≡ settings (f true)
    → parse (flag_if b text args) (f false) ≡ parse args (f b)
parse-flag_if name text args f true d e g = flag-step name text args (f false) (f true) d e g
parse-flag_if name text args f false d e g = refl
