-- ===== src/CommandLine/Order.antt =====
-- `--gdb` among the options of main.c: it replaces what is still the default of OpenOCD.
use dmlog.Base.{ℕ, ◌≡◌, refl, ◌∙◌, List, [], ◌∷◌, ◌==◌, if◌then◌else◌}
use dmlog.Backend.{BackendType, codes, default_addr}
use dmlog.CommandLine.{parse, initial, Settings, choose_gdb, atoi, same_text}
use dmlog.CommandLine.Options.{parse-gdb, parse-port}

-- The settings for GDB at a port.
abbrev pub gdb_at : ℕ → Settings
gdb_at p = record initial {
  backend_addr = record (default_addr BackendType.gdb) { port = p };
  default_of = BackendType.gdb;
}

-- `--gdb` in front of `--port` leaves the port that is asked for; behind it, it leaves every port but
-- 4444, the default of OpenOCD, for which it takes 3333, though that port was asked for.
pub gdb-port :
    (text : List ℕ) (args : List (List ℕ))
    → (parse (codes "--gdb" ∷ codes "--port" ∷ text ∷ args) initial
        ≡ parse args (gdb_at (atoi text)))
      × (parse (codes "--port" ∷ text ∷ codes "--gdb" ∷ args) initial
          ≡ parse args (gdb_at (if atoi text == 4444 then 3333 else atoi text)))
unfolding initial choose_gdb default_addr same_text dmlog.Base.replicate
gdb-port text args = (
  parse-gdb (codes "--port" ∷ text ∷ args) initial ∙ parse-port args (choose_gdb initial) text,
  parse-port (codes "--gdb" ∷ args) initial text ∙ parse-gdb args _,
)
