-- ===== src/Backend.antt =====
-- tools/monitor/backend.c and backend.h: the table of the backends, and the calls that go through it.
-- The functions of the two backends are parameters; a world stands for the sockets.
use dmlog.Base.{
  ℕ, zero, suc, Bool, true, false, Option, none, some, List, [], ◌∷◌, ◌++◌, take, replicate,
}
use Prim.Native.Char.{code}
use Prim.Native.String.{String}

-- The bytes of a text in the source.
abbrev pub codes : String → List ℕ
codes String.[] = []
codes (String.◌∷◌ c s) = code c ∷ codes s

pub data BackendType : Type 0 where
  openocd : BackendType
  gdb : BackendType

-- `backend_addr_t`; `host` is its whole array, and `port` the bits of an `int`.
pub record Address : Type 0 where
  pub host : List ℕ
  pub port : ℕ
  pub type : BackendType

abbrev pub host_size : ℕ
host_size = 256

-- `strncpy` of a string into the array, and the initialisation of the array with one.
abbrev pub host_array : List ℕ → List ℕ
host_array text = take host_size (text ++ replicate host_size 0)

-- `openocd_default_addr` and `gdb_default_addr`, in the table `backend_default_addrs`.
unfoldable pub default_addr : BackendType → Address
default_addr openocd = record { host = host_array (codes "localhost"); port = 4444; type = openocd }
default_addr gdb = record { host = host_array (codes "localhost"); port = 3333; type = gdb }

-- `backend_if_t`, without its name.
pub record Interface (W : Type 0) : Type 0 where
  pub connect : Address → W → Option ℕ × W
  pub disconnect : ℕ → W → W
  pub read_memory : ℕ → ℕ → ℕ → W → Option (List ℕ) × W
  pub write_memory : ℕ → ℕ → List ℕ → W → Bool × W

-- The number of a backend in the table, which the enumeration makes of its name.
unfoldable pub backend_of : ℕ → Option BackendType
backend_of zero = some openocd
backend_of (suc zero) = some gdb
backend_of (suc (suc n)) = none

unfoldable pub type_to_string : ℕ → List ℕ
unfolding backend_of
type_to_string n = elim (backend_of n) [
  | none ↦ codes "Unknown"
  | some openocd ↦ codes "OpenOCD"
  | some gdb ↦ codes "GDB"
]

-- `none` and `false` are the result -1.
module _ {W : Type 0} (backend_openocd backend_gdb : Interface W) where
  abbrev pub backends : BackendType → Interface W
  backends openocd = backend_openocd
  backends gdb = backend_gdb

  unfoldable pub backend_connect : ℕ → Address → W → Option ℕ × W
  unfolding backend_of
  backend_connect n addr w = elim (backend_of n) [
    | none ↦ (none, w)
    | some b ↦ (backends b).connect addr w
  ]

  unfoldable pub backend_disconnect : ℕ → ℕ → W → Bool × W
  unfolding backend_of
  backend_disconnect n socket w = elim (backend_of n) [
    | none ↦ (false, w)
    | some b ↦ (true, (backends b).disconnect socket w)
  ]

  unfoldable pub backend_read_memory : ℕ → ℕ → ℕ → ℕ → W → Option (List ℕ) × W
  unfolding backend_of
  backend_read_memory n socket address count w = elim (backend_of n) [
    | none ↦ (none, w)
    | some b ↦ (backends b).read_memory socket address count w
  ]

  unfoldable pub backend_write_memory : ℕ → ℕ → ℕ → List ℕ → W → Bool × W
  unfolding backend_of
  backend_write_memory n socket address bytes w = elim (backend_of n) [
    | none ↦ (false, w)
    | some b ↦ (backends b).write_memory socket address bytes w
  ]
