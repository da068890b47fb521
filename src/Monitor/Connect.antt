-- ===== src/Monitor/Connect.antt =====
-- tools/monitor/monitor.c: `monitor_connect` and `monitor_disconnect`, over the table of backends.
-- `malloc` is a parameter that tells whether there is memory for so many bytes, and `fclose` the C
-- library's. `monitor_size` and `control_size` are the sizes of `monitor_ctx_t` and of `struct
-- dmlog_ctx` up to its buffer. The release of memory leaves no trace here.
use dmlog.Base.{ℕ, Bool, true, false, Option, none, some, List, [], ◌==◌, if◌then◌else◌, ◌&&◌}
use dmlog.Context.{Ring, zeros, max_entry_size, get_required_size}
use dmlog.Backend.{
  BackendType, Address, Interface, backend_connect, backend_disconnect, backend_read_memory,
  backend_write_memory,
}
use dmlog.Monitor.{Monitor}
use dmlog.Monitor.Commands.{update_ring}
pub mod Released

-- What `monitor_ctx_t` keeps beside the target's: the connection, the size of the snapshot where
-- there is memory for one, and the input.
pub record Session (F : Type 0) : Type 0 where
  pub backend_type : BackendType
  pub socket : ℕ
  pub monitor : Monitor
  pub snapshot_mode : Bool
  pub snapshot : Option ℕ
  pub input_file : Option F
  pub init_script_mode : Bool

-- `memset` of the whole struct.
abbrev pub cleared_ring : Ring
cleared_ring = record {
  magic = 0;
  flags = 0;
  head_offset = 0;
  tail_offset = 0;
  buffer_size = 0;
  buffer = 0;
  input_head_offset = 0;
  input_tail_offset = 0;
  input_buffer_size = 0;
  input_buffer = 0;
  file_transfer = 0;
}

abbrev pub cleared_monitor : Monitor
cleared_monitor = record {
  ring = cleared_ring;
  ring_address = 0;
  tail_offset = 0;
  entry_buffer = zeros max_entry_size;
  owns_busy_flag = false;
}

-- The numbers of the backends in the table.
abbrev pub number_of : BackendType → ℕ
number_of BackendType.openocd = 0
number_of BackendType.gdb = 1

abbrev pub set_input : {F : Type 0} → F → Bool → Session F → Session F
set_input file script s = record s { input_file = some file; init_script_mode = script }

module _ {W F : Type 0} (backend_openocd backend_gdb : Interface W) (resume_briefly : W → W)
    (malloc : ℕ → W → Bool) (fclose : F → W → W) (monitor_size control_size : ℕ) where
  abbrev close_file : Option F → W → W
  close_file none w = w
  close_file (some file) w = fclose file w

  unfoldable pub monitor_disconnect : Session F → W → W
  monitor_disconnect s w =
      (backend_disconnect backend_openocd backend_gdb (number_of s.backend_type) s.socket
        (close_file s.input_file w)).1

  -- The memory of a session, and its connection.
  abbrev pub session_read : BackendType → ℕ → W → ℕ → ℕ → Option (List ℕ) × W
  session_read b socket w address count =
      backend_read_memory backend_openocd backend_gdb (number_of b) socket address count w

  abbrev pub session_write : BackendType → ℕ → W → ℕ → List ℕ → Bool × W
  session_write b socket w address bytes =
      backend_write_memory backend_openocd backend_gdb (number_of b) socket address bytes w

  -- The end of `monitor_connect`.
  abbrev pub set_up : Session F → Option ℕ → Session F
  set_up s snapshot = record s {
    snapshot = snapshot;
    monitor = record (s.monitor) { tail_offset = s.monitor.ring.tail_offset };
    input_file = none;
    init_script_mode = false;
  }

  -- Behind the first read of the ring.
  unfoldable pub with_ring : Session F → Bool → W → Option (Session F) × W
  with_ring s updated w =
      let size = get_required_size control_size s.monitor.ring.buffer_size in
      if updated
      then (if s.snapshot_mode
          then (if malloc size w
              then (some (set_up s (some size)), w)
              else (none, monitor_disconnect s w))
          else (some (set_up s none), w))
      else (none, monitor_disconnect s w)

  abbrev pub with_socket : BackendType → ℕ → Bool → Option ℕ × W → Option (Session F) × W
  with_socket b ring_address snapshot_mode (none, w) = (none, w)
  with_socket b ring_address snapshot_mode (some socket, w) =
      let start = record cleared_monitor { ring_address = ring_address } in
      let (updated, m, w') =
        update_ring (session_read b socket) (session_write b socket) resume_briefly start w in
      with_ring
        (record {
          backend_type = b;
          socket = socket;
          monitor = m;
          snapshot_mode = snapshot_mode;
          snapshot = none;
          input_file = none;
          init_script_mode = false;
        })
        updated w'

  unfoldable pub monitor_connect : Address → ℕ → Bool → W → Option (Session F) × W
  monitor_connect addr ring_address snapshot_mode w =
      let tried =
        with_socket addr.type ring_address snapshot_mode
          (backend_connect backend_openocd backend_gdb (number_of addr.type) addr w) in
      if malloc monitor_size w then tried else (none, w)
