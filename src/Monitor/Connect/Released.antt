-- ===== src/Monitor/Connect/Released.antt =====
-- The connections that `monitor_connect` and `monitor_disconnect` of monitor.c open and close, and
-- `main` of main.c over them.
use dmlog.Base.{
  ℕ, ◌+◌, ◌-◌, ◌≡◌, refl, ap, ◌∙◌, inl, inr, Bool, Option, none, some, List, arith, Bool-cases,
}
use dmlog.Life.{sizeof_ring}
use dmlog.Backend.{
  BackendType, Address, Interface, backend_of, backend_connect, backend_disconnect,
  backend_read_memory,
}
use dmlog.Context.{get_required_size}
use dmlog.Monitor.{Monitor}
use dmlog.Monitor.Commands.{update_ring, store_ring}
use dmlog.CommandLine.{main}
use dmlog.CommandLine.Main.{count, main-Released}
use dmlog.Monitor.Connect.{
  Session, monitor_connect, monitor_disconnect, with_ring, with_socket, set_input, number_of,
  session_read, session_write,
}

-- What a backend does to the number of connections.
pub record Opens {W : Type 0} (opened : W → ℕ) (b : Interface W) : Type 0 where
  pub connects :
      (a : Address) (w : W)
      → let (socket, w') = b.connect a w in opened w' ≡ opened w + count socket
  pub disconnects : (socket : ℕ) (w : W) → opened (b.disconnect socket w) ≡ opened w - 1
  pub reads :
      (socket address n : ℕ) (w : W) → opened (b.read_memory socket address n w).1 ≡ opened w

module _ {W F : Type 0} (backend_openocd backend_gdb : Interface W) (resume_briefly : W → W)
    (malloc : ℕ → W → Bool) (fclose : F → W → W) (monitor_size control_size : ℕ) (opened : W → ℕ)
    (by_openocd : Opens opened backend_openocd) (by_gdb : Opens opened backend_gdb)
    (closes : (file : F) (w : W) → opened (fclose file w) ≡ opened w) where
  abbrev opening : Address → ℕ → Bool → W → Option (Session F) × W
  opening =
      monitor_connect backend_openocd backend_gdb resume_briefly malloc fclose monitor_size
        control_size

  abbrev closing : Session F → W → W
  closing =
      monitor_disconnect backend_openocd backend_gdb resume_briefly malloc fclose monitor_size
        control_size

  abbrev reading : BackendType → ℕ → W → ℕ → ℕ → Option (List ℕ) × W
  reading =
      session_read backend_openocd backend_gdb resume_briefly malloc fclose monitor_size
        control_size

  abbrev writing : BackendType → ℕ → W → ℕ → List ℕ → Bool × W
  writing =
      session_write backend_openocd backend_gdb resume_briefly malloc fclose monitor_size
        control_size

  -- The table has an entry for every backend.
  connected :
      (b : BackendType) (a : Address) (w : W)
      → let (socket, w') = backend_connect backend_openocd backend_gdb (number_of b) a w in
        opened w' ≡ opened w + count socket
  unfolding backend_connect backend_of
  connected BackendType.openocd a w = by_openocd.connects a w
  connected BackendType.gdb a w = by_gdb.connects a w

  hung_up :
      (b : BackendType) (socket : ℕ) (w : W)
      → opened (backend_disconnect backend_openocd backend_gdb (number_of b) socket w).1
        ≡ opened w - 1
  unfolding backend_disconnect backend_of
  hung_up BackendType.openocd socket w = by_openocd.disconnects socket w
  hung_up BackendType.gdb socket w = by_gdb.disconnects socket w

  read :
      (b : BackendType) (socket address n : ℕ) (w : W)
      → opened (backend_read_memory backend_openocd backend_gdb (number_of b) socket address n w).1
        ≡ opened w
  unfolding backend_read_memory backend_of
  read BackendType.openocd socket address n w = by_openocd.reads socket address n w
  read BackendType.gdb socket address n w = by_gdb.reads socket address n w

  disconnected : (s : Session F) (w : W) → opened (closing s w) ≡ opened w - 1
  unfolding monitor_disconnect
  disconnected s w = by_file s.input_file refl
    where
      by_file : (f : Option F) → s.input_file ≡ f → opened (closing s w) ≡ opened w - 1
      by_file none e = rw e (hung_up s.backend_type s.socket w)
      by_file (some file) e =
          rw e (hung_up s.backend_type s.socket (fclose file w) ∙ ap (λ n. n - 1) (closes file w))

  with_ring-count :
      (s : Session F) (updated : Bool) (w : W) (n : ℕ)
      → opened w ≡ n + 1
      → let (made, w') =
          with_ring backend_openocd backend_gdb resume_briefly malloc fclose monitor_size
            control_size s updated w in
        opened w' ≡ n + count made
  unfolding with_ring monitor_disconnect
  with_ring-count s updated w n e =
      let gone : opened (closing s w) ≡ n + 0 = omega (arith, disconnected s w) in
      elim (Bool-cases updated) [
        | inr failed ↦ rw failed gone
        | inl read_it ↦ elim (Bool-cases s.snapshot_mode) [
          | inr live ↦ rw (read_it, live) e
          | inl copied ↦
              elim (Bool-cases
                (malloc (get_required_size control_size s.monitor.ring.buffer_size) w)) [
                  | inl room ↦ rw (read_it, copied, room) e
                  | inr full ↦ rw (read_it, copied, full) gone
                ]
        ]
      ]

  -- The first read of the ring leaves the connections.
  stored :
      (b : BackendType) (socket : ℕ) (m : Monitor) (answer : Option (List ℕ) × W)
      → (store_ring (reading b socket) (writing b socket) resume_briefly m answer).2 ≡ answer.1
  stored b socket m (none, w) = refl
  stored b socket m (some bytes, w) = refl

  update_ring-count :
      (b : BackendType) (socket : ℕ) (m : Monitor) (w : W)
      → opened (update_ring (reading b socket) (writing b socket) resume_briefly m w).2 ≡ opened w
  unfolding update_ring
  update_ring-count b socket m w =
      ap opened (stored b socket m (reading b socket w m.ring_address sizeof_ring))
      ∙ read b socket m.ring_address sizeof_ring w

  with_socket-count :
      (b : BackendType) (ring_address : ℕ) (snapshot_mode : Bool) (socket : Option ℕ) (w : W)
      (n : ℕ)
      → opened w ≡ n + count socket
      → let (made, w') =
          with_socket backend_openocd backend_gdb resume_briefly malloc fclose monitor_size
            control_size b ring_address snapshot_mode
            (socket, w) in
        opened w' ≡ n + count made
  with_socket-count b ring_address snapshot_mode none w n e = e
  with_socket-count b ring_address snapshot_mode (some socket) w n e =
      with_ring-count _ _ _ n (update_ring-count b socket _ w ∙ e)

  connect-count :
      (a : Address) (r : ℕ) (snapshot_mode : Bool) (w : W)
      → let (made, w') = opening a r snapshot_mode w in opened w' ≡ opened w + count made
  unfolding monitor_connect
  connect-count a r snapshot_mode w =
      let tried = backend_connect backend_openocd backend_gdb (number_of a.type) a w in
      elim (Bool-cases (malloc monitor_size w)) [
        | inl room ↦ rw room (
            with_socket-count a.type r snapshot_mode tried.0 tried.1 (opened w)
              (connected a.type a w))
        | inr full ↦ rw full (omega arith)
      ]

  module _ (fopen : List ℕ → W → Option F × W)
      (monitor_run : Bool → Bool → Session F → W → Session F × W) (monitor_restore_terminal : W → W)
      (opens : (path : List ℕ) (w : W) → opened (fopen path w).1 ≡ opened w)
      (runs : (t b : Bool) (s : Session F) (w : W) → opened (monitor_run t b s w).1 ≡ opened w)
      (restores : (w : W) → opened (monitor_restore_terminal w) ≡ opened w) where
    -- With two backends that open one connection where they connect, none where they do not, close one
    -- where they disconnect and keep the connections where they read, and with a run, files and a
    -- terminal that leave the connections: `main`, over `monitor_connect` and
    -- `monitor_disconnect`, closes what it opens. On every command line it returns with as many
    -- connections as there were, also where the ring is not found, there is no memory, or the input
    -- file is not there.
    pub main-Disconnected :
        (args : List (List ℕ)) (w : W)
        → opened
            (main opening fopen monitor_run monitor_restore_terminal closing set_input args w).1
          ≡ opened w
    main-Disconnected =
        main-Released opening fopen monitor_run monitor_restore_terminal closing set_input opened
          (record {
            connects = connect-count;
            opens = opens;
            runs = runs;
            restores = restores;
            disconnects = disconnected;
          })
