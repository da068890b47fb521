-- ===== src/Lib.antt =====
-- dmlog: a log in a ring buffer that firmware writes and a host reads through its debugger, and an
-- input ring in the other direction.
--
-- Parts. `struct dmlog_ctx` (src/dmlog.c) is one block of memory: the control block `dmlog_ring_t`
-- (include/dmlog.h), three line buffers, and behind them the bytes of the two rings. The calls of
-- the writing side gather characters in the write buffer and flush them to the output ring, which
-- drops its oldest bytes when it is full. The reading side takes entries from the output ring
-- into the read buffer. The input side takes entries from the input ring, which the host fills,
-- into the input read buffer. All of them take a lock that counts its holders in `lock_recursion`
-- and shows in the flag BUSY; the host asks for things by the other flags. The kernel of DMOD
-- reaches the default context by `Dmod_WriteKernel` and `Dmod_ReadKernel`. The monitor
-- (tools/monitor) runs on the host: it keeps a copy of the control block, reads and writes the memory
-- of the target through a backend, GDB or OpenOCD, which a table chooses (tools/monitor/backend.c),
-- prints the entries and answers requests. Its options are read in tools/monitor/main.c.
--
-- Files.
--   Base, Base/*    names of the libraries, lists over native numbers, the last bytes of a list
--   Word, Word/*    `uint32_t` arithmetic and the bits of a flag word
--   Flag            DMLOG_FLAG_* of include/dmlog.h
--   Cells           a ring of cells between two positions
--   Context         `struct dmlog_ctx`, `dmlog_ring_t`, lock, positions of the output ring, the
--                   queries, `dmlog_clear`, `dmlog_exit_monitor`; Context/Invariant says what a
--                   well-formed context is and what the rings hold
--   Output          `dmlog_putc`, `dmlog_puts`, `dmlog_putsn`, `dmlog_flush`
--   Reader          `dmlog_read_next`, `dmlog_getc`, `dmlog_gets`, `dmlog_get_ref_buffer`
--   Input           `dmlog_input_available`, `dmlog_input_getc`, `dmlog_input_gets`,
--                   `dmlog_input_request` and the helpers of the input ring
--   Life            `dmlog_create`, `dmlog_destroy`
--   Kernel          the default context, `Dmod_WriteKernel`, `Dmod_ReadKernel`, the flags of the
--                   standard input
--   Monitor         tools/monitor/monitor.c, the copy of the ring that the host keeps, and reading
--                   bytes through it; Monitor/Commands the waits and the commands by flags
--                   (`monitor_update_ring` is `update_ring`, and so on), Monitor/Send
--                   `monitor_send_input`, Monitor/Answer `monitor_handle_input_request`,
--                   Monitor/Files the requests for files, Monitor/Run the loops of `monitor_run` in live
--                   mode, Monitor/Snapshot the snapshot mode, Monitor/Connect `monitor_connect` and
--                   `monitor_disconnect`, Monitor/Terminal the settings of the terminal
--   Backend         tools/monitor/backend.c, the table of backends and the calls through it
--   CommandLine     tools/monitor/main.c, the options and `main`
--   Transfer        `dmlog_file_send`; Transfer/Receive `dmlog_file_receive`
--   Gdb             tools/monitor/gdb.c, packets, digits and run lengths; Gdb/Session the calls on a
--                   socket (`gdb_receive_packet` is `receive_packet`, and so on), with
--                   `target_is_running` in the state; Gdb/Session/Memory reading and writing memory
--   OpenOcd         tools/monitor/openocd.c, dumps and commands; OpenOcd/Session the calls on a socket,
--                   OpenOcd/Connect `openocd_connect` and what it calls, OpenOcd/Commands what the
--                   server makes of the lines that write memory
--   History         the life of a context as a sequence of calls of the target and of what the host
--                   does between them
--   Delivery        the way of the log from the calls of the target to what the monitor prints, over
--                   the GDB protocol in Delivery/OverGdb, and of the input in Delivery/Typed
--   Tests, Tests/*  a sample context and runs on it
--
-- Correspondence. A function of src/dmlog.c that is called `dmlog_f` is `f` here, one of the
-- monitor loses its prefix (`monitor_`, `gdb_`, `openocd_`) as well; a static function keeps its
-- name. A function that changes `*ctx` returns the context after its result.
-- `buffer` of the model is the memory from `ctx->buffer` on, and the fields of the ring hold
-- addresses, as in the source. A `uint32_t` wraps at 2 ^ 32, a `size_t` at 2 ^ 64. A byte is a
-- number; only what is sent as hexadecimal digits or words has to be below 256.
--
-- Bounds and fuel. The loops of the reading side and of the input side run for at most
-- DMOD_LOG_MAX_ENTRY_SIZE - 1 turns, as in the source, and the other loops run over their text. Some
-- loops wait for another party. `dmlog_read_next` waits for BUSY to fall, and nothing on the
-- target does that meanwhile, so that a wait that begins does not end (`none`). `Dmod_ReadKernel`
-- waits for the host, whose turns are a parameter, on fuel, and more turns than the host needs are
-- enough. The waits of the monitor for the target are on fuel as well; where the host may write at
-- once, one turn is enough. `dmlog_file_send` and `dmlog_file_receive` move at
-- most one chunk for each byte of the file, and wait for the host, with its turns
-- a parameter, in the same way. `gdb_receive_packet` waits for the start of a packet on fuel, and one
-- turn more than bytes come is enough; `monitor_run` prints on one turn for each byte of the
-- ring and one more. The waits for an OpenOCD prompt, for
-- its welcome and for a line of input are on fuel, too. The snapshot loop has one turn for each byte of
-- the ring and one more, and its rounds, which end only with an error, are counted by fuel.
--
-- Not modelled. `Dmod_EnterCritical` and `Dmod_ExitCritical`, which make each call one step, the
-- trace output, the text of the usage, the signal handlers, DMOD_ASSERT_MSG, and what `printf` finds
-- behind a full entry where the host has BUSY. The calls of the system
-- (sockets, files, the terminal, memory) and the layout of `struct dmlog_ctx` are parameters. The
-- registration (src/dmlog_registrations.c) has no logic, and the tests are left out.
pub mod Backend
pub mod Base
pub mod Word
pub mod Delivery
pub mod Flag
pub mod Cells
pub mod CommandLine
pub mod Context
pub mod Output
pub mod Reader
pub mod History
pub mod Input
pub mod Life
pub mod Kernel
pub mod Tests
pub mod Monitor
pub mod Transfer
pub mod Gdb
pub mod OpenOcd
