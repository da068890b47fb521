-- ===== src/Flag.antt =====
-- DMLOG_FLAG_* of include/dmlog.h, the bits of `dmlog_ring_t.flags`.
use dmlog.Base.{ℕ}

abbrev pub clear_buffer : ℕ
clear_buffer = 0x1

abbrev pub busy : ℕ
busy = 0x2

abbrev pub input_available : ℕ
input_available = 0x4

abbrev pub input_requested : ℕ
input_requested = 0x8

abbrev pub input_echo_off : ℕ
input_echo_off = 0x10

abbrev pub input_line_mode : ℕ
input_line_mode = 0x20

abbrev pub file_send_req : ℕ
file_send_req = 0x40

abbrev pub file_recv_req : ℕ
file_recv_req = 0x80

abbrev pub exit_requested : ℕ
exit_requested = 0x8000_0000
