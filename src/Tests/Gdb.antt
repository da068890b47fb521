-- ===== src/Tests/Gdb.antt =====
-- A session with the server of the tests, and single packets.
use dmlog.Base.{
  ℕ, ◌+◌, ◌^◌, ◌%◌, ◌≡◌, ◌≢◌, ◌≤◌, refl, false, some, List, [], ◌∷◌, ◌++◌, length, arith, take,
}
use dmlog.Gdb.{frame, hash, dollar, decode_rle}
use dmlog.Gdb.Runs.{Run, encode, expand, decode_rle-encode}
use dmlog.Gdb.Session.{
  World, done, on, and_then, plus, receive_packet, read_memory, write_memory, read_command,
  write_command,
}
use dmlog.Gdb.Session.Packets.{Without, receive_packet-frame}
use dmlog.Gdb.Session.Ends.{Ended, receive_packet-Ended}
use dmlog.Gdb.Session.Running.{Leaves, memory_calls-Leaves}
use dmlog.Gdb.Session.Bounds.{commands-fit}
use dmlog.Gdb.Session.Memory.{overwrite}
use dmlog.Gdb.Session.Memory.Write.{write_memory-overwrite, read_memory-write_memory}
use dmlog.Tests.GdbServer.{Target, server_send, server_recv, server_select, server}

abbrev memory : ℕ → ℕ
memory i = i % 256

abbrev coming : List ℕ → World Target
coming bytes = record {
  socket = record { incoming = bytes; cells = memory };
  target_is_running = false;
}

abbrev text : List ℕ
text = b'O' ∷ b'K' ∷ []

Without-two : (c x y : ℕ) → x ≢ c → y ≢ c → Without c (x ∷ y ∷ [])
Without-two c x y p q = (p, (q, tt))

receive_packet-frame_example :
    (s : Target) × (receive_packet server_send server_recv 3 256
        (coming (7 ∷ 8 ∷ (frame text ++ 9 ∷ [])))
      ≡ done text (on (coming []) (server_send s (plus ∷ [])).1))
    × (s.incoming ≡ 9 ∷ [])
receive_packet-frame_example =
    receive_packet-frame server_send server_recv (λ t. t.incoming) (λ t n. (refl, refl))
      (7 ∷ 8 ∷ []) text (9 ∷ []) 3 256 (coming (7 ∷ 8 ∷ (frame text ++ 9 ∷ [])))
      (Without-two dollar 7 8 (λ e. absurd (omega arith)) (λ e. absurd (omega arith)))
      (Without-two 0 b'O' b'K' (λ e. absurd (omega arith)) (λ e. absurd (omega arith)))
      (Without-two hash b'O' b'K' (λ e. absurd (omega arith)) (λ e. absurd (omega arith)))
      (omega arith) (omega arith) refl

receive_packet-Ended_example :
    Ended (receive_packet server_send server_recv 4 256 (coming (1 ∷ 2 ∷ 3 ∷ [])))
receive_packet-Ended_example =
    receive_packet-Ended server_send server_recv (λ t. t.incoming) (λ t n. (refl, refl)) 4 256
      (coming (1 ∷ 2 ∷ 3 ∷ [])) (omega arith)

write_memory-overwrite_example :
    (s : Target) × (write_memory server_send server_recv server_select 1 4096
        (5 ∷ 255 ∷ [])
        (coming [])
      ≡ done tt (on (coming []) s))
    × (s.incoming ≡ [])
    × (s.cells ≡ overwrite memory 4096 (5 ∷ 255 ∷ []))
write_memory-overwrite_example =
    write_memory-overwrite server_send server_recv server_select (λ t. t.incoming) (λ t. t.cells)
      server 1 4096 (5 ∷ 255 ∷ []) (coming []) (omega arith) (omega arith)
      (omega arith, (omega arith, tt)) refl refl

read_memory-write_memory_example :
    (s : Target) × (and_then
        (write_memory server_send server_recv server_select 1 4096 (5 ∷ 255 ∷ []) (coming []))
        (λ _. read_memory server_send server_recv server_select 1 4096 2)
      ≡ done (5 ∷ 255 ∷ []) (on (coming []) s))
    × (s.cells ≡ overwrite memory 4096 (5 ∷ 255 ∷ []))
read_memory-write_memory_example =
    read_memory-write_memory server_send server_recv server_select (λ t. t.incoming) (λ t. t.cells)
      server 1 4096 (5 ∷ 255 ∷ []) (coming []) (omega arith) (omega arith) (omega arith)
      (omega arith, (omega arith, tt)) refl refl

always_sent : (t : Target) (bytes : List ℕ) → (n : ℕ) × ((server_send t bytes).0 ≡ some n)
always_sent t [] = (0, refl)
always_sent t (x ∷ []) = (1, refl)
always_sent t (x ∷ y ∷ bytes) = (length bytes + 2, refl)

memory_calls-Leaves_example :
    Leaves false (read_memory server_send server_recv server_select 1 4096 2 (coming []))
    × Leaves false (write_memory server_send server_recv server_select 1 4096 (5 ∷ []) (coming []))
memory_calls-Leaves_example =
    memory_calls-Leaves server_send server_recv server_select always_sent 1 4096 2 (5 ∷ [])
      (coming [])

commands-fit_example :
    (length (read_command (2 ^ 63) 64) + 1 ≤ 64)
    × (length (frame (read_command (2 ^ 63) 64)) + 1 ≤ 4096)
    × (length (write_command (2 ^ 63) (1 ∷ [])) + 1 ≤ 4096)
    × (length (frame (write_command (2 ^ 63) (1 ∷ []))) + 1 ≤ 4096)
commands-fit_example = commands-fit (2 ^ 63) 64 (1 ∷ []) (omega arith)

-- "0" and three more of it, then "7".
abbrev runs : List Run
runs = record { char = b'0'; repeats = 3 } ∷ record { char = b'7'; repeats = 0 } ∷ []

decode_rle-encode_example : decode_rle (encode runs) 8192 ≡ some (take 8191 (expand runs))
decode_rle-encode_example = decode_rle-encode runs 8192 (
  (λ e. absurd (omega arith)),
  (λ e. absurd (omega arith)),
  ((λ e. absurd (omega arith)), (λ e. absurd (omega arith)), tt),
)
