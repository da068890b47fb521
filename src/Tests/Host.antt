-- ===== src/Tests/Host.antt =====
-- Requests of a target that the host answers, and entries that it prints.
use dmlog.Base.{
  ℕ, ◌+◌, ◌-◌, ◌≡◌, ◌≢◌, refl, ap, inr, Bool, true, false, not, Option, none, some, List, [], ◌∷◌,
  ◌++◌, arith, length, get_or, replicate, take, drop, ◌==◌, if◌then◌else◌,
}
use dmlog.Flag
use dmlog.Word.{has}
use dmlog.Monitor.{Monitor, to_bytes, is_buffer_empty}
use dmlog.Monitor.Buffer.{slice}
use dmlog.Monitor.Run.{print_loop}
use dmlog.Monitor.Run.Prints.{Steady, print_loop-unread}
use dmlog.Monitor.Files.Transfers.{Files}
use dmlog.Monitor.Answer.{Source, normal, handle_input_request}
use dmlog.Monitor.Answer.Restored.{Leaves, handle_input_request-Leaves}
use dmlog.Gdb.Session.Memory.{overwrite}
use dmlog.Gdb.Session.Packets.{Without}
use dmlog.OpenOcd.Dump.{dumped}
use dmlog.OpenOcd.Dump.Line.{parse_memory_line-dumped}
use dmlog.OpenOcd.{parse_memory_line, contains_prompt}
use dmlog.OpenOcd.Session.{write_memory}
use dmlog.OpenOcd.Connect.{read_welcome}
use dmlog.OpenOcd.Connect.Welcome.{read_welcome-waits}
use dmlog.OpenOcd.Commands.{IsWrite, executed}
use dmlog.OpenOcd.Answers.{Gives, Answers}
use dmlog.OpenOcd.Stores.{write_memory-stored}
use dmlog.Tests.{sample}

abbrev monitor : Monitor
monitor = record {
  ring = sample.ring;
  ring_address = 100;
  tail_offset = 3;
  entry_buffer = [];
  owns_busy_flag = false;
}

abbrev cell : ℕ → ℕ
cell i = get_or sample.buffer i 0

-- The output ring lies at 1000, and nothing ever changes.
abbrev read_ring : Unit {0} → ℕ → ℕ → Option (List ℕ) × Unit {0}
read_ring w address n = (some (slice cell (address - 1000) n), w)

abbrev write_all : Unit {0} → ℕ → List ℕ → Bool × Unit {0}
write_all w address bytes = (true, w)

abbrev same : Unit {0} → Unit {0}
same w = w

not_busy : has monitor.ring.flags Flag.busy ≡ false
unfolding has
not_busy = refl

-- Every world will do.
abbrev AnyWorld : Unit {0} → Type 0
AnyWorld w = Unit {0}

steady : Steady read_ring write_all same (λ w. []) AnyWorld cell monitor
steady = record {
  shows = λ w h n rests short fits. (ap (λ k. some (slice cell k n)) (omega arith), tt);
  free = inr not_busy;
  not_owner = refl;
  head_in = omega arith;
  tail_in = omega arith;
  small = omega arith;
}

print_loop-unread_example :
    (m' : Monitor) × (w' : Unit {0}) × (print_loop read_ring write_all same
        (λ w. [])
        3
        1
        false
        false
        monitor
        tt
        (7 ∷ [])
      ≡ some (true, m', w', 7 ∷ 98 ∷ 97 ∷ []))
    × (is_buffer_empty m' ≡ true)
    × (m'.ring ≡ monitor.ring)
    × AnyWorld w'
print_loop-unread_example =
    print_loop-unread read_ring write_all same (λ w. []) AnyWorld cell 3 1 monitor tt (7 ∷ [])
      (omega arith) steady tt (omega arith)
      ((λ e. absurd (omega arith)), ((λ e. absurd (omega arith)), tt))

-- The second chunk of a file, of 2 bytes from 2 on, in a buffer at 1000; it goes to or comes from "a".
abbrev struct : List ℕ
struct =
    232 ∷ 3 ∷ 0 ∷ 0 ∷ 0 ∷ 0 ∷ 0 ∷ 0 ∷ 2 ∷ 0 ∷ 0 ∷ 0 ∷ 4 ∷ 0 ∷ 0 ∷ 0 ∷ 2 ∷ 0 ∷ 0 ∷ 0 ∷ 0 ∷ 0 ∷ 0 ∷ 0
    ∷ 97 ∷ 0 ∷ []

abbrev read_struct : Unit {0} → ℕ → ℕ → Option (List ℕ) × Unit {0}
read_struct w address n = (some (if n == 280 then struct else 7 ∷ 8 ∷ []), w)

abbrev asking : ℕ → Monitor
asking flags = record monitor { ring = record (monitor.ring) { flags = flags } }

-- A file is what it holds and the position in it.
abbrev File : Type 0
File = List ℕ × ℕ

abbrev open_file : File → List ℕ → List ℕ → Bool × File
open_file f name mode = if get_or mode 0 0 == b'w' then (true, ([], 0)) else (true, (f.0, 0))

abbrev seek : File → ℕ → Bool × File
seek f offset = (true, (f.0, offset))

abbrev write : File → List ℕ → ℕ × File
write f bytes = (length bytes, (replicate f.1 0 ++ bytes, f.1 + length bytes))

abbrev close : File → File
close f = f

has_request :
    (has 0x40 Flag.file_send_req ≡ true)
    × (has 0x80 Flag.file_recv_req ≡ true)
    × (has 0x8 Flag.input_requested ≡ true)
unfolding has
has_request = (refl, refl, refl)

abbrev take_two : File → ℕ → List ℕ × File
take_two f n = (3 ∷ 4 ∷ [], f)

-- An input file of one line.
abbrev read_file : List ℕ → Option (List ℕ) × List ℕ
read_file [] = (none, [])
read_file (x ∷ xs) = (some (x ∷ 10 ∷ []), xs)

abbrev source : Source (List ℕ)
source = record { input_file = none; init_script_mode = false; stdin = 104 ∷ []; terminal = normal }

handle_input_request-Leaves_example :
    Leaves read_file
      (λ f. true)
      (λ f. false)
      read_ring
      write_all
      same
      (record {
        echo_on = not (has 0x8 Flag.input_echo_off);
        line_mode = has 0x8 Flag.input_line_mode;
      })
      (handle_input_request read_file
        (λ f. true)
        (λ f. false)
        read_ring
        write_all
        same
        1
        (asking 0x8)
        tt
        source)
handle_input_request-Leaves_example =
    handle_input_request-Leaves read_file (λ f. true) (λ f. false) read_ring write_all same 1
      (asking 0x8) tt source has_request.2

-- An OpenOCD that reads a line, carries it out, echoes it and prompts.
record Board : Type 0 where
  incoming : List ℕ
  cells : ℕ → ℕ

abbrev board_send : Board → List ℕ → Bool × Board
board_send b line = (
  true,
  record { incoming = (b.incoming ++ line) ++ 13 ∷ b'>' ∷ 32 ∷ []; cells = executed line b.cells },
)

abbrev board_recv : Board → ℕ → Option (List ℕ) × Board
board_recv b n = (some (take n b.incoming), record b { incoming = drop n b.incoming })

board_recv-Gives : Gives board_send board_recv (λ b. b.incoming) (λ b. b.cells)
board_recv-Gives b c cs e = (ap (λ xs. some (take 1 xs)) e, ap (drop 1) e, refl)

board_send-Answers : Answers board_send board_recv (λ b. b.incoming) (λ b. b.cells) IsWrite executed
board_send-Answers b line known = (refl, refl, refl)

-- Five bytes: a word and a byte behind it.
write_memory-stored_example :
    (b : Board) × (write_memory board_send board_recv 3 16
        (5 ∷ 6 ∷ 7 ∷ 8 ∷ 9 ∷ [])
        (record { incoming = 32 ∷ []; cells = λ i. 0 })
      ≡ some (true, b))
    × (b.cells ≡ overwrite (λ i. 0) 16 (5 ∷ 6 ∷ 7 ∷ 8 ∷ 9 ∷ []))
write_memory-stored_example =
    write_memory-stored board_send board_recv (λ b. b.incoming) (λ b. b.cells) board_recv-Gives
      board_send-Answers 3 16 (5 ∷ 6 ∷ 7 ∷ 8 ∷ 9 ∷ [])
      (record { incoming = 32 ∷ []; cells = λ i. 0 }) (omega arith) (inr refl)
      (omega arith, (omega arith, (omega arith, (omega arith, (omega arith, tt))))) (omega arith)

Without-four : (c x y z u : ℕ) → x ≢ c → y ≢ c → z ≢ c → u ≢ c → Without c (x ∷ y ∷ z ∷ u ∷ [])
Without-four c x y z u p q r s = (p, (q, (r, (s, tt))))

-- "0x10: 00000001 00010203 " into 6 bytes, of which none is stored yet.
parse_memory_line-dumped_example :
    parse_memory_line
      (48 ∷ 120 ∷ 49 ∷ 48 ∷ b':' ∷ 32 ∷ (dumped (1 ∷ 0x10203 ∷ []) ++ b'\n' ∷ []))
      6
      []
    ≡ (true, 1 ∷ 0 ∷ 0 ∷ 0 ∷ 3 ∷ 2 ∷ [])
unfolding to_bytes
parse_memory_line-dumped_example =
    parse_memory_line-dumped (48 ∷ 120 ∷ 49 ∷ 48 ∷ []) (1 ∷ 0x10203 ∷ []) [] 6 []
      (Without-four 0 48 120 49 48 (λ e. absurd (omega arith)) (λ e. absurd (omega arith))
        (λ e. absurd (omega arith)) (λ e. absurd (omega arith)))
      (Without-four b':' 48 120 49 48 (λ e. absurd (omega arith)) (λ e. absurd (omega arith))
        (λ e. absurd (omega arith)) (λ e. absurd (omega arith)))
      (omega arith, (omega arith, tt)) (omega arith) (omega arith)

-- A server that says something without a prompt and ends the connection.
abbrev greet : Unit {0} → ℕ → Option (List ℕ) × Unit {0}
greet s n = (some (b'h' ∷ b'i' ∷ []), s)

abbrev end_of_line : Unit {0} → ℕ → Option (List ℕ) × Unit {0}
end_of_line s n = (some [], s)

no_prompt : contains_prompt (b'h' ∷ b'i' ∷ []) ≡ false
unfolding contains_prompt
no_prompt = refl

read_welcome-waits_example : read_welcome (λ s bytes. (true, s)) greet end_of_line 1000 tt ≡ none
read_welcome-waits_example =
    read_welcome-waits (λ s bytes. (true, s)) greet end_of_line 1000 tt (b'h' ∷ b'i' ∷ []) refl
      no_prompt (λ s. refl)
