-- ===== src/Tests/Delivery.antt =====
-- A log that goes over the GDB protocol to the monitor.
use dmlog.Base.{
  ℕ, zero, suc, ◌-◌, ◌≤◌, ◌<◌, ◌≡◌, refl, true, false, List, [], ◌∷◌, ◌++◌, arith, last_n,
  replicate, get_or, Bool, ap, ◌∙◌, some, Option,
}
use dmlog.Word.{has, raise, lower}
use dmlog.Context.{
  Context, magic_number, max_entry_size, zeros, is_valid, context_lock, context_unlock,
  get_free_space, write_byte_to_tail, read_byte_from_tail, left_entry_space,
}
use dmlog.Context.Invariant.{pending}
use dmlog.Output.{
  puts, puts_loop, putc, finish_text, flush, flush_loop, flush_byte, make_room, store_char,
  end_line, obey_clear,
}
use dmlog.Life.{input_part}
use dmlog.Life.Create.{Fresh}
use dmlog.History.{Says, SaysAll}
use dmlog.Gdb.Session.{World}
use dmlog.Monitor.{Monitor, is_buffer_empty}
use dmlog.Monitor.Connect.{cleared_monitor}
use dmlog.Monitor.Run.{print_loop}
use dmlog.Delivery.{looking_at}
use dmlog.Delivery.OverGdb.{
  Holds, Stopped, read_by_packets, write_by_packets, print_loop-by_packets,
}
use dmlog.Delivery.Typed.{Lies, seen_in, write_input-input_gets}
use dmlog.Gdb.Session.Memory.{overwrite}
use dmlog.Input.{input_gets}
use dmlog.Input.Stream.{stream}
use dmlog.Reader.Entry.{entry, after_entry}
use dmlog.Monitor.{input_room}
use dmlog.Monitor.Buffer.{slice}
use dmlog.Monitor.Send.{write_input, head_after}
use dmlog.Tests.{sample, sample-WellFormed}
use dmlog.Tests.Input.{sample-NoZeros}
use dmlog.Tests.GdbServer.{Target, server, server_send, server_recv, server_select}

-- 8 bytes, 7 of them for the output, and no version.
abbrev fresh : Context
fresh = record {
  ring = record {
    magic = magic_number;
    flags = 0;
    head_offset = 0;
    tail_offset = 0;
    buffer_size = 7;
    buffer = 1000;
    input_head_offset = 0;
    input_tail_offset = 0;
    input_buffer_size = 1;
    input_buffer = 1007;
    file_transfer = 0;
  };
  write_buffer = zeros max_entry_size;
  write_entry_offset = 0;
  read_buffer = zeros max_entry_size;
  read_entry_offset = 0;
  input_read_buffer = zeros max_entry_size;
  input_read_entry_offset = 0;
  lock_recursion = 0;
  buffer_address = 1000;
  buffer = zeros 8;
}

fresh-Fresh : Fresh 8 [] fresh
unfolding replicate input_part has
fresh-Fresh = record {
  ready = record {
    well = record {
      magic = refl;
      sizes = omega arith;
      memory = refl;
      placed = refl;
      head_in = omega arith;
      tail_in = omega arith;
      input_head_in = omega arith;
      input_tail_in = omega arith;
      write_buffer_size = refl;
      write_offset_in = omega arith;
      read_buffer_size = refl;
      read_offset_in = omega arith;
      input_read_buffer_size = refl;
      input_read_offset_in = omega arith;
    };
    big = omega arith;
    no_clear = refl;
  };
  holds = refl;
  no_pending = refl;
  no_input = refl;
  share = refl;
  free = record { depth = refl; busy = refl };
}

-- "ok\n"
abbrev said : Context
said = (puts fresh (111 ∷ 107 ∷ 10 ∷ [])).1

said_buffer : said.buffer ≡ 111 ∷ 107 ∷ 10 ∷ 0 ∷ 0 ∷ 0 ∷ 0 ∷ 0 ∷ []
unfolding puts puts_loop putc finish_text flush flush_loop flush_byte make_room store_char end_line
    obey_clear context_lock context_unlock is_valid has raise lower get_free_space
    write_byte_to_tail read_byte_from_tail left_entry_space replicate
said_buffer = refl

said_place : (said.ring.buffer ≡ 1000) × (said.ring.buffer_size ≡ 7)
unfolding puts puts_loop putc finish_text flush flush_loop flush_byte make_room store_char end_line
    obey_clear context_lock context_unlock is_valid has raise lower get_free_space
    write_byte_to_tail read_byte_from_tail left_entry_space replicate
said_place = (refl, refl)

said_flushed : pending said ≡ []
unfolding puts puts_loop putc finish_text flush flush_loop flush_byte make_room store_char end_line
    obey_clear context_lock context_unlock is_valid has raise lower get_free_space
    write_byte_to_tail read_byte_from_tail left_entry_space replicate
said_flushed = refl

said_all : SaysAll fresh (111 ∷ 107 ∷ 10 ∷ []) said
said_all = SaysAll.more SaysAll.none_yet (Says.puts (111 ∷ 107 ∷ 10 ∷ []))

-- The memory of the target.
abbrev memory : ℕ → ℕ
memory a = get_or (111 ∷ 107 ∷ 10 ∷ []) (a - 1000) 0

memory_small : (a : ℕ) → memory a < 256
memory_small a = by_index (a - 1000)
  where
    by_index : (i : ℕ) → get_or (111 ∷ 107 ∷ 10 ∷ []) i 0 < 256
    by_index zero = omega arith
    by_index (suc zero) = omega arith
    by_index (suc (suc zero)) = omega arith
    by_index (suc (suc (suc i))) = omega arith

abbrev line : List ℕ
line = 111 ∷ 107 ∷ 10 ∷ []

abbrev ring_bytes : List ℕ
ring_bytes = 111 ∷ 107 ∷ 10 ∷ 0 ∷ 0 ∷ 0 ∷ 0 ∷ 0 ∷ []

said_cells : (i : ℕ) → i < 7 → get_or ring_bytes i 0 ≡ get_or line i 0
unfolding replicate
said_cells zero h = refl
said_cells (suc zero) h = refl
said_cells (suc (suc zero)) h = refl
said_cells (suc (suc (suc i))) h = later i
  where
    later : (i : ℕ) → get_or (zeros 5) i 0 ≡ 0
    later zero = refl
    later (suc zero) = refl
    later (suc (suc zero)) = refl
    later (suc (suc (suc zero))) = refl
    later (suc (suc (suc (suc zero)))) = refl
    later (suc (suc (suc (suc (suc i))))) = refl

-- The server of the other tests, with this memory.
abbrev world : World Target
world = record { socket = record { incoming = []; cells = memory }; target_is_running = false }

said-Holds :
    Holds server_send server_recv server_select 1 (λ t. t.incoming) (λ t. t.cells) memory said
said-Holds = record {
  cells_at = λ i h.
      ap (λ b. get_or b i 0) said_buffer
      ∙ said_cells i (omega (arith, said_place))
      ∙ ap (λ k. get_or (111 ∷ 107 ∷ 10 ∷ []) k 0) (omega (arith, said_place));
  bytes = memory_small;
  in_range = omega (arith, said_place);
}

abbrev monitor : Monitor
monitor = record cleared_monitor { ring_address = 900 }

abbrev same : World Target → World Target
same w = w

print_loop-by_packets_example :
    (m' : Monitor) × (w' : World Target) × (print_loop
        (read_by_packets server_send server_recv server_select 1)
        (write_by_packets server_send server_recv server_select 1)
        same
        (λ w. [])
        8
        1
        false
        false
        (looking_at said monitor)
        world
        []
      ≡ some (true, m', w', [] ++ last_n (8 - input_part 8 - 1) (111 ∷ 107 ∷ 10 ∷ [])))
    × (is_buffer_empty m' ≡ true)
    × Stopped server_send server_recv server_select 1 (λ t. t.incoming) (λ t. t.cells) memory w'
print_loop-by_packets_example =
    print_loop-by_packets server_send server_recv server_select 1 (λ t. t.incoming) (λ t. t.cells)
      memory same (λ w. []) 8 1 monitor world [] server (omega arith) fresh-Fresh said_all
      said_flushed
      (
        (λ e. absurd (omega arith)),
        ((λ e. absurd (omega arith)), ((λ e. absurd (omega arith)), tt)),
      )
      said-Holds (record { quiet = refl; stopped = refl; holds = refl }) (omega arith) (omega arith)

-- The memory of the sample context, which is written.
abbrev sample_memory : ℕ → ℕ
sample_memory a = get_or sample.buffer (a - 1000) 0

abbrev read_cells : (ℕ → ℕ) → ℕ → ℕ → Option (List ℕ) × (ℕ → ℕ)
read_cells m a n = (some (slice m a n), m)

abbrev write_cells : (ℕ → ℕ) → ℕ → List ℕ → Bool × (ℕ → ℕ)
write_cells m a bytes = (true, overwrite m a bytes)

abbrev unchanged : (ℕ → ℕ) → ℕ → ℕ
unchanged m = m

sample-Lies : Lies sample_memory sample
sample-Lies = record {
  cells_at = λ i h. ap (λ k. get_or sample.buffer k 0) (omega arith);
  in_range = omega arith;
}

one_fits : 1 ≤ input_room sample.ring
unfolding input_room
one_fits = omega arith

-- "h\n" is waiting, and "x" comes behind it.
write_input-input_gets_example :
    let (written, m) =
      write_input read_cells write_cells unchanged sample.ring (120 ∷ []) sample_memory in
    let now = seen_in m (head_after sample.ring 1) sample in
    let (found, stored, done) = input_gets now 10 in
    (written ≡ true)
    × (stored ≡ entry 9 (stream sample ++ 120 ∷ []) ++ 0 ∷ [])
    × (stream done ≡ after_entry 9 (stream sample ++ 120 ∷ []))
write_input-input_gets_example =
    write_input-input_gets read_cells write_cells unchanged unchanged {c = sample} 10 (120 ∷ [])
      sample_memory (λ w a bytes. (refl, refl)) sample-WellFormed sample-NoZeros (omega arith)
      sample-Lies one_fits ((λ e. absurd (omega arith)), tt) (omega arith) (omega arith)
