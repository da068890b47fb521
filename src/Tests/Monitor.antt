-- ===== src/Tests/Monitor.antt =====
-- Runs of the monitor over a target whose memory does not change.
use dmlog.Base.{
  ℕ, ◌-◌, ◌≤◌, ◌≡◌, refl, inr, Bool, true, false, Option, some, List, [], ◌∷◌, ◌++◌, arith, get_or,
}
use dmlog.Word.{has}
use dmlog.Monitor.{Monitor, input_room}
use dmlog.Monitor.Buffer.{slice}
use dmlog.Monitor.Commands.{send_busy_command}
use dmlog.Monitor.Commands.Busy.{Took, send_busy_command-Took}
use dmlog.Monitor.Send.{head_after, write_input}
use dmlog.Monitor.Send.Grows.{input_of, write_input-grows}
use dmlog.Gdb.Session.Memory.{overwrite}
use dmlog.Tests.{sample}

abbrev monitor : Monitor
monitor = record {
  ring = sample.ring;
  ring_address = 100;
  tail_offset = 3;
  entry_buffer = [];
  owns_busy_flag = false;
}

abbrev cell : ℕ → ℕ
cell i = get_or sample.buffer i 0

-- The output ring lies at 1000, and nothing ever changes.
abbrev read_memory : Unit {0} → ℕ → ℕ → Option (List ℕ) × Unit {0}
read_memory w address n = (some (slice cell (address - 1000) n), w)

abbrev write_memory : Unit {0} → ℕ → List ℕ → Bool × Unit {0}
write_memory w address bytes = (true, w)

abbrev resume : Unit {0} → Unit {0}
resume w = w

not_busy : has monitor.ring.flags 2 ≡ false
unfolding has
not_busy = refl

send_busy_command-Took_example :
    (r : Bool) × (m' : Monitor) × (w' : Unit {0}) × (send_busy_command read_memory write_memory
        resume 1 monitor tt
      ≡ some (r, m', w'))
    × Took read_memory write_memory resume monitor r m'
send_busy_command-Took_example =
    send_busy_command-Took read_memory write_memory resume 1 monitor tt (omega arith) (inr not_busy)

one_fits : 1 ≤ input_room sample.ring
unfolding input_room
one_fits = omega arith

-- A memory that is written.
abbrev read_cells : (ℕ → ℕ) → ℕ → ℕ → Option (List ℕ) × (ℕ → ℕ)
read_cells memory a n = (some (slice memory a n), memory)

abbrev write_cells : (ℕ → ℕ) → ℕ → List ℕ → Bool × (ℕ → ℕ)
write_cells memory a bytes = (true, overwrite memory a bytes)

abbrev unchanged : (ℕ → ℕ) → ℕ → ℕ
unchanged memory = memory

write_input-grows_example :
    let (written, memory) =
      write_input read_cells write_cells unchanged sample.ring (7 ∷ []) cell in
    (written ≡ true)
    × (input_of read_cells write_cells unchanged unchanged sample.ring
          (head_after sample.ring 1)
          memory
        ≡ input_of read_cells write_cells unchanged unchanged sample.ring 3 cell ++ 7 ∷ [])
write_input-grows_example =
    write_input-grows read_cells write_cells unchanged unchanged sample.ring (7 ∷ []) cell
      (λ w a bytes. (refl, refl)) (omega arith) (omega arith) (omega arith) one_fits
