-- ===== src/Tests/Snapshot.antt =====
-- Snapshots of a target that does nothing.
use dmlog.Base.{ℕ, ◌≡◌, refl, Bool, true, false, Option, some, List, [], ◌++◌, arith}
use dmlog.Word.{has}
use dmlog.Context.{Context}
use dmlog.Context.Invariant.{contents}
use dmlog.Monitor.{Monitor}
use dmlog.Monitor.Snapshot.{run_snapshot}
use dmlog.Monitor.Snapshot.Drain.{stamped}
use dmlog.Monitor.Snapshot.Rounds.{Idle, repeated, run_snapshot-repeated}
use dmlog.Tests.{sample, sample-WellFormed}

abbrev monitor : Monitor
monitor = record {
  ring = sample.ring;
  ring_address = 100;
  tail_offset = 3;
  entry_buffer = [];
  owns_busy_flag = false;
}

abbrev read_all : Unit {0} → ℕ → ℕ → Option (List ℕ) × Unit {0}
read_all w address n = (some [], w)

abbrev write_all : Unit {0} → ℕ → List ℕ → Bool × Unit {0}
write_all w address bytes = (true, w)

abbrev same : Unit {0} → Unit {0}
same w = w

abbrev layout : List ℕ → Context
layout bytes = sample

abbrev no_request : Monitor → Unit {0} → Unit {0} → Option (Bool × Monitor × Unit {0} × Unit {0})
no_request m w h = some (false, m, w, h)

idle : Idle read_all write_all same layout (λ w. []) same no_request 60 monitor tt tt sample
unfolding has
idle = record {
  bytes = [];
  not_busy = refl;
  answers = refl;
  layout = refl;
  well = sample-WellFormed;
  unlocked = refl;
  clean = ((λ e. absurd (omega arith)), ((λ e. absurd (omega arith)), tt));
  outcome = false;
  no_request = refl;
  sleeps = refl;
}

-- "ba" is printed again and again.
run_snapshot-repeated_example :
    (run_snapshot read_all write_all same layout
        (λ w. [])
        same
        no_request
        5
        3
        1
        false
        false
        (some 60)
        monitor
        tt
        tt
        []
      ≡ run_snapshot read_all write_all same layout
          (λ w. [])
          same
          no_request
          2
          3
          1
          false
          false
          (some 60)
          monitor
          tt
          tt
          ([] ++ repeated 3 (stamped 2 [] (contents sample))))
    × (stamped 2 [] (contents sample) ≡ contents sample)
run_snapshot-repeated_example =
    run_snapshot-repeated read_all write_all same layout (λ w. []) same no_request 2 0 60 false
      monitor tt tt sample idle 3 2 [] (omega arith)
