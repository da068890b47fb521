-- ===== src/Tests/History.antt =====
-- Sequences of turns on a context.
use dmlog.Base.{
  ℕ, ◌+◌, ◌%◌, ◌^◌, ap, Bool, true, Option, ◌-◌, ◌≡◌, ◌≢◌, refl, false, some, List, [], ◌∷◌, ◌++◌,
  arith, last_n,
}
use dmlog.Flag
use dmlog.Word.{raise}
use dmlog.Context.{max_entry_size, Context, set_flags, clear}
use dmlog.Context.Invariant.{clear_asked}
use dmlog.Output.{cstring, putc, puts, flush}
use dmlog.Output.Putc.{log}
use dmlog.Input.{input_getc}
use dmlog.Life.{input_part, create}
use dmlog.Life.Create.{Fresh, create-Ready}
use dmlog.History.{Says, SaysAll, Turn, Reach}
use dmlog.History.Invariant.{Sound, Reach-Sound}
use dmlog.History.Log.{created-Log}
use dmlog.Context.Invariant.{pending, output_cell}
use dmlog.Output.Flush.{flush-Keeps}
use dmlog.Monitor.{Monitor, is_buffer_empty}
use dmlog.Monitor.Buffer.{Shows, slice}
use dmlog.Monitor.Connect.{cleared_monitor}
use dmlog.Monitor.Run.{print_loop}
use dmlog.Delivery.{looking_at, print_loop-said}
use dmlog.Tests.{sample, sample-WellFormed, sample-Locked}
use dmlog.Tests.Input.{sample-NoZeros}

sample-Sound : Sound 4 sample
sample-Sound = record {
  well = sample-WellFormed;
  big = omega arith;
  same_size = refl;
  clean = sample-NoZeros;
  free = sample-Locked;
}

-- A character is logged, the host asks for a clear buffer, a text and a character are logged, the
-- input is read, and the target clears the log.
abbrev asked_to_clear : Context
asked_to_clear = let c = (putc sample 120).1 in set_flags c (raise c.ring.flags Flag.clear_buffer)

abbrev last_context : Context
last_context = clear (input_getc (putc (puts asked_to_clear (104 ∷ 105 ∷ [])).1 10).1).1

last_reached : Reach sample last_context
last_reached =
    let first = Reach.next Reach.here (Turn.says (Says.putc {c = sample} 120)) in
    let printed =
      Reach.next (Reach.next first Turn.asks_to_clear)
        (Turn.says (Says.puts {c = asked_to_clear} (104 ∷ 105 ∷ []))) in
    Reach.next
      (Reach.next (Reach.next printed (Turn.says (Says.putc 10))) (Turn.says Says.input_getc))
      Turn.clear

Reach-Sound_example : Sound 4 last_context
Reach-Sound_example = Reach-Sound sample-Sound last_reached

-- "v1\n"
abbrev version : List ℕ
version = 118 ∷ 49 ∷ 10 ∷ 0 ∷ []

abbrev memory : Context
memory = record sample { ring = record (sample.ring) { magic = 0 } }

version_some : cstring version ≢ []
version_some e = cc

made : (d : Context) × (create 56 version memory 64 ≡ some d) × Fresh 8 version d
made =
    create-Ready 56 version memory 64 (omega arith) (omega arith) (omega arith) (omega arith) refl
      (omega arith) version_some

-- Before the last flush.
abbrev unflushed : Context
unflushed = (input_getc (puts (putc made.0 111).1 (107 ∷ 10 ∷ [])).1).1

said_before : SaysAll made.0 (111 ∷ 107 ∷ 10 ∷ []) unflushed
said_before =
    SaysAll.more
      (SaysAll.more (SaysAll.more SaysAll.none_yet (Says.putc 111)) (Says.puts (107 ∷ 10 ∷ [])))
      Says.input_getc

abbrev said : Context
said = (flush unflushed).1

said_all : SaysAll made.0 (111 ∷ 107 ∷ 10 ∷ []) said
said_all = SaysAll.more said_before Says.flush

created-Log_example :
    let size = 8 - input_part 8 in
    (last_n (size - 1) (log said) ≡ last_n (size - 1) (cstring version ++ 111 ∷ 107 ∷ 10 ∷ []))
    × Sound size said
    × (clear_asked said ≡ false)
created-Log_example = created-Log made.2 said_all

said_flushed : pending said ≡ []
said_flushed =
    let (logged, sound, not_asked) = created-Log made.2 said_before in
    (flush-Keeps sound.well sound.big).1

-- A backend that reads the output ring of the context, wherever that lies.
abbrev read_ring : Unit {0} → ℕ → ℕ → Option (List ℕ) × Unit {0}
read_ring w address n = (
  some (slice (output_cell said) ((address + (2 ^ 32 - said.ring.buffer % 2 ^ 32)) % 2 ^ 32) n),
  w,
)

abbrev write_all : Unit {0} → ℕ → List ℕ → Bool × Unit {0}
write_all w address bytes = (true, w)

abbrev same : Unit {0} → Unit {0}
same w = w

-- Every world will do.
abbrev AnyWorld : Unit {0} → Type 0
AnyWorld w = Unit {0}

said-Shows : Shows read_ring AnyWorld max_entry_size (output_cell said) said.ring
said-Shows w h n rests short fits =
    let (logged, sound, not_asked) = created-Log made.2 said_all in
    (ap (λ k. some (slice (output_cell said) k n)) (omega (arith, sound.well.sizes)), tt)

abbrev monitor : Monitor
monitor = record cleared_monitor { ring_address = 100 }

print_loop-said_example :
    (m' : Monitor) × (w' : Unit {0}) × (print_loop read_ring write_all same
        (λ w. [])
        8
        1
        false
        false
        (looking_at said monitor)
        tt
        []
      ≡ some (
        true,
        m',
        w',
        [] ++ last_n (8 - input_part 8 - 1) (cstring version ++ 111 ∷ 107 ∷ 10 ∷ []),
      ))
    × (is_buffer_empty m' ≡ true)
    × AnyWorld w'
print_loop-said_example =
    print_loop-said read_ring write_all same (λ w. []) AnyWorld 8 1 monitor tt [] made.2 said_all
      said_flushed
      (
        (λ e. absurd (omega arith)),
        ((λ e. absurd (omega arith)), ((λ e. absurd (omega arith)), tt)),
      )
      said-Shows tt (omega arith) (omega arith)
