-- ===== src/Delivery/OverGdb.antt =====
-- The way of the log over tools/monitor/gdb.c: the calls of the backend are packets to a GDB server that
-- serves the memory of the target.
use dmlog.Base.{
  ℕ, zero, suc, ◌+◌, ◌-◌, ◌^◌, ◌≤◌, ◌<◌, ◌≡◌, refl, ap, ap₂, sym, ◌∙◌, subst, Bool, true, false,
  Option, none, some, List, [], ◌∷◌, ◌++◌, arith, last_n,
}
use dmlog.Word.{add32}
use dmlog.Context.{Context, max_entry_size}
use dmlog.Context.Invariant.{pending, output_cell}
use dmlog.Output.{cstring}
use dmlog.Life.{input_part}
use dmlog.Life.Create.{Fresh}
use dmlog.History.{SaysAll}
use dmlog.Gdb.Hex.{AllBytes}
use dmlog.Gdb.Session.{World, Reply, done, failed, waiting, read_memory, write_memory}
use dmlog.Gdb.Session.Packets.{Without}
use dmlog.Gdb.Session.Memory.{Server}
use dmlog.Gdb.Session.Memory.Read.{read_memory-slice}
use dmlog.Monitor.{Monitor, is_buffer_empty}
use dmlog.Monitor.Buffer.{Shows, slice}
use dmlog.Monitor.Run.{print_loop}
use dmlog.Delivery.{looking_at, print_loop-said}

-- The cells of a ring as they lie in memory.
slice-shift :
    (cell memory : ℕ → ℕ) (base size : ℕ)
    → ((i : ℕ) → i < size → cell i ≡ memory (base + i))
    → (h n : ℕ) → h + n ≤ size
    → slice cell h n ≡ slice memory (base + h) n
slice-shift cell memory base size same h zero fits = refl
slice-shift cell memory base size same h (suc n) fits = ap₂ ◌∷◌ (same h (omega arith)) (
    slice-shift cell memory base size same (h + 1) n (omega arith)
    ∙ ap (λ k. slice memory k n) (omega arith))

slice-AllBytes :
    (memory : ℕ → ℕ) → ((i : ℕ) → memory i < 256) → (a n : ℕ) → AllBytes (slice memory a n)
slice-AllBytes memory small a zero = tt
slice-AllBytes memory small a (suc n) = (small a, slice-AllBytes memory small (a + 1) n)

-- What the monitor sees of a reply: -1 and a wait that is not over give nothing.
abbrev pub seen : {S A : Type 0} → World S → Reply S A → Option A × World S
seen w (done a w') = (some a, w')
seen w (failed w') = (none, w')
seen w waiting = (none, w)

abbrev pub succeeded : {S A : Type 0} → World S → Reply S A → Bool × World S
succeeded w (done a w') = (true, w')
succeeded w (failed w') = (false, w')
succeeded w waiting = (false, w)

module _ {S : Type 0} (send : S → List ℕ → Option ℕ × S) (recv : S → ℕ → List ℕ × S)
    (select : S → Option Bool × S) (turns : ℕ) where
  abbrev pub read_by_packets : World S → ℕ → ℕ → Option (List ℕ) × World S
  read_by_packets w a n = seen w (read_memory send recv select turns a n w)

  abbrev pub write_by_packets : World S → ℕ → List ℕ → Bool × World S
  write_by_packets w a bytes = succeeded w (write_memory send recv select turns a bytes w)

  module _ (incoming : S → List ℕ) (cells : S → ℕ → ℕ) (memory : ℕ → ℕ) where
    -- The target is stopped, nothing is left to be read, and the memory is this one.
    pub record Stopped (w : World S) : Type 0 where
      pub quiet : incoming w.socket ≡ []
      pub stopped : w.target_is_running ≡ false
      pub holds : cells w.socket ≡ memory

    read_by_packets-slice :
        Server send recv select incoming cells
        → 1 ≤ turns
        → ((i : ℕ) → memory i < 256)
        → (w : World S) (a n : ℕ) → Stopped w
        → a < 2 ^ 64
        → n < 2048
        → ((read_by_packets w a n).0 ≡ some (slice memory a n)) × Stopped (read_by_packets w a n).1
    read_by_packets-slice server enough small w a n rests in_range fits =
        let (s, reads, left, kept) =
          read_memory-slice send recv select incoming cells server turns a n w enough in_range fits
            rests.quiet rests.stopped
            (subst (λ m. AllBytes (slice m a n)) (sym rests.holds)
              (slice-AllBytes memory small a n)) in
        rw reads (
          ap (λ m. some (slice m a n)) rests.holds,
          record { quiet = left; stopped = rests.stopped; holds = kept ∙ rests.holds },
        )

    -- The output ring of a context lies in the memory at its address.
    pub record Holds (c : Context) : Type 0 where
      pub cells_at : (i : ℕ) → i < c.ring.buffer_size → output_cell c i ≡ memory (c.ring.buffer + i)
      pub bytes : (i : ℕ) → memory i < 256
      pub in_range : c.ring.buffer + c.ring.buffer_size < 2 ^ 32

    packets-Shows :
        {c : Context}
        → Server send recv select incoming cells
        → 1 ≤ turns
        → Holds c
        → Shows read_by_packets Stopped max_entry_size (output_cell c) c.ring
    packets-Shows {c} server enough h w offset n rests short fits =
        let address : add32 c.ring.buffer offset ≡ c.ring.buffer + offset =
          omega (arith, h.in_range) in
        let (reads, rests') =
          read_by_packets-slice server enough h.bytes w (c.ring.buffer + offset) n rests
            (omega (arith, h.in_range)) (omega arith) in
        rw address (
          reads
              ∙ ap some (
                  sym (
                    slice-shift (output_cell c) memory c.ring.buffer c.ring.buffer_size h.cells_at
                      offset n fits)),
          rests',
        )

    -- From `dmlog_create` over the GDB protocol to the terminal. A GDB server answers as the protocol says
    -- and holds the memory of a stopped target below 2 ^ 32; in it lies a context that `dmlog_create`
    -- has made, after any calls that take nothing off the log, none of whose text holds a 0, with the
    -- last entry flushed. Then a monitor that has just looked at the target, while BUSY is not its own, and reads its memory by
    -- `gdb_read_memory`, without timestamps and without blocking and with fuel for every byte, prints the
    -- last bytes of the version and of all that was logged, as many as the ring can hold and in their
    -- order; it has then read the ring empty, and the target is as it was.
    pub print_loop-by_packets :
        {total : ℕ} {version text : List ℕ} {c d : Context} (resume_briefly : World S → World S)
        (timestamp : World S → List ℕ) (entries waits : ℕ) (m : Monitor) (w : World S)
        (out : List ℕ)
        → Server send recv select incoming cells
        → 1 ≤ turns
        → Fresh total version c
        → SaysAll c text d
        → pending d ≡ []
        → Without 0 text
        → Holds d
        → Stopped w
        → 1 ≤ waits
        → total ≤ entries
        → (m' : Monitor) × (w' : World S) × (print_loop read_by_packets write_by_packets
              resume_briefly timestamp entries waits false false
              (looking_at d m)
              w
              out
            ≡ some (
              true,
              m',
              w',
              out ++ last_n (total - input_part total - 1) (cstring version ++ text),
            ))
          × (is_buffer_empty m' ≡ true)
          × Stopped w'
    print_loop-by_packets resume_briefly timestamp entries waits m w out server enough fresh said
          flushed clean holds rests some_turn fuel =
        print_loop-said read_by_packets write_by_packets resume_briefly timestamp Stopped entries
          waits m w out fresh said flushed clean (packets-Shows server enough holds) rests some_turn
          fuel
