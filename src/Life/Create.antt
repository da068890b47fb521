-- ===== src/Life/Create.antt =====
-- What `dmlog_create` makes of a memory that is not a context yet.
use dmlog.Base.{
  ℕ, ◌⊎◌, ◌+◌, ◌-◌, ◌*◌, ◌^◌, ◌≤◌, ◌<◌, ◌≡◌, ◌≢◌, refl, ap, ap₂, drop, ◌∙◌, false, some, List, [],
  ◌++◌, arith, length, length-replicate, ltb, last_n,
}
use dmlog.Word.{sub32, has}
use dmlog.Context.{Context, max_entry_size, magic_number, is_valid}
use dmlog.Context.Invariant.{WellFormed, contents, pending, capacity}
use dmlog.Context.Lock.{Locked}
use dmlog.Output.{cstring, puts}
use dmlog.Output.Putc.{Ready, OutputOnly-Ready}
use dmlog.Output.Strings.{puts-Prints}
use dmlog.Output.Locks.{puts-Balanced}
use dmlog.Input.Stream.{stream}
use dmlog.Life.{sizeof_ring, default_input_size, input_part, blank, create}
use dmlog.Life.Clear.{cstring-zeros, length-clear_bytes}

-- Of a buffer of at least one byte, the input gets less than all: 512 bytes where the buffer is
-- larger than that, and where it is not, a part that is at most a quarter of what is left to the
-- output.
pub input_part-lt :
    (total : ℕ)
    → 1 ≤ total
    → (input_part total < total)
      × (((default_input_size < total) × (input_part total ≡ default_input_size))
          ⊎ ((total ≤ default_input_size) × (4 * input_part total ≤ total - input_part total)))
unfolding input_part
input_part-lt total some_space = ground arith

-- A context of `total` bytes in both rings with the version in its log and nothing else.
pub record Fresh (total : ℕ) (version : List ℕ) (d : Context) : Type 0 where
  pub ready : Ready d
  pub holds : contents d ≡ last_n (total - input_part total - 1) (cstring version)
  pub no_pending : pending d ≡ []
  pub no_input : stream d ≡ []
  pub share : d.ring.buffer_size ≡ total - input_part total
  pub free : Locked 0 d

module _ (control_size : ℕ) (version : List ℕ) (memory : Context) (buffer_size : ℕ)
    (control : sizeof_ring ≤ control_size) (space : control_size + 2 ≤ buffer_size)
    (small : buffer_size < 2 ^ 32) (large : buffer_size ≢ control_size + default_input_size + 1)
    (cells : length memory.buffer ≡ buffer_size - control_size) where
  total-eq : sub32 buffer_size control_size ≡ buffer_size - control_size
  total-eq = omega arith

  abbrev total : ℕ
  total = buffer_size - control_size

  abbrev input_size : ℕ
  input_size = input_part total

  parts : (input_size < total) × (2 ≤ total - input_size)
  unfolding input_part
  parts = ground arith

  abbrev made : Context
  made = blank control_size memory buffer_size

  split : sub32 total input_size ≡ total - input_size
  split = omega (arith, parts)

  blank-Ready :
      WellFormed made
      × (2 ≤ made.ring.buffer_size)
      × (made.ring.buffer_size + made.ring.input_buffer_size ≡ total)
      × (made.ring.input_buffer_size ≡ input_size)
  unfolding blank
  blank-Ready =
      rw (total-eq, split)
        (ground (
          arith,
          parts,
          length-clear_bytes total memory.buffer cells,
          length-replicate {A = ℕ} 500 0,
        ))

  blank-empty :
      (has made.ring.flags 1 ≡ false)
      × (contents made ≡ [])
      × (pending made ≡ [])
      × (stream made ≡ [])
      × Locked 0 made
  unfolding blank has
  blank-empty =
      rw (cstring-zeros max_entry_size)
        (refl, refl, refl, refl, record { depth = refl; busy = refl })

  made-Ready : Ready made
  made-Ready = record { well = blank-Ready.0; big = blank-Ready.1; no_clear = blank-empty.0 }

  -- `dmlog_create` on a memory of less than 2 ^ 32 bytes that does not hold a context, with room
  -- for the control block and two bytes, other than exactly one byte more than the 512 configured
  -- for the input, with a version text that is not empty: it makes a context that is well
  -- formed, in which the two rings share the memory, the input ring with its part; the ring holds
  -- the last bytes of the version text, as many as fit; nothing is pending, there is no input,
  -- and the lock is free.
  pub create-Ready :
      memory.ring.magic ≢ magic_number
      → cstring version ≢ []
      → (d : Context) × (create control_size version memory buffer_size ≡ some d)
        × Fresh (buffer_size - control_size) version d
  unfolding create is_valid
  create-Ready fresh text =
      let p = puts-Prints {c = made} version made-Ready text in
      let ready = OutputOnly-Ready made-Ready p.only in
      (
        (puts made version).1,
        rw (size_ok, not_valid) refl,
        record {
          ready = ready;
          holds =
              p.printed
              ∙ log_of (cstring version)
              ∙ ap (λ k. last_n (k - 1) (cstring version)) output;
          no_pending = p.flushed;
          no_input =
              ap₂ ◌++◌
                (ap₂ (λ i b. cstring (drop i b)) p.only.same_input_offset p.only.same_input_entry)
                p.only.same_input
              ∙ blank-empty.3;
          share = p.only.same_size ∙ output;
          free = puts-Balanced version 0 made (omega arith) blank-empty.4;
        },
      )
    where
      size_ok : ltb buffer_size sizeof_ring ≡ false
      size_ok = ground (arith, control, space)

      not_valid : is_valid (some memory) ≡ false
      not_valid = ground (arith, fresh)

      log_of :
          (xs : List ℕ)
          → last_n (capacity made) ((contents made ++ pending made) ++ xs)
            ≡ last_n (made.ring.buffer_size - 1) xs
      log_of xs = rw (blank-empty.1, blank-empty.2) refl

      output : made.ring.buffer_size ≡ total - input_size
      output = omega (arith, blank-Ready)
