-- ===== src/Delivery/Typed.antt =====
-- From the host to src/dmlog.c on the target: what `monitor_send_input` writes is what the firmware
-- reads.
use dmlog.Base.{
  ℕ, zero, suc, ◌+◌, ◌-◌, ◌^◌, ◌≤◌, ◌<◌, ◌≡◌, refl, ap, sym, ◌∙◌, Bool, true, Option, List, [], ◌∷◌,
  ◌++◌, arith, append_assoc, length, get_or, take, drop,
}
use dmlog.Cells.{window_agree, held}
use dmlog.Context.{Context}
use dmlog.Context.Invariant.{WellFormed, input_contents, input_used}
use dmlog.Reader.Entry.{entry, after_entry}
use dmlog.Input.{input_gets}
use dmlog.Input.Stream.{NoZeros, stream, fetched}
use dmlog.Input.Gets.{input_gets-Lines}
use dmlog.History.{Types, typed}
use dmlog.History.Invariant.{typed-Kept}
use dmlog.Gdb.Session.Memory.{overwrite_below}
use dmlog.Monitor.{input_room}
use dmlog.Monitor.Buffer.{slice}
use dmlog.Monitor.Send.{write_input, head_after, first_part, head_after-held}
use dmlog.Monitor.Send.Grows.{Writes, input_of, write_input-grows, write_input-parts}

get_or-slice : (cell : ℕ → ℕ) (a n i : ℕ) → i < n → get_or (slice cell a n) i 0 ≡ cell (a + i)
get_or-slice cell a zero i h = absurd (omega arith)
get_or-slice cell a (suc n) zero h = ap cell (omega arith)
get_or-slice cell a (suc n) (suc i) h =
    get_or-slice cell (a + 1) n i (omega arith) ∙ ap cell (omega arith)

length-slice : (cell : ℕ → ℕ) (a n : ℕ) → length (slice cell a n) ≡ n
length-slice cell a zero = refl
length-slice cell a (suc n) = ap suc (length-slice cell (a + 1) n)

-- The memory of the context, both rings, lies in the target's at its address.
pub record Lies (memory : ℕ → ℕ) (c : Context) : Type 0 where
  pub cells_at :
      (i : ℕ)
      → i < c.ring.buffer_size + c.ring.input_buffer_size
      → get_or c.buffer i 0 ≡ memory (c.buffer_address + i)
  pub in_range : c.buffer_address + c.ring.buffer_size + c.ring.input_buffer_size < 2 ^ 32

-- The context in a memory, with another position of the host.
abbrev pub seen_in : (ℕ → ℕ) → ℕ → Context → Context
seen_in memory head c =
    typed c (slice memory c.buffer_address (c.ring.buffer_size + c.ring.input_buffer_size)) head

module _ {M : Type 0} (read_memory : M → ℕ → ℕ → Option (List ℕ) × M)
    (write_memory : M → ℕ → List ℕ → Bool × M) (resume_briefly : M → M) (cells : M → ℕ → ℕ) where
  abbrev input_after : Context → ℕ → M → List ℕ
  input_after c head w = input_of read_memory write_memory resume_briefly cells c.ring head w

  -- The input of the context is what the host takes for it.
  input_contents-seen :
      {c : Context} (w : M) (head : ℕ)
      → WellFormed c
      → 1 ≤ c.ring.input_buffer_size
      → input_contents (seen_in (cells w) head c) ≡ input_after c head w
  input_contents-seen {c} w head well some_ring =
      window_agree c.ring.input_buffer_size _ _
        (λ i inside.
          get_or-slice (cells w) c.buffer_address (c.ring.buffer_size + c.ring.input_buffer_size)
            (c.ring.input_buffer - c.buffer_address + i) (omega (arith, well.placed))
          ∙ ap (cells w) (omega (arith, well.placed)))
        c.ring.input_tail_offset (held c.ring.input_buffer_size head c.ring.input_tail_offset)
        (omega (arith, well.input_tail_in))

  input_contents-Lies :
      {c : Context} (w : M)
      → WellFormed c
      → 1 ≤ c.ring.input_buffer_size
      → Lies (cells w) c
      → input_after c c.ring.input_head_offset w ≡ input_contents c
  input_contents-Lies {c} w well some_ring lies =
      window_agree c.ring.input_buffer_size _ _
        (λ i inside.
          ap (cells w) (omega (arith, well.placed))
          ∙ sym (
              lies.cells_at (c.ring.input_buffer - c.buffer_address + i)
                (omega (arith, well.placed))))
        c.ring.input_tail_offset (input_used c) (omega (arith, well.input_tail_in))

  -- What the host writes keeps to what History.Types asks for.
  write_input-Types :
      {c : Context} (input : List ℕ) (w : M)
      → Writes read_memory write_memory resume_briefly cells
      → WellFormed c
      → 1 ≤ c.ring.input_buffer_size
      → Lies (cells w) c
      → length input ≤ input_room c.ring
      → NoZeros input
      → let (written, w') = write_input read_memory write_memory resume_briefly c.ring input w in
        let head = head_after c.ring (length input) in
        (written ≡ true)
        × Types c
            (slice (cells w') c.buffer_address (c.ring.buffer_size + c.ring.input_buffer_size))
            head
            input
  write_input-Types {c} input w writes well some_ring lies room clean =
      let head_in : c.ring.input_head_offset < c.ring.input_buffer_size =
        omega (arith, well.input_head_in) in
      let tail_in : c.ring.input_tail_offset < c.ring.input_buffer_size =
        omega (arith, well.input_tail_in) in
      let fits : c.ring.input_buffer + c.ring.input_buffer_size < 2 ^ 32 =
        omega (arith, well.placed, lies.in_range) in
      let head = head_after c.ring (length input) in
      let w' = (write_input read_memory write_memory resume_briefly c.ring input w).1 in
      let (done, stored) =
        write_input-parts read_memory write_memory resume_briefly cells c.ring input w writes
          head_in (omega (arith, fits)) in
      let (written, grown) =
        write_input-grows read_memory write_memory resume_briefly cells c.ring input w writes
          head_in tail_in fits room in
      let first = first_part c.ring (length input) in
      (
        done,
        record {
          cells =
              length-slice (cells w') c.buffer_address
                (c.ring.buffer_size + c.ring.input_buffer_size)
              ∙ sym well.memory;
          output = λ i inside.
              get_or-slice (cells w') c.buffer_address
                (c.ring.buffer_size + c.ring.input_buffer_size) i (omega arith)
              ∙ ap (λ m. m (c.buffer_address + i)) stored
              ∙ overwrite_below _ (c.ring.input_buffer + 0) (drop first input)
                  (c.buffer_address + i) (omega (arith, well.placed))
              ∙ overwrite_below (cells w) (c.ring.input_buffer + c.ring.input_head_offset)
                  (take first input) (c.buffer_address + i) (omega (arith, well.placed))
              ∙ sym (lies.cells_at i (omega arith));
          head_in =
              (head_after-held c.ring (length input) head_in tail_in (omega (arith, fits)) room).0;
          grown =
              input_contents-seen w' head well some_ring
              ∙ grown
              ∙ ap (λ xs. xs ++ input) (input_contents-Lies w well some_ring lies);
          clean = clean;
        },
      )

  -- From the terminal to the firmware. In a well-formed context with an input ring and no 0 in its
  -- input, which lies below 2 ^ 32 in the memory of a target that takes the host's writes: where
  -- `monitor_send_input` finds room for a text without a 0, its writes succeed, and on the context that
  -- they leave, with the position that the host writes back, `dmlog_input_gets` stores the next line of
  -- what was waiting to be read and the text behind it, cut where it would not fit, with a 0 behind it,
  -- and leaves the rest of that to be read.
  pub write_input-input_gets :
      {c : Context} (max_len : ℕ) (input : List ℕ) (w : M)
      → Writes read_memory write_memory resume_briefly cells
      → WellFormed c
      → NoZeros (input_contents c)
      → 1 ≤ c.ring.input_buffer_size
      → Lies (cells w) c
      → length input ≤ input_room c.ring
      → NoZeros input
      → 1 ≤ max_len
      → max_len < 2 ^ 64
      → let (written, w') = write_input read_memory write_memory resume_briefly c.ring input w in
        let now = seen_in (cells w') (head_after c.ring (length input)) c in
        let (found, stored, done) = input_gets now max_len in
        (written ≡ true)
        × (stored ≡ entry (max_len - 1) (stream c ++ input) ++ 0 ∷ [])
        × (stream done ≡ after_entry (max_len - 1) (stream c ++ input))
  write_input-input_gets {c} max_len input w writes well waiting some_ring lies room clean
        some_space small =
      let (written, types) = write_input-Types input w writes well some_ring lies room clean in
      let kept = typed-Kept well types in
      let (found, stored, fits, left, only) =
        input_gets-Lines max_len kept.well (kept.clean waiting) some_space small in
      let more : fetched c ++ (input_contents c ++ input) ≡ stream c ++ input =
        sym (append_assoc (fetched c) (input_contents c) input) in
      let all = ap (λ xs. fetched c ++ xs) types.grown ∙ more in
      (
        written,
        stored ∙ ap (λ xs. entry (max_len - 1) xs ++ 0 ∷ []) all,
        left ∙ ap (after_entry (max_len - 1)) all,
      )
