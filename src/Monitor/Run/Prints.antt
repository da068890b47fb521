-- ===== src/Monitor/Run/Prints.antt =====
-- The monitor prints what the ring holds.
use native.Mathlib.Nat.{mod-add-mod, mod-eq_of_lt, mod-eq-sub-mod}
use native.Mathlib.Decide.{dec_lt}
use dmlog.Base.{
  ℕ, zero, suc, ◌+◌, ◌-◌, ◌%◌, ◌^◌, ◌≤◌, ◌<◌, min, ◌≡◌, ◌≢◌, inl, inr, refl, ap, subst, sym, ◌∙◌,
  Bool, true, false, Option, some, List, [], ◌∷◌, ◌++◌, append-nil, append_assoc, arith, length,
  drop, ◌==◌, ne→==, ==→ne, replicate, Bool-cases,
}
use dmlog.Context.{zeros, max_entry_size}
use dmlog.Cells.{held, held_empty, window, length-window}
use dmlog.Output.{cstring}
use dmlog.Monitor.{Monitor, is_buffer_empty}
use dmlog.Monitor.Buffer.{Shows, read_from_buffer-window}
use dmlog.Monitor.Commands.{update_entry}
use dmlog.Monitor.Commands.Busy.{Free, wait-Free}
use dmlog.Monitor.Run.{print_loop}
use dmlog.Gdb.Session.Packets.{Without}

window-append :
    (size : ℕ) (cell : ℕ → ℕ) (h a b : ℕ)
    → h < size
    → window size cell h (a + b) ≡ window size cell h a ++ window size cell ((h + a) % size) b
window-append size cell h zero b inside =
    let start : (h + 0) % size ≡ h =
      omega (arith, mod-eq_of_lt {n = h + 0} {m = size} (omega arith)) in
    let same : 0 + b ≡ b = omega arith in rw (start, same) refl
window-append size cell h (suc a) b inside =
    let shift : ((h + 1) % size + a) % size ≡ (h + suc a) % size =
      rw mod-add-mod (ap (λ k. k % size) (omega arith)) in
    let more : suc a + b ≡ suc (a + b) = omega arith in
    rw more (
      ap (◌∷◌ (cell h)) (
        window-append size cell ((h + 1) % size) a b (omega arith)
        ∙ ap (λ k. window size cell ((h + 1) % size) a ++ window size cell k b) shift))

held-advance :
    (size head tail a : ℕ)
    → head < size
    → tail < size
    → a ≤ held size head tail
    → held size head ((tail + a) % size) + a ≡ held size head tail
held-advance size head tail a head_in tail_in within = elim (dec_lt (tail + a) size) [
  | yes p ↦ ground (arith, mod-eq_of_lt p)
  | no p ↦ ground (
    arith,
    mod-eq-sub-mod {n = tail + a} {m = size} (ground arith),
    mod-eq_of_lt {n = tail + a - size} {m = size} (ground arith),
  )
]

cstring-drop : (k n : ℕ) → cstring (drop k (zeros n)) ≡ []
unfolding replicate
cstring-drop zero zero = refl
cstring-drop (suc k) zero = refl
cstring-drop zero (suc n) = refl
cstring-drop (suc k) (suc n) = cstring-drop k n

-- A buffer that is zero behind an entry, or full.
cstring-buffer : (xs : List ℕ) (k n : ℕ) → Without 0 xs → cstring (xs ++ drop k (zeros n)) ≡ xs
cstring-buffer [] k n clean = cstring-drop k n
cstring-buffer (x ∷ xs) k n clean =
    rw (ne→== x 0 clean.0) (ap (◌∷◌ x) (cstring-buffer xs k n clean.1))

Without-left : (c : ℕ) (xs ys : List ℕ) → Without c (xs ++ ys) → Without c xs
Without-left c [] ys h = tt
Without-left c (x ∷ xs) ys h = (h.0, Without-left c xs ys h.1)

Without-right : (c : ℕ) (xs ys : List ℕ) → Without c (xs ++ ys) → Without c ys
Without-right c [] ys h = h
Without-right c (x ∷ xs) ys h = Without-right c xs ys h.1

module _ {M : Type 0} (read_memory : M → ℕ → ℕ → Option (List ℕ) × M)
    (write_memory : M → ℕ → List ℕ → Bool × M) (resume_briefly : M → M) (timestamp : M → List ℕ)
    (Rests : M → Type 0) (cell : ℕ → ℕ) where
  -- The bytes that the host has not read yet.
  abbrev pub unread : Monitor → List ℕ
  unread m =
      window m.ring.buffer_size cell m.tail_offset
        (held m.ring.buffer_size m.ring.head_offset m.tail_offset)

  abbrev count : Monitor → ℕ
  count m = min max_entry_size (held m.ring.buffer_size m.ring.head_offset m.tail_offset)

  -- What the host keeps after an entry.
  abbrev moved : Monitor → Monitor
  moved m =
      let bytes = window m.ring.buffer_size cell m.tail_offset (count m) in
      record m {
        tail_offset = (m.tail_offset + count m) % m.ring.buffer_size;
        entry_buffer = bytes ++ drop (length bytes) (zeros max_entry_size);
      }

  -- The ring of the host and the target while it does not change.
  pub record Steady (m : Monitor) : Type 0 where
    pub shows : Shows read_memory Rests max_entry_size cell m.ring
    pub free : Free read_memory write_memory resume_briefly m
    pub not_owner : m.owns_busy_flag ≡ false
    pub head_in : m.ring.head_offset < m.ring.buffer_size
    pub tail_in : m.tail_offset < m.ring.buffer_size
    pub small : m.ring.buffer_size < 2 ^ 32

  update_entry-window :
      (turns : ℕ) (m : Monitor) (w : M)
      → 1 ≤ turns
      → Steady m
      → Rests w
      → held m.ring.buffer_size m.ring.head_offset m.tail_offset ≢ 0
      → (w' : M) × (update_entry read_memory write_memory resume_briefly turns false m w
          ≡ some (true, moved m, w'))
        × Rests w'
  unfolding update_entry
  update_entry-window turns m w some_turn s rests some_left =
      let (w', reads, rests') =
        read_from_buffer-window read_memory write_memory resume_briefly Rests max_entry_size cell
          (record m { entry_buffer = zeros max_entry_size }) s.shows s.head_in s.tail_in s.small
          max_entry_size w (omega arith) rests some_left in
      (
        w',
        rw (wait-Free read_memory write_memory resume_briefly turns m w some_turn s.free, reads)
            refl,
        rests',
      )

  moved-Steady : (m : Monitor) → Steady m → Steady (moved m)
  moved-Steady m s = record {
    shows = s.shows;
    free = s.free;
    not_owner = s.not_owner;
    head_in = s.head_in;
    tail_in = omega (arith, s.tail_in);
    small = s.small;
  }

  unread-moved :
      (m : Monitor)
      → Steady m
      → unread m ≡ window m.ring.buffer_size cell m.tail_offset (count m) ++ unread (moved m)
  unread-moved m s =
      let size = m.ring.buffer_size in
      let left = held size m.ring.head_offset m.tail_offset in
      let rest =
        held-advance size m.ring.head_offset m.tail_offset (count m) s.head_in s.tail_in
          (omega arith) in
      ap (window size cell m.tail_offset) (omega (arith, rest))
      ∙ window-append size cell m.tail_offset (count m)
          (held size m.ring.head_offset ((m.tail_offset + count m) % size)) s.tail_in

  print_loop-step :
      (entries turns : ℕ) (m : Monitor) (w : M) (out : List ℕ)
      → 1 ≤ turns
      → Steady m
      → Rests w
      → is_buffer_empty m ≡ false
      → held m.ring.buffer_size m.ring.head_offset m.tail_offset ≢ 0
      → Without 0 (unread m)
      → (w' : M) × (print_loop read_memory write_memory resume_briefly timestamp
            (suc entries)
            turns
            false
            false
            m
            w
            out
          ≡ print_loop read_memory write_memory resume_briefly timestamp entries turns false false
              (moved m)
              w'
              (out ++ window m.ring.buffer_size cell m.tail_offset (count m)))
        × Rests w'
  unfolding print_loop
  print_loop-step entries turns m w out some_turn s rests more some_left clean =
      let bytes = window m.ring.buffer_size cell m.tail_offset (count m) in
      let (w', updates, rests') = update_entry-window turns m w some_turn s rests some_left in
      let text : cstring (bytes ++ drop (length bytes) (zeros max_entry_size)) ≡ bytes =
        cstring-buffer bytes (length bytes) max_entry_size
          (Without-left 0 bytes (unread (moved m)) (subst (Without 0) (unread-moved m s) clean)) in
      let some_text : (length bytes == 0) ≡ false =
        ground (arith, length-window m.ring.buffer_size cell m.tail_offset (count m)) in
      (w', rw (more, updates) (rw (text, some_text) refl), rests')

  print_loop-end :
      (entries turns : ℕ) (m : Monitor) (w : M) (out : List ℕ)
      → is_buffer_empty m ≡ true
      → print_loop read_memory write_memory resume_briefly timestamp
          (suc entries)
          turns
          false
          false
          m
          w
          out
        ≡ some (true, m, w, out)
  unfolding print_loop
  print_loop-end entries turns m w out empty = rw empty refl

  empty-held :
      (m : Monitor)
      → is_buffer_empty m ≡ true
      → held m.ring.buffer_size m.ring.head_offset m.tail_offset ≡ 0
  unfolding is_buffer_empty
  empty-held m empty = ground arith

  some-held :
      (m : Monitor)
      → Steady m
      → is_buffer_empty m ≡ false
      → held m.ring.buffer_size m.ring.head_offset m.tail_offset ≢ 0
  unfolding is_buffer_empty
  some-held m s more e =
      ==→ne m.ring.head_offset m.tail_offset more
        (held_empty m.ring.buffer_size m.ring.head_offset m.tail_offset s.head_in s.tail_in e)

  -- Where the target rests, so that its backend reads the cells of the ring and goes on doing so, and
  -- BUSY is clear and not the host's, without timestamps and without BUSY for each entry, with a ring whose positions lie
  -- inside it, which is smaller than 2 ^ 32 bytes and holds no 0: the loop over the entries prints
  -- exactly the bytes that the host has not read, in their order, and ends with the ring empty and the
  -- target still at rest, in at most one turn for each byte and one more.
  pub print_loop-unread :
      (entries turns : ℕ) (m : Monitor) (w : M) (out : List ℕ)
      → 1 ≤ turns
      → Steady m
      → Rests w
      → held m.ring.buffer_size m.ring.head_offset m.tail_offset < entries
      → Without 0 (unread m)
      → (m' : Monitor) × (w' : M) × (print_loop read_memory write_memory resume_briefly timestamp
            entries turns false false m w out
          ≡ some (true, m', w', out ++ unread m))
        × (is_buffer_empty m' ≡ true)
        × (m'.ring ≡ m.ring)
        × Rests w'
  print_loop-unread zero turns m w out some_turn s rests fuel clean = absurd (omega arith)
  print_loop-unread (suc entries) turns m w out some_turn s rests fuel clean =
      elim (Bool-cases (is_buffer_empty m)) [
        | inl empty ↦
            let none_left : unread m ≡ [] =
              ap (window m.ring.buffer_size cell m.tail_offset) (empty-held m empty) in
            (
              m,
              w,
              print_loop-end entries turns m w out empty
                  ∙ ap (λ o. some (true, m, w, o))
                      (sym (ap (λ bs. out ++ bs) none_left ∙ append-nil out)),
              empty,
              refl,
              rests,
            )
        | inr more ↦
            let some_left = some-held m s more in
            let (w1, steps, rests1) =
              print_loop-step entries turns m w out some_turn s rests more some_left clean in
            let bytes = window m.ring.buffer_size cell m.tail_offset (count m) in
            let rest =
              held-advance m.ring.buffer_size m.ring.head_offset m.tail_offset (count m) s.head_in
                s.tail_in (omega arith) in
            let (m', w', prints, empty, same, rests') =
              print_loop-unread entries turns (moved m) w1 (out ++ bytes) some_turn
                (moved-Steady m s) rests1 (omega (arith, rest, some_left))
                (Without-right 0 bytes (unread (moved m))
                  (subst (Without 0) (unread-moved m s) clean)) in
            (
              m',
              w',
              steps
                  ∙ prints
                  ∙ ap (λ o. some (true, m', w', o))
                      (append_assoc out bytes (unread (moved m))
                        ∙ ap (λ bs. out ++ bs) (sym (unread-moved m s))),
              empty,
              same,
              rests',
            )
      ]
