-- ===== src/Output/Flush.antt =====
-- `dmlog_flush`: the ring keeps the last bytes of what it held and the entry behind it.
use dmlog.Base.{
  ℕ, ◌-◌, ◌≤◌, ◌<◌, ◌≡◌, refl, ap, sym, ◌∙◌, inl, inr, Bool, true, List, [], ◌∷◌, ◌++◌, arith,
  append-nil, append_assoc, length, length-append, last_n, last_n_short, last_n_full,
  last_n-last_n-append, length-replicate, ◌==◌, Bool-cases,
}
use dmlog.Context.{
  Context, context_lock, context_unlock, get_free_space, read_byte_from_tail, write_byte_to_tail,
  max_entry_size, zeros,
}
use dmlog.Context.Invariant.{
  WellFormed, OutputOnly, OutputOnly-refl, OutputOnly-trans, contents, used, capacity,
  length-contents, pending,
}
use dmlog.Context.Lock.{is_valid-WellFormed, context_lock-OutputOnly, context_unlock-OutputOnly}
use dmlog.Context.Positions.{
  get_free_space-add-used, read_byte_from_tail-some, write_byte_to_tail-some,
}
use dmlog.Cells.{held-lt}
use dmlog.Output.{flush_byte, flush_loop, flush}

used-le-capacity : {c : Context} → WellFormed c → used c ≤ capacity c
used-le-capacity {c} w =
    omega
      (arith, held-lt c.ring.buffer_size c.ring.head_offset c.ring.tail_offset w.head_in w.tail_in)

-- `done` is what adding `xs` to the output of `c` leaves: the last bytes that fit.
pub record Keeps (c : Context) (xs : List ℕ) (written : Bool) (done : Context) : Type 0 where
  pub wrote : written ≡ true
  pub kept : contents done ≡ last_n (capacity c) (contents c ++ xs)
  pub only : OutputOnly c done

flush_byte-Keeps :
    {c : Context} (x : ℕ)
    → WellFormed c
    → 2 ≤ c.ring.buffer_size
    → Keeps c (x ∷ []) (flush_byte c x).0 (flush_byte c x).1
unfolding flush_byte
flush_byte-Keeps {c} x w big = elim (Bool-cases (get_free_space c == 0)) [
  | inl full ↦
      let is_full : used c ≡ capacity c = ground (arith, get_free_space-add-used w) in
      let r = read_byte_from_tail-some w (ground arith) in rw full (after_read r.1 r.2 is_full)
  | inr room ↦
      let fits : used c < capacity c = ground (arith, get_free_space-add-used w) in
      let p = write_byte_to_tail-some x w fits in
      rw room (record {
        wrote = p.0;
        kept =
            p.1
            ∙ sym (
                last_n_short (capacity c) _
                  (omega (arith, length-append (contents c) (x ∷ []), length-contents c)));
        only = p.2;
      })
]
  where
    after_read :
        contents c ≡ (read_byte_from_tail c).1 ∷ contents (read_byte_from_tail c).2
        → OutputOnly c (read_byte_from_tail c).2
        → used c ≡ capacity c
        → let n = (read_byte_from_tail c).2 in
          Keeps c (x ∷ []) (write_byte_to_tail n x).0 (write_byte_to_tail n x).1
    after_read e o is_full =
        let one_free : used n < capacity n =
          omega
            (arith, ap length e, length-contents c, length-contents n, o.same_size, w.head_in) in
        let p = write_byte_to_tail-some x o.well one_free in
        record {
          wrote = p.0;
          kept =
              p.1
              ∙ sym (
                  last_n_full (capacity c) (read_byte_from_tail c).1 (contents n) (x ∷ [])
                    (omega (arith, ap length e, length-contents c)) refl)
              ∙ ap (λ q. last_n (capacity c) (q ++ x ∷ [])) (sym e);
          only = OutputOnly-trans o p.2;
        }
      where
        n : Context
        n = (read_byte_from_tail c).2

pub Keeps-refl : {c : Context} → WellFormed c → Keeps c [] true c
Keeps-refl {c} w = record {
  wrote = refl;
  kept = rw (append-nil (contents c)) (
      sym (
        last_n_short (capacity c) (contents c)
          (omega (arith, length-contents c, used-le-capacity w))));
  only = OutputOnly-refl w;
}

-- Adding in two steps is adding at once.
pub Keeps-trans :
    {c d e : Context} {xs ys : List ℕ} {r s : Bool}
    → Keeps c xs r d
    → Keeps d ys s e
    → Keeps c (xs ++ ys) s e
Keeps-trans {c} {d} {e} {xs} {ys} p q = record {
  wrote = q.wrote;
  kept =
      q.kept
      ∙ ap (λ (k : ℕ). last_n (k - 1) (contents d ++ ys)) p.only.same_size
      ∙ ap (λ (zs : List ℕ). last_n (capacity c) (zs ++ ys)) p.kept
      ∙ last_n-last_n-append (capacity c) (contents c ++ xs) ys
      ∙ ap (last_n (capacity c)) (append_assoc (contents c) xs ys);
  only = OutputOnly-trans p.only q.only;
}

flush_loop-Keeps :
    (xs : List ℕ) {c : Context}
    → WellFormed c
    → 2 ≤ c.ring.buffer_size
    → Keeps c xs (flush_loop xs c).0 (flush_loop xs c).1
unfolding flush_loop
flush_loop-Keeps [] w big = Keeps-refl w
flush_loop-Keeps (x ∷ xs) {c} w big =
    let first = flush_byte-Keeps x w big in
    let rest = flush_loop-Keeps xs first.only.well (omega (arith, first.only.same_size)) in
    rw first.wrote (Keeps-trans first rest)

-- The last step of `dmlog_flush` before the unlock.
empty_entry-OutputOnly :
    {c : Context}
    → WellFormed c
    → OutputOnly c (record c { write_buffer = zeros max_entry_size; write_entry_offset = 0 })
empty_entry-OutputOnly w = record {
  well = ground (arith, length-replicate {A = ℕ} 500 0);
  same_size = refl;
  same_clear = refl;
  same_input = refl;
  same_input_entry = refl;
  same_input_offset = refl;
}

flush-shape :
    {c : Context}
    → WellFormed c
    → flush c ≡ (
        let held = context_lock c in
        let r = flush_loop (pending held) held in
        (
          r.0,
          context_unlock
              (record (r.1) { write_buffer = zeros max_entry_size; write_entry_offset = 0 }),
        ))
unfolding flush
flush-shape w = rw (is_valid-WellFormed w)

-- In a well-formed context with room for a byte at least, `dmlog_flush` succeeds; the ring then
-- holds the last bytes of what it held and the pending entry behind it, as many as fit; no entry
-- is pending; and the input side is as it was.
pub flush-Keeps :
    {c : Context}
    → WellFormed c
    → 2 ≤ c.ring.buffer_size
    → Keeps c (pending c) (flush c).0 (flush c).1 × (pending (flush c).1 ≡ [])
unfolding context_lock context_unlock
flush-Keeps {c} w big =
    let locked = context_lock-OutputOnly w in
    let loop = flush_loop-Keeps (pending c) locked.well big in
    let empty = empty_entry-OutputOnly loop.only.well in
    let unlocked = context_unlock-OutputOnly empty.well in
    rw (flush-shape w) (
      record {
        wrote = loop.wrote;
        kept = loop.kept;
        only =
            OutputOnly-trans locked (OutputOnly-trans loop.only (OutputOnly-trans empty unlocked));
      },
      refl,
    )
