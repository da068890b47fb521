-- ===== src/Reader/Loop.antt =====
-- The loop of `dmlog_read_next`, byte by byte.
use dmlog.Base.{
  ℕ, zero, suc, ◌+◌, ◌≡◌, inl, inr, refl, ap, ◌∙◌, Bool, true, false, ◌||◌, List, [], ◌∷◌, arith,
  length, length-set, set, ◌==◌, Bool-cases,
}
use dmlog.Context.{Context, read_byte_from_tail}
use dmlog.Context.Invariant.{
  WellFormed, OutputOnly, OutputOnly-refl, OutputOnly-trans, contents, length-contents, pending,
}
use dmlog.Context.Positions.{read_byte_from_tail-some, read_byte_from_tail-none}
use dmlog.Output.{newline}
use dmlog.Reader.{read_loop}
use dmlog.Reader.Entry.{entry, after_entry, is_cons, write_at}

-- `done` is `c` with the bytes `line` taken off the ring, which leaves `rest`.
pub record Takes (c : Context) (rest : List ℕ) (done : Context) : Type 0 where
  pub left : contents done ≡ rest
  pub only : OutputOnly c done
  pub same_pending : pending done ≡ pending c

-- The loop from turn `i` on, which takes the bytes `line` and leaves `rest`.
pub record Loops (i : ℕ) (found : Bool) (line rest : List ℕ) (c : Context)
    (out : ℕ × Bool × Context) : Type 0 where
  pub index : out.0 ≡ i + length line
  pub result : out.1 ≡ (found || is_cons line)
  pub bytes : out.2.read_buffer ≡ write_at i line c.read_buffer
  pub takes : Takes c rest out.2

store-OutputOnly :
    {c : Context} (i x : ℕ)
    → WellFormed c
    → OutputOnly c (record c { read_buffer = set c.read_buffer i x })
store-OutputOnly {c} i x w = record {
  well = ground (arith, length-set c.read_buffer i x);
  same_size = refl;
  same_clear = refl;
  same_input = refl;
  same_input_entry = refl;
  same_input_offset = refl;
}

-- What a read does with the other fields.
read_byte_from_tail-fields :
    (c : Context)
    → let next = (read_byte_from_tail c).2 in
      (next.read_buffer ≡ c.read_buffer) × (pending next ≡ pending c)
unfolding read_byte_from_tail
read_byte_from_tail-fields c = ground arith

or_false : (b : Bool) → b ≡ (b || false)
or_false true = refl
or_false false = refl

or_true : (b : Bool) → true ≡ (b || true)
or_true true = refl
or_true false = refl

Loops-stop :
    (i : ℕ) (found : Bool) {c : Context} (xs : List ℕ)
    → WellFormed c
    → contents c ≡ xs
    → Loops i found [] xs c (i, found, c)
Loops-stop i found xs w e = record {
  index = omega arith;
  result = or_false found;
  bytes = refl;
  takes = record { left = e; only = OutputOnly-refl w; same_pending = refl };
}

pub read_loop-Loops :
    (turns i : ℕ) (found : Bool) (xs : List ℕ) {c : Context}
    → WellFormed c
    → contents c ≡ xs
    → Loops i found (entry turns xs) (after_entry turns xs) c (read_loop turns i found c)
unfolding read_loop
read_loop-Loops zero i found xs w e = Loops-stop i found xs w e
read_loop-Loops (suc turns) i found [] {c} w e =
    rw (read_byte_from_tail-none w (omega (arith, length-contents c, ap length e)))
      (Loops-stop i found [] w e)
read_loop-Loops (suc turns) i found (x ∷ xs) {c} w e =
    let r = read_byte_from_tail-some w (omega (arith, length-contents c, ap length e)) in
    let fields = read_byte_from_tail-fields c in
    let byte : (read_byte_from_tail c).1 ≡ x = ground (arith, r.1, e) in
    let rest : contents (read_byte_from_tail c).2 ≡ xs = ground (arith, r.1, e) in
    let stored = store-OutputOnly i x r.2.well in
    elim (Bool-cases (x == newline)) [
      | inl ends ↦
          rw (r.0, byte, ends)
            (record {
              index = refl;
              result = or_true found;
              bytes = ap (λ (b : List ℕ). set b i x) fields.0;
              takes = record {
                left = rest;
                only = OutputOnly-trans r.2 stored;
                same_pending = fields.1;
              };
            })
      | inr goes_on ↦
          let more = read_loop-Loops turns (i + 1) true xs stored.well rest in
          rw (r.0, byte, goes_on)
            (record {
              index = omega (arith, more.index);
              result = more.result ∙ or_true found;
              bytes =
                  more.bytes
                  ∙ ap (λ (b : List ℕ). write_at (i + 1) (entry turns xs) (set b i x)) fields.0;
              takes = record {
                left = more.takes.left;
                only = OutputOnly-trans r.2 (OutputOnly-trans stored more.takes.only);
                same_pending = more.takes.same_pending ∙ fields.1;
              };
            })
    ]
