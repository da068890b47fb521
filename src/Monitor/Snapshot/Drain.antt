-- ===== src/Monitor/Snapshot/Drain.antt =====
-- The loop of `monitor_run` over the entries of a snapshot prints the ring.
use dmlog.Base.{
  ℕ, zero, suc, ◌≤◌, ◌≡◌, refl, ap, sym, ◌∙◌, Bool, true, false, Option, some, List, [], ◌∷◌, ◌++◌,
  arith, append-nil, append_assoc, length, length-append, subst,
}
use dmlog.Context.{Context}
use dmlog.Context.Invariant.{WellFormed, contents}
use dmlog.Context.Lock.{Locked, is_valid-WellFormed}
use dmlog.Reader.{read_next, get_ref_buffer}
use dmlog.Reader.Entry.{
  entry, after_entry, is_cons, entry-append-after_entry, cstring-buffer, line_room,
}
use dmlog.Reader.ReadNext.{Reads, read_next-Reads}
use dmlog.Reader.Locks.{Locked-Unblocked, read_next-Balanced}
use dmlog.Input.Stream.{NoZeros, NoZeros-entry, cstring-NoZeros}
use dmlog.Monitor.Snapshot.{drain, printed}

-- The entries one after the other, each behind the timestamp.
abbrev pub stamped : ℕ → List ℕ → List ℕ → List ℕ
stamped zero stamp xs = []
stamped (suc n) stamp [] = []
stamped (suc n) stamp (x ∷ xs) =
    stamp ++ (entry line_room (x ∷ xs) ++ stamped n stamp (after_entry line_room (x ∷ xs)))

-- An entry takes a byte at least.
shorter : (x : ℕ) (xs : List ℕ) → length (after_entry line_room (x ∷ xs)) ≤ length xs
shorter x xs = omega (
  arith,
  ap length (entry-append-after_entry line_room (x ∷ xs)),
  length-append (entry line_room (x ∷ xs)) (after_entry line_room (x ∷ xs)),
)

-- Without timestamps the entries are the text.
pub stamped-nil : (n : ℕ) (xs : List ℕ) → length xs ≤ n → stamped n [] xs ≡ xs
stamped-nil zero [] h = refl
stamped-nil zero (x ∷ xs) h = absurd (omega arith)
stamped-nil (suc n) [] h = refl
stamped-nil (suc n) (x ∷ xs) h =
    ap (λ ys. entry line_room (x ∷ xs) ++ ys)
      (stamped-nil n (after_entry line_room (x ∷ xs)) (omega (arith, shorter x xs)))
    ∙ entry-append-after_entry line_room (x ∷ xs)

-- What is printed of an entry that was read.
printed-entry :
    {c d : Context} {found : Bool} (stamp : List ℕ)
    → NoZeros (contents c)
    → Reads c found d
    → printed stamp (get_ref_buffer d) ≡ stamp ++ entry line_room (contents c)
unfolding get_ref_buffer
printed-entry {c} {d} stamp z r = rw (is_valid-WellFormed r.takes.only.well) (
    ap (λ xs. stamp ++ xs)
      (cstring-buffer (entry line_room (contents c)) d.read_buffer r.line r.ended
        ∙ cstring-NoZeros (entry line_room (contents c)) (NoZeros-entry line_room _ z).0))

-- What the loop leaves.
pub record Drained (text : List ℕ) (result : Option (Context × List ℕ)) : Type 0 where
  pub end : Context
  pub returned : result ≡ some (end, text)
  pub well : WellFormed end
  pub empty : contents end ≡ []

drain_end :
    (n : ℕ) (stamp out : List ℕ) (c : Context) {d : Context}
    → read_next c ≡ some (false, d)
    → drain (suc n) stamp c out ≡ some (d, out)
unfolding drain
drain_end n stamp out c e = rw (drain, e) refl

drain_more :
    (n : ℕ) (stamp out : List ℕ) (c : Context) {d : Context}
    → read_next c ≡ some (true, d)
    → drain (suc n) stamp c out ≡ drain n stamp d (out ++ printed stamp (get_ref_buffer d))
unfolding drain
drain_more n stamp out c e = rw (drain, e) refl

stamped_empty : (n : ℕ) (stamp : List ℕ) → stamped n stamp [] ≡ []
stamped_empty zero stamp = refl
stamped_empty (suc n) stamp = refl

pub drain-Drained :
    (n : ℕ) (stamp out xs : List ℕ) {c : Context}
    → WellFormed c
    → Locked 0 c
    → contents c ≡ xs
    → NoZeros xs
    → length xs ≤ n
    → Drained (out ++ stamped n stamp xs) (drain (suc n) stamp c out)
drain-Drained n stamp out [] {c} w l e z h =
    let (found, d, returned, r) = read_next-Reads w (Locked-Unblocked l) in
    let none_left : found ≡ false = r.result ∙ ap is_cons e in
    record {
      end = d;
      returned =
          drain_end n stamp out c (returned ∙ ap (λ b. some (b, d)) none_left)
          ∙ ap (λ ys. some (d, ys))
              (sym (append-nil out) ∙ ap (λ ys. out ++ ys) (sym (stamped_empty n stamp)));
      well = r.takes.only.well;
      empty = r.takes.left ∙ ap (after_entry line_room) e;
    }
drain-Drained zero stamp out (x ∷ xs) w l e z h = absurd (omega arith)
drain-Drained (suc n) stamp out (x ∷ xs) {c} w l e z h =
    let (found, d, returned, r) = read_next-Reads w (Locked-Unblocked l) in
    let some_left : found ≡ true = r.result ∙ ap is_cons e in
    let shown = printed-entry stamp (subst NoZeros (sym e) z) r in
    let line = entry line_room (x ∷ xs) in
    let rest = after_entry line_room (x ∷ xs) in
    let printed_now : printed stamp (get_ref_buffer d) ≡ stamp ++ line =
      shown ∙ ap (λ ys. stamp ++ entry line_room ys) e in
    let drained =
      drain-Drained n stamp (out ++ printed stamp (get_ref_buffer d)) rest r.takes.only.well
        (read_next-Balanced 0 c found d (omega arith) l returned)
        (r.takes.left ∙ ap (after_entry line_room) e) (NoZeros-entry line_room (x ∷ xs) z).1
        (omega (arith, shorter x xs)) in
    record {
      end = drained.end;
      returned =
          drain_more (suc n) stamp out c (returned ∙ ap (λ b. some (b, d)) some_left)
          ∙ drained.returned
          ∙ ap (λ ys. some (drained.end, (out ++ ys) ++ stamped n stamp rest)) printed_now
          ∙ ap (λ ys. some (drained.end, ys))
              (append_assoc out (stamp ++ line) (stamped n stamp rest)
                ∙ ap (λ ys. out ++ ys) (append_assoc stamp line (stamped n stamp rest)));
      well = drained.well;
      empty = drained.empty;
    }
