-- ===== src/Output/Putc.antt =====
-- `dmlog_putc`: the log, which is what the ring holds and the pending entry behind it, grows by
-- the character.
use dmlog.Base.{
  ℕ, suc, ◌-◌, ◌≤◌, ◌<◌, ◌≡◌, refl, ap, ap₂, sym, ◌∙◌, inl, inr, Bool, true, false, List, [], ◌∷◌,
  ◌++◌, arith, append-nil, append_assoc, length, length-set, length-take, take-set, set, last_n,
  last_n-last_n-append, ltb, ◌==◌, Bool-cases,
}
use dmlog.Word.{add32}
use dmlog.Context.{Context, context_lock, context_unlock, left_entry_space, max_entry_size}
use dmlog.Context.Invariant.{
  WellFormed, OutputOnly, OutputOnly-refl, OutputOnly-trans, contents, capacity, pending,
  clear_asked,
}
use dmlog.Context.Lock.{is_valid-WellFormed, context_lock-OutputOnly, context_unlock-OutputOnly}
use dmlog.Output.Flush.{flush-Keeps}
use dmlog.Output.{newline, flush, obey_clear, make_room, store_char, end_line, putc}

abbrev pub log : Context → List ℕ
log c = contents c ++ pending c

-- `done` is what logging `xs` in `c` leaves: of the log and `xs` behind it, a ring's worth of
-- last bytes is not lost.
pub record Logs (c : Context) (xs : List ℕ) (written : Bool) (done : Context) : Type 0 where
  pub wrote : written ≡ true
  pub logged : last_n (capacity c) (log done) ≡ last_n (capacity c) (log c ++ xs)
  pub only : OutputOnly c done

-- What an operation may ask for: a well-formed context, room for a byte, no order to clear.
pub record Ready (c : Context) : Type 0 where
  pub well : WellFormed c
  pub big : 2 ≤ c.ring.buffer_size
  pub no_clear : clear_asked c ≡ false

pub OutputOnly-Ready : {c d : Context} → Ready c → OutputOnly c d → Ready d
OutputOnly-Ready r o = record {
  well = o.well;
  big = omega (arith, r.big, o.same_size);
  no_clear = o.same_clear ∙ r.no_clear;
}

pub Logs-refl : {c : Context} → WellFormed c → Logs c [] true c
Logs-refl {c} w = record {
  wrote = refl;
  logged = rw (append-nil (log c));
  only = OutputOnly-refl w;
}

pub Logs-trans :
    {c d e : Context} {xs ys : List ℕ} {r s : Bool}
    → Logs c xs r d
    → Logs d ys s e
    → Logs c (xs ++ ys) s e
Logs-trans {c} {d} {e} {xs} {ys} p q = record {
  wrote = q.wrote;
  logged =
      ap (λ (k : ℕ). last_n (k - 1) (log e)) (sym p.only.same_size)
      ∙ q.logged
      ∙ ap (λ (k : ℕ). last_n (k - 1) (log d ++ ys)) p.only.same_size
      ∙ sym (last_n-last_n-append (capacity c) (log d) ys)
      ∙ ap (λ (zs : List ℕ). last_n (capacity c) (zs ++ ys)) p.logged
      ∙ last_n-last_n-append (capacity c) (log c ++ xs) ys
      ∙ ap (last_n (capacity c)) (append_assoc (log c) xs ys);
  only = OutputOnly-trans p.only q.only;
}

pub flush-Logs : {c : Context} → Ready c → Logs c [] (flush c).0 (flush c).1
flush-Logs {c} r =
    let k = flush-Keeps r.well r.big in
    record {
      wrote = k.0.wrote;
      logged =
          ap (last_n (capacity c)) (ap₂ ◌++◌ k.0.kept k.1)
          ∙ last_n-last_n-append (capacity c) (log c) [];
      only = k.0.only;
    }

left_entry_space-eq :
    {c : Context} → WellFormed c → left_entry_space c ≡ max_entry_size - c.write_entry_offset
unfolding left_entry_space
left_entry_space-eq w = rw (is_valid-WellFormed w) (omega (arith, w.write_offset_in))

make_room-Logs :
    {c : Context}
    → Ready c
    → Logs c [] true (make_room c) × ((make_room c).write_entry_offset < max_entry_size)
unfolding make_room
make_room-Logs {c} r = elim (Bool-cases (left_entry_space c == 0)) [
  | inl no_space ↦
      let f = flush-Logs r in
      let emptied = (flush-Keeps r.well r.big).1 in
      rw no_space (
        record { wrote = refl; logged = f.logged; only = f.only },
        omega (
          arith,
          ap length emptied,
          f.only.well.write_buffer_size,
          length-take (flush c).1.write_entry_offset (flush c).1.write_buffer,
        ),
      )
  | inr space ↦ rw space (Logs-refl r.well, ground (arith, left_entry_space-eq r.well))
]

store-WellFormed :
    {c : Context} (x : ℕ)
    → WellFormed c
    → c.write_entry_offset < max_entry_size
    → WellFormed (record c {
      write_buffer = set c.write_buffer c.write_entry_offset x;
      write_entry_offset = suc c.write_entry_offset;
    })
store-WellFormed {c} x w room = ground (arith, length-set c.write_buffer c.write_entry_offset x)

store_char-Logs :
    {c : Context} (x : ℕ)
    → Ready c
    → c.write_entry_offset < max_entry_size
    → Logs c (x ∷ []) (store_char c x).0 (store_char c x).1
unfolding store_char
store_char-Logs {c} x r room =
    let some_space : ltb 0 (left_entry_space c) ≡ true =
      ground (arith, left_entry_space-eq r.well) in
    let next : add32 c.write_entry_offset 1 ≡ suc c.write_entry_offset = omega arith in
    rw (some_space, next)
      (record {
        wrote = refl;
        logged =
            ap (λ (p : List ℕ). last_n (capacity c) (contents c ++ p))
              (take-set c.write_entry_offset c.write_buffer x
                (omega (arith, r.well.write_buffer_size)))
            ∙ ap (last_n (capacity c)) (sym (append_assoc (contents c) (pending c) (x ∷ [])));
        only = record {
          well = store-WellFormed x r.well room;
          same_size = refl;
          same_clear = refl;
          same_input = refl;
          same_input_entry = refl;
          same_input_offset = refl;
        };
      })

pub stored-Logs :
    {c : Context} (x : ℕ)
    → Ready c
    → let (written, done) = store_char (make_room c) x in Logs c (x ∷ []) written done
stored-Logs x r =
    let room = make_room-Logs r in
    Logs-trans room.0 (store_char-Logs x (OutputOnly-Ready r room.0.only) room.1)

pub end_line-Logs :
    {c d : Context} {xs : List ℕ} {r : Bool} (x : ℕ)
    → Ready c
    → Logs c xs r d
    → Logs c xs (end_line (r, d) x).0 (end_line (r, d) x).1
unfolding end_line
end_line-Logs {c} {d} {xs} {r} x ready l = elim (Bool-cases (x == newline)) [
  | inl ends ↦
      rw ends (rw (append-nil xs) at (Logs-trans l (flush-Logs (OutputOnly-Ready ready l.only))))
  | inr goes_on ↦ rw goes_on l
]

-- Logging under the lock is logging.
pub Logs-locked :
    {c d : Context} {xs : List ℕ} {r : Bool}
    → WellFormed c
    → Logs (context_lock c) xs r d
    → Logs c xs r (context_unlock d)
unfolding context_lock context_unlock
Logs-locked w l = record {
  wrote = l.wrote;
  logged = l.logged;
  only =
      OutputOnly-trans (context_lock-OutputOnly w)
        (OutputOnly-trans l.only (context_unlock-OutputOnly l.only.well));
}

pub obey_clear_not_asked : {c : Context} → clear_asked c ≡ false → obey_clear c ≡ c
unfolding obey_clear
obey_clear_not_asked e = rw e

-- In a context that is ready, `dmlog_putc` succeeds; the log is then the log and the character
-- behind it, as far as the last bytes go that the ring can hold; and the input side is as it was.
pub putc-Logs : {c : Context} (x : ℕ) → Ready c → Logs c (x ∷ []) (putc c x).0 (putc c x).1
unfolding putc
putc-Logs {c} x r =
    let locked = context_lock-OutputOnly r.well in
    let ready = OutputOnly-Ready r locked in
    let ended = end_line-Logs x ready (stored-Logs x ready) in
    rw (is_valid-WellFormed r.well, obey_clear_not_asked {c = context_lock c} ready.no_clear)
      (Logs-locked r.well ended)
