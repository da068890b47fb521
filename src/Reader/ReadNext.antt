-- ===== src/Reader/ReadNext.antt =====
-- `dmlog_read_next` takes the oldest entry off the ring and leaves it in the read buffer.
use dmlog.Base.{
  ℕ, ◌<◌, ◌≡◌, ◌⊎◌, inl, inr, refl, ◌∙◌, Bool, true, false, some, none, arith, length, length-set,
  length-replicate, take, set, get_or, ltb, lt→ltb,
}
use dmlog.Flag
use dmlog.Word.{has}
use dmlog.Context.{
  Context, max_entry_size, zeros, is_valid, context_lock, context_unlock, wait_for_unlock,
}
use dmlog.Context.Invariant.{WellFormed, OutputOnly, OutputOnly-trans, contents}
use dmlog.Context.Lock.{is_valid-WellFormed, context_lock-OutputOnly, context_unlock-OutputOnly}
use dmlog.Reader.{read_loop, read_entry, read_next}
use dmlog.Reader.Entry.{
  entry, after_entry, is_cons, write_at, length-entry-le, line_room, is_cons-entry, terminated,
}
use dmlog.Reader.Loop.{Takes, read_loop-Loops}

-- `done` is `c` after the oldest entry went from the ring to the read buffer.
pub record Reads (c : Context) (found : Bool) (done : Context) : Type 0 where
  pub result : found ≡ is_cons (contents c)
  pub line :
      take (length (entry line_room (contents c))) done.read_buffer ≡ entry line_room (contents c)
  pub ended : get_or done.read_buffer (length (entry line_room (contents c))) 0 ≡ 0
  pub rewound : done.read_entry_offset ≡ 0
  pub takes : Takes c (after_entry line_room (contents c)) done

empty_buffer-OutputOnly :
    {c : Context} → WellFormed c → OutputOnly c (record c { read_buffer = zeros max_entry_size })
empty_buffer-OutputOnly w = record {
  well = ground (arith, length-replicate {A = ℕ} 500 0);
  same_size = refl;
  same_clear = refl;
  same_input = refl;
  same_input_entry = refl;
  same_input_offset = refl;
}

end_entry-OutputOnly :
    {c : Context} (i : ℕ)
    → WellFormed c
    → OutputOnly c (record c { read_buffer = set c.read_buffer i 0; read_entry_offset = 0 })
end_entry-OutputOnly {c} i w = record {
  well = ground (arith, length-set c.read_buffer i 0);
  same_size = refl;
  same_clear = refl;
  same_input = refl;
  same_input_entry = refl;
  same_input_offset = refl;
}

-- The final 0 behind what the loop stored.
end_entry-Reads :
    (found : Bool) (c : Context) {d : Context}
    → found ≡ is_cons (contents c)
    → d.read_buffer ≡ write_at 0 (entry line_room (contents c)) (zeros max_entry_size)
    → Takes c (after_entry line_room (contents c)) d
    → Reads c found (record d {
      read_buffer = set d.read_buffer (length (entry line_room (contents c))) 0;
      read_entry_offset = 0;
    })
end_entry-Reads found c {d} f bytes t = record {
  result = f;
  line = (terminated (contents c) bytes).0;
  ended = (terminated (contents c) bytes).1;
  rewound = refl;
  takes = record {
    left = t.left;
    only = OutputOnly-trans t.only (end_entry-OutputOnly n t.only.well);
    same_pending = t.same_pending;
  };
}
  where
    n : ℕ
    n = length (entry line_room (contents c))

pub read_entry-Reads : {c : Context} → WellFormed c → Reads c (read_entry c).0 (read_entry c).1
unfolding read_entry
read_entry-Reads {c} w =
    let emptied = empty_buffer-OutputOnly w in
    let loop = read_loop-Loops line_room 0 false (contents c) emptied.well refl in
    let short = length-entry-le line_room (contents c) in
    let n = length (entry line_room (contents c)) in
    let index : (read_loop line_room 0 false (record c { read_buffer = zeros max_entry_size })).0
        ≡ n =
      omega (arith, loop.index) in
    let inside : ltb n max_entry_size ≡ true = lt→ltb n max_entry_size (omega arith) in
    rw (index, inside)
      (end_entry-Reads _ c (loop.result ∙ is_cons-entry (contents c)) loop.bytes (record {
        left = loop.takes.left;
        only = OutputOnly-trans emptied loop.takes.only;
        same_pending = loop.takes.same_pending;
      }))

-- `dmlog_read_next` does not wait: the lock is held already, or nobody holds it.
abbrev pub Unblocked : Context → Type 0
Unblocked c = (0 < c.lock_recursion) ⊎ (has c.ring.flags Flag.busy ≡ false)

wait_for_unlock-Unblocked : {c : Context} → Unblocked c → wait_for_unlock c ≡ some c
unfolding wait_for_unlock
wait_for_unlock-Unblocked (inl held) = ground arith
wait_for_unlock-Unblocked (inr free) = ground arith

pub read_next-eq :
    (c : Context)
    → is_valid (some c) ≡ true
    → Unblocked c
    → let out = read_entry (context_lock c) in read_next c ≡ some (out.0, context_unlock out.1)
unfolding read_next
read_next-eq c valid free = rw (valid, wait_for_unlock-Unblocked {c = c} free, read_next)

-- A read under the lock is a read.
Reads-locked :
    {c d : Context} {found : Bool}
    → WellFormed c
    → Reads (context_lock c) found d
    → Reads c found (context_unlock d)
unfolding context_lock context_unlock
Reads-locked w r = record {
  result = r.result;
  line = r.line;
  ended = r.ended;
  rewound = r.rewound;
  takes = record {
    left = r.takes.left;
    only =
        OutputOnly-trans (context_lock-OutputOnly w)
          (OutputOnly-trans r.takes.only (context_unlock-OutputOnly r.takes.only.well));
    same_pending = r.takes.same_pending;
  };
}

-- In a well-formed context in which nothing blocks it, `dmlog_read_next` returns; it says whether
-- the ring held a byte; the oldest entry (up to and with the first newline, at most 499 bytes)
-- goes from the ring to the start of the read buffer, with a 0 behind it; the rest of the ring
-- stays in its order; reading starts at the entry's first byte; and the pending entry and the
-- input side are as they were.
pub read_next-Reads :
    {c : Context}
    → WellFormed c
    → Unblocked c
    → (found : Bool) × (done : Context) × (read_next c ≡ some (found, done)) × Reads c found done
read_next-Reads {c} w free =
    let locked = context_lock-OutputOnly w in
    let held = context_lock c in
    (
      (read_entry held).0,
      context_unlock (read_entry held).1,
      read_next-eq c (is_valid-WellFormed w) free,
      Reads-locked w (read_entry-Reads locked.well),
    )

wait_for_unlock_blocked :
    (c : Context)
    → c.lock_recursion ≡ 0
    → has c.ring.flags Flag.busy ≡ true
    → wait_for_unlock c ≡ none
unfolding wait_for_unlock
wait_for_unlock_blocked c e b = ground arith

-- In a well-formed context in which BUSY is set but nobody on the target holds the lock, the wait
-- of `dmlog_read_next` does not end.
pub read_next_blocked :
    {c : Context}
    → WellFormed c
    → c.lock_recursion ≡ 0
    → has c.ring.flags Flag.busy ≡ true
    → read_next c ≡ none
unfolding read_next
read_next_blocked {c} w e b = rw (is_valid-WellFormed w, wait_for_unlock_blocked c e b, read_next)
