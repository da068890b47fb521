-- ===== src/Input/Fetch.antt =====
-- The part of `dmlog_input_getc` that takes the next entry from the input ring.
use dmlog.Base.{
  ℕ, ◌≡◌, refl, ap, ap₂, ◌∙◌, Bool, true, false, List, ◌++◌, arith, set, length, length-set,
  length-replicate, ltb, lt→ltb, if◌then◌else◌,
}
use dmlog.Flag
use dmlog.Word.{bit, has, lower}
use dmlog.Word.Bits.{has-lower_other}
use dmlog.Context.{Context, max_entry_size, zeros}
use dmlog.Context.Invariant.{WellFormed, input_contents, clear_asked}
use dmlog.Output.{cstring}
use dmlog.Reader.Entry.{
  entry, after_entry, entry-append-after_entry, is_cons, write_at, length-entry-le, cstring-buffer,
  line_room, is_cons-entry, terminated,
}
use dmlog.Input.{input_loop, fetch_entry}
use dmlog.Input.Stream.{
  NoZeros, NoZeros-entry, cstring-NoZeros, fetched, stream, InputOnly, InputOnly-trans,
}
use dmlog.Input.Loop.{input_loop-Fetches}

clear-if_lower :
    (drained : Bool) (f : ℕ)
    → has (if drained then lower f Flag.input_available else f) Flag.clear_buffer
      ≡ has f Flag.clear_buffer
unfolding bit
clear-if_lower true f = has-lower_other 0 f Flag.input_available refl
clear-if_lower false f = refl

empty_buffer-InputOnly :
    {c : Context}
    → WellFormed c
    → NoZeros (input_contents c)
    → InputOnly c (record c { input_read_buffer = zeros max_entry_size })
empty_buffer-InputOnly {c} w z = record {
  well = cleared w;
  clean = z;
  same_size = refl;
  same_output = refl;
  same_pending = refl;
  same_clear = refl;
}
  where
    cleared : WellFormed c → WellFormed (record c { input_read_buffer = zeros max_entry_size })
    cleared w = ground (arith, length-replicate {A = ℕ} 500 0)

-- The end of the fetch: the final 0, the offset and the flag.
abbrev end_fetch : ℕ → ℕ → Context → Context
end_fetch flags n d = record d {
  ring = record (d.ring) { flags = flags };
  input_read_buffer = set d.input_read_buffer n 0;
  input_read_entry_offset = 0;
}

end_fetch-WellFormed : (flags n : ℕ) {d : Context} → WellFormed d → WellFormed (end_fetch flags n d)
end_fetch-WellFormed flags n {d} w = ground (arith, length-set d.input_read_buffer n 0)

-- What a fetch into a used-up buffer does: the stream stays, and its next byte is fetched.
pub record Fetched (c d : Context) : Type 0 where
  pub only : InputOnly c d
  pub same_stream : stream d ≡ input_contents c
  pub primed : is_cons (fetched d) ≡ is_cons (input_contents c)

end_fetch-Fetched :
    (flags : ℕ) (c : Context) {d : Context}
    → NoZeros (input_contents c)
    → has flags Flag.clear_buffer ≡ clear_asked d
    → d.input_read_buffer ≡ write_at 0 (entry line_room (input_contents c)) (zeros max_entry_size)
    → input_contents d ≡ after_entry line_room (input_contents c)
    → InputOnly c d
    → Fetched c (end_fetch flags (length (entry line_room (input_contents c))) d)
end_fetch-Fetched flags c {d} z f bytes left only = record {
  only = record {
    well = end_fetch-WellFormed flags (length (entry line_room xs)) only.well;
    clean = only.clean;
    same_size = only.same_size;
    same_output = only.same_output;
    same_pending = only.same_pending;
    same_clear = f ∙ only.same_clear;
  };
  same_stream = ap₂ ◌++◌ text left ∙ entry-append-after_entry line_room xs;
  primed = ap is_cons text ∙ is_cons-entry xs;
}
  where
    xs : List ℕ
    xs = input_contents c

    text : cstring (set d.input_read_buffer (length (entry line_room xs)) 0) ≡ entry line_room xs
    text =
        let ended = terminated xs bytes in
        cstring-buffer (entry line_room xs) _ ended.0 ended.1
        ∙ cstring-NoZeros (entry line_room xs) (NoZeros-entry line_room xs z).0

pub fetch_entry-Fetched :
    {c : Context} → WellFormed c → NoZeros (input_contents c) → Fetched c (fetch_entry c)
unfolding fetch_entry
fetch_entry-Fetched {c} w z =
    let emptied = empty_buffer-InputOnly w z in
    let loop = input_loop-Fetches line_room 0 xs emptied.well refl z in
    let index : (input_loop line_room 0 (record c { input_read_buffer = zeros max_entry_size })).0
        ≡ n =
      omega (arith, loop.index) in
    let inside : ltb n max_entry_size ≡ true =
      lt→ltb n max_entry_size (omega (arith, length-entry-le line_room xs)) in
    rw (index, inside)
      (end_fetch-Fetched _ c z (clear-if_lower _ _) loop.bytes loop.left
        (InputOnly-trans emptied loop.only))
  where
    xs : List ℕ
    xs = input_contents c

    n : ℕ
    n = length (entry line_room xs)
