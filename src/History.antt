-- ===== src/History.antt =====
-- The life of a context of src/dmlog.c as a sequence of turns: calls of the target, in any order,
-- and what the host does to the memory of the target between them. A call runs to its end before
-- the next turn, and the host does not set BUSY. `dmlog_getc` is left out, for it may return with the
-- lock taken.
use dmlog.Base.{
  ℕ, ◌+◌, ◌-◌, ◌^◌, ◌≤◌, ◌<◌, ◌≡◌, some, List, [], ◌∷◌, ◌++◌, length, get_or, take, Bool,
}
use dmlog.Flag
use dmlog.Word.{raise}
use dmlog.Context.{Context, set_flags}
use dmlog.Context as Context
use dmlog.Context.Invariant.{input_contents}
use dmlog.Output as Output
use dmlog.Output.{cstring}
use dmlog.Reader as Reader
use dmlog.Input as Input
use dmlog.Input.Stream.{NoZeros}
pub mod Kept
pub mod Invariant
pub mod Log

-- The host wrote into the input ring: the memory and the position behind what it wrote.
abbrev pub typed : Context → List ℕ → ℕ → Context
typed c memory head = record c {
  buffer = memory;
  ring = record (c.ring) {
    input_head_offset = head;
    flags = raise c.ring.flags Flag.input_available;
  };
}

-- What the host keeps to: it leaves the output alone, and puts text behind the input.
pub record Types (c : Context) (memory : List ℕ) (head : ℕ) (text : List ℕ) : Type 0 where
  pub cells : length memory ≡ length c.buffer
  pub output : (i : ℕ) → i < c.ring.buffer_size → get_or memory i 0 ≡ get_or c.buffer i 0
  pub head_in : head < c.ring.input_buffer_size
  pub grown : input_contents (typed c memory head) ≡ input_contents c ++ text
  pub clean : NoZeros text

-- A turn that takes nothing off the log, with the text that it logs.
pub data Says : List ℕ → Context → Context → Type 0 where
  putc : {c : Context} (x : ℕ) → Says (x ∷ []) c (Output.putc c x).1
  puts : {c : Context} (s : List ℕ) → Says (cstring s) c (Output.puts c s).1
  putsn : {c : Context} (s : List ℕ) (n : ℕ) → Says (take n (cstring s)) c (Output.putsn c s n).1
  flush : {c : Context} → Says [] c (Output.flush c).1
  gets : {c : Context} (n : ℕ) → 1 ≤ n → n < 2 ^ 64 → Says [] c (Reader.gets c n).2
  input_getc : {c : Context} → Says [] c (Input.input_getc c).1
  input_gets : {c : Context} (n : ℕ) → 1 ≤ n → n < 2 ^ 64 → Says [] c (Input.input_gets c n).2
  input_request : {c : Context} (flags : ℕ) → Says [] c (Input.input_request c flags)
  exit_monitor : {c : Context} → Says [] c (Context.exit_monitor c)
  types :
      {c : Context} {memory text : List ℕ} {head : ℕ}
      → Types c memory head text
      → Says [] c (typed c memory head)

-- Any turn.
pub data Turn : Context → Context → Type 0 where
  says : {c d : Context} {text : List ℕ} → Says text c d → Turn c d
  read_next : {c d : Context} {found : Bool} → Reader.read_next c ≡ some (found, d) → Turn c d
  clear : {c : Context} → Turn c (Context.clear c)
  asks_to_clear : {c : Context} → Turn c (set_flags c (raise c.ring.flags Flag.clear_buffer))

pub data Reach (start : Context) : Context → Type 0 where
  here : Reach start start
  next : {c d : Context} → Reach start c → Turn c d → Reach start d

-- Turns of the first kind, one after the other, with all that they log.
pub data SaysAll (start : Context) : List ℕ → Context → Type 0 where
  none_yet : SaysAll start [] start
  more :
      {c d : Context} {before text : List ℕ}
      → SaysAll start before c
      → Says text c d
      → SaysAll start (before ++ text) d
