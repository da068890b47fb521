-- ===== src/Monitor/Answer/Restored.antt =====
-- How an input request leaves the terminal and the request.
use dmlog.Base.{
  ℕ, zero, suc, ◌≡◌, refl, subst, ◌⊎◌, ap, inl, inr, Bool, true, false, not, ◌||◌, ◌&&◌, arith,
  Option, none, some, List, if◌then◌else◌,
}
use dmlog.Flag
use dmlog.Word.{bit, has, lower, add32}
use dmlog.Word.Bits.{has-lower_self}
use dmlog.Output.{cstring}
use dmlog.Monitor.{Monitor, flags_offset, to_bytes}
use dmlog.Monitor.Commands.{write_word}
use dmlog.Monitor.Send.{send_input}
use dmlog.Monitor.Answer.{
  Terminal, Source, normal, restored, without_file, Line, from_file, from_stdin, read_line,
  Answered, goes_on, cleared, answer_line, handle_input_request,
}

module _ {F : Type 0} (fgets : F → Option (List ℕ) × F) (feof ferror : F → Bool) where
  -- A line leaves the terminal as it was set; where there is none, the terminal is as usual.
  abbrev Sets : Terminal → Line fgets feof ferror → Type 0
  Sets t none = Unit {0}
  Sets t (some (none, s)) = s.terminal ≡ normal
  Sets t (some (some text, s)) = s.terminal ≡ t

  Sets-if :
      (t : Terminal) (b : Bool) (x y : Line fgets feof ferror)
      → Sets t x
      → Sets t y
      → Sets t (if b then x else y)
  Sets-if t true x y h k = h
  Sets-if t false x y h k = k

  Sets-elim :
      (t : Terminal) (file : Option F) (x : Line fgets feof ferror) (y : F → Line fgets feof ferror)
      → Sets t x
      → ((f : F) → Sets t (y f))
      → Sets t (elim file [ none ↦ x | some f ↦ y f ])
  Sets-elim t none x y h k = h
  Sets-elim t (some f) x y h k = k f

  from_file-Sets :
      (s : Source F) (f : F) (got : Option (List ℕ) × F) (again : Line fgets feof ferror)
      → Sets s.terminal again
      → Sets s.terminal (from_file fgets feof ferror s f got again)
  from_file-Sets s f (some text, f') again h = refl
  from_file-Sets s f (none, f') again h =
      Sets-if s.terminal (feof f' && s.init_script_mode) _ _ h refl

  from_stdin-Sets :
      (line_mode : Bool) (s : Source F) (got : Option (List ℕ) × F) (again : Line fgets feof ferror)
      → Sets s.terminal again
      → Sets s.terminal (from_stdin fgets feof ferror line_mode s got again)
  from_stdin-Sets line_mode s (some text, f') again h = refl
  from_stdin-Sets line_mode s (none, f') again h =
      Sets-if s.terminal (line_mode && (ferror f' || feof f')) _ _ refl h

  read_line-Sets :
      (turns : ℕ) (line_mode : Bool) (s : Source F)
      → Sets s.terminal (read_line fgets feof ferror turns line_mode s)
  unfolding read_line
  read_line-Sets zero line_mode s = tt
  read_line-Sets (suc turns) line_mode s =
      Sets-elim s.terminal s.input_file _ _
        (from_stdin-Sets line_mode s (fgets s.stdin)
          (read_line fgets feof ferror turns line_mode (record s { stdin = (fgets s.stdin).1 }))
          (read_line-Sets turns line_mode (record s { stdin = (fgets s.stdin).1 })))
        (λ f.
          from_file-Sets s f (fgets f)
            (read_line fgets feof ferror turns line_mode (without_file s))
            (read_line-Sets turns line_mode (without_file s)))

  module _ {M : Type 0} (read_memory : M → ℕ → ℕ → Option (List ℕ) × M)
      (write_memory : M → ℕ → List ℕ → Bool × M) (resume_briefly : M → M) where
    abbrev AtEnd : Source F → Type 0
    AtEnd s = (f : F) × (s.input_file ≡ some f) × (feof f ≡ true)

    -- The last that the target was sent are its flags, to their place: the flags that the host has
    -- now, without the request.
    abbrev pub Withdrawn : Monitor → M → Type 0
    Withdrawn m w =
        (has m.ring.flags Flag.input_requested ≡ false)
        × ((before : M) × (write_memory before (add32 m.ring_address flags_offset)
                (to_bytes 4 m.ring.flags)
              ≡ (true, w)))

    -- Where the request was answered, it is taken back and the terminal is set as the target wants it;
    -- where the monitor is to end, the terminal is as usual, or the request is taken back and the
    -- input file has come to its end.
    abbrev pub Leaves :
        Terminal
        → Option (Answered fgets feof ferror read_memory write_memory resume_briefly)
        → Type 0
    Leaves t none = Unit {0}
    Leaves t (some (true, m, w, s)) = (s.terminal ≡ t) × Withdrawn m w
    Leaves t (some (false, m, w, s)) = (s.terminal ≡ normal) ⊎ (Withdrawn m w × AtEnd s)

    goes_on-end :
        (init_script : Bool) (file : Option F)
        → goes_on fgets feof ferror read_memory write_memory resume_briefly init_script file ≡ false
        → (f : F) × (file ≡ some f) × (feof f ≡ true)
    goes_on-end init_script none e = absurd (ground arith)
    goes_on-end true (some f) e = absurd (ground arith)
    goes_on-end false (some f) e = (f, refl, ground arith)

    ends-Leaves :
        (ok : Bool) (m : Monitor) (w : M) (s : Source F)
        → Withdrawn m w
        → (ok ≡ false → AtEnd s)
        → Leaves s.terminal (some (ok, m, w, s))
    ends-Leaves true m w s h k = (refl, h)
    ends-Leaves false m w s h k = inr (h, k refl)

    Leaves-if :
        (t : Terminal) (b : Bool)
        (x y : Answered fgets feof ferror read_memory write_memory resume_briefly)
        → (b ≡ true → Leaves t (some x))
        → Leaves t (some y)
        → Leaves t (some (if b then x else y))
    Leaves-if t true x y h k = h refl
    Leaves-if t false x y h k = k

    cleared-Leaves :
        (r : Bool × Monitor × M) (s : Source F)
        → Leaves s.terminal
            (some (cleared fgets feof ferror read_memory write_memory resume_briefly r s))
    unfolding bit
    cleared-Leaves (false, m, w) s = inl refl
    cleared-Leaves (true, m, w) s =
        let flags = lower m.ring.flags Flag.input_requested in
        let m' = record m { ring = record (m.ring) { flags = flags } } in
        let (written, w') =
          write_word read_memory write_memory resume_briefly m w flags_offset flags in
        Leaves-if s.terminal written
          (
            goes_on fgets feof ferror read_memory write_memory resume_briefly s.init_script_mode
                s.input_file,
            m',
            w',
            s,
          )
          (false, m, w', restored s)
          (λ done.
            ends-Leaves _ m' w' s
              (has-lower_self 3 m.ring.flags Flag.input_requested refl, (w, ap (λ b. (b, w')) done))
              (goes_on-end s.init_script_mode s.input_file))
          (inl refl)

    answer_line-Leaves :
        (m : Monitor) (w : M) (t : Terminal) (line : Line fgets feof ferror)
        → Sets t line
        → Leaves t (answer_line fgets feof ferror read_memory write_memory resume_briefly m w line)
    answer_line-Leaves m w t none h = tt
    answer_line-Leaves m w t (some (none, s)) h = inl h
    answer_line-Leaves m w t (some (some text, s)) h =
        subst
          (λ t. Leaves t (
            answer_line fgets feof ferror read_memory write_memory resume_briefly m w
              (some (some text, s))))
          h
          (cleared-Leaves
            (send_input read_memory write_memory resume_briefly (some (cstring text)) m w) s)

    -- Where the target asks for input, whatever the files and the backend do: if
    -- `monitor_handle_input_request` returns true, the terminal is set as the target's flags want it
    -- and the request is taken back: the last write to the target has succeeded, and has put the
    -- host's flags, without the request, in the place of the target's. If it returns false,
    -- the terminal is as usual, with echo and lines, or the request is taken back in this way and
    -- the input file has come to its end.
    pub handle_input_request-Leaves :
        (turns : ℕ) (m : Monitor) (w : M) (s : Source F)
        → has m.ring.flags Flag.input_requested ≡ true
        → Leaves
            (record {
              echo_on = not (has m.ring.flags Flag.input_echo_off);
              line_mode = has m.ring.flags Flag.input_line_mode;
            })
            (handle_input_request fgets feof ferror read_memory write_memory resume_briefly turns m
              w s)
    unfolding handle_input_request
    handle_input_request-Leaves turns m w s asked = rw asked (
        answer_line-Leaves m w _ _ (
          read_line-Sets turns (has m.ring.flags Flag.input_line_mode) (record s {
            terminal = record {
              echo_on = not (has m.ring.flags Flag.input_echo_off);
              line_mode = has m.ring.flags Flag.input_line_mode;
            };
          })))
