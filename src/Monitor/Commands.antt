-- ===== src/Monitor/Commands.antt =====
-- tools/monitor/monitor.c: the ring read anew, the waits, and the commands that the host gives by
-- the flags.
use dmlog.Base.{
  ℕ, zero, suc, ◌+◌, Bool, true, false, not, ◌||◌, ◌&&◌, Option, none, some, List, [], ◌∷◌, ◌++◌,
  length, if◌then◌else◌, ◌==◌, drop, replicate,
}
use dmlog.Flag
use dmlog.Word.{add32, has, raise, lower}
use dmlog.Context.{Ring, magic_number, max_entry_size, zeros}
use dmlog.Life.{sizeof_ring}
use dmlog.Monitor.{
  Monitor, Outcome, and_then, to_bytes, ring_of_bytes, flags_offset, is_buffer_empty,
  read_from_buffer,
}
pub mod Busy

module _ {M : Type 0} (read_memory : M → ℕ → ℕ → Option (List ℕ) × M)
    (write_memory : M → ℕ → List ℕ → Bool × M) (resume_briefly : M → M) where
  abbrev Out : Type 0
  Out = Outcome read_memory write_memory resume_briefly

  abbrev then_do : Out → (Monitor → M → Out) → Out
  then_do = and_then read_memory write_memory resume_briefly

  abbrev pub store_ring : Monitor → Option (List ℕ) × M → Bool × Monitor × M
  store_ring m (none, w) = (false, m, w)
  store_ring m (some bytes, w) =
      let ring = ring_of_bytes bytes in (ring.magic == magic_number, record m { ring = ring }, w)

  -- `monitor_update_ring`; its measure of the data rate is for the trace.
  unfoldable pub update_ring : Monitor → M → Bool × Monitor × M
  update_ring m w = store_ring m (read_memory w m.ring_address sizeof_ring)

  unfoldable pub wait_loop : ℕ → Monitor → M → Out
  wait_loop zero m w = none
  wait_loop (suc turns) m w =
      let (updated, m', w') = update_ring m w in
      let rest = wait_loop turns m' w' in
      if has m.ring.flags Flag.busy
      then (if updated then rest else some (false, m', w'))
      else some (true, m, w)

  unfoldable pub wait_until_not_busy : ℕ → Monitor → M → Out
  wait_until_not_busy turns m w =
      if m.owns_busy_flag then some (true, m, w) else wait_loop turns m w

  abbrev pub write_word : Monitor → M → ℕ → ℕ → Bool × M
  write_word m w offset value = write_memory w (add32 m.ring_address offset) (to_bytes 4 value)

  -- `monitor_write_flags` after its wait.
  unfoldable pub put_flags : ℕ → Monitor → M → Bool × Monitor × M
  put_flags flags m w =
      let (written, w') = write_word m w flags_offset flags in
      let (updated, m', w'') = update_ring m w' in
      if written then (updated && m'.ring.flags == flags, m', w'') else (false, m, w')

  unfoldable pub write_flags : ℕ → ℕ → Monitor → M → Out
  write_flags turns flags m w =
      then_do (wait_until_not_busy turns m w) (λ m w. some (put_flags flags m w))

  unfoldable pub send_busy_command : ℕ → Monitor → M → Out
  send_busy_command turns m w =
      then_do (write_flags turns (raise m.ring.flags Flag.busy) m w)
        (λ m w. some (true, record m { owns_busy_flag = true }, w))

  unfoldable pub send_not_busy_command : ℕ → Monitor → M → Out
  send_not_busy_command turns m w =
      then_do (write_flags turns (lower m.ring.flags Flag.busy) m w)
        (λ m w. some (true, record m { owns_busy_flag = false }, w))

  unfoldable pub clear_loop : ℕ → Monitor → M → Out
  clear_loop zero m w = none
  clear_loop (suc turns) m w =
      let (updated, m', w') = update_ring m w in
      let rest = clear_loop turns m' w' in
      if has m.ring.flags Flag.clear_buffer || not (m.ring.tail_offset == 0)
      then (if updated then rest else some (false, m', w'))
      else some (true, m, w)

  unfoldable pub send_clear_command : ℕ → Monitor → M → Out
  send_clear_command turns m w =
      then_do (write_flags turns (raise m.ring.flags Flag.clear_buffer) m w) (clear_loop turns)

  unfoldable pub synchronize : Monitor → M → Bool × Monitor × M
  synchronize m w =
      let (updated, m', w') = update_ring m w in
      (updated, if updated then record m' { tail_offset = m'.ring.tail_offset } else m', w')

  -- The end of the read of `monitor_update_entry` into the entry buffer.
  abbrev store_entry : Option (List ℕ) × Monitor × M → Out
  store_entry (none, m, w) = some (false, m, w)
  store_entry (some bytes, m, w) =
      some (true, record m { entry_buffer = bytes ++ drop (length bytes) m.entry_buffer }, w)

  unfoldable pub update_entry : ℕ → Bool → Monitor → M → Out
  update_entry turns blocking m w =
      then_do (if blocking then send_busy_command turns m w else wait_until_not_busy turns m w)
        (λ m w.
          then_do
            (store_entry (
              read_from_buffer read_memory write_memory resume_briefly max_entry_size
                (record m { entry_buffer = zeros max_entry_size }) w))
            (λ m w. if blocking then send_not_busy_command turns m w else some (true, m, w)))

  -- The loop of `monitor_wait_for_new_data`, which is entered with an empty ring.
  unfoldable pub new_data_loop : ℕ → Monitor → M → Out
  new_data_loop zero m w = none
  new_data_loop (suc turns) m w =
      let (updated, m', w') = update_ring m w in
      let rest = new_data_loop turns m' (resume_briefly w') in
      if updated
      then (if has m'.ring.flags Flag.input_requested || has m'.ring.flags Flag.file_send_req
          then some (true, m', w')
          else (if is_buffer_empty m' then rest else some (true, m', resume_briefly w')))
      else some (false, m', w')

  -- The result of the first wait is not looked at.
  unfoldable pub wait_for_new_data : ℕ → Monitor → M → Out
  wait_for_new_data turns m w = elim (wait_until_not_busy turns m w) [
    | none ↦ none
    | some (ok, m', w') ↦
        if is_buffer_empty m' then new_data_loop turns m' w' else some (true, m', w')
  ]
