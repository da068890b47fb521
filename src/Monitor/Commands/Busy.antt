-- ===== src/Monitor/Commands/Busy.antt =====
-- Taking the flag BUSY for the host.
use dmlog.Base.{
  ℕ, zero, suc, ◌≤◌, ◌≡◌, ◌⊎◌, refl, ap, ◌∙◌, inl, inr, Bool, true, false, Option, none, some, List,
  arith, ◌==◌, ◌&&◌, Bool-cases,
}
use dmlog.Flag
use dmlog.Word.{add32, bit, has, raise}
use dmlog.Word.Bits.{has-raise_self}
use dmlog.Life.{sizeof_ring}
use dmlog.Monitor.{Monitor, to_bytes, flags_offset}
use dmlog.Monitor.Commands.{
  store_ring, update_ring, put_flags, wait_loop, wait_until_not_busy, write_flags,
  send_busy_command,
}

module _ {M : Type 0} (read_memory : M → ℕ → ℕ → Option (List ℕ) × M)
    (write_memory : M → ℕ → List ℕ → Bool × M) (resume_briefly : M → M) where
  -- The host may write at once: it has BUSY itself, or nobody has.
  abbrev pub Free : Monitor → Type 0
  Free m = (m.owns_busy_flag ≡ true) ⊎ (has m.ring.flags Flag.busy ≡ false)

  pub wait-Free :
      (turns : ℕ) (m : Monitor) (w : M)
      → 1 ≤ turns
      → Free m
      → wait_until_not_busy read_memory write_memory resume_briefly turns m w ≡ some (true, m, w)
  unfolding wait_until_not_busy wait_loop
  wait-Free zero m w some_turn free = absurd (omega arith)
  wait-Free (suc turns) m w some_turn (inl own) = rw own refl
  wait-Free (suc turns) m w some_turn (inr not_busy) = elim (Bool-cases m.owns_busy_flag) [
    | inl own ↦ rw own refl
    | inr other ↦ rw (other, not_busy) refl
  ]

  store_ring-keeps :
      (m : Monitor) (got : Option (List ℕ) × M)
      → (store_ring read_memory write_memory resume_briefly m got).1.owns_busy_flag
        ≡ m.owns_busy_flag
  store_ring-keeps m (none, w) = refl
  store_ring-keeps m (some bytes, w) = refl

  update_ring-keeps :
      (m : Monitor) (w : M)
      → (update_ring read_memory write_memory resume_briefly m w).1.owns_busy_flag
        ≡ m.owns_busy_flag
  unfolding update_ring
  update_ring-keeps m w = store_ring-keeps m (read_memory w m.ring_address sizeof_ring)

  -- `r` and `m'` are what writing `flags` from `m` on may leave.
  abbrev Wrote : ℕ → Monitor → Bool → Monitor → Type 0
  Wrote flags m r m' =
      (m'.owns_busy_flag ≡ m.owns_busy_flag)
      × ((r ≡ false) ⊎ ((r ≡ true) × (m'.ring.flags ≡ flags)))

  judged :
      (updated : Bool) (f flags : ℕ)
      → ((updated && f == flags) ≡ false) ⊎ (((updated && f == flags) ≡ true) × (f ≡ flags))
  judged updated f flags = ground arith

  put_flags-Wrote :
      (flags : ℕ) (m : Monitor) (w : M)
      → let (r, m', w') = put_flags read_memory write_memory resume_briefly flags m w in
        Wrote flags m r m'
  unfolding put_flags
  put_flags-Wrote flags m w =
      let (written, w') = write_memory w (add32 m.ring_address flags_offset) (to_bytes 4 flags) in
      elim (Bool-cases written) [
        | inl done ↦ rw done (update_ring-keeps m w', judged _ _ flags)
        | inr failed ↦ rw failed (refl, inl refl)
      ]

  write_flags-Free :
      (turns flags : ℕ) (m : Monitor) (w : M)
      → 1 ≤ turns
      → Free m
      → write_flags read_memory write_memory resume_briefly turns flags m w
        ≡ some (put_flags read_memory write_memory resume_briefly flags m w)
  unfolding write_flags
  write_flags-Free turns flags m w some_turn free = rw (wait-Free turns m w some_turn free) refl

  -- What `monitor_send_busy_command` leaves: it fails and BUSY belongs to whom it did, or the host
  -- has BUSY and has read it back as set.
  abbrev pub Took : Monitor → Bool → Monitor → Type 0
  Took m r m' =
      ((r ≡ false) × (m'.owns_busy_flag ≡ m.owns_busy_flag))
      ⊎ ((r ≡ true)
          × (m'.owns_busy_flag ≡ true)
          × (m'.ring.flags ≡ raise m.ring.flags Flag.busy)
          × (has m'.ring.flags Flag.busy ≡ true))

  raised : (f : ℕ) → has (raise f Flag.busy) Flag.busy ≡ true
  unfolding bit
  raised f = has-raise_self 1 f Flag.busy refl

  -- Whatever the backend does: where the host has BUSY, or its copy of the ring shows it clear, one
  -- turn of waiting is enough for `monitor_send_busy_command` to return; it fails, and the host
  -- has BUSY if it had it, or it succeeds, the host has BUSY, and the flags that it read back are
  -- those it had with BUSY set.
  pub send_busy_command-Took :
      (turns : ℕ) (m : Monitor) (w : M)
      → 1 ≤ turns
      → Free m
      → (r : Bool) × (m' : Monitor) × (w' : M) × (send_busy_command read_memory write_memory
            resume_briefly turns m w
          ≡ some (r, m', w'))
        × Took m r m'
  unfolding send_busy_command
  send_busy_command-Took turns m w some_turn free =
      let flags = raise m.ring.flags Flag.busy in
      let (r, m', w') = put_flags read_memory write_memory resume_briefly flags m w in
      let put = put_flags-Wrote flags m w in
      rw (write_flags-Free turns flags m w some_turn free) (elim put.1 [
        | inl failed ↦ (false, m', w', rw failed refl, inl (refl, put.0))
        | inr (done, same) ↦ (
          true,
          record m' { owns_busy_flag = true },
          w',
          rw done refl,
          inr (refl, refl, same, ap (λ f. has f Flag.busy) same ∙ raised m.ring.flags),
        )
      ])
