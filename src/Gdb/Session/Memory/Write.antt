-- ===== src/Gdb/Session/Memory/Write.antt =====
-- `gdb_write_memory` of a target that is stopped, and what is read back behind it.
use dmlog.Base.{
  ℕ, zero, suc, ◌+◌, ◌%◌, ◌^◌, ◌≤◌, ◌<◌, ◌≡◌, refl, ap, subst, sym, ◌∙◌, Bool, false, Option, List,
  [], ◌∷◌, arith, length, length-take, length-drop, take, drop,
}
use native.Mathlib.Nat.{mod-eq_of_lt}
use dmlog.Monitor.Buffer.{slice}
use dmlog.Transfer.Send.{take-append-drop}
use dmlog.Gdb.{hash}
use dmlog.Gdb.Hex.{AllBytes}
use dmlog.Gdb.Session.{
  World, done, on, and_then, ask, read_memory, max_write_size, write_command, write_loop,
  write_memory,
}
use dmlog.Gdb.Session.Packets.{Without}
use dmlog.Gdb.Session.Memory.{
  overwrite-append, Server, overwrite, slice-overwrite, ask-answered, stopped, restore_stopped,
}
use dmlog.Gdb.Session.Memory.Read.{read_memory-slice}

take-AllBytes : (n : ℕ) (xs : List ℕ) → AllBytes xs → AllBytes (take n xs)
take-AllBytes zero xs small = tt
take-AllBytes (suc n) [] small = tt
take-AllBytes (suc n) (x ∷ xs) small = (small.0, take-AllBytes n xs small.1)

drop-AllBytes : (n : ℕ) (xs : List ℕ) → AllBytes xs → AllBytes (drop n xs)
drop-AllBytes zero xs small = small
drop-AllBytes (suc n) [] small = tt
drop-AllBytes (suc n) (x ∷ xs) small = drop-AllBytes n xs small.1

ok_Without : Without 0 (b'O' ∷ b'K' ∷ []) × Without hash (b'O' ∷ b'K' ∷ [])
ok_Without = (
  ((λ e. absurd (omega arith)), ((λ e. absurd (omega arith)), tt)),
  ((λ e. absurd (omega arith)), ((λ e. absurd (omega arith)), tt)),
)

module _ {S : Type 0} (send : S → List ℕ → Option ℕ × S) (recv : S → ℕ → List ℕ × S)
    (select : S → Option Bool × S) (incoming : S → List ℕ) (cells : S → ℕ → ℕ)
    (server : Server send recv select incoming cells) where
  -- What the loop leaves where all that it is given is stored.
  abbrev Stores : ℕ → ℕ → ℕ → List ℕ → World S → Type 0
  Stores turns left a bytes w =
      (s : S) × (write_loop send recv select turns left a bytes w ≡ done tt (on w s))
      × (incoming s ≡ [])
      × (cells s ≡ overwrite (cells w.socket) a bytes)

  write_loop-step :
      (turns left a a' x : ℕ) (bytes : List ℕ) (w : World S) (s : S)
      → (a + length (take max_write_size (x ∷ bytes))) % 2 ^ 64 ≡ a'
      → ask send recv select turns 256 (write_command a (take max_write_size (x ∷ bytes))) w
        ≡ done (b'O' ∷ b'K' ∷ []) (on w s)
      → write_loop send recv select turns (suc left) a (x ∷ bytes) w
        ≡ write_loop send recv select turns left a' (drop max_write_size (x ∷ bytes)) (on w s)
  unfolding write_loop
  write_loop-step turns left a a' x bytes w s next asks = rw (next, asks) refl

  write_loop-overwrite :
      (turns left a : ℕ) (bytes : List ℕ) (w : World S)
      → 1 ≤ turns
      → length bytes ≤ left
      → a + length bytes < 2 ^ 64
      → AllBytes bytes
      → incoming w.socket ≡ []
      → Stores turns left a bytes w
  unfolding write_loop
  write_loop-overwrite turns zero a [] w enough fuel in_range small quiet =
      (w.socket, refl, quiet, refl)
  write_loop-overwrite turns zero a (x ∷ bytes) w enough fuel in_range small quiet =
      absurd (omega arith)
  write_loop-overwrite turns (suc left) a [] w enough fuel in_range small quiet =
      (w.socket, refl, quiet, refl)
  write_loop-overwrite turns (suc left) a (x ∷ bytes) w enough fuel in_range small quiet =
      let now = take max_write_size (x ∷ bytes) in
      let later = drop max_write_size (x ∷ bytes) in
      let sizes : length now + length later ≡ length (x ∷ bytes) =
        omega
          (arith, length-take max_write_size (x ∷ bytes), length-drop max_write_size (x ∷ bytes)) in
      let (answers, stored) =
        server.answers_write w.socket a now (omega arith)
          (take-AllBytes max_write_size (x ∷ bytes) small)
          (omega (arith, length-take max_write_size (x ∷ bytes))) quiet in
      let (s, asks, left_over, kept) =
        ask-answered send recv select incoming cells server turns 256 (write_command a now)
          (b'O' ∷ b'K' ∷ []) w enough (omega arith) ok_Without.0 ok_Without.1 answers in
      let next : (a + length now) % 2 ^ 64 ≡ a + length now = mod-eq_of_lt (omega (arith, sizes)) in
      let (s', stores, quiet', after) =
        write_loop-overwrite turns left (a + length now) later (on w s) enough
          (omega (arith, length-drop max_write_size (x ∷ bytes))) (omega (arith, sizes))
          (drop-AllBytes max_write_size (x ∷ bytes) small) left_over in
      (
        s',
        write_loop-step turns left a (a + length now) x bytes w s next asks ∙ stores,
        quiet',
        after
            ∙ ap (λ c. overwrite c (a + length now) later) (kept ∙ stored)
            ∙ overwrite-append (cells w.socket) a now later
            ∙ ap (overwrite (cells w.socket) a) (take-append-drop max_write_size (x ∷ bytes)),
      )

  -- From a server that answers as the protocol says, where nothing is left to be read and the target
  -- is stopped: `gdb_write_memory` succeeds; the target's memory holds the bytes, all of them
  -- however many packets they take, at the address, and is as it was elsewhere; the
  -- target is stopped, and nothing is left to be read. The bytes end below 2 ^ 64.
  pub write_memory-overwrite :
      (turns a : ℕ) (bytes : List ℕ) (w : World S)
      → 1 ≤ turns
      → a + length bytes < 2 ^ 64
      → AllBytes bytes
      → incoming w.socket ≡ []
      → w.target_is_running ≡ false
      → (s : S) × (write_memory send recv select turns a bytes w ≡ done tt (on w s))
        × (incoming s ≡ [])
        × (cells s ≡ overwrite (cells w.socket) a bytes)
  unfolding write_memory
  write_memory-overwrite turns a bytes w enough in_range small quiet rests =
      let (s, stores, left, stored) =
        write_loop-overwrite turns (length bytes) a bytes w enough (omega arith) in_range small
          quiet in
      (
        s,
        rw (stopped send recv select incoming cells server turns w rests) (
            restore_stopped send recv select incoming cells server w.target_is_running _ rests
            ∙ stores),
        left,
        stored,
      )

  -- From a server that answers as the protocol says, where nothing is left to be read and the target
  -- is stopped: fewer than 2048 bytes that `gdb_write_memory` has written are what `gdb_read_memory`
  -- reads at their address next.
  pub read_memory-write_memory :
      (turns a : ℕ) (bytes : List ℕ) (w : World S)
      → 1 ≤ turns
      → a + length bytes < 2 ^ 64
      → length bytes < 2048
      → AllBytes bytes
      → incoming w.socket ≡ []
      → w.target_is_running ≡ false
      → (s : S) × (and_then
            (write_memory send recv select turns a bytes w)
            (λ _. read_memory send recv select turns a (length bytes))
          ≡ done bytes (on w s))
        × (cells s ≡ overwrite (cells w.socket) a bytes)
  read_memory-write_memory turns a bytes w enough in_range fits small quiet rests =
      let (s, writes, quiet', stored) =
        write_memory-overwrite turns a bytes w enough in_range small quiet rests in
      let (s', reads, quiet2, same) =
        read_memory-slice send recv select incoming cells server turns a (length bytes) (on w s)
          enough (omega arith) fits quiet' rests
          (subst AllBytes
            (sym (
              ap (λ c. slice c a (length bytes)) stored ∙ slice-overwrite (cells w.socket) a bytes))
            small) in
      (
        s',
        ap (λ r. and_then r (λ _. read_memory send recv select turns a (length bytes))) writes
            ∙ reads
            ∙ ap (λ l. done l (on w s'))
                (ap (λ c. slice c a (length bytes)) stored
                  ∙ slice-overwrite (cells w.socket) a bytes),
        same ∙ stored,
      )
