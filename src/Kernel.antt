-- ===== src/Kernel.antt =====
-- src/dmlog.c, what the kernel of DMOD calls: the default context, `Dmod_WriteKernel`,
-- `Dmod_ReadKernel`, and the flags of the standard input.
-- DMOD_STDIN_FLAG_ECHO and DMOD_STDIN_FLAG_CANONICAL are of dmod, and so are `Dmod_LockStdio` and
-- `Dmod_Ioctl`: parameters. So is what the host does to the memory while the target waits.
use dmlog.Base.{
  ℕ, zero, suc, ◌+◌, ◌-◌, Bool, true, false, not, Option, none, some, List, [], ◌∷◌, bit_or,
  if◌then◌else◌, ◌==◌,
}
use dmlog.Flag
use dmlog.Word.{has, raise}
use dmlog.Context.{Context}
use dmlog.Output.{putc, flush}
use dmlog.Input.{input_available, input_getc, input_request}
pub mod Write
pub mod Read
pub mod Flags

-- The two global variables.
pub record Kernel : Type 0 where
  pub default_ctx : Option Context
  pub stdin_flags : ℕ

unfoldable pub set_as_default : Kernel → Option Context → Kernel
set_as_default k ctx = record k { default_ctx = ctx }

unfoldable pub get_default : Kernel → Option Context
get_default k = k.default_ctx

-- The loop of `Dmod_WriteKernel`, with so many bytes left: how many were written.
unfoldable pub write_loop : ℕ → List ℕ → Context → ℕ × Context
write_loop zero bytes c = (0, c)
write_loop (suc left) [] c = (0, c)
write_loop (suc left) (x ∷ bytes) c =
    let (logged, next) = putc c x in
    let more = write_loop left bytes next in if logged then (suc more.0, more.1) else (0, next)

-- A null `Buffer` is `none`.
unfoldable pub write_kernel : Kernel → Option (List ℕ) → ℕ → ℕ × Kernel
write_kernel k none size = (0, k)
write_kernel k (some bytes) size = elim (get_default k) [
  | none ↦ (0, k)
  | some c ↦
      (let (written, done) = write_loop size bytes c in
        (written, set_as_default k (some (flush done).1)))
]

-- The wait of `Dmod_ReadKernel` for at most so many turns: after each request the host has its
-- turn with the memory. `none` is a wait that is not over by then.
unfoldable pub wait_for_input : ℕ → (ℕ → Context → Context) → ℕ → ℕ → Context → Option Context
wait_for_input zero host turn flags c = none
wait_for_input (suc turns) host turn flags c =
    let rest = wait_for_input turns host (turn + 1) flags (host turn (input_request c flags)) in
    if input_available c then some c else rest

-- The loop that reads, with room for so many bytes.
unfoldable pub read_available : ℕ → Context → List ℕ × Context
read_available zero c = ([], c)
read_available (suc room) c =
    let (char, next) = input_getc c in
    let more = read_available room next in
    if input_available c then (char ∷ more.0, more.1) else ([], c)

-- The list is what is stored in `Buffer`; a null `Buffer` is no buffer.
unfoldable pub read_kernel :
    ℕ → (ℕ → Context → Context) → Kernel → Bool → ℕ → Option (List ℕ × Kernel)
read_kernel turns host k no_buffer zero = some ([], k)
read_kernel turns host k true (suc room) = some ([], k)
read_kernel turns host k false (suc room) = elim (get_default k) [
  | none ↦ some ([], k)
  | some c ↦ elim (wait_for_input turns host 0 k.stdin_flags c) [
    | none ↦ none
    | some ready ↦ some (
        let (bytes, done) = read_available (suc room) ready in
        (bytes, set_as_default k (some done)))
  ]
]

module _ (echo canonical : ℕ) where
  unfoldable pub get_kernel_input_flags : Kernel → ℕ
  get_kernel_input_flags k =
      let flags = if has k.stdin_flags Flag.input_echo_off then 0 else raise 0 echo in
      if has k.stdin_flags Flag.input_line_mode then raise flags canonical else flags

  unfoldable pub set_kernel_input_flags : Kernel → ℕ → Kernel
  set_kernel_input_flags k flags =
      let quiet = if has flags echo then 0 else raise 0 Flag.input_echo_off in
      record k {
        stdin_flags = if has flags canonical then raise quiet Flag.input_line_mode else quiet;
      }

  -- DMTTY_FLAG_ECHO and DMTTY_FLAG_CANONICAL.
  abbrev tty_echo : ℕ
  tty_echo = 1

  abbrev tty_canonical : ℕ
  tty_canonical = 2

  -- What `Dmod_Ioctl` does with the driver bound to the standard input, for the two commands:
  -- the result, and the flags that are read or the driver after they are written. `none` is a
  -- standard input that is bound to nothing.
  module _ {D : Type 0} (ioctl_get : D → ℕ × ℕ) (ioctl_set : D → ℕ → ℕ × D) where
    unfoldable pub stdin_get_flags : Kernel → Option D → ℕ
    stdin_get_flags k none = get_kernel_input_flags k
    stdin_get_flags k (some driver) =
        let (result, tty_flags) = ioctl_get driver in
        let flags = if has tty_flags tty_echo then raise 0 echo else 0 in
        if not (result == 0)
        then get_kernel_input_flags k
        else (if has tty_flags tty_canonical then raise flags canonical else flags)

    -- The result, the kernel and the driver.
    unfoldable pub stdin_set_flags : Kernel → Option D → ℕ → ℕ × Kernel × Option D
    stdin_set_flags k none flags = (0, set_kernel_input_flags k flags, none)
    stdin_set_flags k (some driver) flags =
        let wanted = if has flags echo then raise 0 tty_echo else 0 in
        let tty_flags = if has flags canonical then raise wanted tty_canonical else wanted in
        let (result, after) = ioctl_set driver tty_flags in (result, k, some after)
