-- ===== src/Kernel/Write.antt =====
-- `Dmod_WriteKernel` logs every byte it is given, the byte 0 too.
use dmlog.Base.{
  ℕ, zero, suc, ◌≤◌, ◌≡◌, refl, ap, Bool, true, some, List, [], ◌∷◌, arith, take, length,
}
use dmlog.Context.{Context}
use dmlog.Output.{flush}
use dmlog.Output.Putc.{Ready, Logs, OutputOnly-Ready, Logs-refl, Logs-trans, putc-Logs}
use dmlog.Output.Strings.{Prints, flush-Prints}
use dmlog.Kernel.{Kernel, get_default, set_as_default, write_loop, write_kernel}

write_loop-Logs :
    (n : ℕ) (bytes : List ℕ) {c : Context}
    → Ready c
    → n ≤ length bytes
    → ((write_loop n bytes c).0 ≡ n) × Logs c (take n bytes) true (write_loop n bytes c).1
unfolding write_loop
write_loop-Logs zero bytes r enough = (refl, Logs-refl r.well)
write_loop-Logs (suc n) [] r enough = absurd (omega arith)
write_loop-Logs (suc n) (x ∷ bytes) r enough =
    let first = putc-Logs x r in
    let rest = write_loop-Logs n bytes (OutputOnly-Ready r first.only) (omega arith) in
    rw first.wrote (ap suc rest.0, Logs-trans first rest.1)

-- With a default context that is ready, and a buffer of `size` bytes at least,
-- `Dmod_WriteKernel` says that it wrote `size` bytes; the ring of the default context then holds
-- the last bytes of the log and the first `size` bytes of the buffer behind it, as many as fit;
-- no entry is pending; and the flags of the standard input are as they were.
pub write_kernel-Prints :
    {c : Context} (k : Kernel) (bytes : List ℕ) (size : ℕ)
    → get_default k ≡ some c
    → Ready c
    → size ≤ length bytes
    → (d : Context) × (r : Bool) × (write_kernel k (some bytes) size
        ≡ (size, set_as_default k (some d)))
      × Prints c (take size bytes) r d
unfolding write_kernel get_default set_as_default
write_kernel-Prints {c} k bytes size is_default r enough =
    let (all, logs) = write_loop-Logs size bytes r enough in
    let done = (write_loop size bytes c).1 in
    ((flush done).1, (flush done).0, rw (is_default, all) refl, flush-Prints r logs)
