-- ===== src/Tests/Kernel.antt =====
-- Runs of the kernel's calls.
use dmlog.Base.{
  ℕ, zero, suc, ◌≡◌, ◌≢◌, ◌<◌, refl, Bool, false, some, List, [], ◌∷◌, arith, take, drop, replicate,
}
use dmlog.Word.{bit}
use dmlog.Context.{Context, is_valid}
use dmlog.Input.{input_available}
use dmlog.Input.Stream.{stream, InputOnly}
use dmlog.Output.Strings.{Prints}
use dmlog.Kernel.{Kernel, get_default, set_as_default, write_kernel, read_kernel}
use dmlog.Kernel.Write.{write_kernel-Prints}
use dmlog.Kernel.Read.{waited, read_kernel-Takes}
use dmlog.Kernel.Flags.{Distinct}
use dmlog.Tests.{sample, sample-WellFormed, sample-Ready}
use dmlog.Tests.Input.{sample-NoZeros}

abbrev kernel : Kernel
kernel = record { default_ctx = some sample; stdin_flags = 32 }

is_default : get_default kernel ≡ some sample
unfolding get_default
is_default = refl

-- The byte 0 is written too.
abbrev bytes : List ℕ
bytes = 104 ∷ 0 ∷ 10 ∷ []

write_kernel-Prints_example :
    (d : Context) × (r : Bool) × (write_kernel kernel (some bytes) 3
      ≡ (3, set_as_default kernel (some d)))
    × Prints sample bytes r d
write_kernel-Prints_example =
    write_kernel-Prints {c = sample} kernel bytes 3 is_default sample-Ready (omega arith)

-- There is no input yet.
abbrev idle : Context
idle = record sample { ring = record (sample.ring) { input_head_offset = 1 } }

abbrev waiting : Kernel
waiting = record { default_ctx = some idle; stdin_flags = 32 }

waits_for_idle : get_default waiting ≡ some idle
unfolding get_default
waits_for_idle = refl

-- A host that types "h\n" when it is asked.
abbrev host : ℕ → Context → Context
host turn c = sample

nothing_yet : (m : ℕ) → m < 1 → input_available (waited host 32 0 m idle) ≡ false
unfolding input_available is_valid replicate
nothing_yet zero h = refl
nothing_yet (suc m) h = absurd (omega arith)

stream_some : stream sample ≢ []
unfolding replicate
stream_some e = cc

read_kernel-Takes_example :
    (d : Context) × (read_kernel 2 host waiting false 1
      ≡ some (take 1 (stream sample), set_as_default waiting (some d)))
    × (stream d ≡ drop 1 (stream sample))
    × InputOnly sample d
read_kernel-Takes_example =
    read_kernel-Takes host waiting 1 2 1 {c = idle} waits_for_idle (omega arith) (omega arith)
      nothing_yet sample-WellFormed sample-NoZeros stream_some

apart : Distinct 0 1
unfolding bit
apart = record { apart = refl; apart_back = refl; own = refl; own_back = refl }

-- A driver that is its flags.
abbrev read_flags : ℕ → ℕ × ℕ
read_flags driver = (0, driver)

abbrev write_flags : ℕ → ℕ → ℕ × ℕ
write_flags driver f = (0, f)

honest :
    (driver f : ℕ) → ((write_flags driver f).0 ≡ 0) × (read_flags (write_flags driver f).1 ≡ (0, f))
honest driver f = (refl, refl)
