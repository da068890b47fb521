-- ===== src/Tests/Life.antt =====
-- Making, clearing and destroying a context.
use dmlog.Base.{ℕ, ◌-◌, ◌≡◌, ◌≢◌, refl, true, false, some, List, [], ◌∷◌, arith, last_n}
use dmlog.Word.{has}
use dmlog.Context.{Context, is_valid}
use dmlog.Context.Invariant.{WellFormed, capacity, clear_asked}
use dmlog.Output.{cstring, putc}
use dmlog.Output.Putc.{log}
use dmlog.Input.Stream.{stream}
use dmlog.Life.{input_part, create, destroy}
use dmlog.Life.Clear.{putc_obeys_clear}
use dmlog.Life.Create.{Fresh, create-Ready}
use dmlog.Life.Destroy.{Dead, destroy-Dead}
use dmlog.Tests.{sample, sample-WellFormed}

-- "v1\n"
abbrev version : List ℕ
version = 118 ∷ 49 ∷ 10 ∷ 0 ∷ []

version_some : cstring version ≢ []
version_some e = cc

abbrev memory : Context
memory = record sample { ring = record (sample.ring) { magic = 0 } }

create-Ready_example : (d : Context) × (create 56 version memory 64 ≡ some d) × Fresh 8 version d
create-Ready_example =
    create-Ready 56 version memory 64 (omega arith) (omega arith) (omega arith) (omega arith) refl
      (omega arith) version_some

-- One byte more than the input's 512 leaves an output ring of one byte, which holds nothing.
one_byte_left : 513 - input_part 513 ≡ 1
unfolding input_part
one_byte_left = refl

-- The host has asked for a clear buffer.
abbrev asked : Context
asked = record sample { ring = record (sample.ring) { flags = 1 } }

asked-WellFormed : WellFormed asked
asked-WellFormed = ground (arith, sample-WellFormed)

asked_clear : clear_asked asked ≡ true
unfolding has
asked_clear = refl

putc_obeys_clear_example :
    let (written, done) = putc asked 120 in
    (written ≡ true)
    × (last_n (capacity asked) (log done) ≡ 120 ∷ [])
    × (stream done ≡ [])
    × (clear_asked done ≡ false)
    × WellFormed done
putc_obeys_clear_example =
    putc_obeys_clear {c = asked} 120 asked-WellFormed (omega arith) asked_clear

destroy-Dead_example : (is_valid (some (destroy sample)) ≡ false) × Dead (destroy sample)
destroy-Dead_example = destroy-Dead sample
