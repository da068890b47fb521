-- ===== src/Tests/Input.antt =====
-- Runs of the input side on the sample context.
use dmlog.Base.{◌≡◌, ◌≤◌, [], ◌∷◌, ◌++◌, length, arith}
use dmlog.Context.Invariant.{input_contents}
use dmlog.Reader.Entry.{entry, after_entry, is_cons}
use dmlog.Input.{input_getc, input_gets}
use dmlog.Input.Stream.{NoZeros, stream, InputOnly}
use dmlog.Input.Getc.{Gives, input_getc-Gives}
use dmlog.Input.Gets.{input_gets-Lines}
use dmlog.Tests.{sample, sample-WellFormed}

pub sample-NoZeros : NoZeros (input_contents sample)
sample-NoZeros = ((λ e. absurd (omega arith)), ((λ e. absurd (omega arith)), tt))

input_getc-Gives_example : Gives sample (input_getc sample).0 (input_getc sample).1
input_getc-Gives_example = input_getc-Gives {c = sample} sample-WellFormed sample-NoZeros

input_gets-Lines_example :
    let (found, stored, done) = input_gets sample 10 in
    let line = entry 9 (stream sample) in
    (found ≡ is_cons line)
    × (stored ≡ line ++ 0 ∷ [])
    × (length stored ≤ 10)
    × (stream done ≡ after_entry 9 (stream sample))
    × InputOnly sample done
input_gets-Lines_example =
    input_gets-Lines 10 {c = sample} sample-WellFormed sample-NoZeros (omega arith) (omega arith)
