-- ===== src/Tests/Output.antt =====
-- Runs of the writing side on the sample context.
use dmlog.Base.{ℕ, ◌≡◌, ◌≢◌, refl, List, [], ◌∷◌, arith, replicate}
use dmlog.Context.Invariant.{contents, pending}
use dmlog.Output.{cstring, flush, putc, puts}
use dmlog.Output.Flush.{Keeps, flush-Keeps}
use dmlog.Output.Putc.{Logs, putc-Logs}
use dmlog.Output.Strings.{Prints, puts-Prints}
use dmlog.Tests.{sample, sample-WellFormed, sample-Ready}

contents-sample : (contents sample ≡ 98 ∷ 97 ∷ []) × (pending sample ≡ 99 ∷ [])
unfolding replicate
contents-sample = (refl, refl)

-- "hi"
abbrev text : List ℕ
text = 104 ∷ 105 ∷ 0 ∷ []

text_some : cstring text ≢ []
text_some e = cc

puts-Prints_example : Prints sample (104 ∷ 105 ∷ []) (puts sample text).0 (puts sample text).1
puts-Prints_example = puts-Prints {c = sample} text sample-Ready text_some

flush-Keeps_example :
    Keeps sample (pending sample) (flush sample).0 (flush sample).1
    × (pending (flush sample).1 ≡ [])
flush-Keeps_example = flush-Keeps {c = sample} sample-WellFormed (omega arith)

putc-Logs_example : Logs sample (10 ∷ []) (putc sample 10).0 (putc sample 10).1
putc-Logs_example = putc-Logs {c = sample} 10 sample-Ready
