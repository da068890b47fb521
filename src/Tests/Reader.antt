-- ===== src/Tests/Reader.antt =====
-- Runs of the reading side on the sample context.
use dmlog.Base.{◌≡◌, ◌≤◌, refl, inr, Bool, some, [], ◌∷◌, ◌++◌, length, get_or, arith, replicate}
use dmlog.Context.{Context}
use dmlog.Context.Invariant.{WellFormed, OutputOnly, contents, pending}
use dmlog.Context.Lock.{Locked}
use dmlog.Reader.{read_next, getc, gets, unread}
use dmlog.Reader.Entry.{entry, is_cons}
use dmlog.Reader.ReadNext.{Reads, read_next-Reads}
use dmlog.Reader.Gets.{gets-unread}
use dmlog.Reader.Locks.{getc_keeps_lock}
use dmlog.Tests.{sample, sample-WellFormed, sample-Locked}

read_next-Reads_example :
    (found : Bool) × (done : Context) × (read_next sample ≡ some (found, done))
    × Reads sample found done
read_next-Reads_example = read_next-Reads {c = sample} sample-WellFormed (inr sample-Locked.busy)

gets-unread_example :
    let (found, stored, done) = gets sample 10 in
    let line = entry 9 (unread sample) in
    (found ≡ is_cons line)
    × (stored ≡ line ++ 0 ∷ [])
    × (length stored ≤ 10)
    × (line ++ unread done ≡ unread sample)
    × (contents done ≡ contents sample)
    × (pending done ≡ pending sample)
    × OutputOnly sample done
gets-unread_example = gets-unread 10 {c = sample} sample-WellFormed (omega arith) (omega arith)

-- The reader has used its entry up, and the ring is empty.
abbrev drained : Context
drained = record sample { ring = record (sample.ring) { tail_offset = 1 }; read_entry_offset = 2 }

drained-WellFormed : WellFormed drained
drained-WellFormed = ground (arith, sample-WellFormed)

drained-Locked : Locked 0 drained
drained-Locked = record { depth = refl; busy = sample-Locked.busy }

used_up : get_or drained.read_buffer drained.read_entry_offset 0 ≡ 0
unfolding replicate
used_up = refl

getc_keeps_lock_example : (d : Context) × (getc drained ≡ some (0, d)) × Locked 1 d
getc_keeps_lock_example =
    getc_keeps_lock 0 {c = drained} drained-WellFormed drained-Locked (omega arith) refl used_up
