-- ===== src/Tests/Transfer.antt =====
-- A file goes to a host that keeps what it is sent.
use dmlog.Base.{
  ℕ, zero, suc, ◌≡◌, refl, inl, inr, replicate, true, false, Option, some, List, [], ◌∷◌, ◌++◌,
  arith, length, min, take, drop,
}
use dmlog.Flag
use dmlog.Word.{bit, has, lower}
use dmlog.Word.Bits.{has-lower_self}
use dmlog.Context.{Context, set_flags}
use dmlog.Context.Lock.{is_valid-WellFormed}
use dmlog.Transfer.{FileTransfer, file_send}
use dmlog.Transfer.Send.{ReadsAll, TakesChunks, file_send-received}
use dmlog.Transfer.Receive.{file_receive}
use dmlog.Transfer.Receive.Arrival.{WritesAll, GivesChunks, file_receive-written}
use dmlog.Tests.{sample, sample-WellFormed}

-- An open file is the bytes that are not read yet.
abbrev file_read : List ℕ → ℕ → List ℕ × List ℕ
file_read f n = (take n f, drop n f)

abbrev host_turn : List ℕ → Context → FileTransfer → List ℕ × Context × FileTransfer
host_turn h c t =
    (h ++ t.buffer, set_flags c (lower c.ring.flags Flag.file_send_req), record t { status = 0 })

abbrev itself : List ℕ → List ℕ
itself xs = xs

reads_all : ReadsAll file_read host_turn itself itself
reads_all f n = (refl, refl)

takes_chunks : TakesChunks file_read host_turn itself itself
unfolding bit
takes_chunks h c t asked =
    (refl, has-lower_self 6 c.ring.flags Flag.file_send_req refl, refl, refl, refl, refl)

abbrev file_open : List ℕ → Option (List ℕ)
file_open path = some (1 ∷ 0 ∷ 2 ∷ [])

file_send-received_example :
    (h' : List ℕ) × (c' : Context) × (file_send file_read host_turn file_open
        (λ f. length f)
        (some 5000)
        (some 6000)
        4
        2
        (9 ∷ [])
        sample
        (some (97 ∷ []))
        (some (98 ∷ []))
      ≡ some (true, h', c'))
    × (h' ≡ 9 ∷ 1 ∷ 0 ∷ 2 ∷ [])
    × (has c'.ring.flags Flag.file_send_req ≡ false)
    × (c'.ring.file_transfer ≡ 0)
file_send-received_example =
    file_send-received file_read host_turn itself itself reads_all takes_chunks file_open
      (λ f. length f) 5000 6000 4 2 (9 ∷ []) sample (97 ∷ []) (98 ∷ []) (1 ∷ 0 ∷ 2 ∷ [])
      (is_valid-WellFormed sample-WellFormed) refl refl (omega arith) (omega arith) (omega arith)

-- A file that is written is its bytes; a host is the bytes it has not given yet, of 600, and the
-- number of chunks that it gives before an error.
abbrev file_write : List ℕ → List ℕ → ℕ × List ℕ
file_write f bytes = (length bytes, f ++ bytes)

abbrev Giving : Type 0
Giving = List ℕ × ℕ

abbrev giving_host : Giving → Context → FileTransfer → Giving × Context × FileTransfer
giving_host (h, zero) c t =
    ((h, zero), set_flags c (lower c.ring.flags Flag.file_recv_req), record t { status = 5 })
giving_host (h, suc n) c t =
    let count = min t.chunk_size (length h) in
    (
      (drop count h, n),
      set_flags c (lower c.ring.flags Flag.file_recv_req),
      record t { status = 0; total_size = 600; chunk_size = count; buffer = h },
    )

writes_all : WritesAll file_write giving_host itself (λ h. h.0) (λ h. h.1) 600
writes_all f bytes = (refl, refl)

gives_chunks : GivesChunks file_write giving_host itself (λ h. h.0) (λ h. h.1) 600
unfolding bit
gives_chunks (h, zero) c t asked = (
  has-lower_self 7 c.ring.flags Flag.file_recv_req refl,
  inl (refl, (λ e. absurd (omega (arith, e)))),
)
gives_chunks (h, suc n) c t asked = (
  has-lower_self 7 c.ring.flags Flag.file_recv_req refl,
  inr (refl, refl, refl, refl, refl, refl, refl),
)

-- The new block holds a status of its own.
abbrev garbage : FileTransfer
garbage = record {
  buffer_address = 77;
  chunk_size = 77;
  total_size = 77;
  offset = 77;
  status = 77;
  host_file_name = [];
  buffer = [];
}

-- One chunk of two, and an error.
file_receive-written_example :
    (h' : Giving) × (c' : Context) × (f' : List ℕ) × (file_receive file_write giving_host file_open
        garbage
        (some 5000)
        (some 6000)
        601
        2
        (replicate 600 7, 1)
        sample
        (some (97 ∷ []))
        (some (98 ∷ []))
      ≡ some (false, h', c', some f'))
    × (f' ≡ 1 ∷ 0 ∷ 2 ∷ replicate 512 7)
    × (has c'.ring.flags Flag.file_recv_req ≡ false)
    × (c'.ring.file_transfer ≡ 0)
unfolding replicate
file_receive-written_example =
    file_receive-written file_write giving_host itself (λ h. h.0) (λ h. h.1) 600 writes_all
      gives_chunks file_open garbage 5000 6000 601 2 (replicate 600 7, 1) sample (97 ∷ []) (98 ∷ [])
      (1 ∷ 0 ∷ 2 ∷ []) (is_valid-WellFormed sample-WellFormed) refl (omega arith) (omega arith)
      (omega arith) refl (omega arith) (omega arith)
