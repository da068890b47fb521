-- ===== src/Transfer/Send.antt =====
-- `dmlog_file_send` hands the whole file to a host that takes each chunk.
use dmlog.Base.{
  ℕ, zero, suc, ◌+◌, ◌-◌, ◌%◌, ◌^◌, ◌≤◌, ◌<◌, min, ◌≡◌, inl, inr, refl, ap, ap₂, subst, sym, ◌∙◌,
  Bool, true, false, Option, some, List, [], ◌∷◌, ◌++◌, append-nil, append_assoc, arith, length,
  length-take, length-drop, take, drop, ltb, ◌==◌, if◌then◌else◌, Bool-cases,
}
use dmlog.Flag
use dmlog.Word.{bit, add32, sub32, has, raise, lower}
use dmlog.Word.Bits.{has-raise_self, has-lower_other, has-lower_self}
use dmlog.Output.{cstring}
use dmlog.Context.{Context, is_valid, context_lock, context_unlock}
use dmlog.Transfer.{
  FileTransfer, chunk, max_file_path_length, request, withdraw, wait_for_host, next_chunk,
  send_loop, file_send,
}

pub take-append-drop : (n : ℕ) (xs : List ℕ) → take n xs ++ drop n xs ≡ xs
take-append-drop zero xs = refl
take-append-drop (suc n) [] = refl
take-append-drop (suc n) (x ∷ xs) = ap (◌∷◌ x) (take-append-drop n xs)

kept_busy :
    (unlocked : Bool) (f : ℕ)
    → has (if unlocked then lower f Flag.busy else f) Flag.file_send_req ≡ has f Flag.file_send_req
unfolding bit
kept_busy true f = has-lower_other 6 f Flag.busy refl
kept_busy false f = refl

request-asked :
    (address : ℕ) (c : Context)
    → has (request address Flag.file_send_req c).ring.flags Flag.file_send_req ≡ true
unfolding request context_unlock bit
request-asked address c =
    kept_busy _ (raise (context_lock c).ring.flags Flag.file_send_req)
    ∙ has-raise_self 6 (context_lock c).ring.flags Flag.file_send_req refl

advance :
    (o n total k o' size total' n' : ℕ)
    → o + n ≡ total
    → total < 2 ^ 32
    → k ≤ n
    → o' ≡ o
    → size ≡ k
    → total' ≡ total
    → n' ≡ n - k
    → add32 o' size + n' ≡ total'
advance o n total k o' size total' n' fits small le eo es et en = omega arith

nothing_left : (xs : List ℕ) (o total : ℕ) → o + length xs ≡ total → ltb o total ≡ false → xs ≡ []
nothing_left [] o total fits all = refl
nothing_left (x ∷ xs) o total fits all = absurd (ground arith)

next_chunk-le : (k n : ℕ) → 1 ≤ n → k ≡ min n chunk → (1 ≤ k) × (k ≤ n)
next_chunk-le k n some_left e = omega arith

pub shrink : (n k n' chunks : ℕ) → n < suc chunks → 1 ≤ k → k ≤ n → n' ≡ n - k → n' < chunks
shrink n k n' chunks fuel some_left le e = omega arith

pub ==-same : (a b : ℕ) → a ≡ b → (a == b) ≡ true
==-same a b e = ground arith

module _ {F H : Type 0} (file_read : F → ℕ → List ℕ × F)
    (host_turn : H → Context → FileTransfer → H × Context × FileTransfer) (content : F → List ℕ)
    (received : H → List ℕ) where
  -- A read gives the next bytes of the file, as many as are asked for or all there are.
  abbrev pub ReadsAll : Type 0
  ReadsAll =
      (f : F) (n : ℕ)
      → ((file_read f n).0 ≡ take n (content f)) × (content (file_read f n).1 ≡ drop n (content f))

  -- A host that sees a request appends the buffer to what it has, takes the request back and
  -- reports no error.
  abbrev pub TakesChunks : Type 0
  TakesChunks =
      (h : H) (c : Context) (t : FileTransfer)
      → has c.ring.flags Flag.file_send_req ≡ true
      → let (h', c', t') = host_turn h c t in
        (received h' ≡ received h ++ t.buffer)
        × (has c'.ring.flags Flag.file_send_req ≡ false)
        × (t'.status ≡ 0)
        × (t'.offset ≡ t.offset)
        × (t'.chunk_size ≡ t.chunk_size)
        × (t'.total_size ≡ t.total_size)

  module _ (reads : ReadsAll) (takes : TakesChunks) where
    wait-taken :
        (turns : ℕ) (h : H) (c : Context) (t : FileTransfer)
        → 2 ≤ turns
        → has c.ring.flags Flag.file_send_req ≡ true
        → wait_for_host file_read host_turn turns Flag.file_send_req h c t ≡ some (host_turn h c t)
    unfolding wait_for_host
    wait-taken zero h c t enough asked = absurd (omega arith)
    wait-taken (suc zero) h c t enough asked = absurd (omega arith)
    wait-taken (suc (suc turns)) h c t enough asked = rw (asked, (takes h c t asked).1) refl

    next_chunk-eq :
        (t : FileTransfer) (n : ℕ)
        → t.offset + n ≡ t.total_size
        → t.total_size < 2 ^ 32
        → next_chunk file_read host_turn t ≡ min n chunk
    next_chunk-eq t n fits small =
        let left : sub32 t.total_size t.offset ≡ n = omega arith in rw left (ground arith)

    abbrev filled : FileTransfer → F → FileTransfer
    filled t f = record t {
      chunk_size = next_chunk file_read host_turn t;
      buffer = (file_read f (next_chunk file_read host_turn t)).0;
    }

    abbrev taken_by : ℕ → H → Context → FileTransfer → F → H × Context × FileTransfer
    taken_by address h c t f = host_turn h (request address Flag.file_send_req c) (filled t f)

    send_loop-step :
        (chunks turns address : ℕ) (h : H) (c : Context) (t : FileTransfer) (f : F)
        → 2 ≤ turns
        → ltb t.offset t.total_size ≡ true
        → length (file_read f (next_chunk file_read host_turn t)).0
          ≡ next_chunk file_read host_turn t
        → let (h', c', t') = taken_by address h c t f in
          send_loop file_read host_turn (suc chunks) turns address h c t f
          ≡ send_loop file_read host_turn chunks turns address h' c'
              (record t' { offset = add32 t'.offset t'.chunk_size })
              (file_read f (next_chunk file_read host_turn t)).1
    unfolding send_loop
    send_loop-step chunks turns address h c t f enough more full =
        let asked = request-asked address c in
        let ok = (takes h (request address Flag.file_send_req c) (filled t f) asked).2 in
        rw
          (
            more,
            ==-same _ _ full,
            wait-taken turns h (request address Flag.file_send_req c) (filled t f) enough asked,
            ok,
          )
          refl

    send_loop-all :
        (chunks turns address : ℕ) (h : H) (c : Context) (t : FileTransfer) (f : F)
        → ltb t.offset t.total_size ≡ false
        → send_loop file_read host_turn (suc chunks) turns address h c t f ≡ some (true, h, c, t)
    unfolding send_loop
    send_loop-all chunks turns address h c t f all = rw all refl

    -- The whole file from here on arrives.
    abbrev Sends : ℕ → ℕ → ℕ → H → Context → FileTransfer → F → Type 0
    Sends chunks turns address h c t f =
        (h' : H) × (c' : Context) × (t' : FileTransfer) × (send_loop file_read host_turn chunks
            turns address h c t f
          ≡ some (true, h', c', t'))
        × (received h' ≡ received h ++ content f)

    pub send_loop-received :
        (chunks turns address : ℕ) (h : H) (c : Context) (t : FileTransfer) (f : F)
        → t.offset + length (content f) ≡ t.total_size
        → t.total_size < 2 ^ 32
        → length (content f) < chunks
        → 2 ≤ turns
        → Sends chunks turns address h c t f
    send_loop-received zero turns address h c t f fits small fuel enough = absurd (omega arith)
    send_loop-received (suc chunks) turns address h c t f fits small fuel enough =
        elim (Bool-cases (ltb t.offset t.total_size)) [
          | inl more ↦
              let some_left : 1 ≤ length (content f) = ground arith in
              let k = next_chunk file_read host_turn t in
              let size = next_chunk-eq t (length (content f)) fits small in
              let read = reads f k in
              let le : (1 ≤ k) × (k ≤ length (content f)) =
                next_chunk-le k (length (content f)) some_left size in
              let full : length (file_read f k).0 ≡ k =
                ap length read.0 ∙ length-take k (content f) ∙ omega (arith, le) in
              let rest = ap length read.1 ∙ length-drop k (content f) in
              let host =
                takes h (request address Flag.file_send_req c) (filled t f)
                  (request-asked address c) in
              let (h', c', t') = taken_by address h c t f in
              let t'' = record t' { offset = add32 t'.offset t'.chunk_size } in
              let (h'', c'', t3, sends, got) =
                send_loop-received chunks turns address h' c' t'' (file_read f k).1
                  (advance t.offset (length (content f)) t.total_size k t'.offset t'.chunk_size
                    t'.total_size (length (content (file_read f k).1)) fits small le.1 host.3 host.4
                    host.5 rest)
                  (subst (λ n. n < 2 ^ 32) (sym host.5) small)
                  (shrink (length (content f)) k (length (content (file_read f k).1)) chunks fuel
                    le.0 le.1 rest)
                  enough in
              (
                h'',
                c'',
                t3,
                send_loop-step chunks turns address h c t f enough more full ∙ sends,
                got
                    ∙ ap₂ ◌++◌ host.0 read.1
                    ∙ append_assoc (received h) (file_read f k).0 (drop k (content f))
                    ∙ ap (λ bs. received h ++ bs)
                        (ap (λ b. b ++ drop k (content f)) read.0 ∙ take-append-drop k (content f)),
              )
          | inr all ↦
              let none_left = nothing_left (content f) t.offset t.total_size fits all in
              (
                h,
                c,
                t,
                send_loop-all chunks turns address h c t f all,
                sym (ap (λ bs. received h ++ bs) none_left ∙ append-nil (received h)),
              )
        ]

    withdrawn :
        (c : Context)
        → (has (withdraw Flag.file_send_req c).ring.flags Flag.file_send_req ≡ false)
          × ((withdraw Flag.file_send_req c).ring.file_transfer ≡ 0)
    unfolding withdraw context_unlock bit
    withdrawn c = (
      kept_busy _ (lower (context_lock c).ring.flags Flag.file_send_req)
          ∙ has-lower_self 6 (context_lock c).ring.flags Flag.file_send_req refl,
      refl,
    )

    -- Where reads give the next bytes of a file, all that are asked for while there are any, and the
    -- host takes each chunk and reports no error: `dmlog_file_send` in a valid context, with
    -- memory for its two blocks and a file of less than 2 ^ 32 bytes at the path, returns after at
    -- most one chunk for each byte and one more, with two looks at the flag for each; it succeeds;
    -- the host has received exactly the bytes of the file, in their order; and the request and the
    -- address of the transfer are taken back.
    pub file_send-received :
        (file_open : List ℕ → Option F) (file_size : F → ℕ) (address buffer : ℕ) (chunks turns : ℕ)
        (h : H) (c : Context) (src dst : List ℕ) (f : F)
        → is_valid (some c) ≡ true
        → file_open src ≡ some f
        → file_size f ≡ length (content f)
        → length (content f) < 2 ^ 32
        → length (content f) < chunks
        → 2 ≤ turns
        → (h' : H) × (c' : Context) × (file_send file_read host_turn file_open file_size
              (some address)
              (some buffer)
              chunks
              turns
              h
              c
              (some src)
              (some dst)
            ≡ some (true, h', c'))
          × (received h' ≡ received h ++ content f)
          × (has c'.ring.flags Flag.file_send_req ≡ false)
          × (c'.ring.file_transfer ≡ 0)
    unfolding file_send
    file_send-received file_open file_size address buffer chunks turns h c src dst f valid opened
          size small fuel enough =
        let t : FileTransfer = record {
          buffer_address = buffer;
          chunk_size = chunk;
          total_size = file_size f % 2 ^ 32;
          offset = 0;
          status = 0;
          host_file_name = take (max_file_path_length - 1) (cstring dst);
          buffer = [];
        } in
        let (h', c', t', sends, got) =
          send_loop-received chunks turns address h c t f (omega (arith, size, small))
            (omega (arith, size, small)) fuel enough in
        (
          h',
          withdraw Flag.file_send_req c',
          rw (valid, opened, file_send, sends) refl,
          got,
          (withdrawn c').0,
          (withdrawn c').1,
        )
