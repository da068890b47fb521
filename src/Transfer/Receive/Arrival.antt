-- ===== src/Transfer/Receive/Arrival.antt =====
-- `dmlog_file_receive` stores what the host gives chunk by chunk, up to its first error.
use dmlog.Base.{
  ℕ, zero, suc, ◌+◌, ◌-◌, ◌*◌, ◌^◌, ◌≤◌, ◌<◌, min, ◌≡◌, ◌≢◌, ◌⊎◌, inl, inr, refl, ap, ap₂, sym, ◌∙◌,
  true, false, ◌||◌, Option, some, List, ◌++◌, append-nil, append_assoc, arith, length, length-take,
  length-drop, take, drop, ltb, leb, ◌==◌, Bool-cases,
}
use dmlog.Flag
use dmlog.Word.{bit, add32, has, lower}
use dmlog.Word.Bits.{has-lower_self}
use dmlog.Context.{Context, is_valid, context_lock, context_unlock}
use dmlog.Output.{cstring}
use dmlog.Transfer.{FileTransfer, chunk, max_file_path_length, request, withdraw}
use dmlog.Transfer.Send.{==-same, shrink}
use dmlog.Transfer.Receive.{wait_for_data, stored_name, receive_loop, file_receive}
use dmlog.Transfer.Receive.Steps.{
  kept_busy, request-asked, still_more, nothing_left, chunk-le, advance, nonempty, take-nil,
  take-chunk, leb-chunk,
}

module _ {F H : Type 0} (file_write : F → List ℕ → ℕ × F)
    (host_turn : H → Context → FileTransfer → H × Context × FileTransfer) (written : F → List ℕ)
    (unsent : H → List ℕ) (to_give : H → ℕ) (total : ℕ) where
  -- A write takes all bytes.
  abbrev pub WritesAll : Type 0
  WritesAll =
      (f : F) (bytes : List ℕ)
      → ((file_write f bytes).0 ≡ length bytes)
        × (written (file_write f bytes).1 ≡ written f ++ bytes)

  -- A chunk, with the number that are still to be given.
  abbrev pub Chunked : H → FileTransfer → H → FileTransfer → Type 0
  Chunked h t h' t' =
      (to_give h ≡ suc (to_give h'))
      × (t'.status ≡ 0)
      × (t'.offset ≡ t.offset)
      × (t'.total_size ≡ total)
      × (t'.chunk_size ≡ min t.chunk_size (length (unsent h)))
      × (take t'.chunk_size t'.buffer ≡ take t'.chunk_size (unsent h))
      × (unsent h' ≡ drop t'.chunk_size (unsent h))

  -- A host with so many chunks to give before an error: when it sees a request, it takes the request
  -- back, and gives the next bytes of its file, a chunk of them or all there are, with the
  -- size of the file and without an error, or reports an error if it has no chunk to give any more.
  abbrev pub GivesChunks : Type 0
  GivesChunks =
      (h : H) (c : Context) (t : FileTransfer)
      → has c.ring.flags Flag.file_recv_req ≡ true
      → let (h', c', t') = host_turn h c t in
        (has c'.ring.flags Flag.file_recv_req ≡ false)
        × (((to_give h ≡ 0) × (t'.status ≢ 0)) ⊎ Chunked h t h' t')

  module _ (writes : WritesAll) (gives : GivesChunks) where
    wait-given :
        (turns : ℕ) (h : H) (c : Context) (t : FileTransfer)
        → 2 ≤ turns
        → has c.ring.flags Flag.file_recv_req ≡ true
        → wait_for_data file_write host_turn turns h c t ≡ some (host_turn h c t)
    unfolding wait_for_data
    wait-given zero h c t enough asked = absurd (omega arith)
    wait-given (suc zero) h c t enough asked = absurd (omega arith)
    wait-given (suc (suc turns)) h c t enough asked = rw (asked, (gives h c t asked).0) refl

    abbrev given : ℕ → H → Context → FileTransfer → H × Context × FileTransfer
    given address h c t =
        host_turn h (request address Flag.file_recv_req c) (record t { chunk_size = chunk })

    abbrev stored : ℕ → H → Context → FileTransfer → F → ℕ × F
    stored address h c t f =
        let (h', c', t') = given address h c t in file_write f (take t'.chunk_size t'.buffer)

    receive_loop-step :
        (chunks turns address : ℕ) (h : H) (c : Context) (t : FileTransfer) (f : F)
        → 2 ≤ turns
        → (ltb t.offset t.total_size || t.total_size == 0) ≡ true
        → let (h', c', t') = given address h c t in
          t'.status ≡ 0
          → (t'.chunk_size == 0 || t'.total_size == 0) ≡ false
          → ((stored address h c t f).0 == t'.chunk_size) ≡ true
          → receive_loop file_write host_turn (suc chunks) turns address h c t f
            ≡ receive_loop file_write host_turn chunks turns address h' c'
                (record t' { offset = add32 t'.offset t'.chunk_size })
                (stored address h c t f).1
    unfolding receive_loop
    receive_loop-step chunks turns address h c t f enough more ok nonempty full =
        rw
          (
            more,
            wait-given turns h (request address Flag.file_recv_req c)
                (record t { chunk_size = chunk }) enough (request-asked address c),
            ok,
            nonempty,
            full,
          )
          refl

    receive_loop-error :
        (chunks turns address : ℕ) (h : H) (c : Context) (t : FileTransfer) (f : F)
        → 2 ≤ turns
        → (ltb t.offset t.total_size || t.total_size == 0) ≡ true
        → let (h', c', t') = given address h c t in
          (t'.status == 0) ≡ false
          → receive_loop file_write host_turn (suc chunks) turns address h c t f
            ≡ some (false, h', c', t', f)
    unfolding receive_loop
    receive_loop-error chunks turns address h c t f enough more failed =
        rw
          (
            more,
            wait-given turns h (request address Flag.file_recv_req c)
                (record t { chunk_size = chunk }) enough (request-asked address c),
            failed,
          )
          refl

    receive_loop-all :
        (chunks turns address : ℕ) (h : H) (c : Context) (t : FileTransfer) (f : F)
        → (ltb t.offset t.total_size || t.total_size == 0) ≡ false
        → receive_loop file_write host_turn (suc chunks) turns address h c t f
          ≡ some (true, h, c, t, f)
    unfolding receive_loop
    receive_loop-all chunks turns address h c t f all = rw all refl

    -- Where the loop stands: so many bytes have come, and the host has told the size or not yet.
    abbrev Comes : H → FileTransfer → Type 0
    Comes h t =
        (t.offset + length (unsent h) ≡ total)
        × ((t.total_size ≡ total) ⊎ ((t.total_size ≡ 0) × (t.offset ≡ 0)))

    abbrev Arrives : ℕ → ℕ → ℕ → H → Context → FileTransfer → F → Type 0
    Arrives chunks turns address h c t f =
        (h' : H) × (c' : Context) × (t' : FileTransfer) × (f' : F) × (receive_loop file_write
            host_turn chunks turns address h c t f
          ≡ some (leb (length (unsent h)) (to_give h * chunk), h', c', t', f'))
        × (written f' ≡ written f ++ take (to_give h * chunk) (unsent h))

    -- An error instead of the next chunk.
    Arrives-error :
        (chunks turns address : ℕ) (h : H) (c : Context) (t : FileTransfer) (f : F)
        → 2 ≤ turns
        → (ltb t.offset t.total_size || t.total_size == 0) ≡ true
        → 1 ≤ length (unsent h)
        → to_give h ≡ 0
        → (given address h c t).2.status ≢ 0
        → Arrives (suc chunks) turns address h c t f
    Arrives-error chunks turns address h c t f enough more some_left none_left failed =
        let (h', c', t') = given address h c t in
        let stops : leb (length (unsent h)) (to_give h * chunk) ≡ false =
          ground (arith, none_left) in
        (
          h',
          c',
          t',
          f,
          receive_loop-error chunks turns address h c t f enough more (ground (arith, failed))
              ∙ ap (λ b. some (b, h', c', t', f)) (sym stops),
          sym (
              ap (λ n. written f ++ take (n * chunk) (unsent h)) none_left
              ∙ append-nil (written f)),
        )

    -- A chunk, and what arrives behind it.
    Arrives-chunk :
        (chunks turns address : ℕ) (h : H) (c : Context) (t : FileTransfer) (f : F)
        → 2 ≤ turns
        → (ltb t.offset t.total_size || t.total_size == 0) ≡ true
        → 1 ≤ total
        → 1 ≤ length (unsent h)
        → let (h', c', t') = given address h c t in
          Chunked h (record t { chunk_size = chunk }) h' t'
          → Arrives chunks turns address h' c'
              (record t' { offset = add32 t'.offset t'.chunk_size })
              (stored address h c t f).1
          → Arrives (suc chunks) turns address h c t f
    Arrives-chunk chunks turns address h c t f enough more some_data some_left
          (left, ok, at, told, size, bytes, rest) (h'', c'', t3, f'', comes, got) =
        let (h', c', t') = given address h c t in
        let k = t'.chunk_size in
        let put = writes f (take k t'.buffer) in
        let le = chunk-le k (length (unsent h)) some_left size in
        let count : length (take k t'.buffer) ≡ k =
          ap length bytes ∙ length-take k (unsent h) ∙ omega (arith, le) in
        let less : length (unsent h') ≡ length (unsent h) - k =
          ap length rest ∙ length-drop k (unsent h) in
        let goes_on : leb (length (unsent h')) (to_give h' * chunk)
            ≡ leb (length (unsent h)) (to_give h * chunk) =
          leb-chunk (length (unsent h)) (length (unsent h')) (to_give h') k size less
          ∙ ap (λ n. leb (length (unsent h)) (n * chunk)) (sym left) in
        let whole : take k (unsent h) ++ take (to_give h' * chunk) (drop k (unsent h))
            ≡ take (to_give h * chunk) (unsent h) =
          take-chunk chunk (to_give h' * chunk) k (unsent h) size
          ∙ ap (λ n. take n (unsent h)) (omega (arith, left)) in
        (
          h'',
          c'',
          t3,
          f'',
          receive_loop-step chunks turns address h c t f enough more ok
                (nonempty k t'.total_size total le.0 some_data told) (==-same _ _ (put.0 ∙ count))
              ∙ comes
              ∙ ap (λ b. some (b, h'', c'', t3, f'')) goes_on,
          got
              ∙ ap₂ ◌++◌ put.1 (ap (take (to_give h' * chunk)) rest)
              ∙ append_assoc (written f) (take k t'.buffer)
                  (take (to_give h' * chunk) (drop k (unsent h)))
              ∙ ap (λ bs. written f ++ bs)
                  (ap (λ b. b ++ take (to_give h' * chunk) (drop k (unsent h))) bytes ∙ whole),
        )

    pub receive_loop-written :
        (chunks turns address : ℕ) (h : H) (c : Context) (t : FileTransfer) (f : F)
        → 1 ≤ total
        → total < 2 ^ 32
        → Comes h t
        → length (unsent h) < chunks
        → 2 ≤ turns
        → Arrives chunks turns address h c t f
    receive_loop-written zero turns address h c t f some_data small at fuel enough =
        absurd (omega arith)
    receive_loop-written (suc chunks) turns address h c t f some_data small at fuel enough =
        let (h', c', t') = given address h c t in
        let host =
          gives h (request address Flag.file_recv_req c) (record t { chunk_size = chunk })
            (request-asked address c) in
        elim (Bool-cases (ltb t.offset t.total_size || t.total_size == 0)) [
          | inl more ↦
              let some_left : 1 ≤ length (unsent h) =
                still_more t.offset (length (unsent h)) t.total_size total some_data at.0 at.1
                  more in
              elim host.1 [
                | inl failed ↦
                    Arrives-error chunks turns address h c t f enough more some_left failed.0
                      failed.1
                | inr chunked ↦
                    let k = t'.chunk_size in
                    let le = chunk-le k (length (unsent h)) some_left chunked.4 in
                    let rest : length (unsent h') ≡ length (unsent h) - k =
                      ap length chunked.6 ∙ length-drop k (unsent h) in
                    Arrives-chunk chunks turns address h c t f enough more some_data some_left
                      chunked
                      (receive_loop-written chunks turns address h' c'
                        (record t' { offset = add32 t'.offset k }) (stored address h c t f).1
                        some_data small
                        (
                          advance t.offset (length (unsent h)) total k t'.offset
                              (length (unsent h')) at.0 small le.1 chunked.2 rest,
                          inl chunked.3,
                        )
                        (shrink (length (unsent h)) k (length (unsent h')) chunks fuel le.0 le.1
                          rest)
                        enough)
              ]
          | inr all ↦
              let none_left =
                nothing_left (unsent h) t.offset t.total_size total some_data at.0 at.1 all in
              let nothing : leb (length (unsent h)) (to_give h * chunk) ≡ true =
                rw none_left (ground arith) in
              (
                h,
                c,
                t,
                f,
                receive_loop-all chunks turns address h c t f all
                    ∙ ap (λ b. some (b, h, c, t, f)) (sym nothing),
                sym (
                    ap (λ bs. written f ++ take (to_give h * chunk) bs) none_left
                    ∙ ap (λ bs. written f ++ bs) (take-nil (to_give h * chunk))
                    ∙ append-nil (written f)),
              )
        ]

    withdrawn :
        (c : Context)
        → (has (withdraw Flag.file_recv_req c).ring.flags Flag.file_recv_req ≡ false)
          × ((withdraw Flag.file_recv_req c).ring.file_transfer ≡ 0)
    unfolding withdraw context_unlock bit
    withdrawn c = (
      kept_busy _ (lower (context_lock c).ring.flags Flag.file_recv_req)
          ∙ has-lower_self 7 (context_lock c).ring.flags Flag.file_recv_req refl,
      refl,
    )

    -- Where writes take all bytes, and a host with so many chunks to give answers each request, with
    -- the next chunk of its file and the size of the file, or with an error when it has no chunk to
    -- give any more: `dmlog_file_receive` in a valid context, with memory for its two blocks, a path
    -- on the target of less than 255 bytes, the path on the host opened for writing, and a file of at
    -- least one and less than 2 ^ 32 bytes, returns after at most one chunk for each byte and
    -- one more, with two looks at the flag for each. It succeeds just if those chunks are enough for
    -- the file; what was written is what was there and the bytes of these chunks in their order, none
    -- if the first answer is an error; and in each case the request and the address of the transfer are
    -- taken back, whatever the new block for the transfer held.
    pub file_receive-written :
        (file_open : List ℕ → Option F) (garbage : FileTransfer) (address buffer chunks turns : ℕ)
        (h : H) (c : Context) (src dst : List ℕ) (f : F)
        → is_valid (some c) ≡ true
        → file_open src ≡ some f
        → length (cstring dst) < max_file_path_length
        → 1 ≤ total
        → total < 2 ^ 32
        → length (unsent h) ≡ total
        → total < chunks
        → 2 ≤ turns
        → (h' : H) × (c' : Context) × (f' : F) × (file_receive file_write host_turn file_open
              garbage
              (some address)
              (some buffer)
              chunks
              turns
              h
              c
              (some src)
              (some dst)
            ≡ some (leb total (to_give h * chunk), h', c', some f'))
          × (written f' ≡ written f ++ take (to_give h * chunk) (unsent h))
          × (has c'.ring.flags Flag.file_recv_req ≡ false)
          × (c'.ring.file_transfer ≡ 0)
    unfolding file_receive
    file_receive-written file_open garbage address buffer chunks turns h c src dst f valid opened
          short some_data small all fuel enough =
        let t : FileTransfer = record garbage {
          buffer_address = buffer;
          chunk_size = chunk;
          total_size = 0;
          offset = 0;
          host_file_name = stored_name garbage.host_file_name (cstring src);
        } in
        let path_ok : leb max_file_path_length (length (cstring dst)) ≡ false = ground arith in
        let (h', c', t', f', comes, got) =
          receive_loop-written chunks turns address h c t f some_data small
            (omega (arith, all), inr (refl, refl)) (omega (arith, all)) enough in
        (
          h',
          withdraw Flag.file_recv_req c',
          f',
          rw (valid, path_ok, opened, file_receive, comes) refl
              ∙ ap
                  (λ n.
                    some (leb n (to_give h * chunk), h', withdraw Flag.file_recv_req c', some f'))
                  all,
          got,
          (withdrawn c').0,
          (withdrawn c').1,
        )
