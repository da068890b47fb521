-- ===== src/Transfer/Receive.antt =====
-- src/dmlog.c, `dmlog_file_receive`: a file of the host comes to the target chunk by chunk.
-- `garbage` is what the block for the transfer holds when it is new: the source clears no more of it
-- than the size of a pointer. Its name is what lies in memory from there on. The target opens the path that names the file on the host.
use dmlog.Base.{
  ℕ, zero, suc, ◌+◌, ◌-◌, ◌^◌, ◌≤◌, ◌<◌, ◌≡◌, ◌⊎◌, inl, inr, refl, ap, sym, ◌∙◌, Bool, true, false,
  not, ◌||◌, Option, none, some, List, [], ◌∷◌, ◌++◌, arith, length, take, drop, min, ltb, leb,
  ◌==◌, if◌then◌else◌, Bool-cases,
}
use dmlog.Flag
use dmlog.Word.{add32, has}
use dmlog.Context.{Context, Ring, is_valid}
use dmlog.Output.{cstring}
use dmlog.Transfer.{FileTransfer, chunk, max_file_path_length, request, withdraw}
pub mod Steps
pub mod Arrival

-- `strncpy` fills the name up with zeros, or leaves it without a final 0, so that it goes on with what
-- lies behind it.
abbrev pub stored_name : List ℕ → List ℕ → List ℕ
stored_name garbage src =
    let cut = take (max_file_path_length - 1) src in
    if ltb (length src) (max_file_path_length - 1)
    then cut
    else cut ++ cstring (drop (max_file_path_length - 1) garbage)

module _ {F H : Type 0} (file_write : F → List ℕ → ℕ × F)
    (host_turn : H → Context → FileTransfer → H × Context × FileTransfer) where
  abbrev pub Received : Type 0
  Received = Option (Bool × H × Context × FileTransfer × F)

  -- The wait for the host, on fuel.
  unfoldable pub wait_for_data :
      ℕ → H → Context → FileTransfer → Option (H × Context × FileTransfer)
  wait_for_data zero h c t = none
  wait_for_data (suc turns) h c t =
      let (h', c', t') = host_turn h c t in
      let rest = wait_for_data turns h' c' t' in
      if has c.ring.flags Flag.file_recv_req then rest else some (h, c, t)

  -- After the wait: an error of the host, an empty file, a failed write, or the next chunk.
  abbrev pub store_chunk :
      F
      → Option (H × Context × FileTransfer)
      → (H → Context → FileTransfer → F → Received)
      → Received
  store_chunk file none next = none
  store_chunk file (some (h, c, t)) next =
      let (written, file') = file_write file (take t.chunk_size t.buffer) in
      let rest = next h c (record t { offset = add32 t.offset t.chunk_size }) file' in
      if not (t.status == 0)
      then some (false, h, c, t, file)
      else (if t.chunk_size == 0 || t.total_size == 0
          then some (true, h, c, t, file)
          else (if written == t.chunk_size then rest else some (false, h, c, t, file')))

  unfoldable pub receive_loop : ℕ → ℕ → ℕ → H → Context → FileTransfer → F → Received
  receive_loop zero turns address h c t file = none
  receive_loop (suc chunks) turns address h c t file =
      let asking = record t { chunk_size = chunk } in
      let came =
        store_chunk file (wait_for_data turns h (request address Flag.file_recv_req c) asking)
          (λ h' c' t' file'. receive_loop chunks turns address h' c' t' file') in
      if ltb t.offset t.total_size || t.total_size == 0 then came else some (true, h, c, t, file)

  abbrev end_receive : Received → Option (Bool × H × Context × Option F)
  end_receive none = none
  end_receive (some (result, h, c, t, file)) =
      some (result, h, withdraw Flag.file_recv_req c, some file)

  -- A null pointer is `none`; the last part of the result is the file that was opened.
  module _ (file_open : List ℕ → Option F) (garbage : FileTransfer)
      (transfer_block buffer_block : Option ℕ) where
    unfoldable pub file_receive :
        ℕ
        → ℕ
        → H
        → Context
        → Option (List ℕ)
        → Option (List ℕ)
        → Option (Bool × H × Context × Option F)
    file_receive chunks turns h c none dst = some (false, h, c, none)
    file_receive chunks turns h c (some src) none = some (false, h, c, none)
    file_receive chunks turns h c (some src) (some dst) =
        if is_valid (some c)
        then elim transfer_block [
          | none ↦ some (false, h, c, none)
          | some address ↦
              if leb max_file_path_length (length (cstring dst))
              then some (false, h, c, none)
              else elim buffer_block [
                | none ↦ some (false, h, c, none)
                | some buffer ↦ elim (file_open src) [
                  | none ↦ some (false, h, c, none)
                  | some file ↦ end_receive (
                      receive_loop chunks turns address h c
                        (record garbage {
                          buffer_address = buffer;
                          chunk_size = chunk;
                          total_size = 0;
                          offset = 0;
                          host_file_name = stored_name garbage.host_file_name (cstring src);
                        })
                        file)
                ]
              ]
        ]
        else some (false, h, c, none)
