-- ===== src/Transfer.antt =====
-- src/dmlog.c, `dmlog_file_send`: a file of the target goes to the host chunk by chunk.
-- Parameters: what `Dmod_Malloc` returns for the two blocks, `Dmod_FileOpen`, `Dmod_FileSize` and
-- `Dmod_FileRead` on the files `F`, and the host with its state `H`, which takes a turn each time the
-- target looks whether its request has been taken. The log messages are not modelled; the
-- blocks are freed at the end and not used again.
use dmlog.Base.{
  ℕ, zero, suc, ◌+◌, ◌-◌, ◌%◌, ◌^◌, ◌≤◌, Bool, true, false, not, ◌&&◌, Option, none, some, List, [],
  ◌∷◌, length, take, ltb, ◌==◌, if◌then◌else◌,
}
use dmlog.Flag
use dmlog.Word.{add32, sub32, has, raise, lower}
use dmlog.Context.{Context, Ring, is_valid, set_flags, context_lock, context_unlock}
use dmlog.Output.{cstring}
pub mod Send
pub mod Receive

abbrev pub chunk : ℕ
chunk = 512

abbrev pub max_file_path_length : ℕ
max_file_path_length = 255

-- `dmlog_file_transfer_t`, with the bytes of the buffer at its `buffer_address`. A status is 0 or
-- not; a name is a C string.
pub record FileTransfer : Type 0 where
  pub buffer_address : ℕ
  pub chunk_size : ℕ
  pub total_size : ℕ
  pub offset : ℕ
  pub status : ℕ
  pub host_file_name : List ℕ
  pub buffer : List ℕ

-- Under the lock: the request is there, with the address of the transfer.
unfoldable pub request : ℕ → ℕ → Context → Context
request address mask c =
    let held = context_lock c in
    context_unlock (record held {
      ring = record (held.ring) { file_transfer = address; flags = raise held.ring.flags mask };
    })

-- Under the lock: no transfer any more.
unfoldable pub withdraw : ℕ → Context → Context
withdraw mask c =
    let held = context_lock c in
    context_unlock (record held {
      ring = record (held.ring) { file_transfer = 0; flags = lower held.ring.flags mask };
    })

module _ {F H : Type 0} (file_read : F → ℕ → List ℕ × F)
    (host_turn : H → Context → FileTransfer → H × Context × FileTransfer) where
  -- The wait for the host, on fuel.
  unfoldable pub wait_for_host :
      ℕ → ℕ → H → Context → FileTransfer → Option (H × Context × FileTransfer)
  wait_for_host zero mask h c t = none
  wait_for_host (suc turns) mask h c t =
      let (h', c', t') = host_turn h c t in
      let rest = wait_for_host turns mask h' c' t' in
      if has c.ring.flags mask then rest else some (h, c, t)

  abbrev pub next_chunk : FileTransfer → ℕ
  next_chunk t =
      let left_bytes = sub32 t.total_size t.offset in
      if ltb left_bytes chunk then left_bytes else chunk

  -- What the target does when the request is taken: it stops where the host reports an error.
  abbrev pub on_taken :
      Option (H × Context × FileTransfer)
      → (H → Context → FileTransfer → Option (Bool × H × Context × FileTransfer))
      → Option (Bool × H × Context × FileTransfer)
  on_taken none next = none
  on_taken (some (h, c, t)) next =
      let rest = next h c t in if t.status == 0 then rest else some (false, h, c, t)

  -- The loop, for at most so many chunks, each of which waits for at most so many turns of the host.
  unfoldable pub send_loop :
      ℕ → ℕ → ℕ → H → Context → FileTransfer → F → Option (Bool × H × Context × FileTransfer)
  send_loop zero turns address h c t file = none
  send_loop (suc chunks) turns address h c t file =
      let (bytes, file') = file_read file (next_chunk t) in
      let filled = record t { chunk_size = next_chunk t; buffer = bytes } in
      let sent =
        on_taken
          (wait_for_host turns Flag.file_send_req h (request address Flag.file_send_req c) filled)
          (λ h' c' t'.
            send_loop chunks turns address h' c'
              (record t' { offset = add32 t'.offset t'.chunk_size }) file') in
      if ltb t.offset t.total_size
      then (if length bytes == next_chunk t then sent else some (false, h, c, filled))
      else some (true, h, c, t)

  abbrev end_send : Option (Bool × H × Context × FileTransfer) → Option (Bool × H × Context)
  end_send none = none
  end_send (some (result, h, c, t)) = some (result, h, withdraw Flag.file_send_req c)

  -- A null pointer is `none`.
  module _ (file_open : List ℕ → Option F) (file_size : F → ℕ)
      (transfer_block buffer_block : Option ℕ) where
    unfoldable pub file_send :
        ℕ → ℕ → H → Context → Option (List ℕ) → Option (List ℕ) → Option (Bool × H × Context)
    file_send chunks turns h c none dst = some (false, h, c)
    file_send chunks turns h c (some src) none = some (false, h, c)
    file_send chunks turns h c (some src) (some dst) =
        if is_valid (some c)
        then elim transfer_block [
          | none ↦ some (false, h, c)
          | some address ↦ elim buffer_block [
            | none ↦ some (false, h, c)
            | some buffer ↦ elim (file_open src) [
              | none ↦ some (false, h, c)
              | some file ↦ end_send (
                  send_loop chunks turns address h c
                    (record {
                      buffer_address = buffer;
                      chunk_size = chunk;
                      total_size = file_size file % 2 ^ 32;
                      offset = 0;
                      status = 0;
                      host_file_name = take (max_file_path_length - 1) (cstring dst);
                      buffer = [];
                    })
                    file)
            ]
          ]
        ]
        else some (false, h, c)
