-- ===== src/Monitor/Files.antt =====
-- tools/monitor/monitor.c, the host's side of the transfer of files.
-- The files of the host are a parameter, one file open at a time as the code has it: `FS` is their
-- state, `file_open` takes the name and the mode, `file_seek` and `file_open` tell whether they
-- succeed, `file_write` gives the number of bytes that it took. `allocated` tells whether there is
-- memory for a chunk. The error codes are those of the C library, as `int32_t`.
use dmlog.Base.{
  ℕ, zero, suc, ◌+◌, ◌-◌, ◌*◌, ◌%◌, ◌^◌, Bool, true, false, not, ◌||◌, ◌&&◌, Option, none, some,
  List, [], ◌∷◌, ◌++◌, length, take, drop, ltb, ◌==◌, if◌then◌else◌,
}
use dmlog.Flag
use dmlog.Word.{has, lower}
use dmlog.Output.{cstring}
use dmlog.Context.{Ring}
use dmlog.Transfer.{FileTransfer}
use dmlog.Monitor.{Monitor, from_bytes, to_bytes, flags_offset}
use dmlog.Monitor.Commands.{write_word}
pub mod Transfers

-- `sizeof(dmlog_file_transfer_t)`, with the byte of padding at its end.
abbrev pub sizeof_transfer : ℕ
sizeof_transfer = 280

abbrev part : List ℕ → ℕ → ℕ → ℕ
part bytes offset n = from_bytes (take n (drop offset bytes))

-- The struct in memory; the name keeps its whole array and the padding.
unfoldable pub transfer_of_bytes : List ℕ → FileTransfer
transfer_of_bytes bytes = record {
  buffer_address = part bytes 0 8;
  chunk_size = part bytes 8 4;
  total_size = part bytes 12 4;
  offset = part bytes 16 4;
  status = part bytes 20 4;
  host_file_name = drop 24 bytes;
  buffer = [];
}

unfoldable pub bytes_of_transfer : FileTransfer → List ℕ
bytes_of_transfer t =
    to_bytes 8 t.buffer_address
    ++ (to_bytes 4 t.chunk_size
        ++ (to_bytes 4 t.total_size
            ++ (to_bytes 4 t.offset ++ (to_bytes 4 t.status ++ t.host_file_name))))

-- The modes "wb", "wb+" and "rb".
abbrev pub write_mode : ℕ → List ℕ
write_mode offset = if offset == 0 then b'w' ∷ b'b' ∷ [] else b'w' ∷ b'b' ∷ b'+' ∷ []

abbrev pub read_mode : List ℕ
read_mode = b'r' ∷ b'b' ∷ []

-- The test `<= 0` of the result of `backend_write_memory`, which is 0 on success and -1 on failure with
-- both backends (true is 0 here, false is -1): the test holds of both.
abbrev pub not_positive : Bool → Bool
not_positive true = true
not_positive false = true

module _ {M : Type 0} (read_memory : M → ℕ → ℕ → Option (List ℕ) × M)
    (write_memory : M → ℕ → List ℕ → Bool × M) (resume_briefly : M → M) where
  -- The request is taken back in the target's flags, and the target may go on.
  unfoldable pub take_back : ℕ → Monitor → M → Bool × Monitor × M
  take_back mask m w =
      let flags = lower m.ring.flags mask in
      let (written, w') =
        write_word read_memory write_memory resume_briefly m w flags_offset flags in
      if written
      then (true, record m { ring = record (m.ring) { flags = flags } }, resume_briefly w')
      else (false, m, w')

  unfoldable pub send_file_transfer : FileTransfer → ℕ → Monitor → M → Bool × Monitor × M
  send_file_transfer t mask m w =
      let (written, w') = write_memory w m.ring.file_transfer (bytes_of_transfer t) in
      let rest = take_back mask m w' in if written then rest else (false, m, w')

  module _ {FS : Type 0} (file_open : FS → List ℕ → List ℕ → Bool × FS)
      (file_seek : FS → ℕ → Bool × FS) (file_write : FS → List ℕ → ℕ × FS) (file_close : FS → FS)
      (allocated : Bool) where
    -- What a request leaves: whether it succeeded, the monitor, the target and the files.
    abbrev pub Handled : Type 0
    Handled = Bool × Monitor × M × FS

    abbrev pub with_files : Bool × Monitor × M → FS → Handled
    with_files (ok, m, w) fs = (ok, m, w, fs)

    -- The chunk goes into the file.
    unfoldable pub store_at : FileTransfer → List ℕ → FS → Bool × FS
    store_at t bytes fs =
        let (opened, fs1) = file_open fs (cstring t.host_file_name) (write_mode t.offset) in
        let (sought, fs2) = file_seek fs1 t.offset in
        let (written, fs3) = file_write fs2 bytes in
        if opened
        then (if sought then (written == t.chunk_size, file_close fs3) else (false, file_close fs2))
        else (false, fs1)

    abbrev pub store_read : FileTransfer → Monitor → Option (List ℕ) × M → FS → Handled
    store_read t m (none, w) fs = (false, m, w, fs)
    store_read t m (some bytes, w) fs =
        let (stored, fs') = store_at t bytes fs in
        let rest = with_files (take_back Flag.file_send_req m w) fs' in
        if stored then rest else (false, m, w, fs')

    -- With the transfer that was read.
    abbrev pub store_chunk_of : Monitor → Option (List ℕ) × M → FS → Handled
    store_chunk_of m (none, w) fs = (false, m, w, fs)
    store_chunk_of m (some bytes, w) fs =
        let t = transfer_of_bytes bytes in
        let rest = store_read t m (read_memory w (t.buffer_address % 2 ^ 32) t.chunk_size) fs in
        if t.total_size == 0 || t.chunk_size == 0 || t.buffer_address == 0
        then (false, m, w, fs)
        else (if allocated then rest else (false, m, w, fs))

    unfoldable pub handle_send_file_request : Monitor → M → FS → Handled
    handle_send_file_request m w fs =
        let rest = store_chunk_of m (read_memory w m.ring.file_transfer sizeof_transfer) fs in
        if has m.ring.flags Flag.file_send_req then rest else (true, m, w, fs)

    module _ (file_available : FS → List ℕ → Bool) (file_size : FS → ℕ)
        (file_read : FS → ℕ → List ℕ × FS) (invalid no_entry io_error : ℕ) where
      abbrev answer : FileTransfer → Monitor → M → FS → Handled
      answer t m w fs = with_files (send_file_transfer t Flag.file_recv_req m w) fs

      -- The bytes that were read go to the target, and the transfer behind them.
      unfoldable pub give_chunk : FileTransfer → List ℕ → Monitor → M → FS → Handled
      give_chunk t bytes m w fs =
          let read = record t { chunk_size = length bytes % 2 ^ 32; status = 0 } in
          let (written, w') = write_memory w (t.buffer_address % 2 ^ 32) bytes in
          let refused = answer (record read { status = io_error }) m w' fs in
          let given = answer read m w' fs in
          let empty = answer read m w fs in
          if length bytes == 0 then empty else (if not_positive written then refused else given)

      unfoldable pub give_from : FileTransfer → Monitor → M → FS → Handled
      give_from t m w fs =
          let (opened, fs1) = file_open fs (cstring t.host_file_name) read_mode in
          let sized = record t { total_size = file_size fs1 % 2 ^ 32; status = 0 } in
          let (sought, fs2) = file_seek fs1 t.offset in
          let (bytes, fs3) = file_read fs2 t.chunk_size in
          let rest = give_chunk sized bytes m w (file_close fs3) in
          if opened
          then (if sought then rest else (false, m, w, file_close fs2))
          else (false, m, w, fs1)

      abbrev pub give_chunk_of : Monitor → Option (List ℕ) × M → FS → Handled
      give_chunk_of m (none, w) fs = (false, m, w, fs)
      give_chunk_of m (some bytes, w) fs =
          let t = transfer_of_bytes bytes in
          let rest = give_from t m w fs in
          let without_size = answer (record t { status = invalid }) m w fs in
          let without_file = answer (record t { status = no_entry }) m w fs in
          if t.chunk_size == 0
          then without_size
          else (if file_available fs (cstring t.host_file_name)
              then (if allocated then rest else (false, m, w, fs))
              else without_file)

      unfoldable pub handle_receive_file_request : Monitor → M → FS → Handled
      handle_receive_file_request m w fs =
          let rest = give_chunk_of m (read_memory w m.ring.file_transfer sizeof_transfer) fs in
          if has m.ring.flags Flag.file_recv_req then rest else (true, m, w, fs)
