-- ===== src/Monitor/Files/Transfers.antt =====
-- What the host makes of a chunk that the target sends or asks for.
use dmlog.Base.{ℕ, ◌≡◌, Bool, true, Option, List, [], ◌++◌, length, replicate}
use dmlog.Flag
use dmlog.Transfer.{FileTransfer}
use dmlog.Monitor.{Monitor}
use dmlog.Monitor.Files.{write_mode, send_file_transfer, with_files}

module _ {M FS : Type 0} (read_memory : M → ℕ → ℕ → Option (List ℕ) × M)
    (write_memory : M → ℕ → List ℕ → Bool × M) (resume_briefly : M → M)
    (file_open : FS → List ℕ → List ℕ → Bool × FS) (file_seek : FS → ℕ → Bool × FS)
    (file_write : FS → List ℕ → ℕ × FS) (file_close : FS → FS) where
  -- What is sent back to the target has the status of an I/O error.
  abbrev pub Refused : Monitor → Bool × Monitor × M × FS → ℕ → Type 0
  Refused m result io_error =
      (r : FileTransfer) × (w' : M) × (fs' : FS) × (result
        ≡ with_files read_memory write_memory resume_briefly file_open file_seek file_write
            file_close true
            (send_file_transfer read_memory write_memory resume_briefly r Flag.file_recv_req m w')
            fs')
      × (r.status ≡ io_error)

  module _ (holds : FS → List ℕ) (position : FS → ℕ) where
    -- The file that is open, as `fopen`, `fseek`, `fwrite` and `fclose` of the C library have it: both
    -- modes for writing empty it, and what is written behind its end leaves zeros before it.
    pub record Files : Type 0 where
      pub opens :
          (fs : FS) (name : List ℕ) (offset : ℕ)
          → ((file_open fs name (write_mode offset)).0 ≡ true)
            × (holds (file_open fs name (write_mode offset)).1 ≡ [])
      pub seeks :
          (fs : FS) (offset : ℕ)
          → ((file_seek fs offset).0 ≡ true)
            × (holds (file_seek fs offset).1 ≡ holds fs)
            × (position (file_seek fs offset).1 ≡ offset)
      pub writes :
          (fs : FS) (bytes : List ℕ)
          → holds fs ≡ []
          → ((file_write fs bytes).0 ≡ length bytes)
            × (holds (file_write fs bytes).1 ≡ replicate (position fs) 0 ++ bytes)
      pub closes : (fs : FS) → holds (file_close fs) ≡ holds fs
