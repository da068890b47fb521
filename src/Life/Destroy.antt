-- ===== src/Life/Destroy.antt =====
-- After `dmlog_destroy` the memory is no context any more, and the calls on it do nothing.
use dmlog.Base.{ℕ, ◌≡◌, refl, false, Option, none, some, List, [], inl, inr, Bool-cases}
use dmlog.Context.{
  Context, is_valid, context_unlock, left_entry_space, free_space, clear, exit_monitor,
}
use dmlog.Output.{putc, puts, putsn, flush}
use dmlog.Reader.{read_next, get_ref_buffer, getc, gets}
use dmlog.Input.{input_available, input_get_free_space, input_getc, input_gets, input_request}
use dmlog.Life.{destroy}
use dmlog.Transfer.{FileTransfer, file_send}
use dmlog.Transfer.Receive.{file_receive}

-- What reads a file of the target or writes one, and the turns of the host.
abbrev Reads : Type 0 → Type 0
Reads F = F → ℕ → List ℕ × F

abbrev Writes : Type 0 → Type 0
Writes F = F → List ℕ → ℕ × F

abbrev Turns : Type 0 → Type 0
Turns H = H → Context → FileTransfer → H × Context × FileTransfer

-- What the operations return, and that they leave the memory alone.
pub record Dead (c : Context) : Type 1 where
  pub putc_fails : (x : ℕ) → putc c x ≡ (false, c)
  pub puts_fails : (s : List ℕ) → puts c s ≡ (false, c)
  pub putsn_fails : (s : List ℕ) (n : ℕ) → putsn c s n ≡ (false, c)
  pub flush_fails : flush c ≡ (false, c)
  pub read_next_fails : read_next c ≡ some (false, c)
  pub getc_nothing : getc c ≡ some (0, c)
  pub gets_nothing : (n : ℕ) → gets c n ≡ (false, [], c)
  pub input_getc_nothing : input_getc c ≡ (0, c)
  pub input_gets_nothing : (n : ℕ) → input_gets c n ≡ (false, [], c)
  pub no_input : input_available c ≡ false
  pub no_request : (f : ℕ) → input_request c f ≡ c
  pub no_entry_space : left_entry_space c ≡ 0
  pub no_space : free_space c ≡ 0
  pub no_input_space : input_get_free_space c ≡ 0
  pub clear_leaves : clear c ≡ c
  pub destroy_leaves : destroy c ≡ c
  pub exit_monitor_leaves : exit_monitor c ≡ c
  pub no_ref_buffer : get_ref_buffer c ≡ none
  pub file_send_fails :
      {F H : Type 0} (file_read : Reads F) (host_turn : Turns H) (file_open : List ℕ → Option F)
      (file_size : F → ℕ) (transfer_block buffer_block : Option ℕ) (chunks turns : ℕ) (h : H)
      (src dst : Option (List ℕ))
      → file_send file_read host_turn file_open file_size transfer_block buffer_block chunks turns h
          c src dst
        ≡ some (false, h, c)
  pub file_receive_fails :
      {F H : Type 0} (file_write : Writes F) (host_turn : Turns H) (file_open : List ℕ → Option F)
      (garbage : FileTransfer) (transfer_block buffer_block : Option ℕ) (chunks turns : ℕ) (h : H)
      (src dst : Option (List ℕ))
      → file_receive file_write host_turn file_open garbage transfer_block buffer_block chunks turns
          h c src dst
        ≡ some (false, h, c, none)

file_send-invalid :
    {F H : Type 0} (file_read : Reads F) (host_turn : Turns H) (file_open : List ℕ → Option F)
    (file_size : F → ℕ) (transfer_block buffer_block : Option ℕ) (chunks turns : ℕ) (h : H)
    (c : Context) (src dst : Option (List ℕ))
    → is_valid (some c) ≡ false
    → file_send file_read host_turn file_open file_size transfer_block buffer_block chunks turns h c
        src dst
      ≡ some (false, h, c)
unfolding file_send
file_send-invalid file_read host_turn file_open file_size tb bb chunks turns h c none dst e = refl
file_send-invalid file_read host_turn file_open file_size tb bb chunks turns h c (some src) none e =
    refl
file_send-invalid file_read host_turn file_open file_size tb bb chunks turns h c (some src)
      (some dst) e =
    rw e refl

file_receive-invalid :
    {F H : Type 0} (file_write : Writes F) (host_turn : Turns H) (file_open : List ℕ → Option F)
    (garbage : FileTransfer) (transfer_block buffer_block : Option ℕ) (chunks turns : ℕ) (h : H)
    (c : Context) (src dst : Option (List ℕ))
    → is_valid (some c) ≡ false
    → file_receive file_write host_turn file_open garbage transfer_block buffer_block chunks turns h
        c src dst
      ≡ some (false, h, c, none)
unfolding file_receive
file_receive-invalid file_write host_turn file_open garbage tb bb chunks turns h c none dst e = refl
file_receive-invalid file_write host_turn file_open garbage tb bb chunks turns h c (some src) none
      e =
    refl
file_receive-invalid file_write host_turn file_open garbage tb bb chunks turns h c (some src)
      (some dst) e =
    rw e refl

invalid-Dead : (c : Context) → is_valid (some c) ≡ false → Dead c
unfolding putc puts putsn flush read_next getc gets input_getc input_gets input_available
    input_request left_entry_space free_space input_get_free_space clear destroy exit_monitor
    get_ref_buffer
invalid-Dead c invalid = record {
  putc_fails = λ x. rw invalid;
  puts_fails = λ s. rw invalid;
  putsn_fails = λ s n. rw invalid;
  flush_fails = rw invalid;
  read_next_fails = rw invalid;
  getc_nothing = rw invalid;
  gets_nothing = λ n. rw invalid;
  input_getc_nothing = rw invalid;
  input_gets_nothing = λ n. rw invalid;
  no_input = rw invalid;
  no_request = λ f. rw invalid;
  no_entry_space = rw invalid;
  no_space = rw invalid;
  no_input_space = rw invalid;
  clear_leaves = rw invalid;
  destroy_leaves = rw invalid;
  exit_monitor_leaves = rw invalid;
  no_ref_buffer = rw invalid;
  file_send_fails = λ file_read host_turn file_open file_size tb bb chunks turns h src dst.
      file_send-invalid file_read host_turn file_open file_size tb bb chunks turns h c src dst
        invalid;
  file_receive_fails = λ file_write host_turn file_open garbage tb bb chunks turns h src dst.
      file_receive-invalid file_write host_turn file_open garbage tb bb chunks turns h c src dst
        invalid;
}

destroy-invalid : (c : Context) → is_valid (some (destroy c)) ≡ false
unfolding destroy context_unlock is_valid
destroy-invalid c = elim (Bool-cases (is_valid (some c))) [
  | inl valid ↦ rw valid refl
  | inr invalid ↦ rw invalid invalid
]

-- After `dmlog_destroy` of any memory, `dmlog_is_valid` says no, and every other call on that memory
-- but `dmlog_create` and `dmlog_set_as_default` reports failure or nothing and changes nothing:
-- writing, flushing, reading, input, the queries, `dmlog_clear`, `dmlog_exit_monitor`,
-- `dmlog_get_ref_buffer`, both file transfers, whatever the files and the host are, and `dmlog_destroy`
-- itself.
pub destroy-Dead : (c : Context) → (is_valid (some (destroy c)) ≡ false) × Dead (destroy c)
destroy-Dead c = (destroy-invalid c, invalid-Dead (destroy c) (destroy-invalid c))
