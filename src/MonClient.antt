-- ===== src/MonClient.antt =====
-- client/mon_client.c: the client of the monitoring protocol. What the system calls and
-- `selector_set_interest_key` answer is an argument; what goes to the standard output is a list of
-- lines, and what goes to the standard error is left out. `none` is a failed assertion, or an
-- event for a state that has no handler for it.
pub mod Encode
pub mod Request
mod Tests
use socksv5_proxy.Base.{
  ℕ, zero, suc, ◌+◌, ◌*◌, ◌%◌, Bool, true, false, Option, none, some, ◌>>=◌, ltb, ◌==◌, not,
  if◌then◌else◌, List, [], ◌∷◌, ◌++◌, take, drop, get_or, set, length, ◌&&◌, copy_to, replicate,
  strlen, c_str, ℤ, pos, negsuc,
}
use socksv5_proxy.Buffer
use socksv5_proxy.Buffer.{Buffer}
use socksv5_proxy.MonProtocol.{
  MonRequest, MonResponse, request_encode, DecodeResult, decode_ok, decode_need_more, decode_error,
  response_decode,
}
use socksv5_proxy.MonNio.{
  mon_cmd_auth, mon_cmd_add_user, mon_cmd_del_user, mon_cmd_list_users, mon_cmd_get_metrics,
  mon_cmd_get_access_log, mon_status_ok,
}
use socksv5_proxy.MonFormat.{
  Line, added_line, deleted_line, mon_format_metrics, mon_format_users, mon_format_access_log,
}
use socksv5_proxy.Socks5.{
  ReadResult, got, read_eof, read_would_block, read_failed, WriteResult, took, write_would_block,
  write_failed,
}

pub data ClientCmd : Type 0 where
  cmd_none cmd_metrics cmd_list_users cmd_add_user cmd_del_user cmd_access_log : ClientCmd

-- The address of the server is left out. The texts are C strings.
pub record ClientArgs : Type 0 where
  pub username : List ℕ
  pub password : List ℕ
  pub cmd : ClientCmd
  pub arg_user : List ℕ
  pub arg_pass : List ℕ

-- The exit codes.
abbrev pub exit_ok : ℕ
exit_ok = 0

abbrev pub exit_io : ℕ
exit_io = 2

abbrev pub exit_auth : ℕ
exit_auth = 3

abbrev pub exit_cmd : ℕ
exit_cmd = 4

abbrev pub exit_malformed : ℕ
exit_malformed = 5

-- memset to zero, with the version, a command and a number of arguments.
abbrev pub bare_request : ℕ → ℕ → MonRequest
bare_request cmd nargs = record {
  version = 1;
  cmd = cmd;
  nargs = nargs;
  arg_lens = 0 ∷ 0 ∷ [];
  args = replicate 256 0 ∷ replicate 256 0 ∷ [];
}

-- `none` is the result false.
pub fill_arg : MonRequest → ℕ → List ℕ → Option MonRequest
fill_arg req idx s =
    let l = strlen s in
    let row = get_or req.args idx [] in
    if ltb 255 l
    then none
    else some (record req {
      arg_lens = set req.arg_lens idx (l % 256);
      args = set req.args idx (set (copy_to row 0 (take l s)) l 0);
    })

pub build_auth_request : ClientArgs → Option MonRequest
unfolding fill_arg
build_auth_request a =
    fill_arg (bare_request mon_cmd_auth 2) 0 a.username >>= λ req. fill_arg req 1 a.password

pub build_cmd_request : ClientArgs → Option MonRequest
unfolding fill_arg
build_cmd_request a = elim a.cmd [
  | cmd_metrics ↦ some (bare_request mon_cmd_get_metrics 0)
  | cmd_list_users ↦ some (bare_request mon_cmd_list_users 0)
  | cmd_access_log ↦ some (bare_request mon_cmd_get_access_log 0)
  | cmd_add_user ↦
      fill_arg (bare_request mon_cmd_add_user 2) 0 a.arg_user >>= λ req. fill_arg req 1 a.arg_pass
  | cmd_del_user ↦ fill_arg (bare_request mon_cmd_del_user 1) 0 a.arg_user
  | cmd_none ↦ none
]

-- The bytes of `tmp` go to the buffer, if they fit.
pub append_bytes : Buffer → List ℕ → ℤ → Option (Buffer × Bool)
append_bytes b tmp (negsuc k) = some (b, false)
append_bytes b tmp (pos n) = do
  (p, space) ← Buffer.write_ptr b
  if ltb space n then some (b, false) else (do
    b' ← Buffer.write_adv (record b { storage = copy_to b.storage p (take n tmp) }) (pos n)
    some (b', true))

-- `tmp` is zeroed here.
pub queue_request : Buffer → MonRequest → Option (Buffer × Bool)
unfolding append_bytes
queue_request b req =
    let (tmp, n) = request_encode req (replicate 515 0) 515 in append_bytes b tmp n

pub data ClientState : Type 0 where
  st_connecting st_send_auth st_recv_auth st_send_cmd st_recv_cmd st_done st_error : ClientState

-- `out` is what has been printed.
pub record MonClient : Type 0 where
  pub current : ClientState
  pub read_buffer : Buffer
  pub write_buffer : Buffer
  pub finished : Bool
  pub connect_failed : Bool
  pub result : ℕ
  pub out : List Line

-- The buffers lie over zeroed arrays of MON_READ_BUF_SIZE and MON_WRITE_BUF_SIZE.
pub mon_client_init : MonClient
mon_client_init = record {
  current = st_connecting;
  read_buffer = record { storage = replicate 65540 0; limit = 65540; read_pos = 0; write_pos = 0 };
  write_buffer = record { storage = replicate 1024 0; limit = 1024; read_pos = 0; write_pos = 0 };
  finished = false;
  connect_failed = false;
  result = exit_ok;
  out = [];
}

-- The state of error, with an exit code.
abbrev pub fails : MonClient → ℕ → MonClient × ClientState
fails c code = (record c { result = code }, st_error)

-- A request is queued, if it was built.
pub queue : MonClient → Option MonRequest → Option (MonClient × Bool)
unfolding queue_request
queue c none = some (c, false)
queue c (some req) =
    queue_request c.write_buffer req >>= λ (b, queued). some (record c { write_buffer = b }, queued)

-- `connected` is that getsockopt(2) succeeds with the error 0.
pub on_connecting : ClientArgs → MonClient → Bool → Option (MonClient × ClientState)
unfolding queue build_auth_request
on_connecting a c connected =
    if connected
    then (queue c (build_auth_request a) >>= λ (c', queued).
        some (if queued then (c', st_send_auth) else fails c' exit_io))
    else some (record c { connect_failed = true }, st_error)

pub send_buffer :
    MonClient → ClientState → ClientState → WriteResult → Bool → Option (MonClient × ClientState)
send_buffer c self next w interest_set = Buffer.read_ptr c.write_buffer >>= λ _. elim w [
  | took n ↦
      (Buffer.read_adv c.write_buffer (pos n) >>= λ b.
      let c' = record c { write_buffer = b } in
      some (
        if Buffer.can_read b
        then (c', self)
        else if interest_set
        then (c', next)
        else fails c' exit_io))
  | write_would_block ↦ some (c, self)
  | write_failed ↦ some (fails c exit_io)
]

pub on_auth_ok : ClientArgs → MonClient → MonResponse → Bool → Option (MonClient × ClientState)
unfolding queue build_cmd_request
on_auth_ok a c resp interest_set =
    if resp.status == mon_status_ok
    then (queue c (build_cmd_request a) >>= λ (c', queued).
        some (if queued && interest_set then (c', st_send_cmd) else fails c' exit_io))
    else some (fails c exit_auth)

-- What is printed for the command, and whether the payload is well-formed.
pub report : ClientArgs → MonResponse → List Line × Bool
report a resp = elim a.cmd [
  | cmd_metrics ↦ mon_format_metrics resp.payload resp.payload_len
  | cmd_list_users ↦ mon_format_users resp.payload resp.payload_len
  | cmd_access_log ↦ mon_format_access_log resp.payload resp.payload_len
  | cmd_add_user ↦ (added_line (c_str a.arg_user) ∷ [], true)
  | cmd_del_user ↦ (deleted_line (c_str a.arg_user) ∷ [], true)
  | cmd_none ↦ ([], false)
]

pub on_cmd_ok : ClientArgs → MonClient → MonResponse → MonClient × ClientState
unfolding report
on_cmd_ok a c resp =
    let (lines, well_formed) = report a resp in
    let c' = record c { out = c.out ++ lines } in
    if resp.status == mon_status_ok
    then (if well_formed
        then (record c' { result = exit_ok }, st_done)
        else fails c' exit_malformed)
    else fails c exit_cmd

-- The bytes that can be read are decoded.
pub decoded :
    ClientArgs
    → MonClient
    → ClientState
    → Bool
    → Bool
    → List ℕ
    → ℕ
    → Option (MonClient × ClientState)
unfolding on_auth_ok on_cmd_ok
decoded a c self is_auth interest_set bytes avail = elim (response_decode bytes avail) [
  | decode_need_more ↦ some (c, self)
  | decode_error ↦ some (fails c exit_malformed)
  | decode_ok resp consumed ↦
      (Buffer.read_adv c.read_buffer (pos consumed) >>= λ b.
      let c' = record c { read_buffer = b } in
      if is_auth then on_auth_ok a c' resp interest_set else some (on_cmd_ok a c' resp))
]

-- The bytes are stored, and then decoded.
pub received :
    ClientArgs
    → MonClient
    → ClientState
    → Bool
    → Bool
    → ℕ
    → List ℕ
    → Option (MonClient × ClientState)
unfolding decoded
received a c self is_auth interest_set ptr bytes =
    let filled = record c.read_buffer { storage = copy_to c.read_buffer.storage ptr bytes } in
    Buffer.write_adv filled (pos (length bytes)) >>= λ b. Buffer.read_ptr b >>= λ (rp, avail).
    decoded a (record c { read_buffer = b }) self is_auth interest_set (drop rp b.storage) avail

pub recv_response :
    ClientArgs
    → MonClient
    → ClientState
    → Bool
    → Bool
    → ReadResult
    → Option (MonClient × ClientState)
unfolding received
recv_response a c self is_auth interest_set r = Buffer.write_ptr c.read_buffer >>= λ (ptr, space).
    if space == 0 then some (fails c exit_malformed) else elim r [
      | got x xs ↦ received a c self is_auth interest_set ptr (x ∷ xs)
      | read_eof ↦ some (fails c exit_io)
      | read_would_block ↦ some (c, self)
      | read_failed ↦ some (fails c exit_io)
    ]

-- The end of `mon_read` and `mon_write`: the state is entered, and the end is noted.
pub landed : MonClient × ClientState → MonClient
landed (c, st_done) = record c { current = st_done; finished = true }
landed (c, st_error) = record c { current = st_error; finished = true }
landed (c, st) = record c { current = st }

-- The table of states, for an event of reading.
pub mon_read : ClientArgs → MonClient → ReadResult → Bool → Option MonClient
unfolding recv_response landed
mon_read a c r interest_set = elim c.current [
  | st_recv_auth ↦ (recv_response a c st_recv_auth true interest_set r >>= λ s. some (landed s))
  | st_recv_cmd ↦ (recv_response a c st_recv_cmd false interest_set r >>= λ s. some (landed s))
  | _ ↦ none
]

-- And of writing.
pub mon_write : ClientArgs → MonClient → Bool → WriteResult → Bool → Option MonClient
unfolding on_connecting send_buffer landed
mon_write a c connected w interest_set = elim c.current [
  | st_connecting ↦ (on_connecting a c connected >>= λ s. some (landed s))
  | st_send_auth ↦ (send_buffer c st_send_auth st_recv_auth w interest_set >>= λ s. some (landed s))
  | st_send_cmd ↦ (send_buffer c st_send_cmd st_recv_cmd w interest_set >>= λ s. some (landed s))
  | _ ↦ none
]
