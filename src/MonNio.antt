-- ===== src/MonNio.antt =====
-- server/mon_nio.c: the requests of the monitoring protocol, over the tables that they read and
-- change.
pub mod Guard
pub mod Answer
mod Tests
use socksv5_proxy.Base.{
  ℕ, zero, suc, ◌+◌, ◌-◌, ◌*◌, ◌/◌, ◌%◌, ◌^◌, Bool, true, false, not, Option, none, some, ltb, leb,
  ◌==◌, ◌&&◌, ◌>>=◌, if◌then◌else◌, List, [], ◌∷◌, ◌++◌, length, take, drop, get_or, c_str, strlen,
  copy_to, ℤ, pos, negsuc,
}
use socksv5_proxy.Buffer
use socksv5_proxy.Buffer.{Buffer}
use socksv5_proxy.UserTable
use socksv5_proxy.UserTable.{UserTable}
use socksv5_proxy.Metrics.{Metrics}
use socksv5_proxy.AccessLog.{AccessLog}
use socksv5_proxy.MonProtocol
use socksv5_proxy.MonProtocol.{MonRequest, MonResponse, mon_version}
use socksv5_proxy.MonParser
use socksv5_proxy.MonParser.{MonParser, mon_parser_error}
use socksv5_proxy.MonPayload.{list_payload, metrics_payload, log_payload}
use socksv5_proxy.Socks5.{ReadResult, got, WriteResult, took}

abbrev pub mon_cmd_auth : ℕ
mon_cmd_auth = 0x00

abbrev pub mon_cmd_add_user : ℕ
mon_cmd_add_user = 0x01

abbrev pub mon_cmd_del_user : ℕ
mon_cmd_del_user = 0x02

abbrev pub mon_cmd_list_users : ℕ
mon_cmd_list_users = 0x03

abbrev pub mon_cmd_get_metrics : ℕ
mon_cmd_get_metrics = 0x04

abbrev pub mon_cmd_get_access_log : ℕ
mon_cmd_get_access_log = 0x05

abbrev pub mon_status_ok : ℕ
mon_status_ok = 0x00

abbrev pub mon_status_auth_fail : ℕ
mon_status_auth_fail = 0x01

abbrev pub mon_status_unknown_cmd : ℕ
mon_status_unknown_cmd = 0x02

abbrev pub mon_status_user_exists : ℕ
mon_status_user_exists = 0x03

abbrev pub mon_status_user_not_found : ℕ
mon_status_user_not_found = 0x04

abbrev pub mon_status_internal_error : ℕ
mon_status_internal_error = 0x05

-- The two buffers, over `raw_read` and `raw_write`, which are their storage.
pub record MonConn : Type 0 where
  pub read_buffer : Buffer
  pub write_buffer : Buffer
  pub parser : MonParser
  pub authenticated : Bool

-- What the handlers share with the rest of the server: static data of other files.
pub record Server : Type 0 where
  pub users : UserTable
  pub metrics : Metrics
  pub log : AccessLog

-- `send_response`: `none` where a buffer operation fails its assertion. The encoder writes at the write pointer.
pub send_response : MonConn → ℕ → Option (List ℕ) → ℕ → Option MonConn
send_response conn status payload payload_len = do
  let b = conn.write_buffer
  (ptr, count) ← Buffer.write_ptr b
  let (memory, written) =
      MonProtocol.response_encode
        (record {
          version = mon_version;
          status = status;
          payload_len = payload_len;
          payload = payload;
        })
        (drop ptr b.storage) count
  b' ← advanced (record b { storage = take ptr b.storage ++ memory }) written
  some (record conn { write_buffer = b' })
  where
    advanced : Buffer → ℤ → Option Buffer
    advanced b (pos zero) = some b
    advanced b (pos (suc n)) = Buffer.write_adv b (pos (suc n))
    advanced b (negsuc n) = some b

-- An argument of the request, a pointer into the parser.
pub arg : MonRequest → ℕ → Option (List ℕ)
arg req i = some (get_or req.args i [])

-- The switch of `mon_process_request`: the tables, whether the connection is authenticated, the status and the payload.
pub answer : Server → Bool → MonRequest → Server × Bool × ℕ × Option (List ℕ)
answer s authenticated req =
    if not authenticated && not (req.cmd == mon_cmd_auth)
    then (s, authenticated, mon_status_auth_fail, none)
    else if req.cmd == mon_cmd_auth
    then (if ltb req.nargs 2
        then (s, authenticated, mon_status_auth_fail, none)
        else if not (UserTable.lookup s.users (arg req 0) (arg req 1))
        then (s, authenticated, mon_status_auth_fail, none)
        else (s, true, mon_status_ok, none))
    else if req.cmd == mon_cmd_add_user
    then (if ltb req.nargs 2
        then (s, authenticated, mon_status_internal_error, none)
        else (let (users, added) = UserTable.add s.users (arg req 0) (arg req 1) in
            (
              record s { users = users },
              authenticated,
              if added then mon_status_ok else mon_status_user_exists,
              none,
            )))
    else if req.cmd == mon_cmd_del_user
    then (if ltb req.nargs 1
        then (s, authenticated, mon_status_internal_error, none)
        else (let (users, removed) = UserTable.remove s.users (arg req 0) in
            (
              record s { users = users },
              authenticated,
              if removed then mon_status_ok else mon_status_user_not_found,
              none,
            )))
    else if req.cmd == mon_cmd_list_users
    then (s, authenticated, mon_status_ok, some (list_payload s.users))
    else if req.cmd == mon_cmd_get_metrics
    then (s, authenticated, mon_status_ok, some (metrics_payload s.metrics))
    else if req.cmd == mon_cmd_get_access_log
    then (s, authenticated, mon_status_ok, some (log_payload s.log))
    else (s, authenticated, mon_status_unknown_cmd, none)

pub payload_length : Option (List ℕ) → ℕ
payload_length none = 0
payload_length (some bytes) = length bytes % 2 ^ 16

pub mon_process_request : Server → MonConn → Option (Server × MonConn)
mon_process_request s conn = do
  let (s', authenticated, status, payload) = answer s conn.authenticated conn.parser.request
  conn' ←
      send_response (record conn { authenticated = authenticated }) status payload
        (payload_length payload)
  some (s', conn')

-- What a handler asks of the selector; `closed` unregisters and closes the descriptor.
pub data MonAction : Type 0 where
  unchanged wants_read wants_write closed : MonAction

-- `mon_read`; `r` is what recv(2) returns.
pub mon_read : Server → MonConn → ReadResult → Option (Server × MonConn × MonAction)
mon_read s conn (got c cs) = do
  (ptr, count) ← Buffer.write_ptr conn.read_buffer
  let b = conn.read_buffer
  b' ←
      Buffer.write_adv (record b { storage = copy_to b.storage ptr (c ∷ cs) })
        (pos (length (c ∷ cs)))
  (b'', parser, st, error) ← MonParser.consume b' conn.parser false
  let conn' = record conn { read_buffer = b''; parser = parser }
  if error
      then some (s, conn', closed)
      else (if (MonParser.is_done st false).0
          then (mon_process_request s conn' >>= λ (s', conn''). some (s', conn'', wants_write))
          else some (s, conn', unchanged))
mon_read s conn _ = Buffer.write_ptr conn.read_buffer >>= λ _. some (s, conn, closed)

-- `mon_write`; `r` is what send(2) returns.
pub mon_write : MonConn → WriteResult → Option (MonConn × MonAction)
mon_write conn (took (suc n)) = do
  (ptr, count) ← Buffer.read_ptr conn.write_buffer
  b ← Buffer.read_adv conn.write_buffer (pos (suc n))
  let conn' = record conn { write_buffer = b }
  some (
      if Buffer.can_read b then (conn', unchanged) else (
        record conn' {
          read_buffer = Buffer.reset conn.read_buffer;
          write_buffer = Buffer.reset b;
          parser = MonParser.parser_init conn.parser;
        },
        wants_read,
      ))
mon_write conn _ = Buffer.read_ptr conn.write_buffer >>= λ _. some (conn, closed)
