-- ===== src/Handshake.antt =====
-- server/socks5.c: the greeting and the credentials, up to the state that reads the request.
pub mod Gate
mod Tests
use socksv5_proxy.Base.{
  ℕ, ◌==◌, Bool, true, false, Option, none, some, ◌>>=◌, ltb, if◌then◌else◌, ℤ, pos, negsuc,
}
use socksv5_proxy.Codes.{
  username_password, no_acceptable_methods, auth_status_success, auth_status_failure,
}
use socksv5_proxy.Buffer
use socksv5_proxy.Hello
use socksv5_proxy.Auth
use socksv5_proxy.UserTable
use socksv5_proxy.UserTable.{UserTable}
use socksv5_proxy.Socks5.{
  Socks5, Socks5State, state_hello_read, state_hello_write, state_auth_read, state_auth_write,
  state_request_read, state_error,
}

-- The callback: the byte behind `data` and the method offered, to the byte afterwards.
pub on_hello_method : ℕ → ℕ → ℕ
on_hello_method selected method = if username_password == method then method else selected

-- `hello.data` is the address of `selected_method`, which is `hello.selected` here.
pub hello_read_init : Socks5 → Socks5
unfolding on_hello_method
hello_read_init s =
    let hello = s.hello in
    record s {
      hello = Hello.parser_init (record hello {
        selected = no_acceptable_methods;
        on_authentication_method = some on_hello_method;
      });
    }

-- Whether a marshalling function returned -1.
refused : ℤ → Bool
refused (pos n) = false
refused (negsuc n) = true

pub hello_read : Socks5 → Option (Socks5 × Socks5State)
unfolding refused
hello_read s = do
  (b, p, state, error) ← Hello.consume s.read_buffer s.hello false
  let s₁ = record s { read_buffer = b; hello = p }
  if error
      then some (s₁, state_error)
      else (if (Hello.is_done state false).0
          then (Hello.marshall s.write_buffer p.selected >>= λ (w, written). some (
            record s₁ { write_buffer = w },
            if refused written then state_error else state_hello_write,
          ))
          else some (s₁, state_hello_read))

pub hello_write : Socks5 → Socks5State
hello_write s =
    if Buffer.can_read s.write_buffer
    then state_hello_write
    else if s.hello.selected == no_acceptable_methods
    then state_error
    else state_auth_read

pub auth_read_init : Socks5 → Socks5
auth_read_init s = record s { auth_status = auth_status_failure; auth = Auth.parser_init s.auth }

-- `credentials_match` is `user_table_lookup`.
pub auth_read : UserTable → Socks5 → Option (Socks5 × Socks5State)
unfolding refused
auth_read users s = do
  (b, p, state, error) ← Auth.consume s.read_buffer s.auth false
  let s₁ = record s { read_buffer = b; auth = p }
  if error
      then some (s₁, state_error)
      else (if (Auth.is_done state false).0
          then (let status =
                if UserTable.lookup users (some p.uname) (some p.passwd)
                then auth_status_success
                else auth_status_failure in
              (Auth.marshall s.write_buffer status >>= λ (w, written). some (
                record s₁ { auth_status = status; write_buffer = w },
                if refused written then state_error else state_auth_write,
              )))
          else some (s₁, state_auth_read))

unfoldable pub auth_write : Socks5 → Socks5State
auth_write s =
    if Buffer.can_read s.write_buffer
    then state_auth_write
    else if s.auth_status == auth_status_success
    then state_request_read
    else state_error
