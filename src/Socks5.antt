-- ===== src/Socks5.antt =====
-- server/include/socks5.h: the state of one SOCKS connection, and what its handlers do outside it.
use socksv5_proxy.Base.{
  ℕ, Bool, true, false, Option, List, ℤ, pos, negsuc, ◌∷◌, [], replicate, none,
}
use socksv5_proxy.Buffer.{Buffer}
use socksv5_proxy.Hello.{HelloParser, hello_version}
use socksv5_proxy.Auth.{AuthParser, auth_version}
use socksv5_proxy.Request.{RequestParser, SockAddr, request_version}

pub data Socks5State : Type 0 where
  state_hello_read state_hello_write state_auth_read state_auth_write : Socks5State
  state_request_read state_connecting state_request_write : Socks5State
  state_relay state_done state_error : Socks5State

pub data Socks5Action : Type 0 where
  action_none action_noop action_read action_write action_close : Socks5Action

-- `fd_interest`, a set of OP_READ and OP_WRITE.
pub record Interest : Type 0 where
  pub op_read : Bool
  pub op_write : Bool

-- What one entry of the list that getaddrinfo(3) returns holds.
pub record AddrInfo : Type 0 where
  pub is_stream : Bool
  pub addr : SockAddr

-- The byte `selected_method` is `hello.selected`: `hello_read_init` points `hello.data` at it.
-- `current` is `stm.current`, `none` before the first event. A descriptor of -1 is `negsuc 0`.
pub record Socks5 : Type 0 where
  pub references : ℕ
  pub current : Option Socks5State
  pub client_fd : ℤ
  pub origin_fd : ℤ
  pub dns_error : ℤ
  pub dns_result : Option (List AddrInfo)
  pub dns_next : List AddrInfo
  pub read_buffer : Buffer
  pub write_buffer : Buffer
  pub hello : HelloParser
  pub auth : AuthParser
  pub request : RequestParser
  pub auth_status : ℕ
  pub request_reply : ℕ
  pub closing : Bool
  pub client_registered : Bool
  pub origin_registered : Bool
  pub relay_started : Bool
  pub client_eof : Bool
  pub origin_eof : Bool
  pub client_write_shutdown : Bool
  pub origin_write_shutdown : Bool
  pub dns_pending : Bool
  pub cancelled : Bool

-- `socks5_init`: the state of a connection that was just accepted. The buffers lie over zeroed arrays.
unfoldable pub socks5_init : Socks5
socks5_init = record {
  references = 1;
  current = none;
  client_fd = negsuc 0;
  origin_fd = negsuc 0;
  dns_error = pos 0;
  dns_result = none;
  dns_next = [];
  read_buffer = record { storage = replicate 4096 0; limit = 4096; read_pos = 0; write_pos = 0 };
  write_buffer = record { storage = replicate 4096 0; limit = 4096; read_pos = 0; write_pos = 0 };
  hello = record {
    on_authentication_method = none;
    selected = 0;
    state = hello_version;
    remaining = 0;
  };
  auth = record {
    state = auth_version;
    ulen = 0;
    plen = 0;
    i = 0;
    uname = replicate 256 0;
    passwd = replicate 256 0;
  };
  request = record {
    state = request_version;
    command = 0;
    atyp = 0;
    address = replicate 256 0;
    address_len = 0;
    address_index = 0;
    port = 0 ∷ 0 ∷ [];
    port_index = 0;
  };
  auth_status = 0;
  request_reply = 0;
  closing = false;
  client_registered = false;
  origin_registered = false;
  relay_started = false;
  client_eof = false;
  origin_eof = false;
  client_write_shutdown = false;
  origin_write_shutdown = false;
  dns_pending = false;
  cancelled = false;
}

-- The calls that handlers make on the two sockets, in order: `from_` for the bytes of a read(2),
-- `to_` for the bytes that a write(2) took, none where it failed or was not made.
-- `connect_to` and `register_fd` are the calls of connect(2) and `selector_register` for the origin;
-- `unregister_fd` and `close_fd` end the use of a descriptor, `free_state` that of the connection.
pub data Effect : Type 0 where
  shutdown_write : ℤ → Effect
  set_interest : ℤ → Interest → Effect
  from_client from_origin to_client to_origin : List ℕ → Effect
  unregister_fd close_fd : ℤ → Effect
  connect_to : ℤ → SockAddr → Effect
  register_fd : ℤ → Interest → Effect
  free_state : Effect

-- fd < 0
abbrev pub is_negative : ℤ → Bool
is_negative (pos n) = false
is_negative (negsuc n) = true

-- What read(2) on a non-blocking socket returns: a first byte and the others, 0, or -1 with errno.
pub data ReadResult : Type 0 where
  got : ℕ → List ℕ → ReadResult
  read_eof read_would_block read_failed : ReadResult

-- What write(2) returns: the number of bytes taken, or -1 with errno.
pub data WriteResult : Type 0 where
  took : ℕ → WriteResult
  write_would_block write_failed : WriteResult
