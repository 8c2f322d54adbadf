-- ===== src/Request.antt =====
-- server/request.c: the parser of the CONNECT request (RFC 1928, section 4) and its reply.
pub mod Parse
pub mod Bounds
pub mod Reply
mod Tests
use socksv5_proxy.Base.{
  ℕ, ◌+◌, ◌-◌, ◌%◌, Bool, true, false, Option, none, some, ◌>>=◌, ltb, leb, ◌==◌, ◌&&◌,
  if◌then◌else◌, List, [], ◌∷◌, ◌++◌, set, copy_to, replicate, length, ℤ, pos, negsuc,
}
use socksv5_proxy.Buffer
use socksv5_proxy.Buffer.{Buffer}
use socksv5_proxy.Consume
use socksv5_proxy.Codes.{socks5_version, socks5_atyp_ipv4, socks5_atyp_domainname, socks5_atyp_ipv6}

pub data RequestState : Type 0 where
  request_version request_command request_reserved request_atyp : RequestState
  request_dst_addr request_dst_port request_done : RequestState
  request_error_unsupported_version request_error_unsupported_atyp : RequestState

-- `address` is `uint8_t[256]` and `port` is `uint8_t[2]`; the other fields are uint8_t.
pub record RequestParser : Type 0 where
  pub state : RequestState
  pub command : ℕ
  pub atyp : ℕ
  pub address : List ℕ
  pub address_len : ℕ
  pub address_index : ℕ
  pub port : List ℕ
  pub port_index : ℕ

pub parser_init : RequestParser → RequestParser
parser_init p = record p {
  state = request_version;
  command = 0;
  atyp = 0;
  address_len = 0;
  address_index = 0;
  port = set (set p.port 0 0) 1 0;
  port_index = 0;
}

-- The switch of `request_parser_feed`.
feed_state : RequestState → RequestParser → ℕ → RequestParser
feed_state request_version p b = record p {
  state = if b == socks5_version then request_command else request_error_unsupported_version;
}
feed_state request_command p b = record p { command = b; state = request_reserved }
feed_state request_reserved p b = record p {
  state = if b == 0 then request_atyp else request_error_unsupported_version;
}
feed_state request_atyp p b =
    let p' = record p { atyp = b; address_index = 0 } in
    if b == socks5_atyp_ipv4
    then record p' { address_len = 4; state = request_dst_addr }
    else if b == socks5_atyp_ipv6
    then record p' { address_len = 16; state = request_dst_addr }
    else if b == socks5_atyp_domainname
    then record p' { address_len = 0; state = request_dst_addr }
    else record p' { state = request_error_unsupported_atyp }
feed_state request_dst_addr p b =
    if (p.atyp == socks5_atyp_domainname) && (p.address_len == 0)
    then (let p' = record p { address_len = b } in
        if p'.address_len == 0 then record p' { state = request_error_unsupported_atyp } else p')
    else (let p' = record p {
      address = set p.address p.address_index b;
      address_index = (p.address_index + 1) % 256;
    } in
        if p'.address_index == p'.address_len
        then record p' { port_index = 0; state = request_dst_port }
        else p')
feed_state request_dst_port p b =
    let p' = record p { port = set p.port p.port_index b; port_index = (p.port_index + 1) % 256 } in
    if p'.port_index == 2 then record p' { state = request_done } else p'
feed_state request_done p b = p
feed_state request_error_unsupported_version p b = p
feed_state request_error_unsupported_atyp p b = p

pub parser_feed : RequestParser → ℕ → RequestParser × RequestState
unfolding feed_state
parser_feed p b = let p' = feed_state p.state p b in (p', p'.state)

-- Whether the state is final, and `*errored` afterwards.
unfoldable pub is_done : RequestState → Bool → Bool × Bool
is_done request_error_unsupported_version errored = (true, true)
is_done request_error_unsupported_atyp errored = (true, true)
is_done request_done errored = (true, errored)
is_done _ errored = (false, errored)

-- The fuel is the number of bytes in the buffer.
pub consume : Buffer → RequestParser → Bool → Option (Buffer × RequestParser × RequestState × Bool)
consume b p errored =
    Consume.loop parser_feed is_done (b.write_pos - b.read_pos) b p p.state errored

-- A `struct sockaddr` as the reply reads it: its family with the bytes of its address and port.
pub data SockAddr : Type 0 where
  inet : List ℕ → List ℕ → SockAddr
  inet6 : List ℕ → List ℕ → SockAddr
  other_family : SockAddr

-- sizeof(struct sockaddr_in) and sizeof(struct sockaddr_in6)
abbrev pub sockaddr_in_size : ℕ
sockaddr_in_size = 16

abbrev pub sockaddr_in6_size : ℕ
sockaddr_in6_size = 28

-- The address type, the address and the port of a reply.
reply_fields : Option SockAddr → ℕ → ℕ × List ℕ × List ℕ
reply_fields (some (inet addr port)) addr_len =
    if leb sockaddr_in_size addr_len
    then (socks5_atyp_ipv4, addr, port)
    else (socks5_atyp_ipv4, replicate 4 0, replicate 2 0)
reply_fields (some (inet6 addr port)) addr_len =
    if leb sockaddr_in6_size addr_len
    then (socks5_atyp_ipv6, addr, port)
    else (socks5_atyp_ipv4, replicate 4 0, replicate 2 0)
reply_fields (some other_family) addr_len = (socks5_atyp_ipv4, replicate 4 0, replicate 2 0)
reply_fields none addr_len = (socks5_atyp_ipv4, replicate 4 0, replicate 2 0)

-- The reply with these fields is written.
write_reply : Buffer → ℕ → ℕ × List ℕ × List ℕ → Option (Buffer × ℤ)
write_reply b reply (atyp, addr, port) = do
  (p, n) ← Buffer.write_ptr b
  let addr_len = if atyp == socks5_atyp_ipv6 then 16 else 4
  let reply_len = 4 + addr_len + 2
  let bytes = socks5_version ∷ reply ∷ 0 ∷ atyp ∷ addr ++ port
  if ltb n reply_len then some (b, negsuc 0) else (do
    b' ← Buffer.write_adv (record b { storage = copy_to b.storage p bytes }) (pos reply_len)
    some (b', pos reply_len))

-- The new buffer and the number of bytes written, -1 where the reply does not fit.
pub marshall_reply : Buffer → ℕ → Option SockAddr → ℕ → Option (Buffer × ℤ)
unfolding reply_fields write_reply
marshall_reply b reply bind_addr bind_addr_len =
    write_reply b reply (reply_fields bind_addr bind_addr_len)
