-- ===== src/RequestPhase.antt =====
-- server/socks5.c: the request and its reply, up to the relay.
pub mod Outcome
mod Tests
use socksv5_proxy.Base.{
  ℕ, ◌+◌, ◌*◌, Bool, true, false, not, ◌&&◌, ◌||◌, Option, none, some, ◌>>=◌, ◌==◌, if◌then◌else◌,
  List, [], ◌∷◌, ◌++◌, take, get_or, ℤ,
}
use socksv5_proxy.AccessLog as Log
use socksv5_proxy.AccessLog.{AccessLog}
use socksv5_proxy.Buffer
use socksv5_proxy.Codes.{
  socks5_atyp_ipv4, socks5_atyp_domainname, socks5_atyp_ipv6, socks5_cmd_connect, reply_succeeded,
  reply_general_failure, reply_command_not_supported, reply_address_type_not_supported,
}
use socksv5_proxy.Connect.{
  Attempt, connect_reply_from_errno, connect_to_origin, connect_marshall_reply, is_einprogress,
  is_error,
}
use socksv5_proxy.Relay.{start_relay}
use socksv5_proxy.Request
use socksv5_proxy.Request.{SockAddr, RequestState, request_error_unsupported_atyp}
use socksv5_proxy.Resolver.{DnsStart, DnsJob}
use socksv5_proxy.Socks5.{
  Socks5, Socks5State, state_request_read, state_connecting, state_request_write, state_relay,
  state_done, state_error, Socks5Action, action_none, action_noop, action_read, action_write,
  action_close, Effect,
}

unfoldable pub request_read_init : Socks5 → Socks5
request_read_init s = record s {
  request_reply = reply_general_failure;
  request = Request.parser_init s.request;
}

-- The reply to a request that the parser refuses.
pub reply_to_error : RequestState → ℕ
reply_to_error request_error_unsupported_atyp = reply_address_type_not_supported
reply_to_error _ = reply_general_failure

-- The reply is written, behind what was done before.
pub answer :
    Socks5
    → List Effect
    → Option (SockAddr × ℕ)
    → Option (Socks5 × List Effect × Option DnsJob × Socks5State)
answer s effects bound =
    connect_marshall_reply s bound >>= λ (s', state). some (s', effects, none, state)

-- `dial` and `start` are the answers of the system to the attempts to connect and to the start of
-- a thread, `bound` that of getsockname(2).
module _ (dial : ℕ → SockAddr → Attempt) where
  -- From a request that is complete on.
  pub perform :
      Socks5
      → DnsStart
      → Option (SockAddr × ℕ)
      → Option (Socks5 × List Effect × Option DnsJob × Socks5State)
  unfolding answer
  perform s start bound =
      if s.request.command == socks5_cmd_connect
      then (connect_to_origin dial s start >>= λ (s', e, job, status).
          if is_einprogress status
          then some (s', e, job, state_connecting)
          else answer (record s' { request_reply = connect_reply_from_errno status }) e bound)
      else answer (record s { request_reply = reply_command_not_supported }) [] bound

  pub request_read :
      Socks5
      → DnsStart
      → Option (SockAddr × ℕ)
      → Option (Socks5 × List Effect × Option DnsJob × Socks5State)
  unfolding reply_to_error perform
  request_read s start bound =
      Request.consume s.read_buffer s.request false >>= λ (b, p, state, error).
      let s₁ = record s { read_buffer = b; request = p } in
      if error
      then answer (record s₁ { request_reply = reply_to_error state }) [] bound
      else if (Request.is_done state false).0
      then perform s₁ start bound
      else some (s₁, [], none, state_request_read)

  pub socks5_handle_block_done :
      Socks5
      → DnsStart
      → Option (SockAddr × ℕ)
      → Option (Socks5 × List Effect × Option DnsJob × Socks5Action)
  socks5_handle_block_done s start bound =
      connect_to_origin dial (record s { dns_pending = false }) start >>= λ (s₁, e, job, status).
      if is_einprogress status
      then some (record s₁ { current = some state_connecting }, e, job, action_noop)
      else (connect_marshall_reply (record s₁ { request_reply = connect_reply_from_errno status })
            bound
          >>= λ (s₂, state). some (
            record s₂ { current = some state },
            e,
            job,
            if is_error state then action_close else action_write,
          ))

-- The text for the access log, `none` for a null pointer; inet_ntop(3) is a function of the family
-- and the address.
pub destination : (ℕ → List ℕ → Option (List ℕ)) → Socks5 → Option (List ℕ)
destination inet_ntop s =
    let r = s.request in
    if r.atyp == socks5_atyp_domainname
    then some (take r.address_len r.address ++ 0 ∷ [])
    else if (r.atyp == socks5_atyp_ipv4) || (r.atyp == socks5_atyp_ipv6)
    then inet_ntop r.atyp r.address
    else none

-- `now` is what time(2) returns.
pub request_write :
    (ℕ → List ℕ → Option (List ℕ))
    → AccessLog
    → ℕ
    → Socks5
    → Socks5 × AccessLog × List Effect × Socks5State
unfolding destination
request_write inet_ntop log now s =
    if Buffer.can_read s.write_buffer
    then (s, log, [], state_request_write)
    else if s.request_reply == reply_succeeded
    then (let port = get_or s.request.port 0 0 * 256 + get_or s.request.port 1 0 in
        let (s', e) = start_relay s in
        (s', Log.add log (some s.auth.uname) (destination inet_ntop s) port now, e, state_relay))
    else (s, log, [], state_done)

-- The end of `socks5_handle_read` and of `socks5_handle_write`.
unfoldable pub action_after : Socks5 → Socks5State → Socks5Action
action_after s state_error = action_close
action_after s state_done = action_close
action_after s state_connecting = action_noop
action_after s state_relay = action_none
action_after s _ = if Buffer.can_read s.write_buffer then action_write else action_read
