-- ===== src/Connect.antt =====
-- server/connect.c, up to the relay: the origin is connected, one address after the other. What
-- the system calls answer is an argument.
pub mod Verdict
pub mod Addresses
pub mod Literal
mod Tests
use socksv5_proxy.Base.{
  ℕ, Bool, true, false, not, ◌&&◌, ◌||◌, Option, none, some, ◌>>=◌, ◌==◌, if◌then◌else◌, List, [],
  ◌∷◌, ◌++◌, length, take, ℤ, pos, negsuc,
}
use socksv5_proxy.Codes.{
  socks5_atyp_ipv4, socks5_atyp_domainname, socks5_atyp_ipv6, reply_succeeded,
  reply_general_failure, reply_network_unreachable, reply_host_unreachable,
  reply_connection_refused,
}
use socksv5_proxy.Request
use socksv5_proxy.Request.{SockAddr, inet, inet6}
use socksv5_proxy.Resolver.{
  Errno, succeeded, no_error, enetunreach, ehostunreach, econnrefused, einprogress, eafnosupport,
  DnsStart, DnsJob, dns_resolve_start,
}
use socksv5_proxy.Selector.{SelectorStatus, is_success}
use socksv5_proxy.Socks5.{
  Socks5, Socks5State, state_request_write, state_error, AddrInfo, Interest, Effect, set_interest,
  unregister_fd, close_fd, connect_to, register_fd, is_negative,
}

unfoldable pub connect_reply_from_errno : Errno → ℕ
connect_reply_from_errno no_error = reply_succeeded
connect_reply_from_errno enetunreach = reply_network_unreachable
connect_reply_from_errno ehostunreach = reply_host_unreachable
connect_reply_from_errno econnrefused = reply_connection_refused
connect_reply_from_errno _ = reply_general_failure

pub data SocketResult : Type 0 where
  socket_opened : ℕ → SocketResult
  socket_failed : Errno → SocketResult

-- What the calls for one address answer: socket(2), `selector_fd_set_nio`, connect(2), each with
-- errno, and `selector_register`.
pub record Attempt : Type 0 where
  pub socket : SocketResult
  pub non_blocking : Errno
  pub connect : Errno
  pub registered : SelectorStatus

-- `selector_register` and what follows; whether it succeeded.
pub enter_origin : Socks5 → ℕ → Interest → SelectorStatus → Socks5 × List Effect × Bool
enter_origin s fd interest registered =
    if is_success registered
    then (
      record s { origin_fd = pos fd; origin_registered = true },
      register_fd (pos fd) interest ∷ [],
      true,
    )
    else (
      record s { origin_fd = negsuc 0 },
      register_fd (pos fd) interest ∷ close_fd (pos fd) ∷ [],
      false,
    )

unfoldable pub is_einprogress : Errno → Bool
is_einprogress einprogress = true
is_einprogress _ = false

-- From connect(2) on.
pub dial_on : Socks5 → SockAddr → ℕ → Errno → SelectorStatus → Socks5 × List Effect × Errno
unfolding enter_origin is_einprogress
dial_on s addr fd error registered =
    if succeeded error
    then (let (s', e, entered) =
          enter_origin s fd (record { op_read = false; op_write = false }) registered in
        if entered
        then (record s' { request_reply = reply_succeeded }, connect_to (pos fd) addr ∷ e, no_error)
        else (s', connect_to (pos fd) addr ∷ e, econnrefused))
    else if is_einprogress error
    then (let (s', e, entered) =
          enter_origin s fd (record { op_read = false; op_write = true }) registered in
        if entered
        then (s', connect_to (pos fd) addr ∷ e, einprogress)
        else (s', connect_to (pos fd) addr ∷ e, econnrefused))
    else (s, connect_to (pos fd) addr ∷ close_fd (pos fd) ∷ [], error)

pub register_origin_connect : Socks5 → SockAddr → Attempt → Socks5 × List Effect × Errno
unfolding dial_on
register_origin_connect s addr a = elim a.socket [
  | socket_failed error ↦ (s, [], error)
  | socket_opened fd ↦
      if succeeded a.non_blocking
      then dial_on s addr fd a.connect a.registered
      else (s, close_fd (pos fd) ∷ [], a.non_blocking)
]

-- status == 0 || status == EINPROGRESS
unfoldable pub is_settled : Errno → Bool
unfolding is_einprogress
is_settled status = succeeded status || is_einprogress status

-- == 0
unfoldable pub is_zero : ℤ → Bool
is_zero (pos n) = n == 0
is_zero (negsuc n) = false

-- A pointer that is not null.
abbrev pub is_given : {A : Type 0} → Option A → Bool
is_given none = false
is_given (some x) = true

abbrev pub is_fd : ℤ → ℕ → Bool
is_fd (pos n) fd = n == fd
is_fd (negsuc n) fd = false

abbrev pub without_job :
    Socks5 × List Effect × Errno → Option (Socks5 × List Effect × Option DnsJob × Errno)
without_job (s, e, status) = some (s, e, none, status)

abbrev pub is_error : Socks5State → Bool
is_error state_error = true
is_error _ = false

-- Whether a marshalling function returned -1.
abbrev pub is_refused : ℤ → Bool
is_refused (pos n) = false
is_refused (negsuc n) = true

-- The address and its length, where there is one.
unfoldable pub bound_to : Socks5 → Option (SockAddr × ℕ) → Option SockAddr × ℕ
bound_to s none = (none, 0)
bound_to s (some (addr, len)) = (
  if (s.request_reply == reply_succeeded) && not (is_negative s.origin_fd) then some addr else none,
  len,
)

-- `bound` is what getsockname(2) answers for the origin, `none` where it fails.
unfoldable pub connect_marshall_reply :
    Socks5 → Option (SockAddr × ℕ) → Option (Socks5 × Socks5State)
unfolding bound_to
connect_marshall_reply s bound =
    let (addr, len) = bound_to s bound in
    Request.marshall_reply s.write_buffer s.request_reply addr len >>= λ (b, written).
    some (
      record s { write_buffer = b },
      if is_refused written then state_error else state_request_write,
    )

-- The first argument of `dial` is the number of addresses that follow in the list.
module _ (dial : ℕ → SockAddr → Attempt) where
  start_ipv4_connect : Socks5 → Socks5 × List Effect × Errno
  start_ipv4_connect s =
      let addr = inet (take 4 s.request.address) s.request.port in
      register_origin_connect s addr (dial 0 addr)

  start_ipv6_connect : Socks5 → Socks5 × List Effect × Errno
  start_ipv6_connect s =
      let addr = inet6 (take 16 s.request.address) s.request.port in
      register_origin_connect s addr (dial 0 addr)

  -- The loop of `start_resolved_connect`.
  pub try_all : Socks5 → List AddrInfo → Errno → Socks5 × List Effect × Errno
  unfolding register_origin_connect is_settled
  try_all s [] last_error = (s, [], last_error)
  try_all s (ai ∷ ais) last_error =
      let s₁ = record s { dns_next = ais } in
      let (s₂, e, status) = register_origin_connect s₁ ai.addr (dial (length ais) ai.addr) in
      elim ai.is_stream [
        | false ↦ try_all s₁ ais last_error
        | true ↦ elim (is_settled status) [
          | true ↦ (s₂, e, status)
          | false ↦ let (s₃, e', status') = try_all s₂ ais status in (s₃, e ++ e', status')
        ]
      ]

  pub start_resolved_connect : Socks5 → Socks5 × List Effect × Errno
  unfolding try_all is_zero
  start_resolved_connect s =
      if is_zero s.dns_error && is_given s.dns_result
      then try_all s s.dns_next ehostunreach
      else (s, [], ehostunreach)

  pub connect_to_origin : Socks5 → DnsStart → Option (Socks5 × List Effect × Option DnsJob × Errno)
  unfolding start_ipv4_connect start_ipv6_connect start_resolved_connect is_zero
  connect_to_origin s start =
      if s.request.atyp == socks5_atyp_ipv4
      then without_job (start_ipv4_connect s)
      else if s.request.atyp == socks5_atyp_ipv6
      then without_job (start_ipv6_connect s)
      else if s.request.atyp == socks5_atyp_domainname
      then (if s.dns_pending
          then some (s, [], none, einprogress)
          else if is_given s.dns_result || not (is_zero s.dns_error)
          then without_job (start_resolved_connect s)
          else (dns_resolve_start s start >>= λ (s', job, status). some (s', [], job, status)))
      else some (s, [], none, eafnosupport)

  -- The failed descriptor of the origin is given up; `fd` is that of the event.
  pub drop_origin : Socks5 → ℤ → Socks5 × List Effect
  drop_origin s fd =
      let held = not (is_negative s.origin_fd) in
      (
        record s {
          origin_registered = if s.origin_registered && held then false else s.origin_registered;
          origin_fd = if held then negsuc 0 else s.origin_fd;
        },
        (if s.origin_registered && held then unregister_fd fd ∷ [] else [])
            ++ (if held then close_fd s.origin_fd ∷ [] else []),
      )

  -- The next address, if there is one; whether it is being connected to.
  pub try_next : Socks5 → Socks5 × List Effect × Bool
  unfolding start_resolved_connect is_einprogress
  try_next s =
      if (s.request.atyp == socks5_atyp_domainname) && not (length s.dns_next == 0)
      then (let (s', e, status) = start_resolved_connect s in
          if is_einprogress status
          then (s', e, true)
          else (record s' { request_reply = connect_reply_from_errno status }, e, false))
      else (s, [], false)

  -- The end of `origin_connect_write_handler`: the reply is written and sent to the client.
  pub resume_client : Socks5 → List Effect → Option (SockAddr × ℕ) → Option (Socks5 × List Effect)
  unfolding connect_marshall_reply
  resume_client s effects bound = connect_marshall_reply s bound >>= λ (s', state).
      let interest : Interest = record {
        op_read = is_error state;
        op_write = not (is_error state);
      } in
      some (record s' { current = some state }, effects ++ set_interest s.client_fd interest ∷ [])

  -- `error` is SO_ERROR, or errno where getsockopt(2) fails.
  pub origin_connect_write_handler :
      Socks5 → ℤ → Errno → Option (SockAddr × ℕ) → Option (Socks5 × List Effect)
  unfolding drop_origin try_next resume_client connect_reply_from_errno
  origin_connect_write_handler s fd error bound =
      let s₀ = record s { request_reply = connect_reply_from_errno error } in
      if succeeded error
      then resume_client s₀ (set_interest fd (record { op_read = false; op_write = false }) ∷ [])
          bound
      else (let (s₁, e₁) = drop_origin s₀ fd in
          let (s₂, e₂, pending) = try_next s₁ in
          if pending then some (s₂, e₁ ++ e₂) else resume_client s₂ (e₁ ++ e₂) bound)

-- `origin_connect_close`, the close handler.
pub origin_connect_close : Socks5 → ℕ → Socks5
origin_connect_close s fd = record s {
  origin_registered = if is_fd s.origin_fd fd then false else s.origin_registered;
}
