-- ===== src/Resolver.antt =====
-- server/dns_resolver.c: the thread around getaddrinfo(3), as the step before it starts and the
-- step once the answer is there. The mutex makes each of the two one step.
use socksv5_proxy.Base.{
  ℕ, zero, suc, ◌+◌, ◌*◌, ◌/◌, ◌%◌, Bool, true, false, Option, none, some, ◌>>=◌, ltb,
  if◌then◌else◌, List, [], ◌∷◌, ◌++◌, take, get_or, ℤ, pos,
}
use socksv5_proxy.Lifecycle.{socks5_ref, socks5_release}
use socksv5_proxy.Selector.{SelectorStatus, is_success}
use socksv5_proxy.Socks5.{Socks5, AddrInfo, Effect}

-- The values of errno that the program tells apart; `no_error` is 0.
pub data Errno : Type 0 where
  no_error enetunreach ehostunreach econnrefused einprogress eafnosupport enomem : Errno
  other_error : ℕ → Errno

-- == 0
unfoldable pub succeeded : Errno → Bool
succeeded no_error = true
succeeded _ = false

-- The digits that %u prints, at most `fuel` of them.
pub digits : ℕ → ℕ → List ℕ
digits zero n = []
digits (suc fuel) n =
    let rest = digits fuel (n / 10) in
    if ltb n 10 then (n + 48) ∷ [] else rest ++ (n % 10 + 48) ∷ []

-- A port has at most five digits.
pub port_to_service : Socks5 → List ℕ
unfolding digits
port_to_service s = digits 5 (get_or s.request.port 0 0 * 256 + get_or s.request.port 1 0) ++ 0 ∷ []

-- `struct dns_job` without the pointers.
pub record DnsJob : Type 0 where
  pub client_fd : ℤ
  pub host : List ℕ
  pub service : List ℕ

-- What malloc(3) and pthread_create(3) answer.
pub data DnsStart : Type 0 where
  dns_no_memory : DnsStart
  dns_thread : Errno → DnsStart

-- The state, the job of the thread if one runs, and the result.
pub dns_resolve_start : Socks5 → DnsStart → Option (Socks5 × Option DnsJob × Errno)
unfolding port_to_service succeeded
dns_resolve_start s dns_no_memory = some (s, none, enomem)
dns_resolve_start s (dns_thread status) =
    let job : DnsJob = record {
      client_fd = s.client_fd;
      host = take s.request.address_len s.request.address ++ 0 ∷ [];
      service = port_to_service s;
    } in
    let s₁ = record s { dns_pending = true; dns_error = pos 0; dns_result = none; dns_next = [] } in
    let s₂ = socks5_ref s₁ in
    if succeeded status
    then some (s₂, some job, einprogress)
    else (socks5_release s₂ >>= λ (s₃, _). some (record s₃ { dns_pending = false }, none, status))

-- The list of a result, for `dns_next`.
abbrev pub entries : Option (List AddrInfo) → List AddrInfo
entries none = []
entries (some ais) = ais

-- The end of `dns_worker`, with what getaddrinfo(3) returned and what the selector answers: the
-- state, the list that is freed, and the effects of the release, if there is one here.
pub dns_worker :
    Socks5
    → ℤ
    → Option (List AddrInfo)
    → SelectorStatus
    → Option (Socks5 × Option (List AddrInfo) × List Effect)
dns_worker s error result notified =
    let s₁ = record s { dns_pending = false } in
    let s₂ = record s₁ { dns_error = error; dns_result = result; dns_next = entries result } in
    if s.cancelled
    then (socks5_release s₁ >>= λ (s', e). some (s', result, e))
    else if is_success notified
    then some (s₂, none, [])
    else (socks5_release s₂ >>= λ (s', e). some (s', none, e))
