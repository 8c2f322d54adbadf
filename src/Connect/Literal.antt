-- ===== src/Connect/Literal.antt =====
-- A request for an address, without a resolution.
use socksv5_proxy.Base.{
  ℕ, ◌≡◌, refl, ◌∙◌, Bool-cases, inl, inr, Option, none, some, List, [], ◌∷◌, length, take,
  if◌then◌else◌, pos,
}
use socksv5_proxy.Request.{SockAddr, inet, inet6}
use socksv5_proxy.Request.Parse.{Destination, ipv4, ipv6, domain_name, host, atyp_of, IsWellFormed}
use socksv5_proxy.Resolver.{Errno, succeeded, DnsStart}
use socksv5_proxy.Selector.{is_success, SelectorStatus}
use socksv5_proxy.Socks5.{Socks5, Effect, close_fd}
use socksv5_proxy.Connect.{
  Attempt, SocketResult, socket_opened, socket_failed, enter_origin, dial_on,
  register_origin_connect, is_einprogress, start_ipv4_connect, start_ipv6_connect,
  connect_to_origin, without_job,
}

-- The address of a destination that is not a name.
unfoldable pub sock_addr : Destination → List ℕ → Option SockAddr
sock_addr (ipv4 a) port = some (inet a port)
sock_addr (ipv6 a) port = some (inet6 a port)
sock_addr (domain_name a) port = none

-- An address is dialled as it stands in the request, with its port.
pub connect_to_origin_literal :
    (dial : ℕ → SockAddr → Attempt) (start : DnsStart) (s : Socks5) (d : Destination)
    (port : List ℕ) (addr : SockAddr)
    → sock_addr d port ≡ some addr
    → IsWellFormed d
    → s.request.atyp ≡ atyp_of d
    → s.request.address_len ≡ length (host d)
    → take s.request.address_len s.request.address ≡ host d
    → s.request.port ≡ port
    → connect_to_origin dial s start ≡ without_job (register_origin_connect s addr (dial 0 addr))
unfolding connect_to_origin start_ipv4_connect start_ipv6_connect sock_addr
connect_to_origin_literal dial start s (ipv4 a) port addr e w t l h p =
    let four : take 4 s.request.address ≡ a = rw (l ∙ w) at h in
    let same : inet a port ≡ addr = cc e in rw (t, four, p, same) refl
connect_to_origin_literal dial start s (ipv6 a) port addr e w t l h p =
    let sixteen : take 16 s.request.address ≡ a = rw (l ∙ w) at h in
    let same : inet6 a port ≡ addr = cc e in rw (t, sixteen, p, same) refl
connect_to_origin_literal dial start s (domain_name a) port addr e w t l h p = absurd (cc e)

-- The buffers stay as they are.
abbrev KeepsBuffers : Socks5 → Socks5 × List Effect × Errno → Type 0
KeepsBuffers s (s', effects, status) =
    (s'.read_buffer ≡ s.read_buffer) × (s'.write_buffer ≡ s.write_buffer)

dial_on-KeepsBuffers :
    (s : Socks5) (addr : SockAddr) (fd : ℕ) (error : Errno) (st : SelectorStatus)
    → KeepsBuffers s (dial_on s addr fd error st)
unfolding dial_on enter_origin
dial_on-KeepsBuffers s addr fd error st = elim (Bool-cases (succeeded error)) [
  | inl a ↦ elim (Bool-cases (is_success st)) [
    | inl b ↦ rw (a, b) (refl, refl)
    | inr b ↦ rw (a, b) (refl, refl)
  ]
  | inr a ↦ elim (Bool-cases (is_einprogress error)) [
    | inl b ↦ elim (Bool-cases (is_success st)) [
      | inl c ↦ rw (a, b, c) (refl, refl)
      | inr c ↦ rw (a, b, c) (refl, refl)
    ]
    | inr b ↦ rw (a, b) (refl, refl)
  ]
]

pub register-KeepsBuffers :
    (s : Socks5) (addr : SockAddr) (a : Attempt) → KeepsBuffers s (register_origin_connect s addr a)
unfolding register_origin_connect
register-KeepsBuffers s addr a = go a.socket
  where
    go :
        (o : SocketResult)
        → KeepsBuffers s (elim o [
          | socket_failed error ↦ (s, [], error)
          | socket_opened fd ↦
              if succeeded a.non_blocking
              then dial_on s addr fd a.connect a.registered
              else (s, close_fd (pos fd) ∷ [], a.non_blocking)
        ])
    go (socket_failed error) = (refl, refl)
    go (socket_opened fd) = elim (Bool-cases (succeeded a.non_blocking)) [
      | inl b ↦ rw b (dial_on-KeepsBuffers s addr fd a.connect a.registered)
      | inr b ↦ rw b (refl, refl)
    ]
