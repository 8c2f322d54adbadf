-- ===== src/Connect/Tests.antt =====
-- Instances of the theorems on the addresses.
use socksv5_proxy.Base.{
  ℕ, ◌≡◌, ◌==◌, refl, true, false, some, List, [], ◌∷◌, ◌++◌, if◌then◌else◌, pos,
}
use socksv5_proxy.Request.{SockAddr, inet}
use socksv5_proxy.Resolver.{no_error, enetunreach, ehostunreach, einprogress, succeeded}
use socksv5_proxy.Selector.{selector_success}
use socksv5_proxy.Socks5.{Socks5, socks5_init, Effect, connect_to, register_fd}
use socksv5_proxy.Connect.{
  Attempt, socket_opened, start_resolved_connect, is_einprogress, is_settled, is_zero,
}
use socksv5_proxy.Connect.Verdict.{verdict}
use socksv5_proxy.Connect.Addresses.{
  reached, refused, no_more, one_more, last_verdict, start_resolved_connect_reaches,
  start_resolved_connect_refused,
}

abbrev at : ℕ → SockAddr
at n = inet (10 ∷ 0 ∷ 0 ∷ n ∷ []) (0 ∷ 80 ∷ [])

abbrev refusing : ℕ → Attempt
refusing fd = record {
  socket = socket_opened fd;
  non_blocking = no_error;
  connect = enetunreach;
  registered = selector_success;
}

abbrev pending : ℕ → Attempt
pending fd = record {
  socket = socket_opened fd;
  non_blocking = no_error;
  connect = einprogress;
  registered = selector_success;
}

-- The address before the last is connected to.
abbrev dial : ℕ → SockAddr → Attempt
dial n addr = if n == 1 then pending 9 else refusing 8

abbrev resolved : Socks5
resolved = record socks5_init {
  dns_result = some [];
  dns_next =
      record { is_stream = true; addr = at 1 }
      ∷ record { is_stream = true; addr = at 2 }
      ∷ record { is_stream = true; addr = at 3 }
      ∷ [];
}

start_resolved_connect_reaches_example :
    (s' : Socks5) × (before : List Effect) × (start_resolved_connect dial resolved ≡ (
      s',
      before
          ++ connect_to (pos 9) (at 2)
            ∷ register_fd (pos 9) (record { op_read = false; op_write = true })
            ∷ [],
      einprogress,
    ))
    × (s'.dns_next ≡ record { is_stream = true; addr = at 3 } ∷ [])
    × (s'.origin_fd ≡ pos 9)
    × (s'.origin_registered ≡ true)
unfolding socks5_init is_zero is_settled verdict succeeded is_einprogress
start_resolved_connect_reaches_example =
    start_resolved_connect_reaches {dial = dial} resolved refl refl
      (refused refl refl (reached refl refl refl refl refl refl))

start_resolved_connect_refused_example :
    let r = start_resolved_connect (λ n addr. refusing 8) resolved in
    (r.2 ≡ last_verdict (λ n addr. refusing 8) resolved.dns_next ehostunreach)
    × (r.0.dns_next ≡ [])
    × (r.0.origin_registered ≡ false)
unfolding socks5_init is_zero is_settled verdict succeeded is_einprogress
start_resolved_connect_refused_example =
    start_resolved_connect_refused {dial = λ n addr. refusing 8} resolved refl refl
      (one_more refl (one_more refl (one_more refl no_more)))
