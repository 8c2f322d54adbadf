-- ===== src/Lifecycle/Tests.antt =====
-- An instance of the theorem on the end of a connection.
use socksv5_proxy.Base.{◌≡◌, refl, true, false, none, some, List, [], ◌++◌, pos, arith}
use socksv5_proxy.Socks5.{Socks5, Effect, socks5_init, is_negative}
use socksv5_proxy.Lifecycle.{frees, socks5_connection_close}
use socksv5_proxy.Lifecycle.Close.{closed, opened, closes_once}

-- A connection whose client was accepted and that has no origin yet.
abbrev accepted : Socks5
accepted = record socks5_init { client_fd = pos 7; client_registered = true }

-- A thread that resolves a name holds it too.
abbrev resolving : Socks5
resolving = record accepted { references = 2 }

closes_once_example :
    (t : Socks5) × (effs : List Effect) × (socks5_connection_close resolving ≡ some (t, effs))
    × (closed effs ≡ opened resolving.client_fd ++ opened resolving.origin_fd)
    × (is_negative t.client_fd ≡ true)
    × (is_negative t.origin_fd ≡ true)
    × (t.references ≡ 1)
    × (frees effs ≡ false)
    × (socks5_connection_close t ≡ some (t, []))
unfolding socks5_init
closes_once_example = closes_once resolving 1 refl refl (omega arith)

freed_twice : socks5_connection_close (record accepted { references = 0 }) ≡ none
unfolding socks5_init socks5_connection_close
freed_twice = refl
