-- ===== src/Pool/Tests.antt =====
-- An instance of the theorem on the shutdown.
use socksv5_proxy.Base.{◌≡◌, refl, true, some, List, [], ◌∷◌, arith, pos}
use socksv5_proxy.Socks5.{Socks5, socks5_init, Effect}
use socksv5_proxy.Pool.{Connections, active_connections, force_shutdown}
use socksv5_proxy.Pool.Shutdown.{IsOpen, NotIn, AllOpen, force_shutdown_empties}

abbrev client : Socks5
client = record socks5_init { client_fd = pos 5; client_registered = true }

-- Two connections.
abbrev two : Connections
two = record {
  pool = record {
    members = 1 ∷ 2 ∷ [];
    size = 2;
    metrics = record { historic_connections = 9; current_connections = 2; bytes_transferred = 0 };
  };
  state_of = λ k. client;
}

client-IsOpen : IsOpen client
unfolding socks5_init
client-IsOpen = record {
  not_closing = refl;
  registered = refl;
  has_client = refl;
  others = 0;
  owned = refl;
  small = omega arith;
}

two-AllOpen : AllOpen two.state_of two.pool.members
unfolding AllOpen NotIn
two-AllOpen = (client-IsOpen, (refl, tt), (client-IsOpen, tt, tt))

force_shutdown_empties_example :
    (c' : Connections) × (effects : List Effect) × (force_shutdown 3 two ≡ some (c', effects))
    × (c'.pool.members ≡ [])
    × (active_connections c'.pool ≡ 0)
    × (c'.pool.metrics.current_connections ≡ 0)
force_shutdown_empties_example =
    force_shutdown_empties two (record { sized = refl; measured = refl; small = omega arith })
      two-AllOpen
