-- ===== src/Metrics.antt =====
-- server/metrics.c: three uint64_t counters.
use socksv5_proxy.Base.{ℕ, ◌+◌, ◌-◌, ◌%◌, ◌^◌, ltb, if◌then◌else◌}

pub record Metrics : Type 0 where
  pub historic_connections : ℕ
  pub current_connections : ℕ
  pub bytes_transferred : ℕ

pub init : Metrics
init = record { historic_connections = 0; current_connections = 0; bytes_transferred = 0 }

unfoldable pub connection_opened : Metrics → Metrics
connection_opened m = record m {
  historic_connections = (m.historic_connections + 1) % 2 ^ 64;
  current_connections = (m.current_connections + 1) % 2 ^ 64;
}

unfoldable pub connection_closed : Metrics → Metrics
connection_closed m =
    if ltb 0 m.current_connections
    then record m { current_connections = m.current_connections - 1 }
    else m

unfoldable pub add_bytes : Metrics → ℕ → Metrics
add_bytes m n = record m { bytes_transferred = (m.bytes_transferred + n) % 2 ^ 64 }
