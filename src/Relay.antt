-- ===== src/Relay.antt =====
-- The relay of server/socks5.c and server/connect.c: bytes between the client and the origin.
mod Tests
pub mod Flow
pub mod Tunnel
pub mod Step
pub mod Transparent
pub mod Session
use socksv5_proxy.Base.{
  ℕ, ◌-◌, Bool, true, false, not, Option, none, some, ◌>>=◌, ◌&&◌, ◌||◌, ltb, ◌==◌, if◌then◌else◌,
  List, [], ◌∷◌, ◌++◌, take, drop, copy_to, length, ℤ, pos, negsuc,
}
use socksv5_proxy.Buffer
use socksv5_proxy.Buffer.{Buffer}
use socksv5_proxy.Socks5.{
  Socks5, Socks5Action, action_none, action_close, Interest, Effect, shutdown_write, set_interest,
  from_client, from_origin, to_client, to_origin, is_negative, ReadResult, got, read_eof,
  read_would_block, read_failed, WriteResult, took, write_would_block, write_failed,
}

-- `*shutdown_done` afterwards, and the call of shutdown(2) where it is made.
pub relay_shutdown_write_side : ℤ → Bool → Bool × List Effect
relay_shutdown_write_side fd shutdown_done =
    if shutdown_done || is_negative fd then (shutdown_done, []) else (true, shutdown_write fd ∷ [])

-- Half-closes what is drained, and says whether the tunnel is over.
pub relay_should_close : Socks5 → Socks5 × List Effect × Bool
relay_should_close s =
    let client_to_origin_drained = not (Buffer.can_read s.read_buffer) in
    let origin_to_client_drained = not (Buffer.can_read s.write_buffer) in
    let (origin_shut, e₁) =
      if s.client_eof && client_to_origin_drained
      then relay_shutdown_write_side s.origin_fd s.origin_write_shutdown
      else (s.origin_write_shutdown, []) in
    let (client_shut, e₂) =
      if s.origin_eof && origin_to_client_drained
      then relay_shutdown_write_side s.client_fd s.client_write_shutdown
      else (s.client_write_shutdown, []) in
    (
      record s { origin_write_shutdown = origin_shut; client_write_shutdown = client_shut },
      e₁ ++ e₂,
      s.client_eof && s.origin_eof && client_to_origin_drained && origin_to_client_drained,
    )

client_interest : Socks5 → Interest
client_interest s = record {
  op_read = not s.client_eof && Buffer.can_write s.read_buffer;
  op_write = Buffer.can_read s.write_buffer;
}

origin_interest : Socks5 → Interest
origin_interest s = record {
  op_read = not s.origin_eof && Buffer.can_write s.write_buffer;
  op_write = Buffer.can_read s.read_buffer;
}

pub relay_update_interests : Socks5 → List Effect
relay_update_interests s =
    set_interest s.client_fd (client_interest s) ∷ set_interest s.origin_fd (origin_interest s) ∷ []

-- The buffer after the call, the bytes that write(2) took (`metrics_add_bytes` gets their number), and whether there was no fatal error.
-- `none` where a buffer operation fails its assertion.
pub relay_flush : ℤ → Buffer → WriteResult → Option (Buffer × List ℕ × Bool)
relay_flush fd buf result =
    if is_negative fd || not (Buffer.can_read buf)
    then some (buf, [], true)
    else (Buffer.read_ptr buf >>= λ (ptr, count). elim result [
      | took n ↦
          if ltb 0 n
          then (Buffer.read_adv buf (pos n) >>= λ buf'.
              some (buf', take n (drop ptr buf.storage), true))
          else some (buf, [], true)
      | write_would_block ↦ some (buf, [], true)
      | write_failed ↦ some (buf, [], false)
    ])

-- The end of every relay handler: close when the tunnel is over, else recompute the interests.
pub settle : Socks5 → List Effect → Socks5 × List Effect × Socks5Action
settle s effects =
    let (s', e, over) = relay_should_close s in
    if over
    then (s', effects ++ e, action_close)
    else (s', effects ++ e ++ relay_update_interests s', action_none)

-- Bytes that read(2) stores at the write pointer, and `buffer_write_adv`.
pub fill : Buffer → List ℕ → Option Buffer
fill b bytes = Buffer.write_ptr b >>= λ (ptr, count).
    Buffer.write_adv (record b { storage = copy_to b.storage ptr bytes }) (pos (length bytes))

-- `socks5_relay_client_read`: `r` is what read(2) on the client returns, `w` what write(2) on the
-- origin returns if it is called.
pub relay_client_read :
    Socks5 → ReadResult → WriteResult → Option (Socks5 × List Effect × Socks5Action)
relay_client_read s (got c cs) w = do
  b ← fill s.read_buffer (c ∷ cs)
  (b', out, alive) ← relay_flush s.origin_fd b w
  let s' = record s { read_buffer = b' }
  some (
      if alive
      then settle s' (from_client (c ∷ cs) ∷ to_origin out ∷ [])
      else (s', from_client (c ∷ cs) ∷ to_origin out ∷ [], action_close))
relay_client_read s read_eof w =
    Buffer.write_ptr s.read_buffer >>= λ _. some (settle (record s { client_eof = true }) [])
relay_client_read s read_would_block w = Buffer.write_ptr s.read_buffer >>= λ _. some (settle s [])
relay_client_read s read_failed w =
    Buffer.write_ptr s.read_buffer >>= λ _. some (s, [], action_close)

-- `socks5_relay_client_write`.
pub relay_client_write : Socks5 → WriteResult → Option (Socks5 × List Effect × Socks5Action)
relay_client_write s w = do
  (b, out, alive) ← relay_flush s.client_fd s.write_buffer w
  let s' = record s { write_buffer = b }
  some (if alive then settle s' (to_client out ∷ []) else (s', to_client out ∷ [], action_close))

-- `origin_read` of connect.c; `action_close` stands for its calls of `socks5_connection_close`.
pub origin_read : Socks5 → ReadResult → WriteResult → Option (Socks5 × List Effect × Socks5Action)
origin_read s (got c cs) w = do
  b ← fill s.write_buffer (c ∷ cs)
  (b', out, alive) ← relay_flush s.client_fd b w
  let s' = record s { write_buffer = b' }
  some (
      if alive
      then settle s' (from_origin (c ∷ cs) ∷ to_client out ∷ [])
      else (s', from_origin (c ∷ cs) ∷ to_client out ∷ [], action_close))
origin_read s read_eof w =
    Buffer.write_ptr s.write_buffer >>= λ _. some (settle (record s { origin_eof = true }) [])
origin_read s read_would_block w = Buffer.write_ptr s.write_buffer >>= λ _. some (settle s [])
origin_read s read_failed w = Buffer.write_ptr s.write_buffer >>= λ _. some (s, [], action_close)

-- `origin_write` of connect.c once the relay has started.
pub origin_write : Socks5 → WriteResult → Option (Socks5 × List Effect × Socks5Action)
origin_write s w = do
  (b, out, alive) ← relay_flush s.origin_fd s.read_buffer w
  let s' = record s { read_buffer = b }
  some (if alive then settle s' (to_origin out ∷ []) else (s', to_origin out ∷ [], action_close))

-- `start_relay`, whose result is always SOCKS5_STATE_RELAY.
pub start_relay : Socks5 → Socks5 × List Effect
start_relay s =
    let s' = record s {
      relay_started = true;
      client_eof = false;
      origin_eof = false;
      client_write_shutdown = false;
      origin_write_shutdown = false;
      read_buffer = Buffer.reset s.read_buffer;
      write_buffer = Buffer.reset s.write_buffer;
    } in
    (s', relay_update_interests s')
