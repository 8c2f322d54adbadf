-- ===== src/Pool.antt =====
-- server/socks5nio.c: the pool of the connections of the server. A pointer to the state of a
-- connection is a number, and the list that `pool_next` links is a list of them; `none` stands for
-- a call of abort(3) and for a use of a state that has been freed.
pub mod Shutdown
mod Tests
use socksv5_proxy.Base.{
  ℕ, zero, suc, ◌+◌, ◌-◌, ◌%◌, ◌^◌, Bool, true, false, not, ◌&&◌, Option, none, some, ◌>>=◌, ◌==◌,
  if◌then◌else◌, List, [], ◌∷◌, ◌++◌, ℤ, pos, negsuc,
}
use socksv5_proxy.Lifecycle.{
  frees, socks5_connection_close, socks5_set_client_fd, socks5_release, socks5_cancel,
}
use socksv5_proxy.Metrics
use socksv5_proxy.Metrics.{Metrics}
use socksv5_proxy.Selector.{SelectorStatus, is_success, op_noop}
use socksv5_proxy.Socks5.{
  Socks5, socks5_init, Socks5Action, action_none, action_noop, action_read, action_write,
  action_close, Interest, Effect, set_interest, close_fd, register_fd, is_negative,
}

-- `socksv5_pool`, `socksv5_pool_size` and the metrics; `size` is a size_t.
pub record Pool : Type 0 where
  pub members : List ℕ
  pub size : ℕ
  pub metrics : Metrics

-- The state that is added is in no list yet.
pub pool_add : Pool → ℕ → Pool
pool_add p state = record {
  members = state ∷ p.members;
  size = (p.size + 1) % 2 ^ 64;
  metrics = Metrics.connection_opened p.metrics;
}

-- The loop of `socksv5_pool_remove`: the list without the state, and whether it was there.
pub unlink : List ℕ → ℕ → List ℕ × Bool
unlink [] state = ([], false)
unlink (m ∷ ms) state =
    let (rest, found) = unlink ms state in if m == state then (ms, true) else (m ∷ rest, found)

pub pool_remove : Pool → ℕ → Pool
unfolding unlink
pool_remove p state =
    let (rest, found) = unlink p.members state in
    if found
    then record {
      members = rest;
      size = (p.size + 2 ^ 64 - 1) % 2 ^ 64;
      metrics = Metrics.connection_closed p.metrics;
    }
    else p

pub active_connections : Pool → ℕ
active_connections p = p.size

-- The pool and what the pointers point to.
pub record Connections : Type 0 where
  pub pool : Pool
  pub state_of : ℕ → Socks5

abbrev pub put : (ℕ → Socks5) → ℕ → Socks5 → ℕ → Socks5
put f state s j = if j == state then s else f j

-- Whether the client is unregistered when the connection is closed.
abbrev pub unregisters : Socks5 → Bool
unregisters s = not s.closing && s.client_registered && not (is_negative s.client_fd)

-- `socks5_connection_close`, with the close handler `socksv5_close` that the unregistering of the
-- client calls: it takes the connection out of the pool and closes it again, which does nothing.
-- The result also says whether the state was freed.
pub close_connection : Connections → ℕ → Option (Connections × List Effect)
close_connection c state =
    let s = c.state_of state in
    socks5_connection_close s >>= λ (s', effects). some (
      record {
        pool = if unregisters s then pool_remove c.pool state else c.pool;
        state_of = put c.state_of state s';
      },
      effects,
    )

-- What accept(2) answers.
pub data AcceptResult : Type 0 where
  accept_failed : AcceptResult
  accepted : ℕ → AcceptResult

-- `state` is what malloc(3) returns, if it has `memory`; `non_blocking` says whether
-- `selector_fd_set_nio` succeeds, and `registered` is what `selector_register` answers.
pub socksv5_passive_accept :
    Connections
    → AcceptResult
    → Bool
    → Bool
    → ℕ
    → SelectorStatus
    → Option (Connections × List Effect)
unfolding pool_add
socksv5_passive_accept c accept_failed non_blocking memory state registered = some (c, [])
socksv5_passive_accept c (accepted client) non_blocking memory state registered =
    let s = socks5_set_client_fd socks5_init (pos client) in
    let asked : Effect = register_fd (pos client) (record { op_read = true; op_write = false }) in
    if not (non_blocking && memory)
    then some (c, close_fd (pos client) ∷ [])
    else if is_success registered
    then some (
      record {
        pool = pool_add c.pool state;
        state_of = put c.state_of state (record s { client_registered = true });
      },
      asked ∷ [],
    )
    else (socks5_release s >>= λ (s', e). some (c, asked ∷ e ++ close_fd (pos client) ∷ []))

-- The next thing to wait for, for the client `fd`.
pub socksv5_apply_action : Connections → ℕ → ℤ → Socks5Action → Option (Connections × List Effect)
unfolding close_connection
socksv5_apply_action c state fd action = elim action [
  | action_none ↦ some (c, [])
  | action_noop ↦ some (c, set_interest fd op_noop ∷ [])
  | action_read ↦ some (c, set_interest fd (record { op_read = true; op_write = false }) ∷ [])
  | action_write ↦ some (c, set_interest fd (record { op_read = false; op_write = true }) ∷ [])
  | action_close ↦ close_connection c state
]

-- `socksv5_pool == state`
pub is_first : List ℕ → ℕ → Bool
is_first [] state = false
is_first (m ∷ ms) state = m == state

-- The loop of `socksv5_pool_force_shutdown`, on fuel.
pub force_shutdown : ℕ → Connections → Option (Connections × List Effect)
unfolding close_connection pool_remove is_first
force_shutdown zero c = none
force_shutdown (suc fuel) c = elim c.pool.members [
  | [] ↦ some (c, [])
  | state ∷ _ ↦
      (close_connection
          (record c { state_of = put c.state_of state (socks5_cancel (c.state_of state)) }) state
        >>= λ (c₁, effects).
            if is_first c₁.pool.members state
            then (if frees effects
                then none
                else (force_shutdown fuel (record c₁ { pool = pool_remove c₁.pool state })
                    >>= λ (c₂, e). some (c₂, effects ++ e)))
            else (force_shutdown fuel c₁ >>= λ (c₂, e). some (c₂, effects ++ e)))
]
