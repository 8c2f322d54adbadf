-- ===== src/Lifecycle.antt =====
-- server/socks5.c: the references of a connection, and its end. The mutex around the flag
-- `cancelled` and the close handlers that unregistering calls are left out.
pub mod Close
mod Tests
use socksv5_proxy.Base.{
  ℕ, ◌+◌, ◌-◌, ◌%◌, ◌^◌, ◌==◌, Bool, true, false, not, ◌&&◌, Option, none, some, ◌>>=◌,
  if◌then◌else◌, List, [], ◌∷◌, ◌++◌, ℤ, pos, negsuc,
}
use socksv5_proxy.Socks5.{Socks5, Effect, unregister_fd, close_fd, free_state, is_negative}

-- `references` is an unsigned int.
pub socks5_ref : Socks5 → Socks5
socks5_ref s = record s { references = (s.references + 1) % 2 ^ 32 }

-- `none` is a call of abort(3).
pub socks5_release : Socks5 → Option (Socks5 × List Effect)
socks5_release s =
    let s' = record s { references = (s.references + 2 ^ 32 - 1) % 2 ^ 32 } in
    if s.references == 1
    then some (s', free_state ∷ [])
    else if s.references == 0
    then none
    else some (s', [])

pub socks5_set_client_fd : Socks5 → ℤ → Socks5
socks5_set_client_fd s client_fd = record s { client_fd = client_fd }

unfoldable pub socks5_cancel : Socks5 → Socks5
socks5_cancel s = record s { cancelled = true }

-- Whether the effects free the state.
pub frees : List Effect → Bool
frees [] = false
frees (free_state ∷ es) = true
frees (e ∷ es) = frees es

client_unregister : Socks5 → Socks5 × List Effect
client_unregister s =
    if s.client_registered && not (is_negative s.client_fd)
    then (record s { client_registered = false }, unregister_fd s.client_fd ∷ [])
    else (s, [])

client_close : Socks5 → Socks5 × List Effect
unfolding client_unregister
client_close s =
    let (s', e) = client_unregister s in
    if is_negative s.client_fd
    then (s', e)
    else (record s' { client_fd = negsuc 0 }, e ++ (close_fd s.client_fd ∷ []))

origin_unregister : Socks5 → Socks5 × List Effect
origin_unregister s =
    if s.origin_registered && not (is_negative s.origin_fd)
    then (record s { origin_registered = false }, unregister_fd s.origin_fd ∷ [])
    else (s, [])

origin_close : Socks5 → Socks5 × List Effect
unfolding origin_unregister
origin_close s =
    let (s', e) = origin_unregister s in
    if is_negative s.origin_fd
    then (s', e)
    else (record s' { origin_fd = negsuc 0 }, e ++ (close_fd s.origin_fd ∷ []))

-- A state that no one holds has been freed: a call on it, which reads freed memory, is `none`.
pub socks5_connection_close : Socks5 → Option (Socks5 × List Effect)
unfolding client_close origin_close socks5_release socks5_cancel
socks5_connection_close s =
    let (s₁, e₁) = client_close (socks5_cancel (record s { closing = true })) in
    let (s₂, e₂) = origin_close s₁ in
    if s.references == 0
    then none
    else if s.closing
    then some (s, [])
    else (socks5_release s₂ >>= λ (s₃, e₃). some (s₃, e₁ ++ (e₂ ++ e₃)))
