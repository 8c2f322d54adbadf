-- ===== src/Handshake/Gate.antt =====
-- Only the right password opens the way to the request.
use socksv5_proxy.Base.{
  ℕ, ◌-◌, ◌≤◌, ◌<◌, ◌≡◌, refl, Bool, true, false, some, List, [], ◌∷◌, ◌++◌, length, if◌then◌else◌,
  ◌==◌,
}
use socksv5_proxy.Buffer
use socksv5_proxy.Buffer.{Buffer}
use socksv5_proxy.Buffer.Fifo.{Holds}
use socksv5_proxy.Auth
use socksv5_proxy.Auth.{auth_done}
use socksv5_proxy.Auth.Parse.{message_parsed}
use socksv5_proxy.Auth.Reply.{marshall-Holds}
use socksv5_proxy.UserTable
use socksv5_proxy.UserTable.{UserTable}
use socksv5_proxy.UserTable.Lookup.{lookup-congr}
use socksv5_proxy.Socks5.{Socks5, state_auth_write, state_request_read, state_error}
use socksv5_proxy.Handshake.{refused, auth_read_init, auth_read, auth_write}

next_state :
    (known : Bool)
    → (if (if known then 0 else 1) == 0 then state_request_read else state_error)
      ≡ (if known then state_request_read else state_error)
next_state true = refl
next_state false = refl

-- When the whole message with a name and a password has arrived and the write buffer has room,
-- `auth_read` takes it, and nothing behind it, and replies with the version and with 0 if the
-- table of users has that password for that name, else with 1; once the reply has been sent,
-- `auth_write` goes on to the request in the first case and to the error state in the second.
pub credentials_decide :
    (users : UserTable) (s : Socks5) (user pass rest : List ℕ)
    → Holds s.read_buffer (1 ∷ length user ∷ user ++ length pass ∷ pass ++ rest)
    → length user < 256
    → length pass < 256
    → length s.auth.uname ≡ 256
    → length s.auth.passwd ≡ 256
    → Holds s.write_buffer []
    → 2 ≤ s.write_buffer.limit - s.write_buffer.write_pos
    → let known = UserTable.lookup users (some user) (some pass) in
      (t : Socks5) × (auth_read users (auth_read_init s) ≡ some (t, state_auth_write))
      × Holds t.read_buffer rest
      × Holds t.write_buffer (1 ∷ (if known then 0 else 1) ∷ [])
      × ((sent : Buffer)
          → Buffer.can_read sent ≡ false
          → auth_write (record t { write_buffer = sent })
            ≡ (if known then state_request_read else state_error))
unfolding auth_read auth_read_init auth_write refused Auth.is_done
credentials_decide users s user pass rest h lu lp ru rp w room =
    let (b, p, e, k, eu, ep) = message_parsed s.auth user pass rest false h lu lp ru rp in
    let same = lookup-congr users p.uname p.passwd user pass eu ep in
    let known = UserTable.lookup users (some user) (some pass) in
    let (b', e', k') = marshall-Holds (if known then 0 else 1) w room in
    (
      record s {
        read_buffer = b;
        auth = p;
        auth_status = if known then 0 else 1;
        write_buffer = b';
      },
      rw (e, same, e') refl,
      k,
      k',
      λ sent empty. rw empty (next_state known),
    )
