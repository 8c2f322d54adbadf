-- ===== src/Handshake/Tests.antt =====
-- Instances of the theorem on the credentials.
use socksv5_proxy.Base.{
  ℕ, ◌≡◌, refl, some, List, [], ◌∷◌, arith, false, length-replicate, if◌then◌else◌,
}
use socksv5_proxy.Buffer
use socksv5_proxy.Buffer.{Buffer}
use socksv5_proxy.Buffer.Fifo.{Holds}
use socksv5_proxy.UserTable
use socksv5_proxy.Socks5.{Socks5, socks5_init, state_auth_write, state_request_read, state_error}
use socksv5_proxy.Handshake.{auth_read_init, auth_read, auth_write}
use socksv5_proxy.Handshake.Gate.{credentials_decide}

abbrev bob : List ℕ
bob = 98 ∷ 111 ∷ 98 ∷ []

abbrev pw : List ℕ
pw = 112 ∷ 119 ∷ []

-- "bob" and "pw", and one byte of the request.
abbrev arrived : Buffer
arrived = record {
  storage = 1 ∷ 3 ∷ 98 ∷ 111 ∷ 98 ∷ 2 ∷ 112 ∷ 119 ∷ 5 ∷ [];
  limit = 9;
  read_pos = 0;
  write_pos = 9;
}

abbrev reply_room : Buffer
reply_room = record { storage = 0 ∷ 0 ∷ 0 ∷ []; limit = 3; read_pos = 0; write_pos = 0 }

abbrev waiting : Socks5
waiting = record socks5_init { read_buffer = arrived; write_buffer = reply_room }

credentials_decide_example :
    let known = UserTable.lookup UserTable.init (some bob) (some pw) in
    (t : Socks5) × (auth_read UserTable.init (auth_read_init waiting) ≡ some (t, state_auth_write))
    × Holds t.read_buffer (5 ∷ [])
    × Holds t.write_buffer (1 ∷ (if known then 0 else 1) ∷ [])
    × ((sent : Buffer)
        → Buffer.can_read sent ≡ false
        → auth_write (record t { write_buffer = sent })
          ≡ (if known then state_request_read else state_error))
unfolding socks5_init
credentials_decide_example =
    credentials_decide UserTable.init waiting bob pw (5 ∷ [])
      (record { valid = omega arith; held = refl }) (omega arith) (omega arith)
      (length-replicate {A = ℕ} 256 0) (length-replicate {A = ℕ} 256 0)
      (record { valid = omega arith; held = refl }) (omega arith)
