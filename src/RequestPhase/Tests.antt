-- ===== src/RequestPhase/Tests.antt =====
-- An instance of the theorem on requests.
use socksv5_proxy.Base.{
  ℕ, ◌≡◌, refl, none, some, List, [], ◌∷◌, length-replicate, replicate, pos, if◌then◌else◌, arith,
}
use socksv5_proxy.AccessLog
use socksv5_proxy.Buffer
use socksv5_proxy.Buffer.{Buffer}
use socksv5_proxy.Buffer.Fifo.{Holds}
use socksv5_proxy.Request.{SockAddr, inet}
use socksv5_proxy.Request.Parse.{ipv4}
use socksv5_proxy.Resolver.{no_error, econnrefused, dns_no_memory, succeeded}
use socksv5_proxy.Selector.{selector_success}
use socksv5_proxy.Socks5.{
  Socks5, socks5_init, connect_to, close_fd, state_connecting, state_request_write, state_relay,
  state_done,
}
use socksv5_proxy.Connect.{
  Attempt, socket_opened, connect_reply_from_errno, is_einprogress, is_settled,
}
use socksv5_proxy.Connect.Verdict.{verdict, calls}
use socksv5_proxy.Connect.Literal.{sock_addr}
use socksv5_proxy.RequestPhase.{request_read_init, request_read, request_write}
use socksv5_proxy.RequestPhase.Outcome.{IsBound, request_decides}

-- Every address refuses the connection.
abbrev dial : ℕ → SockAddr → Attempt
dial n addr = record {
  socket = socket_opened 9;
  non_blocking = no_error;
  connect = econnrefused;
  registered = selector_success;
}

-- CONNECT to 10.0.0.1 on port 80.
abbrev arrived : Buffer
arrived = record {
  storage = 5 ∷ 1 ∷ 0 ∷ 1 ∷ 10 ∷ 0 ∷ 0 ∷ 1 ∷ 0 ∷ 80 ∷ [];
  limit = 10;
  read_pos = 0;
  write_pos = 10;
}

abbrev reply_room : Buffer
reply_room = record { storage = replicate 22 0; limit = 22; read_pos = 0; write_pos = 0 }

abbrev waiting : Socks5
waiting = record socks5_init { read_buffer = arrived; write_buffer = reply_room }

request_decides_example :
    let v = verdict (dial 0 (inet (10 ∷ 0 ∷ 0 ∷ 1 ∷ []) (0 ∷ 80 ∷ []))) in
    (t : Socks5) × (tail : List ℕ) × (request_read dial
        (request_read_init waiting)
        dns_no_memory
        none
      ≡ some (
        t,
        connect_to (pos 9) (inet (10 ∷ 0 ∷ 0 ∷ 1 ∷ []) (0 ∷ 80 ∷ [])) ∷ close_fd (pos 9) ∷ [],
        none,
        if is_einprogress v then state_connecting else state_request_write,
      ))
    × Holds t.read_buffer []
    × Holds t.write_buffer
        (if is_einprogress v then [] else 5 ∷ connect_reply_from_errno v ∷ 0 ∷ tail)
    × ((if is_einprogress v
          then state_connecting
          else (request_write
              (λ f a. none)
              AccessLog.init
              0
              (record t { write_buffer = reply_room })).3)
        ≡ (if is_einprogress v
            then state_connecting
            else if succeeded v
            then state_relay
            else state_done))
unfolding socks5_init sock_addr calls IsBound Buffer.can_read succeeded is_settled
request_decides_example =
    request_decides dial dns_no_memory none (λ f a. none) AccessLog.init 0 waiting
      (ipv4 (10 ∷ 0 ∷ 0 ∷ 1 ∷ [])) 0 80 [] (inet (10 ∷ 0 ∷ 0 ∷ 1 ∷ []) (0 ∷ 80 ∷ [])) reply_room
      (record { valid = omega arith; held = refl }) refl refl (length-replicate {A = ℕ} 256 0) refl
      (record { valid = omega arith; held = refl }) (omega arith) tt refl
