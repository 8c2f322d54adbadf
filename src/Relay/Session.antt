-- ===== src/Relay/Session.antt =====
-- The relay of one connection from its start to its end.
use socksv5_proxy.Base.{◌≡◌, sym, ap, ◌∙◌, List, ◌++◌, append-nil}
use socksv5_proxy.Buffer
use socksv5_proxy.Buffer.Valid.{reset-IsValid}
use socksv5_proxy.Socks5.{Socks5, Effect}
use socksv5_proxy.Relay.{start_relay}
use socksv5_proxy.Relay.Tunnel.{client_in, origin_in, client_out, origin_out, carried}
use socksv5_proxy.Relay.Step.{IsOpen, IsOver}
use socksv5_proxy.Relay.Transparent.{Runs, relay_transparent}

start_relay-IsOpen : (s : Socks5) → IsOpen s → IsOpen (start_relay s).0
unfolding start_relay
start_relay-IsOpen s o = record {
  upward = reset-IsValid s.read_buffer o.upward;
  downward = reset-IsValid s.write_buffer o.downward;
}

-- A relay that `start_relay` starts and that runs until nothing is left has delivered everything:
-- what write(2) took at the origin is what read(2) brought from the client, byte for byte, and
-- the other way round.
pub session_complete :
    (s : Socks5) {t : Socks5} {effs : List Effect}
    → IsOpen s
    → Runs (start_relay s).0 effs t
    → IsOver t
    → (carried origin_out effs ≡ carried client_in effs)
      × (carried client_out effs ≡ carried origin_in effs)
unfolding start_relay Buffer.reset
session_complete s {t} {effs} o r over =
    let c = (relay_transparent r (start_relay-IsOpen s o)).1 in
    (
      sym (append-nil (carried origin_out effs))
          ∙ ap (λ q. carried origin_out effs ++ q) (sym over.upward)
          ∙ c.upward,
      sym (append-nil (carried client_out effs))
          ∙ ap (λ q. carried client_out effs ++ q) (sym over.downward)
          ∙ c.downward,
    )
