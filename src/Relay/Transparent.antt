-- ===== src/Relay/Transparent.antt =====
-- The handlers of the relay in any order: what goes in at one side comes out at the other.
use socksv5_proxy.Base.{ℕ, ◌≡◌, refl, sym, ap, ◌∙◌, some, List, [], ◌++◌, append_assoc, append-nil}
use socksv5_proxy.Buffer.Fifo.{contents}
use socksv5_proxy.Socks5.{Socks5, Socks5Action, action_none, action_close, Effect}
use socksv5_proxy.Relay.Tunnel.{
  client_in, origin_in, client_out, origin_out, carried, carried-append,
}
use socksv5_proxy.Relay.Step.{Event, step, Fits, IsHealthy, IsOpen, Conserved, IsOver, step-Moved}

-- What the event loop makes of a tunnel: events in any order, up to one that closes it.
pub data Runs : Socks5 → List Effect → Socks5 → Type 0 where
  stop : {s : Socks5} → Runs s [] s
  next :
      {s t u : Socks5} {effs effs' : List Effect} (e : Event)
      → Fits s e
      → step s e ≡ some (t, effs, action_none)
      → Runs t effs' u
      → Runs s (effs ++ effs') u
  close :
      {s t : Socks5} {effs : List Effect} (e : Event)
      → Fits s e
      → step s e ≡ some (t, effs, action_close)
      → Runs s effs t

-- A known result has what `step-Moved` shows.
seen :
    {s : Socks5} (e : Event) {t : Socks5} {effs : List Effect} {a : Socks5Action}
    → IsOpen s
    → Fits s e
    → step s e ≡ some (t, effs, a)
    → IsOpen t × Conserved s effs t × (IsHealthy e → a ≡ action_close → IsOver t)
seen {s} e {t} {effs} {a} o f q =
    let m = step-Moved s e o f in
    let same_after : m.after ≡ t = cc (m.result, q) in
    let same_effects : m.effects ≡ effs = cc (m.result, q) in
    let same_action : m.action ≡ a = cc (m.result, q) in
    rw (sym same_after, sym same_effects, sym same_action) (m.still, m.conserved, m.over)

joined :
    (sent sent' came came' left middle right : List ℕ)
    → sent ++ middle ≡ left ++ came
    → sent' ++ right ≡ middle ++ came'
    → (sent ++ sent') ++ right ≡ left ++ (came ++ came')
joined sent sent' came came' left middle right e f =
    append_assoc sent sent' right
    ∙ ap (λ t. sent ++ t) f
    ∙ sym (append_assoc sent middle came')
    ∙ ap (λ t. t ++ came') e
    ∙ append_assoc left came came'

chained :
    {s t u : Socks5} {effs effs' : List Effect}
    → Conserved s effs t
    → Conserved t effs' u
    → Conserved s (effs ++ effs') u
chained {s} {t} {u} {effs} {effs'} x y = record {
  upward =
      rw (carried-append origin_out effs effs', carried-append client_in effs effs')
        (joined (carried origin_out effs) (carried origin_out effs') (carried client_in effs)
          (carried client_in effs') (contents s.read_buffer) (contents t.read_buffer)
          (contents u.read_buffer) x.upward y.upward);
  downward =
      rw (carried-append client_out effs effs', carried-append origin_in effs effs')
        (joined (carried client_out effs) (carried client_out effs') (carried origin_in effs)
          (carried origin_in effs') (contents s.write_buffer) (contents t.write_buffer)
          (contents u.write_buffer) x.downward y.downward);
}

-- However the readiness events of the two sockets come, and whatever short reads and writes they
-- find, the relay is transparent: the bytes that write(2) took at one side, followed by those
-- still in the buffer, are the bytes that were in the buffer, followed by those that read(2)
-- brought from the other side, in order, none lost and none doubled; also when the last event
-- closes the tunnel. Each read brings at most what has room, and each write takes at most what
-- waits.
pub relay_transparent :
    {s t : Socks5} {effs : List Effect} → Runs s effs t → IsOpen s → IsOpen t × Conserved s effs t
relay_transparent {s} stop o = (
  o,
  record {
    upward = sym (append-nil (contents s.read_buffer));
    downward = sym (append-nil (contents s.write_buffer));
  },
)
relay_transparent (next e f q r) o =
    let (o', c, _) = seen e o f q in let (o'', c') = relay_transparent r o' in (o'', chained c c')
relay_transparent (close e f q) o = let (o', c, _) = seen e o f q in (o', c)

-- An event of the relay at which no read(2) and no write(2) fails for good closes the connection
-- only when both sides have sent an end of file and both buffers are empty, so that, with the
-- theorem on transparency, all that each side sent has been passed on.
pub closes_when_drained :
    {s t : Socks5} {effs : List Effect} (e : Event)
    → IsOpen s
    → Fits s e
    → IsHealthy e
    → step s e ≡ some (t, effs, action_close)
    → IsOver t
closes_when_drained e o f h q = let (_, _, over) = seen e o f q in over h refl
