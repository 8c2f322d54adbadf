-- ===== src/Relay/Step.antt =====
-- One event of the relay: what its handler does to the bytes that wait.
use socksv5_proxy.Base.{
  ℕ, ◌-◌, ◌≤◌, ◌≡◌, refl, sym, ap, ap₂, ◌∙◌, Bool, true, false, Option, some, List, [], ◌∷◌, ◌++◌,
  length, append-nil, if◌then◌else◌,
}
use socksv5_proxy.Buffer.Valid.{IsValid, write_ptr-eq}
use socksv5_proxy.Buffer.Fifo.{contents}
use socksv5_proxy.Socks5.{
  Socks5, Socks5Action, action_close, Effect, from_client, from_origin, to_client, to_origin,
  ReadResult, got, read_eof, read_would_block, read_failed, WriteResult,
}
use socksv5_proxy.Relay.{relay_client_read, relay_client_write, origin_read, origin_write, settle}
use socksv5_proxy.Relay.Flow.{Takes, Succeeds, flush-Flushed, fill-Holds}
use socksv5_proxy.Relay.Tunnel.{
  Channel, client_in, origin_in, client_out, origin_out, carried, carried-append, Settled,
  finish-Settled,
}

-- A readiness event, with what read(2) and write(2) return in its handler.
pub data Event : Type 0 where
  client_reads origin_reads : ReadResult → WriteResult → Event
  client_writes origin_writes : WriteResult → Event

abbrev pub step : Socks5 → Event → Option (Socks5 × List Effect × Socks5Action)
step s (client_reads r w) = relay_client_read s r w
step s (origin_reads r w) = origin_read s r w
step s (client_writes w) = relay_client_write s w
step s (origin_writes w) = origin_write s w

-- read(2) fills at most what was free behind the write pointer, write(2) takes at most what waits.
abbrev pub Fits : Socks5 → Event → Type 0
Fits s (client_reads (got c cs) w) =
    (length (c ∷ cs) ≤ s.read_buffer.limit - s.read_buffer.write_pos)
    × Takes w (length (contents s.read_buffer ++ (c ∷ cs)))
Fits s (origin_reads (got c cs) w) =
    (length (c ∷ cs) ≤ s.write_buffer.limit - s.write_buffer.write_pos)
    × Takes w (length (contents s.write_buffer ++ (c ∷ cs)))
Fits s (client_writes w) = Takes w (length (contents s.write_buffer))
Fits s (origin_writes w) = Takes w (length (contents s.read_buffer))
Fits s _ = Unit

-- No read(2) or write(2) fails for good.
abbrev pub IsHealthy : Event → Type 0
IsHealthy (client_reads read_failed w) = ⊥
IsHealthy (origin_reads read_failed w) = ⊥
IsHealthy (client_reads r w) = Succeeds w
IsHealthy (origin_reads r w) = Succeeds w
IsHealthy (client_writes w) = Succeeds w
IsHealthy (origin_writes w) = Succeeds w

-- Both buffers are valid.
pub record IsOpen (s : Socks5) : Type 0 where
  pub upward : IsValid s.read_buffer
  pub downward : IsValid s.write_buffer

-- Between two states nothing was lost, made up or put in another order.
pub record Conserved (s : Socks5) (effs : List Effect) (t : Socks5) : Type 0 where
  pub upward :
      carried origin_out effs ++ contents t.read_buffer
      ≡ contents s.read_buffer ++ carried client_in effs
  pub downward :
      carried client_out effs ++ contents t.write_buffer
      ≡ contents s.write_buffer ++ carried origin_in effs

-- Nothing is left for anybody.
pub record IsOver (t : Socks5) : Type 0 where
  pub upward : contents t.read_buffer ≡ []
  pub downward : contents t.write_buffer ≡ []
  pub client_ended : t.client_eof ≡ true
  pub origin_ended : t.origin_eof ≡ true

-- What one handler did.
pub record Moved (s : Socks5) (healthy : Type 0)
    (out : Option (Socks5 × List Effect × Socks5Action)) : Type 0 where
  pub after : Socks5
  pub effects : List Effect
  pub action : Socks5Action
  pub result : out ≡ some (after, effects, action)
  pub still : IsOpen after
  pub conserved : Conserved s effects after
  pub over : healthy → action ≡ action_close → IsOver after

moved :
    (s : Socks5) {healthy : Type 0} {alive : Bool} {effs : List Effect} {up down : List ℕ}
    {out : Socks5 × List Effect × Socks5Action}
    → Settled alive effs up down out
    → (healthy → alive ≡ true)
    → carried origin_out effs ++ up ≡ contents s.read_buffer ++ carried client_in effs
    → carried client_out effs ++ down ≡ contents s.write_buffer ++ carried origin_in effs
    → Moved s healthy (some out)
moved s {effs = effs} z fine u d = record {
  after = z.after;
  effects = effs ++ z.extra;
  action = z.action;
  result = ap some z.result;
  still = record { upward = z.tunnel.upward.valid; downward = z.tunnel.downward.valid };
  conserved = record {
    upward =
        ap₂ ◌++◌ (same origin_out) z.tunnel.upward.held
        ∙ u
        ∙ ap (λ t. contents s.read_buffer ++ t) (sym (same client_in));
    downward =
        ap₂ ◌++◌ (same client_out) z.tunnel.downward.held
        ∙ d
        ∙ ap (λ t. contents s.write_buffer ++ t) (sym (same origin_in));
  };
  over = λ h q.
      let (u, d, c, o) = z.over (fine h) q in
      record {
        upward = z.tunnel.upward.held ∙ u;
        downward = z.tunnel.downward.held ∙ d;
        client_ended = c;
        origin_ended = o;
      };
}
  where
    same : (c : Channel) → carried c (effs ++ z.extra) ≡ carried c effs
    same c =
        carried-append c effs z.extra
        ∙ ap (λ t. carried c effs ++ t) (z.quiet c)
        ∙ append-nil (carried c effs)

-- What a read and a flush of the same buffer do to the bytes that wait.
through :
    (sent left waiting more : List ℕ)
    → sent ++ left ≡ waiting ++ more
    → (sent ++ []) ++ left ≡ waiting ++ (more ++ [])
through sent left waiting more e =
    ap (λ t. t ++ left) (append-nil sent) ∙ e ∙ ap (λ t. waiting ++ t) (sym (append-nil more))

flushed :
    (sent left waiting : List ℕ) → sent ++ left ≡ waiting → (sent ++ []) ++ left ≡ waiting ++ []
flushed sent left waiting e = ap (λ t. t ++ left) (append-nil sent) ∙ e ∙ sym (append-nil waiting)

client_got :
    (s : Socks5) (c : ℕ) (cs : List ℕ) (w : WriteResult)
    → IsOpen s
    → Fits s (client_reads (got c cs) w)
    → Moved s (Succeeds w) (relay_client_read s (got c cs) w)
unfolding relay_client_read
client_got s c cs w o f =
    let (b, e, k, l) = fill-Holds (c ∷ cs) (record { valid = o.upward; held = refl }) f.0 in
    let z = flush-Flushed s.origin_fd w k f.1 in
    rw (e, z.result)
      (moved s
        (finish-Settled (record s { read_buffer = z.after })
          (from_client (c ∷ cs) ∷ to_origin z.sent ∷ []) z.alive
          (record { upward = z.holds; downward = record { valid = o.downward; held = refl } }))
        z.fine (through z.sent z.left (contents s.read_buffer) (c ∷ cs) z.split)
        (sym (append-nil (contents s.write_buffer))))

origin_got :
    (s : Socks5) (c : ℕ) (cs : List ℕ) (w : WriteResult)
    → IsOpen s
    → Fits s (origin_reads (got c cs) w)
    → Moved s (Succeeds w) (origin_read s (got c cs) w)
unfolding origin_read
origin_got s c cs w o f =
    let (b, e, k, l) = fill-Holds (c ∷ cs) (record { valid = o.downward; held = refl }) f.0 in
    let z = flush-Flushed s.client_fd w k f.1 in
    rw (e, z.result)
      (moved s
        (finish-Settled (record s { write_buffer = z.after })
          (from_origin (c ∷ cs) ∷ to_client z.sent ∷ []) z.alive
          (record { upward = record { valid = o.upward; held = refl }; downward = z.holds }))
        z.fine (sym (append-nil (contents s.read_buffer)))
        (through z.sent z.left (contents s.write_buffer) (c ∷ cs) z.split))

client_wrote :
    (s : Socks5) (w : WriteResult)
    → IsOpen s
    → Fits s (client_writes w)
    → Moved s (Succeeds w) (relay_client_write s w)
unfolding relay_client_write
client_wrote s w o f =
    let z = flush-Flushed s.client_fd w (record { valid = o.downward; held = refl }) f in
    rw z.result (
      moved s
        (finish-Settled (record s { write_buffer = z.after }) (to_client z.sent ∷ []) z.alive
          (record { upward = record { valid = o.upward; held = refl }; downward = z.holds }))
        z.fine (sym (append-nil (contents s.read_buffer)))
        (flushed z.sent z.left (contents s.write_buffer) z.split))

origin_wrote :
    (s : Socks5) (w : WriteResult)
    → IsOpen s
    → Fits s (origin_writes w)
    → Moved s (Succeeds w) (origin_write s w)
unfolding origin_write
origin_wrote s w o f =
    let z = flush-Flushed s.origin_fd w (record { valid = o.upward; held = refl }) f in
    rw z.result (
      moved s
        (finish-Settled (record s { read_buffer = z.after }) (to_origin z.sent ∷ []) z.alive
          (record { upward = z.holds; downward = record { valid = o.downward; held = refl } }))
        z.fine (flushed z.sent z.left (contents s.read_buffer) z.split)
        (sym (append-nil (contents s.write_buffer))))

-- A handler that moves no bytes; `s'` is the state with an end of file noted, or `s` itself.
idle :
    (s s' : Socks5) (alive : Bool) {healthy : Type 0}
    → IsOpen s
    → s'.read_buffer ≡ s.read_buffer
    → s'.write_buffer ≡ s.write_buffer
    → (healthy → alive ≡ true)
    → Moved s healthy (some (if alive then settle s' [] else (s', [], action_close)))
idle s s' alive o u d fine =
    moved s
      (finish-Settled s' [] alive (record {
        upward = rw u (record { valid = o.upward; held = refl });
        downward = rw d (record { valid = o.downward; held = refl });
      }))
      fine (sym (append-nil (contents s.read_buffer))) (sym (append-nil (contents s.write_buffer)))

pub step-Moved : (s : Socks5) (e : Event) → IsOpen s → Fits s e → Moved s (IsHealthy e) (step s e)
unfolding relay_client_read origin_read
step-Moved s (client_reads (got c cs) w) o f = client_got s c cs w o f
step-Moved s (client_reads read_eof w) o f =
    rw (write_ptr-eq s.read_buffer o.upward)
      (idle s (record s { client_eof = true }) true o refl refl (λ _. refl))
step-Moved s (client_reads read_would_block w) o f =
    rw (write_ptr-eq s.read_buffer o.upward) (idle s s true o refl refl (λ _. refl))
step-Moved s (client_reads read_failed w) o f =
    rw (write_ptr-eq s.read_buffer o.upward) (idle s s false o refl refl (λ x. absurd x))
step-Moved s (origin_reads (got c cs) w) o f = origin_got s c cs w o f
step-Moved s (origin_reads read_eof w) o f =
    rw (write_ptr-eq s.write_buffer o.downward)
      (idle s (record s { origin_eof = true }) true o refl refl (λ _. refl))
step-Moved s (origin_reads read_would_block w) o f =
    rw (write_ptr-eq s.write_buffer o.downward) (idle s s true o refl refl (λ _. refl))
step-Moved s (origin_reads read_failed w) o f =
    rw (write_ptr-eq s.write_buffer o.downward) (idle s s false o refl refl (λ x. absurd x))
step-Moved s (client_writes w) o f = client_wrote s w o f
step-Moved s (origin_writes w) o f = origin_wrote s w o f

-- A handler of the relay never fails an assertion of the buffers, whatever read(2) and write(2)
-- return within the room and the bytes they are given: it always has a result, and that result has valid buffers again.
pub step_runs :
    (s : Socks5) (e : Event)
    → IsOpen s
    → Fits s e
    → (t : Socks5) × (effs : List Effect) × (a : Socks5Action) × (step s e ≡ some (t, effs, a))
      × IsOpen t
step_runs s e o f = let m = step-Moved s e o f in (m.after, m.effects, m.action, m.result, m.still)
