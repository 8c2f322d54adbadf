-- ===== src/Relay/Tunnel.antt =====
-- The relay as a whole: the four handlers, in any order, while the tunnel is open.
use socksv5_proxy.Base.{
  ℕ, ◌≡◌, refl, sym, ap, ap₂, ◌∙◌, Bool, true, false, not, List, [], ◌∷◌, ◌++◌, ◌&&◌, ◌||◌, length,
  arith, Bool-cases, inl, inr, ℤ, if◌then◌else◌, append_assoc, append-nil, ltb,
}
use socksv5_proxy.Buffer
use socksv5_proxy.Buffer.{Buffer}
use socksv5_proxy.Buffer.Fifo.{Holds, can_read-Holds}
use socksv5_proxy.Socks5.{
  Socks5, Socks5Action, action_none, action_close, Effect, shutdown_write, from_client, from_origin,
  to_client, to_origin, is_negative,
}
use socksv5_proxy.Relay.{
  settle, relay_should_close, relay_shutdown_write_side, relay_update_interests,
}

-- The four directions of bytes at the sockets.
pub data Channel : Type 0 where
  client_in origin_in client_out origin_out : Channel

abbrev pub bytes : Channel → Effect → List ℕ
bytes client_in (from_client bs) = bs
bytes origin_in (from_origin bs) = bs
bytes client_out (to_client bs) = bs
bytes origin_out (to_origin bs) = bs
bytes _ _ = []

abbrev pub carried : Channel → List Effect → List ℕ
carried c [] = []
carried c (e ∷ es) = bytes c e ++ carried c es

pub carried-append :
    (c : Channel) (es fs : List Effect) → carried c (es ++ fs) ≡ carried c es ++ carried c fs
carried-append c [] fs = refl
carried-append c (e ∷ es) fs =
    ap (λ t. bytes c e ++ t) (carried-append c es fs)
    ∙ sym (append_assoc (bytes c e) (carried c es) (carried c fs))

shutdown_quiet :
    (c : Channel) (fd : ℤ) (d : Bool) → carried c (relay_shutdown_write_side fd d).1 ≡ []
unfolding relay_shutdown_write_side
shutdown_quiet c fd d = elim (Bool-cases (d || is_negative fd)) [
  | inl e ↦ rw e refl
  | inr e ↦ rw e (quiet c)
]
  where
    quiet : (c : Channel) → bytes c (shutdown_write fd) ++ [] ≡ []
    quiet client_in = refl
    quiet origin_in = refl
    quiet client_out = refl
    quiet origin_out = refl

interests_quiet : (c : Channel) (s : Socks5) → carried c (relay_update_interests s) ≡ []
unfolding relay_update_interests
interests_quiet client_in s = refl
interests_quiet origin_in s = refl
interests_quiet client_out s = refl
interests_quiet origin_out s = refl

quiet_unless :
    (c : Channel) (t : Bool) (fd : ℤ) (d : Bool)
    → carried c (if t then relay_shutdown_write_side fd d else (d, [])).1 ≡ []
quiet_unless c t fd d = elim (Bool-cases t) [
  | inl e ↦ rw e (shutdown_quiet c fd d)
  | inr e ↦ rw e refl
]

close_quiet : (c : Channel) (s : Socks5) → carried c (relay_should_close s).1 ≡ []
unfolding relay_should_close
close_quiet c s =
    let drained₁ = not (Buffer.can_read s.read_buffer) in
    let drained₂ = not (Buffer.can_read s.write_buffer) in
    carried-append c
      (if s.client_eof && drained₁
        then relay_shutdown_write_side s.origin_fd s.origin_write_shutdown
        else (s.origin_write_shutdown, [])).1
      (if s.origin_eof && drained₂
        then relay_shutdown_write_side s.client_fd s.client_write_shutdown
        else (s.client_write_shutdown, [])).1
    ∙ ap₂ ◌++◌ (quiet_unless c (s.client_eof && drained₁) s.origin_fd s.origin_write_shutdown)
        (quiet_unless c (s.origin_eof && drained₂) s.client_fd s.client_write_shutdown)

-- A tunnel with `up` waiting for the origin and `down` waiting for the client.
pub record Tunnel (s : Socks5) (up down : List ℕ) : Type 0 where
  pub upward : Holds s.read_buffer up
  pub downward : Holds s.write_buffer down

all_over :
    (c o : Bool) (up down : List ℕ)
    → (c && o && not (ltb 0 (length up)) && not (ltb 0 (length down))) ≡ true
    → (up ≡ []) × (down ≡ []) × (c ≡ true) × (o ≡ true)
all_over true true [] [] e = (refl, refl, refl, refl)
all_over true true [] (x ∷ down) e = absurd (ground (arith, e))
all_over true true (x ∷ up) down e = absurd (ground (arith, e))
all_over true false up down e = absurd (ground (arith, e))
all_over false o up down e = absurd (ground (arith, e))

-- How a handler ends: the calls that it adds to `effs`, and why it closes.
pub record Settled (alive : Bool) (effs : List Effect) (up down : List ℕ)
    (out : Socks5 × List Effect × Socks5Action) : Type 0 where
  pub after : Socks5
  pub extra : List Effect
  pub action : Socks5Action
  pub result : out ≡ (after, effs ++ extra, action)
  pub quiet : (c : Channel) → carried c extra ≡ []
  pub tunnel : Tunnel after up down
  pub over :
      alive ≡ true
      → action ≡ action_close
      → (up ≡ []) × (down ≡ []) × (after.client_eof ≡ true) × (after.origin_eof ≡ true)

pub settle-Settled :
    (s : Socks5) (effs : List Effect) {up down : List ℕ}
    → Tunnel s up down
    → Settled true effs up down (settle s effs)
unfolding settle relay_should_close
settle-Settled s effs {up} {down} h = elim (Bool-cases (relay_should_close s).2) [
  | inl e ↦ record {
    after = (relay_should_close s).0;
    extra = (relay_should_close s).1;
    action = action_close;
    result = rw e refl;
    quiet = λ c. close_quiet c s;
    tunnel = kept;
    over = λ a q.
        all_over s.client_eof s.origin_eof up down
          (cc (e, can_read-Holds h.upward, can_read-Holds h.downward));
  }
  | inr e ↦ record {
    after = (relay_should_close s).0;
    extra = (relay_should_close s).1 ++ relay_update_interests (relay_should_close s).0;
    action = action_none;
    result = rw e (
        ap (λ t. ((relay_should_close s).0, t, action_none))
          (append_assoc effs (relay_should_close s).1
            (relay_update_interests (relay_should_close s).0)));
    quiet = λ c.
        carried-append c (relay_should_close s).1 (relay_update_interests (relay_should_close s).0)
        ∙ ap₂ ◌++◌ (close_quiet c s) (interests_quiet c (relay_should_close s).0);
    tunnel = kept;
    over = λ a q. absurd (cc q);
  }
]
  where
    kept : Tunnel (relay_should_close s).0 up down
    kept = record { upward = h.upward; downward = h.downward }

pub finish-Settled :
    (s : Socks5) (effs : List Effect) (alive : Bool) {up down : List ℕ}
    → Tunnel s up down
    → Settled alive effs up down (if alive then settle s effs else (s, effs, action_close))
finish-Settled s effs true h = settle-Settled s effs h
finish-Settled s effs false h = record {
  after = s;
  extra = [];
  action = action_close;
  result = ap (λ t. (s, t, action_close)) (sym (append-nil effs));
  quiet = λ c. refl;
  tunnel = h;
  over = λ a q. absurd (cc a);
}
