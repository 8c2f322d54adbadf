-- ===== src/Pool/Shutdown.antt =====
-- The pool and the metrics agree, and a forced shutdown empties the pool.
use socksv5_proxy.Base.{
  ℕ, suc, ◌^◌, ◌<◌, ◌≡◌, ◌==◌, ==_iff, refl, sym, subst, ap, ◌∙◌, arith, ltb, true, false, Option,
  some, List, [], ◌∷◌, ◌++◌, length,
}
use socksv5_proxy.Lifecycle.{socks5_cancel}
use socksv5_proxy.Lifecycle.Close.{closes_once}
use socksv5_proxy.Metrics
use socksv5_proxy.Metrics.{Metrics}
use socksv5_proxy.Socks5.{Socks5, Effect, is_negative}
use socksv5_proxy.Pool.{
  Pool, pool_add, pool_remove, unlink, Connections, put, close_connection, active_connections,
  is_first, force_shutdown,
}

-- The size and the metric count the members.
pub record IsCounted (p : Pool) : Type 0 where
  pub sized : p.size ≡ length p.members
  pub measured : p.metrics.current_connections ≡ length p.members
  pub small : length p.members < 2 ^ 64

-- Adding keeps the count, as long as there is a number for it.
pub pool_add-IsCounted :
    (p : Pool) (state : ℕ)
    → IsCounted p
    → suc (length p.members) < 2 ^ 64
    → IsCounted (pool_add p state)
unfolding pool_add Metrics.connection_opened
pool_add-IsCounted p state c room = record {
  sized = omega (arith, c.sized);
  measured = omega (arith, c.measured);
  small = room;
}

remove_first :
    (p : Pool) (state : ℕ) (rest : List ℕ)
    → p.members ≡ state ∷ rest
    → IsCounted p
    → ((pool_remove p state).members ≡ rest) × IsCounted (pool_remove p state)
unfolding pool_remove unlink Metrics.connection_closed
remove_first p state rest e c =
    let same : (state == state) ≡ true = (==_iff state state).1 refl in
    let many : length p.members ≡ suc (length rest) = ap length e in
    let some_open : ltb 0 p.metrics.current_connections ≡ true = ground (arith, c.measured) in
    rw (e, same, some_open)
      (
        refl,
        record {
          sized = omega (arith, c.sized, c.small);
          measured = omega (arith, c.measured);
          small = omega (arith, c.small);
        },
      )

-- A connection that the pool holds: it is open, its client is registered, and it has an owner.
pub record IsOpen (s : Socks5) : Type 0 where
  pub not_closing : s.closing ≡ false
  pub registered : s.client_registered ≡ true
  pub has_client : is_negative s.client_fd ≡ false
  pub others : ℕ
  pub owned : s.references ≡ suc others
  pub small : suc others < 4294967296

unfoldable pub NotIn : ℕ → List ℕ → Type 0
NotIn m [] = Unit
NotIn m (k ∷ ks) = ((k == m) ≡ false) × NotIn m ks

unfoldable pub AllOpen : (ℕ → Socks5) → List ℕ → Type 0
unfolding NotIn
AllOpen f [] = Unit
AllOpen f (m ∷ ms) = IsOpen (f m) × NotIn m ms × AllOpen f ms

-- The first connection of the pool is closed.
record FirstClosed (c : Connections) (state : ℕ) (rest : List ℕ) : Type 0 where
  c₁ : Connections
  effects : List Effect
  result :
      close_connection
        (record c { state_of = put c.state_of state (socks5_cancel (c.state_of state)) })
        state
      ≡ some (c₁, effects)
  left : c₁.pool.members ≡ rest
  counted : IsCounted c₁.pool
  others : (k : ℕ) → (k == state) ≡ false → c₁.state_of k ≡ c.state_of k

put-eq : (f : ℕ → Socks5) (k : ℕ) (s : Socks5) → put f k s k ≡ s
put-eq f k s = let same : (k == k) ≡ true = (==_iff k k).1 refl in rw same refl

put_other : (f : ℕ → Socks5) (k j : ℕ) (s : Socks5) → (j == k) ≡ false → put f k s j ≡ f j
put_other f k j s other = rw other refl

close_open :
    (c : Connections) (state : ℕ) (s : Socks5)
    → c.state_of state ≡ s
    → IsOpen s
    → (t : Socks5) × (effects : List Effect) × (close_connection c state
        ≡ some (
          record { pool = pool_remove c.pool state; state_of = put c.state_of state t },
          effects,
        ))
unfolding close_connection
close_open c state s e is_open =
    let (t, effects, q, once, gone, gone', refs, freed, again) =
      closes_once s is_open.others is_open.not_closing is_open.owned is_open.small in
    (t, effects, rw (e, q, is_open.not_closing, is_open.registered, is_open.has_client) refl)

cancel-IsOpen : (s : Socks5) → IsOpen s → IsOpen (socks5_cancel s)
unfolding socks5_cancel
cancel-IsOpen s o = record {
  not_closing = o.not_closing;
  registered = o.registered;
  has_client = o.has_client;
  others = o.others;
  owned = o.owned;
  small = o.small;
}

first_closed :
    (c : Connections) (state : ℕ) (rest : List ℕ)
    → c.pool.members ≡ state ∷ rest
    → IsCounted c.pool
    → IsOpen (c.state_of state)
    → FirstClosed c state rest
first_closed c state rest e counted is_open =
    let s = socks5_cancel (c.state_of state) in
    let c₀ = record c { state_of = put c.state_of state s } in
    let (t, effects, q) =
      close_open c₀ state s (put-eq c.state_of state s)
        (cancel-IsOpen (c.state_of state) is_open) in
    let (members, counted') = remove_first c.pool state rest e counted in
    record {
      c₁ = record { pool = pool_remove c.pool state; state_of = put c₀.state_of state t };
      effects = effects;
      result = q;
      left = members;
      counted = counted';
      others =
          λ k other. put_other c₀.state_of state k t other ∙ put_other c.state_of state k s other;
    }

not_first : (m : ℕ) (ms : List ℕ) → NotIn m ms → is_first ms m ≡ false
unfolding is_first NotIn
not_first m [] h = refl
not_first m (k ∷ ks) (h, rest) = h

-- The states of the others are as they were.
AllOpen-congr :
    (f g : ℕ → Socks5) (m : ℕ) (ms : List ℕ)
    → ((k : ℕ) → (k == m) ≡ false → g k ≡ f k)
    → NotIn m ms
    → AllOpen f ms
    → AllOpen g ms
unfolding AllOpen NotIn
AllOpen-congr f g m [] same out all = tt
AllOpen-congr f g m (k ∷ ks) same (other, out) (o, fresh, all) = (
  subst (λ (s : Socks5). IsOpen s) (sym (same k other)) o,
  fresh,
  AllOpen-congr f g m ks same out all,
)

-- The pool is empty, and counted so.
record Emptied (r : Option (Connections × List Effect)) : Type 0 where
  c' : Connections
  effects : List Effect
  result : r ≡ some (c', effects)
  none_left : c'.pool.members ≡ []
  counted : IsCounted c'.pool

nothing_held :
    (fuel : ℕ) (c c' : Connections)
    → c ≡ c'
    → c.pool.members ≡ []
    → force_shutdown (suc fuel) c ≡ some (c', [])
unfolding force_shutdown
nothing_held fuel c c' q e =
    rw (e, force_shutdown) (ap {A = Connections} (λ (d : Connections). some (d, [])) q)

emptied :
    (ms : List ℕ) (c : Connections)
    → c.pool.members ≡ ms
    → IsCounted c.pool
    → AllOpen c.state_of ms
    → Emptied (force_shutdown (suc (length ms)) c)
unfolding force_shutdown AllOpen
emptied [] c e counted all = record {
  c' = c;
  effects = [];
  result = nothing_held 0 c c refl e;
  none_left = e;
  counted = counted;
}
emptied (m ∷ ms) c e counted (o, fresh, all) =
    let f = first_closed c m ms e counted o in
    let r =
      emptied ms f.c₁ f.left f.counted
        (AllOpen-congr c.state_of f.c₁.state_of m ms f.others fresh all) in
    let passed : is_first f.c₁.pool.members m ≡ false = rw f.left (not_first m ms fresh) in
    record {
      c' = r.c';
      effects = f.effects ++ r.effects;
      result = rw (e, f.result, passed, r.result, force_shutdown) refl;
      none_left = r.none_left;
      counted = r.counted;
    }

-- A forced shutdown ends, after one round for each connection of the pool, and leaves no
-- connection in the pool; its size and the metric of current connections are then 0. It holds for
-- a pool without repetitions whose connections are open and registered, and whose size and metric
-- count its members.
pub force_shutdown_empties :
    (c : Connections)
    → IsCounted c.pool
    → AllOpen c.state_of c.pool.members
    → (c' : Connections) × (effects : List Effect) × (force_shutdown (suc (length c.pool.members)) c
        ≡ some (c', effects))
      × (c'.pool.members ≡ [])
      × (active_connections c'.pool ≡ 0)
      × (c'.pool.metrics.current_connections ≡ 0)
unfolding active_connections
force_shutdown_empties c counted all =
    let r = emptied c.pool.members c refl counted all in
    (
      r.c',
      r.effects,
      r.result,
      r.none_left,
      r.counted.sized ∙ ap length r.none_left,
      r.counted.measured ∙ ap length r.none_left,
    )
