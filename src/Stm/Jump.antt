-- ===== src/Stm/Jump.antt =====
-- What an event does to a state machine.
use socksv5_proxy.Base.{
  ℕ, ◌≤◌, ◌≡◌, refl, ap, ◌∙◌, ◌>>=◌, arith, Bool, Bool-cases, inl, inr, true, false, Option, none,
  some, ltb, ◌==◌, ==_iff, if◌then◌else◌, get_elem?,
}
use socksv5_proxy.Stm.{
  StateMachine, StateDefinition, handle, handle_first, fire, callback_of, arrive, depart,
  is_current, jump, run_hook,
}

module _ {W : Type 0} where
  -- `at` is the definition of each state of the machine, and each definition carries the number of
  -- its state, as `stm_init` asserts.
  pub record IsTable (m : StateMachine W) (at : ℕ → StateDefinition W) : Type 0 where
    pub defined : (k : ℕ) → k ≤ m.max_state → get_elem? m.states k ≡ some (at k)
    pub numbered : (k : ℕ) → k ≤ m.max_state → (at k).state ≡ k

  -- The state that an event finds, and the world in it: the first event enters the initial state.
  abbrev pub found : StateMachine W → ℕ
  found m = elim m.current [ none ↦ m.initial | some i ↦ i ]

  abbrev pub entered : StateMachine W → (ℕ → StateDefinition W) → W → W
  entered m at w = elim m.current [
    | none ↦ run_hook (at m.initial).on_arrival m.initial w
    | some i ↦ w
  ]

  -- The world after a change of state: the hooks run where the state is another one.
  abbrev pub changed : (ℕ → StateDefinition W) → ℕ → ℕ → W → W
  changed at i next w =
      if i == next then w else run_hook (at next).on_arrival next (run_hook (at i).on_departure i w)

  arrive_runs :
      (m : StateMachine W) (at : ℕ → StateDefinition W) (next : ℕ) (w : W)
      → IsTable m at
      → next ≤ m.max_state
      → arrive m next w
        ≡ some (record m { current = some next }, run_hook (at next).on_arrival next w)
  unfolding arrive
  arrive_runs m at next w t h = rw (t.defined next h, t.numbered next h) refl

  jump_runs :
      (m : StateMachine W) (at : ℕ → StateDefinition W) (i next : ℕ) (w : W)
      → IsTable m at
      → i ≤ m.max_state
      → jump (record m { current = some i }) next w ≡ (
          if ltb m.max_state next
          then none
          else some (record m { current = some next }, changed at i next w))
  unfolding jump is_current depart
  jump_runs m at i next w t h = elim (Bool-cases (ltb m.max_state next)) [
    | inl out ↦ rw out refl
    | inr inside ↦ elim (Bool-cases (i == next)) [
      | inl same ↦ let e : i ≡ next = (==_iff i next).0 same in rw (inside, same, e) refl
      | inr other ↦
          rw (inside, other, t.defined i h, t.numbered i h)
            (arrive_runs (record m { current = some i }) at next (run_hook (at i).on_departure i w)
              (record { defined = t.defined; numbered = t.numbered }) (ground arith))
    ]
  ]

  handle_first_runs :
      (m : StateMachine W) (at : ℕ → StateDefinition W) (w : W)
      → IsTable m at
      → found m ≤ m.max_state
      → handle_first m w ≡ some (record m { current = some (found m) }, entered m at w)
  unfolding handle_first
  handle_first_runs m at w t h = go m.current refl h
    where
      go :
          (o : Option ℕ)
          → m.current ≡ o
          → elim o [ none ↦ m.initial | some i ↦ i ] ≤ m.max_state
          → elim o [ none ↦ arrive m m.initial w | some i ↦ some (m, w) ]
            ≡ some (
              record m { current = some (elim o [ none ↦ m.initial | some i ↦ i ]) },
              elim o [ none ↦ run_hook (at m.initial).on_arrival m.initial w | some i ↦ w ],
            )
      go none e h = arrive_runs m at m.initial w t h
      go (some i) e h = ap (λ (o : Option ℕ). some (record m { current = o }, w)) e

  fire_runs :
      (m : StateMachine W) (at : ℕ → StateDefinition W) (i : ℕ) (callback : W → W × ℕ) (w : W)
      → IsTable m at
      → i ≤ m.max_state
      → let (w', next) = callback w in
        fire (record m { current = some i }) callback w ≡ (
          if ltb m.max_state next
          then none
          else some (record m { current = some next }, changed at i next w', next))
  unfolding fire
  fire_runs m at i callback w t h =
      ap {A = Option (StateMachine W × W)} {B = Option (StateMachine W × W × ℕ)}
        (λ o. o >>= λ (m₁, w₂). some (m₁, w₂, (callback w).1))
        (jump_runs m at i (callback w).1 (callback w).0 t h)
      ∙ go (ltb m.max_state (callback w).1) _ _ _
    where
      go :
          (b : Bool) (m₁ : StateMachine W) (w₁ : W) (next : ℕ)
          → ◌>>=◌ {A = StateMachine W × W} {B = StateMachine W × W × ℕ}
              (if b then none else some (m₁, w₁))
              (λ (m₂, w₂). some (m₂, w₂, next))
            ≡ (if b then none else some (m₁, w₁, next))
      go true m₁ w₁ next = refl
      go false m₁ w₁ next = refl

  callback_of_runs :
      (m : StateMachine W) (at : ℕ → StateDefinition W) (i : ℕ)
      (ready : StateDefinition W → Option (W → W × ℕ)) (callback : W → W × ℕ)
      → IsTable m at
      → i ≤ m.max_state
      → ready (at i) ≡ some callback
      → callback_of ready (record m { current = some i }) ≡ some callback
  unfolding callback_of
  callback_of_runs m at i ready callback t h r = rw (t.defined i h, r) refl

  -- An event first enters the initial state where the machine has none, calls the callback of the
  -- current state, and goes to the state that the callback returns: where that is another one the
  -- departure hook of the old state and the arrival hook of the new one run in this order, each
  -- with the number of its state, and where it is behind the last state the run is aborted. The
  -- number that the callback returned is handed on. It holds for a table with a definition for
  -- each state, and a current state that is in it and has a callback for the event.
  pub handle_runs :
      (ready : StateDefinition W → Option (W → W × ℕ)) (m : StateMachine W)
      (at : ℕ → StateDefinition W) (callback : W → W × ℕ) (w : W)
      → IsTable m at
      → found m ≤ m.max_state
      → ready (at (found m)) ≡ some callback
      → let (w', next) = callback (entered m at w) in
        handle ready m w ≡ (
          if ltb m.max_state next
          then none
          else some (record m { current = some next }, changed at (found m) next w', next))
  unfolding handle
  handle_runs ready m at callback w t h r =
      ap {A = Option (StateMachine W × W)} {B = Option (StateMachine W × W × ℕ)}
        (λ o. o >>= λ (m₁, w₁). callback_of ready m₁ >>= λ callback'. fire m₁ callback' w₁)
        (handle_first_runs m at w t h)
      ∙ ap {A = Option (W → W × ℕ)} {B = Option (StateMachine W × W × ℕ)}
          (λ o. o >>= λ callback'.
            fire (record m { current = some (found m) }) callback' (entered m at w))
          (callback_of_runs m at (found m) ready callback t h r)
      ∙ fire_runs m at (found m) callback (entered m at w) t h
