-- ===== src/Stm.antt =====
-- shared/stm.c: the engine of state machines. `W` is what a `struct selector_key` gives a hook
-- access to, the machine itself left out; `none` stands for a call of abort(3), for an access
-- behind the table of states, and for a call through a null pointer.
pub mod Jump
mod Tests
use socksv5_proxy.Base.{
  ℕ, zero, suc, ◌+◌, Bool, true, false, not, Option, none, some, ◌>>=◌, ltb, ◌==◌, if◌then◌else◌,
  List, get_elem?,
}

pub record StateDefinition (W : Type 0) : Type 0 where
  pub state : ℕ
  pub on_arrival : Option (ℕ → W → W)
  pub on_departure : Option (ℕ → W → W)
  pub on_read_ready : Option (W → W × ℕ)
  pub on_write_ready : Option (W → W × ℕ)
  pub on_block_ready : Option (W → W × ℕ)

-- `current` is the index of the state in `states`, `none` for a null pointer.
pub record StateMachine (W : Type 0) : Type 0 where
  pub initial : ℕ
  pub states : List (StateDefinition W)
  pub max_state : ℕ
  pub current : Option ℕ

-- A hook, where there is one.
unfoldable pub run_hook : {W : Type 0} → Option (ℕ → W → W) → ℕ → W → W
run_hook none state w = w
run_hook (some hook) state w = hook state w

-- The loop of `stm_init`, over the `n` states from `i` on.
unfoldable pub correlative : {W : Type 0} → ℕ → List (StateDefinition W) → ℕ → Bool
correlative zero states i = true
correlative (suc n) states i = elim (get_elem? states i) [
  | none ↦ false
  | some d ↦ let rest = correlative n states (i + 1) in if d.state == i then rest else false
]

unfoldable pub stm_init : {W : Type 0} → StateMachine W → Option (StateMachine W)
unfolding correlative
stm_init m =
    if not (correlative (m.max_state + 1) m.states 0)
    then none
    else (if ltb m.initial m.max_state then some (record m { current = none }) else none)

-- To the state of index `next`, with its arrival hook.
unfoldable pub arrive : {W : Type 0} → StateMachine W → ℕ → W → Option (StateMachine W × W)
unfolding run_hook
arrive m next w = do
  d ← get_elem? m.states next
  some (record m { current = some next }, run_hook d.on_arrival d.state w)

unfoldable pub handle_first : {W : Type 0} → StateMachine W → W → Option (StateMachine W × W)
unfolding arrive
handle_first m w = elim m.current [ none ↦ arrive m m.initial w | some i ↦ some (m, w) ]

unfoldable pub is_current : Option ℕ → ℕ → Bool
is_current none next = false
is_current (some i) next = i == next

-- The departure hook of the current state, if there is one.
unfoldable pub depart : {W : Type 0} → StateMachine W → W → Option W
unfolding run_hook
depart m w = elim m.current [
  | none ↦ some w
  | some i ↦ (get_elem? m.states i >>= λ d. some (run_hook d.on_departure d.state w))
]

unfoldable pub jump : {W : Type 0} → StateMachine W → ℕ → W → Option (StateMachine W × W)
unfolding is_current depart arrive
jump m next w =
    if ltb m.max_state next
    then none
    else (if is_current m.current next
        then some (m, w)
        else (depart m w >>= λ w'. arrive m next w'))

-- The callback of the current state.
unfoldable pub callback_of :
    {W : Type 0} → (StateDefinition W → Option (W → W × ℕ)) → StateMachine W → Option (W → W × ℕ)
callback_of ready m = m.current >>= λ i. get_elem? m.states i >>= λ d. ready d

-- Calls it, and goes to the state that it returns.
unfoldable pub fire :
    {W : Type 0} → StateMachine W → (W → W × ℕ) → W → Option (StateMachine W × W × ℕ)
unfolding jump
fire m callback w = let (w₁, ret) = callback w in jump m ret w₁ >>= λ (m₁, w₂). some (m₁, w₂, ret)

-- What the three handlers share, with the field that each one calls.
unfoldable pub handle :
    {W : Type 0}
    → (StateDefinition W → Option (W → W × ℕ))
    → StateMachine W
    → W
    → Option (StateMachine W × W × ℕ)
unfolding handle_first fire callback_of
handle ready m w =
    handle_first m w >>= λ (m₁, w₁). callback_of ready m₁ >>= λ callback. fire m₁ callback w₁

unfoldable pub stm_handler_read :
    {W : Type 0} → StateMachine W → W → Option (StateMachine W × W × ℕ)
unfolding handle
stm_handler_read m w = handle (λ d. d.on_read_ready) m w

unfoldable pub stm_handler_write :
    {W : Type 0} → StateMachine W → W → Option (StateMachine W × W × ℕ)
unfolding handle
stm_handler_write m w = handle (λ d. d.on_write_ready) m w

unfoldable pub stm_handler_block :
    {W : Type 0} → StateMachine W → W → Option (StateMachine W × W × ℕ)
unfolding handle
stm_handler_block m w = handle (λ d. d.on_block_ready) m w

unfoldable pub stm_handler_close : {W : Type 0} → StateMachine W → W → Option W
unfolding depart
stm_handler_close m w = depart m w

pub stm_state : {W : Type 0} → StateMachine W → Option ℕ
stm_state m = elim m.current [
  | none ↦ some m.initial
  | some i ↦ (get_elem? m.states i >>= λ d. some d.state)
]
