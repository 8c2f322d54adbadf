-- ===== src/Stm/Tests.antt =====
-- A run of a machine of two states, and an instance of the theorem on events.
use socksv5_proxy.Base.{ℕ, ◌+◌, ◌≤◌, ◌≡◌, refl, zero, suc, arith, get_elem?, none, some, [], ◌∷◌}
use socksv5_proxy.Stm
use socksv5_proxy.Stm.{StateDefinition, StateMachine}
use socksv5_proxy.Stm.Jump.{IsTable, handle_runs}

-- It counts in a number: ten for an arrival, a hundred for a departure.
abbrev counting : ℕ → StateDefinition ℕ
counting n = record {
  state = n;
  on_arrival = some (λ state w. w + 10);
  on_departure = some (λ state w. w + 100);
  on_read_ready = some (λ w. (w + 1, 1));
  on_write_ready = none;
  on_block_ready = none;
}

abbrev machine : StateMachine ℕ
machine = record {
  initial = 0;
  states = counting 0 ∷ counting 1 ∷ [];
  max_state = 1;
  current = none;
}

first_read :
    Stm.handle (λ d. d.on_read_ready) machine 0 ≡ some (record machine { current = some 1 }, 121, 1)
unfolding Stm.handle Stm.handle_first Stm.fire Stm.callback_of Stm.jump Stm.arrive Stm.depart
    Stm.is_current Stm.run_hook
first_read = refl

machine-IsTable : IsTable machine counting
machine-IsTable = record { defined = defined; numbered = λ k h. refl }
  where
    defined : (k : ℕ) → k ≤ 1 → get_elem? machine.states k ≡ some (counting k)
    defined zero h = refl
    defined (suc zero) h = refl
    defined (suc (suc k)) h = absurd (omega arith)

-- The first event: the arrival at 0, the callback, the departure to 1 and the arrival there.
handle_runs_example :
    Stm.handle (λ d. d.on_read_ready) machine 0 ≡ some (record machine { current = some 1 }, 121, 1)
unfolding Stm.run_hook
handle_runs_example =
    handle_runs (λ d. d.on_read_ready) machine counting (λ w. (w + 1, 1)) 0 machine-IsTable
      (omega arith) refl
