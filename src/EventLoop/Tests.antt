-- ===== src/EventLoop/Tests.antt =====
-- Instances of the theorems on small tables.
use socksv5_proxy.Base.{
  ℕ, zero, suc, ◌≡◌, ◌≤◌, ◌<◌, ◌==◌, ◌⊎◌, sym, if◌then◌else◌, Bool, inl, inr, true, false, Option,
  none, some, ◌>>=◌, List, [], ◌∷◌, ◌++◌, refl, subst, arith, replicate, set, length, length-append,
}
use socksv5_proxy.Selector.{
  Selector, Item, unused, op_noop, FdHandler, Callback, SelectorKey, BlockingJob,
}
use socksv5_proxy.Selector.Map.{item_at, placed}
use socksv5_proxy.Selector.Closing.{OnlyFrees}
use socksv5_proxy.EventLoop.{
  handle_item, handle_items, handle_iteration, handle_used, serve_read, serve_write,
  handle_block_notifications,
}
use socksv5_proxy.EventLoop.Iteration.{turn, Holds, Passes, LeavesSize, handle_iteration_serves}
use socksv5_proxy.EventLoop.Jobs.{
  CallbacksReturn, InTable, releases, handle_block_notifications-releases,
}

-- A call of the handler with this number.
data Event : Type 0 where
  readable writable : ℕ → SelectorKey → Event

-- The world is what has been called and what has been released.
abbrev World : Type 0
World = List Event × List (ℕ × ℕ)

abbrev act : Event → World → World
act e w = (w.0 ++ e ∷ [], w.1)

abbrev reading : ℕ → Callback World
reading h key s w = some (s, act (readable h key) w)

abbrev writing : ℕ → Callback World
writing h key s w = some (s, act (writable h key) w)

abbrev handlers : ℕ → FdHandler World
handlers h = record {
  handle_read = some (reading h);
  handle_write = some (writing h);
  handle_block_done = some (reading h);
  handle_close = some (reading h);
}

abbrev releasing : ℕ → ℕ → World → World
releasing c d w = (w.0, w.1 ++ (c, d) ∷ [])

abbrev watching : Item
watching = record {
  fd = some 5;
  interest = record { op_read = true; op_write = true };
  handler = some 2;
  attachment = 70;
}

abbrev empty_table : Selector
empty_table = record {
  fds = replicate 9 unused;
  max_fd = 0;
  master_r = λ j. false;
  master_w = λ j. false;
  resolution_jobs =
      record { fd = 5; attachment = 70; cleanup = some 1 }
      ∷ record { fd = 5; attachment = 71; cleanup = some 1 }
      ∷ [];
}

abbrev one_entry : Selector
one_entry = placed empty_table 5 watching 5

-- Descriptor 3 is one whose handler enters descriptor 7 into the table.
abbrev listening : Item
listening = record {
  fd = some 3;
  interest = record { op_read = true; op_write = false };
  handler = some 1;
  attachment = 0;
}

abbrev two_entries : Selector
two_entries = placed one_entry 3 listening 5

abbrev entering : Selector → Selector
entering s = record s {
  fds = set s.fds 7 (record { fd = some 7; interest = op_noop; handler = some 2; attachment = 71 });
  max_fd = 7;
}

abbrev accepting : Callback World
accepting key s w = some (entering s, act (readable 1 key) w)

abbrev accepting_handlers : ℕ → FdHandler World
accepting_handlers h =
    if h == 1
    then record {
      handle_read = some accepting;
      handle_write = none;
      handle_block_done = none;
      handle_close = none;
    }
    else handlers h

-- Both are ready for reading, and descriptor 5 for writing too.
abbrev ready : ℕ → Bool
ready j = if j == 3 then true else j == 5

abbrev writable_now : ℕ → Bool
writable_now j = j == 5

abbrev Entered : Selector → World → Type 0
Entered s x = (s ≡ two_entries) ⊎ (s ≡ entering two_entries)

abbrev Passed : ℕ → Selector → World → Type 0
Passed j s x =
    (s' : Selector) × (x' : World) × (handle_item accepting_handlers ready writable_now j s x
      ≡ some (s', x'))
    × Entered s' x'

two_entries-Passed : (j : ℕ) (x : World) → j < 5 → Passed j two_entries x
unfolding handle_item handle_used serve_read serve_write
two_entries-Passed zero x h = (two_entries, x, refl, inl refl)
two_entries-Passed (suc zero) x h = (two_entries, x, refl, inl refl)
two_entries-Passed (suc (suc zero)) x h = (two_entries, x, refl, inl refl)
two_entries-Passed (suc (suc (suc zero))) x h = (entering two_entries, _, refl, inr refl)
two_entries-Passed (suc (suc (suc (suc zero)))) x h = (two_entries, x, refl, inl refl)
two_entries-Passed (suc (suc (suc (suc (suc j))))) x h = absurd (omega arith)

entering-Passed : (j : ℕ) (x : World) → j < 5 → Passed j (entering two_entries) x
unfolding handle_item handle_used serve_read serve_write
entering-Passed zero x h = (entering two_entries, x, refl, inr refl)
entering-Passed (suc zero) x h = (entering two_entries, x, refl, inr refl)
entering-Passed (suc (suc zero)) x h = (entering two_entries, x, refl, inr refl)
entering-Passed (suc (suc (suc zero))) x h = (entering two_entries, _, refl, inr refl)
entering-Passed (suc (suc (suc (suc zero)))) x h = (entering two_entries, x, refl, inr refl)
entering-Passed (suc (suc (suc (suc (suc j))))) x h = absurd (omega arith)

entered-Holds : Holds accepting_handlers ready writable_now 5 2 watching Entered
entered-Holds s x v = elim v [ inl e ↦ rw e refl | inr e ↦ rw e refl ]

entered-Passes : Passes accepting_handlers ready writable_now 5 2 watching Entered
entered-Passes j s x low v = elim v [
  | inl e ↦ subst (λ (t : Selector). Passed j t x) (sym e) (two_entries-Passed j x low)
  | inr e ↦ subst (λ (t : Selector). Passed j t x) (sym e) (entering-Passed j x low)
]

entered-LeavesSize : LeavesSize accepting_handlers ready writable_now 5 2 watching Entered
entered-LeavesSize s s' x x' b v e = let q : s ≡ s' = cc e in rw q refl

-- The handler of descriptor 3 enters another descriptor before the turn of descriptor 5 comes.
handle_iteration_serves_example :
    (s₁ : Selector) × (x₁ : World) × (handle_items accepting_handlers ready writable_now 5 0
        two_entries
        ([], [])
      ≡ some (s₁, x₁))
    × Entered s₁ x₁
    × (handle_iteration accepting_handlers ready writable_now two_entries ([], []) ≡ (
        turn accepting_handlers ready writable_now 5 2 watching s₁ x₁ >>= λ (s₂, x₂).
        handle_items accepting_handlers ready writable_now 0 6 s₂ x₂))
handle_iteration_serves_example =
    handle_iteration_serves accepting_handlers ready writable_now 5 2 watching Entered two_entries
      ([], []) entered-Holds entered-Passes entered-LeavesSize refl refl (omega arith) (inl refl)

callback_eq :
    (f g : Callback World)
    → ◌≡◌ {A = Option (Callback World)} (some g) (some f)
    → ◌≡◌ {A = Callback World} g f
callback_eq f g q = cc q

-- A callback that makes the table larger.
abbrev growing : Callback World
growing key s w = some (record s { fds = s.fds ++ unused ∷ [] }, act (readable 0 key) w)

abbrev growing_handlers : ℕ → FdHandler World
growing_handlers h = record {
  handle_read = none;
  handle_write = none;
  handle_block_done = some growing;
  handle_close = none;
}

abbrev AnyState : List BlockingJob → Selector → World → Type 0
AnyState js s w = Unit

growing-CallbacksReturn : CallbacksReturn growing_handlers releasing AnyState (λ (w : World). w.1)
growing-CallbacksReturn j js s w fd h f i own same handled q =
    let key : SelectorKey = record { fd = fd; attachment = j.attachment } in
    subst
      (λ (g : Callback World).
        (s' : Selector) × (w' : World) × (g key s w ≡ some (s', w'))
        × Unit
        × (length s.fds ≤ length s'.fds)
        × (w'.1 ≡ w.1))
      (callback_eq f growing q)
      (
        record s { fds = s.fds ++ unused ∷ [] },
        act (readable 0 key) w,
        refl,
        tt,
        omega (arith, length-append s.fds (unused ∷ [])),
        refl,
      )

jobs-InTable : InTable 9 one_entry.resolution_jobs
unfolding InTable
jobs-InTable = (omega arith, (omega arith, tt))

-- Of the two jobs one is for a former user of descriptor 5; both are released.
handle_block_notifications-releases_example :
    (s' : Selector) × (w' : World) × (handle_block_notifications growing_handlers releasing
        one_entry
        ([], [])
      ≡ some (record s' { resolution_jobs = [] }, w'))
    × AnyState [] s' w'
    × (w'.1 ≡ releases one_entry.resolution_jobs)
handle_block_notifications-releases_example =
    handle_block_notifications-releases growing_handlers releasing AnyState (λ (w : World). w.1)
      growing-CallbacksReturn (λ j js s w i. (tt, λ c. tt)) (λ c d w. refl) one_entry ([], [])
      jobs-InTable tt

-- Descriptors 5 and 7 are in use, and the end of 5 is also that of 7.
abbrev partner : Item
partner = record { fd = some 7; interest = op_noop; handler = some 2; attachment = 70 }

abbrev paired : Selector
paired = placed one_entry 7 partner 7

-- The table has its size, and each item in use stands at its descriptor.
record IsSound (s : Selector) (w : World) : Type 0 where
  sized : length s.fds ≡ 9
  own : (j fd : ℕ) → (item_at s j).fd ≡ some fd → fd ≡ j

abbrev closing : Callback World
closing key s w =
    some (if key.fd == 5 then record s { fds = set s.fds 7 unused } else s, act (readable 2 key) w)

abbrev closing_handlers : ℕ → FdHandler World
closing_handlers h = record {
  handle_read = none;
  handle_write = none;
  handle_block_done = none;
  handle_close = some closing;
}

abbrev Closes : Callback World → Selector → World → ℕ → ℕ → Type 0
Closes f s w i own =
    (s' : Selector) × (w' : World) × (f (record { fd = own; attachment = (item_at s i).attachment })
        s w
      ≡ some (s', w'))
    × IsSound s' w'
    × ((item_at s' i).fd ≡ some own)
    × (length s'.fds ≡ length s.fds)
    × (s'.resolution_jobs ≡ s.resolution_jobs)
    × (w'.1 ≡ w.1)
    × OnlyFrees s s'
