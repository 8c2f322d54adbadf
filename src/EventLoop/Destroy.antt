-- ===== src/EventLoop/Destroy.antt =====
-- The end of the selector.
use socksv5_proxy.Base.{
  ℕ, zero, suc, ◌≤◌, ◌≡◌, refl, arith, false, Option, some, List, [], ◌∷◌, length, get_or,
}
use socksv5_proxy.Selector.{Selector, FdHandler, Item, is_used, unused}
use socksv5_proxy.Selector.Map.{item_at}

pub get_or_behind : (xs : List Item) (i : ℕ) → length xs ≤ i → get_or xs i unused ≡ unused
get_or_behind [] i h = refl
get_or_behind (x ∷ xs) zero h = absurd (omega arith)
get_or_behind (x ∷ xs) (suc i) h = get_or_behind xs i (omega arith)

-- `Inv` is what holds of the selector and the rest between the unregistrations, and `log` reads
-- off which releases have happened.
module _ {W : Type 0} (handlers : ℕ → FdHandler W) (cleanups : ℕ → ℕ → W → W)
    (Inv : Selector → W → Type 0) (log : W → List (ℕ × ℕ)) where
  -- The items are passed, and none is in use behind them.
  record Emptied (r : Option (Selector × W)) (s : Selector) (w : W) : Type 0 where
    s' : Selector
    w' : W
    returned : r ≡ some (s', w')
    jobs : s'.resolution_jobs ≡ s.resolution_jobs
    kept : log w' ≡ log w
    unused_all : (j : ℕ) → is_used (item_at s' j) ≡ false
