-- ===== src/Selector/Closing.antt =====
-- Unregistering a descriptor whose close callback may unregister others.
use socksv5_proxy.Base.{
  ℕ, ◌+◌, ◌<◌, ◌==◌, ==_iff, ◌≡◌, refl, ap, ◌∙◌, arith, Bool-cases, inl, inr, true, false,
  if◌then◌else◌, Option, none, some, List, length, length-set, set, take, get_elem?-eq-get_or, pos,
}
use socksv5_proxy.Selector.{
  Selector, FdHandler, Callback, is_used, unused, op_noop, forget, items_max_fd,
  items_update_fdset_for_fd, call_if, close_callback, selector_unregister_fd, selector_success,
}
use socksv5_proxy.Selector.Map.{item_at, with_fd_small, get_or-set}
use socksv5_proxy.Selector.Unregister.{used_fd, fd_used}

-- What is not in use in the first selector is not in use in the second one.
abbrev pub OnlyFrees : Selector → Selector → Type 0
OnlyFrees s s' = (j : ℕ) → is_used (item_at s j) ≡ false → is_used (item_at s' j) ≡ false

-- The end of an unregistration returns, and frees the item.
pub forget_frees :
    (s : Selector) (i own : ℕ)
    → i < length s.fds
    → (item_at s i).fd ≡ some own
    → (s' : Selector) × (forget s i ≡ some s')
      × (length s'.fds ≡ length s.fds)
      × (s'.resolution_jobs ≡ s.resolution_jobs)
      × ((j : ℕ) → item_at s' j ≡ (if j == i then unused else item_at s j))
      × (is_used (item_at s' i) ≡ false)
      × OnlyFrees s s'
unfolding forget items_update_fdset_for_fd
forget_frees s i own inside e =
    let s₁ = items_update_fdset_for_fd s own op_noop in
    let fds = set s.fds i unused in
    let same : (i == i) ≡ true = (==_iff i i).1 refl in
    (
      record s₁ { fds = fds; max_fd = items_max_fd (take (s.max_fd + 1) fds) 0 },
      rw (get_elem?-eq-get_or s.fds i unused inside, e) refl,
      length-set s.fds i unused,
      refl,
      λ j. get_or-set s.fds i unused j inside,
      ap is_used (get_or-set s.fds i unused i inside) ∙ rw same refl,
      λ j free.
          ap is_used (get_or-set s.fds i unused j inside)
          ∙ elim (Bool-cases (j == i)) [ inl q ↦ rw q refl | inr q ↦ rw q free ],
    )

-- `Inv` is what holds of the selector and the rest between the unregistrations, and `log` reads
-- off which releases have happened.
module _ {W : Type 0} (handlers : ℕ → FdHandler W) (Inv : Selector → W → Type 0)
    (log : W → List (ℕ × ℕ)) where
  -- In such a state the close callback of an item in use returns into such a state. It may take
  -- other descriptors out of the table, but registers none and leaves the item itself, the size of
  -- the table and the jobs.
  abbrev pub ClosesReturn : Type 0
  ClosesReturn =
      (s : Selector) (w : W) (i own h : ℕ) (f : Callback W)
      → Inv s w
      → (item_at s i).fd ≡ some own
      → (item_at s i).handler ≡ some h
      → (handlers h).handle_close ≡ some f
      → (s' : Selector) × (w' : W) × (f (record { fd = own; attachment = (item_at s i).attachment })
            s w
          ≡ some (s', w'))
        × Inv s' w'
        × ((item_at s' i).fd ≡ some own)
        × (length s'.fds ≡ length s.fds)
        × (s'.resolution_jobs ≡ s.resolution_jobs)
        × (log w' ≡ log w)
        × OnlyFrees s s'

  -- The rest of the unregistration keeps it, and only descriptors that can be watched are in use.
  abbrev pub ForgetKeeps : Type 0
  ForgetKeeps =
      (s s' : Selector) (w : W) (i : ℕ)
      → Inv s w
      → is_used (item_at s i) ≡ true
      → (i < 1024) × (forget s i ≡ some s' → Inv s' w)

  -- What an item that is passed leaves.
  pub record Passed (s : Selector) (w : W) (s' : Selector) (w' : W) : Type 0 where
    pub inv : Inv s' w'
    pub size : length s'.fds ≡ length s.fds
    pub jobs : s'.resolution_jobs ≡ s.resolution_jobs
    pub kept : log w' ≡ log w
    pub frees : OnlyFrees s s'

  pub as_it_was : (s : Selector) (w : W) → Inv s w → Passed s w s w
  as_it_was s w v = record {
    inv = v;
    size = refl;
    jobs = refl;
    kept = refl;
    frees = λ j free. free;
  }

  -- A call returns, and leaves the item.
  abbrev Closed : Option (Selector × W) → Selector → W → ℕ → ℕ → Type 0
  Closed r s w i own =
      (s' : Selector) × (w' : W) × (r ≡ some (s', w'))
      × Passed s w s' w'
      × ((item_at s' i).fd ≡ some own)

  module _ (returns : ClosesReturn) (keeps : ForgetKeeps) where
    closed :
        (i own : ℕ) (s : Selector) (w : W)
        → Inv s w
        → (item_at s i).fd ≡ some own
        → Closed
            (call_if
              (close_callback handlers (item_at s i).handler)
              (record { fd = own; attachment = (item_at s i).attachment })
              s
              w)
            s
            w
            i
            own
    unfolding close_callback
    closed i own s w v e = go (item_at s i).handler refl
      where
        go :
            (o : Option ℕ)
            → (item_at s i).handler ≡ o
            → Closed
                (call_if
                  (close_callback handlers o)
                  (record { fd = own; attachment = (item_at s i).attachment })
                  s
                  w)
                s
                w
                i
                own
        go none q = (s, w, refl, as_it_was s w v, e)
        go (some h) q = at (handlers h).handle_close refl
          where
            at :
                (o : Option (Callback W))
                → (handlers h).handle_close ≡ o
                → Closed
                    (call_if o (record { fd = own; attachment = (item_at s i).attachment }) s w)
                    s
                    w
                    i
                    own
            at none c = (s, w, refl, as_it_was s w v, e)
            at (some f) c =
                let (s', w', r, v', e', size, jobs, kept, frees) = returns s w i own h f v e q c in
                (
                  s',
                  w',
                  r,
                  record { inv = v'; size = size; jobs = jobs; kept = kept; frees = frees },
                  e',
                )

    -- An item that is passed is not in use behind it.
    pub unregister_frees :
        (i : ℕ) (s : Selector) (w : W)
        → i < length s.fds
        → Inv s w
        → is_used (item_at s i) ≡ true
        → (s' : Selector) × (w' : W) × (selector_unregister_fd handlers s w (pos i)
            ≡ some (s', w', selector_success))
          × Passed s w s' w'
          × (is_used (item_at s' i) ≡ false)
    unfolding selector_unregister_fd
    unregister_frees i s w inside v u =
        let (own, e) = used_fd (item_at s i) u in
        let (s₁, w₁, r, p, e') = closed i own s w v e in
        let u' : is_used (item_at s₁ i) ≡ true = fd_used (item_at s₁ i) own e' in
        let (s₂, q, size, jobs, items, gone, frees) =
          forget_frees s₁ i own (omega (arith, p.size)) e' in
        let moved : (length s₁.fds == length s.fds) ≡ true =
          (==_iff (length s₁.fds) (length s.fds)).1 p.size in
        (
          s₂,
          w₁,
          rw
              (
                with_fd_small i _ _ (keeps s s w i v u).0,
                get_elem?-eq-get_or s.fds i unused inside,
                u,
                e,
                r,
                moved,
                q,
              )
              refl,
          record {
            inv = (keeps s₁ s₂ w₁ i p.inv u').1 q;
            size = size ∙ p.size;
            jobs = jobs ∙ p.jobs;
            kept = p.kept;
            frees = λ j free. frees j (p.frees j free);
          },
          gone,
        )
