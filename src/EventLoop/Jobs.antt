-- ===== src/EventLoop/Jobs.antt =====
-- The jobs that other threads have finished are delivered, and each is released once.
use socksv5_proxy.Base.{
  ℕ, ◌≤◌, ◌<◌, ◌≡◌, refl, sym, ap, ◌∙◌, arith, ◌==◌, ==_iff, if◌then◌else◌, Bool, true, false,
  Option, none, some, ◌>>=◌, List, [], ◌∷◌, ◌++◌, append_assoc, append-nil, length,
  get_elem?-eq-get_or,
}
use socksv5_proxy.Selector.{Selector, FdHandler, Callback, BlockingJob, unused, call_if}
use socksv5_proxy.Selector.Map.{item_at}
use socksv5_proxy.EventLoop.{notify, handle_job, clean, handle_jobs, handle_block_notifications}

-- The releases that are due: a function and the data it gets.
unfoldable pub releases : List BlockingJob → List (ℕ × ℕ)
releases [] = []
releases (j ∷ js) = elim j.cleanup [ none ↦ releases js | some c ↦ (c, j.attachment) ∷ releases js ]

-- The descriptors of the jobs lie in a table of this size.
unfoldable pub InTable : ℕ → List BlockingJob → Type 0
InTable n [] = Unit
InTable n (j ∷ js) = (j.fd < n) × InTable n js

InTable-mono : (n m : ℕ) (js : List BlockingJob) → n ≤ m → InTable n js → InTable m js
unfolding InTable
InTable-mono n m [] h inside = tt
InTable-mono n m (j ∷ js) h (inside, rest) = (omega arith, InTable-mono n m js h rest)

pub cleaned :
    {W : Type 0} (handlers : ℕ → FdHandler W) (cleanups : ℕ → ℕ → W → W) (log : W → List (ℕ × ℕ))
    → ((c d : ℕ) (w : W) → log (cleanups c d w) ≡ log w ++ (c, d) ∷ [])
    → (j : BlockingJob) (js : List BlockingJob) (w : W)
    → log (clean handlers cleanups j w) ++ releases js ≡ log w ++ releases (j ∷ js)
unfolding clean releases
cleaned handlers cleanups log logged j js w = go j.cleanup
  where
    go :
        (o : Option ℕ)
        → log (elim o [ none ↦ w | some c ↦ cleanups c j.attachment w ]) ++ releases js
          ≡ log w ++ elim o [ none ↦ releases js | some c ↦ (c, j.attachment) ∷ releases js ]
    go none = refl
    go (some c) =
        ap (λ (l : List (ℕ × ℕ)). l ++ releases js) (logged c j.attachment w)
        ∙ append_assoc (log w) ((c, j.attachment) ∷ []) (releases js)

-- `Inv` is what holds of the selector and the rest while the jobs in the list are left, and `log`
-- reads off which releases have happened.
module _ {W : Type 0} (handlers : ℕ → FdHandler W) (cleanups : ℕ → ℕ → W → W)
    (Inv : List BlockingJob → Selector → W → Type 0) (log : W → List (ℕ × ℕ)) where
  -- In such a state the callback for the next job, with the data of the item it belongs to,
  -- returns into such a state; it may change the selector and make the table larger, but not
  -- smaller, and releases nothing itself.
  abbrev pub CallbacksReturn : Type 0
  CallbacksReturn =
      (j : BlockingJob) (js : List BlockingJob) (s : Selector) (w : W) (fd h : ℕ) (f : Callback W)
      → Inv (j ∷ js) s w
      → (item_at s j.fd).fd ≡ some fd
      → (item_at s j.fd).attachment ≡ j.attachment
      → (item_at s j.fd).handler ≡ some h
      → (handlers h).handle_block_done ≡ some f
      → (s' : Selector) × (w' : W) × (f (record { fd = fd; attachment = j.attachment }) s w
          ≡ some (s', w'))
        × Inv (j ∷ js) s' w'
        × (length s.fds ≤ length s'.fds)
        × (log w' ≡ log w)

  -- A release is recorded, and the rest of the jobs is left.
  abbrev pub ReleasesKeep : Type 0
  ReleasesKeep =
      (j : BlockingJob) (js : List BlockingJob) (s : Selector) (w : W)
      → Inv (j ∷ js) s w
      → Inv js s w × ((c : ℕ) → Inv js s (cleanups c j.attachment w))

  -- What one job does to the table and to the log.
  record Delivered (r : Option (Selector × W)) (jobs : List BlockingJob) (s : Selector) (w : W)
      : Type 0 where
    s' : Selector
    w' : W
    returned : r ≡ some (s', w')
    inv : Inv jobs s' w'
    size : length s.fds ≤ length s'.fds
    kept : log w' ≡ log w

  as_it_was :
      (jobs : List BlockingJob) (s : Selector) (w : W)
      → Inv jobs s w
      → Delivered (some (s, w)) jobs s w
  as_it_was jobs s w i = record {
    s' = s;
    w' = w;
    returned = refl;
    inv = i;
    size = omega arith;
    kept = refl;
  }

  module _ (returns : CallbacksReturn) where
    called :
        (j : BlockingJob) (js : List BlockingJob) (s : Selector) (w : W) (fd : ℕ)
        → Inv (j ∷ js) s w
        → (item_at s j.fd).fd ≡ some fd
        → (item_at s j.fd).attachment ≡ j.attachment
        → Delivered
            (call_if
              ((item_at s j.fd).handler >>= λ h. (handlers h).handle_block_done)
              (record { fd = fd; attachment = j.attachment })
              s
              w)
            (j ∷ js)
            s
            w
    called j js s w fd i own same = go (item_at s j.fd).handler refl
      where
        go :
            (o : Option ℕ)
            → (item_at s j.fd).handler ≡ o
            → Delivered
                (call_if
                  (o >>= λ h. (handlers h).handle_block_done)
                  (record { fd = fd; attachment = j.attachment })
                  s
                  w)
                (j ∷ js)
                s
                w
        go none e = as_it_was (j ∷ js) s w i
        go (some h) e = at (handlers h).handle_block_done refl
          where
            at :
                (o : Option (Callback W))
                → (handlers h).handle_block_done ≡ o
                → Delivered
                    (call_if o (record { fd = fd; attachment = j.attachment }) s w)
                    (j ∷ js)
                    s
                    w
            at none q = as_it_was (j ∷ js) s w i
            at (some f) q =
                let (s', w', r, i', size, kept) = returns j js s w fd h f i own same e q in
                record { s' = s'; w' = w'; returned = r; inv = i'; size = size; kept = kept }

    notified :
        (j : BlockingJob) (js : List BlockingJob) (s : Selector) (w : W)
        → Inv (j ∷ js) s w
        → Delivered
            (notify handlers cleanups j (item_at s j.fd) (item_at s j.fd).fd s w)
            (j ∷ js)
            s
            w
    unfolding notify
    notified j js s w i = go (item_at s j.fd).fd refl
      where
        go :
            (o : Option ℕ)
            → (item_at s j.fd).fd ≡ o
            → Delivered (notify handlers cleanups j (item_at s j.fd) o s w) (j ∷ js) s w
        go none e = as_it_was (j ∷ js) s w i
        go (some fd) e = at ((item_at s j.fd).attachment == j.attachment) refl
          where
            at :
                (b : Bool)
                → ((item_at s j.fd).attachment == j.attachment) ≡ b
                → Delivered
                    (if b
                      then call_if
                          ((item_at s j.fd).handler >>= λ h. (handlers h).handle_block_done)
                          (record { fd = fd; attachment = (item_at s j.fd).attachment })
                          s
                          w
                      else some (s, w))
                    (j ∷ js)
                    s
                    w
            at true q =
                let same : (item_at s j.fd).attachment ≡ j.attachment =
                  (==_iff (item_at s j.fd).attachment j.attachment).0 q in
                rw same (called j js s w fd i e same)
            at false q = as_it_was (j ∷ js) s w i

    module _ (keeps : ReleasesKeep)
        (logged : (c d : ℕ) (w : W) → log (cleanups c d w) ≡ log w ++ (c, d) ∷ []) where
      clean-Inv :
          (j : BlockingJob) (js : List BlockingJob) (s : Selector) (w : W)
          → Inv (j ∷ js) s w
          → Inv js s (clean handlers cleanups j w)
      unfolding clean
      clean-Inv j js s w i = go j.cleanup
        where
          go : (o : Option ℕ) → Inv js s (elim o [ none ↦ w | some c ↦ cleanups c j.attachment w ])
          go none = (keeps j js s w i).0
          go (some c) = (keeps j js s w i).1 c

      delivered :
          (js : List BlockingJob) (s : Selector) (w : W)
          → InTable (length s.fds) js
          → Inv js s w
          → (s' : Selector) × (w' : W) × (handle_jobs handlers cleanups js s w ≡ some (s', w'))
            × Inv [] s' w'
            × (log w' ≡ log w ++ releases js)
      unfolding handle_jobs handle_job releases InTable
      delivered [] s w inside i = (s, w, refl, i, sym (append-nil (log w)))
      delivered (j ∷ js) s w (inside, rest) i =
          let d = notified j js s w i in
          let (s', w', e, i', l) =
            delivered js d.s' (clean handlers cleanups j d.w')
              (InTable-mono (length s.fds) (length d.s'.fds) js d.size rest)
              (clean-Inv j js d.s' d.w' d.inv) in
          (
            s',
            w',
            rw (get_elem?-eq-get_or s.fds j.fd unused inside, d.returned) e,
            i',
            l
                ∙ cleaned handlers cleanups log logged j js d.w'
                ∙ ap (λ (l : List (ℕ × ℕ)). l ++ releases (j ∷ js)) d.kept,
          )

      -- The delivery of the finished jobs returns, releases the data of each job that has a
      -- release function exactly once, in the order of the list, whether or not the descriptor is
      -- still registered for it, and leaves no job behind, in a state where no job is left. It
      -- holds where the descriptors of the jobs lie in the table, for callbacks that, in the
      -- states that occur, return, release nothing themselves and do not make the table smaller;
      -- they may register other descriptors, and make it larger.
      pub handle_block_notifications-releases :
          (s : Selector) (w : W)
          → InTable (length s.fds) s.resolution_jobs
          → Inv s.resolution_jobs s w
          → (s' : Selector) × (w' : W) × (handle_block_notifications handlers cleanups s w
              ≡ some (record s' { resolution_jobs = [] }, w'))
            × Inv [] s' w'
            × (log w' ≡ log w ++ releases s.resolution_jobs)
      unfolding handle_block_notifications
      handle_block_notifications-releases s w inside i =
          let (s₁, w', e, i', l) = delivered s.resolution_jobs s w inside i in
          (s₁, w', rw e refl, i', l)
