-- ===== src/Selector/Unregister.antt =====
-- Taking a descriptor out of the table.
use socksv5_proxy.Base.{
  ℕ, zero, suc, ◌+◌, ◌≤◌, ◌<◌, ◌≡◌, refl, sym, ap, subst, ◌⊎◌, ◌∙◌, arith, ltb, ◌==◌, ==_iff,
  if◌then◌else◌, Bool-cases, inl, inr, true, false, Option, none, some, List, [], ◌∷◌, length, take,
  get_elem?-eq-get_or, get_or, set, pos,
}
use socksv5_proxy.Selector.{
  Selector, Item, unused, is_used, items_max_fd, items_update_fdset_for_fd, forget, FdHandler,
  call_if, close_callback, selector_unregister_fd, selector_success,
}
use socksv5_proxy.Selector.Map.{
  IsConsistent, item_at, registered, placed, placed-IsConsistent, with_fd_small, registered-placed,
  get_or-set,
}

items_max_fd_ge : (xs : List Item) (acc : ℕ) → acc ≤ items_max_fd xs acc
unfolding items_max_fd
items_max_fd_ge [] acc = omega arith
items_max_fd_ge (x ∷ xs) acc = go x.fd (items_max_fd_ge xs)
  where
    go :
        (o : Option ℕ)
        → ((a : ℕ) → a ≤ items_max_fd xs a)
        → acc ≤ items_max_fd xs (elim o [ none ↦ acc | some fd ↦ if ltb acc fd then fd else acc ])
    go none rest = rest acc
    go (some fd) rest = ground (arith, rest fd, rest acc)

items_max_fd_at :
    (xs : List Item) (j k acc : ℕ) → (get_or xs j unused).fd ≡ some k → k ≤ items_max_fd xs acc
unfolding items_max_fd
items_max_fd_at [] j k acc e = absurd (cc e)
items_max_fd_at (x ∷ xs) zero k acc e =
    rw e (ground (arith, items_max_fd_ge xs (if ltb acc k then k else acc)))
items_max_fd_at (x ∷ xs) (suc j) k acc e = items_max_fd_at xs j k _ e

-- What `items_max_fd` returns is that of an item, or what it started from.
items_max_fd_reached :
    (xs : List Item) (acc : ℕ)
    → (items_max_fd xs acc ≡ acc)
      ⊎ ((j : ℕ) × ((get_or xs j unused).fd ≡ some (items_max_fd xs acc)))
unfolding items_max_fd
items_max_fd_reached [] acc = inl refl
items_max_fd_reached (x ∷ xs) acc = go x.fd refl (items_max_fd_reached xs)
  where
    go :
        (o : Option ℕ)
        → x.fd ≡ o
        → ((a : ℕ)
            → (items_max_fd xs a ≡ a)
              ⊎ ((j : ℕ) × ((get_or xs j unused).fd ≡ some (items_max_fd xs a))))
        → let m : ℕ = elim o [ none ↦ acc | some fd ↦ if ltb acc fd then fd else acc ] in
          (items_max_fd xs m ≡ acc)
          ⊎ ((j : ℕ) × ((get_or (x ∷ xs) j unused).fd ≡ some (items_max_fd xs m)))
    go none e rest = elim (rest acc) [ inl q ↦ inl q | inr (j, q) ↦ inr (suc j, q) ]
    go (some fd) e rest = elim (Bool-cases (ltb acc fd)) [
      | inl larger ↦
          let found : (items_max_fd xs fd ≡ acc)
              ⊎ ((j : ℕ) × ((get_or (x ∷ xs) j unused).fd ≡ some (items_max_fd xs fd))) =
            elim (rest fd) [ inl q ↦ inr (0, e ∙ ap some (sym q)) | inr (j, q) ↦ inr (suc j, q) ] in
          rw larger found
      | inr smaller ↦
          let found : (items_max_fd xs acc ≡ acc)
              ⊎ ((j : ℕ) × ((get_or (x ∷ xs) j unused).fd ≡ some (items_max_fd xs acc))) =
            elim (rest acc) [ inl q ↦ inl q | inr (j, q) ↦ inr (suc j, q) ] in
          rw smaller found
    ]

get_or-take_used :
    (xs : List Item) (n j k : ℕ)
    → (get_or (take n xs) j unused).fd ≡ some k
    → (get_or xs j unused).fd ≡ some k
get_or-take_used xs zero j k e = absurd (cc e)
get_or-take_used [] (suc n) j k e = absurd (cc e)
get_or-take_used (x ∷ xs) (suc n) zero k e = e
get_or-take_used (x ∷ xs) (suc n) (suc j) k e = get_or-take_used xs n j k e

-- `max_fd` is 0, or a descriptor that is registered.
abbrev pub IsReached : Selector → Type 0
IsReached s = (s.max_fd ≡ 0) ⊎ (is_used (item_at s s.max_fd) ≡ true)

get_or-take : (xs : List Item) (n j : ℕ) → j < n → get_or (take n xs) j unused ≡ get_or xs j unused
get_or-take xs zero j h = absurd (omega arith)
get_or-take [] (suc n) j h = refl
get_or-take (x ∷ xs) (suc n) zero h = refl
get_or-take (x ∷ xs) (suc n) (suc j) h = get_or-take xs n j (omega arith)

pub used_fd : (i : Item) → is_used i ≡ true → (fd : ℕ) × (i.fd ≡ some fd)
used_fd i u = go i.fd u
  where
    go : (o : Option ℕ) → elim o [ none ↦ false | some fd ↦ true ] ≡ true → (fd : ℕ) × (o ≡ some fd)
    go none u = absurd (cc u)
    go (some fd) u = (fd, refl)

-- The largest descriptor once the item at `fd` is cleared.
abbrev cleared_max : Selector → ℕ → ℕ
cleared_max s fd = items_max_fd (take (s.max_fd + 1) (set s.fds fd unused)) 0

cleared_max-top :
    (s : Selector) (fd : ℕ)
    → IsConsistent s
    → fd < length s.fds
    → (j : ℕ) → is_used (if j == fd then unused else item_at s j) ≡ true
    → j ≤ cleared_max s fd
cleared_max-top s fd c inside j = elim (Bool-cases (j == fd)) [
  | inl q ↦ rw q (λ v. absurd (cc v))
  | inr q ↦ rw q (λ v.
      let (k, own) = used_fd (item_at s j) v in
      let own' : (item_at s j).fd ≡ some j = own ∙ ap some (c.own j k own) in
      let low : j < s.max_fd + 1 = omega (arith, c.top j v) in
      items_max_fd_at (take (s.max_fd + 1) (set s.fds fd unused)) j j 0 (
        ap (λ (i : Item). i.fd) (get_or-take (set s.fds fd unused) (s.max_fd + 1) j low)
        ∙ ap (λ (i : Item). i.fd) (get_or-set s.fds fd unused j inside)
        ∙ rw q own'))
]

pub fd_used : (i : Item) (k : ℕ) → i.fd ≡ some k → is_used i ≡ true
fd_used i k e = rw e refl

cleared-IsReached :
    (s : Selector) (fd : ℕ)
    → IsConsistent (placed s fd unused (cleared_max s fd))
    → IsReached (placed s fd unused (cleared_max s fd))
cleared-IsReached s fd c =
    elim (items_max_fd_reached (take (s.max_fd + 1) (set s.fds fd unused)) 0) [
      | inl e ↦ inl e
      | inr (j, e) ↦
          let t = placed s fd unused (cleared_max s fd) in
          let held : (item_at t j).fd ≡ some t.max_fd =
            get_or-take_used (set s.fds fd unused) (s.max_fd + 1) j t.max_fd e in
          let used : is_used (item_at t j) ≡ true = fd_used (item_at t j) t.max_fd held in
          inr (subst (λ (k : ℕ). is_used (item_at t k) ≡ true) (sym (c.own j t.max_fd held)) used)
    ]

-- What is left once the item at `fd` is cleared.
forget_lem :
    (s : Selector) (fd : ℕ)
    → IsConsistent s
    → fd < length s.fds
    → is_used (item_at s fd) ≡ true
    → (s' : Selector) × (forget s fd ≡ some s')
      × IsConsistent s'
      × IsReached s'
      × ((j : ℕ) → registered s' j ≡ (if j == fd then none else registered s j))
unfolding forget items_update_fdset_for_fd
forget_lem s fd c inside u =
    let (k, own) = used_fd (item_at s fd) u in
    let own' : (item_at s fd).fd ≡ some fd = own ∙ ap some (c.own fd k own) in
    let c' =
      placed-IsConsistent s fd unused (cleared_max s fd) inside c (λ n q. absurd (cc q))
        (cleared_max-top s fd c inside) in
    (
      placed s fd unused (cleared_max s fd),
      rw (get_elem?-eq-get_or s.fds fd unused inside, own') refl,
      c',
      cleared-IsReached s fd c',
      registered-placed s fd unused (cleared_max s fd) inside,
    )

-- `selector_unregister_fd` runs the close callback of a registered descriptor and, where the
-- callback leaves a table of the same size in which the descriptor is still registered, takes the
-- descriptor out of the map; no other changes, the sets of select(2) follow, and `max_fd` is then
-- the largest descriptor that is registered, or 0.
pub unregister_removes :
    {W : Type 0} (handlers : ℕ → FdHandler W) (s s₁ : Selector) (w w₁ : W) (fd : ℕ)
    → IsConsistent s
    → fd < 1024
    → fd < length s.fds
    → is_used (item_at s fd) ≡ true
    → call_if
        (close_callback handlers (item_at s fd).handler)
        (record { fd = fd; attachment = (item_at s fd).attachment })
        s
        w
      ≡ some (s₁, w₁)
    → IsConsistent s₁
    → length s₁.fds ≡ length s.fds
    → is_used (item_at s₁ fd) ≡ true
    → (s' : Selector) × (selector_unregister_fd handlers s w (pos fd)
        ≡ some (s', w₁, selector_success))
      × IsConsistent s'
      × IsReached s'
      × ((j : ℕ) → registered s' j ≡ (if j == fd then none else registered s₁ j))
unfolding selector_unregister_fd
unregister_removes {W} handlers s s₁ w w₁ fd c lt inside u call c₁ same u₁ =
    let moved : (length s₁.fds == length s.fds) ≡ true =
      (==_iff (length s₁.fds) (length s.fds)).1 same in
    let (k, own) = used_fd (item_at s fd) u in
    let own' : (item_at s fd).fd ≡ some fd = own ∙ ap some (c.own fd k own) in
    let inside₁ : fd < length s₁.fds = rw same inside in
    let (s', e, c', top, r) = forget_lem s₁ fd c₁ inside₁ u₁ in
    (
      s',
      rw
          (
            with_fd_small fd _ _ lt,
            get_elem?-eq-get_or s.fds fd unused inside,
            u,
            own',
            call,
            moved,
            e,
          )
          refl,
      c',
      top,
      r,
    )
