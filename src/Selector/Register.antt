-- ===== src/Selector/Register.antt =====
-- Registering a descriptor, and changing what is asked of it.
use socksv5_proxy.Base.{
  ℕ, ◌-◌, ◌<◌, ◌≡◌, ◌≢◌, refl, ap, ◌∙◌, arith, ltb, ◌==◌, ==_iff, if◌then◌else◌, Bool, Bool-cases,
  inl, inr, true, false, Option, none, some, List, [], ◌∷◌, ◌++◌, length, length-append,
  length-replicate, get_elem?, get_elem?-eq-get_or, replicate, pos,
}
use socksv5_proxy.Socks5.{Interest}
use socksv5_proxy.Selector.{
  Selector, Item, unused, is_used, ensure_capacity, next_capacity, enter, items_update_fdset_for_fd,
  selector_register, selector_set_interest, selector_success, selector_fdinuse,
}
use socksv5_proxy.Selector.Capacity.{next_capacity_bounds}
use socksv5_proxy.Selector.Map.{
  Watch, IsConsistent, item_at, registered, watch, placed, placed-IsConsistent, with_fd_small,
  registered-placed, get_or-append_unused,
}

-- The table with more room.
abbrev grown : Selector → ℕ → Selector
grown s n = record s { fds = s.fds ++ replicate n unused }

grown-IsConsistent : (s : Selector) (n : ℕ) → IsConsistent s → IsConsistent (grown s n)
grown-IsConsistent s n c = record {
  own = λ j. rw (get_or-append_unused s.fds n j) (c.own j);
  reads = λ j. rw (get_or-append_unused s.fds n j) (c.reads j);
  writes = λ j. rw (get_or-append_unused s.fds n j) (c.writes j);
  top = λ j. rw (get_or-append_unused s.fds n j) (c.top j);
}

registered-grown : (s : Selector) (n j : ℕ) → registered (grown s n) j ≡ registered s j
registered-grown s n j = ap watch (get_or-append_unused s.fds n j)

unwatched : (i : Item) → watch i ≡ none → is_used i ≡ false
unwatched i e = go i.fd e
  where
    go :
        (o : Option ℕ)
        → ◌≡◌ {A = Option Watch}
            (elim o [
              | none ↦ none
              | some fd ↦
                  some (record {
                    handler = i.handler;
                    interest = i.interest;
                    attachment = i.attachment;
                  })
            ])
            none
        → elim o [ none ↦ false | some fd ↦ true ] ≡ false
    go none e = refl
    go (some fd) e = absurd (cc e)

watched :
    (it : Item) (i : Interest) {w : Watch}
    → watch it ≡ some w
    → (is_used it ≡ true) × (watch (record it { interest = i }) ≡ some (record w { interest = i }))
watched it i {w} e = go it.fd e
  where
    go :
        (o : Option ℕ)
        → ◌≡◌ {A = Option Watch}
            (elim o [
              | none ↦ none
              | some fd ↦ some (record {
                handler = it.handler;
                interest = it.interest;
                attachment = it.attachment;
              })
            ])
            (some w)
        → ((elim o [ none ↦ false | some fd ↦ true ]) ≡ true)
          × (◌≡◌ {A = Option Watch}
              (elim o [
                | none ↦ none
                | some fd ↦
                    some (record { handler = it.handler; interest = i; attachment = it.attachment })
              ])
              (some (record w { interest = i })))
    go none e = absurd (cc e)
    go (some fd) e =
        let q : ◌≡◌ {A = Watch}
            (record { handler = it.handler; interest = it.interest; attachment = it.attachment })
            w =
          cc e in
        (refl, ap {A = Watch} (λ v. some (record v { interest = i })) q)

-- What a registration that succeeds does.
record Entered (s : Selector) (fd h : ℕ) (i : Interest) (d : ℕ) (s' : Selector) : Type 0 where
  consistent : IsConsistent s'
  added :
      (j : ℕ)
      → registered s' j ≡ (
          if j == fd
          then some (record { handler = some h; interest = i; attachment = d })
          else registered s j)

entered :
    (s : Selector) (fd h : ℕ) (i : Interest) (d : ℕ)
    → IsConsistent s
    → fd < length s.fds
    → registered s fd ≡ none
    → (s' : Selector) × (enter s fd h i d ≡ some (s', selector_success)) × Entered s fd h i d s'
unfolding enter items_update_fdset_for_fd
entered s fd h i d c inside free =
    let it : Item = record { fd = some fd; handler = some h; interest = i; attachment = d } in
    let m = if ltb s.max_fd fd then fd else s.max_fd in
    (
      placed s fd it m,
      rw (get_elem?-eq-get_or s.fds fd unused inside, unwatched (item_at s fd) free) refl,
      record {
        consistent =
            placed-IsConsistent s fd it m inside c (λ k q. cc q)
              (λ j u. elim (Bool-cases (j == fd)) [
                | inl e ↦ ground arith
                | inr e ↦ ground (arith, c.top j)
              ]);
        added = registered-placed s fd it m inside;
      },
    )

ensure_capacity-grown :
    (s : Selector) (fd : ℕ)
    → fd < 1024
    → length s.fds < fd
    → ensure_capacity s fd true ≡ (grown s (next_capacity fd - length s.fds), selector_success)
unfolding ensure_capacity
ensure_capacity-grown s fd lt short =
    let old : ltb fd (length s.fds) ≡ false = ground arith in
    let few : ltb 1024 fd ≡ false = ground arith in rw (old, few) refl

-- `selector_register` adds a descriptor below 1024 that is not registered to the map and changes
-- no other, grows the table where it is too short, and keeps the sets of select(2) in step with
-- the map; the descriptor may not be the one just behind the table.
pub register_adds :
    (s : Selector) (fd h : ℕ) (i : Interest) (d : ℕ)
    → IsConsistent s
    → fd < 1024
    → fd ≢ length s.fds
    → registered s fd ≡ none
    → (s' : Selector) × (selector_register s (pos fd) (some h) i d true
        ≡ some (s', selector_success))
      × IsConsistent s'
      × ((j : ℕ)
          → registered s' j ≡ (
              if j == fd
              then some (record { handler = some h; interest = i; attachment = d })
              else registered s j))
unfolding selector_register
register_adds s fd h i d c lt ne free = elim (Bool-cases (ltb (length s.fds) fd)) [
  | inr fits ↦
      let (s', e, z) = entered s fd h i d c (ground arith) free in
      (s', rw (with_fd_small fd _ _ lt, fits) e, z.consistent, z.added)
  | inl short ↦
      let n = next_capacity fd - length s.fds in
      let room = ensure_capacity-grown s fd lt (ground arith) in
      let inside : fd < length (grown s n).fds = omega (
        arith,
        next_capacity_bounds fd (omega arith),
        length-append s.fds (replicate n unused),
        length-replicate n unused,
      ) in
      let (s', e, z) =
        entered (grown s n) fd h i d (grown-IsConsistent s n c) inside
          (registered-grown s n fd ∙ free) in
      (
        s',
        rw (with_fd_small fd _ _ lt, short, room) (rw room e),
        z.consistent,
        λ j.
            z.added j
            ∙ ap
                (λ t.
                  if j == fd
                  then some (record { handler = some h; interest = i; attachment = d })
                  else t)
                (registered-grown s n j),
      )
]

-- A descriptor that is registered already is refused, and nothing changes.
register_twice :
    (s : Selector) (fd h : ℕ) (i : Interest) (d : ℕ)
    → fd < length s.fds
    → fd < 1024
    → is_used (item_at s fd) ≡ true
    → selector_register s (pos fd) (some h) i d true ≡ some (s, selector_fdinuse)
unfolding selector_register enter
register_twice s fd h i d inside lt u =
    let fits : ltb (length s.fds) fd ≡ false = ground arith in
    rw (with_fd_small fd _ _ lt, fits, get_elem?-eq-get_or s.fds fd unused inside, u) refl

behind : (xs : List Item) → get_elem? xs (length xs) ≡ none
behind [] = refl
behind (x ∷ xs) = behind xs

-- The descriptor just behind the table, where it is below 1024, is not taken for too large: the
-- table does not grow, and the code goes on with the item behind its end.
pub register_behind :
    (s : Selector) (h : ℕ) (i : Interest) (d : ℕ) (memory : Bool)
    → length s.fds < 1024
    → selector_register s (pos (length s.fds)) (some h) i d memory ≡ none
unfolding selector_register enter
register_behind s h i d memory lt =
    let fits : ltb (length s.fds) (length s.fds) ≡ false = ground arith in
    rw (with_fd_small (length s.fds) _ _ lt, fits, behind s.fds) refl

-- `selector_set_interest` changes what is asked of a registered descriptor, and nothing else, and
-- the sets of select(2) follow.
set_interest_changes :
    (s : Selector) (fd : ℕ) (i : Interest) {w : Watch}
    → IsConsistent s
    → fd < 1024
    → fd < length s.fds
    → registered s fd ≡ some w
    → (s' : Selector) × (selector_set_interest s (pos fd) i ≡ some (s', selector_success))
      × IsConsistent s'
      × ((j : ℕ)
          → registered s' j
            ≡ (if j == fd then some (record w { interest = i }) else registered s j))
unfolding selector_set_interest items_update_fdset_for_fd
set_interest_changes s fd i {w} c lt inside e =
    let it = item_at s fd in
    let it' : Item = record it { interest = i } in
    let (used, same) = watched it i e in
    (
      placed s fd it' s.max_fd,
      rw (with_fd_small fd _ _ lt, get_elem?-eq-get_or s.fds fd unused inside, used) refl,
      placed-IsConsistent s fd it' s.max_fd inside c (c.own fd) (λ j u.
          elim (Bool-cases (j == fd)) [
            | inl q ↦ rw ((==_iff j fd).0 q) (c.top fd used)
            | inr q ↦ c.top j (rw q at u)
          ]),
      λ j.
          registered-placed s fd it' s.max_fd inside j
          ∙ ap (λ t. if j == fd then t else registered s j) same,
    )
