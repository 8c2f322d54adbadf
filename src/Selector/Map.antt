-- ===== src/Selector/Map.antt =====
-- The table and the two sets of descriptors together are a finite map from descriptors.
use socksv5_proxy.Base.{
  ℕ, zero, suc, ◌≤◌, ◌<◌, ◌≡◌, refl, sym, ap, ◌∙◌, arith, ◌==◌, ==_iff, ◌&&◌, if◌then◌else◌,
  Bool-cases, inl, inr, true, false, Option, none, some, List, [], ◌∷◌, ◌++◌, length, get_or, set,
  replicate, leb, pos,
}
use socksv5_proxy.Socks5.{Interest}
use socksv5_proxy.Selector.{Selector, Item, unused, is_used, fd_put, with_fd}

pub with_fd_small :
    {A : Type 0} (fd : ℕ) (bad : A) (k : ℕ → A) → fd < 1024 → with_fd (pos fd) bad k ≡ k fd
unfolding with_fd
with_fd_small fd bad k h = let valid : leb 1024 fd ≡ false = ground arith in rw valid refl

pub with_fd_large :
    {A : Type 0} (fd : ℕ) (bad : A) (k : ℕ → A) → 1024 ≤ fd → with_fd (pos fd) bad k ≡ bad
unfolding with_fd
with_fd_large fd bad k h = let valid : leb 1024 fd ≡ true = ground arith in rw valid refl

-- What lies at an index, and behind the table.
abbrev pub item_at : Selector → ℕ → Item
item_at s j = get_or s.fds j unused

pub record Watch : Type 0 where
  pub handler : Option ℕ
  pub interest : Interest
  pub attachment : ℕ

abbrev pub watch : Item → Option Watch
watch i = elim i.fd [
  | none ↦ none
  | some fd ↦
      some (record { handler = i.handler; interest = i.interest; attachment = i.attachment })
]

-- The abstract map.
abbrev pub registered : Selector → ℕ → Option Watch
registered s j = watch (item_at s j)

abbrev pub Owns : Item → ℕ → Type 0
Owns i j = (fd : ℕ) → i.fd ≡ some fd → fd ≡ j

-- Each item in use stands at its descriptor, the sets hold what the items ask for, and `max_fd` is
-- not below an item in use.
pub record IsConsistent (s : Selector) : Type 0 where
  pub own : (j : ℕ) → Owns (item_at s j) j
  pub reads : (j : ℕ) → s.master_r j ≡ (is_used (item_at s j) && (item_at s j).interest.op_read)
  pub writes : (j : ℕ) → s.master_w j ≡ (is_used (item_at s j) && (item_at s j).interest.op_write)
  pub top : (j : ℕ) → is_used (item_at s j) ≡ true → j ≤ s.max_fd

pub get_or-set :
    (xs : List Item) (k : ℕ) (v : Item) (j : ℕ)
    → k < length xs
    → get_or (set xs k v) j unused ≡ (if j == k then v else get_or xs j unused)
get_or-set [] k v j h = absurd (omega arith)
get_or-set (x ∷ xs) zero v zero h = refl
get_or-set (x ∷ xs) zero v (suc j) h = ground arith
get_or-set (x ∷ xs) (suc k) v zero h = ground arith
get_or-set (x ∷ xs) (suc k) v (suc j) h = ground (arith, get_or-set xs k v j)

pub get_or-replicate : (n j : ℕ) → get_or (replicate n unused) j unused ≡ unused
get_or-replicate zero j = refl
get_or-replicate (suc n) zero = refl
get_or-replicate (suc n) (suc j) = get_or-replicate n j

-- Room behind the items in use changes nothing.
pub get_or-append_unused :
    (xs : List Item) (n j : ℕ) → get_or (xs ++ replicate n unused) j unused ≡ get_or xs j unused
get_or-append_unused [] n j = get_or-replicate n j
get_or-append_unused (x ∷ xs) n zero = refl
get_or-append_unused (x ∷ xs) n (suc j) = get_or-append_unused xs n j

-- The item `it` is written at `k`, the sets follow it, and `max_fd` becomes `m`.
abbrev pub placed : Selector → ℕ → Item → ℕ → Selector
placed s k it m = record s {
  fds = set s.fds k it;
  max_fd = m;
  master_r = fd_put s.master_r k (is_used it && it.interest.op_read);
  master_w = fd_put s.master_w k (is_used it && it.interest.op_write);
}

module _ (s : Selector) (k : ℕ) (it : Item) (m : ℕ) (inside : k < length s.fds) where
  pub item_at-placed : (j : ℕ) → item_at (placed s k it m) j ≡ (if j == k then it else item_at s j)
  item_at-placed j = get_or-set s.fds k it j inside

  pub registered-placed :
      (j : ℕ) → registered (placed s k it m) j ≡ (if j == k then watch it else registered s j)
  registered-placed j = elim (Bool-cases (j == k)) [
    | inl e ↦ rw (item_at-placed j, e)
    | inr e ↦ rw (item_at-placed j, e)
  ]

  pub placed-IsConsistent :
      IsConsistent s
      → Owns it k
      → ((j : ℕ) → is_used (if j == k then it else item_at s j) ≡ true → j ≤ m)
      → IsConsistent (placed s k it m)
  placed-IsConsistent c o t = record {
    own = own;
    reads = reads;
    writes = writes;
    top = λ j u. t j (ap is_used (sym (item_at-placed j)) ∙ u);
  }
    where
      own : (j : ℕ) → Owns (item_at (placed s k it m) j) j
      own j = elim (Bool-cases (j == k)) [
        | inl e ↦ rw (item_at-placed j, e) (λ fd q. o fd q ∙ sym ((==_iff j k).0 e))
        | inr e ↦ rw (item_at-placed j, e) (c.own j)
      ]

      reads :
          (j : ℕ)
          → fd_put s.master_r k (is_used it && it.interest.op_read) j ≡ (
              is_used (item_at (placed s k it m) j)
              && (item_at (placed s k it m) j).interest.op_read)
      reads j = elim (Bool-cases (j == k)) [
        | inl e ↦ rw (item_at-placed j, e)
        | inr e ↦ rw (item_at-placed j, e) (c.reads j)
      ]

      writes :
          (j : ℕ)
          → fd_put s.master_w k (is_used it && it.interest.op_write) j ≡ (
              is_used (item_at (placed s k it m) j)
              && (item_at (placed s k it m) j).interest.op_write)
      writes j = elim (Bool-cases (j == k)) [
        | inl e ↦ rw (item_at-placed j, e)
        | inr e ↦ rw (item_at-placed j, e) (c.writes j)
      ]
