-- ===== src/EventLoop/Iteration.antt =====
-- One round of the event loop serves each descriptor that is ready.
use socksv5_proxy.Base.{
  ℕ, zero, suc, ◌+◌, ◌-◌, ◌≤◌, ◌<◌, ◌≡◌, refl, ap, ◌∙◌, arith, ◌==◌, ==_iff, ◌&&◌, if◌then◌else◌,
  Bool, Bool-cases, inl, inr, true, false, Option, none, some, ◌>>=◌, List, [], ◌∷◌, length,
  get_elem?, get_elem?-eq-get_or,
}
use socksv5_proxy.Selector.{Selector, Item, FdSet, FdHandler, SelectorKey, unused}
use socksv5_proxy.Selector.Map.{item_at}
use socksv5_proxy.EventLoop.{
  call, write_of, serve_read, serve_item, handle_used, serve_write, handle_item, handle_items,
  handle_iteration,
}

get_elem?_inside : (xs : List Item) (i : ℕ) {x : Item} → get_elem? xs i ≡ some x → i < length xs
get_elem?_inside [] i e = absurd (cc e)
get_elem?_inside (x ∷ xs) zero e = omega arith
get_elem?_inside (x ∷ xs) (suc i) e = let h = get_elem?_inside xs i e in omega (arith, h)

-- Two continuations that agree on the result.
bind-congr :
    {A B : Type 0} (o : Option A) (f g : A → Option B)
    → ((a : A) → o ≡ some a → f a ≡ g a)
    → (o >>= f) ≡ (o >>= g)
bind-congr none f g h = refl
bind-congr (some a) f g h = h a refl

module _ {W : Type 0} (handlers : ℕ → FdHandler W) (r w : FdSet) where
  -- What is due for the descriptor `i`, of the handler `h` and these data: the handler for reading
  -- if it is ready and that is asked, and then the handler for writing if it is ready and, by now,
  -- that is asked.
  pub turn : ℕ → ℕ → Item → Selector → W → Option (Selector × W)
  turn i h item s x =
      let key : SelectorKey = record { fd = i; attachment = item.attachment } in
      (if r i && item.interest.op_read then call (handlers h).handle_read key s x else some (s, x))
      >>= λ (s₁, x₁).
          if w i && (item_at s₁ i).interest.op_write
          then call (write_of handlers (item_at s₁ i)) key s₁ x₁
          else some (s₁, x₁)

  serve_write_lem :
      (i size : ℕ) (key : SelectorKey) (s : Selector) (x : W)
      → i < size
      → (w i ≡ true → length s.fds ≡ size)
      → serve_write handlers w size i key s x ≡ (
          if w i && (item_at s i).interest.op_write
          then call (write_of handlers (item_at s i)) key s x
          else some (s, x))
  unfolding serve_write serve_item
  serve_write_lem i size key s x inside same = elim (Bool-cases (w i)) [
    | inl b ↦
        let e : length s.fds ≡ size = same b in
        let kept : (length s.fds == size) ≡ true = (==_iff (length s.fds) size).1 e in
        rw (b, kept, get_elem?-eq-get_or s.fds i unused (omega (arith, e))) refl
    | inr b ↦ rw b refl
  ]

  -- `item` is what stands at `i` in the states `Inv`.
  module _ (i h : ℕ) (item : Item) (Inv : Selector → W → Type 0) where
    abbrev pub Holds : Type 0
    Holds = (s : Selector) (x : W) → Inv s x → get_elem? s.fds i ≡ some item

    -- Those that come before return, into such a state.
    abbrev pub Passes : Type 0
    Passes =
        (j : ℕ) (s : Selector) (x : W)
        → j < i
        → Inv s x
        → (s' : Selector) × (x' : W) × (handle_item handlers r w j s x ≡ some (s', x')) × Inv s' x'

    -- Where the descriptor is ready for writing too, the handler for reading leaves the size of
    -- the table.
    abbrev pub LeavesSize : Type 0
    LeavesSize =
        (s s' : Selector) (x x' : W)
        → w i ≡ true
        → Inv s x
        → call (handlers h).handle_read (record { fd = i; attachment = item.attachment }) s x
          ≡ some (s', x')
        → length s'.fds ≡ length s.fds

    read_size :
        (s s' : Selector) (x x' : W) (b : Bool)
        → w i ≡ true
        → LeavesSize
        → Inv s x
        → (if b
            then call (handlers h).handle_read (record { fd = i; attachment = item.attachment }) s x
            else some (s, x))
          ≡ some (s', x')
        → length s'.fds ≡ length s.fds
    read_size s s' x x' true b leaves v e = leaves s s' x x' b v e
    read_size s s' x x' false b leaves v e = let q : s ≡ s' = cc e in rw q refl

    handle_item-turn :
        (s : Selector) (x : W)
        → get_elem? s.fds i ≡ some item
        → item.fd ≡ some i
        → item.handler ≡ some h
        → LeavesSize
        → Inv s x
        → handle_item handlers r w i s x ≡ turn i h item s x
    unfolding handle_item handle_used serve_read turn
    handle_item-turn s x at own handled leaves v =
        let key : SelectorKey = record { fd = i; attachment = item.attachment } in
        let o =
          if r i && item.interest.op_read
          then call (handlers h).handle_read key s x
          else some (s, x) in
        rw (at, own, handled)
          (bind-congr o _ _ (λ (s₁, x₁) e.
            serve_write_lem i (length s.fds) key s₁ x₁ (get_elem?_inside s.fds i at)
              (λ b. read_size s s₁ x x₁ (r i && item.interest.op_read) b leaves v e)))

    passed :
        (n left k last total : ℕ) (s : Selector) (x : W)
        → k + n ≤ i
        → last ≡ k + n
        → total ≡ n + left
        → Passes
        → Inv s x
        → (s₁ : Selector) × (x₁ : W) × (handle_items handlers r w n k s x ≡ some (s₁, x₁))
          × Inv s₁ x₁
          × (handle_items handlers r w total k s x ≡ handle_items handlers r w left last s₁ x₁)
    unfolding handle_items
    passed zero left k last total s x below e f passes v =
        let e' : last ≡ k = omega arith in
        let f' : total ≡ left = omega arith in (s, x, refl, v, rw (e', f') refl)
    passed (suc n) left k last zero s x below e f passes v = absurd (omega arith)
    passed (suc n) left k last (suc total) s x below e f passes v =
        let (s₁, x₁, q, v₁) = passes k s x (omega arith) v in
        let (s₂, x₂, q', v₂, rest) =
          passed n left (k + 1) last total s₁ x₁ (omega arith) (omega arith) (omega arith) passes
            v₁ in
        (s₂, x₂, rw q q', v₂, rw q rest)

    -- A round serves a registered descriptor up to `max_fd` when its turn comes, exactly once:
    -- behind the descriptors below it, which return, its handler for reading is called if it is
    -- ready and that is asked, then that for writing if it is ready and that is asked by then, and
    -- then the round goes on with the next descriptors. What the other handlers do to the selector
    -- is free as long as they leave this descriptor's item as it is. Where the descriptor is ready
    -- for writing, its own handler for reading leaves the size of the table.
    pub handle_iteration_serves :
        (s : Selector) (x : W)
        → Holds
        → Passes
        → LeavesSize
        → item.fd ≡ some i
        → item.handler ≡ some h
        → i ≤ s.max_fd
        → Inv s x
        → (s₁ : Selector) × (x₁ : W) × (handle_items handlers r w i 0 s x ≡ some (s₁, x₁))
          × Inv s₁ x₁
          × (handle_iteration handlers r w s x ≡ (
              turn i h item s₁ x₁ >>= λ (s₂, x₂).
              handle_items handlers r w (s.max_fd - i) (i + 1) s₂ x₂))
    unfolding handle_iteration handle_items
    handle_iteration_serves s x holds passes leaves own handled low v =
        let (s₁, x₁, e, v₁, rest) =
          passed i (suc (s.max_fd - i)) 0 i (s.max_fd + 1) s x (omega arith) (omega arith)
            (omega arith) passes v in
        (
          s₁,
          x₁,
          e,
          v₁,
          rest
              ∙ ap {A = Option (Selector × W)} {B = Option (Selector × W)}
                  (λ o. o >>= λ (s₂, x₂). handle_items handlers r w (s.max_fd - i) (i + 1) s₂ x₂)
                  (handle_item-turn s₁ x₁ (holds s₁ x₁ v₁) own handled leaves v₁),
        )
