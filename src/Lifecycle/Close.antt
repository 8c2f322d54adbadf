-- ===== src/Lifecycle/Close.antt =====
-- What the end of a connection does to its descriptors.
use socksv5_proxy.Base.{
  ℕ, suc, ◌<◌, ◌==◌, ◌≡◌, refl, ap, ◌∙◌, true, false, none, some, if◌then◌else◌, List, [], ◌∷◌,
  ◌++◌, ℤ, append-nil, arith, Bool-cases, inl, inr,
}
use socksv5_proxy.Socks5.{Socks5, Effect, close_fd, is_negative}
use socksv5_proxy.Lifecycle.{
  client_unregister, origin_unregister, client_close, origin_close, socks5_release, socks5_cancel,
  socks5_connection_close, frees,
}

-- The descriptors that a list of calls closes.
abbrev pub closed : List Effect → List ℤ
closed [] = []
closed (close_fd fd ∷ es) = fd ∷ closed es
closed (_ ∷ es) = closed es

abbrev pub opened : ℤ → List ℤ
opened fd = if is_negative fd then [] else fd ∷ []

-- One side is closed.
record Shut (s t : Socks5) (es : List Effect) (fd after : ℤ) : Type 0 where
  once : (fs : List Effect) → closed (es ++ fs) ≡ opened fd ++ closed fs
  alive : (fs : List Effect) → frees (es ++ fs) ≡ frees fs
  gone : is_negative after ≡ true
  refs : t.references ≡ s.references
  flag : t.closing ≡ s.closing

client_close-Shut :
    (s : Socks5)
    → Shut s (client_close s).0 (client_close s).1 s.client_fd (client_close s).0.client_fd
      × ((client_close s).0.origin_fd ≡ s.origin_fd)
unfolding client_close client_unregister frees
client_close-Shut s = elim (Bool-cases (is_negative s.client_fd)) [
  | inl n ↦ elim (Bool-cases s.client_registered) [
    | inl r ↦
        rw (n, r)
          (
            record {
              once = λ fs. rw n refl;
              alive = λ fs. refl;
              gone = n;
              refs = refl;
              flag = refl;
            },
            refl,
          )
    | inr r ↦
        rw (n, r)
          (
            record {
              once = λ fs. rw n refl;
              alive = λ fs. refl;
              gone = n;
              refs = refl;
              flag = refl;
            },
            refl,
          )
  ]
  | inr n ↦ elim (Bool-cases s.client_registered) [
    | inl r ↦
        rw (n, r)
          (
            record {
              once = λ fs. rw n refl;
              alive = λ fs. refl;
              gone = refl;
              refs = refl;
              flag = refl;
            },
            refl,
          )
    | inr r ↦
        rw (n, r)
          (
            record {
              once = λ fs. rw n refl;
              alive = λ fs. refl;
              gone = refl;
              refs = refl;
              flag = refl;
            },
            refl,
          )
  ]
]

origin_close-Shut :
    (s : Socks5)
    → Shut s (origin_close s).0 (origin_close s).1 s.origin_fd (origin_close s).0.origin_fd
      × ((origin_close s).0.client_fd ≡ s.client_fd)
unfolding origin_close origin_unregister frees
origin_close-Shut s = elim (Bool-cases (is_negative s.origin_fd)) [
  | inl n ↦ elim (Bool-cases s.origin_registered) [
    | inl r ↦
        rw (n, r)
          (
            record {
              once = λ fs. rw n refl;
              alive = λ fs. refl;
              gone = n;
              refs = refl;
              flag = refl;
            },
            refl,
          )
    | inr r ↦
        rw (n, r)
          (
            record {
              once = λ fs. rw n refl;
              alive = λ fs. refl;
              gone = n;
              refs = refl;
              flag = refl;
            },
            refl,
          )
  ]
  | inr n ↦ elim (Bool-cases s.origin_registered) [
    | inl r ↦
        rw (n, r)
          (
            record {
              once = λ fs. rw n refl;
              alive = λ fs. refl;
              gone = refl;
              refs = refl;
              flag = refl;
            },
            refl,
          )
    | inr r ↦
        rw (n, r)
          (
            record {
              once = λ fs. rw n refl;
              alive = λ fs. refl;
              gone = refl;
              refs = refl;
              flag = refl;
            },
            refl,
          )
  ]
]

released :
    (s : Socks5) (n : ℕ)
    → s.references ≡ suc n
    → suc n < 4294967296
    → (t : Socks5) × (e : List Effect) × (socks5_release s ≡ some (t, e))
      × (closed e ≡ [])
      × (frees e ≡ (n == 0))
      × (t.references ≡ n)
      × (t.client_fd ≡ s.client_fd)
      × (t.origin_fd ≡ s.origin_fd)
      × (t.closing ≡ s.closing)
unfolding socks5_release frees
released s n e lt = elim (Bool-cases (s.references == 1)) [
  | inl y ↦
      let last : (n == 0) ≡ true = ground arith in
      rw (y, last) (_, _, refl, refl, refl, omega arith, refl, refl, refl)
  | inr y ↦
      let some_left : (s.references == 0) ≡ false = ground arith in
      let held : (n == 0) ≡ false = ground arith in
      rw (y, some_left, held) (_, _, refl, refl, refl, omega arith, refl, refl, refl)
]

-- Closing a connection that is not being closed, and that someone holds, whose references an
-- unsigned int can count, closes each descriptor
-- that it has exactly once, the client's first, drops one reference, and leaves it without
-- descriptors. The state is freed if that reference was the last one, and must not be used again;
-- if not, closing it again does nothing.
pub closes_once :
    (s : Socks5) (n : ℕ)
    → s.closing ≡ false
    → s.references ≡ suc n
    → suc n < 4294967296
    → (t : Socks5) × (effs : List Effect) × (socks5_connection_close s ≡ some (t, effs))
      × (closed effs ≡ opened s.client_fd ++ opened s.origin_fd)
      × (is_negative t.client_fd ≡ true)
      × (is_negative t.origin_fd ≡ true)
      × (t.references ≡ n)
      × (frees effs ≡ (n == 0))
      × (socks5_connection_close t ≡ (if n == 0 then none else some (t, [])))
unfolding socks5_connection_close socks5_cancel
closes_once s n c r lt =
    let s₀ = socks5_cancel (record s { closing = true }) in
    let (a, same_origin) = client_close-Shut s₀ in
    let s₁ = (client_close s₀).0 in
    let (b, same_client) = origin_close-Shut s₁ in
    let s₂ = (origin_close s₁).0 in
    let (t, e₃, q, none_closed, freed, refs, client, origin, flag) =
      released s₂ n (b.refs ∙ a.refs ∙ r) lt in
    let e₁ = (client_close s₀).1 in
    let e₂ = (origin_close s₁).1 in
    let held : (s.references == 0) ≡ false = ground arith in
    let flagged : t.closing ≡ true = flag ∙ b.flag ∙ a.flag in
    (
      t,
      e₁ ++ (e₂ ++ e₃),
      rw (held, c, q) refl,
      a.once (e₂ ++ e₃)
          ∙ ap (λ z. opened s.client_fd ++ z)
              (b.once e₃
                ∙ ap (λ z. opened s₁.origin_fd ++ z) none_closed
                ∙ append-nil (opened s₁.origin_fd)
                ∙ ap opened same_origin),
      ap is_negative (client ∙ same_client) ∙ a.gone,
      ap is_negative origin ∙ b.gone,
      refs,
      a.alive (e₂ ++ e₃) ∙ b.alive e₃ ∙ freed,
      rw (flagged, refs) refl,
    )
