-- ===== src/Consume/Stream.antt =====
-- The loop over a buffer is a run over the bytes that the buffer holds.
use socksv5_proxy.Base.{
  ℕ, zero, suc, ◌-◌, ◌≤◌, ◌≡◌, refl, sym, ap, subst, ◌∙◌, Bool, true, false, some, if◌then◌else◌,
  List, [], ◌∷◌, ◌++◌, length, ◌+◌, set, copy_to, ◌<◌, arith, Bool-cases, inl, inr,
}
use mathlib.Core.Bool.{false≢true}
use mathlib.Core.Option.{some-injective}
use socksv5_proxy.Buffer
use socksv5_proxy.Buffer.{Buffer}
use socksv5_proxy.Buffer.Fifo.{Holds, length-contents, read-Holds, can_read-cons, can_read-nil}
use socksv5_proxy.Consume.{loop}

module _ {P S : Type 0} (feed : P → ℕ → P × S) (is_done : S → Bool → Bool × Bool) where
  -- What is left of the bytes, the parser, its last state and the error flag.
  unfoldable pub drain : List ℕ → P → S → Bool → List ℕ × P × S × Bool
  drain [] p st err = ([], p, st, err)
  drain (c ∷ cs) p st err =
      let (p', st') = feed p c in
      let (stop, err') = is_done st' err in
      let rest = drain cs p' st' err' in if stop then (cs, p', st', err') else rest

  loop-nil :
      (fuel : ℕ) {b : Buffer} (p : P) (st : S) (err : Bool)
      → Holds b []
      → loop feed is_done fuel b p st err ≡ some (b, p, st, err)
  unfolding loop
  loop-nil zero p st err h = rw (can_read-nil h, loop)
  loop-nil (suc fuel) p st err h = rw (can_read-nil h, loop)

  loop-cons :
      (fuel c : ℕ) (b b' : Buffer) (p : P) (st : S) (err : Bool)
      → Buffer.can_read b ≡ true
      → Buffer.read b ≡ some (c, b')
      → let (p', st') = feed p c in
        let (stop, err') = is_done st' err in
        loop feed is_done (suc fuel) b p st err
        ≡ (if stop then some (b', p', st', err') else loop feed is_done fuel b' p' st' err')
  unfolding loop
  loop-cons fuel c b b' p st err e r = rw (e, r, loop)

  -- With fuel for every byte held, the loop neither faults nor runs out of fuel.
  pub loop-drain :
      (q : List ℕ) (fuel : ℕ) {b : Buffer} (p : P) (st : S) (err : Bool)
      → Holds b q
      → length q ≤ fuel
      → let (rest, p', st', err') = drain q p st err in
        (b' : Buffer) × (loop feed is_done fuel b p st err ≡ some (b', p', st', err'))
        × Holds b' rest
        × (b'.limit ≡ b.limit)
  unfolding drain
  loop-drain [] fuel {b} p st err h le = (b, loop-nil fuel p st err h, h, refl)
  loop-drain (c ∷ q) zero {b} p st err h le = absurd (omega arith)
  loop-drain (c ∷ q) (suc fuel) {b} p st err h le =
      let (b', e, k, l) = read-Holds h in
      let (p', st') = feed p c in
      let (stop, err') = is_done st' err in
      let step = loop-cons fuel c b b' p st err (can_read-cons h) e in
      elim (Bool-cases stop) [
        | inl done ↦ rw done (b', step ∙ rw done, k, l)
        | inr more ↦
            let (b'', e', k', l') = loop-drain q fuel p' st' err' k (omega arith) in
            rw more (b'', step ∙ rw more e', k', l' ∙ l)
      ]

  -- A run that did not stop within `xs` goes on with `ys` as if it had been given both at once.
  pub drain-append :
      ((st : S) (e e' : Bool) → (is_done st e).0 ≡ (is_done st e').0)
      → (xs ys : List ℕ) (p : P) (st : S) (err : Bool)
      → let (rest, p', st', err') = drain xs p st err in
        (is_done st' err').0 ≡ false → drain (xs ++ ys) p st err ≡ drain ys p' st' err'
  unfolding drain
  drain-append flagless [] ys p st err h = refl
  drain-append flagless (c ∷ xs) ys p st err h =
      let (p', st') = feed p c in
      let (stop, err') = is_done st' err in
      elim (Bool-cases stop) [
        | inl done ↦ absurd (false≢true (sym (rw done at h) ∙ flagless st' err' err ∙ done))
        | inr more ↦ rw more (drain-append flagless xs ys p' st' err' (rw more at h))
      ]

  -- A run that stopped within `xs` leaves what follows `xs` alone.
  pub drain-append_done :
      ((st : S) (e e' : Bool) → (is_done st e).0 ≡ (is_done st e').0)
      → (xs ys : List ℕ) (p : P) (st : S) (err : Bool) → (is_done st err).0 ≡ false
      → let (rest, p', st', err') = drain xs p st err in
        (is_done st' err').0 ≡ true → drain (xs ++ ys) p st err ≡ (rest ++ ys, p', st', err')
  unfolding drain
  drain-append_done flagless [] ys p st err h d = absurd (false≢true (sym h ∙ d))
  drain-append_done flagless (c ∷ xs) ys p st err h d =
      let (p', st') = feed p c in
      let (stop, err') = is_done st' err in
      elim (Bool-cases stop) [
        | inl done ↦ rw done
        | inr more ↦ rw more (
            drain-append_done flagless xs ys p' st' err' (flagless st' err' err ∙ more)
              (rw more at d))
      ]

  -- A call on a valid buffer that holds `q`, with the number of bytes held as its fuel.
  pub loop_held :
      (q : List ℕ) {b : Buffer} (p : P) (st : S) (err : Bool)
      → Holds b q
      → let (rest, p', st', err') = drain q p st err in
        (b' : Buffer) × (loop feed is_done (b.write_pos - b.read_pos) b p st err
          ≡ some (b', p', st', err'))
        × Holds b' rest
        × (b'.limit ≡ b.limit)
  loop_held q {b} p st err h =
      loop-drain q (b.write_pos - b.read_pos) p st err h
        (omega (arith, length-contents b h.valid, ap length h.held))

  pub loop_drained :
      {q rest : List ℕ} {b : Buffer} {p' : P} {st' : S} {err' : Bool} (p : P) (st : S) (err : Bool)
      → drain q p st err ≡ (rest, p', st', err')
      → Holds b q
      → (b' : Buffer) × (loop feed is_done (b.write_pos - b.read_pos) b p st err
          ≡ some (b', p', st', err'))
        × Holds b' rest
        × (b'.limit ≡ b.limit)
  loop_drained {q} {b = b} p st err e h =
      subst
        (λ out.
          (b' : Buffer) × (loop feed is_done (b.write_pos - b.read_pos) b p st err
            ≡ some (b', out.1, out.2, out.3))
          × Holds b' out.0
          × (b'.limit ≡ b.limit))
        e (loop_held q p st err h)

  -- However the bytes of a message are cut into two reads, the parser ends the same: where the
  -- run over the first piece is not done, the run over the second piece ends with the parser,
  -- the state, the flag and the unread bytes of one run over both.
  pub loop_chunks :
      ((st : S) (e e' : Bool) → (is_done st e).0 ≡ (is_done st e').0)
      → (xs ys : List ℕ) {b₁ b₂ b b₁' : Buffer} (p p₁ : P) (st st₁ : S) (err err₁ : Bool)
      → Holds b₁ xs
      → Holds b₂ ys
      → Holds b (xs ++ ys)
      → loop feed is_done (b₁.write_pos - b₁.read_pos) b₁ p st err ≡ some (b₁', p₁, st₁, err₁)
      → (is_done st₁ err₁).0 ≡ false
      → (rest : List ℕ) × (p' : P) × (st' : S) × (err' : Bool) × (b₂' : Buffer) × (b' : Buffer)
        × (loop feed is_done (b₂.write_pos - b₂.read_pos) b₂ p₁ st₁ err₁
            ≡ some (b₂', p', st', err'))
        × (loop feed is_done (b.write_pos - b.read_pos) b p st err ≡ some (b', p', st', err'))
        × Holds b₂' rest
        × Holds b' rest
  loop_chunks flagless xs ys {b₂ = b₂} {b = b} p p₁ st st₁ err err₁ h₁ h₂ h run open_end =
      let (b₁'', e₁, k₁, l₁) = loop_held xs p st err h₁ in
      let (b₂', e₂, k₂, l₂) = loop_held ys p₁ st₁ err₁ h₂ in
      let (b', e, k, l) = loop_held (xs ++ ys) p st err h in
      let ended = some-injective _ _ (sym e₁ ∙ run) in
      let q₂ = ap (λ o. o.2) ended in
      let q₃ = ap (λ o. o.3) ended in
      let joined : drain (xs ++ ys) p st err ≡ drain ys p₁ st₁ err₁ =
        drain-append flagless xs ys p st err (rw (q₂, q₃) open_end)
        ∙ cc (ap (λ o. o.1) ended, q₂, q₃) in
      (_, _, _, _, b₂', b', e₂, rw joined at e, k₂, rw joined at k)

  -- What a run does behind a byte: stop, or go on with the rest.
  unfoldable pub behind : List ℕ → P × S → Bool → List ℕ × P × S × Bool
  behind rest (p, st) err =
      let (stop, err') = is_done st err in
      let next = drain rest p st err' in if stop then (rest, p, st, err') else next

  -- A parser that copies `l` bytes into an array, `at o a` being the parser with `o` of them
  -- stored in `a`, and does something else, `after`, behind the last.
  pub drain-copy :
      (at : ℕ → List ℕ → P) (st : S) (after : List ℕ → P × S) (l : ℕ)
      → ((err : Bool) → is_done st err ≡ (false, err))
      → ((o : ℕ) (a : List ℕ) (c : ℕ) → suc o < l → feed (at o a) c ≡ (at (suc o) (set a o c), st))
      → ((o : ℕ) (a : List ℕ) (c : ℕ) → suc o ≡ l → feed (at o a) c ≡ after (set a o c))
      → (c : ℕ) (cs rest : List ℕ) (o : ℕ) (a : List ℕ) (err : Bool) → l ≡ suc (o + length cs)
      → drain (c ∷ cs ++ rest) (at o a) st err
        ≡ behind rest (after (copy_to (set a o c) (suc o) cs)) err
  unfolding drain behind
  drain-copy at st after l open_st step last c [] rest o a err e = rw (last o a c (omega arith))
  drain-copy at st after l open_st step last c (c' ∷ cs) rest o a err e =
      rw (step o a c (omega arith)) (
        rw (open_st err) (
          drain-copy at st after l open_st step last c' cs rest (suc o) (set a o c) err
            (omega arith)))
