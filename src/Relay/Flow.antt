-- ===== src/Relay/Flow.antt =====
-- What one call does to the bytes that wait in a relay buffer.
use socksv5_proxy.Base.{
  ℕ, ◌-◌, ◌≤◌, ◌≡◌, refl, sym, ap, ◌∙◌, Bool, true, false, Option, some, List, [], ◌++◌, ltb, not,
  ◌||◌, length, take, drop, take-take, take-append-drop, arith, Bool-cases, inl, inr, ℤ, pos,
  if◌then◌else◌, ◌>>=◌,
}
use socksv5_proxy.Buffer
use socksv5_proxy.Buffer.{Buffer}
use socksv5_proxy.Buffer.Valid.{write_ptr-eq, read_ptr-eq}
use socksv5_proxy.Buffer.Fifo.{Holds, length-contents, read_adv-Holds, write_adv-Holds}
use socksv5_proxy.Socks5.{WriteResult, took, write_would_block, write_failed, is_negative}
use socksv5_proxy.Relay.{fill, relay_flush}

-- What read(2) stores is appended, if it is no more than it was asked for.
pub fill-Holds :
    {b : Buffer} {q : List ℕ} (ys : List ℕ)
    → Holds b q
    → length ys ≤ b.limit - b.write_pos
    → (b' : Buffer) × (fill b ys ≡ some b') × Holds b' (q ++ ys) × (b'.limit ≡ b.limit)
unfolding fill
fill-Holds {b} ys h fits =
    rw (write_ptr-eq b h.valid) (write_adv-Holds ys h (omega (arith, h.valid)))

-- write(2) takes no more than it was given.
abbrev pub Takes : WriteResult → ℕ → Type 0
Takes (took n) count = n ≤ count
Takes write_would_block count = Unit
Takes write_failed count = Unit

-- write(2) does not fail for good.
abbrev pub Succeeds : WriteResult → Type 0
Succeeds (took n) = Unit
Succeeds write_would_block = Unit
Succeeds write_failed = ⊥

-- What `relay_flush` did to a buffer that held `q`.
pub record Flushed (b : Buffer) (q : List ℕ) (r : WriteResult)
    (out : Option (Buffer × List ℕ × Bool)) : Type 0 where
  pub after : Buffer
  pub sent : List ℕ
  pub alive : Bool
  pub left : List ℕ
  pub result : out ≡ some (after, sent, alive)
  pub holds : Holds after left
  pub split : sent ++ left ≡ q
  pub fine : Succeeds r → alive ≡ true

flush-took :
    {b : Buffer} {q : List ℕ} (n : ℕ)
    → Holds b q
    → n ≤ length q
    → (b' : Buffer) × (◌>>=◌ {B = Buffer × List ℕ × Bool}
          (Buffer.read_adv b (pos n))
          (λ buf'. some (buf', take n (drop b.read_pos b.storage), true))
        ≡ some (b', take n q, true))
      × Holds b' (drop n q)
      × (b'.limit ≡ b.limit)
flush-took {b} {q} n h le =
    let (b', e, k, l) = read_adv-Holds n h le in
    (b', rw e (ap (λ t. some (b', t, true)) front), k, l)
  where
    front : take n (drop b.read_pos b.storage) ≡ take n q
    front =
        sym (
          take-take n (b.write_pos - b.read_pos) (drop b.read_pos b.storage)
            (omega (arith, length-contents b h.valid, ap length h.held)))
        ∙ ap (take n) h.held

-- `relay_flush` never faults, and splits the bytes that waited into those that write(2) took and
-- those that still wait.
pub flush-Flushed :
    (fd : ℤ) {b : Buffer} {q : List ℕ} (r : WriteResult)
    → Holds b q
    → Takes r (length q)
    → Flushed b q r (relay_flush fd b r)
unfolding relay_flush
flush-Flushed fd {b} {q} r h t = elim (Bool-cases (is_negative fd || not (Buffer.can_read b))) [
  | inl idle ↦ rw idle (same b q r h true (λ _. refl))
  | inr busy ↦ rw (busy, read_ptr-eq b h.valid) (go r t)
]
  where
    same :
        (b : Buffer) (q : List ℕ) (r : WriteResult)
        → Holds b q
        → (alive : Bool) → (Succeeds r → alive ≡ true)
        → Flushed b q r (some (b, [], alive))
    same b q r h alive f = record {
      after = b;
      sent = [];
      alive = alive;
      left = q;
      result = refl;
      holds = h;
      split = refl;
      fine = f;
    }

    go :
        (r : WriteResult)
        → Takes r (length q)
        → Flushed b q r (elim r [
          | took n ↦
              if ltb 0 n
              then ◌>>=◌ {B = Buffer × List ℕ × Bool}
                  (Buffer.read_adv b (pos n))
                  (λ buf'. some (buf', take n (drop b.read_pos b.storage), true))
              else some (b, [], true)
          | write_would_block ↦ some (b, [], true)
          | write_failed ↦ some (b, [], false)
        ])
    go (took n) le = elim (Bool-cases (ltb 0 n)) [
      | inl more ↦
          let (b', e, k, l) = flush-took n h le in
          rw more (record {
            after = b';
            sent = take n q;
            alive = true;
            left = drop n q;
            result = e;
            holds = k;
            split = take-append-drop n q;
            fine = λ _. refl;
          })
      | inr nothing ↦ rw nothing (same b q (took n) h true (λ _. refl))
    ]
    go write_would_block _ = same b q write_would_block h true (λ _. refl)
    go write_failed _ = same b q write_failed h false (λ x. absurd x)
