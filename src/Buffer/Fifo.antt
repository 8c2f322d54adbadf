-- ===== src/Buffer/Fifo.antt =====
-- A valid buffer is a FIFO of bytes: what lies between its two pointers, oldest first.
use socksv5_proxy.Base.{
  ℕ, suc, ◌+◌, ◌-◌, ◌≤◌, ◌<◌, ◌≡◌, refl, sym, ap, ◌∙◌, some, List, [], ◌∷◌, ◌++◌, length, ltb,
  lt→ltb, get_elem?, ◌==◌, if◌then◌else◌, Bool-cases, inl, inr, length-copy_to, get_elem?-eq-get_or,
  take, drop, drop-drop, drop-take, slice-copy_to, slice-suc, length-take, length-drop, copy_to,
  pos, arith, true, false,
}
use socksv5_proxy.Buffer.{Buffer, can_write, can_read, write_adv, read_adv, compact, read, write}
use socksv5_proxy.Buffer.Valid.{IsValid, compact-IsValid}

abbrev pub contents : Buffer → List ℕ
contents b = take (b.write_pos - b.read_pos) (drop b.read_pos b.storage)

pub length-contents : (b : Buffer) → IsValid b → length (contents b) ≡ b.write_pos - b.read_pos
length-contents b v = omega (
  arith,
  length-take (b.write_pos - b.read_pos) (drop b.read_pos b.storage),
  length-drop b.read_pos b.storage,
)

-- A valid buffer that holds the bytes `q`.
pub record Holds (b : Buffer) (q : List ℕ) : Type 0 where
  pub valid : IsValid b
  pub held : contents b ≡ q

limit-compact : (b : Buffer) → (compact b).limit ≡ b.limit
unfolding compact
limit-compact b = ground arith

contents-compact : (b : Buffer) → IsValid b → contents (compact b) ≡ contents b
unfolding compact
contents-compact b v = ground (
  arith,
  slice-copy_to (contents b) b.storage 0 0 0 (b.write_pos - b.read_pos) refl
      (omega (arith, length-contents b v)) (omega (arith, length-contents b v)),
)

-- The buffer that `read_adv` leaves behind, with its compaction.
advanced : Buffer → ℕ → Buffer
advanced b n =
    let b' = record b { read_pos = b.read_pos + n } in
    if b'.read_pos == b'.write_pos then compact b' else b'

advanced-Holds :
    {b : Buffer} {q : List ℕ} (n : ℕ)
    → Holds b q
    → n ≤ length q
    → Holds (advanced b n) (drop n q) × ((advanced b n).limit ≡ b.limit)
unfolding advanced
advanced-Holds {b} {q} n h le = elim (Bool-cases (b'.read_pos == b'.write_pos)) [
  | inl e ↦ rw e (
    record { valid = compact-IsValid b' valid'; held = contents-compact b' valid' ∙ held' },
    limit-compact b',
  )
  | inr e ↦ rw e (record { valid = valid'; held = held' }, refl)
]
  where
    b' : Buffer
    b' = record b { read_pos = b.read_pos + n }

    within : b.read_pos + n ≤ b.write_pos
    within = omega (arith, length-contents b h.valid, ap length h.held)

    valid' : IsValid b'
    valid' = omega (arith, h.valid, within)

    held' : contents b' ≡ drop n q
    held' =
        ap (λ t. take (b.write_pos - (b.read_pos + n)) t)
          (sym (drop-drop b.read_pos n (b.read_pos + n) b.storage refl))
        ∙ sym (
            drop-take n (b.write_pos - b.read_pos) (b.write_pos - (b.read_pos + n))
              (drop b.read_pos b.storage) (omega arith))
        ∙ ap (drop n) h.held

-- Reading `n` of the bytes held drops them, and never fails.
pub read_adv-Holds :
    {b : Buffer} {q : List ℕ} (n : ℕ)
    → Holds b q
    → n ≤ length q
    → (b' : Buffer) × (read_adv b (pos n) ≡ some b') × Holds b' (drop n q) × (b'.limit ≡ b.limit)
unfolding read_adv advanced
read_adv-Holds {b} {q} n h le = (
  advanced b n,
  ground (arith, length-contents b h.valid, ap length h.held),
  (advanced-Holds n h le).0,
  (advanced-Holds n h le).1,
)

-- Bytes stored at the write pointer and taken in by `buffer_write_adv` are appended, as long as
-- they fit under the limit.
pub write_adv-Holds :
    {b : Buffer} {q : List ℕ} (ys : List ℕ)
    → Holds b q
    → b.write_pos + length ys ≤ b.limit
    → let stored = record b { storage = copy_to b.storage b.write_pos ys } in
      (b' : Buffer) × (write_adv stored (pos (length ys)) ≡ some b')
      × Holds b' (q ++ ys)
      × (b'.limit ≡ b.limit)
unfolding write_adv
write_adv-Holds {b} {q} ys h le = (
  record b { storage = copy_to b.storage b.write_pos ys; write_pos = b.write_pos + length ys },
  ground arith,
  record {
    valid = omega (arith, h.valid, length-copy_to b.storage b.write_pos ys);
    held = ground (
      arith,
      slice-copy_to ys b.storage b.read_pos (b.write_pos - b.read_pos) b.write_pos
          (b.write_pos + length ys - b.read_pos),
    );
  },
  refl,
)

can_write-room : (b : Buffer) → can_write b ≡ true → b.write_pos + 1 ≤ b.limit
unfolding can_write
can_write-room b e = ground arith

pub can_read-Holds : {b : Buffer} {q : List ℕ} → Holds b q → can_read b ≡ ltb 0 (length q)
unfolding can_read
can_read-Holds {b} h = ground (arith, length-contents b h.valid, ap length h.held)

pub can_read-cons : {b : Buffer} {c : ℕ} {q : List ℕ} → Holds b (c ∷ q) → can_read b ≡ true
can_read-cons {b} {c} {q} h = can_read-Holds h ∙ lt→ltb 0 (suc (length q)) (omega arith)

pub can_read-nil : {b : Buffer} → Holds b [] → can_read b ≡ false
can_read-nil h = can_read-Holds h

-- The byte at the read pointer is the oldest one held.
first_byte :
    {b : Buffer} {c : ℕ} {q : List ℕ} → Holds b (c ∷ q) → get_elem? b.storage b.read_pos ≡ some c
first_byte {b} {c} {q} h = cc (
  get_elem?-eq-get_or b.storage b.read_pos 0 inside,
  slice-suc b.storage b.read_pos (b.write_pos - suc b.read_pos) 0 inside,
  ap (λ k. take k (drop b.read_pos b.storage)) count,
  h.held,
)
  where
    inside : b.read_pos < length b.storage
    inside = omega (arith, h.valid, length-contents b h.valid, ap length h.held)

    count : b.write_pos - b.read_pos ≡ suc (b.write_pos - suc b.read_pos)
    count = omega (arith, h.valid, length-contents b h.valid, ap length h.held)

-- `buffer_read` on a buffer that holds bytes returns the oldest one and leaves the others.
pub read-Holds :
    {b : Buffer} {c : ℕ} {q : List ℕ}
    → Holds b (c ∷ q)
    → (b' : Buffer) × (read b ≡ some (c, b')) × Holds b' q × (b'.limit ≡ b.limit)
unfolding read
read-Holds {b} {c} {q} h =
    let (b', e, k, l) = read_adv-Holds 1 h (omega arith) in
    (b', rw (can_read-cons h, first_byte h, e), k, l)

-- `buffer_read` on an empty buffer returns 0 and changes nothing.
pub read_empty : {b : Buffer} → Holds b [] → read b ≡ some (0, b)
unfolding read
read_empty {b} h = rw (can_read-Holds h)

-- `buffer_write` appends its byte while there is room, and otherwise drops it; it never fails.
pub write-Holds :
    {b : Buffer} {q : List ℕ} (c : ℕ)
    → Holds b q
    → (b' : Buffer) × (write b c ≡ some b')
      × Holds b' (if can_write b then q ++ (c ∷ []) else q)
      × (b'.limit ≡ b.limit)
unfolding write
write-Holds {b} {q} c h = elim (Bool-cases (can_write b)) [
  | inl e ↦ rw e (write_adv-Holds (c ∷ []) h (can_write-room b e))
  | inr e ↦ rw e (b, refl, h, refl)
]
