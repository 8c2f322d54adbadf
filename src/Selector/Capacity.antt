-- ===== src/Selector/Capacity.antt =====
-- How far the table grows.
use socksv5_proxy.Base.{
  ℕ, zero, suc, ◌+◌, ◌*◌, ◌/◌, ◌^◌, ◌≤◌, ◌<◌, ◌≡◌, arith, ◌==◌, Bool-cases, inl, inr, ap, ◌∙◌,
}
use native.Mathlib.Nat.{pow-succ'}
use socksv5_proxy.Selector.{bit_length, next_capacity}

bit_length_bound : (fuel n : ℕ) → n ≤ fuel → n < 2 ^ bit_length fuel n
unfolding bit_length
bit_length_bound zero n h = omega arith
bit_length_bound (suc fuel) n h = elim (Bool-cases (n == 0)) [
  | inl z ↦ rw z (ground arith)
  | inr nz ↦
      let half = bit_length_bound fuel (n / 2) (ground arith) in
      let b = bit_length fuel (n / 2) in
      let one_more : b + 1 ≡ suc b = omega arith in
      let doubled : 2 ^ (b + 1) ≡ 2 * 2 ^ b = ap (λ (k : ℕ). 2 ^ k) one_more ∙ pow-succ' 2 b in
      rw nz (omega (arith, half, doubled))
]

-- The loop of `next_capacity` ends, its assertion holds, and the result is more than was asked
-- for, up to one more than select(2) can watch.
pub next_capacity_bounds : (n : ℕ) → n ≤ 1024 → (n < next_capacity n) × (next_capacity n ≤ 1025)
unfolding next_capacity
next_capacity_bounds n h = ground (arith, bit_length_bound n n)
