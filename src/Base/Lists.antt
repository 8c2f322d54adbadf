-- ===== src/Base/Lists.antt =====
-- Arrays as lists with native indices: reads, writes, `memcpy` and slices.
use Prim.Native.Nat.{ℕ, zero, suc, ◌+◌, ◌-◌, ◌≤◌, ◌<◌, min}
use mathlib.Core.Path.{◌≡◌, refl, sym, ap, ◌∙◌}
use mathlib.Core.List.{List, [], ◌∷◌, ◌++◌, append_assoc, append-nil}
use mathlib.Core.Option.{Option, none, some}
use native.Mathlib.Omega.{arith}

module _ {ℓ} {A : Type ℓ} where
  abbrev pub length : List A → ℕ
  length [] = 0
  length (x ∷ xs) = suc (length xs)

  abbrev pub get_elem? : List A → ℕ → Option A
  get_elem? [] i = none
  get_elem? (x ∷ xs) zero = some x
  get_elem? (x ∷ xs) (suc i) = get_elem? xs i

  -- A write out of bounds changes nothing; the invariants rule it out.
  abbrev pub set : List A → ℕ → A → List A
  set [] i v = []
  set (x ∷ xs) zero v = v ∷ xs
  set (x ∷ xs) (suc i) v = x ∷ set xs i v

  abbrev pub get_or : List A → ℕ → A → A
  get_or [] i d = d
  get_or (x ∷ xs) zero d = x
  get_or (x ∷ xs) (suc i) d = get_or xs i d

  abbrev pub take : ℕ → List A → List A
  take zero xs = []
  take (suc n) [] = []
  take (suc n) (x ∷ xs) = x ∷ take n xs

  abbrev pub drop : ℕ → List A → List A
  drop zero xs = xs
  drop (suc n) [] = []
  drop (suc n) (x ∷ xs) = drop n xs

  abbrev pub replicate : ℕ → A → List A
  replicate zero a = []
  replicate (suc n) a = a ∷ replicate n a

  -- memcpy(xs + i, ys, length ys)
  abbrev pub copy_to : List A → ℕ → List A → List A
  copy_to xs i [] = xs
  copy_to xs i (y ∷ ys) = copy_to (set xs i y) (suc i) ys

module _ {ℓ} {A : Type ℓ} where
  pub length-append : (xs ys : List A) → length (xs ++ ys) ≡ length xs + length ys
  length-append [] ys = omega arith
  length-append (x ∷ xs) ys = omega (arith, length-append xs ys)

  pub length-set : (xs : List A) (i : ℕ) (v : A) → length (set xs i v) ≡ length xs
  length-set [] i v = refl
  length-set (x ∷ xs) zero v = refl
  length-set (x ∷ xs) (suc i) v = ap suc (length-set xs i v)

  pub length-replicate : (n : ℕ) (a : A) → length (replicate n a) ≡ n
  length-replicate zero a = refl
  length-replicate (suc n) a = ap suc (length-replicate n a)

  pub length-take : (n : ℕ) (xs : List A) → length (take n xs) ≡ min n (length xs)
  length-take zero xs = omega arith
  length-take (suc n) [] = omega arith
  length-take (suc n) (x ∷ xs) = omega (arith, length-take n xs)

  pub length-drop : (n : ℕ) (xs : List A) → length (drop n xs) ≡ length xs - n
  length-drop zero xs = omega arith
  length-drop (suc n) [] = omega arith
  length-drop (suc n) (x ∷ xs) = omega (arith, length-drop n xs)

  pub length-copy_to : (xs : List A) (i : ℕ) (ys : List A) → length (copy_to xs i ys) ≡ length xs
  length-copy_to xs i [] = refl
  length-copy_to xs i (y ∷ ys) = length-copy_to (set xs i y) (suc i) ys ∙ length-set xs i y

  pub take-append : (xs ys : List A) → take (length xs) (xs ++ ys) ≡ xs
  take-append [] ys = refl
  take-append (x ∷ xs) ys = ap (λ t. x ∷ t) (take-append xs ys)

  pub drop-append : (xs ys : List A) → drop (length xs) (xs ++ ys) ≡ ys
  drop-append [] ys = refl
  drop-append (x ∷ xs) ys = drop-append xs ys

  -- A slice of at least one element begins with the element at its start.
  pub slice-suc :
      (xs : List A) (i n : ℕ) (d : A)
      → i < length xs
      → take (suc n) (drop i xs) ≡ get_or xs i d ∷ take n (drop (suc i) xs)
  slice-suc [] i n d h = absurd (omega arith)
  slice-suc (x ∷ xs) zero n d h = refl
  slice-suc (x ∷ xs) (suc i) n d h = slice-suc xs i n d (omega arith)

  pub get_elem?-eq-get_or :
      (xs : List A) (i : ℕ) (d : A) → i < length xs → get_elem? xs i ≡ some (get_or xs i d)
  get_elem?-eq-get_or [] i d h = absurd (omega arith)
  get_elem?-eq-get_or (x ∷ xs) zero d h = refl
  get_elem?-eq-get_or (x ∷ xs) (suc i) d h = get_elem?-eq-get_or xs i d (omega arith)

  -- Writing just behind a slice extends it by the element written.
  pub slice-set :
      (xs : List A) (i n j : ℕ) (v : A)
      → j ≡ i + n
      → j < length xs
      → take (suc n) (drop i (set xs j v)) ≡ take n (drop i xs) ++ (v ∷ [])
  slice-set [] i n j v e h = absurd (omega arith)
  slice-set (x ∷ xs) zero zero zero v e h = refl
  slice-set (x ∷ xs) zero zero (suc j) v e h = absurd (omega arith)
  slice-set (x ∷ xs) zero (suc n) zero v e h = absurd (omega arith)
  slice-set (x ∷ xs) zero (suc n) (suc j) v e h =
      ap (λ t. x ∷ t) (slice-set xs zero n j v (omega arith) (omega arith))
  slice-set (x ∷ xs) (suc i) n zero v e h = absurd (omega arith)
  slice-set (x ∷ xs) (suc i) n (suc j) v e h = slice-set xs i n j v (omega arith) (omega arith)

  -- Copying just behind a slice extends it by the elements copied.
  pub slice-copy_to :
      (ys xs : List A) (i n j m : ℕ)
      → j ≡ i + n
      → m ≡ n + length ys
      → j + length ys ≤ length xs
      → take m (drop i (copy_to xs j ys)) ≡ take n (drop i xs) ++ ys
  slice-copy_to [] xs i n j m e k h =
      ap (λ t. take t (drop i xs)) (omega arith) ∙ sym (append-nil (take n (drop i xs)))
  slice-copy_to (y ∷ ys) xs i n j m e k h =
      slice-copy_to ys (set xs j y) i (suc n) (suc j) m (omega arith) (omega arith)
        (omega (arith, length-set xs j y))
      ∙ ap (λ t. t ++ ys) (slice-set xs i n j y e (omega arith))
      ∙ append_assoc (take n (drop i xs)) (y ∷ []) ys

  pub take-nil : (n : ℕ) → take {A = A} n [] ≡ []
  take-nil zero = refl
  take-nil (suc n) = refl

  pub drop-nil : (n : ℕ) → drop {A = A} n [] ≡ []
  drop-nil zero = refl
  drop-nil (suc n) = refl

  pub drop-drop : (m n k : ℕ) (xs : List A) → k ≡ m + n → drop n (drop m xs) ≡ drop k xs
  drop-drop zero n k xs e = ap (λ j. drop j xs) (omega arith)
  drop-drop (suc m) n k [] e = drop-nil n ∙ sym (drop-nil k)
  drop-drop (suc m) n zero (x ∷ xs) e = absurd (omega arith)
  drop-drop (suc m) n (suc k) (x ∷ xs) e = drop-drop m n k xs (omega arith)

  pub drop-take : (n m k : ℕ) (xs : List A) → k ≡ m - n → drop n (take m xs) ≡ take k (drop n xs)
  drop-take zero m k xs e = ap (λ j. take j xs) (omega arith)
  drop-take (suc n) zero k xs e = ap (λ j. take j (drop (suc n) xs)) {x = 0} (omega arith)
  drop-take (suc n) (suc m) k [] e = sym (take-nil k)
  drop-take (suc n) (suc m) k (x ∷ xs) e = drop-take n m k xs (omega arith)

  pub take-take : (n m : ℕ) (xs : List A) → n ≤ m → take n (take m xs) ≡ take n xs
  take-take zero m xs h = refl
  take-take (suc n) zero xs h = absurd (omega arith)
  take-take (suc n) (suc m) [] h = refl
  take-take (suc n) (suc m) (x ∷ xs) h = ap (λ t. x ∷ t) (take-take n m xs (omega arith))

  pub take-append-drop : (n : ℕ) (xs : List A) → take n xs ++ drop n xs ≡ xs
  take-append-drop zero xs = refl
  take-append-drop (suc n) [] = refl
  take-append-drop (suc n) (x ∷ xs) = rw (take-append-drop n xs)
