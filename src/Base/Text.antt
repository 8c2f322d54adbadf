-- ===== src/Base/Text.antt =====
-- C strings: a `char` array holds its text up to the first zero byte.
use Prim.Native.Nat.{ℕ, zero, suc, ◌≤◌, ◌<◌}
use mathlib.Core.Path.{◌≡◌, refl, ap, ◌∙◌}
use mathlib.Core.Bool.{Bool, true, false, ◌&&◌}
use mathlib.Core.List.{List, [], ◌∷◌, ◌++◌}
use mathlib.Core.Logic.{◌↔◌, inl, inr}
use native.Mathlib.Omega.{arith}
use socksv5_proxy.Base.Tests.{◌==◌, if◌then◌else◌, Bool-cases}
use socksv5_proxy.Base.Lists.{
  length, set, copy_to, take, drop, replicate, length-take, length-append, length-replicate,
  length-set, length-copy_to,
}

-- The text in an array.
abbrev pub c_str : List ℕ → List ℕ
c_str [] = []
c_str (x ∷ xs) = if x == 0 then [] else x ∷ c_str xs

-- strlen
abbrev pub strlen : List ℕ → ℕ
strlen xs = length (c_str xs)

abbrev pub same : List ℕ → List ℕ → Bool
same [] [] = true
same [] (y ∷ ys) = false
same (x ∷ xs) [] = false
same (x ∷ xs) (y ∷ ys) = x == y && same xs ys

-- `strcmp(a, b) == 0`
abbrev pub strcmp_eq : List ℕ → List ℕ → Bool
strcmp_eq a b = same (c_str a) (c_str b)

pub same_iff : (xs ys : List ℕ) → (same xs ys ≡ true) ↔ (xs ≡ ys)
same_iff [] [] = ground arith
same_iff [] (y ∷ ys) = ground arith
same_iff (x ∷ xs) [] = ground arith
same_iff (x ∷ xs) (y ∷ ys) = ground (arith, same_iff xs ys)

pub same_refl : (xs : List ℕ) → same xs xs ≡ true
same_refl xs = (same_iff xs xs).1 refl

pub copy_to-cons {ℓ} :
    {A : Type ℓ} (x : A) (xs : List A) (i : ℕ) (ys : List A)
    → copy_to (x ∷ xs) (suc i) ys ≡ x ∷ copy_to xs i ys
copy_to-cons x xs i [] = refl
copy_to-cons x xs i (y ∷ ys) = copy_to-cons x (set xs i y) (suc i) ys

-- An array after a copy to its start.
pub copy_to-eq {ℓ} :
    {A : Type ℓ} (xs ys : List A)
    → length ys ≤ length xs
    → copy_to xs 0 ys ≡ ys ++ drop (length ys) xs
copy_to-eq xs [] h = refl
copy_to-eq [] (y ∷ ys) h = absurd (omega arith)
copy_to-eq (x ∷ xs) (y ∷ ys) h =
    copy_to-cons y xs 0 ys ∙ ap (λ t. y ∷ t) (copy_to-eq xs ys (omega arith))

-- An array after a text and its terminator were stored from its start on.
abbrev pub stored : List ℕ → List ℕ → List ℕ
stored xs ys = set (copy_to xs 0 ys) (length ys) 0

pub set_zero : (xs : List ℕ) → c_str (set xs 0 0) ≡ []
set_zero [] = refl
set_zero (x ∷ xs) = refl

stored_at :
    (xs ys : List ℕ) (n : ℕ)
    → n ≡ length ys
    → n < length xs
    → c_str (set (copy_to xs 0 ys) n 0) ≡ c_str ys
stored_at [] ys n e h = absurd (omega arith)
stored_at (x ∷ xs) [] zero e h = refl
stored_at (x ∷ xs) [] (suc n) e h = absurd (omega arith)
stored_at (x ∷ xs) (y ∷ ys) zero e h = absurd (omega arith)
stored_at (x ∷ xs) (y ∷ ys) (suc n) e h =
    rw copy_to-cons
      (ap (λ t. if y == 0 then [] else y ∷ t) (stored_at xs ys n (omega arith) (omega arith)))

-- The array then holds that text.
pub c_str-stored : (xs ys : List ℕ) → length ys < length xs → c_str (stored xs ys) ≡ c_str ys
c_str-stored xs ys h = stored_at xs ys (length ys) refl h

-- strncpy(dst, src, n): at most `n` characters of the text, filled up with zeros to `n`.
abbrev pub strncpy : List ℕ → ℕ → List ℕ → List ℕ
strncpy dst n src = copy_to dst 0 (take n (c_str src ++ replicate n 0))

zeros : (n k : ℕ) → c_str (take n (replicate k 0)) ≡ []
zeros zero k = refl
zeros (suc n) zero = refl
zeros (suc n) (suc k) = refl

padded : (n k : ℕ) (src : List ℕ) → c_str (take n (c_str src ++ replicate k 0)) ≡ take n (c_str src)
padded zero k src = refl
padded (suc n) k [] = zeros (suc n) k
padded (suc n) k (x ∷ src) = elim (Bool-cases (x == 0)) [
  | inl z ↦ rw z (zeros (suc n) k)
  | inr nz ↦ rw nz (rw nz (ap (λ t. x ∷ t) (padded n k src)))
]

-- A text that is copied into an array of `n + 1` bytes is cut at `n` characters.
pub strncpy_text :
    (dst : List ℕ) (n : ℕ) (src : List ℕ)
    → length dst ≡ suc n
    → c_str (set (strncpy dst n src) n 0) ≡ take n (c_str src)
strncpy_text dst n src h =
    stored_at dst (take n (c_str src ++ replicate n 0)) n
      (omega (
        arith,
        length-take n (c_str src ++ replicate n 0),
        length-append (c_str src) (replicate n 0),
        length-replicate {A = ℕ} n 0,
      ))
      (omega arith)
    ∙ padded n n src

pub take_all {ℓ} : {A : Type ℓ} (n : ℕ) (xs : List A) → length xs ≤ n → take n xs ≡ xs
take_all zero [] h = refl
take_all zero (x ∷ xs) h = absurd (omega arith)
take_all (suc n) [] h = refl
take_all (suc n) (x ∷ xs) h = ap (λ t. x ∷ t) (take_all n xs (omega arith))

pub length-strncpy :
    (dst : List ℕ) (n : ℕ) (src : List ℕ) → length (set (strncpy dst n src) n 0) ≡ length dst
length-strncpy dst n src =
    length-set (strncpy dst n src) n 0 ∙ length-copy_to dst 0 (take n (c_str src ++ replicate n 0))
