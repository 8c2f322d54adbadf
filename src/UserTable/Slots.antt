-- ===== src/UserTable/Slots.antt =====
-- The table seen as a finite map from names to passwords, slot by slot.
use socksv5_proxy.Base.{
  ℕ, ◌≤◌, ◌≡◌, refl, ◌∙◌, true, false, Option, none, some, ◌&&◌, if◌then◌else◌, List, [], ◌∷◌,
  length, arith, Bool-cases, inl, inr, c_str, same, same_iff, strcmp_eq, strncpy_text, take_all,
  length-strncpy, strlen, ◌⊎◌,
}
use socksv5_proxy.UserTable.{UserEntry, find, filled, place, pass_at}

-- The password text of the first active entry of that name.
unfoldable pub password_of : List UserEntry → List ℕ → Option (List ℕ)
password_of [] n = none
password_of (e ∷ es) n =
    if e.active && strcmp_eq e.name n then some (c_str e.pass) else password_of es n

pub password_of-congr :
    (es : List UserEntry) (n k : List ℕ) → c_str n ≡ c_str k → password_of es n ≡ password_of es k
unfolding password_of
password_of-congr [] n k h = refl
password_of-congr (e ∷ es) n k h = rw (h, password_of-congr es n k h)

-- `find` names the entry that decides `password_of`.
pub find-password_of :
    (es : List UserEntry) (n : List ℕ)
    → (elim (find es n) [ none ↦ none | some i ↦ some (c_str (pass_at es i)) ]) ≡ password_of es n
unfolding find password_of pass_at
find-password_of [] n = refl
find-password_of (e ∷ es) n = ground (arith, find-password_of es n)

pub find-none : (es : List UserEntry) (n : List ℕ) → find es n ≡ none → password_of es n ≡ none
find-none es n h = ground (arith, find-password_of es n)

pub find-some :
    (es : List UserEntry) (n : List ℕ) {i : ℕ}
    → find es n ≡ some i
    → password_of es n ≡ some (c_str (pass_at es i))
find-some es n h = ground (arith, find-password_of es n)

pub record HasRoom (e : UserEntry) : Type 0 where
  pub name_room : length e.name ≡ 256
  pub pass_room : length e.pass ≡ 256

abbrev pub AllRoom : List UserEntry → Type 0
AllRoom [] = Unit
AllRoom (e ∷ es) = HasRoom e × AllRoom es

abbrev pub Distinct : List UserEntry → Type 0
Distinct [] = Unit
Distinct (e ∷ es) = (e.active ≡ true → password_of es e.name ≡ none) × Distinct es

-- A filled entry holds both texts whole.
pub filled_text :
    (e : UserEntry) (name pass : List ℕ)
    → HasRoom e
    → strlen name ≤ 255
    → strlen pass ≤ 255
    → (c_str (filled e name pass).name ≡ c_str name)
      × (c_str (filled e name pass).pass ≡ c_str pass)
unfolding filled
filled_text e name pass r ln lp = (
  strncpy_text e.name 255 name r.name_room ∙ take_all 255 (c_str name) ln,
  strncpy_text e.pass 255 pass r.pass_room ∙ take_all 255 (c_str pass) lp,
)

pub filled-HasRoom : (e : UserEntry) (name pass : List ℕ) → HasRoom e → HasRoom (filled e name pass)
unfolding filled
filled-HasRoom e name pass r = record {
  name_room = length-strncpy e.name 255 name ∙ r.name_room;
  pass_room = length-strncpy e.pass 255 pass ∙ r.pass_room;
}

-- One of the two ways in which a slot is passed or taken.
pub place-cons :
    (e : UserEntry) (es : List UserEntry) (name pass : List ℕ) {es' : List UserEntry}
    → place (e ∷ es) name pass ≡ some es'
    → ((e.active ≡ false) × (es' ≡ filled e name pass ∷ es))
      ⊎ ((rest : List UserEntry) × (e.active ≡ true)
          × (place es name pass ≡ some rest)
          × (es' ≡ e ∷ rest))
unfolding place
place-cons e es name pass {es'} h = elim (Bool-cases e.active) [
  | inl on ↦ inr (go (place es name pass) refl on)
  | inr off ↦ inl (off, ground arith)
]
  where
    go :
        (o : Option (List UserEntry))
        → place es name pass ≡ o
        → e.active ≡ true
        → (rest : List UserEntry) × (e.active ≡ true)
          × (place es name pass ≡ some rest)
          × (es' ≡ e ∷ rest)
    go none eq on = absurd (ground arith)
    go (some rest) eq on = (rest, on, eq, ground arith)

password_of-filled :
    (e : UserEntry) (es : List UserEntry) (name pass k : List ℕ)
    → HasRoom e
    → strlen name ≤ 255
    → strlen pass ≤ 255
    → password_of (filled e name pass ∷ es) k
      ≡ (if same (c_str name) (c_str k) then some (c_str pass) else password_of es k)
unfolding password_of filled
password_of-filled e es name pass k r ln lp =
    let (a, b) = filled_text e name pass r ln lp in rw (a, b)

pub password_of-off :
    (e : UserEntry) (es : List UserEntry) (k : List ℕ)
    → e.active ≡ false
    → password_of (e ∷ es) k ≡ password_of es k
unfolding password_of
password_of-off e es k off = rw off

pub password_of-place :
    (es : List UserEntry) (name pass : List ℕ) {es' : List UserEntry}
    → AllRoom es
    → strlen name ≤ 255
    → strlen pass ≤ 255
    → password_of es name ≡ none
    → place es name pass ≡ some es'
    → (k : List ℕ)
    → password_of es' k
      ≡ (if same (c_str name) (c_str k) then some (c_str pass) else password_of es k)
unfolding password_of place
password_of-place [] name pass r ln lp f h k = cc
password_of-place (e ∷ es) name pass {es'} r ln lp f h k = elim (place-cons e es name pass h) [
  | inl (off, eq) ↦
      rw eq (rw (password_of-filled e es name pass k r.0 ln lp, password_of-off e es k off))
  | inr (rest, on, eq, eq') ↦ rw eq' (
      ground (
        arith,
        on,
        password_of-place es name pass r.1 ln lp (ground arith) eq k,
        same_iff (c_str e.name) (c_str k),
        same_iff (c_str name) (c_str k),
        same_iff (c_str e.name) (c_str name),
      ))
]
