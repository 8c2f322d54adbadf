-- ===== src/UserTable/Valid.antt =====
-- What the slots of the table keep: no name twice, and a count of the users.
use socksv5_proxy.Base.{
  ℕ, suc, ◌+◌, ◌≤◌, ◌<◌, ◌≡◌, refl, sym, ap, ◌∙◌, true, false, Option, none, some, ◌&&◌,
  if◌then◌else◌, List, [], ◌∷◌, length, arith, Bool-cases, inl, inr, ◌⊎◌, c_str, same, same_iff,
  strcmp_eq, strlen,
}
use mathlib.Core.Bool.{false≢true}
use socksv5_proxy.UserTable.{UserEntry, find, filled, place, deactivate}
use socksv5_proxy.UserTable.Slots.{
  password_of, password_of-congr, password_of-place, password_of-off, place-cons, filled_text,
  filled-HasRoom, AllRoom, Distinct,
}

unfoldable pub active_count : List UserEntry → ℕ
active_count [] = 0
active_count (e ∷ es) = (if e.active then 1 else 0) + active_count es

pub active_count-le : (es : List UserEntry) → active_count es ≤ length es
unfolding active_count
active_count-le [] = omega arith
active_count-le (e ∷ es) = ground (arith, active_count-le es)

-- A free slot is found whenever there is one.
pub place_free :
    (es : List UserEntry) (name pass : List ℕ)
    → active_count es < length es
    → (es' : List UserEntry) × (place es name pass ≡ some es')
unfolding active_count place
place_free [] name pass h = absurd (omega arith)
place_free (e ∷ es) name pass h = elim (Bool-cases e.active) [
  | inl on ↦ let (rest, eq) = place_free es name pass (ground arith) in (e ∷ rest, ground arith)
  | inr off ↦ (filled e name pass ∷ es, ground arith)
]

active_count-cons_on :
    (e : UserEntry) (es : List UserEntry)
    → e.active ≡ true
    → active_count (e ∷ es) ≡ suc (active_count es)
unfolding active_count
active_count-cons_on e es h = ground arith

active_count-cons_off :
    (e : UserEntry) (es : List UserEntry)
    → e.active ≡ false
    → active_count (e ∷ es) ≡ active_count es
unfolding active_count
active_count-cons_off e es h = ground arith

filled-active : (e : UserEntry) (name pass : List ℕ) → (filled e name pass).active ≡ true
unfolding filled
filled-active e name pass = refl

place_nil : (name pass : List ℕ) {es' : List UserEntry} → place [] name pass ≡ some es' → ⊥
unfolding place
place_nil name pass h = cc

-- A name that the map lacks is not that of its first active entry, nor of a later one.
missed :
    (e : UserEntry) (es : List UserEntry) (name : List ℕ)
    → e.active ≡ true
    → password_of (e ∷ es) name ≡ none
    → (same (c_str name) (c_str e.name) ≡ false) × (password_of es name ≡ none)
unfolding password_of
missed e es name on f = (
  ground (arith, same_iff (c_str e.name) (c_str name), same_iff (c_str name) (c_str e.name)),
  ground arith,
)

-- What stays true of the slots when one is taken.
pub record Placed (es es' : List UserEntry) : Type 0 where
  pub as_long : length es' ≡ length es
  pub one_more : active_count es' ≡ suc (active_count es)
  pub room : AllRoom es'
  pub distinct : Distinct es'

pub place-Placed :
    (es : List UserEntry) (name pass : List ℕ) {es' : List UserEntry}
    → AllRoom es
    → Distinct es
    → strlen name ≤ 255
    → strlen pass ≤ 255
    → password_of es name ≡ none
    → place es name pass ≡ some es'
    → Placed es es'
place-Placed [] name pass {es'} r d ln lp f h = absurd (place_nil name pass {es' = es'} h)
place-Placed (e ∷ es) name pass {es'} r d ln lp f h = elim (place-cons e es name pass h) [
  | inl (off, eq) ↦ rw eq (record {
    as_long = refl;
    one_more =
        active_count-cons_on (filled e name pass) es (filled-active e name pass)
        ∙ ap suc (sym (active_count-cons_off e es off));
    room = (filled-HasRoom e name pass r.0, r.1);
    distinct = (
      λ _.
          password_of-congr es (filled e name pass).name name (filled_text e name pass r.0 ln lp).0
          ∙ sym (password_of-off e es name off)
          ∙ f,
      d.1,
    );
  })
  | inr (rest, on, eq, eq') ↦
      (let (miss, f') = missed e es name on f in
        let ih = place-Placed es name pass r.1 d.1 ln lp f' eq in
        rw eq' (record {
          as_long = ap suc ih.as_long;
          one_more =
              active_count-cons_on e rest on
              ∙ ap suc (ih.one_more ∙ sym (active_count-cons_on e es on));
          room = (r.0, ih.room);
          distinct = (
            λ h'. rw (password_of-place es name pass r.1 ln lp f' eq e.name, miss) (d.0 h'),
            ih.distinct,
          );
        }))
]

-- Where the index that `find` returns lies.
find-cons :
    (e : UserEntry) (es : List UserEntry) (n : List ℕ) {i : ℕ}
    → find (e ∷ es) n ≡ some i
    → ((i ≡ 0) × (e.active ≡ true) × (c_str e.name ≡ c_str n))
      ⊎ ((j : ℕ) × (i ≡ suc j) × (find es n ≡ some j) × ((e.active && strcmp_eq e.name n) ≡ false))
unfolding find
find-cons e es n {i} h = elim (Bool-cases (e.active && strcmp_eq e.name n)) [
  | inl hit ↦ inl (ground arith, ground arith, ground (arith, same_iff (c_str e.name) (c_str n)))
  | inr miss ↦ inr (go (find es n) refl miss)
]
  where
    go :
        (o : Option ℕ)
        → find es n ≡ o
        → (e.active && strcmp_eq e.name n) ≡ false
        → (j : ℕ) × (i ≡ suc j) × (find es n ≡ some j) × ((e.active && strcmp_eq e.name n) ≡ false)
    go none eq miss = absurd (ground arith)
    go (some j) eq miss = (j, ground arith, eq, miss)

find_nil : (n : List ℕ) {i : ℕ} → find [] n ≡ some i → ⊥
unfolding find
find_nil n h = cc

gone_here :
    (e : UserEntry) (es : List UserEntry) (n k : List ℕ)
    → e.active ≡ true
    → c_str e.name ≡ c_str n
    → password_of es e.name ≡ none
    → password_of (record e { active = false } ∷ es) k
      ≡ (if same (c_str n) (c_str k) then none else password_of (e ∷ es) k)
unfolding password_of
gone_here e es n k on text free = elim (Bool-cases (same (c_str n) (c_str k))) [
  | inl hit ↦
      rw hit (
        password_of-congr es k e.name (sym ((same_iff (c_str n) (c_str k)).0 hit) ∙ sym text)
        ∙ free)
  | inr miss ↦ rw (miss, on, text, miss)
]

gone_later :
    (e : UserEntry) (es es' : List UserEntry) (n k : List ℕ)
    → (e.active && strcmp_eq e.name n) ≡ false
    → password_of es' k ≡ (if same (c_str n) (c_str k) then none else password_of es k)
    → password_of (e ∷ es') k ≡ (if same (c_str n) (c_str k) then none else password_of (e ∷ es) k)
unfolding password_of
gone_later e es es' n k miss later = ground (
  arith,
  same_iff (c_str e.name) (c_str k),
  same_iff (c_str n) (c_str k),
  same_iff (c_str e.name) (c_str n),
)

still_free :
    (e : UserEntry) (es es' : List UserEntry) (n : List ℕ)
    → password_of es e.name ≡ none
    → password_of es' e.name
      ≡ (if same (c_str n) (c_str e.name) then none else password_of es e.name)
    → password_of es' e.name ≡ none
still_free e es es' n free eq = ground arith

one_less_here :
    (e : UserEntry) (es : List UserEntry)
    → e.active ≡ true
    → suc (active_count (record e { active = false } ∷ es)) ≡ active_count (e ∷ es)
unfolding active_count
one_less_here e es on = ground arith

one_less_later :
    (e : UserEntry) (es es' : List UserEntry)
    → suc (active_count es') ≡ active_count es
    → suc (active_count (e ∷ es')) ≡ active_count (e ∷ es)
unfolding active_count
one_less_later e es es' h = ground arith

-- What stays true of the slots when the user of a name is taken off.
pub record Removed (es es' : List UserEntry) (n : List ℕ) : Type 0 where
  pub as_long : length es' ≡ length es
  pub one_less : suc (active_count es') ≡ active_count es
  pub room : AllRoom es'
  pub distinct : Distinct es'
  pub gone :
      (k : List ℕ)
      → password_of es' k ≡ (if same (c_str n) (c_str k) then none else password_of es k)

pub deactivate-Removed :
    (es : List UserEntry) (n : List ℕ) (i : ℕ)
    → AllRoom es
    → Distinct es
    → find es n ≡ some i
    → Removed es (deactivate es i) n
unfolding deactivate
deactivate-Removed [] n i r d h = absurd (find_nil n h)
deactivate-Removed (e ∷ es) n i r d h = elim (find-cons e es n h) [
  | inl (eq, on, text) ↦ rw eq (record {
    as_long = refl;
    one_less = one_less_here e es on;
    room = (record { name_room = r.0.name_room; pass_room = r.0.pass_room }, r.1);
    distinct = (λ off. absurd (false≢true off), d.1);
    gone = λ k. gone_here e es n k on text (d.0 on);
  })
  | inr (j, eq, found, miss) ↦
      (let ih = deactivate-Removed es n j r.1 d.1 found in
        rw eq (record {
          as_long = ap suc ih.as_long;
          one_less = one_less_later e es (deactivate es j) ih.one_less;
          room = (r.0, ih.room);
          distinct =
              (λ on. still_free e es (deactivate es j) n (d.0 on) (ih.gone e.name), ih.distinct);
          gone = λ k. gone_later e es (deactivate es j) n k miss (ih.gone k);
        }))
]
