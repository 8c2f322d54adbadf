-- ===== src/UserTable/Lookup.antt =====
-- The table implements a finite map from names to passwords of bounded size.
use socksv5_proxy.Base.{
  ℕ, ◌+◌, ◌-◌, ◌≤◌, ◌<◌, ◌≡◌, refl, sym, ◌∙◌, Bool, true, false, Option, none, some, if◌then◌else◌,
  List, length, arith, Bool-cases, inl, inr, c_str, same, same_iff, strcmp_eq, strlen, ◌↔◌, ◌%◌,
  ◌^◌, ◌∷◌, [], ap₂,
}
use socksv5_proxy.UserTable.{
  UserTable, UserEntry, find, find_by_name, place, deactivate, init, add, remove, lookup,
  admissible, pass_at,
}
use socksv5_proxy.UserTable.Slots.{
  password_of, AllRoom, Distinct, find-none, find-some, password_of-congr, password_of-place,
}
use socksv5_proxy.UserTable.Valid.{
  active_count, active_count-le, place_free, place-Placed, deactivate-Removed, Placed,
}

pub record IsValid (t : UserTable) : Type 0 where
  pub slots : length t.entries ≡ 10
  pub room : AllRoom t.entries
  pub distinct : Distinct t.entries
  pub counted : t.count ≡ active_count t.entries

-- The abstract map.
pub user : UserTable → List ℕ → Option (List ℕ)
user t n = password_of t.entries n

-- The table starts empty and valid.
pub init-IsValid : IsValid init × ((n : List ℕ) → user init n ≡ none)
unfolding init user active_count password_of
init-IsValid = (
  record { slots = refl; room = omega arith; distinct = ground arith; counted = refl },
  λ n. refl,
)

-- `user_table_lookup` accepts exactly the password that the map holds for the name, up to the
-- first zero byte of each.
pub lookup_iff :
    (t : UserTable) (name pass : List ℕ)
    → (lookup t (some name) (some pass) ≡ true) ↔ (user t name ≡ some (c_str pass))
unfolding lookup find_by_name user
lookup_iff t name pass = go (find t.entries name) refl
  where
    go :
        (o : Option ℕ)
        → find t.entries name ≡ o
        → ((elim o [ none ↦ false | some i ↦ strcmp_eq (pass_at t.entries i) pass ]) ≡ true)
          ↔ (user t name ≡ some (c_str pass))
    go none e = ground (arith, find-none t.entries name e)
    go (some i) e =
        ground
          (arith, find-some t.entries name e, same_iff (c_str (pass_at t.entries i)) (c_str pass))

-- What `user_table_add` takes: both texts of 1 to 255 characters, a name that is not there, and
-- fewer than ten users.
pub record Accepts (t : UserTable) (name pass : List ℕ) : Type 0 where
  pub name_min : 0 < strlen name
  pub name_max : strlen name ≤ 255
  pub pass_min : 0 < strlen pass
  pub pass_max : strlen pass ≤ 255
  pub fresh : user t name ≡ none
  pub free : t.count < 10

admissible_iff :
    (t : UserTable) (name pass : List ℕ) → (admissible t name pass ≡ true) ↔ Accepts t name pass
unfolding admissible user
admissible_iff t name pass = ground (arith, accepts (find t.entries name) refl)
  where
    accepts :
        (o : Option ℕ)
        → find t.entries name ≡ o
        → ((elim o [ some i ↦ false | none ↦ true ]) ≡ true) ↔ (user t name ≡ none)
    accepts none e = ground (arith, find-none t.entries name e)
    accepts (some i) e = ground (arith, find-some t.entries name e)

absent :
    (es : List UserEntry) (n k : List ℕ)
    → password_of es n ≡ none
    → password_of es k ≡ (if same (c_str n) (c_str k) then none else password_of es k)
absent es n k h = elim (Bool-cases (same (c_str n) (c_str k))) [
  | inl hit ↦ rw hit (sym (password_of-congr es n k ((same_iff (c_str n) (c_str k)).0 hit)) ∙ h)
  | inr miss ↦ rw miss
]

added :
    (t : UserTable) (name pass : List ℕ) {es : List UserEntry}
    → admissible t name pass ≡ true
    → place t.entries name pass ≡ some es
    → add t (some name) (some pass)
      ≡ (record { entries = es; count = (t.count + 1) % 2 ^ 32 }, true)
unfolding add
added t name pass ok e = rw (ok, e)

-- `user_table_add` with what it takes answers true, and the map holds the new password for that
-- name and is otherwise as it was; the table stays valid, with one user more.
pub add_accepted :
    (t : UserTable) (name pass : List ℕ)
    → IsValid t
    → Accepts t name pass
    → let (t', done) = add t (some name) (some pass) in
      (done ≡ true)
      × IsValid t'
      × (t'.count ≡ t.count + 1)
      × ((k : List ℕ)
          → user t' k ≡ (if same (c_str name) (c_str k) then some (c_str pass) else user t k))
unfolding user
add_accepted t name pass v a = rw (added t name pass ((admissible_iff t name pass).1 a) found.1) (
  refl,
  record {
    slots = placed.as_long ∙ v.slots;
    room = placed.room;
    distinct = placed.distinct;
    counted = omega (arith, a.free, v.counted, placed.one_more);
  },
  omega (arith, a.free),
  password_of-place t.entries name pass v.room a.name_max a.pass_max a.fresh found.1,
)
  where
    found : (es : List UserEntry) × (place t.entries name pass ≡ some es)
    found = place_free t.entries name pass (omega (arith, a.free, v.counted, v.slots))

    placed : Placed t.entries found.0
    placed =
        place-Placed t.entries name pass v.room v.distinct a.name_max a.pass_max a.fresh found.1

-- `user_table_add` with anything else answers false and leaves the table as it was.
pub add_refused :
    (t : UserTable) (name pass : List ℕ)
    → ¬ Accepts t name pass
    → add t (some name) (some pass) ≡ (t, false)
unfolding add
add_refused t name pass na = elim (Bool-cases (admissible t name pass)) [
  | inl ok ↦ absurd (na ((admissible_iff t name pass).0 ok))
  | inr refused ↦ rw refused
]

-- `user_table_remove` takes the name out of the map and leaves the others as they were; it
-- answers whether the name was there, and the table stays valid.
pub remove_refines :
    (t : UserTable) (name : List ℕ)
    → IsValid t
    → let (t', done) = remove t (some name) in
      IsValid t'
      × ((done ≡ false) ↔ (user t name ≡ none))
      × ((k : List ℕ) → user t' k ≡ (if same (c_str name) (c_str k) then none else user t k))
unfolding remove find_by_name user
remove_refines t name v = go (find t.entries name) refl
  where
    out : Option ℕ → UserTable × Bool
    out = elim [
      | none ↦ (t, false)
      | some i ↦ (
        record { entries = deactivate t.entries i; count = (t.count + 2 ^ 32 - 1) % 2 ^ 32 },
        true,
      )
    ]

    go :
        (o : Option ℕ)
        → find t.entries name ≡ o
        → IsValid (out o).0
          × (((out o).1 ≡ false) ↔ (password_of t.entries name ≡ none))
          × ((k : List ℕ)
              → password_of (out o).0.entries k
                ≡ (if same (c_str name) (c_str k) then none else password_of t.entries k))
    go none e = (
      v,
      ground (arith, find-none t.entries name e),
      λ k. absent t.entries name k (find-none t.entries name e),
    )
    go (some i) e =
        let r = deactivate-Removed t.entries name i v.room v.distinct e in
        (
          record {
            slots = r.as_long ∙ v.slots;
            room = r.room;
            distinct = r.distinct;
            counted = omega (arith, r.one_less, v.counted, v.slots, active_count-le t.entries);
          },
          ground (arith, find-some t.entries name e),
          r.gone,
        )

find-congr : (es : List UserEntry) (a b : List ℕ) → c_str a ≡ c_str b → find es a ≡ find es b
unfolding find
find-congr [] a b e = refl
find-congr (x ∷ es) a b e = rw (e, find-congr es a b e)

-- `user_table_lookup` sees only the text in front of the first zero byte.
pub lookup-congr :
    (t : UserTable) (a b a' b' : List ℕ)
    → c_str a ≡ c_str a'
    → c_str b ≡ c_str b'
    → lookup t (some a) (some b) ≡ lookup t (some a') (some b')
unfolding lookup find_by_name
lookup-congr t a b a' b' e f = ap₂ accepts (find-congr t.entries a a' e) f
  where
    accepts : Option ℕ → List ℕ → Bool
    accepts o text = elim o [ none ↦ false | some i ↦ same (c_str (pass_at t.entries i)) text ]
