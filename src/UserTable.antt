-- ===== src/UserTable.antt =====
-- server/user_table.c: the table of the users that may authenticate.
pub mod Slots
pub mod Valid
pub mod Lookup
mod Tests
use socksv5_proxy.Base.{
  ℕ, zero, suc, ◌+◌, ◌-◌, ◌%◌, ◌^◌, Bool, true, false, not, Option, none, some, ltb, leb, ◌==◌,
  ◌&&◌, ◌||◌, if◌then◌else◌, List, [], ◌∷◌, ◌++◌, set, replicate, length, strlen, strcmp_eq,
  strncpy, c_str,
}

abbrev pub max_users : ℕ
max_users = 10

abbrev pub max_cred_len : ℕ
max_cred_len = 255

-- `name` and `pass` are `char[MAX_CRED_LEN + 1]`.
pub record UserEntry : Type 0 where
  pub name : List ℕ
  pub pass : List ℕ
  pub active : Bool

pub record UserTable : Type 0 where
  pub entries : List UserEntry
  pub count : ℕ

-- memset to zero.
abbrev empty_entry : UserEntry
empty_entry = record {
  name = replicate (max_cred_len + 1) 0;
  pass = replicate (max_cred_len + 1) 0;
  active = false;
}

pub init : UserTable
init = record { entries = replicate max_users empty_entry; count = 0 }

-- The loop of `find_by_name`: the index of the first active entry of that name.
pub find : List UserEntry → List ℕ → Option ℕ
find [] name = none
find (e ∷ es) name =
    if e.active && strcmp_eq e.name name
    then some 0
    else elim (find es name) [ none ↦ none | some i ↦ some (suc i) ]

-- A null pointer is `none`.
pub find_by_name : UserTable → Option (List ℕ) → Option ℕ
find_by_name t none = none
find_by_name t (some name) = find t.entries name

-- What the loop of `user_table_add` writes to a free entry.
pub filled : UserEntry → List ℕ → List ℕ → UserEntry
filled e name pass = record {
  name = set (strncpy e.name max_cred_len name) max_cred_len 0;
  pass = set (strncpy e.pass max_cred_len pass) max_cred_len 0;
  active = true;
}

-- The loop of `user_table_add`: the entries with the first free one filled, if one is free.
pub place : List UserEntry → List ℕ → List ℕ → Option (List UserEntry)
place [] name pass = none
place (e ∷ es) name pass =
    if not e.active
    then some (filled e name pass ∷ es)
    else elim (place es name pass) [ none ↦ none | some es' ↦ some (e ∷ es') ]

-- The checks of `user_table_add` in front of its loop, in order.
admissible : UserTable → List ℕ → List ℕ → Bool
admissible t name pass =
    let nlen = strlen name in
    let plen = strlen pass in
    if nlen == 0 || ltb max_cred_len nlen
    then false
    else if plen == 0 || ltb max_cred_len plen
    then false
    else elim (find t.entries name) [ some i ↦ false | none ↦ not (leb max_users t.count) ]

-- `count` is an unsigned int.
pub add : UserTable → Option (List ℕ) → Option (List ℕ) → UserTable × Bool
add t none pass = (t, false)
add t (some name) none = (t, false)
add t (some name) (some pass) =
    if not (admissible t name pass) then (t, false) else elim (place t.entries name pass) [
      | none ↦ (t, false)
      | some es ↦ (record { entries = es; count = (t.count + 1) % 2 ^ 32 }, true)
    ]

pub deactivate : List UserEntry → ℕ → List UserEntry
deactivate [] i = []
deactivate (e ∷ es) zero = record e { active = false } ∷ es
deactivate (e ∷ es) (suc i) = e ∷ deactivate es i

pub remove : UserTable → Option (List ℕ) → UserTable × Bool
remove t name = elim (find_by_name t name) [
  | none ↦ (t, false)
  | some i ↦
      (record { entries = deactivate t.entries i; count = (t.count + 2 ^ 32 - 1) % 2 ^ 32 }, true)
]

-- The password array of the entry at an index.
pub pass_at : List UserEntry → ℕ → List ℕ
pass_at [] i = []
pass_at (e ∷ es) zero = e.pass
pass_at (e ∷ es) (suc i) = pass_at es i

pub lookup : UserTable → Option (List ℕ) → Option (List ℕ) → Bool
lookup t name none = false
lookup t name (some pass) = elim (find_by_name t name) [
  | none ↦ false
  | some i ↦ strcmp_eq (pass_at t.entries i) pass
]

pub count : UserTable → ℕ
count t = t.count

-- The names that `user_table_list` hands to its callback, in order.
unfoldable pub list : List UserEntry → List (List ℕ)
list [] = []
list (e ∷ es) = let rest = list es in if e.active then e.name ∷ rest else rest
