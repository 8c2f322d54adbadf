-- ===== src/UserTable/Tests.antt =====
-- Runs of the user table, and instances of its theorems.
use socksv5_proxy.Base.{
  ℕ, ◌≡◌, ◌+◌, refl, some, none, List, [], ◌∷◌, arith, true, false, if◌then◌else◌, same, c_str, ◌↔◌,
}
use socksv5_proxy.UserTable.{
  init, add, remove, lookup, find, place, filled, admissible, find_by_name, pass_at,
}
use socksv5_proxy.UserTable.Lookup.{
  IsValid, Accepts, user, init-IsValid, add_accepted, add_refused, remove_refines,
}

abbrev bob : List ℕ
bob = 98 ∷ 111 ∷ 98 ∷ 0 ∷ []

abbrev pw : List ℕ
pw = 112 ∷ 119 ∷ 0 ∷ []

lookup_runs : lookup (add init (some bob) (some pw)).0 (some bob) (some pw) ≡ true
unfolding add init lookup find place filled admissible find_by_name pass_at
lookup_runs = refl

bob_accepted : Accepts init bob pw
unfolding init
bob_accepted = record {
  name_min = omega arith;
  name_max = omega arith;
  pass_min = omega arith;
  pass_max = omega arith;
  fresh = init-IsValid.1 bob;
  free = omega arith;
}

add_accepted_example :
    let (t, done) = add init (some bob) (some pw) in
    (done ≡ true)
    × IsValid t
    × (t.count ≡ init.count + 1)
    × ((k : List ℕ)
        → user t k ≡ (if same (c_str bob) (c_str k) then some (c_str pw) else user init k))
add_accepted_example = add_accepted init bob pw init-IsValid.0 bob_accepted

-- an empty name
add_refused_example : add init (some []) (some pw) ≡ (init, false)
add_refused_example = add_refused init [] pw (λ a. omega (arith, a.name_min))

remove_refines_example :
    let (t, done) = remove init (some bob) in
    IsValid t
    × ((done ≡ false) ↔ (user init bob ≡ none))
    × ((k : List ℕ) → user t k ≡ (if same (c_str bob) (c_str k) then none else user init k))
remove_refines_example = remove_refines init bob init-IsValid.0
