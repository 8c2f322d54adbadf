-- ===== src/Selector/Tests.antt =====
-- A small table, and instances of the theorems on it.
use socksv5_proxy.Base.{
  ℕ, ◌≡◌, ◌==◌, ◌≤◌, if◌then◌else◌, Bool-cases, inl, inr, true, false, none, some, List, [], ◌∷◌,
  refl, arith, replicate, pos,
}
use socksv5_proxy.Socks5.{Interest}
use socksv5_proxy.Selector.{
  Selector, Item, unused, is_used, FdHandler, Callback, close_callback, selector_register,
  selector_unregister_fd, selector_success,
}
use socksv5_proxy.Selector.Map.{
  IsConsistent, item_at, registered, placed, placed-IsConsistent, get_or-replicate,
}
use socksv5_proxy.Selector.Register.{register_adds, register_behind}
use socksv5_proxy.Selector.Unregister.{IsReached, unregister_removes}

abbrev both : Interest
both = record { op_read = true; op_write = true }

-- What `selector_new` makes of a request for 6.
abbrev empty_table : Selector
empty_table = record {
  fds = replicate 9 unused;
  max_fd = 0;
  master_r = λ j. false;
  master_w = λ j. false;
  resolution_jobs = [];
}

empty_table-unused : (j : ℕ) → item_at empty_table j ≡ unused
empty_table-unused = get_or-replicate 9

empty_table-IsConsistent : IsConsistent empty_table
empty_table-IsConsistent = record {
  own = λ j. rw (empty_table-unused j) (λ fd q. absurd (cc q));
  reads = λ j. rw (empty_table-unused j) refl;
  writes = λ j. rw (empty_table-unused j) refl;
  top = λ j. rw (empty_table-unused j) (λ q. absurd (cc q));
}

abbrev watching : Item
watching = record { fd = some 5; interest = both; handler = some 2; attachment = 70 }

-- Descriptor 5 is registered.
abbrev one_entry : Selector
one_entry = placed empty_table 5 watching 5

one_entry_top :
    (j : ℕ) → is_used (if j == 5 then watching else item_at empty_table j) ≡ true → j ≤ 5
one_entry_top j = elim (Bool-cases (j == 5)) [
  | inl e ↦ λ u. ground arith
  | inr e ↦ rw (e, empty_table-unused j) (λ u. absurd (cc u))
]

one_entry-IsConsistent : IsConsistent one_entry
one_entry-IsConsistent =
    placed-IsConsistent empty_table 5 watching 5 (omega arith) empty_table-IsConsistent
      (λ fd q. cc q) one_entry_top

register_adds_example :
    (s' : Selector) × (selector_register one_entry (pos 20) (some 3) both 8 true
      ≡ some (s', selector_success))
    × IsConsistent s'
    × ((j : ℕ)
        → registered s' j ≡ (
            if j == 20
            then some (record { handler = some 3; interest = both; attachment = 8 })
            else registered one_entry j))
register_adds_example =
    register_adds one_entry 20 3 both 8 one_entry-IsConsistent (omega arith) (λ q. omega arith) refl

register_behind_example : selector_register one_entry (pos 9) (some 3) both 8 true ≡ none
register_behind_example = register_behind one_entry 3 both 8 true (omega arith)

-- A close callback that writes down the descriptor.
abbrev closing : Callback (List ℕ)
closing key s w = some (s, key.fd ∷ w)

abbrev handlers : ℕ → FdHandler (List ℕ)
handlers h = record {
  handle_read = none;
  handle_write = none;
  handle_block_done = none;
  handle_close = some closing;
}

unregister_removes_example :
    (s' : Selector) × (selector_unregister_fd handlers one_entry [] (pos 5)
      ≡ some (s', 5 ∷ [], selector_success))
    × IsConsistent s'
    × IsReached s'
    × ((j : ℕ) → registered s' j ≡ (if j == 5 then none else registered one_entry j))
unfolding close_callback
unregister_removes_example =
    unregister_removes handlers one_entry one_entry [] (5 ∷ []) 5 one_entry-IsConsistent
      (omega arith) (omega arith) refl refl one_entry-IsConsistent refl refl
