-- ===== src/AccessLog/Tests.antt =====
-- Instances of the theorems on the access log.
use socksv5_proxy.Base.{◌≡◌, none, some, [], ◌∷◌, ◌++◌}
use socksv5_proxy.AccessLog.{init, add}
use socksv5_proxy.AccessLog.History.{
  IsValid, init-IsValid, add-IsValid, history, history-add, recent, recorded,
}

history-add_example :
    history (add (add init (some (97 ∷ 0 ∷ [])) none 80 5) none none 443 6)
    ≡ recent (history (add init (some (97 ∷ 0 ∷ [])) none 80 5) ++ (recorded none none 443 6 ∷ []))
history-add_example =
    history-add none none 443 6 (add init (some (97 ∷ 0 ∷ [])) none 80 5)
      (add-IsValid (some (97 ∷ 0 ∷ [])) none 80 5 init init-IsValid.0)

add-IsValid_example : IsValid (add init (some (97 ∷ 0 ∷ [])) none 80 5)
add-IsValid_example = add-IsValid (some (97 ∷ 0 ∷ [])) none 80 5 init init-IsValid.0
