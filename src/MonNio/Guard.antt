-- ===== src/MonNio/Guard.antt =====
-- What a connection that is not authenticated can do.
use socksv5_proxy.Base.{
  ◌≤◌, ◌≡◌, refl, Bool, true, false, ◌==◌, ltb, List, [], ◌∷◌, ◌⊎◌, inl, inr, Bool-cases, arith,
}
use socksv5_proxy.UserTable
use socksv5_proxy.MonProtocol.{MonRequest}
use socksv5_proxy.MonNio.{Server, answer, arg}

-- The requests of one connection, each one after the answer to the one before.
pub answers : Server → Bool → List MonRequest → Server × Bool
answers s authenticated [] = (s, authenticated)
answers s authenticated (req ∷ reqs) =
    let (s', authenticated', status, payload) = answer s authenticated req in
    answers s' authenticated' reqs

-- A request for authentication with the name and the password of a user.
pub record IsLogin (s : Server) (req : MonRequest) : Type 0 where
  pub command : req.cmd ≡ 0
  pub arguments : 2 ≤ req.nargs
  pub known : UserTable.lookup s.users (arg req 0) (arg req 1) ≡ true

abbrev pub HasLogin : Server → List MonRequest → Type 0
HasLogin s [] = ⊥
HasLogin s (req ∷ reqs) = IsLogin s req ⊎ HasLogin s reqs

-- The tables and the flag after a request of a connection that is not authenticated.
outsider :
    (s : Server) (req : MonRequest)
    → (((answer s false req).0 ≡ s) × ((answer s false req).1 ≡ false)) ⊎ IsLogin s req
unfolding answer
outsider s req = elim (Bool-cases (req.cmd == 0)) [
  | inr other ↦ rw other (inl (refl, refl))
  | inl auth ↦ elim (Bool-cases (ltb req.nargs 2)) [
    | inl few ↦ rw (auth, few) (inl (refl, refl))
    | inr enough ↦ elim (Bool-cases (UserTable.lookup s.users (arg req 0) (arg req 1))) [
      | inr unknown ↦ rw (auth, enough, unknown) (inl (refl, refl))
      | inl known ↦ inr (record { command = ground arith; arguments = ground arith; known = known })
    ]
  ]
]

-- A connection that starts without authentication changes nothing, neither the users nor its own
-- standing, unless one of its requests is for authentication with the name and the password of a
-- user that the table had from the start.
pub session_guarded :
    (s : Server) (reqs : List MonRequest) → (answers s false reqs ≡ (s, false)) ⊎ HasLogin s reqs
unfolding answers
session_guarded s [] = inl refl
session_guarded s (req ∷ reqs) = elim (outsider s req) [
  | inr login ↦ inr (inl login)
  | inl same ↦ elim (session_guarded s reqs) [
    | inr later ↦ inr (inr later)
    | inl quiet ↦ inl (rw (same.0, same.1) quiet)
  ]
]
