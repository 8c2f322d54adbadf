-- ===== src/Auth/Parse.antt =====
-- A username and password message, fed byte by byte.
use socksv5_proxy.Base.{
  ℕ, suc, ◌+◌, ◌<◌, ◌≡◌, ◌≢◌, refl, ap, ◌∙◌, Bool, true, some, List, [], ◌∷◌, ◌++◌, length, arith,
  set, copy_to, c_str, c_str-stored, set_zero, append_assoc, stored, length-set,
}
use socksv5_proxy.Consume.Stream.{drain, loop_drained}
use socksv5_proxy.Buffer.{Buffer}
use socksv5_proxy.Buffer.Fifo.{Holds}
use socksv5_proxy.Auth.{
  AuthState, AuthParser, auth_version, auth_ulen, auth_uname, auth_plen, auth_passwd, auth_done,
  auth_error_unsupported_version, parser_feed, is_done, parser_init, consume,
}

abbrev parser : AuthState → ℕ → ℕ → ℕ → List ℕ → List ℕ → AuthParser
parser st u p i un pw = record { state = st; ulen = u; plen = p; i = i; uname = un; passwd = pw }

drain_uname :
    (y : ℕ) (ys rest : List ℕ) (u p i : ℕ) (un pw : List ℕ) (err : Bool)
    → u ≡ suc (i + length ys)
    → u < 256
    → drain parser_feed is_done (y ∷ ys ++ rest) (parser auth_uname u p i un pw) auth_uname err
      ≡ drain parser_feed is_done rest
          (parser auth_plen u p u (set (copy_to (set un i y) (i + 1) ys) u 0) pw)
          auth_plen
          err
unfolding drain parser_feed is_done
drain_uname y [] rest u p i un pw err e lt = ground arith
drain_uname y (y' ∷ ys) rest u p i un pw err e lt =
    ground (arith, drain_uname y' ys rest u p (i + 1) (set un i y) pw err)

drain_passwd :
    (y : ℕ) (ys rest : List ℕ) (u p i : ℕ) (un pw : List ℕ) (err : Bool)
    → p ≡ suc (i + length ys)
    → p < 256
    → drain parser_feed is_done (y ∷ ys ++ rest) (parser auth_passwd u p i un pw) auth_passwd err
      ≡ (
        rest,
        parser auth_done u p p un (set (copy_to (set pw i y) (i + 1) ys) p 0),
        auth_done,
        err,
      )
unfolding drain parser_feed is_done
drain_passwd y [] rest u p i un pw err e lt = ground arith
drain_passwd y (y' ∷ ys) rest u p i un pw err e lt =
    ground (arith, drain_passwd y' ys rest u p (i + 1) un (set pw i y) err)

drain_pass :
    (pass rest : List ℕ) (u p i : ℕ) (un pw : List ℕ) (err : Bool)
    → length pass < 256
    → drain parser_feed is_done
        (length pass ∷ pass ++ rest)
        (parser auth_plen u p i un pw)
        auth_plen
        err
      ≡ (rest, parser auth_done u (length pass) (length pass) un (stored pw pass), auth_done, err)
unfolding drain parser_feed is_done
drain_pass [] rest u p i un pw err lt = refl
drain_pass (y ∷ ys) rest u p i un pw err lt =
    ground (arith, drain_passwd y ys rest u (suc (length ys)) 0 un pw err)

-- The array of the user name: an empty name leaves it as it was initialised.
abbrev named : List ℕ → List ℕ → List ℕ
named un [] = un
named un (y ∷ ys) = stored un (y ∷ ys)

drain_user :
    (user rest : List ℕ) (u p i : ℕ) (un pw : List ℕ) (err : Bool)
    → length user < 256
    → drain parser_feed is_done
        (length user ∷ user ++ rest)
        (parser auth_ulen u p i un pw)
        auth_ulen
        err
      ≡ drain parser_feed is_done rest
          (parser auth_plen (length user) p (length user) (named un user) pw)
          auth_plen
          err
unfolding drain parser_feed is_done
drain_user [] rest u p i un pw err lt = refl
drain_user (y ∷ ys) rest u p i un pw err lt =
    ground (arith, drain_uname y ys rest (suc (length ys)) p 0 un pw err)

-- The parser at the end of a message.
finished : AuthParser → List ℕ → List ℕ → AuthParser
finished p user pass =
    parser auth_done (length user) (length pass) (length pass) (named (set p.uname 0 0) user)
      (stored (set p.passwd 0 0) pass)

message : List ℕ → List ℕ → List ℕ
message user pass = 1 ∷ length user ∷ user ++ length pass ∷ pass

drain_version :
    (p : AuthParser) (xs : List ℕ) (err : Bool)
    → drain parser_feed is_done (1 ∷ xs) (parser_init p) auth_version err
      ≡ drain parser_feed is_done xs
          (parser auth_ulen 0 0 0 (set p.uname 0 0) (set p.passwd 0 0))
          auth_ulen
          err
unfolding drain parser_feed is_done parser_init
drain_version p xs err = refl

drain-message :
    (p : AuthParser) (user pass rest : List ℕ) (err : Bool)
    → length user < 256
    → length pass < 256
    → drain parser_feed is_done (message user pass ++ rest) (parser_init p) auth_version err
      ≡ (rest, finished p user pass, auth_done, err)
unfolding message finished
drain-message p user pass rest err lu lp =
    drain_version p _ err
    ∙ ap
        (λ t.
          drain parser_feed is_done (length user ∷ t) (parser auth_ulen 0 0 0 un pw) auth_ulen err)
        (append_assoc user (length pass ∷ pass) rest)
    ∙ drain_user user (length pass ∷ pass ++ rest) 0 0 0 un pw err lu
    ∙ drain_pass pass rest (length user) 0 (length user) (named un user) pw err lp
  where
    un : List ℕ
    un = set p.uname 0 0

    pw : List ℕ
    pw = set p.passwd 0 0

c_str-named :
    (un user : List ℕ) → length user < length un → c_str (named (set un 0 0) user) ≡ c_str user
c_str-named un [] h = set_zero un
c_str-named un (y ∷ ys) h = c_str-stored (set un 0 0) (y ∷ ys) (omega (arith, length-set un 0 0))

-- A message of a version byte, a user name and a password, each of up to 255 bytes behind its
-- length, is taken whole and nothing behind it: the parser is done without an error, and its
-- arrays hold the texts sent, each up to its first zero byte.
pub message_parsed :
    {b : Buffer} (p : AuthParser) (user pass rest : List ℕ) (err : Bool)
    → Holds b (1 ∷ length user ∷ user ++ length pass ∷ pass ++ rest)
    → length user < 256
    → length pass < 256
    → length p.uname ≡ 256
    → length p.passwd ≡ 256
    → (b' : Buffer) × (p' : AuthParser) × (consume b (parser_init p) err
        ≡ some (b', p', auth_done, err))
      × Holds b' rest
      × (c_str p'.uname ≡ c_str user)
      × (c_str p'.passwd ≡ c_str pass)
unfolding consume parser_init finished message
message_parsed p user pass rest err h lu lp ru rp =
    let (b', e, k, l) =
      loop_drained parser_feed is_done (parser_init p) auth_version err
        (drain-message p user pass rest err lu lp) h in
    (
      b',
      finished p user pass,
      e,
      k,
      c_str-named p.uname user (omega arith),
      c_str-stored (set p.passwd 0 0) pass (omega (arith, length-set p.passwd 0 0)),
    )

refused :
    (p : AuthParser) (c : ℕ) (rest : List ℕ) (err : Bool)
    → c ≢ 1
    → drain parser_feed is_done (c ∷ rest) (parser_init p) auth_version err ≡ (
      rest,
      record (parser_init p) { state = auth_error_unsupported_version },
      auth_error_unsupported_version,
      true,
    )
unfolding drain parser_feed is_done parser_init
refused p c rest err ne = ground arith

-- A message with another version byte is refused at that byte, and the rest is not read.
pub auth_version_refused :
    {b : Buffer} (p : AuthParser) (c : ℕ) (rest : List ℕ) (err : Bool)
    → Holds b (c ∷ rest)
    → c ≢ 1
    → (b' : Buffer) × (p' : AuthParser) × (consume b (parser_init p) err
        ≡ some (b', p', auth_error_unsupported_version, true))
      × Holds b' rest
unfolding consume parser_init
auth_version_refused p c rest err h ne =
    let (b', e, k, l) =
      loop_drained parser_feed is_done (parser_init p) auth_version err (refused p c rest err ne)
        h in
    (b', record (parser_init p) { state = auth_error_unsupported_version }, e, k)
