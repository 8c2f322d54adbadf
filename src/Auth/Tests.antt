-- ===== src/Auth/Tests.antt =====
-- Runs of the credentials parser, and instances of its theorems.
use socksv5_proxy.Base.{ℕ, ◌≡◌, refl, some, List, [], ◌∷◌, arith, false, replicate, c_str}
use socksv5_proxy.Buffer.{Buffer}
use socksv5_proxy.Buffer.Fifo.{Holds}
use socksv5_proxy.Auth.{AuthParser, auth_version, auth_done, consume, parser_init}
use socksv5_proxy.Auth.Parse.{message_parsed}

abbrev fresh : AuthParser
fresh = record {
  state = auth_version;
  ulen = 0;
  plen = 0;
  i = 0;
  uname = replicate 256 0;
  passwd = replicate 256 0;
}

abbrev bob : List ℕ
bob = 98 ∷ 111 ∷ 98 ∷ []

-- "bob" and "pw", and one byte of the next message.
abbrev sent : Buffer
sent = record {
  storage = 1 ∷ 3 ∷ 98 ∷ 111 ∷ 98 ∷ 2 ∷ 112 ∷ 119 ∷ 5 ∷ [];
  limit = 9;
  read_pos = 0;
  write_pos = 9;
}

message_parsed_example :
    (b : Buffer) × (p : AuthParser) × (consume sent (parser_init fresh) false
      ≡ some (b, p, auth_done, false))
    × Holds b (5 ∷ [])
    × (c_str p.uname ≡ c_str bob)
    × (c_str p.passwd ≡ c_str (112 ∷ 119 ∷ []))
message_parsed_example =
    message_parsed fresh bob (112 ∷ 119 ∷ []) (5 ∷ []) false
      (record { valid = omega arith; held = refl }) (omega arith) (omega arith) refl refl
