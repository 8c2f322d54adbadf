-- ===== src/Request/Tests.antt =====
-- Runs of the request parser, and instances of its theorems.
use socksv5_proxy.Base.{◌≡◌, refl, some, [], ◌∷◌, arith, true, false, replicate, take}
use socksv5_proxy.Buffer.{Buffer}
use socksv5_proxy.Buffer.Fifo.{Holds}
use socksv5_proxy.Request.{
  RequestParser, request_version, request_done, request_error_unsupported_atyp, consume,
  parser_init, parser_feed,
}
use socksv5_proxy.Request.Parse.{request_parsed, atyp_refused, domain_name}
use socksv5_proxy.Request.Bounds.{IsValid, parser_init-IsValid, parser_feed-IsValid}

abbrev fresh : RequestParser
fresh = record {
  state = request_version;
  command = 0;
  atyp = 0;
  address = replicate 256 0;
  address_len = 0;
  address_index = 0;
  port = 0 ∷ 0 ∷ [];
  port_index = 0;
}

-- CONNECT to "ab" on port 80.
abbrev sent : Buffer
sent = record {
  storage = 5 ∷ 1 ∷ 0 ∷ 3 ∷ 2 ∷ 97 ∷ 98 ∷ 0 ∷ 80 ∷ [];
  limit = 9;
  read_pos = 0;
  write_pos = 9;
}

request_parsed_example :
    (b : Buffer) × (p : RequestParser) × (consume sent (parser_init fresh) false
      ≡ some (b, p, request_done, false))
    × Holds b []
    × (p.command ≡ 1)
    × (p.atyp ≡ 3)
    × (p.address_len ≡ 2)
    × (take p.address_len p.address ≡ 97 ∷ 98 ∷ [])
    × (p.port ≡ 0 ∷ 80 ∷ [])
request_parsed_example =
    request_parsed fresh 1 (domain_name (97 ∷ 98 ∷ [])) 0 80 [] false
      (record { valid = omega arith; held = refl }) (omega arith, omega arith) refl refl

atyp_refused_example :
    (b : Buffer) × (p : RequestParser) × (consume
        (record sent { storage = 5 ∷ 1 ∷ 0 ∷ 2 ∷ 2 ∷ 97 ∷ 98 ∷ 0 ∷ 80 ∷ [] })
        (parser_init fresh)
        false
      ≡ some (b, p, request_error_unsupported_atyp, true))
    × Holds b (2 ∷ 97 ∷ 98 ∷ 0 ∷ 80 ∷ [])
atyp_refused_example =
    atyp_refused fresh 1 2 (2 ∷ 97 ∷ 98 ∷ 0 ∷ 80 ∷ []) false
      (record { valid = omega arith; held = refl }) (omega arith) (omega arith) (omega arith)

parser_feed-IsValid_example : IsValid (parser_feed (parser_init fresh) 5).0
parser_feed-IsValid_example =
    parser_feed-IsValid (parser_init fresh) 5 (omega arith) (parser_init-IsValid fresh refl refl)
