-- ===== src/MonParser/Tests.antt =====
-- Instances of the theorems on the parser of the monitoring protocol.
use socksv5_proxy.Base.{◌≡◌, refl, false, some, [], ◌∷◌, ℕ, replicate, arith, length-replicate}
use socksv5_proxy.Buffer.{Buffer}
use socksv5_proxy.Buffer.Fifo.{Holds}
use socksv5_proxy.MonParser.{MonParser, mon_parser_version, mon_parser_done, parser_init, consume}
use socksv5_proxy.MonParser.Message.{request_taken, HoldsTexts}

abbrev fresh : MonParser
fresh = record {
  state = mon_parser_version;
  request = record {
    version = 0;
    cmd = 0;
    nargs = 0;
    arg_lens = 0 ∷ 0 ∷ [];
    args = replicate 256 0 ∷ replicate 256 0 ∷ [];
  };
  current_arg = 0;
  current_arg_offset = 0;
}

-- A command with the arguments "a" and "", and a byte behind it.
abbrev sent : Buffer
sent = record { storage = 1 ∷ 2 ∷ 2 ∷ 1 ∷ 0 ∷ 97 ∷ 7 ∷ []; limit = 7; read_pos = 0; write_pos = 7 }

request_taken_example :
    (b : Buffer) × (p : MonParser) × (consume sent (parser_init fresh) false
      ≡ some (b, p, mon_parser_done, false))
    × Holds b (7 ∷ [])
    × (p.request.cmd ≡ 2)
    × (p.request.nargs ≡ 2)
    × HoldsTexts ((97 ∷ []) ∷ [] ∷ []) p.request.args
request_taken_example =
    request_taken fresh 2 ((97 ∷ []) ∷ [] ∷ []) (7 ∷ []) false
      (record { valid = omega arith; held = refl }) (omega arith, omega arith)
      (record {
        l₀ = 0;
        l₁ = 0;
        x = replicate 256 0;
        y = replicate 256 0;
        two_lens = refl;
        two_args = refl;
        x_room = length-replicate {A = ℕ} 256 0;
        y_room = length-replicate {A = ℕ} 256 0;
      })
