-- ===== src/MonClient/Tests.antt =====
-- A session of the client, and an instance of the theorem on its requests.
use socksv5_proxy.Base.{ℕ, refl, [], ◌∷◌, arith, replicate, length-replicate}
use socksv5_proxy.Buffer.{Buffer}
use socksv5_proxy.MonParser.{MonParser, mon_parser_version}
use socksv5_proxy.MonClient.{ClientArgs, cmd_add_user, build_cmd_request}
use socksv5_proxy.MonClient.Request.{asked, ServerTakes, command_understood}

abbrev adding : ClientArgs
adding = record {
  username = 97 ∷ 0 ∷ [];
  password = 98 ∷ 0 ∷ [];
  cmd = cmd_add_user;
  arg_user = 98 ∷ 111 ∷ 98 ∷ 0 ∷ [];
  arg_pass = 112 ∷ 119 ∷ 0 ∷ [];
}

abbrev out_buffer : Buffer
out_buffer = record { storage = replicate 1024 0; limit = 1024; read_pos = 0; write_pos = 0 }

abbrev server_parser : MonParser
server_parser = record {
  state = mon_parser_version;
  request = record {
    version = 0;
    cmd = 0;
    nargs = 0;
    arg_lens = 0 ∷ 0 ∷ [];
    args = replicate 256 0 ∷ replicate 256 0 ∷ [];
  };
  current_arg = 0;
  current_arg_offset = 0;
}

command_understood_example :
    ServerTakes
      (build_cmd_request adding)
      out_buffer
      server_parser
      1
      ((98 ∷ 111 ∷ 98 ∷ []) ∷ (112 ∷ 119 ∷ []) ∷ [])
unfolding asked
command_understood_example =
    command_understood server_parser adding 1 ((98 ∷ 111 ∷ 98 ∷ []) ∷ (112 ∷ 119 ∷ []) ∷ []) refl
      (omega arith) (omega arith) (record { valid = omega arith; held = refl }) (omega arith)
      (record {
        l₀ = 0;
        l₁ = 0;
        x = replicate 256 0;
        y = replicate 256 0;
        two_lens = refl;
        two_args = refl;
        x_room = length-replicate {A = ℕ} 256 0;
        y_room = length-replicate {A = ℕ} 256 0;
      })
