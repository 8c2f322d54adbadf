-- ===== src/MonNio/Tests.antt =====
-- Instances of the theorems on the server of the monitoring protocol.
use socksv5_proxy.Base.{
  ℕ, ◌≡◌, refl, ◌⊎◌, false, true, some, List, [], ◌∷◌, replicate, length-replicate, arith,
}
use socksv5_proxy.Buffer.Fifo.{Holds}
use socksv5_proxy.UserTable
use socksv5_proxy.Metrics
use socksv5_proxy.AccessLog
use socksv5_proxy.AccessLog.History.{init-IsValid}
use socksv5_proxy.MonProtocol.{MonRequest}
use socksv5_proxy.MonProtocol.Response.{given, response}
use socksv5_proxy.MonParser.{mon_parser_done}
use socksv5_proxy.MonNio.{Server, MonConn, answer, mon_process_request}
use socksv5_proxy.MonNio.Guard.{answers, HasLogin, session_guarded}
use socksv5_proxy.MonNio.Answer.{process_answers, empty_buffer}

abbrev server : Server
server = record { users = UserTable.init; metrics = Metrics.init; log = AccessLog.init }

-- To list the users, without authentication.
abbrev list_users : MonRequest
list_users = record { version = 1; cmd = 3; nargs = 0; arg_lens = 0 ∷ 0 ∷ []; args = [] ∷ [] ∷ [] }

session_guarded_example :
    (answers server false (list_users ∷ list_users ∷ []) ≡ (server, false))
    ⊎ HasLogin server (list_users ∷ list_users ∷ [])
session_guarded_example = session_guarded server (list_users ∷ list_users ∷ [])

abbrev memory : List ℕ
memory = replicate 4096 0

abbrev conn : MonConn
conn = record {
  read_buffer = empty_buffer memory;
  write_buffer = empty_buffer memory;
  parser = record {
    state = mon_parser_done;
    request = list_users;
    current_arg = 0;
    current_arg_offset = 0;
  };
  authenticated = true;
}

process_answers_example :
    let (s', authenticated, status, payload) = answer server true list_users in
    (c : MonConn) × (mon_process_request server conn ≡ some (s', c))
    × Holds c.write_buffer (response status (given payload))
    × (c.authenticated ≡ authenticated)
process_answers_example =
    process_answers server conn memory refl (omega (arith, length-replicate {A = ℕ} 4096 0))
      init-IsValid.0.count_in
