-- ===== src/ClientStart.antt =====
-- client/client_args.c: the command line of the client. The options are those that getopt_long(3)
-- finds, in their order; `none` is a call of exit(3).
use socksv5_proxy.Base.{
  ℕ, Bool, true, false, not, ◌&&◌, ◌||◌, Option, none, some, ◌>>=◌, ltb, ◌==◌, if◌then◌else◌, List,
  [], ◌∷◌, ◌++◌, length, pos, negsuc,
}
use socksv5_proxy.Args.{Strtol, user}
use socksv5_proxy.MonClient.{
  ClientArgs, ClientCmd, cmd_none, cmd_metrics, cmd_list_users, cmd_add_user, cmd_del_user,
  cmd_access_log,
}

pub parse_port : Strtol → List ℕ → Option ℕ
parse_port strtol s = strtol s >>= λ v. elim v [
  | pos n ↦ if n == 0 || ltb 65535 n then none else some n
  | negsuc n ↦ none
]

-- Both texts, each with its end; `none` is the result false.
pub client_split_credentials : List ℕ → Option (List ℕ × List ℕ)
client_split_credentials spec = user spec >>= λ (name, pass).
    if length name == 0 || length pass == 0 then none else some (name ++ 0 ∷ [], pass ++ 0 ∷ [])

-- `with_credentials` says whether the pointer to the user name is not null.
pub record ClientOptions : Type 0 where
  pub mon_addr : List ℕ
  pub mon_port : ℕ
  pub with_credentials : Bool
  pub args : ClientArgs

abbrev pub is_none : ClientCmd → Bool
is_none cmd_none = true
is_none _ = false

-- One command may be given.
pub set_cmd : ClientOptions → ClientCmd → Option ClientOptions
set_cmd o cmd =
    let args = o.args in
    if is_none args.cmd then some (record o { args = record args { cmd = cmd } }) else none

pub data GivenOption : Type 0 where
  given_address given_port given_credentials given_add given_delete : List ℕ → GivenOption
  given_metrics given_list given_log given_help given_version given_unknown : GivenOption

pub take_option : Strtol → GivenOption → ClientOptions → Option ClientOptions
unfolding parse_port client_split_credentials set_cmd
take_option strtol (given_address s) o = some (record o { mon_addr = s })
take_option strtol (given_port s) o = parse_port strtol s >>= λ n. some (record o { mon_port = n })
take_option strtol (given_credentials s) o =
    let args = o.args in
    client_split_credentials s >>= λ (name, pass).
    some (record o {
      with_credentials = true;
      args = record args { username = name; password = pass };
    })
take_option strtol (given_add s) o = set_cmd o cmd_add_user >>= λ o'.
    let args = o'.args in
    client_split_credentials s >>= λ (name, pass).
    some (record o' { args = record args { arg_user = name; arg_pass = pass } })
take_option strtol (given_delete s) o = set_cmd o cmd_del_user >>= λ o'.
    let args = o'.args in some (record o' { args = record args { arg_user = s } })
take_option strtol given_metrics o = set_cmd o cmd_metrics
take_option strtol given_list o = set_cmd o cmd_list_users
take_option strtol given_log o = set_cmd o cmd_access_log
take_option strtol given_help o = none
take_option strtol given_version o = none
take_option strtol given_unknown o = none

pub take_options : Strtol → List GivenOption → ClientOptions → Option ClientOptions
unfolding take_option
take_options strtol [] o = some o
take_options strtol (g ∷ gs) o = take_option strtol g o >>= λ o'. take_options strtol gs o'

-- The defaults are "127.0.0.1" and 8080; `more` says whether arguments are left.
pub client_parse_args : Strtol → List GivenOption → Bool → Option ClientOptions
unfolding take_options
client_parse_args strtol options more =
    let defaults : ClientOptions = record {
      mon_addr = b'1' ∷ b'2' ∷ b'7' ∷ b'.' ∷ b'0' ∷ b'.' ∷ b'0' ∷ b'.' ∷ b'1' ∷ [];
      mon_port = 8080;
      with_credentials = false;
      args = record { username = []; password = []; cmd = cmd_none; arg_user = []; arg_pass = [] };
    } in
    take_options strtol options defaults >>= λ o.
    let args = o.args in
    if more then none else if not (is_none args.cmd) && not o.with_credentials then none else some o
