-- ===== src/Args.antt =====
-- shared/args.c: the command line of the server. The options are those that getopt_long(3) finds,
-- in their order, and what strtol(3) makes of a text is an argument; `none` is a call of exit(3).
use socksv5_proxy.Base.{
  ℕ, Bool, true, false, Option, none, some, ◌>>=◌, ltb, leb, ◌==◌, ◌||◌, if◌then◌else◌, List, [],
  ◌∷◌, ◌++◌, length, c_str, ℤ, pos, negsuc,
}

-- What strtol(3) makes of a text: the number, where it ends at the end of the text and is in the
-- range of a long.
abbrev pub Strtol : Type 0
Strtol = List ℕ → Option ℤ

abbrev pub max_users : ℕ
max_users = 10

pub port : Strtol → List ℕ → Option ℕ
port strtol s =
    strtol s >>= λ sl. elim sl [ pos n ↦ if ltb 65535 n then none else some n | negsuc n ↦ none ]

-- What stands before and behind the first colon.
pub split : List ℕ → Option (List ℕ × List ℕ)
split [] = none
split (x ∷ xs) =
    let rest = split xs in
    if x == b':' then some ([], xs) else (rest >>= λ (name, pass). some (x ∷ name, pass))

-- `user`: the two texts.
pub user : List ℕ → Option (List ℕ × List ℕ)
unfolding split
user s = split (c_str s)

-- The users are the first ones of the array; `disectors_enabled` is set by no reader.
pub record Socks5Args : Type 0 where
  pub socks_addr : List ℕ
  pub socks_port : ℕ
  pub mng_addr : List ℕ
  pub mng_port : ℕ
  pub disectors_enabled : Bool
  pub users : List (List ℕ × List ℕ)

pub add_user : List ℕ → Socks5Args → Option Socks5Args
unfolding user
add_user s args =
    if leb max_users (length args.users)
    then none
    else (user s >>= λ u. some (record args { users = args.users ++ u ∷ [] }))

-- The text of a line up to its end.
pub chomped : List ℕ → List ℕ
chomped [] = []
chomped (x ∷ xs) = let rest = chomped xs in if x == 13 || x == 10 then [] else x ∷ rest

-- A line that is empty or a comment.
pub is_skipped : List ℕ → Bool
is_skipped [] = true
is_skipped (x ∷ xs) = x == b'#'

-- The lines that fgets(3) returns, of at most 511 characters.
pub users_lines : List (List ℕ) → Socks5Args → Option Socks5Args
unfolding chomped is_skipped add_user
users_lines [] args = some args
users_lines (l ∷ ls) args =
    let line = chomped (c_str l) in
    if is_skipped line
    then users_lines ls args
    else (add_user line args >>= λ args'. users_lines ls args')

-- `none` is a file that cannot be opened.
pub users_file : Option (List (List ℕ)) → Socks5Args → Option Socks5Args
unfolding users_lines
users_file none args = none
users_file (some lines) args = users_lines lines args

-- The options with their arguments; that of -U is the file that it names.
pub data ServerOption : Type 0 where
  option_l option_big_l option_p option_big_p option_u : List ℕ → ServerOption
  option_big_u : Option (List (List ℕ)) → ServerOption
  option_n option_help option_version option_unknown : ServerOption

pub step : Strtol → ServerOption → Socks5Args → Option Socks5Args
unfolding port add_user users_file
step strtol (option_l addr) args = some (record args { socks_addr = addr })
step strtol (option_big_l addr) args = some (record args { mng_addr = addr })
step strtol (option_p s) args = port strtol s >>= λ n. some (record args { socks_port = n })
step strtol (option_big_p s) args = port strtol s >>= λ n. some (record args { mng_port = n })
step strtol (option_u s) args = add_user s args
step strtol (option_big_u file) args = users_file file args
step strtol option_n args = some (record args { disectors_enabled = false })
step strtol option_help args = none
step strtol option_version args = none
step strtol option_unknown args = none

pub steps : Strtol → List ServerOption → Socks5Args → Option Socks5Args
unfolding step
steps strtol [] args = some args
steps strtol (o ∷ os) args = step strtol o args >>= λ args'. steps strtol os args'

-- The defaults are "0.0.0.0" and "127.0.0.1"; `more` says whether arguments are left.
pub parse_args : Strtol → List ServerOption → Bool → Option Socks5Args
unfolding steps
parse_args strtol options more =
    let defaults : Socks5Args = record {
      socks_addr = b'0' ∷ b'.' ∷ b'0' ∷ b'.' ∷ b'0' ∷ b'.' ∷ b'0' ∷ [];
      socks_port = 1080;
      mng_addr = b'1' ∷ b'2' ∷ b'7' ∷ b'.' ∷ b'0' ∷ b'.' ∷ b'0' ∷ b'.' ∷ b'1' ∷ [];
      mng_port = 8080;
      disectors_enabled = true;
      users = [];
    } in
    steps strtol options defaults >>= λ args. if more then none else some args
