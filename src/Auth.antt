-- ===== src/Auth.antt =====
-- server/auth.c: the parser of the username and password subnegotiation (RFC 1929) and its reply.
pub mod Parse
pub mod Reply
mod Tests
use socksv5_proxy.Base.{
  ℕ, ◌+◌, ◌-◌, ◌%◌, Bool, true, false, Option, none, some, ◌>>=◌, ltb, ◌==◌, if◌then◌else◌, List,
  [], ◌∷◌, set, copy_to, ℤ, pos, negsuc,
}
use socksv5_proxy.Buffer
use socksv5_proxy.Buffer.{Buffer}
use socksv5_proxy.Consume
use socksv5_proxy.Codes.{auth_version_byte}

pub data AuthState : Type 0 where
  auth_version auth_ulen auth_uname auth_plen auth_passwd auth_done auth_error_unsupported_version :
      AuthState

-- `uname` and `passwd` are `char[256]`; `ulen`, `plen` and `i` are uint8_t.
pub record AuthParser : Type 0 where
  pub state : AuthState
  pub ulen : ℕ
  pub plen : ℕ
  pub i : ℕ
  pub uname : List ℕ
  pub passwd : List ℕ

pub parser_init : AuthParser → AuthParser
parser_init p = record p {
  state = auth_version;
  ulen = 0;
  plen = 0;
  i = 0;
  uname = set p.uname 0 0;
  passwd = set p.passwd 0 0;
}

-- The switch of `auth_parser_feed`.
feed_state : AuthState → AuthParser → ℕ → AuthParser
feed_state auth_version p b =
    if auth_version_byte == b
    then record p { state = auth_ulen }
    else record p { state = auth_error_unsupported_version }
feed_state auth_ulen p b = record p {
  ulen = b;
  i = 0;
  state = if b == 0 then auth_plen else auth_uname;
}
feed_state auth_uname p b =
    let p' = record p { uname = set p.uname p.i b; i = (p.i + 1) % 256 } in
    if p'.i == p'.ulen then record p' { uname = set p'.uname p'.i 0; state = auth_plen } else p'
feed_state auth_plen p b =
    let p' = record p { plen = b; i = 0 } in
    if b == 0
    then record p' { passwd = set p'.passwd 0 0; state = auth_done }
    else record p' { state = auth_passwd }
feed_state auth_passwd p b =
    let p' = record p { passwd = set p.passwd p.i b; i = (p.i + 1) % 256 } in
    if p'.i == p'.plen then record p' { passwd = set p'.passwd p'.i 0; state = auth_done } else p'
feed_state auth_done p b = p
feed_state auth_error_unsupported_version p b = p

pub parser_feed : AuthParser → ℕ → AuthParser × AuthState
unfolding feed_state
parser_feed p b = let p' = feed_state p.state p b in (p', p'.state)

-- Whether the state is final, and `*errored` afterwards.
unfoldable pub is_done : AuthState → Bool → Bool × Bool
is_done auth_error_unsupported_version errored = (true, true)
is_done auth_done errored = (true, errored)
is_done _ errored = (false, errored)

-- The fuel is the number of bytes in the buffer.
pub consume : Buffer → AuthParser → Bool → Option (Buffer × AuthParser × AuthState × Bool)
consume b p errored =
    Consume.loop parser_feed is_done (b.write_pos - b.read_pos) b p p.state errored

-- The new buffer and the number of bytes written, -1 where the reply does not fit.
pub marshall : Buffer → ℕ → Option (Buffer × ℤ)
marshall b status = do
  (p, n) ← Buffer.write_ptr b
  let bytes = auth_version_byte ∷ status ∷ []
  if ltb n 2 then some (b, negsuc 0) else (do
    b' ← Buffer.write_adv (record b { storage = copy_to b.storage p bytes }) (pos 2)
    some (b', pos 2))
