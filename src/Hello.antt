-- ===== src/Hello.antt =====
-- server/hello.c: the parser of the method negotiation (RFC 1928, section 3) and its reply.
pub mod Parse
mod Tests
use socksv5_proxy.Base.{
  ℕ, ◌+◌, ◌-◌, ◌%◌, Bool, true, false, Option, none, some, ◌>>=◌, ltb, ◌==◌, if◌then◌else◌, List,
  [], ◌∷◌, copy_to, ℤ, pos, negsuc,
}
use socksv5_proxy.Buffer
use socksv5_proxy.Buffer.{Buffer}
use socksv5_proxy.Consume
use socksv5_proxy.Codes.{socks5_version}

pub data HelloState : Type 0 where
  hello_version hello_nmethods hello_methods hello_done hello_error_unsupported_version : HelloState

-- `selected` is the byte behind `void *data`, which the callback writes. `none` is a null callback.
pub record HelloParser : Type 0 where
  pub on_authentication_method : Option (ℕ → ℕ → ℕ)
  pub selected : ℕ
  pub state : HelloState
  pub remaining : ℕ

pub parser_init : HelloParser → HelloParser
parser_init p = record p { state = hello_version; remaining = 0 }

-- The byte behind `data` after the callback was made for `method`, if there is one.
notify : HelloParser → ℕ → ℕ
notify p method = elim p.on_authentication_method [
  | none ↦ p.selected
  | some callback ↦ callback p.selected method
]

-- The switch of `hello_parser_feed`. `remaining` is a uint8_t.
feed_state : HelloState → HelloParser → ℕ → HelloParser
feed_state hello_version p b =
    if socks5_version == b
    then record p { state = hello_nmethods }
    else record p { state = hello_error_unsupported_version }
feed_state hello_nmethods p b = record p {
  remaining = b;
  state = if b == 0 then hello_done else hello_methods;
}
feed_state hello_methods p b =
    let left = (p.remaining + 256 - 1) % 256 in
    record p {
      selected = notify p b;
      remaining = left;
      state = if left == 0 then hello_done else p.state;
    }
feed_state hello_done p b = p
feed_state hello_error_unsupported_version p b = p

pub parser_feed : HelloParser → ℕ → HelloParser × HelloState
unfolding feed_state notify
parser_feed p b = let p' = feed_state p.state p b in (p', p'.state)

-- Whether the state is final, and `*errored` afterwards.
pub is_done : HelloState → Bool → Bool × Bool
is_done hello_error_unsupported_version errored = (true, true)
is_done hello_done errored = (true, errored)
is_done _ errored = (false, errored)

-- The fuel is the number of bytes in the buffer.
pub consume : Buffer → HelloParser → Bool → Option (Buffer × HelloParser × HelloState × Bool)
consume b p errored =
    Consume.loop parser_feed is_done (b.write_pos - b.read_pos) b p p.state errored

-- The new buffer and the number of bytes written, -1 where the reply does not fit.
pub marshall : Buffer → ℕ → Option (Buffer × ℤ)
marshall b method = do
  (p, n) ← Buffer.write_ptr b
  let bytes = socks5_version ∷ method ∷ []
  if ltb n 2 then some (b, negsuc 0) else (do
    b' ← Buffer.write_adv (record b { storage = copy_to b.storage p bytes }) (pos 2)
    some (b', pos 2))
