-- ===== src/MonParser.antt =====
-- server/mon_parser.c: the incremental parser of the requests of the monitoring protocol.
mod Tests
pub mod Parse
pub mod Message
use socksv5_proxy.Base.{
  ℕ, zero, suc, ◌+◌, ◌-◌, ◌%◌, Bool, true, false, Option, ltb, leb, ◌==◌, ◌&&◌, if◌then◌else◌, List,
  [], ◌∷◌, set, get_or,
}
use socksv5_proxy.Buffer
use socksv5_proxy.Buffer.{Buffer}
use socksv5_proxy.Consume
use socksv5_proxy.MonProtocol.{MonRequest, mon_version, mon_max_args, mon_max_arg_len}

pub data MonParserState : Type 0 where
  mon_parser_version mon_parser_cmd mon_parser_nargs mon_parser_arg_len : MonParserState
  mon_parser_arg_data mon_parser_done mon_parser_error : MonParserState

-- `current_arg` and `current_arg_offset` are uint8_t.
pub record MonParser : Type 0 where
  pub state : MonParserState
  pub request : MonRequest
  pub current_arg : ℕ
  pub current_arg_offset : ℕ

pub parser_init : MonParser → MonParser
parser_init p =
    let request = p.request in
    record p {
      state = mon_parser_version;
      current_arg = 0;
      current_arg_offset = 0;
      request = record request { version = 0; cmd = 0; nargs = 0 };
    }

-- request.args[i][j] = b
store_arg : MonRequest → ℕ → ℕ → ℕ → MonRequest
store_arg r i j b = record r { args = set r.args i (set (get_or r.args i []) j b) }

-- The loop that passes over empty arguments, on fuel: `current_arg` grows up to `nargs`.
skip_empty : ℕ → MonParser → MonParser
skip_empty zero p = p
skip_empty (suc fuel) p =
    let rest = skip_empty fuel (record p {
      request = store_arg p.request p.current_arg 0 0;
      current_arg = (p.current_arg + 1) % 256;
    }) in
    if ltb p.current_arg p.request.nargs && (get_or p.request.arg_lens p.current_arg 0 == 0)
    then rest
    else p

-- Behind the lengths, or behind the last byte of an argument.
next_arg : MonParser → MonParser
unfolding skip_empty store_arg
next_arg p = skip_empty p.request.nargs p

-- The switch of `mon_parser_feed`.
feed_state : MonParserState → MonParser → ℕ → MonParser
feed_state mon_parser_version p b =
    let request = p.request in
    if b == mon_version
    then record p { request = record request { version = b }; state = mon_parser_cmd }
    else record p { state = mon_parser_error }
feed_state mon_parser_cmd p b =
    let request = p.request in
    record p { request = record request { cmd = b }; state = mon_parser_nargs }
feed_state mon_parser_nargs p b =
    let request = p.request in
    if ltb mon_max_args b then record p { state = mon_parser_error } else record p {
      request = record request { nargs = b };
      current_arg = 0;
      state = if b == 0 then mon_parser_done else mon_parser_arg_len;
    }
feed_state mon_parser_arg_len p b =
    if ltb mon_max_arg_len b
    then record p { state = mon_parser_error }
    else (let request = p.request in
        let p' = record p {
          request = record request { arg_lens = set request.arg_lens p.current_arg b };
          current_arg = (p.current_arg + 1) % 256;
        } in
        if leb p'.request.nargs p'.current_arg
        then (let q = next_arg (record p' { current_arg = 0; current_arg_offset = 0 }) in
            record q {
              state =
                  if leb q.request.nargs q.current_arg
                  then mon_parser_done
                  else mon_parser_arg_data;
            })
        else p')
feed_state mon_parser_arg_data p b =
    let p' = record p {
      request = store_arg p.request p.current_arg p.current_arg_offset b;
      current_arg_offset = (p.current_arg_offset + 1) % 256;
    } in
    if leb (get_or p'.request.arg_lens p'.current_arg 0) p'.current_arg_offset
    then (let q = next_arg (record p' {
      request = store_arg p'.request p'.current_arg p'.current_arg_offset 0;
      current_arg = (p'.current_arg + 1) % 256;
      current_arg_offset = 0;
    }) in
        if leb q.request.nargs q.current_arg then record q { state = mon_parser_done } else q)
    else p'
feed_state mon_parser_done p b = p
feed_state mon_parser_error p b = p

pub parser_feed : MonParser → ℕ → MonParser × MonParserState
unfolding feed_state next_arg store_arg
parser_feed p b = let p' = feed_state p.state p b in (p', p'.state)

-- Whether the state is final, and `*errored` afterwards.
pub is_done : MonParserState → Bool → Bool × Bool
is_done mon_parser_error errored = (true, true)
is_done mon_parser_done errored = (true, errored)
is_done _ errored = (false, errored)

-- The fuel is the number of bytes in the buffer.
pub consume : Buffer → MonParser → Bool → Option (Buffer × MonParser × MonParserState × Bool)
consume b p errored =
    Consume.loop parser_feed is_done (b.write_pos - b.read_pos) b p p.state errored
