-- ===== src/Dispatch.antt =====
-- server/socks5.c and server/socks5nio.c: the table of the states of a connection, as a machine of
-- shared/stm.c, and the handlers of the client's descriptor, over it. `none` is a failed assertion.
pub mod Gate
mod Tests
use socksv5_proxy.Base.{
  ℕ, Bool, true, false, not, Option, none, some, ◌>>=◌, ltb, ◌==◌, if◌then◌else◌, List, [], ◌∷◌,
  ◌++◌, ℤ, pos,
}
use socksv5_proxy.AccessLog.{AccessLog}
use socksv5_proxy.Buffer
use socksv5_proxy.Connect.{Attempt}
use socksv5_proxy.Handshake.{
  hello_read_init, hello_read, hello_write, auth_read_init, auth_read, auth_write,
}
use socksv5_proxy.Relay.{fill, relay_client_read, relay_client_write}
use socksv5_proxy.Request.{SockAddr}
use socksv5_proxy.RequestPhase.{
  request_read_init, request_read, request_write, action_after, socks5_handle_block_done,
}
use socksv5_proxy.Resolver.{DnsStart, DnsJob}
use socksv5_proxy.Socks5.{
  Socks5, Socks5State, state_hello_read, state_hello_write, state_auth_read, state_auth_write,
  state_request_read, state_connecting, state_request_write, state_relay, state_done, state_error,
  Socks5Action, action_read, action_write, action_close, Effect, ReadResult, got, read_eof,
  read_would_block, read_failed, WriteResult, took, write_would_block, write_failed,
}
use socksv5_proxy.Stm
use socksv5_proxy.Stm.{StateDefinition, StateMachine}
use socksv5_proxy.UserTable.{UserTable}

-- The values of the enumeration of the states.
pub state_number : Socks5State → ℕ
state_number state_hello_read = 0
state_number state_hello_write = 1
state_number state_auth_read = 2
state_number state_auth_write = 3
state_number state_request_read = 4
state_number state_connecting = 5
state_number state_request_write = 6
state_number state_relay = 7
state_number state_done = 8
state_number state_error = 9

-- The state with a number.
pub numbered : ℕ → Socks5State
numbered n =
    if n == 0
    then state_hello_read
    else if n == 1
    then state_hello_write
    else if n == 2
    then state_auth_read
    else if n == 3
    then state_auth_write
    else if n == 4
    then state_request_read
    else if n == 5
    then state_connecting
    else if n == 6
    then state_request_write
    else if n == 7
    then state_relay
    else if n == 8
    then state_done
    else state_error

-- What the handlers of a connection reach: the connection, the calls made so far, the job of a
-- resolution that was started, and the tables of the server.
pub record World : Type 0 where
  pub conn : Socks5
  pub effects : List Effect
  pub job : Option DnsJob
  pub users : UserTable
  pub log : AccessLog

-- What the system answers during one event.
pub record Answers : Type 0 where
  pub dial : ℕ → SockAddr → Attempt
  pub start : DnsStart
  pub bound : Option (SockAddr × ℕ)
  pub inet_ntop : ℕ → List ℕ → Option (List ℕ)
  pub now : ℕ

-- A hook on the world, which may fail an assertion.
pub lifted : (World → Option (World × Socks5State)) → Option World → Option World × ℕ
unfolding state_number
lifted f none = (none, 9)
lifted f (some w) = elim (f w) [ none ↦ (none, 9) | some (w', st) ↦ (some w', state_number st) ]

pub on_conn : (Socks5 → Socks5) → ℕ → Option World → Option World
on_conn f state none = none
on_conn f state (some w) = some (record w { conn = f w.conn })

-- A state without hooks.
abbrev pub bare_state : ℕ → StateDefinition (Option World)
bare_state n = record {
  state = n;
  on_arrival = none;
  on_departure = none;
  on_read_ready = none;
  on_write_ready = none;
  on_block_ready = none;
}

module _ (sys : Answers) where
  pub hello_read_hook : World → Option (World × Socks5State)
  hello_read_hook w = hello_read w.conn >>= λ (s, st). some (record w { conn = s }, st)

  pub auth_read_hook : World → Option (World × Socks5State)
  auth_read_hook w = auth_read w.users w.conn >>= λ (s, st). some (record w { conn = s }, st)

  pub request_read_hook : World → Option (World × Socks5State)
  request_read_hook w = request_read sys.dial w.conn sys.start sys.bound >>= λ (s, e, job, st).
      some (record w { conn = s; effects = w.effects ++ e; job = job }, st)

  pub request_write_hook : World → Option (World × Socks5State)
  request_write_hook w =
      let (s, log, e, st) = request_write sys.inet_ntop w.log sys.now w.conn in
      some (record w { conn = s; log = log; effects = w.effects ++ e }, st)

  -- The table.
  pub socks5_states : List (StateDefinition (Option World))
  unfolding lifted on_conn hello_read_hook auth_read_hook request_read_hook request_write_hook
  socks5_states =
      record (bare_state 0) {
        on_arrival = some (on_conn hello_read_init);
        on_read_ready = some (lifted hello_read_hook);
      }
      ∷ record (bare_state 1) { on_write_ready = some (lifted (λ w. some (w, hello_write w.conn))) }
      ∷ record (bare_state 2) {
        on_arrival = some (on_conn auth_read_init);
        on_read_ready = some (lifted auth_read_hook);
      }
      ∷ record (bare_state 3) { on_write_ready = some (lifted (λ w. some (w, auth_write w.conn))) }
      ∷ record (bare_state 4) {
        on_arrival = some (on_conn request_read_init);
        on_read_ready = some (lifted request_read_hook);
      }
      ∷ bare_state 5
      ∷ record (bare_state 6) { on_write_ready = some (lifted request_write_hook) }
      ∷ bare_state 7
      ∷ bare_state 8
      ∷ bare_state 9
      ∷ []

  -- The machine of a connection.
  pub machine_of : Socks5 → StateMachine (Option World)
  unfolding socks5_states state_number
  machine_of s = record {
    initial = 0;
    states = socks5_states;
    max_state = 9;
    current = elim s.current [ none ↦ none | some st ↦ some (state_number st) ];
  }

  -- The end of an event: the state that the machine is in, and the action that follows from it.
  pub concluded : Option World → ℕ → Option (World × Socks5Action)
  unfolding numbered
  concluded none state = none
  concluded (some w) state =
      let s = record w.conn { current = some (numbered state) } in
      some (record w { conn = s }, action_after s (numbered state))

  pub socks5_handle_read : World → Option (World × Socks5Action)
  unfolding machine_of concluded
  socks5_handle_read w =
      Stm.stm_handler_read (machine_of w.conn) (some w) >>= λ (m, w', state). concluded w' state

  pub socks5_handle_write : World → Option (World × Socks5Action)
  unfolding machine_of concluded
  socks5_handle_write w =
      Stm.stm_handler_write (machine_of w.conn) (some w) >>= λ (m, w', state). concluded w' state

  -- What a handler of the relay leaves.
  pub relayed : World → Option (Socks5 × List Effect × Socks5Action) → Option (World × Socks5Action)
  relayed w r =
      r >>= λ (s, e, action). some (record w { conn = s; effects = w.effects ++ e }, action)

  -- The bytes of read(2) go to the read buffer, and then to the machine.
  pub handle_bytes : World → List ℕ → Option (World × Socks5Action)
  unfolding socks5_handle_read
  handle_bytes w bytes = fill w.conn.read_buffer bytes >>= λ b.
      socks5_handle_read (record w { conn = record w.conn { read_buffer = b } })

  -- The call of `socksv5_apply_action` is the action that is returned; an interest that is set
  -- again, and a close, are actions too.
  pub socksv5_read : World → ReadResult → WriteResult → Option (World × Socks5Action)
  unfolding handle_bytes relayed
  socksv5_read w r out =
      if w.conn.relay_started
      then relayed w (relay_client_read w.conn r out)
      else (Buffer.write_ptr w.conn.read_buffer >>= λ _. elim r [
        | got x xs ↦ handle_bytes w (x ∷ xs)
        | read_eof ↦ some (w, action_close)
        | read_would_block ↦ some (w, action_read)
        | read_failed ↦ some (w, action_close)
      ])

  -- After a write(2) that took bytes.
  pub handle_taken : World → ℕ → Option (World × Socks5Action)
  unfolding socks5_handle_write
  handle_taken w n = Buffer.read_adv w.conn.write_buffer (pos n) >>= λ b.
      let w' = record w { conn = record w.conn { write_buffer = b } } in
      if Buffer.can_read b then some (w', action_write) else socks5_handle_write w'

  pub socksv5_write : World → WriteResult → Option (World × Socks5Action)
  unfolding handle_taken relayed
  socksv5_write w r =
      if w.conn.relay_started
      then relayed w (relay_client_write w.conn r)
      else (Buffer.read_ptr w.conn.write_buffer >>= λ _. elim r [
        | took n ↦ if n == 0 then some (w, action_close) else handle_taken w n
        | write_would_block ↦ some (w, action_write)
        | write_failed ↦ some (w, action_close)
      ])

  pub socksv5_block_done : World → Option (World × Socks5Action)
  socksv5_block_done w =
      socks5_handle_block_done sys.dial w.conn sys.start sys.bound >>= λ (s, e, job, action).
      some (record w { conn = s; effects = w.effects ++ e; job = job }, action)
