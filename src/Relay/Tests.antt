-- ===== src/Relay/Tests.antt =====
-- Runs of the relay, and instances of its theorems.
use socksv5_proxy.Base.{
  ◌≡◌, refl, true, false, Bool, none, some, List, [], ◌∷◌, ◌++◌, ℕ, arith, pos,
}
use socksv5_proxy.Buffer
use socksv5_proxy.Buffer.{Buffer}
use socksv5_proxy.Relay
use socksv5_proxy.Socks5.{
  Socks5, Socks5Action, action_none, action_close, Effect, shutdown_write, set_interest,
  from_client, to_origin, Interest, state_relay, got, read_eof, took, write_would_block,
}
use socksv5_proxy.Hello.{hello_version}
use socksv5_proxy.Auth.{auth_version}
use socksv5_proxy.Request.{request_version}
use socksv5_proxy.Relay.Transparent.{next, stop, relay_transparent, closes_when_drained}
use socksv5_proxy.Relay.Step.{
  step, client_reads, origin_writes, origin_reads, IsOpen, IsOver, Conserved, step_runs,
}
use socksv5_proxy.Relay.Transparent.{Runs, close}
use socksv5_proxy.Relay.Session.{session_complete}
use socksv5_proxy.Relay.Tunnel.{client_in, origin_in, client_out, origin_out, carried}

abbrev room : List ℕ → ℕ → Buffer
room bytes n = record { storage = bytes; limit = 4; read_pos = 0; write_pos = n }

-- A tunnel between the descriptors 7 and 9, with buffers of four bytes.
abbrev tunnel : Buffer → Bool → Bool → Socks5
tunnel up client_eof origin_eof = record {
  references = 1;
  current = some state_relay;
  client_fd = pos 7;
  origin_fd = pos 9;
  dns_error = pos 0;
  dns_result = none;
  dns_next = [];
  read_buffer = up;
  write_buffer = room (0 ∷ 0 ∷ 0 ∷ 0 ∷ []) 0;
  hello = record {
    on_authentication_method = none;
    selected = 0;
    state = hello_version;
    remaining = 0;
  };
  auth = record { state = auth_version; ulen = 0; plen = 0; i = 0; uname = []; passwd = [] };
  request = record {
    state = request_version;
    command = 0;
    atyp = 0;
    address = [];
    address_len = 0;
    address_index = 0;
    port = [];
    port_index = 0;
  };
  auth_status = 0;
  request_reply = 0;
  closing = false;
  client_registered = true;
  origin_registered = true;
  relay_started = true;
  client_eof = client_eof;
  origin_eof = origin_eof;
  client_write_shutdown = false;
  origin_write_shutdown = false;
  dns_pending = false;
  cancelled = false;
}

abbrev quiet : Socks5
quiet = tunnel (room (0 ∷ 0 ∷ 0 ∷ 0 ∷ []) 0) false false

abbrev read_two : Effect
read_two = from_client (65 ∷ 66 ∷ [])

abbrev wants : Bool → Interest
wants op_write = record { op_read = true; op_write = op_write }

-- Two bytes are read, of which the origin takes one.
abbrev half : Socks5
half =
    tunnel (record { storage = 65 ∷ 66 ∷ 0 ∷ 0 ∷ []; limit = 4; read_pos = 1; write_pos = 2 }) false
      false

abbrev calls₁ : List Effect
calls₁ =
    read_two
    ∷ to_origin (65 ∷ [])
    ∷ set_interest (pos 7) (wants false)
    ∷ set_interest (pos 9) (wants true)
    ∷ []

first_half :
    step quiet (client_reads (got 65 (66 ∷ [])) (took 1)) ≡ some (half, calls₁, action_none)
unfolding Relay.relay_client_read Relay.fill Relay.relay_flush Relay.settle Relay.relay_should_close
    Relay.relay_shutdown_write_side Relay.relay_update_interests Relay.client_interest
    Relay.origin_interest Buffer.can_read Buffer.can_write Buffer.write_ptr Buffer.read_ptr
    Buffer.write_adv Buffer.read_adv Buffer.compact
first_half = refl

-- Later it takes the other one.
abbrev passed_on : Socks5
passed_on = tunnel (room (65 ∷ 66 ∷ 0 ∷ 0 ∷ []) 0) false false

abbrev calls₂ : List Effect
calls₂ =
    to_origin (66 ∷ [])
    ∷ set_interest (pos 7) (wants false)
    ∷ set_interest (pos 9) (wants false)
    ∷ []

second_half : step half (origin_writes (took 1)) ≡ some (passed_on, calls₂, action_none)
unfolding Relay.origin_write Relay.relay_flush Relay.settle Relay.relay_should_close
    Relay.relay_shutdown_write_side Relay.relay_update_interests Relay.client_interest
    Relay.origin_interest Buffer.can_read Buffer.can_write Buffer.read_ptr Buffer.read_adv
    Buffer.compact
second_half = refl

quiet-IsOpen : IsOpen quiet
quiet-IsOpen = record { upward = omega arith; downward = omega arith }

relay_transparent_example : IsOpen passed_on × Conserved quiet (calls₁ ++ (calls₂ ++ [])) passed_on
relay_transparent_example =
    relay_transparent
      (next (client_reads (got 65 (66 ∷ [])) (took 1)) (omega arith, omega arith) first_half
        (next (origin_writes (took 1)) (omega arith) second_half stop))
      quiet-IsOpen

step_runs_example :
    (t : Socks5) × (effs : List Effect) × (a : Socks5Action) × (step quiet
        (origin_reads (got 65 (66 ∷ [])) (took 1))
      ≡ some (t, effs, a))
    × IsOpen t
step_runs_example =
    step_runs quiet (origin_reads (got 65 (66 ∷ [])) (took 1)) quiet-IsOpen
      (omega arith, omega arith)

-- The origin has ended; the client ends too.
abbrev last : Socks5
last = tunnel (room (0 ∷ 0 ∷ 0 ∷ 0 ∷ []) 0) false true

abbrev ended : Socks5
ended = record (tunnel (room (0 ∷ 0 ∷ 0 ∷ 0 ∷ []) 0) true true) {
  client_write_shutdown = true;
  origin_write_shutdown = true;
}

last_event :
    step last (client_reads read_eof write_would_block)
    ≡ some (ended, shutdown_write (pos 9) ∷ shutdown_write (pos 7) ∷ [], action_close)
unfolding Relay.relay_client_read Relay.settle Relay.relay_should_close
    Relay.relay_shutdown_write_side Buffer.can_read Buffer.write_ptr
last_event = refl

closes_when_drained_example : IsOver ended
closes_when_drained_example =
    closes_when_drained (client_reads read_eof write_would_block)
      (record { upward = omega arith; downward = omega arith }) tt tt last_event

-- A whole session: the client sends one byte and ends, then the origin ends.
abbrev one_byte : Socks5
one_byte = tunnel (room (65 ∷ 0 ∷ 0 ∷ 0 ∷ []) 0) false false

abbrev half_closed : Socks5
half_closed = record (tunnel (room (65 ∷ 0 ∷ 0 ∷ 0 ∷ []) 0) true false) {
  origin_write_shutdown = true;
}

abbrev all_closed : Socks5
all_closed = record (tunnel (room (65 ∷ 0 ∷ 0 ∷ 0 ∷ []) 0) true true) {
  client_write_shutdown = true;
  origin_write_shutdown = true;
}

abbrev one_calls : List Effect
one_calls =
    from_client (65 ∷ [])
    ∷ to_origin (65 ∷ [])
    ∷ set_interest (pos 7) (wants false)
    ∷ set_interest (pos 9) (wants false)
    ∷ []

abbrev half_calls : List Effect
half_calls =
    shutdown_write (pos 9)
    ∷ set_interest (pos 7) (record { op_read = false; op_write = false })
    ∷ set_interest (pos 9) (wants false)
    ∷ []

byte_passed :
    step quiet (client_reads (got 65 []) (took 1)) ≡ some (one_byte, one_calls, action_none)
unfolding Relay.relay_client_read Relay.fill Relay.relay_flush Relay.settle Relay.relay_should_close
    Relay.relay_shutdown_write_side Relay.relay_update_interests Relay.client_interest
    Relay.origin_interest Buffer.can_read Buffer.can_write Buffer.write_ptr Buffer.read_ptr
    Buffer.write_adv Buffer.read_adv Buffer.compact
byte_passed = refl

client_ends :
    step one_byte (client_reads read_eof write_would_block)
    ≡ some (half_closed, half_calls, action_none)
unfolding Relay.relay_client_read Relay.settle Relay.relay_should_close
    Relay.relay_shutdown_write_side Relay.relay_update_interests Relay.client_interest
    Relay.origin_interest Buffer.can_read Buffer.can_write Buffer.write_ptr
client_ends = refl

origin_ends :
    step half_closed (origin_reads read_eof write_would_block)
    ≡ some (all_closed, shutdown_write (pos 7) ∷ [], action_close)
unfolding Relay.origin_read Relay.settle Relay.relay_should_close Relay.relay_shutdown_write_side
    Buffer.can_read Buffer.write_ptr
origin_ends = refl

abbrev session_calls : List Effect
session_calls = one_calls ++ (half_calls ++ (shutdown_write (pos 7) ∷ []))

started : (Relay.start_relay quiet).0 ≡ quiet
unfolding Relay.start_relay Buffer.reset
started = refl

whole_session : Runs (Relay.start_relay quiet).0 session_calls all_closed
whole_session = rw started (
    next (client_reads (got 65 []) (took 1)) (omega arith, omega arith) byte_passed
      (next (client_reads read_eof write_would_block) tt client_ends
        (close (origin_reads read_eof write_would_block) tt origin_ends)))

session_complete_example :
    (carried origin_out session_calls ≡ carried client_in session_calls)
    × (carried client_out session_calls ≡ carried origin_in session_calls)
session_complete_example =
    session_complete quiet quiet-IsOpen whole_session
      (record { upward = refl; downward = refl; client_ended = refl; origin_ended = refl })
