-- ===== src/MonNio/Answer.antt =====
-- Every request is answered, with a response that fits in the write buffer.
use socksv5_proxy.Base.{ℕ, ◌≤◌, ◌≡◌, refl, Bool, Option, none, some, List, [], length, arith}
use socksv5_proxy.Buffer.{Buffer}
use socksv5_proxy.Buffer.Valid.{write_ptr-eq}
use socksv5_proxy.Buffer.Fifo.{Holds, write_adv-Holds}
use socksv5_proxy.MonProtocol.{MonRequest}
use socksv5_proxy.MonProtocol.Response.{given, response, encoded_payload}
use socksv5_proxy.MonPayload.Bounds.{list_payload_fits, length-metrics_payload, log_payload_fits}
use socksv5_proxy.MonNio.{
  Server, MonConn, answer, payload_length, send_response, mon_process_request,
}

-- A write buffer that nothing waits in, over the memory `m`.
abbrev pub empty_buffer : List ℕ → Buffer
empty_buffer m = record { storage = m; limit = 4096; read_pos = 0; write_pos = 0 }

answer_fits :
    (s : Server) (authenticated : Bool) (req : MonRequest)
    → s.log.count ≤ 1024
    → length (given (answer s authenticated req).3) ≤ 4092
unfolding answer
answer_fits s authenticated req h =
    ground
      (arith, list_payload_fits s.users, length-metrics_payload s.metrics, log_payload_fits s.log h)

payload_length-given :
    (p : Option (List ℕ)) → length (given p) ≤ 4092 → payload_length p ≡ length (given p)
unfolding payload_length
payload_length-given none h = refl
payload_length-given (some bytes) h = omega arith

send_response-Holds :
    (conn : MonConn) (m : List ℕ) (status : ℕ) (p : Option (List ℕ))
    → conn.write_buffer ≡ empty_buffer m
    → 4096 ≤ length m
    → length (given p) ≤ 4092
    → (b : Buffer) × (send_response conn status p (length (given p))
        ≡ some (record conn { write_buffer = b }))
      × Holds b (response status (given p))
unfolding send_response
send_response-Holds conn m status p e room fits =
    let empty : Holds (empty_buffer m) [] = record { valid = omega arith; held = refl } in
    let (b, q, h, l) = write_adv-Holds (response status (given p)) empty (omega arith) in
    (
      b,
      rw
          (
            e,
            write_ptr-eq (empty_buffer m) empty.valid,
            encoded_payload status p m 4096 (omega arith) (omega arith) room,
            q,
          )
          refl,
      h,
    )

-- A request is always answered: with a write buffer that nothing waits in, and a log of at most
-- 1024 entries, `mon_process_request` fails no assertion, and the bytes to send are then exactly
-- the response with the status and the payload of the answer, also for the longest lists of users
-- and of connections; the tables and the standing of the connection are those of the answer.
pub process_answers :
    (s : Server) (conn : MonConn) (m : List ℕ)
    → conn.write_buffer ≡ empty_buffer m
    → 4096 ≤ length m
    → s.log.count ≤ 1024
    → let (s', authenticated, status, payload) = answer s conn.authenticated conn.parser.request in
      (conn' : MonConn) × (mon_process_request s conn ≡ some (s', conn'))
      × Holds conn'.write_buffer (response status (given payload))
      × (conn'.authenticated ≡ authenticated)
unfolding mon_process_request
process_answers s conn m e room short =
    let (s', authenticated, status, payload) = answer s conn.authenticated conn.parser.request in
    let fits : length (given payload) ≤ 4092 =
      answer_fits s conn.authenticated conn.parser.request short in
    let (b, q, h) =
      send_response-Holds (record conn { authenticated = authenticated }) m status payload e room
        fits in
    (
      record conn { authenticated = authenticated; write_buffer = b },
      rw (payload_length-given payload fits, q) refl,
      h,
      refl,
    )
