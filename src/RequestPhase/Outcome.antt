-- ===== src/RequestPhase/Outcome.antt =====
-- What a request leads to, up to the relay.
use socksv5_proxy.Base.{
  ℕ, ◌-◌, ◌≤◌, ◌≡◌, ◌==◌, refl, ◌∙◌, not, ◌&&◌, Bool-cases, inl, inr, true, false, Option, none,
  some, List, [], ◌∷◌, ◌++◌, length, if◌then◌else◌,
}
use socksv5_proxy.AccessLog.{AccessLog}
use socksv5_proxy.Buffer
use socksv5_proxy.Buffer.{Buffer}
use socksv5_proxy.Buffer.Fifo.{Holds}
use socksv5_proxy.Request
use socksv5_proxy.Request.{SockAddr, inet, request_done}
use socksv5_proxy.Request.Parse.{request_parsed, Destination, address_bytes, IsWellFormed}
use socksv5_proxy.Request.Reply.{IsAddress, AllAddress, marshall_reply-Holds}
use socksv5_proxy.Resolver.{
  Errno, succeeded, no_error, enetunreach, ehostunreach, econnrefused, einprogress, eafnosupport,
  enomem, other_error, DnsStart, DnsJob,
}
use socksv5_proxy.Socks5.{
  is_negative, state_connecting, Socks5, Socks5State, state_request_write, state_relay, state_done,
  Effect,
}
use socksv5_proxy.Connect.Verdict.{verdict, register-verdict, calls, register-calls}
use socksv5_proxy.Connect.Literal.{sock_addr, connect_to_origin_literal, register-KeepsBuffers}
use socksv5_proxy.Connect.{
  Attempt, register_origin_connect, bound_to, connect_marshall_reply, connect_reply_from_errno,
  is_einprogress,
}
use socksv5_proxy.RequestPhase.{answer, perform, request_read_init, request_read, request_write}

-- The state after the reply has left, as the code that it carries decides.
flushed :
    (inet_ntop : ℕ → List ℕ → Option (List ℕ)) (log : AccessLog) (now : ℕ) (s : Socks5)
    (sent : Buffer)
    → Buffer.can_read sent ≡ false
    → (request_write inet_ntop log now (record s { write_buffer = sent })).3
      ≡ (if s.request_reply == 0 then state_relay else state_done)
unfolding request_write
flushed inet_ntop log now s sent empty = elim (Bool-cases (s.request_reply == 0)) [
  | inl e ↦ rw (empty, e) refl
  | inr e ↦ rw (empty, e) refl
]

-- What getsockname(2) answers.
unfoldable pub IsBound : Option (SockAddr × ℕ) → Type 0
IsBound none = Unit
IsBound (some (addr, len)) = IsAddress addr

bound_to-AllAddress :
    (s : Socks5) (bound : Option (SockAddr × ℕ)) → IsBound bound → AllAddress (bound_to s bound).0
unfolding bound_to IsBound AllAddress
bound_to-AllAddress s none h = tt
bound_to-AllAddress s (some (addr, len)) h =
    elim (Bool-cases ((s.request_reply == 0) && not (is_negative s.origin_fd))) [
      | inl e ↦ rw e h
      | inr e ↦ rw e tt
    ]

-- The reply is on its way.
record Answered (r : Option (Socks5 × List Effect × Option DnsJob × Socks5State)) (s : Socks5)
    (effects : List Effect) : Type 0 where
  t : Socks5
  tail : List ℕ
  result : r ≡ some (t, effects, none, state_request_write)
  reply : Holds t.write_buffer (5 ∷ s.request_reply ∷ 0 ∷ tail)
  code : t.request_reply ≡ s.request_reply
  kept : t.read_buffer ≡ s.read_buffer

answer-Answered :
    (s : Socks5) (effects : List Effect) (bound : Option (SockAddr × ℕ))
    → IsBound bound
    → Holds s.write_buffer []
    → 22 ≤ s.write_buffer.limit - s.write_buffer.write_pos
    → Answered (answer s effects bound) s effects
unfolding answer connect_marshall_reply
answer-Answered s effects bound sound h room =
    let (b, n, tail, e, k) =
      marshall_reply-Holds s.request_reply (bound_to s bound).0 (bound_to s bound).1
        (bound_to-AllAddress s bound sound) h room in
    record {
      t = record s { write_buffer = b };
      tail = tail;
      result = rw e refl;
      reply = k;
      code = refl;
      kept = refl;
    }

reply_code : (v : Errno) → (connect_reply_from_errno v == 0) ≡ succeeded v
unfolding connect_reply_from_errno succeeded
reply_code no_error = refl
reply_code enetunreach = refl
reply_code ehostunreach = refl
reply_code econnrefused = refl
reply_code einprogress = refl
reply_code eafnosupport = refl
reply_code enomem = refl
reply_code (other_error n) = refl

-- A CONNECT request for an address of either family, once all of it has arrived, leads to one
-- attempt to connect to that address and port: the system calls are those of the attempt and no
-- others. If the connection is pending the next state waits
-- for it and nothing is written. Else the reply is written, with the code for the result of the
-- attempt, and after it has been sent the relay starts if the attempt succeeded, and the
-- connection is done if not. The write buffer is empty before and has room for a reply.
pub request_decides :
    (dial : ℕ → SockAddr → Attempt) (start : DnsStart) (bound : Option (SockAddr × ℕ))
    (inet_ntop : ℕ → List ℕ → Option (List ℕ)) (log : AccessLog) (now : ℕ) (s : Socks5)
    (d : Destination) (p₁ p₀ : ℕ) (rest : List ℕ) (addr : SockAddr) (sent : Buffer)
    → Holds s.read_buffer (5 ∷ 1 ∷ 0 ∷ address_bytes d ++ (p₁ ∷ p₀ ∷ rest))
    → IsWellFormed d
    → sock_addr d (p₁ ∷ p₀ ∷ []) ≡ some addr
    → length s.request.address ≡ 256
    → length s.request.port ≡ 2
    → Holds s.write_buffer []
    → 22 ≤ s.write_buffer.limit - s.write_buffer.write_pos
    → IsBound bound
    → Buffer.can_read sent ≡ false
    → let v = verdict (dial 0 addr) in
      (t : Socks5) × (tail : List ℕ) × (request_read dial (request_read_init s) start bound
        ≡ some (
          t,
          calls addr (dial 0 addr),
          none,
          if is_einprogress v then state_connecting else state_request_write,
        ))
      × Holds t.read_buffer rest
      × Holds t.write_buffer
          (if is_einprogress v then [] else 5 ∷ connect_reply_from_errno v ∷ 0 ∷ tail)
      × ((if is_einprogress v
            then state_connecting
            else (request_write inet_ntop log now (record t { write_buffer = sent })).3)
          ≡ (if is_einprogress v
              then state_connecting
              else if succeeded v
              then state_relay
              else state_done))
unfolding request_read request_read_init perform Request.is_done
request_decides dial start bound inet_ntop log now s d p₁ p₀ rest addr sent h w literal ra rp hw
      room sound empty =
    let (b, p, e, k, cmd, atyp, len, host, port) =
      request_parsed s.request 1 d p₁ p₀ rest false h w ra rp in
    let s₁ = record s { request_reply = 1; read_buffer = b; request = p } in
    let r = register_origin_connect s₁ addr (dial 0 addr) in
    let v = verdict (dial 0 addr) in
    let connects =
      connect_to_origin_literal dial start s₁ d (p₁ ∷ p₀ ∷ []) addr literal w atyp len host port in
    let same = register-verdict s₁ addr (dial 0 addr) in
    let done = register-calls s₁ addr (dial 0 addr) in
    let (kept_r, kept_w) = register-KeepsBuffers s₁ addr (dial 0 addr) in
    elim (Bool-cases (is_einprogress v)) [
      | inl q ↦
          let pending : is_einprogress r.2 ≡ true = rw same q in
          (
            r.0,
            [],
            rw (e, cmd, connects, pending, q, ← done) refl,
            rw kept_r k,
            rw (q, kept_w) hw,
            rw q refl,
          )
      | inr q ↦
          let over : is_einprogress r.2 ≡ false = rw same q in
          let s₂ = record r.0 { request_reply = connect_reply_from_errno r.2 } in
          let a = answer-Answered s₂ r.1 bound sound (rw kept_w hw) (rw kept_w room) in
          (
            a.t,
            a.tail,
            rw (e, cmd, connects, over, q, ← done) a.result,
            rw (a.kept, kept_r) k,
            rw (q, ← same) a.reply,
            rw q (flushed inet_ntop log now a.t sent empty ∙ rw (a.code, same, reply_code v) refl),
          )
    ]
