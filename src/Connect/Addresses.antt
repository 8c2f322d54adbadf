-- ===== src/Connect/Addresses.antt =====
-- The addresses of the origin are tried one after the other.
use socksv5_proxy.Base.{
  ℕ, ◌≡◌, refl, sym, ap, ap₂, ◌∙◌, Bool-cases, inl, inr, true, false, List, [], ◌∷◌, ◌++◌,
  append_assoc, length, if◌then◌else◌, pos,
}
use socksv5_proxy.Request.{SockAddr}
use socksv5_proxy.Resolver.{
  Errno, succeeded, no_error, ehostunreach, econnrefused, einprogress, enetunreach, eafnosupport,
  enomem, other_error,
}
use socksv5_proxy.Selector.{is_success, selector_success}
use socksv5_proxy.Socks5.{Socks5, AddrInfo, Effect, connect_to, register_fd}
use socksv5_proxy.Connect.{
  Attempt, socket_opened, enter_origin, dial_on, register_origin_connect, is_settled,
  is_einprogress, try_all, start_resolved_connect, is_zero, is_given,
}
use socksv5_proxy.Connect.Verdict.{verdict, register-refused}

-- The first address of a list that is not refused: its descriptor and what connect(2) answers,
-- and the addresses that follow it.
pub data Reaches (dial : ℕ → SockAddr → Attempt)
    : List AddrInfo → ℕ → Errno → SockAddr → List AddrInfo → Type 0 where
  reached :
      {ai : AddrInfo} {ais : List AddrInfo} {fd : ℕ} {status : Errno}
      → ai.is_stream ≡ true
      → (dial (length ais) ai.addr).socket ≡ socket_opened fd
      → succeeded (dial (length ais) ai.addr).non_blocking ≡ true
      → (dial (length ais) ai.addr).connect ≡ status
      → is_settled status ≡ true
      → (dial (length ais) ai.addr).registered ≡ selector_success
      → Reaches dial (ai ∷ ais) fd status ai.addr ais
  other_kind :
      {ai : AddrInfo} {ais : List AddrInfo} {fd : ℕ} {status : Errno} {addr : SockAddr}
      {rest : List AddrInfo}
      → ai.is_stream ≡ false
      → Reaches dial ais fd status addr rest
      → Reaches dial (ai ∷ ais) fd status addr rest
  refused :
      {ai : AddrInfo} {ais : List AddrInfo} {fd : ℕ} {status : Errno} {addr : SockAddr}
      {rest : List AddrInfo}
      → ai.is_stream ≡ true
      → is_settled (verdict (dial (length ais) ai.addr)) ≡ false
      → Reaches dial ais fd status addr rest
      → Reaches dial (ai ∷ ais) fd status addr rest

-- The last error, where no address is reached.
pub last_verdict : (ℕ → SockAddr → Attempt) → List AddrInfo → Errno → Errno
last_verdict dial [] last = last
last_verdict dial (ai ∷ ais) last =
    last_verdict dial ais (if ai.is_stream then verdict (dial (length ais) ai.addr) else last)

-- No address of a list is reached.
pub data AllRefused (dial : ℕ → SockAddr → Attempt) : List AddrInfo → Type 0 where
  no_more : AllRefused dial []
  one_more :
      {ai : AddrInfo} {ais : List AddrInfo}
      → is_settled (verdict (dial (length ais) ai.addr)) ≡ false
      → AllRefused dial ais
      → AllRefused dial (ai ∷ ais)

-- The origin is being connected to, or is connected.
pub record Reached (r : Socks5 × List Effect × Errno) (fd : ℕ) (status : Errno) (addr : SockAddr)
    (rest : List AddrInfo) : Type 0 where
  pub answered : r.2 ≡ status
  pub next : r.0.dns_next ≡ rest
  pub descriptor : r.0.origin_fd ≡ pos fd
  pub registered : r.0.origin_registered ≡ true
  pub before : List Effect
  pub effects :
      r.1
      ≡ before
        ++ connect_to (pos fd) addr
          ∷ register_fd (pos fd) (record { op_read = false; op_write = is_einprogress status })
          ∷ []

dial_on-settled :
    (s : Socks5) (addr : SockAddr) (fd : ℕ) (error : Errno)
    → is_settled error ≡ true
    → Reached (dial_on s addr fd error selector_success) fd error addr s.dns_next
unfolding dial_on enter_origin is_settled is_einprogress succeeded is_success
dial_on-settled s addr fd no_error h = record {
  answered = refl;
  next = refl;
  descriptor = refl;
  registered = refl;
  before = [];
  effects = refl;
}
dial_on-settled s addr fd einprogress h = record {
  answered = refl;
  next = refl;
  descriptor = refl;
  registered = refl;
  before = [];
  effects = refl;
}
dial_on-settled s addr fd enetunreach h = absurd (cc h)
dial_on-settled s addr fd ehostunreach h = absurd (cc h)
dial_on-settled s addr fd econnrefused h = absurd (cc h)
dial_on-settled s addr fd eafnosupport h = absurd (cc h)
dial_on-settled s addr fd enomem h = absurd (cc h)
dial_on-settled s addr fd (other_error n) h = absurd (cc h)

pub register-Reached :
    (s : Socks5) (addr : SockAddr) (a : Attempt) {fd : ℕ} {status : Errno}
    → a.socket ≡ socket_opened fd
    → succeeded a.non_blocking ≡ true
    → a.connect ≡ status
    → is_settled status ≡ true
    → a.registered ≡ selector_success
    → Reached (register_origin_connect s addr a) fd status addr s.dns_next
unfolding register_origin_connect
register-Reached s addr a {fd} {status} opened non_blocking answer settled registered =
    rw (opened, non_blocking, answer, registered) (dial_on-settled s addr fd status settled)

try_all-Reached :
    {dial : ℕ → SockAddr → Attempt} {ais : List AddrInfo} {fd : ℕ} {status : Errno}
    {addr : SockAddr} {rest : List AddrInfo} (s : Socks5) (last : Errno)
    → Reaches dial ais fd status addr rest
    → Reached (try_all dial s ais last) fd status addr rest
unfolding try_all register_origin_connect
try_all-Reached {dial} s last
      (reached {ai} {ais} {fd} {status} stream opened non_blocking answer settled registered) =
    let s₁ = record s { dns_next = ais } in
    let a = dial (length ais) ai.addr in
    let r = register-Reached s₁ ai.addr a opened non_blocking answer settled registered in
    rw (stream, r.answered, settled)
      (record {
        answered = r.answered;
        next = r.next;
        descriptor = r.descriptor;
        registered = r.registered;
        before = r.before;
        effects = r.effects;
      })
try_all-Reached {dial} s last (other_kind {ai} {ais} other r) =
    rw other (try_all-Reached (record s { dns_next = ais }) last r)
try_all-Reached {dial} s last (refused {ai} {ais} stream no_answer r) =
    let s₁ = record s { dns_next = ais } in
    let a = dial (length ais) ai.addr in
    let d = register_origin_connect s₁ ai.addr a in
    let (same, next, kept) = register-refused s₁ ai.addr a no_answer in
    let t = try_all-Reached d.0 d.2 r in
    let goes_on : is_settled d.2 ≡ false = rw same no_answer in
    rw (stream, goes_on)
      (record {
        answered = t.answered;
        next = t.next;
        descriptor = t.descriptor;
        registered = t.registered;
        before = d.1 ++ t.before;
        effects =
            ap (λ (es : List Effect). d.1 ++ es) t.effects ∙ sym (append_assoc d.1 t.before _);
      })

-- The addresses that getaddrinfo(3) found are tried in their order. The first that is not refused
-- is kept, whether it is connected at once or is being connected to: its descriptor becomes that
-- of the origin and is registered, for writing if the connection is pending; its system calls are
-- the last that are made, its result is returned, and the addresses behind it are kept for later.
pub start_resolved_connect_reaches :
    {dial : ℕ → SockAddr → Attempt} {fd : ℕ} {status : Errno} {addr : SockAddr}
    {rest : List AddrInfo} (s : Socks5)
    → is_zero s.dns_error ≡ true
    → is_given s.dns_result ≡ true
    → Reaches dial s.dns_next fd status addr rest
    → (s' : Socks5) × (before : List Effect) × (start_resolved_connect dial s ≡ (
      s',
      before
          ++ connect_to (pos fd) addr
            ∷ register_fd (pos fd) (record { op_read = false; op_write = is_einprogress status })
            ∷ [],
      status,
    ))
      × (s'.dns_next ≡ rest)
      × (s'.origin_fd ≡ pos fd)
      × (s'.origin_registered ≡ true)
unfolding start_resolved_connect
start_resolved_connect_reaches {dial} s found given r =
    let t = try_all-Reached s ehostunreach r in
    let d = try_all dial s s.dns_next ehostunreach in
    (
      d.0,
      t.before,
      rw (found, given) (ap₂ (λ (es : List Effect) (e : Errno). (d.0, es, e)) t.effects t.answered),
      t.next,
      t.descriptor,
      t.registered,
    )

-- All addresses were refused.
record Spent (s : Socks5) (status : Errno) (r : Socks5 × List Effect × Errno) : Type 0 where
  answered : r.2 ≡ status
  next : r.0.dns_next ≡ []
  registered : r.0.origin_registered ≡ s.origin_registered

try_all-Spent :
    {dial : ℕ → SockAddr → Attempt} {ais : List AddrInfo} (s : Socks5) (last : Errno)
    → s.dns_next ≡ ais
    → AllRefused dial ais
    → Spent s (last_verdict dial ais last) (try_all dial s ais last)
unfolding try_all last_verdict
try_all-Spent s last e no_more = record { answered = refl; next = e; registered = refl }
try_all-Spent {dial} s last e (one_more {ai} {ais} no_answer more) =
    let s₁ = record s { dns_next = ais } in
    let a = dial (length ais) ai.addr in
    let d = register_origin_connect s₁ ai.addr a in
    let (same, next, kept) = register-refused s₁ ai.addr a no_answer in
    elim (Bool-cases ai.is_stream) [
      | inl q ↦
          let r = try_all-Spent {dial = dial} d.0 d.2 next more in
          let goes_on : is_settled d.2 ≡ false = rw same no_answer in
          rw (q, goes_on)
            (record {
              answered = r.answered ∙ ap (last_verdict dial ais) same;
              next = r.next;
              registered = r.registered ∙ kept;
            })
      | inr q ↦
          let r = try_all-Spent {dial = dial} s₁ last refl more in
          rw q (record { answered = r.answered; next = r.next; registered = r.registered })
    ]

-- If all the addresses that are left are refused, none is left for later, the origin is registered
-- no more than it was before, and the result is the error of the last address that was tried,
-- EHOSTUNREACH where none was tried.
pub start_resolved_connect_refused :
    {dial : ℕ → SockAddr → Attempt} (s : Socks5)
    → is_zero s.dns_error ≡ true
    → is_given s.dns_result ≡ true
    → AllRefused dial s.dns_next
    → let r = start_resolved_connect dial s in
      (r.2 ≡ last_verdict dial s.dns_next ehostunreach)
      × (r.0.dns_next ≡ [])
      × (r.0.origin_registered ≡ s.origin_registered)
unfolding start_resolved_connect
start_resolved_connect_refused {dial} s found given all =
    let r = try_all-Spent s ehostunreach refl all in
    rw (found, given) (r.answered, r.next, r.registered)
