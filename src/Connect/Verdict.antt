-- ===== src/Connect/Verdict.antt =====
-- What the system calls for one address amount to.
use socksv5_proxy.Base.{
  ℕ, ◌≡◌, refl, sym, Bool-cases, inl, inr, true, false, not, ◌&&◌, List, [], ◌∷◌, if◌then◌else◌,
  pos,
}
use socksv5_proxy.Request.{SockAddr}
use socksv5_proxy.Resolver.{
  Errno, succeeded, no_error, ehostunreach, econnrefused, einprogress, enetunreach, eafnosupport,
  enomem, other_error,
}
use socksv5_proxy.Selector.{is_success, SelectorStatus}
use socksv5_proxy.Socks5.{Socks5, Effect, close_fd, connect_to, register_fd}
use socksv5_proxy.Connect.{
  Attempt, SocketResult, socket_opened, socket_failed, enter_origin, dial_on,
  register_origin_connect, is_settled, is_einprogress,
}

-- What the calls for one address amount to.
unfoldable pub verdict : Attempt → Errno
verdict a = elim a.socket [
  | socket_failed error ↦ error
  | socket_opened fd ↦
      if not (succeeded a.non_blocking)
      then a.non_blocking
      else if is_settled a.connect && not (is_success a.registered)
      then econnrefused
      else a.connect
]

-- What a refused address leaves: the result, the addresses that follow, and whether the origin is
-- registered.
abbrev pub LeavesRefused : Socks5 → Errno → Socks5 × List Effect × Errno → Type 0
LeavesRefused s status (s', effects, status') =
    (status' ≡ status) × (s'.dns_next ≡ s.dns_next) × (s'.origin_registered ≡ s.origin_registered)

dial_on-refused :
    (s : Socks5) (addr : SockAddr) (fd : ℕ) (error : Errno) (st : SelectorStatus)
    → let status = if is_settled error && not (is_success st) then econnrefused else error in
      is_settled status ≡ false → LeavesRefused s status (dial_on s addr fd error st)
unfolding dial_on enter_origin is_settled
dial_on-refused s addr fd error st h = elim (Bool-cases (succeeded error)) [
  | inl a ↦ elim (Bool-cases (is_success st)) [
    | inl b ↦ absurd (cc (rw (a, b, a) at h))
    | inr b ↦ rw (a, b) (refl, refl, refl)
  ]
  | inr a ↦ elim (Bool-cases (is_einprogress error)) [
    | inl b ↦ elim (Bool-cases (is_success st)) [
      | inl c ↦ absurd (cc (rw (a, b, c, a, b) at h))
      | inr c ↦ rw (a, b, c) (refl, refl, refl)
    ]
    | inr b ↦ rw (a, b) (refl, refl, refl)
  ]
]

pub register-refused :
    (s : Socks5) (addr : SockAddr) (a : Attempt)
    → is_settled (verdict a) ≡ false
    → LeavesRefused s (verdict a) (register_origin_connect s addr a)
unfolding register_origin_connect verdict
register-refused s addr a h = go a.socket h
  where
    go :
        (o : SocketResult)
        → is_settled (elim o [
          | socket_failed error ↦ error
          | socket_opened fd ↦
              if not (succeeded a.non_blocking)
              then a.non_blocking
              else if is_settled a.connect && not (is_success a.registered)
              then econnrefused
              else a.connect
        ])
          ≡ false
        → LeavesRefused s
            (elim o [
              | socket_failed error ↦ error
              | socket_opened fd ↦
                  if not (succeeded a.non_blocking)
                  then a.non_blocking
                  else if is_settled a.connect && not (is_success a.registered)
                  then econnrefused
                  else a.connect
            ])
            (elim o [
              | socket_failed error ↦ (s, [], error)
              | socket_opened fd ↦
                  if succeeded a.non_blocking
                  then dial_on s addr fd a.connect a.registered
                  else (s, close_fd (pos fd) ∷ [], a.non_blocking)
            ])
    go (socket_failed error) h = (refl, refl, refl)
    go (socket_opened fd) h = elim (Bool-cases (succeeded a.non_blocking)) [
      | inl b ↦ rw b (dial_on-refused s addr fd a.connect a.registered (rw b at h))
      | inr b ↦ rw b (refl, refl, refl)
    ]

succeeded-eq : (e : Errno) → succeeded e ≡ true → e ≡ no_error
unfolding succeeded
succeeded-eq no_error h = refl
succeeded-eq einprogress h = absurd (cc h)
succeeded-eq enetunreach h = absurd (cc h)
succeeded-eq ehostunreach h = absurd (cc h)
succeeded-eq econnrefused h = absurd (cc h)
succeeded-eq eafnosupport h = absurd (cc h)
succeeded-eq enomem h = absurd (cc h)
succeeded-eq (other_error n) h = absurd (cc h)

einprogress-eq : (e : Errno) → is_einprogress e ≡ true → e ≡ einprogress
unfolding is_einprogress
einprogress-eq einprogress h = refl
einprogress-eq no_error h = absurd (cc h)
einprogress-eq enetunreach h = absurd (cc h)
einprogress-eq ehostunreach h = absurd (cc h)
einprogress-eq econnrefused h = absurd (cc h)
einprogress-eq eafnosupport h = absurd (cc h)
einprogress-eq enomem h = absurd (cc h)
einprogress-eq (other_error n) h = absurd (cc h)

dial_on-verdict :
    (s : Socks5) (addr : SockAddr) (fd : ℕ) (error : Errno) (st : SelectorStatus)
    → (dial_on s addr fd error st).2
      ≡ (if is_settled error && not (is_success st) then econnrefused else error)
unfolding dial_on enter_origin is_settled
dial_on-verdict s addr fd error st = elim (Bool-cases (succeeded error)) [
  | inl a ↦ elim (Bool-cases (is_success st)) [
    | inl b ↦ rw (a, b) (sym (succeeded-eq error a))
    | inr b ↦ rw (a, b) refl
  ]
  | inr a ↦ elim (Bool-cases (is_einprogress error)) [
    | inl b ↦ elim (Bool-cases (is_success st)) [
      | inl c ↦ rw (a, b, c) (sym (einprogress-eq error b))
      | inr c ↦ rw (a, b, c) refl
    ]
    | inr b ↦ rw (a, b) refl
  ]
]

-- The result for one address.
pub register-verdict :
    (s : Socks5) (addr : SockAddr) (a : Attempt) → (register_origin_connect s addr a).2 ≡ verdict a
unfolding register_origin_connect verdict
register-verdict s addr a = go a.socket
  where
    go :
        (o : SocketResult)
        → (elim o as (λ _. Socks5 × List Effect × Errno) [
          | socket_failed error ↦ (s, [], error)
          | socket_opened fd ↦
              if succeeded a.non_blocking
              then dial_on s addr fd a.connect a.registered
              else (s, close_fd (pos fd) ∷ [], a.non_blocking)
        ]).2
          ≡ (elim o [
            | socket_failed error ↦ error
            | socket_opened fd ↦
                if not (succeeded a.non_blocking)
                then a.non_blocking
                else if is_settled a.connect && not (is_success a.registered)
                then econnrefused
                else a.connect
          ])
    go (socket_failed error) = refl
    go (socket_opened fd) = elim (Bool-cases (succeeded a.non_blocking)) [
      | inl b ↦ rw b (dial_on-verdict s addr fd a.connect a.registered)
      | inr b ↦ rw b refl
    ]

-- The system calls for one address, in their order: at most one connect(2), to this address, on a
-- socket that is then watched for writing while the connection is pending, and closed where the
-- connection fails or cannot be watched.
unfoldable pub calls : SockAddr → Attempt → List Effect
calls addr a = elim a.socket [
  | socket_failed error ↦ []
  | socket_opened fd ↦
      if not (succeeded a.non_blocking)
      then close_fd (pos fd) ∷ []
      else connect_to (pos fd) addr
        ∷ (if not (is_settled a.connect)
            then close_fd (pos fd) ∷ []
            else register_fd (pos fd)
                (record { op_read = false; op_write = is_einprogress a.connect })
              ∷ (if is_success a.registered then [] else close_fd (pos fd) ∷ []))
]

dial_on-calls :
    (s : Socks5) (addr : SockAddr) (fd : ℕ) (error : Errno) (st : SelectorStatus)
    → (dial_on s addr fd error st).1
      ≡ connect_to (pos fd) addr
        ∷ (if not (is_settled error)
            then close_fd (pos fd) ∷ []
            else register_fd (pos fd) (record { op_read = false; op_write = is_einprogress error })
              ∷ (if is_success st then [] else close_fd (pos fd) ∷ []))
unfolding dial_on enter_origin is_settled
dial_on-calls s addr fd error st = elim (Bool-cases (succeeded error)) [
  | inl a ↦
      let done : is_einprogress error ≡ false = rw (succeeded-eq error a) refl in
      elim (Bool-cases (is_success st)) [
        | inl b ↦ rw (a, b, done) refl
        | inr b ↦ rw (a, b, done) refl
      ]
  | inr a ↦ elim (Bool-cases (is_einprogress error)) [
    | inl b ↦ elim (Bool-cases (is_success st)) [
      | inl c ↦ rw (a, b, c) refl
      | inr c ↦ rw (a, b, c) refl
    ]
    | inr b ↦ rw (a, b) refl
  ]
]

pub register-calls :
    (s : Socks5) (addr : SockAddr) (a : Attempt)
    → (register_origin_connect s addr a).1 ≡ calls addr a
unfolding register_origin_connect calls
register-calls s addr a = go a.socket
  where
    go :
        (o : SocketResult)
        → (elim o as (λ _. Socks5 × List Effect × Errno) [
          | socket_failed error ↦ (s, [], error)
          | socket_opened fd ↦
              if succeeded a.non_blocking
              then dial_on s addr fd a.connect a.registered
              else (s, close_fd (pos fd) ∷ [], a.non_blocking)
        ]).1
          ≡ elim o [
            | socket_failed error ↦ []
            | socket_opened fd ↦
                if not (succeeded a.non_blocking)
                then close_fd (pos fd) ∷ []
                else connect_to (pos fd) addr
                  ∷ (if not (is_settled a.connect)
                      then close_fd (pos fd) ∷ []
                      else register_fd
                          (pos fd)
                          (record { op_read = false; op_write = is_einprogress a.connect })
                        ∷ (if is_success a.registered then [] else close_fd (pos fd) ∷ []))
          ]
    go (socket_failed error) = refl
    go (socket_opened fd) = elim (Bool-cases (succeeded a.non_blocking)) [
      | inl b ↦ rw b (dial_on-calls s addr fd a.connect a.registered)
      | inr b ↦ rw b refl
    ]
