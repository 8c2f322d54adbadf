-- ===== src/Request/Parse.antt =====
-- A CONNECT request, fed byte by byte.
use socksv5_proxy.Base.{
  ℕ, suc, ◌+◌, ◌<◌, ◌≡◌, ◌≢◌, refl, ◌∙◌, Bool, true, some, List, [], ◌∷◌, ◌++◌, length, arith, set,
  copy_to, take, slice-copy_to,
}
use socksv5_proxy.Consume.Stream.{drain, loop_drained}
use socksv5_proxy.Buffer.{Buffer}
use socksv5_proxy.Buffer.Fifo.{Holds}
use socksv5_proxy.Request.{
  RequestState, RequestParser, request_version, request_dst_addr, request_dst_port, request_done,
  request_error_unsupported_atyp, parser_feed, parser_init, is_done, consume,
}

abbrev parser : RequestState → ℕ → ℕ → List ℕ → ℕ → ℕ → List ℕ → ℕ → RequestParser
parser st cmd t addr len i port pi = record {
  state = st;
  command = cmd;
  atyp = t;
  address = addr;
  address_len = len;
  address_index = i;
  port = port;
  port_index = pi;
}

-- Where a request leads: an address of 4 or 16 bytes, or a name of 1 to 255 bytes.
pub data Destination : Type 0 where
  ipv4 ipv6 domain_name : List ℕ → Destination

abbrev pub host : Destination → List ℕ
host (ipv4 a) = a
host (ipv6 a) = a
host (domain_name a) = a

abbrev pub IsWellFormed : Destination → Type 0
IsWellFormed (ipv4 a) = length a ≡ 4
IsWellFormed (ipv6 a) = length a ≡ 16
IsWellFormed (domain_name a) = (0 < length a) × (length a < 256)

abbrev pub atyp_of : Destination → ℕ
atyp_of (ipv4 a) = 1
atyp_of (ipv6 a) = 4
atyp_of (domain_name a) = 3

-- ATYP and DST.ADDR on the wire.
abbrev pub address_bytes : Destination → List ℕ
address_bytes (ipv4 a) = 1 ∷ a
address_bytes (ipv6 a) = 4 ∷ a
address_bytes (domain_name a) = 3 ∷ length a ∷ a

drain_addr :
    (y : ℕ) (ys rest : List ℕ) (cmd t : ℕ) (addr : List ℕ) (len i : ℕ) (port : List ℕ) (pi : ℕ)
    (err : Bool)
    → len ≡ suc (i + length ys)
    → len < 256
    → drain parser_feed is_done
        (y ∷ ys ++ rest)
        (parser request_dst_addr cmd t addr len i port pi)
        request_dst_addr
        err
      ≡ drain parser_feed is_done rest
          (parser request_dst_port cmd t (copy_to (set addr i y) (i + 1) ys) len len port 0)
          request_dst_port
          err
unfolding drain parser_feed is_done
drain_addr y [] rest cmd t addr len i port pi err e lt = ground arith
drain_addr y (y' ∷ ys) rest cmd t addr len i port pi err e lt =
    ground (arith, drain_addr y' ys rest cmd t (set addr i y) len (i + 1) port pi err)

drain_port :
    (a b : ℕ) (rest : List ℕ) (cmd t : ℕ) (addr : List ℕ) (len i : ℕ) (port : List ℕ) (err : Bool)
    → drain parser_feed is_done
        (a ∷ b ∷ rest)
        (parser request_dst_port cmd t addr len i port 0)
        request_dst_port
        err
      ≡ (rest, parser request_done cmd t addr len i (set (set port 0 a) 1 b) 2, request_done, err)
unfolding drain parser_feed is_done
drain_port a b rest cmd t addr len i port err = refl

-- The parser behind the four bytes of the header, at the address.
drain_header :
    (p : RequestParser) (cmd : ℕ) (d : Destination) (rest : List ℕ) (err : Bool)
    → IsWellFormed d
    → drain parser_feed is_done
        (5 ∷ cmd ∷ 0 ∷ address_bytes d ++ rest)
        (parser_init p)
        request_version
        err
      ≡ drain parser_feed is_done
          (host d ++ rest)
          (parser request_dst_addr cmd
            (atyp_of d)
            p.address
            (length (host d))
            0
            (set (set p.port 0 0) 1 0)
            0)
          request_dst_addr
          err
unfolding drain parser_feed is_done parser_init
drain_header p cmd (ipv4 a) rest err h = rw h
drain_header p cmd (ipv6 a) rest err h = rw h
drain_header p cmd (domain_name []) rest err h = absurd (omega arith)
drain_header p cmd (domain_name (x ∷ a)) rest err h = ground arith

drain_host :
    (h rest : List ℕ) (cmd t : ℕ) (addr : List ℕ) (port : List ℕ) (err : Bool)
    → 0 < length h
    → length h < 256
    → drain parser_feed is_done
        (h ++ rest)
        (parser request_dst_addr cmd t addr (length h) 0 port 0)
        request_dst_addr
        err
      ≡ drain parser_feed is_done rest
          (parser request_dst_port cmd t (copy_to addr 0 h) (length h) (length h) port 0)
          request_dst_port
          err
drain_host [] rest cmd t addr port err p lt = absurd (omega arith)
drain_host (y ∷ ys) rest cmd t addr port err p lt =
    drain_addr y ys rest cmd t addr (suc (length ys)) 0 port 0 err (omega arith) lt

length-host : (d : Destination) → IsWellFormed d → (0 < length (host d)) × (length (host d) < 256)
length-host (ipv4 a) h = omega arith
length-host (ipv6 a) h = omega arith
length-host (domain_name a) h = h

-- The parser at the end of a request.
finished : RequestParser → ℕ → Destination → ℕ → ℕ → RequestParser
finished p cmd d p₁ p₀ =
    parser request_done cmd (atyp_of d) (copy_to p.address 0 (host d)) (length (host d))
      (length (host d)) (set (set (set (set p.port 0 0) 1 0) 0 p₁) 1 p₀) 2

drain_request :
    (p : RequestParser) (cmd : ℕ) (d : Destination) (p₁ p₀ : ℕ) (rest : List ℕ) (err : Bool)
    → IsWellFormed d
    → drain parser_feed is_done
        (5 ∷ cmd ∷ 0 ∷ address_bytes d ++ (p₁ ∷ p₀ ∷ rest))
        (parser_init p)
        request_version
        err
      ≡ (rest, finished p cmd d p₁ p₀, request_done, err)
unfolding finished
drain_request p cmd d p₁ p₀ rest err h =
    drain_header p cmd d (p₁ ∷ p₀ ∷ rest) err h
    ∙ drain_host (host d) (p₁ ∷ p₀ ∷ rest) cmd (atyp_of d) p.address (set (set p.port 0 0) 1 0) err
        (length-host d h).0 (length-host d h).1
    ∙ drain_port p₁ p₀ rest cmd (atyp_of d) (copy_to p.address 0 (host d)) (length (host d))
        (length (host d)) (set (set p.port 0 0) 1 0) err

port_of_two :
    (port : List ℕ) (a b : ℕ)
    → length port ≡ 2
    → set (set (set (set port 0 0) 1 0) 0 a) 1 b ≡ a ∷ b ∷ []
port_of_two [] a b h = absurd (omega arith)
port_of_two (x ∷ []) a b h = absurd (omega arith)
port_of_two (x ∷ y ∷ []) a b h = refl
port_of_two (x ∷ y ∷ z ∷ r) a b h = absurd (omega arith)

-- A well-formed request, for an address of either family or a name of up to 255 bytes, is taken
-- whole and nothing behind it: the parser is done without an error, and holds the command, the
-- address type, the address with its length, and the port as they were sent.
pub request_parsed :
    {b : Buffer} (p : RequestParser) (cmd : ℕ) (d : Destination) (p₁ p₀ : ℕ) (rest : List ℕ)
    (err : Bool)
    → Holds b (5 ∷ cmd ∷ 0 ∷ address_bytes d ++ (p₁ ∷ p₀ ∷ rest))
    → IsWellFormed d
    → length p.address ≡ 256
    → length p.port ≡ 2
    → (b' : Buffer) × (p' : RequestParser) × (consume b (parser_init p) err
        ≡ some (b', p', request_done, err))
      × Holds b' rest
      × (p'.command ≡ cmd)
      × (p'.atyp ≡ atyp_of d)
      × (p'.address_len ≡ length (host d))
      × (take p'.address_len p'.address ≡ host d)
      × (p'.port ≡ p₁ ∷ p₀ ∷ [])
unfolding consume parser_init finished
request_parsed p cmd d p₁ p₀ rest err h w ra rp =
    let (b', e, k, l) =
      loop_drained parser_feed is_done (parser_init p) request_version err
        (drain_request p cmd d p₁ p₀ rest err w) h in
    (
      b',
      finished p cmd d p₁ p₀,
      e,
      k,
      refl,
      refl,
      refl,
      slice-copy_to (host d) p.address 0 0 0 (length (host d)) refl (omega arith)
          (omega (arith, length-host d w)),
      port_of_two p.port p₁ p₀ rp,
    )

unsupported :
    (p : RequestParser) (cmd t : ℕ) (rest : List ℕ) (err : Bool)
    → t ≢ 1
    → t ≢ 3
    → t ≢ 4
    → drain parser_feed is_done (5 ∷ cmd ∷ 0 ∷ t ∷ rest) (parser_init p) request_version err ≡ (
      rest,
      record (parser_init p) { state = request_error_unsupported_atyp; command = cmd; atyp = t },
      request_error_unsupported_atyp,
      true,
    )
unfolding drain parser_feed is_done parser_init
unsupported p cmd t rest err h₁ h₃ h₄ = ground arith

-- A request with an address type other than the three is refused at that byte, with the error
-- that the reply tells apart from the others.
pub atyp_refused :
    {b : Buffer} (p : RequestParser) (cmd t : ℕ) (rest : List ℕ) (err : Bool)
    → Holds b (5 ∷ cmd ∷ 0 ∷ t ∷ rest)
    → t ≢ 1
    → t ≢ 3
    → t ≢ 4
    → (b' : Buffer) × (p' : RequestParser) × (consume b (parser_init p) err
        ≡ some (b', p', request_error_unsupported_atyp, true))
      × Holds b' rest
unfolding consume parser_init
atyp_refused p cmd t rest err h h₁ h₃ h₄ =
    let (b', e, k, l) =
      loop_drained parser_feed is_done (parser_init p) request_version err
        (unsupported p cmd t rest err h₁ h₃ h₄) h in
    (b', _, e, k)
