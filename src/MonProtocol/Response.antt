-- ===== src/MonProtocol/Response.antt =====
-- A response that one side encodes is the response that the other side decodes.
use socksv5_proxy.Base.{
  ℕ, ◌+◌, ◌≤◌, ◌<◌, ◌/◌, ◌%◌, copy_to-eq, ◌≡◌, refl, ap, ◌∙◌, sym, none, some, List, [], ◌∷◌, ◌++◌,
  take, drop, length, arith, take-append, if◌then◌else◌, ltb, ◌*◌, negsuc, Bool-cases, inl, inr,
  pos, Option, ap₂, copy_to, take_all,
}
use socksv5_proxy.MonProtocol.{
  MonResponse, copied, response_encode, response_decode, decode_ok, decode_need_more,
}

-- The payload proper: as many bytes as the length says.
unfoldable pub payload_of : MonResponse → List ℕ
payload_of r = copied r.payload r.payload_len

-- A response of this protocol whose payload is there.
pub record IsWellFormed (r : MonResponse) : Type 0 where
  pub versioned : r.version ≡ 1
  pub len_fits : r.payload_len < 65536
  pub present : length (payload_of r) ≡ r.payload_len

pub wire : MonResponse → List ℕ
wire r = r.version ∷ r.status ∷ (r.payload_len / 256) % 256 ∷ r.payload_len % 256 ∷ payload_of r

length-wire : (r : MonResponse) → IsWellFormed r → length (wire r) ≡ 4 + r.payload_len
unfolding wire
length-wire r w = omega (arith, w.present)

empty_of_length : (xs : List ℕ) → length xs ≡ 0 → xs ≡ []
empty_of_length [] h = refl
empty_of_length (x ∷ xs) h = absurd (omega arith)

body :
    (r : MonResponse)
    → IsWellFormed r
    → (if ltb 0 r.payload_len then copied r.payload r.payload_len else []) ≡ payload_of r
unfolding payload_of
body r w = elim (Bool-cases (ltb 0 r.payload_len)) [
  | inl more ↦ rw more
  | inr empty ↦
      let zero_len : r.payload_len ≡ 0 = ground arith in
      rw empty (sym (empty_of_length (payload_of r) (w.present ∙ zero_len)))
]

taken :
    (p rest : List ℕ) (n : ℕ)
    → length p ≡ n
    → copied (if ltb 0 n then some (p ++ rest) else none) n ≡ p
unfolding copied
taken p rest n h = elim (Bool-cases (ltb 0 n)) [
  | inl more ↦ rw more (ap (λ k. take k (p ++ rest)) (sym h) ∙ take-append p rest)
  | inr empty ↦ rw empty (sym (empty_of_length p (ground arith)))
]

-- What the encoder leaves in the buffer.
pub encoded :
    (r : MonResponse) (buf : List ℕ) (n : ℕ)
    → IsWellFormed r
    → 4 + r.payload_len ≤ n
    → n ≤ length buf
    → response_encode r buf n ≡ (wire r ++ drop (4 + r.payload_len) buf, pos (4 + r.payload_len))
unfolding response_encode wire payload_of
encoded r buf n w fits room =
    ground
      (arith, body r w, copy_to-eq buf (wire r) (omega (arith, length-wire r w)), length-wire r w)

-- The response that is read back, with `rest` behind it in the buffer.
received : MonResponse → List ℕ → MonResponse
received r rest = record r {
  payload = if ltb 0 r.payload_len then some (payload_of r ++ rest) else none;
}

decoded :
    (r : MonResponse) (rest : List ℕ) (m : ℕ)
    → IsWellFormed r
    → 4 + r.payload_len ≤ m
    → response_decode (wire r ++ rest) m ≡ decode_ok (received r rest) (4 + r.payload_len)
unfolding response_decode wire received
decoded r rest m w fits =
    let len : ((r.payload_len / 256) % 256 * 256 + r.payload_len % 256) % 65536 ≡ r.payload_len =
      omega (arith, w.len_fits) in
    rw len (ground (arith, w.versioned))

cut_short :
    (r : MonResponse) (rest : List ℕ) (m : ℕ)
    → IsWellFormed r
    → m < 4 + r.payload_len
    → response_decode (wire r ++ rest) m ≡ decode_need_more
unfolding response_decode wire
cut_short r rest m w short =
    let len : ((r.payload_len / 256) % 256 * 256 + r.payload_len % 256) % 65536 ≡ r.payload_len =
      omega (arith, w.len_fits) in
    rw len (ground (arith, w.versioned))

-- A response with a payload of up to 65535 bytes that `mon_response_encode` writes into a buffer
-- with room takes its header and its payload; `mon_response_decode` asks for more on every
-- shorter part of it, and on all of it, whatever follows, gives back the status, the length and
-- the payload, and the number of bytes that the encoder returned.
pub decode-encode :
    (r : MonResponse) (buf : List ℕ) (n : ℕ)
    → IsWellFormed r
    → 4 + r.payload_len ≤ n
    → n ≤ length buf
    → let (sent, written) = response_encode r buf n in
      (written ≡ pos (4 + r.payload_len))
      × ((m : ℕ) → m < 4 + r.payload_len → response_decode sent m ≡ decode_need_more)
      × ((m : ℕ)
          → 4 + r.payload_len ≤ m
          → (out : MonResponse) × (response_decode sent m ≡ decode_ok out (4 + r.payload_len))
            × (out.status ≡ r.status)
            × (out.payload_len ≡ r.payload_len)
            × (payload_of out ≡ payload_of r))
unfolding received payload_of copied
decode-encode r buf n w fits room =
    let rest = drop (4 + r.payload_len) buf in
    rw (encoded r buf n w fits room) (
      refl,
      λ m short. cut_short r rest m w short,
      λ m enough. (
        received r rest,
        decoded r rest m w enough,
        refl,
        refl,
        taken (payload_of r) rest r.payload_len w.present,
      ),
    )

-- A buffer that is too small for a response is left as it was, and -1 returned.
pub encode_too_small :
    (r : MonResponse) (buf : List ℕ) (n : ℕ)
    → n < 4 + r.payload_len
    → response_encode r buf n ≡ (buf, negsuc 0)
unfolding response_encode
encode_too_small r buf n h = ground arith

-- The bytes behind a pointer, none behind a null pointer.
abbrev pub given : Option (List ℕ) → List ℕ
given none = []
given (some bytes) = bytes

-- The bytes of a response, as mon_protocol.h draws them.
abbrev pub response : ℕ → List ℕ → List ℕ
response status bytes = 1 ∷ status ∷ (length bytes / 256) % 256 ∷ length bytes % 256 ∷ bytes

abbrev pub with_payload : ℕ → Option (List ℕ) → MonResponse
with_payload status p = record {
  version = 1;
  status = status;
  payload_len = length (given p);
  payload = p;
}

with_payload-IsWellFormed :
    (status : ℕ) (p : Option (List ℕ))
    → length (given p) < 65536
    → IsWellFormed (with_payload status p)
      × (wire (with_payload status p) ≡ response status (given p))
unfolding wire payload_of copied
with_payload-IsWellFormed status none h =
    (record { versioned = refl; len_fits = h; present = refl }, refl)
with_payload-IsWellFormed status (some bytes) h =
    let all = take_all (length bytes) bytes (omega arith) in
    (
      record { versioned = refl; len_fits = h; present = ap length all },
      ap (λ t. 1 ∷ status ∷ (length bytes / 256) % 256 ∷ length bytes % 256 ∷ t) all,
    )

-- Such a response as it is left in a buffer with room.
pub encoded_payload :
    (status : ℕ) (p : Option (List ℕ)) (buf : List ℕ) (n : ℕ)
    → length (given p) < 65536
    → 4 + length (given p) ≤ n
    → n ≤ length buf
    → response_encode (with_payload status p) buf n
      ≡ (copy_to buf 0 (response status (given p)), pos (length (response status (given p))))
encoded_payload status p buf n h fits room =
    let (w, e) = with_payload-IsWellFormed status p h in
    encoded (with_payload status p) buf n w fits room
    ∙ ap₂ (λ x k. (x, pos k))
        (ap (λ t. t ++ drop (4 + length (given p)) buf) e
          ∙ ap (λ k. response status (given p) ++ drop k buf) whole
          ∙ sym (copy_to-eq buf (response status (given p)) (omega arith)))
        whole
  where
    whole : 4 + length (given p) ≡ length (response status (given p))
    whole = omega arith
