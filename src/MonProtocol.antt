-- ===== src/MonProtocol.antt =====
-- shared/mon_protocol.c: the requests and responses of the monitoring protocol on the wire.
mod Tests
pub mod Response
use socksv5_proxy.Base.{
  ℕ, zero, suc, ◌+◌, ◌*◌, ◌/◌, ◌%◌, Bool, true, false, Option, none, some, ltb, ◌==◌, not,
  if◌then◌else◌, List, [], ◌∷◌, ◌++◌, take, drop, get_or, ◌^◌, copy_to, length, ℤ, pos, negsuc,
}

abbrev pub mon_version : ℕ
mon_version = 0x01

abbrev pub mon_max_arg_len : ℕ
mon_max_arg_len = 255

abbrev pub mon_max_args : ℕ
mon_max_args = 2

abbrev pub mon_response_header_len : ℕ
mon_response_header_len = 4

-- `arg_lens` is `uint8_t[2]` and `args` is `char[2][256]`; the other fields are uint8_t.
pub record MonRequest : Type 0 where
  pub version : ℕ
  pub cmd : ℕ
  pub nargs : ℕ
  pub arg_lens : List ℕ
  pub args : List (List ℕ)

-- `payload` is the memory behind the pointer; `payload_len` is a uint16_t.
pub record MonResponse : Type 0 where
  pub version : ℕ
  pub status : ℕ
  pub payload_len : ℕ
  pub payload : Option (List ℕ)

-- The sum of the first `n` argument lengths.
unfoldable pub lens_total : ℕ → List ℕ → ℕ
lens_total zero lens = 0
lens_total (suc n) [] = 0
lens_total (suc n) (l ∷ lens) = l + lens_total n lens

-- The bytes that the second loop of `mon_request_encode` copies.
unfoldable pub args_bytes : ℕ → List ℕ → List (List ℕ) → List ℕ
args_bytes zero lens args = []
args_bytes (suc n) [] args = []
args_bytes (suc n) (l ∷ lens) [] = []
args_bytes (suc n) (l ∷ lens) (a ∷ args) = take l a ++ args_bytes n lens args

-- The buffer after the call, and the number of bytes written or -1. The bytes are stored one
-- behind the other from the start of the buffer.
unfoldable pub request_encode : MonRequest → List ℕ → ℕ → List ℕ × ℤ
unfolding lens_total args_bytes
request_encode req buf buf_len =
    let total = 3 + req.nargs + lens_total req.nargs req.arg_lens in
    let bytes =
      req.version ∷ req.cmd ∷ req.nargs ∷ take req.nargs req.arg_lens
      ++ args_bytes req.nargs req.arg_lens req.args in
    if ltb buf_len total then (buf, negsuc 0) else (copy_to buf 0 bytes, pos (length bytes))

-- The bytes that `memcpy` copies, none from a null pointer.
pub copied : Option (List ℕ) → ℕ → List ℕ
copied none n = []
copied (some payload) n = take n payload

pub response_encode : MonResponse → List ℕ → ℕ → List ℕ × ℤ
response_encode resp buf buf_len =
    let total = mon_response_header_len + resp.payload_len in
    let header =
      resp.version
      ∷ resp.status
      ∷ (resp.payload_len / 2 ^ 8) % 2 ^ 8
      ∷ resp.payload_len % 2 ^ 8
      ∷ [] in
    let body = if ltb 0 resp.payload_len then copied resp.payload resp.payload_len else [] in
    let bytes = header ++ body in
    if ltb buf_len total then (buf, negsuc 0) else (copy_to buf 0 bytes, pos (length bytes))

-- MON_DECODE_OK carries `*out` and `*consumed`.
pub data DecodeResult : Type 0 where
  decode_ok : MonResponse → ℕ → DecodeResult
  decode_need_more decode_error : DecodeResult

pub response_decode : List ℕ → ℕ → DecodeResult
response_decode buf len =
    let payload_len = (get_or buf 2 0 * 2 ^ 8 + get_or buf 3 0) % 2 ^ 16 in
    let total = mon_response_header_len + payload_len in
    if ltb len mon_response_header_len
    then decode_need_more
    else if not (get_or buf 0 0 == mon_version)
    then decode_error
    else if ltb len total
    then decode_need_more
    else decode_ok
        (record {
          version = get_or buf 0 0;
          status = get_or buf 1 0;
          payload_len = payload_len;
          payload = if ltb 0 payload_len then some (drop mon_response_header_len buf) else none;
        })
        total
