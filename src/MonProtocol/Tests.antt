-- ===== src/MonProtocol/Tests.antt =====
-- Instances of the theorems on the monitoring protocol.
use socksv5_proxy.Base.{ℕ, ◌≤◌, ◌<◌, ◌≡◌, refl, some, [], ◌∷◌, ◌+◌, pos, negsuc, arith, length}
use socksv5_proxy.MonProtocol.{
  MonResponse, response_encode, response_decode, copied, decode_ok, decode_need_more,
}
use socksv5_proxy.MonProtocol.Response.{payload_of, decode-encode, encode_too_small}

abbrev answer : MonResponse
answer = record { version = 1; status = 0; payload_len = 2; payload = some (8 ∷ 9 ∷ 10 ∷ []) }

answer_present : length (payload_of answer) ≡ 2
unfolding payload_of copied
answer_present = refl

decode-encode_example :
    let (sent, written) = response_encode answer (0 ∷ 0 ∷ 0 ∷ 0 ∷ 0 ∷ 0 ∷ 0 ∷ []) 7 in
    (written ≡ pos (4 + answer.payload_len))
    × ((m : ℕ) → m < 4 + answer.payload_len → response_decode sent m ≡ decode_need_more)
    × ((m : ℕ)
        → 4 + answer.payload_len ≤ m
        → (out : MonResponse) × (response_decode sent m ≡ decode_ok out (4 + answer.payload_len))
          × (out.status ≡ answer.status)
          × (out.payload_len ≡ answer.payload_len)
          × (payload_of out ≡ payload_of answer))
decode-encode_example =
    decode-encode answer (0 ∷ 0 ∷ 0 ∷ 0 ∷ 0 ∷ 0 ∷ 0 ∷ []) 7
      (record { versioned = refl; len_fits = omega arith; present = answer_present }) (omega arith)
      (omega arith)

encode_too_small_example :
    response_encode answer (0 ∷ 0 ∷ 0 ∷ 0 ∷ []) 4 ≡ (0 ∷ 0 ∷ 0 ∷ 0 ∷ [], negsuc 0)
encode_too_small_example = encode_too_small answer (0 ∷ 0 ∷ 0 ∷ 0 ∷ []) 4 (omega arith)
