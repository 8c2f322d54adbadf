-- ===== src/MonClient/Encode.antt =====
-- The requests of the client as bytes.
use socksv5_proxy.Base.{
  ℕ, zero, suc, ◌+◌, ◌-◌, ◌%◌, ◌≤◌, ◌≡◌, ◌==◌, Bool-cases, inl, inr, refl, ap, ◌∙◌, arith, ltb,
  true, false, ◌>>=◌, some, List, [], ◌∷◌, ◌++◌, length, length-replicate, take, take-append, drop,
  set, copy_to, copy_to-eq, replicate, strlen, c_str, pos,
}
use socksv5_proxy.Buffer.{Buffer}
use socksv5_proxy.Buffer.Valid.{write_ptr-eq}
use socksv5_proxy.Buffer.Fifo.{Holds, write_adv-Holds}
use socksv5_proxy.MonProtocol.{MonRequest, request_encode, lens_total, args_bytes}
use socksv5_proxy.MonParser.Message.{wire}
use socksv5_proxy.MonClient.{bare_request, fill_arg, append_bytes, queue_request}

take-set : (n : ℕ) (xs : List ℕ) (v : ℕ) → take n (set xs n v) ≡ take n xs
take-set zero xs v = refl
take-set (suc n) [] v = refl
take-set (suc n) (x ∷ xs) v = ap (λ (ys : List ℕ). x ∷ ys) (take-set n xs v)

take-strlen : (s : List ℕ) → take (strlen s) s ≡ c_str s
take-strlen [] = refl
take-strlen (x ∷ xs) = elim (Bool-cases (x == 0)) [
  | inl e ↦ rw e refl
  | inr e ↦ rw e (ap (λ (ys : List ℕ). x ∷ ys) (take-strlen xs))
]

-- A row of the arguments after a text was stored in it.
row_text :
    (row s : List ℕ)
    → length row ≡ 256
    → strlen s ≤ 255
    → take (strlen s) (set (copy_to row 0 (take (strlen s) s)) (strlen s) 0) ≡ c_str s
row_text row s room short =
    let text = take-strlen s in
    let stored = copy_to-eq row (c_str s) (omega arith) in
    take-set (strlen s) (copy_to row 0 (take (strlen s) s)) 0
    ∙ rw (text, stored) (take-append (c_str s) (drop (strlen s) row))

-- Bytes that fit are appended to what waits in the buffer.
append_bytes-Holds :
    {b : Buffer} {q : List ℕ} (bytes behind : List ℕ)
    → Holds b q
    → length bytes ≤ b.limit - b.write_pos
    → (b' : Buffer) × (append_bytes b (bytes ++ behind) (pos (length bytes)) ≡ some (b', true))
      × Holds b' (q ++ bytes)
unfolding append_bytes
append_bytes-Holds {b} bytes behind h room =
    let fits : ltb (b.limit - b.write_pos) (length bytes) ≡ false = ground arith in
    let (b', e, k, l) = write_adv-Holds bytes h (omega (arith, h.valid)) in
    (b', rw (write_ptr-eq b h.valid, fits, take-append bytes behind, e) refl, k)

-- A request with the given bytes is queued whole.
pub queue_bytes :
    {b : Buffer} {q : List ℕ} (req : MonRequest) (bytes : List ℕ)
    → request_encode req (replicate 515 0) 515
      ≡ (copy_to (replicate 515 0) 0 bytes, pos (length bytes))
    → Holds b q
    → length bytes ≤ 515
    → 515 ≤ b.limit - b.write_pos
    → (b' : Buffer) × (queue_request b req ≡ some (b', true)) × Holds b' (q ++ bytes)
unfolding queue_request
queue_bytes {b} req bytes encoded h short room =
    let stored =
      copy_to-eq (replicate 515 0) bytes (omega (arith, length-replicate {A = ℕ} 515 0)) in
    let (b', e, k) =
      append_bytes-Holds bytes (drop (length bytes) (replicate 515 0)) h (omega arith) in
    (b', rw (encoded, stored) e, k)

-- The request with two texts.
abbrev row : List ℕ → List ℕ
row s = set (copy_to (replicate 256 0) 0 (take (strlen s) s)) (strlen s) 0

abbrev pub with_texts : ℕ → List ℕ → List ℕ → MonRequest
with_texts cmd s t = record (bare_request cmd 2) {
  arg_lens = strlen s % 256 ∷ strlen t % 256 ∷ [];
  args = row s ∷ row t ∷ [];
}

pub filled_two :
    (cmd : ℕ) (s t : List ℕ)
    → strlen s ≤ 255
    → strlen t ≤ 255
    → (fill_arg (bare_request cmd 2) 0 s >>= λ req. fill_arg req 1 t) ≡ some (with_texts cmd s t)
unfolding fill_arg
filled_two cmd s t hs ht =
    let a : ltb 255 (strlen s) ≡ false = ground arith in
    let b : ltb 255 (strlen t) ≡ false = ground arith in rw (a, b) refl

pub encode_two :
    (cmd : ℕ) (s t : List ℕ)
    → strlen s ≤ 255
    → strlen t ≤ 255
    → request_encode (with_texts cmd s t) (replicate 515 0) 515 ≡ (
      copy_to (replicate 515 0) 0 (wire cmd (c_str s ∷ c_str t ∷ [])),
      pos (length (wire cmd (c_str s ∷ c_str t ∷ []))),
    )
unfolding request_encode lens_total args_bytes
encode_two cmd s t hs ht =
    let ls : strlen s % 256 ≡ strlen s = omega arith in
    let lt : strlen t % 256 ≡ strlen t = omega arith in
    let fits : ltb 515 (3 + 2 + (strlen s + (strlen t + 0))) ≡ false = ground arith in
    rw
      (
        ls,
        lt,
        fits,
        row_text (replicate 256 0) s (length-replicate {A = ℕ} 256 0) hs,
        row_text (replicate 256 0) t (length-replicate {A = ℕ} 256 0) ht,
      )
      refl

abbrev pub with_text : ℕ → List ℕ → MonRequest
with_text cmd s = record (bare_request cmd 1) {
  arg_lens = strlen s % 256 ∷ 0 ∷ [];
  args = row s ∷ replicate 256 0 ∷ [];
}

pub filled_one :
    (cmd : ℕ) (s : List ℕ)
    → strlen s ≤ 255
    → fill_arg (bare_request cmd 1) 0 s ≡ some (with_text cmd s)
unfolding fill_arg
filled_one cmd s hs = let a : ltb 255 (strlen s) ≡ false = ground arith in rw a refl

pub encode_one :
    (cmd : ℕ) (s : List ℕ)
    → strlen s ≤ 255
    → request_encode (with_text cmd s) (replicate 515 0) 515 ≡ (
      copy_to (replicate 515 0) 0 (wire cmd (c_str s ∷ [])),
      pos (length (wire cmd (c_str s ∷ []))),
    )
unfolding request_encode lens_total args_bytes
encode_one cmd s hs =
    let ls : strlen s % 256 ≡ strlen s = omega arith in
    let fits : ltb 515 (3 + 1 + (strlen s + 0)) ≡ false = ground arith in
    rw (ls, fits, row_text (replicate 256 0) s (length-replicate {A = ℕ} 256 0) hs) refl

pub encode_bare :
    (cmd : ℕ)
    → request_encode (bare_request cmd 0) (replicate 515 0) 515
      ≡ (copy_to (replicate 515 0) 0 (wire cmd []), pos (length (wire cmd [])))
unfolding request_encode lens_total args_bytes
encode_bare cmd = refl
