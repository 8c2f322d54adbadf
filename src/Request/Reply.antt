-- ===== src/Request/Reply.antt =====
-- The reply to a request.
use socksv5_proxy.Base.{
  ℕ, ◌+◌, ◌-◌, ◌≤◌, ◌≡◌, ◌==◌, refl, Bool-cases, inl, inr, false, Option, none, some, List, ◌∷◌,
  ◌++◌, pos, arith, ltb, leb, length, length-append, if◌then◌else◌,
}
use socksv5_proxy.Buffer.{Buffer}
use socksv5_proxy.Buffer.Valid.{write_ptr-eq}
use socksv5_proxy.Buffer.Fifo.{Holds, write_adv-Holds}
use socksv5_proxy.Request.{
  SockAddr, inet, inet6, other_family, marshall_reply, write_reply, reply_fields,
}

-- The sizes of the fields of an address.
pub IsAddress : SockAddr → Type 0
IsAddress (inet addr port) = (length addr ≡ 4) × (length port ≡ 2)
IsAddress (inet6 addr port) = (length addr ≡ 16) × (length port ≡ 2)
IsAddress other_family = Unit

unfoldable pub AllAddress : Option SockAddr → Type 0
AllAddress none = Unit
AllAddress (some a) = IsAddress a

abbrev Sized : ℕ × List ℕ × List ℕ → Type 0
Sized (atyp, addr, port) = (length addr ≡ (if atyp == 4 then 16 else 4)) × (length port ≡ 2)

reply_fields-Sized : (a : Option SockAddr) (len : ℕ) → AllAddress a → Sized (reply_fields a len)
unfolding reply_fields AllAddress IsAddress
reply_fields-Sized none len h = (refl, refl)
reply_fields-Sized (some other_family) len h = (refl, refl)
reply_fields-Sized (some (inet addr port)) len (la, lp) = elim (Bool-cases (leb 16 len)) [
  | inl e ↦ rw e (la, lp)
  | inr e ↦ rw e (refl, refl)
]
reply_fields-Sized (some (inet6 addr port)) len (la, lp) = elim (Bool-cases (leb 28 len)) [
  | inl e ↦ rw e (la, lp)
  | inr e ↦ rw e (refl, refl)
]

write_reply-Holds :
    {b : Buffer} {q : List ℕ} (reply : ℕ) (f : ℕ × List ℕ × List ℕ)
    → Sized f
    → Holds b q
    → 22 ≤ b.limit - b.write_pos
    → (b' : Buffer) × (n : ℕ) × (write_reply b reply f ≡ some (b', pos n))
      × Holds b' (q ++ (5 ∷ reply ∷ 0 ∷ f.0 ∷ f.1 ++ f.2))
unfolding write_reply
write_reply-Holds {b} {q} reply (atyp, addr, port) (la, lp) h room =
    let addr_len : ℕ = if atyp == 4 then 16 else 4 in
    let bytes : List ℕ = 5 ∷ reply ∷ 0 ∷ atyp ∷ addr ++ port in
    let size : length bytes ≡ 4 + addr_len + 2 = omega (arith, length-append addr port, la, lp) in
    let small : addr_len ≤ 16 = ground arith in
    let fits : ltb (b.limit - b.write_pos) (4 + addr_len + 2) ≡ false = ground arith in
    let (b', e, k, l) = write_adv-Holds bytes h (omega (arith, h.valid, size, small)) in
    (b', 4 + addr_len + 2, rw (write_ptr-eq b h.valid, fits, ← size, e) refl, k)

-- With room for the longest reply, the version, the code and what follows are appended to what
-- waits in the buffer.
pub marshall_reply-Holds :
    {b : Buffer} {q : List ℕ} (reply : ℕ) (a : Option SockAddr) (len : ℕ)
    → AllAddress a
    → Holds b q
    → 22 ≤ b.limit - b.write_pos
    → (b' : Buffer) × (n : ℕ) × (tail : List ℕ) × (marshall_reply b reply a len ≡ some (b', pos n))
      × Holds b' (q ++ (5 ∷ reply ∷ 0 ∷ tail))
unfolding marshall_reply
marshall_reply-Holds reply a len sound h room =
    let f = reply_fields a len in
    let (b', n, e, k) = write_reply-Holds reply f (reply_fields-Sized a len sound) h room in
    (b', n, f.0 ∷ f.1 ++ f.2, e, k)
