-- ===== src/Auth/Reply.antt =====
-- The reply to credentials.
use socksv5_proxy.Base.{ℕ, ◌-◌, ◌≤◌, ◌≡◌, refl, some, List, [], ◌∷◌, ◌++◌, pos, arith, ltb, false}
use socksv5_proxy.Buffer.{Buffer}
use socksv5_proxy.Buffer.Valid.{write_ptr-eq}
use socksv5_proxy.Buffer.Fifo.{Holds, write_adv-Holds}
use socksv5_proxy.Auth.{marshall}

-- With room for two bytes the version and the status are appended to what waits in the buffer.
pub marshall-Holds :
    {b : Buffer} {q : List ℕ} (status : ℕ)
    → Holds b q
    → 2 ≤ b.limit - b.write_pos
    → (b' : Buffer) × (marshall b status ≡ some (b', pos 2)) × Holds b' (q ++ (1 ∷ status ∷ []))
unfolding marshall
marshall-Holds {b} status h room =
    let fits : ltb (b.limit - b.write_pos) 2 ≡ false = ground arith in
    let (b', e, k, l) = write_adv-Holds (1 ∷ status ∷ []) h (omega (arith, h.valid)) in
    (b', rw (write_ptr-eq b h.valid, fits, e) refl, k)
