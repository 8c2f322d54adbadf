-- ===== src/Buffer/Valid.antt =====
-- The invariant of buffer.h, R <= W <= limit, with the storage large enough for the limit.
use socksv5_proxy.Base.{some, ◌≡◌, ℕ, ◌-◌, ◌≤◌, List, length, length-copy_to, take, drop, arith}
use socksv5_proxy.Buffer.{read_ptr, write_ptr, Buffer, reset, init, compact}

pub record IsValid (b : Buffer) : Type 0 where
  pub order : b.read_pos ≤ b.write_pos
  pub bound : b.write_pos ≤ b.limit
  pub room : b.limit ≤ length b.storage

pub init-IsValid : (b : Buffer) (n : ℕ) (m : List ℕ) → n ≤ length m → IsValid (init b n m)
unfolding init
init-IsValid b n m h = omega arith

pub reset-IsValid : (b : Buffer) → IsValid b → IsValid (reset b)
unfolding reset
reset-IsValid b v = omega arith

pub compact-IsValid : (b : Buffer) → IsValid b → IsValid (compact b)
unfolding compact
compact-IsValid b v = ground (
  arith,
  length-copy_to b.storage 0 (take (b.write_pos - b.read_pos) (drop b.read_pos b.storage)),
)

pub write_ptr-eq :
    (b : Buffer) → IsValid b → write_ptr b ≡ some (b.write_pos, b.limit - b.write_pos)
unfolding write_ptr
write_ptr-eq b v = ground arith

pub read_ptr-eq :
    (b : Buffer) → IsValid b → read_ptr b ≡ some (b.read_pos, b.write_pos - b.read_pos)
unfolding read_ptr
read_ptr-eq b v = ground arith
