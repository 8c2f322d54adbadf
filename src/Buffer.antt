-- ===== src/Buffer.antt =====
-- shared/buffer.c: a byte buffer over storage that the caller owns, with a read and a write
-- pointer. Pointers are offsets from `data`; a failed `assert` or an access outside the storage
-- is `none`.
pub mod Valid
pub mod Fifo
mod Tests
use socksv5_proxy.Base.{
  ℕ, ◌+◌, ◌-◌, Bool, true, false, Option, none, some, ◌>>=◌, List, get_elem?, set, take, drop,
  copy_to, ltb, leb, ◌==◌, if◌then◌else◌, ℤ, pos, negsuc,
}

-- `storage` is the memory behind `data`.
pub record Buffer : Type 0 where
  pub storage : List ℕ
  pub limit : ℕ
  pub read_pos : ℕ
  pub write_pos : ℕ

unfoldable pub reset : Buffer → Buffer
reset b = record b { read_pos = 0; write_pos = 0 }

pub init : Buffer → ℕ → List ℕ → Buffer
unfolding reset
init b n memory = let b' = reset (record b { storage = memory }) in record b' { limit = n }

unfoldable pub can_write : Buffer → Bool
can_write b = ltb b.write_pos b.limit

unfoldable pub can_read : Buffer → Bool
can_read b = ltb b.read_pos b.write_pos

-- The pointer and `*nbyte`.
unfoldable pub write_ptr : Buffer → Option (ℕ × ℕ)
write_ptr b = if leb b.write_pos b.limit then some (b.write_pos, b.limit - b.write_pos) else none

unfoldable pub read_ptr : Buffer → Option (ℕ × ℕ)
read_ptr b =
    if leb b.read_pos b.write_pos then some (b.read_pos, b.write_pos - b.read_pos) else none

unfoldable pub write_adv : Buffer → ℤ → Option Buffer
write_adv b (pos n) =
    let b' = record b { write_pos = b.write_pos + n } in
    if leb b'.write_pos b'.limit then some b' else none
write_adv b (negsuc n) = some b

-- memmove(data, read, n) copies the `n` bytes at `read` to the front.
unfoldable pub compact : Buffer → Buffer
compact b =
    if b.read_pos == 0
    then b
    else if b.read_pos == b.write_pos
    then record b { read_pos = 0; write_pos = 0 }
    else (let n = b.write_pos - b.read_pos in
        record b {
          storage = copy_to b.storage 0 (take n (drop b.read_pos b.storage));
          read_pos = 0;
          write_pos = n;
        })

unfoldable pub read_adv : Buffer → ℤ → Option Buffer
unfolding compact
read_adv b (pos n) =
    let b' = record b { read_pos = b.read_pos + n } in
    if leb b'.read_pos b'.write_pos
    then some (if b'.read_pos == b'.write_pos then compact b' else b')
    else none
read_adv b (negsuc n) = some b

pub read : Buffer → Option (ℕ × Buffer)
read b =
    if can_read b
    then (do ret ← get_elem? b.storage b.read_pos; b' ← read_adv b (pos 1); some (ret, b'))
    else some (0, b)

pub write : Buffer → ℕ → Option Buffer
write b c =
    if can_write b
    then write_adv (record b { storage = set b.storage b.write_pos c }) (pos 1)
    else some b
