-- ===== src/Buffer/Tests.antt =====
-- Runs of the buffer, with the bytes of tests/buffer_test.c, and instances of its theorems.
use socksv5_proxy.Base.{ℕ, ◌≡◌, refl, some, List, [], ◌∷◌, ◌++◌, arith, pos, copy_to, if◌then◌else◌}
use socksv5_proxy.Buffer.{Buffer, read, write, read_adv, write_adv, can_write, compact}
use socksv5_proxy.Buffer.Fifo.{Holds, read-Holds, write-Holds, read_adv-Holds, write_adv-Holds}

-- "HOLA" in a buffer of six bytes, with the first byte read.
abbrev hola : Buffer
hola = record {
  storage = 0x48 ∷ 0x4F ∷ 0x4C ∷ 0x41 ∷ 0 ∷ 0 ∷ [];
  limit = 6;
  read_pos = 1;
  write_pos = 4;
}

abbrev ola : List ℕ
ola = 0x4F ∷ 0x4C ∷ 0x41 ∷ []

abbrev hola-Holds : Holds hola ola
hola-Holds = record { valid = omega arith; held = refl }

write_runs :
    write hola 0x20
    ≡ some (record hola { storage = 0x48 ∷ 0x4F ∷ 0x4C ∷ 0x41 ∷ 0x20 ∷ 0 ∷ []; write_pos = 5 })
unfolding write write_adv can_write
write_runs = refl

compact_runs :
    compact hola
    ≡ record hola { storage = 0x4F ∷ 0x4C ∷ 0x41 ∷ 0x41 ∷ 0 ∷ 0 ∷ []; read_pos = 0; write_pos = 3 }
unfolding compact
compact_runs = refl

read-Holds_example :
    (b : Buffer) × (read hola ≡ some (0x4F, b)) × Holds b (0x4C ∷ 0x41 ∷ []) × (b.limit ≡ 6)
read-Holds_example = read-Holds hola-Holds

write-Holds_example :
    (b : Buffer) × (write hola 7 ≡ some b)
    × Holds b (if can_write hola then ola ++ (7 ∷ []) else ola)
    × (b.limit ≡ 6)
write-Holds_example = write-Holds 7 hola-Holds

read_adv-Holds_example :
    (b : Buffer) × (read_adv hola (pos 3) ≡ some b) × Holds b [] × (b.limit ≡ 6)
read_adv-Holds_example = read_adv-Holds 3 hola-Holds (omega arith)

write_adv-Holds_example :
    let stored = record hola { storage = copy_to hola.storage 4 (1 ∷ 2 ∷ []) } in
    (b : Buffer) × (write_adv stored (pos 2) ≡ some b)
    × Holds b (ola ++ (1 ∷ 2 ∷ []))
    × (b.limit ≡ 6)
write_adv-Holds_example = write_adv-Holds (1 ∷ 2 ∷ []) hola-Holds (omega arith)
