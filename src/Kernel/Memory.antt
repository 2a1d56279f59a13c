-- ===== src/Kernel/Memory.antt =====
-- Blocks of kernel memory that are filled with one byte (`memset`, `kzalloc`). They are shut, so
-- that a block of thousands of bytes stays one call.
use learn_linux_drv.Prelude.{ℕ, ◌≡◌, List, length, replicate, length-replicate}

-- `memset(p, byte, n)` on a fresh block.
unfoldable pub filled : ℕ → ℕ → List ℕ
filled byte n = replicate n byte

pub length-filled : (byte n : ℕ) → length (filled byte n) ≡ n
unfolding filled
length-filled byte n = length-replicate n byte
