-- ===== src/Kernel/Copy.antt =====
-- `memcpy` within one block of memory. Its contract speaks of regions that do not overlap; what it
-- does with others is left to the architecture.
use learn_linux_drv.Prelude.{ℕ, ◌+◌, ◌≤◌, ◌≡◌, ◌⊎◌, List, length, slice, overwrite}

-- `memcpy(mem + dst, mem + src, n)`: the block afterwards.
abbrev pub Memcpy : Type 0
Memcpy = (mem : List ℕ) (dst src n : ℕ) → List ℕ

-- The documented contract.
pub record IsMemcpy (memcpy : Memcpy) : Type 0 where
  pub length-memcpy :
      (mem : List ℕ) (dst src n : ℕ)
      → dst + n ≤ length mem
      → src + n ≤ length mem
      → length (memcpy mem dst src n) ≡ length mem
  pub apart :
      (mem : List ℕ) (dst src n : ℕ)
      → dst + n ≤ length mem
      → src + n ≤ length mem
      → (dst + n ≤ src) ⊎ (src + n ≤ dst)
      → memcpy mem dst src n ≡ overwrite mem dst (slice mem src n)
