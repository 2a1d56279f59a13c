-- ===== src/GlobalMem/Seek.antt =====
-- globalmem.c: `globalmem_llseek` against the positions that it is asked for.
use learn_linux_drv.Prelude.{
  ℕ, zero, suc, ◌+◌, ◌-◌, ◌%◌, ◌^◌, ◌≤◌, ◌<◌, ◌≡◌, ◌≢◌, refl, arith, leb, if◌then◌else◌,
}
use learn_linux_drv.Prelude.Int.{ℤ, pos, negsuc, to_u64, add_s64, IsLoff}
use learn_linux_drv.Kernel.{einval, Ret, ok, err}
use learn_linux_drv.GlobalMem.{globalmem_size, llseek}

-- A position is taken over if it lies in the memory or at its end, and refused otherwise.
abbrev pub move_to : ℕ → ℕ → Ret × ℤ
move_to p target =
    if leb target globalmem_size then (ok target, pos target) else (err einval, pos p)

-- What the three ways to seek ask for, on whole numbers that do not wrap.
abbrev pub lseek : (p : ℕ) (offset orig : ℤ) → Ret × ℤ
lseek p (pos n) (pos zero) = move_to p n
lseek p (negsuc n) (pos zero) = (err einval, pos p)
lseek p (pos n) (pos (suc zero)) = move_to p (p + n)
lseek p (negsuc n) (pos (suc zero)) =
    if leb (suc n) p then move_to p (p - suc n) else (err einval, pos p)
lseek p _ _ = (err einval, pos p)

-- Where the low 32 bits of an absolute offset are the offset.
abbrev pub Fits32 : (offset orig : ℤ) → Type 0
Fits32 (pos n) (pos zero) = n < 2 ^ 32
Fits32 _ _ = Unit

-- From a position in the memory, for every offset that a `loff_t` holds and every way to seek,
-- `globalmem_llseek` does what is asked and never wraps, provided that an absolute offset is below
-- 2^32.
pub llseek-eq-lseek :
    (p : ℕ) (offset orig : ℤ)
    → p ≤ globalmem_size
    → IsLoff offset
    → Fits32 offset orig
    → llseek (pos p) offset orig ≡ lseek p offset orig
unfolding llseek to_u64 add_s64
llseek-eq-lseek p (pos n) (pos zero) h l f = ground arith
llseek-eq-lseek p (negsuc n) (pos zero) h l f = ground arith
llseek-eq-lseek p (pos n) (pos (suc zero)) h l f = ground arith
llseek-eq-lseek p (negsuc n) (pos (suc zero)) h l f = ground arith
llseek-eq-lseek p (pos n) (pos (suc (suc k))) h l f = refl
llseek-eq-lseek p (negsuc n) (pos (suc (suc k))) h l f = refl
llseek-eq-lseek p (pos n) (negsuc k) h l f = refl
llseek-eq-lseek p (negsuc n) (negsuc k) h l f = refl

-- An absolute offset from 2^32 up to the largest `loff_t` whose low 32 bits are at most 4096 is
-- accepted, at a position that is not the offset.
pub llseek_truncates :
    (f_pos : ℤ) (n : ℕ)
    → n < 2 ^ 63
    → 2 ^ 32 ≤ n
    → n % 2 ^ 32 ≤ globalmem_size
    → (llseek f_pos (pos n) (pos 0) ≡ (ok (n % 2 ^ 32), pos (n % 2 ^ 32)))
      × (pos (n % 2 ^ 32) ≢ pos n)
unfolding llseek to_u64
llseek_truncates f_pos n h lo small = ground arith
