-- ===== src/Kernel.antt =====
-- What the drivers call in the kernel and what they hand back to it: error codes, the result of a
-- file operation, and the copies between kernel memory and a user process. The kernel's own code is
-- not part of the repository, so its copies are parameters with the behaviour that is documented.
pub mod Memory
pub mod Copy
pub mod Chrdev
pub mod Text
pub mod Samples
use learn_linux_drv.Prelude.{ℕ, ◌-◌, ◌≤◌, ◌≡◌, List, take, length}

-- The error codes that the drivers return, and any other that a kernel call hands them.
pub data Errno : Type 0 where
  einval eagain erestartsys efault enomem ebusy eio enodev enotty : Errno
  other : ℕ → Errno

-- `ok n` is the return value n, `err e` the return value -e.
pub data Ret : Type 0 where
  ok : ℕ → Ret
  err : Errno → Ret

-- `copy_to_user` and `copy_from_user`, for a kernel buffer with given bytes and a user address.
-- Both tell how many bytes were not copied. `from_user` also has what stands in the kernel buffer
-- afterwards, and `user_mem` what the process holds.
pub record UserCopy : Type 0 where
  pub to_user : ℕ → List ℕ → ℕ
  pub from_user : ℕ → ℕ → List ℕ × ℕ
  pub user_mem : ℕ → ℕ → List ℕ

-- The documented contract: no more bytes are left over than were asked for, the kernel buffer is
-- filled to its length (with zeros where the copy stopped), and a copy with nothing left over has
-- the process's bytes.
pub record IsUserCopy (u : UserCopy) : Type 0 where
  pub to_user_le : (a : ℕ) (xs : List ℕ) → u.to_user a xs ≤ length xs
  pub from_user_length : (a n : ℕ) → length (u.from_user a n).0 ≡ n
  pub from_user_ok : (a n : ℕ) → (u.from_user a n).1 ≡ 0 → (u.from_user a n).0 ≡ u.user_mem a n

-- What the process sees of `xs` when `left` bytes were not copied.
abbrev pub delivered : List ℕ → ℕ → List ℕ
delivered xs left = take (length xs - left) xs
