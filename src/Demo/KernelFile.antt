-- ===== src/Demo/KernelFile.antt =====
-- 00.mDemo/03.file_sysfs/1.kernel_file_opt/kDemo.c: a file that the driver opens, reads and writes
-- itself, by one pointer `fp` for all openings of the device. A file is named by a number, and the
-- kernel's answers are arguments.
pub mod Single
pub mod Sharing
pub mod Buffer
use learn_linux_drv.Prelude.{
  ℕ, ◌+◌, ◌-◌, ◌≤◌, ◌<◌, ◌≡◌, ◌⊎◌, inl, inr, Bool, true, false, List, [], ◌∷◌, length, overwrite,
  update, if◌then◌else◌,
}
use learn_linux_drv.Kernel.{Errno, other, Ret, ok, err}
use learn_linux_drv.Kernel.Memory.{filled}

-- What `fp` holds: nothing yet, the error pointer of a `filp_open` that failed, or a file.
pub data Pointer : Type 0 where
  null : Pointer
  error_pointer : Errno → Pointer
  file_at : ℕ → Pointer

-- The driver's pointer and its `m_buf1`, the files that `filp_open` has opened and nothing has closed,
-- and whether `fp` was ever used while it did not point to one of them.
pub record State : Type 0 where
  pub fp : Pointer
  pub m_buf1 : List ℕ
  pub opened : ℕ → Bool
  pub fault : Bool

abbrev pub m_buf1_size : ℕ
m_buf1_size = 32

-- `m_buf`, with its closing zero.
abbrev pub m_buf : List ℕ
m_buf = b'f' ∷ b'r' ∷ b'o' ∷ b'm' ∷ b' ' ∷ b'k' ∷ b'e' ∷ b'r' ∷ b'n' ∷ b'e' ∷ b'l' ∷ 10 ∷ 0 ∷ []

abbrev pub eperm : Errno
eperm = other 1

abbrev pub unused : State
unused = record { fp = null; m_buf1 = filled 0 m_buf1_size; opened = λ f. false; fault = false }

-- Whether a pointer points to an open file.
pub is_live : Pointer → (ℕ → Bool) → Bool
is_live null opened = false
is_live (error_pointer e) opened = false
is_live (file_at f) opened = opened f

-- A call of the kernel that follows `fp`.
pub follow : State → State
follow s = if is_live s.fp s.opened then s else record s { fault = true }

-- `m_chrdev_open`, by the answer of `filp_open`.
unfoldable pub open_device : Errno ⊎ ℕ → State → Ret × State
open_device (inl e) s = (err eperm, record s { fp = error_pointer e })
open_device (inr f) s = (ok 0, record s { fp = file_at f; opened = update s.opened f true })

-- `filp_close`.
pub filp_close : Pointer → State → State
filp_close null s = record s { fault = true }
filp_close (error_pointer e) s = record s { fault = true }
filp_close (file_at f) s =
    if s.opened f then record s { opened = update s.opened f false } else record s { fault = true }

-- `m_chrdev_release`.
unfoldable pub release_device : State → Ret × State
unfolding filp_close
release_device s = (ok 0, filp_close s.fp s)

-- `m_chrdev_read`, by the answer of `kernel_read`: an error, or the bytes that it puts to the start of
-- `m_buf1`.
unfoldable pub read_device : Errno ⊎ List ℕ → (count : ℕ) → State → Ret × State
unfolding follow is_live
read_device (inl e) count s = (ok count, follow s)
read_device (inr bytes) count s =
    (ok count, record (follow s) { m_buf1 = overwrite s.m_buf1 0 bytes })

-- `m_chrdev_write`. It looks at nothing that `kernel_write` answers.
unfoldable pub write_device : (count : ℕ) → State → Ret × State
unfolding follow is_live
write_device count s = (ok count, follow s)

-- The driver, and how many openings of the device are not released yet.
pub record System : Type 0 where
  pub st : State
  pub users : ℕ

abbrev pub loaded : System
loaded = record { st = unused; users = 0 }

-- What processes make the driver do. A `filp_open` that succeeds hands out a file that is not open,
-- `kernel_read` reads no more bytes than it is asked for, and an opening of the device that fails is
-- not released.
pub data Step (s : System) : System → Type 0 where
  opens :
      (f : ℕ)
      → s.st.opened f ≡ false
      → Step s (record { st = (open_device (inr f) s.st).1; users = s.users + 1 })
  fails_open : (e : Errno) → Step s (record s { st = (open_device (inl e) s.st).1 })
  reads :
      (bytes : List ℕ) (count : ℕ)
      → 0 < s.users
      → length bytes ≤ length m_buf
      → Step s (record s { st = (read_device (inr bytes) count s.st).1 })
  fails_read :
      (e : Errno) (count : ℕ)
      → 0 < s.users
      → Step s (record s { st = (read_device (inl e) count s.st).1 })
  writes : (count : ℕ) → 0 < s.users → Step s (record s { st = (write_device count s.st).1 })
  releases : 0 < s.users → Step s (record { st = (release_device s.st).1; users = s.users - 1 })

-- Whether a step is an opening of the device.
unfoldable pub is_opening : {s t : System} → Step s t → Bool
is_opening (opens f h) = true
is_opening (fails_open e) = true
is_opening (reads bytes count u h) = false
is_opening (fails_read e count u) = false
is_opening (writes count u) = false
is_opening (releases u) = false

-- A step with which no opening begins while another one lasts.
abbrev pub Alone : System → System → Type 0
Alone s t = (step : Step s t) × (is_opening step ≡ true → s.users ≡ 0)
