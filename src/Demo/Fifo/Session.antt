-- ===== src/Demo/Fifo/Session.antt =====
-- 02.base/4.fifo/kDemo.c: the buffer of `cls_fifo`, which `m_chrdev_open` allocates and
-- `m_chrdev_release` frees. All openings of the device share it.
use learn_linux_drv.Prelude.{
  ℕ, zero, suc, ◌≡◌, ◌≢◌, update_self, Bool, true, false, Option, none, some, refl, arith,
  if◌then◌else◌, update,
}
use learn_linux_drv.Kernel.{Ret, ok}

-- The buffer that `cls_fifo` points to, the buffers that are allocated, and whether the FIFO was used
-- without one.
pub record Buffers : Type 0 where
  pub buffer : Option ℕ
  pub allocated : ℕ → Bool
  pub fault : Bool

abbrev pub has_buffer : Buffers → Bool
has_buffer s = elim s.buffer [ none ↦ false | some b ↦ s.allocated b ]

-- `m_chrdev_open`, by the buffer that `kfifo_alloc` finds. It returns 0 in any case.
unfoldable pub open_fifo : Option ℕ → Buffers → Ret × Buffers
open_fifo none s = (ok 0, record s { buffer = none })
open_fifo (some b) s = (ok 0, record s { buffer = some b; allocated = update s.allocated b true })

-- `m_chrdev_release`. `kfifo_free` frees the buffer, if there is one, and forgets it.
unfoldable pub release_fifo : Buffers → Ret × Buffers
release_fifo s = elim s.buffer [
  | none ↦ (ok 0, s)
  | some b ↦ (ok 0, record s { buffer = none; allocated = update s.allocated b false })
]

-- What `m_chrdev_ioctl` needs for its nodes: `kfifo_put` stores into the buffer.
unfoldable pub use_fifo : Buffers → Buffers
use_fifo s = if has_buffer s then s else record s { fault = true }

unfoldable pub use_times : (n : ℕ) → Buffers → Buffers
use_times zero s = s
use_times (suc n) s = use_times n (use_fifo s)

use_times-has_buffer : (n : ℕ) (s : Buffers) → has_buffer s ≡ true → use_times n s ≡ s
unfolding use_times use_fifo
use_times-has_buffer zero s h = refl
use_times-has_buffer (suc n) s h = rw h (use_times-has_buffer n s h)

-- A session that is alone and for which there is memory, with any number of ioctls: the FIFO always has
-- its buffer, and the buffer is given back.
pub session_balanced :
    (n b c : ℕ) (s : Buffers)
    → s.allocated b ≡ false
    → let t = (release_fifo (use_times n (open_fifo (some b) s).1)).1 in
      (t.allocated c ≡ s.allocated c) × (t.fault ≡ s.fault)
unfolding release_fifo open_fifo
session_balanced n b c s fresh =
    rw
      (use_times-has_buffer n (record s { buffer = some b; allocated = update s.allocated b true })
        (update_self s.allocated b true))
      (ground (arith, fresh))

-- Where there is no memory, `m_chrdev_open` succeeds all the same, and the next ioctl stores through a
-- null pointer.
pub failed_alloc_faults : (s : Buffers) → (use_fifo (open_fifo none s).1).fault ≡ true
unfolding use_fifo open_fifo
failed_alloc_faults s = refl

-- The buffer of an opening that another one overlaps is never freed, and when one of the two is
-- released, the ioctls of the other have no buffer.
pub overlap_leaks :
    (b c : ℕ) (s : Buffers)
    → b ≢ c
    → let t = (release_fifo (open_fifo (some c) (open_fifo (some b) s).1).1).1 in
      (t.allocated b ≡ true) × ((release_fifo t).1.allocated b ≡ true) × ((use_fifo t).fault ≡ true)
unfolding use_fifo release_fifo open_fifo
overlap_leaks b c s ne = ground (arith, ne)
