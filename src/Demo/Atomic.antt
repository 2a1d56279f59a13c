-- ===== src/Demo/Atomic.antt =====
-- 00.mDemo/02.base/2.atomic_ops/kDemo.c: atomic operations on three shared words, and a spinlock made
-- of `atomic_cmpxchg`, by any number of processes that call the ioctl at the same time.
pub mod Lock
use learn_linux_drv.Prelude.{
  ℕ, ◌+◌, ◌-◌, ◌%◌, ◌^◌, ◌≡◌, ◌≢◌, Bool, true, false, not, ◌&&◌, ◌||◌, ◌==◌, if◌then◌else◌, update,
}

-- The shared words. `counter` is an int, given by its 32 bits, which wraps; `bitflags` is given bit
-- by bit, from bit 0 on.
pub record Words : Type 0 where
  pub counter : ℕ
  pub bitflags : ℕ → Bool
  pub spinlock : ℕ

-- The initial values: 0, 0b1100 and 0.
abbrev pub initial : Words
initial = record { counter = 0; bitflags = λ k. k == 2 || k == 3; spinlock = 0 }

-- `atomic_cmpxchg`: the old value, and the value afterwards.
abbrev pub cmpxchg : (word expected new : ℕ) → ℕ × ℕ
cmpxchg word expected new = (word, if word == expected then new else word)

-- The atomic operations in front of the spinlock, in their order, `arithmetic_demo`, `bitwise_demo`,
-- and `cas_demo`.
pub data Op : Type 0 where
  add_five sub_three inc dec or_0011 and_1110 xor_0101 cas : Op

unfoldable pub apply : Op → Words → Words
apply add_five w = record w { counter = (w.counter + 5) % 2 ^ 32 }
apply sub_three w = record w { counter = (w.counter + (2 ^ 32 - 3)) % 2 ^ 32 }
apply inc w = record w { counter = (w.counter + 1) % 2 ^ 32 }
apply dec w = record w { counter = (w.counter + (2 ^ 32 - 1)) % 2 ^ 32 }
apply or_0011 w = record w { bitflags = λ k. w.bitflags k || k == 0 || k == 1 }
apply and_1110 w = record w { bitflags = λ k. w.bitflags k && (k == 1 || k == 2 || k == 3) }
apply xor_0101 w = record w {
  bitflags = λ k. if k == 0 || k == 2 then not (w.bitflags k) else w.bitflags k;
}
apply cas w = record w { counter = (cmpxchg w.counter 0 100).1 }

-- Where a process stands: outside of the ioctl, before an operation, in the loop of `spinlock_demo`,
-- in the critical section, before and after `atomic_inc`.
pub data Pc : Type 0 where
  outside : Pc
  before : Op → Pc
  spinning : Pc
  entered : Pc
  leaving : Pc

-- `m_chrdev_ioctl` up to the loop.
unfoldable pub behind : Op → Pc
behind add_five = before sub_three
behind sub_three = before inc
behind inc = before dec
behind dec = before or_0011
behind or_0011 = before and_1110
behind and_1110 = before xor_0101
behind xor_0101 = before cas
behind cas = spinning

pub record System : Type 0 where
  pub words : Words
  pub pc : ℕ → Pc

abbrev pub start : System
start = record { words = initial; pc = λ i. outside }

-- Process `i` goes on to `p`.
abbrev pub goto : (i : ℕ) → Pc → System → System
goto i p s = record s { pc = update s.pc i p }

-- One atomic operation of a process. What `memory_barrier_demo` does is its own.
pub data Step (s : System) : System → Type 0 where
  calls : (i : ℕ) → s.pc i ≡ outside → Step s (goto i (before add_five) s)
  operates :
      (i : ℕ) (op : Op)
      → s.pc i ≡ before op
      → Step s (goto i (behind op) (record s { words = apply op s.words }))
  -- `atomic_cmpxchg(&spinlock, 0, 1)`
  acquires :
      (i : ℕ)
      → s.pc i ≡ spinning
      → (cmpxchg s.words.spinlock 0 1).0 ≡ 0
      → Step s (
          goto i entered
            (record s { words = record s.words { spinlock = (cmpxchg s.words.spinlock 0 1).1 } }))
  spins :
      (i : ℕ)
      → s.pc i ≡ spinning
      → (cmpxchg s.words.spinlock 0 1).0 ≢ 0
      → Step s (record s { words = record s.words { spinlock = (cmpxchg s.words.spinlock 0 1).1 } })
  works :
      (i : ℕ) → s.pc i ≡ entered → Step s (goto i leaving (record s { words = apply inc s.words }))
  -- `atomic_set(&spinlock, 0)`
  releases :
      (i : ℕ)
      → s.pc i ≡ leaving
      → Step s (goto i outside (record s { words = record s.words { spinlock = 0 } }))

abbrev pub in_section : Pc → Bool
in_section outside = false
in_section (before op) = false
in_section spinning = false
in_section entered = true
in_section leaving = true
