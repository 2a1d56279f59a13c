-- ===== src/Demo.antt =====
-- 00.mDemo/01.base_demo/1.base/kDemo.c: the module that every demo starts from. It registers two
-- character devices with a class and device nodes, and hands out one text.
pub mod WaitQueue
pub mod Timer
pub mod Rcu
pub mod Fifo
pub mod Files
pub mod Sysfs
pub mod Proc
pub mod Worker
pub mod Atomic
pub mod AllocBuf
pub mod Completion
pub mod DumpFds
pub mod Works
pub mod Semaphores
pub mod KernelFile
pub mod Platform
pub mod ContainerOf
pub mod Clock
pub mod Print
pub mod Delay
pub mod Program
pub mod Tasks
pub mod Locks
mod Tests
mod MemoryTests
mod TaskTests
mod FileTests
mod TimeTests
use learn_linux_drv.Prelude.{
  ℕ, zero, suc, ◌+◌, ◌-◌, ◌≡◌, Bool, List, [], ◌∷◌, Option, none, some, arith, length, take, ltb,
  ◌==◌, if◌then◌else◌, refl,
}
use learn_linux_drv.Kernel.{Errno, efault, Ret, ok, err, UserCopy, delivered}
use learn_linux_drv.Kernel.Chrdev.{
  Ledger, nothing_held, add_region, unregister_region, add_cdev, strike, LoadAnswers, minormask,
}

abbrev pub demo_devices : ℕ
demo_devices = 2

-- `dev_major`, what is registered, the number of classes, and the device nodes.
pub record Registered : Type 0 where
  pub dev_major : ℕ
  pub ledger : Ledger
  pub classes : ℕ
  pub nodes : List (ℕ × ℕ)

-- One round of the loop of `m_chr_init`. No result is looked at.
register_round : LoadAnswers → (idx : ℕ) → Registered → Registered
register_round a idx r =
    let live : Ledger = elim (a.cdev_add idx) [
      | none ↦ add_cdev r.dev_major idx r.ledger
      | some e ↦ r.ledger
    ] in
    record r {
      ledger = live;
      nodes = if a.device_create idx then (r.dev_major, idx) ∷ r.nodes else r.nodes;
    }

-- The loop from index `idx` on, with `n` rounds to go.
register_rounds : LoadAnswers → (idx n : ℕ) → Registered → Registered
register_rounds a idx zero r = r
register_rounds a idx (suc n) r = register_rounds a (idx + 1) n (register_round a idx r)

-- `m_chr_init`. An error of `alloc_chrdev_region` is not looked at; `none` where `class_create`
-- fails, since the next line writes through its error pointer.
unfoldable pub register : LoadAnswers → Option Registered
unfolding register_rounds register_round
register a =
    let numbered : Ledger = elim a.alloc [
      | none ↦ add_region a.major demo_devices nothing_held
      | some e ↦ nothing_held
    ] in
    if a.class_create
    then some (
        register_rounds a 0 demo_devices
          (record { dev_major = a.major; ledger = numbered; classes = 1; nodes = [] }))
    else none

destroy_rounds : (idx n : ℕ) → Registered → Registered
destroy_rounds idx zero r = r
destroy_rounds idx (suc n) r =
    destroy_rounds (idx + 1) n (record r { nodes = strike r.dev_major idx r.nodes })

-- `m_chr_exit`.
unfoldable pub unregister : Registered → Registered
unfolding destroy_rounds
unregister r =
    let r' : Registered = destroy_rounds 0 demo_devices r in
    record r' {
      classes = r'.classes - 1;
      ledger = unregister_region r'.dev_major minormask r'.ledger;
    }

-- The text that `m_chrdev_read` hands out.
abbrev pub hello : List ℕ
hello =
    b'H' ∷ b'e' ∷ b'l' ∷ b'l' ∷ b'o' ∷ b' ' ∷ b'f' ∷ b'r' ∷ b'o' ∷ b'm' ∷ b' ' ∷ b't' ∷ b'h' ∷ b'e'
    ∷ b' ' ∷ b'k' ∷ b'e' ∷ b'r' ∷ b'n' ∷ b'e' ∷ b'l' ∷ b' ' ∷ b'w' ∷ b'o' ∷ b'r' ∷ b'l' ∷ b'd'
    ∷ b'!' ∷ 10 ∷ []

-- `m_chrdev_read`: the return value and the bytes that the process got. It looks at no offset.
unfoldable pub read : UserCopy → (buf count : ℕ) → Ret × List ℕ
read u buf count =
    let n : ℕ = if ltb (length hello) count then length hello else count in
    let left : ℕ = u.to_user buf (take n hello) in
    if left == 0 then (ok n, take n hello) else (err efault, delivered (take n hello) left)

-- `m_chrdev_write`: the return value, the bytes that are put into `databuf`, whose size is 30, and
-- the index of the closing zero.
pub record Noted : Type 0 where
  pub ret : Ret
  pub databuf : List ℕ
  pub zero_at : ℕ

unfoldable pub write : UserCopy → (buf count : ℕ) → Noted
write u buf count =
    let maxdatalen : ℕ = if ltb count 30 then count else 30 in
    record { ret = ok count; databuf = (u.from_user buf maxdatalen).0; zero_at = maxdatalen }

-- Where `m_chr_init` gets device numbers and succeeds, `m_chr_exit` gives the class and the nodes
-- back, but not the device numbers, and not the character devices.
pub unregister_leaves_numbers :
    (a : LoadAnswers) (r : Registered)
    → register a ≡ some r
    → a.alloc ≡ none
    → ((unregister r).ledger.regions ≡ (a.major, demo_devices) ∷ [])
      × ((unregister r).ledger.cdevs ≡ r.ledger.cdevs)
      × ((unregister r).classes ≡ 0)
      × ((unregister r).nodes ≡ [])
unfolding register unregister
unregister_leaves_numbers a r h e = ground arith
