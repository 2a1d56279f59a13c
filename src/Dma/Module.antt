-- ===== src/Dma/Module.antt =====
-- dma_base/kDemo.c: opening and closing a device, `m_chrdev_read` and `m_chrdev_write`, and loading
-- and unloading the module.
use learn_linux_drv.Prelude.{
  ℕ, ◌+◌, ◌-◌, ◌%◌, ◌^◌, true, false, List, [], ◌∷◌, Option, none, some, length, take, ltb, leb,
  ◌==◌, if◌then◌else◌, update,
}
use learn_linux_drv.Kernel.{efault, enodev, Ret, ok, err, UserCopy, delivered}
use learn_linux_drv.Dma.{
  coherent, mapping, table, sg_mapping, pool, pool_block, release, kfree, Held, DeviceData, State,
  fresh_data,
}
use learn_linux_drv.Dma.Sg.{free_pages, pages_of, array_of}

abbrev pub max_dev : ℕ
max_dev = 2

-- `atomic_inc` and `atomic_dec`, on a 32-bit pattern.
unfoldable pub atomic_inc : ℕ → ℕ
atomic_inc n = (n + 1) % 2 ^ 32

unfoldable pub atomic_dec : ℕ → ℕ
atomic_dec n = (n + 2 ^ 32 - 1) % 2 ^ 32

-- `m_chrdev_data`.
abbrev pub Devices : Type 0
Devices = ℕ → State

abbrev pub with_count : State → ℕ → State
with_count st n = record st { dd = record (st.dd) { ioctl_count = n } }

-- `m_chrdev_open`, with the index that `private_data` gets.
unfoldable pub open_dev : (minor : ℕ) → Devices → (Ret × Option ℕ) × Devices
open_dev minor devs = if leb max_dev minor then ((err enodev, none), devs) else (
  (ok 0, some minor),
  update devs minor (with_count (devs minor) (atomic_inc (devs minor).dd.ioctl_count)),
)

-- `m_chrdev_release`.
unfoldable pub release_dev : (index : ℕ) → Devices → Ret × Devices
release_dev index devs =
    (ok 0, update devs index (with_count (devs index) (atomic_dec (devs index).dd.ioctl_count)))

-- The text that `m_chrdev_read` hands out, without its end.
abbrev pub greeting : List ℕ
greeting =
    b'D' ∷ b'M' ∷ b'A' ∷ b' ' ∷ b'D' ∷ b'e' ∷ b'm' ∷ b'o' ∷ b' ' ∷ b'D' ∷ b'r' ∷ b'i' ∷ b'v' ∷ b'e'
    ∷ b'r' ∷ b' ' ∷ b'-' ∷ b' ' ∷ b'U' ∷ b's' ∷ b'e' ∷ b' ' ∷ b'i' ∷ b'o' ∷ b'c' ∷ b't' ∷ b'l'
    ∷ b' ' ∷ b'f' ∷ b'o' ∷ b'r' ∷ b' ' ∷ b'D' ∷ b'M' ∷ b'A' ∷ b' ' ∷ b'o' ∷ b'p' ∷ b'e' ∷ b'r'
    ∷ b'a' ∷ b't' ∷ b'i' ∷ b'o' ∷ b'n' ∷ b's' ∷ 10 ∷ []

-- `m_chrdev_read`: the return value and the bytes that the process got. The text is an argument.
unfoldable pub read : UserCopy → (text : List ℕ) → (buf count : ℕ) → Ret × List ℕ
read u text buf count =
    let n : ℕ = if ltb (length text) count then length text else count in
    let left : ℕ = u.to_user buf (take n text) in
    if left == 0 then (ok n, take n text) else (err efault, delivered (take n text) left)

-- `m_chrdev_write`: the return value, and the indices of `databuf` that it writes, which has 30
-- bytes: those of the copy, and that of the closing zero.
pub record Written : Type 0 where
  pub ret : Ret
  pub copied : ℕ
  pub zero_at : ℕ

abbrev pub databuf_size : ℕ
databuf_size = 30

unfoldable pub write : (count : ℕ) → Written
write count =
    let maxdatalen : ℕ = if ltb count 30 then count else 30 in
    record { ret = ok count; copied = maxdatalen; zero_at = maxdatalen }

-- One round of the loop of `m_chr_exit`: what is still held is given back, and the data stays as it
-- was.
unfoldable pub exit_coherent : DeviceData → Held → Held
exit_coherent dd k = elim dd.coherent_buf [
  | none ↦ k
  | some b ↦ release (coherent dd.coherent_size b.addr dd.coherent_dma) k
]

unfoldable pub exit_single : DeviceData → Held → Held
exit_single dd k =
    if dd.single_mapped
    then kfree dd.single_buf (release (mapping dd.single_dma dd.single_size dd.single_dir) k)
    else k

unfoldable pub exit_sg : DeviceData → Held → Held
exit_sg dd k =
    if dd.sg_mapped
    then kfree (array_of dd.sg_pages) (
        free_pages dd.sg_nents (pages_of dd.sg_pages)
          (release table (release (sg_mapping dd.sg_table.nents dd.sg_dir) k)))
    else k

-- `dma_pool_free` is called with whatever pool there is.
unfoldable pub exit_pool_buf : DeviceData → Held → Held
exit_pool_buf dd k = elim dd.pool_buf [
  | none ↦ k
  | some addr ↦ elim dd.dma_pool [
    | none ↦ record k { fault = true }
    | some p ↦ release (pool_block p addr dd.pool_dma) k
  ]
]

unfoldable pub exit_pool : DeviceData → Held → Held
exit_pool dd k = elim dd.dma_pool [ none ↦ k | some p ↦ release (pool p) k ]

unfoldable pub exit_device : State → Held
exit_device st =
    let dd : DeviceData = st.dd in
    exit_pool dd (exit_pool_buf dd (exit_sg dd (exit_single dd (exit_coherent dd st.held))))

-- The data of a device after `m_chr_init`, which holds nothing.
unfoldable pub init_device : State
init_device = record {
  dd = fresh_data;
  held = record { count = λ _. 0; fault = false };
  syncs = [];
}
