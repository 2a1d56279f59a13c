-- ===== src/Dma/Ioctl.antt =====
-- dma_base/kDemo.c: `m_chrdev_ioctl`, its command numbers and the dispatch.
use learn_linux_drv.Prelude.{
  ℕ, ◌+◌, ◌*◌, ◌/◌, ◌%◌, ◌^◌, [], Option, none, some, ◌==◌, if◌then◌else◌,
}
use learn_linux_drv.Kernel.{efault, enotty, Ret, ok, err}
use learn_linux_drv.Dma.{DeviceData, State, Answers, dma_pool_size, sg_entries}
use learn_linux_drv.Dma.Coherent.{
  Param, UserSide, Reply, plain, write_back, alloc_coherent_dev, free_coherent_dev, read_coherent,
  write_coherent,
}
use learn_linux_drv.Dma.Single.{map_single_dev, unmap_single_dev, sync_single_dev}
use learn_linux_drv.Dma.Sg.{map_sg_dev, unmap_sg_dev, sync_sg_dev}
use learn_linux_drv.Dma.Pool.{pool_create_dev, pool_alloc_dev, pool_free_dev, pool_destroy_dev}
use learn_linux_drv.Dma.Info.{get_info, set_mask}

pub data Command : Type 0 where
  alloc_coherent free_coherent read_coherents write_coherents : Command
  map_single unmap_single sync_single map_sg unmap_sg sync_sg : Command
  pool_create pool_alloc pool_free pool_destroy get_infos set_masks : Command

abbrev pub dma_magic : ℕ
dma_magic = b'D'

-- `sizeof(struct dma_ioctl_param)` where `unsigned long` has 64 bits.
abbrev pub param_size : ℕ
param_size = 104

-- `_IOW` and `_IOWR` of the kernel's generic encoding: direction, size, type and number.
abbrev pub iow : ℕ → ℕ
iow nr = 1 * 2 ^ 30 + param_size * 2 ^ 16 + dma_magic * 2 ^ 8 + nr

abbrev pub iowr : ℕ → ℕ
iowr nr = 3 * 2 ^ 30 + param_size * 2 ^ 16 + dma_magic * 2 ^ 8 + nr

-- The number of each command.
unfoldable pub number : Command → ℕ
number alloc_coherent = iowr 1
number free_coherent = iow 2
number read_coherents = iowr 3
number write_coherents = iow 4
number map_single = iowr 5
number unmap_single = iow 6
number sync_single = iow 7
number map_sg = iowr 8
number unmap_sg = iow 9
number sync_sg = iow 10
number pool_create = iowr 11
number pool_alloc = iowr 12
number pool_free = iow 13
number pool_destroy = iow 14
number get_infos = iowr 15
number set_masks = iow 16

-- The `switch` on the command number.
unfoldable pub decode : ℕ → Option Command
decode cmd =
    if cmd == iowr 1
    then some alloc_coherent
    else if cmd == iow 2
    then some free_coherent
    else if cmd == iowr 3
    then some read_coherents
    else if cmd == iow 4
    then some write_coherents
    else if cmd == iowr 5
    then some map_single
    else if cmd == iow 6
    then some unmap_single
    else if cmd == iow 7
    then some sync_single
    else if cmd == iowr 8
    then some map_sg
    else if cmd == iow 9
    then some unmap_sg
    else if cmd == iow 10
    then some sync_sg
    else if cmd == iowr 11
    then some pool_create
    else if cmd == iowr 12
    then some pool_alloc
    else if cmd == iow 13
    then some pool_free
    else if cmd == iow 14
    then some pool_destroy
    else if cmd == iowr 15
    then some get_infos
    else if cmd == iow 16
    then some set_masks
    else none

-- `copy_from_user(&param, argp, sizeof(param))` in front of a command.
unfoldable pub with_param : UserSide → State → (Param → Reply) → Reply
with_param u st f = elim u.param [ none ↦ plain (err efault, st) | some p ↦ f p ]

-- A command that fills in the parameter block where it succeeds.
unfoldable pub answering : UserSide → Ret × State → (DeviceData → Param) → Reply
answering u (ok n, st) fill = write_back u (fill st.dd) st []
answering u (err e, st) fill = plain (err e, st)

-- `DMA_IOCTL_POOL_ALLOC` fills in a block that it has not read: what the other fields hold is the
-- argument `junk`.
unfoldable pub run : Answers → UserSide → (junk : Param) → Command → State → Reply
unfolding with_param answering
run a u junk alloc_coherent st = with_param u st λ p.
    answering u (alloc_coherent_dev a p.size st)
      λ dd. record p { dma_addr = dd.coherent_dma; result = 0 }
run a u junk free_coherent st = plain (free_coherent_dev st)
run a u junk read_coherents st = read_coherent u st
run a u junk write_coherents st = write_coherent u st
run a u junk map_single st = with_param u st λ p.
    answering u (map_single_dev a p.size p.direction st)
      λ dd. record p { dma_addr = dd.single_dma; result = 0 }
run a u junk unmap_single st = plain (unmap_single_dev st)
run a u junk sync_single st = with_param u st λ p. plain (sync_single_dev p.direction st)
run a u junk map_sg st = with_param u st λ p.
    answering u (map_sg_dev a sg_entries p.direction st)
      λ dd. record p { dma_addr = dd.sg_table.dma; count = dd.sg_table.nents; result = 0 }
run a u junk unmap_sg st = plain (unmap_sg_dev st)
run a u junk sync_sg st = with_param u st λ p. plain (sync_sg_dev p.direction st)
run a u junk pool_create st = plain (pool_create_dev a st)
run a u junk pool_alloc st =
    answering u (pool_alloc_dev a st)
      λ dd. record junk { dma_addr = dd.pool_dma; size = dma_pool_size; result = 0 }
run a u junk pool_free st = plain (pool_free_dev st)
run a u junk pool_destroy st = plain (pool_destroy_dev st)
run a u junk get_infos st = get_info u st
run a u junk set_masks st = with_param u st λ p. plain (set_mask a p.mask_bits st)

-- `_IOC_TYPE(cmd)`.
abbrev pub ioc_type : ℕ → ℕ
ioc_type cmd = cmd / 2 ^ 8 % 2 ^ 8

-- `m_chrdev_ioctl`.
unfoldable pub ioctl : Answers → UserSide → (junk : Param) → (cmd : ℕ) → State → Reply
ioctl a u junk cmd st =
    if ioc_type cmd == dma_magic
    then elim (decode cmd) [ none ↦ plain (err enotty, st) | some c ↦ run a u junk c st ]
    else plain (err enotty, st)
