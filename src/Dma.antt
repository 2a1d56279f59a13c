-- ===== src/Dma.antt =====
-- 00.mDemo/08.dma/1.dma_base/kDemo.c: a character device through which a process tries out the DMA
-- interfaces of the kernel. This file has the device's data and the account of what the driver
-- holds; the children have the operations, one group each, and what is proved of them.
pub mod Coherent
pub mod Single
pub mod Sg
pub mod Pool
pub mod Info
pub mod Ioctl
pub mod Module
pub mod Accounts
pub mod Commands
pub mod User
pub mod Transfers
pub mod Load
pub mod Arm
mod Tests
use mathlib.Core.Logic.{ite}
use learn_linux_drv.Prelude.{
  ℕ, ◌+◌, ◌-◌, ◌^◌, ◌≡◌, Bool, true, false, ◌||◌, List, [], Option, none, some, arith, ◌==◌,
  if◌then◌else◌, ℕ_discrete,
}
use learn_linux_drv.Kernel.{Errno}

-- `enum dma_data_direction`.
pub data Direction : Type 0 where
  bidirectional to_device from_device no_direction : Direction

-- `user_to_kernel_dir`. An `int` that is no direction of the user's gives DMA_NONE.
pub user_to_kernel_dir : (user_dir : ℕ) → Direction
user_to_kernel_dir d =
    if d == 1
    then to_device
    else if d == 2
    then from_device
    else if d == 3
    then bidirectional
    else no_direction

abbrev pub dma_pool_size : ℕ
dma_pool_size = 256

abbrev pub sg_entries : ℕ
sg_entries = 4

-- What the driver gets from the kernel and has to give back, with what the call that gives it back
-- must name: `dma_alloc_coherent`, `kmalloc` and `kmalloc_array`, `dma_map_single`, `alloc_page`,
-- `sg_alloc_table`, `dma_map_sg`, `dma_pool_create` and `dma_pool_alloc`.
pub data Resource : Type 0 where
  coherent : (size addr dma : ℕ) → Resource
  block : (addr : ℕ) → Resource
  mapping : (dma size : ℕ) (dir : Direction) → Resource
  page : (addr : ℕ) → Resource
  table : Resource
  sg_mapping : (nents : ℕ) (dir : Direction) → Resource
  pool : (addr : ℕ) → Resource
  pool_block : (pool addr dma : ℕ) → Resource

Direction-discrete : Discrete Direction
Direction-discrete = hlevel

pub Resource-discrete : Discrete Resource
Resource-discrete = hlevel (ℕ_discrete, Direction-discrete)

-- 1 for the same resource, 0 for another.
pub is : Resource → Resource → ℕ
is x r = ite (Resource-discrete x r) 1 0

-- How often each resource is held. `fault` tells whether something was ever given back that was not
-- held: freed twice, never allocated, or named with other arguments.
pub record Held : Type 0 where
  pub count : Resource → ℕ
  pub fault : Bool

pub acquire : Resource → Held → Held
acquire x k = record k { count = λ r. k.count r + is x r }

pub release : Resource → Held → Held
release x k = record { count = λ r. k.count r - is x r; fault = k.fault || (k.count x == 0) }

-- `kfree`, which ignores a null pointer.
pub kfree : Option ℕ → Held → Held
kfree none k = k
kfree (some addr) k = release (block addr) k

-- A buffer in the kernel's memory.
pub record Buffer : Type 0 where
  pub addr : ℕ
  pub bytes : List ℕ

-- `sg_pages` and what it points to.
pub record PageArray : Type 0 where
  pub addr : ℕ
  pub pages : List ℕ

-- `struct sg_table`: its `nents`, and the DMA address of its first entry.
pub record SgTable : Type 0 where
  pub nents : ℕ
  pub dma : ℕ

-- `struct m_chr_device_data`, without the kernel's own `cdev` and `dev`.
pub record DeviceData : Type 0 where
  pub coherent_buf : Option Buffer
  pub coherent_dma : ℕ
  pub coherent_size : ℕ
  pub single_buf : Option ℕ
  pub single_dma : ℕ
  pub single_size : ℕ
  pub single_dir : Direction
  pub single_mapped : Bool
  pub sg_pages : Option PageArray
  pub sg_table : SgTable
  pub sg_nents : ℕ
  pub sg_dir : Direction
  pub sg_mapped : Bool
  pub dma_pool : Option ℕ
  pub pool_buf : Option ℕ
  pub pool_dma : ℕ
  pub dma_mask : ℕ
  -- `atomic_t`: its 32-bit pattern
  pub ioctl_count : ℕ

-- A call that hands a mapping over to the device or back to the processor.
pub data Sync : Type 0 where
  single_for_device single_for_cpu : (dma size : ℕ) (dir : Direction) → Sync
  sg_for_device sg_for_cpu : (nents : ℕ) (dir : Direction) → Sync

-- The device's data, what it holds, and the sync calls made so far, the last one first.
pub record State : Type 0 where
  pub dd : DeviceData
  pub held : Held
  pub syncs : List Sync

-- The kernel's answers in one call of the driver.
pub record Answers : Type 0 where
  -- virtual and DMA address of `dma_alloc_coherent` and `dma_pool_alloc`
  pub alloc_coherent : Option (ℕ × ℕ)
  pub pool_alloc : Option (ℕ × ℕ)
  pub kmalloc : Option ℕ
  -- the handle of `dma_map_single`, and what `dma_mapping_error` says of it
  pub map_single : ℕ
  pub mapping_error : Bool
  pub kmalloc_array : Option ℕ
  pub alloc_page : (index : ℕ) → Option ℕ
  pub sg_alloc_table : Option Errno
  -- the count of `dma_map_sg`, and the first entry's address
  pub map_sg : ℕ
  pub sg_dma : ℕ
  pub pool_create : Option ℕ
  pub set_mask : Option Errno

-- `DMA_BIT_MASK(n)`.
abbrev pub dma_bit_mask : ℕ → ℕ
dma_bit_mask n = 2 ^ n - 1

-- A device as `m_chr_init` leaves it.
pub fresh_data : DeviceData
fresh_data = record {
  coherent_buf = none;
  coherent_dma = 0;
  coherent_size = 0;
  single_buf = none;
  single_dma = 0;
  single_size = 0;
  single_dir = bidirectional;
  single_mapped = false;
  sg_pages = none;
  sg_table = record { nents = 0; dma = 0 };
  sg_nents = 0;
  sg_dir = bidirectional;
  sg_mapped = false;
  dma_pool = none;
  pool_buf = none;
  pool_dma = 0;
  dma_mask = dma_bit_mask 64;
  ioctl_count = 0;
}
