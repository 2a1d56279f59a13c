-- ===== src/Kernel/Chrdev.antt =====
-- What a driver holds of the kernel while its module is loaded: regions of device numbers,
-- allocated blocks, and character devices that are live. The kernel's answers are parameters; the
-- ledger is the account of what it has handed out and not got back.
use learn_linux_drv.Prelude.{
  ℕ, ◌+◌, ◌-◌, ◌^◌, Bool, ◌&&◌, List, [], ◌∷◌, Option, ◌==◌, if◌then◌else◌,
}
use learn_linux_drv.Kernel.{Errno}

pub record Ledger : Type 0 where
  -- the major number and the count of minors from 0 on
  pub regions : List (ℕ × ℕ)
  pub blocks : ℕ
  -- major and minor number
  pub cdevs : List (ℕ × ℕ)

abbrev pub nothing_held : Ledger
nothing_held = record { regions = []; blocks = 0; cdevs = [] }

-- The kernel's answers in one run of a module's init function.
pub record Answers : Type 0 where
  -- `register_chrdev_region`, and `alloc_chrdev_region` with the major number that it picks
  pub register : Option Errno
  pub alloc : Option Errno
  pub alloc_major : ℕ
  -- whether `kzalloc` finds memory
  pub memory : Bool
  -- `cdev_add` for each index
  pub cdev_add : ℕ → Option Errno

-- Taking the first entry for a pair of numbers off a list.
abbrev pub strike : (a b : ℕ) → List (ℕ × ℕ) → List (ℕ × ℕ)
strike a b [] = []
strike a b (e ∷ es) = if e.0 == a && e.1 == b then es else e ∷ strike a b es

abbrev pub add_region : (major count : ℕ) → Ledger → Ledger
add_region major count l = record l { regions = (major, count) ∷ l.regions }

abbrev pub unregister_region : (major count : ℕ) → Ledger → Ledger
unregister_region major count l = record l { regions = strike major count l.regions }

abbrev pub add_block : Ledger → Ledger
add_block l = record l { blocks = l.blocks + 1 }

abbrev pub free_block : Ledger → Ledger
free_block l = record l { blocks = l.blocks - 1 }

abbrev pub add_cdev : (major minor : ℕ) → Ledger → Ledger
add_cdev major minor l = record l { cdevs = (major, minor) ∷ l.cdevs }

abbrev pub del_cdev : (major minor : ℕ) → Ledger → Ledger
del_cdev major minor l = record l { cdevs = strike major minor l.cdevs }

-- The kernel's answers while a module with a class and device nodes is loaded.
pub record LoadAnswers : Type 0 where
  -- `alloc_chrdev_region`, and the major number that `devno` has afterwards, set or not
  pub alloc : Option Errno
  pub major : ℕ
  -- whether `class_create` succeeds
  pub class_create : Bool
  pub cdev_add : (index : ℕ) → Option Errno
  -- whether `device_create` succeeds
  pub device_create : (index : ℕ) → Bool

-- The kernel's `MINORMASK`.
abbrev pub minormask : ℕ
minormask = 2 ^ 20 - 1
