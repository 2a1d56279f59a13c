-- ===== src/Demo/Sysfs/Setup.antt =====
-- 00.mDemo/03.file_sysfs/2.sysfs/kDemo.c: the kobject with its file and the buffer, from the module's
-- init to its exit.
use learn_linux_drv.Prelude.{ℕ, ◌≡◌, Bool, true, false, Option, none, some, arith, update}
use learn_linux_drv.Kernel.{Errno}

-- `m_kobj` and `m_internal_buffer`, the references to kobjects, which of them are shown in sysfs and have
-- the file, and the allocated blocks.
pub record Objects : Type 0 where
  pub m_kobj : Option ℕ
  pub m_internal_buffer : Option ℕ
  pub references : ℕ → ℕ
  pub shown : ℕ → Bool
  pub has_file : ℕ → Bool
  pub blocks : ℕ → Bool

-- `kobject_create_and_add`, by the object that it makes.
abbrev pub create_and_add : Option ℕ → Objects → Objects
create_and_add none s = record s { m_kobj = none }
create_and_add (some k) s = record s {
  m_kobj = some k;
  references = update s.references k 1;
  shown = update s.shown k true;
}

-- `kmalloc(100, GFP_KERNEL)`.
abbrev pub get_buffer : Option ℕ → Objects → Objects
get_buffer none s = record s { m_internal_buffer = none }
get_buffer (some b) s = record s { m_internal_buffer = some b; blocks = update s.blocks b true }

-- `sysfs_create_file`, by its answer. It refuses a null pointer.
abbrev pub create_file : Option Errno → Objects → Objects
create_file (some e) s = s
create_file none s = elim s.m_kobj [
  | none ↦ s
  | some k ↦ record s { has_file = update s.has_file k true }
]

-- The part of `m_chr_init` behind the registration. An error is printed only.
unfoldable pub set_up : (kobj kmalloc : Option ℕ) → (file : Option Errno) → Objects → Objects
set_up kobj kmalloc file s = create_file file (get_buffer kmalloc (create_and_add kobj s))

-- The last part of `m_chr_exit`: `sysfs_remove_file`, and `kobject_del`, which takes the object out of
-- sysfs and drops no reference.
unfoldable pub tear_down : Objects → Objects
tear_down s = elim s.m_kobj [
  | none ↦ s
  | some k ↦ record s { has_file = update s.has_file k false; shown = update s.shown k false }
]

-- Whatever the answers were, when the module is gone the object that it made is neither shown nor has a
-- file, but a reference to it is left, and so is the buffer.
pub unload_leaks :
    (k b : ℕ) (file : Option Errno) (s : Objects)
    → let t = tear_down (set_up (some k) (some b) file s) in
      (t.shown k ≡ false) × (t.has_file k ≡ false) × (t.references k ≡ 1) × (t.blocks b ≡ true)
unfolding tear_down set_up
unload_leaks k b file s = ground arith
