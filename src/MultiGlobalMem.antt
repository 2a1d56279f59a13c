-- ===== src/MultiGlobalMem.antt =====
-- 06.char_drv/1.cdev/0.ch6/multi_globalmem.c: ten devices like that of globalmem.c behind one
-- driver. Its handlers are the text of globalmem.c's, on the device that `globalmem_open` found and
-- left in the file's `private_data`; so they are globalmem.c's functions on that device.
pub mod Sessions
pub mod Isolation
pub mod Setup
mod Tests
use learn_linux_drv.Prelude.{ℕ, List, [], ◌∷◌, update}
use learn_linux_drv.Prelude.Int.{ℤ, pos}
use learn_linux_drv.Kernel.{Ret, ok, UserCopy}
use learn_linux_drv.GlobalMem.{GlobalmemDev, ReadOut, WriteOut}
use learn_linux_drv.GlobalMem

abbrev pub device_num : ℕ
device_num = 10

-- An open file: the index of the device that `private_data` points to, and its position.
pub record File : Type 0 where
  pub private_data : ℕ
  pub f_pos : ℤ

-- `globalmem_devp`, and the open files by their number. The memories lie in one array; a write that goes
-- on behind the end of one would make its list longer than 4096 bytes.
pub record System : Type 0 where
  pub devp : ℕ → GlobalmemDev
  pub files : ℕ → File

-- The device of a file.
abbrev pub dev_of : System → (fd : ℕ) → GlobalmemDev
dev_of s fd = s.devp (s.files fd).private_data

abbrev pub set_dev : System → (fd : ℕ) → GlobalmemDev → System
set_dev s fd dev = record s { devp = update s.devp (s.files fd).private_data dev }

abbrev pub set_pos : System → (fd : ℕ) → ℤ → System
set_pos s fd f_pos = record s { files = update s.files fd (record (s.files fd) { f_pos = f_pos }) }

-- `globalmem_open` through the device node with this minor number. A file starts at position 0.
unfoldable pub open_file : (fd minor : ℕ) → System → Ret × System
open_file fd minor s =
    (ok 0, record s { files = update s.files fd (record { private_data = minor; f_pos = pos 0 }) })

pub release_file : (fd : ℕ) → System → Ret × System
release_file fd s = (ok 0, s)

pub ioctl : (fd cmd : ℕ) → System → Ret × System
ioctl fd cmd s =
    let r : Ret × GlobalmemDev = GlobalMem.ioctl (dev_of s fd) cmd in (r.0, set_dev s fd r.1)

unfoldable pub read : UserCopy → (fd buf size : ℕ) → System → (Ret × List ℕ) × System
read u fd buf size s =
    let r : ReadOut = GlobalMem.read u (dev_of s fd) buf size (s.files fd).f_pos in
    ((r.ret, r.user), set_pos s fd r.ppos)

unfoldable pub write : UserCopy → (fd buf size : ℕ) → System → Ret × System
write u fd buf size s =
    let w : WriteOut = GlobalMem.write u (dev_of s fd) buf size (s.files fd).f_pos in
    (w.ret, set_pos (set_dev s fd w.dev) fd w.ppos)

pub llseek : (fd : ℕ) (offset orig : ℤ) → System → Ret × System
llseek fd offset orig s =
    let r : Ret × ℤ = GlobalMem.llseek (s.files fd).f_pos offset orig in (r.0, set_pos s fd r.1)
