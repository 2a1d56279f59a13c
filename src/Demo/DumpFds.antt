-- ===== src/Demo/DumpFds.antt =====
-- 00.mDemo/03.file_sysfs/5.dump_fd_info/kDemo.c: /proc/dump_fds, which prints the open files of a
-- task. The kernel's data that it reads are arguments; what it takes and gives back is counted.
pub mod Lines
pub mod Text
use learn_linux_drv.Prelude.{
  ℕ, ◌+◌, ◌-◌, ◌*◌, ◌/◌, ◌%◌, ◌^◌, ◌<◌, ◌≡◌, ◌↔◌, ◌⊎◌, inl, inr, refl, Bool, true, false, ◌||◌,
  List, [], ◌∷◌, ◌++◌, Option, none, some, arith, ◌==◌, if◌then◌else◌,
}
use learn_linux_drv.Prelude.Int.{ℤ, pos, negsuc}
use learn_linux_drv.Prelude.Count.{count, count-append}
use learn_linux_drv.Kernel.{Errno, Ret, ok, err}

-- `struct sock`, as far as it is printed.
pub record Sock : Type 0 where
  pub family : ℕ
  pub type : ℕ
  pub protocol : ℕ
  pub state : ℕ

-- `struct inode`, as far as it is printed.
pub record Inode : Type 0 where
  pub ino : ℕ
  pub major : ℕ
  pub minor : ℕ
  pub mode : ℕ
  pub size : ℤ

-- `struct file`: what `d_path` gives for it, its fields, its inode, the name of its file system, where
-- all pointers on the way to it are set, and what `sock_from_file` gives, where it has a `sk`.
pub record File : Type 0 where
  pub d_path : Errno ⊎ List ℕ
  pub flags : ℕ
  pub mode : ℕ
  pub pos : ℤ
  pub f_count : ℕ
  pub inode : Option Inode
  pub fs_name : Option (List ℕ)
  pub sock : Option Sock

-- `struct task_struct`: `files` is its table of `max_fds` slots.
pub record Task : Type 0 where
  pub pid : ℕ
  pub comm : List ℕ
  pub files : Option (List (Option File))

-- The calls of `seq_printf`, with their arguments.
pub data Line : Type 0 where
  not_found : (target_pid : ℤ) → Line
  no_files : (pid : ℕ) → Line
  dumping : (pid : ℕ) (comm : List ℕ) → Line
  oom path_error : (fd : ℕ) → Line
  path : (fd : ℕ) → List ℕ → Line
  file_info : (flags mode : ℕ) (pos : ℤ) (f_count : ℕ) → Line
  inode_info : Inode → Line
  fs : List ℕ → Line
  socket : Sock → Line

-- What the function has taken and not given back: references on the task, pages, `file_lock`, and the
-- RCU read lock. `slept` tells whether an allocation that may sleep was made under the spinlock.
pub record Held : Type 0 where
  pub tasks : ℕ
  pub pages : ℕ
  pub file_lock : Bool
  pub rcu : Bool
  pub slept : Bool

abbrev pub nothing : Held
nothing = record { tasks = 0; pages = 0; file_lock = false; rcu = false; slept = false }

-- `__get_free_page(GFP_KERNEL)`, which may sleep whether it gives a page or not, and `free_page`.
abbrev pub get_page : (granted : Bool) → Held → Held
get_page granted h = record h {
  pages = if granted then h.pages + 1 else h.pages;
  slept = h.slept || h.file_lock;
}

abbrev pub free_page : Held → Held
free_page h = record h { pages = h.pages - 1 }

-- `S_ISSOCK(mode)`.
abbrev pub s_issock : ℕ → Bool
s_issock mode = (mode / 2 ^ 12) % 16 == 12

sock_lines : Option Sock → List Line
sock_lines none = []
sock_lines (some s) = socket s ∷ []

fs_lines : Option (List ℕ) → List Line
fs_lines none = []
fs_lines (some name) = fs name ∷ []

inode_lines : File → Option Inode → List Line
inode_lines f none = []
inode_lines f (some n) =
    inode_info n ∷ (fs_lines f.fs_name ++ (if s_issock n.mode then sock_lines f.sock else []))

path_line : (fd : ℕ) → Errno ⊎ List ℕ → Line
path_line fd (inl e) = path_error fd
path_line fd (inr name) = path fd name

-- The body of the loop for an open slot.
pub dump_file : (granted : Bool) (fd : ℕ) → File → Held → List Line × Held
unfolding path_line inode_lines
dump_file granted fd f h =
    if granted
    then (
      path_line fd f.d_path ∷ file_info f.flags f.mode f.pos f.f_count ∷ inode_lines f f.inode,
      free_page (get_page true h),
    )
    else (oom fd ∷ [], get_page false h)

dump_slot : (page : ℕ → Bool) (fd : ℕ) → Option File → Held → List Line × Held
dump_slot page fd none h = ([], h)
dump_slot page fd (some f) h = dump_file (page fd) fd f h

-- The loop, from slot `fd` on. `page fd` is the kernel's answer in that round.
dump_slots : (page : ℕ → Bool) (fd : ℕ) → List (Option File) → Held → List Line × Held
dump_slots page fd [] h = ([], h)
dump_slots page fd (slot ∷ slots) h =
    let r = dump_slot page fd slot h in
    let rest = dump_slots page (fd + 1) slots r.1 in (r.0 ++ rest.0, rest.1)

-- `dump_fds_show` behind `get_task_struct`.
dump_task : (page : ℕ → Bool) → Task → Held → List Line × Held
dump_task page t h = elim t.files [
  | none ↦ (no_files t.pid ∷ [], record h { tasks = h.tasks - 1 })
  | some slots ↦
      let r = dump_slots page 0 slots (record h { file_lock = true }) in
      (dumping t.pid t.comm ∷ r.0, record (r.1) { file_lock = false; tasks = r.1.tasks - 1 })
]

-- `target_pid == -1`.
abbrev pub is_current : ℤ → Bool
is_current (pos n) = false
is_current (negsuc n) = n == 0

-- `dump_fds_show`: the return value, the text, and what is held. `pid_task` is `find_vpid` and `pid_task`.
unfoldable pub dump_fds_show :
    (current : Task) (pid_task : ℤ → Option Task) (page : ℕ → Bool) (target_pid : ℤ)
    → Held
    → Ret × List Line × Held
unfolding dump_task dump_slots dump_slot dump_file path_line inode_lines fs_lines sock_lines
dump_fds_show current pid_task page target_pid h =
    if is_current target_pid
    then (let r = dump_task page current (record h { tasks = h.tasks + 1 }) in (ok 0, r.0, r.1))
    else (let locked = record h { rcu = true } in
        elim (pid_task target_pid) [
          | none ↦ (ok 0, not_found target_pid ∷ [], record locked { rcu = false })
          | some t ↦
              let got = record locked { tasks = h.tasks + 1 } in
              let r = dump_task page t (record got { rcu = false }) in (ok 0, r.0, r.1)
        ])
