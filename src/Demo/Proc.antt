-- ===== src/Demo/Proc.antt =====
-- 00.mDemo/03.file_sysfs/3.proc/kDemo.c: the files under /proc/proc_demo. The read loops of the kernel
-- (`simple_read_from_buffer`, `seq_read`) are parameters, or not looked at.
pub mod Texts
pub mod Setup
use learn_linux_drv.Prelude.{
  ℕ, zero, suc, ◌+◌, ◌-◌, ◌%◌, ◌^◌, ◌≡◌, Bool, true, false, List, [], ◌∷◌, ◌++◌, Option, none, some,
  length, take, drop, overwrite, ltb, leb, ◌==◌, if◌then◌else◌,
}
use learn_linux_drv.Prelude.Int.{ℤ, pos, negsuc}
use learn_linux_drv.Kernel.{Errno, einval, efault, enomem, Ret, ok, err, UserCopy}
use learn_linux_drv.Kernel.Text.{c_string}
use learn_linux_drv.Kernel.Chrdev.{LoadAnswers}
use learn_linux_drv.Kernel.Memory.{filled}
use learn_linux_drv.Demo.{Registered, register, unregister}

abbrev pub buf_size : ℕ
buf_size = 128

abbrev pub seq_buf_size : ℕ
seq_buf_size = 1024

-- `struct m_data`.
pub record Info : Type 0 where
  pub msg : List ℕ
  pub counter : ℕ

-- `m_seq_buf` and `m_seq_buf_len`.
pub record SeqBuf : Type 0 where
  pub bytes : List ℕ
  pub len : ℕ

-- The kernel's `simple_read_from_buffer(buf, count, ppos, from, length from)`: the return value and
-- the position afterwards.
abbrev pub ReadFromBuffer : Type 0
ReadFromBuffer = (buf count : ℕ) (ppos : ℤ) (from : List ℕ) → Ret × ℤ

-- `generic_read`, with `strnlen(proc_buf, BUF_SIZE)` bytes of `proc_buf`.
unfoldable pub generic_read :
    ReadFromBuffer → (buf count : ℕ) (ppos : ℤ) (proc_buf : List ℕ) → Ret × ℤ
generic_read simple_read buf count ppos proc_buf =
    simple_read buf count ppos (c_string (take buf_size proc_buf))

-- `generic_write`: the return value and `proc_buf`.
unfoldable pub generic_write : UserCopy → (buf count : ℕ) (proc_buf : List ℕ) → Ret × List ℕ
generic_write u buf count proc_buf =
    let (got, left) = u.from_user buf count in
    let copied = overwrite proc_buf 0 got in
    if ltb (buf_size - 1) count
    then (err einval, proc_buf)
    else if left == 0
    then (ok count, overwrite copied count (0 ∷ []))
    else (err efault, copied)

-- `strncpy(msg, tmp, n)` of a string that has at most `n` bytes in front of its zero.
abbrev pub strncpy : (msg tmp : List ℕ) (n : ℕ) → List ℕ
strncpy msg tmp n =
    let text = take n (c_string tmp) in overwrite msg 0 (text ++ filled 0 (n - length text))

-- `m_write`. The counter is an int, whose overflow wraps in the kernel; it is given here by its 32
-- bits. What stood in `tmp` does not matter.
unfoldable pub m_write : UserCopy → (buf len : ℕ) → Info → Ret × Info
m_write u buf len d =
    let (got, left) = u.from_user buf len in
    let tmp = got ++ 0 ∷ [] in
    if leb buf_size len
    then (err einval, d)
    else if left == 0
    then (
      ok len,
      record { msg = strncpy d.msg tmp (buf_size - 1); counter = (d.counter + 1) % 2 ^ 32 },
    )
    else (err efault, d)

-- `m_show`: the text of the message and the counter that it prints.
unfoldable pub m_show : Info → List ℕ × ℕ
m_show d = (c_string d.msg, d.counter)

-- `m_seq_start`: whether there is an entry at `pos`.
unfoldable pub m_seq_start : (pos : ℤ) → Bool
m_seq_start (pos n) = ltb n 1
m_seq_start (negsuc n) = true

-- `m_seq_next`: no further entry, and the next position.
unfoldable pub m_seq_next : (pos : ℕ) → Bool × ℕ
m_seq_next p = (false, p + 1)

-- `m_seq_show`: the bytes that go to `seq_write`.
unfoldable pub m_seq_show : SeqBuf → List ℕ
m_seq_show s = take s.len s.bytes

-- `m_seq_proc_write`.
unfoldable pub m_seq_proc_write : UserCopy → (buf count : ℕ) → SeqBuf → Ret × SeqBuf
m_seq_proc_write u buf count s =
    let (got, left) = u.from_user buf count in
    let copied = overwrite s.bytes 0 got in
    if ltb (seq_buf_size - 1) count
    then (err einval, s)
    else if left == 0
    then (ok count, record { bytes = overwrite copied count (0 ∷ []); len = count })
    else (err efault, record s { bytes = copied })

-- The directory and the five files in it.
pub data Entry : Type 0 where
  demo_dir entry_generic entry_single entry_single_data entry_data entry_seq : Entry

-- What the module has registered, and the entries that it has under /proc, the newest first. All
-- files are in the directory.
pub record Loaded : Type 0 where
  pub registered : Registered
  pub entries : List Entry

-- The calls of `proc_mkdir`, `proc_create`, ... in their order, up to the first one that fails.
pub create_entries : (created : Entry → Bool) → List Entry → Loaded → Ret × Loaded
create_entries created [] m = (ok 0, m)
create_entries created (e ∷ es) m =
    let rest = create_entries created es (record m { entries = e ∷ m.entries }) in
    if created e then rest else (err enomem, m)

abbrev pub all_entries : List Entry
all_entries =
    demo_dir ∷ entry_generic ∷ entry_single ∷ entry_single_data ∷ entry_data ∷ entry_seq ∷ []

-- `m_chr_init`, without the text that it puts into `m_seq_buf`; `none` where `class_create` fails.
unfoldable pub init : LoadAnswers → (created : Entry → Bool) → Option (Ret × Loaded)
init a created = elim (register a) [
  | none ↦ none
  | some r ↦ some (create_entries created all_entries (record { registered = r; entries = [] }))
]

-- `remove_proc_subtree(PROC_DIRNAME, NULL)`: the directory and all files in it.
abbrev pub remove_proc_subtree : List Entry → List Entry
remove_proc_subtree es = []

-- `m_chr_exit`. Each `proc_remove` takes a file away that the last call takes away too, and
-- `remove_proc_entry(DATA_ENTRY_NAME, NULL)` looks for its file outside the directory.
unfoldable pub exit : Loaded → Loaded
exit m = record { entries = remove_proc_subtree m.entries; registered = unregister m.registered }
