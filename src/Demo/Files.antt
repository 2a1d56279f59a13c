-- ===== src/Demo/Files.antt =====
-- 00.mDemo/03.file_sysfs/4.file_opt/kDemo.c: files that a driver opens, writes and reads itself, and
-- its log file. A file is named by a number.
use learn_linux_drv.Prelude.{
  ℕ, ◌+◌, ◌-◌, ◌≤◌, ◌<◌, ◌≡◌, ◌⊎◌, Bool, false, List, [], ◌∷◌, Option, none, some, arith, length,
  ◌==◌, if◌then◌else◌, inl, inr, Sum-cases,
}
use learn_linux_drv.Kernel.{Errno, einval, eio, other, Ret, ok, err}

abbrev pub enoent : Errno
enoent = other 2

-- The kernel's answers in one ioctl: `filp_open` on the two paths, the count or error of
-- `kernel_write`, the bytes or error of `kernel_read`, `kern_path`, `vfs_getattr` and `vfs_unlink`.
pub record Answers : Type 0 where
  pub open_test : Errno ⊎ ℕ
  pub open_log : Errno ⊎ ℕ
  pub kernel_write : (file : ℕ) → List ℕ → Ret
  pub kernel_read : (file limit : ℕ) → Errno ⊎ List ℕ
  pub kern_path_dir : Option Errno
  pub getattr : Errno ⊎ Bool
  pub kern_path_file : Option Errno
  pub unlink : Option Errno

-- The driver's two pointers, the files that it has open, the path references that it holds, and the
-- writes that it made, the last one first.
pub record State : Type 0 where
  pub file_test : Option ℕ
  pub log_file : Option ℕ
  pub opened : List ℕ
  pub paths : ℕ
  pub writes : List (ℕ × List ℕ)

pub close : (file : ℕ) → List ℕ → List ℕ
close file [] = []
close file (f ∷ fs) = let rest = close file fs in if f == file then fs else f ∷ rest

-- `open_file`: an error becomes a null pointer.
pub open_file : Errno ⊎ ℕ → State → Option ℕ × State
open_file (inl e) s = (none, s)
open_file (inr file) s = (some file, record s { opened = file ∷ s.opened })

pub write_to_file : Answers → (file : ℕ) → List ℕ → State → Ret × State
write_to_file a file bytes s =
    (a.kernel_write file bytes, record s { writes = (file, bytes) ∷ s.writes })

-- `read_from_file`: the result, and the index of the closing zero, if one is stored.
pub read_from_file : Answers → (file len : ℕ) → Ret × Option ℕ
read_from_file a file len = elim (a.kernel_read file (len - 1)) [
  | inl e ↦ (err e, none)
  | inr bytes ↦ (ok (length bytes), some (length bytes))
]

pub is_directory : Answers → State → Bool × State
is_directory a s = elim a.kern_path_dir [
  | some e ↦ (false, s)
  | none ↦
      let held : State = record s { paths = s.paths + 1 } in
      let put : State = record held { paths = held.paths - 1 } in
      elim a.getattr [ inl e ↦ (false, put) | inr dir ↦ (dir, put) ]
]

pub delete_file : Answers → State → Option Errno × State
delete_file a s = elim a.kern_path_file [
  | some e ↦ (some e, s)
  | none ↦
      let held : State = record s { paths = s.paths + 1 } in
      (a.unlink, record held { paths = held.paths - 1 })
]

-- `open_log_file`. On an error it clears the pointer first, and PTR_ERR(NULL) is 0.
pub open_log_file : Errno ⊎ ℕ → State → Ret × State
open_log_file (inl e) s = (ok 0, record s { log_file = none })
open_log_file (inr file) s = (ok 0, record s { log_file = some file; opened = file ∷ s.opened })

pub close_log_file : State → State
close_log_file s = elim s.log_file [
  | none ↦ s
  | some file ↦ record s { log_file = none; opened = close file s.opened }
]

-- `write_log`, without the position, which only the next write reads.
pub write_log : Answers → List ℕ → State → Ret × State
write_log a bytes s = elim s.log_file [
  | none ↦ (err einval, s)
  | some file ↦ (a.kernel_write file bytes, record s { writes = (file, bytes) ∷ s.writes })
]

abbrev pub demo_data : List ℕ
demo_data =
    b'H' ∷ b'e' ∷ b'l' ∷ b'l' ∷ b'o' ∷ b' ' ∷ b'f' ∷ b'r' ∷ b'o' ∷ b'm' ∷ b' ' ∷ b'k' ∷ b'e' ∷ b'r'
    ∷ b'n' ∷ b'e' ∷ b'l' ∷ b' ' ∷ b's' ∷ b'p' ∷ b'a' ∷ b'c' ∷ b'e' ∷ b'!' ∷ 10 ∷ []

abbrev pub log_message : List ℕ
log_message =
    b'H' ∷ b'e' ∷ b'l' ∷ b'l' ∷ b'o' ∷ b' ' ∷ b'f' ∷ b'r' ∷ b'o' ∷ b'm' ∷ b' ' ∷ b'k' ∷ b'e' ∷ b'r'
    ∷ b'n' ∷ b'e' ∷ b'l' ∷ b' ' ∷ b'l' ∷ b'o' ∷ b'g' ∷ b' ' ∷ b'd' ∷ b'e' ∷ b'm' ∷ b'o' ∷ b'!' ∷ 10
    ∷ []

-- The part of the ioctl on the log.
pub log_part : Answers → State → Ret × State
log_part a s =
    let (r, s') = open_log_file a.open_log s in
    elim r [ err e ↦ (err eio, s') | ok n ↦ (ok 0, close_log_file (write_log a log_message s').1) ]

-- `m_chrdev_ioctl`. Reading and the size change nothing.
pub ioctl : Answers → State → Ret × State
ioctl a s =
    let (r, s') = open_file a.open_test s in
    elim r [
      | none ↦ (err enoent, record s' { file_test = none })
      | some file ↦
          let s1 : State =
            (write_to_file a file demo_data (record s' { file_test = some file })).1 in
          let s2 : State = (is_directory a s1).1 in
          let s3 : State = record s2 { opened = close file s2.opened; file_test = none } in
          log_part a (delete_file a s3).1
    ]

-- Whatever the kernel answers, an ioctl that starts with no log file leaves the driver with the files
-- and path references that it had before, and with both pointers null.
pub ioctl_closes_all :
    (a : Answers) (s : State)
    → s.log_file ≡ none
    → let s' = (ioctl a s).1 in
      (s'.opened ≡ s.opened) × (s'.paths ≡ s.paths) × (s'.file_test ≡ none) × (s'.log_file ≡ none)
unfolding ioctl log_part write_log close_log_file open_log_file delete_file is_directory
    write_to_file open_file close
ioctl_closes_all a s e = ground arith

-- Where the log file cannot be opened, the ioctl returns 0 all the same, as long as the test file can
-- be opened, and the message is not written.
pub ioctl_hides_log_error :
    (a : Answers) (s : State) (file : ℕ) (e : Errno)
    → a.open_test ≡ inr file
    → a.open_log ≡ inl e
    → ((ioctl a s).0 ≡ ok 0) × ((ioctl a s).1.writes ≡ (file, demo_data) ∷ s.writes)
unfolding ioctl log_part write_log close_log_file open_log_file delete_file is_directory
    write_to_file open_file close
ioctl_hides_log_error a s file e h h' = ground arith

-- `read_from_file` stores its closing zero inside the buffer, if `kernel_read` reads no more than it is
-- asked for and the buffer is not empty.
pub read_from_file_bounds :
    (a : Answers) (file len i : ℕ)
    → ((bytes : List ℕ) → a.kernel_read file (len - 1) ≡ inr bytes → length bytes ≤ len - 1)
    → 0 < len
    → (read_from_file a file len).1 ≡ some i
    → i < len
unfolding read_from_file
read_from_file_bounds a file len i law pos h = elim (Sum-cases (a.kernel_read file (len - 1))) [
  | inl (x, e) ↦ ground (arith, h, e)
  | inr (bytes, e) ↦ ground (arith, h, e, law bytes e)
]
