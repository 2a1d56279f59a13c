-- ===== src/MultiGlobalMem/Sessions.antt =====
-- multi_globalmem.c: calls on the files of several devices, in sequence, and the bounds of the memories.
use learn_linux_drv.Prelude.{ℕ, ◌≡◌, arith, length, List, [], ◌∷◌}
use learn_linux_drv.Prelude.Int.{ℤ}
use learn_linux_drv.Kernel.{UserCopy, IsUserCopy}
use learn_linux_drv.GlobalMem
use learn_linux_drv.GlobalMem.{globalmem_size}
use learn_linux_drv.GlobalMem.Invariant.{
  InRange, read-InRange, write-IsValid, llseek-InRange, ioctl-full,
}
use learn_linux_drv.MultiGlobalMem.{
  System, dev_of, set_dev, set_pos, open_file, release_file, ioctl, read, write, llseek,
}

-- The calls, each on a file.
pub data Call : Type 0 where
  opens : (fd minor : ℕ) → Call
  releases : (fd : ℕ) → Call
  reads writes : (u : UserCopy) (fd buf size : ℕ) → Call
  ioctls : (fd cmd : ℕ) → Call
  llseeks : (fd : ℕ) (offset orig : ℤ) → Call

unfoldable pub step : System → Call → System
step s (opens fd minor) = (open_file fd minor s).1
step s (releases fd) = (release_file fd s).1
step s (reads u fd buf size) = (read u fd buf size s).1
step s (writes u fd buf size) = (write u fd buf size s).1
step s (ioctls fd cmd) = (ioctl fd cmd s).1
step s (llseeks fd offset orig) = (llseek fd offset orig s).1

unfoldable pub run : System → List Call → System
run s [] = s
run s (c ∷ cs) = run (step s c) cs

-- Every memory has its 4096 bytes, and every position lies in one or at its end.
pub record IsValid (s : System) : Type 0 where
  pub full : (j : ℕ) → length (s.devp j).mem ≡ globalmem_size
  pub in_range : (fd : ℕ) → InRange (s.files fd).f_pos

-- The copies keep their contract.
abbrev pub IsLawful : Call → Type 0
IsLawful (reads u fd buf size) = IsUserCopy u
IsLawful (writes u fd buf size) = IsUserCopy u
IsLawful _ = Unit

abbrev pub AllLawful : List Call → Type 0
AllLawful [] = Unit
AllLawful (c ∷ cs) = IsLawful c × AllLawful cs

set_pos-IsValid : (s : System) (fd : ℕ) (p : ℤ) → IsValid s → InRange p → IsValid (set_pos s fd p)
set_pos-IsValid s fd p v h = record {
  full = v.full;
  in_range = λ k. ground (arith, v.in_range k, h);
}

set_dev-IsValid :
    (s : System) (fd : ℕ) (d : GlobalMem.GlobalmemDev)
    → IsValid s
    → length d.mem ≡ globalmem_size
    → IsValid (set_dev s fd d)
set_dev-IsValid s fd d v h = record {
  full = λ j. ground (arith, v.full j, h);
  in_range = v.in_range;
}

step-IsValid : {s : System} (c : Call) → IsLawful c → IsValid s → IsValid (step s c)
unfolding step open_file release_file ioctl read write llseek
step-IsValid (opens fd minor) law v = record {
  full = v.full;
  in_range = λ k. ground (arith, v.in_range k);
}
step-IsValid (releases fd) law v = v
step-IsValid {s} (reads u fd buf size) law v =
    set_pos-IsValid s fd _ v
      (read-InRange (dev_of s fd) buf size (s.files fd).f_pos law (v.full _) (v.in_range fd))
step-IsValid {s} (writes u fd buf size) law v =
    let w =
      write-IsValid (dev_of s fd) buf size (s.files fd).f_pos law (v.full _) (v.in_range fd) in
    set_pos-IsValid _ fd _ (set_dev-IsValid s fd _ v w.full) w.in_range
step-IsValid {s} (ioctls fd cmd) law v =
    set_dev-IsValid s fd _ v (ioctl-full (dev_of s fd) cmd (v.full _))
step-IsValid {s} (llseeks fd offset orig) law v =
    set_pos-IsValid s fd _ v (llseek-InRange (s.files fd).f_pos offset orig (v.in_range fd))

pub run-IsValid : (cs : List Call) {s : System} → AllLawful cs → IsValid s → IsValid (run s cs)
unfolding run
run-IsValid [] law v = v
run-IsValid (c ∷ cs) law v = run-IsValid cs law.1 (step-IsValid c law.0 v)
