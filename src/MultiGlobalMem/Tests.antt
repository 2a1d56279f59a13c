-- ===== src/MultiGlobalMem/Tests.antt =====
-- multi_globalmem.c: the theorems at concrete inputs.
use learn_linux_drv.Prelude.{
  ℕ, ◌≡◌, refl, length, arith, Bool, true, List, [], ◌∷◌, none, some, ◌==◌, if◌then◌else◌,
}
use learn_linux_drv.Prelude.Int.{pos}
use learn_linux_drv.Kernel.{ebusy}
use learn_linux_drv.Kernel.Memory.{filled, length-filled}
use learn_linux_drv.Kernel.Samples.{good_copy, good_copy-IsUserCopy}
use learn_linux_drv.Kernel.Chrdev.{Answers}
use learn_linux_drv.GlobalMem.{globalmem_size}
use learn_linux_drv.MultiGlobalMem.{System}
use learn_linux_drv.MultiGlobalMem.Isolation.{only, devices_isolated}
use learn_linux_drv.MultiGlobalMem.Sessions.{Call, opens, reads, writes, run, IsValid, AllLawful}

-- Ten blank devices, and no file used yet.
abbrev blank : System
blank = record {
  devp = λ _. record { mem = filled 0 globalmem_size };
  files = λ _. record { private_data = 0; f_pos = pos 0 };
}

-- Files on two devices, with a write to each.
abbrev session : List Call
session =
    opens 0 3
    ∷ opens 1 7
    ∷ writes good_copy 0 5 16
    ∷ writes good_copy 1 6 16
    ∷ reads good_copy 0 0 8
    ∷ []

blank-IsValid : IsValid blank
blank-IsValid = record { full = λ j. length-filled 0 globalmem_size; in_range = λ fd. omega arith }

session-AllLawful : AllLawful session
session-AllLawful =
    (tt, (tt, (good_copy-IsUserCopy, (good_copy-IsUserCopy, (good_copy-IsUserCopy, tt)))))

devices_isolated_example :
    ((run blank session).devp 7 ≡ (run blank (only 7 (λ _. 0) session)).devp 7)
    × ((k : ℕ) → length ((run blank session).devp k).mem ≡ globalmem_size)
devices_isolated_example =
    devices_isolated 7 (λ _. 0) blank session (λ fd. refl) blank-IsValid session-AllLawful

-- A kernel that cannot add the device of index 4, and one without memory.
abbrev not_the_fifth : Answers
not_the_fifth = record {
  register = none;
  alloc = none;
  alloc_major = 240;
  memory = true;
  cdev_add = λ i. if i == 4 then some ebusy else none;
}

abbrev no_memory : Answers
no_memory = record not_the_fifth { memory = Bool.false }
