-- ===== src/GlobalMem/Tests.antt =====
-- globalmem.c: the functions on concrete inputs, and the theorems at inputs that meet their
-- hypotheses.
use learn_linux_drv.Prelude.{◌≡◌, refl, List, [], ◌∷◌, none, some, Bool, true, arith, length}
use learn_linux_drv.Prelude.Int.{pos, negsuc, to_u64, add_s64}
use learn_linux_drv.Kernel.{ok, err, einval, ebusy}
use learn_linux_drv.Kernel.Memory.{filled, length-filled}
use learn_linux_drv.Kernel.Samples.{good_copy, good_copy-IsUserCopy}
use learn_linux_drv.Kernel.Chrdev.{Answers}
use learn_linux_drv.GlobalMem.{GlobalmemDev, globalmem_size, read, write, llseek}
use learn_linux_drv.GlobalMem.Access.{pread, read-eq-pread, read-write}
use learn_linux_drv.GlobalMem.Invariant.{
  Call, reads, writes, ioctls, llseeks, IsValid, run, run-IsValid,
}
use learn_linux_drv.GlobalMem.Seek.{lseek, llseek-eq-lseek}

abbrev blank : GlobalmemDev
blank = record { mem = filled 0 globalmem_size }

blank_full : length blank.mem ≡ globalmem_size
blank_full = length-filled 0 globalmem_size

seek_back : llseek (pos 10) (negsuc 3) (pos 1) ≡ (ok 6, pos 6)
unfolding llseek add_s64
seek_back = refl

seek_far : llseek (pos 10) (pos 0x1001) (pos 0) ≡ (err einval, pos 10)
unfolding llseek to_u64
seek_far = refl

read-eq-pread_example : read good_copy blank 7 100 (pos 4000) ≡ pread good_copy blank 7 100 4000
read-eq-pread_example = read-eq-pread blank 7 100 4000 good_copy-IsUserCopy blank_full (omega arith)

read-write_example :
    let w = write good_copy blank 7 100 (pos 4000) in
    (w.ret ≡ ok 96)
    × (read good_copy w.dev 9 100 (pos 4000)
        ≡ record { ret = ok 96; ppos = pos 4096; user = filled 7 96 })
read-write_example =
    read-write blank 7 9 100 4000 good_copy-IsUserCopy good_copy-IsUserCopy blank_full (omega arith)
      refl refl

abbrev session : List Call
session = writes good_copy 7 100 ∷ llseeks (pos 50) (pos 0) ∷ reads good_copy 9 10 ∷ ioctls 1 ∷ []

run-IsValid_example : IsValid (run (record { dev = blank; f_pos = pos 0 }) session)
run-IsValid_example =
    run-IsValid session (good_copy-IsUserCopy, (tt, (good_copy-IsUserCopy, (tt, tt))))
      (record { full = blank_full; in_range = omega arith })

llseek-eq-lseek_example : llseek (pos 10) (negsuc 3) (pos 1) ≡ lseek 10 (negsuc 3) (pos 1)
llseek-eq-lseek_example = llseek-eq-lseek 10 (negsuc 3) (pos 1) (omega arith) (omega arith) tt

-- A kernel without memory, one where all goes well, and one that cannot add the device.
abbrev no_memory : Answers
no_memory = record {
  register = none;
  alloc = none;
  alloc_major = 240;
  memory = Bool.false;
  cdev_add = λ i. none;
}

abbrev all_well : Answers
all_well = record no_memory { memory = true }

abbrev no_cdev : Answers
no_cdev = record all_well { cdev_add = λ i. some ebusy }
