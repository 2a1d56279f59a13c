-- ===== src/GlobalFifo/System/Tests.antt =====
-- ch12/globalfifo.c: short schedules, and the theorems at inputs that meet their hypotheses.
use learn_linux_drv.Prelude.{
  ℕ, ◌≡◌, ◌≢◌, refl, true, false, [], ◌∷◌, ◌++◌, none, arith, drop, ◌==◌, if◌then◌else◌,
}
use learn_linux_drv.Kernel.{ok, err, erestartsys}
use learn_linux_drv.Kernel.Memory.{filled, length-filled}
use learn_linux_drv.Kernel.Copy.{Memcpy, IsMemcpy}
use learn_linux_drv.Kernel.Samples.{good_copy, good_copy-IsUserCopy, forward, forward-IsMemcpy}
use learn_linux_drv.GlobalFifo.{
  GlobalfifoDev, Request, globalfifo_size, fifo_clear, read_out, write_in, read_blocks, clip,
  write_blocks,
}
use learn_linux_drv.GlobalFifo.Queue.{
  IsValid, contents, seen, dequeue, enqueue, read_half, write_refines,
}
use learn_linux_drv.GlobalFifo.Files.{FasyncHelper, without}
use learn_linux_drv.Kernel.Chrdev.{Answers}
use learn_linux_drv.GlobalFifo.Queue.Overlap.{overlap_may_corrupt}
use learn_linux_drv.GlobalFifo.System.{
  reads, writes, ioctls, System, call, lock, work, sleep, interrupt, unlink, unlock, behind_unlock,
  woken_by, Reach, here, later, at_rest, operate, blocks, nonblocking, locks, logged,
}
use learn_linux_drv.GlobalFifo.System.Invariant.{Accepts}
use learn_linux_drv.GlobalFifo.System.Safety.{
  mutual_exclusion, AllApart, interleavings_accepted, bytes_put, bytes_got, bytes_conserved,
}
use learn_linux_drv.GlobalFifo.System.Wakeup.{writer_sleeps_full}
use learn_linux_drv.GlobalFifo.System.Unlink.{read_unlinks_wrong_queue}
use learn_linux_drv.GlobalFifo.Plain.{PlainSystem}
use learn_linux_drv.GlobalFifo.Plain.Simulation.{PlainReach, fresh, forget_system, plain_bisimilar}

abbrev empty_dev : GlobalfifoDev
empty_dev = record { current_len = 0; mem = filled 0 globalfifo_size; async_queue = [] }

abbrev full_dev : GlobalfifoDev
full_dev = record empty_dev { current_len = globalfifo_size }

abbrev some_dev : GlobalfifoDev
some_dev = record empty_dev { current_len = 10 }

empty_dev-IsValid : IsValid empty_dev
empty_dev-IsValid = record { full = length-filled 0 globalfifo_size; bounded = omega arith }

full_dev-IsValid : IsValid full_dev
full_dev-IsValid = record { full = length-filled 0 globalfifo_size; bounded = omega arith }

some_dev-IsValid : IsValid some_dev
some_dev-IsValid = record { full = length-filled 0 globalfifo_size; bounded = omega arith }

-- Three bytes from or to address 7.
abbrev three : Request
three = record { copy = good_copy; buf = 7; count = 3; nonblock = false }

write_refines_example : seen (write_in three some_dev) ≡ enqueue three (contents some_dev)
write_refines_example = write_refines three good_copy-IsUserCopy some_dev-IsValid

abbrev eight : Request
eight = record three { count = 8 }

read_half_example : seen (read_out forward eight some_dev) ≡ dequeue eight (contents some_dev)
read_half_example = read_half forward eight forward-IsMemcpy some_dev-IsValid (omega arith)

overlap_may_corrupt_example :
    (memcpy : Memcpy) × IsMemcpy memcpy
    × (contents (read_out memcpy three some_dev).dev ≢ drop 3 (contents some_dev))
overlap_may_corrupt_example =
    overlap_may_corrupt three some_dev some_dev-IsValid (omega arith) (omega arith) refl

-- Thread 0 has written three bytes and still has the mutex.
abbrev wrote : (s : System) × Reach forward (at_rest empty_dev) s
unfolding blocks write_blocks locks
wrote = (
  _,
  later (later (later here (call 0 (writes three) refl)) (lock 0 refl refl refl))
      (work 0 refl refl good_copy-IsUserCopy),
)

-- Thread 1 has then read them.
abbrev passed_on : (s : System) × Reach forward (at_rest empty_dev) s
unfolding wrote operate write_in blocks read_blocks locks behind_unlock woken_by clip
passed_on = (
  _,
  later
      (later
        (later (later (later wrote.1 (unlock 0 refl)) (unlink 0 refl)) (call 1 (reads three) refl))
        (lock 1 refl refl refl))
      (work 1 refl refl good_copy-IsUserCopy),
)

passed_on-AllApart : AllApart passed_on.1
unfolding wrote passed_on operate write_in blocks read_blocks locks behind_unlock woken_by clip
passed_on-AllApart = ((((((((tt, tt), tt), tt), tt), tt), tt), tt), omega arith)

-- Thread 1 sleeps in a read of the empty device.
abbrev reader_slept : (s : System) × Reach forward (at_rest empty_dev) s
unfolding blocks read_blocks locks nonblocking
reader_slept = (
  _,
  later (later (later here (call 1 (reads three) refl)) (lock 1 refl refl refl))
      (sleep 1 refl refl refl),
)

-- Thread 1 sleeps in a write of a full device.
abbrev writer_slept : (s : System) × Reach forward (at_rest full_dev) s
unfolding blocks write_blocks locks nonblocking
writer_slept = (
  _,
  later (later (later here (call 1 (writes three) refl)) (lock 1 refl refl refl))
      (sleep 1 refl refl refl),
)

-- A signal has ended the read.
abbrev read_returned : (s : System) × Reach forward (at_rest empty_dev) s
unfolding reader_slept
read_returned = (_, later (later reader_slept.1 (interrupt 1 refl)) (unlink 1 refl))

bytes_conserved_example :
    bytes_put passed_on.0.log ≡ bytes_got passed_on.0.log ++ contents passed_on.0.dev
unfolding wrote passed_on operate write_in read_out logged blocks read_blocks locks behind_unlock
    woken_by clip
bytes_conserved_example =
    bytes_conserved forward-IsMemcpy empty_dev-IsValid refl passed_on.1 passed_on-AllApart tt

interleavings_accepted_example : Accepts passed_on.0.log (contents passed_on.0.dev)
unfolding wrote passed_on operate write_in blocks read_blocks locks behind_unlock woken_by clip
interleavings_accepted_example =
    interleavings_accepted forward-IsMemcpy empty_dev-IsValid refl passed_on.1 passed_on-AllApart

mutual_exclusion_example : ◌≡◌ {A = ℕ} 0 0
unfolding wrote
mutual_exclusion_example = mutual_exclusion forward-IsMemcpy empty_dev-IsValid wrote.1 0 0 refl refl

writer_sleeps_full_example : writer_slept.0.dev.current_len ≡ globalfifo_size
unfolding writer_slept
writer_sleeps_full_example =
    writer_sleeps_full forward-IsMemcpy full_dev-IsValid writer_slept.1 tt 1 three refl

-- A writer sleeps on a full device, and thread 0 is about to clear it.
abbrev clearing : (s : System) × Reach forward (at_rest full_dev) s
unfolding writer_slept locks
clearing =
    (_, later (later writer_slept.1 (call 0 (ioctls fifo_clear) refl)) (lock 0 refl refl refl))

read_unlinks_wrong_queue_example : read_returned.0.misused ≡ true
unfolding read_returned reader_slept
read_unlinks_wrong_queue_example =
    read_unlinks_wrong_queue forward-IsMemcpy empty_dev-IsValid read_returned.1 1 three
      (err erestartsys) refl

-- `fasync_helper` on modes 0 and 1.
abbrev helper : FasyncHelper
helper fd filp mode queue = if mode == 0 then (ok 0, without filp queue) else (ok 1, filp ∷ queue)

abbrev watched : GlobalfifoDev
watched = record some_dev { async_queue = 5 ∷ [] }

-- A kernel that grants everything.
abbrev all_well : Answers
all_well = record {
  register = none;
  alloc = none;
  alloc_major = 240;
  memory = true;
  cdev_add = λ i. none;
}

plain_bisimilar_example :
    ((q : PlainSystem)
      → PlainReach forward q
      → (s : System) × Reach forward (at_rest fresh) s × (forget_system s ≡ q))
    × ((s : System) → Reach forward (at_rest fresh) s → PlainReach forward (forget_system s))
plain_bisimilar_example = plain_bisimilar forward
