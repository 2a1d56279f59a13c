-- ===== src/GlobalFifo/Clients/Tests.antt =====
-- The programs that use the FIFO: the theorems at inputs that meet their hypotheses.
use learn_linux_drv.Prelude.{◌≡◌, refl, true, false, [], none, some, inr, arith, length, ◌==◌}
use learn_linux_drv.Prelude.Int.{pos}
use learn_linux_drv.Prelude.Steps.{Reach, here, later}
use learn_linux_drv.Kernel.Memory.{filled, length-filled}
use learn_linux_drv.Kernel.Samples.{good_copy, good_copy-IsUserCopy, forward}
use learn_linux_drv.GlobalFifo.{
  GlobalfifoDev, Request, globalfifo_size, read_out, write_in, write_blocks, ioctl, poll, clip,
}
use learn_linux_drv.GlobalFifo.Queue.{IsValid, contents}
use learn_linux_drv.GlobalFifo.System.{writes, operate, blocks, logged}
use learn_linux_drv.GlobalFifo.Clients.{monitor_round, expected, monitor_never_waits}
use learn_linux_drv.GlobalFifo.Clients.Epoll
use learn_linux_drv.GlobalFifo.Clients.Epoll.{
  System, Step, started, reported, wrote, report_has_cause,
}
use learn_linux_drv.GlobalFifo.Clients.Aior.{Answers}

abbrev ten_bytes : GlobalfifoDev
ten_bytes = record { current_len = 10; mem = filled 0 globalfifo_size; async_queue = [] }

ten_bytes-IsValid : IsValid ten_bytes
ten_bytes-IsValid = record { full = length-filled 0 globalfifo_size; bounded = omega arith }

monitor_never_waits_example :
    monitor_round ten_bytes
    ≡ some (
        expected
          (length (contents ten_bytes) == 0)
          (length (contents ten_bytes) == globalfifo_size))
monitor_never_waits_example = monitor_never_waits ten_bytes ten_bytes-IsValid

abbrev three : Request
three = record { copy = good_copy; buf = 7; count = 3; nonblock = false }

-- The program clears the queue and waits, another process writes three bytes, and the program reports it.
session : (s : System) × Reach (Step forward) (started ten_bytes) s × (reported s.printed ≡ true)
unfolding operate write_in read_out ioctl poll blocks clip logged reported write_blocks
session = (
  _,
  later
      (later
        (later
          (later (later (later here (Epoll.opens refl)) (Epoll.clears refl)) (Epoll.creates refl))
          (Epoll.adds refl))
        (Epoll.other (writes three) refl good_copy-IsUserCopy))
      (Epoll.receives refl refl),
  refl,
)

report_has_cause_example : wrote session.0.changes ≡ true
report_has_cause_example = report_has_cause session.1 session.2

-- Everything succeeds.
abbrev answered : Answers
answered = record {
  has_argument = true;
  opens = true;
  posix_memalign = pos 0;
  io_setup = none;
  io_submit = inr 1;
  io_getevents = inr 1;
  res2 = 0;
  io_destroy = none;
  io_destroy_err3 = none;
}
