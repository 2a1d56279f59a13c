-- ===== src/Demo/TaskTests.antt =====
-- The demos on works and on the open files of a task: the theorems at inputs that meet their
-- hypotheses.
use learn_linux_drv.Prelude.{
  ℕ, ◌+◌, ◌≡◌, inl, inr, refl, true, false, [], ◌∷◌, none, some, if◌then◌else◌,
}
use learn_linux_drv.Prelude.Int.{pos, negsuc}
use learn_linux_drv.Prelude.Count.{count}
use learn_linux_drv.Prelude.Steps.{Reach, here, later}
use learn_linux_drv.Kernel.{einval}
use learn_linux_drv.Demo.DumpFds.{File, Task, nothing, dump_fds_show}
use learn_linux_drv.Demo.DumpFds.Lines.{named, is_open, AscendingFrom}
use learn_linux_drv.Demo.DumpFds.Text.{show_lists_open}
use learn_linux_drv.Demo.Semaphores
use learn_linux_drv.Demo.Semaphores.Exit.{exit_ends}
use learn_linux_drv.Demo.Works
use learn_linux_drv.Demo.Works.{
  Work, idle, my_work, work_struct, kthread_worker2, System, Step, AnyStep, closed, releasing,
  start,
}
use learn_linux_drv.Demo.Works.Sessions.{works_are_over, release_returns_idle}

-- A session of 4.work_struct: `cancelable_work` and `my_delayed_work` are cancelled, `my_work` is run.
releasing_one :
    (s : System) × Reach (AnyStep work_struct) (start work_struct) s × (s.phase ≡ releasing)
releasing_one = (
  _,
  later
      (later
        (later
          (later
            (later (later here (Works.ordinary (Works.opens refl)))
              (Works.ordinary (Works.queue refl)))
            (Works.ordinary (Works.queue refl)))
          (Works.ordinary (Works.delay refl)))
        (Works.ordinary (Works.open_returns refl refl)))
      (Works.ordinary (Works.releases refl)),
  refl,
)

session : (s : System) × Reach (AnyStep work_struct) (start work_struct) s × (s.phase ≡ closed)
unfolding releasing_one
session = (
  _,
  later
      (later
        (later
          (later
            (later
              (later
                (later
                  (later
                    (later
                      (later releasing_one.1
                        (Works.ordinary (Works.cancel refl (λ e. cc) (λ e. cc))))
                      (Works.ordinary (Works.cancel_returns refl refl)))
                    (Works.ordinary (Works.cancel refl (λ e. cc) (λ e. cc))))
                  (Works.ordinary (Works.cancel_returns refl refl)))
                (Works.ordinary (Works.begin my_work refl refl (λ e. cc))))
              (Works.ordinary (Works.finish my_work refl)))
            (Works.ordinary (Works.flush_returns refl refl)))
          (Works.ordinary (Works.flush_returns refl refl)))
        (Works.ordinary (Works.flush_returns refl refl)))
      (Works.ordinary (Works.release_returns refl refl)),
  refl,
)

works_are_over_example :
    ((w : Work)
      → (session.0.status w ≡ idle)
        × (session.0.scheduled w ≡ session.0.ran w + session.0.cancelled w))
    × (session.0.alive ≡ true)
    × (session.0.fault ≡ false)
    × (session.0.ran my_work ≡ session.0.scheduled my_work)
unfolding session releasing_one
works_are_over_example = works_are_over work_struct session.0 (inl refl) session.1 tt session.2

release_returns_idle_example :
    (t : System) × Reach (Step work_struct) releasing_one.0 t
    × (t.phase ≡ closed)
    × ((w : Work) → t.status w ≡ idle)
unfolding releasing_one
release_returns_idle_example =
    release_returns_idle work_struct releasing_one.0 (inl refl) releasing_one.1 tt releasing_one.2

-- A task with a table of three slots, the second of which is free.
abbrev plain_file : File
plain_file = record {
  d_path = inr (b'/' ∷ b'a' ∷ []);
  flags = 2;
  mode = 3;
  pos = pos 7;
  f_count = 1;
  inode = none;
  fs_name = none;
  sock = none;
}

abbrev lost_file : File
lost_file = record plain_file { d_path = inl einval }

abbrev shell : Task
shell = record {
  pid = 17;
  comm = b's' ∷ b'h' ∷ [];
  files = some (some plain_file ∷ none ∷ some lost_file ∷ []);
}

show_lists_open_example :
    let text = (dump_fds_show shell (λ p. none) (λ i. true) (negsuc 0) nothing).1 in
    ((fd : ℕ)
      → count fd (named text)
        ≡ (if is_open (some plain_file ∷ none ∷ some lost_file ∷ []) fd then 1 else 0))
    × AscendingFrom 0 (named text)
show_lists_open_example =
    show_lists_open shell (λ p. none) (λ i. true) (negsuc 0) nothing shell _ refl refl

-- What is printed for that task.
shown : named (dump_fds_show shell (λ p. none) (λ i. true) (negsuc 0) nothing).1 ≡ 0 ∷ 2 ∷ []
unfolding named dump_fds_show
shown = refl

-- The writer has its lock, the reader waits for it, and the exit has begun.
both_want : (s : Semaphores.System) × Reach Semaphores.Step Semaphores.loaded s × (s.exit ≡ true)
both_want = (
  _,
  later
      (later
        (later (later here (Semaphores.goes_on Semaphores.writer refl refl))
          (Semaphores.takes Semaphores.writer refl refl))
        (Semaphores.goes_on Semaphores.reader refl refl))
      (Semaphores.exits refl),
  refl,
)

exit_ends_example :
    (u : Semaphores.System) × Reach Semaphores.Step both_want.0 u
    × (u.to_stop ≡ [])
    × ((t : Semaphores.Thread) → u.pc t ≡ Semaphores.returned)
    × (u.locks ≡ Semaphores.initial)
exit_ends_example = exit_ends both_want.0 both_want.1 both_want.2
