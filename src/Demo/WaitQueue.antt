-- ===== src/Demo/WaitQueue.antt =====
-- 00.mDemo/07.thread_sync/5.wait_queue/kDemo.c: a thread that waits for a condition, one that waits
-- for another with a timeout, and the functions that set the conditions and stop the thread.
pub mod Unload
use learn_linux_drv.Prelude.{ℕ, ◌≡◌, Bool, true, false, Option, none, some, if◌then◌else◌}
use learn_linux_drv.Kernel.{Errno, Ret, ok, err}
use learn_linux_drv.Kernel.Chrdev.{LoadAnswers}
use learn_linux_drv.Demo.{Registered, register, unregister}

-- Where `thread_func` stands.
pub data Worker : Type 0 where
  -- there is no such thread
  absent : Worker
  -- at `kthread_should_stop`
  looping : Worker
  -- `wait_event_interruptible` looks at the condition
  checking : Worker
  -- it sleeps on the queue
  asleep : Worker
  -- behind it
  working : Worker
  -- it has returned
  done : Worker

-- Where `waiter_thread_fn` stands: it has looked at its condition and sleeps, or it has returned.
pub data Waiter : Type 0 where
  unborn starting sleeping returned : Waiter

-- How far `m_chr_exit` is.
pub data Exit : Type 0 where
  -- not called
  loaded : Exit
  -- in `kthread_stop`
  joining : Exit
  -- done
  gone : Exit

pub record System : Type 0 where
  pub condition : Bool
  pub condition_timeout : Bool
  pub worker : Worker
  pub waiter : Waiter
  pub should_stop : Bool
  pub exit : Exit

-- `m_chrdev_open` sets both conditions, and wakes nobody.
pub open_device : System → System
open_device s = record s { condition_timeout = true; condition = true }

-- `m_chr_init` behind the registration, by what `kthread_create` and `kthread_run` answer. Where the
-- second fails, `thread` is set to null first, and PTR_ERR(NULL) is 0.
unfoldable pub start_threads : (waiter thread : Option Errno) → Ret × System
start_threads waiter thread =
    let s : System = record {
      condition = false;
      condition_timeout = false;
      worker = absent;
      waiter = unborn;
      should_stop = false;
      exit = loaded;
    } in
    elim waiter [
      | some e ↦ (err e, s)
      | none ↦ elim thread [
        | some e ↦ (ok 0, record s { waiter = starting })
        | none ↦ (ok 0, record s { waiter = starting; worker = looping })
      ]
    ]

unfoldable pub init :
    LoadAnswers → (waiter thread : Option Errno) → Option (Ret × Registered × System)
init a waiter thread = elim (register a) [
  | none ↦ none
  | some r ↦ some ((start_threads waiter thread).0, r, (start_threads waiter thread).1)
]

-- `kthread_stop` wakes the thread and ends its wait as a signal does: `wait_event_interruptible` looks at
-- its condition once more, and gives up where it is false.
unfoldable pub roused : Worker → Worker
roused asleep = checking
roused w = w

-- One step of a thread, of a process that opens the device, or of the module's exit. A kernel thread
-- gets no other signal.
pub data Step (s : System) : System → Type 0 where
  opens : s.exit ≡ loaded → Step s (open_device s)
  loops : s.worker ≡ looping → s.should_stop ≡ false → Step s (record s { worker = checking })
  leaves : s.worker ≡ looping → s.should_stop ≡ true → Step s (record s { worker = done })
  passes : s.worker ≡ checking → s.condition ≡ true → Step s (record s { worker = working })
  sleeps :
      s.worker ≡ checking
      → s.condition ≡ false
      → s.should_stop ≡ false
      → Step s (record s { worker = asleep })
  -- the wait is interrupted, and the thread returns
  gives_up :
      s.worker ≡ checking
      → s.condition ≡ false
      → s.should_stop ≡ true
      → Step s (record s { worker = done })
  works : s.worker ≡ working → Step s (record s { condition = false; worker = looping })
  waiter_passes :
      s.waiter ≡ starting → s.condition_timeout ≡ true → Step s (record s { waiter = returned })
  waiter_sleeps :
      s.waiter ≡ starting → s.condition_timeout ≡ false → Step s (record s { waiter = sleeping })
  -- the timeout ends its sleep, whatever the condition is then
  expires : s.waiter ≡ sleeping → Step s (record s { waiter = returned })
  -- `kthread_stop(thread)`
  stops :
      s.exit ≡ loaded
      → (s.worker ≡ absent → ⊥)
      → Step s (record s { should_stop = true; worker = roused s.worker; exit = joining })
  -- `thread` is null
  skips : s.exit ≡ loaded → s.worker ≡ absent → Step s (record s { exit = gone })
  -- `kthread_stop` returns, and the rest of `m_chr_exit`
  joins : s.exit ≡ joining → s.worker ≡ done → Step s (record s { exit = gone })
