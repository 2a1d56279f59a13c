-- ===== src/Demo/Works.antt =====
-- 00.mDemo/06.thread/4.work_struct/kDemo.c and 3.kthread_worker2/kDemo.c: three works that `open`
-- queues and `release` cancels or waits for. The two functions are given as the lists of the calls
-- that they make; what a call does to the works is the documented behaviour of the kernel. The calls of
-- `open` and `release` come one after the other.
pub mod Overlap
pub mod Analysis
pub mod Levels
pub mod Safety
pub mod Counts
pub mod Rest
pub mod Progress
pub mod Sessions
use learn_linux_drv.Prelude.{
  ℕ, ◌+◌, ◌≡◌, ◌≢◌, Bool, true, false, not, ◌||◌, List, [], ◌∷◌, if◌then◌else◌,
}

-- The static works of both files.
pub data Work : Type 0 where
  my_work cancelable_work my_delayed_work : Work

-- What a work does: nothing, waiting for its timer, waiting for a worker, or running its handler.
pub data Status : Type 0 where
  idle timed queued running : Status

-- The kernel calls, each with the work that it names.
pub data Call : Type 0 where
  -- INIT_WORK and schedule_work, kthread_init_work and kthread_queue_work
  queues : Work → Call
  -- INIT_DELAYED_WORK and schedule_delayed_work, and those of kthread
  delays : Work → Call
  -- cancel_work_sync, cancel_delayed_work_sync, and those of kthread
  cancels : Work → Call
  -- flush_work and flush_delayed_work
  flushes : Work → Call
  -- kthread_flush_worker
  flushes_all : Call
  -- kthread_run of worker_thread_fn, and kthread_stop
  runs_thread stops_thread : Call

-- `open` and `release`, whether there are workers before `open`, and whether one thread runs all works.
pub record Driver : Type 0 where
  pub open_calls : List Call
  pub release_calls : List Call
  pub ready : Bool
  pub serial : Bool

-- 4.work_struct: the works run on the kernel's own work queue.
abbrev pub work_struct : Driver
work_struct = record {
  open_calls = queues my_work ∷ queues cancelable_work ∷ delays my_delayed_work ∷ [];
  release_calls =
      cancels cancelable_work
      ∷ cancels my_delayed_work
      ∷ flushes my_work
      ∷ flushes cancelable_work
      ∷ flushes my_delayed_work
      ∷ [];
  ready = true;
  serial = false;
}

-- 3.kthread_worker2: `open` starts the thread that runs the works, and `release` stops it.
abbrev pub kthread_worker2 : Driver
kthread_worker2 = record {
  open_calls = runs_thread ∷ queues my_work ∷ delays my_delayed_work ∷ queues cancelable_work ∷ [];
  release_calls =
      cancels cancelable_work ∷ cancels my_delayed_work ∷ flushes_all ∷ stops_thread ∷ [];
  ready = false;
  serial = true;
}

pub data Phase : Type 0 where
  closed opening opened releasing : Phase

-- `calls` is what is left of the function that runs. `alive` tells whether works can be run. `fault`
-- tells whether a work was ever initialised while it was not idle. The counts tell how often each work
-- was queued, run to its end, and cancelled. `others` is how many more files are open than the one whose
-- phase this is.
pub record System : Type 0 where
  pub phase : Phase
  pub calls : List Call
  pub status : Work → Status
  pub alive : Bool
  pub fault : Bool
  pub scheduled : Work → ℕ
  pub ran : Work → ℕ
  pub cancelled : Work → ℕ
  pub others : ℕ

abbrev pub same : Work → Work → Bool
same my_work my_work = true
same cancelable_work cancelable_work = true
same my_delayed_work my_delayed_work = true
same _ _ = false

-- A family of three, changed at one work.
abbrev pub put {ℓ} : {A : Type ℓ} → Work → A → (Work → A) → Work → A
put w a f v = if same w v then a else f v

abbrev pub is_idle : Status → Bool
is_idle idle = true
is_idle _ = false

abbrev pub start : Driver → System
start d = record {
  phase = closed;
  calls = [];
  status = λ w. idle;
  alive = d.ready;
  fault = false;
  scheduled = λ w. 0;
  ran = λ w. 0;
  cancelled = λ w. 0;
  others = 0;
}

-- A work that `open` sets up anew, and that then waits with status `p`.
abbrev pub set_up : (w : Work) (p : Status) (rest : List Call) → System → System
set_up w p rest s = record s {
  calls = rest;
  status = put w p s.status;
  fault = s.fault || not (is_idle (s.status w));
  scheduled = put w (s.scheduled w + 1) s.scheduled;
}

-- One step of a driver of which no second file is opened. `AnyStep` has the other steps.
pub data Step (d : Driver) (s : System) : System → Type 0 where
  opens : s.phase ≡ closed → Step d s (record s { phase = opening; calls = d.open_calls })
  open_returns : s.phase ≡ opening → s.calls ≡ [] → Step d s (record s { phase = opened })
  releases : s.phase ≡ opened → Step d s (record s { phase = releasing; calls = d.release_calls })
  release_returns : s.phase ≡ releasing → s.calls ≡ [] → Step d s (record s { phase = closed })
  queue :
      {w : Work} {rest : List Call} → s.calls ≡ queues w ∷ rest → Step d s (set_up w queued rest s)
  delay :
      {w : Work} {rest : List Call} → s.calls ≡ delays w ∷ rest → Step d s (set_up w timed rest s)
  -- the work was pending, and is taken off
  cancel :
      {w : Work} {rest : List Call}
      → s.calls ≡ cancels w ∷ rest
      → s.status w ≢ idle
      → s.status w ≢ running
      → Step d s (record s {
        status = put w idle s.status;
        cancelled = put w (s.cancelled w + 1) s.cancelled;
      })
  -- the call returns when the handler does not run
  cancel_returns :
      {w : Work} {rest : List Call}
      → s.calls ≡ cancels w ∷ rest
      → s.status w ≡ idle
      → Step d s (record s { calls = rest })
  -- flush_delayed_work does not wait for the timer
  expedite :
      {w : Work} {rest : List Call}
      → s.calls ≡ flushes w ∷ rest
      → s.status w ≡ timed
      → Step d s (record s { status = put w queued s.status })
  flush_returns :
      {w : Work} {rest : List Call}
      → s.calls ≡ flushes w ∷ rest
      → s.status w ≡ idle
      → Step d s (record s { calls = rest })
  -- what still waits for its timer is not waited for
  flush_all_returns :
      {rest : List Call}
      → s.calls ≡ flushes_all ∷ rest
      → ((w : Work) → s.status w ≢ queued)
      → ((w : Work) → s.status w ≢ running)
      → Step d s (record s { calls = rest })
  run_thread :
      {rest : List Call}
      → s.calls ≡ runs_thread ∷ rest
      → Step d s (record s { calls = rest; alive = true })
  -- kthread_run fails, and `open` returns its error
  run_thread_fails :
      {rest : List Call}
      → s.phase ≡ opening
      → s.calls ≡ runs_thread ∷ rest
      → Step d s (record s { phase = closed; calls = [] })
  -- the thread ends when it runs no handler, whatever is queued
  stop_thread :
      {rest : List Call}
      → s.calls ≡ stops_thread ∷ rest
      → ((w : Work) → s.status w ≢ running)
      → Step d s (record s { calls = rest; alive = false })
  -- the timer of a work, its handler's start, and its end
  fire : (w : Work) → s.status w ≡ timed → Step d s (record s { status = put w queued s.status })
  begin :
      (w : Work)
      → s.status w ≡ queued
      → s.alive ≡ true
      → (d.serial ≡ true → (v : Work) → s.status v ≢ running)
      → Step d s (record s { status = put w running s.status })
  finish :
      (w : Work)
      → s.status w ≡ running
      → Step d s (record s { status = put w idle s.status; ran = put w (s.ran w + 1) s.ran })

-- One step of the driver. A second file may be opened while one is open, and when a file is closed,
-- another one may still be open.
pub data AnyStep (d : Driver) (s : System) : System → Type 0 where
  ordinary : {t : System} → Step d s t → AnyStep d s t
  opens_again :
      s.phase ≡ opened
      → AnyStep d s (record s { phase = opening; calls = d.open_calls; others = s.others + 1 })
  one_left :
      {n : ℕ}
      → s.phase ≡ closed
      → s.others ≡ n + 1
      → AnyStep d s (record s { phase = opened; others = n })
