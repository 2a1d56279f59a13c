-- ===== src/GlobalFifo/System.antt =====
-- ch12/globalfifo.c: threads that call the device's operations, interleaved in any order. What a
-- thread does while it holds the mutex is one step, since no other thread touches the device
-- meanwhile; setting the task state and releasing the mutex before `schedule` is one step too,
-- since every wake-up is sent under the mutex. The signal that ends a wait may come at any time.
pub mod Invariant
pub mod Wakeup
pub mod Safety
pub mod Unlink
pub mod Strand
mod Tests
use learn_linux_drv.Prelude.{
  ℕ, ◌≡◌, Bool, true, false, not, ◌||◌, List, [], ◌∷◌, Option, none, some, update, ◌==◌,
  if◌then◌else◌,
}
use learn_linux_drv.Kernel.{Errno, eagain, erestartsys, Ret, ok, err, IsUserCopy}
use learn_linux_drv.Kernel.Copy.{Memcpy}
use learn_linux_drv.GlobalFifo.{
  GlobalfifoDev, WaitQueue, r_wait, w_wait, Event, Outcome, Request, read_blocks, write_blocks,
  read_out, write_in, ioctl, poll, fifo_clear,
}

-- The calls of a client.
pub data Job : Type 0 where
  reads writes : Request → Job
  ioctls : (cmd : ℕ) → Job
  polls : Job

-- The wait queue that a call puts its thread on, if any.
pub queue_of : Job → Option WaitQueue
queue_of (reads r) = some r_wait
queue_of (writes r) = some w_wait
queue_of (ioctls cmd) = none
queue_of polls = none

-- The test of a call's waiting loop.
unfoldable pub blocks : Job → GlobalfifoDev → Bool
blocks (reads r) dev = read_blocks dev
blocks (writes r) dev = write_blocks dev
blocks (ioctls cmd) dev = false
blocks polls dev = false

pub nonblocking : Job → Bool
nonblocking (reads r) = r.nonblock
nonblocking (writes r) = r.nonblock
nonblocking (ioctls cmd) = false
nonblocking polls = false

-- An unknown ioctl returns before it takes the mutex.
pub locks : Job → Bool
locks (ioctls cmd) = cmd == fifo_clear
locks (reads r) = true
locks (writes r) = true
locks polls = true

-- What a call does under the mutex when it does not wait.
unfoldable pub operate : Memcpy → Job → GlobalfifoDev → Outcome
operate memcpy (reads r) dev = read_out memcpy r dev
operate memcpy (writes r) dev = write_in r dev
operate memcpy (ioctls cmd) dev = ioctl cmd dev
operate memcpy polls dev = poll dev

-- The copies of a call keep their contract.
abbrev pub IsLawful : Job → Type 0
IsLawful (reads r) = IsUserCopy r.copy
IsLawful (writes r) = IsUserCopy r.copy
IsLawful _ = Unit

-- Where a thread stands.
pub data Pc : Type 0 where
  -- outside the driver
  idle : Pc
  -- before `mutex_lock`
  entering : Job → Pc
  -- at the loop's test, with the mutex
  testing : Job → Pc
  -- in `schedule`, without the mutex
  asleep : Job → Pc
  -- `schedule` has returned
  woken : Job → Pc
  -- at the label `out`, with the mutex
  leaving : Job → Ret → Pc
  -- at the label `out2`
  unlinking : Job → Ret → Pc
  returned : Job → Ret → Pc

-- `linked` is the wait queue that a thread's entry is on. `misused` tells whether an entry was ever
-- removed under the name of a queue that it was not on. `log` has the changes of the contents, the
-- last one first; both serve the statements only.
pub record System : Type 0 where
  pub dev : GlobalfifoDev
  pub owner : Option ℕ
  pub pc : ℕ → Pc
  pub linked : ℕ → Option WaitQueue
  pub misused : Bool
  pub log : List Event

abbrev pub same_queue : (q q' : Option WaitQueue) → Bool
same_queue (some r_wait) (some r_wait) = true
same_queue (some w_wait) (some w_wait) = true
same_queue none none = true
same_queue _ _ = false

abbrev pub rouse : Pc → Pc
rouse (asleep job) = woken job
rouse p = p

-- `wake_up_interruptible`, for one thread.
pub woken_by : (wakes linked : Option WaitQueue) → Pc → Pc
woken_by none linked p = p
woken_by (some q) linked p = if same_queue (some q) linked then rouse p else p

unfoldable pub logged : Option Event → List Event → List Event
logged none log = log
logged (some e) log = e ∷ log

-- A call that has no wait-queue entry returns as soon as it has released the mutex.
pub behind_unlock : Job → Ret → Pc
behind_unlock (reads r) ret = unlinking (reads r) ret
behind_unlock (writes r) ret = unlinking (writes r) ret
behind_unlock job ret = returned job ret

-- One step of thread `i`.
pub data Step (memcpy : Memcpy) (s : System) : System → Type 0 where
  call :
      (i : ℕ) (job : Job)
      → s.pc i ≡ idle
      → Step memcpy s (record s { pc = update s.pc i (entering job) })
  again :
      (i : ℕ) {job : Job} {ret : Ret}
      → s.pc i ≡ returned job ret
      → Step memcpy s (record s { pc = update s.pc i idle })
  reject :
      (i : ℕ) {job : Job}
      → s.pc i ≡ entering job
      → locks job ≡ false
      → Step memcpy s
          (record s { pc = update s.pc i (returned job (operate memcpy job s.dev).ret) })
  -- `mutex_lock`, and `add_wait_queue`
  lock :
      (i : ℕ) {job : Job}
      → s.pc i ≡ entering job
      → locks job ≡ true
      → s.owner ≡ none
      → Step memcpy s (record s {
        owner = some i;
        pc = update s.pc i (testing job);
        linked = update s.linked i (queue_of job);
      })
  refuse :
      (i : ℕ) {job : Job}
      → s.pc i ≡ testing job
      → blocks job s.dev ≡ true
      → nonblocking job ≡ true
      → Step memcpy s (record s { pc = update s.pc i (leaving job (err eagain)) })
  sleep :
      (i : ℕ) {job : Job}
      → s.pc i ≡ testing job
      → blocks job s.dev ≡ true
      → nonblocking job ≡ false
      → Step memcpy s (record s { owner = none; pc = update s.pc i (asleep job) })
  -- a signal ends the wait
  interrupt :
      (i : ℕ) {job : Job}
      → s.pc i ≡ asleep job
      → Step memcpy s (record s { pc = update s.pc i (unlinking job (err erestartsys)) })
  signalled :
      (i : ℕ) {job : Job}
      → s.pc i ≡ woken job
      → Step memcpy s (record s { pc = update s.pc i (unlinking job (err erestartsys)) })
  relock :
      (i : ℕ) {job : Job}
      → s.pc i ≡ woken job
      → s.owner ≡ none
      → Step memcpy s (record s { owner = some i; pc = update s.pc i (testing job) })
  work :
      (i : ℕ) {job : Job}
      → s.pc i ≡ testing job
      → blocks job s.dev ≡ false
      → IsLawful job
      → Step memcpy s (
          let o = operate memcpy job s.dev in
          record s {
            dev = o.dev;
            pc = update (λ j. woken_by o.wakes (s.linked j) (s.pc j)) i (leaving job o.ret);
            log = logged o.event s.log;
          })
  unlock :
      (i : ℕ) {job : Job} {ret : Ret}
      → s.pc i ≡ leaving job ret
      → Step memcpy s (record s { owner = none; pc = update s.pc i (behind_unlock job ret) })
  -- `remove_wait_queue(&dev->w_wait, &wait)`, in `globalfifo_read` too. The entry leaves the list
  -- that it is on.
  unlink :
      (i : ℕ) {job : Job} {ret : Ret}
      → s.pc i ≡ unlinking job ret
      → Step memcpy s (record s {
        pc = update s.pc i (returned job ret);
        linked = update s.linked i none;
        misused = s.misused || not (same_queue (some w_wait) (s.linked i));
      })

-- What can happen from a system on.
pub data Reach (memcpy : Memcpy) (s : System) : System → Type 0 where
  here : Reach memcpy s s
  later : {t u : System} → Reach memcpy s t → Step memcpy t u → Reach memcpy s u

-- A device just probed (`devm_kzalloc`), with every thread outside the driver.
abbrev pub at_rest : GlobalfifoDev → System
at_rest dev = record {
  dev = dev;
  owner = none;
  pc = λ _. idle;
  linked = λ _. none;
  misused = false;
  log = [];
}
