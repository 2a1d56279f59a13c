-- ===== src/GlobalFifo/Plain.antt =====
-- 06.char_drv/2.platform_cdev/globalfifo/ch8/globalfifo.c: the FIFO's first version, whose device has no
-- queue for SIGIO, and threads that call its operations, in the steps of `GlobalFifo.System`.
pub mod Simulation
use learn_linux_drv.Prelude.{
  ℕ, ◌+◌, ◌-◌, ◌≡◌, Bool, true, false, not, ◌||◌, List, [], Option, none, some, take, overwrite,
  update, ◌==◌, if◌then◌else◌,
}
use learn_linux_drv.Kernel.{einval, efault, eagain, erestartsys, Ret, ok, err}
use learn_linux_drv.Kernel.Memory.{filled}
use learn_linux_drv.Kernel.Copy.{Memcpy}
use learn_linux_drv.GlobalFifo.{
  globalfifo_size, fifo_clear, WaitQueue, r_wait, w_wait, Event, put, got, cleared, Request, clip,
  pollin_mask, pollout_mask,
}
use learn_linux_drv.GlobalFifo.System.{
  Job, reads, writes, ioctls, polls, queue_of, nonblocking, locks, IsLawful, Pc, idle, entering,
  testing, asleep, woken, leaving, unlinking, returned, same_queue, woken_by, logged, behind_unlock,
}

pub record PlainDev : Type 0 where
  pub current_len : ℕ
  pub mem : List ℕ

-- What an operation does under the mutex.
pub record PlainOutcome : Type 0 where
  pub ret : Ret
  pub dev : PlainDev
  pub wakes : Option WaitQueue
  pub event : Option Event

-- An operation that changes nothing.
abbrev pub unchanged : Ret → PlainDev → PlainOutcome
unchanged ret dev = record { ret = ret; dev = dev; wakes = none; event = none }

-- `globalfifo_read` behind its loop.
unfoldable pub plain_read : Memcpy → Request → PlainDev → PlainOutcome
plain_read memcpy r dev =
    let count : ℕ = clip dev.current_len r.count in
    let left : ℕ = r.copy.to_user r.buf (take count dev.mem) in
    if left == 0
    then record {
      ret = ok count;
      dev = record {
        current_len = dev.current_len - count;
        mem = memcpy dev.mem 0 count (dev.current_len - count);
      };
      wakes = some w_wait;
      event = some (got (take count dev.mem));
    }
    else unchanged (err efault) dev

-- `globalfifo_write` behind its loop.
unfoldable pub plain_write : Request → PlainDev → PlainOutcome
plain_write r dev =
    let count : ℕ = clip (globalfifo_size - dev.current_len) r.count in
    let copied = r.copy.from_user r.buf count in
    let mem' : List ℕ = overwrite dev.mem dev.current_len copied.0 in
    if copied.1 == 0
    then record {
      ret = ok count;
      dev = record { current_len = dev.current_len + count; mem = mem' };
      wakes = some r_wait;
      event = some (put copied.0);
    }
    else unchanged (err efault) (record dev { mem = mem' })

-- `globalfifo_ioctl`.
unfoldable pub plain_ioctl : (cmd : ℕ) → PlainDev → PlainOutcome
plain_ioctl cmd dev =
    if cmd == fifo_clear
    then record {
      ret = ok 0;
      dev = record { current_len = 0; mem = filled 0 globalfifo_size };
      wakes = none;
      event = some cleared;
    }
    else unchanged (err einval) dev

-- `globalfifo_poll`.
unfoldable pub plain_poll : PlainDev → PlainOutcome
plain_poll dev =
    let readable : ℕ = if dev.current_len == 0 then 0 else pollin_mask in
    let writable : ℕ = if dev.current_len == globalfifo_size then 0 else pollout_mask in
    unchanged (ok (readable + writable)) dev

-- The tests of the two waiting loops.
unfoldable pub plain_blocks : Job → PlainDev → Bool
plain_blocks (reads r) dev = dev.current_len == 0
plain_blocks (writes r) dev = dev.current_len == globalfifo_size
plain_blocks (ioctls cmd) dev = false
plain_blocks polls dev = false

unfoldable pub plain_operate : Memcpy → Job → PlainDev → PlainOutcome
plain_operate memcpy (reads r) dev = plain_read memcpy r dev
plain_operate memcpy (writes r) dev = plain_write r dev
plain_operate memcpy (ioctls cmd) dev = plain_ioctl cmd dev
plain_operate memcpy polls dev = plain_poll dev

pub record PlainSystem : Type 0 where
  pub dev : PlainDev
  pub owner : Option ℕ
  pub pc : ℕ → Pc
  pub linked : ℕ → Option WaitQueue
  pub misused : Bool
  pub log : List Event

-- One step of thread `i`.
pub data PlainStep (memcpy : Memcpy) (s : PlainSystem) : PlainSystem → Type 0 where
  call :
      (i : ℕ) (job : Job)
      → s.pc i ≡ idle
      → PlainStep memcpy s (record s { pc = update s.pc i (entering job) })
  again :
      (i : ℕ) {job : Job} {ret : Ret}
      → s.pc i ≡ returned job ret
      → PlainStep memcpy s (record s { pc = update s.pc i idle })
  -- an unknown ioctl, in front of `mutex_lock`
  reject :
      (i : ℕ) {job : Job}
      → s.pc i ≡ entering job
      → locks job ≡ false
      → PlainStep memcpy s
          (record s { pc = update s.pc i (returned job (plain_operate memcpy job s.dev).ret) })
  -- `mutex_lock`, and `add_wait_queue`
  lock :
      (i : ℕ) {job : Job}
      → s.pc i ≡ entering job
      → locks job ≡ true
      → s.owner ≡ none
      → PlainStep memcpy s (record s {
        owner = some i;
        pc = update s.pc i (testing job);
        linked = update s.linked i (queue_of job);
      })
  -- O_NONBLOCK
  refuse :
      (i : ℕ) {job : Job}
      → s.pc i ≡ testing job
      → plain_blocks job s.dev ≡ true
      → nonblocking job ≡ true
      → PlainStep memcpy s (record s { pc = update s.pc i (leaving job (err eagain)) })
  -- `__set_current_state`, `mutex_unlock` and `schedule`
  sleep :
      (i : ℕ) {job : Job}
      → s.pc i ≡ testing job
      → plain_blocks job s.dev ≡ true
      → nonblocking job ≡ false
      → PlainStep memcpy s (record s { owner = none; pc = update s.pc i (asleep job) })
  -- `signal_pending`
  interrupt :
      (i : ℕ) {job : Job}
      → s.pc i ≡ asleep job
      → PlainStep memcpy s (record s { pc = update s.pc i (unlinking job (err erestartsys)) })
  signalled :
      (i : ℕ) {job : Job}
      → s.pc i ≡ woken job
      → PlainStep memcpy s (record s { pc = update s.pc i (unlinking job (err erestartsys)) })
  relock :
      (i : ℕ) {job : Job}
      → s.pc i ≡ woken job
      → s.owner ≡ none
      → PlainStep memcpy s (record s { owner = some i; pc = update s.pc i (testing job) })
  work :
      (i : ℕ) {job : Job}
      → s.pc i ≡ testing job
      → plain_blocks job s.dev ≡ false
      → IsLawful job
      → PlainStep memcpy s (
          let o = plain_operate memcpy job s.dev in
          record s {
            dev = o.dev;
            pc = update (λ j. woken_by o.wakes (s.linked j) (s.pc j)) i (leaving job o.ret);
            log = logged o.event s.log;
          })
  -- the label `out`
  unlock :
      (i : ℕ) {job : Job} {ret : Ret}
      → s.pc i ≡ leaving job ret
      → PlainStep memcpy s (record s { owner = none; pc = update s.pc i (behind_unlock job ret) })
  -- the label `out2`: `remove_wait_queue(&dev->w_wait, &wait)`
  unlink :
      (i : ℕ) {job : Job} {ret : Ret}
      → s.pc i ≡ unlinking job ret
      → PlainStep memcpy s (record s {
        pc = update s.pc i (returned job ret);
        linked = update s.linked i none;
        misused = s.misused || not (same_queue (some w_wait) (s.linked i));
      })

-- The device behind `globalfifo_init` (`kzalloc`), with every thread outside the driver.
abbrev pub plain_start : PlainSystem
plain_start = record {
  dev = record { current_len = 0; mem = filled 0 globalfifo_size };
  owner = none;
  pc = λ _. idle;
  linked = λ _. none;
  misused = false;
  log = [];
}
