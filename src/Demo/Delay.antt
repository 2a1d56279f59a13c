-- ===== src/Demo/Delay.antt =====
-- 00.mDemo/05.timer_delay/2.delay/kDemo.c: the delays that the ioctl makes one after the other, on a kernel
-- with high-resolution timers. How long a delay lasts is the kernel's answer.
use learn_linux_drv.Prelude.{ℕ, ◌+◌, ◌*◌, ◌≤◌, ◌≡◌, refl, Bool, true, false, arith, if◌then◌else◌}

-- How many nanoseconds pass in a call, by its argument. `schedule_timeout` and `schedule_hrtimeout` are
-- those of a task that is not TASK_RUNNING and gets no signal.
pub record Delays : Type 0 where
  pub udelay : (us : ℕ) → ℕ
  pub ndelay : (ns : ℕ) → ℕ
  pub mdelay : (ms : ℕ) → ℕ
  pub usleep_range : (min max : ℕ) → ℕ
  pub msleep : (ms : ℕ) → ℕ
  pub schedule_timeout : (ms : ℕ) → ℕ
  pub schedule_hrtimeout : (ns : ℕ) → ℕ

-- The documented behaviour: none is shorter than it was asked to be.
pub record IsDelays (d : Delays) : Type 0 where
  pub udelay_ge : (us : ℕ) → us * 1000 ≤ d.udelay us
  pub ndelay_ge : (ns : ℕ) → ns ≤ d.ndelay ns
  pub mdelay_ge : (ms : ℕ) → ms * 1000000 ≤ d.mdelay ms
  pub usleep_range_ge : (min max : ℕ) → min * 1000 ≤ d.usleep_range min max
  pub msleep_ge : (ms : ℕ) → ms * 1000000 ≤ d.msleep ms
  pub schedule_timeout_ge : (ms : ℕ) → ms * 1000000 ≤ d.schedule_timeout ms
  pub schedule_hrtimeout_ge : (ns : ℕ) → ns ≤ d.schedule_hrtimeout ns

-- The time, and whether the task's state is TASK_RUNNING.
pub record Task : Type 0 where
  pub now : ℕ
  pub is_running : Bool

abbrev pub passes : ℕ → Task → Task
passes n t = record t { now = t.now + n }

abbrev pub set_interruptible : Task → Task
set_interruptible t = record t { is_running = false }

-- Both calls return at once where the state is TASK_RUNNING, and leave it so in any case.
abbrev pub schedules : ℕ → Task → Task
schedules n t = if t.is_running then t else record { now = t.now + n; is_running = true }

-- `m_chrdev_ioctl`, up to the last delay.
unfoldable pub first_delays : Delays → Task → Task
first_delays d t =
    let t1 = passes (d.udelay 10) t in
    let t2 = passes (d.ndelay 500) t1 in
    let t3 = passes (d.mdelay 2) t2 in
    let t4 = passes (d.usleep_range 100 200) t3 in
    let t5 = passes (d.msleep 50) t4 in schedules (d.schedule_timeout 500) (set_interruptible t5)

unfoldable pub m_chrdev_ioctl : Delays → Task → Task
m_chrdev_ioctl d t = schedules (d.schedule_hrtimeout (500 * 1000)) (first_delays d t)

-- The first six delays last 552.1105 ms at least.
pub first_delays_last :
    (d : Delays) (t : Task) → IsDelays d → t.now + 552110500 ≤ (first_delays d t).now
unfolding first_delays
first_delays_last d t law = omega (
  arith,
  law.udelay_ge 10,
  law.ndelay_ge 500,
  law.mdelay_ge 2,
  law.usleep_range_ge 100 200,
  law.msleep_ge 50,
  law.schedule_timeout_ge 500,
)

-- The last delay, of 500 us, never happens: `schedule_timeout` has left the task TASK_RUNNING, and nothing
-- sets its state again.
pub last_delay_is_none : (d : Delays) (t : Task) → m_chrdev_ioctl d t ≡ first_delays d t
unfolding m_chrdev_ioctl first_delays
last_delay_is_none d t = refl
