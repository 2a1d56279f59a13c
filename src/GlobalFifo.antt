-- ===== src/GlobalFifo.antt =====
-- 06.char_drv/2.platform_cdev/globalfifo/ch12/globalfifo.c: a byte FIFO of 4096 bytes behind a
-- character device. This file has the device and what the file operations do to it while they hold
-- its mutex; `GlobalFifo.System` has the waiting, the locking and the interleaving.
pub mod Queue
pub mod System
pub mod Files
pub mod Setup
pub mod Plain
pub mod Clients
use learn_linux_drv.Prelude.{
  ℕ, ◌+◌, ◌-◌, Bool, true, false, ◌||◌, List, [], ◌∷◌, Option, none, some, take, overwrite, slice,
  ltb, ◌==◌, if◌then◌else◌, not,
}
use learn_linux_drv.Kernel.{Errno, einval, efault, Ret, ok, err, UserCopy}
use learn_linux_drv.Kernel.Memory.{filled}
use learn_linux_drv.Kernel.Copy.{Memcpy}

abbrev pub globalfifo_size : ℕ
globalfifo_size = 0x1000

abbrev pub fifo_clear : ℕ
fifo_clear = 0x1

pub record GlobalfifoDev : Type 0 where
  pub current_len : ℕ
  pub mem : List ℕ
  -- the files that asked for SIGIO
  pub async_queue : List ℕ

-- `container_of` in each operation finds this record again.

-- The two wait queues of the device.
pub data WaitQueue : Type 0 where
  r_wait w_wait : WaitQueue

-- What a change of the queue's contents is, as a client sees it.
pub data Event : Type 0 where
  put got : List ℕ → Event
  cleared : Event

-- What an operation does under the mutex: its return value, the device, the wait queue that it
-- wakes, whether it sends SIGIO, and the change that it makes to the contents.
pub record Outcome : Type 0 where
  pub ret : Ret
  pub dev : GlobalfifoDev
  pub wakes : Option WaitQueue
  pub sigio : Bool
  pub event : Option Event

-- The arguments of a read or write: the process's copies, its buffer, `count`, and O_NONBLOCK.
pub record Request : Type 0 where
  pub copy : UserCopy
  pub buf : ℕ
  pub count : ℕ
  pub nonblock : Bool

-- The tests of the two waiting loops.
unfoldable pub read_blocks : GlobalfifoDev → Bool
read_blocks dev = dev.current_len == 0

unfoldable pub write_blocks : GlobalfifoDev → Bool
write_blocks dev = dev.current_len == globalfifo_size

-- `if (count > limit) count = limit;`
pub clip : ℕ → ℕ → ℕ
clip limit count = if ltb limit count then limit else count

-- `globalfifo_read` behind its loop.
pub read_out : Memcpy → Request → GlobalfifoDev → Outcome
read_out memcpy r dev =
    let count : ℕ = clip dev.current_len r.count in
    let left : ℕ = r.copy.to_user r.buf (take count dev.mem) in
    if left == 0
    then record {
      ret = ok count;
      dev = record dev {
        mem = memcpy dev.mem 0 count (dev.current_len - count);
        current_len = dev.current_len - count;
      };
      wakes = some w_wait;
      sigio = false;
      event = some (got (take count dev.mem));
    }
    else record { ret = err efault; dev = dev; wakes = none; sigio = false; event = none }

is_empty : List ℕ → Bool
is_empty [] = true
is_empty (x ∷ xs) = false

-- `globalfifo_write` behind its loop. The bytes go straight into the device's memory, so a copy that
-- fails has changed the part behind `current_len`.
pub write_in : Request → GlobalfifoDev → Outcome
unfolding is_empty
write_in r dev =
    let count : ℕ = clip (globalfifo_size - dev.current_len) r.count in
    let bytes : List ℕ = (r.copy.from_user r.buf count).0 in
    let left : ℕ = (r.copy.from_user r.buf count).1 in
    let mem' : List ℕ = overwrite dev.mem dev.current_len bytes in
    if left == 0
    then record {
      ret = ok count;
      dev = record dev { mem = mem'; current_len = dev.current_len + count };
      wakes = some r_wait;
      sigio = not (is_empty dev.async_queue);
      event = some (put bytes);
    }
    else record {
      ret = err efault;
      dev = record dev { mem = mem' };
      wakes = none;
      sigio = false;
      event = none;
    }

-- `globalfifo_ioctl`: it wakes nobody.
pub ioctl : (cmd : ℕ) → GlobalfifoDev → Outcome
ioctl cmd dev =
    if cmd == fifo_clear
    then record {
      ret = ok 0;
      dev = record dev { current_len = 0; mem = filled 0 globalfifo_size };
      wakes = none;
      sigio = false;
      event = some cleared;
    }
    else record { ret = err einval; dev = dev; wakes = none; sigio = false; event = none }

-- POLLIN | POLLRDNORM and POLLOUT | POLLWRNORM, with the kernel's generic numbers. They share no
-- bit, so `|` is a sum.
abbrev pub pollin_mask : ℕ
pollin_mask = 0x1 + 0x40

abbrev pub pollout_mask : ℕ
pollout_mask = 0x4 + 0x100

-- `globalfifo_poll` changes nothing; its return value is the mask.
pub poll : GlobalfifoDev → Outcome
poll dev = record {
  ret = ok (
      (if dev.current_len == 0 then 0 else pollin_mask)
      + (if dev.current_len == globalfifo_size then 0 else pollout_mask));
  dev = dev;
  wakes = none;
  sigio = false;
  event = none;
}
