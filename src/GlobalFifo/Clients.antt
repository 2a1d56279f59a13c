-- ===== src/GlobalFifo/Clients.antt =====
-- ch8/globalfifo_poll.c and ch9/globalfifo_test.c: programs that wait for the device, on top of the
-- operations of ch12/globalfifo.c. `select` and the signal come from the kernel, as documented.
pub mod Epoll
pub mod Aior
mod Tests
use learn_linux_drv.Prelude.{
  ℕ, ◌+◌, ◌/◌, ◌%◌, ◌^◌, ◌≡◌, ◌<◌, ◌↔◌, Bool, true, false, not, ◌&&◌, ◌||◌, ◌≢◌, refl, ap, ◌∙◌,
  List, [], ◌∷◌, ◌++◌, Option, none, some, arith, length, ◌==◌, if◌then◌else◌,
}
use learn_linux_drv.Prelude.Count.{count}
use learn_linux_drv.Kernel.{Ret, ok, err}
use learn_linux_drv.Kernel.Copy.{Memcpy}
use learn_linux_drv.GlobalFifo.{
  GlobalfifoDev, Request, Outcome, is_empty, globalfifo_size, fifo_clear, pollin_mask, pollout_mask,
  poll, ioctl, read_out, write_in,
}
use learn_linux_drv.GlobalFifo.Queue.{IsValid, contents, length-contents}
use learn_linux_drv.GlobalFifo.System.{Job, operate, reads, writes, ioctls, polls}
use learn_linux_drv.GlobalFifo.Files.{FasyncHelper, fasync}

-- What the programs print.
pub data Message : Type 0 where
  can_be_read can_be_written : Message

abbrev pub has_bit : (k mask : ℕ) → Bool
has_bit k mask = mask / 2 ^ k % 2 == 1

-- `select` finds a file readable by POLLIN and POLLRDNORM, and writable by POLLOUT and POLLWRNORM. Of
-- the other bits that it looks at the driver sets none.
abbrev pub is_readable : (mask : ℕ) → Bool
is_readable mask = has_bit 0 mask || has_bit 6 mask

abbrev pub is_writable : (mask : ℕ) → Bool
is_writable mask = has_bit 2 mask || has_bit 8 mask

abbrev pub mask_of : Ret → ℕ
mask_of (ok n) = n
mask_of (err e) = 0

-- What a round of the loop of globalfifo_poll.c prints behind `select`, or nothing where `select` has to
-- wait.
unfoldable pub select_round : (mask : ℕ) → Option (List Message)
select_round mask =
    let readable : List Message = if is_readable mask then can_be_read ∷ [] else [] in
    let writable : List Message = if is_writable mask then can_be_written ∷ [] else [] in
    if is_readable mask || is_writable mask then some (readable ++ writable) else none

unfoldable pub monitor_round : GlobalfifoDev → Option (List Message)
monitor_round dev = select_round (mask_of (poll dev).ret)

-- globalfifo_test.c asks for SIGIO on its file (F_SETFL with FASYNC); mode is FASYNC, which is not 0.
abbrev pub ask_for_sigio : FasyncHelper → (fd filp mode : ℕ) → GlobalfifoDev → GlobalfifoDev
ask_for_sigio helper fd filp mode dev = (fasync helper (some fd) filp mode dev).1

-- What other processes do to the device, one call after the other.
unfoldable pub run_jobs : Memcpy → List Job → GlobalfifoDev → GlobalfifoDev
run_jobs memcpy [] dev = dev
run_jobs memcpy (job ∷ jobs) dev = run_jobs memcpy jobs (operate memcpy job dev).dev

-- What a round prints, by whether the queue is empty and whether it is full.
abbrev pub expected : (empty full : Bool) → List Message
expected empty full =
    (if empty then [] else can_be_read ∷ []) ++ (if full then [] else can_be_written ∷ [])

select_round_lem :
    (b c : Bool)
    → b && c ≡ false
    → select_round ((if b then 0 else pollin_mask) + (if c then 0 else pollout_mask))
      ≡ some (expected b c)
unfolding select_round
select_round_lem true true h = absurd (ground (arith, h))
select_round_lem true false h = refl
select_round_lem false true h = refl
select_round_lem false false h = refl

-- On a valid device `select` never waits: each round of the program prints that it can read just where
-- there are bytes in the queue, and that it can write just where there is room.
pub monitor_never_waits :
    (dev : GlobalfifoDev)
    → IsValid dev
    → monitor_round dev
      ≡ some (expected (length (contents dev) == 0) (length (contents dev) == globalfifo_size))
unfolding monitor_round poll
monitor_never_waits dev v =
    rw (length-contents v)
      (select_round_lem (dev.current_len == 0) (dev.current_len == globalfifo_size) (ground arith))

-- The documented behaviour: a mode that is not 0 puts the file on the queue.
abbrev pub AddsFile : FasyncHelper → Type 0
AddsFile helper =
    (fd filp mode : ℕ) (queue : List ℕ)
    → mode ≢ 0
    → 0 < count filp (helper (some fd) filp mode queue).1

operate-async_queue :
    (memcpy : Memcpy) (job : Job) (dev : GlobalfifoDev)
    → (operate memcpy job dev).dev.async_queue ≡ dev.async_queue
unfolding operate read_out write_in ioctl poll
operate-async_queue memcpy (reads r) dev = ground arith
operate-async_queue memcpy (writes r) dev = ground arith
operate-async_queue memcpy (ioctls cmd) dev = ground arith
operate-async_queue memcpy polls dev = refl

run_jobs-async_queue :
    (memcpy : Memcpy) (jobs : List Job) (dev : GlobalfifoDev)
    → (run_jobs memcpy jobs dev).async_queue ≡ dev.async_queue
unfolding run_jobs
run_jobs-async_queue memcpy [] dev = refl
run_jobs-async_queue memcpy (job ∷ jobs) dev =
    run_jobs-async_queue memcpy jobs (operate memcpy job dev).dev
    ∙ operate-async_queue memcpy job dev

queue_not_empty : (a : ℕ) (xs : List ℕ) → 0 < count a xs → is_empty xs ≡ false
unfolding is_empty count
queue_not_empty a [] h = absurd (omega (arith, h))
queue_not_empty a (x ∷ xs) h = refl

write_in-sends :
    (r : Request) (dev : GlobalfifoDev) (n : ℕ)
    → is_empty dev.async_queue ≡ false
    → (write_in r dev).ret ≡ ok n
    → (write_in r dev).sigio ≡ true
unfolding write_in
write_in-sends r dev n e h = ground (arith, e, h)

-- Once globalfifo_test.c has asked for SIGIO, every write that succeeds sends the signal, whatever other
-- processes have done to the device in between, short of closing or asking for other files.
pub sigio_is_sent :
    (helper : FasyncHelper) (memcpy : Memcpy) (fd filp mode : ℕ) (jobs : List Job)
    (dev : GlobalfifoDev) (r : Request) (n : ℕ)
    → AddsFile helper
    → mode ≢ 0
    → let dev' = run_jobs memcpy jobs (ask_for_sigio helper fd filp mode dev) in
      (write_in r dev').ret ≡ ok n → (write_in r dev').sigio ≡ true
unfolding fasync
sigio_is_sent helper memcpy fd filp mode jobs dev r n adds m h =
    let armed : GlobalfifoDev = ask_for_sigio helper fd filp mode dev in
    let kept = ap is_empty (run_jobs-async_queue memcpy jobs armed) in
    write_in-sends r (run_jobs memcpy jobs armed) n
      (kept ∙ queue_not_empty filp armed.async_queue (adds fd filp mode dev.async_queue m)) h
