-- ===== src/GlobalFifo/System/Invariant.antt =====
-- ch12/globalfifo.c: what holds between any two steps of any threads.
use learn_linux_drv.Prelude.{
  ℕ, ◌-◌, ◌≡◌, refl, Bool, true, false, List, [], ◌∷◌, Option, none, some, arith, min, length,
  take-append-drop, length-append, update, ◌≤◌, ◌*◌,
}
use learn_linux_drv.Kernel.{Ret}
use learn_linux_drv.Kernel.Copy.{Memcpy, IsMemcpy}
use learn_linux_drv.GlobalFifo.{GlobalfifoDev, Event, WaitQueue, globalfifo_size, ioctl, poll}
use learn_linux_drv.GlobalFifo.Queue.{
  IsValid, contents, Effect, read_out-IsValid, write_in-IsValid, ioctl-IsValid, read_half,
  write_refines, length-contents,
}
use learn_linux_drv.GlobalFifo.System.{
  Job, reads, writes, ioctls, polls, queue_of, operate, IsLawful, Pc, testing, asleep, woken,
  leaving, unlinking, System, woken_by, behind_unlock, Step, call, again, reject, lock, refuse,
  sleep, interrupt, signalled, relock, work, unlock, unlink, Reach, here, later, at_rest,
}

-- A thread that has the mutex.
abbrev pub holds : Pc → Bool
holds (testing job) = true
holds (leaving job ret) = true
holds _ = false

-- The call of a thread between `add_wait_queue` and `remove_wait_queue`.
abbrev pub attached : Pc → Option Job
attached (testing job) = some job
attached (asleep job) = some job
attached (woken job) = some job
attached (leaving job ret) = some job
attached (unlinking job ret) = some job
attached _ = none

-- A log, last change first, that a queue of at most 4096 bytes allows, with the bytes it leaves.
pub data Accepts : List Event → List ℕ → Type 0 where
  start : Accepts [] []
  more :
      {log : List Event} {e : Event} {q q' : List ℕ}
      → Accepts log q
      → Effect (some e) q q'
      → Accepts (e ∷ log) q'

pub record Inv (s : System) : Type 0 where
  pub valid : IsValid s.dev
  pub exclusive : (i : ℕ) → holds (s.pc i) ≡ true → s.owner ≡ some i
  pub on_queue : (i : ℕ) (job : Job) → attached (s.pc i) ≡ some job → s.linked i ≡ queue_of job

operate-IsValid :
    (memcpy : Memcpy) (job : Job) {dev : GlobalfifoDev}
    → IsMemcpy memcpy
    → IsLawful job
    → IsValid dev
    → IsValid (operate memcpy job dev).dev
unfolding operate
operate-IsValid memcpy (reads r) m law v = read_out-IsValid memcpy r m v
operate-IsValid memcpy (writes r) m law v = write_in-IsValid r law v
operate-IsValid memcpy (ioctls cmd) m law v = ioctl-IsValid cmd v
operate-IsValid memcpy polls m law v = unfold poll in v

-- A read that asks for at least half of the contents: what is moved to the front does not overlap the
-- place that it is moved to.
abbrev pub IsApart : Job → GlobalfifoDev → Type 0
IsApart (reads r) dev = dev.current_len ≤ 2 * r.count
IsApart _ dev = Unit

-- What an operation does to the contents is what its event says, if a read asks for enough.
pub operate-Effect :
    (memcpy : Memcpy) (job : Job) {dev : GlobalfifoDev}
    → IsMemcpy memcpy
    → IsApart job dev
    → IsLawful job
    → IsValid dev
    → let o = operate memcpy job dev in Effect o.event (contents dev) (contents o.dev)
unfolding operate
operate-Effect memcpy (reads r) {dev} m h law v =
    ground (arith, read_half memcpy r m v h, take-append-drop r.count (contents dev))
operate-Effect memcpy (writes r) {dev} m h law v = ground (
  arith,
  write_refines r law v,
  length-contents v,
  law.from_user_length r.buf room,
  length-append (contents dev) (r.copy.from_user r.buf room).0,
)
  where
    room : ℕ
    room = min r.count (globalfifo_size - length (contents dev))
operate-Effect memcpy (ioctls cmd) m h law v = unfold ioctl in ground arith
operate-Effect memcpy polls m h law v = unfold poll in refl

-- Waking changes neither who has the mutex nor who is on which queue.
holds-woken_by : (w l : Option WaitQueue) (p : Pc) → holds (woken_by w l p) ≡ holds p
unfolding woken_by
holds-woken_by w l p = ground arith

attached-woken_by : (w l : Option WaitQueue) (p : Pc) → attached (woken_by w l p) ≡ attached p
unfolding woken_by
attached-woken_by w l p = ground arith

behind_unlock_free : (job : Job) (ret : Ret) → holds (behind_unlock job ret) ≡ false
unfolding behind_unlock
behind_unlock_free (reads r) ret = refl
behind_unlock_free _ ret = refl

attached-behind_unlock :
    (job b : Job) (ret : Ret) → attached (behind_unlock job ret) ≡ some b → job ≡ b
unfolding behind_unlock
attached-behind_unlock (reads r) b ret h = cc
attached-behind_unlock (writes r) b ret h = cc
attached-behind_unlock (ioctls cmd) b ret h = cc
attached-behind_unlock polls b ret h = cc

-- Thread `i` goes to `p`, and nothing else changes.
goes :
    {s : System} (i : ℕ) (p : Pc)
    → Inv s
    → (holds p ≡ true → s.owner ≡ some i)
    → ((job : Job) → attached p ≡ some job → s.linked i ≡ queue_of job)
    → Inv (record s { pc = update s.pc i p })
goes i p v mutex entry = record {
  valid = v.valid;
  exclusive = λ j h. ground (arith, v.exclusive j);
  on_queue = λ j b h. ground (arith, v.on_queue j b, entry b);
}

-- Every step keeps the device valid, the mutex exclusive, and each entry on the queue of its call.
pub Step-Inv : {memcpy : Memcpy} {s t : System} → IsMemcpy memcpy → Step memcpy s t → Inv s → Inv t
Step-Inv m (call i job e) v = goes i _ v (λ h. cc) (λ b h. cc)
Step-Inv m (again i e) v = goes i _ v (λ h. cc) (λ b h. cc)
Step-Inv m (reject i e l) v = goes i _ v (λ h. cc) (λ b h. cc)
Step-Inv m (lock i e l o) v = record {
  valid = v.valid;
  exclusive = λ j h. ground (arith, v.exclusive j);
  on_queue = λ j b h. ground (arith, v.on_queue j b);
}
Step-Inv m (refuse i {job} e b n) v =
    goes i _ v (λ h. ground (arith, v.exclusive i)) (λ b h. ground (arith, v.on_queue i job))
Step-Inv m (sleep i {job} e b n) v = record {
  valid = v.valid;
  exclusive = λ j h. ground (arith, v.exclusive j, v.exclusive i);
  on_queue = λ j b h. ground (arith, v.on_queue j b, v.on_queue i job);
}
Step-Inv m (interrupt i {job} e) v = goes i _ v (λ h. cc) (λ b h. ground (arith, v.on_queue i job))
Step-Inv m (signalled i {job} e) v = goes i _ v (λ h. cc) (λ b h. ground (arith, v.on_queue i job))
Step-Inv m (relock i {job} e o) v = record {
  valid = v.valid;
  exclusive = λ j h. ground (arith, v.exclusive j);
  on_queue = λ j b h. ground (arith, v.on_queue j b, v.on_queue i job);
}
Step-Inv {memcpy} {s} m (work i {job} e b law) v = record {
  valid = operate-IsValid memcpy job m law v.valid;
  exclusive = λ j h.
      ground (arith, v.exclusive j, v.exclusive i, holds-woken_by (wakes) (s.linked j) (s.pc j));
  on_queue = λ j b h.
      ground
        (arith, v.on_queue j b, v.on_queue i job, attached-woken_by wakes (s.linked j) (s.pc j));
}
  where
    wakes : Option WaitQueue
    wakes = (operate memcpy job s.dev).wakes
Step-Inv m (unlock i {job} {ret} e) v = record {
  valid = v.valid;
  exclusive = λ j h. ground (arith, v.exclusive j, v.exclusive i, behind_unlock_free job ret);
  on_queue =
      λ j b h. ground (arith, v.on_queue j b, v.on_queue i job, attached-behind_unlock job b ret);
}
Step-Inv m (unlink i {job} e) v = record {
  valid = v.valid;
  exclusive = λ j h. ground (arith, v.exclusive j);
  on_queue = λ j b h. ground (arith, v.on_queue j b, v.on_queue i job);
}

pub Inv-at_rest : (dev : GlobalfifoDev) → IsValid dev → Inv (at_rest dev)
Inv-at_rest dev v = record { valid = v; exclusive = λ i h. cc; on_queue = λ i job h. cc }

pub Reach-Inv :
    {memcpy : Memcpy} {s t : System} → IsMemcpy memcpy → Inv s → Reach memcpy s t → Inv t
Reach-Inv m v here = v
Reach-Inv m v (later r st) = Step-Inv m st (Reach-Inv m v r)
