-- ===== src/GlobalFifo/System/Unlink.antt =====
-- ch12/globalfifo.c: `globalfifo_read` adds its entry to `r_wait` and, at `out2`, removes it from
-- `w_wait`.
use learn_linux_drv.Prelude.{ℕ, ◌≡◌, true, false, not, ◌||◌, Option, some, arith, update, Bool}
use learn_linux_drv.Kernel.{Ret}
use learn_linux_drv.Kernel.Copy.{Memcpy, IsMemcpy}
use learn_linux_drv.GlobalFifo.{GlobalfifoDev, WaitQueue, w_wait, Request}
use learn_linux_drv.GlobalFifo.Queue.{IsValid}
use learn_linux_drv.GlobalFifo.System.{
  Job, reads, writes, ioctls, polls, queue_of, locks, operate, Pc, returned, System, woken_by,
  same_queue, behind_unlock, Step, call, again, reject, lock, refuse, sleep, interrupt, signalled,
  relock, work, unlock, unlink, Reach, here, later, at_rest,
}
use learn_linux_drv.GlobalFifo.System.Invariant.{Inv, Reach-Inv, Inv-at_rest}

-- Where a read has returned, an entry was removed under the name of a queue that it was not on.
abbrev pub ReadersMisuse : (pc : ℕ → Pc) → Bool → Type 0
ReadersMisuse pc misused =
    (i : ℕ) (r : Request) (ret : Ret) → pc i ≡ returned (reads r) ret → misused ≡ true

goes_elsewhere :
    {pc : ℕ → Pc} {misused : Bool} (i : ℕ) (p : Pc)
    → ReadersMisuse pc misused
    → ((r : Request) (ret : Ret) → p ≡ returned (reads r) ret → ⊥)
    → ReadersMisuse (update pc i p) misused
goes_elsewhere i p z other j r ret h = ground (arith, z j r ret, other r ret)

woken_by-returned :
    (w l : Option WaitQueue) (p : Pc) (job : Job) (ret : Ret)
    → woken_by w l p ≡ returned job ret
    → p ≡ returned job ret
unfolding woken_by
woken_by-returned w l p job ret h = ground arith

behind_unlock_read :
    (job : Job) (ret : Ret) (r : Request) (ret' : Ret)
    → behind_unlock job ret ≡ returned (reads r) ret'
    → ⊥
unfolding behind_unlock
behind_unlock_read (reads q) ret r ret' h = cc
behind_unlock_read (writes q) ret r ret' h = cc
behind_unlock_read (ioctls cmd) ret r ret' h = cc
behind_unlock_read polls ret r ret' h = cc

rejected_read : (job : Job) (r : Request) → locks job ≡ false → job ≡ reads r → ⊥
unfolding locks
rejected_read (reads q) r l h = cc
rejected_read (writes q) r l h = cc
rejected_read (ioctls cmd) r l h = cc
rejected_read polls r l h = cc

unlinked_read :
    (job : Job) (r : Request) (linked : Option WaitQueue) (misused : Bool)
    → linked ≡ queue_of job
    → job ≡ reads r
    → (misused || not (same_queue (some w_wait) linked)) ≡ true
unfolding queue_of
unlinked_read (reads q) r linked misused l h = ground arith
unlinked_read (writes q) r linked misused l h = cc
unlinked_read (ioctls cmd) r linked misused l h = cc
unlinked_read polls r linked misused l h = cc

Step-ReadersMisuse :
    {memcpy : Memcpy} {s t : System}
    → Step memcpy s t
    → Inv s
    → ReadersMisuse s.pc s.misused
    → ReadersMisuse t.pc t.misused
Step-ReadersMisuse (call i job e) v z = goes_elsewhere i _ z (λ r ret h. cc)
Step-ReadersMisuse (again i e) v z = goes_elsewhere i _ z (λ r ret h. cc)
Step-ReadersMisuse (reject i {job} e l) v z =
    goes_elsewhere i _ z (λ r ret h. rejected_read job r l (cc))
Step-ReadersMisuse (lock i e l o) v z = goes_elsewhere i _ z (λ r ret h. cc)
Step-ReadersMisuse (refuse i e b n) v z = goes_elsewhere i _ z (λ r ret h. cc)
Step-ReadersMisuse (sleep i e b n) v z = goes_elsewhere i _ z (λ r ret h. cc)
Step-ReadersMisuse (interrupt i e) v z = goes_elsewhere i _ z (λ r ret h. cc)
Step-ReadersMisuse (signalled i e) v z = goes_elsewhere i _ z (λ r ret h. cc)
Step-ReadersMisuse (relock i e o) v z = goes_elsewhere i _ z (λ r ret h. cc)
Step-ReadersMisuse (unlock i {job} {ret} e) v z =
    goes_elsewhere i _ z (λ r ret' h. behind_unlock_read job ret r ret' h)
Step-ReadersMisuse {memcpy} {s} (work i {job} e b law) v z = λ j r ret h. ground (
  arith,
  z j r ret,
  woken_by-returned (operate memcpy job s.dev).wakes (s.linked j) (s.pc j) (reads r) ret,
)
Step-ReadersMisuse {s} (unlink i {job} {ret} e) v z = λ j r ret' h.
    ground (arith, z j r ret', unlinked_read job r (s.linked i) s.misused (v.on_queue i job (rw e)))

-- With a `memcpy` that keeps its contract, in every state that threads reach from a valid device
-- at rest and in which some read has returned, whatever its result, a wait-queue entry has been
-- removed under the name of a queue that it was not on.
pub read_unlinks_wrong_queue :
    {memcpy : Memcpy} {dev : GlobalfifoDev} {s : System}
    → IsMemcpy memcpy
    → IsValid dev
    → Reach memcpy (at_rest dev) s
    → (i : ℕ) (r : Request) (ret : Ret) → s.pc i ≡ returned (reads r) ret
    → s.misused ≡ true
read_unlinks_wrong_queue m v here = λ i r ret h. cc
read_unlinks_wrong_queue {dev} m v (later rs st) =
    Step-ReadersMisuse st (Reach-Inv m (Inv-at_rest dev v) rs) (read_unlinks_wrong_queue m v rs)
