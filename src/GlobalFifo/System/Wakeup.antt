-- ===== src/GlobalFifo/System/Wakeup.antt =====
-- ch12/globalfifo.c: who sleeps, and who is woken.
use learn_linux_drv.Prelude.{
  ℕ, ◌≡◌, ◌⊎◌, inl, inr, refl, ap, true, false, List, [], Option, none, some, arith, update,
}
use learn_linux_drv.Kernel.{Ret}
use learn_linux_drv.Kernel.Copy.{Memcpy, IsMemcpy}
use learn_linux_drv.GlobalFifo.{
  GlobalfifoDev, Event, put, got, cleared, WaitQueue, r_wait, w_wait, Outcome, Request,
  globalfifo_size, read_blocks, write_blocks, read_out, write_in, ioctl, poll,
}
use learn_linux_drv.GlobalFifo.Queue.{IsValid}
use learn_linux_drv.GlobalFifo.System.{
  Job, reads, writes, ioctls, polls, queue_of, blocks, operate, Pc, idle, asleep, leaving, System,
  woken_by, logged, behind_unlock, Step, call, again, reject, lock, refuse, sleep, interrupt,
  signalled, relock, work, unlock, unlink, Reach, here, later, at_rest,
}
use learn_linux_drv.GlobalFifo.System.Invariant.{Inv, attached, Reach-Inv, Inv-at_rest}
use learn_linux_drv.GlobalFifo.System.Safety.{NeverCleared}

-- A reader sleeps only on an empty device, and a writer, unless it was cleared, only on a full one.
pub record SleepsRightly (dev : GlobalfifoDev) (log : List Event) (pc : ℕ → Pc) : Type 0 where
  pub reader : (i : ℕ) (r : Request) → pc i ≡ asleep (reads r) → dev.current_len ≡ 0
  pub writer :
      (i : ℕ) (r : Request)
      → NeverCleared log
      → pc i ≡ asleep (writes r)
      → dev.current_len ≡ globalfifo_size

-- An operation that fills an empty device wakes the readers.
fills_wakes :
    (memcpy : Memcpy) (job : Job) (dev : GlobalfifoDev)
    → blocks job dev ≡ false
    → dev.current_len ≡ 0
    → let o = operate memcpy job dev in (o.dev.current_len ≡ 0) ⊎ (o.wakes ≡ some r_wait)
unfolding operate blocks
fills_wakes memcpy (reads r) dev b e = unfold read_blocks in ground arith
fills_wakes memcpy (writes r) dev b e = unfold write_in in ground arith
fills_wakes memcpy (ioctls cmd) dev b e = unfold ioctl in ground arith
fills_wakes memcpy polls dev b e = unfold poll in ground arith

-- An operation that makes room in a full device wakes the writers, or clears it.
drains_wakes :
    (memcpy : Memcpy) (job : Job) (dev : GlobalfifoDev)
    → blocks job dev ≡ false
    → dev.current_len ≡ globalfifo_size
    → let o = operate memcpy job dev in
      (o.dev.current_len ≡ globalfifo_size) ⊎ ((o.wakes ≡ some w_wait) ⊎ (o.event ≡ some cleared))
unfolding operate blocks
drains_wakes memcpy (reads r) dev b e = unfold read_out in ground arith
drains_wakes memcpy (writes r) dev b e = unfold write_blocks in ground arith
drains_wakes memcpy (ioctls cmd) dev b e = unfold ioctl in ground arith
drains_wakes memcpy polls dev b e = unfold poll in ground arith

-- Who still sleeps after a wake-up slept before, and on another queue.
woken_by-asleep :
    (w l : Option WaitQueue) (p : Pc) {job : Job} → woken_by w l p ≡ asleep job → p ≡ asleep job
unfolding woken_by
woken_by-asleep w l p h = ground arith

woken_by_own : (q : WaitQueue) (p : Pc) {job : Job} → woken_by (some q) (some q) p ≡ asleep job → ⊥
unfolding woken_by
woken_by_own q p h = ground arith

logged-NeverCleared :
    (e : Option Event) (log : List Event) → NeverCleared (logged e log) → NeverCleared log
unfolding logged
logged-NeverCleared none log n = n
logged-NeverCleared (some (put xs)) log n = n
logged-NeverCleared (some (got xs)) log n = n
logged-NeverCleared (some cleared) log n = absurd n

logged_cleared : (log : List Event) → ¬ NeverCleared (logged (some cleared) log)
unfolding logged
logged_cleared log n = n

-- Thread `i` goes somewhere else than to sleep.
stays_awake :
    {dev : GlobalfifoDev} {log : List Event} {pc : ℕ → Pc} (i : ℕ) (p : Pc)
    → SleepsRightly dev log pc
    → ((job : Job) → p ≡ asleep job → ⊥)
    → SleepsRightly dev log (update pc i p)
stays_awake i p z awake = record {
  reader = λ j r h. ground (arith, z.reader j r, awake (reads r));
  writer = λ j r n h. ground (arith, z.writer j r n, awake (writes r));
}

behind_unlock_awake : (job b : Job) (ret : Ret) → behind_unlock job ret ≡ asleep b → ⊥
unfolding behind_unlock
behind_unlock_awake (reads r) b ret h = cc
behind_unlock_awake _ b ret h = cc

-- A thread that is asleep after `work` was asleep before.
work_sleeper :
    (s : System) (i j : ℕ) (w : Option WaitQueue) (job b : Job) (ret : Ret)
    → update (λ k. woken_by w (s.linked k) (s.pc k)) i (leaving job ret) j ≡ asleep b
    → (s.pc j ≡ asleep b) × (woken_by w (s.linked j) (s.pc j) ≡ asleep b)
work_sleeper s i j w job b ret h = ground (arith, woken_by-asleep w (s.linked j) (s.pc j) {job = b})

-- A waiting thread's entry is on its own queue, so the wake-up of that queue reaches it.
own_queue_wakes :
    (s : System) (j : ℕ) (job : Job) (q : WaitQueue)
    → Inv s
    → queue_of job ≡ some q
    → s.pc j ≡ asleep job
    → woken_by (some q) (s.linked j) (s.pc j) ≡ asleep job
    → ⊥
own_queue_wakes s j job q v e before after =
    woken_by_own q (s.pc j) (rw (v.on_queue j job (ap attached before), e) at after)

module _ (memcpy : Memcpy) (s : System) (i : ℕ) (job : Job) where
  abbrev outcome : Outcome
  outcome = operate memcpy job s.dev

  abbrev pc_after : ℕ → Pc
  pc_after = update (λ k. woken_by outcome.wakes (s.linked k) (s.pc k)) i (leaving job outcome.ret)

  work_reader :
      Inv s
      → SleepsRightly s.dev s.log s.pc
      → blocks job s.dev ≡ false
      → (j : ℕ) (r : Request) → pc_after j ≡ asleep (reads r)
      → outcome.dev.current_len ≡ 0
  unfolding queue_of
  work_reader v z b j r h =
      let both = work_sleeper s i j outcome.wakes job (reads r) outcome.ret h in
      elim (fills_wakes memcpy job s.dev b (z.reader j r both.0)) [
        | inl still ↦ still
        | inr w ↦ absurd (own_queue_wakes s j (reads r) r_wait v refl both.0 (rw w at both.1))
      ]

  work_writer :
      Inv s
      → SleepsRightly s.dev s.log s.pc
      → blocks job s.dev ≡ false
      → (j : ℕ) (r : Request) → NeverCleared (logged outcome.event s.log)
      → pc_after j ≡ asleep (writes r)
      → outcome.dev.current_len ≡ globalfifo_size
  unfolding queue_of
  work_writer v z b j r n h =
      let both = work_sleeper s i j outcome.wakes job (writes r) outcome.ret h in
      let full = z.writer j r (logged-NeverCleared outcome.event s.log n) both.0 in
      elim (drains_wakes memcpy job s.dev b full) [
        | inl still ↦ still
        | inr (inl w) ↦
            absurd (own_queue_wakes s j (writes r) w_wait v refl both.0 (rw w at both.1))
        | inr (inr c) ↦ absurd (logged_cleared s.log (rw c at n))
      ]

falls_asleep :
    {dev : GlobalfifoDev} {log : List Event} {pc : ℕ → Pc} (i : ℕ) (job : Job)
    → SleepsRightly dev log pc
    → blocks job dev ≡ true
    → SleepsRightly dev log (update pc i (asleep job))
unfolding blocks read_blocks write_blocks
falls_asleep i (reads q) z b = record {
  reader = λ j r h. ground arith;
  writer = λ j r n h. ground (arith, z.writer j r);
}
falls_asleep i (writes q) z b = record {
  reader = λ j r h. ground (arith, z.reader j r);
  writer = λ j r n h. ground arith;
}
falls_asleep i (ioctls cmd) z b = cc
falls_asleep i polls z b = cc

-- A step keeps every sleeper right.
Step-SleepsRightly :
    {memcpy : Memcpy} {s t : System}
    → Step memcpy s t
    → Inv s
    → SleepsRightly s.dev s.log s.pc
    → SleepsRightly t.dev t.log t.pc
Step-SleepsRightly {memcpy} {s} (work i {job} e b law) v z = record {
  reader = work_reader memcpy s i job v z b;
  writer = work_writer memcpy s i job v z b;
}
Step-SleepsRightly (sleep i {job} e b n) v z = falls_asleep i job z b
Step-SleepsRightly (call i job e) v z = stays_awake i _ z (λ b h. cc)
Step-SleepsRightly (again i e) v z = stays_awake i _ z (λ b h. cc)
Step-SleepsRightly (reject i e l) v z = stays_awake i _ z (λ b h. cc)
Step-SleepsRightly (lock i e l o) v z = stays_awake i _ z (λ b h. cc)
Step-SleepsRightly (refuse i e b n) v z = stays_awake i _ z (λ b h. cc)
Step-SleepsRightly (interrupt i e) v z = stays_awake i _ z (λ b h. cc)
Step-SleepsRightly (signalled i e) v z = stays_awake i _ z (λ b h. cc)
Step-SleepsRightly (relock i e o) v z = stays_awake i _ z (λ b h. cc)
Step-SleepsRightly (unlock i {job} {ret} e) v z =
    stays_awake i _ z (λ b h. behind_unlock_awake job b ret h)
Step-SleepsRightly (unlink i e) v z = stays_awake i _ z (λ b h. cc)

SleepsRightly-at_rest : (dev : GlobalfifoDev) → SleepsRightly dev [] (λ _. idle)
SleepsRightly-at_rest dev = record { reader = λ i r h. cc; writer = λ i r n h. cc }

Reach-SleepsRightly :
    {memcpy : Memcpy} {dev : GlobalfifoDev} {s : System}
    → IsMemcpy memcpy
    → IsValid dev
    → Reach memcpy (at_rest dev) s
    → SleepsRightly s.dev s.log s.pc
Reach-SleepsRightly {dev} m v here = SleepsRightly-at_rest dev
Reach-SleepsRightly {dev} m v (later r st) =
    Step-SleepsRightly st (Reach-Inv m (Inv-at_rest dev v) r) (Reach-SleepsRightly m v r)

-- No wake-up of a writer is lost but by FIFO_CLEAR: with a `memcpy` that keeps its contract, in
-- every state that threads reach from a valid device at rest without clearing it, a writer is
-- asleep only while the device is full.
pub writer_sleeps_full :
    {memcpy : Memcpy} {dev : GlobalfifoDev} {s : System}
    → IsMemcpy memcpy
    → IsValid dev
    → Reach memcpy (at_rest dev) s
    → NeverCleared s.log
    → (i : ℕ) (r : Request) → s.pc i ≡ asleep (writes r)
    → s.dev.current_len ≡ globalfifo_size
writer_sleeps_full m v reach n i r e = (Reach-SleepsRightly m v reach).writer i r n e
