-- ===== src/Demo/Tasks.antt =====
-- 00.mDemo/06.thread/1.task_struct/kDemo.c: a thread that counts once a second, from the module's init
-- to its exit.
use learn_linux_drv.Prelude.{
  ℕ, ◌+◌, ◌%◌, ◌^◌, ◌≡◌, ◌≢◌, refl, Bool, true, false, Option, none, some, arith,
}
use learn_linux_drv.Prelude.Steps.{Reach, here, later, Reach-keeps}
use learn_linux_drv.Kernel.{Errno, Ret, ok, err}
use learn_linux_drv.Kernel.Chrdev.{LoadAnswers}
use learn_linux_drv.Demo.{Registered, register}

-- Where `m_kthread_func` stands: at `kthread_should_stop()`, in `msleep`, or returned.
pub data Thread : Type 0 where
  at_test in_msleep done : Thread

-- How far the module is: loaded, its exit in `kthread_stop`, or behind that.
pub data Phase : Type 0 where
  running stopping stopped : Phase

-- `i`, the thread, and the module.
pub record System : Type 0 where
  pub i : ℕ
  pub thread : Thread
  pub should_stop : Bool
  pub phase : Phase

-- The thread behind `wake_up_process`.
abbrev pub woken : System
woken = record { i = 0; thread = at_test; should_stop = false; phase = running }

-- `m_chr_init`, by the answer of `kthread_create`: the return value, what is registered, and the thread,
-- if there is one.
unfoldable pub m_chr_init :
    LoadAnswers → (kthread_create : Option Errno) → Option (Ret × Registered × Option System)
m_chr_init a kthread_create = elim (register a) [
  | none ↦ none
  | some r ↦ elim kthread_create [
    | some e ↦ some (err e, r, none)
    | none ↦ some (ok 0, r, some woken)
  ]
]

pub data Step (s : System) : System → Type 0 where
  counts :
      s.thread ≡ at_test
      → s.should_stop ≡ false
      → Step s (record s { i = (s.i + 1) % 2 ^ 32; thread = in_msleep })
  wakes : s.thread ≡ in_msleep → Step s (record s { thread = at_test })
  leaves : s.thread ≡ at_test → s.should_stop ≡ true → Step s (record s { thread = done })
  -- `kthread_stop` sets the flag, and comes back when the thread has returned
  stops : s.phase ≡ running → Step s (record s { should_stop = true; phase = stopping })
  joins : s.phase ≡ stopping → s.thread ≡ done → Step s (record s { phase = stopped })

record Inv (s : System) : Type 0 where
  early : s.phase ≡ running → s.should_stop ≡ false
  late : s.phase ≡ stopping → s.should_stop ≡ true
  last : s.thread ≡ done → s.should_stop ≡ true

Step-Inv : {s t : System} → Step s t → Inv s → Inv t
Step-Inv (counts e h) v = record { early = v.early; late = v.late; last = λ p. cc }
Step-Inv (wakes e) v = record { early = v.early; late = v.late; last = λ p. cc }
Step-Inv (leaves e h) v = record { early = v.early; late = v.late; last = λ p. h }
Step-Inv (stops e) v = record { early = λ p. cc; late = λ p. refl; last = λ p. refl }
Step-Inv (joins e h) v = record { early = λ p. cc; late = λ p. cc; last = v.last }

reached-Inv : {s : System} → Reach Step woken s → Inv s
reached-Inv r =
    Reach-keeps Step {P = Inv} (λ t u. Step-Inv) r
      (record { early = λ p. refl; late = λ p. cc; last = λ p. cc })

-- As long as `kthread_stop` has not been called, the thread has not returned, so that `task` still points
-- to it.
pub task_lives : {s : System} → Reach Step woken s → s.phase ≡ running → s.thread ≢ done
task_lives r e d = let v = reached-Inv r in absurd (ground (arith, v.early e, v.last d))

-- From every state that is reached within `kthread_stop`, there is a run in which it comes back.
pub stop_returns :
    (s : System)
    → Reach Step woken s
    → s.phase ≡ stopping
    → (t : System) × Reach Step s t × (t.phase ≡ stopped) × (t.thread ≡ done)
stop_returns s r e = from s.thread refl
  where
    flag : s.should_stop ≡ true
    flag = (reached-Inv r).late e

    from :
        (w : Thread)
        → s.thread ≡ w
        → (t : System) × Reach Step s t × (t.phase ≡ stopped) × (t.thread ≡ done)
    from at_test h = (_, later (later here (leaves h flag)) (joins e refl), refl, refl)
    from in_msleep h =
        (_, later (later (later here (wakes h)) (leaves refl flag)) (joins e refl), refl, refl)
    from done h = (_, later here (joins e h), refl, h)

-- Where the thread cannot be created, `m_chr_init` returns the error, and what it has registered stays
-- registered.
pub failed_thread_keeps_devices :
    (a : LoadAnswers) (r : Registered) (e : Errno)
    → register a ≡ some r
    → m_chr_init a (some e) ≡ some (err e, r, none)
unfolding m_chr_init
failed_thread_keeps_devices a r e h = rw (m_chr_init, h) refl
