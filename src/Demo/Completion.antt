-- ===== src/Demo/Completion.antt =====
-- 00.mDemo/07.thread_sync/3.sync_completion/kDemo.c: a thread that the module's init waits for, and
-- that its exit stops, where the thread could be started.
use learn_linux_drv.Prelude.{ℕ, ◌+◌, ◌-◌, ◌<◌, ◌≡◌, ◌⊎◌, inl, inr, refl, Bool, true, false, arith}
use learn_linux_drv.Prelude.Steps.{Reach, here, later, Reach-keeps}

-- Where `thread_func` stands: before `complete`, in its loop, or returned.
pub data Thread : Type 0 where
  simulating idling returned : Thread

-- How far the module is: its init in `wait_for_completion`, loaded, its exit in `kthread_stop`, or
-- gone.
pub data Phase : Type 0 where
  waiting loaded stopping gone : Phase

-- `my_completion` counts the calls of `complete` that nobody has waited for.
pub record System : Type 0 where
  pub my_completion : ℕ
  pub thread : Thread
  pub should_stop : Bool
  pub phase : Phase

-- `m_chr_init` behind `kthread_run`.
abbrev pub started : System
started = record { my_completion = 0; thread = simulating; should_stop = false; phase = waiting }

pub data Step (s : System) : System → Type 0 where
  completes :
      s.thread ≡ simulating
      → Step s (record s { my_completion = s.my_completion + 1; thread = idling })
  -- `wait_for_completion` returns, and with it `m_chr_init`
  waits :
      s.phase ≡ waiting
      → 0 < s.my_completion
      → Step s (record s { my_completion = s.my_completion - 1; phase = loaded })
  stops : s.phase ≡ loaded → Step s (record s { should_stop = true; phase = stopping })
  leaves : s.thread ≡ idling → s.should_stop ≡ true → Step s (record s { thread = returned })
  joins : s.phase ≡ stopping → s.thread ≡ returned → Step s (record s { phase = gone })

record Inv (s : System) : Type 0 where
  first : s.thread ≡ simulating → (s.phase ≡ waiting) × (s.my_completion ≡ 0)
  last : s.thread ≡ returned → s.should_stop ≡ true
  kept : (s.phase ≡ waiting) ⊎ (s.phase ≡ loaded) → s.should_stop ≡ false

Step-Inv : {s t : System} → Step s t → Inv s → Inv t
Step-Inv (completes e) v = record { first = λ h. cc; last = λ h. cc; kept = v.kept }
Step-Inv (waits e h) v = record {
  first = λ i. ground (arith, v.first i, h);
  last = v.last;
  kept = λ i. v.kept (inl e);
}
Step-Inv (stops e) v = record {
  first = λ i. ground (arith, v.first i, e);
  last = λ i. refl;
  kept = λ i. ground arith;
}
Step-Inv (leaves e h) v = record { first = λ i. cc; last = λ i. h; kept = v.kept }
Step-Inv (joins e h) v = record {
  first = λ i. ground (arith, i, h);
  last = v.last;
  kept = λ i. ground arith;
}

reached-Inv : {s : System} → Reach Step started s → Inv s
reached-Inv r =
    Reach-keeps Step {P = Inv} (λ t u. Step-Inv) r
      (record { first = λ h. (refl, refl); last = λ h. cc; kept = λ h. refl })

-- In every state that is reached from the start of the thread and in which the module is loaded, the
-- thread has done its work, and there is a run of it after which the module's exit is done.
pub unload_completes :
    (s : System)
    → Reach Step started s
    → s.phase ≡ loaded
    → (s.thread ≡ idling)
      × ((t : System) × Reach Step s t × (t.phase ≡ gone) × (t.thread ≡ returned))
unload_completes s r e =
    let v = reached-Inv r in
    let idle : s.thread ≡ idling = is_idling s.thread v.first v.last (v.kept (inr e)) in
    (
      idle,
      (_, later (later (later here (stops e)) (leaves idle refl)) (joins refl refl), refl, refl),
    )
  where
    is_idling :
        (w : Thread)
        → (w ≡ simulating → (s.phase ≡ waiting) × (s.my_completion ≡ 0))
        → (w ≡ returned → s.should_stop ≡ true)
        → s.should_stop ≡ false
        → w ≡ idling
    is_idling simulating first last kept = ground (arith, first refl, e)
    is_idling idling first last kept = refl
    is_idling returned first last kept = ground (arith, last refl, kept)
