-- ===== src/Demo/WaitQueue/Unload.antt =====
-- wait_queue/kDemo.c: who is woken, and whether the module can be unloaded.
use learn_linux_drv.Prelude.{◌≡◌, ◌≢◌, ◌⊎◌, Bool-cases, inl, inr, refl, true, none, some, arith}
use learn_linux_drv.Prelude.Steps.{Reach, here, later, Reach-keeps}
use learn_linux_drv.Kernel.{Errno, ok}
use learn_linux_drv.Demo.WaitQueue.{
  Worker, absent, looping, checking, asleep, working, done, joining, gone, System, open_device,
  start_threads, roused, Step, opens, loops, leaves, passes, sleeps, gives_up, works, waiter_passes,
  waiter_sleeps, expires, stops, skips, joins,
}

-- Asleep, or being stopped.
abbrev pub SleepsOn : System → Type 0
SleepsOn s = (s.worker ≡ asleep) ⊎ (s.should_stop ≡ true)

Step-SleepsOn : {s t : System} → Step s t → SleepsOn s → SleepsOn t
unfolding open_device
Step-SleepsOn (opens e) z = z
Step-SleepsOn (loops e h) z = ground arith
Step-SleepsOn (leaves e h) z = ground arith
Step-SleepsOn (passes e h) z = ground arith
Step-SleepsOn (sleeps e h n) z = inl refl
Step-SleepsOn (gives_up e h n) z = inr n
Step-SleepsOn (works e) z = ground arith
Step-SleepsOn (waiter_passes e h) z = z
Step-SleepsOn (waiter_sleeps e h) z = z
Step-SleepsOn (expires e) z = z
Step-SleepsOn (stops e h) z = inr refl
Step-SleepsOn (skips e h) z = z
Step-SleepsOn (joins e h) z = z

-- Opening the device, which makes the condition true, wakes nobody: once `thread_func` sleeps, it
-- sleeps however often the device is opened and whatever else happens, until the module's exit stops
-- it.
pub open_wakes_nobody :
    {s t : System}
    → s.worker ≡ asleep
    → Reach Step s t
    → (t.worker ≡ asleep) ⊎ (t.should_stop ≡ true)
open_wakes_nobody e r = Reach-keeps Step {P = SleepsOn} (λ t u. Step-SleepsOn) r (inl e)

-- While `m_chr_exit` waits in `kthread_stop`, there is a thread, it has been told to stop, and it does not
-- sleep.
record Stopping (s : System) : Type 0 where
  told : s.exit ≡ joining → s.should_stop ≡ true
  alive : s.exit ≡ joining → s.worker ≢ absent
  awake : s.exit ≡ joining → s.worker ≢ asleep

Step-Stopping : {s t : System} → Step s t → Stopping s → Stopping t
unfolding open_device roused
Step-Stopping (opens e) z = record { told = z.told; alive = z.alive; awake = z.awake }
Step-Stopping (loops e h) z = record { told = z.told; alive = λ x. λ w. cc; awake = λ x. λ w. cc }
Step-Stopping (leaves e h) z = record { told = z.told; alive = λ x. λ w. cc; awake = λ x. λ w. cc }
Step-Stopping (passes e h) z = record { told = z.told; alive = λ x. λ w. cc; awake = λ x. λ w. cc }
Step-Stopping (sleeps e h n) z = record {
  told = z.told;
  alive = λ x. λ w. cc;
  awake = λ x. ground (arith, z.told x, n);
}
Step-Stopping (gives_up e h n) z = record {
  told = z.told;
  alive = λ x. λ w. cc;
  awake = λ x. λ w. cc;
}
Step-Stopping (works e) z = record { told = z.told; alive = λ x. λ w. cc; awake = λ x. λ w. cc }
Step-Stopping (waiter_passes e h) z = record { told = z.told; alive = z.alive; awake = z.awake }
Step-Stopping (waiter_sleeps e h) z = record { told = z.told; alive = z.alive; awake = z.awake }
Step-Stopping (expires e) z = record { told = z.told; alive = z.alive; awake = z.awake }
Step-Stopping {s} (stops e h) z = record {
  told = λ x. refl;
  alive = λ x. ground (arith, h);
  awake = λ x. ground arith;
}
Step-Stopping (skips e h) z = record { told = λ x. cc; alive = λ x. cc; awake = λ x. cc }
Step-Stopping (joins e h) z = record { told = λ x. cc; alive = λ x. cc; awake = λ x. cc }

Worker-cases :
    (w : Worker)
    → (w ≡ absent) ⊎ (w ≡ looping) ⊎ (w ≡ checking) ⊎ (w ≡ asleep) ⊎ (w ≡ working) ⊎ (w ≡ done)
Worker-cases absent = inl refl
Worker-cases looping = inr (inl refl)
Worker-cases checking = inr (inr (inl refl))
Worker-cases asleep = inr (inr (inr (inl refl)))
Worker-cases working = inr (inr (inr (inr (inl refl))))
Worker-cases done = inr (inr (inr (inr (inr refl))))

-- Where the thread does not sleep, it comes to its end.
abbrev Ends : System → Type 0
Ends s = (t : System) × Reach Step s t × (t.exit ≡ gone) × (t.worker ≡ done)

comes_to_end :
    (s : System)
    → s.exit ≡ joining
    → s.should_stop ≡ true
    → s.worker ≢ absent
    → s.worker ≢ asleep
    → Ends s
comes_to_end s x st a n = elim (Worker-cases s.worker) [
  | inl e ↦ absurd (a e)
  | inr (inl e) ↦ (_, later (later here (leaves e st)) (joins x refl), refl, refl)
  | inr (inr (inl e)) ↦ elim (Bool-cases s.condition) [
    | inl c ↦ (
      _,
      later (later (later (later here (passes e c)) (works refl)) (leaves refl st)) (joins x refl),
      refl,
      refl,
    )
    | inr c ↦ (_, later (later here (gives_up e c st)) (joins x refl), refl, refl)
  ]
  | inr (inr (inr (inl e))) ↦ absurd (n e)
  | inr (inr (inr (inr (inl e)))) ↦
      (_, later (later (later here (works e)) (leaves refl st)) (joins x refl), refl, refl)
  | inr (inr (inr (inr (inr e)))) ↦ (_, later here (joins x e), refl, e)
]

start-Stopping : Stopping (start_threads none none).1
unfolding start_threads
start-Stopping = record { told = λ x. cc; alive = λ x. cc; awake = λ x. cc }

-- The module can be unloaded: from every state that it reaches with both threads started and in which
-- `m_chr_exit` is in `kthread_stop`, wherever `thread_func` stood when it was told to stop, there is a run
-- in which the thread returns and `m_chr_exit` comes to its end.
pub unload_ends :
    (s : System)
    → Reach Step (start_threads none none).1 s
    → s.exit ≡ joining
    → (t : System) × Reach Step s t × (t.exit ≡ gone) × (t.worker ≡ done)
unload_ends s r x =
    let z = Reach-keeps Step {P = Stopping} (λ t u. Step-Stopping) r start-Stopping in
    comes_to_end s x (z.told x) (z.alive x) (z.awake x)

-- If the second thread cannot be started, the module's init returns 0, and there is no `thread_func`.
pub init_hides_failure :
    (e : Errno)
    → ((start_threads none (some e)).0 ≡ ok 0) × ((start_threads none (some e)).1.worker ≡ absent)
unfolding start_threads
init_hides_failure e = (refl, refl)
