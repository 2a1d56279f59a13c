-- ===== src/Demo/Tests.antt =====
-- The demos with threads: the theorems at inputs that meet their hypotheses.
use learn_linux_drv.Prelude.{ℕ, ◌≡◌, refl, none, true, false, arith}
use learn_linux_drv.Prelude.Steps.{Reach, here, later}
use learn_linux_drv.Demo.WaitQueue
use learn_linux_drv.Demo.WaitQueue.Unload.{unload_ends}
use learn_linux_drv.Demo.Rcu
use learn_linux_drv.Demo.Rcu.{no_use_after_free}
use learn_linux_drv.Demo.Atomic
use learn_linux_drv.Demo.Atomic.Lock.{spinlock_excludes}

-- The thread has gone to sleep, and then the module is unloaded.
unloading :
    (s : WaitQueue.System) × Reach WaitQueue.Step (WaitQueue.start_threads none none).1 s
    × (s.exit ≡ WaitQueue.joining)
unfolding WaitQueue.start_threads WaitQueue.roused
unloading = (
  _,
  later (later (later here (WaitQueue.loops refl refl)) (WaitQueue.sleeps refl refl refl))
      (WaitQueue.stops refl (λ e. cc)),
  refl,
)

unload_ends_example :
    (t : WaitQueue.System) × Reach WaitQueue.Step unloading.0 t
    × (t.exit ≡ WaitQueue.gone)
    × (t.worker ≡ WaitQueue.done)
unload_ends_example = unload_ends unloading.0 unloading.1 unloading.2

-- A reader enters, the writer replaces the value, and the reader looks at the old one.
replaced : (s : Rcu.System) × Reach Rcu.Step (Rcu.start true) s × (s.fault ≡ false)
unfolding Rcu.start
replaced = (
  _,
  later (later (later (later here (Rcu.enters refl)) (Rcu.allocates refl)) (Rcu.assigns refl))
      (Rcu.looks refl),
  refl,
)

no_use_after_free_example : replaced.0.fault ≡ false
no_use_after_free_example = no_use_after_free true replaced.1

-- The writer replaces the value twice, and then the module is unloaded.
unloaded : (s : Rcu.System) × Reach Rcu.Step (Rcu.start true) s × (s.exit ≡ Rcu.freed_all)
unfolding Rcu.start
unloaded = (
  _,
  later
      (later
        (later
          (later
            (later
              (later (later (later here (Rcu.allocates refl)) (Rcu.assigns refl))
                (Rcu.synchronizes refl (λ p e. ground arith)))
              (Rcu.stops_reader refl))
            (Rcu.reader_ends refl (λ e. cc)))
          (Rcu.stops_writer refl refl))
        (Rcu.writer_ends refl refl))
      (Rcu.frees refl refl),
  refl,
)

-- Process 3 takes the spinlock.
locked_by_three :
    (s : Atomic.System) × Reach Atomic.Step Atomic.start s × (Atomic.in_section (s.pc 3) ≡ true)
unfolding Atomic.apply Atomic.behind
locked_by_three = (
  _,
  later
      (later
        (later
          (later
            (later
              (later
                (later
                  (later
                    (later (later here (Atomic.calls 3 refl))
                      (Atomic.operates 3 Atomic.add_five refl))
                    (Atomic.operates 3 Atomic.sub_three refl))
                  (Atomic.operates 3 Atomic.inc refl))
                (Atomic.operates 3 Atomic.dec refl))
              (Atomic.operates 3 Atomic.or_0011 refl))
            (Atomic.operates 3 Atomic.and_1110 refl))
          (Atomic.operates 3 Atomic.xor_0101 refl))
        (Atomic.operates 3 Atomic.cas refl))
      (Atomic.acquires 3 refl refl),
  refl,
)

spinlock_excludes_example : ◌≡◌ {A = ℕ} 3 3
spinlock_excludes_example =
    spinlock_excludes 3 3 locked_by_three.1 locked_by_three.2 locked_by_three.2
