-- ===== src/Demo/Works/Overlap.antt =====
-- 4.work_struct and 3.kthread_worker2: runs in which no second file is opened, and what a second one does.
use learn_linux_drv.Prelude.{◌≡◌, refl, true}
use learn_linux_drv.Prelude.Steps.{Reach, here, later}
use learn_linux_drv.Demo.Works.{
  Driver, work_struct, System, start, Step, opens, open_returns, queue, delay, AnyStep, ordinary,
  opens_again, one_left,
}

-- No file is opened while one is open.
abbrev pub NoOverlap : {d : Driver} {s t : System} → Reach (AnyStep d) s t → Type 0
NoOverlap here = Unit
NoOverlap (later r (ordinary st)) = NoOverlap r
NoOverlap (later r (opens_again e)) = ⊥
NoOverlap (later r (one_left e n)) = ⊥

pub alone :
    {d : Driver} {s t : System} (r : Reach (AnyStep d) s t) → NoOverlap r → Reach (Step d) s t
alone here h = here
alone (later r (ordinary st)) h = later (alone r h) st
alone (later r (opens_again e)) h = absurd h
alone (later r (one_left e n)) h = absurd h

-- In 4.work_struct, a second open that comes before a worker has taken `my_work` sets that work up while
-- it is queued.
pub second_open_faults :
    (s : System) × Reach (AnyStep work_struct) (start work_struct) s × (s.fault ≡ true)
second_open_faults = (
  _,
  later
      (later
        (later
          (later
            (later (later (later here (ordinary (opens refl))) (ordinary (queue refl)))
              (ordinary (queue refl)))
            (ordinary (delay refl)))
          (ordinary (open_returns refl refl)))
        (opens_again refl))
      (ordinary (queue refl)),
  refl,
)
