-- ===== src/Demo/Works/Counts.antt =====
-- 4.work_struct and 3.kthread_worker2: how often the works run.
use learn_linux_drv.Prelude.{
  ℕ, ◌+◌, ◌≡◌, ◌≢◌, inl, inr, refl, sym, ap, ◌∙◌, false, ◌&&◌, List, ◌∷◌, arith, Bool-cases,
}
use learn_linux_drv.Prelude.Steps.{Reach, here, later}
use learn_linux_drv.Demo.Works.{
  Work, Status, idle, timed, queued, running, Call, queues, delays, Driver, closed, System, same,
  put, start, set_up, Step, opens, open_returns, releases, release_returns, queue, delay, cancel,
  cancel_returns, expedite, flush_returns, flush_all_returns, run_thread, run_thread_fails,
  stop_thread, fire, begin, finish,
}
use learn_linux_drv.Demo.Works.Analysis.{
  is_none, in_order, IsChecked, Inv, same→≡, next_call, and_split,
}
use learn_linux_drv.Demo.Works.Levels.{is_none→≡, idle_of}
use learn_linux_drv.Demo.Works.Safety.{Reach-Inv}

abbrev pub active : Status → ℕ
active idle = 0
active _ = 1

-- What was queued was run to its end, or cancelled, or is still there.
abbrev Counted : System → Work → Type 0
Counted s w = s.scheduled w ≡ s.ran w + s.cancelled w + active (s.status w)

-- The counts of a work behind a change of work `w` that makes `x`, `y` and `z` of its counts, and `p`
-- of its status.
changed-Counted :
    (s : System) (w u : Work) (p : Status) (x y z : ℕ)
    → x ≡ y + z + active p
    → Counted s u
    → put w x s.scheduled u ≡ put w y s.ran u + put w z s.cancelled u + active (put w p s.status u)
changed-Counted s w u p x y z e h = elim (Bool-cases (same w u)) [
  | inl q ↦ ground (arith, q, e)
  | inr q ↦ ground (arith, q, h)
]

-- A family that is not changed.
put_same : {A : Type 0} (w u : Work) (f : Work → A) → put w (f w) f u ≡ f u
put_same w u f = elim (Bool-cases (same w u)) [
  | inl q ↦ rw q (ap f (same→≡ w u q))
  | inr q ↦ rw q refl
]

set_up-Counted :
    (s : System) (w u : Work) (p : Status) (rest : List Call)
    → active p ≡ 1
    → s.status w ≡ idle
    → ((v : Work) → Counted s v)
    → Counted (set_up w p rest s) u
set_up-Counted s w u p rest a i h = ground (
  arith,
  changed-Counted s w u p (s.scheduled w + 1) (s.ran w) (s.cancelled w) (ground (arith, h w, a, i))
      (h u),
  put_same w u s.ran,
  put_same w u s.cancelled,
)

moved-Counted :
    (s : System) (w u : Work) (p : Status)
    → active p ≡ active (s.status w)
    → ((v : Work) → Counted s v)
    → s.scheduled u ≡ s.ran u + s.cancelled u + active (put w p s.status u)
moved-Counted s w u p a h = ground (
  arith,
  changed-Counted s w u p (s.scheduled w) (s.ran w) (s.cancelled w) (ground (arith, h w, a)) (h u),
  put_same w u s.scheduled,
  put_same w u s.ran,
  put_same w u s.cancelled,
)

set_up_idle :
    (d : Driver) {s : System} (c : Call) (w : Work) {rest : List Call} (v : Inv d s)
    → s.calls ≡ c ∷ rest
    → in_order d c v.known ≡ v.known.alive && is_none (v.known.level w)
    → s.status w ≡ idle
set_up_idle d c w v e o =
    let n = (and_split _ _ (sym o ∙ (next_call d v e).0)).1 in
    idle_of _ _ (v.fits.allows w) (is_none→≡ _ n)

active_pending : (st : Status) → st ≢ idle → active st ≡ 1
active_pending idle h = absurd (h refl)
active_pending timed h = refl
active_pending queued h = refl
active_pending running h = refl

abbrev AllCounted : System → Type 0
AllCounted s = (w : Work) → Counted s w

Step-Counted : {d : Driver} {s t : System} → Inv d s → Step d s t → AllCounted s → AllCounted t
Step-Counted v (opens p) h = h
Step-Counted v (open_returns p c) h = h
Step-Counted v (releases p) h = h
Step-Counted v (release_returns p c) h = h
Step-Counted {d} {s} v (queue {w} {rest} e) h =
    λ u. set_up-Counted s w u queued rest refl (set_up_idle d (queues w) w v e refl) h
Step-Counted {d} {s} v (delay {w} {rest} e) h =
    λ u. set_up-Counted s w u timed rest refl (set_up_idle d (delays w) w v e refl) h
Step-Counted {d} {s} v (cancel {w} e n r) h = λ u. ground (
  arith,
  changed-Counted s w u idle (s.scheduled w) (s.ran w) (s.cancelled w + 1)
      (ground (arith, h w, active_pending (s.status w) n)) (h u),
  put_same w u s.scheduled,
  put_same w u s.ran,
)
Step-Counted v (cancel_returns e i) h = h
Step-Counted {d} {s} v (expedite {w} e i) h = λ u. moved-Counted s w u queued (rw i refl) h
Step-Counted v (flush_returns e i) h = h
Step-Counted v (flush_all_returns e q r) h = h
Step-Counted v (run_thread e) h = h
Step-Counted v (run_thread_fails p e) h = h
Step-Counted v (stop_thread e r) h = h
Step-Counted {d} {s} v (fire w i) h = λ u. moved-Counted s w u queued (rw i refl) h
Step-Counted {d} {s} v (begin w i a r) h = λ u. moved-Counted s w u running (rw i refl) h
Step-Counted {d} {s} v (finish w i) h = λ u. ground (
  arith,
  changed-Counted s w u idle (s.scheduled w) (s.ran w + 1) (s.cancelled w) (ground (arith, h w, i))
      (h u),
  put_same w u s.scheduled,
  put_same w u s.cancelled,
)

reached-Counted :
    {d : Driver} {s : System} → IsChecked d → Reach (Step d) (start d) s → AllCounted s
reached-Counted ok here = λ w. refl
reached-Counted {d} ok (later r st) = Step-Counted (Reach-Inv d ok r) st (reached-Counted ok r)

-- In every state that a driver whose calls pass the check reaches with no file open: no work waits or
-- runs, there are workers just if there were at the start, no work was ever set up while it was not
-- idle, and each work was run to its end or cancelled as often as it was queued.
pub session_leaves_idle :
    (d : Driver) (s : System)
    → IsChecked d
    → Reach (Step d) (start d) s
    → s.phase ≡ closed
    → ((w : Work) → (s.status w ≡ idle) × (s.scheduled w ≡ s.ran w + s.cancelled w))
      × (s.alive ≡ d.ready)
      × (s.fault ≡ false)
session_leaves_idle d s ok r p =
    let v = Reach-Inv d ok r in
    let i =
      λ (w : Work). idle_of (v.known.level w) (s.status w) (v.fits.allows w) (v.closed_none p w) in
    (
      (λ w. (i w, ground (arith, reached-Counted ok r w, i w))),
      v.fits.alive ∙ v.closed_alive p,
      v.fits.sound,
    )
