-- ===== src/Demo/Works/Sessions.antt =====
-- 4.work_struct and 3.kthread_worker2: what their sessions leave behind.
use learn_linux_drv.Prelude.{
  ℕ, ◌+◌, ◌≡◌, ◌≢◌, ◌⊎◌, inl, inr, refl, sym, ap, ◌∙◌, false, List, [], ◌∷◌, arith, Bool-cases,
}
use mathlib.Core.Path.{subst}
use learn_linux_drv.Prelude.Steps.{Reach, Reach-keeps}
use learn_linux_drv.Demo.Works.{
  Work, my_work, idle, Call, cancels, Driver, work_struct, kthread_worker2, closed, releasing,
  System, same, put, start, Step, opens, open_returns, releases, release_returns, queue, delay,
  cancel, cancel_returns, expedite, flush_returns, flush_all_returns, run_thread, run_thread_fails,
  stop_thread, fire, begin, finish, AnyStep,
}
use learn_linux_drv.Demo.Works.Overlap.{NoOverlap, alone}
use learn_linux_drv.Demo.Works.Analysis.{
  work_struct-IsChecked, kthread_worker2-IsChecked, IsChecked, same→≡,
}
use learn_linux_drv.Demo.Works.Safety.{Reach-Inv}
use learn_linux_drv.Demo.Works.Counts.{session_leaves_idle}
use learn_linux_drv.Demo.Works.Rest.{append}
use learn_linux_drv.Demo.Works.Progress.{finishes_release}

-- The two drivers.
abbrev pub IsDemo : Driver → Type 0
IsDemo d = (d ≡ work_struct) ⊎ (d ≡ kthread_worker2)

demo-IsChecked : (d : Driver) → IsDemo d → IsChecked d
demo-IsChecked d (inl e) = subst IsChecked (sym e) work_struct-IsChecked
demo-IsChecked d (inr e) = subst IsChecked (sym e) kthread_worker2-IsChecked

-- Calls that do not cancel a work.
abbrev Spares : Work → List Call → Type 0
Spares w [] = Unit
Spares w (c ∷ cs) = (c ≢ cancels w) × Spares w cs

record Spared (w : Work) (s : System) : Type 0 where
  calls_spare : Spares w s.calls
  uncancelled : s.cancelled w ≡ 0

Spares-rest :
    (w : Work) (c : Call) (rest cs : List Call)
    → cs ≡ c ∷ rest
    → Spares w cs
    → (c ≢ cancels w) × Spares w rest
Spares-rest w c rest [] e h = cc
Spares-rest w c rest (c' ∷ cs) e h = subst (Spares w) e h

called-Spared :
    {w : Work} {s t : System} {c : Call} {rest : List Call}
    → s.calls ≡ c ∷ rest
    → t.calls ≡ rest
    → t.cancelled ≡ s.cancelled
    → Spared w s
    → Spared w t
called-Spared {w} {s} {t} {c} {rest} e p q v = record {
  calls_spare = subst (Spares w) (sym p) (Spares-rest w c rest s.calls e v.calls_spare).1;
  uncancelled = ap (λ f. f w) q ∙ v.uncancelled;
}

moved-Spared :
    {w : Work} {s t : System}
    → t.calls ≡ s.calls
    → t.cancelled w ≡ s.cancelled w
    → Spared w s
    → Spared w t
moved-Spared {w} p q v = record {
  calls_spare = subst (Spares w) (sym p) v.calls_spare;
  uncancelled = q ∙ v.uncancelled;
}

started-Spared :
    {w : Work} {s t : System} (cs : List Call)
    → Spares w cs
    → t.calls ≡ cs
    → t.cancelled w ≡ s.cancelled w
    → Spared w s
    → Spared w t
started-Spared {w} cs h p q v = record {
  calls_spare = subst (Spares w) (sym p) h;
  uncancelled = q ∙ v.uncancelled;
}

not_cancelled : (w v : Work) (c : ℕ) (f : Work → ℕ) → cancels v ≢ cancels w → put v c f w ≡ f w
not_cancelled w v c f h = elim (Bool-cases (same v w)) [
  | inl e ↦ absurd (h (ap cancels (same→≡ v w e)))
  | inr e ↦ rw e refl
]

Step-Spared :
    {d : Driver} {s t : System} (w : Work)
    → Spares w d.open_calls
    → Spares w d.release_calls
    → Step d s t
    → Spared w s
    → Spared w t
Step-Spared {d} w o r (opens p) v = started-Spared d.open_calls o refl refl v
Step-Spared w o r (open_returns p c) v = moved-Spared refl refl v
Step-Spared {d} w o r (releases p) v = started-Spared d.release_calls r refl refl v
Step-Spared w o r (release_returns p c) v = moved-Spared refl refl v
Step-Spared w o r (queue e) v = called-Spared e refl refl v
Step-Spared w o r (delay e) v = called-Spared e refl refl v
Step-Spared {d} {s} w o r (cancel {w = u} {rest} e n m) v =
    moved-Spared refl
      (not_cancelled w u _ s.cancelled (Spares-rest w (cancels u) rest s.calls e v.calls_spare).0) v
Step-Spared w o r (cancel_returns e i) v = called-Spared e refl refl v
Step-Spared w o r (expedite e i) v = moved-Spared refl refl v
Step-Spared w o r (flush_returns e i) v = called-Spared e refl refl v
Step-Spared w o r (flush_all_returns e p q) v = called-Spared e refl refl v
Step-Spared w o r (run_thread e) v = called-Spared e refl refl v
Step-Spared w o r (run_thread_fails p e) v = started-Spared [] tt refl refl v
Step-Spared w o r (stop_thread e q) v = called-Spared e refl refl v
Step-Spared w o r (fire u i) v = moved-Spared refl refl v
Step-Spared w o r (begin u i a q) v = moved-Spared refl refl v
Step-Spared w o r (finish u i) v = moved-Spared refl refl v

abbrev SparesMine : Driver → Type 0
SparesMine d = Spares my_work d.open_calls × Spares my_work d.release_calls

work_struct-SparesMine : SparesMine work_struct
work_struct-SparesMine = (
  ((λ e. cc), ((λ e. cc), ((λ e. cc), tt))),
  ((λ e. cc), ((λ e. cc), ((λ e. cc), ((λ e. cc), ((λ e. cc), tt))))),
)

kthread_worker2-SparesMine : SparesMine kthread_worker2
kthread_worker2-SparesMine = (
  ((λ e. cc), ((λ e. cc), ((λ e. cc), ((λ e. cc), tt)))),
  ((λ e. cc), ((λ e. cc), ((λ e. cc), ((λ e. cc), tt)))),
)

demo-SparesMine : (d : Driver) → IsDemo d → SparesMine d
demo-SparesMine d (inl e) = subst SparesMine (sym e) work_struct-SparesMine
demo-SparesMine d (inr e) = subst SparesMine (sym e) kthread_worker2-SparesMine

over :
    (d : Driver) (s : System)
    → IsDemo d
    → Reach (Step d) (start d) s
    → s.phase ≡ closed
    → ((w : Work) → (s.status w ≡ idle) × (s.scheduled w ≡ s.ran w + s.cancelled w))
      × (s.alive ≡ d.ready)
      × (s.fault ≡ false)
      × (s.ran my_work ≡ s.scheduled my_work)
over d s demo r p =
    let (each, a, f) = session_leaves_idle d s (demo-IsChecked d demo) r p in
    let (o, l) = demo-SparesMine d demo in
    let spared =
      Reach-keeps (Step d) {P = Spared my_work} (λ t u. Step-Spared my_work o l) r
        (record { calls_spare = tt; uncancelled = refl }) in
    (each, a, f, omega (arith, (each my_work).1, spared.uncancelled))

-- Where no file is opened while another one is open: in every state that either driver reaches with no
-- file open, whatever the order in which the works are run and their timers end, no work waits or runs, there are workers just if there were at the
-- start, no work was ever set up while it was not idle, each work was run to its end or cancelled as
-- often as it was queued, and `my_work` was run to its end each time.
pub works_are_over :
    (d : Driver) (s : System)
    → IsDemo d
    → (r : Reach (AnyStep d) (start d) s) → NoOverlap r
    → s.phase ≡ closed
    → ((w : Work) → (s.status w ≡ idle) × (s.scheduled w ≡ s.ran w + s.cancelled w))
      × (s.alive ≡ d.ready)
      × (s.fault ≡ false)
      × (s.ran my_work ≡ s.scheduled my_work)
works_are_over d s demo r h p = over d s demo (alone r h) p

-- Where no file is opened while another one is open: from every state that either driver reaches within
-- `release`, there is a run to the end of `release`, and no work waits or runs then.
pub release_returns_idle :
    (d : Driver) (s : System)
    → IsDemo d
    → (r : Reach (AnyStep d) (start d) s) → NoOverlap r
    → s.phase ≡ releasing
    → (t : System) × Reach (Step d) s t × (t.phase ≡ closed) × ((w : Work) → t.status w ≡ idle)
release_returns_idle d s demo r' h p =
    let r = alone r' h in
    let ok = demo-IsChecked d demo in
    let (t, q, c) = finishes_release d s s.calls ok (Reach-Inv d ok r) p refl in
    (t, q, c, λ w. ((over d t demo (append r q) c).0 w).0)
