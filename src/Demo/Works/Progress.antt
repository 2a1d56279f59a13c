-- ===== src/Demo/Works/Progress.antt =====
-- 4.work_struct and 3.kthread_worker2: `release` returns.
use learn_linux_drv.Prelude.{
  ◌≡◌, ◌≢◌, inl, inr, refl, sym, ap, ◌∙◌, true, List, [], ◌∷◌, arith, Bool-cases,
}
use learn_linux_drv.Prelude.Steps.{Reach, Reach-keeps, here, later}
use learn_linux_drv.Demo.Works.{
  Work, my_work, cancelable_work, my_delayed_work, Status, idle, timed, queued, running, Call,
  queues, delays, cancels, flushes, flushes_all, runs_thread, stops_thread, Driver, closed,
  releasing, System, put, Step, release_returns, queue, delay, cancel_returns, flush_returns,
  flush_all_returns, run_thread, stop_thread,
}
use learn_linux_drv.Demo.Works.Analysis.{IsChecked, Inv}
use learn_linux_drv.Demo.Works.Levels.{idle_of}
use learn_linux_drv.Demo.Works.Safety.{Step-Inv}
use learn_linux_drv.Demo.Works.Rest.{
  Works, append, behind, as_known, no_steps, Quiet, stilled, finishes, rests,
}

-- Every handler that runs comes to its end.
finishes_all : (d : Driver) (s : System) → Works d s (λ v. stilled (s.status v))
finishes_all d s =
    let r1 = finishes d s my_work in
    let r2 = finishes d r1.end cancelable_work in
    let r3 = finishes d r2.end my_delayed_work in as_known (behind r1 (behind r2 r3)) (each r1 r2)
  where
    each :
        (r1 : Works d s (put my_work (stilled (s.status my_work)) s.status))
        (r2 : Works d r1.end
          (put cancelable_work (stilled (r1.end.status cancelable_work)) r1.end.status))
        (w : Work)
        → put my_delayed_work (stilled (r2.end.status my_delayed_work)) r2.end.status w
          ≡ stilled (s.status w)
    each r1 r2 my_work = r2.statuses my_work ∙ r1.statuses my_work
    each r1 r2 cancelable_work =
        r2.statuses cancelable_work ∙ ap stilled (r1.statuses cancelable_work)
    each r1 r2 my_delayed_work =
        ap stilled (r2.statuses my_delayed_work ∙ r1.statuses my_delayed_work)

put-Quiet :
    (w : Work) (f g : Work → Status) → Quiet f → ((v : Work) → g v ≡ put w idle f v) → Quiet g
put-Quiet w f g q e v h = absurd (ground (arith, h, e v, q v))

rests_all : (d : Driver) (s : System) → s.alive ≡ true → Quiet s.status → Works d s (λ v. idle)
rests_all d s a q =
    let r1 = rests d s my_work a q in
    let q1 = put-Quiet my_work s.status r1.end.status q r1.statuses in
    let r2 = rests d r1.end cancelable_work (r1.same_workers ∙ a) q1 in
    let q2 = put-Quiet cancelable_work r1.end.status r2.end.status q1 r2.statuses in
    let r3 = rests d r2.end my_delayed_work (r2.same_workers ∙ r1.same_workers ∙ a) q2 in
    as_known (behind r1 (behind r2 r3)) (each r1 r2)
  where
    each :
        (r1 : Works d s (put my_work idle s.status))
        (r2 : Works d r1.end (put cancelable_work idle r1.end.status)) (w : Work)
        → put my_delayed_work idle r2.end.status w ≡ idle
    each r1 r2 my_work = r2.statuses my_work ∙ r1.statuses my_work
    each r1 r2 cancelable_work = r2.statuses cancelable_work
    each r1 r2 my_delayed_work = refl

stilled-Quiet : (f g : Work → Status) → ((v : Work) → g v ≡ stilled (f v)) → Quiet g
stilled-Quiet f g e v h = not_running (f v) (sym (e v) ∙ h)
  where
    not_running : (st : Status) → stilled st ≢ running
    not_running idle x = cc
    not_running timed x = cc
    not_running queued x = cc
    not_running running x = cc

-- From every state of a session, the works come to rest.
settles : (d : Driver) {s : System} → Inv d s → Works d s (λ v. idle)
settles d {s} v = elim (Bool-cases s.alive) [
  | inl a ↦
      let r = finishes_all d s in
      let q = stilled-Quiet s.status r.end.status r.statuses in
      behind r (rests_all d r.end (r.same_workers ∙ a) q)
  | inr a ↦ as_known (no_steps d s) (λ w.
      idle_of (v.known.level w) (s.status w) (v.fits.allows w)
        (v.fits.dead (sym v.fits.alive ∙ a) w))
]

-- A call returns once the works are at rest.
returns :
    (d : Driver) (s : System) (c : Call) (rest : List Call)
    → s.calls ≡ c ∷ rest
    → ((w : Work) → s.status w ≡ idle)
    → (t : System) × Step d s t × (t.calls ≡ rest) × (t.phase ≡ s.phase)
returns d s (queues w) rest e i = (_, queue e, refl, refl)
returns d s (delays w) rest e i = (_, delay e, refl, refl)
returns d s (cancels w) rest e i = (_, cancel_returns e (i w), refl, refl)
returns d s (flushes w) rest e i = (_, flush_returns e (i w), refl, refl)
returns d s flushes_all rest e i = (
  _,
  flush_all_returns e (λ w h. absurd (ground (arith, h, i w)))
      (λ w h. absurd (ground (arith, h, i w))),
  refl,
  refl,
)
returns d s runs_thread rest e i = (_, run_thread e, refl, refl)
returns d s stops_thread rest e i =
    (_, stop_thread e (λ w h. absurd (ground (arith, h, i w))), refl, refl)

keeps-Inv : {d : Driver} {s t : System} → IsChecked d → Reach (Step d) s t → Inv d s → Inv d t
keeps-Inv {d} ok r v = Reach-keeps (Step d) {P = Inv d} (λ t u. Step-Inv ok) r v

pub finishes_release :
    (d : Driver) (s : System) (cs : List Call)
    → IsChecked d
    → Inv d s
    → s.phase ≡ releasing
    → s.calls ≡ cs
    → (t : System) × Reach (Step d) s t × (t.phase ≡ closed)
finishes_release d s [] ok v p e = (_, later here (release_returns p e), refl)
finishes_release d s (c ∷ cs) ok v p e =
    let r = settles d v in
    let (t, st, e', p') = returns d r.end c cs (r.same_calls ∙ e) r.statuses in
    let (u, q, done) =
      finishes_release d t cs ok (Step-Inv ok st (keeps-Inv ok r.run v)) (p' ∙ r.same_phase ∙ p)
        e' in
    (u, append (later r.run st) q, done)
