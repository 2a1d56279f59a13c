-- ===== src/Demo/Works/Rest.antt =====
-- 4.work_struct and 3.kthread_worker2: how the works come to rest.
use learn_linux_drv.Prelude.{◌≡◌, ◌≢◌, ◌⊎◌, inl, inr, refl, sym, ap, ◌∙◌, true, arith, Bool-cases}
use learn_linux_drv.Prelude.Steps.{Reach, here, later}
use learn_linux_drv.Demo.Works.{
  Work, Status, idle, timed, queued, running, Driver, System, same, put, Step, fire, begin, finish,
}
use learn_linux_drv.Demo.Works.Analysis.{same→≡, same_self}

-- Some steps of the works, behind which they have the statuses `f`. All else but the counts stays.
pub record Works (d : Driver) (s : System) (f : Work → Status) : Type 0 where
  pub end : System
  pub run : Reach (Step d) s end
  pub statuses : (w : Work) → end.status w ≡ f w
  pub same_calls : end.calls ≡ s.calls
  pub same_phase : end.phase ≡ s.phase
  pub same_workers : end.alive ≡ s.alive

pub append :
    {d : Driver} {s t u : System} → Reach (Step d) s t → Reach (Step d) t u → Reach (Step d) s u
append r here = r
append r (later q st) = later (append r q) st

pub behind :
    {d : Driver} {s : System} {f g : Work → Status} (r : Works d s f)
    → (q : Works d r.end g) → Works d s g
behind r q = record {
  end = q.end;
  run = append r.run q.run;
  statuses = q.statuses;
  same_calls = q.same_calls ∙ r.same_calls;
  same_phase = q.same_phase ∙ r.same_phase;
  same_workers = q.same_workers ∙ r.same_workers;
}

pub as_known :
    {d : Driver} {s : System} {f g : Work → Status}
    → Works d s f
    → ((w : Work) → f w ≡ g w)
    → Works d s g
as_known r e = record {
  end = r.end;
  run = r.run;
  statuses = λ w. r.statuses w ∙ e w;
  same_calls = r.same_calls;
  same_phase = r.same_phase;
  same_workers = r.same_workers;
}

pub no_steps : (d : Driver) (s : System) → Works d s s.status
no_steps d s = record {
  end = s;
  run = here;
  statuses = λ w. refl;
  same_calls = refl;
  same_phase = refl;
  same_workers = refl;
}

abbrev pub Quiet : (Work → Status) → Type 0
Quiet f = (v : Work) → f v ≢ running

abbrev pub stilled : Status → Status
stilled running = idle
stilled st = st

Status-cases : (st : Status) → (st ≡ idle) ⊎ (st ≡ timed) ⊎ (st ≡ queued) ⊎ (st ≡ running)
Status-cases idle = inl refl
Status-cases timed = inr (inl refl)
Status-cases queued = inr (inr (inl refl))
Status-cases running = inr (inr (inr refl))

put_self : {A : Type 0} (w : Work) (a : A) (f : Work → A) → put w a f w ≡ a
put_self w a f = rw (same_self w) refl

-- Where a work has a status already, nothing changes.
put_known : {A : Type 0} (w v : Work) (a : A) (f : Work → A) → f w ≡ a → f v ≡ put w a f v
put_known w v a f e = elim (Bool-cases (same w v)) [
  | inl q ↦ rw q (ap f (sym (same→≡ w v q)) ∙ e)
  | inr q ↦ rw q refl
]

-- The handler of `w`, if it runs, comes to its end.
pub finishes :
    (d : Driver) (s : System) (w : Work) → Works d s (put w (stilled (s.status w)) s.status)
finishes d s w = elim (Status-cases (s.status w)) [
  | inl e ↦ as_known (no_steps d s) (λ v. put_known w v _ s.status (rw e refl))
  | inr (inl e) ↦ as_known (no_steps d s) (λ v. put_known w v _ s.status (rw e refl))
  | inr (inr (inl e)) ↦ as_known (no_steps d s) (λ v. put_known w v _ s.status (rw e refl))
  | inr (inr (inr e)) ↦ record {
    end = _;
    run = later here (finish w e);
    statuses = λ v. rw e refl;
    same_calls = refl;
    same_phase = refl;
    same_workers = refl;
  }
]

-- A work that is queued, while nothing runs and there are workers, is run.
pub runs :
    (d : Driver) (s : System) (w : Work)
    → s.alive ≡ true
    → Quiet s.status
    → s.status w ≡ queued
    → Works d s (put w idle s.status)
runs d s w a q e = record {
  end = _;
  run = later (later here (begin w e a (λ _ v. q v))) (finish w (put_self w running s.status));
  statuses = λ v. ground arith;
  same_calls = refl;
  same_phase = refl;
  same_workers = refl;
}

fires :
    (d : Driver) (s : System) (w : Work) → s.status w ≡ timed → Works d s (put w queued s.status)
fires d s w e = record {
  end = _;
  run = later here (fire w e);
  statuses = λ v. refl;
  same_calls = refl;
  same_phase = refl;
  same_workers = refl;
}

put_twice : {A : Type 0} (w v : Work) (a b : A) (f : Work → A) → put w a (put w b f) v ≡ put w a f v
put_twice w v a b f = ground arith

pub rests :
    (d : Driver) (s : System) (w : Work)
    → s.alive ≡ true
    → Quiet s.status
    → Works d s (put w idle s.status)
rests d s w a q = elim (Status-cases (s.status w)) [
  | inl e ↦ as_known (no_steps d s) (λ v. put_known w v idle s.status e)
  | inr (inl e) ↦
      let r = fires d s w e in
      let known = r.statuses in
      let quiet =
        λ (v : Work) (h : r.end.status v ≡ running). absurd (ground (arith, h, known v, q v)) in
      as_known
        (behind r
          (runs d r.end w (r.same_workers ∙ a) quiet (known w ∙ put_self w queued s.status)))
        (λ v. ground (arith, known v))
  | inr (inr (inl e)) ↦ runs d s w a q e
  | inr (inr (inr e)) ↦ absurd (q w e)
]

stilled_twice : (st : Status) → stilled (stilled st) ≡ stilled st
stilled_twice idle = refl
stilled_twice timed = refl
stilled_twice queued = refl
stilled_twice running = refl
