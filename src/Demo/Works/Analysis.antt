-- ===== src/Demo/Works/Analysis.antt =====
-- 4.work_struct and 3.kthread_worker2: an analysis of the calls of `open` and `release`, which is sound
-- for every run.
use learn_linux_drv.Prelude.{
  ◌≡◌, ◌≢◌, ◌⊎◌, inl, inr, refl, sym, ◌∙◌, Bool, true, false, not, ◌&&◌, List, [], ◌∷◌, ◌++◌, arith,
  if◌then◌else◌, Bool-cases,
}
use mathlib.Core.Path.{subst}
use learn_linux_drv.Demo.Works.{
  Work, my_work, cancelable_work, my_delayed_work, Status, idle, timed, Call, queues, delays,
  cancels, flushes, flushes_all, runs_thread, stops_thread, Driver, work_struct, kthread_worker2,
  Phase, closed, opening, opened, releasing, System, same, put,
}

-- What is known of a work: that it is idle, that it does not wait for its timer, or nothing.
pub data Level : Type 0 where
  none_left busy any : Level

-- What is known between two calls: whether works can be run, and of each work.
pub record Known : Type 0 where
  pub alive : Bool
  pub level : Work → Level

abbrev pub is_none : Level → Bool
is_none none_left = true
is_none _ = false

abbrev pub settled : Level → Level
settled any = any
settled _ = none_left

abbrev pub all_none : Known → Bool
all_none k =
    is_none (k.level my_work)
    && is_none (k.level cancelable_work)
    && is_none (k.level my_delayed_work)

-- What is known behind a call.
abbrev pub after : Call → Known → Known
after (queues w) k = record k { level = put w busy k.level }
after (delays w) k = record k { level = put w any k.level }
after (cancels w) k = record k { level = put w none_left k.level }
after (flushes w) k = record k { level = put w none_left k.level }
after flushes_all k = record k { level = λ w. settled (k.level w) }
after runs_thread k = record k { alive = true }
after stops_thread k = record k { alive = false }

abbrev pub initial : Driver → Known
initial d = record { alive = d.ready; level = λ w. none_left }

abbrev pub same_alive : Bool → Bool → Bool
same_alive true b = b
same_alive false b = not b

-- Whether a call is made in order: a work is set up while it is idle and can be run, a thread is
-- started where there is none, and stopped when nothing is left to it.
abbrev pub in_order : Driver → Call → Known → Bool
in_order d (queues w) k = k.alive && is_none (k.level w)
in_order d (delays w) k = k.alive && is_none (k.level w)
in_order d (cancels w) k = true
in_order d (flushes w) k = true
in_order d flushes_all k = true
in_order d runs_thread k = not k.alive && not d.ready && all_none k
in_order d stops_thread k = all_none k

-- Whether calls are made in order, and leave everything as it was at the start.
unfoldable pub checked : Driver → List Call → Known → Bool
checked d [] k = all_none k && same_alive k.alive d.ready
checked d (c ∷ cs) k = let rest = checked d cs (after c k) in in_order d c k && rest

-- The check of a driver: a session from `open` to `release`.
abbrev pub IsChecked : Driver → Type 0
IsChecked d = checked d (d.open_calls ++ d.release_calls) (initial d) ≡ true

pub work_struct-IsChecked : IsChecked work_struct
unfolding checked
work_struct-IsChecked = refl

pub kthread_worker2-IsChecked : IsChecked kthread_worker2
unfolding checked
kthread_worker2-IsChecked = refl

abbrev pub Allows : Level → Status → Type 0
Allows none_left st = st ≡ idle
Allows busy st = st ≢ timed
Allows any st = Unit

-- A system is as it is known to be.
pub record Fits (k : Known) (s : System) : Type 0 where
  pub alive : s.alive ≡ k.alive
  pub allows : (w : Work) → Allows (k.level w) (s.status w)
  pub dead : k.alive ≡ false → (w : Work) → k.level w ≡ none_left
  pub sound : s.fault ≡ false

-- The calls that the session has still to make.
abbrev pub remaining : Driver → Phase → List Call → List Call
remaining d closed cs = d.open_calls ++ d.release_calls
remaining d opening cs = cs ++ d.release_calls
remaining d opened cs = d.release_calls
remaining d releasing cs = cs

pub record Inv (d : Driver) (s : System) : Type 0 where
  pub known : Known
  pub fits : Fits known s
  pub in_check : checked d (remaining d s.phase s.calls) known ≡ true
  pub closed_none : s.phase ≡ closed → (w : Work) → known.level w ≡ none_left
  pub closed_alive : s.phase ≡ closed → known.alive ≡ d.ready
  pub quiet : (s.phase ≡ closed) ⊎ (s.phase ≡ opened) → s.calls ≡ []

pub same→≡ : (v w : Work) → same v w ≡ true → v ≡ w
same→≡ my_work my_work h = refl
same→≡ my_work cancelable_work h = cc
same→≡ my_work my_delayed_work h = cc
same→≡ cancelable_work my_work h = cc
same→≡ cancelable_work cancelable_work h = refl
same→≡ cancelable_work my_delayed_work h = cc
same→≡ my_delayed_work my_work h = cc
same→≡ my_delayed_work cancelable_work h = cc
same→≡ my_delayed_work my_delayed_work h = refl

pub same_self : (w : Work) → same w w ≡ true
same_self my_work = refl
same_self cancelable_work = refl
same_self my_delayed_work = refl

pub and_split : (b c : Bool) → b && c ≡ true → (b ≡ true) × (c ≡ true)
and_split true c h = (refl, h)
and_split false c h = absurd (ground (arith, h))

-- One work changes, with what is known of it, or within what is known of it.
pub put-Allows :
    (w : Work) (l : Level) (st : Status) (f : Work → Level) (g : Work → Status)
    → Allows l st
    → ((v : Work) → Allows (f v) (g v))
    → (v : Work) → Allows (put w l f v) (put w st g v)
put-Allows w l st f g a h v =
    elim (same w v) as (λ b. Allows (if b then l else f v) (if b then st else g v)) [
      | true ↦ a
      | false ↦ h v
    ]

pub put_status-Allows :
    (w : Work) (st : Status) (f : Work → Level) (g : Work → Status)
    → Allows (f w) st
    → ((v : Work) → Allows (f v) (g v))
    → (v : Work) → Allows (f v) (put w st g v)
put_status-Allows w st f g a h v = elim (Bool-cases (same w v)) [
  | inl e ↦ rw e (subst (λ u. Allows (f u) st) (same→≡ w v e) a)
  | inr e ↦ rw e (h v)
]

-- The call that is made next, in a state that fits.
remaining-cons :
    (d : Driver) {s : System} {c : Call} {rest : List Call} (v : Inv d s)
    → s.calls ≡ c ∷ rest
    → (checked d (c ∷ remaining d s.phase rest) v.known ≡ true)
      × ¬ ((s.phase ≡ closed) ⊎ (s.phase ≡ opened))
remaining-cons d {s} {c} {rest} v e =
    (next s.phase v.quiet v.in_check, λ x. no_call (sym e ∙ v.quiet x))
  where
    no_call : c ∷ rest ≡ [] → ⊥
    no_call h = cc

    next :
        (p : Phase)
        → ((p ≡ closed) ⊎ (p ≡ opened) → s.calls ≡ [])
        → checked d (remaining d p s.calls) v.known ≡ true
        → checked d (c ∷ remaining d p rest) v.known ≡ true
    next closed q h = absurd (no_call (sym e ∙ q (inl refl)))
    next opened q h = absurd (no_call (sym e ∙ q (inr refl)))
    next opening q h = subst (λ cs. checked d (cs ++ d.release_calls) v.known ≡ true) e h
    next releasing q h = subst (λ cs. checked d cs v.known ≡ true) e h

-- What the check says of the next call.
pub next_call :
    (d : Driver) {s : System} {c : Call} {rest : List Call} (v : Inv d s)
    → s.calls ≡ c ∷ rest
    → (in_order d c v.known ≡ true)
      × (checked d (remaining d s.phase rest) (after c v.known) ≡ true)
unfolding checked
next_call d v e = and_split _ _ (remaining-cons d v e).0

pub called :
    (d : Driver) {s t : System} {c : Call} {rest : List Call} (v : Inv d s)
    → s.calls ≡ c ∷ rest
    → t.phase ≡ s.phase
    → t.calls ≡ rest
    → Fits (after c v.known) t
    → Inv d t
called d {s} {t} {c} {rest} v e p q f = record {
  known = after c v.known;
  fits = f;
  in_check = rw (p, q) (next_call d v e).1;
  closed_none = λ h. absurd ((remaining-cons d v e).1 (inl (sym p ∙ h)));
  closed_alive = λ h. absurd ((remaining-cons d v e).1 (inl (sym p ∙ h)));
  quiet = λ h. absurd ((remaining-cons d v e).1 (subst (λ x. (x ≡ closed) ⊎ (x ≡ opened)) p h));
}

pub worked :
    (d : Driver) {s t : System} (v : Inv d s)
    → t.phase ≡ s.phase
    → t.calls ≡ s.calls
    → Fits v.known t
    → Inv d t
worked d {s} {t} v p q f = record {
  known = v.known;
  fits = f;
  in_check = rw (p, q) v.in_check;
  closed_none = λ h. v.closed_none (sym p ∙ h);
  closed_alive = λ h. v.closed_alive (sym p ∙ h);
  quiet = λ h. q ∙ v.quiet (subst (λ x. (x ≡ closed) ⊎ (x ≡ opened)) p h);
}
