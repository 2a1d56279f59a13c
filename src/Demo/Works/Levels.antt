-- ===== src/Demo/Works/Levels.antt =====
-- 4.work_struct and 3.kthread_worker2: what the check allows of a work.
use learn_linux_drv.Prelude.{◌≡◌, ◌≢◌, inl, inr, refl, Bool, true, false, arith, Bool-cases}
use mathlib.Core.Path.{subst}
use learn_linux_drv.Demo.Works.{
  Work, my_work, cancelable_work, my_delayed_work, Status, idle, timed, queued, running, same, put,
}
use learn_linux_drv.Demo.Works.Analysis.{
  Level, none_left, busy, any, Known, is_none, settled, all_none, Allows, same→≡, same_alive,
}

pub all_none_at : (k : Known) (w : Work) → all_none k ≡ true → k.level w ≡ none_left
all_none_at k my_work h = ground arith
all_none_at k cancelable_work h = ground arith
all_none_at k my_delayed_work h = ground arith

pub same_alive→≡ : (a b : Bool) → same_alive a b ≡ true → a ≡ b
same_alive→≡ true b h = ground (arith, h)
same_alive→≡ false b h = ground (arith, h)

pub idle_of : (l : Level) (st : Status) → Allows l st → l ≡ none_left → st ≡ idle
idle_of none_left st h e = h
idle_of busy st h e = cc
idle_of any st h e = cc

pub is_none→≡ : (l : Level) → is_none l ≡ true → l ≡ none_left
is_none→≡ none_left h = refl
is_none→≡ busy h = cc
is_none→≡ any h = cc

-- What is allowed of a work stays allowed of it when it goes on, or is over.
pub Allows-idle : (l : Level) → Allows l idle
Allows-idle none_left = refl
Allows-idle busy = λ e. cc
Allows-idle any = tt

pub Allows-moved :
    (l : Level) (st st' : Status) → st ≢ idle → st' ≢ timed → Allows l st → Allows l st'
Allows-moved none_left st st' n t h = absurd (n h)
Allows-moved busy st st' n t h = t
Allows-moved any st st' n t h = tt

pub Allows-settled :
    (l : Level) (st : Status) → st ≢ queued → st ≢ running → Allows l st → Allows (settled l) st
Allows-settled none_left st q r h = h
Allows-settled busy idle q r h = refl
Allows-settled busy timed q r h = absurd (h refl)
Allows-settled busy queued q r h = absurd (q refl)
Allows-settled busy running q r h = absurd (r refl)
Allows-settled any st q r h = tt

-- A call that returns when the work that it names is idle.
pub put_level-Allows :
    (w : Work) (f : Work → Level) (g : Work → Status)
    → g w ≡ idle
    → ((v : Work) → Allows (f v) (g v))
    → (v : Work) → Allows (put w none_left f v) (g v)
put_level-Allows w f g i h v = elim (Bool-cases (same w v)) [
  | inl e ↦ rw e (subst (λ u. g u ≡ idle) (same→≡ w v e) i)
  | inr e ↦ rw e (h v)
]
