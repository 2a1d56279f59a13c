-- ===== src/Demo/Works/Safety.antt =====
-- 4.work_struct and 3.kthread_worker2: what holds in every state of their sessions.
use learn_linux_drv.Prelude.{◌≡◌, refl, sym, ap, ◌∙◌, true, not, ◌&&◌, List, [], ◌∷◌, arith}
use mathlib.Core.Path.{subst}
use learn_linux_drv.Prelude.Steps.{Reach, Reach-keeps}
use learn_linux_drv.Demo.Works.{
  Work, Status, idle, timed, queued, running, Call, queues, delays, cancels, flushes, runs_thread,
  Driver, closed, System, put, start, set_up, Step, opens, open_returns, releases, release_returns,
  queue, delay, cancel, cancel_returns, expedite, flush_returns, flush_all_returns, run_thread,
  run_thread_fails, stop_thread, fire, begin, finish,
}
use learn_linux_drv.Demo.Works.Analysis.{
  Level, none_left, busy, any, Known, is_none, settled, all_none, after, initial, in_order, checked,
  IsChecked, Allows, Fits, Inv, put-Allows, put_status-Allows, next_call, called, worked, and_split,
}
use learn_linux_drv.Demo.Works.Levels.{
  all_none_at, same_alive→≡, idle_of, is_none→≡, Allows-idle, Allows-moved, Allows-settled,
  put_level-Allows,
}

-- A session that is over, or whose `open` has failed at its first call.
ended :
    (d : Driver) {s t : System} {k : Known}
    → IsChecked d
    → Fits k s
    → all_none k ≡ true
    → k.alive ≡ d.ready
    → t.phase ≡ closed
    → t.calls ≡ []
    → t.status ≡ s.status
    → t.alive ≡ s.alive
    → t.fault ≡ s.fault
    → Inv d t
ended d {s} {t} {k} ok f n a p c st al fa = record {
  known = initial d;
  fits = record {
    alive = al ∙ f.alive ∙ a;
    allows =
        λ w. ap (λ g. g w) st ∙ idle_of (k.level w) (s.status w) (f.allows w) (all_none_at k w n);
    dead = λ _ w. refl;
    sound = fa ∙ f.sound;
  };
  in_check = rw p ok;
  closed_none = λ _ w. refl;
  closed_alive = λ _. refl;
  quiet = λ _. c;
}

-- A work that is changed by the kernel, not by a call.
moved :
    (d : Driver) {s t : System} (w : Work) (st : Status) (v : Inv d s)
    → t.phase ≡ s.phase
    → t.calls ≡ s.calls
    → t.status ≡ put w st s.status
    → t.alive ≡ s.alive
    → t.fault ≡ s.fault
    → Allows (v.known.level w) st
    → Inv d t
moved d {s} {t} w st v p c e al fa h = worked d v p c (record {
  alive = al ∙ v.fits.alive;
  allows = λ u.
      subst (λ g. Allows (v.known.level u) (g u)) (sym e)
        (put_status-Allows w st v.known.level s.status h v.fits.allows u);
  dead = v.fits.dead;
  sound = fa ∙ v.fits.sound;
})

set_up-Inv :
    (d : Driver) {s : System} (c : Call) (w : Work) (st : Status) (l : Level) {rest : List Call}
    (v : Inv d s)
    → s.calls ≡ c ∷ rest
    → in_order d c v.known ≡ v.known.alive && is_none (v.known.level w)
    → after c v.known ≡ record (v.known) { level = put w l v.known.level }
    → Allows l st
    → Inv d (set_up w st rest s)
set_up-Inv d {s} c w st l v e o a h = called d v e refl refl (
    rw a (record {
      alive = v.fits.alive;
      allows = put-Allows w l st v.known.level s.status h v.fits.allows;
      dead = λ x. absurd (ground (arith, x, both.0));
      sound = ground (arith, v.fits.sound, was_idle);
    }))
  where
    both : (v.known.alive ≡ true) × (is_none (v.known.level w) ≡ true)
    both = and_split _ _ (sym o ∙ (next_call d v e).0)

    was_idle : s.status w ≡ idle
    was_idle = idle_of _ _ (v.fits.allows w) (is_none→≡ _ both.1)

returned-Inv :
    (d : Driver) {s : System} (c : Call) (w : Work) {rest : List Call} (v : Inv d s)
    → s.calls ≡ c ∷ rest
    → s.status w ≡ idle
    → after c v.known ≡ record (v.known) { level = put w none_left v.known.level }
    → Inv d (record s { calls = rest })
returned-Inv d {s} c w v e i a = called d v e refl refl (
    rw a (record {
      alive = v.fits.alive;
      allows = put_level-Allows w v.known.level s.status i v.fits.allows;
      dead = λ h u. ground (arith, v.fits.dead h u);
      sound = v.fits.sound;
    }))

-- The check of a session that has no call left.
no_calls :
    (d : Driver) (k : Known) → checked d [] k ≡ true → (all_none k ≡ true) × (k.alive ≡ d.ready)
unfolding checked
no_calls d k h = let (n, a) = and_split _ _ h in (n, same_alive→≡ k.alive d.ready a)

no_thread :
    (d : Driver) (k : Known)
    → in_order d runs_thread k ≡ true
    → (all_none k ≡ true) × (k.alive ≡ d.ready)
no_thread d k h =
    let (h', n) = and_split _ (all_none k) h in
    let (a, r) = and_split (not k.alive) (not d.ready) h' in (n, ground (arith, a, r))

pub Step-Inv : {d : Driver} {s t : System} → IsChecked d → Step d s t → Inv d s → Inv d t
Step-Inv ok (opens p) v = record {
  known = v.known;
  fits = record {
    alive = v.fits.alive;
    allows = v.fits.allows;
    dead = v.fits.dead;
    sound = v.fits.sound;
  };
  in_check = rw p at (v.in_check);
  closed_none = λ h. cc;
  closed_alive = λ h. cc;
  quiet = λ h. ground (arith, h);
}
Step-Inv ok (open_returns p c) v = record {
  known = v.known;
  fits = record {
    alive = v.fits.alive;
    allows = v.fits.allows;
    dead = v.fits.dead;
    sound = v.fits.sound;
  };
  in_check = rw (p, c) at (v.in_check);
  closed_none = λ h. cc;
  closed_alive = λ h. cc;
  quiet = λ h. c;
}
Step-Inv ok (releases p) v = record {
  known = v.known;
  fits = record {
    alive = v.fits.alive;
    allows = v.fits.allows;
    dead = v.fits.dead;
    sound = v.fits.sound;
  };
  in_check = rw p at (v.in_check);
  closed_none = λ h. cc;
  closed_alive = λ h. cc;
  quiet = λ h. ground (arith, h);
}
Step-Inv {d} ok (release_returns p c) v =
    let (n, a) = no_calls d v.known (rw (p, c) at (v.in_check)) in
    ended d ok v.fits n a refl c refl refl refl
Step-Inv {d} ok (queue {w} e) v = set_up-Inv d (queues w) w queued busy v e refl refl (λ x. cc)
Step-Inv {d} ok (delay {w} e) v = set_up-Inv d (delays w) w timed any v e refl refl tt
Step-Inv {d} ok (cancel {w} e n r) v = moved d w idle v refl refl refl refl refl (Allows-idle _)
Step-Inv {d} {s} ok (cancel_returns {w} e i) v = returned-Inv d (cancels w) w v e i refl
Step-Inv {d} ok (expedite {w} e h) v =
    moved d w queued v refl refl refl refl refl
      (Allows-moved _ _ queued (λ x. cc) (λ x. cc) (v.fits.allows w))
Step-Inv {d} {s} ok (flush_returns {w} e i) v = returned-Inv d (flushes w) w v e i refl
Step-Inv {d} {s} ok (flush_all_returns e q r) v = called d v e refl refl (record {
  alive = v.fits.alive;
  allows = λ w. Allows-settled _ _ (q w) (r w) (v.fits.allows w);
  dead = λ h w. ap settled (v.fits.dead h w);
  sound = v.fits.sound;
})
Step-Inv {d} {s} ok (run_thread e) v =
    called d v e refl refl
      (record { alive = refl; allows = v.fits.allows; dead = λ h. cc; sound = v.fits.sound })
Step-Inv {d} {s} ok (run_thread_fails p e) v =
    let (n, a) = no_thread d v.known (next_call d v e).0 in
    ended d ok v.fits n a refl refl refl refl refl
Step-Inv {d} {s} ok (stop_thread e r) v = called d v e refl refl (record {
  alive = refl;
  allows = v.fits.allows;
  dead = λ _ w. all_none_at v.known w (next_call d v e).0;
  sound = v.fits.sound;
})
Step-Inv {d} ok (fire w h) v =
    moved d w queued v refl refl refl refl refl
      (Allows-moved _ _ queued (λ x. cc) (λ x. cc) (v.fits.allows w))
Step-Inv {d} ok (begin w h a r) v =
    moved d w running v refl refl refl refl refl
      (Allows-moved _ _ running (λ x. cc) (λ x. cc) (v.fits.allows w))
Step-Inv {d} ok (finish w h) v = moved d w idle v refl refl refl refl refl (Allows-idle _)

start-Inv : (d : Driver) → IsChecked d → Inv d (start d)
start-Inv d ok = record {
  known = initial d;
  fits = record { alive = refl; allows = λ w. refl; dead = λ _ w. refl; sound = refl };
  in_check = ok;
  closed_none = λ _ w. refl;
  closed_alive = λ _. refl;
  quiet = λ _. refl;
}

pub Reach-Inv : (d : Driver) {s : System} → IsChecked d → Reach (Step d) (start d) s → Inv d s
Reach-Inv d ok r = Reach-keeps (Step d) {P = Inv d} (λ t u. Step-Inv ok) r (start-Inv d ok)
