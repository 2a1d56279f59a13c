-- ===== src/Demo/Semaphores/Unload.antt =====
-- 2.sync_semaphore/kDemo.c: the readers and the writer keep apart, and the module's exit comes to its
-- end.
use learn_linux_drv.Prelude.{
  ◌+◌, ◌≡◌, inl, inr, refl, sym, ◌∙◌, Bool, true, false, ◌&&◌, ◌||◌, List, [], ◌∷◌, arith,
  Bool-cases,
}
use mathlib.Core.Path.{subst}
use learn_linux_drv.Prelude.Steps.{Reach, Reach-keeps}
use learn_linux_drv.Demo.Semaphores.{
  Thread, counting, binary, exclusive, reader, writer, rcu_reader, rcu_updater, Pc, testing, taking,
  holding, returned, same, put, System, loaded, stops, Step, goes_on, takes, gives, fails, returns,
  exits, stop, stopped,
}
use learn_linux_drv.Demo.Semaphores.Invariant.{Inv, Step-Inv, is_holding, holds}

loaded-Inv : Inv loaded
loaded-Inv = record {
  sem = refl;
  bin_sem = refl;
  my_mutex = refl;
  readers = refl;
  writing = refl;
  apart = refl;
  reading = refl;
  grace = refl;
}

pub Reach-Inv : {s : System} → Reach Step loaded s → Inv s
Reach-Inv r = Reach-keeps Step {P = Inv} (λ t u. Step-Inv) r loaded-Inv

-- In every state that the threads reach from the module's init on, `reader_thread` and `writer_thread`
-- are not both between taking and giving back `rwsem`, and no semaphore has more or less than what its
-- thread has left.
pub readers_and_writer_apart :
    {s : System}
    → Reach Step loaded s
    → (is_holding (s.pc reader) && is_holding (s.pc writer) ≡ false)
      × (s.locks.sem + holds (s.pc counting) ≡ 2)
      × (s.locks.bin_sem + holds (s.pc binary) ≡ 1)
readers_and_writer_apart r = let v = Reach-Inv r in (v.apart, v.sem, v.bin_sem)

-- Whether a thread is still to be stopped.
abbrev pub awaited : Thread → List Thread → Bool
awaited t [] = false
awaited t (u ∷ us) = same u t || awaited t us

-- During the exit, every thread that is not to be stopped any more has returned.
pub record Left (s : System) : Type 0 where
  pub gone : s.exit ≡ true → (t : Thread) → awaited t s.to_stop ≡ false → s.pc t ≡ returned
  pub early : s.exit ≡ false → s.to_stop ≡ []

same→≡ : (t u : Thread) → same t u ≡ true → t ≡ u
same→≡ counting u h = ground (arith, h)
same→≡ binary u h = ground (arith, h)
same→≡ exclusive u h = ground (arith, h)
same→≡ reader u h = ground (arith, h)
same→≡ writer u h = ground (arith, h)
same→≡ rcu_reader u h = ground (arith, h)
same→≡ rcu_updater u h = ground (arith, h)

pub same_self : (t : Thread) → same t t ≡ true
same_self counting = refl
same_self binary = refl
same_self exclusive = refl
same_self reader = refl
same_self writer = refl
same_self rcu_reader = refl
same_self rcu_updater = refl

-- A thread moves that has not returned, or returns.
moved-Left :
    {s t : System} (u : Thread) (p : Pc)
    → (s.pc u ≡ returned → p ≡ returned)
    → t.pc ≡ put u p s.pc
    → t.exit ≡ s.exit
    → t.to_stop ≡ s.to_stop
    → Left s
    → Left t
moved-Left {s} {t} u p m e x l v = record {
  gone = λ h w a.
      subst (λ f. f w ≡ returned) (sym e)
        (still w (v.gone (sym x ∙ h) w (subst (λ ts. awaited w ts ≡ false) l a)));
  early = λ h. l ∙ v.early (sym x ∙ h);
}
  where
    still : (w : Thread) → s.pc w ≡ returned → put u p s.pc w ≡ returned
    still w r = elim (Bool-cases (same u w)) [
      | inl q ↦ rw q (m (subst (λ z. s.pc z ≡ returned) (sym (same→≡ u w q)) r))
      | inr q ↦ rw q r
    ]

pub Step-Left : {s t : System} → Step s t → Left s → Left t
Step-Left (goes_on t e h) v = moved-Left t taking (λ r. ground (arith, e, r)) refl refl refl v
Step-Left (takes t e h) v = moved-Left t holding (λ r. ground (arith, e, r)) refl refl refl v
Step-Left (gives t e g) v = moved-Left t testing (λ r. ground (arith, e, r)) refl refl refl v
Step-Left (fails e) v = moved-Left rcu_updater testing (λ r. ground (arith, e, r)) refl refl refl v
Step-Left (returns t e h) v = moved-Left t returned (λ r. refl) refl refl refl v
Step-Left (exits e) v = record { gone = λ h t a. absurd (all_awaited t a); early = λ h. cc }
  where
    all_awaited : (t : Thread) → awaited t stops ≡ false → ⊥
    all_awaited counting a = cc
    all_awaited binary a = cc
    all_awaited exclusive a = cc
    all_awaited reader a = cc
    all_awaited writer a = cc
    all_awaited rcu_reader a = cc
    all_awaited rcu_updater a = cc
Step-Left (stop e) v = record { gone = v.gone; early = v.early }
Step-Left {s} (stopped {t} {rest} e f p) v = record {
  gone = λ h u a. elim (Bool-cases (same t u)) [
    | inl q ↦ subst (λ z. s.pc z ≡ returned) (same→≡ t u q) p
    | inr q ↦ v.gone h u (subst (λ ts. awaited u ts ≡ false) (sym e) (ground (arith, q, a)))
  ];
  early = λ h. absurd (no_call (sym e ∙ v.early h));
}
  where
    no_call : t ∷ rest ≡ [] → ⊥
    no_call h = cc

pub Reach-Left : {s : System} → Reach Step loaded s → Left s
Reach-Left r =
    Reach-keeps Step {P = Left} (λ t u. Step-Left) r (record { gone = λ h. cc; early = λ h. refl })
