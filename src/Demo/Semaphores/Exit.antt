-- ===== src/Demo/Semaphores/Exit.antt =====
-- 2.sync_semaphore/kDemo.c: the module's exit comes to its end.
use learn_linux_drv.Prelude.{
  ◌≡◌, ◌⊎◌, inl, inr, refl, sym, ap, ◌∙◌, true, false, List, [], ◌∷◌, arith, Bool-cases,
}
use learn_linux_drv.Prelude.Steps.{Reach, Reach-keeps, here, later}
use learn_linux_drv.Demo.Semaphores.{
  Thread, counting, binary, exclusive, reader, writer, rcu_reader, rcu_updater, Pc, testing, taking,
  holding, returned, initial, is_free, can_give, put, System, loaded, Step, takes, gives, returns,
  stop, stopped,
}
use learn_linux_drv.Demo.Semaphores.Invariant.{Inv, Step-Inv, is_holding, holds}
use learn_linux_drv.Demo.Semaphores.Unload.{same_self, Reach-Inv, Reach-Left}

-- Some steps of the threads, behind which `P` holds, and which leave the exit where it was.
record Runs (s : System) (P : System → Type 0) : Type 0 where
  end : System
  run : Reach Step s end
  holds_then : P end
  same_to_stop : end.to_stop ≡ s.to_stop
  same_exit : end.exit ≡ s.exit
  same_flags : end.should_stop ≡ s.should_stop

append : {s t u : System} → Reach Step s t → Reach Step t u → Reach Step s u
append r here = r
append r (later q st) = later (append r q) st

behind :
    {s : System} {P : System → Type 0} (Q : System → Type 0) (r : Runs s P)
    → Runs r.end Q
    → Runs s Q
behind Q r q = record {
  end = q.end;
  run = append r.run q.run;
  holds_then = q.holds_then;
  same_to_stop = q.same_to_stop ∙ r.same_to_stop;
  same_exit = q.same_exit ∙ r.same_exit;
  same_flags = q.same_flags ∙ r.same_flags;
}

put_self : {A : Type 0} (t : Thread) (a : A) (f : Thread → A) → put t a f t ≡ a
put_self t a f = rw (same_self t) refl

Pc-cases : (p : Pc) → (p ≡ testing) ⊎ (p ≡ taking) ⊎ (p ≡ holding) ⊎ (p ≡ returned)
Pc-cases testing = inl refl
Pc-cases taking = inr (inl refl)
Pc-cases holding = inr (inr (inl refl))
Pc-cases returned = inr (inr (inr refl))

-- What the exit waits for.
abbrev Returned : Thread → System → Type 0
Returned t s = s.pc t ≡ returned

abbrev Freed : Thread → System → Type 0
Freed t s = (s.pc t ≡ taking) × (is_free t s.locks ≡ true)

no_steps : {s : System} (P : System → Type 0) → P s → Runs s P
no_steps {s} P h = record {
  end = s;
  run = here;
  holds_then = h;
  same_to_stop = refl;
  same_exit = refl;
  same_flags = refl;
}

-- A thread that has been told to stop returns from the loop's test, and so does one that holds its
-- lock.
test_returns :
    (s : System) (t : Thread) → s.should_stop t ≡ true → s.pc t ≡ testing → Runs s (Returned t)
test_returns s t f e = record {
  end = _;
  run = later here (returns t e f);
  holds_then = put_self t returned s.pc;
  same_to_stop = refl;
  same_exit = refl;
  same_flags = refl;
}

free_holder_returns :
    (s : System) (t : Thread)
    → s.should_stop t ≡ true
    → s.pc t ≡ holding
    → can_give t s.locks ≡ true
    → Runs s (Returned t)
free_holder_returns s t f e g = record {
  end = _;
  run = later (later here (gives t e g)) (returns t (put_self t testing s.pc) f);
  holds_then = put_self t returned (put t testing s.pc);
  same_to_stop = refl;
  same_exit = refl;
  same_flags = refl;
}

is_holder : (p : Pc) → is_holding p ≡ true → p ≡ holding
is_holder testing h = cc
is_holder taking h = cc
is_holder holding h = refl
is_holder returned h = cc

-- `synchronize_rcu` comes back behind the reader's section.
holder_returns :
    (s : System) (t : Thread)
    → Inv s
    → s.should_stop t ≡ true
    → s.pc t ≡ holding
    → Runs s (Returned t)
holder_returns s counting v f e = free_holder_returns s counting f e refl
holder_returns s binary v f e = free_holder_returns s binary f e refl
holder_returns s exclusive v f e = free_holder_returns s exclusive f e refl
holder_returns s reader v f e = free_holder_returns s reader f e refl
holder_returns s writer v f e = free_holder_returns s writer f e refl
holder_returns s rcu_reader v f e = free_holder_returns s rcu_reader f e refl
holder_returns s rcu_updater v f e = elim (Bool-cases s.locks.waited) [
  | inl w ↦
      behind {P = λ u. (u.pc rcu_updater ≡ holding) × (u.locks.waited ≡ false)}
        (Returned rcu_updater)
        (record {
          end = _;
          run = later here (
              gives rcu_reader (is_holder (s.pc rcu_reader) (ground (arith, v.reading, v.grace, w)))
                refl);
          holds_then = (e, refl);
          same_to_stop = refl;
          same_exit = refl;
          same_flags = refl;
        })
        (free_holder_returns _ rcu_updater f e refl)
  | inr w ↦ free_holder_returns s rcu_updater f e (rw w refl)
]

not_holder : (p : Pc) → is_holding p ≡ false → holds p ≡ 0
not_holder testing h = refl
not_holder taking h = refl
not_holder holding h = cc
not_holder returned h = refl

-- A lock that a thread waits for becomes free: who holds it, gives it back.
frees : (s : System) (t : Thread) → Inv s → s.pc t ≡ taking → Runs s (Freed t)
frees s counting v e = no_steps (Freed counting) (e, ground (arith, v.sem, e))
frees s binary v e = no_steps (Freed binary) (e, ground (arith, v.bin_sem, e))
frees s exclusive v e = no_steps (Freed exclusive) (e, ground (arith, v.my_mutex, e))
frees s rcu_reader v e = no_steps (Freed rcu_reader) (e, refl)
frees s rcu_updater v e = no_steps (Freed rcu_updater) (e, refl)
frees s reader v e = elim (Bool-cases s.locks.writing) [
  | inl w ↦ record {
    end = _;
    run = later here (gives writer (is_holder (s.pc writer) (sym v.writing ∙ w)) refl);
    holds_then = (e, refl);
    same_to_stop = refl;
    same_exit = refl;
    same_flags = refl;
  }
  | inr w ↦ no_steps (Freed reader) (e, rw w refl)
]
frees s writer v e = elim (Bool-cases (is_holding (s.pc reader))) [
  | inl r ↦ record {
    end = _;
    run = later here (gives reader (is_holder (s.pc reader) r) refl);
    holds_then = (e, ground (arith, v.readers, v.writing, e, is_holder (s.pc reader) r));
    same_to_stop = refl;
    same_exit = refl;
    same_flags = refl;
  }
  | inr r ↦
      no_steps (Freed writer)
        (e, ground (arith, v.readers, v.writing, e, not_holder (s.pc reader) r))
]

taker_returns :
    (s : System) (t : Thread) → Inv s → s.should_stop t ≡ true → Freed t s → Runs s (Returned t)
taker_returns s t v f (e, free) =
    behind {P = λ u. u.pc t ≡ holding} (Returned t)
      (record {
        end = _;
        run = later here (takes t e free);
        holds_then = put_self t holding s.pc;
        same_to_stop = refl;
        same_exit = refl;
        same_flags = refl;
      })
      (holder_returns _ t (Step-Inv (takes t e free) v) f (put_self t holding s.pc))

-- Wherever a thread stands, it can come to its end once it has been told to stop.
thread_returns : (s : System) (t : Thread) → Inv s → s.should_stop t ≡ true → Runs s (Returned t)
thread_returns s t v f = elim (Pc-cases (s.pc t)) [
  | inl e ↦ test_returns s t f e
  | inr (inl e) ↦
      let r = frees s t v e in
      behind (Returned t) r (
        taker_returns r.end t (Reach-keeps Step {P = Inv} (λ a b. Step-Inv) r.run v)
          (ap (λ g. g t) r.same_flags ∙ f) r.holds_then)
  | inr (inr (inl e)) ↦ holder_returns s t v f e
  | inr (inr (inr e)) ↦ no_steps (Returned t) e
]

stops_all :
    (s : System) (ts : List Thread)
    → Inv s
    → s.exit ≡ true
    → s.to_stop ≡ ts
    → (u : System) × Reach Step s u × (u.exit ≡ true) × (u.to_stop ≡ [])
stops_all s [] v x e = (s, here, x, e)
stops_all s (t ∷ ts) v x e =
    let flagged : System = record s { should_stop = put t true s.should_stop } in
    let first : Step s flagged = stop e in
    let f : flagged.should_stop t ≡ true = put_self t true s.should_stop in
    let r = thread_returns flagged t (Step-Inv first v) f in
    let last = stopped (r.same_to_stop ∙ e) (ap (λ g. g t) r.same_flags ∙ f) r.holds_then in
    let path = later (append (later here first) r.run) last in
    let (u, q, x', done) =
      stops_all (record (r.end) { to_stop = ts }) ts
        (Reach-keeps Step {P = Inv} (λ a b. Step-Inv) path v) (r.same_exit ∙ x) refl in
    (u, append path q, x', done)

-- Locks that nobody holds are as `m_chr_init` left them.
all_returned-locks : {s : System} → Inv s → ((t : Thread) → s.pc t ≡ returned) → s.locks ≡ initial
all_returned-locks {s} v h = ground (
  arith,
  v.sem,
  v.bin_sem,
  v.my_mutex,
  v.readers,
  v.writing,
  v.reading,
  v.grace,
  h counting,
  h binary,
  h exclusive,
  h reader,
  h writer,
  h rcu_reader,
)

-- Where each `kthread_run` has succeeded: from every state that the module reaches within its exit, there
-- is a run in which each of the seven calls of `kthread_stop` comes back, and then the seven threads have
-- returned, every lock is free, and no RCU section is left.
pub exit_ends :
    (s : System)
    → Reach Step loaded s
    → s.exit ≡ true
    → (u : System) × Reach Step s u
      × (u.to_stop ≡ [])
      × ((t : Thread) → u.pc t ≡ returned)
      × (u.locks ≡ initial)
exit_ends s r x =
    let (u, q, x', e) = stops_all s s.to_stop (Reach-Inv r) x refl in
    let all = append r q in
    let gone = λ (t : Thread). (Reach-Left all).gone x' t (rw e refl) in
    (u, q, e, gone, all_returned-locks (Reach-Inv all) gone)
