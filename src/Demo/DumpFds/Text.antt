-- ===== src/Demo/DumpFds/Text.antt =====
-- 5.dump_fd_info/kDemo.c: what `dump_fds_show` prints, and what it holds meanwhile.
use learn_linux_drv.Prelude.{
  ℕ, ◌+◌, ◌-◌, ◌<◌, ◌≡◌, inl, inr, refl, Bool, true, false, ◌||◌, ◌&&◌, List, [], ◌∷◌, ◌++◌, Option,
  none, some, arith, if◌then◌else◌, zero, suc, Option-cases, ap, ◌∙◌,
}
use learn_linux_drv.Prelude.Int.{ℤ}
use learn_linux_drv.Prelude.Count.{count}
use learn_linux_drv.Kernel.{ok}
use learn_linux_drv.Demo.DumpFds.{
  File, Task, Line, dumping, Held, is_current, dump_file, dump_slot, dump_slots, dump_task,
  dump_fds_show,
}
use learn_linux_drv.Demo.DumpFds.Lines.{
  named, is_open, any_open, AscendingFrom, AscendingFrom-lower, named-append, dump_file-named,
}

-- The descriptors that a text names, in its order.
pub record Lists (n : ℕ) (slots : List (Option File)) (ls : List Line) : Type 0 where
  pub each : (k : ℕ) → count (n + k) (named ls) ≡ (if is_open slots k then 1 else 0)
  pub rising : AscendingFrom n (named ls)

AscendingFrom-count : (m n : ℕ) (xs : List ℕ) → m < n → AscendingFrom n xs → count m xs ≡ 0
unfolding count
AscendingFrom-count m n [] h v = refl
AscendingFrom-count m n (x ∷ xs) h v =
    ground (arith, AscendingFrom-count m (x + 1) xs (omega (arith, v.0)) v.1)

Lists-closed :
    {n : ℕ} {slots : List (Option File)} {ls : List Line}
    → Lists (n + 1) slots ls
    → Lists n (none ∷ slots) ls
Lists-closed {n} {slots} {ls} v = record {
  each = counted;
  rising = AscendingFrom-lower n (n + 1) _ (omega arith) v.rising;
}
  where
    counted : (k : ℕ) → count (n + k) (named ls) ≡ (if is_open (none ∷ slots) k then 1 else 0)
    counted zero = AscendingFrom-count (n + 0) (n + 1) (named ls) (omega arith) v.rising
    counted (suc k) = ap (λ m. count m (named ls)) (omega arith) ∙ v.each k

Lists-open :
    {n : ℕ} {f : File} {slots : List (Option File)} (xs : List Line) {ls : List Line}
    → named xs ≡ n ∷ []
    → Lists (n + 1) slots ls
    → Lists n (some f ∷ slots) (xs ++ ls)
unfolding count
Lists-open {n} {f} {slots} xs {ls} e v =
    let e' : named (xs ++ ls) ≡ n ∷ named ls = named-append xs ls ∙ ap (λ r. r ++ named ls) e in
    record { each = λ k. rw e' (counted k); rising = rw e' (omega arith, v.rising) }
  where
    counted : (k : ℕ) → count (n + k) (n ∷ named ls) ≡ (if is_open (some f ∷ slots) k then 1 else 0)
    counted zero =
        ground (arith, AscendingFrom-count (n + 0) (n + 1) (named ls) (omega arith) v.rising)
    counted (suc k) =
        let e' : n + suc k ≡ n + 1 + k = omega arith in
        ground (arith, ap (λ m. count m (named ls)) e' ∙ v.each k)

dump_slots-Lists :
    (page : ℕ → Bool) (n : ℕ) (slots : List (Option File)) (h : Held)
    → Lists n slots (dump_slots page n slots h).0
unfolding dump_slots dump_slot named count
dump_slots-Lists page n [] h = record { each = λ k. refl; rising = tt }
dump_slots-Lists page n (none ∷ slots) h = Lists-closed (dump_slots-Lists page (n + 1) slots h)
dump_slots-Lists page n (some f ∷ slots) h =
    Lists-open (dump_file (page n) n f h).0 (dump_file-named (page n) n f h)
      (dump_slots-Lists page (n + 1) slots (dump_file (page n) n f h).1)

slots_listed :
    (page : ℕ → Bool) (slots : List (Option File)) (h : Held) (fd : ℕ)
    → count fd (named (dump_slots page 0 slots h).0) ≡ (if is_open slots fd then 1 else 0)
slots_listed page slots h fd =
    let e : fd ≡ 0 + fd = omega arith in
    ap (λ m. count m (named (dump_slots page 0 slots h).0)) e
    ∙ (dump_slots-Lists page 0 slots h).each fd

-- What the loop leaves of what is held.
slots_held :
    (page : ℕ → Bool) (n : ℕ) (slots : List (Option File)) (h : Held)
    → (dump_slots page n slots h).1
      ≡ record h { slept = h.slept || (any_open slots && h.file_lock) }
unfolding dump_slots dump_slot dump_file
slots_held page n [] h = ground arith
slots_held page n (none ∷ slots) h = slots_held page (n + 1) slots h
slots_held page n (some f ∷ slots) h =
    ground (arith, slots_held page (n + 1) slots (dump_file (page n) n f h).1)

-- The task that is looked at.
abbrev pub looked_at : (current : Task) (pid_task : ℤ → Option Task) (target_pid : ℤ) → Option Task
looked_at current pid_task target_pid =
    if is_current target_pid then some current else pid_task target_pid

-- What is held where `dump_task` starts.
abbrev with_task : (target_pid : ℤ) → Held → Held
with_task target_pid h = record h {
  tasks = h.tasks + 1;
  rcu = if is_current target_pid then h.rcu else false;
}

show_task :
    (current : Task) (pid_task : ℤ → Option Task) (page : ℕ → Bool) (target_pid : ℤ) (h : Held)
    (t : Task)
    → looked_at current pid_task target_pid ≡ some t
    → dump_fds_show current pid_task page target_pid h
      ≡ (let r = dump_task page t (with_task target_pid h) in (ok 0, r.0, r.1))
unfolding dump_fds_show
show_task current pid_task page target_pid h t e = ground (arith, e)

task_slots :
    (page : ℕ → Bool) (t : Task) (h : Held) (slots : List (Option File))
    → t.files ≡ some slots
    → dump_task page t h ≡ (
      dumping t.pid t.comm ∷ (dump_slots page 0 slots (record h { file_lock = true })).0,
      record h { tasks = h.tasks - 1; file_lock = false; slept = h.slept || any_open slots },
    )
unfolding dump_task
task_slots page t h slots e =
    ground (arith, e, slots_held page 0 slots (record h { file_lock = true }))

task_held :
    (page : ℕ → Bool) (t : Task) (h : Held)
    → h.file_lock ≡ false
    → (dump_task page t h).1
      ≡ record h { tasks = h.tasks - 1; slept = (dump_task page t h).1.slept }
unfolding dump_task
task_held page t h l = elim (Option-cases t.files) [
  | inl e ↦ ground (arith, e)
  | inr (slots, e) ↦ ground (arith, e, l, slots_held page 0 slots (record h { file_lock = true }))
]

-- Whatever the task, its files and the kernel's answers are, `dump_fds_show`, called with neither lock
-- held, returns 0 and gives back what it takes: the reference on the task, the pages, the spinlock and
-- the RCU read lock.
pub show_gives_back :
    (current : Task) (pid_task : ℤ → Option Task) (page : ℕ → Bool) (target_pid : ℤ) (h : Held)
    → h.file_lock ≡ false
    → h.rcu ≡ false
    → let (ret, text, h') = dump_fds_show current pid_task page target_pid h in
      (ret ≡ ok 0)
      × (h'.tasks ≡ h.tasks)
      × (h'.pages ≡ h.pages)
      × (h'.file_lock ≡ false)
      × (h'.rcu ≡ false)
unfolding dump_fds_show
show_gives_back current pid_task page target_pid h l r =
    elim (Option-cases (looked_at current pid_task target_pid)) [
      | inl e ↦ ground (arith, e, l, r)
      | inr (t, e) ↦ ground (
        arith,
        show_task current pid_task page target_pid h t e,
        task_held page t (with_task target_pid h) l,
        r,
      )
    ]

-- Where the task that is looked at has a table of files, `dump_fds_show` names just the descriptors
-- that are open in it, each once and in ascending order, whether there are pages and paths for them or
-- not.
pub show_lists_open :
    (current : Task) (pid_task : ℤ → Option Task) (page : ℕ → Bool) (target_pid : ℤ) (h : Held)
    (t : Task) (slots : List (Option File))
    → looked_at current pid_task target_pid ≡ some t
    → t.files ≡ some slots
    → let text = (dump_fds_show current pid_task page target_pid h).1 in
      ((fd : ℕ) → count fd (named text) ≡ (if is_open slots fd then 1 else 0))
      × AscendingFrom 0 (named text)
unfolding named
show_lists_open current pid_task page target_pid h t slots e e' =
    rw
      (
        show_task current pid_task page target_pid h t e,
        task_slots page t (with_task target_pid h) slots e',
      )
      ((λ fd. slots_listed page slots _ fd), (dump_slots-Lists page 0 slots _).rising)

-- `dump_fds_show` makes an allocation that may sleep while it holds the spinlock exactly where the
-- task that is looked at has an open file.
pub show_sleeps_locked :
    (current : Task) (pid_task : ℤ → Option Task) (page : ℕ → Bool) (target_pid : ℤ) (h : Held)
    (t : Task) (slots : List (Option File))
    → looked_at current pid_task target_pid ≡ some t
    → t.files ≡ some slots
    → h.slept ≡ false
    → (dump_fds_show current pid_task page target_pid h).2.slept ≡ any_open slots
show_sleeps_locked current pid_task page target_pid h t slots e e' s =
    rw
      (
        show_task current pid_task page target_pid h t e,
        task_slots page t (with_task target_pid h) slots e',
        s,
      )
      refl
