-- ===== src/Demo/Atomic/Lock.antt =====
-- atomic_ops/kDemo.c: what the spinlock promises.
use learn_linux_drv.Prelude.{
  ℕ, ◌≡◌, ◌⊎◌, inl, inr, refl, Bool, true, false, Option, none, some, arith, ◌==◌,
}
use learn_linux_drv.Prelude.Steps.{Reach, Reach-keeps}
use learn_linux_drv.Demo.Atomic.{
  Words, Op, add_five, sub_three, inc, dec, or_0011, and_1110, xor_0101, cas, apply, Pc, outside,
  entered, leaving, behind, System, start, goto, Step, cmpxchg, calls, operates, acquires, spins,
  works, releases, in_section,
}

-- Whether a process is the owner of the lock.
abbrev owns : Option ℕ → ℕ → Bool
owns none i = false
owns (some j) i = i == j

abbrev word_of : Option ℕ → ℕ
word_of none = 0
word_of (some j) = 1

-- The lock's word tells whether there is an owner, who alone is in the critical section.
record Owned (o : Option ℕ) (s : System) : Type 0 where
  alone : (i : ℕ) → in_section (s.pc i) ≡ owns o i
  word : s.words.spinlock ≡ word_of o

abbrev Inv : System → Type 0
Inv s = (o : Option ℕ) × Owned o s

apply-spinlock : (op : Op) (w : Words) → (apply op w).spinlock ≡ w.spinlock
unfolding apply
apply-spinlock add_five w = refl
apply-spinlock sub_three w = refl
apply-spinlock inc w = refl
apply-spinlock dec w = refl
apply-spinlock or_0011 w = refl
apply-spinlock and_1110 w = refl
apply-spinlock xor_0101 w = refl
apply-spinlock cas w = refl

behind_outside : (op : Op) → in_section (behind op) ≡ false
unfolding behind
behind_outside add_five = refl
behind_outside sub_three = refl
behind_outside inc = refl
behind_outside dec = refl
behind_outside or_0011 = refl
behind_outside and_1110 = refl
behind_outside xor_0101 = refl
behind_outside cas = refl

-- A process that goes on within the critical section, or outside of it.
goto-alone :
    (o : Option ℕ) (s : System) (i : ℕ) (p : Pc)
    → ((j : ℕ) → in_section (s.pc j) ≡ owns o j)
    → in_section p ≡ in_section (s.pc i)
    → (j : ℕ) → in_section ((goto i p s).pc j) ≡ owns o j
goto-alone o s i p h e j = ground (arith, h j, h i, e)

-- A process that takes the lock while it has no owner, and the owner that gives it back.
acquires-Inv :
    (s : System) (i : ℕ) (o : Option ℕ)
    → s.words.spinlock ≡ 0
    → Owned o s
    → Owned (some i) (
        goto i entered
          (record s { words = record s.words { spinlock = (cmpxchg s.words.spinlock 0 1).1 } }))
acquires-Inv s i none e v = record {
  alone = λ j. ground (arith, v.alone j);
  word = ground (arith, e);
}
acquires-Inv s i (some k) e v = ground (arith, e, v.word)

releases-Inv :
    (s : System) (i : ℕ) (o : Option ℕ)
    → s.pc i ≡ leaving
    → Owned o s
    → Owned none (goto i outside (record s { words = record s.words { spinlock = 0 } }))
releases-Inv s i none e v = ground (arith, e, v.alone i)
releases-Inv s i (some k) e v = record {
  alone = λ j. ground (arith, v.alone j, v.alone i, e);
  word = refl;
}

Step-Inv : {s t : System} → Step s t → Inv s → Inv t
Step-Inv {s} (calls i e) (o, v) =
    (o, record { alone = goto-alone o s i _ v.alone (rw e refl); word = v.word })
Step-Inv {s} (operates i op e) (o, v) = (
  o,
  record {
    alone = goto-alone o s i _ v.alone (rw (e, behind_outside op) refl);
    word = ap-word op v.word;
  },
)
  where
    ap-word : (op : Op) → s.words.spinlock ≡ word_of o → (apply op s.words).spinlock ≡ word_of o
    ap-word op h = rw (apply-spinlock op s.words) h
Step-Inv {s} (acquires i e h) (o, v) = (some i, acquires-Inv s i o h v)
Step-Inv {s} (spins i e h) (o, v) =
    (o, record { alone = v.alone; word = ground (arith, v.word, h) })
Step-Inv {s} (works i e) (o, v) = (
  o,
  record {
    alone = goto-alone o s i _ v.alone (rw e refl);
    word = rw (apply-spinlock inc s.words) v.word;
  },
)
Step-Inv {s} (releases i e) (o, v) = (none, releases-Inv s i o e v)

start-Inv : Inv start
start-Inv = (none, record { alone = λ i. refl; word = refl })

reached-Inv : {s : System} → Reach Step start s → Inv s
reached-Inv r = Reach-keeps Step {P = Inv} (λ t u. Step-Inv) r start-Inv

one_owner : (o : Option ℕ) (i j : ℕ) → owns o i ≡ true → owns o j ≡ true → i ≡ j
one_owner none i j h h' = ground (arith, h)
one_owner (some k) i j h h' = ground (arith, h, h')

-- In every state that any number of processes reach from the initial values, two processes in the
-- critical section of `spinlock_demo` are the same process.
pub spinlock_excludes :
    {s : System} (i j : ℕ)
    → Reach Step start s
    → in_section (s.pc i) ≡ true
    → in_section (s.pc j) ≡ true
    → i ≡ j
spinlock_excludes {s} i j r hi hj =
    let (o, v) = reached-Inv r in one_owner o i j (rw (← v.alone i) hi) (rw (← v.alone j) hj)

owner_or_free :
    {s : System} (o : Option ℕ)
    → Owned o s
    → (s.words.spinlock ≡ 0) ⊎ ((j : ℕ) × (in_section (s.pc j) ≡ true))
owner_or_free none v = inl v.word
owner_or_free (some j) v = inr (j, ground (arith, v.alone j))

-- The lock is never lost: in every state that processes reach from the initial values, it is free, so
-- that a process in the loop can take it, or some process is in the critical section.
pub spinlock_not_lost :
    {s : System}
    → Reach Step start s
    → (s.words.spinlock ≡ 0) ⊎ ((j : ℕ) × (in_section (s.pc j) ≡ true))
spinlock_not_lost r = let (o, v) = reached-Inv r in owner_or_free o v
