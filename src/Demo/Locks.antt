-- ===== src/Demo/Locks.antt =====
-- 00.mDemo/07.thread_sync/1.sync_lock/kDemo.c: a function that takes and gives back two mutexes, a
-- spinlock and two read-write locks, as a list of what it does.
use learn_linux_drv.Prelude.{
  ℕ, ◌+◌, ◌-◌, ◌%◌, ◌^◌, ◌<◌, ◌≡◌, Bool, true, false, not, ◌&&◌, List, [], ◌∷◌, Option, none, some,
  arith, refl, if◌then◌else◌,
}

-- `mutex_s`, `mutex_d`, `spinlock_d`, `rwlock_s`, `rwlock_d`.
pub data Lock : Type 0 where
  mutex_s mutex_d spinlock_d rwlock_s rwlock_d : Lock

-- A lock is taken or given back, `shared_data` goes up or down or is printed, or the thread sleeps
-- (`msleep`) or waits (`udelay`).
pub data Action : Type 0 where
  lock unlock : Lock → Action
  up down prints msleep udelay : Action

-- Which locks are held, `shared_data` as a pattern of 32 bits, what was printed, the last first, and
-- whether the thread slept while it held a spinlock or a read-write lock.
pub record State : Type 0 where
  pub held : Lock → Bool
  pub shared_data : ℕ
  pub printed : List ℕ
  pub slept : Bool

abbrev pub same_lock : Lock → Lock → Bool
same_lock mutex_s mutex_s = true
same_lock mutex_d mutex_d = true
same_lock spinlock_d spinlock_d = true
same_lock rwlock_s rwlock_s = true
same_lock rwlock_d rwlock_d = true
same_lock _ _ = false

abbrev pub set_lock : Lock → Bool → (Lock → Bool) → Lock → Bool
set_lock l b held l' = if same_lock l l' then b else held l'

-- Whether a lock is held that forbids sleeping.
abbrev pub is_atomic : (Lock → Bool) → Bool
is_atomic held = not (not (held spinlock_d) && (not (held rwlock_s) && not (held rwlock_d)))

-- The call that takes a lock which is held already does not return.
unfoldable pub act : Action → State → Option State
act (lock l) s = if s.held l then none else some (record s { held = set_lock l true s.held })
act (unlock l) s = some (record s { held = set_lock l false s.held })
act up s = some (record s { shared_data = (s.shared_data + 1) % 2 ^ 32 })
act down s = some (record s { shared_data = (s.shared_data + 2 ^ 32 - 1) % 2 ^ 32 })
act prints s = some (record s { printed = s.shared_data ∷ s.printed })
act msleep s = some (if is_atomic s.held then record s { slept = true } else s)
act udelay s = some s

unfoldable pub act_all : List Action → State → Option State
act_all [] s = some s
act_all (x ∷ xs) s = elim (act x s) [ none ↦ none | some s' ↦ act_all xs s' ]

abbrev pub access_shared_resource : List Action
access_shared_resource =
    lock mutex_s
    ∷ lock mutex_d
    ∷ up
    ∷ msleep
    ∷ down
    ∷ prints
    ∷ unlock mutex_d
    ∷ unlock mutex_s
    ∷ lock spinlock_d
    ∷ up
    ∷ udelay
    ∷ down
    ∷ prints
    ∷ unlock spinlock_d
    ∷ lock rwlock_s
    ∷ lock rwlock_d
    ∷ up
    ∷ down
    ∷ unlock rwlock_d
    ∷ unlock rwlock_s
    ∷ []

-- One step of `shared_data` up and one down, as the source takes them in each section.
up_down : (n : ℕ) → n < 2 ^ 32 → ((n + 1) % 2 ^ 32 + 2 ^ 32 - 1) % 2 ^ 32 ≡ n
up_down n h = ground arith

-- A lock that is taken and given back twice over is as it was, if it was free.
abbrev taken_and_given : Lock → Lock → (Lock → Bool) → Lock → Bool
taken_and_given l l' held =
    set_lock l false (set_lock l' false (set_lock l' true (set_lock l true held)))

abbrev all_given : (Lock → Bool) → Lock → Bool
all_given held =
    taken_and_given rwlock_s rwlock_d
      (set_lock spinlock_d false (set_lock spinlock_d true (taken_and_given mutex_s mutex_d held)))

all_given-free : (held : Lock → Bool) (l : Lock) → all_given held l ≡ false
all_given-free held mutex_s = refl
all_given-free held mutex_d = refl
all_given-free held spinlock_d = refl
all_given-free held rwlock_s = refl
all_given-free held rwlock_d = refl

abbrev back : ℕ → ℕ
back n = ((n + 1) % 2 ^ 32 + 2 ^ 32 - 1) % 2 ^ 32

abbrev behind_access : State → State
behind_access s = record {
  held = all_given s.held;
  shared_data = back (back (back s.shared_data));
  printed = back (back s.shared_data) ∷ back s.shared_data ∷ s.printed;
  slept = s.slept;
}

access-behind :
    (s : State)
    → ((l : Lock) → s.held l ≡ false)
    → act_all access_shared_resource s ≡ some (behind_access s)
unfolding act_all act
access-behind s free =
    ground (arith, free mutex_s, free mutex_d, free spinlock_d, free rwlock_s, free rwlock_d)

-- With all locks free, `access_shared_resource` comes to its end: it prints `shared_data` twice, as it
-- was before, leaves it so, gives every lock back, and does not sleep while it holds a spinlock.
pub access_balanced :
    (s : State)
    → ((l : Lock) → s.held l ≡ false)
    → s.shared_data < 2 ^ 32
    → (t : State) × (act_all access_shared_resource s ≡ some t)
      × ((l : Lock) → t.held l ≡ false)
      × (t.shared_data ≡ s.shared_data)
      × (t.printed ≡ s.shared_data ∷ s.shared_data ∷ s.printed)
      × (t.slept ≡ s.slept)
unfolding act_all act
access_balanced s free h =
    let e = up_down s.shared_data h in
    (
      behind_access s,
      access-behind s free,
      all_given-free s.held,
      rw (e, e) e,
      rw (e, e) refl,
      refl,
    )
