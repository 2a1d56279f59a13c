-- ===== src/Demo/Semaphores.antt =====
-- 00.mDemo/07.thread_sync/2.sync_semaphore/kDemo.c: the threads that take and give back a
-- semaphore, a mutex or a read-write semaphore, those that use RCU, and the module's exit, which stops
-- them one after the other. What the RCU threads do with the value is in `Demo.Rcu`. The kernel's locks
-- have their documented meaning.
pub mod Invariant
pub mod Unload
pub mod Exit
use learn_linux_drv.Prelude.{
  ℕ, ◌+◌, ◌-◌, ◌≡◌, Bool, true, false, not, ◌&&◌, List, [], ◌∷◌, ltb, ◌==◌, if◌then◌else◌,
}

-- `semaphore_thread`, `binary_semaphore_thread`, `mutex_thread`, `reader_thread`, `writer_thread`,
-- `rcu_reader_thread`, `rcu_writer_thread`.
pub data Thread : Type 0 where
  counting binary exclusive reader writer rcu_reader rcu_updater : Thread

-- Where a thread stands: at `kthread_should_stop()`, in the call that takes its lock, between that call
-- and the end of the one that gives it back, or returned. `rcu_writer_thread` is `taking` up to
-- `rcu_assign_pointer`, and `holding` in `synchronize_rcu`.
pub data Pc : Type 0 where
  testing taking holding returned : Pc

-- The counts of `sem` and `bin_sem`, whether `my_mutex` is locked, who has `rwsem`, whether the RCU
-- reader is in its section, and whether `synchronize_rcu` waits for the section that it is in.
pub record Locks : Type 0 where
  pub sem : ℕ
  pub bin_sem : ℕ
  pub my_mutex : Bool
  pub readers : ℕ
  pub writing : Bool
  pub reading : Bool
  pub waited : Bool

-- `sema_init(&sem, 2)`, `sema_init(&bin_sem, 1)`, `mutex_init`, `init_rwsem`.
abbrev pub initial : Locks
initial = record {
  sem = 2;
  bin_sem = 1;
  my_mutex = false;
  readers = 0;
  writing = false;
  reading = false;
  waited = false;
}

-- Whether the call that takes a thread's lock can return.
abbrev pub is_free : Thread → Locks → Bool
is_free counting l = ltb 0 l.sem
is_free binary l = ltb 0 l.bin_sem
is_free exclusive l = not l.my_mutex
is_free reader l = not l.writing
is_free writer l = not l.writing && l.readers == 0
is_free rcu_reader l = true
is_free rcu_updater l = true

-- `down`, `mutex_lock`, `down_read`, `down_write`, `rcu_read_lock`, and the call of `synchronize_rcu`.
abbrev pub take : Thread → Locks → Locks
take counting l = record l { sem = l.sem - 1 }
take binary l = record l { bin_sem = l.bin_sem - 1 }
take exclusive l = record l { my_mutex = true }
take reader l = record l { readers = l.readers + 1 }
take writer l = record l { writing = true }
take rcu_reader l = record l { reading = true }
take rcu_updater l = record l { waited = l.reading }

-- `up`, `mutex_unlock`, `up_read`, `up_write`, `rcu_read_unlock`.
abbrev pub give : Thread → Locks → Locks
give counting l = record l { sem = l.sem + 1 }
give binary l = record l { bin_sem = l.bin_sem + 1 }
give exclusive l = record l { my_mutex = false }
give reader l = record l { readers = l.readers - 1 }
give writer l = record l { writing = false }
give rcu_reader l = record l { reading = false; waited = false }
give rcu_updater l = l

-- `synchronize_rcu` comes back when no section that was there before goes on.
abbrev pub can_give : Thread → Locks → Bool
can_give rcu_updater l = not l.waited
can_give _ l = true

abbrev pub same : Thread → Thread → Bool
same counting counting = true
same binary binary = true
same exclusive exclusive = true
same reader reader = true
same writer writer = true
same rcu_reader rcu_reader = true
same rcu_updater rcu_updater = true
same _ _ = false

abbrev pub put {ℓ} : {A : Type ℓ} → Thread → A → (Thread → A) → Thread → A
put t a f u = if same t u then a else f u

-- `exit` tells whether `m_chr_exit` was called, and `to_stop` which calls of `kthread_stop` it has
-- still to make or to come back from.
pub record System : Type 0 where
  pub locks : Locks
  pub pc : Thread → Pc
  pub should_stop : Thread → Bool
  pub exit : Bool
  pub to_stop : List Thread

-- The module behind `m_chr_init`, where each `kthread_run` succeeds.
abbrev pub loaded : System
loaded = record {
  locks = initial;
  pc = λ t. testing;
  should_stop = λ t. false;
  exit = false;
  to_stop = [];
}

-- The order of `m_chr_exit`.
abbrev pub stops : List Thread
stops = counting ∷ binary ∷ exclusive ∷ reader ∷ writer ∷ rcu_reader ∷ rcu_updater ∷ []

pub data Step (s : System) : System → Type 0 where
  goes_on :
      (t : Thread)
      → s.pc t ≡ testing
      → s.should_stop t ≡ false
      → Step s (record s { pc = put t taking s.pc })
  takes :
      (t : Thread)
      → s.pc t ≡ taking
      → is_free t s.locks ≡ true
      → Step s (record s { pc = put t holding s.pc; locks = take t s.locks })
  gives :
      (t : Thread)
      → s.pc t ≡ holding
      → can_give t s.locks ≡ true
      → Step s (record s { pc = put t testing s.pc; locks = give t s.locks })
  -- `kmalloc` fails, and `rcu_writer_thread` goes on
  fails : s.pc rcu_updater ≡ taking → Step s (record s { pc = put rcu_updater testing s.pc })
  returns :
      (t : Thread)
      → s.pc t ≡ testing
      → s.should_stop t ≡ true
      → Step s (record s { pc = put t returned s.pc })
  exits : s.exit ≡ false → Step s (record s { exit = true; to_stop = stops })
  -- `kthread_stop` sets the flag, and comes back when the thread has returned
  stop :
      {t : Thread} {rest : List Thread}
      → s.to_stop ≡ t ∷ rest
      → Step s (record s { should_stop = put t true s.should_stop })
  stopped :
      {t : Thread} {rest : List Thread}
      → s.to_stop ≡ t ∷ rest
      → s.should_stop t ≡ true
      → s.pc t ≡ returned
      → Step s (record s { to_stop = rest })
