-- ===== src/Demo/Rcu.antt =====
-- 00.mDemo/07.thread_sync/2.sync_semaphore/kDemo.c: the value under RCU. One thread reads it, one
-- replaces it, and the module's exit stops both and frees the last one. A block is named by the
-- count of the blocks that `kmalloc` handed out before it.
use learn_linux_drv.Prelude.{
  ℕ, ◌+◌, ◌≡◌, ◌≢◌, ◌⊎◌, inl, inr, refl, Bool, true, false, ◌||◌, Option, none, some, arith, ◌==◌,
  if◌then◌else◌, update,
}
use learn_linux_drv.Prelude.Steps.{Reach, Reach-keeps}

-- Where `rcu_reader_thread` stands: outside, between `rcu_dereference` and `rcu_read_unlock` with
-- what it got, or returned.
pub data Reader : Type 0 where
  outside : Reader
  reading : Option ℕ → Reader
  finished : Reader

-- Where `rcu_writer_thread` stands: at the loop's test, with a new block, in `synchronize_rcu`, or
-- returned.
pub data Writer : Type 0 where
  looping : Writer
  filling : (block : ℕ) → Writer
  syncing : Writer
  returned : Writer

-- How far `m_chr_exit` is: not called, in `kthread_stop` of the reader, in that of the writer, and
-- behind `kfree(rcu_ptr)`.
pub data Exit : Type 0 where
  loaded stopping_reader stopping_writer freed_all : Exit

-- `fault` tells whether the reader ever looked into a block that was free.
pub record System : Type 0 where
  pub rcu_ptr : Option ℕ
  -- the number of blocks that `kmalloc` has handed out
  pub allocated : ℕ
  pub freed : ℕ → Bool
  pub reader : Reader
  pub writer : Writer
  pub exit : Exit
  pub fault : Bool

abbrev pub points_to : Option ℕ → ℕ → Bool
points_to none k = false
points_to (some p) k = p == k

-- Whether the block that a pointer names is free.
abbrev pub is_freed : (ℕ → Bool) → Option ℕ → Bool
is_freed freed none = false
is_freed freed (some p) = freed p

-- `kfree`, which ignores a null pointer.
abbrev pub kfree : Option ℕ → (ℕ → Bool) → ℕ → Bool
kfree none freed = freed
kfree (some p) freed = update freed p true

-- `m_chr_init`, by whether there is memory for the first block.
unfoldable pub start : (memory : Bool) → System
start memory = record {
  rcu_ptr = if memory then some 0 else none;
  allocated = if memory then 1 else 0;
  freed = λ _. false;
  reader = outside;
  writer = looping;
  exit = loaded;
  fault = false;
}

pub data Step (s : System) : System → Type 0 where
  -- `rcu_read_lock` and `rcu_dereference`
  enters : s.reader ≡ outside → Step s (record s { reader = reading s.rcu_ptr })
  -- `data->value` and `rcu_read_unlock`
  looks :
      {p : Option ℕ}
      → s.reader ≡ reading p
      → Step s (record s { reader = outside; fault = s.fault || is_freed s.freed p })
  reader_ends : s.reader ≡ outside → s.exit ≢ loaded → Step s (record s { reader = finished })
  -- `kmalloc`; where it fails, the loop starts again
  allocates :
      s.writer ≡ looping
      → Step s (record s { writer = filling s.allocated; allocated = s.allocated + 1 })
  -- `rcu_assign_pointer`
  assigns :
      {k : ℕ} → s.writer ≡ filling k → Step s (record s { rcu_ptr = some k; writer = syncing })
  -- `synchronize_rcu` returns when no reader is left that got another pointer
  synchronizes :
      s.writer ≡ syncing
      → ((p : Option ℕ) → s.reader ≡ reading p → p ≡ s.rcu_ptr)
      → Step s (record s { writer = looping })
  writer_ends :
      s.writer ≡ looping → s.exit ≡ stopping_writer → Step s (record s { writer = returned })
  -- the calls of `m_chr_exit`
  stops_reader : s.exit ≡ loaded → Step s (record s { exit = stopping_reader })
  stops_writer :
      s.exit ≡ stopping_reader → s.reader ≡ finished → Step s (record s { exit = stopping_writer })
  frees :
      s.exit ≡ stopping_writer
      → s.writer ≡ returned
      → Step s (record s { freed = kfree s.rcu_ptr s.freed; exit = freed_all })

-- Nothing is free before the end, and then just the block that is pointed to, when the reader has
-- returned.
record Inv (s : System) : Type 0 where
  unfaulted : s.fault ≡ false
  kept : s.exit ≢ freed_all → (k : ℕ) → s.freed k ≡ false
  reader_done : (s.exit ≡ stopping_writer) ⊎ (s.exit ≡ freed_all) → s.reader ≡ finished
  writer_done : s.exit ≡ freed_all → s.writer ≡ returned
  last : s.exit ≡ freed_all → (k : ℕ) → s.freed k ≡ points_to s.rcu_ptr k

is_freed_none :
    (freed : ℕ → Bool) (p : Option ℕ) → ((k : ℕ) → freed k ≡ false) → is_freed freed p ≡ false
is_freed_none freed none h = refl
is_freed_none freed (some p) h = h p

kfree_only :
    (freed : ℕ → Bool) (p : Option ℕ) (k : ℕ)
    → ((k : ℕ) → freed k ≡ false)
    → kfree p freed k ≡ points_to p k
kfree_only freed none k h = h k
kfree_only freed (some p) k h = ground (arith, h k)

reading_early : {s : System} {p : Option ℕ} → Inv s → s.reader ≡ reading p → s.exit ≢ freed_all
reading_early v e x = ground (arith, v.reader_done (inr x))

Step-Inv : {s t : System} → Step s t → Inv s → Inv t
Step-Inv (enters e) v = record {
  unfaulted = v.unfaulted;
  kept = v.kept;
  reader_done = λ h. ground (arith, v.reader_done h);
  writer_done = v.writer_done;
  last = v.last;
}
Step-Inv {s} (looks {p} e) v = record {
  unfaulted = ground (arith, v.unfaulted, is_freed_none s.freed p (v.kept (reading_early v e)));
  kept = v.kept;
  reader_done = λ h. ground (arith, v.reader_done h);
  writer_done = v.writer_done;
  last = v.last;
}
Step-Inv (reader_ends e h) v = record {
  unfaulted = v.unfaulted;
  kept = v.kept;
  reader_done = λ h. refl;
  writer_done = v.writer_done;
  last = v.last;
}
Step-Inv (allocates e) v = record {
  unfaulted = v.unfaulted;
  kept = v.kept;
  reader_done = v.reader_done;
  writer_done = λ h. ground (arith, v.writer_done h);
  last = v.last;
}
Step-Inv (assigns e) v = record {
  unfaulted = v.unfaulted;
  kept = v.kept;
  reader_done = v.reader_done;
  writer_done = λ h. ground (arith, v.writer_done h);
  last = λ h k. ground (arith, v.writer_done h);
}
Step-Inv (synchronizes e h) v = record {
  unfaulted = v.unfaulted;
  kept = v.kept;
  reader_done = v.reader_done;
  writer_done = λ h. ground (arith, v.writer_done h);
  last = v.last;
}
Step-Inv (writer_ends e h) v = record {
  unfaulted = v.unfaulted;
  kept = v.kept;
  reader_done = v.reader_done;
  writer_done = λ h. refl;
  last = v.last;
}
Step-Inv (stops_reader e) v = record {
  unfaulted = v.unfaulted;
  kept = λ h k. v.kept (ground arith) k;
  reader_done = λ h. ground arith;
  writer_done = λ h. cc;
  last = λ h k. cc;
}
Step-Inv (stops_writer e h) v = record {
  unfaulted = v.unfaulted;
  kept = λ h k. v.kept (ground arith) k;
  reader_done = λ _. h;
  writer_done = λ h. cc;
  last = λ h k. cc;
}
Step-Inv {s} (frees e w) v = record {
  unfaulted = v.unfaulted;
  kept = λ h k. absurd (h refl);
  reader_done = λ _. v.reader_done (inl e);
  writer_done = λ _. w;
  last = λ _ k. kfree_only s.freed s.rcu_ptr k (λ j. v.kept (ground arith) j);
}

start-Inv : (memory : Bool) → Inv (start memory)
unfolding start
start-Inv memory = record {
  unfaulted = refl;
  kept = λ h k. refl;
  reader_done = λ h. ground arith;
  writer_done = λ h. cc;
  last = λ h k. cc;
}

Reach-Inv : (memory : Bool) {s : System} → Reach Step (start memory) s → Inv s
Reach-Inv memory r = Reach-keeps Step {P = Inv} (λ t u. Step-Inv) r (start-Inv memory)

-- In every state that the module reaches from its init on, the reader has never looked into a block
-- that was free.
pub no_use_after_free : (memory : Bool) {s : System} → Reach Step (start memory) s → s.fault ≡ false
no_use_after_free memory r = (Reach-Inv memory r).unfaulted

-- When `m_chr_exit` is done, just the block that was assigned last is free: every other block that
-- was ever allocated leaks.
pub updates_leak :
    (memory : Bool) {s : System}
    → Reach Step (start memory) s
    → s.exit ≡ freed_all
    → (k : ℕ) → s.freed k ≡ points_to s.rcu_ptr k
updates_leak memory r e = (Reach-Inv memory r).last e
