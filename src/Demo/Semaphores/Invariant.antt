-- ===== src/Demo/Semaphores/Invariant.antt =====
-- 2.sync_semaphore/kDemo.c: who holds which lock.
use learn_linux_drv.Prelude.{ℕ, ◌+◌, ◌≡◌, Bool, true, false, ◌&&◌, not, arith}
use learn_linux_drv.Demo.Semaphores.{
  counting, binary, exclusive, reader, writer, rcu_reader, rcu_updater, Pc, holding, System, Step,
  goes_on, takes, gives, fails, returns, exits, stop, stopped,
}

abbrev pub holds : Pc → ℕ
holds holding = 1
holds _ = 0

abbrev pub is_holding : Pc → Bool
is_holding holding = true
is_holding _ = false

-- Each lock is taken just as often as its threads hold it.
pub record Inv (s : System) : Type 0 where
  pub sem : s.locks.sem + holds (s.pc counting) ≡ 2
  pub bin_sem : s.locks.bin_sem + holds (s.pc binary) ≡ 1
  pub my_mutex : s.locks.my_mutex ≡ is_holding (s.pc exclusive)
  pub readers : s.locks.readers ≡ holds (s.pc reader)
  pub writing : s.locks.writing ≡ is_holding (s.pc writer)
  pub reading : s.locks.reading ≡ is_holding (s.pc rcu_reader)
  pub grace : s.locks.waited && not s.locks.reading ≡ false
  pub apart : is_holding (s.pc reader) && is_holding (s.pc writer) ≡ false

pub Step-Inv : {s t : System} → Step s t → Inv s → Inv t
Step-Inv (goes_on counting e h) v = ground (arith, e)
Step-Inv (goes_on binary e h) v = ground (arith, e)
Step-Inv (goes_on exclusive e h) v = ground (arith, e)
Step-Inv (goes_on reader e h) v = ground (arith, e)
Step-Inv (goes_on writer e h) v = ground (arith, e)
Step-Inv (goes_on rcu_reader e h) v = ground (arith, e)
Step-Inv (goes_on rcu_updater e h) v = ground (arith, e)
Step-Inv (takes counting e h) v = ground (arith, e, h)
Step-Inv (takes binary e h) v = ground (arith, e, h)
Step-Inv (takes exclusive e h) v = ground (arith, e, h)
Step-Inv (takes reader e h) v = ground (arith, e, h)
Step-Inv (takes writer e h) v = ground (arith, e, h)
Step-Inv (takes rcu_reader e h) v = ground (arith, e, h)
Step-Inv (takes rcu_updater e h) v = ground (arith, e, h)
Step-Inv (gives counting e h) v = ground (arith, e)
Step-Inv (gives binary e h) v = ground (arith, e)
Step-Inv (gives exclusive e h) v = ground (arith, e)
Step-Inv (gives reader e h) v = ground (arith, e)
Step-Inv (gives writer e h) v = ground (arith, e)
Step-Inv (gives rcu_reader e h) v = ground (arith, e)
Step-Inv (gives rcu_updater e h) v = ground (arith, e)
Step-Inv (fails e) v = ground (arith, e)
Step-Inv (returns counting e h) v = ground (arith, e)
Step-Inv (returns binary e h) v = ground (arith, e)
Step-Inv (returns exclusive e h) v = ground (arith, e)
Step-Inv (returns reader e h) v = ground (arith, e)
Step-Inv (returns writer e h) v = ground (arith, e)
Step-Inv (returns rcu_reader e h) v = ground (arith, e)
Step-Inv (returns rcu_updater e h) v = ground (arith, e)
Step-Inv (exits e) v = ground arith
Step-Inv (stop e) v = ground arith
Step-Inv (stopped e h p) v = ground arith
