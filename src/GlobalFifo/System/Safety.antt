-- ===== src/GlobalFifo/System/Safety.antt =====
-- ch12/globalfifo.c: who has the mutex, and what the changes of the contents come to.
use learn_linux_drv.Prelude.{
  ℕ, ◌≡◌, refl, sym, ◌∙◌, true, List, [], ◌∷◌, ◌++◌, Option, none, some, arith, append_assoc,
}
use learn_linux_drv.Kernel.Copy.{Memcpy, IsMemcpy}
use learn_linux_drv.GlobalFifo.{GlobalfifoDev, Event, put, got, cleared}
use learn_linux_drv.GlobalFifo.Queue.{IsValid, contents, Effect}
use learn_linux_drv.GlobalFifo.System.{
  operate, System, logged, Step, call, again, reject, lock, refuse, sleep, interrupt, signalled,
  relock, work, unlock, unlink, Reach, here, later, at_rest,
}
use learn_linux_drv.GlobalFifo.System.Invariant.{
  holds, IsApart, Accepts, Inv, operate-Effect, Reach-Inv, Inv-at_rest,
}

-- With a `memcpy` that keeps its contract, in every state that threads reach from a valid device
-- at rest, two threads that have the mutex are the same thread.
pub mutual_exclusion :
    {memcpy : Memcpy} {dev : GlobalfifoDev} {s : System}
    → IsMemcpy memcpy
    → IsValid dev
    → Reach memcpy (at_rest dev) s
    → (i j : ℕ) → holds (s.pc i) ≡ true
    → holds (s.pc j) ≡ true
    → i ≡ j
mutual_exclusion {dev} {s} m v r i j hi hj = ground (arith, inv.exclusive i hi, inv.exclusive j hj)
  where
    inv : Inv s
    inv = Reach-Inv m (Inv-at_rest dev v) r

logged-Accepts :
    {log : List Event} {q : List ℕ} (e : Option Event) {q' : List ℕ}
    → Accepts log q
    → Effect e q q'
    → Accepts (logged e log) q'
unfolding logged
logged-Accepts {log} none a h = rw h a
logged-Accepts (some e) a h = Accepts.more a h

-- Each read of a run asks for at least half of what the device holds then.
abbrev pub ReadsApart : {memcpy : Memcpy} {s t : System} → Step memcpy s t → Type 0
ReadsApart {s} (work i {job} e b law) = IsApart job s.dev
ReadsApart _ = Unit

abbrev pub AllApart : {memcpy : Memcpy} {s t : System} → Reach memcpy s t → Type 0
AllApart here = Unit
AllApart (later r st) = AllApart r × ReadsApart st

Step-Accepts :
    {memcpy : Memcpy} {s t : System}
    → IsMemcpy memcpy
    → (st : Step memcpy s t) → ReadsApart st
    → Inv s
    → Accepts s.log (contents s.dev)
    → Accepts t.log (contents t.dev)
Step-Accepts {memcpy} {s} m (work i {job} e b law) h v a =
    logged-Accepts (operate memcpy job s.dev).event a (operate-Effect memcpy job m h law v.valid)
Step-Accepts m (call i job e) h v a = a
Step-Accepts m (again i e) h v a = a
Step-Accepts m (reject i e l) h v a = a
Step-Accepts m (lock i e l o) h v a = a
Step-Accepts m (refuse i e b n) h v a = a
Step-Accepts m (sleep i e b n) h v a = a
Step-Accepts m (interrupt i e) h v a = a
Step-Accepts m (signalled i e) h v a = a
Step-Accepts m (relock i e o) h v a = a
Step-Accepts m (unlock i e) h v a = a
Step-Accepts m (unlink i e) h v a = a

-- From a valid, empty device on, with a `memcpy` that keeps its documented contract, the changes made
-- by any interleaving of threads in which each read asks for at least half of what the device holds
-- when it takes its bytes are a run of one queue of at most 4096 bytes that ends with the device's contents: each read took the oldest bytes, each write
-- appended, and only FIFO_CLEAR dropped bytes.
pub interleavings_accepted :
    {memcpy : Memcpy} {dev : GlobalfifoDev} {s : System}
    → IsMemcpy memcpy
    → IsValid dev
    → dev.current_len ≡ 0
    → (r : Reach memcpy (at_rest dev) s) → AllApart r
    → Accepts s.log (contents s.dev)
interleavings_accepted {dev} m v e here h = rw (contents_empty) Accepts.start
  where
    contents_empty : contents dev ≡ []
    contents_empty = rw e
interleavings_accepted {dev} m v e (later r st) h =
    Step-Accepts m st h.1 (Reach-Inv m (Inv-at_rest dev v) r) (interleavings_accepted m v e r h.0)

-- The bytes that the changes put in, and those that they took out, oldest first.
pub bytes_put : List Event → List ℕ
bytes_put [] = []
bytes_put (put xs ∷ log) = bytes_put log ++ xs
bytes_put (got xs ∷ log) = bytes_put log
bytes_put (cleared ∷ log) = bytes_put log

pub bytes_got : List Event → List ℕ
bytes_got [] = []
bytes_got (put xs ∷ log) = bytes_got log
bytes_got (got xs ∷ log) = bytes_got log ++ xs
bytes_got (cleared ∷ log) = bytes_got log

abbrev pub NeverCleared : List Event → Type 0
NeverCleared [] = Unit
NeverCleared (cleared ∷ log) = ⊥
NeverCleared (put xs ∷ log) = NeverCleared log
NeverCleared (got xs ∷ log) = NeverCleared log

Accepts-bytes :
    {log : List Event} {q : List ℕ}
    → Accepts log q
    → NeverCleared log
    → bytes_put log ≡ bytes_got log ++ q
unfolding bytes_put bytes_got
Accepts-bytes Accepts.start n = refl
Accepts-bytes (Accepts.more {log} {e = put xs} {q} a h) n =
    rw (Accepts-bytes a n, h.0) (append_assoc (bytes_got log) q xs)
Accepts-bytes (Accepts.more {log} {e = got xs} {q' = q'} a h) n =
    Accepts-bytes a n ∙ rw h (sym (append_assoc (bytes_got log) xs q'))
Accepts-bytes (Accepts.more {e = cleared} a h) n = absurd n

-- From a valid, empty device on, without FIFO_CLEAR, and with a `memcpy` that keeps its documented
-- contract, no byte is lost, made up, duplicated or reordered by any interleaving of threads in which
-- each read asks for at least half of what the device holds when it takes its bytes: the bytes written are the bytes read followed by those that the device
-- still holds.
pub bytes_conserved :
    {memcpy : Memcpy} {dev : GlobalfifoDev} {s : System}
    → IsMemcpy memcpy
    → IsValid dev
    → dev.current_len ≡ 0
    → (r : Reach memcpy (at_rest dev) s) → AllApart r
    → NeverCleared s.log
    → bytes_put s.log ≡ bytes_got s.log ++ contents s.dev
bytes_conserved m v e r h n = Accepts-bytes (interleavings_accepted m v e r h) n
