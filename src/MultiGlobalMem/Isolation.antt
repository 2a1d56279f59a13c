-- ===== src/MultiGlobalMem/Isolation.antt =====
-- multi_globalmem.c: sessions on several devices keep apart.
use learn_linux_drv.Prelude.{
  ℕ, ◌≡◌, refl, ap, ap₂, Bool, true, false, List, [], ◌∷◌, arith, length, update, inl, inr,
  Bool-cases, ◌==◌, if◌then◌else◌,
}
use learn_linux_drv.Prelude.Int.{ℤ}
use learn_linux_drv.MultiGlobalMem.{
  System, dev_of, set_dev, set_pos, open_file, release_file, ioctl, read, write, llseek,
}
use learn_linux_drv.MultiGlobalMem.Sessions.{
  Call, opens, releases, reads, writes, ioctls, llseeks, step, run, IsValid, AllLawful, run-IsValid,
}
use learn_linux_drv.GlobalMem
use learn_linux_drv.GlobalMem.{globalmem_size}

-- The node through which each file was opened last, with its minor number, behind a call.
unfoldable pub reopened : Call → (ℕ → ℕ) → ℕ → ℕ
reopened (opens fd minor) m = update m fd minor
reopened _ m = m

-- Whether a call is on a file that was opened through the node of device `j`. Opening a file is kept always.
pub concerns : (j : ℕ) → (ℕ → ℕ) → Call → Bool
concerns j m (opens fd minor) = true
concerns j m (releases fd) = m fd == j
concerns j m (reads u fd buf size) = m fd == j
concerns j m (writes u fd buf size) = m fd == j
concerns j m (ioctls fd cmd) = m fd == j
concerns j m (llseeks fd offset orig) = m fd == j

-- The calls of a session on the files of device `j`.
pub only : (j : ℕ) → (ℕ → ℕ) → List Call → List Call
only j m [] = []
only j m (c ∷ cs) =
    let rest : List Call = only j (reopened c m) cs in if concerns j m c then c ∷ rest else rest

-- Each file is on the device of its node.
abbrev pub OnNodes : (ℕ → ℕ) → System → Type 0
OnNodes m s = (fd : ℕ) → (s.files fd).private_data ≡ m fd

step-OnNodes : (m : ℕ → ℕ) (s : System) (c : Call) → OnNodes m s → OnNodes (reopened c m) (step s c)
unfolding step reopened open_file release_file ioctl read write llseek
step-OnNodes m s (opens fd minor) h = λ k. ground (arith, h k)
step-OnNodes m s (releases fd) h = h
step-OnNodes m s (reads u fd buf size) h = λ k. ground (arith, h k)
step-OnNodes m s (writes u fd buf size) h = λ k. ground (arith, h k)
step-OnNodes m s (ioctls fd cmd) h = h
step-OnNodes m s (llseeks fd offset orig) h = λ k. ground (arith, h k)

-- Two systems that look the same to a client of device `j`.
pub record Agree (j : ℕ) (s t : System) : Type 0 where
  pub same_dev : s.devp j ≡ t.devp j
  pub same_index : (fd : ℕ) → (s.files fd).private_data ≡ (t.files fd).private_data
  pub same_pos : (fd : ℕ) → (s.files fd).private_data ≡ j → (s.files fd).f_pos ≡ (t.files fd).f_pos

set_pos-Agree :
    (j fd : ℕ) {s t : System} {p q : ℤ}
    → Agree j s t
    → p ≡ q
    → Agree j (set_pos s fd p) (set_pos t fd q)
set_pos-Agree j fd a e = record {
  same_dev = a.same_dev;
  same_index = λ k. ground (arith, a.same_index k);
  same_pos = λ k h. ground (arith, a.same_pos k);
}

set_dev-Agree :
    (j fd : ℕ) {s t : System} {d d' : GlobalMem.GlobalmemDev}
    → Agree j s t
    → d ≡ d'
    → Agree j (set_dev s fd d) (set_dev t fd d')
set_dev-Agree j fd a e = record {
  same_dev = ground (arith, a.same_dev, a.same_index fd);
  same_index = λ k. a.same_index k;
  same_pos = λ k h. a.same_pos k h;
}

-- A file on device `j` is the same file in both, on the same device.
dev_of-Agree :
    (j fd : ℕ) {s t : System}
    → Agree j s t
    → ((s.files fd).private_data == j) ≡ true
    → dev_of s fd ≡ dev_of t fd
dev_of-Agree j fd a e = ground (arith, a.same_dev, a.same_index fd)

f_pos-Agree :
    (j fd : ℕ) {s t : System}
    → Agree j s t
    → ((s.files fd).private_data == j) ≡ true
    → (s.files fd).f_pos ≡ (t.files fd).f_pos
f_pos-Agree j fd a e = a.same_pos fd (ground arith)

step-Agree :
    (j : ℕ) {m : ℕ → ℕ} {s t : System} (c : Call)
    → OnNodes m s
    → Agree j s t
    → concerns j m c ≡ true
    → Agree j (step s c) (step t c)
unfolding step concerns open_file release_file ioctl read write llseek
step-Agree j {s} {t} (opens fd minor) on a e = record {
  same_dev = a.same_dev;
  same_index = λ k. ground (arith, a.same_index k);
  same_pos = λ k h. ground (arith, a.same_pos k);
}
step-Agree j (releases fd) on a e = a
step-Agree j {s} {t} (reads u fd buf size) on a e = set_pos-Agree j fd a (
    ap₂ (λ d f. (GlobalMem.read u d buf size f).ppos) (dev_of-Agree j fd a (rw (on fd) e))
      (f_pos-Agree j fd a (rw (on fd) e)))
step-Agree j {s} {t} (writes u fd buf size) on a e =
    set_pos-Agree j fd
      (set_dev-Agree j fd a (
        ap₂ (λ d f. (GlobalMem.write u d buf size f).dev) (dev_of-Agree j fd a (rw (on fd) e))
          (f_pos-Agree j fd a (rw (on fd) e))))
      (ap₂ (λ d f. (GlobalMem.write u d buf size f).ppos) (dev_of-Agree j fd a (rw (on fd) e))
        (f_pos-Agree j fd a (rw (on fd) e)))
step-Agree j {s} {t} (ioctls fd cmd) on a e =
    set_dev-Agree j fd a (ap (λ d. (GlobalMem.ioctl d cmd).1) (dev_of-Agree j fd a (rw (on fd) e)))
step-Agree j {s} {t} (llseeks fd offset orig) on a e =
    set_pos-Agree j fd a
      (ap (λ f. (GlobalMem.llseek f offset orig).1) (f_pos-Agree j fd a (rw (on fd) e)))

skip-Agree :
    (j : ℕ) {m : ℕ → ℕ} {s t : System} (c : Call)
    → OnNodes m s
    → Agree j s t
    → concerns j m c ≡ false
    → Agree j (step s c) t
unfolding step concerns open_file release_file ioctl read write llseek
skip-Agree j {s} {t} (opens fd minor) on a e = cc
skip-Agree j (releases fd) on a e = a
skip-Agree j {s} {t} (reads u fd buf size) on a e = record {
  same_dev = a.same_dev;
  same_index = λ k. ground (arith, a.same_index k);
  same_pos = λ k h. ground (arith, a.same_pos k, on fd);
}
skip-Agree j {s} {t} (writes u fd buf size) on a e = record {
  same_dev = ground (arith, a.same_dev, on fd);
  same_index = λ k. ground (arith, a.same_index k);
  same_pos = λ k h. ground (arith, a.same_pos k, on fd);
}
skip-Agree j {s} {t} (ioctls fd cmd) on a e = record {
  same_dev = ground (arith, a.same_dev, on fd);
  same_index = λ k. a.same_index k;
  same_pos = λ k h. a.same_pos k h;
}
skip-Agree j {s} {t} (llseeks fd offset orig) on a e = record {
  same_dev = a.same_dev;
  same_index = λ k. ground (arith, a.same_index k);
  same_pos = λ k h. ground (arith, a.same_pos k, on fd);
}

run-Agree :
    (j : ℕ) (cs : List Call) {m : ℕ → ℕ} {s t : System}
    → OnNodes m s
    → Agree j s t
    → Agree j (run s cs) (run t (only j m cs))
unfolding run only
run-Agree j [] on a = a
run-Agree j (c ∷ cs) {m} {s} {t} on a = elim (Bool-cases (concerns j m c)) [
  | inl e ↦
      simp (e, only, run)
        (run-Agree j cs {m = reopened c m} (step-OnNodes m s c on) (step-Agree j c on a e))
  | inr e ↦
      simp (e, only, run)
        (run-Agree j cs {m = reopened c m} (step-OnNodes m s c on) (skip-Agree j c on a e))
]

start-Agree : (j : ℕ) (s : System) → Agree j s s
start-Agree j s = record { same_dev = refl; same_index = λ k. refl; same_pos = λ k h. refl }

-- The devices do not interfere: from a state on in which every memory has its 4096 bytes, every position
-- lies in one or at its end, and each file is on the device of the node that it was opened through, after
-- any session with copies that keep their contract, a device is what it would be had only the calls on
-- files that were opened through its own node been made, besides the openings; and no call has written
-- behind the end of a memory: each still has its 4096 bytes.
pub devices_isolated :
    (j : ℕ) (m : ℕ → ℕ) (s : System) (cs : List Call)
    → OnNodes m s
    → IsValid s
    → AllLawful cs
    → ((run s cs).devp j ≡ (run s (only j m cs)).devp j)
      × ((k : ℕ) → length ((run s cs).devp k).mem ≡ globalmem_size)
devices_isolated j m s cs on v law =
    ((run-Agree j cs on (start-Agree j s)).same_dev, (run-IsValid cs law v).full)

-- Files on other devices do not interfere: after any session, a file that is then open on a device
-- has the position that it would have had only the calls on files that were opened through the node of
-- that device been made, besides the openings.
pub positions_isolated :
    (j : ℕ) (m : ℕ → ℕ) (s : System) (cs : List Call) (fd : ℕ)
    → OnNodes m s
    → ((run s cs).files fd).private_data ≡ j
    → ((run s cs).files fd).f_pos ≡ ((run s (only j m cs)).files fd).f_pos
positions_isolated j m s cs fd on h = (run-Agree j cs on (start-Agree j s)).same_pos fd h
