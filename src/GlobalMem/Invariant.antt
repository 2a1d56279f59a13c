-- ===== src/GlobalMem/Invariant.antt =====
-- globalmem.c: what holds of an opened device after any calls.
use learn_linux_drv.Prelude.{ℕ, zero, suc, ◌≤◌, ◌≡◌, List, [], ◌∷◌, arith, length, false, dec_lt}
use learn_linux_drv.Prelude.Int.{ℤ, pos, negsuc, ltb_ℤ, add_s64}
use learn_linux_drv.Kernel.{UserCopy, IsUserCopy}
use learn_linux_drv.Kernel.Memory.{length-filled}
use learn_linux_drv.GlobalMem.{
  GlobalmemDev, globalmem_size, ioctl, read, write, llseek, seek_set, seek_cur,
}
use learn_linux_drv.GlobalMem.Access.{read-eq-pread, write-eq-pwrite, write_frame, write_at_end}

-- A device and the position of one file that is open on it.
pub record State : Type 0 where
  pub dev : GlobalmemDev
  pub f_pos : ℤ

-- The calls on the file. Each copy of a read or write goes its own way.
pub data Call : Type 0 where
  reads writes : (u : UserCopy) (buf size : ℕ) → Call
  ioctls : (cmd : ℕ) → Call
  llseeks : (offset orig : ℤ) → Call

pub step : State → Call → State
step s (reads u buf size) = record s { f_pos = (read u s.dev buf size s.f_pos).ppos }
step s (writes u buf size) =
    let w = write u s.dev buf size s.f_pos in record { dev = w.dev; f_pos = w.ppos }
step s (ioctls cmd) = record s { dev = (ioctl s.dev cmd).1 }
step s (llseeks offset orig) = record s { f_pos = (llseek s.f_pos offset orig).1 }

pub run : State → List Call → State
run s [] = s
run s (c ∷ cs) = run (step s c) cs

-- The copies keep their contract.
abbrev pub IsLawful : Call → Type 0
IsLawful (reads u buf size) = IsUserCopy u
IsLawful (writes u buf size) = IsUserCopy u
IsLawful _ = Unit

abbrev pub AllLawful : List Call → Type 0
AllLawful [] = Unit
AllLawful (c ∷ cs) = IsLawful c × AllLawful cs

abbrev pub InRange : ℤ → Type 0
InRange (pos p) = p ≤ globalmem_size
InRange (negsuc n) = ⊥

-- The memory has its 4096 bytes, and the position lies in it or at its end.
pub record IsValid (s : State) : Type 0 where
  pub full : length s.dev.mem ≡ globalmem_size
  pub in_range : InRange s.f_pos

seek_set-InRange : (f offset : ℤ) → InRange f → InRange (seek_set f offset).1
unfolding seek_set
seek_set-InRange f offset h = ground arith

InRange-between :
    (z : ℤ) → ltb_ℤ (pos globalmem_size) z ≡ false → ltb_ℤ z (pos 0) ≡ false → InRange z
InRange-between (pos n) lo hi = ground arith
InRange-between (negsuc n) lo hi = ground arith

seek_cur-InRange : (f offset : ℤ) → InRange f → InRange (seek_cur f offset).1
unfolding seek_cur
seek_cur-InRange f offset h = ground (arith, InRange-between (add_s64 f offset))

-- Wherever a file is told to seek, its position stays in the memory.
pub llseek-InRange : (f offset orig : ℤ) → InRange f → InRange (llseek f offset orig).1
unfolding llseek
llseek-InRange f offset (pos zero) h = seek_set-InRange f offset h
llseek-InRange f offset (pos (suc zero)) h = seek_cur-InRange f offset h
llseek-InRange f offset (pos (suc (suc k))) h = h
llseek-InRange f offset (negsuc k) h = h

pub read-InRange :
    {u : UserCopy} (dev : GlobalmemDev) (buf size : ℕ) (f : ℤ)
    → IsUserCopy u
    → length dev.mem ≡ globalmem_size
    → InRange f
    → InRange (read u dev buf size f).ppos
read-InRange dev buf size (pos p) law full h =
    rw (read-eq-pread dev buf size p law full h) (ground arith)
read-InRange dev buf size (negsuc n) law full h = absurd h

pub write-IsValid :
    {u : UserCopy} (dev : GlobalmemDev) (buf size : ℕ) (f : ℤ)
    → IsUserCopy u
    → length dev.mem ≡ globalmem_size
    → InRange f
    → let w = write u dev buf size f in IsValid (record { dev = w.dev; f_pos = w.ppos })
write-IsValid {u} dev buf size (pos p) law full h = elim (dec_lt p globalmem_size) [
  | yes lt ↦ record {
    full = (write_frame dev buf size p law full lt).2;
    in_range = rw (write-eq-pwrite u dev buf size p lt) (ground arith);
  }
  | no ge ↦
      let e : p ≡ globalmem_size = omega arith in
      rw (e, write_at_end u dev buf size) (record { full = full; in_range = omega arith })
]
write-IsValid dev buf size (negsuc n) law full h = absurd h

pub ioctl-full :
    (dev : GlobalmemDev) (cmd : ℕ)
    → length dev.mem ≡ globalmem_size
    → length (ioctl dev cmd).1.mem ≡ globalmem_size
unfolding ioctl
ioctl-full dev cmd h = ground (arith, length-filled 0 globalmem_size, h)

-- Every call keeps the memory's size and the position in range, on every outcome of its copy.
pub step-IsValid : {s : State} (c : Call) → IsLawful c → IsValid s → IsValid (step s c)
unfolding step
step-IsValid {s} (reads u buf size) law v = record {
  full = v.full;
  in_range = read-InRange s.dev buf size s.f_pos law v.full v.in_range;
}
step-IsValid {s} (writes u buf size) law v =
    write-IsValid s.dev buf size s.f_pos law v.full v.in_range
step-IsValid {s} (ioctls cmd) law v = unfold ioctl in ground (arith, length-filled 0 globalmem_size)
step-IsValid {s} (llseeks offset orig) law v = record {
  full = v.full;
  in_range = llseek-InRange s.f_pos offset orig v.in_range;
}

-- After any sequence of calls on an open file of a valid device, where the copies keep their
-- contract, the memory has its 4096 bytes, and the position lies in it or at its end.
pub run-IsValid : (cs : List Call) {s : State} → AllLawful cs → IsValid s → IsValid (run s cs)
unfolding run
run-IsValid [] law v = v
run-IsValid (c ∷ cs) law v = run-IsValid cs law.1 (step-IsValid c law.0 v)
