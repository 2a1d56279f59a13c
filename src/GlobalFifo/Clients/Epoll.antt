-- ===== src/GlobalFifo/Clients/Epoll.antt =====
-- ch8/globalfifo_epoll.c, a program that clears the FIFO and waits for input, while other processes use
-- the device. An operation of theirs is one step, since the driver's mutex is held meanwhile; the calls of
-- epoll come from the kernel, as documented.
use learn_linux_drv.Prelude.{
  ℕ, ◌≡◌, ◌≢◌, Bool, true, false, List, [], ◌∷◌, Option, none, some, arith, refl, ap, ◌-◌, length,
}
use learn_linux_drv.Prelude.Steps.{Reach, Reach-keeps}
use learn_linux_drv.Kernel.Copy.{Memcpy}
use learn_linux_drv.GlobalFifo.{
  GlobalfifoDev, Event, put, got, cleared, clip, globalfifo_size, fifo_clear, poll, ioctl, read_out,
  write_in, read_blocks,
}
use learn_linux_drv.GlobalFifo.System.{
  Job, operate, reads, writes, ioctls, polls, blocks, IsLawful, logged,
}
use learn_linux_drv.GlobalFifo.Clients.{has_bit, mask_of}

-- What the program prints, an error of a call left out.
pub data Line : Type 0 where
  device_open_failure call_failed no_data_input not_empty : Line

-- Where the program stands: before `open`, `ioctl`, `epoll_create`, the two calls of `epoll_ctl` and
-- `epoll_wait`, returned because `open` failed, or returned.
pub data Pc : Type 0 where
  at_open at_clear at_create at_add at_wait at_delete not_opened gone : Pc

-- The device, the program, what it has printed, the last line first, and the changes that were made to
-- the queue since the program has cleared it, the last one first.
pub record System : Type 0 where
  pub dev : GlobalfifoDev
  pub pc : Pc
  pub printed : List Line
  pub changes : List Event

abbrev pub prints : Line → Pc → System → System
prints line pc s = record s { printed = line ∷ s.printed; pc = pc }

pub data Step (memcpy : Memcpy) (s : System) : System → Type 0 where
  -- another process
  other :
      (job : Job)
      → blocks job s.dev ≡ false
      → IsLawful job
      → Step memcpy s (
          let o = operate memcpy job s.dev in
          record s { dev = o.dev; changes = logged o.event s.changes })
  opens : s.pc ≡ at_open → Step memcpy s (record s { pc = at_clear })
  fails_open : s.pc ≡ at_open → Step memcpy s (prints device_open_failure not_opened s)
  -- FIFO_CLEAR, which the driver never refuses
  clears :
      s.pc ≡ at_clear
      → Step memcpy s
          (record s { dev = (ioctl fifo_clear s.dev).dev; pc = at_create; changes = [] })
  creates : s.pc ≡ at_create → Step memcpy s (record s { pc = at_add })
  fails_create : s.pc ≡ at_create → Step memcpy s (prints call_failed gone s)
  adds : s.pc ≡ at_add → Step memcpy s (record s { pc = at_wait })
  fails_add : s.pc ≡ at_add → Step memcpy s (prints call_failed gone s)
  -- `epoll_wait` returns an event only if `globalfifo_poll` reports one that the program asked for:
  -- EPOLLIN; the driver never reports EPOLLPRI
  receives :
      s.pc ≡ at_wait
      → has_bit 0 (mask_of (poll s.dev).ret) ≡ true
      → Step memcpy s (prints not_empty at_delete s)
  times_out : s.pc ≡ at_wait → Step memcpy s (prints no_data_input at_delete s)
  fails_wait : s.pc ≡ at_wait → Step memcpy s (prints call_failed at_delete s)
  deletes : s.pc ≡ at_delete → Step memcpy s (record s { pc = gone })
  fails_delete : s.pc ≡ at_delete → Step memcpy s (prints call_failed gone s)

abbrev pub started : GlobalfifoDev → System
started dev = record { dev = dev; pc = at_open; printed = []; changes = [] }

-- Whether some write put a byte into the queue.
unfoldable pub wrote : List Event → Bool
wrote [] = false
wrote (put [] ∷ es) = wrote es
wrote (put (x ∷ xs) ∷ es) = true
wrote (got xs ∷ es) = wrote es
wrote (cleared ∷ es) = wrote es

-- Whether the program has printed that there is input.
unfoldable pub reported : List Line → Bool
reported [] = false
reported (not_empty ∷ ls) = true
reported (device_open_failure ∷ ls) = reported ls
reported (call_failed ∷ ls) = reported ls
reported (no_data_input ∷ ls) = reported ls

-- Whether the program has cleared the queue.
abbrev pub has_cleared : Pc → Bool
has_cleared at_open = false
has_cleared at_clear = false
has_cleared not_opened = false
has_cleared _ = true

-- As long as nothing was written, the queue is empty and nothing was reported.
record Inv (s : System) : Type 0 where
  empty : has_cleared s.pc ≡ true → wrote s.changes ≡ false → s.dev.current_len ≡ 0
  silent : wrote s.changes ≡ false → reported s.printed ≡ false
  early : has_cleared s.pc ≡ false → reported s.printed ≡ false

logged-wrote : (e : Option Event) (es : List Event) → wrote (logged e es) ≡ false → wrote es ≡ false
unfolding wrote logged
logged-wrote none es h = h
logged-wrote (some (put [])) es h = h
logged-wrote (some (put (x ∷ xs))) es h = absurd (ground (arith, h))
logged-wrote (some (got xs)) es h = h
logged-wrote (some cleared) es h = h

put-wrote : (xs : List ℕ) (es : List Event) → wrote (put xs ∷ es) ≡ false → length xs ≡ 0
unfolding wrote
put-wrote [] es h = refl
put-wrote (x ∷ xs) es h = absurd (ground (arith, h))

-- An operation on an empty queue that does not put a byte into it leaves it empty.
operate-empty :
    (memcpy : Memcpy) (job : Job) (dev : GlobalfifoDev) (es : List Event)
    → blocks job dev ≡ false
    → IsLawful job
    → dev.current_len ≡ 0
    → wrote (logged (operate memcpy job dev).event es) ≡ false
    → (operate memcpy job dev).dev.current_len ≡ 0
unfolding operate blocks read_blocks read_out write_in ioctl poll logged
operate-empty memcpy (reads r) dev es b law e h = absurd (ground (arith, b, e))
operate-empty memcpy (writes r) dev es b law e h =
    let n : ℕ = clip (globalfifo_size - dev.current_len) r.count in
    let bytes : List ℕ = (r.copy.from_user r.buf n).0 in
    ground (
      arith,
      h,
      e,
      law.from_user_length r.buf n,
      λ (p : wrote (put bytes ∷ es) ≡ false). put-wrote bytes es p,
    )
operate-empty memcpy (ioctls cmd) dev es b law e h = ground (arith, e)
operate-empty memcpy polls dev es b law e h = e

-- An empty device reports no input.
has_input : (dev : GlobalfifoDev) → dev.current_len ≡ 0 → has_bit 0 (mask_of (poll dev).ret) ≢ true
unfolding poll
has_input dev e m = ground (arith, e, m)

Step-Inv : {memcpy : Memcpy} (s t : System) → Step memcpy s t → Inv s → Inv t
unfolding reported wrote ioctl
Step-Inv {memcpy} s _ (other job b law) v = record {
  empty = λ c h. operate-empty memcpy job s.dev s.changes b law (v.empty c (logged-wrote _ _ h)) h;
  silent = λ h. v.silent (logged-wrote _ _ h);
  early = v.early;
}
Step-Inv s _ (opens e) v = record {
  empty = λ c h. absurd (ground (arith, c));
  silent = v.silent;
  early = λ h. v.early (ap has_cleared e);
}
Step-Inv s _ (fails_open e) v = ground (arith, e)
Step-Inv s _ (clears e) v = ground (arith, e)
Step-Inv s _ (creates e) v = ground (arith, e)
Step-Inv s _ (fails_create e) v = ground (arith, e)
Step-Inv s _ (adds e) v = ground (arith, e)
Step-Inv s _ (fails_add e) v = ground (arith, e)
Step-Inv s _ (receives e m) v = record {
  empty = λ c h. v.empty (ap has_cleared e) h;
  silent = λ h. absurd (has_input s.dev (v.empty (ap has_cleared e) h) m);
  early = λ c. absurd (ground (arith, c));
}
Step-Inv s _ (times_out e) v = ground (arith, e)
Step-Inv s _ (fails_wait e) v = ground (arith, e)
Step-Inv s _ (deletes e) v = ground (arith, e)
Step-Inv s _ (fails_delete e) v = ground (arith, e)

-- The program tells the truth: with other processes at work on the device in any order, where it has
-- printed that the FIFO is not empty, one of them has put a byte into the queue since the program
-- cleared it.
pub report_has_cause :
    {memcpy : Memcpy} {dev : GlobalfifoDev} {s : System}
    → Reach (Step memcpy) (started dev) s
    → reported s.printed ≡ true
    → wrote s.changes ≡ true
unfolding reported
report_has_cause {memcpy} {dev} {s} r h = by_cause (Reach-keeps (Step memcpy) Step-Inv r start)
  where
    start : Inv (started dev)
    start = ground arith

    by_cause : Inv s → wrote s.changes ≡ true
    by_cause v = ground (arith, v.silent, h)
