-- ===== src/GlobalFifo/System/Strand.antt =====
-- ch12/globalfifo.c: FIFO_CLEAR and the writers that sleep.
use learn_linux_drv.Prelude.{ℕ, ◌≡◌, ◌≢◌, some}
use learn_linux_drv.Kernel.Copy.{Memcpy}
use learn_linux_drv.GlobalFifo.{Request, w_wait}
use learn_linux_drv.GlobalFifo.System.{
  Job, reads, writes, asleep, System, Step, interrupt, work, Reach, here, later,
}

abbrev NotRead : Job → Type 0
NotRead (reads r) = ⊥
NotRead _ = Unit

-- No read takes bytes, and no signal comes to thread `w`.
abbrev pub Unread : (w : ℕ) {memcpy : Memcpy} {s t : System} → Step memcpy s t → Type 0
Unread w (work i {job} e b law) = NotRead job
Unread w (interrupt i e) = i ≢ w
Unread w _ = Unit

abbrev pub AllUnread : (w : ℕ) {memcpy : Memcpy} {s t : System} → Reach memcpy s t → Type 0
AllUnread w here = Unit
AllUnread w (later r st) = AllUnread w r × Unread w st

-- The writer sleeps on its queue.
record Stranded (w : ℕ) (r : Request) (s : System) : Type 0 where
  sleeps_on : s.pc w ≡ asleep (writes r)
  on_queue : s.linked w ≡ some w_wait
