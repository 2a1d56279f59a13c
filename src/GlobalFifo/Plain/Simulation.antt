-- ===== src/GlobalFifo/Plain/Simulation.antt =====
-- ch8/globalfifo.c against ch12/globalfifo.c: the same but for SIGIO.
use learn_linux_drv.Prelude.{◌≡◌, refl, sym, ◌∙◌, update, [], arith}
use mathlib.Core.Path.{subst}
use learn_linux_drv.Prelude.Steps
use learn_linux_drv.Kernel.Memory.{filled}
use learn_linux_drv.Kernel.Copy.{Memcpy}
use learn_linux_drv.GlobalFifo.{
  GlobalfifoDev, Outcome, read_out, write_in, ioctl, poll, read_blocks, write_blocks,
  globalfifo_size,
}
use learn_linux_drv.GlobalFifo.System
use learn_linux_drv.GlobalFifo.System.{
  Job, reads, writes, ioctls, polls, blocks, operate, System, Step, Reach, at_rest,
}
use learn_linux_drv.GlobalFifo.Plain
use learn_linux_drv.GlobalFifo.Plain.{
  PlainDev, PlainOutcome, PlainSystem, PlainStep, plain_start, plain_blocks, plain_operate,
  plain_read, plain_write, plain_ioctl, plain_poll,
}

-- What is left of the device of ch12 without its SIGIO queue.
abbrev pub forget : GlobalfifoDev → PlainDev
forget dev = record { current_len = dev.current_len; mem = dev.mem }

abbrev forget_outcome : Outcome → PlainOutcome
forget_outcome o = record { ret = o.ret; dev = forget o.dev; wakes = o.wakes; event = o.event }

abbrev pub forget_system : System → PlainSystem
forget_system s = record {
  dev = forget s.dev;
  owner = s.owner;
  pc = s.pc;
  linked = s.linked;
  misused = s.misused;
  log = s.log;
}

blocks-forget : (job : Job) (dev : GlobalfifoDev) → plain_blocks job (forget dev) ≡ blocks job dev
unfolding blocks plain_blocks read_blocks write_blocks
blocks-forget (reads r) dev = refl
blocks-forget (writes r) dev = refl
blocks-forget (ioctls cmd) dev = refl
blocks-forget polls dev = refl

operate-forget :
    (memcpy : Memcpy) (job : Job) (dev : GlobalfifoDev)
    → plain_operate memcpy job (forget dev) ≡ forget_outcome (operate memcpy job dev)
unfolding plain_operate operate plain_read plain_write plain_ioctl plain_poll read_out write_in
    ioctl poll
operate-forget memcpy (reads r) dev = ground arith
operate-forget memcpy (writes r) dev = ground arith
operate-forget memcpy (ioctls cmd) dev = ground arith
operate-forget memcpy polls dev = refl

-- A step of ch8 is the step of ch12 that is called the same.
plain-Step :
    (memcpy : Memcpy) (s : System) {q : PlainSystem}
    → PlainStep memcpy (forget_system s) q
    → (t : System) × Step memcpy s t × (forget_system t ≡ q)
plain-Step memcpy s (Plain.call i job e) = (_, System.call i job e, refl)
plain-Step memcpy s (Plain.again i e) = (_, System.again i e, refl)
plain-Step memcpy s (Plain.reject i {job} e h) =
    (_, System.reject i e h, rw (operate-forget memcpy job s.dev) refl)
plain-Step memcpy s (Plain.lock i e h o) = (_, System.lock i e h o, refl)
plain-Step memcpy s (Plain.refuse i {job} e b n) =
    (_, System.refuse i e (sym (blocks-forget job s.dev) ∙ b) n, refl)
plain-Step memcpy s (Plain.sleep i {job} e b n) =
    (_, System.sleep i e (sym (blocks-forget job s.dev) ∙ b) n, refl)
plain-Step memcpy s (Plain.interrupt i e) = (_, System.interrupt i e, refl)
plain-Step memcpy s (Plain.signalled i e) = (_, System.signalled i e, refl)
plain-Step memcpy s (Plain.relock i e o) = (_, System.relock i e o, refl)
plain-Step memcpy s (Plain.work i {job} e b l) = (
  _,
  System.work i e (sym (blocks-forget job s.dev) ∙ b) l,
  rw (operate-forget memcpy job s.dev) refl,
)
plain-Step memcpy s (Plain.unlock i e) = (_, System.unlock i e, refl)
plain-Step memcpy s (Plain.unlink i e) = (_, System.unlink i e, refl)

Step-plain :
    (memcpy : Memcpy) (s : System) {t : System}
    → Step memcpy s t
    → PlainStep memcpy (forget_system s) (forget_system t)
Step-plain memcpy s (System.call i job e) = Plain.call i job e
Step-plain memcpy s (System.again i e) = Plain.again i e
Step-plain memcpy s (System.reject i {job} e h) =
    subst
      (λ (o : PlainOutcome).
        PlainStep memcpy (forget_system s)
          (record (forget_system s) { pc = update s.pc i (System.returned job o.ret) }))
      (operate-forget memcpy job s.dev) (Plain.reject i e h)
Step-plain memcpy s (System.lock i e h o) = Plain.lock i e h o
Step-plain memcpy s (System.refuse i {job} e b n) = Plain.refuse i e (blocks-forget job s.dev ∙ b) n
Step-plain memcpy s (System.sleep i {job} e b n) = Plain.sleep i e (blocks-forget job s.dev ∙ b) n
Step-plain memcpy s (System.interrupt i e) = Plain.interrupt i e
Step-plain memcpy s (System.signalled i e) = Plain.signalled i e
Step-plain memcpy s (System.relock i e o) = Plain.relock i e o
Step-plain memcpy s (System.work i {job} e b l) =
    subst
      (λ (o : PlainOutcome). PlainStep memcpy (forget_system s) (record (forget_system s) {
        dev = o.dev;
        pc =
            update (λ j. System.woken_by o.wakes (s.linked j) (s.pc j)) i
              (System.leaving job o.ret);
        log = System.logged o.event s.log;
      }))
      (operate-forget memcpy job s.dev) (Plain.work i e (blocks-forget job s.dev ∙ b) l)
Step-plain memcpy s (System.unlock i e) = Plain.unlock i e
Step-plain memcpy s (System.unlink i e) = Plain.unlink i e

abbrev pub PlainReach : Memcpy → PlainSystem → Type 0
PlainReach memcpy q = Steps.Reach (PlainStep memcpy) plain_start q

-- The device of ch12 that the one of ch8 starts as.
abbrev pub fresh : GlobalfifoDev
fresh = record { current_len = 0; mem = filled 0 globalfifo_size; async_queue = [] }

plain-Reach :
    (memcpy : Memcpy) {q : PlainSystem}
    → PlainReach memcpy q
    → (s : System) × Reach memcpy (at_rest fresh) s × (forget_system s ≡ q)
plain-Reach memcpy Steps.here = (_, System.here, refl)
plain-Reach memcpy (Steps.later {t} {u} r st) =
    let (s, p, e) = plain-Reach memcpy r in
    let (s', st', e') = plain-Step memcpy s (subst (λ x. PlainStep memcpy x u) (sym e) st) in
    (s', System.later p st', e')

Reach-plain :
    (memcpy : Memcpy) {s : System}
    → Reach memcpy (at_rest fresh) s
    → PlainReach memcpy (forget_system s)
Reach-plain memcpy System.here = Steps.here
Reach-plain memcpy (System.later {t} r st) =
    Steps.later (Reach-plain memcpy r) (Step-plain memcpy t st)

-- The first version of the FIFO and the last one behave alike but for SIGIO, in every interleaving of
-- threads from a fresh device on: a state that is reached with the operations of ch8 is what is left,
-- without the SIGIO queue, of one that is reached with those of ch12, and what is left of a state that
-- is reached with those of ch12 is reached with those of ch8.
pub plain_bisimilar :
    (memcpy : Memcpy)
    → ((q : PlainSystem)
        → PlainReach memcpy q
        → (s : System) × Reach memcpy (at_rest fresh) s × (forget_system s ≡ q))
      × ((s : System) → Reach memcpy (at_rest fresh) s → PlainReach memcpy (forget_system s))
plain_bisimilar memcpy = (λ q r. plain-Reach memcpy r, λ s r. Reach-plain memcpy r)
