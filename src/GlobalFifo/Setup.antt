-- ===== src/GlobalFifo/Setup.antt =====
-- 06.char_drv/2.platform_cdev/globalfifo/ch8/globalfifo.c, the FIFO's first version, with a
-- registration of its own: loading and unloading the module. Its handlers are those of ch12.
use learn_linux_drv.Prelude.{
  ℕ, ◌≡◌, Bool, true, false, [], ◌∷◌, Option, none, some, arith, ◌==◌, if◌then◌else◌,
}
use learn_linux_drv.Kernel.{Errno, enomem, Ret, ok, err}
use learn_linux_drv.Kernel.Chrdev.{
  Ledger, nothing_held, Answers, add_region, unregister_region, add_block, free_block, add_cdev,
  del_cdev,
}

-- The module's `globalfifo_major`, what it holds of the kernel, and whether the mutex and the wait
-- queues of the device are initialised.
pub record Module : Type 0 where
  pub major : ℕ
  pub ledger : Ledger
  pub ready : Bool

get_region : Answers → Module → Option Errno × Module
get_region a m =
    if m.major == 0
    then elim a.alloc [
      | none ↦
          (none, record m { major = a.alloc_major; ledger = add_region a.alloc_major 1 m.ledger })
      | some e ↦ (some e, m)
    ]
    else elim a.register [
      | none ↦ (none, record m { ledger = add_region m.major 1 m.ledger })
      | some e ↦ (some e, m)
    ]

setup_cdev : Answers → (index : ℕ) → Module → Module
setup_cdev a index m = elim (a.cdev_add index) [
  | none ↦ record m { ledger = add_cdev m.major index m.ledger }
  | some e ↦ m
]

-- What `globalfifo_init` leaves: its return value, the state before the mutex and the wait queues
-- are initialised, and the last state.
pub record Loaded : Type 0 where
  pub ret : Ret
  pub before : Module
  pub last : Module

-- `mutex_init` and `init_waitqueue_head`, the last lines of the function.
initialised : Module → Loaded
initialised m = record { ret = ok 0; before = m; last = record m { ready = true } }

failed_with : Errno → Module → Loaded
failed_with e m = record { ret = err e; before = m; last = m }

unfoldable pub init : Answers → Module → Loaded
unfolding get_region setup_cdev initialised failed_with
init a m =
    let (failed, m') = get_region a m in
    elim failed [
      | some e ↦ failed_with e m'
      | none ↦
          if a.memory
          then initialised (setup_cdev a 0 (record m' { ledger = add_block m'.ledger }))
          else failed_with enomem (record m' { ledger = unregister_region m'.major 1 m'.ledger })
    ]

unfoldable pub exit : Module → Module
exit m = record m {
  ledger = unregister_region m.major 1 (free_block (del_cdev m.major 0 m.ledger));
}

abbrev pub fresh_module : ℕ → Module
fresh_module major = record { major = major; ledger = nothing_held; ready = false }

-- A failing `globalfifo_init` leaves nothing behind.
pub fifo_init_failure_clean :
    (a : Answers) (major : ℕ) (e : Errno)
    → (init a (fresh_module major)).ret ≡ err e
    → (init a (fresh_module major)).last.ledger ≡ nothing_held
unfolding init
fifo_init_failure_clean a major e h = ground arith

-- After a `globalfifo_init` that returns 0, `globalfifo_exit` gives everything back.
pub fifo_exit-init :
    (a : Answers) (major : ℕ)
    → (init a (fresh_module major)).ret ≡ ok 0
    → (exit (init a (fresh_module major)).last).ledger ≡ nothing_held
unfolding init exit
fifo_exit-init a major h = ground arith

-- Whenever `globalfifo_init` succeeds and the device can be added, there is a state on the way in
-- which the device is live while its mutex and its wait queues are not initialised.
pub live_before_ready :
    (a : Answers) (major : ℕ)
    → (init a (fresh_module major)).ret ≡ ok 0
    → a.cdev_add 0 ≡ none
    → let m = (init a (fresh_module major)).before in
      (m.ledger.cdevs ≡ (m.major, 0) ∷ []) × (m.ready ≡ false)
unfolding init
live_before_ready a major h c = ground arith
