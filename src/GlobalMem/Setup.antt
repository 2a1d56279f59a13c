-- ===== src/GlobalMem/Setup.antt =====
-- globalmem.c: loading and unloading the module (`globalmem_init`, `globalmem_setup_cdev`,
-- `globalmem_exit`).
use learn_linux_drv.Prelude.{ℕ, ◌≡◌, [], ◌∷◌, Option, none, some, arith, ◌==◌, if◌then◌else◌}
use learn_linux_drv.Kernel.{Errno, enomem, Ret, ok, err}
use learn_linux_drv.Kernel.Chrdev.{
  Ledger, nothing_held, Answers, add_region, unregister_region, add_block, free_block, add_cdev,
  del_cdev,
}

-- The module's `globalmem_major`, and what it holds of the kernel.
pub record Module : Type 0 where
  pub major : ℕ
  pub ledger : Ledger

-- The region: the major number given as the module's parameter, or one that the kernel picks. Where
-- it picks none, `devno` is still MKDEV(0, 0).
unfoldable get_region : Answers → Module → Option Errno × Module
get_region a m =
    if m.major == 0
    then elim a.alloc [
      | none ↦
          (none, record { major = a.alloc_major; ledger = add_region a.alloc_major 1 m.ledger })
      | some e ↦ (some e, m)
    ]
    else elim a.register [
      | none ↦ (none, record m { ledger = add_region m.major 1 m.ledger })
      | some e ↦ (some e, m)
    ]

-- An error of `cdev_add` is printed and dropped.
unfoldable pub setup_cdev : Answers → (index : ℕ) → Module → Module
setup_cdev a index m = elim (a.cdev_add index) [
  | none ↦ record m { ledger = add_cdev m.major index m.ledger }
  | some e ↦ m
]

unfoldable pub init : Answers → Module → Ret × Module
unfolding get_region setup_cdev
init a m =
    let (failed, m') = get_region a m in
    elim failed [
      | some e ↦ (err e, m')
      | none ↦
          if a.memory
          then (ok 0, setup_cdev a 0 (record m' { ledger = add_block m'.ledger }))
          else (err enomem, record m' { ledger = unregister_region m'.major 1 m'.ledger })
    ]

unfoldable pub exit : Module → Module
exit m = record m {
  ledger = unregister_region m.major 1 (free_block (del_cdev m.major 0 m.ledger));
}

abbrev pub fresh : ℕ → Module
fresh major = record { major = major; ledger = nothing_held }

-- A failing `globalmem_init` leaves nothing behind.
pub init_failure_clean :
    (a : Answers) (major : ℕ) (e : Errno)
    → (init a (fresh major)).0 ≡ err e
    → (init a (fresh major)).1.ledger ≡ nothing_held
unfolding init
init_failure_clean a major e h = ground arith

-- After a `globalmem_init` that returns 0, `globalmem_exit` gives everything back.
pub exit-init :
    (a : Answers) (major : ℕ)
    → (init a (fresh major)).0 ≡ ok 0
    → (exit (init a (fresh major)).1).ledger ≡ nothing_held
unfolding init exit
exit-init a major h = ground arith

-- `globalmem_init` can return 0 although the device could not be added: then it holds its region
-- and its memory, and no device is live.
pub init_drops_cdev_error :
    (a : Answers) (major : ℕ) (e : Errno)
    → (init a (fresh major)).0 ≡ ok 0
    → a.cdev_add 0 ≡ some e
    → ((init a (fresh major)).1.ledger.cdevs ≡ [])
      × ((init a (fresh major)).1.ledger.blocks ≡ 1)
      × ((init a (fresh major)).1.ledger.regions ≡ ((init a (fresh major)).1.major, 1) ∷ [])
unfolding init
init_drops_cdev_error a major e h c = ground arith
