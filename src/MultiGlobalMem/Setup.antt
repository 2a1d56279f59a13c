-- ===== src/MultiGlobalMem/Setup.antt =====
-- multi_globalmem.c: loading and unloading the module, with a loop over the ten devices.
use learn_linux_drv.Prelude.{
  ℕ, zero, suc, ◌+◌, ◌<◌, ◌≡◌, refl, ap, ◌∙◌, [], Option, none, some, arith, ◌==◌, if◌then◌else◌,
}
use learn_linux_drv.Kernel.{Errno, enomem, Ret, ok, err}
use learn_linux_drv.Kernel.Chrdev.{
  nothing_held, Answers, add_region, unregister_region, add_block, free_block, del_cdev,
}
use learn_linux_drv.GlobalMem.Setup.{Module, setup_cdev, fresh}
use learn_linux_drv.MultiGlobalMem.{device_num}

-- As in globalmem.c, for ten minors.
get_region : Answers → Module → Option Errno × Module
get_region a m =
    if m.major == 0
    then elim a.alloc [
      | none ↦ (
        none,
        record { major = a.alloc_major; ledger = add_region a.alloc_major device_num m.ledger },
      )
      | some e ↦ (some e, m)
    ]
    else elim a.register [
      | none ↦ (none, record m { ledger = add_region m.major device_num m.ledger })
      | some e ↦ (some e, m)
    ]

-- The loop of `globalmem_init` from index `i` on, with `n` rounds to go.
pub setup_all : Answers → (i n : ℕ) → Module → Module
setup_all a i zero m = m
setup_all a i (suc n) m = setup_all a (i + 1) n (setup_cdev a i m)

unfoldable pub init : Answers → Module → Ret × Module
unfolding get_region
init a m =
    let (failed, m') = get_region a m in
    elim failed [
      | some e ↦ (err e, m')
      | none ↦
          if a.memory
          then (ok 0, setup_all a 0 device_num (record m' { ledger = add_block m'.ledger }))
          else (err enomem, record m' { ledger = unregister_region m'.major device_num m'.ledger })
    ]

-- `cdev_del`, and the loop of `globalmem_exit` from index `i` on, with `n` rounds to go.
abbrev pub del : (i : ℕ) → Module → Module
del i m = record m { ledger = del_cdev m.major i m.ledger }

pub del_all : (i n : ℕ) → Module → Module
del_all i zero m = m
del_all i (suc n) m = del_all (i + 1) n (del i m)

unfoldable pub exit : Module → Module
exit m =
    let m' : Module = del_all 0 device_num m in
    record m' { ledger = unregister_region m'.major device_num (free_block m'.ledger) }

-- Taking off one device, and adding a later one.
del-setup_cdev :
    (a : Answers) (i j : ℕ) (m : Module)
    → i < j
    → del i (setup_cdev a j m) ≡ setup_cdev a j (del i m)
unfolding setup_cdev
del-setup_cdev a i j m lt = ground arith

del-setup_all :
    (a : Answers) (i j n : ℕ) (m : Module)
    → i < j
    → del i (setup_all a j n m) ≡ setup_all a j n (del i m)
unfolding setup_all
del-setup_all a i j zero m lt = refl
del-setup_all a i j (suc n) m lt =
    del-setup_all a i (j + 1) n (setup_cdev a j m) (omega arith)
    ∙ ap (setup_all a (j + 1) n) (del-setup_cdev a i j m lt)

del-setup_own :
    (a : Answers) (i : ℕ) (m : Module) → m.ledger.cdevs ≡ [] → del i (setup_cdev a i m) ≡ m
unfolding setup_cdev
del-setup_own a i m e = ground arith

-- The exit loop undoes the init loop, whichever devices could be added.
del_all-setup_all :
    (a : Answers) (i n : ℕ) (m : Module) → m.ledger.cdevs ≡ [] → del_all i n (setup_all a i n m) ≡ m
unfolding setup_all del_all
del_all-setup_all a i zero m e = refl
del_all-setup_all a i (suc n) m e =
    ap (del_all (i + 1) n) (
      del-setup_all a i (i + 1) n (setup_cdev a i m) (omega arith)
      ∙ ap (setup_all a (i + 1) n) (del-setup_own a i m e))
    ∙ del_all-setup_all a (i + 1) n m e

-- A failing init of the module for ten devices leaves nothing behind.
pub multi_init_failure_clean :
    (a : Answers) (major : ℕ) (e : Errno)
    → (init a (fresh major)).0 ≡ err e
    → (init a (fresh major)).1.ledger ≡ nothing_held
unfolding init
multi_init_failure_clean a major e h = ground arith

-- After an init of the module for ten devices that returns 0, whichever of them could be added,
-- its exit gives everything back.
pub multi_exit-init :
    (a : Answers) (major : ℕ)
    → (init a (fresh major)).0 ≡ ok 0
    → (exit (init a (fresh major)).1).ledger ≡ nothing_held
unfolding init exit
multi_exit-init a major h = ground (
  arith,
  del_all-setup_all a 0 device_num
      (record { major = major; ledger = add_block (add_region major device_num nothing_held) })
      refl,
  del_all-setup_all a 0 device_num
      (record {
        major = a.alloc_major;
        ledger = add_block (add_region a.alloc_major device_num nothing_held);
      })
      refl,
)
