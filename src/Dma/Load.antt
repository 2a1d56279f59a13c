-- ===== src/Dma/Load.antt =====
-- dma_base/kDemo.c: `m_chr_init` and `m_chr_exit`, with what they register with the kernel: device
-- numbers, a class, character devices and device nodes.
use learn_linux_drv.Prelude.{
  ℕ, zero, suc, ◌+◌, ◌-◌, ◌≡◌, Bool, false, List, [], ◌∷◌, Option, none, some, arith, if◌then◌else◌,
  update,
}
use learn_linux_drv.Kernel.Chrdev.{
  Ledger, nothing_held, add_region, unregister_region, add_cdev, strike, LoadAnswers, minormask,
}
use learn_linux_drv.Dma.Module.{Devices, max_dev, init_device, exit_device}

-- The module: its major number, what is registered, the number of classes, the device nodes, and the
-- devices, each with whether its `dev` is a device whose masks are set.
pub record Loaded : Type 0 where
  pub dev_major : ℕ
  pub ledger : Ledger
  pub classes : ℕ
  pub nodes : List (ℕ × ℕ)
  pub devices : Devices
  pub masked : ℕ → Bool

-- One round of the loop of `m_chr_init`. The result of `cdev_add` is not looked at.
init_round : LoadAnswers → (idx : ℕ) → Loaded → Loaded
init_round a idx l =
    let live : Ledger = elim (a.cdev_add idx) [
      | none ↦ add_cdev l.dev_major idx l.ledger
      | some e ↦ l.ledger
    ] in
    record l {
      ledger = live;
      nodes = if a.device_create idx then (l.dev_major, idx) ∷ l.nodes else l.nodes;
      devices = update l.devices idx init_device;
      masked = update l.masked idx (a.device_create idx);
    }

-- The loop from index `idx` on, with `n` rounds to go.
init_rounds : LoadAnswers → (idx n : ℕ) → Loaded → Loaded
init_rounds a idx zero l = l
init_rounds a idx (suc n) l = init_rounds a (idx + 1) n (init_round a idx l)

-- `m_chr_init`. An error of `alloc_chrdev_region` is not looked at; `none` where `class_create`
-- fails, since the next line writes through its error pointer.
unfoldable pub load : LoadAnswers → Devices → Option Loaded
unfolding init_rounds init_round
load a devices =
    let numbered : Ledger = elim a.alloc [
      | none ↦ add_region a.major max_dev nothing_held
      | some e ↦ nothing_held
    ] in
    if a.class_create
    then some (
        init_rounds a 0 max_dev (record {
          dev_major = a.major;
          ledger = numbered;
          classes = 1;
          nodes = [];
          devices = devices;
          masked = λ _. false;
        }))
    else none

-- One round of the loop of `m_chr_exit`: what the device holds is given back, and its node goes. A
-- device's data stays as it was.
exit_round : (idx : ℕ) → Loaded → Loaded
exit_round idx l = record l {
  devices = update l.devices idx (record (l.devices idx) { held = exit_device (l.devices idx) });
  nodes = strike l.dev_major idx l.nodes;
}

exit_rounds : (idx n : ℕ) → Loaded → Loaded
exit_rounds idx zero l = l
exit_rounds idx (suc n) l = exit_rounds (idx + 1) n (exit_round idx l)

-- `m_chr_exit`.
unfoldable pub unload : Loaded → Loaded
unfolding exit_rounds exit_round
unload l =
    let l' : Loaded = exit_rounds 0 max_dev l in
    record l' {
      classes = l'.classes - 1;
      ledger = unregister_region l'.dev_major minormask l'.ledger;
    }

-- Where `m_chr_init` gets device numbers and succeeds, then whatever the devices did since,
-- `m_chr_exit` gives the class and the nodes back, but not the device numbers, and not the
-- character devices.
pub unload_leaves_numbers :
    (a : LoadAnswers) (devices later : Devices) (l : Loaded)
    → load a devices ≡ some l
    → a.alloc ≡ none
    → let out = unload (record l { devices = later }) in
      (out.ledger.regions ≡ (a.major, max_dev) ∷ [])
      × (out.ledger.cdevs ≡ l.ledger.cdevs)
      × (out.classes ≡ 0)
      × (out.nodes ≡ [])
unfolding load unload
unload_leaves_numbers a devices later l h e = ground arith
