-- ===== src/Demo/Platform/Balance.antt =====
-- 04.platform_driver: what the two modules hold, in any order of loading and unloading.
use learn_linux_drv.Prelude.{ℕ, ◌≡◌, Bool, true, false, ◌&&◌, arith, none, some}
use learn_linux_drv.Prelude.Steps.{Reach, Reach-keeps}
use learn_linux_drv.Demo.Platform.{
  m_pltdev_init, m_pltdev_exit, m_plt_probe, m_plt_remove, System, unloaded, Step, loads_dev,
  loads_drv, probes, unloads_dev, unloads_drv,
}

abbrev pub one_if : Bool → ℕ
one_if true = 1
one_if false = 0

-- There is a platform device just while its module is loaded, and a block and a misc device just while
-- the driver is bound, for which both modules must be loaded.
pub record Inv (s : System) : Type 0 where
  pub allocated : s.held.allocated ≡ one_if s.dev_loaded
  pub on_bus : s.held.on_bus ≡ one_if s.dev_loaded
  pub blocks : s.held.blocks ≡ one_if s.bound
  pub misc : s.held.misc ≡ one_if s.bound
  pub bound_dev : s.bound ≡ true → s.dev_loaded ≡ true
  pub bound_drv : s.bound ≡ true → s.drv_loaded ≡ true

Step-Inv : (s t : System) → Step s t → Inv s → Inv t
unfolding m_pltdev_init m_pltdev_exit m_plt_probe m_plt_remove
Step-Inv s _ (loads_dev false add e) v = ground (arith, e)
Step-Inv s _ (loads_dev true (some x) e) v = ground (arith, e)
Step-Inv s _ (loads_dev true none e) v = ground (arith, e)
Step-Inv s _ (loads_drv e) v = ground (arith, e)
Step-Inv s _ (probes false misc d r b) v = ground (arith, d, r, b)
Step-Inv s _ (probes true (some x) d r b) v = ground (arith, d, r, b)
Step-Inv s _ (probes true none d r b) v = ground (arith, d, r, b)
Step-Inv s _ (unloads_dev e) v = ground (arith, e)
Step-Inv s _ (unloads_drv e) v = ground (arith, e)

-- In whatever order the two modules are loaded and unloaded, and whether or not the driver's `probe`
-- succeeds: a misc device is registered just while the driver is bound, and then both modules are
-- loaded; without the device's module there is no platform device, and without one of the two modules
-- there is no misc device and no block of the driver.
pub modules_balanced :
    {s : System}
    → Reach Step unloaded s
    → (s.held.misc ≡ one_if s.bound)
      × (s.dev_loaded ≡ false → (s.held.allocated ≡ 0) × (s.held.on_bus ≡ 0))
      × (s.dev_loaded && s.drv_loaded ≡ false → (s.held.misc ≡ 0) × (s.held.blocks ≡ 0))
modules_balanced {s} r = balanced (Reach-keeps Step Step-Inv r start)
  where
    start : Inv unloaded
    start = ground arith

    balanced :
        Inv s
        → (s.held.misc ≡ one_if s.bound)
          × (s.dev_loaded ≡ false → (s.held.allocated ≡ 0) × (s.held.on_bus ≡ 0))
          × (s.dev_loaded && s.drv_loaded ≡ false → (s.held.misc ≡ 0) × (s.held.blocks ≡ 0))
    balanced v = ground arith
