-- ===== src/Demo/Platform.antt =====
-- 00.mDemo/04.platform_driver: the module with a platform device (kDemo_dev.c) and the module with the
-- driver that binds to it and registers a misc device (kDemo.c). The driver core calls `probe` and
-- `remove` as its documentation says. The file operations only print and return their count.
pub mod Balance
use learn_linux_drv.Prelude.{
  ℕ, ◌+◌, ◌-◌, ◌≡◌, Bool, true, false, ◌&&◌, not, Option, none, some, if◌then◌else◌,
}
use learn_linux_drv.Kernel.{Errno, enomem, Ret, ok, err}

-- What the two modules hold in the kernel: platform devices that are allocated, those that are on the
-- bus, blocks of `devm_kzalloc`, and registered misc devices.
pub record Holdings : Type 0 where
  pub allocated : ℕ
  pub on_bus : ℕ
  pub blocks : ℕ
  pub misc : ℕ

abbrev pub platform_device_alloc : Holdings → Holdings
platform_device_alloc h = record h { allocated = h.allocated + 1 }

-- `platform_device_put`: the last reference to a device that is not on the bus.
abbrev pub platform_device_put : Holdings → Holdings
platform_device_put h = record h { allocated = h.allocated - 1 }

-- `m_pltdev_init`, by whether there is memory and what `platform_device_add` answers.
unfoldable pub m_pltdev_init : (memory : Bool) → (add : Option Errno) → Holdings → Ret × Holdings
m_pltdev_init false add h = (err enomem, h)
m_pltdev_init true (some e) h = (err e, platform_device_put (platform_device_alloc h))
m_pltdev_init true none h =
    let h' : Holdings = platform_device_alloc h in (ok 0, record h' { on_bus = h'.on_bus + 1 })

-- `m_pltdev_exit`: `platform_device_unregister` takes the device off the bus and drops it.
unfoldable pub m_pltdev_exit : Holdings → Holdings
m_pltdev_exit h = platform_device_put (record h { on_bus = h.on_bus - 1 })

-- `m_plt_probe`, by whether there is memory and what `misc_register` answers.
unfoldable pub m_plt_probe :
    (memory : Bool) → (misc_register : Option Errno) → Holdings → Ret × Holdings
m_plt_probe false misc_register h = (err enomem, h)
m_plt_probe true (some e) h = (err e, record h { blocks = h.blocks + 1 })
m_plt_probe true none h = (ok 0, record h { blocks = h.blocks + 1; misc = h.misc + 1 })

-- `m_plt_remove`.
unfoldable pub m_plt_remove : Holdings → Ret × Holdings
m_plt_remove h = (ok 0, record h { misc = h.misc - 1 })

-- The two modules, whether the driver is bound to the device, and what they hold.
pub record System : Type 0 where
  pub dev_loaded : Bool
  pub drv_loaded : Bool
  pub bound : Bool
  pub held : Holdings

abbrev pub unloaded : System
unloaded = record {
  dev_loaded = false;
  drv_loaded = false;
  bound = false;
  held = record { allocated = 0; on_bus = 0; blocks = 0; misc = 0 };
}

-- The driver core frees the blocks of a device when the driver is not bound to it any more, or when
-- `probe` fails.
abbrev pub devres_release_all : Holdings → Holdings
devres_release_all h = record h { blocks = 0 }

-- What the driver core does where `probe` has returned.
abbrev pub really_probe : Ret × Holdings → System → System
really_probe (ok n, h) s = record s { bound = true; held = h }
really_probe (err e, h) s = record s { held = devres_release_all h }

-- What the driver core does before one of the two goes.
abbrev pub unbind : System → System
unbind s =
    if s.bound
    then record s { bound = false; held = devres_release_all (m_plt_remove s.held).1 }
    else s

-- Where the loading of a module fails, the module is not loaded.
abbrev pub dev_inserted : Ret × Holdings → System → System
dev_inserted (ok n, h) s = record s { dev_loaded = true; held = h }
dev_inserted (err e, h) s = record s { held = h }

pub data Step (s : System) : System → Type 0 where
  loads_dev :
      (memory : Bool) (add : Option Errno)
      → s.dev_loaded ≡ false
      → Step s (dev_inserted (m_pltdev_init memory add s.held) s)
  loads_drv : s.drv_loaded ≡ false → Step s (record s { drv_loaded = true })
  probes :
      (memory : Bool) (misc_register : Option Errno)
      → s.dev_loaded ≡ true
      → s.drv_loaded ≡ true
      → s.bound ≡ false
      → Step s (really_probe (m_plt_probe memory misc_register s.held) s)
  unloads_dev :
      s.dev_loaded ≡ true
      → Step s (record (unbind s) { dev_loaded = false; held = m_pltdev_exit (unbind s).held })
  unloads_drv : s.drv_loaded ≡ true → Step s (record (unbind s) { drv_loaded = false })
