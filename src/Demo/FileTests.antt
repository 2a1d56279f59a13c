-- ===== src/Demo/FileTests.antt =====
-- The demo on files that the driver opens itself, and that on a platform device: the theorems at inputs that meet their hypotheses.
use learn_linux_drv.Prelude.{ℕ, ◌≡◌, inr, refl, true, false, arith}
use learn_linux_drv.Prelude.Steps.{Reach, here, later}
use learn_linux_drv.Demo.KernelFile
use learn_linux_drv.Demo.KernelFile.{
  System, loaded, Step, opens, releases, is_opening, Alone, open_device, release_device,
}
use learn_linux_drv.Demo.KernelFile.Single.{one_opening_safe}
use learn_linux_drv.Demo.KernelFile.Sharing.{sharing_breaks}

-- One process opens the device, for which the kernel opens file 3.
abbrev open_3 : System
open_3 = record { st = (open_device (inr 3) loaded.st).1; users = 1 }

-- A second process opens it, for which the kernel opens file 4.
abbrev open_4 : System
open_4 = record { st = (open_device (inr 4) open_3.st).1; users = 2 }

opening_4 : Step open_3 open_4
unfolding open_device
opening_4 = opens 4 refl

abbrev closed_3 : System
closed_3 = record { st = (release_device open_3.st).1; users = 0 }

one_session : Reach Alone loaded closed_3
unfolding is_opening
one_session =
    later (later here (opens 3 refl, λ e. refl))
      (releases (omega arith), λ e. absurd (ground (arith, e)))

one_opening_safe_example :
    (closed_3.st.fault ≡ false) × ((f : ℕ) → closed_3.users ≡ 0 → closed_3.st.opened f ≡ false)
one_opening_safe_example = one_opening_safe one_session

-- Both processes close it.
abbrev closed_4 : System
closed_4 = record { st = (release_device (release_device open_4.st).1).1; users = 0 }

closings : Reach Step open_4 closed_4
closings = later (later here (releases (omega arith))) (releases (omega arith))

sharing_breaks_example :
    ((f : ℕ)
      → open_3.st.fp ≡ KernelFile.file_at f
      → open_3.st.opened f ≡ true
      → closed_4.st.opened f ≡ true)
    × (closed_4.users ≡ 0 → closed_4.st.fault ≡ true)
unfolding is_opening opening_4
sharing_breaks_example = sharing_breaks opening_4 refl (omega arith) closings
