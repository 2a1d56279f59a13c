-- ===== src/GlobalFifo/Files.antt =====
-- ch12/globalfifo.c: opening and closing a file, asking for SIGIO, and binding the driver to its
-- platform device.
use learn_linux_drv.Prelude.{
  ℕ, ◌≡◌, ◌∙◌, Bool, true, false, List, [], ◌∷◌, Option, none, some, arith, ◌==◌, if◌then◌else◌,
}
use learn_linux_drv.Kernel.{Errno, enomem, Ret, ok, err}
use learn_linux_drv.Kernel.Memory.{filled}
use learn_linux_drv.GlobalFifo.{GlobalfifoDev, Request, globalfifo_size, write_in, is_empty}

-- `fasync_helper` on a file, a mode and a queue: the return value and the queue. `fd` is -1 where
-- there is none.
abbrev pub FasyncHelper : Type 0
FasyncHelper = (fd : Option ℕ) (filp mode : ℕ) → List ℕ → Ret × List ℕ

-- A queue without every entry of one file.
unfoldable pub without : (filp : ℕ) → List ℕ → List ℕ
without filp [] = []
without filp (f ∷ fs) = let rest = without filp fs in if f == filp then rest else f ∷ rest

-- The documented behaviour: mode 0 takes the file off the queue.
abbrev pub RemovesFile : FasyncHelper → Type 0
RemovesFile helper =
    (fd : Option ℕ) (filp : ℕ) (queue : List ℕ) → (helper fd filp 0 queue).1 ≡ without filp queue

unfoldable pub fasync :
    FasyncHelper → (fd : Option ℕ) → (filp mode : ℕ) → GlobalfifoDev → Ret × GlobalfifoDev
fasync helper fd filp mode dev =
    let r = helper fd filp mode dev.async_queue in (r.0, record dev { async_queue = r.1 })

pub open_file : GlobalfifoDev → Ret × GlobalfifoDev
open_file dev = (ok 0, dev)

pub release_file : FasyncHelper → (filp : ℕ) → GlobalfifoDev → Ret × GlobalfifoDev
release_file helper filp dev = (ok 0, (fasync helper none filp 0 dev).1)

-- What the driver has bound: its device, which the kernel frees when `probe` fails and when the
-- platform device goes (`devm_kzalloc`), and whether the misc device is registered.
pub record Binding : Type 0 where
  pub gl : Option GlobalfifoDev
  pub registered : Bool

abbrev pub unbound : Binding
unbound = record { gl = none; registered = false }

-- `globalfifo_probe`, by whether there is memory and what `misc_register` answers.
pub probe : (memory : Bool) → (misc_register : Option Errno) → Binding → Ret × Binding
probe memory misc_register b =
    if memory
    then elim misc_register [
      | some e ↦ (err e, b)
      | none ↦ (
        ok 0,
        record {
          gl = some (record { current_len = 0; mem = filled 0 globalfifo_size; async_queue = [] });
          registered = true;
        },
      )
    ]
    else (err enomem, b)

-- `globalfifo_remove`, and the kernel's freeing of the device behind it.
pub remove : Binding → Ret × Binding
remove b = (ok 0, record { gl = none; registered = false })

write_in-sigio :
    (r : Request) (dev : GlobalfifoDev) → dev.async_queue ≡ [] → (write_in r dev).sigio ≡ false
unfolding write_in is_empty
write_in-sigio r dev e = ground arith

-- A file that is closed gets no SIGIO any more: with a `fasync_helper` that takes the file off the
-- queue, and where no other file has asked for the signal, the next write does not send it.
pub release_stops_sigio :
    (helper : FasyncHelper) (filp : ℕ) (dev : GlobalfifoDev) (r : Request)
    → RemovesFile helper
    → without filp dev.async_queue ≡ []
    → (write_in r (release_file helper filp dev).1).sigio ≡ false
unfolding release_file fasync
release_stops_sigio helper filp dev r law alone =
    write_in-sigio r (release_file helper filp dev).1 (law none filp dev.async_queue ∙ alone)
