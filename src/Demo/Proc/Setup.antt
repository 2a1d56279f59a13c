-- ===== src/Demo/Proc/Setup.antt =====
-- proc/kDemo.c: what a failing `m_chr_init` leaves behind.
use learn_linux_drv.Prelude.{◌≡◌, refl, Bool, List, [], ◌∷◌, some, arith, Option-cases, inl, inr}
use learn_linux_drv.Kernel.{Errno, enomem, err}
use learn_linux_drv.Kernel.Chrdev.{LoadAnswers}
use learn_linux_drv.Demo.{register}
use learn_linux_drv.Demo.Proc.{Entry, Loaded, create_entries, all_entries, init}

create_entries_registered :
    (created : Entry → Bool) (es : List Entry) (m : Loaded)
    → (create_entries created es m).1.registered ≡ m.registered
unfolding create_entries
create_entries_registered created [] m = refl
create_entries_registered created (e ∷ es) m =
    ground (arith, create_entries_registered created es (record m { entries = e ∷ m.entries }))

create_entries_error :
    (created : Entry → Bool) (es : List Entry) (m : Loaded) (e : Errno)
    → (create_entries created es m).0 ≡ err e
    → e ≡ enomem
unfolding create_entries
create_entries_error created [] m e h = ground arith
create_entries_error created (x ∷ es) m e h =
    ground (arith, h, create_entries_error created es (record m { entries = x ∷ m.entries }) e)

-- If `m_chr_init` fails at some entry under /proc, it returns -ENOMEM, and everything that it
-- registered before stays registered.
pub init_failure_leaves :
    (a : LoadAnswers) (created : Entry → Bool) (e : Errno) (m : Loaded)
    → init a created ≡ some (err e, m)
    → (e ≡ enomem) × (register a ≡ some m.registered)
unfolding init
init_failure_leaves a created e m h = elim (Option-cases (register a)) [
  | inl none_made ↦ ground (arith, h, none_made)
  | inr (r, made) ↦ ground (
    arith,
    h,
    made,
    create_entries_error created all_entries (record { registered = r; entries = [] }) e,
    create_entries_registered created all_entries (record { registered = r; entries = [] }),
  )
]
