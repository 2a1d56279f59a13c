-- ===== src/Demo/KernelFile/Single.antt =====
-- 1.kernel_file_opt/kDemo.c: the driver serves one opening of the device at a time.
use learn_linux_drv.Prelude.{
  ℕ, ◌-◌, ◌<◌, ◌≡◌, ◌≢◌, Bool, true, false, arith, update, update_self, update_ne, refl, ap, ◌∙◌,
}
use learn_linux_drv.Prelude.Steps.{Reach, Reach-keeps}
use learn_linux_drv.Demo.KernelFile.{
  Pointer, file_at, State, is_live, follow, open_device, filp_close, release_device, read_device,
  write_device, System, loaded, opens, fails_open, reads, fails_read, writes, releases, is_opening,
  Alone,
}

-- Nobody has the device open, and no file is open; or one process has, and `fp` points to the only
-- open file.
data Single (s : System) : Type 0 where
  nobody : s.users ≡ 0 → ((g : ℕ) → s.st.opened g ≡ false) → Single s
  somebody :
      (f : ℕ)
      → s.users ≡ 1
      → s.st.fp ≡ file_at f
      → s.st.opened f ≡ true
      → ((g : ℕ) → f ≢ g → s.st.opened g ≡ false)
      → Single s

abbrev Safe : System → Type 0
Safe s = (s.st.fault ≡ false) × Single s

pub follow-fp : (s : State) → (follow s).fp ≡ s.fp
unfolding follow
follow-fp s = ground arith

pub follow-opened : (s : State) → (follow s).opened ≡ s.opened
unfolding follow
follow-opened s = ground arith

follow-fault : (s : State) → is_live s.fp s.opened ≡ true → (follow s).fault ≡ s.fault
unfolding follow
follow-fault s h = ground (arith, h)

is_live-file :
    (p : Pointer) (opened : ℕ → Bool) (f : ℕ)
    → p ≡ file_at f
    → opened f ≡ true
    → is_live p opened ≡ true
unfolding is_live
is_live-file p opened f e h = rw e h

-- What the driver does behind `follow` leaves it safe.
follows-Safe :
    (s : System) (st : State)
    → 0 < s.users
    → st.fp ≡ (follow s.st).fp
    → st.opened ≡ (follow s.st).opened
    → st.fault ≡ (follow s.st).fault
    → Safe s
    → Safe (record s { st = st })
follows-Safe s st u p o f (nf, nobody z none) = absurd (omega (arith, z, u))
follows-Safe s st u p o f (nf, somebody g one e h rest) =
    let live = is_live-file s.st.fp s.st.opened g e h in
    let o' = o ∙ follow-opened s.st in
    (
      f ∙ follow-fault s.st live ∙ nf,
      somebody g one (p ∙ follow-fp s.st ∙ e) (ap (λ v. v g) o' ∙ h)
          (λ k ne. ap (λ v. v k) o' ∙ rest k ne),
    )

filp_close-file :
    (f : ℕ) (s : State)
    → s.opened f ≡ true
    → filp_close (file_at f) s ≡ record s { opened = update s.opened f false }
unfolding filp_close
filp_close-file f s h = rw h

release-Safe :
    (s : System)
    → 0 < s.users
    → Safe s
    → Safe (record { st = (release_device s.st).1; users = s.users - 1 })
unfolding release_device
release-Safe s u (nf, nobody z none) = absurd (omega (arith, z, u))
release-Safe s u (nf, somebody f one e h rest) =
    let closed : filp_close s.st.fp s.st ≡ record (s.st) { opened = update s.st.opened f false } =
      ap (λ p. filp_close p s.st) e ∙ filp_close-file f s.st h in
    (
      ap (λ (k : State). k.fault) closed ∙ nf,
      nobody (omega (arith, one)) (λ g. ap (λ (k : State). k.opened g) closed ∙ others g),
    )
  where
    others : (g : ℕ) → update s.st.opened f false g ≡ false
    others g = ground (arith, rest g)

Alone-Safe : (s t : System) → Alone s t → Safe s → Safe t
unfolding open_device read_device write_device is_opening
Alone-Safe s _ (opens f h, only) (nf, nobody z none) = (
  nf,
  somebody f (omega (arith, z)) refl (update_self s.st.opened f true)
      (λ g ne. update_ne s.st.opened true ne ∙ none g),
)
Alone-Safe s _ (fails_open e, only) (nf, nobody z none) = (nf, nobody z none)
Alone-Safe s _ (opens f h, only) (nf, somebody g one e o rest) =
    absurd (omega (arith, only refl, one))
Alone-Safe s _ (fails_open e, only) (nf, somebody g one e' o rest) =
    absurd (omega (arith, only refl, one))
Alone-Safe s _ (reads bytes count u h, only) v = follows-Safe s _ u refl refl refl v
Alone-Safe s _ (fails_read e count u, only) v = follows-Safe s _ u refl refl refl v
Alone-Safe s _ (writes count u, only) v = follows-Safe s _ u refl refl refl v
Alone-Safe s _ (releases u, only) v = release-Safe s u v

-- Where no opening of the device begins while another one lasts, `fp` points to an open file
-- whenever the driver follows it, and when all openings are released, every file is closed.
pub one_opening_safe :
    {s : System}
    → Reach Alone loaded s
    → (s.st.fault ≡ false) × ((f : ℕ) → s.users ≡ 0 → s.st.opened f ≡ false)
one_opening_safe r = all_closed _ (Reach-keeps Alone Alone-Safe r (refl, nobody refl (λ g. refl)))
  where
    all_closed :
        (s : System)
        → Safe s
        → (s.st.fault ≡ false) × ((f : ℕ) → s.users ≡ 0 → s.st.opened f ≡ false)
    all_closed s (nf, nobody z none) = (nf, λ f u. none f)
    all_closed s (nf, somebody g one e h rest) = (nf, λ f u. absurd (omega (arith, u, one)))
