-- ===== src/Demo/KernelFile/Sharing.antt =====
-- 1.kernel_file_opt/kDemo.c: openings of the device that overlap break the driver.
use learn_linux_drv.Prelude.{
  ℕ, ◌-◌, ◌<◌, ◌≡◌, ◌≢◌, ◌⊎◌, inl, inr, Bool, true, false, arith, if◌then◌else◌, update, update_ne,
  refl, sym, ap, ◌∙◌,
}
use learn_linux_drv.Prelude.Steps.{Reach, Reach-keeps}
use learn_linux_drv.Kernel.{Errno}
use learn_linux_drv.Demo.KernelFile.{
  Pointer, null, error_pointer, file_at, State, is_live, follow, open_device, filp_close,
  release_device, read_device, write_device, System, Step, opens, fails_open, reads, fails_read,
  writes, releases, is_opening,
}
use learn_linux_drv.Demo.KernelFile.Single.{follow-fp, follow-opened}

-- A file that is open while `fp` points elsewhere.
abbrev Lost : ℕ → System → Type 0
Lost f s = (s.st.opened f ≡ true) × (s.st.fp ≢ file_at f)

follows-Lost :
    (f : ℕ) (s : State)
    → (s.opened f ≡ true) × (s.fp ≢ file_at f)
    → ((follow s).opened f ≡ true) × ((follow s).fp ≢ file_at f)
follows-Lost f s (h, ne) = (ap (λ v. v f) (follow-opened s) ∙ h, λ p. ne (sym (follow-fp s) ∙ p))

filp_close-Lost :
    (f : ℕ) (p : Pointer) (s : State)
    → s.opened f ≡ true
    → p ≢ file_at f
    → (filp_close p s).opened f ≡ true
unfolding filp_close
filp_close-Lost f null s h ne = h
filp_close-Lost f (error_pointer e) s h ne = h
filp_close-Lost f (file_at g) s h ne = ground (arith, h, λ (e : g ≡ f). ne (ap file_at e))

filp_close-fp : (p : Pointer) (s : State) → (filp_close p s).fp ≡ s.fp
unfolding filp_close
filp_close-fp null s = refl
filp_close-fp (error_pointer e) s = refl
filp_close-fp (file_at g) s = ground arith

file_at-inj : {f g : ℕ} → file_at f ≡ file_at g → f ≡ g
file_at-inj p = cc

true_ne_false : true ≢ false
true_ne_false e = absurd (ground (arith, e))

opened_apart : {f g : ℕ} (opened : ℕ → Bool) → opened f ≡ true → opened g ≡ false → g ≢ f
opened_apart opened o h e = true_ne_false (sym o ∙ ap opened (sym e) ∙ h)

Step-Lost : (f : ℕ) (s t : System) → Step s t → Lost f s → Lost f t
unfolding open_device read_device write_device release_device
Step-Lost f s _ (opens g h) (o, ne) = (
  update_ne s.st.opened true (opened_apart s.st.opened o h) ∙ o,
  λ p. opened_apart s.st.opened o h (file_at-inj p),
)
Step-Lost f s _ (fails_open e) (o, ne) = (o, λ p. ground (arith, p))
Step-Lost f s _ (reads bytes count u h) v = follows-Lost f s.st v
Step-Lost f s _ (fails_read e count u) v = follows-Lost f s.st v
Step-Lost f s _ (writes count u) v = follows-Lost f s.st v
Step-Lost f s _ (releases u) (o, ne) =
    (filp_close-Lost f s.st.fp s.st o ne, λ p. ne (sym (filp_close-fp s.st.fp s.st) ∙ p))

-- How many open files `fp` reaches.
abbrev live_count : State → ℕ
live_count s = if is_live s.fp s.opened then 1 else 0

-- More openings than open files that `fp` reaches.
abbrev Crowded : State → ℕ → Type 0
Crowded s users = (s.fault ≡ true) ⊎ (live_count s < users)

follow-Crowded :
    (s st : State) (users : ℕ)
    → st.fp ≡ (follow s).fp
    → st.opened ≡ (follow s).opened
    → st.fault ≡ (follow s).fault
    → Crowded s users
    → Crowded st users
unfolding follow
follow-Crowded s st users p o f c = ground (arith, p, o, f, c)

filp_close-Crowded :
    (s : State) (users : ℕ) → Crowded s users → Crowded (filp_close s.fp s) (users - 1)
unfolding filp_close is_live
filp_close-Crowded s users c = ground (arith, c)

Step-Crowded : (s t : System) → Step s t → Crowded s.st s.users → Crowded t.st t.users
unfolding open_device read_device write_device release_device
Step-Crowded s _ (opens f h) c = ground (arith, c)
Step-Crowded s _ (fails_open e) c = ground (arith, c)
Step-Crowded s _ (reads bytes count u h) v =
    follow-Crowded s.st ((read_device (inr bytes) count s.st).1) s.users refl refl refl v
Step-Crowded s _ (fails_read e count u) v =
    follow-Crowded s.st ((read_device (inl e) count s.st).1) s.users refl refl refl v
Step-Crowded s _ (writes count u) v =
    follow-Crowded s.st ((write_device count s.st).1) s.users refl refl refl v
Step-Crowded s _ (releases u) v = filp_close-Crowded s.st s.users v

is_live-error : (e : Errno) (opened : ℕ → Bool) → is_live (error_pointer e) opened ≡ false
unfolding is_live
is_live-error e opened = refl

opening-Lost :
    {s t : System} (step : Step s t) (f : ℕ)
    → is_opening step ≡ true
    → s.st.opened f ≡ true
    → Lost f t
unfolding open_device is_opening
opening-Lost {s} (opens g h) f o e =
    (update_keeps, λ p. opened_apart s.st.opened e h (file_at-inj p))
  where
    update_keeps : update s.st.opened g true f ≡ true
    update_keeps = ground (arith, e)
opening-Lost (fails_open e) f o h = (h, λ p. ground (arith, p))
opening-Lost (reads bytes count u h) f o e = absurd (ground (arith, o))
opening-Lost (fails_read e count u) f o h = absurd (ground (arith, o))
opening-Lost (writes count u) f o e = absurd (ground (arith, o))
opening-Lost (releases u) f o e = absurd (ground (arith, o))

opening-Crowded :
    {s t : System} (step : Step s t) → is_opening step ≡ true → 0 < s.users → Crowded t.st t.users
unfolding open_device is_opening
opening-Crowded (opens g h) o pos = ground (arith, pos)
opening-Crowded {s} (fails_open e) o pos = ground (arith, pos, is_live-error e s.st.opened)
opening-Crowded (reads bytes count u h) o pos = absurd (ground (arith, o))
opening-Crowded (fails_read e count u) o pos = absurd (ground (arith, o))
opening-Crowded (writes count u) o pos = absurd (ground (arith, o))
opening-Crowded (releases u) o pos = absurd (ground (arith, o))

-- An opening, by a `filp_open` that succeeds or fails, while another opening lasts breaks the driver
-- for good: the file that `fp` pointed to stays open in every later state, and in every later state in
-- which all openings are released, the driver has followed a pointer that was not an open file.
pub sharing_breaks :
    {s t u : System}
    → (step : Step s t) → is_opening step ≡ true
    → 0 < s.users
    → Reach Step t u
    → ((f : ℕ) → s.st.fp ≡ file_at f → s.st.opened f ≡ true → u.st.opened f ≡ true)
      × (u.users ≡ 0 → u.st.fault ≡ true)
sharing_breaks {s} {t} {u} step o pos r =
    let crowded = Reach-keeps Step Step-Crowded r (opening-Crowded step o pos) in
    (
      λ f p h. (Reach-keeps Step (Step-Lost f) r (opening-Lost step f o h)).0,
      λ z. ground (arith, crowded, z),
    )
