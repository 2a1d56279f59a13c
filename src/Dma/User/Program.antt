-- ===== src/Dma/User/Program.antt =====
-- userDemoBase.c: `main`, from the command line to the exit status. `getopt_long` and `atoi` are the C
-- library's: their answers are arguments.
use learn_linux_drv.Prelude.{
  ℕ, ◌-◌, ◌≡◌, ◌⊎◌, inl, inr, Bool, true, false, ◌&&◌, ◌||◌, not, List, [], ◌∷◌, arith, refl, sym,
  ap, ◌∙◌, ltb, leb, if◌then◌else◌, update,
}
use mathlib.Core.Path.{subst}
use learn_linux_drv.Prelude.Int.{ℤ, pos, negsuc}
use learn_linux_drv.Dma.{Answers, State}
use learn_linux_drv.Dma.Module.{Devices, open_dev, release_dev}
use learn_linux_drv.Dma.User.{Process}
use learn_linux_drv.Dma.User.Streams.{Ended}
use learn_linux_drv.Dma.User.GiveBack.{
  coherent_dma, single_mapping, scatter_gather, dma_pool_test, Gone,
}
use learn_linux_drv.Dma.User.Main.{run_tests, all_tests_give_back}

-- An answer of `getopt_long`, with what `atoi` makes of the argument of `-t`.
pub data Choice : Type 0 where
  choose_all choose_base choose_coherent choose_single choose_sg choose_pool : Choice
  choose_info choose_mask choose_verbose choose_help unknown : Choice
  choose_test : (test_num : ℤ) → Choice

-- `run_all`, `run_base`, `g_verbose`, and the bits of `test_mask`.
pub record Choices : Type 0 where
  pub run_all : Bool
  pub run_base : Bool
  pub g_verbose : Bool
  pub test_mask : ℕ → Bool

abbrev pub no_choice : Choices
no_choice = record { run_all = false; run_base = false; g_verbose = false; test_mask = λ k. false }

-- `test_mask |= (1 << k)`.
abbrev pub set_bit : ℕ → Choices → Choices
set_bit k c = record c { test_mask = update c.test_mask k true }

-- One round of the loop over the command line: the status with which `main` returns, or what is chosen.
unfoldable pub choose : Choice → Choices → ℕ ⊎ Choices
choose choose_all c = inr (record c { run_all = true })
choose choose_base c = inr (record c { run_base = true })
choose choose_coherent c = inr (set_bit 0 c)
choose choose_single c = inr (set_bit 1 c)
choose choose_sg c = inr (set_bit 2 c)
choose choose_pool c = inr (set_bit 3 c)
choose choose_info c = inr (set_bit 4 c)
choose choose_mask c = inr (set_bit 5 c)
choose choose_verbose c = inr (record c { g_verbose = true })
choose (choose_test (pos n)) c = if leb 1 n && leb n 6 then inr (set_bit (n - 1) c) else inl 1
choose (choose_test (negsuc n)) c = inl 1
choose choose_help c = inl 0
choose unknown c = inl 1

unfoldable pub parse : List Choice → Choices → ℕ ⊎ Choices
parse [] c = inr c
parse (o ∷ os) c = elim (choose o c) [ inl status ↦ inl status | inr c' ↦ parse os c' ]

-- `test_mask == 0`, for a mask of six bits.
abbrev pub is_empty_mask : (ℕ → Bool) → Bool
is_empty_mask m = not (m 0 || m 1 || m 2 || m 3 || m 4 || m 5)

-- `test_mask`, which is 0x3F where all tests are chosen.
abbrev pub selected_tests : Choices → ℕ → Bool
selected_tests c = if c.run_all then (λ k. ltb k 6) else c.test_mask

-- `ret`, by whether all tests that were run returned 0.
abbrev pub exit_status : Bool → ℕ
exit_status succeeded = if succeeded then 0 else 1

-- The part of `main` between `open` and `close`, where `-b` is not given.
unfoldable pub run_opened : Process → Answers → (malloc : Bool) → Choices → Devices → ℕ × Devices
run_opened p a malloc c devs =
    let opened : Devices = (open_dev 0 devs).1 in
    let e : Ended = run_tests p a malloc (selected_tests c) (opened 0) in
    (exit_status e.succeeded, (release_dev 0 (update opened 0 e.st)).1)

-- `main`. `opens` tells whether `open` comes to the driver and back, and `with_base` is what happens
-- where `-b` is given: calls of the C library's streams, and then the chosen tests on the descriptor -1.
unfoldable pub main :
    Process
    → Answers
    → (malloc opens : Bool) → (with_base : Choices → Devices → ℕ × Devices) → List Choice
    → Devices
    → ℕ × Devices
main p a malloc opens with_base os devs = elim (parse os no_choice) [
  | inl status ↦ (status, devs)
  | inr c ↦
      if not c.run_all && not c.run_base && is_empty_mask c.test_mask
      then (0, devs)
      else if c.run_base
      then with_base c devs
      else if opens
      then run_opened p a malloc c devs
      else (1, devs)
]

-- Nothing of what the tests take is left.
abbrev AllGone : Bool → State → Type 0
AllGone malloc st =
    Gone coherent_dma st
    × Gone (single_mapping malloc) st
    × Gone scatter_gather st
    × Gone dma_pool_test st

all_selected :
    (p : Process) (a : Answers) (malloc : Bool) (c : Choices) (st : State)
    → c.run_all ≡ true
    → run_tests p a malloc (selected_tests c) st ≡ run_tests p a malloc (λ k. true) st
unfolding run_tests
all_selected p a malloc c st h = rw h refl

status_zero : (b : Bool) → exit_status b ≡ 0 → b ≡ true
status_zero b h = ground (arith, h)

-- Closing the device changes nothing but its counter.
release-AllGone :
    (malloc : Bool) (devs : Devices) (st : State)
    → AllGone malloc st
    → AllGone malloc ((release_dev 0 (update devs 0 st)).1 0)
unfolding release_dev
release-AllGone malloc devs st h = h

opened_give_back :
    (p : Process) (a : Answers) (malloc : Bool) (c : Choices) (devs : Devices)
    → c.run_all ≡ true
    → (run_opened p a malloc c devs).0 ≡ 0
    → AllGone malloc ((run_opened p a malloc c devs).1 0)
unfolding run_opened
opened_give_back p a malloc c devs all h =
    let opened : Devices = (open_dev 0 devs).1 in
    let e = all_selected p a malloc c (opened 0) all in
    let ok = ap (λ (t : Ended). t.succeeded) (sym e) ∙ status_zero _ h in
    release-AllGone malloc opened _ (
      subst (λ (t : Ended). AllGone malloc t.st) (sym e)
        (all_tests_give_back p a malloc (opened 0) ok))

main-run_opened :
    (p : Process) (a : Answers) (malloc : Bool) (with_base : Choices → Devices → ℕ × Devices)
    (os : List Choice) (c : Choices) (devs : Devices)
    → parse os no_choice ≡ inr c
    → c.run_all ≡ true
    → c.run_base ≡ false
    → main p a malloc true with_base os devs ≡ run_opened p a malloc c devs
unfolding main run_opened
main-run_opened p a malloc with_base os c devs accepted all no_base =
    rw (main, accepted, all, no_base) refl

-- The program with `-a` and without `-b`, composed with the driver: for every command line that is
-- accepted, whatever other tests it names, and whatever the kernel and the process's memory do and the
-- device held before: where `main` opens the device and returns 0, no coherent buffer, single mapping,
-- scatter-gather mapping or pool, and no block of theirs, is on the device.
pub program_gives_back :
    (p : Process) (a : Answers) (malloc : Bool) (with_base : Choices → Devices → ℕ × Devices)
    (os : List Choice) (c : Choices) (devs : Devices)
    → parse os no_choice ≡ inr c
    → c.run_all ≡ true
    → c.run_base ≡ false
    → (main p a malloc true with_base os devs).0 ≡ 0
    → let t = (main p a malloc true with_base os devs).1 0 in
      Gone coherent_dma t
      × Gone (single_mapping malloc) t
      × Gone scatter_gather t
      × Gone dma_pool_test t
program_gives_back p a malloc with_base os c devs accepted all no_base h =
    subst (λ (r : ℕ × Devices). r.0 ≡ 0 → AllGone malloc (r.1 0))
      (sym (main-run_opened p a malloc with_base os c devs accepted all no_base))
      (opened_give_back p a malloc c devs all) h
