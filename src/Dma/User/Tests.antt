-- ===== src/Dma/User/Tests.antt =====
-- userDemoBase.c: the theorems at inputs that meet their hypotheses.
use learn_linux_drv.Prelude.{
  ◌≡◌, refl, ap, ◌∙◌, ◌&&◌, arith, true, false, none, some, inr, ℕ, [], ◌∷◌,
}
use learn_linux_drv.Dma.User.Main.{run_tests, run_selected}
use learn_linux_drv.Dma.User.Program.{
  choose_all, choose_verbose, Choices, no_choice, choose, parse, run_opened, main, exit_status,
  program_gives_back,
}
use learn_linux_drv.Kernel.{UserCopy, IsUserCopy}
use learn_linux_drv.Dma.{Resource, Answers, State}
use learn_linux_drv.Dma.Module.{Devices, init_device, open_dev, with_count, atomic_inc}
use learn_linux_drv.Dma.Coherent.{free_coherent_dev}
use learn_linux_drv.Dma.Info.{get_info, set_mask}
use learn_linux_drv.Dma.Ioctl.{answering, with_param, run, ioctl, number, decode}
use learn_linux_drv.Dma.Pool.{pool_alloc_dev, pool_create_dev, pool_destroy_dev, pool_free_dev}
use learn_linux_drv.Dma.Sg.{
  alloc_pages, array_of, free_backwards, free_pages, map_pages, map_sg_dev, pages_of, sync_sg_dev,
  unmap_sg_dev,
}
use learn_linux_drv.Dma.Single.{map_single_dev, sync_single_dev, unmap_single_dev}
use learn_linux_drv.Dma.User.Streams.{
  Ended, either, on_ok, test_dma_info, test_dma_mask, test_dma_pool, test_scatter_gather,
  test_single_mapping,
}
use learn_linux_drv.Dma.User.{pattern, zeroed, Process, test_coherent_dma}
use learn_linux_drv.Dma.User.Calls.{length-pattern}
use learn_linux_drv.Dma.User.Passing.{coherent_test_passes, coherent_ended, test_coherent_dma-ended}
use learn_linux_drv.Dma.User.GiveBack.{
  coherent_dma, single_mapping, scatter_gather, dma_pool_test, Gone, run_test,
}
use learn_linux_drv.Dma.{Buffer}

-- A kernel that grants a coherent buffer, and a process that has stored its bytes.
abbrev granting : Answers
granting = record {
  alloc_coherent = some (0x1000, 0x9000);
  pool_alloc = none;
  kmalloc = none;
  map_single = 0;
  mapping_error = true;
  kmalloc_array = none;
  alloc_page = λ i. none;
  sg_alloc_table = none;
  map_sg = 0;
  sg_dma = 0;
  pool_create = none;
  set_mask = none;
}

abbrev pattern_copy : UserCopy
pattern_copy = record {
  to_user = λ a xs. 0;
  from_user = λ a n. (pattern 0 n, 0);
  user_mem = λ a n. pattern 0 n;
}

pattern_copy-IsUserCopy : IsUserCopy pattern_copy
pattern_copy-IsUserCopy = record {
  to_user_le = λ a xs. omega arith;
  from_user_length = λ a n. length-pattern 0 n;
  from_user_ok = λ a n e. refl;
}

abbrev program : Process
program = record {
  write_buf = some 0x100;
  read_buf = some 0x5000;
  copy = pattern_copy;
  junk = zeroed;
}

coherent_test_passes_example :
    let t = test_coherent_dma program granting init_device in
    (t.succeeded ≡ true)
    × (t.passed ≡ some true)
    × (t.st.dd.coherent_buf ≡ none)
    × ((x : Resource) → t.st.held.count x ≡ init_device.held.count x)
    × (t.st.held.fault ≡ init_device.held.fault)
unfolding init_device learn_linux_drv.Dma.fresh_data
coherent_test_passes_example =
    coherent_test_passes program granting init_device 0x1000 0x9000 0x100 0x5000
      pattern_copy-IsUserCopy refl refl refl refl refl refl refl

-- A kernel that grants everything.
abbrev generous : Answers
generous = record {
  alloc_coherent = some (0x1000, 0x9000);
  pool_alloc = some (0x2000, 0xa000);
  kmalloc = some 0x3000;
  map_single = 0xb000;
  mapping_error = false;
  kmalloc_array = some 0x4000;
  alloc_page = λ i. some i;
  sg_alloc_table = none;
  map_sg = 4;
  sg_dma = 0xc000;
  pool_create = some 0x7000;
  set_mask = none;
}

-- The tests behind the coherent one.
abbrev others : Ended → Ended
others e =
    let e2 : Ended = run_selected true (run_test (single_mapping true) program generous) e in
    let e3 : Ended = run_selected true (run_test scatter_gather program generous) e2 in
    let e4 : Ended = run_selected true (run_test dma_pool_test program generous) e3 in
    let e5 : Ended = run_selected true (test_dma_info program generous) e4 in
    run_selected true (test_dma_mask program generous) e5

-- A device just initialised, opened once.
abbrev opened_device : State
opened_device = with_count init_device 1

abbrev behind_coherent : State
behind_coherent = (coherent_ended program opened_device 0x1000 0x9000 0x100).st

others_succeed : (others (record { succeeded = true; st = behind_coherent })).succeeded ≡ true
unfolding init_device learn_linux_drv.Dma.fresh_data coherent_ended run_tests run_selected run_test
    free_coherent_dev get_info set_mask answering with_param run ioctl number decode pool_alloc_dev
    pool_create_dev pool_destroy_dev pool_free_dev alloc_pages array_of free_backwards free_pages
    map_pages map_sg_dev pages_of sync_sg_dev unmap_sg_dev map_single_dev sync_single_dev
    unmap_single_dev either on_ok test_dma_info test_dma_mask test_dma_pool test_scatter_gather
    test_single_mapping learn_linux_drv.Dma.user_to_kernel_dir
others_succeed = refl

all_succeed : (run_tests program generous true (λ k. true) opened_device).succeeded ≡ true
unfolding run_tests run_selected run_test init_device learn_linux_drv.Dma.fresh_data coherent_ended
all_succeed =
    ap (λ t. (others (record { succeeded = true && t.succeeded; st = t.st })).succeeded)
      (test_coherent_dma-ended program generous opened_device 0x1000 0x9000 0x100 0x5000
        pattern_copy-IsUserCopy refl refl refl refl refl refl refl)
    ∙ others_succeed

-- `main` with `-a -v`, on devices just initialised, closed and opened once.
abbrev run_of_main : ℕ × Devices
run_of_main =
    main program generous true true (λ c devs. (1, devs)) (choose_all ∷ choose_verbose ∷ [])
      (λ i. init_device)

abbrev chosen : Choices
chosen = record no_choice { run_all = true; g_verbose = true }

all_chosen : parse (choose_all ∷ choose_verbose ∷ []) no_choice ≡ inr chosen
unfolding parse choose
all_chosen = refl

main_succeeds : run_of_main.0 ≡ 0
unfolding main run_opened parse choose open_dev atomic_inc init_device
    learn_linux_drv.Dma.fresh_data run_tests
main_succeeds = ap exit_status all_succeed

program_gives_back_example :
    let t = run_of_main.1 0 in
    Gone coherent_dma t
    × Gone (single_mapping true) t
    × Gone scatter_gather t
    × Gone dma_pool_test t
program_gives_back_example =
    program_gives_back program generous true (λ c devs. (1, devs))
      (choose_all ∷ choose_verbose ∷ []) chosen (λ i. init_device) all_chosen refl refl
      main_succeeds
