-- ===== src/Dma/User/Main.antt =====
-- userDemoBase.c: the run of the selected tests in `main`, one after the other.
use learn_linux_drv.Prelude.{ℕ, ◌≡◌, refl, Bool, true, false, ◌&&◌, some, arith}
use learn_linux_drv.Kernel.{Ret, ok, err}
use learn_linux_drv.Dma.{Answers, State}
use learn_linux_drv.Dma.Coherent.{Param}
use learn_linux_drv.Dma.Info.{get_info, set_mask}
use learn_linux_drv.Dma.Single.{map_single_dev, unmap_single_dev}
use learn_linux_drv.Dma.Sg.{map_sg_dev, map_pages, unmap_sg_dev, sync_sg_dev}
use learn_linux_drv.Dma.Pool.{pool_create_dev, pool_alloc_dev, pool_free_dev, pool_destroy_dev}
use learn_linux_drv.Dma.Ioctl.{
  Command, map_single, unmap_single, map_sg, sync_sg, unmap_sg, pool_create, pool_alloc, pool_free,
  pool_destroy, get_infos, set_masks, run, with_param, answering,
}
use learn_linux_drv.Dma.Commands.{ioctl-number}
use learn_linux_drv.Dma.User.{Process, calls}
use learn_linux_drv.Dma.User.Streams.{
  Ended, on_ok, either, test_single_mapping, test_scatter_gather, test_dma_pool, test_dma_info,
  test_dma_mask,
}
use learn_linux_drv.Dma.User.GiveBack.{
  coherent_dma, single_mapping, scatter_gather, dma_pool_test, run_test, Gone, tests_give_back,
}

-- `if (test_mask & (1 << k)) { if (test(fd) < 0) ret = 1; }`, with whether `ret` is still 0.
unfoldable pub run_selected : (selected : Bool) → (State → Ended) → Ended → Ended
run_selected false test e = e
run_selected true test e = record {
  succeeded = e.succeeded && (test e.st).succeeded;
  st = (test e.st).st;
}

-- The part of `main` that runs the tests: whether it ends with `ret` 0, and the device. `selected k` is
-- bit k of `test_mask`.
unfoldable pub run_tests :
    Process → Answers → (malloc : Bool) → (selected : ℕ → Bool) → State → Ended
run_tests p a malloc selected st =
    let e0 : Ended = record { succeeded = true; st = st } in
    let e1 : Ended = run_selected (selected 0) (run_test coherent_dma p a) e0 in
    let e2 : Ended = run_selected (selected 1) (run_test (single_mapping malloc) p a) e1 in
    let e3 : Ended = run_selected (selected 2) (run_test scatter_gather p a) e2 in
    let e4 : Ended = run_selected (selected 3) (run_test dma_pool_test p a) e3 in
    let e5 : Ended = run_selected (selected 4) (test_dma_info p a) e4 in
    run_selected (selected 5) (test_dma_mask p a) e5

-- What is not on the device once the first tests have given back what they took.
abbrev Clear1 : State → Type 0
Clear1 st = Gone coherent_dma st × Gone (single_mapping true) st

abbrev Clear2 : State → Type 0
Clear2 st = Clear1 st × Gone scatter_gather st

abbrev Clear3 : State → Type 0
Clear3 st = Clear2 st × Gone dma_pool_test st

-- What holds where a test gives up and where it goes on, holds in the end.
on_ok-keeps :
    (P : State → Type 0) (ret : Ret) (st : State) (rest : Ended)
    → P st
    → P rest.st
    → P (on_ok ret st rest).st
unfolding on_ok
on_ok-keeps P (ok n) st rest h h' = h'
on_ok-keeps P (err e) st rest h h' = h

either-keeps :
    (P : State → Type 0) (ret : Ret) (e e' : Ended) → P e.st → P e'.st → P (either ret e e').st
unfolding either
either-keeps P (ok n) e e' h h' = h'
either-keeps P (err x) e e' h h' = h

-- A call keeps what the operation behind it keeps.
module _ (p : Process) (a : Answers) where
  call_keeps :
      (P : State → Type 0) (c : Command) (q : Param) (st : State)
      → P (run a (record { param = some q; writes_back = λ x. true; copy = p.copy }) p.junk c st).st
      → P (calls p a c q st).st
  call_keeps P c q st h = rw (ioctl-number a _ p.junk c st) h

  map_single_keeps :
      (q : Param) (st : State)
      → Gone coherent_dma st
      → Gone coherent_dma (calls p a map_single q st).st
  unfolding run with_param answering map_single_dev
  map_single_keeps q st h = call_keeps (Gone coherent_dma) map_single q st (ground (arith, h))

  unmap_single_keeps :
      (q : Param) (st : State)
      → Gone coherent_dma st
      → Gone coherent_dma (calls p a unmap_single q st).st
  unfolding run unmap_single_dev
  unmap_single_keeps q st h = call_keeps (Gone coherent_dma) unmap_single q st (ground (arith, h))

  map_sg_keeps : (q : Param) (st : State) → Clear1 st → Clear1 (calls p a map_sg q st).st
  unfolding run with_param answering map_sg_dev map_pages
  map_sg_keeps q st h = call_keeps (Clear1) map_sg q st (ground (arith, h))

  sync_sg_keeps : (q : Param) (st : State) → Clear1 st → Clear1 (calls p a sync_sg q st).st
  unfolding run with_param sync_sg_dev
  sync_sg_keeps q st h = call_keeps (Clear1) sync_sg q st (ground (arith, h))

  unmap_sg_keeps : (q : Param) (st : State) → Clear1 st → Clear1 (calls p a unmap_sg q st).st
  unfolding run unmap_sg_dev
  unmap_sg_keeps q st h = call_keeps (Clear1) unmap_sg q st (ground (arith, h))

  pool_create_keeps : (q : Param) (st : State) → Clear2 st → Clear2 (calls p a pool_create q st).st
  unfolding run pool_create_dev
  pool_create_keeps q st h = call_keeps (Clear2) pool_create q st (ground (arith, h))

  pool_alloc_keeps : (q : Param) (st : State) → Clear2 st → Clear2 (calls p a pool_alloc q st).st
  unfolding run answering pool_alloc_dev
  pool_alloc_keeps q st h = call_keeps (Clear2) pool_alloc q st (ground (arith, h))

  pool_free_keeps : (q : Param) (st : State) → Clear2 st → Clear2 (calls p a pool_free q st).st
  unfolding run pool_free_dev
  pool_free_keeps q st h = call_keeps (Clear2) pool_free q st (ground (arith, h))

  pool_destroy_keeps :
      (q : Param) (st : State) → Clear2 st → Clear2 (calls p a pool_destroy q st).st
  unfolding run pool_destroy_dev
  pool_destroy_keeps q st h = call_keeps (Clear2) pool_destroy q st (ground (arith, h))

  get_infos_keeps : (q : Param) (st : State) → Clear3 st → Clear3 (calls p a get_infos q st).st
  unfolding run get_info
  get_infos_keeps q st h = call_keeps (Clear3) get_infos q st (ground (arith, h))

  set_masks_keeps : (q : Param) (st : State) → Clear3 st → Clear3 (calls p a set_masks q st).st
  unfolding run with_param set_mask
  set_masks_keeps q st h = call_keeps (Clear3) set_masks q st (ground (arith, h))

  single_keeps :
      (malloc : Bool) (st : State)
      → Gone coherent_dma st
      → Gone coherent_dma (test_single_mapping p a malloc st).st
  unfolding test_single_mapping
  single_keeps true st h =
      let h' = map_single_keeps _ st h in
      on_ok-keeps (Gone coherent_dma) _ _ _ h' (
        on_ok-keeps (Gone coherent_dma) _ _ _ (unmap_single_keeps _ _ h')
          (unmap_single_keeps _ _ h'))
  single_keeps false st h =
      on_ok-keeps (Gone coherent_dma) _ _ _ (map_single_keeps _ st h) (map_single_keeps _ st h)

  sg_keeps : (st : State) → Clear1 st → Clear1 (test_scatter_gather p a st).st
  unfolding test_scatter_gather
  sg_keeps st h =
      let h1 = map_sg_keeps _ st h in
      let h2 = sync_sg_keeps _ _ h1 in
      let h3 = sync_sg_keeps _ _ h2 in
      let h4 = unmap_sg_keeps _ _ h3 in
      on_ok-keeps Clear1 _ _ _ h1
        (on_ok-keeps Clear1 _ _ _ h2 (on_ok-keeps Clear1 _ _ _ h3 (on_ok-keeps Clear1 _ _ _ h4 h4)))

  pool_keeps : (st : State) → Clear2 st → Clear2 (test_dma_pool p a st).st
  unfolding test_dma_pool
  pool_keeps st h =
      let h1 = pool_create_keeps _ st h in
      let h2 = pool_alloc_keeps _ _ h1 in
      let h3 = pool_free_keeps _ _ h2 in
      let d = pool_destroy_keeps _ _ h2 in
      let d' = pool_destroy_keeps _ _ h3 in
      on_ok-keeps Clear2 _ _ _ h1
        (either-keeps Clear2 _ _ _ (on_ok-keeps Clear2 _ _ _ d d) (on_ok-keeps Clear2 _ _ _ d' d'))

  info_keeps : (st : State) → Clear3 st → Clear3 (test_dma_info p a st).st
  unfolding test_dma_info
  info_keeps st h = let h1 = get_infos_keeps _ st h in on_ok-keeps Clear3 _ _ _ h1 h1

  mask_keeps : (st : State) → Clear3 st → Clear3 (test_dma_mask p a st).st
  unfolding test_dma_mask
  mask_keeps st h = set_masks_keeps _ _ (set_masks_keeps _ st h)

-- Where a selected test leaves `ret` 0, it was 0 before, and the test returned 0.
selected-succeeded :
    (test : State → Ended) (e : Ended)
    → (run_selected true test e).succeeded ≡ true
    → (e.succeeded ≡ true) × ((test e.st).succeeded ≡ true)
unfolding run_selected
selected-succeeded test e h = and_split e.succeeded _ h
  where
    and_split : (b c : Bool) → b && c ≡ true → (b ≡ true) × (c ≡ true)
    and_split true c h = (refl, h)
    and_split false c h = absurd (ground (arith, h))

-- The run of all tests (`-a`): whatever the kernel and the process's memory do, and whatever the device
-- held before, where it ends with `ret` 0, no coherent buffer, single mapping, scatter-gather mapping or
-- pool, and no block of theirs, is on the device.
pub all_tests_give_back :
    (p : Process) (a : Answers) (malloc : Bool) (st : State)
    → (run_tests p a malloc (λ k. true) st).succeeded ≡ true
    → let t = (run_tests p a malloc (λ k. true) st).st in
      Gone coherent_dma t
      × Gone (single_mapping malloc) t
      × Gone scatter_gather t
      × Gone dma_pool_test t
unfolding run_tests run_selected run_test
all_tests_give_back p a malloc st h =
    let e0 : Ended = record { succeeded = true; st = st } in
    let e1 : Ended = run_selected true (run_test coherent_dma p a) e0 in
    let e2 : Ended = run_selected true (run_test (single_mapping malloc) p a) e1 in
    let e3 : Ended = run_selected true (run_test scatter_gather p a) e2 in
    let e4 : Ended = run_selected true (run_test dma_pool_test p a) e3 in
    let e5 : Ended = run_selected true (test_dma_info p a) e4 in
    let h5 = (selected-succeeded (test_dma_mask p a) e5 h).0 in
    let h4 = (selected-succeeded (test_dma_info p a) e4 h5).0 in
    let h3 = selected-succeeded (run_test dma_pool_test p a) e3 h4 in
    let h2 = selected-succeeded (run_test scatter_gather p a) e2 h3.0 in
    let h1 = selected-succeeded (run_test (single_mapping malloc) p a) e1 h2.0 in
    let h0 = selected-succeeded (run_test coherent_dma p a) e0 h1.0 in
    let c = single_keeps p a malloc e1.st (tests_give_back coherent_dma p a st h0.1) in
    let s = tests_give_back (single_mapping malloc) p a e1.st h1.1 in
    let t = sg_keeps p a e2.st (c, s) in
    let g = tests_give_back scatter_gather p a e2.st h2.1 in
    let u = pool_keeps p a e3.st (t, g) in
    let q = tests_give_back dma_pool_test p a e3.st h3.1 in
    let v = mask_keeps p a e5.st (info_keeps p a e4.st (u, q)) in (v.0.0.0, v.0.0.1, v.0.1, v.1)
