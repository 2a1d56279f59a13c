-- ===== src/Dma/User/GiveBack.antt =====
-- userDemoBase.c: what a test that returns 0 leaves on the device.
use learn_linux_drv.Prelude.{
  ℕ, ◌≡◌, ◌∙◌, ap, refl, Bool, true, false, Option, none, some, arith, List,
}
use learn_linux_drv.Kernel.{enomem, Ret, ok, err}
use learn_linux_drv.Dma
use learn_linux_drv.Dma.{acquire, Answers, State}
use learn_linux_drv.Dma.Coherent.{Param, plain, free_coherent_dev}
use learn_linux_drv.Dma.Single.{unmap_single_dev}
use learn_linux_drv.Dma.Sg.{unmap_sg_dev}
use learn_linux_drv.Dma.Pool.{pool_create_dev, pool_alloc_dev, pool_destroy_dev}
use learn_linux_drv.Dma.Ioctl.{
  free_coherent, unmap_single, unmap_sg, pool_create, pool_alloc, pool_destroy, run, answering,
}
use learn_linux_drv.Dma.Commands.{ioctl-number}
use learn_linux_drv.Dma.User.{
  Process, zeroed, calls, goes_on, with_block, Tested, compare, read_back, write_out,
  test_coherent_dma,
}
use learn_linux_drv.Dma.User.Streams.{
  on_ok, either, Ended, ends, test_single_mapping, test_scatter_gather, test_dma_pool,
}

-- The tests that take something from the driver.
pub data Test : Type 0 where
  coherent_dma : Test
  single_mapping : (malloc : Bool) → Test
  scatter_gather : Test
  dma_pool_test : Test

unfoldable pub run_test : Test → Process → Answers → State → Ended
run_test coherent_dma p a st =
    let t : Tested = test_coherent_dma p a st in record { succeeded = t.succeeded; st = t.st }
run_test (single_mapping malloc) p a st = test_single_mapping p a malloc st
run_test scatter_gather p a st = test_scatter_gather p a st
run_test dma_pool_test p a st = test_dma_pool p a st

-- Nothing of what the test takes is left.
abbrev pub Gone : Test → State → Type 0
Gone coherent_dma st = st.dd.coherent_buf ≡ none
Gone (single_mapping malloc) st = (st.dd.single_mapped ≡ false) × (st.dd.single_buf ≡ none)
Gone scatter_gather st = (st.dd.sg_mapped ≡ false) × (st.dd.sg_pages ≡ none)
Gone dma_pool_test st = (st.dd.dma_pool ≡ none) × (st.dd.pool_buf ≡ none)

-- Where a test goes on, what holds of the rest holds of the whole.
on_ok-P :
    (P : State → Type 0) (ret : Ret) (st : State) (rest : Ended)
    → (rest.succeeded ≡ true → P rest.st)
    → (on_ok ret st rest).succeeded ≡ true
    → P (on_ok ret st rest).st
unfolding on_ok
on_ok-P P (ok n) st rest f h = f h
on_ok-P P (err e) st rest f h = absurd (ground (arith, h))

either-P :
    (P : State → Type 0) (ret : Ret) (e e' : Ended)
    → (e.succeeded ≡ true → P e.st)
    → (e'.succeeded ≡ true → P e'.st)
    → (either ret e e').succeeded ≡ true
    → P (either ret e e').st
unfolding either
either-P P (ok n) e e' f f' h = f' h
either-P P (err x) e e' f f' h = f h

goes_on-P :
    (P : State → Type 0) (ret : Ret) (passed : Option Bool) (st : State) (rest : Tested)
    → ((n : ℕ) → ret ≡ ok n → rest.succeeded ≡ true → P rest.st)
    → (goes_on ret passed st rest).succeeded ≡ true
    → P (goes_on ret passed st rest).st
unfolding goes_on
goes_on-P P (ok n) passed st rest f h = f n refl h
goes_on-P P (err e) passed st rest f h = absurd (ground (arith, h))

with_block-P :
    (P : State → Type 0) (malloc : Option ℕ) (st : State) (f : ℕ → Tested)
    → ((addr : ℕ) → (f addr).succeeded ≡ true → P (f addr).st)
    → (with_block malloc st f).succeeded ≡ true
    → P (with_block malloc st f).st
unfolding with_block
with_block-P P none st f g h = absurd (ground (arith, h))
with_block-P P (some addr) st f g h = g addr h

module _ (p : Process) (a : Answers) where
  last_coherent :
      (st : State) (n : ℕ)
      → (calls p a free_coherent zeroed st).ret ≡ ok n
      → (calls p a free_coherent zeroed st).st.dd.coherent_buf ≡ none
  unfolding run free_coherent_dev
  last_coherent st n = rw (ioctl-number a _ p.junk free_coherent st) (λ h. ground (arith, h))

  last_single :
      (q : Param) (st : State)
      → (ends (calls p a unmap_single q st)).succeeded ≡ true
      → Gone (single_mapping true) (ends (calls p a unmap_single q st)).st
  unfolding run unmap_single_dev on_ok
  last_single q st =
      rw (ioctl-number a _ p.junk unmap_single st) (λ h. (ground (arith, h), ground (arith, h)))

  last_sg :
      (q : Param) (st : State)
      → (ends (calls p a unmap_sg q st)).succeeded ≡ true
      → Gone scatter_gather (ends (calls p a unmap_sg q st)).st
  unfolding run unmap_sg_dev on_ok
  last_sg q st =
      rw (ioctl-number a _ p.junk unmap_sg st) (λ h. (ground (arith, h), ground (arith, h)))

  last_pool :
      (q : Param) (st : State)
      → (ends (calls p a pool_destroy q st)).succeeded ≡ true
      → Gone dma_pool_test (ends (calls p a pool_destroy q st)).st
  unfolding run pool_destroy_dev on_ok
  last_pool q st =
      rw (ioctl-number a _ p.junk pool_destroy st) (λ h. (ground (arith, h), ground (arith, h)))

  single-Gone :
      (malloc : Bool) (st : State)
      → (test_single_mapping p a malloc st).succeeded ≡ true
      → Gone (single_mapping malloc) (test_single_mapping p a malloc st).st
  unfolding test_single_mapping
  single-Gone true st = on_ok-P (Gone (single_mapping true)) _ _ _ (last_single _ _)
  single-Gone false st =
      on_ok-P (Gone (single_mapping false)) _ _ _ (λ h. absurd (ground (arith, h)))

  sg-Gone :
      (st : State)
      → (test_scatter_gather p a st).succeeded ≡ true
      → Gone scatter_gather (test_scatter_gather p a st).st
  unfolding test_scatter_gather
  sg-Gone st =
      on_ok-P (Gone scatter_gather) _ _ _
        (on_ok-P (Gone scatter_gather) _ _ _ (on_ok-P (Gone scatter_gather) _ _ _ (last_sg _ _)))

  pool-Gone :
      (st : State)
      → (test_dma_pool p a st).succeeded ≡ true
      → Gone dma_pool_test (test_dma_pool p a st).st
  unfolding test_dma_pool
  pool-Gone st =
      on_ok-P (Gone dma_pool_test) _ _ _
        (either-P (Gone dma_pool_test) _ _ _ (last_pool _ _) (last_pool _ _))

  -- The same of the parts of the coherent test.
  compare-Gone :
      (out : List ℕ) (st : State)
      → (compare p a out st).succeeded ≡ true
      → Gone coherent_dma (compare p a out st).st
  unfolding compare
  compare-Gone out st = goes_on-P (Gone coherent_dma) _ _ _ _ (λ n e h. last_coherent st n e)

  read-Gone :
      (st : State) → (read_back p a st).succeeded ≡ true → Gone coherent_dma (read_back p a st).st
  unfolding read_back
  read-Gone st =
      with_block-P (Gone coherent_dma) p.read_buf st _
        (λ r. goes_on-P (Gone coherent_dma) _ _ _ _ (λ n e. compare-Gone _ _))

  write-Gone :
      (st : State) → (write_out p a st).succeeded ≡ true → Gone coherent_dma (write_out p a st).st
  unfolding write_out
  write-Gone st =
      with_block-P (Gone coherent_dma) p.write_buf st _
        (λ r. goes_on-P (Gone coherent_dma) _ _ _ _ (λ n e. read-Gone _))

  coherent-Gone :
      (st : State)
      → (test_coherent_dma p a st).succeeded ≡ true
      → Gone coherent_dma (test_coherent_dma p a st).st
  unfolding test_coherent_dma
  coherent-Gone st = goes_on-P (Gone coherent_dma) _ _ _ _ (λ n e. write-Gone _)

-- Whichever of the four tests it is, whatever the kernel and the process's memory do, and whatever the
-- device held before: where the test returns 0, nothing of the kind that it takes is allocated or
-- mapped on the device.
pub tests_give_back :
    (t : Test) (p : Process) (a : Answers) (st : State)
    → (run_test t p a st).succeeded ≡ true
    → Gone t (run_test t p a st).st
unfolding run_test
tests_give_back coherent_dma p a st = coherent-Gone p a st
tests_give_back (single_mapping malloc) p a st = single-Gone p a malloc st
tests_give_back scatter_gather p a st = sg-Gone p a st
tests_give_back dma_pool_test p a st = pool-Gone p a st

-- Where the kernel makes a pool but gives no memory from it, on a device without a pool,
-- `test_dma_pool` destroys the pool and returns 0, so that the program calls the test passed.
pub pool_test_hides_failure :
    (p : Process) (a : Answers) (st : State) (pool : ℕ)
    → st.dd.dma_pool ≡ none
    → st.dd.pool_buf ≡ none
    → a.pool_create ≡ some pool
    → a.pool_alloc ≡ none
    → (test_dma_pool p a st).succeeded ≡ true
unfolding run answering pool_create_dev pool_alloc_dev pool_destroy_dev on_ok
pool_test_hides_failure p a st pool no_pool no_block created no_memory =
    unfold test_dma_pool either on_ok in rw (c1, c2 zeroed, c3 zeroed) refl
  where
    st1 : State
    st1 = record st {
      dd = record (st.dd) { dma_pool = some pool };
      held = acquire (Dma.pool pool) st.held;
    }

    c1 : calls p a pool_create zeroed st ≡ plain (ok 0, st1)
    c1 = ioctl-number a _ p.junk pool_create st ∙ ground (arith, no_pool, created)

    c2 : (q : Param) → calls p a pool_alloc q st1 ≡ plain (err enomem, st1)
    c2 q = ioctl-number a _ p.junk pool_alloc st1 ∙ ground (arith, no_block, no_memory)

    c3 : (q : Param) → (calls p a pool_destroy q st1).ret ≡ ok 0
    c3 q = ap (λ r. r.ret) (ioctl-number a _ p.junk pool_destroy st1) ∙ ground (arith, no_block)
