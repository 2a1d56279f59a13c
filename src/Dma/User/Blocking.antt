-- ===== src/Dma/User/Blocking.antt =====
-- userDemoBase.c: the coherent test where it gives up.
use learn_linux_drv.Prelude.{◌≡◌, ◌∙◌, ℕ, refl, false, none, some, arith}
use learn_linux_drv.Kernel.{err, ebusy}
use learn_linux_drv.Dma.{coherent, acquire, Buffer, Answers, State}
use learn_linux_drv.Kernel.Memory.{filled}
use learn_linux_drv.Dma.Coherent.{alloc_coherent_dev}
use learn_linux_drv.Dma.Ioctl.{alloc_coherent, run, with_param, answering}
use learn_linux_drv.Dma.Commands.{ioctl-number}
use learn_linux_drv.Dma.User.{
  coherent_buf_size, Process, zeroed, calls, goes_on, with_block, write_out, test_coherent_dma,
}
use learn_linux_drv.Dma.User.Calls.{alloc-call}

-- On a device that has a coherent buffer, the test gives up and changes nothing.
busy-call :
    (p : Process) (a : Answers) (st : State) (b : Buffer)
    → st.dd.coherent_buf ≡ some b
    → let r = calls p a alloc_coherent (record zeroed { size = coherent_buf_size }) st in
      (r.ret ≡ err ebusy) × (r.st ≡ st)
unfolding run with_param answering alloc_coherent_dev
busy-call p a st b e = rw (ioctl-number a _ p.junk alloc_coherent st) (ground (arith, e))

busy_test :
    (p : Process) (a : Answers) (st : State) (b : Buffer)
    → st.dd.coherent_buf ≡ some b
    → test_coherent_dma p a st ≡ record { succeeded = false; passed = none; st = st }
unfolding test_coherent_dma goes_on with_block
busy_test p a st b e =
    let (failed, same_st) = busy-call p a st b e in ground (arith, failed, same_st)

-- On a device without a coherent buffer, where the kernel grants one and the program's first `malloc`
-- fails, `test_coherent_dma` gives up with the buffer allocated, and every later run of it on that
-- device, by whatever process and whatever the kernel does, gives up too and changes nothing.
pub coherent_test_blocks :
    (p q : Process) (a later : Answers) (st : State) (addr dma : ℕ)
    → st.dd.coherent_buf ≡ none
    → a.alloc_coherent ≡ some (addr, dma)
    → p.write_buf ≡ none
    → let t = test_coherent_dma p a st in
      (t.succeeded ≡ false)
      × (test_coherent_dma q later t.st ≡ record { succeeded = false; passed = none; st = t.st })
unfolding alloc_coherent_dev
coherent_test_blocks p q a later st addr dma empty granted no_buf =
    rw gave_up (refl, busy_test q later _ _ refl)
  where
    st1 : State
    st1 = record st {
      dd = record (st.dd) {
        coherent_buf = some (record { addr = addr; bytes = filled 0xaa coherent_buf_size });
        coherent_dma = dma;
        coherent_size = coherent_buf_size;
      };
      held = acquire (coherent coherent_buf_size addr dma) st.held;
    }

    is_st1 : (alloc_coherent_dev a coherent_buf_size st).1 ≡ st1
    is_st1 = ground (arith, empty, granted)

    gave_up : test_coherent_dma p a st ≡ record { succeeded = false; passed = none; st = st1 }
    gave_up =
        let (got, st') = alloc-call p a st addr dma empty granted in
        unfold test_coherent_dma write_out goes_on with_block in
        ground (arith, got, st' ∙ is_st1, no_buf)
