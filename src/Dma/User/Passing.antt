-- ===== src/Dma/User/Passing.antt =====
-- userDemoBase.c: the coherent test of the program over the operations of the driver.
use learn_linux_drv.Prelude.{ℕ, ◌≡◌, ◌∙◌, refl, true, none, some, arith, length}
use learn_linux_drv.Kernel.{IsUserCopy}
use learn_linux_drv.Kernel.Memory.{filled, length-filled}
use learn_linux_drv.Dma.{coherent, Resource, acquire, release, Buffer, Answers, State}
use learn_linux_drv.Dma.Coherent.{alloc_coherent_dev, write_coherent, free_coherent_dev}
use learn_linux_drv.Dma.Ioctl.{write_coherents}
use learn_linux_drv.Dma.Accounts.{is_self}
use learn_linux_drv.Dma.User.{
  coherent_buf_size, Process, zeroed, calls, pattern, Tested, compare, goes_on, with_block,
  read_back, write_out, test_coherent_dma,
}
use learn_linux_drv.Dma.User.Calls.{
  transfer, written, compare_lem, write-call, write_lem, read-call, alloc-call,
}

-- After the write, a read gives the bytes back, and the program frees the buffer.
write_out_lem :
    (p : Process) (a : Answers) (st : State) (b : Buffer) (w r : ℕ)
    → IsUserCopy p.copy
    → st.dd.coherent_size ≡ coherent_buf_size
    → st.dd.coherent_buf ≡ some b
    → length b.bytes ≡ coherent_buf_size
    → p.write_buf ≡ some w
    → p.read_buf ≡ some r
    → (p.copy.from_user w coherent_buf_size).1 ≡ 0
    → p.copy.user_mem w coherent_buf_size ≡ pattern 0 coherent_buf_size
    → p.copy.to_user r (pattern 0 coherent_buf_size) ≡ 0
    → write_out p a st ≡ record {
      succeeded = true;
      passed = some true;
      st =
          (free_coherent_dev
            (record st { dd = record (st.dd) { coherent_buf = some (written p st b w) } })).1;
    }
unfolding write_out read_back goes_on with_block
write_out_lem p a st b w r law full e long hw hr from is_pattern to =
    ground (arith, hw, (write-call p a st b full e w from).0, read)
  where
    st' : State
    st' = (write_coherent (transfer p w) st).st

    compared : compare p a (pattern 0 coherent_buf_size) st' ≡ record {
      succeeded = true;
      passed = some true;
      st =
          (free_coherent_dev
            (record st { dd = record (st.dd) { coherent_buf = some (written p st b w) } })).1;
    }
    compared = rw (write_lem p a st b full e w) (compare_lem p a _ (written p st b w) refl)

    read :
        read_back p a
          (calls p a write_coherents
            (record zeroed { size = coherent_buf_size; user_addr = w })
            st).st
        ≡ record {
          succeeded = true;
          passed = some true;
          st =
              (free_coherent_dev
                (record st { dd = record (st.dd) { coherent_buf = some (written p st b w) } })).1;
        }
    read = rw ((write-call p a st b full e w from).1) (
        let (got, kept, out) = read-call p a st b full e w r law long from is_pattern to in
        ground (arith, hr, got, kept, out, compared))

-- How the coherent test ends where everything is granted.
unfoldable pub coherent_ended : Process → State → (addr dma w : ℕ) → Tested
coherent_ended p st addr dma w =
    let b : Buffer = record { addr = addr; bytes = filled 0xaa coherent_buf_size } in
    let st1 : State = record st {
      dd = record (st.dd) {
        coherent_buf = some b;
        coherent_dma = dma;
        coherent_size = coherent_buf_size;
      };
      held = acquire (coherent coherent_buf_size addr dma) st.held;
    } in
    record {
      succeeded = true;
      passed = some true;
      st =
          (free_coherent_dev
            (record st1 { dd = record (st1.dd) { coherent_buf = some (written p st1 b w) } })).1;
    }

pub test_coherent_dma-ended :
    (p : Process) (a : Answers) (st : State) (addr dma w r : ℕ)
    → IsUserCopy p.copy
    → st.dd.coherent_buf ≡ none
    → a.alloc_coherent ≡ some (addr, dma)
    → p.write_buf ≡ some w
    → p.read_buf ≡ some r
    → (p.copy.from_user w coherent_buf_size).1 ≡ 0
    → p.copy.user_mem w coherent_buf_size ≡ pattern 0 coherent_buf_size
    → p.copy.to_user r (pattern 0 coherent_buf_size) ≡ 0
    → test_coherent_dma p a st ≡ coherent_ended p st addr dma w
unfolding coherent_ended
test_coherent_dma-ended p a st addr dma w r law empty granted hw hr from is_pattern to = tested
  where
    b : Buffer
    b = record { addr = addr; bytes = filled 0xaa coherent_buf_size }

    st1 : State
    st1 = record st {
      dd = record (st.dd) {
        coherent_buf = some b;
        coherent_dma = dma;
        coherent_size = coherent_buf_size;
      };
      held = acquire (coherent coherent_buf_size addr dma) st.held;
    }

    is_st1 : (alloc_coherent_dev a coherent_buf_size st).1 ≡ st1
    is_st1 = unfold alloc_coherent_dev in ground (arith, empty, granted)

    tested : test_coherent_dma p a st ≡ coherent_ended p st addr dma w
    tested =
        let (got, st') = alloc-call p a st addr dma empty granted in
        unfold test_coherent_dma goes_on with_block in
        ground (
          arith,
          got,
          st' ∙ is_st1,
          write_out_lem p a st1 b w r law refl refl (length-filled 0xaa coherent_buf_size) hw hr
              from is_pattern to,
        )

-- The composition of the program with the driver: on a device without a coherent buffer, where the
-- kernel grants one, the program's two `malloc`s succeed, its memory holds the bytes that it stored in
-- the first block, and both copies are complete and keep their contract, `test_coherent_dma` returns 0
-- and prints that the data are right, and the device then has no coherent buffer, holds what it held
-- before, and nothing was given back that was not held.
pub coherent_test_passes :
    (p : Process) (a : Answers) (st : State) (addr dma w r : ℕ)
    → IsUserCopy p.copy
    → st.dd.coherent_buf ≡ none
    → a.alloc_coherent ≡ some (addr, dma)
    → p.write_buf ≡ some w
    → p.read_buf ≡ some r
    → (p.copy.from_user w coherent_buf_size).1 ≡ 0
    → p.copy.user_mem w coherent_buf_size ≡ pattern 0 coherent_buf_size
    → p.copy.to_user r (pattern 0 coherent_buf_size) ≡ 0
    → let t = test_coherent_dma p a st in
      (t.succeeded ≡ true)
      × (t.passed ≡ some true)
      × (t.st.dd.coherent_buf ≡ none)
      × ((x : Resource) → t.st.held.count x ≡ st.held.count x)
      × (t.st.held.fault ≡ st.held.fault)
unfolding coherent_ended free_coherent_dev acquire release written
coherent_test_passes p a st addr dma w r law empty granted hw hr from is_pattern to =
    rw (test_coherent_dma-ended p a st addr dma w r law empty granted hw hr from is_pattern to) (
      refl,
      refl,
      refl,
      (λ x. omega arith),
      ground (arith, is_self (coherent coherent_buf_size addr dma)),
    )
