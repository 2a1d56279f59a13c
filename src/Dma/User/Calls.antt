-- ===== src/Dma/User/Calls.antt =====
-- userDemoBase.c: what the calls of the coherent test do on the driver.
use learn_linux_drv.Prelude.{
  ℕ, zero, suc, ◌+◌, ◌≡◌, ◌∙◌, refl, sym, ap, true, List, [], ◌∷◌, append-nil, none, some, arith,
  length, drop, min, overwrite,
}
use learn_linux_drv.Kernel.{ok, IsUserCopy}
use learn_linux_drv.Kernel.Memory.{filled, length-filled}
use learn_linux_drv.Dma.{Buffer, Answers, State}
use learn_linux_drv.Dma.Coherent.{
  UserSide, alloc_coherent_dev, write_coherent, read_coherent, free_coherent_dev,
}
use learn_linux_drv.Dma.Ioctl.{
  alloc_coherent, free_coherent, read_coherents, write_coherents, run, with_param, answering,
}
use learn_linux_drv.Dma.Commands.{ioctl-number}
use learn_linux_drv.Dma.Transfers.{read-write_coherent}
use learn_linux_drv.Dma.User.{
  coherent_buf_size, Process, zeroed, calls, pattern, same, compare, goes_on, with_block,
}

pub length-pattern : (i n : ℕ) → length (pattern i n) ≡ n
unfolding pattern
length-pattern i zero = refl
length-pattern i (suc n) = omega (arith, length-pattern (i + 1) n)

pub same_self : (xs : List ℕ) → same xs xs ≡ true
unfolding same
same_self [] = refl
same_self (x ∷ xs) = ground (arith, same_self xs)

pub drop_whole : (n : ℕ) (xs : List ℕ) → length xs ≡ n → drop n xs ≡ []
drop_whole zero [] e = refl
drop_whole zero (x ∷ xs) e = ground (arith, e)
drop_whole (suc n) [] e = refl
drop_whole (suc n) (x ∷ xs) e = drop_whole n xs (omega (arith, e))

pub overwrite_whole : (xs ys : List ℕ) → length xs ≡ length ys → overwrite xs 0 ys ≡ ys
overwrite_whole xs ys e = rw (drop_whole (0 + length ys) xs (omega (arith, e))) (append-nil ys)

-- The four calls.
module _ (p : Process) (a : Answers) (st : State) where
  pub alloc-call :
      (addr dma : ℕ)
      → st.dd.coherent_buf ≡ none
      → a.alloc_coherent ≡ some (addr, dma)
      → let r = calls p a alloc_coherent (record zeroed { size = coherent_buf_size }) st in
        (r.ret ≡ ok 0) × (r.st ≡ (alloc_coherent_dev a coherent_buf_size st).1)
  unfolding run with_param answering alloc_coherent_dev
  alloc-call addr dma e e' = rw (ioctl-number a _ p.junk alloc_coherent st) (ground (arith, e, e'))

  pub free-call :
      (b : Buffer)
      → st.dd.coherent_buf ≡ some b
      → let r = calls p a free_coherent zeroed st in
        (r.ret ≡ ok 0) × (r.st ≡ (free_coherent_dev st).1)
  unfolding run free_coherent_dev
  free-call b e = rw (ioctl-number a _ p.junk free_coherent st) (ground (arith, e))

  -- The program compares what it read with what it wrote, and gives the buffer back.
  pub compare_lem :
      (b : Buffer)
      → st.dd.coherent_buf ≡ some b
      → compare p a (pattern 0 coherent_buf_size) st
        ≡ record { succeeded = true; passed = some true; st = (free_coherent_dev st).1 }
  unfolding compare goes_on with_block
  compare_lem b e = let (freed, st') = free-call b e in rw (compare, freed, st', alike) refl
    where
      alike :
          same
            (pattern 0 coherent_buf_size)
            (overwrite (filled 0 coherent_buf_size) 0 (pattern 0 coherent_buf_size))
          ≡ true
      alike =
          rw
            (overwrite_whole (filled 0 coherent_buf_size) (pattern 0 coherent_buf_size)
              (length-filled 0 coherent_buf_size ∙ sym (length-pattern 0 coherent_buf_size)))
            (same_self (pattern 0 coherent_buf_size))

-- A call that transfers bytes between the coherent buffer and the program's buffer at `addr`.
abbrev pub transfer : Process → (addr : ℕ) → UserSide
transfer p addr = record {
  param = some (record zeroed { size = coherent_buf_size; user_addr = addr });
  writes_back = λ q. true;
  copy = p.copy;
}

-- The buffer with the program's bytes.
unfoldable pub written : Process → State → Buffer → (w : ℕ) → Buffer
written p st b w = record b {
  bytes = overwrite b.bytes 0 (p.copy.from_user w (min coherent_buf_size st.dd.coherent_size)).0;
}

module _ (p : Process) (a : Answers) (st : State) (b : Buffer)
    (full : st.dd.coherent_size ≡ coherent_buf_size) (e : st.dd.coherent_buf ≡ some b) where
  -- A complete write succeeds, and the buffer is still there.
  pub write-call :
      (w : ℕ)
      → (p.copy.from_user w coherent_buf_size).1 ≡ 0
      → let r =
          calls p a write_coherents
            (record zeroed { size = coherent_buf_size; user_addr = w })
            st in
        (r.ret ≡ ok 0) × (r.st ≡ (write_coherent (transfer p w) st).st)
  unfolding run write_coherent
  write-call w done =
      rw (ioctl-number a _ p.junk write_coherents st) (ground (arith, e, full, done))

  pub write_lem :
      (w : ℕ)
      → (write_coherent (transfer p w) st).st
        ≡ record st { dd = record (st.dd) { coherent_buf = some (written p st b w) } }
  unfolding write_coherent written
  write_lem w = rw (e, write_coherent) (ground arith)

  -- A read behind it hands out the bytes that were written.
  pub read-call :
      (w r : ℕ)
      → IsUserCopy p.copy
      → length b.bytes ≡ coherent_buf_size
      → (p.copy.from_user w coherent_buf_size).1 ≡ 0
      → p.copy.user_mem w coherent_buf_size ≡ pattern 0 coherent_buf_size
      → p.copy.to_user r (pattern 0 coherent_buf_size) ≡ 0
      → let st' = (write_coherent (transfer p w) st).st in
        let reply =
          calls p a read_coherents
            (record zeroed { size = coherent_buf_size; user_addr = r })
            st' in
        (reply.ret ≡ ok 0) × (reply.st ≡ st') × (reply.data_out ≡ pattern 0 coherent_buf_size)
  unfolding run
  read-call w r law long from is_pattern to = rw (ioctl-number a _ p.junk read_coherents _) (
    ap (λ x. x.ret) same_bytes,
    ap (λ x. x.st) same_bytes,
    ap (λ x. x.data_out) same_bytes ∙ is_pattern,
  )
    where
      same_bytes : read_coherent (transfer p r) (write_coherent (transfer p w) st).st ≡ record {
        ret = ok 0;
        st = (write_coherent (transfer p w) st).st;
        param = some (record zeroed { size = coherent_buf_size; user_addr = r });
        data_out = p.copy.user_mem w coherent_buf_size;
      }
      same_bytes =
          read-write_coherent (transfer p w) (transfer p r) st b _ _ law e (long ∙ sym full) refl
            refl refl coherent_buf_size (omega (arith, full)) from (rw is_pattern to) refl
