-- ===== src/Dma/User.antt =====
-- 00.mDemo/08.dma/1.dma_base/userDemoBase.c: the test of the coherent buffer that the program runs
-- against the driver of the same folder.
pub mod Streams
pub mod GiveBack
pub mod Main
pub mod Program
pub mod Calls
pub mod Passing
pub mod Blocking
mod Tests
use learn_linux_drv.Prelude.{
  ℕ, zero, suc, ◌+◌, ◌*◌, ◌%◌, ◌≡◌, refl, ap, Bool, true, false, ◌&&◌, List, [], ◌∷◌, Option, none,
  some, arith, length, overwrite, ◌==◌, if◌then◌else◌,
}
use learn_linux_drv.Kernel.{Ret, ok, err, UserCopy, IsUserCopy}
use learn_linux_drv.Kernel.Memory.{filled, length-filled}
use learn_linux_drv.Dma.{Answers, State}
use learn_linux_drv.Dma.Coherent.{Param, UserSide, Reply}
use learn_linux_drv.Dma.Ioctl.{
  Command, alloc_coherent, free_coherent, read_coherents, write_coherents, number, ioctl,
}

abbrev pub coherent_buf_size : ℕ
coherent_buf_size = 16 * 1024

-- The program's memory: its two `malloc`s, the kernel's copies from and to it, and what stands in a
-- parameter block on the kernel's stack that is not filled yet.
pub record Process : Type 0 where
  pub write_buf : Option ℕ
  pub read_buf : Option ℕ
  pub copy : UserCopy
  pub junk : Param

-- `memset(&param, 0, sizeof(param))`.
abbrev pub zeroed : Param
zeroed = record {
  size = 0;
  dma_addr = 0;
  user_addr = 0;
  direction = 0;
  count = 0;
  mask_bits = 0;
  result = 0;
}

-- An ioctl of the program. Its parameter block is a variable, which the kernel can read and write.
abbrev pub calls : Process → Answers → Command → Param → State → Reply
calls p a c param st =
    ioctl a (record { param = some param; writes_back = λ q. true; copy = p.copy }) p.junk
      (number c) st

-- The bytes `i & 0xFF`, for `n` indices from `i` on.
pub pattern : (i n : ℕ) → List ℕ
pattern i zero = []
pattern i (suc n) = i % 256 ∷ pattern (i + 1) n

-- `memcmp(...) == 0`, for blocks of the same length.
pub same : List ℕ → List ℕ → Bool
same [] ys = true
same (x ∷ xs) [] = false
same (x ∷ xs) (y ∷ ys) = let rest = same xs ys in x == y && rest

-- Whether the test returns 0, whether it printed that the data are right, and the device.
pub record Tested : Type 0 where
  pub succeeded : Bool
  pub passed : Option Bool
  pub st : State

abbrev pub gives_up : Option Bool → State → Tested
gives_up passed st = record { succeeded = false; passed = passed; st = st }

-- The test gives up where an ioctl fails, and goes on where it succeeds.
pub goes_on : (ret : Ret) → (passed : Option Bool) → State → Tested → Tested
goes_on (ok n) passed st rest = rest
goes_on (err e) passed st rest = gives_up passed st

-- The test gives up where `malloc` fails.
pub with_block : (malloc : Option ℕ) → State → (ℕ → Tested) → Tested
with_block none st f = gives_up none st
with_block (some addr) st f = f addr

-- The last part of `test_coherent_dma`, behind the read.
pub compare : Process → Answers → (out : List ℕ) → State → Tested
compare p a out st =
    let right = same (pattern 0 coherent_buf_size) (overwrite (filled 0 coherent_buf_size) 0 out) in
    let freed : Reply = calls p a free_coherent zeroed st in
    goes_on freed.ret (some right) freed.st
      (record { succeeded = true; passed = some right; st = freed.st })

pub read_back : Process → Answers → State → Tested
read_back p a st = with_block p.read_buf st λ r.
    let reply : Reply =
      calls p a read_coherents (record zeroed { size = coherent_buf_size; user_addr = r }) st in
    goes_on reply.ret none reply.st (compare p a reply.data_out reply.st)

pub write_out : Process → Answers → State → Tested
write_out p a st = with_block p.write_buf st λ w.
    let reply : Reply =
      calls p a write_coherents (record zeroed { size = coherent_buf_size; user_addr = w }) st in
    goes_on reply.ret none reply.st (read_back p a reply.st)

-- `test_coherent_dma`.
pub test_coherent_dma : Process → Answers → State → Tested
test_coherent_dma p a st =
    let reply : Reply = calls p a alloc_coherent (record zeroed { size = coherent_buf_size }) st in
    goes_on reply.ret none reply.st (write_out p a reply.st)
