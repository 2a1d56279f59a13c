-- ===== src/Demo/Program.antt =====
-- 00.mDemo/01.base_demo/1.base/userDemoBase.c: the program that tries out the driver of its directory. The
-- streams and `getopt` are the C library's.
use learn_linux_drv.Prelude.{
  ℕ, zero, suc, ◌≤◌, ◌≡◌, refl, ap, List, [], ◌∷◌, ◌++◌, ◌∙◌, arith, length, take, overwrite,
  replicate,
}
use learn_linux_drv.Kernel.{Ret, ok, err, UserCopy}
use learn_linux_drv.Kernel.Memory.{filled}
use learn_linux_drv.Kernel.Text.{c_string}
use learn_linux_drv.Demo.{hello, read, write, Noted}

-- A stream on the device that has just been written to: how many bytes it asks `read` for, and what `fread`
-- stores, where each `read` gives the same bytes.
pub record Streams : Type 0 where
  pub buffer : ℕ
  pub fread : (chunk : List ℕ) (count : ℕ) → List ℕ

-- The bytes of so many reads.
pub again : ℕ → List ℕ → List ℕ
again zero chunk = []
again (suc k) chunk = chunk ++ again k chunk

-- `fread` reads until it has what is asked for, so many times at most, if each read gives a byte. C leaves
-- it open what it does right behind a write; here it writes what is pending and reads.
pub record IsStreams (s : Streams) : Type 0 where
  pub fread_lem :
      (x : ℕ) (xs : List ℕ) (count : ℕ) → s.fread (x ∷ xs) count ≡ take count (again count (x ∷ xs))

abbrev pub ker_info_sz : ℕ
ker_info_sz = 100

abbrev pub user_info : List ℕ
user_info =
    b't' ∷ b'h' ∷ b'i' ∷ b's' ∷ b' ' ∷ b'i' ∷ b's' ∷ b' ' ∷ b'u' ∷ b's' ∷ b'e' ∷ b'r' ∷ b' ' ∷ b'i'
    ∷ b'n' ∷ b'f' ∷ b'o' ∷ []

-- What the driver notes, and the text that is printed.
pub record Tried : Type 0 where
  pub noted : Noted
  pub printed : List ℕ

-- `test_base`, where the device can be opened. The stream has its bytes at `pending`, and those that it
-- reads at `place`. The ioctl of the second device only prints.
unfoldable pub test_base : Streams → UserCopy → (pending place : ℕ) → Tried
test_base s u pending place =
    let (ret, chunk) = read u place s.buffer in
    let got : List ℕ = elim ret [ ok n ↦ s.fread chunk 50 | err e ↦ [] ] in
    record {
      noted = write u pending (length user_info);
      printed = c_string (overwrite (filled 0 ker_info_sz) 0 got);
    }

-- An answer of `getopt`.
pub data Opt : Type 0 where
  base_test other_opt : Opt
  test_case : List ℕ → Opt

-- `main`. `test_cases` does nothing.
unfoldable pub main : Streams → UserCopy → (pending place : ℕ) → List Opt → List Tried
main s u pending place [] = []
main s u pending place (base_test ∷ os) = test_base s u pending place ∷ main s u pending place os
main s u pending place (other_opt ∷ os) = main s u pending place os
main s u pending place (test_case arg ∷ os) = main s u pending place os

-- How often `-b` is given.
pub base_tests : List Opt → ℕ
base_tests [] = 0
base_tests (base_test ∷ os) = suc (base_tests os)
base_tests (other_opt ∷ os) = base_tests os
base_tests (test_case arg ∷ os) = base_tests os

two_reads : take 50 (again 50 hello) ≡ take 50 (hello ++ hello)
unfolding again
two_reads = refl

printed_twice :
    c_string (overwrite (filled 0 ker_info_sz) 0 (take 50 (hello ++ hello)))
    ≡ take 50 (hello ++ hello)
unfolding c_string filled
printed_twice = refl

read_whole :
    (u : UserCopy) (place size : ℕ)
    → length hello ≤ size
    → u.to_user place hello ≡ 0
    → read u place size ≡ (ok 29, hello)
unfolding read
read_whole u place size h e = ground (arith, h, e)

tried :
    (s : Streams) (u : UserCopy) (pending place : ℕ)
    → IsStreams s
    → length hello ≤ s.buffer
    → u.to_user place hello ≡ 0
    → test_base s u pending place
      ≡ record { noted = write u pending 17; printed = take 50 (hello ++ hello) }
unfolding test_base
tried s u pending place law h e =
    let noted : Noted = write u pending 17 in
    let tries : List ℕ → Tried = λ got. record {
      noted = noted;
      printed = c_string (overwrite (filled 0 ker_info_sz) 0 got);
    } in
    ap (λ (r : Ret × List ℕ). tries (elim r.0 [ ok n ↦ s.fread r.1 50 | err e ↦ [] ]))
      (read_whole u place s.buffer h e)
    ∙ ap tries (law.fread_lem _ _ 50 ∙ two_reads)
    ∙ ap (λ (t : List ℕ). record { noted = noted; printed = t }) printed_twice

-- With streams as described, which ask for as many bytes as the driver's text has at least, and where the
-- driver's copies to the process succeed: each `-b` hands the driver 17 bytes, and prints the driver's text
-- twice, the second one cut off at 50 bytes in all: `read` looks at no offset and never says that the file
-- is over.
pub prints_text_twice :
    (s : Streams) (u : UserCopy) (pending place : ℕ) (os : List Opt)
    → IsStreams s
    → length hello ≤ s.buffer
    → u.to_user place hello ≡ 0
    → main s u pending place os
      ≡ replicate
          (base_tests os)
          (record { noted = write u pending 17; printed = take 50 (hello ++ hello) })
unfolding main base_tests
prints_text_twice s u pending place [] law h e = refl
prints_text_twice s u pending place (base_test ∷ os) law h e =
    ap (λ (t : Tried). t ∷ main s u pending place os) (tried s u pending place law h e)
    ∙ ap (◌∷◌ (record { noted = write u pending 17; printed = take 50 (hello ++ hello) }))
        (prints_text_twice s u pending place os law h e)
prints_text_twice s u pending place (other_opt ∷ os) law h e =
    prints_text_twice s u pending place os law h e
prints_text_twice s u pending place (test_case arg ∷ os) law h e =
    prints_text_twice s u pending place os law h e
