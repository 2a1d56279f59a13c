-- ===== src/GlobalFifo/Clients/Aior.antt =====
-- ch9/aior.c, a program that reads a file by asynchronous I/O: what it holds on each path through its
-- labels. The C library's and the kernel's answers are arguments.
use learn_linux_drv.Prelude.{
  ℕ, ◌≡◌, ◌≢◌, ◌⊎◌, inl, inr, Bool, true, false, Option, none, some, arith, ◌==◌, if◌then◌else◌,
}
use learn_linux_drv.Prelude.Int.{ℤ, pos, negsuc, ltb_ℤ}
use learn_linux_drv.Kernel.{Errno}

-- Whether there is an argument, and the answers of `open`, `posix_memalign`, `io_setup`, `io_submit`,
-- `io_getevents` with its `res2`, and of the calls of `io_destroy` behind a success and at `err3`.
pub record Answers : Type 0 where
  pub has_argument : Bool
  pub opens : Bool
  pub posix_memalign : ℤ
  pub io_setup : Option Errno
  pub io_submit : Errno ⊎ ℕ
  pub io_getevents : Errno ⊎ ℕ
  pub res2 : ℕ
  pub io_destroy : Option Errno
  pub io_destroy_err3 : Option Errno

-- `buf` is set by `posix_memalign`, if that succeeds.
pub data Buffer : Type 0 where
  unset allocated freed : Buffer

-- `fd` before `open` succeeds, then, and behind `close`.
pub data File : Type 0 where
  unopened opened closed : File

-- What the program holds, whether it printed the reply, its status, and whether it used or freed `buf`
-- while that was no block, closed a file that was not open, or destroyed a context that there was not.
pub record Run : Type 0 where
  pub fd : File
  pub buf : Buffer
  pub ctx : Bool
  pub printed : Bool
  pub fault : Bool
  pub status : ℤ

abbrev pub is_allocated : Buffer → Bool
is_allocated allocated = true
is_allocated _ = false

abbrev pub use_buf : Run → Run
use_buf r = if is_allocated r.buf then r else record r { fault = true }

abbrev pub free_buf : Run → Run
free_buf r = if is_allocated r.buf then record r { buf = freed } else record r { fault = true }

abbrev pub is_opened : File → Bool
is_opened opened = true
is_opened _ = false

abbrev pub close_fd : Run → Run
close_fd r = if is_opened r.fd then record r { fd = closed } else record r { fault = true }

-- `printf("%s\n", buf)`.
abbrev pub print_reply : Run → Run
print_reply r = record (use_buf r) { printed = true }

-- `io_destroy`, by its answer.
abbrev pub destroy : Option Errno → Run → Run
destroy none r = if r.ctx then record r { ctx = false } else record r { fault = true }
destroy (some e) r = if r.ctx then r else record r { fault = true }

-- The labels.
abbrev pub err : Run → Run
err r = record r { status = negsuc 0 }

abbrev pub err1 : Run → Run
err1 r = err (close_fd r)

abbrev pub err2 : Run → Run
err2 r = err1 (free_buf r)

abbrev pub err3 : Answers → Run → Run
err3 a r = err2 (destroy a.io_destroy_err3 r)

-- `ret != 1`.
abbrev pub is_one : Errno ⊎ ℕ → Bool
is_one (inl e) = false
is_one (inr n) = n == 1

-- Behind the `printf` of the reply.
abbrev pub finish : Answers → Run → Run
finish a r = elim a.io_destroy [
  | some e ↦ err2 (destroy (some e) r)
  | none ↦ record (close_fd (free_buf (destroy none r))) { status = pos 0 }
]

abbrev pub get_reply : Answers → Run → Run
get_reply a r =
    if is_one a.io_getevents
    then if a.res2 == 0 then finish a (print_reply r) else err3 a r
    else err3 a r

abbrev pub submit : Answers → Run → Run
submit a r = if is_one a.io_submit then get_reply a r else err3 a r

abbrev pub set_up : Answers → Run → Run
set_up a r = elim a.io_setup [ some e ↦ err2 r | none ↦ submit a (record r { ctx = true }) ]

-- `posix_memalign` sets `buf` where it returns 0; `memset` behind the test uses it.
abbrev pub allocate : Answers → Run → Run
allocate a r =
    if ltb_ℤ a.posix_memalign (pos 0)
    then err1 r
    else set_up a (
        use_buf (elim a.posix_memalign [
          | pos n ↦ if n == 0 then record r { buf = allocated } else r
          | negsuc n ↦ r
        ]))

abbrev begin : Run
begin = record {
  fd = unopened;
  buf = unset;
  ctx = false;
  printed = false;
  fault = false;
  status = pos 0;
}

unfoldable pub aior : Answers → Run
aior a =
    if a.has_argument
    then if a.opens then allocate a (record begin { fd = opened }) else err begin
    else record begin { status = pos 1 }

-- `posix_memalign` tells of a failure by a positive number, and the program looks for a negative one:
-- where it fails, the program goes on with a pointer that was never set.
pub aior_misses_failure :
    (a : Answers) (n : ℕ)
    → a.has_argument ≡ true
    → a.opens ≡ true
    → a.posix_memalign ≡ pos n
    → n ≢ 0
    → (aior a).fault ≡ true
unfolding aior
aior_misses_failure a n g o h ne = ground (arith, g, o, h, ne)
