-- ===== src/Demo/MemoryTests.antt =====
-- The demos with memory, files and texts: the theorems at inputs that meet their hypotheses.
use learn_linux_drv.Prelude.{
  ℕ, ◌+◌, ◌-◌, ◌^◌, ◌≡◌, min, refl, false, List, [], ◌∷◌, ◌++◌, Option, none, some, length, take,
  overwrite, drop, ltb, if◌then◌else◌,
}
use learn_linux_drv.Kernel.{Ret, ok}
use learn_linux_drv.Kernel.Memory.{filled}
use learn_linux_drv.Kernel.Text.{c_string}
use learn_linux_drv.Kernel.Samples.{good_copy, good_copy-IsUserCopy}
use learn_linux_drv.Demo.Fifo.{Copied, FifoApi, IsFifoApi, drain, fifo_demo}
use learn_linux_drv.Demo.Fifo
use learn_linux_drv.Demo.Fifo.Balance.{fifo_demo_returns, fifo_demo_clean}
use learn_linux_drv.Demo.Proc.{Info, m_write, m_show}
use learn_linux_drv.Demo.Proc.Texts.{Terminated, m_show-write}
use learn_linux_drv.Demo.Print.{
  Printf, IsPrintf, stored, Printed, buf_size, small_buf_size, m_print_method, prints_in_bounds,
}

-- A kfifo that keeps its contract.
pub record Bounded : Type 0 where
  pub items : List ℕ
  pub size : ℕ

abbrev oldest : List ℕ → Bounded → Option ℕ × Bounded
oldest [] f = (none, f)
oldest (x ∷ xs) f = (some x, record f { items = xs })

abbrev bounded : FifoApi Bounded
bounded = record {
  items = λ f. f.items;
  size = λ f. f.size;
  reset = λ f. record f { items = [] };
  put_all = λ xs f. (
    min (length xs) (f.size - length f.items),
    record f { items = f.items ++ take (f.size - length f.items) xs },
  );
  get_all = λ n f. (take n f.items, record f { items = drop n f.items });
  put = λ x f. (
    ltb (length f.items) f.size,
    record f { items = if ltb (length f.items) f.size then f.items ++ x ∷ [] else f.items },
  );
  get = λ f. oldest f.items f;
  to_user = λ buf n f. record {
    failed = none;
    copied = min n (length f.items);
    fifo = record f { items = drop n f.items };
  };
  from_user = λ buf n f. record { failed = none; copied = 0; fifo = f };
}

size-oldest : (xs : List ℕ) (f : Bounded) → (oldest xs f).1.size ≡ f.size
size-oldest [] f = refl
size-oldest (x ∷ xs) f = refl

bounded-IsFifoApi : IsFifoApi bounded
bounded-IsFifoApi = record {
  items-reset = λ f. refl;
  size-reset = λ f. refl;
  items-put_all = λ xs f. refl;
  size-put_all = λ xs f. refl;
  items-get_all = λ n f. refl;
  size-get_all = λ n f. refl;
  put_lem = λ x f. refl;
  items-put = λ x f. refl;
  size-put = λ x f. refl;
  get_empty = λ f e. rw e refl;
  get_some = λ f x xs e. rw e (refl, refl);
  size-get = λ f. size-oldest f.items f;
}

abbrev room_for : (n : ℕ) → Bounded
room_for n = record { items = []; size = n }

abbrev idle_demo : Fifo.State Bounded
idle_demo = record { m_fifo = room_for 32; cls_fifo = room_for 2; locked = false; blocks = λ b. 0 }

-- There is room for two of the three nodes.
demo_done :
    (s : Fifo.State Bounded) × (fifo_demo bounded (λ i. some (i + 40)) idle_demo ≡ some (ok 0, s))
unfolding fifo_demo Fifo.nodes_part drain Fifo.put_letters Fifo.acquire Fifo.kfree Fifo.put_nodes
    Fifo.free_nodes Fifo.bytes_part
demo_done = (_, refl)

fifo_demo_clean_example :
    (demo_done.0.m_fifo.items ≡ [])
    × (demo_done.0.cls_fifo.items ≡ [])
    × ((b : ℕ) → demo_done.0.blocks b ≡ 0)
    × (demo_done.0.locked ≡ false)
fifo_demo_clean_example =
    fifo_demo_clean bounded bounded-IsFifoApi (λ i. some (i + 40)) idle_demo demo_done.0 (λ b. refl)
      refl demo_done.1

fifo_demo_returns_example :
    (ret : Ret) × (s : Fifo.State Bounded) × (fifo_demo bounded (λ i. some (i + 40)) idle_demo
      ≡ some (ret, s))
fifo_demo_returns_example =
    fifo_demo_returns bounded bounded-IsFifoApi (λ i. some (i + 40)) idle_demo refl (λ b. refl) refl

abbrev hello_info : Info
hello_info = record { msg = 72 ∷ 105 ∷ filled 0 126; counter = 2 ^ 32 - 1 }

hello_info-Terminated : Terminated hello_info
unfolding filled
hello_info-Terminated = record { full = refl; last_zero = refl }

m_show-write_example :
    (m_show (m_write good_copy 7 3 hello_info).1 ≡ (c_string (filled 7 3), 0))
    × Terminated (m_write good_copy 7 3 hello_info).1
unfolding m_write
m_show-write_example = m_show-write good_copy-IsUserCopy 7 3 hello_info hello_info-Terminated refl

-- The texts as the documentation of the kernel says that they are stored, for a size that is not 0.
abbrev plain_printf : Printf
plain_printf = record {
  snprintf =
      λ block offset size text. (length text, overwrite block offset (stored size text ++ 0 ∷ []));
  scnprintf = λ block offset size text.
      (length (stored size text), overwrite block offset (stored size text ++ 0 ∷ []));
}

plain_printf-IsPrintf : IsPrintf plain_printf
plain_printf-IsPrintf = record {
  snprintf_lem = λ block offset size text pos. refl;
  scnprintf_lem = λ block offset size text pos. refl;
}

-- The second text is cut off, and there is no room for the third one.
abbrev printed : Printed
printed =
    m_print_method plain_printf (filled 7 30) (filled 1 100) (filled 2 40) (filled 3 10)
      (filled 9 16) (filled 0 128) (filled 0 10)

buf-full : length (filled 0 128) ≡ buf_size
unfolding filled
buf-full = refl

small_buf-full : length (filled 0 10) ≡ small_buf_size
unfolding filled
small_buf-full = refl

prints_in_bounds_example :
    (take printed.len2 printed.buf ≡ take 127 (filled 1 100 ++ filled 2 40 ++ filled 3 10))
    × (printed.len2 ≡ length (take 127 (filled 1 100 ++ filled 2 40 ++ filled 3 10)))
    × (length printed.buf ≡ buf_size)
    × (printed.len3 ≡ length (filled 9 16))
    × (length printed.small_buf ≡ small_buf_size)
prints_in_bounds_example =
    prints_in_bounds plain_printf (filled 7 30) (filled 1 100) (filled 2 40) (filled 3 10)
      (filled 9 16) (filled 0 128) (filled 0 10) plain_printf-IsPrintf buf-full small_buf-full
