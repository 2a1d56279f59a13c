-- ===== src/Demo/Sysfs.antt =====
-- 00.mDemo/03.file_sysfs/2.sysfs/kDemo.c: a sysfs file over a buffer of 100 bytes.
pub mod Setup
use learn_linux_drv.Prelude.{
  ℕ, ◌+◌, ◌≤◌, ◌<◌, ◌≡◌, ◌↔◌, ap, List, [], ◌∷◌, ◌++◌, arith, length, overwrite, length-append,
  refl,
}
use learn_linux_drv.Kernel.{Ret, ok}
use learn_linux_drv.Kernel.Text.{c_string, NoZero, c_string-append, c_string-NoZero}

abbrev pub buffer_size : ℕ
buffer_size = 100

-- What `m_store` leaves: its return value, the buffer, and how many bytes it wrote to it.
pub record Stored : Type 0 where
  pub ret : Ret
  pub buffer : List ℕ
  pub written : ℕ

-- `m_show`: the return value and the text, where `kmalloc` has given the buffer.
unfoldable pub show : (buffer : List ℕ) → Ret × List ℕ
show buffer = let text = c_string buffer ++ 10 ∷ [] in (ok (length text), text)

-- `m_store`: `sprintf(m_internal_buffer, "%s\n", buf)`, which looks at no size.
unfoldable pub store : (buf : List ℕ) (count : ℕ) (buffer : List ℕ) → Stored
store buf count buffer =
    let text = c_string buf ++ 10 ∷ 0 ∷ [] in
    record { ret = ok count; buffer = overwrite buffer 0 text; written = length text }

-- `m_store` of a text without a zero writes past its buffer of 100 bytes exactly if the text has 99
-- bytes or more.
pub store_overruns :
    (text rest : List ℕ) (count : ℕ) (buffer : List ℕ)
    → NoZero text
    → buffer_size < (store (text ++ 0 ∷ rest) count buffer).written ↔ 99 ≤ length text
unfolding store
store_overruns text rest count buffer h =
    rw (c_string-append text rest, c_string-NoZero text h, length-append text (10 ∷ 0 ∷ []))
      (ground arith)

c_string_line :
    (text rest : List ℕ) → NoZero text → c_string ((text ++ 10 ∷ 0 ∷ []) ++ rest) ≡ text ++ 10 ∷ []
unfolding c_string
c_string_line [] rest h = refl
c_string_line (x ∷ text) rest h = ground (arith, h.0, c_string_line text rest h.1)

two_ends : (text : List ℕ) → (text ++ 10 ∷ []) ++ 10 ∷ [] ≡ text ++ 10 ∷ 10 ∷ []
two_ends [] = refl
two_ends (x ∷ text) = ap (◌∷◌ x) (two_ends text)

-- A text without a zero of at most 98 bytes that is stored is shown again, with two line ends behind
-- it.
pub show-store :
    (text rest : List ℕ) (count : ℕ) (buffer : List ℕ)
    → NoZero text
    → length buffer ≡ buffer_size
    → length text < 99
    → show (store (text ++ 0 ∷ rest) count buffer).buffer
      ≡ (ok (length text + 2), text ++ 10 ∷ 10 ∷ [])
unfolding store show
show-store text rest count buffer h full short =
    rw (c_string-append text rest, c_string-NoZero text h, c_string_line text _ h, two_ends text)
      (rw (length-append text (10 ∷ 10 ∷ [])))
