-- ===== src/Demo/Proc/Texts.antt =====
-- proc/kDemo.c: what is written to the files is what is read from them.
use learn_linux_drv.Prelude.{
  ℕ, zero, suc, ◌+◌, ◌-◌, ◌%◌, ◌^◌, ◌≤◌, ◌<◌, ◌≡◌, refl, ap, ◌∙◌, List, [], ◌∷◌, ◌++◌, arith,
  length, drop, overwrite, take-append, take-of_length_le, drop-append, drop-append_add,
  length-append, length-drop, append_assoc, append-nil,
}
use learn_linux_drv.Prelude.Int.{ℤ}
use learn_linux_drv.Kernel.{ok, UserCopy, IsUserCopy}
use learn_linux_drv.Kernel.Text.{
  c_string, c_string-append, c_string-take, c_string_twice, length-c_string,
}
use learn_linux_drv.Kernel.Memory.{filled, length-filled}
use learn_linux_drv.Demo.Proc.{
  strncpy, buf_size, seq_buf_size, Info, SeqBuf, ReadFromBuffer, generic_read, generic_write,
  m_write, m_show, m_seq_show, m_seq_proc_write,
}

drop-drop : (m n k : ℕ) (xs : List ℕ) → m + n ≡ k → drop n (drop m xs) ≡ drop k xs
drop-drop zero n k xs e = rw (sum_is n k e)
  where
    sum_is : (n k : ℕ) → zero + n ≡ k → n ≡ k
    sum_is n k e = omega arith
drop-drop (suc m) n zero [] e = absurd (omega arith)
drop-drop (suc m) zero (suc k) [] e = refl
drop-drop (suc m) (suc n) (suc k) [] e = refl
drop-drop (suc m) n zero (x ∷ xs) e = absurd (omega arith)
drop-drop (suc m) n (suc k) (x ∷ xs) e = drop-drop m n k xs (omega arith)

-- Writing `got` at the front, and a zero behind it, into a longer buffer: what it holds, and its
-- length.
overwrite_zero :
    (buffer got : List ℕ) (n : ℕ)
    → length got ≡ n
    → overwrite (overwrite buffer 0 got) n (0 ∷ []) ≡ got ++ 0 ∷ drop (n + 1) buffer
overwrite_zero buffer got n e = rw (
  take-append n got (drop (0 + length got) buffer) e,
  drop-append_add n 1 got (drop (0 + length got) buffer) e,
  drop-drop (0 + length got) 1 (n + 1) buffer (omega arith),
)

length-overwrite_zero :
    (buffer got : List ℕ) (n : ℕ)
    → length got ≡ n
    → n < length buffer
    → length (got ++ 0 ∷ drop (n + 1) buffer) ≡ length buffer
length-overwrite_zero buffer got n e h =
    omega (arith, length-append got (0 ∷ drop (n + 1) buffer), length-drop (n + 1) buffer)

module _ {u : UserCopy} (copy : IsUserCopy u) where
  -- Where the copy is complete.
  got_all :
      (buf count : ℕ)
      → (u.from_user buf count).1 ≡ 0
      → ((u.from_user buf count).0 ≡ u.user_mem buf count) × (length (u.user_mem buf count) ≡ count)
  got_all buf count e = (
    copy.from_user_ok buf count e,
    rw (← copy.from_user_ok buf count e) (copy.from_user_length buf count),
  )

  generic_write_done :
      (buf count : ℕ) (proc_buf : List ℕ)
      → (generic_write u buf count proc_buf).0 ≡ ok count
      → (count < buf_size)
        × ((u.from_user buf count).1 ≡ 0)
        × ((generic_write u buf count proc_buf).1
            ≡ overwrite (overwrite proc_buf 0 (u.from_user buf count).0) count (0 ∷ []))
  unfolding generic_write
  generic_write_done buf count proc_buf done = ground (arith, done)

  -- With copies that keep their contract, and `proc_buf` of 128 bytes: where `generic_write` of at
  -- most 127 bytes succeeds, the next `generic_read` hands out the bytes of the process up to the
  -- first zero, and `proc_buf` still has 128 bytes.
  pub generic_read-write :
      (simple_read : ReadFromBuffer) (buf count buf' count' : ℕ) (ppos : ℤ) (proc_buf : List ℕ)
      → length proc_buf ≡ buf_size
      → (generic_write u buf count proc_buf).0 ≡ ok count
      → (generic_read simple_read buf' count' ppos (generic_write u buf count proc_buf).1
          ≡ simple_read buf' count' ppos (c_string (u.user_mem buf count)))
        × (length (generic_write u buf count proc_buf).1 ≡ buf_size)
  unfolding generic_read generic_write
  generic_read-write simple_read buf count buf' count' ppos proc_buf full done =
      let (short, all_read, e) = generic_write_done buf count proc_buf done in
      let (same, long) = got_all buf count all_read in
      rw (e, same, overwrite_zero proc_buf (u.user_mem buf count) count long)
        (
          rw (c_string-take buf_size (u.user_mem buf count) _ (omega (arith, short, long))),
          length-overwrite_zero proc_buf (u.user_mem buf count) count long
                (omega (arith, short, full))
              ∙ full,
        )

  m_seq_proc_write_done :
      (buf count : ℕ) (s : SeqBuf)
      → (m_seq_proc_write u buf count s).0 ≡ ok count
      → (count < seq_buf_size)
        × ((u.from_user buf count).1 ≡ 0)
        × ((m_seq_proc_write u buf count s).1 ≡ record {
          bytes = overwrite (overwrite s.bytes 0 (u.from_user buf count).0) count (0 ∷ []);
          len = count;
        })
  unfolding m_seq_proc_write
  m_seq_proc_write_done buf count s done = ground (arith, done)

  -- With copies that keep their contract, and `m_seq_buf` of 1024 bytes: where `m_seq_proc_write`
  -- succeeds, `m_seq_show` hands out exactly the bytes of the process, zeros included, and
  -- `m_seq_buf` still has 1024 bytes.
  pub m_seq_show-write :
      (buf count : ℕ) (s : SeqBuf)
      → length s.bytes ≡ seq_buf_size
      → (m_seq_proc_write u buf count s).0 ≡ ok count
      → (m_seq_show (m_seq_proc_write u buf count s).1 ≡ u.user_mem buf count)
        × (length (m_seq_proc_write u buf count s).1.bytes ≡ seq_buf_size)
  unfolding m_seq_show m_seq_proc_write
  m_seq_show-write buf count s full done =
      let (short, all_read, e) = m_seq_proc_write_done buf count s done in
      let (same, long) = got_all buf count all_read in
      rw (e, same, overwrite_zero s.bytes (u.user_mem buf count) count long)
        (
          take-append count (u.user_mem buf count) _ long,
          length-overwrite_zero s.bytes (u.user_mem buf count) count long
                (omega (arith, short, full))
              ∙ full,
        )

-- A message that ends with a zero in the last byte of its 128.
pub record Terminated (d : Info) : Type 0 where
  pub full : length d.msg ≡ buf_size
  pub last_zero : drop (buf_size - 1) d.msg ≡ 0 ∷ []

c_string_padded :
    (text : List ℕ) (n : ℕ) → c_string ((text ++ filled 0 n) ++ 0 ∷ []) ≡ c_string text
unfolding filled
c_string_padded text zero = rw (append-nil text) (c_string-append text [])
c_string_padded text (suc n) =
    rw (append_assoc text (0 ∷ filled 0 n) (0 ∷ [])) (c_string-append text (filled 0 n ++ 0 ∷ []))

length-padded :
    (text : List ℕ) (n : ℕ) → length text ≤ n → length (text ++ filled 0 (n - length text)) ≡ n
length-padded text n h =
    omega
      (arith, length-append text (filled 0 (n - length text)), length-filled 0 (n - length text))

strncpy_padded :
    (d : Info) (got : List ℕ)
    → Terminated d
    → length got < buf_size
    → strncpy d.msg (got ++ 0 ∷ []) (buf_size - 1)
      ≡ (c_string got ++ filled 0 (buf_size - 1 - length (c_string got))) ++ 0 ∷ []
strncpy_padded d got v h =
    let short : length (c_string got) ≤ 127 = omega (arith, h, length-c_string got) in
    let at_end : 0 + length (c_string got ++ filled 0 (127 - length (c_string got))) ≡ 127 =
      omega (arith, length-padded (c_string got) 127 short) in
    rw (c_string-append got [], take-of_length_le 127 (c_string got) short, at_end, v.last_zero)
      refl

-- `strncpy` of a text of at most 127 bytes leaves the last zero where it is.
strncpy_lem :
    (d : Info) (got : List ℕ)
    → Terminated d
    → length got < buf_size
    → (c_string (strncpy d.msg (got ++ 0 ∷ []) (buf_size - 1)) ≡ c_string got)
      × (length (strncpy d.msg (got ++ 0 ∷ []) (buf_size - 1)) ≡ buf_size)
      × (drop (buf_size - 1) (strncpy d.msg (got ++ 0 ∷ []) (buf_size - 1)) ≡ 0 ∷ [])
strncpy_lem d got v h =
    let text = c_string got in
    let long = length-padded text (buf_size - 1) (omega (arith, h, length-c_string got)) in
    rw (strncpy_padded d got v h) (
      c_string_padded text _ ∙ c_string_twice got,
      length-append (text ++ filled 0 (buf_size - 1 - length text)) (0 ∷ []) ∙ omega (arith, long),
      drop-append (buf_size - 1) (text ++ filled 0 (buf_size - 1 - length text)) (0 ∷ []) long,
    )

module _ {u : UserCopy} (copy : IsUserCopy u) where
  m_write_done :
      (buf len : ℕ) (d : Info)
      → (m_write u buf len d).0 ≡ ok len
      → (len < buf_size)
        × ((u.from_user buf len).1 ≡ 0)
        × ((m_write u buf len d).1 ≡ record {
          msg = strncpy d.msg ((u.from_user buf len).0 ++ 0 ∷ []) (buf_size - 1);
          counter = (d.counter + 1) % 2 ^ 32;
        })
  unfolding m_write
  m_write_done buf len d done = ground (arith, done)

  -- With copies that keep their contract, and a message that ends with a zero in the last byte of
  -- its 128: where `m_write` succeeds, `m_show` prints the bytes of the process up to the first zero
  -- and the counter increased by one in 32 bits, and the message still ends so.
  pub m_show-write :
      (buf len : ℕ) (d : Info)
      → Terminated d
      → (m_write u buf len d).0 ≡ ok len
      → (m_show (m_write u buf len d).1 ≡ (c_string (u.user_mem buf len), (d.counter + 1) % 2 ^ 32))
        × Terminated (m_write u buf len d).1
  unfolding m_show
  m_show-write buf len d v done =
      let (short, all_read, e) = m_write_done buf len d done in
      let (same, long) = got_all copy buf len all_read in
      let (text, full, last_zero) =
        strncpy_lem d (u.user_mem buf len) v (omega (arith, short, long)) in
      rw (e, same)
        (
          ap (λ m. (m, (d.counter + 1) % 2 ^ 32)) text,
          record { full = full; last_zero = last_zero },
        )
