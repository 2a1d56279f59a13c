-- ===== src/Demo/KernelFile/Buffer.antt =====
-- 1.kernel_file_opt/kDemo.c: the bytes of `m_buf1`, which the driver prints as a string.
use learn_linux_drv.Prelude.{
  ℕ, zero, suc, ◌+◌, ◌-◌, ◌≤◌, ◌≡◌, refl, ap, ◌∙◌, List, [], ◌∷◌, ◌++◌, arith, length, drop,
  overwrite, length-overwrite,
}
use learn_linux_drv.Prelude.Steps.{Reach, Reach-keeps}
use learn_linux_drv.Kernel.Memory.{filled}
use learn_linux_drv.Demo.KernelFile.{
  Pointer, null, error_pointer, file_at, State, follow, open_device, filp_close, release_device,
  read_device, write_device, System, loaded, Step, opens, fails_open, reads, fails_read, writes,
  releases, m_buf, m_buf1_size,
}

-- Bytes that are put to the start of a block leave those behind position k alone, if they end there.
drop-overwrite_le :
    (k : ℕ) (xs ys : List ℕ)
    → length ys ≤ k
    → length ys ≤ length xs
    → drop k (ys ++ drop (length ys) xs) ≡ drop k xs
drop-overwrite_le k xs [] h h' = refl
drop-overwrite_le zero xs (y ∷ ys) h h' = absurd (omega (arith, h))
drop-overwrite_le (suc k) [] (y ∷ ys) h h' = absurd (omega (arith, h'))
drop-overwrite_le (suc k) (x ∷ xs) (y ∷ ys) h h' =
    drop-overwrite_le k xs ys (omega (arith, h)) (omega (arith, h'))

drop-overwrite_start :
    (k : ℕ) (xs ys : List ℕ)
    → length ys ≤ k
    → length ys ≤ length xs
    → drop k (overwrite xs 0 ys) ≡ drop k xs
drop-overwrite_start k xs ys h h' =
    let e : 0 + length ys ≡ length ys = omega arith in
    ap (λ (m : ℕ). drop k (ys ++ drop m xs)) e ∙ drop-overwrite_le k xs ys h h'

-- The block has its size, and zeros stand behind the bytes that a read can fill.
abbrev Ends : List ℕ → Type 0
Ends buf =
    (length buf ≡ m_buf1_size) × (drop (length m_buf) buf ≡ filled 0 (m_buf1_size - length m_buf))

follow-m_buf1 : (s : State) → (follow s).m_buf1 ≡ s.m_buf1
unfolding follow
follow-m_buf1 s = ground arith

filp_close-m_buf1 : (p : Pointer) (s : State) → (filp_close p s).m_buf1 ≡ s.m_buf1
unfolding filp_close
filp_close-m_buf1 null s = refl
filp_close-m_buf1 (error_pointer e) s = refl
filp_close-m_buf1 (file_at f) s = ground arith

Ends-eq : (xs ys : List ℕ) → ys ≡ xs → Ends xs → Ends ys
Ends-eq xs ys e (l, z) = (ap length e ∙ l, ap (drop (length m_buf)) e ∙ z)

Step-Ends : (s t : System) → Step s t → Ends s.st.m_buf1 → Ends t.st.m_buf1
unfolding open_device read_device write_device release_device
Step-Ends s _ (opens f h) v = v
Step-Ends s _ (fails_open e) v = v
Step-Ends s _ (reads bytes count u h) (l, z) = (
  length-overwrite s.st.m_buf1 0 bytes (omega (arith, fits)) ∙ l,
  drop-overwrite_start (length m_buf) s.st.m_buf1 bytes h fits ∙ z,
)
  where
    fits : length bytes ≤ length s.st.m_buf1
    fits = omega (arith, h, l)
Step-Ends s _ (fails_read e count u) v = Ends-eq s.st.m_buf1 _ (follow-m_buf1 s.st) v
Step-Ends s _ (writes count u) v = Ends-eq s.st.m_buf1 _ (follow-m_buf1 s.st) v
Step-Ends s _ (releases u) v = Ends-eq s.st.m_buf1 _ (filp_close-m_buf1 s.st.fp s.st) v

-- In every state that is reached from the module's init on, `m_buf1` has its 32 bytes, and those behind
-- the first 13 are zero: the string that `m_chrdev_read` prints ends in the block.
pub m_buf1_ends :
    {s : System}
    → Reach Step loaded s
    → (length s.st.m_buf1 ≡ m_buf1_size)
      × (drop (length m_buf) s.st.m_buf1 ≡ filled 0 (m_buf1_size - length m_buf))
unfolding filled
m_buf1_ends r = Reach-keeps Step Step-Ends r (refl, refl)
