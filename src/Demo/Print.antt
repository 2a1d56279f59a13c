-- ===== src/Demo/Print.antt =====
-- 00.mDemo/02.base/7.print/kDemo.c: the texts that `m_print_method` puts into its buffers. `snprintf` and
-- `scnprintf` are the kernel's; a call is given by the text that its format makes.
use mathlib.Core.Path.{subst}
use learn_linux_drv.Prelude.{
  ℕ, zero, suc, ◌+◌, ◌-◌, ◌≤◌, ◌<◌, ◌≡◌, refl, ap, ◌∙◌, List, [], ◌∷◌, ◌++◌, arith, length, take,
  drop, overwrite, take-append, length-take, length-append, length-overwrite, append_assoc,
}

-- `snprintf` and `scnprintf` into the bytes of a block from an offset on, with a size: the return value
-- and the block.
pub record Printf : Type 0 where
  pub snprintf : (block : List ℕ) (offset size : ℕ) (text : List ℕ) → ℕ × List ℕ
  pub scnprintf : (block : List ℕ) (offset size : ℕ) (text : List ℕ) → ℕ × List ℕ

-- The documented behaviour: both store as much of the text as there is room for, and a closing zero, as
-- long as the size is not 0. `snprintf` returns the length of the text, `scnprintf` what it stored.
abbrev pub stored : (size : ℕ) → List ℕ → List ℕ
stored size text = take (size - 1) text

pub record IsPrintf (p : Printf) : Type 0 where
  pub snprintf_lem :
      (block : List ℕ) (offset size : ℕ) (text : List ℕ)
      → 0 < size
      → p.snprintf block offset size text
        ≡ (length text, overwrite block offset (stored size text ++ 0 ∷ []))
  pub scnprintf_lem :
      (block : List ℕ) (offset size : ℕ) (text : List ℕ)
      → 0 < size
      → p.scnprintf block offset size text
        ≡ (length (stored size text), overwrite block offset (stored size text ++ 0 ∷ []))

abbrev pub buf_size : ℕ
buf_size = 128

abbrev pub small_buf_size : ℕ
small_buf_size = 10

-- `len1`, `len2` and `len3`, and the two buffers.
pub record Printed : Type 0 where
  pub len1 : ℕ
  pub len2 : ℕ
  pub len3 : ℕ
  pub buf : List ℕ
  pub small_buf : List ℕ

-- The part of `m_print_method` with the buffers, for the texts of its formats.
unfoldable pub m_print_method :
    Printf → (hello step1 step2 step3 digits : List ℕ) → (buf small_buf : List ℕ) → Printed
m_print_method p hello step1 step2 step3 digits buf small_buf =
    let r1 = p.snprintf buf 0 buf_size hello in
    let r2 = p.scnprintf r1.1 0 buf_size step1 in
    let r3 = p.scnprintf r2.1 r2.0 (buf_size - r2.0) step2 in
    let r4 = p.scnprintf r3.1 (r2.0 + r3.0) (buf_size - (r2.0 + r3.0)) step3 in
    let r5 = p.snprintf small_buf 0 small_buf_size digits in
    record { len1 = r1.0; len2 = r2.0 + r3.0 + r4.0; len3 = r5.0; buf = r4.1; small_buf = r5.1 }

take-two : (xs ys zs : List ℕ) → take (length xs + length ys) (xs ++ (ys ++ zs)) ≡ xs ++ ys
take-two [] ys zs = take-append (0 + length ys) ys zs (omega arith)
take-two (x ∷ xs) ys zs =
    let e : suc (length xs) + length ys ≡ suc (length xs + length ys) = omega arith in
    rw e (ap (◌∷◌ x) (take-two xs ys zs))

-- What is left of the room behind the first text is for the second.
take-then :
    (k : ℕ) (xs ys : List ℕ) → take k xs ++ take (k - length (take k xs)) ys ≡ take k (xs ++ ys)
take-then zero xs ys = let e : 0 - 0 ≡ 0 = omega arith in ap (λ (m : ℕ). take m ys) e
take-then (suc k) [] ys = let e : suc k - 0 ≡ suc k = omega arith in ap (λ (m : ℕ). take m ys) e
take-then (suc k) (x ∷ xs) ys =
    let n : ℕ = length (take k xs) in
    let e : suc k - suc n ≡ k - n = omega arith in rw e (ap (◌∷◌ x) (take-then k xs ys))

-- The first n bytes of a block of 128 are a text, and there is room for a closing zero behind it.
record Holds (n : ℕ) (block text : List ℕ) : Type 0 where
  starts : take n block ≡ text
  counted : n ≡ length text
  room : n < buf_size
  full : length block ≡ buf_size

length-stored : (n : ℕ) (text : List ℕ) → length (stored (buf_size - n) text) ≤ buf_size - n - 1
length-stored n text = omega (arith, length-take (buf_size - n - 1) text)

starts_behind :
    (block text more : List ℕ) (n : ℕ)
    → take n block ≡ text
    → n ≡ length text
    → take (n + length more) (overwrite block n (more ++ 0 ∷ [])) ≡ text ++ more
starts_behind block text more n s c =
    let rest : List ℕ = drop (n + length (more ++ 0 ∷ [])) block in
    ap (λ (m : ℕ). take (m + length more) (take n block ++ ((more ++ 0 ∷ []) ++ rest))) c
    ∙ ap (λ (t : List ℕ). take (length text + length more) (t ++ ((more ++ 0 ∷ []) ++ rest))) s
    ∙ ap (λ (t : List ℕ). take (length text + length more) (text ++ t))
        (append_assoc more (0 ∷ []) rest)
    ∙ take-two text more (0 ∷ rest)

scnprintf_appends :
    (p : Printf) (n : ℕ) (block text more : List ℕ)
    → IsPrintf p
    → Holds n block text
    → let r = p.scnprintf block n (buf_size - n) more in
      Holds (n + r.0) r.1 (text ++ stored (buf_size - n) more)
scnprintf_appends p n block text more law v =
    rw (law.scnprintf_lem block n (buf_size - n) more (omega (arith, v.room))) (record {
      starts = starts_behind block text (stored (buf_size - n) more) n v.starts v.counted;
      counted = omega (arith, v.counted, length-append text (stored (buf_size - n) more));
      room = omega (arith, v.room, length-stored n more);
      full =
          length-overwrite block n (stored (buf_size - n) more ++ 0 ∷ []) (
            omega (
              arith,
              v.room,
              v.full,
              length-stored n more,
              length-append (stored (buf_size - n) more) (0 ∷ []),
            ))
          ∙ v.full;
    })

-- A block that holds as much of a text as fits holds as much of a longer one after a `scnprintf`.
appended :
    (p : Printf) (n : ℕ) (block xs more : List ℕ)
    → IsPrintf p
    → Holds n block (take 127 xs)
    → let r = p.scnprintf block n (buf_size - n) more in Holds (n + r.0) r.1 (take 127 (xs ++ more))
appended p n block xs more law v =
    let r = p.scnprintf block n (buf_size - n) more in
    let e : buf_size - n - 1 ≡ 127 - length (take 127 xs) = omega (arith, v.counted) in
    subst (λ (t : List ℕ). Holds (n + r.0) r.1 t)
      (ap (λ (m : ℕ). take 127 xs ++ take m more) e ∙ take-then 127 xs more)
      (scnprintf_appends p n block (take 127 xs) more law v)

Holds-at : {m n : ℕ} {block text : List ℕ} → m ≡ n → Holds m block text → Holds n block text
Holds-at {block} {text} e v = subst (λ (k : ℕ). Holds k block text) e v

snprintf-full :
    (p : Printf) (block : List ℕ) (size : ℕ) (text : List ℕ)
    → IsPrintf p
    → 0 < size
    → length block ≡ size
    → length (p.snprintf block 0 size text).1 ≡ size
snprintf-full p block size text law pos full =
    ap (λ (r : ℕ × List ℕ). length r.1) (law.snprintf_lem block 0 size text pos)
    ∙ length-overwrite block 0 (stored size text ++ 0 ∷ []) fits
    ∙ full
  where
    fits : 0 + length (stored size text ++ 0 ∷ []) ≤ length block
    fits =
        omega
          (arith, pos, full, length-take (size - 1) text, length-append (stored size text) (0 ∷ []))

-- With `snprintf` and `scnprintf` as documented, and whatever texts the formats make: the three texts of
-- the second part stand behind each other in the buffer of 128 bytes, cut off where it is full, and `len2`
-- is what of them stands there; `len3` is the length of the whole text of the third part, and both buffers
-- keep their size.
pub prints_in_bounds :
    (p : Printf) (hello step1 step2 step3 digits buf small_buf : List ℕ)
    → IsPrintf p
    → length buf ≡ buf_size
    → length small_buf ≡ small_buf_size
    → let r = m_print_method p hello step1 step2 step3 digits buf small_buf in
      (take r.len2 r.buf ≡ take 127 (step1 ++ step2 ++ step3))
      × (r.len2 ≡ length (take 127 (step1 ++ step2 ++ step3)))
      × (length r.buf ≡ buf_size)
      × (r.len3 ≡ length digits)
      × (length r.small_buf ≡ small_buf_size)
unfolding m_print_method
prints_in_bounds p hello step1 step2 step3 digits buf small_buf law full small_full =
    let r1 = p.snprintf buf 0 buf_size hello in
    let r2 = p.scnprintf r1.1 0 buf_size step1 in
    let r3 = p.scnprintf r2.1 r2.0 (buf_size - r2.0) step2 in
    let v1 : Holds r2.0 r2.1 (take 127 step1) = Holds-at (omega arith) (
      appended p 0 r1.1 [] step1 law (record {
        starts = refl;
        counted = refl;
        room = omega arith;
        full = snprintf-full p buf buf_size hello law (omega arith) full;
      })) in
    let v2 : Holds (r2.0 + r3.0) r3.1 (take 127 (step1 ++ step2)) =
      appended p r2.0 r2.1 step1 step2 law v1 in
    let v3 = appended p (r2.0 + r3.0) r3.1 (step1 ++ step2) step3 law v2 in
    (
      v3.starts,
      v3.counted,
      v3.full,
      ap (λ (r : ℕ × List ℕ). r.0)
          (law.snprintf_lem small_buf 0 small_buf_size digits (omega arith)),
      snprintf-full p small_buf small_buf_size digits law (omega arith) small_full,
    )
