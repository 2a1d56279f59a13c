-- ===== src/Dma/Accounts/Pages.antt =====
-- dma_base/kDemo.c: the loops that allocate and free the pages of a scatter-gather mapping.
use learn_linux_drv.Prelude.{
  ℕ, zero, suc, ◌+◌, ◌≡◌, refl, inl, inr, true, List, [], ◌∷◌, arith, length, Option-cases,
}
use learn_linux_drv.Dma.{Resource, page, is, Held, acquire, Answers}
use learn_linux_drv.Dma.Sg.{alloc_pages, free_backwards, free_pages}
use learn_linux_drv.Dma.Accounts.{Holds, acquire-Holds, release-Holds, pages_owned}

-- The loop that allocates: what it holds afterwards, whether it got all pages or stopped.
pub alloc_pages-Holds :
    (a : Answers) (todo i : ℕ) {k : Held} (c : Resource → ℕ)
    → Holds k c
    → let got = alloc_pages a todo i k in Holds got.held (λ r. c r + pages_owned got.pages r)
unfolding alloc_pages pages_owned
alloc_pages-Holds a zero i c h = record {
  counted = λ r. omega (arith, h.counted r);
  sound = h.sound;
}
alloc_pages-Holds a (suc todo) i {k} c h = elim (Option-cases (a.alloc_page i)) [
  | inl e ↦
      rw (e, alloc_pages) (record { counted = λ r. omega (arith, h.counted r); sound = h.sound })
  | inr (p, e) ↦
      let rest =
        alloc_pages-Holds a todo (i + 1) {k = acquire (page p) k} (λ r. c r + is (page p) r)
          (acquire-Holds (page p) h (λ r. refl)) in
      rw (e, alloc_pages)
        (record { counted = λ r. omega (arith, rest.counted r); sound = rest.sound })
]

-- All pages are there exactly if the loop says so.
pub alloc_pages-length :
    (a : Answers) (todo i : ℕ) (k : Held)
    → (alloc_pages a todo i k).complete ≡ true
    → length (alloc_pages a todo i k).pages ≡ todo
unfolding alloc_pages
alloc_pages-length a zero i k h = refl
alloc_pages-length a (suc todo) i k h = elim (Option-cases (a.alloc_page i)) [
  | inl e ↦ ground arith
  | inr (p, e) ↦
      rw (e, alloc_pages) (ground (arith, alloc_pages-length a todo (i + 1) (acquire (page p) k)))
]

pub free_backwards-Holds :
    (ps : List ℕ) {k : Held} {c : Resource → ℕ} {c' : Resource → ℕ}
    → Holds k c
    → ((r : Resource) → c r ≡ c' r + pages_owned ps r)
    → Holds (free_backwards ps k) c'
unfolding free_backwards pages_owned
free_backwards-Holds [] h e = record {
  counted = λ r. omega (arith, h.counted r, e r);
  sound = h.sound;
}
free_backwards-Holds (p ∷ ps) {c' = c'} h e =
    release-Holds (page p)
      (free_backwards-Holds ps {c' = λ r. c' r + is (page p) r} h (λ r. omega (arith, e r)))
      (λ r. refl)

pub free_pages-Holds :
    (n : ℕ) (ps : List ℕ) {k : Held} {c : Resource → ℕ} {c' : Resource → ℕ}
    → length ps ≡ n
    → Holds k c
    → ((r : Resource) → c r ≡ c' r + pages_owned ps r)
    → Holds (free_pages n ps k) c'
unfolding free_pages pages_owned
free_pages-Holds zero [] l h e = record {
  counted = λ r. omega (arith, h.counted r, e r);
  sound = h.sound;
}
free_pages-Holds zero (p ∷ ps) l h e = absurd (omega arith)
free_pages-Holds (suc n) [] l h e = absurd (omega arith)
free_pages-Holds (suc n) (p ∷ ps) {c' = c'} l h e =
    free_pages-Holds n ps {c' = c'} (omega arith)
      (release-Holds (page p) {c' = λ r. c' r + pages_owned ps r} h (λ r. omega (arith, e r)))
      (λ r. refl)
