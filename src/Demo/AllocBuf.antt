-- ===== src/Demo/AllocBuf.antt =====
-- 00.mDemo/02.base/6.alloc_buf/kDemo.c: `open` takes memory in eight ways and `release` gives it back,
-- on a machine without high memory. Blocks, pages, caches and objects are named by numbers.
use learn_linux_drv.Prelude.{
  ℕ, ◌<◌, ◌≡◌, ◌≢◌, List, [], ◌∷◌, Option, none, some, ◌==◌, if◌then◌else◌, update, arith, inl, inr,
  Option-cases,
}
use learn_linux_drv.Prelude.Count.{count}
use learn_linux_drv.Kernel.{Errno, enomem, Ret, ok, err}

-- The driver's pointers, by number.
abbrev kmalloc_mem : ℕ
kmalloc_mem = 0

abbrev kzalloc_mem : ℕ
kzalloc_mem = 1

abbrev vmalloc_mem : ℕ
vmalloc_mem = 2

abbrev vzalloc_mem : ℕ
vzalloc_mem = 3

abbrev page_mem : ℕ
page_mem = 4

abbrev free_pages_mem : ℕ
free_pages_mem = 5

abbrev my_cache : ℕ
my_cache = 6

abbrev slab_obj : ℕ
slab_obj = 7

-- The pointers, and what was taken and given back, the last one first.
pub record State : Type 0 where
  pub mem : ℕ → Option ℕ
  pub made : List ℕ
  pub given_back : List ℕ

-- The call that fills a pointer. `page_mem` is set where there are pages only.
take_mem : (slot : ℕ) → Option ℕ → State → State
take_mem slot none s = if slot == page_mem then s else record s { mem = update s.mem slot none }
take_mem slot (some x) s = record s { mem = update s.mem slot (some x); made = x ∷ s.made }

-- Giving a pointer back, if it is not null. It keeps its value.
free_mem : (slot : ℕ) → State → State
free_mem slot s = elim (s.mem slot) [
  | none ↦ s
  | some x ↦ record s { given_back = x ∷ s.given_back }
]

free_all : List ℕ → State → State
free_all [] s = s
free_all (slot ∷ slots) s = free_all slots (free_mem slot s)

-- The calls of `open`, each with what is given back where it fails. The label `fail` gives nothing
-- back.
stages : List (ℕ × List ℕ)
stages =
    (kmalloc_mem, [])
    ∷ (kzalloc_mem, [])
    ∷ (vmalloc_mem, kmalloc_mem ∷ [])
    ∷ (vzalloc_mem, [])
    ∷ (page_mem, vmalloc_mem ∷ kmalloc_mem ∷ [])
    ∷ (free_pages_mem, [])
    ∷ (my_cache, [])
    ∷ (slab_obj, [])
    ∷ []

open_stages : (answers : ℕ → Option ℕ) → List (ℕ × List ℕ) → State → Ret × State
open_stages a [] s = (ok 0, s)
open_stages a (stage ∷ rest) s =
    let s' : State = take_mem stage.0 (a stage.0) s in
    let opened = open_stages a rest s' in
    elim (a stage.0) [ none ↦ (err enomem, free_all stage.1 s') | some x ↦ opened ]

-- `m_chrdev_open`, by what the kernel gives for each pointer.
unfoldable pub open_device : (answers : ℕ → Option ℕ) → State → Ret × State
unfolding stages open_stages take_mem free_mem free_all
open_device a s = open_stages a stages s

-- `m_chrdev_release`. The object is given back to a cache only if there is one.
unfoldable pub release : State → State
unfolding free_mem free_all
release s =
    let s' : State = elim (s.mem my_cache) [ none ↦ s | some c ↦ free_mem slab_obj s ] in
    free_all
      (my_cache ∷ free_pages_mem ∷ page_mem ∷ vzalloc_mem ∷ vmalloc_mem ∷ kzalloc_mem ∷ kmalloc_mem
        ∷ [])
      s'

-- Everything was given back as often as it was taken.
pub record Clean (s : State) : Type 0 where
  pub clean : (x : ℕ) → count x s.made ≡ count x s.given_back

-- The kernel gives something at every stage.
abbrev Given : (ℕ → Option ℕ) → List (ℕ × List ℕ) → Type 0
Given a [] = Unit
Given a (stage ∷ rest) = ((x : ℕ) × (a stage.0 ≡ some x)) × Given a rest

all-Given :
    (a : ℕ → Option ℕ) (ss : List (ℕ × List ℕ)) (s : State)
    → (open_stages a ss s).0 ≡ ok 0
    → Given a ss
unfolding open_stages
all-Given a [] s h = tt
all-Given a (stage ∷ rest) s h = elim (Option-cases (a stage.0)) [
  | inl e ↦ ground (arith, h, e)
  | inr (x, e) ↦ ((x, e), all-Given a rest (take_mem stage.0 (a stage.0) s) (ground (arith, h, e)))
]

-- A session that is alone: where `open` succeeds, `release` gives back all that it took.
pub alloc_session-Clean :
    (a : ℕ → Option ℕ) {s : State}
    → Clean s
    → (open_device a s).0 ≡ ok 0
    → Clean (release (open_device a s).1)
unfolding open_device release count stages open_stages take_mem free_mem free_all
alloc_session-Clean a {s} v h =
    let (
      (x0, e0),
      ((x1, e1), ((x2, e2), ((x3, e3), ((x4, e4), ((x5, e5), ((x6, e6), ((x7, e7), u))))))),
    ) =
      all-Given a stages s h in
    record { clean = λ x. ground (arith, e0, e1, e2, e3, e4, e5, e6, e7, v.clean x) }

-- Where `open` fails although `kmalloc`, `vmalloc` and `alloc_pages` succeeded, it gives nothing back,
-- the block of `kmalloc` included.
pub failed_open_leaks :
    (a : ℕ → Option ℕ) (x y z : ℕ) (e : Errno) (s : State)
    → a kmalloc_mem ≡ some x
    → a vmalloc_mem ≡ some y
    → a page_mem ≡ some z
    → (open_device a s).0 ≡ err e
    → ((open_device a s).1.given_back ≡ s.given_back)
      × (count x s.made < count x (open_device a s).1.made)
unfolding open_device release count stages open_stages take_mem free_mem free_all
failed_open_leaks a x y z e s hx hy hz h =
    (ground (arith, hx, hy, hz, h), ground (arith, hx, hy, hz, h))

-- Where `vmalloc` fails in one `open`, the block of its `kmalloc` is given back, but the pointer to it
-- stays, and the `release` of another session gives that block back again.
pub failed_vmalloc_double_frees :
    (a : ℕ → Option ℕ) (x y : ℕ) {s : State}
    → Clean s
    → a kmalloc_mem ≡ some x
    → a kzalloc_mem ≡ some y
    → y ≢ x
    → a vmalloc_mem ≡ none
    → count x (release (open_device a s).1).made < count x (release (open_device a s).1).given_back
unfolding open_device release count stages open_stages take_mem free_mem free_all
failed_vmalloc_double_frees a x y {s} v hx hy ne hz = ground (arith, hx, hy, hz, ne, v.clean x)
