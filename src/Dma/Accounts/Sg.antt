-- ===== src/Dma/Accounts/Sg.antt =====
-- dma_base/kDemo.c: the account through the scatter-gather operations and their error paths.
use learn_linux_drv.Prelude.{
  ℕ, ◌+◌, ◌≡◌, refl, inl, inr, Bool, true, false, List, Option, none, some, arith, length,
  Option-cases, Bool-cases, ◌==◌,
}
use learn_linux_drv.Dma.{
  Direction, user_to_kernel_dir, Resource, block, table, sg_mapping, is, Held, acquire, kfree,
  PageArray, SgTable, State, Answers,
}
use learn_linux_drv.Dma.Sg.{
  Pages, alloc_pages, free_pages, pages_of, array_of, map_pages, map_sg_dev, unmap_sg_dev,
}
use learn_linux_drv.Dma.Accounts.{
  Accounts, Holds, acquire-Holds, release-Holds, kfree-Holds, owned, sg_owned, pages_owned,
  block_of,
}
use learn_linux_drv.Dma.Accounts.Pages.{
  alloc_pages-Holds, alloc_pages-length, free_backwards-Holds, free_pages-Holds,
}

-- The fields of the scatter-gather mapping and the account change together; the others stay.
abbrev set_sg :
    State
    → (array : Option PageArray) (tab : SgTable) (nents : ℕ) (dir : Direction) (on : Bool)
    → (held : Held) → State
set_sg st array tab nents dir on held = record st {
  dd = record (st.dd) {
    sg_pages = array;
    sg_table = tab;
    sg_nents = nents;
    sg_dir = dir;
    sg_mapped = on;
  };
  held = held;
}

set_sg-Accounts :
    {st : State} (array : Option PageArray) (tab : SgTable) (nents : ℕ) (dir : Direction)
    (on : Bool) (held : Held)
    → Accounts st
    → Holds held (owned (set_sg st array tab nents dir on held).dd)
    → (on ≡ true → (length (pages_of array) ≡ nents) × (tab.nents ≡ nents))
    → Accounts (set_sg st array tab nents dir on held)
set_sg-Accounts array tab nents dir on held v h m = record {
  balanced = h;
  buffer = v.buffer;
  mapped = m;
  pooled = v.pooled;
}

pub unmap_sg-Accounts : {st : State} → Accounts st → Accounts (unmap_sg_dev st).1
unfolding unmap_sg_dev
unmap_sg-Accounts {st} v = elim (Bool-cases st.dd.sg_mapped) [
  | inr e ↦ simp (e, unmap_sg_dev) v
  | inl e ↦
      simp (e, unmap_sg_dev)
        (set_sg-Accounts none _ _ _ false _ v
          (kfree-Holds (array_of st.dd.sg_pages)
            (free_pages-Holds st.dd.sg_nents (pages_of st.dd.sg_pages)
              {c' = λ r. rest r + block_of (array_of st.dd.sg_pages) r} (v.mapped e).0
              (release-Holds table
                {c' = λ r.
                  rest r
                  + block_of (array_of st.dd.sg_pages) r
                  + pages_owned (pages_of st.dd.sg_pages) r}
                (release-Holds (sg_mapping st.dd.sg_table.nents st.dd.sg_dir)
                  {c' = λ r.
                    rest r
                    + block_of (array_of st.dd.sg_pages) r
                    + pages_owned (pages_of st.dd.sg_pages) r
                    + is table r}
                  v.balanced (λ r. rw (v.mapped e).1 (unfold owned sg_owned in ground arith)))
                (λ r. refl))
              (λ r. refl))
            (λ r. refl))
          (λ h. cc))
]
  where
    rest : Resource → ℕ
    rest = owned (record (st.dd) { sg_pages = none; sg_mapped = false })

-- The way out of `dma_map_sg_dev`: the pages and their array are given back.
freed :
    (addr nents : ℕ) (ps : List ℕ) {k : Held} (c : Resource → ℕ)
    → length ps ≡ nents
    → Holds k (λ r. c r + is (block addr) r + pages_owned ps r)
    → Holds (kfree (some addr) (free_pages nents ps k)) c
unfolding block_of
freed addr nents ps c l h =
    kfree-Holds (some addr)
      (free_pages-Holds nents ps {c' = λ r. c r + is (block addr) r} l h (λ r. refl)) (λ r. refl)

module _ (a : Answers) (nents direction : ℕ) {st : State} (v : Accounts st) where
  module _ (free : st.dd.sg_mapped ≡ false) (addr : ℕ) (array : a.kmalloc_array ≡ some addr) where
    abbrev got : Pages
    got = alloc_pages a nents 0 (acquire (block addr) st.held)

    -- What is held once the loop has ended.
    loop_ended : Holds got.held (λ r. owned st.dd r + is (block addr) r + pages_owned got.pages r)
    loop_ended =
        alloc_pages-Holds a nents 0 (λ r. owned st.dd r + is (block addr) r)
          (acquire-Holds (block addr) v.balanced (λ r. refl))

    -- The account of the error paths, where the mapping's part is empty before and after.
    back_out :
        (tab : SgTable) {held : Held}
        → Holds held (owned st.dd)
        → Accounts (set_sg st none tab st.dd.sg_nents st.dd.sg_dir false held)
    back_out tab h =
        set_sg-Accounts none tab _ _ false _ v
          (record {
            counted = λ r. unfold owned sg_owned in ground (arith, h.counted r);
            sound = h.sound;
          })
          (λ e. cc)

    incomplete : got.complete ≡ false → Accounts (map_sg_dev a nents direction st).1
    unfolding map_sg_dev
    incomplete e =
        simp (free, array, e, map_sg_dev)
          (back_out st.dd.sg_table (
            kfree-Holds (some addr)
              (free_backwards-Holds got.pages {c' = λ r. owned st.dd r + is (block addr) r}
                loop_ended (λ r. refl))
              (λ r. unfold block_of in refl)))

    module _ (enough : length got.pages ≡ nents) where
      abbrev filled : PageArray
      filled = record { addr = addr; pages = got.pages }

      with_table :
          Holds
            (acquire table got.held)
            (λ r. owned st.dd r + is (block addr) r + pages_owned got.pages r + is table r)
      with_table = acquire-Holds table loop_ended (λ r. refl)

      map_pages-Accounts : (dir : Direction) → Accounts (map_pages a nents dir filled got.held st).1
      unfolding map_pages
      map_pages-Accounts dir = elim (Option-cases a.sg_alloc_table) [
        | inr (code, failed) ↦
            simp (failed, free, map_pages)
              (back_out st.dd.sg_table (freed addr nents got.pages (owned st.dd) enough loop_ended))
        | inl tabled ↦ elim (Bool-cases (a.map_sg == 0)) [
          | inl failed ↦
              simp (tabled, failed, free, map_pages)
                (back_out (record { nents = nents; dma = a.sg_dma })
                  (freed addr nents got.pages (owned st.dd) enough
                    (release-Holds table with_table (λ r. refl))))
          | inr mapped ↦
              simp (tabled, mapped, map_pages)
                (set_sg-Accounts (some filled) (record { nents = nents; dma = a.sg_dma }) nents dir
                  true _ v
                  (acquire-Holds (sg_mapping nents dir) with_table
                    (λ r. unfold owned sg_owned block_of pages_of array_of in ground arith))
                  (λ h. (unfold pages_of in enough, refl)))
        ]
      ]

    complete : got.complete ≡ true → Accounts (map_sg_dev a nents direction st).1
    unfolding map_sg_dev
    complete e =
        simp (free, array, e, map_sg_dev)
          (map_pages-Accounts (alloc_pages-length a nents 0 (acquire (block addr) st.held) e)
            (user_to_kernel_dir direction))

  pub map_sg-Accounts : Accounts (map_sg_dev a nents direction st).1
  unfolding map_sg_dev
  map_sg-Accounts = elim (Bool-cases st.dd.sg_mapped) [
    | inl e ↦ simp (e, map_sg_dev) v
    | inr e ↦ elim (Option-cases a.kmalloc_array) [
      | inl e' ↦
          simp (e, e', map_sg_dev)
            (set_sg-Accounts none st.dd.sg_table _ _ false _ v
              (record {
                counted = λ r. unfold owned sg_owned in ground (arith, v.balanced.counted r);
                sound = v.balanced.sound;
              })
              (λ h. cc))
      | inr (addr, e') ↦
          elim (Bool-cases (alloc_pages a nents 0 (acquire (block addr) st.held)).complete) [
            | inl all ↦ complete e addr e' all
            | inr some_missing ↦ incomplete e addr e' some_missing
          ]
    ]
  ]
