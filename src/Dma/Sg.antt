-- ===== src/Dma/Sg.antt =====
-- dma_base/kDemo.c: the scatter-gather mapping.
use learn_linux_drv.Prelude.{
  ℕ, zero, suc, ◌+◌, Bool, true, false, List, [], ◌∷◌, Option, none, some, ◌==◌, if◌then◌else◌,
}
use learn_linux_drv.Kernel.{einval, ebusy, enomem, eio, Ret, ok, err}
use learn_linux_drv.Dma.{
  Direction, user_to_kernel_dir, block, page, table, sg_mapping, acquire, release, kfree, Held,
  PageArray, DeviceData, sg_for_device, sg_for_cpu, State, Answers,
}
use learn_linux_drv.Dma.Single.{sync_calls}

-- What the loop that allocates the pages leaves: whether each call succeeded, the pages so far, in
-- the order of their index, and what is held.
pub record Pages : Type 0 where
  pub complete : Bool
  pub pages : List ℕ
  pub held : Held

-- `for (i = 0; i < nents; i++)`, with `todo` rounds left.
unfoldable pub alloc_pages : Answers → (todo i : ℕ) → Held → Pages
alloc_pages a zero i k = record { complete = true; pages = []; held = k }
alloc_pages a (suc todo) i k = elim (a.alloc_page i) [
  | none ↦ record { complete = false; pages = []; held = k }
  | some p ↦
      let rest = alloc_pages a todo (i + 1) (acquire (page p) k) in
      record rest { pages = p ∷ rest.pages }
]

-- `while (--i >= 0) __free_page(dd->sg_pages[i]);`: from the last page back.
unfoldable pub free_backwards : List ℕ → Held → Held
free_backwards [] k = k
free_backwards (p ∷ ps) k = release (page p) (free_backwards ps k)

-- `for (i = 0; i < nents; i++) __free_page(dd->sg_pages[i]);`. An index behind the array is a fault.
unfoldable pub free_pages : (nents : ℕ) → List ℕ → Held → Held
free_pages zero ps k = k
free_pages (suc n) [] k = record k { fault = true }
free_pages (suc n) (p ∷ ps) k = free_pages n ps (release (page p) k)

-- The pages of `sg_pages`. Through a null pointer there are none.
unfoldable pub pages_of : Option PageArray → List ℕ
pages_of none = []
pages_of (some array) = array.pages

unfoldable pub array_of : Option PageArray → Option ℕ
array_of none = none
array_of (some array) = some array.addr

-- `dma_map_sg_dev` from `sg_alloc_table` on, with every page allocated.
unfoldable pub map_pages :
    Answers → (nents : ℕ) → Direction → (array : PageArray) → Held → State → Ret × State
map_pages a nents dir array k st =
    let freed : Held → Held = λ h. kfree (some array.addr) (free_pages nents array.pages h) in
    let dd' : DeviceData = record (st.dd) {
      sg_pages = none;
      sg_table = record { nents = nents; dma = a.sg_dma };
    } in
    elim a.sg_alloc_table [
      | some e ↦ (err e, record st { dd = record (st.dd) { sg_pages = none }; held = freed k })
      | none ↦
          if a.map_sg == 0
          then (err eio, record st { dd = dd'; held = freed (release table (acquire table k)) })
          else (
            ok 0,
            record st {
              dd = record dd' {
                sg_pages = some array;
                sg_nents = nents;
                sg_dir = dir;
                sg_mapped = true;
              };
              held = acquire (sg_mapping nents dir) (acquire table k);
            },
          )
    ]

-- `dma_map_sg_dev`.
unfoldable pub map_sg_dev : Answers → (nents direction : ℕ) → State → Ret × State
map_sg_dev a nents direction st =
    let dir : Direction = user_to_kernel_dir direction in
    let cleared : DeviceData = record (st.dd) { sg_pages = none } in
    if st.dd.sg_mapped then (err ebusy, st) else elim a.kmalloc_array [
      | none ↦ (err enomem, record st { dd = cleared })
      | some addr ↦
          let got = alloc_pages a nents 0 (acquire (block addr) st.held) in
          if got.complete
          then map_pages a nents dir (record { addr = addr; pages = got.pages }) got.held st
          else (
            err enomem,
            record st {
              dd = cleared;
              held = kfree (some addr) (free_backwards got.pages got.held);
            },
          )
    ]

-- `dma_unmap_sg_dev`: the mapping is named with the table's `nents`, the pages are counted by
-- `sg_nents`.
unfoldable pub unmap_sg_dev : State → Ret × State
unmap_sg_dev st =
    let dd : DeviceData = st.dd in
    if dd.sg_mapped
    then (
      ok 0,
      record st {
        dd = record dd { sg_pages = none; sg_mapped = false };
        held = kfree (array_of dd.sg_pages) (
            free_pages dd.sg_nents (pages_of dd.sg_pages)
              (release table (release (sg_mapping dd.sg_table.nents dd.sg_dir) st.held)));
      },
    )
    else (err einval, st)

-- `dma_sync_sg_dev`.
unfoldable pub sync_sg_dev : (direction : ℕ) → State → Ret × State
sync_sg_dev direction st =
    let dir : Direction = user_to_kernel_dir direction in
    let nents : ℕ = st.dd.sg_table.nents in
    if st.dd.sg_mapped
    then (
      ok 0,
      record st {
        syncs = sync_calls (sg_for_device nents dir) (sg_for_cpu nents dir) dir st.syncs;
      },
    )
    else (err einval, st)
