-- ===== src/Dma/Accounts.antt =====
-- dma_base/kDemo.c: the account of what a device holds. It names, field by field, what the device's
-- data says is held; the invariant is that this is what the kernel has handed out, and that nothing
-- was ever given back wrongly.
pub mod Coherent
pub mod Single
pub mod Pool
pub mod Pages
pub mod Sg
pub mod Commands
pub mod Exit
pub mod Safety
use mathlib.Core.Logic.{if_pos}
use learn_linux_drv.Prelude.{
  ℕ, zero, suc, ◌+◌, ◌-◌, ◌≤◌, ◌≡◌, refl, Bool, true, false, ◌||◌, List, [], ◌∷◌, Option, none,
  some, arith, length, ◌==◌, if◌then◌else◌,
}
use learn_linux_drv.Dma.{
  Direction, Resource, Resource-discrete, coherent, block, mapping, page, table, sg_mapping, pool,
  pool_block, is, Held, acquire, release, kfree, Buffer, PageArray, DeviceData, State,
}
use learn_linux_drv.Dma.Sg.{pages_of, array_of}

pub is_self : (x : Resource) → is x x ≡ 1
unfolding is
is_self x = if_pos (Resource-discrete x x) refl 1 0

-- `k` holds what `c` counts, and nothing was given back wrongly.
pub record Holds (k : Held) (c : Resource → ℕ) : Type 0 where
  pub counted : (r : Resource) → k.count r ≡ c r
  pub sound : k.fault ≡ false

pub acquire-Holds :
    {k : Held} {c : Resource → ℕ} (x : Resource) {c' : Resource → ℕ}
    → Holds k c
    → ((r : Resource) → c' r ≡ c r + is x r)
    → Holds (acquire x k) c'
unfolding acquire
acquire-Holds x h e = record { counted = λ r. omega (arith, h.counted r, e r); sound = h.sound }

pub release-Holds :
    {k : Held} {c : Resource → ℕ} (x : Resource) {c' : Resource → ℕ}
    → Holds k c
    → ((r : Resource) → c r ≡ c' r + is x r)
    → Holds (release x k) c'
unfolding release
release-Holds x h e = record {
  counted = λ r. omega (arith, h.counted r, e r);
  sound = ground (arith, h.counted x, e x, is_self x, h.sound);
}

pub block_of : Option ℕ → Resource → ℕ
block_of none r = 0
block_of (some addr) r = is (block addr) r

pub kfree-Holds :
    {k : Held} {c : Resource → ℕ} (p : Option ℕ) {c' : Resource → ℕ}
    → Holds k c
    → ((r : Resource) → c r ≡ c' r + block_of p r)
    → Holds (kfree p k) c'
unfolding kfree block_of
kfree-Holds none h e = record { counted = λ r. omega (arith, h.counted r, e r); sound = h.sound }
kfree-Holds (some addr) h e = release-Holds (block addr) h e

pub pages_owned : List ℕ → Resource → ℕ
pages_owned [] r = 0
pages_owned (p ∷ ps) r = is (page p) r + pages_owned ps r

-- What each part of a device's data says is held.
pub coherent_owned : Option Buffer → (size dma : ℕ) → Resource → ℕ
coherent_owned none size dma r = 0
coherent_owned (some b) size dma r = is (coherent size b.addr dma) r

pub single_owned : Bool → (buf : Option ℕ) (dma size : ℕ) (dir : Direction) → Resource → ℕ
single_owned false buf dma size dir r = 0
single_owned true buf dma size dir r = block_of buf r + is (mapping dma size dir) r

pub sg_owned : Bool → Option PageArray → (nents : ℕ) (dir : Direction) → Resource → ℕ
sg_owned false array nents dir r = 0
sg_owned true array nents dir r =
    block_of (array_of array) r
    + pages_owned (pages_of array) r
    + is table r
    + is (sg_mapping nents dir) r

pub pool_owned : (pool_at pool_buf : Option ℕ) → (dma : ℕ) → Resource → ℕ
pool_owned none buf dma r = 0
pool_owned (some p) none dma r = is (pool p) r
pool_owned (some p) (some b) dma r = is (pool p) r + is (pool_block p b dma) r

pub owned : DeviceData → Resource → ℕ
owned dd r =
    coherent_owned dd.coherent_buf dd.coherent_size dd.coherent_dma r
    + single_owned dd.single_mapped dd.single_buf dd.single_dma dd.single_size dd.single_dir r
    + sg_owned dd.sg_mapped dd.sg_pages dd.sg_nents dd.sg_dir r
    + pool_owned dd.dma_pool dd.pool_buf dd.pool_dma r

-- The invariant of a device: its account is right, the coherent buffer has its size, the pages are
-- as many as were mapped, and there is no pool buffer without a pool.
pub record Accounts (st : State) : Type 0 where
  pub balanced : Holds st.held (owned st.dd)
  pub buffer : (b : Buffer) → st.dd.coherent_buf ≡ some b → length b.bytes ≡ st.dd.coherent_size
  pub mapped :
      st.dd.sg_mapped ≡ true
      → (length (pages_of st.dd.sg_pages) ≡ st.dd.sg_nents)
        × (st.dd.sg_table.nents ≡ st.dd.sg_nents)
  pub pooled : st.dd.dma_pool ≡ none → st.dd.pool_buf ≡ none
