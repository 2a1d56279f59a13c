-- ===== src/Dma/Accounts/Single.antt =====
-- dma_base/kDemo.c: the account through mapping and unmapping one block.
use learn_linux_drv.Prelude.{
  ℕ, ◌+◌, refl, inl, inr, Bool, true, false, Option, none, some, arith, Option-cases, Bool-cases,
}
use learn_linux_drv.Dma.{
  Direction, user_to_kernel_dir, block, mapping, is, Held, acquire, State, Answers,
}
use learn_linux_drv.Dma.Single.{map_single_dev, unmap_single_dev}
use learn_linux_drv.Dma.Accounts.{
  Accounts, Holds, acquire-Holds, release-Holds, kfree-Holds, owned, single_owned, block_of,
}

-- The fields of the single mapping and the account change together; the others stay.
abbrev set_single :
    State → (buf : Option ℕ) (dma size : ℕ) (dir : Direction) (on : Bool) (held : Held) → State
set_single st buf dma size dir on held = record st {
  dd = record (st.dd) {
    single_buf = buf;
    single_dma = dma;
    single_size = size;
    single_dir = dir;
    single_mapped = on;
  };
  held = held;
}

set_single-Accounts :
    {st : State} (buf : Option ℕ) (dma size : ℕ) (dir : Direction) (on : Bool) (held : Held)
    → Accounts st
    → Holds held (owned (set_single st buf dma size dir on held).dd)
    → Accounts (set_single st buf dma size dir on held)
set_single-Accounts buf dma size dir on held v h = record {
  balanced = h;
  buffer = v.buffer;
  mapped = v.mapped;
  pooled = v.pooled;
}

pub map_single-Accounts :
    (a : Answers) (size direction : ℕ) {st : State}
    → Accounts st
    → Accounts (map_single_dev a size direction st).1
unfolding map_single_dev
map_single-Accounts a size direction {st} v = elim (Bool-cases st.dd.single_mapped) [
  | inl e ↦ simp (e, map_single_dev) v
  | inr e ↦ elim (Option-cases a.kmalloc) [
    | inl e' ↦
        simp (e, e', map_single_dev)
          (set_single-Accounts none _ _ _ false _ v (record {
            counted = λ r. unfold owned single_owned in ground (arith, v.balanced.counted r);
            sound = v.balanced.sound;
          }))
    | inr (addr, e') ↦
        let held' : Holds (acquire (block addr) st.held) (λ r. owned st.dd r + is (block addr) r) =
          acquire-Holds (block addr) v.balanced (λ r. refl) in
        elim (Bool-cases a.mapping_error) [
          | inl e'' ↦
              simp (e, e', e'', map_single_dev)
                (set_single-Accounts none _ _ _ false _ v (
                  kfree-Holds (some addr) held'
                    (λ r. unfold owned single_owned block_of in ground arith)))
          | inr e'' ↦
              simp (e, e', e'', map_single_dev)
                (set_single-Accounts (some addr) _ _ _ true _ v (
                  acquire-Holds (mapping a.map_single size (user_to_kernel_dir direction)) held'
                    (λ r. unfold owned single_owned block_of in ground arith)))
        ]
  ]
]

pub unmap_single-Accounts : {st : State} → Accounts st → Accounts (unmap_single_dev st).1
unfolding unmap_single_dev
unmap_single-Accounts {st} v = elim (Bool-cases st.dd.single_mapped) [
  | inr e ↦ simp (e, unmap_single_dev) v
  | inl e ↦
      simp (e, unmap_single_dev)
        (set_single-Accounts none 0 0 _ false _ v (
          kfree-Holds st.dd.single_buf
            (release-Holds (mapping st.dd.single_dma st.dd.single_size st.dd.single_dir)
              {c' = λ r.
                owned (set_single st none 0 0 st.dd.single_dir false st.held).dd r
                + block_of st.dd.single_buf r}
              v.balanced (λ r. unfold owned single_owned in ground arith))
            (λ r. refl)))
]
