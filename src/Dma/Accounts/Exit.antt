-- ===== src/Dma/Accounts/Exit.antt =====
-- dma_base/kDemo.c: the account through the rounds of `m_chr_exit`.
use learn_linux_drv.Prelude.{ℕ, ◌+◌, refl, inl, inr, arith, Option-cases, Bool-cases}
use learn_linux_drv.Dma.{
  Resource, coherent, mapping, table, sg_mapping, pool, pool_block, is, Held, State,
}
use learn_linux_drv.Dma.Sg.{pages_of, array_of}
use learn_linux_drv.Dma.Module.{
  exit_device, exit_coherent, exit_single, exit_sg, exit_pool_buf, exit_pool,
}
use learn_linux_drv.Dma.Accounts.{
  Accounts, Holds, release-Holds, kfree-Holds, owned, coherent_owned, single_owned, sg_owned,
  pool_owned, pages_owned, block_of,
}
use learn_linux_drv.Dma.Accounts.Pages.{free_pages-Holds}

-- The rounds of the exit loop.
exit_coherent-Holds :
    (st : State) {k : Held} {c : Resource → ℕ}
    → Holds k
        (λ r. c r + coherent_owned st.dd.coherent_buf st.dd.coherent_size st.dd.coherent_dma r)
    → Holds (exit_coherent st.dd k) c
unfolding exit_coherent coherent_owned
exit_coherent-Holds st h = elim (Option-cases st.dd.coherent_buf) [
  | inl e ↦
      rw (e, exit_coherent) (record { counted = λ r. ground (arith, h.counted r); sound = h.sound })
  | inr (b, e) ↦
      rw (e, exit_coherent)
        (release-Holds (coherent st.dd.coherent_size b.addr st.dd.coherent_dma) h
          (λ r. ground arith))
]

exit_single-Holds :
    (st : State) {k : Held} {c : Resource → ℕ}
    → Holds k (λ r.
      c r
      + single_owned st.dd.single_mapped st.dd.single_buf st.dd.single_dma st.dd.single_size
          st.dd.single_dir r)
    → Holds (exit_single st.dd k) c
unfolding exit_single single_owned
exit_single-Holds st {c = c} h = elim (Bool-cases st.dd.single_mapped) [
  | inr e ↦
      simp (e, exit_single) (record { counted = λ r. ground (arith, h.counted r); sound = h.sound })
  | inl e ↦
      simp (e, exit_single)
        (kfree-Holds st.dd.single_buf
          (release-Holds (mapping st.dd.single_dma st.dd.single_size st.dd.single_dir)
            {c' = λ r. c r + block_of st.dd.single_buf r} h (λ r. ground arith))
          (λ r. refl))
]

exit_sg-Holds :
    (st : State) {k : Held} {c : Resource → ℕ}
    → Accounts st
    → Holds k (λ r. c r + sg_owned st.dd.sg_mapped st.dd.sg_pages st.dd.sg_nents st.dd.sg_dir r)
    → Holds (exit_sg st.dd k) c
unfolding exit_sg sg_owned
exit_sg-Holds st {c = c} v h = elim (Bool-cases st.dd.sg_mapped) [
  | inr e ↦
      simp (e, exit_sg) (record { counted = λ r. ground (arith, h.counted r); sound = h.sound })
  | inl e ↦
      simp (e, exit_sg)
        (kfree-Holds (array_of st.dd.sg_pages)
          (free_pages-Holds st.dd.sg_nents (pages_of st.dd.sg_pages)
            {c' = λ r. c r + block_of (array_of st.dd.sg_pages) r} (v.mapped e).0
            (release-Holds table
              {c' = λ r.
                c r
                + block_of (array_of st.dd.sg_pages) r
                + pages_owned (pages_of st.dd.sg_pages) r}
              (release-Holds (sg_mapping st.dd.sg_table.nents st.dd.sg_dir)
                {c' = λ r.
                  c r
                  + block_of (array_of st.dd.sg_pages) r
                  + pages_owned (pages_of st.dd.sg_pages) r
                  + is table r}
                h (λ r. rw (v.mapped e).1 (ground arith)))
              (λ r. refl))
            (λ r. refl))
          (λ r. refl))
]

exit_pools-Holds :
    (st : State) {k : Held} {c : Resource → ℕ}
    → Accounts st
    → Holds k (λ r. c r + pool_owned st.dd.dma_pool st.dd.pool_buf st.dd.pool_dma r)
    → Holds (exit_pool st.dd (exit_pool_buf st.dd k)) c
unfolding exit_pool exit_pool_buf pool_owned
exit_pools-Holds st {c = c} v h = elim (Option-cases st.dd.dma_pool) [
  | inl e ↦
      simp (e, v.pooled e, exit_pool, exit_pool_buf)
        (record { counted = λ r. ground (arith, h.counted r); sound = h.sound })
  | inr (p, e) ↦ elim (Option-cases st.dd.pool_buf) [
    | inl e' ↦ simp (e, e', exit_pool, exit_pool_buf) (release-Holds (pool p) h (λ r. ground arith))
    | inr (b, e') ↦
        simp (e, e', exit_pool, exit_pool_buf)
          (release-Holds (pool p)
            (release-Holds (pool_block p b st.dd.pool_dma) {c' = λ r. c r + is (pool p) r} h
              (λ r. ground arith))
            (λ r. refl))
  ]
]

-- A device whose account is right gives everything back when the module is unloaded.
pub exit-Holds : {st : State} → Accounts st → Holds (exit_device st) (λ r. 0)
unfolding exit_device
exit-Holds {st} v = exit_pools-Holds st v (
    exit_sg-Holds st {c = pool_part} v (
      exit_single-Holds st {c = sg_part} (
        exit_coherent-Holds st {k = st.held} {c = single_part} (record {
          counted = λ r. unfold owned in omega (arith, v.balanced.counted r);
          sound = v.balanced.sound;
        }))))
  where
    pool_part : Resource → ℕ
    pool_part r = 0 + pool_owned st.dd.dma_pool st.dd.pool_buf st.dd.pool_dma r

    sg_part : Resource → ℕ
    sg_part r = pool_part r + sg_owned st.dd.sg_mapped st.dd.sg_pages st.dd.sg_nents st.dd.sg_dir r

    single_part : Resource → ℕ
    single_part r =
        sg_part r
        + single_owned st.dd.single_mapped st.dd.single_buf st.dd.single_dma st.dd.single_size
            st.dd.single_dir r
