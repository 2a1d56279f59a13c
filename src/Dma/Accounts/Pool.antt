-- ===== src/Dma/Accounts/Pool.antt =====
-- dma_base/kDemo.c: the account through the operations on the pool.
use learn_linux_drv.Prelude.{ℕ, ◌+◌, ◌≡◌, refl, inl, inr, Option, none, some, arith, Option-cases}
use learn_linux_drv.Dma.{pool, pool_block, is, Held, State, Answers}
use learn_linux_drv.Dma.Pool.{pool_create_dev, pool_alloc_dev, pool_free_dev, pool_destroy_dev}
use learn_linux_drv.Dma.Accounts.{Accounts, Holds, acquire-Holds, release-Holds, owned, pool_owned}

-- The fields of the pool and the account change together; the others stay.
abbrev set_pool : State → (pool_at buf : Option ℕ) (dma : ℕ) (held : Held) → State
set_pool st pool_at buf dma held = record st {
  dd = record (st.dd) { dma_pool = pool_at; pool_buf = buf; pool_dma = dma };
  held = held;
}

set_pool-Accounts :
    {st : State} (pool_at buf : Option ℕ) (dma : ℕ) (held : Held)
    → Accounts st
    → Holds held (owned (set_pool st pool_at buf dma held).dd)
    → (pool_at ≡ none → buf ≡ none)
    → Accounts (set_pool st pool_at buf dma held)
set_pool-Accounts pool_at buf dma held v h p = record {
  balanced = h;
  buffer = v.buffer;
  mapped = v.mapped;
  pooled = p;
}

pub pool_create-Accounts :
    (a : Answers) {st : State} → Accounts st → Accounts (pool_create_dev a st).1
unfolding pool_create_dev
pool_create-Accounts a {st} v = elim (Option-cases st.dd.dma_pool) [
  | inr (p, e) ↦ simp (e, pool_create_dev) v
  | inl e ↦ elim (Option-cases a.pool_create) [
    | inl e' ↦ simp (e, e', pool_create_dev) v
    | inr (p, e') ↦
        simp (e, e', pool_create_dev)
          (set_pool-Accounts (some p) _ _ _ v
            (acquire-Holds (pool p) v.balanced
              (λ r. unfold owned pool_owned in ground (arith, v.pooled e)))
            (λ h. cc))
  ]
]

pub pool_alloc-Accounts :
    (a : Answers) {st : State} → Accounts st → Accounts (pool_alloc_dev a st).1
unfolding pool_alloc_dev
pool_alloc-Accounts a {st} v = elim (Option-cases st.dd.dma_pool) [
  | inl e ↦ simp (e, pool_alloc_dev) v
  | inr (p, e) ↦ elim (Option-cases st.dd.pool_buf) [
    | inr (b, e') ↦ simp (e, e', pool_alloc_dev) v
    | inl e' ↦ elim (Option-cases a.pool_alloc) [
      | inl e'' ↦ simp (e, e', e'', pool_alloc_dev) v
      | inr ((addr, dma), e'') ↦
          simp (e, e', e'', pool_alloc_dev)
            (set_pool-Accounts _ (some addr) dma _ v
              (acquire-Holds (pool_block p addr dma) v.balanced
                (λ r. unfold owned pool_owned in ground arith))
              (λ h. ground arith))
    ]
  ]
]

pub pool_free-Accounts : {st : State} → Accounts st → Accounts (pool_free_dev st).1
unfolding pool_free_dev
pool_free-Accounts {st} v = elim (Option-cases st.dd.pool_buf) [
  | inl e ↦ simp (e, pool_free_dev) v
  | inr (b, e) ↦ elim (Option-cases st.dd.dma_pool) [
    | inl e' ↦ simp (e, e', pool_free_dev) v
    | inr (p, e') ↦
        simp (e, e', pool_free_dev)
          (set_pool-Accounts _ none 0 _ v
            (release-Holds (pool_block p b st.dd.pool_dma) v.balanced
              (λ r. unfold owned pool_owned in ground arith))
            (λ h. refl))
  ]
]

pub pool_destroy-Accounts : {st : State} → Accounts st → Accounts (pool_destroy_dev st).1
unfolding pool_destroy_dev
pool_destroy-Accounts {st} v = elim (Option-cases st.dd.dma_pool) [
  | inl e ↦ simp (e, pool_destroy_dev) v
  | inr (p, e) ↦ elim (Option-cases st.dd.pool_buf) [
    | inl e' ↦
        simp (e, e', pool_destroy_dev)
          (set_pool-Accounts none _ _ _ v
            (release-Holds (pool p) v.balanced (λ r. unfold owned pool_owned in ground arith))
            (λ h. refl))
    | inr (b, e') ↦
        simp (e, e', pool_destroy_dev)
          (set_pool-Accounts none none 0 _ v
            (release-Holds (pool p)
              (release-Holds (pool_block p b st.dd.pool_dma)
                {c' = λ r. owned (set_pool st none none 0 st.held).dd r + is (pool p) r} v.balanced
                (λ r. unfold owned pool_owned in ground arith))
              (λ r. refl))
            (λ h. refl))
  ]
]
