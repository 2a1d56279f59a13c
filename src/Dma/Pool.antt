-- ===== src/Dma/Pool.antt =====
-- dma_base/kDemo.c: the DMA pool and the one buffer taken from it.
use learn_linux_drv.Prelude.{none, some}
use learn_linux_drv.Kernel.{einval, ebusy, enomem, Ret, ok, err}
use learn_linux_drv.Dma.{pool, pool_block, acquire, release, State, Answers}

-- `dma_pool_create_dev`.
unfoldable pub pool_create_dev : Answers → State → Ret × State
pool_create_dev a st = elim st.dd.dma_pool [
  | some _ ↦ (err ebusy, st)
  | none ↦ elim a.pool_create [
    | none ↦ (err enomem, st)
    | some p ↦ (
      ok 0,
      record st { dd = record (st.dd) { dma_pool = some p }; held = acquire (pool p) st.held },
    )
  ]
]

-- `dma_pool_alloc_dev`.
unfoldable pub pool_alloc_dev : Answers → State → Ret × State
pool_alloc_dev a st = elim st.dd.dma_pool [
  | none ↦ (err einval, st)
  | some p ↦ elim st.dd.pool_buf [
    | some _ ↦ (err ebusy, st)
    | none ↦ elim a.pool_alloc [
      | none ↦ (err enomem, st)
      | some (addr, dma) ↦ (
        ok 0,
        record st {
          dd = record (st.dd) { pool_buf = some addr; pool_dma = dma };
          held = acquire (pool_block p addr dma) st.held;
        },
      )
    ]
  ]
]

-- `dma_pool_free_dev`.
unfoldable pub pool_free_dev : State → Ret × State
pool_free_dev st = elim st.dd.pool_buf [
  | none ↦ (err einval, st)
  | some addr ↦ elim st.dd.dma_pool [
    | none ↦ (err einval, st)
    | some p ↦ (
      ok 0,
      record st {
        dd = record (st.dd) { pool_buf = none; pool_dma = 0 };
        held = release (pool_block p addr st.dd.pool_dma) st.held;
      },
    )
  ]
]

-- `dma_pool_destroy_dev`: a buffer that is still out is freed first.
unfoldable pub pool_destroy_dev : State → Ret × State
pool_destroy_dev st = elim st.dd.dma_pool [
  | none ↦ (err einval, st)
  | some p ↦ elim st.dd.pool_buf [
    | none ↦ (
      ok 0,
      record st { dd = record (st.dd) { dma_pool = none }; held = release (pool p) st.held },
    )
    | some addr ↦ (
      ok 0,
      record st {
        dd = record (st.dd) { dma_pool = none; pool_buf = none; pool_dma = 0 };
        held = release (pool p) (release (pool_block p addr st.dd.pool_dma) st.held);
      },
    )
  ]
]
