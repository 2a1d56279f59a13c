-- ===== src/Dma/Info.antt =====
-- dma_base/kDemo.c: the query of what is allocated, and the DMA mask.
use learn_linux_drv.Prelude.{ℕ, [], none, some, ◌==◌, if◌then◌else◌}
use learn_linux_drv.Kernel.{efault, Ret, ok, err}
use learn_linux_drv.Dma.{DeviceData, State, Answers, dma_bit_mask, dma_pool_size}
use learn_linux_drv.Dma.Coherent.{Param, UserSide, Reply, plain, write_back}

-- One paragraph of `dma_get_info` each: a later one overwrites an earlier one.
unfoldable pub coherent_info : DeviceData → Param → Param
coherent_info dd p = elim dd.coherent_buf [
  | none ↦ p
  | some _ ↦ record p { dma_addr = dd.coherent_dma; size = dd.coherent_size }
]

unfoldable pub single_info : DeviceData → Param → Param
single_info dd p =
    if dd.single_mapped then record p { dma_addr = dd.single_dma; size = dd.single_size } else p

unfoldable pub sg_info : DeviceData → Param → Param
sg_info dd p =
    if dd.sg_mapped then record p { count = dd.sg_table.nents; dma_addr = dd.sg_table.dma } else p

unfoldable pub pool_info : DeviceData → Param → Param
pool_info dd p = elim dd.pool_buf [
  | none ↦ p
  | some _ ↦ record p { dma_addr = dd.pool_dma; size = dma_pool_size }
]

mask_info : DeviceData → Param → Param
mask_info dd p = record p { mask_bits = if dd.dma_mask == dma_bit_mask 64 then 64 else 32 }

-- `dma_get_info`.
unfoldable pub get_info : UserSide → State → Reply
unfolding coherent_info single_info sg_info pool_info mask_info
get_info u st = elim u.param [
  | none ↦ plain (err efault, st)
  | some p ↦
      let dd : DeviceData = st.dd in
      let q : Param = mask_info dd (
        pool_info dd (
          sg_info dd
            (single_info dd (coherent_info dd (record p { dma_addr = 0; result = 0 }))))) in
      write_back u q st []
]

-- `m_chrdev_dma_set_mask`.
unfoldable pub set_mask : Answers → (mask_bits : ℕ) → State → Ret × State
set_mask a mask_bits st =
    let mask : ℕ = if mask_bits == 64 then dma_bit_mask 64 else dma_bit_mask 32 in
    elim a.set_mask [
      | some e ↦ (err e, st)
      | none ↦ (ok 0, record st { dd = record (st.dd) { dma_mask = mask } })
    ]
