-- ===== src/Dma/User/Streams.antt =====
-- userDemoBase.c: the tests of the single mapping, the scatter-gather mapping, the pool, the information
-- and the mask. A `malloc` of a test whose block only the program itself looks at is an argument.
use learn_linux_drv.Prelude.{ℕ, ◌*◌, Bool, true, false, none, some, if◌then◌else◌}
use learn_linux_drv.Kernel.{Ret, ok, err}
use learn_linux_drv.Dma.{Answers, State}
use learn_linux_drv.Dma.Coherent.{Param, Reply}
use learn_linux_drv.Dma.Ioctl.{
  map_single, unmap_single, map_sg, sync_sg, unmap_sg, pool_create, pool_alloc, pool_free,
  pool_destroy, get_infos, set_masks,
}
use learn_linux_drv.Dma.User.{Process, zeroed, calls}

abbrev pub single_buf_size : ℕ
single_buf_size = 8 * 1024

-- The program's numbers for the directions.
abbrev dma_user_to_device : ℕ
dma_user_to_device = 1

abbrev dma_user_from_device : ℕ
dma_user_from_device = 2

abbrev dma_user_bidirectional : ℕ
dma_user_bidirectional = 3

-- Whether a test returns 0, and the device.
pub record Ended : Type 0 where
  pub succeeded : Bool
  pub st : State

-- The program's parameter block after an ioctl.
abbrev pub filled_in : Param → Reply → Param
filled_in param reply = elim reply.param [ none ↦ param | some q ↦ q ]

-- A test gives up where an ioctl fails, and goes on where it succeeds.
unfoldable pub on_ok : (ret : Ret) → State → Ended → Ended
on_ok (ok n) st rest = rest
on_ok (err e) st rest = record { succeeded = false; st = st }

-- What a test does where an ioctl fails, and where it succeeds.
unfoldable pub either : (ret : Ret) → (failed done : Ended) → Ended
either (ok n) failed done = done
either (err e) failed done = failed

-- An ioctl that is the last one of a test.
abbrev pub ends : Reply → Ended
ends reply = on_ok reply.ret reply.st (record { succeeded = true; st = reply.st })

-- `test_single_mapping`.
unfoldable pub test_single_mapping : Process → Answers → (malloc : Bool) → State → Ended
test_single_mapping p a malloc st =
    let param : Param = record zeroed {
      size = single_buf_size;
      direction = dma_user_bidirectional;
    } in
    let mapped : Reply = calls p a map_single param st in
    on_ok mapped.ret mapped.st (
      if malloc
      then ends (calls p a unmap_single (filled_in param mapped) mapped.st)
      else record { succeeded = false; st = mapped.st })

-- `test_scatter_gather`.
unfoldable pub test_scatter_gather : Process → Answers → State → Ended
test_scatter_gather p a st =
    let param : Param = record zeroed { direction = dma_user_bidirectional } in
    let mapped : Reply = calls p a map_sg param st in
    let to : Param = record (filled_in param mapped) { direction = dma_user_to_device } in
    let synced : Reply = calls p a sync_sg to mapped.st in
    let from : Param = record (filled_in to synced) { direction = dma_user_from_device } in
    let synced' : Reply = calls p a sync_sg from synced.st in
    on_ok mapped.ret mapped.st (
      on_ok synced.ret synced.st (
        on_ok synced'.ret synced'.st
          (ends (calls p a unmap_sg (filled_in from synced') synced'.st))))

-- `test_dma_pool`. Whether its `malloc` succeeds makes no difference, an error of
-- DMA_IOCTL_POOL_FREE is printed only, and so is one of DMA_IOCTL_POOL_ALLOC, behind which the pool
-- is destroyed.
unfoldable pub test_dma_pool : Process → Answers → State → Ended
test_dma_pool p a st =
    let created : Reply = calls p a pool_create zeroed st in
    let param : Param = filled_in zeroed created in
    let got : Reply = calls p a pool_alloc param created.st in
    let param' : Param = filled_in param got in
    let given : Reply = calls p a pool_free param' got.st in
    on_ok created.ret created.st (
      either got.ret (ends (calls p a pool_destroy param' got.st))
        (ends (calls p a pool_destroy (filled_in param' given) given.st)))

-- `test_dma_info`.
unfoldable pub test_dma_info : Process → Answers → State → Ended
test_dma_info p a st = ends (calls p a get_infos zeroed st)

-- `test_dma_mask`, which prints errors and returns 0. The program's parameter block is zero but for
-- the mask, which the driver does not write back.
unfoldable pub test_dma_mask : Process → Answers → State → Ended
test_dma_mask p a st =
    let first : Reply = calls p a set_masks (record zeroed { mask_bits = 32 }) st in
    let second : Reply = calls p a set_masks (record zeroed { mask_bits = 64 }) first.st in
    record { succeeded = true; st = second.st }
