-- ===== src/Dma/Single.antt =====
-- dma_base/kDemo.c: the streaming mapping of a single buffer.
use learn_linux_drv.Prelude.{ℕ, Bool, true, false, List, ◌∷◌, none, some, if◌then◌else◌}
use learn_linux_drv.Kernel.{einval, ebusy, enomem, eio, Ret, ok, err}
use learn_linux_drv.Dma.{
  Direction, bidirectional, to_device, from_device, no_direction, user_to_kernel_dir, block,
  mapping, acquire, release, kfree, Held, DeviceData, Sync, single_for_device, single_for_cpu,
  State, Answers,
}

-- `dma_map_single_dev`, once the buffer is allocated.
map_block : Answers → (size : ℕ) → Direction → (addr : ℕ) → State → Ret × State
map_block a size dir addr st =
    let dma : ℕ = a.map_single in
    let held' : Held = acquire (block addr) st.held in
    if a.mapping_error
    then (
      err eio,
      record st {
        dd = record (st.dd) { single_buf = none; single_dma = dma };
        held = kfree (some addr) held';
      },
    )
    else (
      ok 0,
      record st {
        dd = record (st.dd) {
          single_buf = some addr;
          single_dma = dma;
          single_size = size;
          single_dir = dir;
          single_mapped = true;
        };
        held = acquire (mapping dma size dir) held';
      },
    )

-- `dma_map_single_dev`.
unfoldable pub map_single_dev : Answers → (size direction : ℕ) → State → Ret × State
unfolding map_block
map_single_dev a size direction st =
    let dir : Direction = user_to_kernel_dir direction in
    if st.dd.single_mapped then (err ebusy, st) else elim a.kmalloc [
      | none ↦ (err enomem, record st { dd = record (st.dd) { single_buf = none } })
      | some addr ↦ map_block a size dir addr st
    ]

-- `dma_unmap_single_dev`.
unfoldable pub unmap_single_dev : State → Ret × State
unmap_single_dev st =
    let dd : DeviceData = st.dd in
    if dd.single_mapped
    then (
      ok 0,
      record st {
        dd = record dd {
          single_buf = none;
          single_dma = 0;
          single_size = 0;
          single_mapped = false;
        };
        held =
            kfree dd.single_buf
              (release (mapping dd.single_dma dd.single_size dd.single_dir) st.held);
      },
    )
    else (err einval, st)

-- `dir == DMA_TO_DEVICE || dir == DMA_BIDIRECTIONAL`, and the same from the device.
unfoldable pub reaches_device : Direction → Bool
reaches_device to_device = true
reaches_device bidirectional = true
reaches_device from_device = false
reaches_device no_direction = false

unfoldable pub reaches_cpu : Direction → Bool
reaches_cpu to_device = false
reaches_cpu bidirectional = true
reaches_cpu from_device = true
reaches_cpu no_direction = false

-- The sync calls for a direction, the later one first.
unfoldable pub sync_calls : (for_device for_cpu : Sync) → Direction → List Sync → List Sync
sync_calls for_device for_cpu dir log =
    let log' : List Sync = if reaches_device dir then for_device ∷ log else log in
    if reaches_cpu dir then for_cpu ∷ log' else log'

-- `dma_sync_single_dev`: the direction is the caller's, not that of the mapping.
unfoldable pub sync_single_dev : (direction : ℕ) → State → Ret × State
sync_single_dev direction st =
    let dir : Direction = user_to_kernel_dir direction in
    let dma : ℕ = st.dd.single_dma in
    let size : ℕ = st.dd.single_size in
    if st.dd.single_mapped
    then (
      ok 0,
      record st {
        syncs =
            sync_calls (single_for_device dma size dir) (single_for_cpu dma size dir) dir st.syncs;
      },
    )
    else (err einval, st)
