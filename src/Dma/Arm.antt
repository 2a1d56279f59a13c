-- ===== src/Dma/Arm.antt =====
-- 00.mDemo/08.dma/2.dma_base_arm/kDemo.c: the driver of `Dma` for ARM. Its functions are those of
-- 1.dma_base but for the zone that `dma_map_sg_dev` takes its pages from, and for the mask of 64 bits,
-- which is written `~0ULL`.
use learn_linux_drv.Prelude.{
  ℕ, ◌-◌, ◌^◌, ◌≡◌, refl, ap, ◌∙◌, List, [], ◌∷◌, Option, none, some, inl, inr, ◌==◌, if◌then◌else◌,
  Option-cases,
}
use learn_linux_drv.Kernel.{ebusy, enomem, efault, enotty, Ret, ok, err, IsUserCopy}
use learn_linux_drv.Dma.{
  Direction, user_to_kernel_dir, block, acquire, kfree, DeviceData, State, Answers, fresh_data,
  dma_bit_mask, sg_entries,
}
use learn_linux_drv.Dma.Coherent.{Param, UserSide, Reply, plain, write_back, alloc_coherent_dev}
use learn_linux_drv.Dma.Single.{map_single_dev}
use learn_linux_drv.Dma.Pool.{pool_create_dev, pool_alloc_dev}
use learn_linux_drv.Dma.Sg.{map_sg_dev, map_pages, alloc_pages, free_backwards}
use learn_linux_drv.Dma.Info.{coherent_info, single_info, sg_info, pool_info, get_info, set_mask}
use learn_linux_drv.Dma.Ioctl.{
  Command, alloc_coherent, free_coherent, read_coherents, write_coherents, map_single, unmap_single,
  sync_single, map_sg, unmap_sg, sync_sg, pool_create, pool_alloc, pool_free, pool_destroy,
  get_infos, set_masks, dma_magic, ioc_type, decode, with_param, answering, run, ioctl,
}
use learn_linux_drv.Dma.Module.{init_device, exit_device}
use learn_linux_drv.Dma.Accounts.{Holds}
use learn_linux_drv.Dma.Accounts.Safety.{Request, serve, AllLawful, no_leak_no_double_free}

-- `~x`, in 64 bits.
abbrev pub complement : ℕ → ℕ
complement x = 2 ^ 64 - 1 - x

-- The kernel's answers: those that 1.dma_base asks for, and the pages of the zone of GFP_DMA.
pub record ArmAnswers : Type 0 where
  pub common : Answers
  pub dma_page : (index : ℕ) → Option ℕ

-- `alloc_page(GFP_KERNEL | GFP_DMA)` in the place of `alloc_page(GFP_KERNEL | GFP_DMA32)`.
abbrev pub in_dma_zone : ArmAnswers → Answers
in_dma_zone a = record (a.common) { alloc_page = a.dma_page }

-- `dma_map_sg_dev`.
unfoldable pub arm_map_sg_dev : ArmAnswers → (nents direction : ℕ) → State → Ret × State
arm_map_sg_dev a nents direction st =
    let dir : Direction = user_to_kernel_dir direction in
    let cleared : DeviceData = record (st.dd) { sg_pages = none } in
    if st.dd.sg_mapped then (err ebusy, st) else elim a.common.kmalloc_array [
      | none ↦ (err enomem, record st { dd = cleared })
      | some addr ↦
          let got = alloc_pages (in_dma_zone a) nents 0 (acquire (block addr) st.held) in
          if got.complete
          then map_pages a.common nents dir (record { addr = addr; pages = got.pages }) got.held st
          else (
            err enomem,
            record st {
              dd = cleared;
              held = kfree (some addr) (free_backwards got.pages got.held);
            },
          )
    ]

-- `dma_get_info`.
unfoldable pub arm_get_info : UserSide → State → Reply
arm_get_info u st = elim u.param [
  | none ↦ plain (err efault, st)
  | some p ↦
      let dd : DeviceData = st.dd in
      let q : Param =
        pool_info dd (
          sg_info dd (single_info dd (coherent_info dd (record p { dma_addr = 0; result = 0 })))) in
      write_back u (record q { mask_bits = if dd.dma_mask == complement 0 then 64 else 32 }) st []
]

-- `m_chrdev_dma_set_mask`.
unfoldable pub arm_set_mask : Answers → (mask_bits : ℕ) → State → Ret × State
arm_set_mask a mask_bits st =
    let mask : ℕ = if mask_bits == 64 then complement 0 else dma_bit_mask 32 in
    elim a.set_mask [
      | some e ↦ (err e, st)
      | none ↦ (ok 0, record st { dd = record (st.dd) { dma_mask = mask } })
    ]

-- The `switch` of `m_chrdev_ioctl`.
unfoldable pub arm_run : ArmAnswers → UserSide → (junk : Param) → Command → State → Reply
arm_run a u junk map_sg st = with_param u st λ p.
    answering u (arm_map_sg_dev a sg_entries p.direction st)
      λ dd. record p { dma_addr = dd.sg_table.dma; count = dd.sg_table.nents; result = 0 }
arm_run a u junk get_infos st = arm_get_info u st
arm_run a u junk set_masks st = with_param u st λ p. plain (arm_set_mask a.common p.mask_bits st)
arm_run a u junk c st = run a.common u junk c st

-- `m_chrdev_ioctl`.
unfoldable pub arm_ioctl : ArmAnswers → UserSide → (junk : Param) → (cmd : ℕ) → State → Reply
arm_ioctl a u junk cmd st =
    if ioc_type cmd == dma_magic
    then elim (decode cmd) [ none ↦ plain (err enotty, st) | some c ↦ arm_run a u junk c st ]
    else plain (err enotty, st)

-- A device as `m_chr_init` leaves it.
unfoldable pub arm_init_device : State
unfolding init_device fresh_data
arm_init_device = record init_device { dd = record (init_device.dd) { dma_mask = complement 0 } }

-- One ioctl of a process.
pub record ArmRequest : Type 0 where
  pub answers : ArmAnswers
  pub user : UserSide
  pub junk : Param
  pub cmd : ℕ

-- The return values and parameter blocks that the processes get, and the device.
unfoldable pub arm_serve : List ArmRequest → State → List Reply × State
arm_serve [] st = ([], st)
arm_serve (q ∷ qs) st =
    let r = arm_ioctl q.answers q.user q.junk q.cmd st in
    let rest = arm_serve qs r.st in (r ∷ rest.0, rest.1)

-- The same ioctl on the driver of 1.dma_base, where GFP_DMA32 answers as GFP_DMA does here.
abbrev pub base_request : ArmRequest → Request
base_request q = record {
  answers = in_dma_zone q.answers;
  user = q.user;
  junk = q.junk;
  cmd = q.cmd;
}

unfoldable pub base_requests : List ArmRequest → List Request
base_requests [] = []
base_requests (q ∷ qs) = base_request q ∷ base_requests qs

-- The replies of the driver of 1.dma_base.
unfoldable pub replies : List Request → State → List Reply
replies [] st = []
replies (q ∷ qs) st = let r = ioctl q.answers q.user q.junk q.cmd st in r ∷ replies qs r.st

-- Each command does what it does in 1.dma_base.
arm_run-eq-run :
    (a : ArmAnswers) (u : UserSide) (junk : Param) (c : Command) (st : State)
    → arm_run a u junk c st ≡ run (in_dma_zone a) u junk c st
unfolding arm_run run map_sg_dev map_pages alloc_pages arm_map_sg_dev arm_get_info get_info
    arm_set_mask set_mask alloc_coherent_dev map_single_dev pool_create_dev pool_alloc_dev
arm_run-eq-run a u junk alloc_coherent st = refl
arm_run-eq-run a u junk free_coherent st = refl
arm_run-eq-run a u junk read_coherents st = refl
arm_run-eq-run a u junk write_coherents st = refl
arm_run-eq-run a u junk map_single st = refl
arm_run-eq-run a u junk unmap_single st = refl
arm_run-eq-run a u junk sync_single st = refl
arm_run-eq-run a u junk map_sg st = refl
arm_run-eq-run a u junk unmap_sg st = refl
arm_run-eq-run a u junk sync_sg st = refl
arm_run-eq-run a u junk pool_create st = refl
arm_run-eq-run a u junk pool_alloc st = refl
arm_run-eq-run a u junk pool_free st = refl
arm_run-eq-run a u junk pool_destroy st = refl
arm_run-eq-run a u junk get_infos st = refl
arm_run-eq-run a u junk set_masks st = refl

arm_ioctl-eq-ioctl :
    (q : ArmRequest) (st : State)
    → arm_ioctl q.answers q.user q.junk q.cmd st
      ≡ ioctl (in_dma_zone q.answers) q.user q.junk q.cmd st
unfolding arm_ioctl ioctl
arm_ioctl-eq-ioctl q st = elim (Option-cases (decode q.cmd)) [
  | inl e ↦ rw e refl
  | inr (c, e) ↦ rw (e, arm_run-eq-run q.answers q.user q.junk c st) refl
]

arm_serve-eq :
    (qs : List ArmRequest) (st : State)
    → arm_serve qs st ≡ (replies (base_requests qs) st, serve (base_requests qs) st)
unfolding arm_serve replies base_requests serve
arm_serve-eq [] st = refl
arm_serve-eq (q ∷ qs) st =
    rw
      (
        arm_ioctl-eq-ioctl q st,
        arm_serve-eq qs (ioctl (in_dma_zone q.answers) q.user q.junk q.cmd st).st,
      )
      refl

arm_init-eq-init : arm_init_device ≡ init_device
unfolding arm_init_device init_device fresh_data
arm_init-eq-init = refl

abbrev pub AllArmLawful : List ArmRequest → Type 0
AllArmLawful [] = Unit
AllArmLawful (q ∷ qs) = IsUserCopy q.user.copy × AllArmLawful qs

base-AllLawful : (qs : List ArmRequest) → AllArmLawful qs → AllLawful (base_requests qs)
unfolding base_requests
base-AllLawful [] law = tt
base-AllLawful (q ∷ qs) law = (law.0, base-AllLawful qs law.1)

-- The driver for ARM, on a device just initialised, gives every reply, parameter blocks included, that
-- the driver of 1.dma_base gives to the same ioctls where the zone of GFP_DMA32 answers as that of
-- GFP_DMA does, and leaves the device as that one does. Where the copies of bytes keep their contract,
-- unloading the module then leaves no resource of the device held, and none was given back that was
-- not held.
pub arm_serve-eq-serve :
    (qs : List ArmRequest)
    → AllArmLawful qs
    → let (rs, st) = arm_serve qs arm_init_device in
      (rs ≡ replies (base_requests qs) init_device)
      × (st ≡ serve (base_requests qs) init_device)
      × Holds (exit_device st) (λ r. 0)
arm_serve-eq-serve qs law =
    let e : arm_serve qs arm_init_device
        ≡ (replies (base_requests qs) init_device, serve (base_requests qs) init_device) =
      ap (arm_serve qs) arm_init-eq-init ∙ arm_serve-eq qs init_device in
    rw e (refl, refl, no_leak_no_double_free (base_requests qs) (base-AllLawful qs law))
