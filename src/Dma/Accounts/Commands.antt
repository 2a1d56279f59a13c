-- ===== src/Dma/Accounts/Commands.antt =====
-- dma_base/kDemo.c: the account through one ioctl.
use learn_linux_drv.Prelude.{ℕ, ◌≡◌, inl, inr, List, arith, Option-cases, Bool-cases, ◌==◌}
use learn_linux_drv.Kernel.{Ret, ok, err, IsUserCopy}
use learn_linux_drv.Dma.{DeviceData, sg_entries, Sync, State, Answers}
use learn_linux_drv.Dma.Coherent.{Param, UserSide, Reply}
use learn_linux_drv.Dma.Single.{sync_single_dev}
use learn_linux_drv.Dma.Sg.{sync_sg_dev}
use learn_linux_drv.Dma.Info.{get_info, set_mask}
use learn_linux_drv.Dma.Ioctl.{
  Command, alloc_coherent, free_coherent, read_coherents, write_coherents, map_single, unmap_single,
  sync_single, map_sg, unmap_sg, sync_sg, pool_create, pool_alloc, pool_free, pool_destroy,
  get_infos, set_masks, decode, run, ioctl, with_param, answering, ioc_type, dma_magic,
}
use learn_linux_drv.Dma.Accounts.{Accounts, owned}
use learn_linux_drv.Dma.Accounts.Coherent.{
  alloc_coherent-Accounts, free_coherent-Accounts, write_coherent-Accounts, read_coherent-same,
}
use learn_linux_drv.Dma.Accounts.Single.{map_single-Accounts, unmap_single-Accounts}
use learn_linux_drv.Dma.Accounts.Pool.{
  pool_create-Accounts, pool_alloc-Accounts, pool_free-Accounts, pool_destroy-Accounts,
}
use learn_linux_drv.Dma.Accounts.Sg.{map_sg-Accounts, unmap_sg-Accounts}

synced : {st : State} (log : List Sync) → Accounts st → Accounts (record st { syncs = log })
synced log v = record {
  balanced = v.balanced;
  buffer = v.buffer;
  mapped = v.mapped;
  pooled = v.pooled;
}

sync_single-Accounts : (d : ℕ) {st : State} → Accounts st → Accounts (sync_single_dev d st).1
unfolding sync_single_dev
sync_single-Accounts d {st} v = elim (Bool-cases st.dd.single_mapped) [
  | inl e ↦ simp (e, sync_single_dev) (synced _ v)
  | inr e ↦ simp (e, sync_single_dev) v
]

sync_sg-Accounts : (d : ℕ) {st : State} → Accounts st → Accounts (sync_sg_dev d st).1
unfolding sync_sg_dev
sync_sg-Accounts d {st} v = elim (Bool-cases st.dd.sg_mapped) [
  | inl e ↦ simp (e, sync_sg_dev) (synced _ v)
  | inr e ↦ simp (e, sync_sg_dev) v
]

set_mask-Accounts :
    (a : Answers) (bits : ℕ) {st : State} → Accounts st → Accounts (set_mask a bits st).1
unfolding set_mask owned
set_mask-Accounts a bits {st} v = elim (Option-cases a.set_mask) [
  | inr (code, e) ↦ rw (e, set_mask) v
  | inl e ↦
      rw (e, set_mask)
        (record { balanced = v.balanced; buffer = v.buffer; mapped = v.mapped; pooled = v.pooled })
]

get_info-same : (u : UserSide) (st : State) → (get_info u st).st ≡ st
unfolding get_info
get_info-same u st = ground arith

-- The two wrappers of a command.
with_param-Accounts :
    (u : UserSide) {st : State} (f : Param → Reply)
    → Accounts st
    → ((p : Param) → Accounts (f p).st)
    → Accounts (with_param u st f).st
unfolding with_param
with_param-Accounts u f v h = elim (Option-cases u.param) [
  | inl e ↦ rw (e, with_param) v
  | inr (p, e) ↦ rw (e, with_param) (h p)
]

answering-Accounts :
    (u : UserSide) (r : Ret × State) (fill : DeviceData → Param)
    → Accounts r.1
    → Accounts (answering u r fill).st
unfolding answering
answering-Accounts u (ok n, st) fill v = elim (Bool-cases (u.writes_back (fill st.dd))) [
  | inl e ↦ rw (e, answering) v
  | inr e ↦ rw (e, answering) v
]
answering-Accounts u (err e, st) fill v = v

-- Every command keeps the account right, whatever the kernel answers and the process does.
run-Accounts :
    (a : Answers) (u : UserSide) (junk : Param) (c : Command) {st : State}
    → IsUserCopy u.copy
    → Accounts st
    → Accounts (run a u junk c st).st
unfolding run
run-Accounts a u junk alloc_coherent {st} law v =
    with_param-Accounts u _ v λ p. answering-Accounts u _ _ (alloc_coherent-Accounts a p.size v)
run-Accounts a u junk free_coherent law v = free_coherent-Accounts v
run-Accounts a u junk read_coherents {st} law v = rw (read_coherent-same u st) v
run-Accounts a u junk write_coherents law v = write_coherent-Accounts u law v
run-Accounts a u junk map_single law v =
    with_param-Accounts u _ v
      λ p. answering-Accounts u _ _ (map_single-Accounts a p.size p.direction v)
run-Accounts a u junk unmap_single law v = unmap_single-Accounts v
run-Accounts a u junk sync_single law v =
    with_param-Accounts u _ v λ p. sync_single-Accounts p.direction v
run-Accounts a u junk map_sg law v =
    with_param-Accounts u _ v
      λ p. answering-Accounts u _ _ (map_sg-Accounts a sg_entries p.direction v)
run-Accounts a u junk unmap_sg law v = unmap_sg-Accounts v
run-Accounts a u junk sync_sg law v = with_param-Accounts u _ v λ p. sync_sg-Accounts p.direction v
run-Accounts a u junk pool_create law v = pool_create-Accounts a v
run-Accounts a u junk pool_alloc law v = answering-Accounts u _ _ (pool_alloc-Accounts a v)
run-Accounts a u junk pool_free law v = pool_free-Accounts v
run-Accounts a u junk pool_destroy law v = pool_destroy-Accounts v
run-Accounts a u junk get_infos {st} law v = rw (get_info-same u st) v
run-Accounts a u junk set_masks law v =
    with_param-Accounts u _ v λ p. set_mask-Accounts a p.mask_bits v

-- So does `m_chrdev_ioctl`, for every command number.
pub ioctl-Accounts :
    (a : Answers) (u : UserSide) (junk : Param) (cmd : ℕ) {st : State}
    → IsUserCopy u.copy
    → Accounts st
    → Accounts (ioctl a u junk cmd st).st
unfolding ioctl
ioctl-Accounts a u junk cmd {st} law v = elim (Bool-cases (ioc_type cmd == dma_magic)) [
  | inr e ↦ simp (e, ioctl) v
  | inl e ↦ elim (Option-cases (decode cmd)) [
    | inl e' ↦ simp (e, e', ioctl) v
    | inr (c, e') ↦ simp (e, e', ioctl) (run-Accounts a u junk c law v)
  ]
]
