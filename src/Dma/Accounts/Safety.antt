-- ===== src/Dma/Accounts/Safety.antt =====
-- dma_base/kDemo.c: sequences of ioctls, and the unloading of the module behind them.
use learn_linux_drv.Prelude.{ℕ, refl, List, [], ◌∷◌}
use learn_linux_drv.Kernel.{IsUserCopy}
use learn_linux_drv.Dma.{State, Answers, fresh_data}
use learn_linux_drv.Dma.Coherent.{Param, UserSide}
use learn_linux_drv.Dma.Ioctl.{ioctl}
use learn_linux_drv.Dma.Module.{exit_device, init_device}
use learn_linux_drv.Dma.Accounts.{
  Accounts, Holds, owned, coherent_owned, single_owned, sg_owned, pool_owned,
}
use learn_linux_drv.Dma.Accounts.Commands.{ioctl-Accounts}
use learn_linux_drv.Dma.Accounts.Exit.{exit-Holds}

-- One ioctl of a process: the kernel's answers, the process's side, the block on the stack, and the
-- command number.
pub record Request : Type 0 where
  pub answers : Answers
  pub user : UserSide
  pub junk : Param
  pub cmd : ℕ

unfoldable pub serve : List Request → State → State
serve [] st = st
serve (q ∷ qs) st = serve qs (ioctl q.answers q.user q.junk q.cmd st).st

abbrev pub AllLawful : List Request → Type 0
AllLawful [] = Unit
AllLawful (q ∷ qs) = IsUserCopy q.user.copy × AllLawful qs

serve-Accounts :
    (qs : List Request) {st : State} → AllLawful qs → Accounts st → Accounts (serve qs st)
unfolding serve
serve-Accounts [] law v = v
serve-Accounts (q ∷ qs) law v =
    serve-Accounts qs law.1 (ioctl-Accounts q.answers q.user q.junk q.cmd law.0 v)

init-Accounts : Accounts init_device
unfolding init_device fresh_data owned coherent_owned single_owned sg_owned pool_owned
init-Accounts = record {
  balanced = record { counted = λ r. refl; sound = refl };
  buffer = λ b h. cc;
  mapped = λ h. cc;
  pooled = λ h. refl;
}

-- Whatever ioctls processes make on a device just initialised, one after the other, and whatever
-- the kernel answers, where the copies of bytes keep their contract: unloading the module then
-- leaves no resource of the device held, and at no time was one given back that was not held, or
-- with other arguments than it was got with.
pub no_leak_no_double_free :
    (qs : List Request) → AllLawful qs → Holds (exit_device (serve qs init_device)) (λ r. 0)
no_leak_no_double_free qs law = exit-Holds (serve-Accounts qs law init-Accounts)

-- After any ioctls on a device just initialised, whatever the kernel answers, where the copies of
-- bytes keep their contract, the device's data names exactly the resources that are held, and
-- nothing was given back that was not held.
pub serve_accounts : (qs : List Request) → AllLawful qs → Accounts (serve qs init_device)
serve_accounts qs law = serve-Accounts qs law init-Accounts
