-- ===== src/Dma/Tests.antt =====
-- dma_base/kDemo.c: a session with the device, and the theorems at inputs that meet their hypotheses.
use learn_linux_drv.Prelude.{
  ◌+◌, ◌≡◌, ◌≢◌, refl, true, false, List, [], ◌∷◌, none, some, arith, ◌==◌, if◌then◌else◌, update,
}
use learn_linux_drv.Kernel.{ok}
use learn_linux_drv.Kernel.Memory.{filled, length-filled}
use learn_linux_drv.Kernel.Samples.{good_copy, good_copy-IsUserCopy}
use learn_linux_drv.Dma.{Answers, State, Buffer, fresh_data}
use learn_linux_drv.Dma.Coherent.{Param, UserSide, read_coherent, write_coherent}
use learn_linux_drv.Dma.Arm.{ArmAnswers, ArmRequest}
use learn_linux_drv.Dma.Ioctl.{
  Command, alloc_coherent, map_sg, pool_create, pool_alloc, number, get_infos,
}
use learn_linux_drv.Dma.Module.{exit_device, init_device, Devices}
use learn_linux_drv.Kernel.Chrdev.{LoadAnswers}
use learn_linux_drv.Dma.Load.{Loaded}
use learn_linux_drv.Dma.Accounts.{Holds}
use learn_linux_drv.Dma.Accounts.Safety.{Request, serve, AllLawful, no_leak_no_double_free}
use learn_linux_drv.Dma.Transfers.{read-write_coherent}

-- A kernel that grants everything, and one that runs out of pages at the third.
abbrev rich : Answers
rich = record {
  alloc_coherent = some (0x1000, 0x9000);
  pool_alloc = some (0x2000, 0xa000);
  kmalloc = some 0x3000;
  map_single = 0xb000;
  mapping_error = false;
  kmalloc_array = some 0x4000;
  alloc_page = λ i. some (0x5000 + i);
  sg_alloc_table = none;
  map_sg = 4;
  sg_dma = 0xc000;
  pool_create = some 0x6000;
  set_mask = none;
}

abbrev two_pages : Answers
two_pages = record rich { alloc_page = λ i. if i == 2 then none else some (0x5000 + i) }

abbrev block_of_16 : Param
block_of_16 = record {
  size = 16;
  dma_addr = 0;
  user_addr = 7;
  direction = 1;
  count = 0;
  mask_bits = 64;
  result = 0;
}

abbrev process : UserSide
process = record { param = some block_of_16; writes_back = λ p. true; copy = good_copy }

abbrev asks : Answers → Command → Request
asks a c = record { answers = a; user = process; junk = block_of_16; cmd = number c }

abbrev session : List Request
session =
    asks rich alloc_coherent
    ∷ asks two_pages map_sg
    ∷ asks rich map_sg
    ∷ asks rich pool_create
    ∷ asks rich pool_alloc
    ∷ []

session-AllLawful : AllLawful session
session-AllLawful = (
  good_copy-IsUserCopy,
  (
    good_copy-IsUserCopy,
    (good_copy-IsUserCopy, (good_copy-IsUserCopy, (good_copy-IsUserCopy, tt))),
  ),
)

-- The same calls on the driver for ARM, whose zone has no page 2.
abbrev arm_answers : ArmAnswers
arm_answers = record { common = rich; dma_page = two_pages.alloc_page }

abbrev arm_asks : Command → ArmRequest
arm_asks c = record { answers = arm_answers; user = process; junk = block_of_16; cmd = number c }

abbrev arm_session : List ArmRequest
arm_session = arm_asks alloc_coherent ∷ arm_asks map_sg ∷ arm_asks get_infos ∷ []

no_leak_no_double_free_example : Holds (exit_device (serve session init_device)) (λ r. 0)
no_leak_no_double_free_example = no_leak_no_double_free session session-AllLawful

no_command_0 : (c : Command) → number c ≢ 0
unfolding number
no_command_0 alloc_coherent h = omega arith
no_command_0 _ h = omega arith

-- A device with a coherent buffer of 16 bytes.
abbrev buffer : Buffer
buffer = record { addr = 0x1000; bytes = filled 0xaa 16 }

abbrev with_buffer : State
with_buffer = record {
  dd = record fresh_data { coherent_buf = some buffer; coherent_dma = 0x9000; coherent_size = 16 };
  held = record { count = λ _. 0; fault = false };
  syncs = [];
}

read-write_coherent_example :
    read_coherent process (write_coherent process with_buffer).st ≡ record {
      ret = ok 0;
      st = (write_coherent process with_buffer).st;
      param = some block_of_16;
      data_out = filled 7 16;
    }
unfolding fresh_data
read-write_coherent_example =
    read-write_coherent process process with_buffer buffer block_of_16 block_of_16
      good_copy-IsUserCopy refl (length-filled 0xaa 16) refl refl refl 16 refl refl refl refl

abbrev reported : Param
reported = record block_of_16 { dma_addr = 0x9000; mask_bits = 64 }

-- A kernel that grants everything while the module is loaded.
abbrev grants : LoadAnswers
grants = record {
  alloc = none;
  major = 240;
  class_create = true;
  cdev_add = λ i. none;
  device_create = λ i. true;
}

abbrev devices : Devices
devices = λ _. init_device

abbrev loaded : Loaded
loaded = record {
  dev_major = 240;
  ledger = record { regions = (240, 2) ∷ []; blocks = 0; cdevs = (240, 1) ∷ (240, 0) ∷ [] };
  classes = 1;
  nodes = (240, 1) ∷ (240, 0) ∷ [];
  devices = update (update devices 0 init_device) 1 init_device;
  masked = update (update (λ _. false) 0 true) 1 true;
}
