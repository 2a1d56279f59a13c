-- ===== src/Dma/Coherent.antt =====
-- dma_base/kDemo.c: the coherent buffer.
use learn_linux_drv.Prelude.{
  ℕ, Bool, List, [], Option, none, some, min, take, overwrite, ◌==◌, if◌then◌else◌,
}
use learn_linux_drv.Kernel.{einval, ebusy, enomem, efault, Ret, ok, err, UserCopy, delivered}
use learn_linux_drv.Kernel.Memory.{filled}
use learn_linux_drv.Dma.{coherent, acquire, release, Buffer, State, Answers}

-- `dma_alloc_coherent_dev`.
unfoldable pub alloc_coherent_dev : Answers → (size : ℕ) → State → Ret × State
alloc_coherent_dev a size st = elim st.dd.coherent_buf [
  | some _ ↦ (err ebusy, st)
  | none ↦ elim a.alloc_coherent [
    | none ↦ (err enomem, st)
    | some (addr, dma) ↦ (
      ok 0,
      record st {
        dd = record (st.dd) {
          coherent_buf = some (record { addr = addr; bytes = filled 0xaa size });
          coherent_dma = dma;
          coherent_size = size;
        };
        held = acquire (coherent size addr dma) st.held;
      },
    )
  ]
]

-- `dma_free_coherent_dev`.
unfoldable pub free_coherent_dev : State → Ret × State
free_coherent_dev st = elim st.dd.coherent_buf [
  | none ↦ (err einval, st)
  | some b ↦ (
    ok 0,
    record st {
      dd = record (st.dd) { coherent_buf = none; coherent_dma = 0; coherent_size = 0 };
      held = release (coherent st.dd.coherent_size b.addr st.dd.coherent_dma) st.held;
    },
  )
]

-- `struct dma_ioctl_param`, without the bytes that no command uses. `direction` is the bit pattern
-- of an `int`.
pub record Param : Type 0 where
  pub size : ℕ
  pub dma_addr : ℕ
  pub user_addr : ℕ
  pub direction : ℕ
  pub count : ℕ
  pub mask_bits : ℕ
  pub result : ℕ

-- The process's side of an ioctl: its parameter block (`none` where it cannot be read), whether a
-- block can be written back, and the copies of plain bytes.
pub record UserSide : Type 0 where
  pub param : Option Param
  pub writes_back : Param → Bool
  pub copy : UserCopy

-- What an ioctl leaves: the return value, the device, the parameter block that was written back, and
-- the bytes that the process got.
pub record Reply : Type 0 where
  pub ret : Ret
  pub st : State
  pub param : Option Param
  pub data_out : List ℕ

abbrev pub plain : Ret × State → Reply
plain r = record { ret = r.0; st = r.1; param = none; data_out = [] }

-- `copy_to_user(uparam, &param, sizeof(param))` at the end of a command.
abbrev pub write_back : UserSide → Param → State → List ℕ → Reply
write_back u p st out =
    if u.writes_back p
    then record { ret = ok 0; st = st; param = some p; data_out = out }
    else record { ret = err efault; st = st; param = none; data_out = out }

-- `dma_read_coherent`.
unfoldable pub read_coherent : UserSide → State → Reply
read_coherent u st = elim st.dd.coherent_buf [
  | none ↦ plain (err einval, st)
  | some b ↦ elim u.param [
    | none ↦ plain (err efault, st)
    | some p ↦
        let copy_size : ℕ = min p.size st.dd.coherent_size in
        let out : List ℕ = take copy_size b.bytes in
        let left : ℕ = u.copy.to_user p.user_addr out in
        if left == 0
        then write_back u (record p { size = copy_size; result = 0 }) st out
        else record { ret = err efault; st = st; param = none; data_out = delivered out left }
  ]
]

-- `dma_write_coherent`. The bytes go straight into the buffer, also where the copy stops half way.
unfoldable pub write_coherent : UserSide → State → Reply
write_coherent u st = elim st.dd.coherent_buf [
  | none ↦ plain (err einval, st)
  | some b ↦ elim u.param [
    | none ↦ plain (err efault, st)
    | some p ↦
        let copy_size : ℕ = min p.size st.dd.coherent_size in
        let bytes : List ℕ = (u.copy.from_user p.user_addr copy_size).0 in
        let left : ℕ = (u.copy.from_user p.user_addr copy_size).1 in
        let b' : Buffer = record b { bytes = overwrite b.bytes 0 bytes } in
        let st' : State = record st { dd = record (st.dd) { coherent_buf = some b' } } in
        if left == 0
        then write_back u (record p { size = copy_size; result = 0 }) st' []
        else plain (err efault, st')
  ]
]
