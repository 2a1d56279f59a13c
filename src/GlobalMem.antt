-- ===== src/GlobalMem.antt =====
-- 06.char_drv/1.cdev/0.ch6/globalmem.c: a character device over 4096 bytes of memory. The device is
-- its memory, an open file its position. `loff_t` is a signed, `unsigned long` an unsigned 64-bit
-- number, and `unsigned int` keeps the low 32 bits.
pub mod Access
pub mod Seek
pub mod Invariant
pub mod Setup
mod Tests
use learn_linux_drv.Prelude.{
  ℕ, zero, suc, ◌+◌, ◌-◌, ◌%◌, ◌^◌, Bool, List, [], slice, overwrite, ltb, leb, ◌==◌, if◌then◌else◌,
}
use learn_linux_drv.Prelude.Int.{ℤ, pos, pos_part, ltb_ℤ, to_u64, add_s64}
use learn_linux_drv.Kernel.{Errno, einval, efault, Ret, ok, err, UserCopy, delivered}
use learn_linux_drv.Kernel.Memory.{filled}

abbrev pub globalmem_size : ℕ
globalmem_size = 0x1000

abbrev pub mem_clear : ℕ
mem_clear = 0x1

pub record GlobalmemDev : Type 0 where
  pub mem : List ℕ

-- What `read` leaves: the return value, the position, and the bytes that the process got.
pub record ReadOut : Type 0 where
  pub ret : Ret
  pub ppos : ℤ
  pub user : List ℕ

-- What `write` leaves: the return value, the position, and the device.
pub record WriteOut : Type 0 where
  pub ret : Ret
  pub ppos : ℤ
  pub dev : GlobalmemDev

-- `if (count > GLOBALMEM_SIZE - p) count = GLOBALMEM_SIZE - p;`
pub clip : ℕ → ℕ → ℕ
clip room count = if ltb room count then room else count

pub ioctl : GlobalmemDev → (cmd : ℕ) → Ret × GlobalmemDev
ioctl dev cmd =
    if cmd == mem_clear
    then (ok 0, record dev { mem = filled 0 globalmem_size })
    else (err einval, dev)

pub read : UserCopy → GlobalmemDev → (buf size : ℕ) → (ppos : ℤ) → ReadOut
read u dev buf size ppos =
    let p : ℕ = to_u64 ppos in
    let count : ℕ = clip (globalmem_size - p) (size % 2 ^ 32) in
    let left : ℕ = u.to_user buf (slice dev.mem p count) in
    if leb globalmem_size p
    then record { ret = ok 0; ppos = ppos; user = [] }
    else if left == 0
    then record { ret = ok count; ppos = add_s64 ppos (pos count); user = slice dev.mem p count }
    else record { ret = err efault; ppos = ppos; user = delivered (slice dev.mem p count) left }

-- The bytes go straight into the device's memory, so a copy that stops half way has changed it.
pub write : UserCopy → GlobalmemDev → (buf size : ℕ) → (ppos : ℤ) → WriteOut
write u dev buf size ppos =
    let p : ℕ = to_u64 ppos in
    let count : ℕ = clip (globalmem_size - p) (size % 2 ^ 32) in
    let bytes : List ℕ = (u.from_user buf count).0 in
    let left : ℕ = (u.from_user buf count).1 in
    let dev' : GlobalmemDev = record dev { mem = overwrite dev.mem p bytes } in
    if leb globalmem_size p
    then record { ret = ok 0; ppos = ppos; dev = dev }
    else if left == 0
    then record { ret = ok count; ppos = add_s64 ppos (pos count); dev = dev' }
    else record { ret = err efault; ppos = ppos; dev = dev' }

seek_set : (f_pos offset : ℤ) → Ret × ℤ
seek_set f_pos offset =
    let low : ℕ = to_u64 offset % 2 ^ 32 in
    if ltb_ℤ offset (pos 0)
    then (err einval, f_pos)
    else if ltb globalmem_size low
    then (err einval, f_pos)
    else (ok low, pos low)

seek_cur : (f_pos offset : ℤ) → Ret × ℤ
seek_cur f_pos offset =
    let sum : ℤ = add_s64 f_pos offset in
    if ltb_ℤ (pos globalmem_size) sum
    then (err einval, f_pos)
    else if ltb_ℤ sum (pos 0)
    then (err einval, f_pos)
    else (ok (pos_part sum), sum)

unfoldable pub llseek : (f_pos offset orig : ℤ) → Ret × ℤ
unfolding seek_set seek_cur
llseek f_pos offset (pos zero) = seek_set f_pos offset
llseek f_pos offset (pos (suc zero)) = seek_cur f_pos offset
llseek f_pos offset _ = (err einval, f_pos)
