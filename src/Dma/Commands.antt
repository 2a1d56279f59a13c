-- ===== src/Dma/Commands.antt =====
-- dma_base/kDemo.c: which command numbers `m_chrdev_ioctl` answers, and the directions it accepts.
use learn_linux_drv.Prelude.{
  ℕ, ◌≡◌, ◌≢◌, refl, inl, inr, true, false, some, arith, Option-cases, Bool-cases, ◌==◌,
}
use learn_linux_drv.Kernel.{enotty, ok, err}
use learn_linux_drv.Dma.{no_direction, user_to_kernel_dir, mapping, State, Answers, acquire, block}
use learn_linux_drv.Dma.Coherent.{Param, UserSide, plain}
use learn_linux_drv.Dma.Single.{map_single_dev}
use learn_linux_drv.Dma.Ioctl.{
  Command, alloc_coherent, number, decode, run, ioctl, ioc_type, dma_magic,
}

decode-number : (c : Command) → decode (number c) ≡ some c
unfolding decode number
decode-number alloc_coherent = refl
decode-number _ = refl

ioc_type-number : (c : Command) → (ioc_type (number c) == dma_magic) ≡ true
unfolding number
ioc_type-number alloc_coherent = refl
ioc_type-number _ = refl

number-decode : (cmd : ℕ) (c : Command) → decode cmd ≡ some c → number c ≡ cmd
unfolding decode number
number-decode cmd c h = ground arith

-- Each of the sixteen commands, under its number, reaches its own operation.
pub ioctl-number :
    (a : Answers) (u : UserSide) (junk : Param) (c : Command) (st : State)
    → ioctl a u junk (number c) st ≡ run a u junk c st
unfolding ioctl
ioctl-number a u junk c st = rw (ioc_type-number c, decode-number c)

-- A command number that is none of the sixteen gives -ENOTTY and changes nothing.
pub ioctl_unknown :
    (a : Answers) (u : UserSide) (junk : Param) (cmd : ℕ) (st : State)
    → ((c : Command) → number c ≢ cmd)
    → ioctl a u junk cmd st ≡ plain (err enotty, st)
unfolding ioctl
ioctl_unknown a u junk cmd st unknown = elim (Bool-cases (ioc_type cmd == dma_magic)) [
  | inr e ↦ rw e
  | inl e ↦ elim (Option-cases (decode cmd)) [
    | inl e' ↦ rw (e, e')
    | inr (c, e') ↦ absurd (unknown c (number-decode cmd c e'))
  ]
]

-- A direction that is none of the user's three is not refused: where nothing is mapped yet, with
-- memory and a mapping from the kernel, `dma_map_single_dev` succeeds, maps with DMA_NONE, and
-- holds the block and the mapping.
pub map_single_accepts_none :
    (a : Answers) (size direction addr : ℕ) (st : State)
    → direction ≢ 1
    → direction ≢ 2
    → direction ≢ 3
    → st.dd.single_mapped ≡ false
    → a.kmalloc ≡ some addr
    → a.mapping_error ≡ false
    → let r = map_single_dev a size direction st in
      (r.0 ≡ ok 0)
      × (r.1.dd.single_dir ≡ no_direction)
      × (r.1.held ≡ acquire (mapping a.map_single size no_direction) (acquire (block addr) st.held))
unfolding map_single_dev user_to_kernel_dir
map_single_accepts_none a size direction addr st h1 h2 h3 free mem mapped = ground arith
