-- ===== src/GlobalMem/Access.antt =====
-- globalmem.c: what `globalmem_read` and `globalmem_write` promise, against plain reads and writes
-- of a file of fixed size.
use learn_linux_drv.Prelude.{
  ℕ, ◌+◌, ◌-◌, ◌%◌, ◌^◌, ◌≤◌, ◌<◌, ◌≡◌, refl, ◌∙◌, List, [], arith, min, length, take, drop, slice,
  overwrite, length-slice, length-overwrite, slice-overwrite, take-overwrite, drop-overwrite, ◌==◌,
  if◌then◌else◌,
}
use learn_linux_drv.Prelude.Int.{pos, to_u64-pos, add_s64-pos}
use learn_linux_drv.Kernel.{efault, ok, err, UserCopy, IsUserCopy, delivered}
use learn_linux_drv.GlobalMem.{GlobalmemDev, ReadOut, WriteOut, globalmem_size, clip, read, write}

-- The bytes that a call for `size` bytes at position `p` is about.
abbrev pub span : (p size : ℕ) → ℕ
span p size = min (size % 2 ^ 32) (globalmem_size - p)

clip-eq-min : (room count : ℕ) → clip room count ≡ min count room
unfolding clip
clip-eq-min room count = ground arith

-- A read from a memory of fixed size of fixed size at a position in it.
abbrev pub pread : UserCopy → GlobalmemDev → (buf size p : ℕ) → ReadOut
pread u dev buf size p =
    let bytes : List ℕ = slice dev.mem p (span p size) in
    let left : ℕ = u.to_user buf bytes in
    if left == 0
    then record { ret = ok (span p size); ppos = pos (p + span p size); user = bytes }
    else record { ret = err efault; ppos = pos p; user = delivered bytes left }

-- On a device of 4096 bytes, with a copy to the process that keeps its contract, and at any
-- position in the bytes or at their end, `globalmem_read` is the plain read: the count is `size`
-- modulo 2^32 cut to what is left, the bytes are the device's, the position moves on by the count,
-- and a failed copy gives -EFAULT with the position kept.
pub read-eq-pread :
    {u : UserCopy} (dev : GlobalmemDev) (buf size p : ℕ)
    → IsUserCopy u
    → length dev.mem ≡ globalmem_size
    → p ≤ globalmem_size
    → read u dev buf size (pos p) ≡ pread u dev buf size p
unfolding read
read-eq-pread {u} dev buf size p law full h =
    rw (to_u64-pos p (omega arith), clip-eq-min)
      (ground (
        arith,
        add_s64-pos p (span p size) (omega arith),
        law.to_user_le buf (slice dev.mem p (span p size)),
        length-slice dev.mem p (span p size),
        nothing,
      ))
  where
    nothing : p ≡ globalmem_size → slice dev.mem p (span p size) ≡ []
    nothing e = let z : span p size ≡ 0 = omega arith in rw z

-- A write to a memory of fixed size.
abbrev pub pwrite : UserCopy → GlobalmemDev → (buf size p : ℕ) → WriteOut
pwrite u dev buf size p =
    let n : ℕ = span p size in
    let dev' : GlobalmemDev = record dev { mem = overwrite dev.mem p (u.from_user buf n).0 } in
    if (u.from_user buf n).1 == 0
    then record { ret = ok n; ppos = pos (p + n); dev = dev' }
    else record { ret = err efault; ppos = pos p; dev = dev' }

-- From a position below the end of the memory, `globalmem_write` is the plain write, on every
-- outcome of its copy.
pub write-eq-pwrite :
    (u : UserCopy) (dev : GlobalmemDev) (buf size p : ℕ)
    → p < globalmem_size
    → write u dev buf size (pos p) ≡ pwrite u dev buf size p
unfolding write
write-eq-pwrite u dev buf size p h =
    rw (to_u64-pos p (omega arith), clip-eq-min)
      (ground (arith, add_s64-pos p (span p size) (omega arith)))

pub write_at_end :
    (u : UserCopy) (dev : GlobalmemDev) (buf size : ℕ)
    → write u dev buf size (pos globalmem_size)
      ≡ record { ret = ok 0; ppos = pos globalmem_size; dev = dev }
unfolding write
write_at_end u dev buf size = rw (to_u64-pos globalmem_size (omega arith))

-- A write whose copy succeeds puts the process's bytes into the memory.
write_copied :
    {u : UserCopy} (dev : GlobalmemDev) (buf size p : ℕ)
    → IsUserCopy u
    → p < globalmem_size
    → (u.from_user buf (span p size)).1 ≡ 0
    → write u dev buf size (pos p) ≡ record {
      ret = ok (span p size);
      ppos = pos (p + span p size);
      dev = record dev { mem = overwrite dev.mem p (u.user_mem buf (span p size)) };
    }
write_copied {u} dev buf size p law h e =
    write-eq-pwrite u dev buf size p h ∙ ground (arith, law.from_user_ok buf (span p size))

-- On a device of 4096 bytes and from a position below their end, what one process writes a later
-- read of the same span by another gives back, where both copies keep their contract and succeed:
-- both return the length of the span.
pub read-write :
    {u v : UserCopy} (dev : GlobalmemDev) (buf buf' size p : ℕ)
    → IsUserCopy u
    → IsUserCopy v
    → length dev.mem ≡ globalmem_size
    → p < globalmem_size
    → (u.from_user buf (span p size)).1 ≡ 0
    → v.to_user buf' (u.user_mem buf (span p size)) ≡ 0
    → let w = write u dev buf size (pos p) in
      (w.ret ≡ ok (span p size))
      × (read v w.dev buf' size (pos p) ≡ record {
        ret = ok (span p size);
        ppos = pos (p + span p size);
        user = u.user_mem buf (span p size);
      })
read-write {u} {v} dev buf buf' size p lu lv full h e e' =
    rw (write_copied dev buf size p lu h e)
      (refl, read-eq-pread after buf' size p lv (omega (arith, fits, kept)) (omega arith) ∙ back)
  where
    bytes : List ℕ
    bytes = u.user_mem buf (span p size)

    after : GlobalmemDev
    after = record dev { mem = overwrite dev.mem p bytes }

    fits : length bytes ≡ span p size
    fits = rw (← lu.from_user_ok buf (span p size) e) (lu.from_user_length buf (span p size))

    kept : p + length bytes ≤ length dev.mem → length after.mem ≡ length dev.mem
    kept = length-overwrite dev.mem p bytes

    back :
        pread v after buf' size p
        ≡ record { ret = ok (span p size); ppos = pos (p + span p size); user = bytes }
    back = rw (slice-overwrite dev.mem p (span p size) bytes fits (omega arith), e')

-- On a device of 4096 bytes, from a position below their end and with a copy that keeps its
-- contract, `globalmem_write` touches no byte outside the span that it was asked for, whether the
-- copy succeeds or fails: the bytes before and behind it stay, and so does the size of the memory.
pub write_frame :
    {u : UserCopy} (dev : GlobalmemDev) (buf size p : ℕ)
    → IsUserCopy u
    → length dev.mem ≡ globalmem_size
    → p < globalmem_size
    → let mem' = (write u dev buf size (pos p)).dev.mem in
      (take p mem' ≡ take p dev.mem)
      × (drop (p + span p size) mem' ≡ drop (p + span p size) dev.mem)
      × (length mem' ≡ globalmem_size)
write_frame {u} dev buf size p law full h = rw (write-eq-pwrite u dev buf size p h) (
    ground (
      arith,
      fits,
      take-overwrite dev.mem p bytes,
      drop-overwrite dev.mem p (span p size) bytes,
      length-overwrite dev.mem p bytes,
    ))
  where
    bytes : List ℕ
    bytes = (u.from_user buf (span p size)).0

    fits : length bytes ≡ span p size
    fits = law.from_user_length buf (span p size)
