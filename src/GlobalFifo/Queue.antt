-- ===== src/GlobalFifo/Queue.antt =====
-- ch12/globalfifo.c: what a device holds, seen as a queue of bytes, oldest first, and what each
-- operation under the mutex does to it.
pub mod Overlap
use learn_linux_drv.Prelude.{
  ℕ, ◌+◌, ◌-◌, ◌*◌, ◌≤◌, ◌<◌, ◌≡◌, ◌≢◌, refl, sym, ap, ap₂, ◌∙◌, ◌⊎◌, inl, inr, List, [], ◌∷◌, ◌++◌,
  Option, none, some, arith, min, length, take, drop, slice, overwrite, length-take, length-slice,
  length-overwrite, slice-overwrite, take-overwrite, take-add, take-take, drop-take, ltb, ◌==◌,
  if◌then◌else◌, dec_lt,
}
use learn_linux_drv.Kernel.{Ret, err, ok, efault, UserCopy, IsUserCopy}
use learn_linux_drv.Kernel.Memory.{filled, length-filled}
use learn_linux_drv.Kernel.Copy.{Memcpy, IsMemcpy}
use learn_linux_drv.GlobalFifo.{
  GlobalfifoDev, Outcome, Request, Event, put, got, cleared, globalfifo_size, fifo_clear, clip,
  read_out, write_in, ioctl, poll, pollin_mask, pollout_mask,
}

-- The bytes that are waiting to be read.
abbrev pub contents : GlobalfifoDev → List ℕ
contents dev = take dev.current_len dev.mem

-- The memory has its 4096 bytes, and `current_len` counts some of them.
pub record IsValid (dev : GlobalfifoDev) : Type 0 where
  pub full : length dev.mem ≡ globalfifo_size
  pub bounded : dev.current_len ≤ globalfifo_size

-- What an event makes of a queue of at most 4096 bytes.
abbrev pub Effect : Option Event → (before after : List ℕ) → Type 0
Effect none q q' = q' ≡ q
Effect (some (put xs)) q q' = (q' ≡ q ++ xs) × (length q' ≤ globalfifo_size)
Effect (some (got xs)) q q' = q ≡ xs ++ q'
Effect (some cleared) q q' = q' ≡ []

clip-eq-min : (limit count : ℕ) → clip limit count ≡ min count limit
unfolding clip
clip-eq-min limit count = ground arith

-- Reading from a queue: at most `count` of the oldest bytes, all of them or, where the copy to the
-- process fails, none.
abbrev pub dequeue : Request → List ℕ → Ret × List ℕ × Option Event
dequeue r q =
    let xs : List ℕ = take r.count q in
    if r.copy.to_user r.buf xs == 0
    then (ok (length xs), drop r.count q, some (got xs))
    else (err efault, q, none)

-- Writing to it: as many of the process's bytes as there is room for, or none.
abbrev pub enqueue : Request → List ℕ → Ret × List ℕ × Option Event
enqueue r q =
    let n : ℕ = min r.count (globalfifo_size - length q) in
    if (r.copy.from_user r.buf n).1 == 0
    then (ok n, q ++ (r.copy.from_user r.buf n).0, some (put (r.copy.from_user r.buf n).0))
    else (err efault, q, none)

-- What a client sees of an operation.
abbrev pub seen : Outcome → Ret × List ℕ × Option Event
seen o = (o.ret, contents o.dev, o.event)

pub length-contents : {dev : GlobalfifoDev} → IsValid dev → length (contents dev) ≡ dev.current_len
length-contents {dev} v = omega (arith, v.full, v.bounded, length-take dev.current_len dev.mem)

-- The contents behind the first `count` bytes.
pub drop-contents :
    (dev : GlobalfifoDev) (count : ℕ)
    → drop count (contents dev) ≡ take (dev.current_len - count) (drop count dev.mem)
drop-contents dev count = drop-take count dev.current_len dev.mem

-- Where `memcpy` moves the rest of the bytes to the front, they are the contents.
moved :
    (memcpy : Memcpy) {dev : GlobalfifoDev} (c : ℕ)
    → IsValid dev
    → c ≤ dev.current_len
    → memcpy dev.mem 0 c (dev.current_len - c)
      ≡ overwrite dev.mem 0 (slice dev.mem c (dev.current_len - c))
    → take (dev.current_len - c) (memcpy dev.mem 0 c (dev.current_len - c))
      ≡ slice dev.mem c (dev.current_len - c)
moved memcpy {dev} c v h e = rw e (
    slice-overwrite dev.mem 0 (dev.current_len - c) (slice dev.mem c (dev.current_len - c))
      (length-slice dev.mem c (dev.current_len - c) (omega (arith, v.full, v.bounded)))
      (omega arith))

-- What a read leaves in the queue, by the count that it reads and by the count that is asked for.
rest-contents :
    (dev : GlobalfifoDev) (count : ℕ)
    → slice dev.mem (min count dev.current_len) (dev.current_len - min count dev.current_len)
      ≡ drop count (contents dev)
rest-contents dev count = elim (dec_lt dev.current_len count) [
  | yes more ↦
      let e : dev.current_len - min count dev.current_len ≡ 0 = omega arith in
      let z : dev.current_len - count ≡ 0 = omega arith in rw (drop-contents dev count, e, z)
  | no fewer ↦
      let e : min count dev.current_len ≡ count = omega arith in rw (e, drop-contents dev count)
]

-- The call of `memcpy` in `globalfifo_read` is right, for the count that is read.
abbrev pub MovesDown : Memcpy → GlobalfifoDev → (count : ℕ) → Type 0
MovesDown memcpy dev count =
    memcpy dev.mem 0 count (dev.current_len - count)
    ≡ overwrite dev.mem 0 (slice dev.mem count (dev.current_len - count))

pub read_refines :
    (memcpy : Memcpy) (r : Request) {dev : GlobalfifoDev}
    → IsValid dev
    → MovesDown memcpy dev (min r.count dev.current_len)
    → seen (read_out memcpy r dev) ≡ dequeue r (contents dev)
unfolding read_out
read_refines memcpy r {dev} v m = rw clip-eq-min (
    ground (
      arith,
      take-take r.count dev.current_len dev.mem,
      rest-contents dev r.count,
      moved memcpy (min r.count dev.current_len) v (omega arith) m,
      length-take (min r.count dev.current_len) dev.mem,
    ))

-- Bytes written behind the contents are appended to them.
write_appends :
    (dev : GlobalfifoDev) (bytes : List ℕ)
    → IsValid dev
    → dev.current_len + length bytes ≤ globalfifo_size
    → take (dev.current_len + length bytes) (overwrite dev.mem dev.current_len bytes)
      ≡ contents dev ++ bytes
write_appends dev bytes v h =
    take-add dev.current_len (length bytes) after
    ∙ ap₂ ◌++◌ (take-overwrite dev.mem dev.current_len bytes below)
        (slice-overwrite dev.mem dev.current_len (length bytes) bytes refl below)
  where
    after : List ℕ
    after = overwrite dev.mem dev.current_len bytes

    below : dev.current_len ≤ length dev.mem
    below = omega (arith, v.full, v.bounded)

-- On a valid device, with a copy from the process that keeps its contract, `globalfifo_write`
-- behind its loop is a write to the queue, on every outcome of the copy: same return value, same
-- contents, same change.
pub write_refines :
    (r : Request) {dev : GlobalfifoDev}
    → IsUserCopy r.copy
    → IsValid dev
    → seen (write_in r dev) ≡ enqueue r (contents dev)
unfolding write_in
write_refines r {dev} law v = rw clip-eq-min (
    ground (
      arith,
      law.from_user_length r.buf room,
      length-contents v,
      write_appends dev bytes v (omega (arith, law.from_user_length r.buf room)),
      take-overwrite dev.mem dev.current_len bytes,
    ))
  where
    room : ℕ
    room = min r.count (globalfifo_size - dev.current_len)

    bytes : List ℕ
    bytes = (r.copy.from_user r.buf room).0

-- On a valid device, and where at least half of the contents is asked for, the documented contract of
-- `memcpy` is enough for `globalfifo_read` behind its loop to be a read from the queue, on every outcome
-- of its copy: same return value, same bytes, same rest.
pub read_half :
    (memcpy : Memcpy) (r : Request) {dev : GlobalfifoDev}
    → IsMemcpy memcpy
    → IsValid dev
    → dev.current_len ≤ 2 * r.count
    → seen (read_out memcpy r dev) ≡ dequeue r (contents dev)
read_half memcpy r {dev} law v h = read_refines memcpy r v (
    law.apart dev.mem 0 (min r.count dev.current_len) _ (omega (arith, v.full, v.bounded))
      (omega (arith, v.full, v.bounded)) (inl (omega arith)))

-- Each operation keeps the size of the memory, and `current_len` within it.
pub read_out-IsValid :
    (memcpy : Memcpy) (r : Request) {dev : GlobalfifoDev}
    → IsMemcpy memcpy
    → IsValid dev
    → IsValid (read_out memcpy r dev).dev
unfolding read_out
read_out-IsValid memcpy r {dev} law v = rw clip-eq-min (
    ground (
      arith,
      law.length-memcpy dev.mem 0 (min r.count dev.current_len)
          (dev.current_len - min r.count dev.current_len),
    ))

pub write_in-IsValid :
    (r : Request) {dev : GlobalfifoDev}
    → IsUserCopy r.copy
    → IsValid dev
    → IsValid (write_in r dev).dev
unfolding write_in
write_in-IsValid r {dev} law v = rw clip-eq-min (
    ground (
      arith,
      law.from_user_length r.buf room,
      length-overwrite dev.mem dev.current_len (r.copy.from_user r.buf room).0,
    ))
  where
    room : ℕ
    room = min r.count (globalfifo_size - dev.current_len)

pub ioctl-IsValid : (cmd : ℕ) {dev : GlobalfifoDev} → IsValid dev → IsValid (ioctl cmd dev).dev
unfolding ioctl
ioctl-IsValid cmd v = ground (arith, length-filled 0 globalfifo_size)

-- On a valid device, `globalfifo_poll` reports it readable exactly when it holds a byte, and
-- writable exactly when it has room for one.
pub poll_lem :
    (dev : GlobalfifoDev)
    → IsValid dev
    → (poll dev).ret
      ≡ ok (
          (if ltb 0 (length (contents dev)) then pollin_mask else 0)
          + (if ltb (length (contents dev)) globalfifo_size then pollout_mask else 0))
unfolding poll
poll_lem dev v = ground (arith, length-contents v)
