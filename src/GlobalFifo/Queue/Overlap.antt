-- ===== src/GlobalFifo/Queue/Overlap.antt =====
-- ch12/globalfifo.c, the `memcpy` in `globalfifo_read`, whose source and destination can overlap.
use learn_linux_drv.Prelude.{
  ℕ, zero, suc, ◌+◌, ◌-◌, ◌*◌, ◌≤◌, ◌<◌, ◌≡◌, ◌≢◌, refl, sym, ap, ◌∙◌, List, [], ◌∷◌, arith, length,
  take, drop, slice, overwrite, set, length-set, get_or, length-overwrite, length-slice, leb, ◌||◌,
  if◌then◌else◌,
}
use learn_linux_drv.Kernel.Copy.{Memcpy, IsMemcpy}
use learn_linux_drv.GlobalFifo.{GlobalfifoDev, Request, read_out, clip}
use learn_linux_drv.GlobalFifo.Queue.{IsValid, contents, drop-contents}

-- A `memcpy` that keeps its contract, and puts a wrong byte first where the regions overlap.
pub unlucky : Memcpy
unlucky mem dst src n =
    if leb (dst + n) src || leb (src + n) dst
    then overwrite mem dst (slice mem src n)
    else set mem dst (suc (get_or mem src 0))

pub unlucky-IsMemcpy : IsMemcpy unlucky
unfolding unlucky
unlucky-IsMemcpy = record {
  length-memcpy = λ mem dst src n fits fits'. ground (
    arith,
    length-slice mem src n fits',
    length-overwrite mem dst (slice mem src n),
    length-set mem dst (suc (get_or mem src 0)),
  );
  apart = λ mem dst src n fits fits' sep. ground arith;
}

get_or-take : (n : ℕ) (xs : List ℕ) (d : ℕ) → 0 < n → get_or (take n xs) 0 d ≡ get_or xs 0 d
get_or-take zero xs d h = absurd (omega arith)
get_or-take (suc n) [] d h = refl
get_or-take (suc n) (x ∷ xs) d h = refl

get_or-drop : (n : ℕ) (xs : List ℕ) (d : ℕ) → get_or (drop n xs) 0 d ≡ get_or xs n d
get_or-drop zero xs d = refl
get_or-drop (suc n) [] d = refl
get_or-drop (suc n) (x ∷ xs) d = get_or-drop n xs d

get_or-set_first : (xs : List ℕ) (v d : ℕ) → 0 < length xs → get_or (set xs 0 v) 0 d ≡ v
get_or-set_first [] v d h = absurd (omega arith)
get_or-set_first (x ∷ xs) v d h = refl

-- The block after an overlapping move.
unlucky-overlap :
    (mem : List ℕ) (c n : ℕ) → 0 < c → c < n → unlucky mem 0 c n ≡ set mem 0 (suc (get_or mem c 0))
unfolding unlucky
unlucky-overlap mem c n pos lt = ground arith

read_out-mem :
    (memcpy : Memcpy) (r : Request) (dev : GlobalfifoDev)
    → r.count ≤ dev.current_len
    → r.copy.to_user r.buf (take r.count dev.mem) ≡ 0
    → ((read_out memcpy r dev).dev.mem ≡ memcpy dev.mem 0 r.count (dev.current_len - r.count))
      × ((read_out memcpy r dev).dev.current_len ≡ dev.current_len - r.count)
unfolding read_out clip
read_out-mem memcpy r dev h e = ground arith

-- For every valid device and every read that succeeds and takes at least one byte but less than half
-- of the contents, there is a `memcpy` that keeps its documented contract and leaves other bytes in
-- the queue than the ones that were not read.
pub overlap_may_corrupt :
    (r : Request) (dev : GlobalfifoDev)
    → IsValid dev
    → 0 < r.count
    → 2 * r.count < dev.current_len
    → r.copy.to_user r.buf (take r.count dev.mem) ≡ 0
    → (memcpy : Memcpy) × IsMemcpy memcpy
      × (contents (read_out memcpy r dev).dev ≢ drop r.count (contents dev))
overlap_may_corrupt r dev v some_bytes few e = (unlucky, unlucky-IsMemcpy, differ)
  where
    rest : ℕ
    rest = dev.current_len - r.count

    wrong : ℕ
    wrong = suc (get_or dev.mem r.count 0)

    after : contents (read_out unlucky r dev).dev ≡ take rest (set dev.mem 0 wrong)
    after =
        let (m, l) = read_out-mem unlucky r dev (omega arith) e in
        rw (m, l, unlucky-overlap dev.mem r.count rest some_bytes (omega arith))

    differ : contents (read_out unlucky r dev).dev ≢ drop r.count (contents dev)
    differ same = omega (
      arith,
      ap (λ (xs : List ℕ). get_or xs 0 0) (sym after ∙ same ∙ drop-contents dev r.count),
      get_or-take rest (set dev.mem 0 wrong) 0 (omega arith),
      get_or-set_first dev.mem wrong 0 (omega (arith, v.full, v.bounded)),
      get_or-take rest (drop r.count dev.mem) 0 (omega arith),
      get_or-drop r.count dev.mem 0,
    )
