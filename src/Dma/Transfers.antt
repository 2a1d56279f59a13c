-- ===== src/Dma/Transfers.antt =====
-- dma_base/kDemo.c: the bytes that go through the coherent buffer, what the queries report, and the
-- plain read and write of the device.
use learn_linux_drv.Prelude.{
  ℕ, ◌-◌, ◌≤◌, ◌<◌, ◌≡◌, ◌↔◌, refl, ap, true, zero, suc, List, [], ◌∷◌, none, some, arith, min,
  length, take, overwrite, slice-overwrite, length-take, take-take, ltb, ◌==◌, if◌then◌else◌,
}
use learn_linux_drv.Kernel.{ok, err, efault, UserCopy, IsUserCopy, delivered}
use learn_linux_drv.Dma.{Buffer, DeviceData, State, Answers}
use learn_linux_drv.Dma.Coherent.{Param, UserSide, read_coherent, write_coherent}
use learn_linux_drv.Dma.Info.{get_info, set_mask}
use learn_linux_drv.Dma.Module.{read, write, databuf_size}

-- Where the coherent buffer has its full size, bytes that a process writes to it come back from a
-- read of the same size, by another process if it likes, if both copies and the writing back of
-- the parameters succeed and the first copy keeps its contract: the read succeeds, hands out these
-- bytes and reports their number `n`, the size asked for or the buffer's, whichever is less.
pub read-write_coherent :
    (u w : UserSide) (st : State) (b : Buffer) (p q : Param)
    → IsUserCopy u.copy
    → st.dd.coherent_buf ≡ some b
    → length b.bytes ≡ st.dd.coherent_size
    → u.param ≡ some p
    → w.param ≡ some q
    → q.size ≡ p.size
    → (n : ℕ) → n ≡ min p.size st.dd.coherent_size
    → (u.copy.from_user p.user_addr n).1 ≡ 0
    → w.copy.to_user q.user_addr (u.copy.user_mem p.user_addr n) ≡ 0
    → w.writes_back (record q { size = n; result = 0 }) ≡ true
    → read_coherent w (write_coherent u st).st ≡ record {
      ret = ok 0;
      st = (write_coherent u st).st;
      param = some (record q { size = n; result = 0 });
      data_out = u.copy.user_mem p.user_addr n;
    }
unfolding read_coherent
read-write_coherent u w st b p q law e l eu ew eq n is_n from to back =
    rw after (ground (arith, whole))
  where
    bytes : List ℕ
    bytes = u.copy.user_mem p.user_addr n

    b' : Buffer
    b' = record b { bytes = overwrite b.bytes 0 bytes }

    after : (write_coherent u st).st ≡ record st { dd = record (st.dd) { coherent_buf = some b' } }
    after =
        unfold write_coherent in
        rw (e, eu, write_coherent) (ground (arith, law.from_user_ok p.user_addr n))

    fits : length bytes ≡ n
    fits = rw (← law.from_user_ok p.user_addr n from) (law.from_user_length p.user_addr n)

    whole : take n (overwrite b.bytes 0 bytes) ≡ bytes
    whole = slice-overwrite b.bytes 0 n bytes fits (omega arith)

take_own_length : (m : ℕ) (xs : List ℕ) → take m xs ≡ take (length (take m xs)) xs
take_own_length zero xs = refl
take_own_length (suc m) [] = refl
take_own_length (suc m) (x ∷ xs) = ap (◌∷◌ x) (take_own_length m xs)

-- With a coherent buffer of its full size and parameters that can be read, `dma_read_coherent`
-- stays within the buffer whatever size the process asks for: it hands out at most `coherent_size`
-- bytes and at most those asked for, a prefix of the buffer, and changes nothing.
pub read_coherent_bounds :
    (u : UserSide) (st : State) (b : Buffer) (p : Param)
    → st.dd.coherent_buf ≡ some b
    → length b.bytes ≡ st.dd.coherent_size
    → u.param ≡ some p
    → let r = read_coherent u st in
      (length r.data_out ≤ st.dd.coherent_size)
      × (length r.data_out ≤ p.size)
      × (r.data_out ≡ take (length r.data_out) b.bytes)
      × (r.st ≡ st)
unfolding read_coherent
read_coherent_bounds u st b p e l eu = ground (
  arith,
  length-take n b.bytes,
  take_own_length n b.bytes,
  take-take (length out - left) n b.bytes,
  length-take (min (length out - left) n) b.bytes,
  take_own_length (min (length out - left) n) b.bytes,
)
  where
    n : ℕ
    n = min p.size st.dd.coherent_size

    out : List ℕ
    out = take n b.bytes

    left : ℕ
    left = u.copy.to_user p.user_addr out

-- What `dma_get_info` reports: the address of the latest kind in the order coherent, single,
-- scatter-gather, pool that is allocated, or 0.
pub reported_dma : DeviceData → ℕ
reported_dma dd = elim dd.pool_buf [
  | some _ ↦ dd.pool_dma
  | none ↦
      if dd.sg_mapped
      then dd.sg_table.dma
      else if dd.single_mapped
      then dd.single_dma
      else elim dd.coherent_buf [ some _ ↦ dd.coherent_dma | none ↦ 0 ]
]

-- Where `dma_get_info` writes its parameters back, it reports result 0 and the DMA address of the
-- pool's block, else of the scatter-gather mapping, else of the single mapping, else of the
-- coherent buffer, else 0; and it changes nothing.
pub get_info_reports :
    (u : UserSide) (st : State) (p q : Param)
    → u.param ≡ some p
    → (get_info u st).param ≡ some q
    → (q.dma_addr ≡ reported_dma st.dd) × (q.result ≡ 0) × ((get_info u st).st ≡ st)
unfolding get_info reported_dma
get_info_reports u st p q e h = ground arith

-- Where `m_chrdev_dma_set_mask` succeeds and a following `dma_get_info` writes its parameters
-- back, it reports 64 bits if 64 were asked for, and 32 for any other number.
pub get_info-set_mask :
    (a : Answers) (u : UserSide) (bits : ℕ) (st : State) (p q : Param)
    → a.set_mask ≡ none
    → u.param ≡ some p
    → (get_info u (set_mask a bits st).1).param ≡ some q
    → q.mask_bits ≡ (if bits == 64 then 64 else 32)
unfolding get_info set_mask
get_info-set_mask a u bits st p q e eu h = ground arith

-- `m_chrdev_write` puts its closing zero inside its buffer of 30 bytes exactly if fewer than 30
-- bytes are written. It never copies more than 30 bytes, and always returns the count it was
-- given.
pub write_overruns :
    (count : ℕ)
    → ((write count).zero_at < databuf_size ↔ count < 30)
      × ((write count).copied ≤ databuf_size)
      × ((write count).ret ≡ ok count)
unfolding write
write_overruns count = ((λ h. ground arith, λ h. ground arith), ground arith, ground arith)

-- `m_chrdev_read` hands out a prefix of its text and returns its length, or -EFAULT.
pub read_prefix :
    (u : UserCopy) (text : List ℕ) (buf count : ℕ)
    → let n = min count (length text) in
      read u text buf count ≡ (
        if u.to_user buf (take n text) == 0
        then (ok n, take n text)
        else (err efault, delivered (take n text) (u.to_user buf (take n text))))
unfolding read
read_prefix u text buf count = rw clipped
  where
    clipped : (if ltb (length text) count then length text else count) ≡ min count (length text)
    clipped = ground arith
