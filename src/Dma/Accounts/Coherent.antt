-- ===== src/Dma/Accounts/Coherent.antt =====
-- dma_base/kDemo.c: the account through the operations on the coherent buffer.
use learn_linux_drv.Prelude.{
  ℕ, ◌≡◌, refl, inl, inr, List, some, arith, length, min, overwrite, length-overwrite, Option-cases,
}
use learn_linux_drv.Kernel.{IsUserCopy}
use learn_linux_drv.Kernel.Memory.{length-filled}
use learn_linux_drv.Dma.{coherent, Buffer, State, Answers}
use learn_linux_drv.Dma.Coherent.{
  alloc_coherent_dev, free_coherent_dev, read_coherent, write_coherent, UserSide,
}
use learn_linux_drv.Dma.Accounts.{Accounts, acquire-Holds, release-Holds, owned, coherent_owned}

pub alloc_coherent-Accounts :
    (a : Answers) (size : ℕ) {st : State} → Accounts st → Accounts (alloc_coherent_dev a size st).1
unfolding alloc_coherent_dev
alloc_coherent-Accounts a size {st} v = elim (Option-cases st.dd.coherent_buf) [
  | inr (b, e) ↦ rw (e, alloc_coherent_dev) v
  | inl e ↦ elim (Option-cases a.alloc_coherent) [
    | inl e' ↦ rw (e, e', alloc_coherent_dev) v
    | inr ((addr, dma), e') ↦
        rw (e, e', alloc_coherent_dev)
          (record {
            balanced =
                acquire-Holds (coherent size addr dma) v.balanced
                  (λ r. unfold owned coherent_owned in ground arith);
            buffer = λ b h. ground (arith, length-filled 0xaa size);
            mapped = v.mapped;
            pooled = v.pooled;
          })
  ]
]

pub free_coherent-Accounts : {st : State} → Accounts st → Accounts (free_coherent_dev st).1
unfolding free_coherent_dev
free_coherent-Accounts {st} v = elim (Option-cases st.dd.coherent_buf) [
  | inl e ↦ rw (e, free_coherent_dev) v
  | inr (b, e) ↦
      rw (e, free_coherent_dev)
        (record {
          balanced =
              release-Holds (coherent st.dd.coherent_size b.addr st.dd.coherent_dma) v.balanced
                (λ r. unfold owned coherent_owned in ground arith);
          buffer = λ b' h. cc;
          mapped = v.mapped;
          pooled = v.pooled;
        })
]

-- The buffer with other bytes, as many as before.
rewritten :
    {st : State} (b b' : Buffer)
    → Accounts st
    → st.dd.coherent_buf ≡ some b
    → b'.addr ≡ b.addr
    → length b'.bytes ≡ length b.bytes
    → Accounts (record st { dd = record (st.dd) { coherent_buf = some b' } })
rewritten {st} b b' v e same_addr same_length = record {
  balanced = record {
    counted = λ r. unfold owned coherent_owned in ground (arith, v.balanced.counted r);
    sound = v.balanced.sound;
  };
  buffer = λ c h. ground (arith, v.buffer b e);
  mapped = v.mapped;
  pooled = v.pooled;
}

pub write_coherent-Accounts :
    (u : UserSide) {st : State}
    → IsUserCopy u.copy
    → Accounts st
    → Accounts (write_coherent u st).st
unfolding write_coherent
write_coherent-Accounts u {st} law v = elim (Option-cases st.dd.coherent_buf) [
  | inl e ↦ rw (e, write_coherent) v
  | inr (b, e) ↦ elim (Option-cases u.param) [
    | inl e' ↦ rw (e, e', write_coherent) v
    | inr (p, e') ↦
        let n : ℕ = min p.size st.dd.coherent_size in
        let bytes : List ℕ = (u.copy.from_user p.user_addr n).0 in
        let b' : Buffer = record b { bytes = overwrite b.bytes 0 bytes } in
        let after : (write_coherent u st).st
            ≡ record st { dd = record (st.dd) { coherent_buf = some b' } } =
          rw (e, e', write_coherent) (ground arith) in
        rw after (
          rewritten b b' v e refl (
            length-overwrite b.bytes 0 bytes
              (omega (arith, law.from_user_length p.user_addr n, v.buffer b e))))
  ]
]

pub read_coherent-same : (u : UserSide) (st : State) → (read_coherent u st).st ≡ st
unfolding read_coherent
read_coherent-same u st = ground arith
