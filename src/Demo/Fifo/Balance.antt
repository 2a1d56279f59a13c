-- ===== src/Demo/Fifo/Balance.antt =====
-- fifo/kDemo.c: the loops that empty a FIFO, the nodes that are held, and the lock.
use learn_linux_drv.Prelude.{
  ℕ, zero, suc, ◌+◌, ◌≡◌, refl, ap, ◌∙◌, inl, inr, Bool, true, false, List, [], ◌∷◌, Option, none,
  some, arith, length, ltb, Bool-cases, Option-cases,
}
use learn_linux_drv.Prelude.Count.{count, count-append}
use learn_linux_drv.Kernel.{Errno, enomem, Ret, ok, err}
use learn_linux_drv.Demo.Fifo.{
  FifoApi, IsFifoApi, State, drain, acquire, kfree, put_nodes, free_nodes, bytes_part, nodes_part,
  fifo_demo,
}

-- Each block is held as often as it is in `cls_fifo`, and as `other` counts.
pub record Balanced {F : Type 0} (api : FifoApi F) (other : ℕ → ℕ) (s : State F) : Type 0 where
  pub balanced : (b : ℕ) → s.blocks b ≡ other b + count b (api.items s.cls_fifo)

module _ {F : Type 0} (api : FifoApi F) (law : IsFifoApi api) where
  drains :
      (xs : List ℕ) (f : F)
      → api.items f ≡ xs
      → (f' : F) × (drain api (suc (length xs)) f ≡ some f') × (api.items f' ≡ [])
  unfolding drain
  drains [] f e =
      let g = law.get_empty f e in
      ((api.get f).1, rw (drain, ap (λ r. r.0) g) refl, rw (ap (λ r. r.1) g) e)
  drains (x ∷ xs) f e =
      let (f', d, z) = drains xs (api.get f).1 (law.get_some f x xs e).1 in
      (f', rw (drain, (law.get_some f x xs e).0) d, z)

  -- The first loop of `fifo_demo` ends.
  bytes_part_ends : (f : F) → (f' : F) × (bytes_part api f ≡ some f') × (api.items f' ≡ [])
  bytes_part_ends f = unfold bytes_part in drains _ _ refl

  -- What the second loop leaves.
  record Emptied (other : ℕ → ℕ) (s t : State F) : Type 0 where
    empty : api.items t.cls_fifo ≡ []
    rest : Balanced api other t
    same_m_fifo : t.m_fifo ≡ s.m_fifo

  frees_nodes :
      (xs : List ℕ) {c : ℕ → ℕ} {s : State F}
      → api.items s.cls_fifo ≡ xs
      → Balanced api c s
      → (t : State F) × (free_nodes api (suc (length xs)) s ≡ some t) × Emptied c s t
  unfolding free_nodes kfree count
  frees_nodes [] {c} {s} e v =
      let g = law.get_empty s.cls_fifo e in
      (
        record s { cls_fifo = (api.get s.cls_fifo).1 },
        rw (free_nodes, ap (λ r. r.0) g) refl,
        record {
          empty = rw (ap (λ r. r.1) g) e;
          rest = record { balanced = λ b. rw (ap (λ r. r.1) g) (v.balanced b) };
          same_m_fifo = refl;
        },
      )
  frees_nodes (x ∷ xs) {c} {s} e v =
      let (t, d, z) =
        frees_nodes xs {s = kfree api x (record s { cls_fifo = (api.get s.cls_fifo).1 })}
          (law.get_some s.cls_fifo x xs e).1
          (record {
            balanced = λ b.
                rw ((law.get_some s.cls_fifo x xs e).1)
                  (ground (arith, v.balanced b, ap (count b) e));
          }) in
      (
        t,
        rw (free_nodes, (law.get_some s.cls_fifo x xs e).0) d,
        record { empty = z.empty; rest = z.rest; same_m_fifo = z.same_m_fifo },
      )

  put_nodes-Balanced :
      (kmalloc : ℕ → Option ℕ) (i n : ℕ) {c : ℕ → ℕ} {s : State F}
      → Balanced api c s
      → Balanced api c (put_nodes api kmalloc i n s).1
        × ((put_nodes api kmalloc i n s).1.locked ≡ s.locked)
        × ((put_nodes api kmalloc i n s).1.m_fifo ≡ s.m_fifo)
  unfolding put_nodes acquire kfree count
  put_nodes-Balanced kmalloc i zero v = (v, refl, refl)
  put_nodes-Balanced kmalloc i (suc n) {c} {s} v = elim (Option-cases (kmalloc i)) [
    | inl e ↦ rw (e, put_nodes) (v, refl, refl)
    | inr (a, e) ↦ elim (Bool-cases (ltb (length (api.items s.cls_fifo)) (api.size s.cls_fifo))) [
      | inl room ↦
          rw (e, put_nodes, law.put_lem a s.cls_fifo, room)
            (put_nodes-Balanced kmalloc (i + 1) n (record {
              balanced = λ b.
                  rw (law.items-put a s.cls_fifo, room)
                    (ground (arith, v.balanced b, count-append b (api.items s.cls_fifo) (a ∷ [])));
            }))
      | inr full ↦
          rw (e, put_nodes, law.put_lem a s.cls_fifo, full)
            (
              record {
                balanced =
                    λ b. rw (law.items-put a s.cls_fifo, full) (ground (arith, v.balanced b));
              },
              refl,
              refl,
            )
    ]
  ]

  -- With a kfifo that behaves as documented, and with the lock free, no node in the FIFO and no block
  -- held, `fifo_demo` returns, whatever `kmalloc` answers: both of its loops that empty a FIFO end by an
  -- answer of `kfifo_get`.
  pub fifo_demo_returns :
      (kmalloc : ℕ → Option ℕ) (s : State F)
      → s.locked ≡ false
      → ((b : ℕ) → s.blocks b ≡ 0)
      → api.items s.cls_fifo ≡ []
      → (ret : Ret) × (s' : State F) × (fifo_demo api kmalloc s ≡ some (ret, s'))
  unfolding fifo_demo nodes_part count
  fifo_demo_returns kmalloc s free none_held empty = elim (Bool-cases r.0) [
    | inl went ↦
        let (t, d, z) = frees_nodes (api.items r.1.cls_fifo) refl kept.0 in
        (ok 0, record t { locked = false }, ground (arith, free, ended, went, d))
    | inr failed ↦ (err enomem, r.1, ground (arith, free, ended, failed))
  ]
    where
      f' : F
      f' = (bytes_part_ends s.m_fifo).0

      ended : bytes_part api s.m_fifo ≡ some f'
      ended = (bytes_part_ends s.m_fifo).1

      r : Bool × State F
      r = put_nodes api kmalloc 0 3 (record s { locked = true; m_fifo = f' })

      kept : Balanced api (λ b. 0) r.1 × (r.1.locked ≡ true) × (r.1.m_fifo ≡ f')
      kept =
          put_nodes-Balanced kmalloc 0 3 {s = record s { locked = true; m_fifo = f' }}
            (record { balanced = λ b. ground (arith, none_held b, ap (count b) empty) })

  -- With a kfifo that behaves as documented, and from a state with the lock free, no node in the
  -- FIFO and no block held: if `fifo_demo` returns 0, then both FIFOs are empty, no block is held,
  -- and the lock is free.
  pub fifo_demo_clean :
      (kmalloc : ℕ → Option ℕ) (s s' : State F)
      → ((b : ℕ) → s.blocks b ≡ 0)
      → api.items s.cls_fifo ≡ []
      → fifo_demo api kmalloc s ≡ some (ok 0, s')
      → (api.items s'.m_fifo ≡ [])
        × (api.items s'.cls_fifo ≡ [])
        × ((b : ℕ) → s'.blocks b ≡ 0)
        × (s'.locked ≡ false)
  unfolding fifo_demo nodes_part count
  fifo_demo_clean kmalloc s s' none_held empty e = rw (← over) (
    ap api.items freed.2.same_m_fifo ∙ ap api.items kept.2 ∙ (bytes_part_ends s.m_fifo).2,
    freed.2.empty,
    (λ b. ground (arith, freed.2.rest.balanced b, ap (count b) freed.2.empty)),
    refl,
  )
    where
      f' : F
      f' = (bytes_part_ends s.m_fifo).0

      ended : bytes_part api s.m_fifo ≡ some f'
      ended = (bytes_part_ends s.m_fifo).1

      r : Bool × State F
      r = put_nodes api kmalloc 0 3 (record s { locked = true; m_fifo = f' })

      kept : Balanced api (λ b. 0) r.1 × (r.1.locked ≡ true) × (r.1.m_fifo ≡ f')
      kept =
          put_nodes-Balanced kmalloc 0 3 {s = record s { locked = true; m_fifo = f' }}
            (record { balanced = λ b. ground (arith, none_held b, ap (count b) empty) })

      freed :
          (t : State F) × (free_nodes api (suc (length (api.items r.1.cls_fifo))) r.1 ≡ some t)
          × Emptied (λ b. 0) r.1 t
      freed = frees_nodes (api.items r.1.cls_fifo) refl kept.0

      over : record (freed.0) { locked = false } ≡ s'
      over = ground (arith, e, ended, freed.1)

put_nodes-locked :
    {F : Type 0} (api : FifoApi F) (kmalloc : ℕ → Option ℕ) (i n : ℕ) (s : State F)
    → (put_nodes api kmalloc i n s).1.locked ≡ s.locked
unfolding put_nodes acquire kfree
put_nodes-locked api kmalloc i zero s = refl
put_nodes-locked api kmalloc i (suc n) s = elim (Option-cases (kmalloc i)) [
  | inl e ↦ rw (e, put_nodes)
  | inr (a, e) ↦ elim (Bool-cases (api.put a s.cls_fifo).0) [
    | inl p ↦ rw (e, put_nodes, p) (put_nodes-locked api kmalloc (i + 1) n _)
    | inr p ↦ rw (e, put_nodes, p)
  ]
]

nodes_part-locked :
    {F : Type 0} (api : FifoApi F) (kmalloc : ℕ → Option ℕ) (e : Errno) (s s' : State F)
    → nodes_part api kmalloc s ≡ some (err e, s')
    → s'.locked ≡ s.locked
unfolding nodes_part
nodes_part-locked api kmalloc e s s' h = ground (arith, h, put_nodes-locked api kmalloc 0 3 s)

-- Whenever `fifo_demo` returns an error, it still has the lock, and every later call of it waits for
-- the lock forever.
pub failed_demo_deadlocks :
    {F : Type 0} (api : FifoApi F) (kmalloc later : ℕ → Option ℕ) (e : Errno) (s s' : State F)
    → fifo_demo api kmalloc s ≡ some (err e, s')
    → (s'.locked ≡ true) × (fifo_demo api later s' ≡ none)
unfolding fifo_demo
failed_demo_deadlocks {F = F} api kmalloc later e s s' h = (held, rw held)
  where
    held : s'.locked ≡ true
    held = elim (Option-cases (bytes_part api s.m_fifo)) [
      | inl n ↦ ground (arith, h, n)
      | inr (f, m) ↦
          nodes_part-locked api kmalloc e (record s { locked = true; m_fifo = f }) s'
            (ground (arith, h, m))
    ]

-- With memory for none of its nodes, and a kfifo that behaves as documented, `fifo_demo` on a free lock
-- returns -ENOMEM.
pub fifo_demo_no_memory :
    {F : Type 0} (api : FifoApi F) (kmalloc : ℕ → Option ℕ) (s : State F)
    → IsFifoApi api
    → s.locked ≡ false
    → kmalloc 0 ≡ none
    → (s' : State F) × (fifo_demo api kmalloc s ≡ some (err enomem, s'))
unfolding fifo_demo nodes_part put_nodes
fifo_demo_no_memory api kmalloc s law free e =
    let (f, d, z) = bytes_part_ends api law s.m_fifo in
    (record s { locked = true; m_fifo = f }, ground (arith, free, e, d))
