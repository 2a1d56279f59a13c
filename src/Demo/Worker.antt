-- ===== src/Demo/Worker.antt =====
-- 00.mDemo/06.thread/2.kthread_worker/kDemo.c: a worker thread and two works, which every `open`
-- makes and every `release` takes away, in three global pointers. Workers and blocks are named by
-- numbers.
use learn_linux_drv.Prelude.{
  ℕ, ◌+◌, ◌≡◌, ◌≢◌, ◌⊎◌, inl, inr, List, [], ◌∷◌, ◌++◌, Option, none, some, arith, refl, ◌==◌,
  if◌then◌else◌, Sum-cases, Option-cases,
}
use learn_linux_drv.Prelude.Count.{count}
use learn_linux_drv.Kernel.{Errno, enomem, Ret, ok, err}

-- `kthread_create_worker` and the two `kmalloc`s of one `open`.
pub record Answers : Type 0 where
  pub create_worker : Errno ⊎ ℕ
  pub kmalloc : Option ℕ
  pub kmalloc2 : Option ℕ

-- The three pointers (none stands for null and for an error pointer), the works that are queued, with the worker that has them, and those that have
-- run, and each object that was made and that was given back, the last one first.
pub record State : Type 0 where
  pub worker : Option ℕ
  pub data1 : Option ℕ
  pub data2 : Option ℕ
  pub queued : List (ℕ × ℕ)
  pub executed : List ℕ
  pub made : List ℕ
  pub given_back : List ℕ

abbrev make : ℕ → State → State
make x s = record s { made = x ∷ s.made }

abbrev give_back : ℕ → State → State
give_back x s = record s { given_back = x ∷ s.given_back }

abbrev queue_work : (worker id : ℕ) → State → State
queue_work w id s = record s { queued = s.queued ++ (w, id) ∷ [] }

-- `m_chrdev_open`.
unfoldable pub open_device : Answers → State → Ret × State
open_device a s = elim a.create_worker [
  | inl e ↦ (err e, record s { worker = none })
  | inr w ↦
      let s1 : State = make w (record s { worker = some w }) in
      elim a.kmalloc [
        | none ↦ (err enomem, give_back w (record s1 { data1 = none }))
        | some d ↦
            let s2 : State = make d (record s1 { data1 = some d }) in
            elim a.kmalloc2 [
              | none ↦ (err enomem, give_back w (give_back d (record s2 { data2 = none })))
              | some d2 ↦
                  let s3 : State = make d2 (record s2 { data2 = some d2 }) in
                  (ok 0, queue_work w 2 (queue_work w 1 s3))
            ]
      ]
]

-- What has been run of the queue: the ids of the works that `w` has, the last one first.
executed_of : (w : ℕ) → List (ℕ × ℕ) → List ℕ → List ℕ
executed_of w [] ids = ids
executed_of w (q ∷ qs) ids =
    let rest = executed_of w qs (q.1 ∷ ids) in
    let skipped = executed_of w qs ids in if q.0 == w then rest else skipped

-- What is left of the queue when `w` has run its works.
others_of : (w : ℕ) → List (ℕ × ℕ) → List (ℕ × ℕ)
others_of w [] = []
others_of w (q ∷ qs) = let rest = others_of w qs in if q.0 == w then rest else q ∷ rest

-- `kthread_flush_worker`: the worker has run all its works, each of them `my_work_func`.
flush : (w : ℕ) → State → State
flush w s = record s { executed = executed_of w s.queued s.executed; queued = others_of w s.queued }

-- `kfree`, which ignores a null pointer.
kfree : Option ℕ → State → State
kfree none s = s
kfree (some d) s = give_back d s

-- `m_chrdev_release`; `none` where it uses an error pointer.
unfoldable pub release : State → Option State
unfolding flush executed_of others_of kfree
release s = elim s.worker [
  | none ↦ none
  | some w ↦ let s1 : State = give_back w (flush w s) in some (kfree s1.data2 (kfree s1.data1 s1))
]

-- Every object was given back as often as it was made.
pub record Clean (s : State) : Type 0 where
  pub clean : (x : ℕ) → count x s.made ≡ count x s.given_back

-- Where `open` fails, whichever call it is, it has given back what it made, and queued nothing.
pub failed_open-Clean :
    (a : Answers) (e : Errno) {s : State}
    → Clean s
    → (open_device a s).0 ≡ err e
    → Clean (open_device a s).1 × ((open_device a s).1.queued ≡ s.queued)
unfolding open_device count
failed_open-Clean a e {s} v h =
    (record { clean = λ x. ground (arith, h, v.clean x) }, ground (arith, h))

-- A session that is alone, with nothing queued before: where `open` succeeds, `release` has run work
-- 1 and then work 2, left nothing queued, and given back what `open` made.
pub session-Clean :
    (a : Answers) {s : State}
    → Clean s
    → s.queued ≡ []
    → (open_device a s).0 ≡ ok 0
    → (t : State) × (release (open_device a s).1 ≡ some t)
      × Clean t
      × (t.queued ≡ [])
      × (t.executed ≡ 2 ∷ 1 ∷ s.executed)
unfolding open_device release count
session-Clean a {s} v empty h = elim (Sum-cases a.create_worker) [
  | inl (e, p) ↦ ground (arith, h, p)
  | inr (w, p) ↦ elim (Option-cases a.kmalloc) [
    | inl q ↦ ground (arith, h, p, q)
    | inr (d, q) ↦ elim (Option-cases a.kmalloc2) [
      | inl q2 ↦ ground (arith, h, p, q, q2)
      | inr (d2, q2) ↦
          rw (open_device, p, q, q2)
            (
              _,
              refl,
              record { clean = λ x. ground (arith, v.clean x) },
              ground (arith, empty),
              ground (arith, empty),
            )
    ]
  ]
]

-- Two sessions at a time: where the second `open` gets other objects than the first one, the two
-- `release`s give the second worker back twice, and the first one never.
pub overlap_double_frees :
    (w d d2 w' d' d2' : ℕ) {s t t' : State}
    → Clean s
    → w ≢ w'
    → w ≢ d'
    → w ≢ d2'
    → w' ≢ d
    → w' ≢ d2
    → w ≢ d
    → w ≢ d2
    → w' ≢ d'
    → w' ≢ d2'
    → let s1 =
        (open_device
          (record { create_worker = inr w; kmalloc = some d; kmalloc2 = some d2 })
          s).1 in
      let s2 =
        (open_device
          (record { create_worker = inr w'; kmalloc = some d'; kmalloc2 = some d2' })
          s1).1 in
      (release s2 ≡ some t)
      → release t ≡ some t'
      → (count w t'.made ≡ count w t'.given_back + 1)
        × (count w' t'.made + 1 ≡ count w' t'.given_back)
unfolding open_device release count
overlap_double_frees w d d2 w' d' d2' {s} v h1 h2 h3 h4 h5 h6 h7 h8 h9 r r' =
    (ground (arith, r, r', v.clean w), ground (arith, r, r', v.clean w'))

-- Where the device is open and a second `open` gets no worker, the `release` of the first session
-- uses an error pointer.
pub failed_open_spoils_release :
    (a : Answers) (e : Errno) (s : State)
    → a.create_worker ≡ inl e
    → release (open_device a s).1 ≡ none
unfolding open_device release
failed_open_spoils_release a e s h = ground (arith, h)
