-- ===== src/Persons/Account.antt =====
-- 3.list/kDemo.c: the blocks that are held, against the persons on the list.
use learn_linux_drv.Prelude.{
  false, ℕ, ◌+◌, ◌≡◌, refl, ap, List, [], ◌∷◌, Option, none, some, arith, ◌==◌, update,
  Option-cases, inl, inr, Bool-cases,
}
use learn_linux_drv.Prelude.Count.{count, count-append}
use learn_linux_drv.Persons.{
  ListApi, IsListApi, insert_before, erase, Person, State, new_person, allocate, kfree, first_above,
  first_with, insert_person_sorted, add_person_tail, add_person_head, delete_person_by_id,
  move_head_to_tail, clear_entries, clear_list, merge_lists_demo, start, demo,
}

count-insert_before :
    {L : Type 0} (api : ListApi L) (f : ℕ → Person) (id b a p : ℕ) (xs : List ℕ)
    → first_above api f id xs ≡ some p
    → count b (insert_before a p xs) ≡ count b (a ∷ []) + count b xs
unfolding first_above count
count-insert_before api f id b a p [] e = cc
count-insert_before api f id b a p (x ∷ xs) e = elim (Bool-cases (x == p)) [
  | inl h ↦ rw h (omega arith)
  | inr h ↦ ground (arith, count-insert_before api f id b a p xs)
]

count-erase :
    (b p : ℕ) (xs : List ℕ)
    → (count p xs ≡ 0 → ⊥)
    → count b xs ≡ count b (p ∷ []) + count b (erase p xs)
unfolding count
count-erase b p [] e = absurd (e refl)
count-erase b p (x ∷ xs) e = elim (Bool-cases (x == p)) [
  | inl h ↦ ground arith
  | inr h ↦ ground (arith, count-erase b p xs)
]

first_with-on_list :
    {L : Type 0} (api : ListApi L) (f : ℕ → Person) (id p : ℕ) (xs : List ℕ)
    → first_with api f id xs ≡ some p
    → count p xs ≡ 0
    → ⊥
unfolding first_with count
first_with-on_list api f id p [] e z = cc
first_with-on_list api f id p (x ∷ xs) e z = ground (arith, first_with-on_list api f id p xs)

-- Each block is held as often as its person is on the list, and as `other` counts.
pub record Balanced {L : Type 0} (api : ListApi L) (other : ℕ → ℕ) (s : State L) : Type 0 where
  pub sound : s.fault ≡ false
  pub balanced : (b : ℕ) → s.blocks b ≡ other b + count b (api.items s.head)

module _ {L : Type 0} (api : ListApi L) (law : IsListApi api) where
  pub add_person_tail-Balanced :
      (k : Option ℕ) (id : ℕ) (name : List ℕ) {c : ℕ → ℕ} {s : State L}
      → Balanced api c s
      → Balanced api c (add_person_tail api k id name s)
  unfolding add_person_tail allocate count
  add_person_tail-Balanced none id name v = v
  add_person_tail-Balanced (some a) id name {s} v = record {
    sound = v.sound;
    balanced = λ b.
        rw (law.items-add_tail a s.head)
          (ground (arith, v.balanced b, count-append b (api.items s.head) (a ∷ [])));
  }

  pub add_person_head-Balanced :
      (k : Option ℕ) (id : ℕ) (name : List ℕ) {c : ℕ → ℕ} {s : State L}
      → Balanced api c s
      → Balanced api c (add_person_head api k id name s)
  unfolding add_person_head allocate count
  add_person_head-Balanced none id name v = v
  add_person_head-Balanced (some a) id name {s} v = record {
    sound = v.sound;
    balanced = λ b. rw (law.items-add a s.head) (ground (arith, v.balanced b));
  }

  pub insert_person_sorted-Balanced :
      (k : Option ℕ) (id : ℕ) (name : List ℕ) {c : ℕ → ℕ} {s : State L}
      → Balanced api c s
      → Balanced api c (insert_person_sorted api k id name s)
  unfolding insert_person_sorted allocate count
  insert_person_sorted-Balanced none id name v = v
  insert_person_sorted-Balanced (some a) id name {s} v =
      let f : ℕ → Person = update s.persons a (new_person id name) in
      elim (Option-cases (first_above api f id (api.items s.head))) [
        | inl e ↦
            rw (e, insert_person_sorted)
              (record {
                sound = v.sound;
                balanced = λ b.
                    rw (law.items-add_tail a s.head)
                      (ground (arith, v.balanced b, count-append b (api.items s.head) (a ∷ [])));
              })
        | inr (p, e) ↦
            rw (e, insert_person_sorted)
              (record {
                sound = v.sound;
                balanced = λ b. rw (law.items-add_before a p s.head) (
                    ground (
                      arith,
                      v.balanced b,
                      count-insert_before api f id b a p (api.items s.head) e,
                    ));
              })
      ]

  pub delete_person_by_id-Balanced :
      (id : ℕ) {c : ℕ → ℕ} {s : State L}
      → Balanced api c s
      → Balanced api c (delete_person_by_id api id s)
  unfolding delete_person_by_id kfree count
  delete_person_by_id-Balanced id {s} v =
      elim (Option-cases (first_with api s.persons id (api.items s.head))) [
        | inl e ↦ rw (e, delete_person_by_id) v
        | inr (p, e) ↦
            rw (e, delete_person_by_id)
              (record {
                sound = ground (
                  arith,
                  v.sound,
                  v.balanced p,
                  first_with-on_list api s.persons id p (api.items s.head) e,
                );
                balanced = λ b. rw (law.items-del p s.head) (
                    ground (
                      arith,
                      v.balanced b,
                      count-erase b p (api.items s.head)
                          (first_with-on_list api s.persons id p (api.items s.head) e),
                    ));
              })
      ]

  -- The rounds of `clear_list`: what is left on the list goes, and its blocks.
  clear_entries-Balanced :
      (ps : List ℕ) {c : ℕ → ℕ} {s : State L}
      → api.items s.head ≡ ps
      → Balanced api c s
      → (api.items (clear_entries api ps s).head ≡ []) × Balanced api c (clear_entries api ps s)
  unfolding clear_entries kfree count
  clear_entries-Balanced [] e v = (e, v)
  clear_entries-Balanced (p ∷ ps) {s} e v = clear_entries-Balanced ps left (record {
    sound = ground (arith, v.sound, v.balanced p, ap (count p) e);
    balanced = λ b. rw left (ground (arith, v.balanced b, ap (count b) e));
  })
    where
      left : api.items (api.del p s.head) ≡ ps
      left = rw (law.items-del p s.head, e) (ground arith)

  moved :
      (xs : List ℕ) {c : ℕ → ℕ} {s : State L}
      → api.items s.head ≡ xs
      → Balanced api c s
      → Balanced api c (move_head_to_tail api s)
  unfolding move_head_to_tail count
  moved [] e v = rw (e, move_head_to_tail) v
  moved (x ∷ xs) {c} {s} e v =
      rw (e, move_head_to_tail)
        (record {
          sound = v.sound;
          balanced = λ b.
              rw (law.items-move_tail x s.head, e)
                (ground (arith, v.balanced b, ap (count b) e, count-append b xs (x ∷ [])));
        })

  pub move_head_to_tail-Balanced :
      {c : ℕ → ℕ} {s : State L} → Balanced api c s → Balanced api c (move_head_to_tail api s)
  move_head_to_tail-Balanced {s = s} v = moved (api.items s.head) refl v

  pub merge_lists_demo-Balanced :
      (k1 k2 : Option ℕ) (id1 id2 : ℕ) (name1 name2 : List ℕ) {c : ℕ → ℕ} {s : State L}
      → Balanced api c s
      → Balanced api c (merge_lists_demo api k1 k2 id1 id2 name1 name2 s)
  unfolding merge_lists_demo count
  merge_lists_demo-Balanced k1 k2 id1 id2 name1 name2 {c} {s} v = record {
    sound = both.sound;
    balanced = λ b.
        rw (law.items-splice_tail extra.head s.head) (
          omega (arith, both.balanced b, count-append b (api.items s.head) (api.items extra.head)));
  }
    where
      extra : State L
      extra =
          add_person_tail api k2 id2 name2
            (add_person_tail api k1 id1 name1 (record s { head = api.empty }))

      both : Balanced api (λ b. c b + count b (api.items s.head)) extra
      both = add_person_tail-Balanced k2 id2 name2 (
          add_person_tail-Balanced k1 id1 name1 (record {
            sound = v.sound;
            balanced = λ b. rw (law.items-empty) (omega (arith, v.balanced b));
          }))

  -- With a list that behaves as documented, where every person is on the list exactly as often as its
  -- block is held, `clear_list` leaves an empty list and no block held.
  clear_list_frees :
      (s : State L)
      → Balanced api (λ b. 0) s
      → (api.items (clear_list api s).head ≡ [])
        × ((b : ℕ) → (clear_list api s).blocks b ≡ 0)
        × ((clear_list api s).fault ≡ false)
  unfolding clear_list count
  clear_list_frees s v =
      let r = clear_entries-Balanced (api.items s.head) refl v in
      (r.0, (λ b. omega (arith, r.1.balanced b, ap (count b) r.0)), r.1.sound)

start-Balanced :
    {L : Type 0} (api : ListApi L)
    → IsListApi api
    → (junk : ℕ → Person) → Balanced api (λ b. 0) (start api junk)
unfolding start count
start-Balanced api law junk = record { sound = refl; balanced = λ b. rw (law.items-empty) refl }

-- With a list that behaves as documented, whatever `kmalloc` answers each time, the demonstration in
-- `m_chr_init` ends with an empty list, and gives every block back, and it never frees a block that is not
-- held.
pub demo_frees_all :
    {L : Type 0} (api : ListApi L) (kmalloc : ℕ → Option ℕ) (junk : ℕ → Person)
    → IsListApi api
    → let s = demo api kmalloc (start api junk) in
      (api.items s.head ≡ []) × ((b : ℕ) → s.blocks b ≡ 0) × (s.fault ≡ false)
unfolding demo start
demo_frees_all api kmalloc junk law = clear_list_frees api law _ (
    merge_lists_demo-Balanced api law (kmalloc 4) (kmalloc 5) 300 400 _ _ (
      move_head_to_tail-Balanced api law (
        delete_person_by_id-Balanced api law 40 (
          insert_person_sorted-Balanced api law (kmalloc 3) 30 _ (
            add_person_head-Balanced api law (kmalloc 2) 10 _ (
              add_person_tail-Balanced api law (kmalloc 1) 40 _ (
                add_person_tail-Balanced api law (kmalloc 0) 20 _
                  (start-Balanced api law junk))))))))
