-- ===== src/Persons/Order.antt =====
-- 3.list/kDemo.c: the order of the list under `insert_person_sorted`.
use learn_linux_drv.Prelude.{
  ℕ, ◌≤◌, ◌<◌, ◌≡◌, ◌≢◌, refl, List, [], ◌∷◌, ◌++◌, none, some, arith, ltb, if◌then◌else◌, update,
  Option-cases, inl, inr, Bool-cases,
}
use learn_linux_drv.Persons.{
  ListApi, IsListApi, insert_before, Person, State, new_person, allocate, first_above,
  insert_person_sorted,
}

-- The entries with a new one in front of the first whose number is greater.
pub place : (ℕ → Person) → (id a : ℕ) → List ℕ → List ℕ
place f id a [] = a ∷ []
place f id a (x ∷ xs) =
    let rest = place f id a xs in if ltb id (f x).id then a ∷ x ∷ xs else x ∷ rest

-- The numbers of the entries.
abbrev pub ids : (ℕ → Person) → List ℕ → List ℕ
ids f [] = []
ids f (x ∷ xs) = (f x).id ∷ ids f xs

abbrev pub AllFrom : (low : ℕ) → List ℕ → Type 0
AllFrom low [] = Unit
AllFrom low (x ∷ xs) = (low ≤ x) × AllFrom low xs

-- In ascending order.
abbrev pub Sorted : List ℕ → Type 0
Sorted [] = Unit
Sorted (x ∷ xs) = AllFrom x xs × Sorted xs

-- An address that is not on the list.
abbrev pub Fresh : (a : ℕ) → List ℕ → Type 0
Fresh a [] = Unit
Fresh a (x ∷ xs) = (x ≢ a) × Fresh a xs

first_above-place :
    {L : Type 0} (api : ListApi L) (f : ℕ → Person) (id a : ℕ) (xs : List ℕ)
    → first_above api f id xs ≡ none
    → xs ++ a ∷ [] ≡ place f id a xs
unfolding first_above place
first_above-place api f id a [] e = refl
first_above-place api f id a (x ∷ xs) e = elim (Bool-cases (ltb id (f x).id)) [
  | inl b ↦ ground arith
  | inr b ↦ ground (arith, first_above-place api f id a xs)
]

found-place :
    {L : Type 0} (api : ListApi L) (f : ℕ → Person) (id a p : ℕ) (xs : List ℕ)
    → first_above api f id xs ≡ some p
    → (id < (f p).id) × (insert_before a p xs ≡ place f id a xs)
unfolding first_above place
found-place api f id a p [] e = cc
found-place api f id a p (x ∷ xs) e = elim (Bool-cases (ltb id (f x).id)) [
  | inl b ↦ ground arith
  | inr b ↦ ground (arith, found-place api f id a p xs)
]

module _ {L : Type 0} (api : ListApi L) where
  -- What an insertion leaves on the list.
  pub insert-items :
      (a id : ℕ) (name : List ℕ) (s : State L)
      → IsListApi api
      → api.items (insert_person_sorted api (some a) id name s).head
        ≡ place (allocate api a id name s).persons id a (api.items s.head)
  unfolding insert_person_sorted allocate
  insert-items a id name s law =
      let f : ℕ → Person = update s.persons a (new_person id name) in
      elim (Option-cases (first_above api f id (api.items s.head))) [
        | inl e ↦
            rw (e, insert_person_sorted, law.items-add_tail a s.head)
              (first_above-place api f id a (api.items s.head) e)
        | inr (p, e) ↦
            rw (e, insert_person_sorted, law.items-add_before a p s.head)
              (found-place api f id a p (api.items s.head) e).1
      ]

  pub insert-persons :
      (a id : ℕ) (name : List ℕ) (s : State L)
      → (insert_person_sorted api (some a) id name s).persons ≡ (allocate api a id name s).persons
  unfolding insert_person_sorted
  insert-persons a id name s =
      elim (Option-cases (
        first_above api (allocate api a id name s).persons id
          (api.items (allocate api a id name s).head))) [
            | inl e ↦ rw (e, insert_person_sorted)
            | inr (p, e) ↦ rw (e, insert_person_sorted)
          ]

ids-update :
    (f : ℕ → Person) (a : ℕ) (x : Person) (xs : List ℕ)
    → Fresh a xs
    → ids (update f a x) xs ≡ ids f xs
ids-update f a x [] h = refl
ids-update f a x (y ∷ ys) h = ground (arith, ids-update f a x ys h.1, h.0)

AllFrom-le : (low low' : ℕ) (xs : List ℕ) → low ≤ low' → AllFrom low' xs → AllFrom low xs
AllFrom-le low low' [] h w = tt
AllFrom-le low low' (x ∷ xs) h w = (omega (arith, w.0), AllFrom-le low low' xs h w.1)

place-AllFrom :
    (f : ℕ → Person) (id a low : ℕ) (xs : List ℕ)
    → (f a).id ≡ id
    → low ≤ id
    → AllFrom low (ids f xs)
    → AllFrom low (ids f (place f id a xs))
unfolding place
place-AllFrom f id a low [] e h w = (omega arith, tt)
place-AllFrom f id a low (x ∷ xs) e h w = elim (Bool-cases (ltb id (f x).id)) [
  | inl b ↦ rw b (omega arith, w)
  | inr b ↦ rw b (w.0, place-AllFrom f id a low xs e h w.1)
]

place-Sorted :
    (f : ℕ → Person) (id a : ℕ) (xs : List ℕ)
    → (f a).id ≡ id
    → Sorted (ids f xs)
    → Sorted (ids f (place f id a xs))
unfolding place
place-Sorted f id a [] e w = (tt, tt)
place-Sorted f id a (x ∷ xs) e w = elim (Bool-cases (ltb id (f x).id)) [
  | inl b ↦ rw b ((ground arith, AllFrom-le (f a).id (f x).id (ids f xs) (ground arith) w.0), w)
  | inr b ↦
      rw b (place-AllFrom f id a (f x).id xs e (ground arith) w.0, place-Sorted f id a xs e w.1)
]

-- With a list that behaves as documented and a fresh block, `insert_person_sorted` keeps a list whose
-- numbers ascend ascending.
pub insert_person_sorted-Sorted :
    {L : Type 0} (api : ListApi L) (a id : ℕ) (name : List ℕ) (s : State L)
    → IsListApi api
    → Fresh a (api.items s.head)
    → Sorted (ids s.persons (api.items s.head))
    → let s' = insert_person_sorted api (some a) id name s in
      Sorted (ids s'.persons (api.items s'.head))
unfolding allocate
insert_person_sorted-Sorted api a id name s law fresh w =
    rw (insert-items api a id name s law, insert-persons api a id name s)
      (place-Sorted (update s.persons a (new_person id name)) id a (api.items s.head) (ground arith)
        (rw (ids-update s.persons a (new_person id name) (api.items s.head) fresh) w))
