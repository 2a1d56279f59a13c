-- ===== src/Persons.antt =====
-- 00.mDemo/02.base/3.list/kDemo.c: persons on a list of the kernel. The list's own code, the kernel's list.h, is a parameter.
pub mod Account
pub mod Order
pub mod Show
mod Tests
use learn_linux_drv.Prelude.{
  ℕ, zero, suc, ◌+◌, ◌-◌, ◌≡◌, Bool, false, ◌||◌, List, [], ◌∷◌, ◌++◌, Option, none, some, take,
  ltb, ◌==◌, if◌then◌else◌, update,
}

-- A list head of the kernel. `items` is what `list_for_each_entry` visits, in order, each entry
-- named by its address.
pub record ListApi (L : Type 0) : Type 0 where
  pub items : L → List ℕ
  pub empty : L
  pub add : (node : ℕ) → L → L
  pub add_tail : (node : ℕ) → L → L
  -- `list_add_tail` on another entry instead of the head
  pub add_before : (node entry : ℕ) → L → L
  pub del : (node : ℕ) → L → L
  pub move_tail : (node : ℕ) → L → L
  pub splice_tail : (other : L) → L → L

abbrev pub insert_before : (node entry : ℕ) → List ℕ → List ℕ
insert_before node entry [] = []
insert_before node entry (x ∷ xs) =
    let rest = insert_before node entry xs in if x == entry then node ∷ x ∷ xs else x ∷ rest

abbrev pub erase : (node : ℕ) → List ℕ → List ℕ
erase node [] = []
erase node (x ∷ xs) = let rest = erase node xs in if x == node then xs else x ∷ rest

-- What the kernel documents of these calls.
pub record IsListApi {L : Type 0} (api : ListApi L) : Type 0 where
  pub items-empty : api.items api.empty ≡ []
  pub items-add : (a : ℕ) (l : L) → api.items (api.add a l) ≡ a ∷ api.items l
  pub items-add_tail : (a : ℕ) (l : L) → api.items (api.add_tail a l) ≡ api.items l ++ a ∷ []
  pub items-add_before :
      (a p : ℕ) (l : L) → api.items (api.add_before a p l) ≡ insert_before a p (api.items l)
  pub items-del : (a : ℕ) (l : L) → api.items (api.del a l) ≡ erase a (api.items l)
  pub items-move_tail :
      (a : ℕ) (l : L) → api.items (api.move_tail a l) ≡ erase a (api.items l) ++ a ∷ []
  pub items-splice_tail : (k l : L) → api.items (api.splice_tail k l) ≡ api.items l ++ api.items k

-- `id` is an `int`; the calls in the source give no negative one.
pub record Person : Type 0 where
  pub id : ℕ
  pub name : List ℕ

-- A list of persons: its head, the persons by address, how often each block is held, and whether a block
-- was ever freed that was not held.
pub record State (L : Type 0) : Type 0 where
  pub head : L
  pub persons : ℕ → Person
  pub blocks : ℕ → ℕ
  pub fault : Bool

-- `strncpy` into the 16 bytes of a name, and the closing zero: 15 bytes of the name stay.
abbrev pub new_person : (id : ℕ) (name : List ℕ) → Person
new_person id name = record { id = id; name = take 15 name }

abbrev alice : List ℕ
alice = b'A' ∷ b'l' ∷ b'i' ∷ b'c' ∷ b'e' ∷ []

abbrev charlie : List ℕ
charlie = b'C' ∷ b'h' ∷ b'a' ∷ b'r' ∷ b'l' ∷ b'i' ∷ b'e' ∷ []

abbrev bob : List ℕ
bob = b'B' ∷ b'o' ∷ b'b' ∷ []

abbrev david : List ℕ
david = b'D' ∷ b'a' ∷ b'v' ∷ b'i' ∷ b'd' ∷ []

abbrev merge1 : List ℕ
merge1 = b'M' ∷ b'e' ∷ b'r' ∷ b'g' ∷ b'e' ∷ b'1' ∷ []

abbrev merge2 : List ℕ
merge2 = b'M' ∷ b'e' ∷ b'r' ∷ b'g' ∷ b'e' ∷ b'2' ∷ []

module _ {L : Type 0} (api : ListApi L) where
  -- `kmalloc` and the two fields.
  unfoldable pub allocate : (a id : ℕ) (name : List ℕ) → State L → State L
  allocate a id name s = record s {
    persons = update s.persons a (new_person id name);
    blocks = update s.blocks a (s.blocks a + 1);
  }

  pub kfree : (a : ℕ) → State L → State L
  kfree a s = record s {
    blocks = update s.blocks a (s.blocks a - 1);
    fault = s.fault || s.blocks a == 0;
  }

  -- Each function that allocates takes what `kmalloc` answers.
  pub add_person_tail : Option ℕ → (id : ℕ) (name : List ℕ) → State L → State L
  add_person_tail none id name s = s
  add_person_tail (some a) id name s =
      let s' = allocate a id name s in record s' { head = api.add_tail a s'.head }

  pub add_person_head : Option ℕ → (id : ℕ) (name : List ℕ) → State L → State L
  add_person_head none id name s = s
  add_person_head (some a) id name s =
      let s' = allocate a id name s in record s' { head = api.add a s'.head }

  -- The first entry whose number is greater.
  unfoldable pub first_above : (ℕ → Person) → (id : ℕ) → List ℕ → Option ℕ
  first_above f id [] = none
  first_above f id (p ∷ ps) =
      let rest = first_above f id ps in if ltb id (f p).id then some p else rest

  unfoldable pub insert_person_sorted : Option ℕ → (id : ℕ) (name : List ℕ) → State L → State L
  insert_person_sorted none id name s = s
  insert_person_sorted (some a) id name s =
      let s' = allocate a id name s in
      elim (first_above s'.persons id (api.items s'.head)) [
        | some p ↦ record s' { head = api.add_before a p s'.head }
        | none ↦ record s' { head = api.add_tail a s'.head }
      ]

  -- The first entry with this number.
  pub first_with : (ℕ → Person) → (id : ℕ) → List ℕ → Option ℕ
  first_with f id [] = none
  first_with f id (p ∷ ps) =
      let rest = first_with f id ps in if (f p).id == id then some p else rest

  pub delete_person_by_id : (id : ℕ) → State L → State L
  delete_person_by_id id s = elim (first_with s.persons id (api.items s.head)) [
    | none ↦ s
    | some p ↦ kfree p (record s { head = api.del p s.head })
  ]

  pub move_head_to_tail : State L → State L
  move_head_to_tail s = elim (api.items s.head) [
    | [] ↦ s
    | first ∷ _ ↦ record s { head = api.move_tail first s.head }
  ]

  -- The two persons go on a list of their own, which is spliced to the end and emptied.
  pub merge_lists_demo : (k1 k2 : Option ℕ) (id1 id2 : ℕ) (name1 name2 : List ℕ) → State L → State L
  merge_lists_demo k1 k2 id1 id2 name1 name2 s =
      let extra =
        add_person_tail k2 id2 name2
          (add_person_tail k1 id1 name1 (record s { head = api.empty })) in
      record extra { head = api.splice_tail extra.head s.head }

  -- The loop of `clear_list` over the entries that are left.
  unfoldable pub clear_entries : List ℕ → State L → State L
  clear_entries [] s = s
  clear_entries (p ∷ ps) s = clear_entries ps (kfree p (record s { head = api.del p s.head }))

  unfoldable pub clear_list : State L → State L
  clear_list s = clear_entries (api.items s.head) s

  -- A list just initialised, with no person yet.
  unfoldable pub start : (junk : ℕ → Person) → State L
  start junk = record { head = api.empty; persons = junk; blocks = λ _. 0; fault = false }

  -- What `m_chr_init` does with its list, by the answers of `kmalloc` in turn.
  unfoldable pub demo : (kmalloc : ℕ → Option ℕ) → State L → State L
  demo kmalloc s0 =
      let s1 = add_person_tail (kmalloc 0) 20 alice s0 in
      let s2 = add_person_tail (kmalloc 1) 40 charlie s1 in
      let s3 = add_person_head (kmalloc 2) 10 bob s2 in
      let s4 = insert_person_sorted (kmalloc 3) 30 david s3 in
      let s5 = delete_person_by_id 40 s4 in
      let s6 = move_head_to_tail s5 in
      clear_list (merge_lists_demo (kmalloc 4) (kmalloc 5) 300 400 merge1 merge2 s6)
