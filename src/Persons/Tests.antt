-- ===== src/Persons/Tests.antt =====
-- 3.list/kDemo.c: a list that behaves as documented, and the theorems on it.
use learn_linux_drv.Prelude.{
  Bool, ℕ, ◌+◌, ◌≡◌, refl, List, [], ◌∷◌, ◌++◌, Option, none, some, arith, ◌==◌, if◌then◌else◌,
}
use learn_linux_drv.Persons.{
  ListApi, IsListApi, insert_before, erase, Person, State, insert_person_sorted, start, demo, bob,
}
use learn_linux_drv.Persons.Order.{ids, Sorted, insert_person_sorted-Sorted}
use learn_linux_drv.Persons.Account.{demo_frees_all}

abbrev plain_list : ListApi (List ℕ)
plain_list = record {
  items = λ l. l;
  empty = [];
  add = λ a l. a ∷ l;
  add_tail = λ a l. l ++ a ∷ [];
  add_before = insert_before;
  del = erase;
  move_tail = λ a l. erase a l ++ a ∷ [];
  splice_tail = λ k l. l ++ k;
}

plain_list-IsListApi : IsListApi plain_list
plain_list-IsListApi = record {
  items-empty = refl;
  items-add = λ a l. refl;
  items-add_tail = λ a l. refl;
  items-add_before = λ a p l. refl;
  items-del = λ a l. refl;
  items-move_tail = λ a l. refl;
  items-splice_tail = λ k l. refl;
}

-- Persons 10 and 40 at addresses 1 and 2.
abbrev two : State (List ℕ)
two = record {
  head = 1 ∷ 2 ∷ [];
  persons = λ a. if a == 1 then record { id = 10; name = bob } else record { id = 40; name = bob };
  blocks = λ b. if b == 1 then 1 else if b == 2 then 1 else 0;
  fault = Bool.false;
}

insert_person_sorted-Sorted_example :
    let s' = insert_person_sorted plain_list (some 3) 30 bob two in
    Sorted (ids s'.persons (plain_list.items s'.head))
insert_person_sorted-Sorted_example =
    insert_person_sorted-Sorted plain_list 3 30 bob two plain_list-IsListApi
      ((λ h. omega arith), ((λ h. omega arith), tt)) ((omega arith, tt), (tt, tt))

-- The third call of `kmalloc` fails.
abbrev addresses : ℕ → Option ℕ
addresses i = if i == 2 then none else some (0x100 + i)

abbrev nobody : ℕ → Person
nobody a = record { id = 0; name = [] }

demo_frees_all_example :
    let s = demo plain_list addresses (start plain_list nobody) in
    (s.head ≡ []) × ((b : ℕ) → s.blocks b ≡ 0) × (s.fault ≡ Bool.false)
demo_frees_all_example = demo_frees_all plain_list addresses nobody plain_list-IsListApi
