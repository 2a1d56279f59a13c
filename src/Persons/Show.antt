-- ===== src/Persons/Show.antt =====
-- 02.base/3.list/kDemo.c: the functions that print a list. `list_for_each_entry_reverse` visits the
-- entries backwards; the first, last, next and previous entry are those of the order in which
-- `list_for_each_entry` visits them.
use learn_linux_drv.Prelude.{
  ℕ, ◌+◌, ◌≡◌, List, [], ◌∷◌, ◌++◌, Option, none, some, refl, ap, arith, length, length-append, ◌∙◌,
  ltb, ◌==◌, if◌then◌else◌,
}
use learn_linux_drv.Persons.{ListApi, Person, State}

-- A line with a person, by what is said of it.
pub data Line : Type 0 where
  entry first last safe_first next_after_first prev_before_last : Person → Line

abbrev pub lines_of : (Person → Line) → (ℕ → Person) → List ℕ → List Line
lines_of line f [] = []
lines_of line f (p ∷ ps) = line (f p) ∷ lines_of line f ps

abbrev pub backwards {ℓ} : {A : Type ℓ} → List A → List A
backwards [] = []
backwards (x ∷ xs) = backwards xs ++ x ∷ []

-- A line for a person that is there.
abbrev pub line_for : (Person → Line) → (ℕ → Person) → Option ℕ → List Line
line_for line f none = []
line_for line f (some p) = line (f p) ∷ []

abbrev pub first_entry : List ℕ → Option ℕ
first_entry [] = none
first_entry (x ∷ xs) = some x

-- The entry behind the first, if that is not the head.
abbrev pub second_entry : List ℕ → Option ℕ
second_entry [] = none
second_entry (x ∷ xs) = first_entry xs

module _ {L : Type 0} (api : ListApi L) where
  unfoldable pub print_list_forward : State L → List Line
  print_list_forward s = lines_of entry s.persons (api.items s.head)

  unfoldable pub print_list_reverse : State L → List Line
  print_list_reverse s = lines_of entry s.persons (backwards (api.items s.head))

  unfoldable pub show_list_entries : State L → List Line
  show_list_entries s =
      let xs : List ℕ = api.items s.head in
      let f : ℕ → Person = s.persons in
      lines_of entry f xs
      ++ (line_for first f (first_entry xs)
          ++ (line_for last f (first_entry (backwards xs))
              ++ (line_for safe_first f (first_entry xs)
                  ++ (line_for next_after_first f (second_entry xs)
                      ++ line_for prev_before_last f (second_entry (backwards xs))))))

lines_of-append :
    (line : Person → Line) (f : ℕ → Person) (xs ys : List ℕ)
    → lines_of line f (xs ++ ys) ≡ lines_of line f xs ++ lines_of line f ys
lines_of-append line f [] ys = refl
lines_of-append line f (x ∷ xs) ys = ap (◌∷◌ (line (f x))) (lines_of-append line f xs ys)

lines_of-backwards :
    (line : Person → Line) (f : ℕ → Person) (xs : List ℕ)
    → lines_of line f (backwards xs) ≡ backwards (lines_of line f xs)
lines_of-backwards line f [] = refl
lines_of-backwards line f (x ∷ xs) =
    lines_of-append line f (backwards xs) (x ∷ [])
    ∙ ap (λ ls. ls ++ line (f x) ∷ []) (lines_of-backwards line f xs)

-- `print_list_reverse` prints the lines of `print_list_forward`, the last one first.
pub reverse-eq-forward :
    {L : Type 0} (api : ListApi L) (s : State L)
    → print_list_reverse api s ≡ backwards (print_list_forward api s)
unfolding print_list_forward print_list_reverse
reverse-eq-forward api s = lines_of-backwards entry s.persons (api.items s.head)

length-lines_of :
    (line : Person → Line) (f : ℕ → Person) (xs : List ℕ) → length (lines_of line f xs) ≡ length xs
length-lines_of line f [] = refl
length-lines_of line f (x ∷ xs) = omega (arith, length-lines_of line f xs)

length-backwards : (xs : List ℕ) → length (backwards xs) ≡ length xs
length-backwards [] = refl
length-backwards (x ∷ xs) =
    omega (arith, length-append (backwards xs) (x ∷ []), length-backwards xs)

length-first_entry :
    (line : Person → Line) (f : ℕ → Person) (xs : List ℕ)
    → length (line_for line f (first_entry xs)) ≡ (if length xs == 0 then 0 else 1)
length-first_entry line f [] = refl
length-first_entry line f (x ∷ xs) = ground arith

length-second_entry :
    (line : Person → Line) (f : ℕ → Person) (xs : List ℕ)
    → length (line_for line f (second_entry xs)) ≡ (if ltb (length xs) 2 then 0 else 1)
length-second_entry line f [] = refl
length-second_entry line f (x ∷ []) = refl
length-second_entry line f (x ∷ y ∷ xs) = ground arith

-- How many lines stand behind those of the entries: none for an empty list, three for a list of one
-- person, and five for a longer one.
abbrev pub extra_lines : (persons : ℕ) → ℕ
extra_lines n = if n == 0 then 0 else if n == 1 then 3 else 5

length-six :
    (zs bs cs ds es fs : List Line)
    → length (zs ++ (bs ++ (cs ++ (ds ++ (es ++ fs)))))
      ≡ length zs + (length bs + (length cs + (length ds + (length es + length fs))))
length-six zs bs cs ds es fs = omega (
  arith,
  length-append zs (bs ++ (cs ++ (ds ++ (es ++ fs)))),
  length-append bs (cs ++ (ds ++ (es ++ fs))),
  length-append cs (ds ++ (es ++ fs)),
  length-append ds (es ++ fs),
  length-append es fs,
)

six_counts :
    (n m : ℕ) {a b c d e f : ℕ}
    → m ≡ n
    → a ≡ n
    → b ≡ (if n == 0 then 0 else 1)
    → c ≡ (if m == 0 then 0 else 1)
    → d ≡ (if n == 0 then 0 else 1)
    → e ≡ (if ltb n 2 then 0 else 1)
    → f ≡ (if ltb m 2 then 0 else 1)
    → a + (b + (c + (d + (e + f)))) ≡ n + extra_lines n
six_counts n m hm ha hb hc hd he hf = ground (arith, hm, ha, hb, hc, hd, he, hf)

-- `show_list_entries` prints a line for each entry, and then says of the first and the last one, and of
-- their neighbours, only what there is.
pub length-show_list_entries :
    {L : Type 0} (api : ListApi L) (s : State L)
    → let n = length (api.items s.head) in length (show_list_entries api s) ≡ n + extra_lines n
unfolding show_list_entries
length-show_list_entries api s =
    let xs : List ℕ = api.items s.head in
    let f : ℕ → Person = s.persons in
    length-six (lines_of entry f xs) (line_for first f (first_entry xs))
      (line_for last f (first_entry (backwards xs))) (line_for safe_first f (first_entry xs))
      (line_for next_after_first f (second_entry xs))
      (line_for prev_before_last f (second_entry (backwards xs)))
    ∙ six_counts (length xs) (length (backwards xs)) (length-backwards xs)
        (length-lines_of entry f xs) (length-first_entry first f xs)
        (length-first_entry last f (backwards xs)) (length-first_entry safe_first f xs)
        (length-second_entry next_after_first f xs)
        (length-second_entry prev_before_last f (backwards xs))
