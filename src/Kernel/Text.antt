-- ===== src/Kernel/Text.antt =====
-- The strings of C: bytes up to a zero.
use learn_linux_drv.Prelude.{
  ℕ, zero, suc, ◌≤◌, ◌<◌, ◌≡◌, ◌≢◌, refl, List, [], ◌∷◌, ◌++◌, arith, length, take, ◌==◌,
  if◌then◌else◌,
}

-- The bytes of a string in front of its zero; all bytes, if there is none.
unfoldable pub c_string : List ℕ → List ℕ
c_string [] = []
c_string (x ∷ xs) = let rest = c_string xs in if x == 0 then [] else x ∷ rest

abbrev pub NoZero : List ℕ → Type 0
NoZero [] = Unit
NoZero (x ∷ xs) = (x ≢ 0) × NoZero xs

-- A string is over at its zero, whatever stands behind it.
pub c_string-append : (xs ys : List ℕ) → c_string (xs ++ 0 ∷ ys) ≡ c_string xs
unfolding c_string
c_string-append [] ys = refl
c_string-append (x ∷ xs) ys = ground (arith, c_string-append xs ys)

-- The same, where no more than `n` bytes are looked at.
pub c_string-take :
    (n : ℕ) (xs ys : List ℕ) → length xs < n → c_string (take n (xs ++ 0 ∷ ys)) ≡ c_string xs
unfolding c_string
c_string-take zero xs ys h = ground arith
c_string-take (suc n) [] ys h = refl
c_string-take (suc n) (x ∷ xs) ys h = ground (arith, c_string-take n xs ys (omega arith))

pub c_string-NoZero : (xs : List ℕ) → NoZero xs → c_string xs ≡ xs
unfolding c_string
c_string-NoZero [] h = refl
c_string-NoZero (x ∷ xs) h = ground (arith, h.0, c_string-NoZero xs h.1)

-- A string is its own string.
pub c_string_twice : (xs : List ℕ) → c_string (c_string xs) ≡ c_string xs
unfolding c_string
c_string_twice [] = refl
c_string_twice (x ∷ xs) = ground (arith, c_string_twice xs)

pub length-c_string : (xs : List ℕ) → length (c_string xs) ≤ length xs
unfolding c_string
length-c_string [] = omega arith
length-c_string (x ∷ xs) = ground (arith, length-c_string xs)
