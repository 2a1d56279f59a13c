-- ===== src/Demo/ContainerOf.antt =====
-- 00.mDemo/02.base/1.container_of/container_of.c: from the address of a member back to its structure. An
-- address has 64 bits, and an `int` 4 bytes.
use learn_linux_drv.Prelude.{ℕ, ◌+◌, ◌-◌, ◌%◌, ◌^◌, ◌<◌, ◌≡◌, arith, ◌==◌, if◌then◌else◌}

-- `MyStruct`.
pub data Member : Type 0 where
  member1 member2 : Member

pub record MyStruct : Type 0 where
  pub value : Member → ℕ

abbrev pub offsetof : Member → ℕ
offsetof member1 = 0
offsetof member2 = 4

-- `&p->member`, and `container_of(ptr, MyStruct, member)`.
unfoldable pub address_of : (p : ℕ) → Member → ℕ
address_of p m = (p + offsetof m) % 2 ^ 64

unfoldable pub container_of : (ptr : ℕ) → Member → ℕ
container_of ptr m = (ptr + 2 ^ 64 - offsetof m) % 2 ^ 64

-- What `main` prints: the two values, or that `container_of` failed. `memory` has the structure at each
-- address.
pub data Message : Type 0 where
  worked : (first second : ℕ) → Message
  failed : Message

abbrev instance_at : (p : ℕ) → (memory : ℕ → MyStruct) → ℕ → MyStruct
instance_at p memory q =
    if q == p then record { value = elim [ member1 ↦ 11 | member2 ↦ 22 ] } else memory q

unfoldable pub main : (my_instance : ℕ) → (memory : ℕ → MyStruct) → Message
main my_instance memory =
    let parent : ℕ = container_of (address_of my_instance member2) member2 in
    let found : MyStruct = instance_at my_instance memory parent in
    if parent == my_instance then worked (found.value member1) (found.value member2) else failed

-- The address of a member leads back to its structure, also where the sum wraps.
pub container_of-address_of :
    (p : ℕ) (m : Member) → p < 2 ^ 64 → container_of (address_of p m) m ≡ p
unfolding container_of address_of
container_of-address_of p member1 h = ground arith
container_of-address_of p member2 h = ground arith

-- Wherever the structure stands, `main` finds it and prints its two values.
pub main_works : (p : ℕ) (memory : ℕ → MyStruct) → p < 2 ^ 64 → main p memory ≡ worked 11 22
unfolding main
main_works p memory h = rw (container_of-address_of p member2 h) (ground arith)
