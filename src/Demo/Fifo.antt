-- ===== src/Demo/Fifo.antt =====
-- 00.mDemo/02.base/4.fifo/kDemo.c: a FIFO of bytes and one of pointers behind a spinlock. The kernel's
-- kfifo is a parameter.
pub mod Balance
pub mod Session
use learn_linux_drv.Prelude.{
  ℕ, zero, suc, ◌+◌, ◌-◌, ◌≤◌, ◌<◌, ◌≡◌, Bool, true, false, List, [], ◌∷◌, ◌++◌, Option, none, some,
  arith, length, take, drop, ltb, leb, ◌==◌, if◌then◌else◌, update,
}
use learn_linux_drv.Kernel.{Errno, enomem, efault, other, Ret, ok, err}

abbrev pub enospc : Errno
enospc = other 28

-- What `kfifo_to_user` and `kfifo_from_user` leave: an error, the count, and the FIFO.
pub record Copied (F : Type 0) : Type 0 where
  pub failed : Option Errno
  pub copied : ℕ
  pub fifo : F

-- `ret ? ret : copied`.
abbrev pub returned : {F : Type 0} → Copied F → Ret
returned r = elim r.failed [ none ↦ ok r.copied | some e ↦ err e ]

abbrev is_nil : List ℕ → Bool
is_nil [] = true
is_nil (x ∷ xs) = false

-- The kernel's kfifo. `items` is what it holds, oldest first, and `size` how much it can hold.
pub record FifoApi (F : Type 0) : Type 0 where
  pub items : F → List ℕ
  pub size : F → ℕ
  pub reset : F → F
  -- `kfifo_in`, with the count that went in, and `kfifo_out`, with what came out
  pub put_all : List ℕ → F → ℕ × F
  pub get_all : (limit : ℕ) → F → List ℕ × F
  -- `kfifo_put` and `kfifo_get`
  pub put : ℕ → F → Bool × F
  pub get : F → Option ℕ × F
  pub to_user : (buf count : ℕ) → F → Copied F
  pub from_user : (buf count : ℕ) → F → Copied F

-- What the kernel documents of it.
pub record IsFifoApi {F : Type 0} (api : FifoApi F) : Type 0 where
  pub items-reset : (f : F) → api.items (api.reset f) ≡ []
  pub size-reset : (f : F) → api.size (api.reset f) ≡ api.size f
  pub items-put_all :
      (xs : List ℕ) (f : F)
      → api.items (api.put_all xs f).1 ≡ api.items f ++ take (api.size f - length (api.items f)) xs
  pub size-put_all : (xs : List ℕ) (f : F) → api.size (api.put_all xs f).1 ≡ api.size f
  pub items-get_all : (n : ℕ) (f : F) → api.items (api.get_all n f).1 ≡ drop n (api.items f)
  pub size-get_all : (n : ℕ) (f : F) → api.size (api.get_all n f).1 ≡ api.size f
  pub put_lem : (x : ℕ) (f : F) → (api.put x f).0 ≡ ltb (length (api.items f)) (api.size f)
  pub items-put :
      (x : ℕ) (f : F)
      → api.items (api.put x f).1
        ≡ (if ltb (length (api.items f)) (api.size f) then api.items f ++ x ∷ [] else api.items f)
  pub size-put : (x : ℕ) (f : F) → api.size (api.put x f).1 ≡ api.size f
  pub get_empty : (f : F) → api.items f ≡ [] → api.get f ≡ (none, f)
  pub get_some :
      (f : F) (x : ℕ) (xs : List ℕ)
      → api.items f ≡ x ∷ xs
      → ((api.get f).0 ≡ some x) × (api.items (api.get f).1 ≡ xs)
  pub size-get : (f : F) → api.size (api.get f).1 ≡ api.size f

-- The two FIFOs, the lock, and how often each block of a node is held.
pub record State (F : Type 0) : Type 0 where
  pub m_fifo : F
  pub cls_fifo : F
  pub locked : Bool
  pub blocks : ℕ → ℕ

abbrev pub inbuf : List ℕ
inbuf = b'K' ∷ b'F' ∷ b'I' ∷ b'F' ∷ b'O' ∷ b'_' ∷ b'D' ∷ b'E' ∷ b'M' ∷ b'O' ∷ 0 ∷ []

module _ {F : Type 0} (api : FifoApi F) where
  -- `while (kfifo_get(&fifo, &x))`, with fuel; `none` where the fuel is used up and the loop is not over.
  unfoldable pub drain : (fuel : ℕ) → F → Option F
  drain zero f = none
  drain (suc fuel) f =
      let rest = drain fuel (api.get f).1 in
      elim (api.get f).0 [ none ↦ some (api.get f).1 | some x ↦ rest ]

  -- The loop with `kfifo_put` of 'a' + i, with `n` rounds to go.
  unfoldable pub put_letters : (i n : ℕ) → F → F
  put_letters i zero f = f
  put_letters i (suc n) f = put_letters (i + 1) n (api.put (b'a' + i) f).1

  unfoldable pub acquire : (a : ℕ) → State F → State F
  acquire a s = record s { blocks = update s.blocks a (s.blocks a + 1) }

  unfoldable pub kfree : (a : ℕ) → State F → State F
  kfree a s = record s { blocks = update s.blocks a (s.blocks a - 1) }

  -- The loop that puts in the nodes from `i` on, with `n` rounds to go: whether it went on to the
  -- code behind it.
  unfoldable pub put_nodes : (kmalloc : ℕ → Option ℕ) → (i n : ℕ) → State F → Bool × State F
  put_nodes kmalloc i zero s = (true, s)
  put_nodes kmalloc i (suc n) s = elim (kmalloc i) [
    | none ↦ (false, s)
    | some a ↦
        let s' : State F = acquire a s in
        let rest =
          put_nodes kmalloc (i + 1) n (record s' { cls_fifo = (api.put a s'.cls_fifo).1 }) in
        if (api.put a s'.cls_fifo).0
        then rest
        else (true, kfree a (record s' { cls_fifo = (api.put a s'.cls_fifo).1 }))
  ]

  -- `while (kfifo_get(&cls_fifo, &tmp)) kfree(tmp);`, with fuel; `none` as above.
  unfoldable pub free_nodes : (fuel : ℕ) → State F → Option (State F)
  free_nodes zero s = none
  free_nodes (suc fuel) s = elim (api.get s.cls_fifo).0 [
    | none ↦ some (record s { cls_fifo = (api.get s.cls_fifo).1 })
    | some a ↦ free_nodes fuel (kfree a (record s { cls_fifo = (api.get s.cls_fifo).1 }))
  ]

  -- `fifo_demo` on `m_fifo`, up to the nodes. `kfifo_peek` changes nothing.
  unfoldable pub bytes_part : F → Option F
  bytes_part f0 =
      let f1 = (api.put_all inbuf (api.reset f0)).1 in
      let f2 = (api.get_all 32 f1).1 in
      let f3 = put_letters 0 5 f2 in drain (suc (length (api.items f3))) f3

  -- `fifo_demo` from the nodes on, with the lock.
  unfoldable pub nodes_part : (kmalloc : ℕ → Option ℕ) → State F → Option (Ret × State F)
  nodes_part kmalloc s =
      let r : Bool × State F = put_nodes kmalloc 0 3 s in
      if r.0
      then elim (free_nodes (suc (length (api.items r.1.cls_fifo))) r.1) [
        | none ↦ none
        | some s' ↦ some (ok 0, record s' { locked = false })
      ]
      else some (err enomem, r.1)

  -- `fifo_demo`; `none` where it waits for the lock forever, or a loop is not over. Where `kmalloc` fails, it returns with
  -- the lock.
  unfoldable pub fifo_demo : (kmalloc : ℕ → Option ℕ) → State F → Option (Ret × State F)
  fifo_demo kmalloc s = if s.locked then none else elim (bytes_part s.m_fifo) [
    | none ↦ none
    | some f ↦ nodes_part kmalloc (record s { locked = true; m_fifo = f })
  ]

  -- `m_chrdev_ioctl`, which returns 0 whatever `fifo_demo` returned.
  unfoldable pub ioctl : (kmalloc : ℕ → Option ℕ) → State F → Option (Ret × State F)
  ioctl kmalloc s = elim (fifo_demo kmalloc s) [ none ↦ none | some (ret, s') ↦ some (ok 0, s') ]

  -- `m_chrdev_read` and `m_chrdev_write`, by what the kernel's copy makes of the FIFO.
  unfoldable pub read : (buf count : ℕ) → State F → Option (Ret × State F)
  read buf count s =
      let r : Copied F = api.to_user buf count s.m_fifo in
      if is_nil (api.items s.m_fifo)
      then some (ok 0, s)
      else if s.locked
      then none
      else some (returned r, record s { m_fifo = r.fifo })

  unfoldable pub write : (buf count : ℕ) → State F → Option (Ret × State F)
  write buf count s =
      let r : Copied F = api.from_user buf count s.m_fifo in
      if leb (api.size s.m_fifo) (length (api.items s.m_fifo))
      then some (err enospc, s)
      else if s.locked
      then none
      else some (returned r, record s { m_fifo = r.fifo })
