-- ===== src/Demo/DumpFds/Lines.antt =====
-- 5.dump_fd_info/kDemo.c: which descriptors the printed lines name.
use learn_linux_drv.Prelude.{
  ℕ, ◌+◌, ◌≤◌, ◌≡◌, inl, inr, refl, Bool, true, false, List, [], ◌∷◌, ◌++◌, Option, none, some,
  arith, if◌then◌else◌, zero, suc, Sum-cases, ap,
}
use learn_linux_drv.Demo.DumpFds.{
  File, Line, not_found, no_files, dumping, oom, path_error, path, file_info, inode_info, fs,
  socket, Held, sock_lines, fs_lines, inode_lines, path_line, dump_file, s_issock, Sock, Inode,
}

unfoldable pub named : List Line → List ℕ
named [] = []
named (oom fd ∷ ls) = fd ∷ named ls
named (path_error fd ∷ ls) = fd ∷ named ls
named (path fd p ∷ ls) = fd ∷ named ls
named (not_found n ∷ ls) = named ls
named (no_files n ∷ ls) = named ls
named (dumping n c ∷ ls) = named ls
named (file_info a b c d ∷ ls) = named ls
named (inode_info n ∷ ls) = named ls
named (fs n ∷ ls) = named ls
named (socket s ∷ ls) = named ls

-- Whether a slot of a table is open.
abbrev pub is_open : List (Option File) → (fd : ℕ) → Bool
is_open [] fd = false
is_open (none ∷ slots) zero = false
is_open (some f ∷ slots) zero = true
is_open (slot ∷ slots) (suc fd) = is_open slots fd

abbrev pub any_open : List (Option File) → Bool
any_open [] = false
any_open (none ∷ slots) = any_open slots
any_open (some f ∷ slots) = true

-- Every number of a list lies above the one in front of it.
abbrev pub AscendingFrom : (n : ℕ) → List ℕ → Type 0
AscendingFrom n [] = Unit
AscendingFrom n (x ∷ xs) = (n ≤ x) × AscendingFrom (x + 1) xs

pub AscendingFrom-lower : (m n : ℕ) (xs : List ℕ) → m ≤ n → AscendingFrom n xs → AscendingFrom m xs
AscendingFrom-lower m n [] h v = v
AscendingFrom-lower m n (x ∷ xs) h v = (omega (arith, v.0), v.1)

pub named-append : (xs ys : List Line) → named (xs ++ ys) ≡ named xs ++ named ys
unfolding named
named-append [] ys = refl
named-append (oom fd ∷ ls) ys = ap (λ r. fd ∷ r) (named-append ls ys)
named-append (path_error fd ∷ ls) ys = ap (λ r. fd ∷ r) (named-append ls ys)
named-append (path fd p ∷ ls) ys = ap (λ r. fd ∷ r) (named-append ls ys)
named-append (not_found n ∷ ls) ys = named-append ls ys
named-append (no_files n ∷ ls) ys = named-append ls ys
named-append (dumping n c ∷ ls) ys = named-append ls ys
named-append (file_info a b c d ∷ ls) ys = named-append ls ys
named-append (inode_info n ∷ ls) ys = named-append ls ys
named-append (fs n ∷ ls) ys = named-append ls ys
named-append (socket s ∷ ls) ys = named-append ls ys

-- The lines behind the first one of a file name no descriptor.
sock_lines-named : (b : Bool) (s : Option Sock) → named (if b then sock_lines s else []) ≡ []
unfolding named sock_lines
sock_lines-named true none = refl
sock_lines-named true (some s) = refl
sock_lines-named false s = refl

fs_lines-named : (n : Option (List ℕ)) → named (fs_lines n) ≡ []
unfolding named fs_lines
fs_lines-named none = refl
fs_lines-named (some n) = refl

inode_lines-named : (f : File) (n : Option Inode) → named (inode_lines f n) ≡ []
unfolding named inode_lines
inode_lines-named f none = refl
inode_lines-named f (some n) =
    rw
      (
        named-append (fs_lines f.fs_name) (if s_issock n.mode then sock_lines f.sock else []),
        fs_lines-named f.fs_name,
      )
      (sock_lines-named _ f.sock)

pub dump_file-named :
    (granted : Bool) (fd : ℕ) (f : File) (h : Held) → named (dump_file granted fd f h).0 ≡ fd ∷ []
unfolding named dump_file path_line
dump_file-named false fd f h = refl
dump_file-named true fd f h = elim (Sum-cases f.d_path) [
  | inl (e, q) ↦ rw (q, path_line) (ap (λ r. fd ∷ r) (inode_lines-named f f.inode))
  | inr (n, q) ↦ rw (q, path_line) (ap (λ r. fd ∷ r) (inode_lines-named f f.inode))
]

-- What a run over a table's slots, the first of which is slot `n`, prints: just the open ones, each
-- once, in ascending order.
