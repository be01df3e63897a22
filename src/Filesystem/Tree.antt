-- ===== src/Filesystem/Tree.antt =====
-- The file tree of the operating system, as far as the program looks at it: what stands at each path,
-- with symbolic links not followed. A path is the list of its components.
pub mod Laws
use file_vault.Common.{
  ℕ, ◌≡◌, ◌≢◌, refl, Bool, true, false, Option, none, some, List, [], ◌∷◌, ◌++◌, Bytes, ◌==◌,
  nat_eq, list_eq, if◌then◌else◌, beq_refl, beq_ne, arith,
}

abbrev pub FilePath : Type 0
FilePath = List Bytes

-- `other` is a symbolic link, a device, a socket or a pipe.
pub data Node : Type 0 where
  absent directory other : Node
  file : Bytes → Node

abbrev pub Tree : Type 0
Tree = FilePath → Node

abbrev pub write : FilePath → Node → Tree → Tree
write p n t q = if p == q then n else t q

abbrev pub is_directory : Node → Bool
is_directory directory = true
is_directory _ = false

-- `path.parent_path()` of a path of components
abbrev pub parent_path : FilePath → FilePath
parent_path [] = []
parent_path (c ∷ []) = []
parent_path (c ∷ d ∷ p) = c ∷ parent_path (d ∷ p)

-- std::filesystem::create_directories of `done ++ rest`, where `done` is there; none is an error.
unfoldable pub create_directories : FilePath → FilePath → Tree → Option Tree
create_directories done [] t = some t
create_directories done (c ∷ rest) t = elim (t (done ++ c ∷ [])) [
  | absent ↦ create_directories (done ++ c ∷ []) rest (write (done ++ c ∷ []) directory t)
  | directory ↦ create_directories (done ++ c ∷ []) rest t
  | _ ↦ none
]

pub write_self : (p : FilePath) (n : Node) (t : Tree) → write p n t p ≡ n
write_self p n t = let e : (p == p) ≡ true = beq_refl p in simp e

pub write_ne : (p q : FilePath) (n : Node) (t : Tree) → p ≢ q → write p n t q ≡ t q
write_ne p q n t h = let e : (p == q) ≡ false = beq_ne p q h in simp e
