-- ===== src/Filesystem/Tree/Laws.antt =====
-- What `create_directories` and a write change.
use mathlib.Core.Path.{subst}
use file_vault.Common.{
  ◌≡◌, ◌≢◌, refl, sym, ◌∙◌, ◌⊎◌, inl, inr, some, [], ◌∷◌, ◌++◌, Bytes, ◌==◌, nat_eq, list_eq,
  Bool-cases, list_beq_iff,
}
use file_vault.Filesystem.Tree.{
  FilePath, Tree, Node, absent, directory, other, file, write, create_directories, write_self,
  write_ne,
}

-- Equality of paths is decided by their test.
pub path_cases : (p q : FilePath) → (p ≡ q) ⊎ (p ≢ q)
path_cases p q = elim (Bool-cases (p == q)) [
  | inl e ↦ inl ((list_beq_iff p q).0 e)
  | inr e ↦ inr (λ same. cc ((list_beq_iff p q).1 same))
]

-- `u` holds whatever `t` holds, and possibly more.
abbrev pub Extends : Tree → Tree → Type 0
Extends t u = (p : FilePath) → t p ≢ absent → u p ≡ t p

pub Extends-trans : (t u v : Tree) → Extends t u → Extends u v → Extends t v
Extends-trans t u v a b p h = b p (λ e. h (sym (a p h) ∙ e)) ∙ a p h

pub Extends-write : (t : Tree) (p : FilePath) (n : Node) → t p ≡ absent → Extends t (write p n t)
Extends-write t p n gone q h = write_ne p q n t (λ e. h (subst (λ x. t x ≡ absent) e gone))

-- What a successful call did at its first component.
create_directories_first :
    (done rest : FilePath) (c : Bytes) (t u : Tree) (n : Node)
    → t (done ++ c ∷ []) ≡ n
    → create_directories done (c ∷ rest) t ≡ some u
    → ((n ≡ absent)
        × (create_directories (done ++ c ∷ []) rest (write (done ++ c ∷ []) directory t) ≡ some u))
      ⊎ ((n ≡ directory) × (create_directories (done ++ c ∷ []) rest t ≡ some u))
unfolding create_directories
create_directories_first done rest c t u absent k e = inl (refl, rw (k, create_directories) at e)
create_directories_first done rest c t u directory k e = inr (refl, rw (k, create_directories) at e)
create_directories_first done rest c t u other k e = cc (rw (k, create_directories) at e)
create_directories_first done rest c t u (file b) k e = cc (rw (k, create_directories) at e)

directory-ne-file : (b : Bytes) → directory ≢ file b
directory-ne-file b e = cc

pub create_directories-Extends :
    (done rest : FilePath) (t u : Tree) → create_directories done rest t ≡ some u → Extends t u
create_directories-Extends done [] t u e = unfold create_directories in λ p h. cc e
create_directories-Extends done (c ∷ rest) t u e =
    let q = done ++ c ∷ [] in
    elim (create_directories_first done rest c t u (t q) refl e) [
      | inl (gone, k) ↦
          Extends-trans t (write q directory t) u (Extends-write t q directory gone)
            (create_directories-Extends q rest (write q directory t) u k)
      | inr (there, k) ↦ create_directories-Extends q rest t u k
    ]

-- Only directories are made.
pub create_directories-file :
    (done rest : FilePath) (t u : Tree) (p : FilePath) (b : Bytes)
    → create_directories done rest t ≡ some u
    → u p ≡ file b
    → t p ≡ file b
create_directories-file done [] t u p b e h = unfold create_directories in cc (e, h)
create_directories-file done (c ∷ rest) t u p b e h =
    let q = done ++ c ∷ [] in
    elim (create_directories_first done rest c t u (t q) refl e) [
      | inl (gone, k) ↦ elim (path_cases q p) [
        | inl same ↦ absurd (
            directory-ne-file b (
              sym (subst (λ x. write q directory t x ≡ directory) same (write_self q directory t))
              ∙ create_directories-file q rest (write q directory t) u p b k h))
        | inr ne ↦
            sym (write_ne q p directory t ne)
            ∙ create_directories-file q rest (write q directory t) u p b k h
      ]
      | inr (there, k) ↦ create_directories-file q rest t u p b k h
    ]
