-- ===== src/Restore/Selection/Steps.antt =====
-- The loops of `select_entries`.
use mathlib.Core.Path.{subst}
use file_vault.Common.{
  ℕ, zero, suc, ◌≡◌, ◌≢◌, ◌⊎◌, inl, inr, refl, sym, ap, ◌∙◌, Bool, true, false, Option, none, some,
  [], ◌∷◌, ◌++◌, append-nil, Bytes, All, ◌==◌, nat_eq, list_eq, list_beq_iff, if◌then◌else◌,
  Bool-cases, ok, err, database_error,
}
use file_vault.Common.Checked.{◌>>=◌, >>=-eq-ok}
use file_vault.Database.Entries.{EntryInfo, EntryType, directory, regular_file, symbolic_link}
use file_vault.Filesystem.Tree.{FilePath, parent_path}
use file_vault.Restore.Plan.{is_component_prefix, is_directory_entry}
use file_vault.Restore.Paths.{is_empty_path}
use file_vault.Restore.Selection.{
  PathMap, path_key, find, emplace, select_below, directory_or, select_parents,
}
use file_vault.Restore.Selection.Maps.{Grows, emplace-Grows, emplace-found, emplace-part}

pub found_first : (e x : EntryInfo) → some e ≡ some x → e ≡ x
found_first e x p = cc

pub returned : {m n : PathMap} → ok m ≡ ok n → m ≡ n
returned p = cc

directory_or-ok :
    (o : Option EntryInfo) (d : EntryInfo)
    → directory_or o ≡ ok d
    → (o ≡ some d) × (d.type ≡ directory)
unfolding directory_or
directory_or-ok none d p = cc
directory_or-ok (some x) d p = go x.type refl p
  where
    go :
        (type : EntryType)
        → x.type ≡ type
        → (if is_directory_entry type then ok x else err database_error) ≡ ok d
        → (some x ≡ some d) × (d.type ≡ directory)
    go directory t q = (ap some (same q), ap (λ y. y.type) (sym (same q)) ∙ t)
      where
        same : ok x ≡ ok d → x ≡ d
        same r = cc
    go regular_file t q = cc
    go symbolic_link t q = cc

empty_path : (path : FilePath) → is_empty_path path ≡ true → path ≡ []
unfolding is_empty_path
empty_path [] p = refl
empty_path (c ∷ path) p = cc

append-empty : (above rest : FilePath) → [] ≡ above ++ rest → above ≡ []
append-empty [] rest p = refl
append-empty (c ∷ above) rest p = cc

pub parent_path-append :
    (above : FilePath) (c : Bytes) (rest : FilePath)
    → parent_path (above ++ c ∷ rest) ≡ above ++ parent_path (c ∷ rest)
parent_path-append [] c rest = refl
parent_path-append (x ∷ []) c rest = refl
parent_path-append (x ∷ y ∷ above) c rest = ap (◌∷◌ x) (parent_path-append (y ∷ above) c rest)

module _ (by_path : PathMap) where
  -- a part of `by_path` that has grown
  pub record Extends (m n : PathMap) : Type 0 where
    pub grows : Grows m n
    pub part : Grows m by_path → Grows n by_path

  pub Extends-refl : (m : PathMap) → Extends m m
  Extends-refl m = record { grows = λ k e p. p; part = λ p. p }

  pub Extends-trans : {m n o : PathMap} → Extends m n → Extends n o → Extends m o
  Extends-trans p q = record {
    grows = λ k e there. q.grows k e (p.grows k e there);
    part = λ i. q.part (p.part i);
  }

  pub emplaced :
      (key : Bytes) (e : EntryInfo) (m : PathMap)
      → find key by_path ≡ some e
      → Extends m (emplace key e m)
  emplaced key e m at_key = record {
    grows = emplace-Grows key e m;
    part = λ i. emplace-part key e m by_path i at_key;
  }

  emplaced_if :
      (b : Bool) (key : Bytes) (e : EntryInfo) (m : PathMap)
      → find key by_path ≡ some e
      → Extends m (if b then emplace key e m else m)
  emplaced_if true key e m at_key = emplaced key e m at_key
  emplaced_if false key e m at_key = Extends-refl m

  pub select_below-Extends :
      (path : FilePath) (nodes m : PathMap)
      → All (λ (node : Bytes × EntryInfo). find node.0 by_path ≡ some node.1) nodes
      → Extends m (select_below path nodes m)
  unfolding select_below
  select_below-Extends path [] m i = Extends-refl m
  select_below-Extends path ((key, e) ∷ nodes) m (at_key, i) =
      Extends-trans (emplaced_if (is_component_prefix path e.relative_path) key e m at_key)
        (select_below-Extends path nodes _ i)

  pub select_below-found :
      (path : FilePath) (nodes m : PathMap)
      → All (λ (node : Bytes × EntryInfo). find node.0 by_path ≡ some node.1) nodes
      → Grows m by_path
      → (k : Bytes) (x : EntryInfo) → find k nodes ≡ some x
      → is_component_prefix path x.relative_path ≡ true
      → find k (select_below path nodes m) ≡ some x
  unfolding select_below find
  select_below-found path [] m i part k x there below = cc
  select_below-found path ((key, e) ∷ nodes) m (at_key, i) part k x there below =
      elim (Bool-cases (k == key)) [
        | inl same ↦
            let q = found_first e x (sym (rw same refl) ∙ there) in
            ap (λ j. find j (select_below path ((key, e) ∷ nodes) m)) ((list_beq_iff k key).0 same)
            ∙ ((select_below-Extends path nodes _ i).grows key e (
                  rw (ap (λ y. is_component_prefix path y.relative_path) q ∙ below)
                    (emplace-found key e m by_path part at_key))
                ∙ ap some q)
        | inr differs ↦
            select_below-found path nodes _ i
              ((emplaced_if (is_component_prefix path e.relative_path) key e m at_key).part part) k
              x (sym (rw differs refl) ∙ there) below
      ]

  -- what the loop on the ancestors of a path returns
  unfoldable pub Climbs : FilePath → PathMap → PathMap → Type 0
  Climbs parent m n =
      Extends m n
      × ((above rest : FilePath)
          → above ≢ []
          → parent ≡ above ++ rest
          → (d : EntryInfo) × (find (path_key above) n ≡ some d) × (d.type ≡ directory))

  pub select_parents-Climbs :
      (fuel : ℕ) (parent : FilePath) (m n : PathMap)
      → Grows m by_path
      → select_parents fuel by_path parent m ≡ ok n
      → Climbs parent m n
  unfolding select_parents Climbs
  select_parents-Climbs zero parent m n part e = cc
  select_parents-Climbs (suc fuel) parent m n part e = elim (Bool-cases (is_empty_path parent)) [
    | inl empty ↦ (
      subst (Extends m) (returned (sym (rw empty refl) ∙ e)) (Extends-refl m),
      λ above rest nonempty split.
          absurd (nonempty (append-empty above rest (sym (empty_path parent empty) ∙ split))),
    )
    | inr full ↦
        let e' =
          subst
            (λ b.
              (if b
                then ok m
                else (directory_or (find (path_key parent) by_path) >>= λ entry.
                    select_parents fuel by_path (parent_path parent)
                      (emplace (path_key parent) entry m)))
              ≡ ok n)
            full e in
        let (d, found, more) = >>=-eq-ok (directory_or (find (path_key parent) by_path)) _ e' in
        let (there, is_dir) = directory_or-ok _ d found in
        let step = emplaced (path_key parent) d m there in
        let (extends, climbs) =
          select_parents-Climbs fuel (parent_path parent) _ n (step.part part) more in
        (
          Extends-trans step extends,
          λ above rest nonempty split. elim (rest_cases rest) [
            | inl none_left ↦ (
              d,
              ap (λ p. find (path_key p) n)
                    (sym (append-nil above) ∙ (ap (λ r. above ++ r) (sym none_left) ∙ sym split))
                  ∙ extends.grows (path_key parent) d
                      (emplace-found (path_key parent) d m by_path part there),
              is_dir,
            )
            | inr (c, r, more_left) ↦ climbs above (parent_path (c ∷ r)) nonempty (
                ap parent_path (split ∙ ap (λ r. above ++ r) more_left)
                ∙ parent_path-append above c r)
          ],
        )
  ]
    where
      rest_cases : (r : FilePath) → (r ≡ []) ⊎ ((c : Bytes) × (q : FilePath) × (r ≡ c ∷ q))
      rest_cases [] = inl refl
      rest_cases (c ∷ q) = inr (c, q, refl)
