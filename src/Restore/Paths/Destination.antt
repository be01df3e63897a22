-- ===== src/Restore/Paths/Destination.antt =====
-- Which destinations `normalized_destination` returns.
use mathlib.Core.Path.{subst}
use file_vault.Common.{
  ◌≡◌, ◌⊎◌, inl, inr, refl, sym, ap, ◌∙◌, Bool, true, false, not, ◌||◌, Option, none, some, [], ◌∷◌,
  ◌++◌, ok, require, arith, nat_eq, list_eq, unsafe_restore_path, invalid_argument,
}
use file_vault.Common.Checked.{◌>>=◌, >>=-eq-ok}
use file_vault.Filesystem.Tree.{FilePath}
use file_vault.Restore.Paths.{
  Lstat, enoent, enotdir, other_error, link, directory_found, other_found, inspect_path_no_follow,
  inspect_ancestors, after_inspection, DestinationAnswers, platform_path_is_component_prefix,
  or_filesystem_error, from_root, is_empty_path, normalized_destination,
}

-- From `current` down the components are directories, up to one that is not there, and none is a link.
abbrev pub AreDirectories : (FilePath → Lstat) → FilePath → FilePath → Type 0
AreDirectories inspect current [] = Unit
AreDirectories inspect current (component ∷ rest) =
    (inspect (current ++ component ∷ []) ≡ enoent)
    ⊎ (inspect (current ++ component ∷ []) ≡ enotdir)
    ⊎ ((inspect (current ++ component ∷ []) ≡ directory_found)
        × AreDirectories inspect (current ++ component ∷ []) rest)

inspect_ancestors-AreDirectories :
    (inspect : FilePath → Lstat) (current path : FilePath)
    → inspect_ancestors inspect current path ≡ ok tt
    → AreDirectories inspect current path
unfolding inspect_ancestors inspect_path_no_follow after_inspection
inspect_ancestors-AreDirectories inspect current [] e = tt
inspect_ancestors-AreDirectories inspect current (component ∷ rest) e =
    go (inspect (current ++ component ∷ [])) refl
      (inspect_ancestors-AreDirectories inspect (current ++ component ∷ []) rest) e
  where
    go :
        (answer : Lstat)
        → inspect (current ++ component ∷ []) ≡ answer
        → (inspect_ancestors inspect (current ++ component ∷ []) rest ≡ ok tt
            → AreDirectories inspect (current ++ component ∷ []) rest)
        → (inspect_path_no_follow answer >>= λ type.
            after_inspection type (inspect_ancestors inspect (current ++ component ∷ []) rest))
          ≡ ok tt
        → AreDirectories inspect current (component ∷ rest)
    go enoent a below q = inl a
    go enotdir a below q = inr (inl a)
    go other_error a below q = cc
    go link a below q = cc
    go directory_found a below q = inr (inr (a, below q))
    go other_found a below q = cc

required : (b : Bool) → require b unsafe_restore_path ≡ ok tt → b ≡ true
required true e = refl
required false e = cc

-- A destination that is returned is the normal form of the absolute one; going down to it from the root there are
-- only directories, up to one that is not there, and no link; and neither it nor the repository, both
-- resolved, lies in the other.
pub normalized_destination-ok :
    (lexically_normal : FilePath → FilePath) (answers : DestinationAnswers)
    (requested repository_root destination : FilePath)
    → normalized_destination lexically_normal answers requested repository_root ≡ ok destination
    → (absolute : FilePath) × (resolved_destination : FilePath) × (resolved_repository : FilePath)
      × (answers.absolute ≡ some absolute)
      × (destination ≡ lexically_normal absolute)
      × AreDirectories answers.inspect (from_root destination).0 (from_root destination).1
      × (answers.weakly_canonical destination ≡ some resolved_destination)
      × (answers.weakly_canonical repository_root ≡ some resolved_repository)
      × (platform_path_is_component_prefix resolved_repository resolved_destination ≡ false)
      × (platform_path_is_component_prefix resolved_destination resolved_repository ≡ false)
unfolding normalized_destination or_filesystem_error
normalized_destination-ok lexically_normal answers requested repository_root destination e =
    let (_, _, e1) = >>=-eq-ok (require (not (is_empty_path requested)) invalid_argument) _ e in
    let (absolute, found, e2) = >>=-eq-ok (or_filesystem_error answers.absolute) _ e1 in
    let (_, inspected, e3) =
      >>=-eq-ok
        (inspect_ancestors answers.inspect (from_root (lexically_normal absolute)).0
          (from_root (lexically_normal absolute)).1)
        _ e2 in
    let (resolved_destination, found', e4) =
      >>=-eq-ok (or_filesystem_error (answers.weakly_canonical (lexically_normal absolute))) _ e3 in
    let (resolved_repository, found'', e5) =
      >>=-eq-ok (or_filesystem_error (answers.weakly_canonical repository_root)) _ e4 in
    let (_, apart, e6) =
      >>=-eq-ok
        (require
          (not (
            platform_path_is_component_prefix resolved_repository resolved_destination
            || platform_path_is_component_prefix resolved_destination resolved_repository))
          unsafe_restore_path)
        _ e5 in
    let same = returned (lexically_normal absolute) e6 in
    let (none_in, none_out) =
      neither (platform_path_is_component_prefix resolved_repository resolved_destination) _
        (required _ apart) in
    (
      absolute,
      resolved_destination,
      resolved_repository,
      some_of answers.absolute absolute found,
      sym same,
      subst (λ d. AreDirectories answers.inspect (from_root d).0 (from_root d).1) same
          (inspect_ancestors-AreDirectories answers.inspect _ _ inspected),
      ap answers.weakly_canonical (sym same) ∙ some_of _ resolved_destination found',
      some_of _ resolved_repository found'',
      none_in,
      none_out,
    )
  where
    returned : (d : FilePath) → ok d ≡ ok destination → d ≡ destination
    returned d q = cc

    some_of : (o : Option FilePath) (p : FilePath) → or_filesystem_error o ≡ ok p → o ≡ some p
    some_of none p q = cc
    some_of (some x) p q = ap some (cc)

    neither : (a b : Bool) → not (a || b) ≡ true → (a ≡ false) × (b ≡ false)
    neither a b q = (ground arith, ground arith)
