-- ===== src/Filesystem/IgnoreRules/Applied.antt =====
-- What `IgnoreRules::match` decides.
use file_vault.Common.{
  ◌≡◌, refl, ◌⊎◌, inl, inr, Bool, true, false, not, ◌&&◌, List, [], ◌∷◌, Bytes, if◌then◌else◌,
  Result, ok, arith, Bool-cases,
}
use file_vault.Filesystem.IgnoreRules.{
  IgnoreCaseSensitivity, IgnoreMatchResult, IgnoreRules, Pattern, normalize_separators, split, when,
  match_parts, match_path, name_of, match_patterns, match,
}
use file_vault.Filesystem.IgnoreRules.Glob.{match_component-Returns}

whether : (b c : Bool) → (d : Bool) × (when b (ok c) ≡ ok d)
whether true c = (c, refl)
whether false c = (false, refl)

-- One of the patterns satisfies `P`.
abbrev pub Some : (Pattern → Type 0) → List Pattern → Type 0
Some P [] = true ≡ false
Some P (pattern ∷ patterns) = P pattern ⊎ Some P patterns

-- The pattern is for an entry of that kind, and matches its path, or its name if it has no separator.
abbrev pub Applies : IgnoreCaseSensitivity → Bytes → Bool → Pattern → Type 0
Applies s normalized is_directory pattern =
    (pattern.directory_only && not is_directory ≡ false)
    × (match_path s pattern.text (if pattern.name_only then name_of normalized else normalized)
        ≡ ok true)

module _ (s : IgnoreCaseSensitivity) where
  match_parts-Returns :
      (p : Bytes) (ps : List Bytes) (n : Bytes) (ns : List Bytes)
      → (b : Bool) × (match_parts s p ps n ns ≡ ok b)
  unfolding match_parts
  match_parts-Returns p (q ∷ ps) n (m ∷ ns) =
      let (b, e) = match_component-Returns s p n in
      let (c, f) = match_parts-Returns q ps m ns in rw (e, f) (whether b c)
  match_parts-Returns p [] n [] =
      let (b, e) = match_component-Returns s p n in rw e (whether b true)
  match_parts-Returns p (q ∷ ps) n [] =
      let (b, e) = match_component-Returns s p n in rw e (whether b false)
  match_parts-Returns p [] n (m ∷ ns) =
      let (b, e) = match_component-Returns s p n in rw e (whether b false)

  match_path-Returns : (pattern path : Bytes) → (b : Bool) × (match_path s pattern path ≡ ok b)
  unfolding match_path
  match_path-Returns pattern path =
      match_parts-Returns (split pattern).0 (split pattern).1 (split path).0 (split path).1

  abbrev found : Bool → Result IgnoreMatchResult
  found is_directory = ok (record { ignored = true; prune_directory = is_directory })

  abbrev missed : Result IgnoreMatchResult
  missed = ok (record { ignored = false; prune_directory = false })

  abbrev pub Decides : Bool → Type 0 → Result IgnoreMatchResult → Type 0
  Decides is_directory Reason result =
      ((result ≡ found is_directory) × Reason) ⊎ ((result ≡ missed) × (Reason → true ≡ false))

  -- A pattern that does not apply leaves the decision to the others.
  Decides-skip :
      (d : Bool) (First Rest : Type 0) (r : Result IgnoreMatchResult)
      → (First → true ≡ false)
      → Decides d Rest r
      → Decides d (First ⊎ Rest) r
  Decides-skip d First Rest r refuted (inl (e, reason)) = inl (e, inr reason)
  Decides-skip d First Rest r refuted (inr (e, nothing)) =
      inr (e, λ x. elim x [ inl y ↦ refuted y | inr y ↦ nothing y ])

  Decides-look :
      (d : Bool) (Rest : Type 0) (r : Result IgnoreMatchResult) (b : Bool)
      → Decides d Rest r
      → Decides d ((false ≡ false × ok b ≡ ok true) ⊎ Rest) (if b then found d else r)
  Decides-look d Rest r true h = inl (refl, inl (refl, refl))
  Decides-look d Rest r false h = Decides-skip d _ Rest r (λ x. absurd (ground arith)) h

  match_patterns-Decides :
      (patterns : List Pattern) (path : Bytes) (d : Bool)
      → Decides d (Some (Applies s path d) patterns) (match_patterns s patterns path d)
  unfolding match_patterns
  match_patterns-Decides [] path d = inr (refl, λ x. x)
  match_patterns-Decides (pattern ∷ patterns) path d =
      let (b, e) =
        match_path-Returns pattern.text (if pattern.name_only then name_of path else path) in
      let rest = match_patterns-Decides patterns path d in
      elim (Bool-cases (pattern.directory_only && not d)) [
        | inl skipped ↦ rw skipped (Decides-skip d _ _ _ (λ x. x.0) rest)
        | inr looked ↦ rw (looked, e) (Decides-look d _ _ b rest)
      ]

-- `match` always returns. If a pattern of the rules applies to the path with its separators normalized,
-- the entry is ignored, and pruned if it is a directory; if none applies, it is neither.
pub match-Decides :
    (rules : IgnoreRules) (path : Bytes) (is_directory : Bool)
    → Decides rules.case_sensitivity is_directory
        (Some
          (Applies rules.case_sensitivity (normalize_separators path) is_directory)
          rules.patterns)
        (match rules path is_directory)
unfolding match
match-Decides rules path d =
    match_patterns-Decides rules.case_sensitivity rules.patterns (normalize_separators path) d
