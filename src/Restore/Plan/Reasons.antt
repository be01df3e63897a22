-- ===== src/Restore/Plan/Reasons.antt =====
-- Why a plan skips an entry.
use mathlib.Core.Path.{subst}
use mathlib.Core.List.{Mem, mem-cons_self, mem-cons_of_mem}
use file_vault.Common.{
  ℕ, suc, ◌⊎◌, ◌≡◌, refl, ap, ◌∙◌, inl, inr, Bool, true, false, not, ◌&&◌, Option, none, some, List,
  [], ◌∷◌, ◌++◌, All, nat_eq, list_eq, ok, arith, if-cases, Bool-cases,
}
use file_vault.Common.Checked.{>>=-eq-ok}
use file_vault.Filesystem.Tree.{FilePath}
use file_vault.Database.Entries.{EntryInfo, EntryType}
use file_vault.Restore.Plan.{
  RestoreRequest, PlannedEntry, RestoreAction, OverwritePolicy, never, always, prompt,
  ConflictDecision, cancel, Destination, FileStatus, is_component_prefix, require_safe_ancestors,
  decide, is_never, carry_out, conflict_action, action_for, is_skip, is_root, added, plan_action,
  plan_entries, is_directory_entry, is_directory_status, merge_directory,
}
use file_vault.Restore.Plan.Skips.{below, tail_of}

-- The request wants what stands in the place of the entry kept: by its policy, or by the decision of its
-- resolver, which the policy asks for.
abbrev pub WantsKept : RestoreRequest → FilePath → EntryInfo → Type 0
WantsKept request root entry =
    (request.overwrite_policy ≡ never)
    ⊎ ((request.overwrite_policy ≡ prompt)
        × (resolver : FilePath → EntryType → ConflictDecision) × (request.conflict_resolver
            ≡ some resolver)
        × (resolver (root ++ entry.relative_path) entry.type ≡ ConflictDecision.skip))

-- A directory of the plan that is skipped lies above the path, or at it.
abbrev pub IsUnderSkipped : List PlannedEntry → FilePath → Type 0
IsUnderSkipped plan path =
    (d : PlannedEntry) × Mem d plan
    × (d.action ≡ RestoreAction.skip)
    × (is_directory_entry d.entry.type ≡ true)
    × (is_component_prefix d.entry.relative_path path ≡ true)

declined :
    (policy : OverwritePolicy) (resolver : Option (FilePath → EntryType → ConflictDecision))
    (destination : FilePath) (type : EntryType)
    → decide policy resolver destination type ≡ ok ConflictDecision.skip
    → (policy ≡ prompt)
      × (f : FilePath → EntryType → ConflictDecision) × (resolver ≡ some f)
      × (f destination type ≡ ConflictDecision.skip)
unfolding decide
declined never resolver destination type e = absurd (ground arith)
declined always resolver destination type e = absurd (ground arith)
declined prompt none destination type e = cc
declined prompt (some f) destination type e = (refl, f, refl, cc)

skip_carried_out :
    (decision : ConflictDecision) (either_directory : Bool)
    → carry_out decision either_directory ≡ ok RestoreAction.skip
    → decision ≡ ConflictDecision.skip
unfolding carry_out
skip_carried_out ConflictDecision.replace true e = cc
skip_carried_out ConflictDecision.replace false e = absurd (ground arith)
skip_carried_out ConflictDecision.skip b e = refl
skip_carried_out cancel b e = cc

is_never-never : (policy : OverwritePolicy) → is_never policy ≡ true → policy ≡ never
unfolding is_never
is_never-never never e = refl
is_never-never always e = cc
is_never-never prompt e = cc

conflict_action-WantsKept :
    (request : RestoreRequest) (root : FilePath) (entry : EntryInfo) (existing : FileStatus)
    → conflict_action request entry (root ++ entry.relative_path) existing ≡ ok RestoreAction.skip
    → WantsKept request root entry
unfolding conflict_action
conflict_action-WantsKept request root entry existing e =
    elim (if-cases (is_directory_entry entry.type && is_directory_status existing) _ _ _ e) [
      | inl (_, e1) ↦ absurd (ground arith)
      | inr (_, e1) ↦ elim (if-cases (is_never request.overwrite_policy) _ _ _ e1) [
        | inl (policy, _) ↦ inl (is_never-never request.overwrite_policy policy)
        | inr (_, e2) ↦
            let (decision, d, e3) =
              >>=-eq-ok
                (decide request.overwrite_policy request.conflict_resolver
                  (root ++ entry.relative_path) entry.type)
                _ e2 in
            let skipped = skip_carried_out decision _ e3 in
            inr (
              declined request.overwrite_policy request.conflict_resolver
                (root ++ entry.relative_path) entry.type (d ∙ ap ok skipped))
      ]
    ]

plan_action-WantsKept :
    (request : RestoreRequest) (there : Destination) (root : FilePath) (i : ℕ) (entry : EntryInfo)
    → plan_action request there root i entry ≡ ok RestoreAction.skip
    → WantsKept request root entry
unfolding plan_action action_for
plan_action-WantsKept request there root i entry e =
    let (_, _, e1) =
      >>=-eq-ok (require_safe_ancestors (there.inspect i) root entry.relative_path) _ e in
    let (status, _, e2) = >>=-eq-ok (there.status i (root ++ entry.relative_path)) _ e1 in
    conflict status e2
  where
    conflict :
        (status : Option FileStatus)
        → action_for request entry (root ++ entry.relative_path) status ≡ ok RestoreAction.skip
        → WantsKept request root entry
    conflict none q = absurd (ground arith)
    conflict (some existing) q = conflict_action-WantsKept request root entry existing q

-- The skipped directories are some of the plan's.
abbrev AreOf : List PlannedEntry → List FilePath → Type 0
AreOf whole skipped =
    All
      (λ (s : FilePath).
        (d : PlannedEntry) × Mem d whole
        × (d.action ≡ RestoreAction.skip)
        × (is_directory_entry d.entry.type ≡ true)
        × (d.entry.relative_path ≡ s))
      skipped

below-IsUnderSkipped :
    (whole : List PlannedEntry) (skipped : List FilePath) (path : FilePath)
    → AreOf whole skipped
    → below skipped path ≡ true
    → IsUnderSkipped whole path
below-IsUnderSkipped whole [] path of b = cc
below-IsUnderSkipped whole (s ∷ skipped) path ((d, mem, skips, is_dir, at), of) b =
    elim (Bool-cases (is_component_prefix s path)) [
      | inl under ↦ (d, mem, skips, is_dir, ap (λ p. is_component_prefix p path) at ∙ under)
      | inr beside ↦
          let rest : below skipped path ≡ true = ground arith in
          below-IsUnderSkipped whole skipped path of rest
    ]

is_skip-skip : (action : RestoreAction) → is_skip action ≡ true → action ≡ RestoreAction.skip
is_skip-skip RestoreAction.skip e = refl
is_skip-skip RestoreAction.create e = cc
is_skip-skip merge_directory e = cc
is_skip-skip RestoreAction.replace e = cc

added-AreOf :
    {whole : List PlannedEntry} (planned : PlannedEntry) (skipped : List FilePath)
    → AreOf whole skipped
    → Mem planned whole
    → AreOf whole (added planned.entry planned.action skipped)
added-AreOf planned skipped of mem =
    elim (Bool-cases (is_skip planned.action && is_directory_entry planned.entry.type)) [
      | inl both ↦
          rw both
            ((planned, mem, is_skip-skip planned.action (ground arith), ground arith, refl), of)
      | inr neither ↦ rw neither of
    ]

-- The entry is skipped only for one of the two reasons.
abbrev pub HasReason : RestoreRequest → FilePath → List PlannedEntry → PlannedEntry → Type 0
HasReason request root whole planned =
    planned.action ≡ RestoreAction.skip
    → WantsKept request root planned.entry ⊎ IsUnderSkipped whole planned.entry.relative_path

module _ (request : RestoreRequest) (there : Destination) (root : FilePath)
    (whole : List PlannedEntry) where
  -- the part of a plan that is made of the entries left
  abbrev IsReasoned : List PlannedEntry → Type 0
  IsReasoned plan =
      ((d : PlannedEntry) → Mem d plan → Mem d whole) → All (HasReason request root whole) plan

  pub plan_entries-HasReason :
      (i : ℕ) (skipped : List FilePath) (selected : List EntryInfo) (plan : List PlannedEntry)
      → AreOf whole skipped
      → plan_entries request there root i skipped selected ≡ ok plan
      → IsReasoned plan
  unfolding plan_entries
  plan_entries-HasReason i skipped [] plan of e = subst IsReasoned (empty_plan plan e) (λ part. tt)
    where
      empty_plan : (plan : List PlannedEntry) → ok [] ≡ ok plan → [] ≡ plan
      empty_plan plan q = cc
  plan_entries-HasReason i skipped (entry ∷ selected) plan of e =
      elim (if-cases (is_root entry.relative_path) _ _ _ e) [
        | inl (r, e1) ↦
            let planned : PlannedEntry = record {
              entry = entry;
              action = merge_directory;
              metadata_allowed = true;
            } in
            let (more, h, same) = tail_of request there root planned _ plan e1 in
            subst IsReasoned same (λ part. (
              λ q. absurd (ground arith),
              plan_entries-HasReason (suc i) skipped selected more of h
                  (λ d m. part d (mem-cons_of_mem planned m)),
            ))
        | inr (r, e1) ↦ elim (if-cases (below skipped entry.relative_path) _ _ _ e1) [
          | inl (b, e2) ↦
              let planned : PlannedEntry = record {
                entry = entry;
                action = RestoreAction.skip;
                metadata_allowed = false;
              } in
              let (more, h, same) = tail_of request there root planned _ plan e2 in
              subst IsReasoned same (λ part. (
                λ q. inr (below-IsUnderSkipped whole skipped entry.relative_path of b),
                plan_entries-HasReason (suc i) skipped selected more of h
                    (λ d m. part d (mem-cons_of_mem planned m)),
              ))
          | inr (b, e2) ↦
              let (action, chosen, e3) = >>=-eq-ok (plan_action request there root i entry) _ e2 in
              let planned : PlannedEntry = record {
                entry = entry;
                action = action;
                metadata_allowed = not (is_skip action);
              } in
              let (more, h, same) = tail_of request there root planned _ plan e3 in
              subst IsReasoned same (λ part. (
                λ q. inl (plan_action-WantsKept request there root i entry (chosen ∙ ap ok q)),
                plan_entries-HasReason (suc i) (added entry action skipped) selected more
                    (added-AreOf planned skipped of (part planned mem-cons_self)) h
                    (λ d m. part d (mem-cons_of_mem planned m)),
              ))
        ]
      ]
