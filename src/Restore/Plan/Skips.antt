-- ===== src/Restore/Plan/Skips.antt =====
-- What a plan never does.
use mathlib.Core.Path.{subst}
use file_vault.Common.{
  ℕ, suc, ◌⊎◌, ◌≡◌, refl, ap, ◌∙◌, inl, inr, Bool, true, false, not, ◌&&◌, ◌||◌, Option, none, some,
  List, [], ◌∷◌, ◌++◌, any, map, All, list_beq_iff, ◌==◌, nat_eq, list_eq, Result, ok, arith,
  if-cases, Bool-cases,
}
use file_vault.Common.Checked.{>>=-eq-ok}
use file_vault.Filesystem.Tree.{FilePath}
use file_vault.Database.Entries.{EntryInfo, EntryType}
use file_vault.Restore.Plan.{
  RestoreRequest, PlannedEntry, RestoreAction, OverwritePolicy, never, always, prompt,
  ConflictDecision, cancel, is_directory_status, Destination, FileStatus, is_component_prefix,
  require_safe_ancestors, decide, is_never, carry_out, conflict_action, action_for, is_skip,
  is_root, added, plan_action, plan_entries, is_directory_entry, merge_directory, cons_plan,
}

-- The request wants what stands in the place of the entry replaced: by its policy, or by the decision of its
-- resolver, which the policy asks for.
abbrev pub WantsReplaced : RestoreRequest → FilePath → EntryInfo → Type 0
WantsReplaced request root entry =
    (request.overwrite_policy ≡ always)
    ⊎ ((request.overwrite_policy ≡ prompt)
        × (resolver : FilePath → EntryType → ConflictDecision) × (request.conflict_resolver
            ≡ some resolver)
        × (resolver (root ++ entry.relative_path) entry.type ≡ ConflictDecision.replace))

-- Nothing is replaced but by an entry other than a directory, and as the request wants it.
abbrev pub Allowed : RestoreRequest → FilePath → PlannedEntry → Type 0
Allowed request root planned =
    planned.action ≡ RestoreAction.replace
    → WantsReplaced request root planned.entry × (is_directory_entry planned.entry.type ≡ false)

decided :
    (policy : OverwritePolicy) (resolver : Option (FilePath → EntryType → ConflictDecision))
    (destination : FilePath) (type : EntryType) (decision : ConflictDecision)
    → is_never policy ≡ false
    → decide policy resolver destination type ≡ ok decision
    → (policy ≡ always)
      ⊎ ((policy ≡ prompt)
          × (f : FilePath → EntryType → ConflictDecision) × (resolver ≡ some f)
          × (f destination type ≡ decision))
unfolding decide is_never
decided never resolver destination type decision n e = cc
decided always resolver destination type decision n e = inl refl
decided prompt none destination type decision n e = cc
decided prompt (some f) destination type decision n e = inr (refl, f, refl, cc)

carried_out :
    (decision : ConflictDecision) (either_directory : Bool)
    → carry_out decision either_directory ≡ ok RestoreAction.replace
    → (decision ≡ ConflictDecision.replace) × (either_directory ≡ false)
unfolding carry_out
carried_out ConflictDecision.replace true e = cc
carried_out ConflictDecision.replace false e = (refl, refl)
carried_out ConflictDecision.skip b e = absurd (ground arith)
carried_out cancel b e = cc

conflict_action-Allowed :
    (request : RestoreRequest) (root : FilePath) (entry : EntryInfo) (existing : FileStatus)
    → conflict_action request entry (root ++ entry.relative_path) existing
      ≡ ok RestoreAction.replace
    → WantsReplaced request root entry × (is_directory_entry entry.type ≡ false)
unfolding conflict_action
conflict_action-Allowed request root entry existing e =
    elim (if-cases (is_directory_entry entry.type && is_directory_status existing) _ _ _ e) [
      | inl (_, e1) ↦ absurd (ground arith)
      | inr (_, e1) ↦ elim (if-cases (is_never request.overwrite_policy) _ _ _ e1) [
        | inl (_, e2) ↦ absurd (ground arith)
        | inr (asked, e2) ↦
            let (decision, d, e3) =
              >>=-eq-ok
                (decide request.overwrite_policy request.conflict_resolver
                  (root ++ entry.relative_path) entry.type)
                _ e2 in
            let (replaced, neither) =
              carried_out decision (is_directory_entry entry.type || is_directory_status existing)
                e3 in
            (
              decided request.overwrite_policy request.conflict_resolver
                  (root ++ entry.relative_path) entry.type ConflictDecision.replace asked
                  (d ∙ ap ok replaced),
              ground arith,
            )
      ]
    ]

plan_action-Allowed :
    (request : RestoreRequest) (there : Destination) (root : FilePath) (i : ℕ) (entry : EntryInfo)
    → plan_action request there root i entry ≡ ok RestoreAction.replace
    → WantsReplaced request root entry × (is_directory_entry entry.type ≡ false)
unfolding plan_action action_for
plan_action-Allowed request there root i entry e =
    let (_, _, e1) =
      >>=-eq-ok (require_safe_ancestors (there.inspect i) root entry.relative_path) _ e in
    let (status, _, e2) = >>=-eq-ok (there.status i (root ++ entry.relative_path)) _ e1 in
    conflict status e2
  where
    conflict :
        (status : Option FileStatus)
        → action_for request entry (root ++ entry.relative_path) status ≡ ok RestoreAction.replace
        → WantsReplaced request root entry × (is_directory_entry entry.type ≡ false)
    conflict none q = absurd (ground arith)
    conflict (some existing) q = conflict_action-Allowed request root entry existing q

abbrev pub below : List FilePath → FilePath → Bool
below skipped path = any (λ (s : FilePath). is_component_prefix s path) skipped

-- Each entry below a skipped path or below a directory that the plan itself skips is skipped, and its
-- metadata is left alone.
abbrev pub Respects : List FilePath → List PlannedEntry → Type 0
Respects skipped [] = Unit
Respects skipped (planned ∷ plan) =
    (is_root planned.entry.relative_path ≡ false
      → below skipped planned.entry.relative_path ≡ true
      → (planned.action ≡ RestoreAction.skip) × (planned.metadata_allowed ≡ false))
    × Respects (added planned.entry planned.action skipped) plan

prefix_trans :
    (a b c : FilePath)
    → is_component_prefix a b ≡ true
    → is_component_prefix b c ≡ true
    → is_component_prefix a c ≡ true
unfolding is_component_prefix
prefix_trans [] b c h k = refl
prefix_trans (x ∷ a) [] c h k = cc
prefix_trans (x ∷ a) (y ∷ b) [] h k = cc
prefix_trans (x ∷ a) (y ∷ b) (z ∷ c) h k = elim (if-cases (x == y) _ _ _ h) [
  | inl (p, h1) ↦ elim (if-cases (y == z) _ _ _ k) [
    | inl (q, k1) ↦
        let same : (x == z) ≡ true =
          (list_beq_iff x z).1 ((list_beq_iff x y).0 p ∙ (list_beq_iff y z).0 q) in
        rw same (prefix_trans a b c h1 k1)
    | inr (q, k1) ↦ cc
  ]
  | inr (p, h1) ↦ cc
]

below_trans :
    (skipped : List FilePath) (p q : FilePath)
    → below skipped p ≡ true
    → is_component_prefix p q ≡ true
    → below skipped q ≡ true
below_trans [] p q h k = h
below_trans (s ∷ skipped) p q h k = elim (Bool-cases (is_component_prefix s p)) [
  | inl y ↦ rw (prefix_trans s p q y k) refl
  | inr n ↦
      let rest : below skipped p ≡ true = ground arith in
      let more = below_trans skipped p q rest k in ground arith
]

-- No path is below the first list but not below the second.
abbrev Covered : List FilePath → List FilePath → Type 0
Covered first second = (q : FilePath) → below first q ≡ true → below second q ≡ true

added-Covered :
    (entry : EntryInfo) (action : RestoreAction) (first second : List FilePath)
    → Covered first second
    → Covered (added entry action first) (added entry action second)
added-Covered entry action first second h q e =
    let known = h q in
    elim (Bool-cases (is_skip action && is_directory_entry entry.type)) [
      | inl y ↦
          let e1 : is_component_prefix entry.relative_path q || below first q ≡ true =
            ground arith in
          rw y (ground arith)
      | inr n ↦ let e1 : below first q ≡ true = ground arith in rw n (known e1)
    ]

Respects-Covered :
    (first second : List FilePath) (plan : List PlannedEntry)
    → Covered first second
    → Respects second plan
    → Respects first plan
Respects-Covered first second [] h r = tt
Respects-Covered first second (p ∷ plan) h r = (
  λ root b. r.0 root (h p.entry.relative_path b),
  Respects-Covered (added p.entry p.action first) (added p.entry p.action second) plan
      (added-Covered p.entry p.action first second h) r.1,
)

module _ (request : RestoreRequest) (there : Destination) (root : FilePath) where
  -- What is claimed of a plan for a list of entries.
  abbrev pub IsPlan : List FilePath → List EntryInfo → List PlannedEntry → Type 0
  IsPlan skipped selected plan =
      (map (λ (p : PlannedEntry). p.entry) plan ≡ selected)
      × All (Allowed request root) plan
      × Respects skipped plan

  cons-IsPlan :
      (skipped : List FilePath) (planned : PlannedEntry) (selected : List EntryInfo)
      (plan : List PlannedEntry)
      → Allowed request root planned
      → (is_root planned.entry.relative_path ≡ false
          → below skipped planned.entry.relative_path ≡ true
          → (planned.action ≡ RestoreAction.skip) × (planned.metadata_allowed ≡ false))
      → IsPlan (added planned.entry planned.action skipped) selected plan
      → IsPlan skipped (planned.entry ∷ selected) (planned ∷ plan)
  cons-IsPlan skipped planned selected plan allowed respects (names, all, rest) =
      (ap (◌∷◌ planned.entry) names, (allowed, all), (respects, rest))

  pub tail_of :
      (planned : PlannedEntry) (rest : Result (List PlannedEntry)) (plan : List PlannedEntry)
      → cons_plan request there root planned rest ≡ ok plan
      → (more : List PlannedEntry) × (rest ≡ ok more) × (planned ∷ more ≡ plan)
  tail_of planned rest plan e = let (more, a, b) = >>=-eq-ok rest _ e in (more, a, cc)

  skipped-Covered :
      (entry : EntryInfo) (skipped : List FilePath)
      → below skipped entry.relative_path ≡ true
      → Covered (added entry RestoreAction.skip skipped) skipped
  skipped-Covered entry skipped b q e = elim (Bool-cases (is_directory_entry entry.type)) [
    | inl y ↦ elim (Bool-cases (is_component_prefix entry.relative_path q)) [
      | inl t ↦ below_trans skipped entry.relative_path q b t
      | inr f ↦ ground arith
    ]
    | inr n ↦ ground arith
  ]

  -- the loop, by induction on the entries
  pub plan_entries-IsPlan :
      (i : ℕ) (skipped : List FilePath) (selected : List EntryInfo) (plan : List PlannedEntry)
      → plan_entries request there root i skipped selected ≡ ok plan
      → IsPlan skipped selected plan
  unfolding plan_entries
  plan_entries-IsPlan i skipped [] plan e =
      subst (IsPlan skipped []) (empty_plan plan e) (refl, tt, tt)
    where
      empty_plan : (plan : List PlannedEntry) → ok [] ≡ ok plan → [] ≡ plan
      empty_plan plan q = cc
  plan_entries-IsPlan i skipped (entry ∷ selected) plan e =
      elim (if-cases (is_root entry.relative_path) _ _ _ e) [
        | inl (r, e1) ↦
            let planned : PlannedEntry = record {
              entry = entry;
              action = merge_directory;
              metadata_allowed = true;
            } in
            let (more, h, same) = tail_of planned _ plan e1 in
            subst (IsPlan skipped (entry ∷ selected)) same (
              cons-IsPlan skipped planned selected more (λ q. absurd (ground arith))
                (λ q b. absurd (ground arith))
                (plan_entries-IsPlan (suc i) skipped selected more h))
        | inr (r, e1) ↦ elim (if-cases (below skipped entry.relative_path) _ _ _ e1) [
          | inl (b, e2) ↦
              let planned : PlannedEntry = record {
                entry = entry;
                action = RestoreAction.skip;
                metadata_allowed = false;
              } in
              let (more, h, same) = tail_of planned _ plan e2 in
              let (names, all, rest) = plan_entries-IsPlan (suc i) skipped selected more h in
              subst (IsPlan skipped (entry ∷ selected)) same (
                cons-IsPlan skipped planned selected more (λ q. absurd (ground arith))
                  (λ q c. (refl, refl))
                  (
                    names,
                    all,
                    Respects-Covered (added entry RestoreAction.skip skipped) skipped more
                        (skipped-Covered entry skipped b) rest,
                  ))
          | inr (b, e2) ↦
              let (action, chosen, e3) = >>=-eq-ok (plan_action request there root i entry) _ e2 in
              let planned : PlannedEntry = record {
                entry = entry;
                action = action;
                metadata_allowed = not (is_skip action);
              } in
              let (more, h, same) = tail_of planned _ plan e3 in
              subst (IsPlan skipped (entry ∷ selected)) same (
                cons-IsPlan skipped planned selected more
                  (λ q. plan_action-Allowed request there root i entry (chosen ∙ ap ok q))
                  (λ q c. absurd (ground arith))
                  (plan_entries-IsPlan (suc i) (added entry action skipped) selected more h))
        ]
      ]
