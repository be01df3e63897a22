-- ===== src/Snapshot/Progress/Rate.antt =====
-- How often the callback is called.
use mathlib.Core.Path.{subst}
use file_vault.Common.{
  ℕ, ◌≤◌, ◌≡◌, inl, inr, refl, ap, Bool, true, false, not, ◌&&◌, ◌||◌, List, [], ◌∷◌, ◌++◌, map,
  length, leb, if◌then◌else◌, Bool-cases, arith, ◌==◌, nat_eq,
}
use file_vault.Common.Exec.Rules.{Keeps, Keeps-bind, Keeps-gets, Keeps-lift, Keeps-modify}
use file_vault.Filesystem.Tree.{FilePath}
use file_vault.Filesystem.Scanner.{ScannedEntry}
use file_vault.Snapshot.Progress.{
  ProgressAggregator, ProgressEvent, Emission, OperationPhase, ordinary_count, push_emission, emit,
  add_atomic, record_discovered, record_processed, mark_scan_complete, finish, cancel, waits, ends,
  goes_on, report, writing_metadata, scanning, run_pass,
}
use file_vault.Snapshot.Progress.Window.{
  in_second, count, IsPaced, IsPaced-later, IsPaced-drop_old, IsPaced-push,
}

-- What the threads do to the aggregator, each at a reading of the clock.
pub data Step (now : ℕ) (p : ProgressAggregator) : ProgressAggregator → Type 0 where
  discovers : (entry : ScannedEntry) → Step now p (record_discovered entry p).1
  processes :
      (entry : ScannedEntry) (new_chunks reused_chunks : ℕ)
      → Step now p (record_processed entry new_chunks reused_chunks p).1
  completes_scan : (path : FilePath) → Step now p (mark_scan_complete path p)
  finishes : Step now p (finish p)
  cancels : Step now p (cancel p)
  passes : (q : ProgressAggregator) → run_pass now p ≡ goes_on q → Step now p q
  requires : (phase : OperationPhase) (path : FilePath) → Step now p (emit phase path true now p)

-- An aggregator at its last reading of the clock, which does not go back.
pub data Runs : ℕ → ProgressAggregator → Type 0 where
  starts : (first : ℕ) (p : ProgressAggregator) → p.emissions ≡ [] → p.delivered ≡ [] → Runs first p
  steps :
      (last now : ℕ) (p q : ProgressAggregator)
      → Runs last p
      → last ≤ now
      → Step now p q
      → Runs now q

-- The calls of the callback, all and ordinary ones, in the second that ends with `t`.
unfoldable pub calls_in_second : ℕ → ProgressAggregator → ℕ
calls_in_second t p = count (in_second t) (map (λ d. d.0) p.delivered)

unfoldable pub ordinary_calls_in_second : ℕ → ProgressAggregator → ℕ
ordinary_calls_in_second t p =
    count (λ emission. in_second t emission && not emission.required) (map (λ d. d.0) p.delivered)

abbrev Paces : ℕ → ProgressAggregator → Type 0
Paces last p = IsPaced last p.emissions (map (λ d. d.0) p.delivered)

map-append-one :
    (xs : List (Emission × ProgressEvent)) (x : Emission × ProgressEvent)
    → map (λ d. d.0) (xs ++ x ∷ []) ≡ map (λ d. d.0) xs ++ x.0 ∷ []
map-append-one [] x = refl
map-append-one (y ∷ ys) x = ap (◌∷◌ y.0) (map-append-one ys x)

module _ (phase : OperationPhase) (path : FilePath) (required : Bool) (now : ℕ) where
  push_emission-Paces :
      (p : ProgressAggregator) → Paces now p → Paces now (push_emission phase path required now p)
  unfolding push_emission
  push_emission-Paces p i =
      elim (Bool-cases
        (leb 10 (length p.emissions) || (not required && leb 4 (ordinary_count p.emissions)))) [
          | inl full ↦ rw full i
          | inr room ↦
              rw (room, map-append-one p.delivered) (IsPaced-push now required p.emissions _ room i)
        ]

  emit-Paces : (p : ProgressAggregator) → Paces now p → Paces now (emit phase path required now p)
  unfolding emit
  emit-Paces p i = elim (Bool-cases (not p.has_callback)) [
    | inl silent ↦ rw silent i
    | inr called ↦ rw called (push_emission-Paces _ (IsPaced-drop_old now p.emissions _ i))
  ]

module _ (now : ℕ) where
  add_atomic-Keeps :
      (load : ProgressAggregator → ℕ) (store : ℕ → ProgressAggregator → ProgressAggregator)
      (value : ℕ)
      → ((n : ℕ) (p : ProgressAggregator) → Paces now p → Paces now (store n p))
      → Keeps (Paces now) (add_atomic load store value)
  unfolding add_atomic
  add_atomic-Keeps load store value k =
      Keeps-bind _ _ (Keeps-gets _) (λ _. Keeps-bind _ _ (Keeps-lift _) (λ n. Keeps-modify _ (k n)))

  record_discovered-Keeps : (entry : ScannedEntry) → Keeps (Paces now) (record_discovered entry)
  unfolding record_discovered
  record_discovered-Keeps entry = Keeps-bind _ _ (add_atomic-Keeps _ _ 1 (λ n p i. i)) (λ _.
      Keeps-bind _ _ (add_atomic-Keeps _ _ entry.logical_size (λ n p i. i))
        (λ _. Keeps-modify _ (λ p i. i)))

  record_processed-Keeps :
      (entry : ScannedEntry) (new_chunks reused_chunks : ℕ)
      → Keeps (Paces now) (record_processed entry new_chunks reused_chunks)
  unfolding record_processed
  record_processed-Keeps entry new_chunks reused_chunks =
      Keeps-bind _ _ (add_atomic-Keeps _ _ 1 (λ n p i. i)) (λ _.
        Keeps-bind _ _ (add_atomic-Keeps _ _ entry.logical_size (λ n p i. i)) (λ _.
          Keeps-bind _ _ (add_atomic-Keeps _ _ new_chunks (λ n p i. i)) (λ _.
            Keeps-bind _ _ (add_atomic-Keeps _ _ reused_chunks (λ n p i. i))
              (λ _. Keeps-modify _ (λ p i. i)))))

  report-Paces :
      (scan_completion : Bool) (path : FilePath) (p : ProgressAggregator)
      → Paces now p
      → Paces now (report scan_completion path now p)
  unfolding report
  report-Paces true path p i = elim (Bool-cases (not (p.processed_entries == 0))) [
    | inl some_there ↦ rw some_there (emit-Paces writing_metadata path true now p i)
    | inr none_there ↦ rw none_there (emit-Paces scanning path true now p i)
  ]
  report-Paces false path p i =
      elim (Bool-cases (not (p.processed_entries == 0) && not p.writing_phase_emitted)) [
        | inl first ↦ rw first (emit-Paces writing_metadata path true now p i)
        | inr later ↦ rw later (emit-Paces _ path false now p i)
      ]

  goes_on-injective : {p q : ProgressAggregator} → goes_on p ≡ goes_on q → p ≡ q
  goes_on-injective e = cc

  passed :
      (a b : Bool) (p q : ProgressAggregator)
      → (if a then waits else if b then ends else goes_on p) ≡ goes_on q
      → p ≡ q
  passed true b p q e = cc
  passed false true p q e = cc
  passed false false p q e = goes_on-injective e

  Step-Paces : (p q : ProgressAggregator) → Paces now p → Step now p q → Paces now q
  unfolding mark_scan_complete finish cancel run_pass
  Step-Paces p q i (discovers entry) = (record_discovered-Keeps entry).at p i
  Step-Paces p q i (processes entry new_chunks reused_chunks) =
      (record_processed-Keeps entry new_chunks reused_chunks).at p i
  Step-Paces p q i (completes_scan path) = i
  Step-Paces p q i finishes = i
  Step-Paces p q i cancels = i
  Step-Paces p q i (passes next e) = subst (Paces now) (passed _ _ _ next e) (
      report-Paces p.scan_completion_pending p.current_path
        (record p { scan_completion_pending = false; dirty = false }) i)
  Step-Paces p q i (requires phase path) = emit-Paces phase path true now p i

Runs-Paces : (now : ℕ) (p : ProgressAggregator) → Runs now p → Paces now p
unfolding count
Runs-Paces now p (starts first r none_sent none_delivered) =
    rw (none_sent, none_delivered)
      (record {
        old = [];
        split = refl;
        past = tt;
        few = omega arith;
        few_ordinary = unfold ordinary_count in omega arith;
        rate = λ t. omega arith;
        ordinary_rate = λ t. omega arith;
      })
Runs-Paces now q (steps last next p r runs later step) =
    Step-Paces next p r (IsPaced-later last next p.emissions _ later (Runs-Paces last p runs)) step

-- Whatever the threads do, while the clock does not go back, the callback is called at most ten times
-- in any second, and at most four times without being required.
pub Runs-rate :
    (now t : ℕ) (p : ProgressAggregator)
    → Runs now p
    → (calls_in_second t p ≤ 10) × (ordinary_calls_in_second t p ≤ 4)
unfolding calls_in_second ordinary_calls_in_second
Runs-rate now t p runs = let i = Runs-Paces now p runs in (i.rate t, i.ordinary_rate t)
