-- ===== src/Snapshot/Progress.antt =====
-- `ProgressAggregator` of src/core/snapshot_engine.cpp, and the events of include/localvault/progress.hpp. A
-- method runs under the mutex; the clock is a parameter, in nanoseconds.
pub mod Rate
pub mod Window
use file_vault.Common.{
  ℕ, ◌+◌, ◌-◌, ◌*◌, Bool, true, false, not, ◌&&◌, ◌||◌, Option, none, some, List, [], ◌∷◌, ◌++◌,
  length, ltb, leb, ◌==◌, nat_eq, if◌then◌else◌, Result,
}
use file_vault.Common.Exec.{Exec, lift, modify, gets, pure, ◌>>=◌, ◌>>◌}
use file_vault.Filesystem.Tree.{FilePath}
use file_vault.Filesystem.Scanner.{ScannedEntry}
use file_vault.Snapshot.Counters.{add_bytes}

pub data OperationPhase : Type 0 where
  preparing scanning reading hashing compressing writing_objects : OperationPhase
  writing_metadata restoring verifying garbage_collecting : OperationPhase
  finalizing complete : OperationPhase

pub record ProgressEvent : Type 0 where
  pub phase : OperationPhase
  pub current_path : FilePath
  pub discovered_entries : ℕ
  pub processed_entries : ℕ
  pub processed_bytes : ℕ
  pub total_entries : Option ℕ
  pub total_bytes : Option ℕ
  pub new_chunks : ℕ
  pub reused_chunks : ℕ

pub record Emission : Type 0 where
  pub time : ℕ
  pub required : Bool

-- `delivered` are the calls of the callback, the last one at the end.
pub record ProgressAggregator : Type 0 where
  pub has_callback : Bool
  pub discovered_entries : ℕ
  pub discovered_bytes : ℕ
  pub processed_entries : ℕ
  pub processed_bytes : ℕ
  pub new_chunks : ℕ
  pub reused_chunks : ℕ
  pub current_path : FilePath
  pub dirty : Bool
  pub finished : Bool
  pub cancelled : Bool
  pub scan_complete : Bool
  pub scan_completion_pending : Bool
  pub writing_phase_emitted : Bool
  pub emissions : List Emission
  pub delivered : List (Emission × ProgressEvent)

abbrev pub second : ℕ
second = 1000 * 1000 * 1000

when_complete : Bool → ℕ → Option ℕ
when_complete true n = some n
when_complete false n = none

unfoldable pub event : OperationPhase → FilePath → ProgressAggregator → ProgressEvent
unfolding when_complete
event phase current_path p = record {
  phase = phase;
  current_path = current_path;
  discovered_entries = p.discovered_entries;
  processed_entries = p.processed_entries;
  processed_bytes = p.processed_bytes;
  total_entries = when_complete p.scan_complete p.discovered_entries;
  total_bytes = when_complete p.scan_complete p.discovered_bytes;
  new_chunks = p.new_chunks;
  reused_chunks = p.reused_chunks;
}

-- the loop that drops the emissions of a second ago and before
unfoldable pub drop_old : ℕ → List Emission → List Emission
drop_old now [] = []
drop_old now (emission ∷ emissions) =
    let rest = drop_old now emissions in
    if leb emission.time now && leb second (now - emission.time) then rest else emission ∷ emissions

unfoldable pub ordinary_count : List Emission → ℕ
ordinary_count [] = 0
ordinary_count (emission ∷ emissions) =
    let rest = ordinary_count emissions in if emission.required then rest else rest + 1

unfoldable pub push_emission :
    OperationPhase → FilePath → Bool → ℕ → ProgressAggregator → ProgressAggregator
push_emission phase current_path required now p =
    if leb 10 (length p.emissions) || (not required && leb 4 (ordinary_count p.emissions))
    then p
    else record p {
      emissions = p.emissions ++ record { time = now; required = required } ∷ [];
      delivered =
          p.delivered
          ++ (record { time = now; required = required }, event phase current_path p) ∷ [];
    }

unfoldable pub emit : OperationPhase → FilePath → Bool → ℕ → ProgressAggregator → ProgressAggregator
emit phase current_path required now p =
    if not p.has_callback
    then p
    else push_emission phase current_path required now
        (record p { emissions = drop_old now p.emissions })

abbrev pub notify : FilePath → ProgressAggregator → ProgressAggregator
notify current_path p = record p { current_path = current_path; dirty = true }

-- Addition to one counter, which `load` reads and `store` writes.
unfoldable pub add_atomic :
    (ProgressAggregator → ℕ)
    → (ℕ → ProgressAggregator → ProgressAggregator)
    → ℕ
    → Exec ProgressAggregator (Unit {0})
add_atomic load store value = do
  current ← gets load
  total ← lift (add_bytes current value)
  modify (store total)

unfoldable pub record_discovered : ScannedEntry → Exec ProgressAggregator (Unit {0})
record_discovered entry = do
  add_atomic (λ p. p.discovered_entries) (λ n p. record p { discovered_entries = n }) 1
  add_atomic (λ p. p.discovered_bytes) (λ n p. record p { discovered_bytes = n }) entry.logical_size
  modify (notify entry.source_path)

unfoldable pub record_processed : ScannedEntry → ℕ → ℕ → Exec ProgressAggregator (Unit {0})
record_processed entry new_chunks reused_chunks = do
  add_atomic (λ p. p.processed_entries) (λ n p. record p { processed_entries = n }) 1
  add_atomic (λ p. p.processed_bytes) (λ n p. record p { processed_bytes = n }) entry.logical_size
  add_atomic (λ p. p.new_chunks) (λ n p. record p { new_chunks = n }) new_chunks
  add_atomic (λ p. p.reused_chunks) (λ n p. record p { reused_chunks = n }) reused_chunks
  modify (notify entry.source_path)

unfoldable pub mark_scan_complete : FilePath → ProgressAggregator → ProgressAggregator
mark_scan_complete current_path p = record p {
  scan_complete = true;
  scan_completion_pending = true;
  current_path = current_path;
  dirty = true;
}

unfoldable pub finish : ProgressAggregator → ProgressAggregator
finish p = record p { finished = true }

unfoldable pub cancel : ProgressAggregator → ProgressAggregator
cancel p = record p { cancelled = true }

-- What a pass of the loop of `run` comes to: it waits, the loop ends, or it goes on.
pub data Pass : Type 0 where
  waits ends : Pass
  goes_on : ProgressAggregator → Pass

phase_of : Bool → OperationPhase
phase_of true = writing_metadata
phase_of false = scanning

-- The part of a pass behind the mutex.
unfoldable pub report : Bool → FilePath → ℕ → ProgressAggregator → ProgressAggregator
unfolding phase_of
report scan_completion current_path now p =
    let has_processed = not (p.processed_entries == 0) in
    let writing = λ (q : ProgressAggregator). record q { writing_phase_emitted = true } in
    if scan_completion
    then (if has_processed
        then writing (emit writing_metadata current_path true now p)
        else emit scanning current_path true now p)
    else if has_processed && not p.writing_phase_emitted
    then writing (emit writing_metadata current_path true now p)
    else emit (phase_of has_processed) current_path false now p

unfoldable pub run_pass : ℕ → ProgressAggregator → Pass
unfolding report
run_pass now p =
    if not (p.dirty || p.finished || p.cancelled)
    then waits
    else if p.cancelled || not p.dirty
    then ends
    else goes_on (
        report p.scan_completion_pending p.current_path now
          (record p { scan_completion_pending = false; dirty = false }))
