-- ===== src/Snapshot/Worker/Halts.antt =====
-- A worker comes to an end with every job.
use file_vault.Common.{
  filesystem_error, ℕ, zero, suc, ◌+◌, ◌≤◌, ◌≡◌, ◌≢◌, refl, sym, Bool, true, false, Option, none,
  some, List, [], ◌∷◌, Bytes, length, Result, ok, err, out_of_fuel, ErrorCode, u64_max,
  if◌then◌else◌,
}
use mathlib.Core.Path.{subst}
use file_vault.Common.Exec.{Exec, throw}
use file_vault.Common.Exec.Halts.{Finishes, Halts, Halts-bind, Halts-check, Halts-lift, halts_rules}
use file_vault.Database.Entries.{EntryType, regular_file, directory, symbolic_link}
use file_vault.Filesystem.FileMetadata.{PlatformFileMetadata}
use file_vault.Filesystem.Scanner.{ScannedEntry}
use file_vault.Storage.Chunker.{Chunker, make, for_each_chunk_of_file, read_file}
use file_vault.Storage.Chunker.Cover.{Chunk, for_chunks, for_each_chunk-IsChunking}
use file_vault.Storage.World.{World, State, StoredObject}
use file_vault.Storage.ObjectStore.{ObjectStore}
use file_vault.Storage.ObjectStore.Halts.{store-Halts}
use file_vault.Snapshot.Counters.{add_bytes, checked_sequence}
use file_vault.Snapshot.Worker.{
  Attempt, Observed, StopAnswers, ProcessedEntry, scanned, fresh_attempt, append, on_store,
  note_error, store_chunk, keeping_error, confirm_unchanged, read_source, on_error, conclude,
  attempts, process_entry, process_job, rounds_of_file,
}

add_bytes-Finishes : (m n : ℕ) → Finishes (add_bytes m n)
unfolding add_bytes
add_bytes-Finishes m n = search halts_rules

checked_sequence-Finishes : (n : ℕ) → Finishes (checked_sequence n)
unfolding checked_sequence
checked_sequence-Finishes n = search halts_rules

module _ (w : World) (o : ObjectStore) where
  on_store-Halts : {A : Type 0} (m : Exec State A) → Halts m → Halts (on_store w m)
  unfolding on_store
  on_store-Halts m h = record { at = λ a. h.at a.store_state }

  append-Halts :
      (written : Bool) (object : StoredObject) (offset : ℕ) (i : _)
      → Halts (append w written object offset i)
  unfolding append
  append-Halts written object offset i = search halts_rules

  store_chunk-Halts :
      (stop : StopAnswers) (offset : ℕ) (raw : Bytes) → Halts (store_chunk w o stop offset raw)
  unfolding store_chunk
  store_chunk-Halts stop offset raw =
      search
        (
          halts_rules, on_store-Halts, store-Halts, add_bytes-Finishes, checked_sequence-Finishes,
          append-Halts,
        )
        depth 24

  keeping_error-Halts : (m : Exec (Attempt w) (Unit {0})) → Halts m → Halts (keeping_error w m)
  unfolding keeping_error note_error
  keeping_error-Halts m h = record { at = λ a. go (m a) (h.at a) }
    where
      go :
          (r : Result (Unit {0}) × Attempt w) → r.0 ≢ out_of_fuel → (note_error w r).0 ≢ out_of_fuel
      go (ok _, u) h = λ e. cc
      go (err code, u) h = λ e. cc
      go (out_of_fuel, u) h = absurd (h refl)

  for_chunks-Halts :
      (stop : StopAnswers) (list : List Chunk)
      → Halts (for_chunks (λ o' b. keeping_error w (store_chunk w o stop o' b)) list)
  unfolding for_chunks
  for_chunks-Halts stop [] = search halts_rules
  for_chunks-Halts stop ((o', raw) ∷ list) =
      Halts-bind _ _ (keeping_error-Halts _ (store_chunk-Halts stop o' raw))
        (λ _. for_chunks-Halts stop list)

  module _ (chunk_size : ℕ) (chunker : Chunker) (made : make chunk_size ≡ ok chunker) where
    read_chunks-Halts :
        (stop : StopAnswers) (source : Option Bytes)
        → ((content : Bytes) → source ≡ some content → length content ≤ u64_max)
        → ((i : ℕ) → stop.rounds i ≡ false)
        → Halts (
            for_each_chunk_of_file read_file stop.rounds
              (some (λ offset bytes. keeping_error w (store_chunk w o stop offset bytes)))
              chunker
              (rounds_of_file source)
              source)
    unfolding rounds_of_file
    read_chunks-Halts stop none fits running = unfold for_each_chunk_of_file in search halts_rules
    read_chunks-Halts stop (some content) fits running =
        let (list, _, run) =
          for_each_chunk-IsChunking chunk_size chunker content stop.rounds made (fits content refl)
            running in
        record {
          at = λ a.
              subst (λ (r : Result (Unit {0}) × Attempt w). r.0 ≢ out_of_fuel) (sym (run _ _ a))
                ((for_chunks-Halts stop list).at a);
        }

    module _ (original : ScannedEntry) (observed : ℕ → Observed Bytes)
        (before_finishes : (i : ℕ) → Finishes (observed i).before)
        (after_finishes : (i : ℕ) → Finishes (observed i).after)
        (fits : (i : ℕ) (content : Bytes)
          → (observed i).source ≡ some content
          → length content ≤ u64_max)
        (running : (i j : ℕ) → (observed i).stop.rounds j ≡ false) where
      read_source-Halts :
          (i : ℕ) → Halts (read_source w read_file o chunker rounds_of_file (observed i))
      unfolding read_source confirm_unchanged
      read_source-Halts i = Halts-bind _ _ (Halts-check _ _) (λ _.
          Halts-bind _ _ (Halts-lift _ (before_finishes i)) (λ before.
            Halts-bind _ _
              (read_chunks-Halts (observed i).stop (observed i).source (fits i) (running i))
              (λ _. Halts-bind _ _ (Halts-lift _ (after_finishes i)) (λ _. search halts_rules))))

      on_error-Halts :
          (callback_error : Option ErrorCode) (e : ErrorCode)
          (next : ErrorCode → Exec State ProcessedEntry)
          → Halts (next e)
          → Halts (on_error w read_file o chunker rounds_of_file callback_error e next)
      unfolding on_error
      on_error-Halts (some code) e next h = search halts_rules
      on_error-Halts none e next h = chosen _
        where
          chosen : (b : Bool) → Halts (if b then next e else throw e)
          chosen true = h
          chosen false = search halts_rules

      conclude-Halts :
          (next : ErrorCode → Exec State ProcessedEntry)
          (r : Result PlatformFileMetadata × Attempt w)
          → ((e : ErrorCode) → Halts (next e))
          → r.0 ≢ out_of_fuel
          → (conclude w read_file o chunker rounds_of_file original next r).0 ≢ out_of_fuel
      unfolding conclude
      conclude-Halts next (ok before, a) h ne = λ e. cc
      conclude-Halts next (err code, a) h ne =
          (on_error-Halts a.callback_error code next (h code)).at a.store_state
      conclude-Halts next (out_of_fuel, a) h ne = absurd (ne refl)

      pub attempts-Halts :
          (left attempt : ℕ)
          → Halts (attempts w read_file o chunker rounds_of_file left attempt original observed)
      unfolding attempts
      attempts-Halts zero attempt = record {
        at =
            (Halts-bind _ _ (Halts-check (observed attempt).spool filesystem_error) (λ _. record {
              at = λ u.
                  conclude-Halts _ _ (λ e. search halts_rules)
                    ((read_source-Halts attempt).at (fresh_attempt w u));
            })).at;
      }
      attempts-Halts (suc left) attempt = record {
        at =
            (Halts-bind _ _ (Halts-check (observed attempt).spool filesystem_error) (λ _. record {
              at = λ u.
                  conclude-Halts _ _ (λ e. attempts-Halts left (attempt + 1))
                    ((read_source-Halts attempt).at (fresh_attempt w u));
            })).at;
      }

      entry-Halts :
          (retry_unstable_files : Bool) (type : EntryType)
          → Halts (
              process_entry w read_file o chunker rounds_of_file retry_unstable_files type original
                observed)
      unfolding process_entry
      entry-Halts true regular_file = attempts-Halts 1 0
      entry-Halts false regular_file = attempts-Halts 0 0
      entry-Halts retry_unstable_files directory = search halts_rules
      entry-Halts retry_unstable_files symbolic_link = search halts_rules

      -- If every file that opens has at most 2^64 - 1 bytes, the system's answers are results or errors and
      -- no stop is requested in the loop of the chunker, then a worker comes to a result or an error with
      -- the job of an entry, however often the file is tried and whichever calls fail.
      pub process_job-Halts :
          (retry_unstable_files : Bool)
          → Halts (
              process_job w read_file o chunker rounds_of_file retry_unstable_files
                (scanned original)
                observed)
      unfolding process_job
      process_job-Halts retry_unstable_files = entry-Halts retry_unstable_files original.type
