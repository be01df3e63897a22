-- ===== src/Snapshot/RoundTrip.antt =====
-- From a source file through a worker and the writer to `restore`.
use mathlib.Core.Path.{subst}
use file_vault.Common.{
  filesystem_error, ℕ, zero, suc, ◌+◌, ◌≤◌, ◌≡◌, ◌≢◌, ◌⊎◌, inl, inr, refl, sym, ap, ◌∙◌, Bool, true,
  false, Option, none, some, List, [], ◌∷◌, Bytes, map, length, Result, ok, err, out_of_fuel,
  ErrorCode, u64_max, arith, if◌then◌else◌,
}
use file_vault.Common.Exec.{Exec, throw}
use file_vault.Common.Exec.Rules.{check-then, pure-then}
use file_vault.Database.Entries.{EntryInfo, ChunkReferenceInfo}
use file_vault.Filesystem.FileMetadata.{PlatformFileMetadata}
use file_vault.Filesystem.Scanner.{ScannedEntry}
use file_vault.Filesystem.Tree.{Tree}
use file_vault.Storage.Blake3Hasher.{Blake3Laws, to_hex}
use file_vault.Storage.ZstdCodec.{ZstdLaws}
use file_vault.Storage.Chunker.{Chunker, make, read_file}
use file_vault.Storage.World.{World, State}
use file_vault.Storage.ObjectFiles.{hash_raw}
use file_vault.Storage.ObjectStore.{ObjectStore, permanent_maximum_chunk_size}
use file_vault.Storage.ObjectStore.Safety.{EachObject, OthersExtend}
use file_vault.Restore.Content.{restore_content}
use file_vault.Restore.Content.RoundTrip.{AreStored, restore_content-AreStored}
use file_vault.Snapshot.Worker.{
  Attempt, Observed, ProcessedEntry, ChunkReferenceRecord, ScannedItem, scanned, warned,
  fresh_attempt, read_source, captured, unavailable, on_error, conclude, attempts, rounds_of_file,
}
use file_vault.Snapshot.Worker.Pieces.{IsKnown, KnownDistinct, OthersKnown, PiecesKnown}
use file_vault.Snapshot.Worker.Source.{
  read_source-Captures, read_source-AllKnown, read_source-opened,
}
use file_vault.Snapshot.Writer.{reference}

module _ (w : World) (o : ObjectStore) (chunker : Chunker) where
  abbrev attempt_run : Observed Bytes → State → Result PlatformFileMetadata × Attempt w
  attempt_run observed s =
      read_source w read_file o chunker rounds_of_file observed (fresh_attempt w s)

  abbrev capture : ScannedEntry → PlatformFileMetadata → Attempt w → ProcessedEntry
  capture = captured w read_file o chunker rounds_of_file

  on_error-ok :
      (callback_error : Option ErrorCode) (e : ErrorCode)
      (next : ErrorCode → Exec State ProcessedEntry) (s t : State) (output : ProcessedEntry)
      → on_error w read_file o chunker rounds_of_file callback_error e next s ≡ (ok output, t)
      → next e s ≡ (ok output, t)
  unfolding on_error throw
  on_error-ok (some code) e next s t output r = cc
  on_error-ok none e next s t output r = chosen _ (next e) r
    where
      chosen :
          (b : Bool) (m : Exec State ProcessedEntry)
          → (if b then m else throw e) s ≡ (ok output, t)
          → m s ≡ (ok output, t)
      chosen true m q = q
      chosen false m q = cc

  -- What is concluded comes of an attempt that returned, or of what is tried next.
  conclude-ok :
      (original : ScannedEntry) (next : ErrorCode → Exec State ProcessedEntry)
      (r : Result PlatformFileMetadata × Attempt w) (output : ProcessedEntry) (t : State)
      → conclude w read_file o chunker rounds_of_file original next r ≡ (ok output, t)
      → ((before : PlatformFileMetadata) × (a : Attempt w) × (r ≡ (ok before, a))
          × (output ≡ capture original before a)
          × (t ≡ a.store_state))
        ⊎ ((e : ErrorCode) × (r.0 ≡ err e) × (next e r.1.store_state ≡ (ok output, t)))
  unfolding conclude
  conclude-ok original next (ok before, a) output t e =
      inl (before, a, refl, ok-injective (sym (ap (λ x. x.0) e)), sym (ap (λ x. x.1) e))
    where
      ok-injective : {x y : ProcessedEntry} → ok x ≡ ok y → x ≡ y
      ok-injective p = cc
  conclude-ok original next (err code, a) output t e =
      inr (code, refl, on_error-ok a.callback_error code next a.store_state t output e)
  conclude-ok original next (out_of_fuel, a) output t e = cc

  attempts-captured :
      (original : ScannedEntry) (observed : ℕ → Observed Bytes) (P : State → Type 0)
      → ((i : ℕ) (u : State) → P u → P (attempt_run (observed i) u).1.store_state)
      → (left attempt : ℕ) (s t : State) (output : ProcessedEntry) (entry : ScannedEntry) → P s
      → attempts w read_file o chunker rounds_of_file left attempt original observed s
        ≡ (ok output, t)
      → output.value ≡ scanned entry
      → (i : ℕ) × (u : State) × (before : PlatformFileMetadata) × (a : Attempt w) × P u
        × (attempt_run (observed i) u ≡ (ok before, a))
        × (output ≡ capture original before a)
        × (t ≡ a.store_state)
  unfolding attempts unavailable
  attempts-captured original observed P kept zero attempt s t output entry p e value =
      elim (conclude-ok original _ (attempt_run (observed attempt) s) output t
        (check-then (observed attempt).spool filesystem_error _ s e).1) [
          | inl (before, a, run, out, left) ↦ (attempt, s, before, a, p, run, out, left)
          | inr (code, _, last) ↦
              absurd (warned-ne-scanned (ap (λ x. x.value) (pure-then _ _ last).0 ∙ value))
        ]
    where
      warned-ne-scanned : {x : _} {y : ScannedEntry} → warned x ≢ scanned y
      warned-ne-scanned q = cc
  attempts-captured original observed P kept (suc left) attempt s t output entry p e value =
      elim (conclude-ok original _ (attempt_run (observed attempt) s) output t
        (check-then (observed attempt).spool filesystem_error _ s e).1) [
          | inl (before, a, run, out, same) ↦ (attempt, s, before, a, p, run, out, same)
          | inr (code, _, next) ↦
              attempts-captured original observed P kept left (attempt + 1) _ t output entry
                (kept attempt s p) next value
        ]

-- The world in which no call fails; the libraries are the same.
abbrev pub calm : World → World
calm w = record w { faults = λ n. false; injected = λ n point. none }

AreStored-calm :
    (w : World) (o : ObjectStore) (tree : Tree) (chunks : List ChunkReferenceInfo) (content : Bytes)
    → AreStored w o tree chunks content
    → AreStored (calm w) o tree chunks content
unfolding hash_raw
AreStored-calm w o tree [] content e = e
AreStored-calm w o tree (chunk ∷ chunks) content (raw, rest, split, i, is) = (
  raw,
  rest,
  split,
  record {
    stored = i.stored;
    valid_hash = i.valid_hash;
    path = i.path;
    at = i.at;
    object = record {
      raw = i.object.raw;
      nonempty = i.object.nonempty;
      within = i.object.within;
      stored_nonempty = i.object.stored_nonempty;
      stored_within = i.object.stored_within;
      decodes = i.object.decodes;
      digest = i.object.digest;
    };
    content = i.content;
    raw_size = i.raw_size;
    raw_length = i.raw_length;
    stored_size = i.stored_size;
  },
  AreStored-calm w o tree chunks rest is,
)

module _ (w : World) (zstd_laws : ZstdLaws w.zstd) (laws : Blake3Laws w.blake3) (o : ObjectStore)
    (limit : o.maximum_chunk_size ≤ permanent_maximum_chunk_size) (Known : Bytes → Type 0)
    (distinct : KnownDistinct Known w) (others : OthersExtend w)
    (others_known : OthersKnown Known w o) (chunk_size : ℕ) (chunker : Chunker)
    (made : make chunk_size ≡ ok chunker) (original : ScannedEntry) (observed : ℕ → Observed Bytes)
    (fits : (i : ℕ) (content : Bytes)
      → (observed i).source ≡ some content
      → length content ≤ u64_max)
    (known : (i : ℕ) (content : Bytes)
      → (observed i).source ≡ some content
      → PiecesKnown Known content)
    (running : (i j : ℕ) → (observed i).stop.rounds j ≡ false) where
  pub attempts-AreStored :
      (left attempt : ℕ) (s t : State) (output : ProcessedEntry) (entry : ScannedEntry)
      → EachObject (IsKnown Known w o) s.files
      → attempts w read_file o chunker rounds_of_file left attempt original observed s
        ≡ (ok output, t)
      → output.value ≡ scanned entry
      → (i : ℕ) × (content : Bytes) × (records : List ChunkReferenceRecord) × ((observed i).source
          ≡ some content)
        × (output.chunk_references ≡ some records)
        × AreStored w o t.files (map reference records) content
        × (output.file_hash_hex ≡ hash_raw w content)
        × (entry.logical_size ≡ length content)
  unfolding captured fresh_attempt hash_raw
  attempts-AreStored left attempt s t output entry each e value =
      let (i, u, before, a, each', run, out, last) =
        attempts-captured w o chunker original observed
          (λ v. EachObject (IsKnown Known w o) v.files)
          (λ j v.
            read_source-AllKnown w zstd_laws laws o limit Known distinct others others_known
              chunk_size chunker made (observed j) v (fits j) (running j) (known j))
          left attempt s t output entry each e value in
      let (content, source) =
        read_source-opened w zstd_laws laws o limit Known distinct others others_known chunk_size
          chunker made (observed i) u before a run in
      let (c, long) =
        read_source-Captures w zstd_laws laws o limit Known distinct others others_known chunk_size
          chunker made (observed i) content u before a source (fits i content source) (running i)
          (known i content source) each' run in
      (
        i,
        content,
        c.records,
        source,
        ap (λ x. x.chunk_references) out ∙ ap some c.references,
        subst (λ (x : State). AreStored w o x.files (map reference c.records) content) (sym last)
            c.stored,
        ap (λ x. x.file_hash_hex) out ∙ ap (λ h. to_hex (w.blake3.finish h)) c.hasher,
        size (sym value ∙ ap (λ x. x.value) out) ∙ sym long ∙ c.read ∙ from_zero (length content),
      )
    where
      from_zero : (n : ℕ) → 0 + n ≡ n
      from_zero n = omega arith

      size : {x y : ScannedEntry} → scanned x ≡ scanned y → x.logical_size ≡ y.logical_size
      size q = ap size_of q
        where
          size_of : ScannedItem → ℕ
          size_of (scanned x) = x.logical_size
          size_of (warned x) = 0

  pub attempts-restore_content :
      (left : ℕ) (s t : State) (output : ProcessedEntry) (entry : ScannedEntry) (row : EntryInfo)
      (stop : ℕ → Bool)
      → EachObject (IsKnown Known w o) s.files
      → attempts w read_file o chunker rounds_of_file left 0 original observed s ≡ (ok output, t)
      → output.value ≡ scanned entry
      → row.file_hash_hex ≡ some output.file_hash_hex
      → row.logical_size ≡ entry.logical_size
      → ((i : ℕ) → stop i ≡ false)
      → (i : ℕ) × (content : Bytes) × (records : List ChunkReferenceRecord) × ((observed i).source
          ≡ some content)
        × (output.chunk_references ≡ some records)
        × ((restore_content (calm w) o stop row (map reference records) t).0 ≡ ok content)
  unfolding hash_raw
  attempts-restore_content left s t output entry row stop each e value hash size running' =
      let (i, content, records, source, references, stored, digest, long) =
        attempts-AreStored left 0 s t output entry each e value in
      (
        i,
        content,
        records,
        source,
        references,
        restore_content-AreStored (calm w) laws (λ n. refl) (λ n point. refl) o limit stop running'
            row (map reference records) t content (fits i content source)
            (AreStored-calm w o t.files (map reference records) content stored)
            (hash ∙ ap some digest) (size ∙ long),
      )
