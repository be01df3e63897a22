-- ===== src/Snapshot/Worker/Source.antt =====
-- What the reading of a source file of known content has done, in one attempt and in all of them.
use mathlib.Core.Path.{subst}
use file_vault.Common.{
  ℕ, ◌+◌, ◌≤◌, ◌≡◌, ◌≢◌, inl, inr, cancelled, refl, sym, ap, ◌∙◌, Bool, true, false, not, ◌||◌,
  Option, none, some, List, [], ◌∷◌, ◌++◌, Bytes, length, ◌==◌, nat_eq, Result, ok, err,
  out_of_fuel, u64_max, arith, Option-cases, append_assoc,
}
use file_vault.Common.Exec.{Exec, throw, bind-eq-ok}
use file_vault.Common.Exec.Rules.{
  Keeps, Keeps-bind, Keeps-modify, Keeps-gets, Keeps-check, Keeps-lift, Keeps-pure, keeps_rules,
  check-then, lift-then, gets-then, pure-then,
}
use file_vault.Filesystem.FileMetadata.{PlatformFileMetadata}
use file_vault.Storage.Blake3Hasher.{Blake3Laws}
use file_vault.Storage.ZstdCodec.{ZstdLaws}
use file_vault.Storage.Chunker.{Chunker, make, for_each_chunk_of_file, read_file}
use file_vault.Storage.Chunker.Cover.{Chunk, IsChunking, for_chunks, for_each_chunk-IsChunking}
use file_vault.Storage.World.{World, State}
use file_vault.Storage.ObjectStore.{ObjectStore, permanent_maximum_chunk_size}
use file_vault.Storage.ObjectStore.Safety.{EachObject, OthersExtend}
use file_vault.Snapshot.Worker.{
  Attempt, Observed, fresh_attempt, append, update_hasher, count_chunk, on_store, store_chunk,
  note_error, keeping_error, confirm_unchanged, read_source, rounds_of_file,
}
use file_vault.Snapshot.Worker.Pieces.{
  store-Known, IsKnown, KnownDistinct, OthersKnown, PiecesKnown, Captures, for_chunks-Captures,
}

module _ (w : World) (zstd_laws : ZstdLaws w.zstd) (laws : Blake3Laws w.blake3) (o : ObjectStore)
    (limit : o.maximum_chunk_size ≤ permanent_maximum_chunk_size) (Known : Bytes → Type 0)
    (distinct : KnownDistinct Known w) (others : OthersExtend w)
    (others_known : OthersKnown Known w o) (chunk_size : ℕ) (chunker : Chunker)
    (made : make chunk_size ≡ ok chunker) where
  abbrev pub AllKnown : State → Type 0
  AllKnown s = EachObject (IsKnown Known w o) s.files

  module _ (observed : Observed Bytes) where
    confirmed :
        (before seen : PlatformFileMetadata) (u a : Attempt w)
        → confirm_unchanged w read_file o chunker rounds_of_file observed seen u ≡ (ok before, a)
        → (u ≡ a) × (u.bytes_read ≡ before.logical_size)
    unfolding confirm_unchanged
    confirmed before seen u a e =
        let (_, _, e1) = lift-then _ _ u e in
        let e2 = gets-then _ _ u e1 in
        let (same, e3) = check-then _ _ _ u e2 in
        let (value, left) = pure-then seen u e3 in
        (
          left,
          matching u.bytes_read seen.logical_size _ same
              ∙ ap (λ (m : PlatformFileMetadata). m.logical_size) value,
        )
      where
        matching : (m n : ℕ) (b : Bool) → not (not (m == n) || not b) ≡ true → m ≡ n
        matching m n b e = ground arith

    abbrev read_chunks : Option Bytes → Exec (Attempt w) (Unit {0})
    read_chunks source =
        for_each_chunk_of_file read_file observed.stop.rounds
          (some (λ offset bytes. keeping_error w (store_chunk w o observed.stop offset bytes)))
          chunker (rounds_of_file source) source

    read-Captures :
        (content : Bytes) (s : State) (u : Attempt w)
        → length content ≤ u64_max
        → ((i : ℕ) → observed.stop.rounds i ≡ false)
        → PiecesKnown Known content
        → AllKnown s
        → read_chunks (some content) (fresh_attempt w s) ≡ (ok tt, u)
        → Captures w o content (fresh_attempt w s) u
    unfolding rounds_of_file fresh_attempt
    read-Captures content s u fits running known each e =
        let (list, chunking, run) =
          for_each_chunk-IsChunking chunk_size chunker content observed.stop.rounds made fits
            running in
        (for_chunks-Captures w zstd_laws laws o limit Known distinct others others_known
          observed.stop chunker.maximum_chunk_size 0 list content (fresh_attempt w s) u chunking
          known (omega arith) each (sym (run _ _ _) ∙ e)).0

    -- An attempt that returned has captured the content, and has read as much as the metadata says.
    pub read_source-Captures :
        (content : Bytes) (s : State) (before : PlatformFileMetadata) (a : Attempt w)
        → observed.source ≡ some content
        → length content ≤ u64_max
        → ((i : ℕ) → observed.stop.rounds i ≡ false)
        → PiecesKnown Known content
        → AllKnown s
        → read_source w read_file o chunker rounds_of_file observed (fresh_attempt w s)
          ≡ (ok before, a)
        → Captures w o content (fresh_attempt w s) a × (a.bytes_read ≡ before.logical_size)
    unfolding read_source
    read_source-Captures content s before a source fits running known each e =
        let (_, e1) = check-then _ _ _ _ e in
        let (seen, _, e2) = lift-then _ _ _ e1 in
        let (_, u, read, e3) = bind-eq-ok _ _ _ a before e2 in
        let (left, long) = confirmed before seen u a e3 in
        let captures =
          read-Captures content s u fits running known each
            (subst (λ x. read_chunks x (fresh_attempt w s) ≡ (ok tt, u)) source read) in
        (
          subst (Captures w o content (fresh_attempt w s)) left captures,
          ap (λ (x : Attempt w). x.bytes_read) (sym left) ∙ long,
        )

    -- An attempt that returned has opened the file.
    pub read_source-opened :
        (s : State) (before : PlatformFileMetadata) (a : Attempt w)
        → read_source w read_file o chunker rounds_of_file observed (fresh_attempt w s)
          ≡ (ok before, a)
        → (content : Bytes) × (observed.source ≡ some content)
    unfolding read_source
    read_source-opened s before a e =
        let (_, e1) = check-then _ _ _ _ e in
        let (_, _, e2) = lift-then _ _ _ e1 in
        let (_, u, read, _) = bind-eq-ok _ _ _ a before e2 in
        elim (Option-cases observed.source) [
          | inl none_there ↦ absurd (
              unopened u
                (subst (λ x. read_chunks x (fresh_attempt w s) ≡ (ok tt, u)) none_there read))
          | inr there ↦ there
        ]
      where
        unopened : (u : Attempt w) → read_chunks none (fresh_attempt w s) ≢ (ok tt, u)
        unopened u r =
            unfold for_each_chunk_of_file throw in
            cc (check-then (not (observed.stop.rounds 0)) cancelled _ (fresh_attempt w s) r).1

    keeping_error-Keeps :
        (m : Exec (Attempt w) (Unit {0}))
        → Keeps (λ a. AllKnown a.store_state) m
        → Keeps (λ a. AllKnown a.store_state) (keeping_error w m)
    unfolding keeping_error note_error
    keeping_error-Keeps m k = record { at = λ a each. go (m a) (k.at a each) }
      where
        go :
            (r : Result (Unit {0}) × Attempt w)
            → AllKnown r.1.store_state
            → AllKnown (note_error w r).1.store_state
        go (ok _, u) h = h
        go (err code, u) h = h
        go (out_of_fuel, u) h = h

    store_chunk-Keeps :
        (offset : ℕ) (raw : Bytes)
        → Known raw
        → Keeps (λ a. AllKnown a.store_state) (store_chunk w o observed.stop offset raw)
    unfolding store_chunk append update_hasher count_chunk on_store
    store_chunk-Keeps offset raw known = Keeps-bind _ _ (Keeps-modify _ (λ a each. each)) (λ _.
        Keeps-bind _ _ (Keeps-gets _) (λ sequence. Keeps-bind _ _ (Keeps-check _ _) (λ _.
          Keeps-bind _ _
            (record {
              at = λ a each.
                  store-Known w zstd_laws laws o limit Known distinct others others_known raw
                    (observed.stop.stores sequence) a.store_state known each;
            })
            (λ object. Keeps-bind _ _ (Keeps-gets _) (λ _. Keeps-bind _ _ (Keeps-lift _) (λ _.
              Keeps-bind _ _ (Keeps-modify _ (λ a each. each)) (λ _.
                Keeps-bind _ _ (Keeps-lift _) (λ _.
                  Keeps-bind _ _
                    (Keeps-bind _ _ (Keeps-check _ _) (λ _.
                      Keeps-bind _ _ (Keeps-check _ _) (λ _. Keeps-modify _ (λ a each. each))))
                    (λ _. Keeps-modify _ (λ a each. each))))))))))

    for_chunks-Keeps :
        (size offset : ℕ) (list : List Chunk) (content : Bytes)
        → IsChunking size offset list content
        → PiecesKnown Known content
        → Keeps
            (λ a. AllKnown a.store_state)
            (for_chunks (λ o' b. keeping_error w (store_chunk w o observed.stop o' b)) list)
    unfolding for_chunks
    for_chunks-Keeps size offset [] content c known = Keeps-pure tt
    for_chunks-Keeps size offset ((o', raw) ∷ list) content (_, _, _, _, (rest, split, more))
          known =
        Keeps-bind _ _ (keeping_error-Keeps _ (store_chunk-Keeps o' raw (known [] raw rest split)))
          (λ _. for_chunks-Keeps size (offset + length raw) list rest more (λ x y z s.
            known (raw ++ x) y z (split ∙ ap (λ v. raw ++ v) s ∙ sym (append_assoc raw x _))))

    chunks-Keeps :
        (content : Bytes)
        → length content ≤ u64_max
        → ((i : ℕ) → observed.stop.rounds i ≡ false)
        → PiecesKnown Known content
        → Keeps (λ a. AllKnown a.store_state) (read_chunks (some content))
    unfolding rounds_of_file
    chunks-Keeps content fits running known =
        let (list, chunking, run) =
          for_each_chunk-IsChunking chunk_size chunker content observed.stop.rounds made fits
            running in
        record {
          at = λ a each.
              subst (λ (r : Result (Unit {0}) × Attempt w). AllKnown r.1.store_state)
                (sym (run _ _ a))
                ((for_chunks-Keeps chunker.maximum_chunk_size 0 list content chunking known).at a
                  each);
        }

    read_chunks-Keeps :
        (source : Option Bytes)
        → ((content : Bytes) → source ≡ some content → length content ≤ u64_max)
        → ((i : ℕ) → observed.stop.rounds i ≡ false)
        → ((content : Bytes) → source ≡ some content → PiecesKnown Known content)
        → Keeps (λ a. AllKnown a.store_state) (read_chunks source)
    read_chunks-Keeps (some content) fits running known =
        chunks-Keeps content (fits content refl) running (known content refl)
    read_chunks-Keeps none fits running known = unfold for_each_chunk_of_file in search keeps_rules

    -- However an attempt ends, every object is still known.
    pub read_source-AllKnown :
        (s : State)
        → ((content : Bytes) → observed.source ≡ some content → length content ≤ u64_max)
        → ((i : ℕ) → observed.stop.rounds i ≡ false)
        → ((content : Bytes) → observed.source ≡ some content → PiecesKnown Known content)
        → AllKnown s
        → AllKnown
            (read_source w read_file o chunker rounds_of_file observed
              (fresh_attempt w s)).1.store_state
    unfolding read_source confirm_unchanged fresh_attempt
    read_source-AllKnown s fits running known =
        (Keeps-bind {P = λ (a : Attempt w). AllKnown a.store_state} _ _ (Keeps-check _ _) (λ _.
            Keeps-bind _ _ (Keeps-lift _) (λ seen.
              Keeps-bind _ _ (read_chunks-Keeps observed.source fits running known)
                (λ _. search keeps_rules depth 10)))).at
          (fresh_attempt w s)
