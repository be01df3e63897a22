-- ===== src/Storage/ObjectStore/Keeps.antt =====
-- Which properties of the file tree the methods keep, however they end: with a result, with an error,
-- or by an injected failure at any point.
use mathlib.Core.Path.{subst}
use file_vault.Common.{
  ℕ, ◌≡◌, arith, sym, ◌++◌, Bool, true, false, Option, none, some, Bytes, ok, length, [],
}
use file_vault.Common.Exec.{Exec, ◌>>=◌}
use file_vault.Common.Exec.Rules.{
  Keeps, Keeps-bind, Keeps-bind-using, Keeps-bind-lift, Keeps-modify, Keeps-check, keeps_rules,
}
use file_vault.Filesystem.Tree.{
  FilePath, Tree, absent, file, write, create_directories, parent_path,
}
use file_vault.Database.Chunks.{StoredChunkInfo, Table}
use file_vault.Storage.ZstdCodec.{compress}
use file_vault.Storage.World.{
  World, State, StoredObject, after_temp_object_write, after_object_fsync,
}
use file_vault.Storage.ObjectFiles.{
  derived_path, hash_raw, temporary_write, publish, RestorePublishResult, published,
  destination_exists,
}
use file_vault.Storage.ObjectFiles.Keeps.{
  OnFiles, hit-Keeps, regular_file_size-Keeps, read_exact-Keeps, sync-Keeps, flush-Keeps,
  temporary_file-Keeps, temporary_write-Keeps, temporary_sync-Keeps, ensure_directory-Keeps,
  publish-Keeps,
}
use file_vault.Storage.ObjectStore.{
  ObjectStore, remember, on_chunks, otherwise, match_size, require_reusable, read_verified,
  known_chunk, find_in_metadata, reuse_cached, find_existing, remember_unless_metadata, adopt,
  find_existing_file, duplicate, after_publish, write_object, reuse_or_write, ensure_metadata,
  register, store_new, store,
}

pub temporary_write_value :
    (w : World) (old new a : Bytes) (s : State)
    → (temporary_write w old new s).0 ≡ ok a
    → a ≡ old ++ new
unfolding temporary_write ◌>>=◌
temporary_write_value w old new a s e = ground arith

module _ (Q : Tree → Type 0) (w : World) (o : ObjectStore) where
  pub remember-Keeps : (object : StoredObject) → Keeps (OnFiles Q) (remember object)
  unfolding remember
  remember-Keeps object = Keeps-modify _ (λ s h. h)

  on_chunks-Keeps : {A : Type 0} (m : Exec Table A) → Keeps (OnFiles Q) (on_chunks m)
  unfolding on_chunks
  on_chunks-Keeps m = record { at = λ s h. h }

  match_size-Keeps : (n : Option ℕ) (k : ℕ) → Keeps (OnFiles Q) (match_size w o n k)
  unfolding match_size
  match_size-Keeps none k = search keeps_rules
  match_size-Keeps (some n) k = search keeps_rules

  pub require_reusable-Keeps :
      (known : StoredObject) (h : Bytes) (p : FilePath) (n : ℕ)
      → Keeps (OnFiles Q) (require_reusable w o known h p n)
  unfolding require_reusable
  require_reusable-Keeps known h p n =
      search (keeps_rules, regular_file_size-Keeps, match_size-Keeps) depth 12

  pub read_verified-Keeps :
      (h : Bytes) (p : FilePath) (n k : ℕ) → Keeps (OnFiles Q) (read_verified w o h p n k)
  unfolding read_verified
  read_verified-Keeps h p n k =
      search (keeps_rules, regular_file_size-Keeps, match_size-Keeps, read_exact-Keeps) depth 20

  known_chunk-Keeps :
      (row : Option StoredChunkInfo) (h : Bytes) (p : FilePath) (n : ℕ)
      → Keeps (OnFiles Q) (known_chunk w o row h p n)
  unfolding known_chunk
  known_chunk-Keeps none h p n = search keeps_rules
  known_chunk-Keeps (some row) h p n =
      search (keeps_rules, require_reusable-Keeps, remember-Keeps) depth 8

  find_in_metadata-Keeps :
      (b : Bool) (h : Bytes) (p : FilePath) (n : ℕ)
      → Keeps (OnFiles Q) (find_in_metadata w o b h p n)
  unfolding find_in_metadata
  find_in_metadata-Keeps false h p n = search keeps_rules
  find_in_metadata-Keeps true h p n =
      search (keeps_rules, on_chunks-Keeps, known_chunk-Keeps) depth 8

  reuse_cached-Keeps :
      (h : Bytes) (p : FilePath) (n : ℕ) (c : StoredObject)
      → Keeps (OnFiles Q) (reuse_cached w o h p n c)
  unfolding reuse_cached
  reuse_cached-Keeps h p n c = search (keeps_rules, require_reusable-Keeps)

  otherwise-Keeps :
      (c : Option StoredObject) (miss : Exec State (Option StoredObject))
      (found : StoredObject → Exec State (Option StoredObject))
      → Keeps (OnFiles Q) miss
      → ((x : StoredObject) → Keeps (OnFiles Q) (found x))
      → Keeps (OnFiles Q) (otherwise c miss found)
  otherwise-Keeps none miss found hm hf = hm
  otherwise-Keeps (some x) miss found hm hf = hf x

  pub find_existing-Keeps :
      (h : Bytes) (p : FilePath) (n : ℕ) → Keeps (OnFiles Q) (find_existing w o h p n)
  unfolding find_existing
  find_existing-Keeps h p n =
      search (keeps_rules, otherwise-Keeps, find_in_metadata-Keeps, reuse_cached-Keeps) depth 8

  pub remember_unless_metadata-Keeps :
      (b : Bool) (object : StoredObject) → Keeps (OnFiles Q) (remember_unless_metadata w o b object)
  unfolding remember_unless_metadata
  remember_unless_metadata-Keeps true object = search keeps_rules
  remember_unless_metadata-Keeps false object = remember-Keeps object

  adopt-Keeps :
      (m : Option ℕ) (h : Bytes) (p : FilePath) (n : ℕ) → Keeps (OnFiles Q) (adopt w o m h p n)
  unfolding adopt
  adopt-Keeps none h p n = search keeps_rules
  adopt-Keeps (some k) h p n =
      search
        (keeps_rules, read_verified-Keeps, sync-Keeps, flush-Keeps, remember_unless_metadata-Keeps)
        depth 12

  pub find_existing_file-Keeps :
      (h : Bytes) (p : FilePath) (n : ℕ) → Keeps (OnFiles Q) (find_existing_file w o h p n)
  unfolding find_existing_file
  find_existing_file-Keeps h p n =
      search
        (keeps_rules, otherwise-Keeps, regular_file_size-Keeps, adopt-Keeps, reuse_cached-Keeps)
        depth 10

  duplicate-Keeps : (x : Option StoredObject) → Keeps (OnFiles Q) (duplicate w o x)
  unfolding duplicate
  duplicate-Keeps none = search keeps_rules
  duplicate-Keeps (some x) = search keeps_rules

  after_publish-Keeps :
      (r : RestorePublishResult) (h : Bytes) (p : FilePath) (n k : ℕ)
      → Keeps (OnFiles Q) (after_publish w o r h p n k)
  unfolding after_publish
  after_publish-Keeps destination_exists h p n k =
      search (keeps_rules, find_existing_file-Keeps, duplicate-Keeps) depth 8
  after_publish-Keeps published h p n k =
      search (keeps_rules, hit-Keeps, flush-Keeps, remember_unless_metadata-Keeps) depth 10

  pub ensure_metadata-Keeps :
      (object : StoredObject) → Keeps (OnFiles Q) (ensure_metadata w o object)
  unfolding ensure_metadata
  ensure_metadata-Keeps object =
      search (keeps_rules, require_reusable-Keeps, on_chunks-Keeps, remember-Keeps) depth 14

  pub register-Keeps : (b : Bool) (x : StoredObject) → Keeps (OnFiles Q) (register w o b x)
  unfolding register
  register-Keeps true x = ensure_metadata-Keeps x
  register-Keeps false x = search keeps_rules

  reuse_or_write-Keeps :
      (x : Option StoredObject) (m : Exec State StoredObject)
      → Keeps (OnFiles Q) m
      → Keeps (OnFiles Q) (reuse_or_write w o x m)
  unfolding reuse_or_write
  reuse_or_write-Keeps none m k = k
  reuse_or_write-Keeps (some x) m k = search keeps_rules

  -- What every new directory and the work of the other threads keep is kept by storing bytes, if the
  -- arrival of their compressed form at the absent path of their digest keeps it.
  module _ (dirs : (p : FilePath) (t u : Tree) → create_directories [] p t ≡ some u → Q t → Q u)
      (others : (n : ℕ) (t : Tree) → Q t → Q (w.others n t)) where
    publication-Keeps :
        (h : Bytes) (p : FilePath) (n : ℕ) (compressed x : Bytes)
        → x ≡ compressed
        → ((t : Tree) → t p ≡ absent → Q t → Q (write p (file compressed) t))
        → Keeps (OnFiles Q) (publish w x p >>= λ r. after_publish w o r h p n (length compressed))
    publication-Keeps h p n compressed x e new =
        Keeps-bind _ _
          (publish-Keeps Q w x p
            (λ t gone q. subst (λ y. Q (write p (file y) t)) (sym e) (new t gone q)))
          (λ r. after_publish-Keeps r h p n (length compressed))

    write_object-Keeps :
        (h : Bytes) (p : FilePath) (n : ℕ) (compressed : Bytes)
        → ((t : Tree) → t p ≡ absent → Q t → Q (write p (file compressed) t))
        → Keeps (OnFiles Q) (write_object w o h p n compressed)
    unfolding write_object
    write_object-Keeps h p n compressed new =
        Keeps-bind _ _ (ensure_directory-Keeps Q w dirs (parent_path p)) (λ _.
          Keeps-bind _ _ (flush-Keeps Q w (parent_path p)) (λ _.
            Keeps-bind _ _ (ensure_directory-Keeps Q w dirs _) (λ _.
              Keeps-bind _ _ (temporary_file-Keeps Q w) (λ _.
                Keeps-bind-using (λ x. x ≡ compressed) _ _ (temporary_write-Keeps Q w [] compressed)
                  (λ s a k e. temporary_write_value w [] compressed a s e)
                  (λ x e. Keeps-bind _ _ (hit-Keeps Q w after_temp_object_write) (λ _.
                    Keeps-bind _ _ (temporary_sync-Keeps Q w) (λ _.
                      Keeps-bind _ _ (hit-Keeps Q w after_object_fsync)
                        (λ _. publication-Keeps h p n compressed x e new))))))))

    store_new-Keeps :
        (h : Bytes) (p : FilePath) (raw : Bytes) (stop : Bool)
        → ((c : Bytes) (t : Tree)
            → compress w.zstd o.codec raw ≡ ok c
            → t p ≡ absent
            → Q t
            → Q (write p (file c) t))
        → Keeps (OnFiles Q) (store_new w o h p raw stop)
    unfolding store_new
    store_new-Keeps h p raw stop new = Keeps-bind _ _ (Keeps-check _ _) (λ _.
        Keeps-bind-lift (compress w.zstd o.codec raw) _ (λ c e.
          Keeps-bind _ _ (Keeps-check _ _) (λ _.
            Keeps-bind _ _ (Keeps-modify _ (λ s k. others s.ticks s.files k)) (λ _.
              Keeps-bind _ _ (find_existing_file-Keeps h p (length raw)) (λ x.
                Keeps-bind _ _
                  (reuse_or_write-Keeps x _
                    (write_object-Keeps h p (length raw) c (λ t gone q. new c t e gone q)))
                  (λ y. search (keeps_rules, register-Keeps)))))))

    pub store-Keeps :
        (raw : Bytes) (stop : Bool)
        → ((c : Bytes) (t : Tree)
            → compress w.zstd o.codec raw ≡ ok c
            → t (derived_path (hash_raw w raw)) ≡ absent
            → Q t
            → Q (write (derived_path (hash_raw w raw)) (file c) t))
        → Keeps (OnFiles Q) (store w o raw stop)
    unfolding store
    store-Keeps raw stop new = Keeps-bind _ _ (Keeps-check _ _) (λ _.
        Keeps-bind _ _ (Keeps-check _ _) (λ _. Keeps-bind _ _ (Keeps-check _ _) (λ _.
          Keeps-bind _ _ (find_existing-Keeps (hash_raw w raw) _ (length raw)) (λ x.
            reuse_or_write-Keeps x _
              (store_new-Keeps (hash_raw w raw) (derived_path (hash_raw w raw)) raw stop new)))))
