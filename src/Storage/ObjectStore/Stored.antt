-- ===== src/Storage/ObjectStore/Stored.antt =====
-- What `store` returns, and that `read_verified` gives it back.
use file_vault.Common.{
  ℕ, ◌≤◌, ◌<◌, ◌≡◌, refl, ap, ◌∙◌, true, not, ◌||◌, Bytes, length, ltb, ◌==◌, nat_eq, list_eq, ok,
  arith, u64_max, list_beq_iff, nat_beq_iff,
}
use file_vault.Common.Exec.{◌>>=◌}
use file_vault.Filesystem.Tree.{Tree, file}
use file_vault.Storage.Blake3Hasher.{is_lowercase_blake3_hex}
use file_vault.Storage.World.{World, State}
use file_vault.Storage.ObjectFiles.{require_valid_hash, derived_path, hash_raw, regular_file_size}
use file_vault.Storage.ObjectFiles.Reads.{
  IsQuiet, files-regular_file_size, regular_file_size-quiet, read_exact-quiet,
}
use file_vault.Storage.ObjectStore.{
  ObjectStore, match_size, corrupt_if_undecodable, read_verified, stored_size_limit,
  permanent_maximum_chunk_size,
}
use file_vault.Storage.ObjectStore.Safety.{IsObject}

module _ (w : World) (quiet : IsQuiet w) (o : ObjectStore) where
  -- In a repository whose chunk-size limit is at most 4 MiB, an object under a well-formed digest is read
  -- back, and only the count of calls changes, if no system call fails.
  pub read_verified-IsObject :
      (h c : Bytes) (s : State)
      → o.maximum_chunk_size ≤ permanent_maximum_chunk_size
      → is_lowercase_blake3_hex h ≡ true
      → s.files (derived_path h) ≡ file c
      → (object : IsObject w o h c)
      → (read_verified w o h (derived_path h) (length object.raw) (length c) s).0 ≡ ok object.raw
  unfolding read_verified ◌>>=◌ match_size corrupt_if_undecodable require_valid_hash
  read_verified-IsObject h c s limit hex at object =
      let path : (derived_path h == derived_path h) ≡ true =
        (list_beq_iff (derived_path h) _).1 refl in
      let digest : (hash_raw w object.raw == h) ≡ true =
        (list_beq_iff (hash_raw w object.raw) h).1 object.digest in
      let raw_ok =
        within object.raw o.maximum_chunk_size object.nonempty object.within (omega arith) in
      let stored_ok =
        within c (stored_size_limit w o) object.stored_nonempty object.stored_within
          (omega arith) in
      let size =
        regular_file_size-quiet w quiet (derived_path h) c s at
          (omega (arith, object.stored_within)) in
      let read =
        read_exact-quiet w quiet (derived_path h) c (regular_file_size w (derived_path h) s).1 (
          ap (λ (f : Tree). f (derived_path h)) (files-regular_file_size w (derived_path h) s)
          ∙ at) in
      let same : (length c == length c) ≡ true = (nat_beq_iff _ _).1 refl in
      rw (hex, path, raw_ok, stored_ok, size, same, read, object.decodes, digest) refl
    where
      within :
          (b : Bytes) (m : ℕ)
          → 0 < length b
          → length b ≤ m
          → m ≤ u64_max
          → not (length b == 0 || ltb m (length b) || ltb u64_max (length b)) ≡ true
      within b m pos small fits = ground arith
