-- ===== src/Restore/Content/RoundTrip.antt =====
-- Restoring the content of a file whose chunks are stored gives that content.
use mathlib.Core.Path.{subst}
use file_vault.Common.{
  ℕ, suc, ◌+◌, ◌≤◌, ◌≡◌, refl, sym, ap, ◌∙◌, Bool, true, false, none, some, List, [], ◌∷◌, ◌++◌,
  Bytes, length, ◌==◌, nat_eq, list_eq, Result, ok, arith, append_assoc, append-nil, length-append,
  list_beq_iff, nat_beq_iff, u64_max,
}
use file_vault.Common.Exec.{Exec, ◌>>=◌}
use file_vault.Filesystem.Tree.{Tree, file}
use file_vault.Database.Entries.{EntryInfo, ChunkReferenceInfo}
use file_vault.Storage.Blake3Hasher.{Blake3Laws, update_impl, is_lowercase_blake3_hex}
use file_vault.Storage.World.{World, State, during_restore_write, FailurePoint, tick}
use file_vault.Storage.ObjectFiles.{
  derived_path, hash_raw, temporary_file, temporary_write, temporary_sync,
}
use file_vault.Storage.ObjectFiles.Reads.{IsQuiet}
use file_vault.Storage.ObjectStore.{ObjectStore, read_verified, permanent_maximum_chunk_size}
use file_vault.Storage.ObjectStore.Safety.{IsObject}
use file_vault.Storage.ObjectStore.ReadBack.{read_verified_sound}
use file_vault.Storage.ObjectStore.Stored.{read_verified-IsObject}
use file_vault.Restore.ChunkList.Cover.{checked_add-fits}
use file_vault.Restore.Content.{check_cancelled, write_chunks, matches_hash, restore_content}
use file_vault.Restore.Content.Verified.{update_impl-append, paired}

-- The chunk names an object of the tree that holds `raw`.
pub record IsStored (w : World) (o : ObjectStore) (tree : Tree) (chunk : ChunkReferenceInfo)
    (raw : Bytes) : Type 0 where
  pub stored : Bytes
  pub valid_hash : is_lowercase_blake3_hex chunk.hash_hex ≡ true
  pub path : chunk.object_path ≡ derived_path chunk.hash_hex
  pub at : tree (derived_path chunk.hash_hex) ≡ file stored
  pub object : IsObject w o chunk.hash_hex stored
  pub content : object.raw ≡ raw
  pub raw_size : chunk.raw_size ≡ length raw
  pub raw_length : chunk.raw_length ≡ length raw
  pub stored_size : chunk.stored_size ≡ length stored

-- The chunks name objects that together hold the content, in order.
abbrev pub AreStored : World → ObjectStore → Tree → List ChunkReferenceInfo → Bytes → Type 0
AreStored w o tree [] content = content ≡ []
AreStored w o tree (chunk ∷ chunks) content =
    (raw : Bytes) × (rest : Bytes) × (content ≡ raw ++ rest)
    × IsStored w o tree chunk raw
    × AreStored w o tree chunks rest

module _ (w : World) (laws : Blake3Laws w.blake3) (quiet : IsQuiet w)
    (uninjected : (n : ℕ) (point : FailurePoint) → w.injected n point ≡ none) (o : ObjectStore)
    (limit : o.maximum_chunk_size ≤ permanent_maximum_chunk_size) (stop : ℕ → Bool)
    (running : (i : ℕ) → stop i ≡ false) where
  abbrev read_chunk : ChunkReferenceInfo → Exec State Bytes
  read_chunk chunk =
      read_verified w o chunk.hash_hex chunk.object_path chunk.raw_size chunk.stored_size

  read_chunk-IsStored :
      (chunk : ChunkReferenceInfo) (raw : Bytes) (s : State)
      → IsStored w o s.files chunk raw
      → ((read_chunk chunk s).0 ≡ ok raw) × ((read_chunk chunk s).1.files ≡ s.files)
  read_chunk-IsStored chunk raw s i =
      let read : (read_chunk chunk s).0 ≡ ok raw =
        rw (i.path, i.raw_size, i.stored_size, sym i.content)
          (read_verified-IsObject w quiet o chunk.hash_hex i.stored s limit i.valid_hash i.at
            i.object) in
      let sound =
        read_verified_sound w o chunk.hash_hex chunk.object_path chunk.raw_size chunk.stored_size s
          raw (read_chunk chunk s).1 (paired w laws o stop (read_chunk chunk s) raw read) in
      (read, sound.5)

  tripled :
      {a b : Bytes} {c d : w.blake3.State} {m n : ℕ}
      → a ≡ b
      → c ≡ d
      → m ≡ n
      → ◌≡◌ {A = Result (Bytes × w.blake3.State × ℕ)} (ok (a, c, m)) (ok (b, d, n))
  tripled p q r = rw (p, q, r) refl

  write_chunks-AreStored :
      (chunks : List ChunkReferenceInfo) (i : ℕ) (output : Bytes) (hasher : w.blake3.State)
      (written : ℕ) (s : State) (content : Bytes)
      → written + length content ≤ u64_max
      → AreStored w o s.files chunks content
      → (write_chunks w o stop chunks i output hasher written s).0
        ≡ ok (output ++ content, update_impl w.blake3 hasher content, written + length content)
  unfolding write_chunks ◌>>=◌ temporary_write check_cancelled update_impl
  write_chunks-AreStored [] i output hasher written s content fits e =
      tripled (sym (append-nil output) ∙ ap (◌++◌ output) (sym e))
        (ap (update_impl w.blake3 hasher) (sym e)) (omega (arith, ap length e))
  write_chunks-AreStored (chunk ∷ chunks) i output hasher written s content fits
        (raw, rest, e, stored, more) =
      let (read, files) = read_chunk-IsStored chunk raw s stored in
      let u = (read_chunk chunk s).1 in
      let long : (length raw == chunk.raw_length) ≡ true =
        (nat_beq_iff _ _).1 (sym stored.raw_length) in
      let added =
        checked_add-fits written chunk.raw_length
          (omega (arith, ap length e, length-append raw rest, stored.raw_length)) in
      rw
        (running i, read, long, quiet u.ticks, uninjected (suc u.ticks) during_restore_write, added)
        (write_chunks-AreStored chunks (i + 1) (output ++ raw) (update_impl w.blake3 hasher raw)
            (written + chunk.raw_length) (tick (tick u)) rest
            (omega (arith, ap length e, length-append raw rest, stored.raw_length))
            (subst (λ tree. AreStored w o tree chunks rest) (sym files) more)
          ∙ tripled (append_assoc output raw rest ∙ ap (◌++◌ output) (sym e))
              (update_impl-append w laws o stop hasher raw rest
                ∙ ap (update_impl w.blake3 hasher) (sym e))
              (omega (arith, ap length e, length-append raw rest, stored.raw_length)))

  -- In a repository whose chunk-size limit is at most 4 MiB, if the chunks name objects of the file tree
  -- that together hold the content in order, and the entry states the content's digest and size, then
  -- restoring writes exactly the content, if no call fails and no stop is requested.
  pub restore_content-AreStored :
      (entry : EntryInfo) (chunks : List ChunkReferenceInfo) (s : State) (content : Bytes)
      → length content ≤ u64_max
      → AreStored w o s.files chunks content
      → entry.file_hash_hex ≡ some (hash_raw w content)
      → entry.logical_size ≡ length content
      → (restore_content w o stop entry chunks s).0 ≡ ok content
  unfolding restore_content ◌>>=◌ temporary_file temporary_sync matches_hash hash_raw
  restore_content-AreStored entry chunks s content fits stored hash size =
      let written =
        write_chunks-AreStored chunks 0 [] w.blake3.init 0 (tick s) content (omega arith) stored in
      let u = (write_chunks w o stop chunks 0 [] w.blake3.init 0 (tick s)).1 in
      let count : ((0 + length content) == entry.logical_size) ≡ true =
        (nat_beq_iff _ _).1 (omega arith) in
      let digest : (hash_raw w content == hash_raw w content) ≡ true =
        (list_beq_iff (hash_raw w content) _).1 refl in
      rw (quiet s.ticks, written, count, hash, digest, quiet u.ticks) refl
