-- ===== src/Restore/Content/Verified.antt =====
-- What a restored file holds.
use mathlib.Core.Path.{subst}
use file_vault.Common.{
  ℕ, ◌+◌, ◌≤◌, ◌≡◌, refl, sym, ap, ◌∙◌, Bool, Option, none, some, List, [], ◌∷◌, ◌++◌, Bytes,
  length, ◌==◌, nat_eq, list_eq, Result, ok, arith, append_assoc, append-nil, length-append,
  list_beq_iff, nat_beq_iff, Bool-cases, inl, inr, u64_max,
}
use file_vault.Common.Exec.{check, throw, ◌>>=◌}
use file_vault.Common.Exec.Rules.{check-then, lift-then, step-then, pure-then}
use file_vault.Database.Entries.{EntryInfo, ChunkReferenceInfo}
use file_vault.Storage.Blake3Hasher.{Blake3Laws, update_impl, to_hex}
use file_vault.Storage.World.{World, State, hit, during_restore_write}
use file_vault.Storage.ObjectFiles.{hash_raw, temporary_file, temporary_write, temporary_sync}
use file_vault.Storage.ObjectStore.{ObjectStore, read_verified}
use file_vault.Storage.ObjectStore.ReadBack.{read_verified_sound}
use file_vault.Restore.ChunkList.Cover.{checked_add-ok}
use file_vault.Restore.Content.{write_chunks, matches_hash, restore_content}

-- The content is, chunk by chunk, bytes with the digest and the size that the chunk list states.
abbrev pub Holds : World → List ChunkReferenceInfo → Bytes → Type 0
Holds w [] content = content ≡ []
Holds w (chunk ∷ chunks) content =
    (raw : Bytes) × (rest : Bytes) × (content ≡ raw ++ rest)
    × (hash_raw w raw ≡ chunk.hash_hex)
    × (length raw ≡ chunk.raw_length)
    × Holds w chunks rest

module _ (w : World) (laws : Blake3Laws w.blake3) (o : ObjectStore) (stop : ℕ → Bool) where
  pub update_impl-append :
      (s : w.blake3.State) (x y : Bytes)
      → update_impl w.blake3 (update_impl w.blake3 s x) y ≡ update_impl w.blake3 s (x ++ y)
  unfolding update_impl
  update_impl-append s [] y = refl
  update_impl-append s (a ∷ x) [] = ap (λ z. w.blake3.absorb s (a ∷ z)) (sym (append-nil x))
  update_impl-append s (a ∷ x) (b ∷ y) = laws.absorb_append s (a ∷ x) (b ∷ y)

  pub no_update : {r : w.blake3.State} (s : w.blake3.State) → s ≡ r → r ≡ update_impl w.blake3 s []
  unfolding update_impl
  no_update s e = sym e

  pub paired : {A : Type 0} (x : Result A × State) (a : A) → x.0 ≡ ok a → x ≡ (ok a, x.1)
  paired x a e = ap (λ y. (y, x.1)) e

  matched_hash :
      (m : Option Bytes) (digest : Bytes) (u : State) (a : Unit {0})
      → (matches_hash w o stop m digest u).0 ≡ ok a
      → m ≡ some digest
  unfolding matches_hash check throw
  matched_hash none digest u a e = cc
  matched_hash (some expected) digest u a e = elim (Bool-cases (digest == expected)) [
    | inl y ↦ ap some (sym ((list_beq_iff digest expected).0 y))
    | inr n ↦ absurd (ground arith)
  ]

  write_chunks-Holds :
      (chunks : List ChunkReferenceInfo) (i : ℕ) (output : Bytes) (hasher : w.blake3.State)
      (written : ℕ) (s t : State) (r : Bytes × w.blake3.State × ℕ)
      → written ≤ u64_max
      → write_chunks w o stop chunks i output hasher written s ≡ (ok r, t)
      → (content : Bytes) × Holds w chunks content
        × (r.0 ≡ output ++ content)
        × (r.1 ≡ update_impl w.blake3 hasher content)
        × (r.2 ≡ written + length content)
  unfolding write_chunks
  write_chunks-Holds [] i output hasher written s t r fits h =
      let (e, _) = pure-then _ s h in
      (
        [],
        refl,
        sym (ap (λ x. x.0) e) ∙ sym (append-nil output),
        no_update hasher (ap (λ x. x.1) e),
        omega (arith, sym (ap (λ (x : Bytes × w.blake3.State × ℕ). x.2) e)),
      )
  write_chunks-Holds (chunk ∷ chunks) i output hasher written s t r fits h =
      let (_, h1) = check-then _ _ _ s h in
      let (raw, read, h2) =
        step-then
          (read_verified w o chunk.hash_hex chunk.object_path chunk.raw_size chunk.stored_size) _ s
          h1 in
      let u =
        (read_verified w o chunk.hash_hex chunk.object_path chunk.raw_size chunk.stored_size s).1 in
      let (len, h3) = check-then _ _ _ u h2 in
      let (extended, wrote, h4) = step-then (temporary_write w output raw) _ u h3 in
      let (_, _, h5) =
        step-then (hit w during_restore_write) _ (temporary_write w output raw u).1 h4 in
      let (total, added, h6) = lift-then _ _ _ h5 in
      let (sum, room) = checked_add-ok written chunk.raw_length total added fits in
      let sound =
        read_verified_sound w o chunk.hash_hex chunk.object_path chunk.raw_size chunk.stored_size s
          raw u
          (paired
            (read_verified w o chunk.hash_hex chunk.object_path chunk.raw_size chunk.stored_size s)
            raw read) in
      let (content, holds, out, hash, size) =
        write_chunks-Holds chunks (i + 1) extended (update_impl w.blake3 hasher raw) total _ t r
          (subst (λ n. n ≤ u64_max) (sym sum) room) h6 in
      let long : length raw ≡ chunk.raw_length = (nat_beq_iff _ _).0 len in
      (
        raw ++ content,
        (raw, content, refl, sound.1, long, holds),
        out
            ∙ ap (λ x. x ++ content) (written_output raw u extended wrote)
            ∙ append_assoc output raw content,
        hash ∙ update_impl-append hasher raw content,
        omega (arith, length-append raw content),
      )
    where
      written_output :
          (raw : Bytes) (u : State) (extended : Bytes)
          → (temporary_write w output raw u).0 ≡ ok extended
          → extended ≡ output ++ raw
      written_output raw u extended e = unfold temporary_write ◌>>=◌ in ground arith

  -- If the content of a file is restored, then it is chunk by chunk what the chunk list states by digest
  -- and size, all of it has the digest and the size that the entry states.
  pub restore_content_sound :
      (entry : EntryInfo) (chunks : List ChunkReferenceInfo) (s t : State) (content : Bytes)
      → restore_content w o stop entry chunks s ≡ (ok content, t)
      → Holds w chunks content
        × (entry.file_hash_hex ≡ some (hash_raw w content))
        × (length content ≡ entry.logical_size)
  unfolding restore_content hash_raw matches_hash
  restore_content_sound entry chunks s t content h =
      let (_, _, h1) = step-then (temporary_file w) _ s h in
      let (r, wrote, h2) = step-then (write_chunks w o stop chunks 0 [] w.blake3.init 0) _ _ h1 in
      let (len, h3) = check-then _ _ _ _ h2 in
      let (_, matched, h4) =
        step-then (matches_hash w o stop entry.file_hash_hex (to_hex (w.blake3.finish r.1))) _ _
          h3 in
      let (_, _, h5) = step-then (temporary_sync w) _ _ h4 in
      let (same, _) = pure-then _ _ h5 in
      let start = (temporary_file w s).1 in
      let (c, holds, out, hash, size) =
        write_chunks-Holds chunks 0 [] w.blake3.init 0 start _ r (omega arith)
          (paired (write_chunks w o stop chunks 0 [] w.blake3.init 0 start) r wrote) in
      let whole : c ≡ content = sym out ∙ same in
      let count : r.2 ≡ entry.logical_size = (nat_beq_iff _ _).0 len in
      let short : length c ≡ r.2 = omega arith in
      (
        subst (Holds w chunks) whole holds,
        matched_hash entry.file_hash_hex _ _ _ matched
            ∙ ap (λ x. some (to_hex (w.blake3.finish x))) hash
            ∙ ap (λ x. some (hash_raw w x)) whole,
        ap length (sym whole) ∙ short ∙ count,
      )
