-- ===== src/Snapshot/Worker/Pieces.antt =====
-- What the callback has done after all pieces of a content.
use mathlib.Core.Path.{subst}
use file_vault.Common.{
  ℕ, ◌+◌, ◌≤◌, ◌≡◌, ◌≢◌, refl, sym, ap, ◌∙◌, true, List, [], ◌∷◌, ◌++◌, Bytes, map, length, pos,
  Result, ok, err, Bool, out_of_fuel, u64_max, arith, append_assoc, append-nil, length-append,
}
use file_vault.Common.Exec.{Exec, bind-eq-ok}
use file_vault.Common.Exec.Rules.{pure-then}
use file_vault.Database.Entries.{ChunkReferenceInfo}
use file_vault.Filesystem.Tree.{Tree, file, absent}
use file_vault.Filesystem.Tree.Laws.{Extends, Extends-trans}
use file_vault.Storage.Blake3Hasher.{Blake3Laws, update_impl, is_lowercase_blake3_hex}
use file_vault.Storage.Blake3Hasher.Hex.{is_lowercase_blake3_hex-to_hex}
use file_vault.Storage.ZstdCodec.{ZstdLaws}
use file_vault.Storage.Chunker.Cover.{Chunk, IsChunking, for_chunks}
use file_vault.Storage.World.{World, State, StoredObject}
use file_vault.Storage.ObjectFiles.{derived_path, hash_raw}
use file_vault.Storage.ObjectStore.{ObjectStore, store, permanent_maximum_chunk_size}
use file_vault.Storage.ObjectStore.Safety.{
  EachObject, IsObject, OthersExtend, store-EachObject, store-Extends, compress-IsObject,
}
use file_vault.Storage.ObjectStore.Described.{Describes, store-Describes}
use file_vault.Restore.Content.RoundTrip.{IsStored, AreStored}
use file_vault.Restore.Content.Verified.{update_impl-append}
use file_vault.Snapshot.Counters.{add_bytes-ok}
use file_vault.Snapshot.Worker.{
  Attempt, ChunkReferenceRecord, StopAnswers, record_of, store_chunk, note_error, keeping_error,
}
use file_vault.Snapshot.Worker.Appended.{Appended, store_chunk-Appended}
use file_vault.Snapshot.Writer.{reference}

-- The file at the path of `hash` is an object, and its content is one of the byte strings of which no
-- two have the same digest.
abbrev pub IsKnown : (Bytes → Type 0) → World → ObjectStore → Bytes → Bytes → Type 0
IsKnown Known w o hash stored = (object : IsObject w o hash stored) × Known object.raw

abbrev pub KnownDistinct : (Bytes → Type 0) → World → Type 0
KnownDistinct Known w = (x y : Bytes) → Known x → Known y → hash_raw w x ≡ hash_raw w y → x ≡ y

-- Other threads keep what is known of the objects.
abbrev pub OthersKnown : (Bytes → Type 0) → World → ObjectStore → Type 0
OthersKnown Known w o =
    (n : ℕ) (t : Tree)
    → EachObject (IsKnown Known w o) t
    → EachObject (IsKnown Known w o) (w.others n t)

-- All pieces of the content are known.
abbrev pub PiecesKnown : (Bytes → Type 0) → Bytes → Type 0
PiecesKnown Known content = (x y z : Bytes) → content ≡ x ++ (y ++ z) → Known y

-- From `a` to `t` the pieces of `content` have been stored and noted.
pub record Captures (w : World) (o : ObjectStore) (content : Bytes) (a t : Attempt w) : Type 0 where
  pub records : List ChunkReferenceRecord
  pub references : t.chunk_references ≡ a.chunk_references ++ records
  pub stored : AreStored w o t.store_state.files (map reference records) content
  pub hasher : t.file_hasher ≡ update_impl w.blake3 a.file_hasher content
  pub read : t.bytes_read ≡ a.bytes_read + length content
  pub sequence : t.sequence ≡ a.sequence + length records
  pub extends : Extends a.store_state.files t.store_state.files

hash_raw-valid :
    (w : World)
    → Blake3Laws w.blake3
    → (raw : Bytes) → is_lowercase_blake3_hex (hash_raw w raw) ≡ true
unfolding hash_raw
hash_raw-valid w laws raw = is_lowercase_blake3_hex-to_hex _ (laws.length_lem _) (laws.bytes _)

IsStored-Extends :
    (w : World) (o : ObjectStore) (t u : Tree) (chunk : _) (raw : Bytes)
    → Extends t u
    → IsStored w o t chunk raw
    → IsStored w o u chunk raw
IsStored-Extends w o t u chunk raw more i = record {
  stored = i.stored;
  valid_hash = i.valid_hash;
  path = i.path;
  at = more (derived_path chunk.hash_hex) (λ gone. file-ne-absent (sym i.at ∙ gone)) ∙ i.at;
  object = i.object;
  content = i.content;
  raw_size = i.raw_size;
  raw_length = i.raw_length;
  stored_size = i.stored_size;
}
  where
    file-ne-absent : {b : Bytes} → file b ≢ absent
    file-ne-absent e = cc

module _ (w : World) (o : ObjectStore) where
  AreStored-Extends :
      (t u : Tree) (chunks : List ChunkReferenceInfo) (content : Bytes)
      → Extends t u
      → AreStored w o t chunks content
      → AreStored w o u chunks content
  AreStored-Extends t u [] content more e = e
  AreStored-Extends t u (chunk ∷ chunks) content more (raw, rest, split, i, is) = (
    raw,
    rest,
    split,
    IsStored-Extends w o t u chunk raw more i,
    AreStored-Extends t u chunks rest more is,
  )

  AreStored-append :
      (t : Tree) (xs ys : List ChunkReferenceRecord) (x y : Bytes)
      → AreStored w o t (map reference xs) x
      → AreStored w o t (map reference ys) y
      → AreStored w o t (map reference (xs ++ ys)) (x ++ y)
  AreStored-append t [] ys x y e is =
      subst (λ z. AreStored w o t (map reference ys) (z ++ y)) (sym e) is
  AreStored-append t (chunk ∷ xs) ys x y (raw, rest, split, i, is) js = (
    raw,
    rest ++ y,
    ap (λ z. z ++ y) split ∙ append_assoc raw rest y,
    i,
    AreStored-append t xs ys rest y is js,
  )

  Captures-nil : (a : Attempt w) → Captures w o [] a a
  unfolding update_impl
  Captures-nil a = record {
    records = [];
    references = sym (append-nil a.chunk_references);
    stored = refl;
    hasher = refl;
    read = omega arith;
    sequence = omega arith;
    extends = λ p h. refl;
  }

keeping_error-ok :
    (w : World) (m : Exec (Attempt w) (Unit {0})) (a t : Attempt w)
    → keeping_error w m a ≡ (ok tt, t)
    → m a ≡ (ok tt, t)
unfolding keeping_error note_error
keeping_error-ok w m a t e = go (m a) e
  where
    go : (r : Result (Unit {0}) × Attempt w) → note_error w r ≡ (ok tt, t) → r ≡ (ok tt, t)
    go (ok _, u) k = k
    go (err code, u) k = cc
    go (out_of_fuel, u) k = k

module _ (w : World) (zstd_laws : ZstdLaws w.zstd) (laws : Blake3Laws w.blake3) (o : ObjectStore)
    (limit : o.maximum_chunk_size ≤ permanent_maximum_chunk_size) (Known : Bytes → Type 0)
    (distinct : KnownDistinct Known w) (others : OthersExtend w)
    (others_known : OthersKnown Known w o) where
  pub store-Known :
      (raw : Bytes) (stop : Bool) (s : State)
      → Known raw
      → EachObject (IsKnown Known w o) s.files
      → EachObject (IsKnown Known w o) (store w o raw stop s).1.files
  store-Known raw stop s known =
      store-EachObject (IsKnown Known w o) w o raw stop s
        (λ pos small c e.
          let (object, same) = compress-IsObject w zstd_laws o raw c pos small limit e in
          (object, subst Known (sym same) known))
        others_known

  described-IsStored :
      (raw : Bytes) (object : StoredObject) (offset n : ℕ) (t : Tree)
      → Known raw
      → EachObject (IsKnown Known w o) t
      → Describes (hash_raw w raw) (derived_path (hash_raw w raw)) (length raw) object t
      → IsStored w o t (reference (record_of w object offset (pos n))) raw
  unfolding reference record_of
  described-IsStored raw object offset n t known each d =
      let (held, held_known) = each (hash_raw w raw) d.stored d.at in
      record {
        stored = d.stored;
        valid_hash = ap is_lowercase_blake3_hex d.hash ∙ hash_raw-valid w laws raw;
        path = refl;
        at = ap (λ h. t (derived_path h)) d.hash ∙ d.at;
        object = record {
          raw = held.raw;
          nonempty = held.nonempty;
          within = held.within;
          stored_nonempty = held.stored_nonempty;
          stored_within = held.stored_within;
          decodes = held.decodes;
          digest = held.digest ∙ sym d.hash;
        };
        content = distinct held.raw raw held_known known held.digest;
        raw_size = d.raw_size;
        raw_length = d.raw_size;
        stored_size = d.stored_size;
      }

  -- one piece, from an attempt in whose tree every object is known
  piece-Captures :
      (offset : ℕ) (raw : Bytes) (a t : Attempt w)
      → Known raw
      → a.bytes_read + length raw ≤ u64_max
      → EachObject (IsKnown Known w o) a.store_state.files
      → Appended w o offset raw a t
      → Captures w o raw a t × EachObject (IsKnown Known w o) t.store_state.files
  piece-Captures offset raw a t known fits each i =
      let after = ap (λ (r : Result StoredObject × State). r.1.files) i.returned in
      let kept =
        subst (EachObject (IsKnown Known w o)) after
          (store-Known raw i.stop a.store_state known each) in
      let d = store-Describes w o raw i.stop a.store_state t.store_state i.object i.returned in
      let long : i.object.raw_size ≡ length raw = d.raw_size in
      (
        record {
          records = record_of w i.object offset (pos a.sequence) ∷ [];
          references = i.references;
          stored = (
            raw,
            [],
            sym (append-nil raw),
            described-IsStored raw i.object offset a.sequence t.store_state.files known kept d,
            refl,
          );
          hasher = i.hasher;
          read =
              (add_bytes-ok a.bytes_read i.object.raw_size t.bytes_read (omega arith) (omega arith)
                i.read).0
              ∙ ap (λ n. a.bytes_read + n) long;
          sequence = i.sequence;
          extends =
              subst (Extends a.store_state.files) after
                (store-Extends w o raw i.stop a.store_state others);
        },
        kept,
      )

  -- a piece and what comes after it
  Captures-append :
      (raw rest : Bytes) (a u t : Attempt w)
      → Captures w o raw a u
      → Captures w o rest u t
      → Captures w o (raw ++ rest) a t
  Captures-append raw rest a u t i j = record {
    records = i.records ++ j.records;
    references =
        j.references
        ∙ ap (λ r. r ++ j.records) i.references
        ∙ append_assoc a.chunk_references i.records j.records;
    stored =
        AreStored-append w o t.store_state.files i.records j.records raw rest
          (AreStored-Extends w o u.store_state.files t.store_state.files (map reference i.records)
            raw j.extends i.stored)
          j.stored;
    hasher =
        j.hasher
        ∙ ap (λ h. update_impl w.blake3 h rest) i.hasher
        ∙ update_impl-append w laws o (λ _. true) a.file_hasher raw rest;
    read = omega (arith, i.read, j.read, length-append raw rest);
    sequence = omega (arith, i.sequence, j.sequence, length-append i.records j.records);
    extends = Extends-trans _ _ _ i.extends j.extends;
  }

  pub for_chunks-Captures :
      (stop : StopAnswers) (size offset : ℕ) (list : List Chunk) (content : Bytes) (a t : Attempt w)
      → IsChunking size offset list content
      → PiecesKnown Known content
      → a.bytes_read + length content ≤ u64_max
      → EachObject (IsKnown Known w o) a.store_state.files
      → for_chunks (λ o' b. keeping_error w (store_chunk w o stop o' b)) list a ≡ (ok tt, t)
      → Captures w o content a t × EachObject (IsKnown Known w o) t.store_state.files
  unfolding for_chunks
  for_chunks-Captures stop size offset [] content a t empty known fits each e =
      subst (λ x. Captures w o x a t × EachObject (IsKnown Known w o) t.store_state.files)
        (sym empty)
        (subst (λ u. Captures w o [] a u × EachObject (IsKnown Known w o) u.store_state.files)
          (pure-then tt a e).1 (Captures-nil w o a, each))
  for_chunks-Captures stop size offset ((o', raw) ∷ list) content a t
        (_, _, _, _, (rest, split, more)) known fits each e =
      let (_, u, e1, e2) = bind-eq-ok _ _ a t tt e in
      let (first, each') =
        piece-Captures o' raw a u (known [] raw rest split)
          (omega (arith, ap length split, length-append raw rest)) each
          (store_chunk-Appended w o stop o' raw a u (keeping_error-ok w _ a u e1)) in
      let (after, each'') =
        for_chunks-Captures stop size (offset + length raw) list rest u t more
          (λ x y z s.
            known (raw ++ x) y z (split ∙ ap (λ v. raw ++ v) s ∙ sym (append_assoc raw x _)))
          (omega (arith, ap length split, length-append raw rest, first.read)) each' e2 in
      (
        subst (λ x. Captures w o x a t) (sym split) (Captures-append raw rest a u t first after),
        each'',
      )
