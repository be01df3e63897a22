-- ===== src/Storage/ObjectStore/Safety.antt =====
-- What storing never does to the files of a repository, however it ends: by a result, an error, a failed
-- system call or an injected failure at any point.
use mathlib.Core.Path.{subst}
use mathlib.Core.List.{append_cancel_right}
use file_vault.Common.{
  ℕ, ◌+◌, ◌*◌, ◌≤◌, ◌<◌, ◌≡◌, refl, sym, ap, ◌∙◌, ◌⊎◌, inl, inr, Bool, [], ◌∷◌, ◌||◌, Bytes, codes,
  length, ltb, ◌==◌, nat_eq, ok, arith, Bool-cases,
}
use file_vault.Common.Exec.{◌>>=◌}
use file_vault.Filesystem.Tree.{FilePath, Tree, file, write, write_self, write_ne}
use file_vault.Filesystem.Tree.Laws.{
  Extends, Extends-trans, Extends-write, create_directories-Extends, create_directories-file,
  path_cases,
}
use file_vault.Storage.ZstdCodec.{ZstdLaws, compress, decompress}
use file_vault.Storage.ZstdCodec.RoundTrip.{decompress-compress}
use file_vault.Storage.World.{World, State}
use file_vault.Storage.ObjectFiles.{derived_path, hash_raw}
use file_vault.Storage.ObjectStore.{ObjectStore, store, permanent_maximum_chunk_size}
use file_vault.Storage.ObjectStore.Keeps.{store-Keeps}

-- Other threads add to the tree and change nothing that is there.
abbrev pub OthersExtend : World → Type 0
OthersExtend w = (n : ℕ) (t : Tree) → Extends t (w.others n t)

-- If the other threads only add to the file tree, then whatever stood at a path before `store` stands
-- there after it, unchanged, whether `store` returns or throws, and whichever system calls and
-- failure points fail.
pub store-Extends :
    (w : World) (o : ObjectStore) (raw : Bytes) (stop : Bool) (s : State)
    → OthersExtend w
    → Extends s.files (store w o raw stop s).1.files
store-Extends w o raw stop s others =
    (store-Keeps (Extends s.files) w o
        (λ p t u e k. Extends-trans s.files t u k (create_directories-Extends [] p t u e))
        (λ n t k. Extends-trans s.files t (w.others n t) k (others n t)) raw stop
        (λ c t e gone k.
          Extends-trans s.files t _ k
            (Extends-write t (derived_path (hash_raw w raw)) (file c) gone))).at
      s (λ p h. refl)

pub derived_path-injective : (g h : Bytes) → derived_path g ≡ derived_path h → g ≡ h
unfolding derived_path
derived_path-injective g h e = append_cancel_right g h (codes ".zst") (ap name e)
  where
    name : FilePath → Bytes
    name (a ∷ b ∷ c ∷ []) = c
    name p = []

-- `Q` holds of the digest and the content of every file at the path of a digest.
abbrev pub EachObject : (Bytes → Bytes → Type 0) → Tree → Type 0
EachObject Q t = (hash stored : Bytes) → t (derived_path hash) ≡ file stored → Q hash stored

module _ (Q : Bytes → Bytes → Type 0) where
  EachObject-write :
      (t : Tree) (hash stored : Bytes)
      → Q hash stored
      → EachObject Q t
      → EachObject Q (write (derived_path hash) (file stored) t)
  EachObject-write t hash stored object each g b e =
      elim (path_cases (derived_path hash) (derived_path g)) [
        | inl same ↦
            let here : file stored ≡ file b =
              sym (
                subst (λ x. write (derived_path hash) (file stored) t x ≡ file stored) same
                  (write_self (derived_path hash) (file stored) t))
              ∙ e in
            subst (λ x. Q x b) (derived_path-injective hash g same)
              (subst (Q hash) (file-injective here) object)
        | inr ne ↦
            each g b (sym (write_ne (derived_path hash) (derived_path g) (file stored) t ne) ∙ e)
      ]
    where
      file-injective : {a b : Bytes} → file a ≡ file b → a ≡ b
      file-injective p = cc

  store_too_long :
      (w : World) (o : ObjectStore) (raw : Bytes) (stop : Bool) (s : State)
      → ((length raw ≡ 0) ⊎ (o.maximum_chunk_size < length raw))
      → (store w o raw stop s).1 ≡ s
  unfolding store ◌>>=◌
  store_too_long w o raw stop s h = ground arith

  -- Storing keeps what holds of every object, if it holds of the new one.
  pub store-EachObject :
      (w : World) (o : ObjectStore) (raw : Bytes) (stop : Bool) (s : State)
      → (0 < length raw
          → length raw ≤ o.maximum_chunk_size
          → (c : Bytes) → compress w.zstd o.codec raw ≡ ok c
          → Q (hash_raw w raw) c)
      → ((n : ℕ) (t : Tree) → EachObject Q t → EachObject Q (w.others n t))
      → EachObject Q s.files
      → EachObject Q (store w o raw stop s).1.files
  store-EachObject w o raw stop s new others each =
      elim (Bool-cases (length raw == 0 || ltb o.maximum_chunk_size (length raw))) [
        | inl bad ↦
            subst (λ (u : State). EachObject Q u.files)
              (sym (store_too_long w o raw stop s (ground arith))) each
        | inr good ↦
            (store-Keeps (EachObject Q) w o
                (λ p t u e k h b x. k h b (create_directories-file [] p t u (derived_path h) b e x))
                others raw stop
                (λ c t e gone k.
                  EachObject-write t (hash_raw w raw) c (new (ground arith) (ground arith) c e)
                    k)).at
              s each
      ]

-- The file at the path of `hash` is an object: it decompresses, within the limits of the repository, to
-- bytes with that digest.
pub record IsObject (w : World) (o : ObjectStore) (hash stored : Bytes) : Type 0 where
  pub raw : Bytes
  pub nonempty : 0 < length raw
  pub within : length raw ≤ o.maximum_chunk_size
  pub stored_nonempty : 0 < length stored
  pub stored_within : length stored ≤ o.maximum_chunk_size + 64 * 1024
  pub decodes : decompress w.zstd o.codec stored (length raw) o.maximum_chunk_size ≡ ok raw
  pub digest : hash_raw w raw ≡ hash

-- Every file at the path of a digest is an object with that digest.
abbrev pub IsSound : World → ObjectStore → Tree → Type 0
IsSound w o = EachObject (IsObject w o)

abbrev pub OthersSound : World → ObjectStore → Type 0
OthersSound w o = (n : ℕ) (t : Tree) → IsSound w o t → IsSound w o (w.others n t)

module _ (w : World) (laws : ZstdLaws w.zstd) (o : ObjectStore) where
  pub compress-IsObject :
      (raw c : Bytes)
      → 0 < length raw
      → length raw ≤ o.maximum_chunk_size
      → o.maximum_chunk_size ≤ permanent_maximum_chunk_size
      → compress w.zstd o.codec raw ≡ ok c
      → (object : IsObject w o (hash_raw w raw) c) × (object.raw ≡ raw)
  compress-IsObject raw c pos small limit e =
      let (d, ed, nonempty, within, back) =
        decompress-compress w.zstd laws o.codec o.maximum_chunk_size raw small limit in
      let same : d ≡ c = ok-injective (sym ed ∙ e) in
      (
        record {
          raw = raw;
          nonempty = pos;
          within = small;
          stored_nonempty = subst (λ x. 0 < length x) same nonempty;
          stored_within = subst (λ x. length x ≤ o.maximum_chunk_size + 64 * 1024) same within;
          decodes =
              subst (λ x. decompress w.zstd o.codec x (length raw) o.maximum_chunk_size ≡ ok raw)
                same back;
          digest = refl;
        },
        refl,
      )
    where
      ok-injective : {a b : Bytes} → ok a ≡ ok b → a ≡ b
      ok-injective p = cc

  -- In a repository whose chunk-size limit is at most 4 MiB and whose files at the paths of digests are
  -- all sound objects, they are so after `store`, whether it returns or throws, and whichever system
  -- calls and failure points fail, if the other threads keep them sound.
  pub store-IsSound :
      (raw : Bytes) (stop : Bool) (s : State)
      → o.maximum_chunk_size ≤ permanent_maximum_chunk_size
      → OthersSound w o
      → IsSound w o s.files
      → IsSound w o (store w o raw stop s).1.files
  store-IsSound raw stop s limit others =
      store-EachObject (IsObject w o) w o raw stop s
        (λ pos small c e. (compress-IsObject raw c pos small limit e).0) others
