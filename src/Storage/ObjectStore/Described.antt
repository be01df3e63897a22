-- ===== src/Storage/ObjectStore/Described.antt =====
-- What a result of `store` says: the digest, the path and the sizes of a file that stands there.
use mathlib.Core.Path.{subst}
use file_vault.Common.{
  ℕ, ◌≡◌, refl, sym, ap, ◌∙◌, Bool, true, false, ◌&&◌, Option, none, some, [], Bytes, length,
  nat_eq, list_eq, ok, arith, list_beq_iff, nat_beq_iff,
}
use file_vault.Common.Exec.{Exec, throw, check, ◌>>=◌}
use file_vault.Common.Exec.Rules.{
  Ensures, Ensures-bind, Ensures-any, Ensures-kept, Ensures-pure, Ensures-throw, Ensures-forget,
  Ensures-assume, check-then, step-then, pure-then,
}
use file_vault.Filesystem.Tree.{FilePath, Tree, file}
use file_vault.Database.Chunks.{StoredChunkInfo}
use file_vault.Storage.World.{World, State, StoredObject, after_object_rename}
use file_vault.Storage.ObjectFiles.{
  derived_path, hash_raw, regular_file_size, publish, RestorePublishResult, published,
  destination_exists,
}
use file_vault.Storage.ObjectFiles.Reads.{files-regular_file_size, regular_file_size-ok, publish-ok}
use file_vault.Storage.ObjectFiles.Keeps.{hit-Keeps, sync-Keeps, flush-Keeps}
use file_vault.Storage.ObjectStore.{
  ObjectStore, otherwise, match_size, require_reusable, read_verified, known_chunk,
  find_in_metadata, reuse_cached, find_existing, adopt, find_existing_file, duplicate,
  after_publish, write_object, reuse_or_write, store_new, store,
}
use file_vault.Storage.ObjectStore.Keeps.{
  temporary_write_value, remember-Keeps, remember_unless_metadata-Keeps, register-Keeps,
}
use file_vault.Storage.ObjectStore.ReadBack.{read_verified_sound}

-- The object has the digest, the path and the raw size, and a file of its stored size is at the path.
pub record Describes (h : Bytes) (p : FilePath) (n : ℕ) (object : StoredObject) (tree : Tree)
    : Type 0 where
  pub stored : Bytes
  pub hash : object.hash_hex ≡ h
  pub path : object.relative_path ≡ p
  pub raw_size : object.raw_size ≡ n
  pub at : tree p ≡ file stored
  pub stored_size : object.stored_size ≡ length stored

left_of : (a b : Bool) → (a && b) ≡ true → a ≡ true
left_of a b e = ground arith

right_of : (a b : Bool) → (a && b) ≡ true → b ≡ true
right_of a b e = ground arith

-- An object is described if there is one.
abbrev Found : Bytes → FilePath → ℕ → Option StoredObject → State → Type 0
Found h p n none s = Unit
Found h p n (some object) s = Describes h p n object s.files

abbrev Stored : Bytes → FilePath → ℕ → StoredObject → State → Type 0
Stored h p n object s = Describes h p n object s.files

abbrev Any : State → Type 0
Any s = Unit

match_size-ok :
    (w : World) (o : ObjectStore) (m : Option ℕ) (k : ℕ) (s : State) (a : Unit {0})
    → (match_size w o m k s).0 ≡ ok a
    → (m ≡ some k) × ((match_size w o m k s).1 ≡ s)
unfolding match_size throw check
match_size-ok w o none k s a e = cc
match_size-ok w o (some i) k s a e = (ground (arith, nat_beq_iff i k), ground arith)

module _ (w : World) (o : ObjectStore) (h : Bytes) (p : FilePath) (n : ℕ) where
  require_reusable-Ensures :
      (known : StoredObject) → Ensures Any (require_reusable w o known h p n) (Stored h p n)
  unfolding require_reusable
  require_reusable-Ensures known = record {
    at = λ s t object _ e.
        let (same, e1) = check-then _ _ _ s e in
        let (raw, e2) = check-then _ _ _ s e1 in
        let (_, e3) = check-then _ _ _ s e2 in
        let (m, sized, e4) = step-then (regular_file_size w p) _ s e3 in
        let u = (regular_file_size w p s).1 in
        let (_, matched, e5) = step-then (match_size w o m known.stored_size) _ u e4 in
        let (is_size, kept) = match_size-ok w o m known.stored_size u _ matched in
        let (value, left) = pure-then _ _ e5 in
        let (b, at, long) = regular_file_size-ok w p s known.stored_size (sized ∙ ap ok is_size) in
        let files : t.files ≡ s.files =
          ap (λ (x : State). x.files) (sym left ∙ kept) ∙ files-regular_file_size w p s in
        subst (λ x. Describes h p n x t.files) value
          (record {
            stored = b;
            hash = (list_beq_iff known.hash_hex h).0 (left_of _ _ same);
            path = (list_beq_iff known.relative_path p).0 (right_of _ _ same);
            raw_size = (nat_beq_iff known.raw_size n).0 raw;
            at = ap (λ (f : Tree). f p) files ∙ at;
            stored_size = sym long;
          });
  }

  known_chunk-Ensures :
      (row : Option StoredChunkInfo) → Ensures Any (known_chunk w o row h p n) (Found h p n)
  unfolding known_chunk
  known_chunk-Ensures none = Ensures-pure _ (λ s _. tt)
  known_chunk-Ensures (some row) = Ensures-bind _ _ (require_reusable-Ensures _) (λ reused.
      Ensures-bind _ _ (Ensures-kept _ (remember-Keeps (Describes h p n reused) w o reused))
        (λ _. Ensures-pure _ (λ s d. d)))

  find_in_metadata-Ensures :
      (metadata : Bool) → Ensures Any (find_in_metadata w o metadata h p n) (Found h p n)
  unfolding find_in_metadata
  find_in_metadata-Ensures false = Ensures-pure _ (λ s _. tt)
  find_in_metadata-Ensures true = Ensures-bind _ _ (Ensures-any _) (λ row. known_chunk-Ensures row)

  reuse_cached-Ensures :
      (cached : StoredObject) → Ensures Any (reuse_cached w o h p n cached) (Found h p n)
  unfolding reuse_cached
  reuse_cached-Ensures cached =
      Ensures-bind _ _ (require_reusable-Ensures cached) (λ reused. Ensures-pure _ (λ s d. d))

  otherwise-Ensures :
      (cached : Option StoredObject) (miss : Exec State (Option StoredObject))
      → Ensures Any miss (Found h p n)
      → Ensures Any (otherwise cached miss (reuse_cached w o h p n)) (Found h p n)
  otherwise-Ensures none miss m = m
  otherwise-Ensures (some cached) miss m = reuse_cached-Ensures cached

  find_existing-Ensures : Ensures Any (find_existing w o h p n) (Found h p n)
  unfolding find_existing
  find_existing-Ensures =
      Ensures-bind _ _ (Ensures-any _)
        (λ cached. otherwise-Ensures cached _ (find_in_metadata-Ensures o.metadata))

  read_verified-Ensures :
      (k : ℕ)
      → Ensures Any (read_verified w o h p n k) (λ _ s.
        Stored h p n
          (record {
            hash_hex = h;
            relative_path = p;
            raw_size = n;
            stored_size = k;
            newly_stored = false;
          })
          s)
  read_verified-Ensures k = record {
    at = λ s t raw _ e.
        let sound = read_verified_sound w o h p n k s raw t e in
        let (c, at, long, _) = sound.4 in
        record {
          stored = c;
          hash = refl;
          path = refl;
          raw_size = refl;
          at = ap (λ (f : Tree). f p) sound.5 ∙ ap s.files sound.0 ∙ at;
          stored_size = sym long;
        };
  }

  adopt-Ensures : (m : Option ℕ) → Ensures Any (adopt w o m h p n) (Found h p n)
  unfolding adopt
  adopt-Ensures none = Ensures-pure _ (λ s _. tt)
  adopt-Ensures (some k) =
      let object : StoredObject = record {
        hash_hex = h;
        relative_path = p;
        raw_size = n;
        stored_size = k;
        newly_stored = false;
      } in
      Ensures-bind _ _
        (Ensures-bind _ _ (read_verified-Ensures k)
          (λ raw. Ensures-pure {Q = λ _. Stored h p n object} tt (λ s d. d)))
        (λ _. Ensures-bind _ _ (Ensures-kept _ (sync-Keeps (Describes h p n object) w p)) (λ _.
          Ensures-bind _ _ (Ensures-kept _ (flush-Keeps (Describes h p n object) w p)) (λ _.
            Ensures-bind _ _
              (Ensures-kept _
                (remember_unless_metadata-Keeps (Describes h p n object) w o o.metadata object))
              (λ _. Ensures-pure _ (λ s d. d)))))

  find_existing_file-Ensures : Ensures Any (find_existing_file w o h p n) (Found h p n)
  unfolding find_existing_file
  find_existing_file-Ensures = Ensures-bind _ _ (Ensures-any _) (λ cached.
      otherwise-Ensures cached _ (Ensures-bind _ _ (Ensures-any _) (λ m. adopt-Ensures m)))

  duplicate-Ensures :
      (found : Option StoredObject)
      → Ensures (Found h p n found) (duplicate w o found) (Stored h p n)
  unfolding duplicate
  duplicate-Ensures none = Ensures-throw _
  duplicate-Ensures (some object) = Ensures-pure _ (λ s d. d)

  after_published-Ensures :
      (c : Bytes)
      → Ensures
          (λ s. s.files p ≡ file c)
          (after_publish w o published h p n (length c))
          (Stored h p n)
  unfolding after_publish
  after_published-Ensures c =
      Ensures-bind _ _ (Ensures-kept _ (hit-Keeps there w after_object_rename)) (λ _.
        Ensures-bind _ _ (Ensures-kept _ (flush-Keeps there w p)) (λ _.
          Ensures-bind _ _ (Ensures-kept _ (remember_unless_metadata-Keeps there w o o.metadata _))
            (λ _. Ensures-pure _ (λ u at. record {
              stored = c;
              hash = refl;
              path = refl;
              raw_size = refl;
              at = at;
              stored_size = refl;
            }))))
    where
      there : Tree → Type 0
      there tree = tree p ≡ file c

  after_publish-Ensures :
      (r : RestorePublishResult) (c : Bytes)
      → Ensures
          (λ s. r ≡ published → s.files p ≡ file c)
          (after_publish w o r h p n (length c))
          (Stored h p n)
  unfolding after_publish
  after_publish-Ensures destination_exists c =
      Ensures-forget _
        (Ensures-bind _ _ find_existing_file-Ensures (λ found. duplicate-Ensures found))
  after_publish-Ensures published c = record {
    at = λ s t object here e. (after_published-Ensures c).at s t object (here refl) e;
  }

  publication-Ensures :
      (c x : Bytes)
      → x ≡ c
      → Ensures Any (publish w x p >>= λ r. after_publish w o r h p n (length c)) (Stored h p n)
  publication-Ensures c x e =
      Ensures-bind _ _
        (record {
          at = λ s t r _ run is.
              subst (λ y. t.files p ≡ file y) e
                (publish-ok w x p s t (run ∙ ap (λ q. (ok q, t)) is));
        })
        (λ r. after_publish-Ensures r c)

  write_object-Ensures : (c : Bytes) → Ensures Any (write_object w o h p n c) (Stored h p n)
  unfolding write_object
  write_object-Ensures c = Ensures-bind _ _ (Ensures-any _) (λ _.
      Ensures-bind _ _ (Ensures-any _) (λ _. Ensures-bind _ _ (Ensures-any _) (λ _.
        Ensures-bind _ _ (Ensures-any _) (λ _.
          Ensures-bind _ _
            (record { at = λ s t x _ e. temporary_write_value w [] c x s (ap (λ r. r.0) e) })
            (λ x. Ensures-assume _ (λ same. Ensures-bind _ _ (Ensures-any _) (λ _.
              Ensures-bind _ _ (Ensures-any _)
                (λ _. Ensures-bind _ _ (Ensures-any _) (λ _. publication-Ensures c x same)))))))))

  reuse_or_write-Ensures :
      (found : Option StoredObject) (write : Exec State StoredObject)
      → Ensures Any write (Stored h p n)
      → Ensures (Found h p n found) (reuse_or_write w o found write) (Stored h p n)
  unfolding reuse_or_write
  reuse_or_write-Ensures none write m = Ensures-forget _ m
  reuse_or_write-Ensures (some object) write m = Ensures-pure _ (λ s d. d)

module _ (w : World) (o : ObjectStore) where
  store_new-Ensures :
      (h : Bytes) (p : FilePath) (raw : Bytes) (stop : Bool)
      → Ensures Any (store_new w o h p raw stop) (Stored h p (length raw))
  unfolding store_new
  store_new-Ensures h p raw stop = Ensures-bind _ _ (Ensures-any _) (λ _.
      Ensures-bind _ _ (Ensures-any _) (λ c. Ensures-bind _ _ (Ensures-any _) (λ _.
        Ensures-bind _ _ (Ensures-any _) (λ _.
          Ensures-bind _ _ (find_existing_file-Ensures w o h p (length raw)) (λ found.
            Ensures-bind _ _
              (reuse_or_write-Ensures w o h p (length raw) found _
                (write_object-Ensures w o h p (length raw) c))
              (λ stored.
                Ensures-bind _ _
                  (Ensures-kept _
                    (register-Keeps (Describes h p (length raw) stored) w o o.metadata stored))
                  (λ _. Ensures-pure _ (λ s d. d))))))))

  store-Ensures :
      (raw : Bytes) (stop : Bool)
      → Ensures Any
          (store w o raw stop)
          (Stored (hash_raw w raw) (derived_path (hash_raw w raw)) (length raw))
  unfolding store
  store-Ensures raw stop = Ensures-bind _ _ (Ensures-any _) (λ _.
      Ensures-bind _ _ (Ensures-any _) (λ _. Ensures-bind _ _ (Ensures-any _) (λ _.
        Ensures-bind _ _ (find_existing-Ensures w o _ _ (length raw)) (λ found.
          reuse_or_write-Ensures w o _ _ (length raw) found _ (store_new-Ensures _ _ raw stop)))))

  -- If `store` returns, the object that it returns carries the digest of the bytes, the path derived
  -- from it and the size of the bytes, and a file of the object's stored size stands at that path.
  pub store-Describes :
      (raw : Bytes) (stop : Bool) (s t : State) (object : StoredObject)
      → store w o raw stop s ≡ (ok object, t)
      → Describes (hash_raw w raw) (derived_path (hash_raw w raw)) (length raw) object t.files
  store-Describes raw stop s t object e = (store-Ensures raw stop).at s t object tt e
