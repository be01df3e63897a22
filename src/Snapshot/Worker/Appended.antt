-- ===== src/Snapshot/Worker/Appended.antt =====
-- What one call of the callback does if it returns.
use file_vault.Common.{
  ℕ, ◌+◌, ◌%◌, ◌^◌, ◌≤◌, ◌≡◌, refl, sym, ap, ◌∙◌, Bool, [], ◌∷◌, ◌++◌, Bytes, nat_eq, ℤ, pos,
  Result, ok, i64_max, arith,
}
use file_vault.Common.Exec.{modify, ◌>>=◌, bind-eq-ok}
use file_vault.Common.Exec.Rules.{check-then, lift-then, step-then, modify-then, gets-then}
use file_vault.Storage.Blake3Hasher.{update_impl}
use file_vault.Storage.World.{World, StoredObject}
use file_vault.Storage.ObjectStore.{ObjectStore, store}
use file_vault.Snapshot.Counters.{add_bytes, checked_sequence}
use file_vault.Snapshot.Worker.{
  Attempt, StopAnswers, record_of, on_store, append, update_hasher, count_chunk, store_chunk,
}

-- From `a` to `t` the callback has stored `bytes` as `object` and noted it.
pub record Appended (w : World) (o : ObjectStore) (offset : ℕ) (bytes : Bytes) (a t : Attempt w)
    : Type 0 where
  pub object : StoredObject
  pub stop : Bool
  pub returned : store w o bytes stop a.store_state ≡ (ok object, t.store_state)
  pub hasher : t.file_hasher ≡ update_impl w.blake3 a.file_hasher bytes
  pub read : add_bytes a.bytes_read object.raw_size ≡ ok t.bytes_read
  pub sequence : t.sequence ≡ a.sequence + 1
  pub within : a.sequence ≤ i64_max
  pub references :
      t.chunk_references ≡ a.chunk_references ++ record_of w object offset (pos a.sequence) ∷ []

pair-eq : {A S : Type 0} (r : Result A × S) (a : A) (u : S) → r.0 ≡ ok a → r.1 ≡ u → r ≡ (ok a, u)
pair-eq (x, y) a u p q = rw (p, q) refl

small : (n : ℕ) → n ≤ i64_max → (n + 1) % 2 ^ 64 ≡ n + 1
small n h = omega arith

checked_sequence-ok : (n : ℕ) (i : ℤ) → checked_sequence n ≡ ok i → (i ≡ pos n) × (n ≤ i64_max)
unfolding checked_sequence
checked_sequence-ok n i e = (ground arith, ground arith)

module _ (w : World) (o : ObjectStore) (stop : StopAnswers) (offset : ℕ) (bytes : Bytes) where
  modified :
      (change : Attempt w → Attempt w) (a t : Attempt w)
      → modify change a ≡ (ok tt, t)
      → t ≡ change a
  unfolding modify
  modified change a t e = sym (ap (λ r. r.1) e)

  append-ok :
      (written : Bool) (object : StoredObject) (i : ℤ) (a t : Attempt w)
      → append w written object offset i a ≡ (ok tt, t)
      → t ≡ record a { chunk_references = a.chunk_references ++ record_of w object offset i ∷ [] }
  unfolding append
  append-ok written object i a t e = modified _ a t (check-then _ _ _ a (check-then _ _ _ a e).1).1

  -- the last two steps
  appended :
      (written : Bool) (object : StoredObject) (i : ℤ) (a t : Attempt w)
      → (append w written object offset i >>= λ _. modify (count_chunk w object.newly_stored)) a
        ≡ (ok tt, t)
      → t
        ≡ count_chunk w object.newly_stored
            (record a { chunk_references = a.chunk_references ++ record_of w object offset i ∷ [] })
  appended written object i a t e =
      let (_, u, noted, counted) = bind-eq-ok _ _ a t tt e in
      modified _ u t counted
      ∙ ap (count_chunk w object.newly_stored) (append-ok written object i a u noted)

  pub store_chunk-Appended :
      (a t : Attempt w)
      → store_chunk w o stop offset bytes a ≡ (ok tt, t)
      → Appended w o offset bytes a t
  unfolding store_chunk on_store update_hasher count_chunk
  store_chunk-Appended a t e =
      let e1 = modify-then _ _ a e in
      let u = update_hasher w bytes a in
      let e2 = gets-then _ _ _ e1 in
      let (_, e3) = check-then _ _ _ _ e2 in
      let (object, stored, e4) = step-then _ _ _ e3 in
      let e5 = gets-then _ _ _ e4 in
      let (total, added, e6) = lift-then _ _ _ e5 in
      let e7 = modify-then _ _ _ e6 in
      let (number, checked, e8) = lift-then _ _ _ e7 in
      let (is_number, within) = checked_sequence-ok _ _ checked in
      let last = appended (stop.writes a.sequence) object number _ t e8 in
      record {
        object = object;
        stop = stop.stores a.sequence;
        returned =
            pair-eq (store w o bytes (stop.stores a.sequence) a.store_state) object _ stored
              (sym (ap (λ (x : Attempt w). x.store_state) last));
        hasher = ap (λ (x : Attempt w). x.file_hasher) last;
        read = added ∙ ap ok (sym (ap (λ (x : Attempt w). x.bytes_read) last));
        sequence = ap (λ (x : Attempt w). x.sequence) last ∙ small a.sequence within;
        within = within;
        references =
            ap (λ (x : Attempt w). x.chunk_references) last
            ∙ ap (λ j. a.chunk_references ++ record_of w object offset j ∷ []) is_number;
      }
