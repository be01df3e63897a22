-- ===== src/Storage/ObjectStore/ReadBack.antt =====
-- What `read_verified` returns, and that it returns what was stored.
use mathlib.Core.Path.{subst}
use file_vault.Common.{
  ℕ, ◌≤◌, ◌≡◌, sym, ap, ◌∙◌, true, not, ◌||◌, Option, none, some, Bytes, length, take, ltb, ◌==◌,
  nat_eq, list_eq, Result, ok, err, out_of_fuel, arith, u64_max, take_all, list_beq_iff,
  nat_beq_iff,
}
use file_vault.Common.Exec.{Exec, ◌>>=◌}
use file_vault.Common.Exec.Rules.{check-then, lift-then, step-then, pure-then}
use file_vault.Filesystem.Tree.{FilePath, Tree, file}
use file_vault.Storage.ZstdCodec.{decompress}
use file_vault.Storage.ZstdCodec.RoundTrip.{decompress_sound}
use file_vault.Storage.World.{World, State}
use file_vault.Storage.ObjectFiles.{derived_path, hash_raw, regular_file_size, read_exact}
use file_vault.Storage.ObjectFiles.Reads.{
  files-regular_file_size, files-read_exact, regular_file_size-ok, read_exact-ok,
}
use file_vault.Storage.ObjectStore.{ObjectStore, match_size, corrupt_if_undecodable, read_verified}

module _ (w : World) (o : ObjectStore) (h : Bytes) (p : FilePath) (n k : ℕ) (s : State) where
  abbrev sized : State
  sized = (regular_file_size w (derived_path h) s).1

  match_size-then :
      {t : State} {raw : Bytes} (m : Option ℕ) (f : Unit {0} → Exec State Bytes) (u : State)
      → (match_size w o m k >>= f) u ≡ (ok raw, t)
      → (m ≡ some k) × (f tt u ≡ (ok raw, t))
  unfolding match_size ◌>>=◌
  match_size-then none f u e = cc
  match_size-then (some i) f u e = (ground (arith, nat_beq_iff i k), ground arith)

  decoded : (r : Result Bytes) (raw : Bytes) → corrupt_if_undecodable w o r ≡ ok raw → r ≡ ok raw
  unfolding corrupt_if_undecodable
  decoded (ok a) raw e = e
  decoded (err c) raw e = ground arith
  decoded out_of_fuel raw e = cc

  read_verified_parts :
      (raw : Bytes) (t : State)
      → read_verified w o h p n k s ≡ (ok raw, t)
      → (c : Bytes) × ((p == derived_path h) ≡ true)
        × (n ≤ o.maximum_chunk_size)
        × ((regular_file_size w (derived_path h) s).0 ≡ ok (some k))
        × ((read_exact w (derived_path h) k sized).0 ≡ ok c)
        × (decompress w.zstd o.codec c n o.maximum_chunk_size ≡ ok raw)
        × ((hash_raw w raw == h) ≡ true)
        × (t ≡ (read_exact w (derived_path h) k sized).1)
  unfolding read_verified
  read_verified_parts raw t e =
      let (_, _, e1) = lift-then _ _ s e in
      let (same, e2) = check-then _ _ _ s e1 in
      let (size, e3) = check-then _ _ _ s e2 in
      let (_, e4) = check-then _ _ _ s e3 in
      let (m, sized_ok, e5) = step-then (regular_file_size w (derived_path h)) _ s e4 in
      let (is_k, e6) = match_size-then m _ sized e5 in
      let (c, read, e7) = step-then (read_exact w (derived_path h) k) _ sized e6 in
      let (r, dec, e8) = lift-then _ _ _ e7 in
      let (digest, e9) = check-then _ _ _ _ e8 in
      let (r_eq, t_eq) = pure-then r _ e9 in
      (
        c,
        same,
        within size,
        sized_ok ∙ ap ok is_k,
        read,
        decoded _ r dec ∙ ap ok r_eq,
        subst (λ x. (hash_raw w x == h) ≡ true) r_eq digest,
        sym t_eq,
      )
    where
      within :
          not (n == 0 || ltb o.maximum_chunk_size n || ltb u64_max n) ≡ true
          → n ≤ o.maximum_chunk_size
      within x = ground arith

  -- What `read_verified` returns has the digest and the raw size that were asked for, the path is the
  -- one derived from the digest, and there is a file of the stored size there which decompresses to it.
  -- The files are unchanged.
  pub read_verified_sound :
      (raw : Bytes) (t : State)
      → read_verified w o h p n k s ≡ (ok raw, t)
      → (p ≡ derived_path h)
        × (hash_raw w raw ≡ h)
        × (length raw ≡ n)
        × (n ≤ o.maximum_chunk_size)
        × ((c : Bytes) × (s.files (derived_path h) ≡ file c)
            × (length c ≡ k)
            × (decompress w.zstd o.codec c n o.maximum_chunk_size ≡ ok raw))
        × (t.files ≡ s.files)
  read_verified_sound raw t e =
      let (c, same, small, sized_ok, read, dec, digest, last) = read_verified_parts raw t e in
      let (b, at, len) = regular_file_size-ok w (derived_path h) s k sized_ok in
      let (b', at', cut) = read_exact-ok w (derived_path h) k c sized read in
      let b_eq : b ≡ b' = file-injective (
        sym at
        ∙ ap (λ (f : Tree). f (derived_path h)) (sym (files-regular_file_size w (derived_path h) s))
        ∙ at') in
      let c_eq : c ≡ b = cut ∙ ap (take k) (sym b_eq) ∙ take_all k b (omega arith) in
      (
        (list_beq_iff p (derived_path h)).0 same,
        (list_beq_iff (hash_raw w raw) h).0 digest,
        (decompress_sound w.zstd o.codec c raw n o.maximum_chunk_size dec).0,
        small,
        (
          b,
          at,
          len,
          subst (λ x. decompress w.zstd o.codec x n o.maximum_chunk_size ≡ ok raw) c_eq dec,
        ),
        ap (λ (u : State). u.files) last
            ∙ files-read_exact w (derived_path h) k sized
            ∙ files-regular_file_size w (derived_path h) s,
      )
    where
      file-injective : {x y : Bytes} → file x ≡ file y → x ≡ y
      file-injective q = cc
