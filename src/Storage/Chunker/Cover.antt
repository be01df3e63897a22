-- ===== src/Storage/Chunker/Cover.antt =====
-- What the callback of `for_each_chunk` is given for a file of known content.
use file_vault.Common.{
  ℕ, zero, suc, ◌+◌, ◌-◌, ◌≤◌, ◌<◌, ◌≡◌, nat_beq, refl, sym, ap, ◌∙◌, ◌⊎◌, inl, inr, Bool, true,
  false, List, [], ◌∷◌, ◌++◌, Bytes, length, take, drop, ltb, leb, u64_max, ok, some, arith,
  length-take, length-drop, take-append-drop, drop_all, Bool-cases, if◌then◌else◌,
}
use file_vault.Common.Exec.{Exec, pure, continue_congr, ◌>>=◌, ◌>>◌}
use file_vault.Storage.Chunker.{
  Chunker, ChunkCallback, make, k_maximum_supported_chunk_size, after_read, loop, for_each_chunk,
  for_each_chunk_of_file, read_file,
}

abbrev pub Chunk : Type 0
Chunk = ℕ × Bytes

-- The pieces of `content`, each with its offset.
unfoldable pub chunks : ℕ → ℕ → ℕ → Bytes → List Chunk
chunks zero size offset content = []
chunks (suc f) size offset [] = []
chunks (suc f) size offset (x ∷ xs) =
    (offset, take size (x ∷ xs))
    ∷ chunks f size (offset + length (take size (x ∷ xs))) (drop size (x ∷ xs))

-- The callback, called on each in turn until one throws.
unfoldable pub for_chunks : {S : Type 0} → ChunkCallback S → List Chunk → Exec S (Unit {0})
for_chunks callback [] = pure tt
for_chunks callback ((offset, bytes) ∷ rest) = do callback offset bytes; for_chunks callback rest

-- `list` cuts `content` into contiguous pieces from `offset` on: none is empty, none is larger than
-- `size`, and all but the last are of that size.
abbrev pub IsChunking : ℕ → ℕ → List Chunk → Bytes → Type 0
IsChunking size offset [] content = content ≡ []
IsChunking size offset ((o, bytes) ∷ list) content =
    (o ≡ offset)
    × (0 < length bytes)
    × (length bytes ≤ size)
    × ((list ≡ []) ⊎ (length bytes ≡ size))
    × ((rest : Bytes) × (content ≡ bytes ++ rest)
        × IsChunking size (offset + length bytes) list rest)

chunks_nil : (f size offset : ℕ) → chunks f size offset [] ≡ []
unfolding chunks
chunks_nil zero size offset = refl
chunks_nil (suc f) size offset = refl

pub chunks-IsChunking :
    (f m offset : ℕ) (content : Bytes)
    → length content < f
    → IsChunking (suc m) offset (chunks f (suc m) offset content) content
unfolding chunks
chunks-IsChunking zero m offset content h = absurd (omega arith)
chunks-IsChunking (suc f) m offset [] h = refl
chunks-IsChunking (suc f) m offset (x ∷ xs) h = (
  refl,
  omega arith,
  omega (arith, length-take m xs),
  last,
  (
    drop m xs,
    sym (take-append-drop (suc m) (x ∷ xs)),
    chunks-IsChunking f m (offset + suc (length (take m xs))) (drop m xs)
        (omega (arith, length-drop m xs)),
  ),
)
  where
    last :
        (chunks f (suc m) (offset + suc (length (take m xs))) (drop m xs) ≡ [])
        ⊎ (suc (length (take m xs)) ≡ suc m)
    last = elim (Bool-cases (leb (length xs) m)) [
      | inl short ↦ inl (
          ap (chunks f (suc m) (offset + suc (length (take m xs)))) (drop_all m xs (ground arith))
          ∙ chunks_nil f (suc m) _)
      | inr long ↦ inr (ground (arith, length-take m xs))
    ]

module _ {S : Type 0} (stop : ℕ → Bool) (callback : ChunkCallback S) (m : ℕ) where
  after_read-nil :
      (next : ℕ → Exec S (Unit {0})) (offset : ℕ) (s : S)
      → after_read read_file stop callback (read_file [] (suc m)).0 next offset s ≡ (ok tt, s)
  unfolding after_read read_file ◌>>=◌
  after_read-nil next offset s = ground arith

  after_read-cons :
      (next : ℕ → Exec S (Unit {0})) (offset x : ℕ) (xs : Bytes) (s : S)
      → offset + length (take (suc m) (x ∷ xs)) ≤ u64_max
      → after_read read_file stop callback (read_file (x ∷ xs) (suc m)).0 next offset s
        ≡ (callback offset (take (suc m) (x ∷ xs))
              >> (if ltb (length (x ∷ xs)) (suc m)
                  then pure tt
                  else next (offset + length (take (suc m) (x ∷ xs)))))
            s
  unfolding after_read read_file ◌>>=◌
  after_read-cons next offset x xs s h =
      let t : leb offset (u64_max - suc (length (take m xs))) ≡ true = ground arith in
      let z : nat_beq (suc (length (take m xs))) 0 ≡ false = ground arith in
      elim (Bool-cases (ltb (suc (length xs)) (suc m))) [
        | inl e ↦ simp (t, z, e)
        | inr e ↦ simp (t, z, e)
      ]

  -- A short read is the last: nothing is left to cut.
  rest-eq-for_chunks :
      (f o : ℕ) (xs : Bytes) (b : Bool) (next : Exec S (Unit {0})) (u : S)
      → ltb (suc (length xs)) (suc m) ≡ b
      → next u ≡ for_chunks callback (chunks f (suc m) o (drop m xs)) u
      → (if b then pure tt else next) u ≡ for_chunks callback (chunks f (suc m) o (drop m xs)) u
  unfolding for_chunks pure
  rest-eq-for_chunks f o xs true next u e ih =
      let gone : drop m xs ≡ [] = drop_all m xs (ground arith) in
      rw (gone, chunks_nil f (suc m) o) refl
  rest-eq-for_chunks f o xs false next u e ih = ih

module _ {S : Type 0} (stop : ℕ → Bool) (running : (i : ℕ) → stop i ≡ false) where
  module _ (callback : ChunkCallback S) (m : ℕ) where
    loop-eq-for_chunks :
        (f i offset : ℕ) (content : Bytes) (s : S)
        → length content < f
        → offset + length content ≤ u64_max
        → loop read_file stop callback (record { maximum_chunk_size = suc m }) f i offset content s
          ≡ for_chunks callback (chunks f (suc m) offset content) s
    unfolding loop chunks for_chunks read_file ◌>>=◌
    loop-eq-for_chunks zero i offset content s h fits = absurd (omega arith)
    loop-eq-for_chunks (suc f) i offset [] s h fits = rw (running i) (
        after_read-nil stop callback m
          (λ o'.
            loop read_file stop callback (record { maximum_chunk_size = suc m }) f (i + 1) o' [])
          offset s)
    loop-eq-for_chunks (suc f) i offset (x ∷ xs) s h fits =
        let o = offset + suc (length (take m xs)) in
        let ih = λ (u : S).
          loop-eq-for_chunks f (i + 1) o (drop m xs) u (omega (arith, length-drop m xs))
            (omega (arith, length-take m xs, length-drop m xs)) in
        rw (running i) (
          after_read-cons stop callback m
            (λ o'.
              loop read_file stop callback (record { maximum_chunk_size = suc m }) f (i + 1) o'
                (drop m xs))
            offset x xs s (omega (arith, length-take m xs))
          ∙ continue_congr (callback offset (x ∷ take m xs) s).0 _ _
              (callback offset (x ∷ take m xs) s).1
              (λ _.
                rest-eq-for_chunks stop callback m f o xs _ _ (callback offset (x ∷ take m xs) s).1
                  refl (ih (callback offset (x ∷ take m xs) s).1)))

make_bounds :
    (n : ℕ) (c : Chunker)
    → make n ≡ ok c
    → (m : ℕ) × (c ≡ record { maximum_chunk_size = suc m })
      × (suc m ≤ k_maximum_supported_chunk_size)
unfolding make
make_bounds zero c h = ground arith
make_bounds (suc m) c h = (m, ground arith, ground arith)

-- For a chunker that the constructor accepts and a file of any content up to 2^64 - 1 bytes, if no
-- stop is requested, `for_each_chunk` calls the callback on the pieces of one list in turn, until a
-- call throws or the list ends, and changes nothing else: contiguous pieces from offset 0 that
-- together are the content, none empty or larger than the maximum, and all but the last of that size.
pub for_each_chunk-IsChunking :
    (n : ℕ) (c : Chunker) (content : Bytes) (stop : ℕ → Bool)
    → make n ≡ ok c
    → length content ≤ u64_max
    → ((i : ℕ) → stop i ≡ false)
    → (list : List Chunk) × IsChunking c.maximum_chunk_size 0 list content
      × ((S : Type 0) (callback : ChunkCallback S) (s : S)
          → for_each_chunk_of_file read_file stop
              (some callback)
              c
              (length content + 1)
              (some content)
              s
            ≡ for_chunks callback list s)
unfolding for_each_chunk_of_file for_each_chunk ◌>>=◌
for_each_chunk-IsChunking n c content stop made fits running =
    let (m, e, bound) = make_bounds n c made in
    rw e (
      chunks (length content + 1) (suc m) 0 content,
      chunks-IsChunking (length content + 1) m 0 content (omega arith),
      λ S callback s. rw (running 0) (
          loop-eq-for_chunks stop running callback m (length content + 1) 1 0 content s
            (omega arith) (omega arith)),
    )
