-- ===== src/Restore/Selection/Maps.antt =====
-- The maps of `select_entries`: insertions and searches.
use mathlib.Core.Path.{subst}
use file_vault.Common.{
  ◌≡◌, ◌≢◌, ◌⊎◌, inl, inr, refl, sym, ap, ◌∙◌, Bool, true, false, Option, none, some, [], ◌∷◌,
  Bytes, All, ◌==◌, nat_eq, list_eq, list_beq_iff, if◌then◌else◌, Bool-cases, arith,
}
use file_vault.Database.Entries.{EntryInfo}
use file_vault.Restore.Selection.{PathMap, find, insert_sorted, emplace, emplace_where, key_less}

-- What is found in the first is found in the second.
abbrev pub Grows : PathMap → PathMap → Type 0
Grows m n = (key : Bytes) (e : EntryInfo) → find key m ≡ some e → find key n ≡ some e

-- Each node is what is found at its key.
abbrev pub IsMap : PathMap → Type 0
IsMap m = All (λ (node : Bytes × EntryInfo). find node.0 m ≡ some node.1) m

key_refl : (key : Bytes) → (key == key) ≡ true
key_refl key = (list_beq_iff key key).1 refl

find-insert_same :
    (key : Bytes) (e : EntryInfo) (m : PathMap)
    → find key m ≡ none
    → find key (insert_sorted key e m) ≡ some e
unfolding find insert_sorted
find-insert_same key e [] absent = rw (key_refl key) refl
find-insert_same key e ((here, other) ∷ m) absent =
    let same = key_refl key in let ih = find-insert_same key e m in ground arith

find-insert_other :
    (key : Bytes) (e : EntryInfo) (m : PathMap) (k : Bytes)
    → (k == key) ≡ false
    → find k (insert_sorted key e m) ≡ find k m
unfolding find insert_sorted
find-insert_other key e [] k differs = rw differs refl
find-insert_other key e ((here, other) ∷ m) k differs =
    let ih = find-insert_other key e m k differs in ground arith

key_cases : (k key : Bytes) → (k ≡ key) ⊎ ((k == key) ≡ false)
key_cases k key = elim (Bool-cases (k == key)) [
  | inl e ↦ inl ((list_beq_iff k key).0 e)
  | inr e ↦ inr e
]

clash : {e : EntryInfo} → some e ≢ none
clash p = cc

find_cases :
    (key : Bytes) (m : PathMap) → (find key m ≡ none) ⊎ ((y : EntryInfo) × (find key m ≡ some y))
find_cases key m = go (find key m)
  where
    go : (o : Option EntryInfo) → (o ≡ none) ⊎ ((y : EntryInfo) × (o ≡ some y))
    go none = inl refl
    go (some y) = inr (y, refl)

-- An insertion leaves the map where the key is there, and inserts a node where it is not.
emplace_cases :
    (key : Bytes) (e : EntryInfo) (m : PathMap)
    → ((find key m ≡ none) × (emplace key e m ≡ insert_sorted key e m))
      ⊎ ((y : EntryInfo) × (find key m ≡ some y) × (emplace key e m ≡ m))
unfolding emplace emplace_where
emplace_cases key e m = elim (find_cases key m) [
  | inl absent ↦ inl (absent, rw absent refl)
  | inr (y, there) ↦ inr (y, there, rw there refl)
]

-- An insertion loses nothing.
pub emplace-Grows : (key : Bytes) (e : EntryInfo) (m : PathMap) → Grows m (emplace key e m)
emplace-Grows key e m k x there = elim (emplace_cases key e m) [
  | inr (y, found, left) ↦ rw left there
  | inl (absent, inserted) ↦ elim (key_cases k key) [
    | inl same ↦ absurd (clash (sym there ∙ (ap (λ c. find c m) same ∙ absent)))
    | inr differs ↦ rw inserted (find-insert_other key e m k differs ∙ there)
  ]
]

-- What is found after an insertion was found before, or was inserted.
pub find-emplace :
    (key : Bytes) (e : EntryInfo) (m : PathMap) (k : Bytes) (x : EntryInfo)
    → find k (emplace key e m) ≡ some x
    → (find k m ≡ some x) ⊎ ((k ≡ key) × (x ≡ e))
find-emplace key e m k x there = elim (emplace_cases key e m) [
  | inr (y, found, left) ↦ inl (ap (find k) (sym left) ∙ there)
  | inl (absent, inserted) ↦ elim (key_cases k key) [
    | inr differs ↦
        inl (sym (find-insert_other key e m k differs) ∙ (ap (find k) (sym inserted) ∙ there))
    | inl same ↦ inr (
      same,
      some_injective (
          sym there
          ∙ (ap (find k) inserted
              ∙ (ap (λ c. find c (insert_sorted key e m)) same ∙ find-insert_same key e m absent))),
    )
  ]
]
  where
    some_injective : {a b : EntryInfo} → some a ≡ some b → a ≡ b
    some_injective p = cc

-- In a part of a map an insertion of what the map has at a key is found.
pub emplace-found :
    (key : Bytes) (e : EntryInfo) (m by_path : PathMap)
    → Grows m by_path
    → find key by_path ≡ some e
    → find key (emplace key e m) ≡ some e
emplace-found key e m by_path part at_key = elim (emplace_cases key e m) [
  | inl (absent, inserted) ↦ rw inserted (find-insert_same key e m absent)
  | inr (y, found, left) ↦ rw left (found ∙ (sym (part key y found) ∙ at_key))
]

-- A part of a map that takes such a node stays a part of it.
pub emplace-part :
    (key : Bytes) (e : EntryInfo) (m by_path : PathMap)
    → Grows m by_path
    → find key by_path ≡ some e
    → Grows (emplace key e m) by_path
emplace-part key e m by_path part at_key k x there = elim (find-emplace key e m k x there) [
  | inl before ↦ part k x before
  | inr (same, same') ↦ ap (λ c. find c by_path) same ∙ (at_key ∙ ap some (sym same'))
]

insert_sorted-All :
    (P : Bytes × EntryInfo → Type 0) (key : Bytes) (e : EntryInfo) (m : PathMap)
    → P (key, e)
    → All P m
    → All P (insert_sorted key e m)
unfolding insert_sorted
insert_sorted-All P key e [] p ps = (p, tt)
insert_sorted-All P key e ((here, other) ∷ m) p (q, qs) =
    go (key_less key here) (insert_sorted-All P key e m p qs)
  where
    go :
        (b : Bool)
        → All P (insert_sorted key e m)
        → All P (if b then (key, e) ∷ (here, other) ∷ m else (here, other) ∷ insert_sorted key e m)
    go true rest = (p, (q, qs))
    go false rest = (q, rest)

All-weaken :
    (P Q : Bytes × EntryInfo → Type 0) (m : PathMap)
    → ((node : Bytes × EntryInfo) → P node → Q node)
    → All P m
    → All Q m
All-weaken P Q [] f ps = tt
All-weaken P Q (node ∷ m) f (p, ps) = (f node p, All-weaken P Q m f ps)

pub emplace-IsMap : (key : Bytes) (e : EntryInfo) (m : PathMap) → IsMap m → IsMap (emplace key e m)
emplace-IsMap key e m nodes =
    let more =
      All-weaken (λ node. find node.0 m ≡ some node.1)
        (λ node. find node.0 (emplace key e m) ≡ some node.1) m
        (λ node there. emplace-Grows key e m node.0 node.1 there) nodes in
    elim (emplace_cases key e m) [
      | inr (y, found, left) ↦
          subst (λ n. All (λ node. find node.0 (emplace key e m) ≡ some node.1) n) (sym left) more
      | inl (absent, inserted) ↦
          subst (λ n. All (λ node. find node.0 (emplace key e m) ≡ some node.1) n) (sym inserted)
            (insert_sorted-All (λ node. find node.0 (emplace key e m) ≡ some node.1) key e m
              (ap (find key) inserted ∙ find-insert_same key e m absent) more)
    ]
