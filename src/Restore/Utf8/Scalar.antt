-- ===== src/Restore/Utf8/Scalar.antt =====
-- The texts that `is_valid_utf8` accepts, against the encoding of Unicode scalar values.
use file_vault.Common.{
  ℕ, zero, suc, ◌+◌, ◌/◌, ◌%◌, ◌≤◌, ◌<◌, ◌≡◌, refl, ◌∙◌, ◌⊎◌, inl, inr, true, List, [], ◌∷◌, ◌++◌,
  Bytes, length, All, ltb, nat_eq, if◌then◌else◌, arith, Bool-cases, length-append,
}
use file_vault.Restore.Utf8.{sequence_length, is_excluded, sequence_here, valid_from, is_valid_utf8}

-- The encoding of a scalar value in UTF-8.
unfoldable pub encode : ℕ → Bytes
encode v =
    if ltb v 0x80
    then v ∷ []
    else if ltb v 0x800
    then (0xC0 + v / 64) ∷ (0x80 + v % 64) ∷ []
    else if ltb v 0x10000
    then (0xE0 + v / 4096) ∷ (0x80 + v / 64 % 64) ∷ (0x80 + v % 64) ∷ []
    else (0xF0 + v / 262144) ∷ (0x80 + v / 4096 % 64) ∷ (0x80 + v / 64 % 64) ∷ (0x80 + v % 64) ∷ []

unfoldable pub encode_all : List ℕ → Bytes
encode_all [] = []
encode_all (v ∷ vs) = encode v ++ encode_all vs

-- A code point that is no surrogate.
abbrev pub IsScalar : ℕ → Type 0
IsScalar v = (v < 0x110000) × ((v < 0xD800) ⊎ (0xE000 ≤ v))

one_byte :
    (fuel a : ℕ) (rest : Bytes) → a < 0x80 → valid_from (suc fuel) (a ∷ rest) ≡ valid_from fuel rest
unfolding valid_from
one_byte fuel a rest h = ground arith

two_bytes :
    (fuel a b : ℕ) (rest : Bytes)
    → 0xC2 ≤ a
    → a ≤ 0xDF
    → b / 64 ≡ 2
    → valid_from (suc fuel) (a ∷ b ∷ rest) ≡ valid_from fuel rest
unfolding valid_from sequence_length sequence_here is_excluded
two_bytes fuel a b rest lo hi hb = ground arith

three_bytes :
    (fuel a b c : ℕ) (rest : Bytes)
    → 0xE0 ≤ a
    → a ≤ 0xEF
    → b / 64 ≡ 2
    → c / 64 ≡ 2
    → (a ≡ 0xE0 → 0xA0 ≤ b)
    → (a ≡ 0xED → b ≤ 0x9F)
    → valid_from (suc fuel) (a ∷ b ∷ c ∷ rest) ≡ valid_from fuel rest
unfolding valid_from sequence_length sequence_here is_excluded
three_bytes fuel a b c rest lo hi hb hc he hd = ground arith

four_bytes :
    (fuel a b c d : ℕ) (rest : Bytes)
    → 0xF0 ≤ a
    → a ≤ 0xF4
    → b / 64 ≡ 2
    → c / 64 ≡ 2
    → d / 64 ≡ 2
    → (a ≡ 0xF0 → 0x90 ≤ b)
    → (a ≡ 0xF4 → b ≤ 0x8F)
    → valid_from (suc fuel) (a ∷ b ∷ c ∷ d ∷ rest) ≡ valid_from fuel rest
unfolding valid_from sequence_length sequence_here is_excluded
four_bytes fuel a b c d rest lo hi hb hc hd h0 h4 = ground arith

valid-encode :
    (fuel v : ℕ) (rest : Bytes)
    → IsScalar v
    → valid_from (suc fuel) (encode v ++ rest) ≡ valid_from fuel rest
unfolding encode
valid-encode fuel v rest (max, gap) = elim (Bool-cases (ltb v 0x80)) [
  | inl a ↦ rw a (one_byte fuel v rest (ground arith))
  | inr a ↦ elim (Bool-cases (ltb v 0x800)) [
    | inl b ↦
        let lo : 0x80 ≤ v = ground arith in
        let hi : v < 0x800 = ground arith in
        rw (a, b)
          (two_bytes fuel (0xC0 + v / 64) (0x80 + v % 64) rest (omega arith) (omega arith)
            (omega arith))
    | inr b ↦ elim (Bool-cases (ltb v 0x10000)) [
      | inl c ↦
          let lo : 0x800 ≤ v = ground arith in
          let hi : v < 0x10000 = ground arith in
          rw (a, b, c)
            (three_bytes fuel (0xE0 + v / 4096) (0x80 + v / 64 % 64) (0x80 + v % 64) rest
              (omega arith) (omega arith) (omega arith) (omega arith) (λ e. omega arith)
              (λ e. surrogates v e gap))
      | inr c ↦
          let lo : 0x10000 ≤ v = ground arith in
          rw (a, b, c)
            (four_bytes fuel (0xF0 + v / 262144) (0x80 + v / 4096 % 64) (0x80 + v / 64 % 64)
              (0x80 + v % 64) rest (omega arith) (omega arith) (omega arith) (omega arith)
              (omega arith) (λ e. omega arith) (λ e. omega arith))
    ]
  ]
]
  where
    surrogates :
        (v : ℕ) → 0xE0 + v / 4096 ≡ 0xED → (v < 0xD800) ⊎ (0xE000 ≤ v) → 0x80 + v / 64 % 64 ≤ 0x9F
    surrogates v e (inl low) = omega arith
    surrogates v e (inr high) = omega arith

length-encode : (v : ℕ) → 0 < length (encode v)
unfolding encode
length-encode v = ground arith

valid_from-encode_all :
    (fuel : ℕ) (vs : List ℕ)
    → All IsScalar vs
    → length (encode_all vs) ≤ fuel
    → valid_from fuel (encode_all vs) ≡ true
unfolding encode_all
valid_from-encode_all fuel [] h n = unfold valid_from in refl
valid_from-encode_all zero (v ∷ vs) h n =
    absurd (omega (arith, length-append (encode v) (encode_all vs), length-encode v))
valid_from-encode_all (suc fuel) (v ∷ vs) h n =
    valid-encode fuel v (encode_all vs) h.0
    ∙ valid_from-encode_all fuel vs h.1
        (omega (arith, length-append (encode v) (encode_all vs), length-encode v))

-- `is_valid_utf8` accepts the UTF-8 encoding of every sequence of Unicode scalar values.
pub is_valid_utf8-encode_all :
    (vs : List ℕ) → All IsScalar vs → is_valid_utf8 (encode_all vs) ≡ true
unfolding is_valid_utf8
is_valid_utf8-encode_all vs h = valid_from-encode_all (length (encode_all vs)) vs h (omega arith)
