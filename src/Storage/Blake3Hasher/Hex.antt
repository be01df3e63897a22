-- ===== src/Storage/Blake3Hasher/Hex.antt =====
-- `to_hex` writes 64 lowercase digits, from which the digest can be read back.
use file_vault.Common.{
  ℕ, zero, suc, ◌+◌, ◌-◌, ◌*◌, ◌/◌, ◌%◌, ◌<◌, ◌≡◌, refl, sym, ap, ◌∙◌, Bool, true, ◌&&◌, [], ◌∷◌,
  Bytes, length, All, all, arith, leb, ◌==◌, nat_eq, nat_beq_iff, if◌then◌else◌,
}
use file_vault.Storage.Blake3Hasher.{
  char_at, hexadecimal, to_hex, is_lowercase_hex, is_lowercase_blake3_hex, digest_size,
}

-- The value of a hexadecimal digit, as `std::stoul` with base 16 reads it.
unfoldable pub hex_value : ℕ → ℕ
hex_value c = if leb c b'9' then c - b'0' else c - b'a' + 10

every_digit : (ℕ → Bool) → ℕ → Bool
every_digit test zero = true
every_digit test (suc bound) = every_digit test bound && test bound

every_digit_lem :
    (test : ℕ → Bool) (bound v : ℕ) → v < bound → every_digit test bound ≡ true → test v ≡ true
unfolding every_digit
every_digit_lem test zero v small all = absurd (omega arith)
every_digit_lem test (suc bound) v small all = ground (arith, every_digit_lem test bound v)

digit_table :
    every_digit
      (λ v. is_lowercase_hex (char_at hexadecimal v) && hex_value (char_at hexadecimal v) == v)
      16
    ≡ true
unfolding every_digit char_at hex_value
digit_table = refl

digit_facts :
    (v : ℕ)
    → v < 16
    → (is_lowercase_hex (char_at hexadecimal v) ≡ true) × (hex_value (char_at hexadecimal v) ≡ v)
digit_facts v h = both (every_digit_lem _ 16 v h digit_table)
  where
    both :
        (is_lowercase_hex (char_at hexadecimal v) && hex_value (char_at hexadecimal v) == v) ≡ true
        → (is_lowercase_hex (char_at hexadecimal v) ≡ true)
          × (hex_value (char_at hexadecimal v) ≡ v)
    both e = ground (arith, nat_beq_iff (hex_value (char_at hexadecimal v)) v)

pub length-to_hex : (digest : Bytes) → length (to_hex digest) ≡ length digest * 2
unfolding to_hex
length-to_hex [] = refl
length-to_hex (value ∷ digest) = omega (arith, length-to_hex digest)

digits_of_byte : (v : ℕ) → v < 256 → (v / 16 < 16) × (v % 16 < 16)
digits_of_byte v h = omega arith

all-to_hex :
    (digest : Bytes) → All (λ x. x < 256) digest → all is_lowercase_hex (to_hex digest) ≡ true
unfolding to_hex
all-to_hex [] h = refl
all-to_hex (value ∷ digest) h =
    rw ((digit_facts (value / 16) (omega arith)).0, (digit_facts (value % 16) (omega arith)).0)
      (all-to_hex digest h.1)

-- The digits of 32 bytes, each below 256, pass `is_lowercase_blake3_hex`.
pub is_lowercase_blake3_hex-to_hex :
    (digest : Bytes)
    → length digest ≡ digest_size
    → All (λ x. x < 256) digest
    → is_lowercase_blake3_hex (to_hex digest) ≡ true
unfolding is_lowercase_blake3_hex
is_lowercase_blake3_hex-to_hex digest n h =
    let size : length (to_hex digest) ≡ 64 = omega (arith, length-to_hex digest) in
    rw (size, all-to_hex digest h) refl

-- Two digits at a time.
pub from_hex : Bytes → Bytes
from_hex [] = []
from_hex (x ∷ []) = []
from_hex (x ∷ y ∷ text) = (hex_value x * 16 + hex_value y) ∷ from_hex text

from_hex-to_hex : (digest : Bytes) → All (λ x. x < 256) digest → from_hex (to_hex digest) ≡ digest
unfolding to_hex from_hex
from_hex-to_hex [] h = refl
from_hex-to_hex (value ∷ digest) h =
    let hi = (digit_facts (value / 16) (omega arith)).1 in
    let lo = (digit_facts (value % 16) (omega arith)).1 in
    let joined : value / 16 * 16 + value % 16 ≡ value = omega arith in
    rw (hi, lo, joined, from_hex-to_hex digest h.1) refl

-- Digests of bytes below 256 have the same digits only if they are the same.
pub to_hex-injective :
    (a b : Bytes) → All (λ x. x < 256) a → All (λ x. x < 256) b → to_hex a ≡ to_hex b → a ≡ b
to_hex-injective a b ha hb e = sym (from_hex-to_hex a ha) ∙ ap from_hex e ∙ from_hex-to_hex b hb
