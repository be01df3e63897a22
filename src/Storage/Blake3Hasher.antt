-- ===== src/Storage/Blake3Hasher.antt =====
-- src/core/storage/blake3_hasher.hpp and blake3_hasher.cpp. The BLAKE3 library is a parameter; its
-- laws are what blake3.h documents.
pub mod Hex
use file_vault.Common.{
  ℕ, zero, suc, ltb, leb, ◌==◌, nat_eq, all, ◌&&◌, ◌||◌, ◌+◌, ◌*◌, ◌/◌, ◌%◌, ◌≤◌, ◌<◌, ◌≡◌, Bool,
  Option, none, some, List, [], ◌∷◌, ◌++◌, Bytes, length, codes, All,
}

abbrev pub digest_size : ℕ
digest_size = 32

-- `blake3_hasher_init`, `_update` and `_finalize` with `BLAKE3_OUT_LEN` bytes of output.
pub record Blake3 : Type 1 where
  pub State : Type 0
  pub init : State
  pub absorb : State → Bytes → State
  pub finish : State → Bytes

pub record Blake3Laws (b : Blake3) : Type 0 where
  -- absorbing two inputs in turn is absorbing the one after the other
  pub absorb_append : (s : b.State) (x y : Bytes) → b.absorb (b.absorb s x) y ≡ b.absorb s (x ++ y)
  pub absorb_nil : (s : b.State) → b.absorb s [] ≡ s
  pub length_lem : (s : b.State) → length (b.finish s) ≡ digest_size
  pub bytes : (s : b.State) → All (λ x. x < 256) (b.finish s)

module _ (b : Blake3) where
  -- `impl_` is empty in a hasher that was moved from
  pub record Blake3Hasher : Type 0 where
    pub impl : Option b.State

  unfoldable pub new_hasher : Blake3Hasher
  new_hasher = record { impl = some b.init }

  unfoldable pub update_impl : b.State → Bytes → b.State
  update_impl state [] = state
  update_impl state (x ∷ xs) = b.absorb state (x ∷ xs)

  -- none is the `std::logic_error` of a moved-from hasher
  unfoldable pub update : Blake3Hasher → Bytes → Option Blake3Hasher
  unfolding update_impl
  update hasher bytes = elim hasher.impl [
    | none ↦ none
    | some state ↦ some (record { impl = some (update_impl state bytes) })
  ]

  unfoldable pub finalize : Blake3Hasher → Option Bytes
  finalize hasher = elim hasher.impl [ none ↦ none | some state ↦ some (b.finish state) ]

abbrev pub hexadecimal : Bytes
hexadecimal = codes "0123456789abcdef"

-- hexadecimal[index]
pub char_at : Bytes → ℕ → ℕ
char_at [] i = 0
char_at (c ∷ text) zero = c
char_at (c ∷ text) (suc i) = char_at text i

unfoldable pub to_hex : Bytes → Bytes
unfolding char_at
to_hex [] = []
to_hex (value ∷ digest) =
    char_at hexadecimal (value / 16) ∷ char_at hexadecimal (value % 16) ∷ to_hex digest

-- `is_lowercase_blake3_hex` of the metadata store and of the restore engine
abbrev pub is_lowercase_hex : ℕ → Bool
is_lowercase_hex character =
    (leb b'0' character && leb character b'9') || (leb b'a' character && leb character b'f')

unfoldable pub is_lowercase_blake3_hex : Bytes → Bool
is_lowercase_blake3_hex value = length value == digest_size * 2 && all is_lowercase_hex value
