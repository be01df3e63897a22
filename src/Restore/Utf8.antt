-- ===== src/Restore/Utf8.antt =====
-- `is_valid_utf8` of src/core/restore_engine.cpp. An index into the text is modelled by what lies behind it,
-- and a bit test on a byte, which is below 256, by a quotient.
pub mod Scalar
use file_vault.Common.{
  ℕ, zero, suc, ◌+◌, ◌-◌, ◌*◌, ◌/◌, ◌≡◌, Bool, true, false, not, ◌&&◌, ◌||◌, Option, none, some,
  List, [], ◌∷◌, ◌++◌, Bytes, length, drop, take, all, ltb, leb, ◌==◌, nat_eq, if◌then◌else◌,
}

-- The length that the first byte of a sequence above 0x7F tells, or none.
unfoldable pub sequence_length : ℕ → Option ℕ
sequence_length first =
    if leb 0xC2 first && leb first 0xDF
    then some 2
    else if leb 0xE0 first && leb first 0xEF
    then some 3
    else if leb 0xF0 first && leb first 0xF4
    then some 4
    else none

-- (byte & 0xC0) == 0x80
abbrev pub is_continuation : ℕ → Bool
is_continuation byte = byte / 64 == 2

-- The four tests on the byte behind the first.
unfoldable pub is_excluded : ℕ → Bytes → Bool
is_excluded first [] = false
is_excluded first (second ∷ rest) =
    (first == 0xE0 && ltb second 0xA0)
    || (first == 0xED && ltb 0x9F second)
    || (first == 0xF0 && ltb second 0x90)
    || (first == 0xF4 && ltb 0x8F second)

-- The tests on a sequence of known length, whose first byte is followed by `rest`.
unfoldable pub sequence_here : Option ℕ → ℕ → Bytes → Bool
sequence_here none first rest = false
sequence_here (some count) first rest =
    leb count (suc (length rest))
    && all is_continuation (take (count - 1) rest)
    && not (is_excluded first rest)

abbrev pub skipped : Option ℕ → Bytes → Bytes
skipped none rest = rest
skipped (some count) rest = drop (count - 1) rest

-- The loop; each pass goes at least one byte on, so that the length of the text is enough fuel.
unfoldable pub valid_from : ℕ → Bytes → Bool
valid_from fuel [] = true
valid_from zero (first ∷ rest) = false
valid_from (suc fuel) (first ∷ rest) =
    let ascii = valid_from fuel rest in
    let longer = valid_from fuel (skipped (sequence_length first) rest) in
    if leb first 0x7F then ascii else sequence_here (sequence_length first) first rest && longer

unfoldable pub is_valid_utf8 : Bytes → Bool
is_valid_utf8 text = valid_from (length text) text
