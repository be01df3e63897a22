-- ===== src/Filesystem/IgnoreRules.antt =====
-- src/core/filesystem/ignore_rules.hpp and ignore_rules.cpp. A string with an offset into it is modelled by
-- what lies behind the offset.
pub mod Applied
pub mod Glob
use file_vault.Common.{
  ℕ, zero, suc, ◌+◌, ◌-◌, ◌*◌, ◌/◌, ◌≡◌, Bool, true, false, not, ◌&&◌, ◌||◌, Option, none, some,
  List, [], ◌∷◌, ◌++◌, Bytes, map, codes, length, drop, any, ltb, leb, ◌==◌, nat_eq, if◌then◌else◌,
  Result, ok, err, out_of_fuel, filesystem_error,
}
use file_vault.Common.Checked.{◌>>=◌}

pub data IgnoreCaseSensitivity : Type 0 where
  sensitive insensitive : IgnoreCaseSensitivity

pub record IgnoreMatchResult : Type 0 where
  pub ignored : Bool
  pub prune_directory : Bool

pub record Pattern : Type 0 where
  pub text : Bytes
  pub name_only : Bool
  pub directory_only : Bool

pub record IgnoreRules : Type 0 where
  pub patterns : List Pattern
  pub case_sensitivity : IgnoreCaseSensitivity

abbrev pub separator : ℕ
separator = b'/'

abbrev pub star : ℕ
star = b'*'

abbrev pub question : ℕ
question = b'?'

unfoldable pub normalize_separators : Bytes → Bytes
normalize_separators path =
    map (λ character. if character == b'\\' then separator else character) path

fold_ascii : ℕ → ℕ
fold_ascii character =
    if leb b'A' character && leb character b'Z' then character + (b'a' - b'A') else character

is_sensitive : IgnoreCaseSensitivity → Bool
is_sensitive sensitive = true
is_sensitive insensitive = false

unfoldable pub equal_literal : ℕ → ℕ → IgnoreCaseSensitivity → Bool
unfolding fold_ascii is_sensitive
equal_literal left right case_sensitivity =
    if left == right || is_sensitive case_sensitivity
    then left == right
    else fold_ascii left == fold_ascii right

-- The bit tests on the first byte; a byte is below 256.
unfoldable pub character_length : ℕ → ℕ
character_length first =
    if first / 32 == 6 then 2 else if first / 16 == 14 then 3 else if first / 8 == 30 then 4 else 1

-- What `next_character` leaves.
unfoldable pub next_character : Bytes → Bytes
next_character [] = []
next_character (first ∷ text) = drop (character_length first) (first ∷ text)

-- The loop on trailing stars.
unfoldable pub only_stars : Bytes → Bool
only_stars [] = true
only_stars (c ∷ pattern) = c == star && only_stars pattern

-- The last star: what follows it in the pattern, and where the name was taken up.
abbrev pub Star : Type 0
Star = Option (Bytes × Bytes)

starts_with : ℕ → Bytes → Bool
starts_with c [] = false
starts_with c (d ∷ pattern) = d == c

abbrev retry : Star → (Bytes → Bytes → Star → Result Bool) → Result Bool
retry none continue = ok false
retry (some (star_pattern, star_name)) continue =
    continue star_pattern (next_character star_name) (some (star_pattern, next_character star_name))

-- `steps` for one start from a star, `count` stars and restarts
abbrev pub total_steps : ℕ → ℕ → ℕ
total_steps steps zero = 0
total_steps steps (suc count) = steps + total_steps steps count

-- The parts between separators: the first, and those behind it.
abbrev pub cons_to_first : ℕ → Bytes × List Bytes → Bytes × List Bytes
cons_to_first c (first, rest) = (c ∷ first, rest)

abbrev pub after_separator : Bytes × List Bytes → Bytes × List Bytes
after_separator (first, rest) = ([], first ∷ rest)

unfoldable pub split : Bytes → Bytes × List Bytes
split [] = ([], [])
split (c ∷ text) =
    let parts = split text in
    if c == separator then after_separator parts else cons_to_first c parts

abbrev when : Bool → Result Bool → Result Bool
when true next = next
when false next = ok false

module _ (case_sensitivity : IgnoreCaseSensitivity) where
  literal_here : Bytes → ℕ → Bool
  literal_here [] first = false
  literal_here (c ∷ pattern) first = equal_literal c first case_sensitivity

  -- The loop of `match_component`.
  unfoldable pub match_loop : ℕ → Bytes → Bytes → Star → Result Bool
  unfolding literal_here starts_with
  match_loop fuel pattern [] last = ok (only_stars pattern)
  match_loop zero pattern (first ∷ name) last = out_of_fuel
  match_loop (suc fuel) pattern (first ∷ name) last =
      let continue = match_loop fuel in
      if starts_with question pattern
      then continue (drop 1 pattern) (next_character (first ∷ name)) last
      else if starts_with star pattern
      then continue (drop 1 pattern) (first ∷ name) (some (drop 1 pattern, first ∷ name))
      else if literal_here pattern first
      then continue (drop 1 pattern) name last
      else retry last continue

  unfoldable pub match_component : Bytes → Bytes → Result Bool
  match_component pattern name =
      match_loop
        (suc (total_steps (suc (length name)) (suc (length name + length pattern)) + length name))
        pattern name none

  unfoldable pub match_parts : Bytes → List Bytes → Bytes → List Bytes → Result Bool
  match_parts pattern (p ∷ ps) name (n ∷ ns) = do
    matched ← match_component pattern name
    when matched (match_parts p ps n ns)
  match_parts pattern [] name [] = do matched ← match_component pattern name; when matched (ok true)
  match_parts pattern _ name _ = do matched ← match_component pattern name; when matched (ok false)

  unfoldable pub match_path : Bytes → Bytes → Result Bool
  unfolding split
  match_path pattern path =
      let (p, ps) = split pattern in let (n, ns) = split path in match_parts p ps n ns

last_part : Bytes → List Bytes → Bytes
last_part first [] = first
last_part first (second ∷ rest) = last_part second rest

unfoldable pub name_of : Bytes → Bytes
unfolding split last_part
name_of path = let (first, rest) = split path in last_part first rest

-- `line.back()`, and the rest of the line
abbrev pub ends_with : ℕ → Bytes → Bool
ends_with c [] = false
ends_with c (d ∷ []) = d == c
ends_with c (d ∷ e ∷ line) = ends_with c (e ∷ line)

abbrev pub pop_back : Bytes → Bytes
pop_back [] = []
pop_back (d ∷ []) = []
pop_back (d ∷ e ∷ line) = d ∷ pop_back (e ∷ line)

abbrev pub is_blank : Bytes → Bool
is_blank [] = true
is_blank (c ∷ line) = false

-- std::getline: the pieces that end in a newline, and what is left behind the last, unless it is empty.
abbrev pub end_line : Bytes → List Bytes → List Bytes
end_line [] lines = lines
end_line (c ∷ line) lines = (c ∷ line) ∷ lines

unfoldable pub get_lines : Bytes → Bytes → List Bytes
get_lines line [] = end_line line []
get_lines line (c ∷ text) =
    let rest = get_lines [] text in
    let longer = get_lines (line ++ c ∷ []) text in if c == b'\n' then line ∷ rest else longer

starts_comment : Bytes → Bool
starts_comment [] = true
starts_comment (c ∷ line) = c == b'#'

-- The loop of `read_lines`.
unfoldable pub read_lines : List Bytes → List Bytes
unfolding starts_comment
read_lines [] = []
read_lines (line ∷ lines) =
    let kept = if ends_with b'\r' line then pop_back line else line in
    let rest = read_lines lines in if starts_comment kept then rest else kept ∷ rest

-- One pass of the loop in `load`.
unfoldable pub add_pattern : Bytes → List Pattern → List Pattern
unfolding normalize_separators
add_pattern line patterns =
    let normalized = normalize_separators line in
    let directory_only = ends_with separator normalized in
    let text = if directory_only then pop_back normalized else normalized in
    if is_blank text
    then patterns
    else record {
      text = text;
      name_only = not (any (λ c. c == separator) text);
      directory_only = directory_only;
    }
      ∷ patterns

load_patterns : List Bytes → List Pattern
load_patterns [] = []
load_patterns (line ∷ lines) = add_pattern line (load_patterns lines)

-- What `status` finds at the path of the ignore file; `unreadable` does not open or fails while read.
pub data IgnoreFile : Type 0 where
  no_such_file failed not_found irregular unreadable : IgnoreFile
  regular : Bytes → IgnoreFile

unfoldable pub load : Bool → IgnoreFile → IgnoreCaseSensitivity → Result IgnoreRules
unfolding load_patterns
load false no_such_file case_sensitivity =
    ok (record { patterns = []; case_sensitivity = case_sensitivity })
load false not_found case_sensitivity =
    ok (record { patterns = []; case_sensitivity = case_sensitivity })
load replacement (regular content) case_sensitivity = ok (record {
  patterns = load_patterns (read_lines (get_lines [] content));
  case_sensitivity = case_sensitivity;
})
load replacement file case_sensitivity = err filesystem_error

-- The loop of `IgnoreRules::match`, on the normalized path.
unfoldable pub match_patterns :
    IgnoreCaseSensitivity → List Pattern → Bytes → Bool → Result IgnoreMatchResult
match_patterns case_sensitivity [] normalized is_directory =
    ok (record { ignored = false; prune_directory = false })
match_patterns case_sensitivity (pattern ∷ patterns) normalized is_directory =
    let rest = match_patterns case_sensitivity patterns normalized is_directory in
    let candidate = if pattern.name_only then name_of normalized else normalized in
    if pattern.directory_only && not is_directory
    then rest
    else (match_path case_sensitivity pattern.text candidate >>= λ matched.
        if matched then ok (record { ignored = true; prune_directory = is_directory }) else rest)

unfoldable pub match : IgnoreRules → Bytes → Bool → Result IgnoreMatchResult
match rules repository_relative_path is_directory =
    match_patterns rules.case_sensitivity rules.patterns
      (normalize_separators repository_relative_path) is_directory
