-- ===== src/Tests/Rules.antt =====
-- Ignore rules on concrete names.
use file_vault.Common.{◌≡◌, refl, Bool, true, false, [], ◌∷◌, codes, ok}
use file_vault.Filesystem.IgnoreRules.{
  IgnoreRules, sensitive, match_component, match, normalize_separators, load, regular, read_lines,
  get_lines, add_pattern, match_loop, equal_literal, next_character, character_length, only_stars,
}
use file_vault.Filesystem.IgnoreRules.Glob.{
  Matches, match_component-Matches, match_component-Returns,
}
use file_vault.Filesystem.IgnoreRules.Applied.{Decides, Some, Applies, match-Decides}

abbrev rules : IgnoreRules
rules = record {
  patterns =
      record { text = codes "*.log"; name_only = true; directory_only = false }
      ∷ record { text = codes "build"; name_only = true; directory_only = true }
      ∷ [];
  case_sensitivity = sensitive;
}

-- The rules as a file states them.
loaded : load false (regular (codes "# logs\n*.log\r\n\nbuild/\n")) sensitive ≡ ok rules
unfolding load read_lines get_lines add_pattern
loaded = refl

accepted : match_component sensitive (codes "a*b?") (codes "axbyybz") ≡ ok true
unfolding match_component match_loop equal_literal next_character character_length only_stars
accepted = refl

match_component-Matches_example : Matches sensitive (codes "a*b?") (codes "axbyybz")
match_component-Matches_example =
    match_component-Matches sensitive (codes "a*b?") (codes "axbyybz") accepted

match_component-Returns_example :
    (b : Bool) × (match_component sensitive (codes "*a*b") (codes "aaaa") ≡ ok b)
match_component-Returns_example = match_component-Returns sensitive (codes "*a*b") (codes "aaaa")

match-Decides_example :
    Decides sensitive false
      (Some (Applies sensitive (normalize_separators (codes "x\\y.log")) false) rules.patterns)
      (match rules (codes "x\\y.log") false)
match-Decides_example = match-Decides rules (codes "x\\y.log") false
