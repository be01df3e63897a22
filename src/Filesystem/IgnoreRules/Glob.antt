-- ===== src/Filesystem/IgnoreRules/Glob.antt =====
-- The patterns of ignore files as `match_component` reads them.
use mathlib.Core.Path.{subst}
use file_vault.Common.{
  ℕ, zero, suc, ◌+◌, ◌-◌, ◌≤◌, ◌<◌, ◌≡◌, refl, sym, ◌⊎◌, inl, inr, Bool, true, false, none, some,
  [], ◌∷◌, Bytes, length, drop, length-drop, ◌==◌, nat_eq, nat_beq_iff, if◌then◌else◌, Result, ok,
  arith, if-cases,
}
use file_vault.Filesystem.IgnoreRules.{
  IgnoreCaseSensitivity, equal_literal, next_character, character_length, only_stars, star,
  question, Star, match_loop, match_component, total_steps, retry,
}

-- A star stands for any number of characters, a question mark for one, and any other byte for itself.
pub data Matches (s : IgnoreCaseSensitivity) : Bytes → Bytes → Type 0 where
  finished : Matches s [] []
  empty_star : {p n : Bytes} → Matches s p n → Matches s (star ∷ p) n
  longer_star : {p n : Bytes} → Matches s (star ∷ p) (next_character n) → Matches s (star ∷ p) n
  any_character :
      {d : ℕ} {p n : Bytes}
      → Matches s p (next_character (d ∷ n))
      → Matches s (question ∷ p) (d ∷ n)
  literal :
      {c d : ℕ} {p n : Bytes}
      → equal_literal c d s ≡ true
      → Matches s p n
      → Matches s (c ∷ p) (d ∷ n)

module _ (s : IgnoreCaseSensitivity) where
  only_stars-Matches : (p : Bytes) → only_stars p ≡ true → Matches s p []
  unfolding only_stars
  only_stars-Matches [] e = finished
  only_stars-Matches (c ∷ p) e =
      let same : c ≡ star = ground arith in
      subst (λ x. Matches s (x ∷ p) []) (sym same)
        (empty_star (only_stars-Matches p (ground arith)))

  abbrev pub FromStar : Star → Type 0
  FromStar none = true ≡ false
  FromStar (some (p, n)) = Matches s (star ∷ p) n

  -- What a call of the loop may claim.
  abbrev Claim : (Bytes → Bytes → Star → Result Bool) → Type 0
  Claim continue =
      (p n : Bytes) (last : Star) → continue p n last ≡ ok true → Matches s p n ⊎ FromStar last

  retry-FromStar :
      (continue : Bytes → Bytes → Star → Result Bool) (last : Star)
      → Claim continue
      → retry last continue ≡ ok true
      → FromStar last
  retry-FromStar continue none claim e = absurd (ground arith)
  retry-FromStar continue (some (p, n)) claim e =
      elim (claim p (next_character n) (some (p, next_character n)) e) [
        | inl m ↦ longer_star (empty_star m)
        | inr m ↦ longer_star m
      ]

  as_star :
      (c : ℕ) (p n : Bytes) → (c == star) ≡ true → Matches s (star ∷ p) n → Matches s (c ∷ p) n
  as_star c p n e m = subst (λ x. Matches s (x ∷ p) n) (sym ((nat_beq_iff c star).0 e)) m

  pub match_loop-Matches : (fuel : ℕ) → Claim (match_loop s fuel)
  unfolding match_loop
  match_loop-Matches fuel p [] last e = inl (only_stars-Matches p (ok-injective e))
    where
      ok-injective : {a b : Bool} → ok a ≡ ok b → a ≡ b
      ok-injective q = cc
  match_loop-Matches zero p (d ∷ n) last e = cc
  match_loop-Matches (suc fuel) [] (d ∷ n) last e =
      inr (retry-FromStar (match_loop s fuel) last (match_loop-Matches fuel) e)
  match_loop-Matches (suc fuel) (c ∷ p) (d ∷ n) last e = elim (if-cases (c == question) _ _ _ e) [
    | inl (q, e1) ↦ elim (match_loop-Matches fuel p (next_character (d ∷ n)) last e1) [
      | inl m ↦ inl (
          subst (λ x. Matches s (x ∷ p) (d ∷ n)) (sym ((nat_beq_iff c question).0 q))
            (any_character m))
      | inr m ↦ inr m
    ]
    | inr (_, e1) ↦ elim (if-cases (c == star) _ _ _ e1) [
      | inl (q, e2) ↦ elim (match_loop-Matches fuel p (d ∷ n) (some (p, d ∷ n)) e2) [
        | inl m ↦ inl (as_star c p (d ∷ n) q (empty_star m))
        | inr m ↦ inl (as_star c p (d ∷ n) q m)
      ]
      | inr (_, e2) ↦ elim (if-cases (equal_literal c d s) _ _ _ e2) [
        | inl (q, e3) ↦ elim (match_loop-Matches fuel p n last e3) [
          | inl m ↦ inl (literal q m)
          | inr m ↦ inr m
        ]
        | inr (_, e3) ↦ inr (retry-FromStar (match_loop s fuel) last (match_loop-Matches fuel) e3)
      ]
    ]
  ]

  -- A name that `match_component` accepts is one that the pattern stands for.
  pub match_component-Matches :
      (pattern name : Bytes) → match_component s pattern name ≡ ok true → Matches s pattern name
  unfolding match_component
  match_component-Matches pattern name e = elim (match_loop-Matches _ pattern name none e) [
    | inl m ↦ m
    | inr x ↦ absurd (ground arith)
  ]

drop-shorter : (k : ℕ) (n : Bytes) → length (drop k n) ≤ length n
drop-shorter k n = omega (arith, length-drop k n)

character_length-positive : (c : ℕ) → 0 < character_length c
unfolding character_length
character_length-positive c = ground arith

next_character-shorter : (n : Bytes) → length (next_character n) ≤ length n - 1
unfolding next_character
next_character-shorter [] = omega arith
next_character-shorter (c ∷ n) =
    omega (arith, length-drop (character_length c) (c ∷ n), character_length-positive c)

-- `count` bounds the stars and restarts to come.
abbrev Within : Star → ℕ → Bytes → Bytes → ℕ → Type 0
Within none size p n count = (length n ≤ size) × (size + length p < count)
Within (some (sp, sn)) size p n count =
    (length sn ≤ size)
    × (length n ≤ length sn)
    × (length p ≤ length sp)
    × (length sn + length sp < count)

Within-step :
    (last : Star) (size : ℕ) (p n q m : Bytes) (count : ℕ)
    → length q ≤ length p
    → length m ≤ length n
    → Within last size p n count
    → Within last size q m count
Within-step none size p n q m count hp hn w = (omega arith, omega arith)
Within-step (some (sp, sn)) size p n q m count hp hn w = (w.0, omega arith, omega arith, w.3)

Within-star :
    (last : Star) (size : ℕ) (c : ℕ) (p n : Bytes) (count : ℕ)
    → Within last size (c ∷ p) n (suc count)
    → Within (some (p, n)) size p n count
Within-star none size c p n count w = (w.0, omega arith, omega arith, omega arith)
Within-star (some (sp, sn)) size c p n count w =
    (omega arith, omega arith, omega arith, omega arith)

-- The call comes to a result.
abbrev Returns : Result Bool → Type 0
Returns r = (b : Bool) × (r ≡ ok b)

if-Returns : (b : Bool) (x y : Result Bool) → Returns x → Returns y → Returns (if b then x else y)
if-Returns true x y hx hy = hx
if-Returns false x y hx hy = hy

module _ (s : IgnoreCaseSensitivity) (size fuel : ℕ) where
  -- What the calls with `fuel` are known to do.
  abbrev Enough : Type 0
  Enough =
      (count : ℕ) (p n : Bytes) (last : Star)
      → Within last size p n count
      → total_steps (suc size) count + length n < fuel
      → Returns (match_loop s fuel p n last)

  retry-Returns :
      (count : ℕ) (p : Bytes) (d : ℕ) (n : Bytes) (last : Star)
      → Within last size p (d ∷ n) count
      → total_steps (suc size) count + suc (length n) < suc fuel
      → Enough
      → Returns (retry last (match_loop s fuel))
  retry-Returns count p d n none w f ih = (false, refl)
  retry-Returns zero p d n (some (sp, sn)) w f ih = absurd (omega arith)
  retry-Returns (suc count) p d n (some (sp, sn)) w f ih =
      let shorter = next_character-shorter sn in
      ih count sp (next_character sn) (some (sp, next_character sn))
        (omega arith, omega arith, omega arith, omega arith) (omega arith)

  star-Returns :
      (count c : ℕ) (p : Bytes) (d : ℕ) (n : Bytes) (last : Star)
      → Within last size (c ∷ p) (d ∷ n) count
      → total_steps (suc size) count + suc (length n) < suc fuel
      → Enough
      → Returns (match_loop s fuel p (d ∷ n) (some (p, d ∷ n)))
  star-Returns zero c p d n none w f ih = absurd (omega arith)
  star-Returns zero c p d n (some (sp, sn)) w f ih = absurd (omega arith)
  star-Returns (suc count) c p d n last w f ih =
      let inside = Within-star last size c p (d ∷ n) count w in
      ih count p (d ∷ n) (some (p, d ∷ n)) inside (omega (arith, inside.0))

module _ (s : IgnoreCaseSensitivity) where
  match_loop-Returns : (size fuel : ℕ) → Enough s size fuel
  unfolding match_loop
  match_loop-Returns size fuel count p [] last w f = (only_stars p, refl)
  match_loop-Returns size zero count p (d ∷ n) last w f = absurd (omega arith)
  match_loop-Returns size (suc fuel) count [] (d ∷ n) last w f =
      retry-Returns s size fuel count [] d n last w f (match_loop-Returns size fuel)
  match_loop-Returns size (suc fuel) count (c ∷ p) (d ∷ n) last w f =
      let shorter = next_character-shorter (d ∷ n) in
      if-Returns (c == question) _ _
        (match_loop-Returns size fuel count p (next_character (d ∷ n)) last
          (Within-step last size (c ∷ p) (d ∷ n) p (next_character (d ∷ n)) count (omega arith)
            (omega arith) w)
          (omega arith))
        (if-Returns (c == star) _ _
          (star-Returns s size fuel count c p d n last w f (match_loop-Returns size fuel))
          (if-Returns (equal_literal c d s) _ _
            (match_loop-Returns size fuel count p n last
              (Within-step last size (c ∷ p) (d ∷ n) p n count (omega arith) (omega arith) w)
              (omega arith))
            (retry-Returns s size fuel count (c ∷ p) d n last w f (match_loop-Returns size fuel))))

  -- The loop of `match_component` ends: the fuel that it is given is enough for every pattern and name.
  pub match_component-Returns :
      (pattern name : Bytes) → (b : Bool) × (match_component s pattern name ≡ ok b)
  unfolding match_component
  match_component-Returns pattern name =
      match_loop-Returns (length name) _ (suc (length name + length pattern)) pattern name none
        (omega arith, omega arith) (omega arith)
