-- ===== src/Snapshot/Progress/Window.antt =====
-- Emissions within a second, and what the queue of emissions says of them.
use file_vault.Common.{
  ℕ, ◌+◌, ◌-◌, ◌≤◌, ◌<◌, ◌≡◌, inl, inr, refl, sym, ap, ◌∙◌, Bool, false, not, ◌&&◌, ◌||◌, List, [],
  ◌∷◌, ◌++◌, length, ltb, leb, All, if◌then◌else◌, Bool-cases, arith, append_assoc, length-append,
}
use file_vault.Snapshot.Progress.{Emission, second, drop_old, ordinary_count}

-- The emission lies in the second that ends with `t`.
abbrev pub in_second : ℕ → Emission → Bool
in_second t emission = leb emission.time t && ltb t (emission.time + second)

unfoldable pub count : (Emission → Bool) → List Emission → ℕ
count test [] = 0
count test (emission ∷ emissions) =
    let rest = count test emissions in if test emission then rest + 1 else rest

abbrev pub IsPast : ℕ → Emission → Type 0
IsPast now emission = emission.time + second ≤ now

module _ (test : Emission → Bool) where
  count-append : (xs ys : List Emission) → count test (xs ++ ys) ≡ count test xs + count test ys
  unfolding count
  count-append [] ys = omega arith
  count-append (x ∷ xs) ys = let ih = count-append xs ys in ground arith

  count-past :
      (now t : ℕ) (xs : List Emission)
      → ((x : Emission) → IsPast now x → test x ≡ false)
      → All (IsPast now) xs
      → count test xs ≡ 0
  unfolding count
  count-past now t [] out past = refl
  count-past now t (x ∷ xs) out (p, past) =
      let ih = count-past now t xs out past in let e = out x p in ground arith

count_within : (t : ℕ) (xs : List Emission) → count (in_second t) xs ≤ length xs
unfolding count
count_within t [] = omega arith
count_within t (x ∷ xs) = let ih = count_within t xs in ground arith

ordinary_within :
    (t : ℕ) (xs : List Emission)
    → count (λ emission. in_second t emission && not emission.required) xs ≤ ordinary_count xs
unfolding count ordinary_count
ordinary_within t [] = omega arith
ordinary_within t (x ∷ xs) = let ih = ordinary_within t xs in ground arith

-- What is dropped is at the front and a second old.
drop_old-IsPast :
    (now : ℕ) (xs : List Emission)
    → (gone : List Emission) × (xs ≡ gone ++ drop_old now xs) × All (IsPast now) gone
unfolding drop_old
drop_old-IsPast now [] = ([], refl, tt)
drop_old-IsPast now (x ∷ xs) = elim (Bool-cases (leb x.time now && leb second (now - x.time))) [
  | inl old ↦
      let (gone, e, past) = drop_old-IsPast now xs in
      (x ∷ gone, rw old (ap (◌∷◌ x) e), (ground arith, past))
  | inr recent ↦ ([], rw recent refl, tt)
]

All-append :
    (now : ℕ) (xs ys : List Emission)
    → All (IsPast now) xs
    → All (IsPast now) ys
    → All (IsPast now) (xs ++ ys)
All-append now [] ys p q = q
All-append now (x ∷ xs) ys (p, ps) q = (p, All-append now xs ys ps q)

All-later : (m n : ℕ) (xs : List Emission) → m ≤ n → All (IsPast m) xs → All (IsPast n) xs
All-later m n [] h p = tt
All-later m n (x ∷ xs) h (p, ps) = (omega arith, All-later m n xs h ps)

ordinary_count-append :
    (xs ys : List Emission) → ordinary_count (xs ++ ys) ≡ ordinary_count xs + ordinary_count ys
unfolding ordinary_count
ordinary_count-append [] ys = omega arith
ordinary_count-append (x ∷ xs) ys = let ih = ordinary_count-append xs ys in ground arith

-- `emissions` is the end of the log, without what is a second old at `last`.
pub record IsPaced (last : ℕ) (emissions log : List Emission) : Type 0 where
  pub old : List Emission
  pub split : log ≡ old ++ emissions
  pub past : All (IsPast last) old
  pub few : length emissions ≤ 10
  pub few_ordinary : ordinary_count emissions ≤ 4
  pub rate : (t : ℕ) → count (in_second t) log ≤ 10
  pub ordinary_rate : (t : ℕ) → count (λ e. in_second t e && not e.required) log ≤ 4

pub IsPaced-later : (m n : ℕ) (es log : List Emission) → m ≤ n → IsPaced m es log → IsPaced n es log
IsPaced-later m n es log h i = record {
  old = i.old;
  split = i.split;
  past = All-later m n i.old h i.past;
  few = i.few;
  few_ordinary = i.few_ordinary;
  rate = i.rate;
  ordinary_rate = i.ordinary_rate;
}

pub IsPaced-drop_old :
    (now : ℕ) (es log : List Emission) → IsPaced now es log → IsPaced now (drop_old now es) log
IsPaced-drop_old now es log i =
    let (gone, split, past) = drop_old-IsPast now es in
    let kept = drop_old now es in
    record {
      old = i.old ++ gone;
      split = i.split ∙ ap (λ x. i.old ++ x) split ∙ sym (append_assoc i.old gone kept);
      past = All-append now i.old gone i.past past;
      few = omega (arith, i.few, ap length split, length-append gone kept);
      few_ordinary =
          omega (arith, i.few_ordinary, ap ordinary_count split, ordinary_count-append gone kept);
      rate = i.rate;
      ordinary_rate = i.ordinary_rate;
    }

-- A call at `now`, counted in the second that ends with `t`: those before it are counted as they were, or
-- only the recent ones are.
module _ (test : Emission → Bool) (now t : ℕ) (old es : List Emission) (e : Emission) where
  count-pushed :
      (limit : ℕ) (log : List Emission)
      → log ≡ old ++ es
      → All (IsPast now) old
      → ((x : Emission) → now ≤ t → IsPast now x → test x ≡ false)
      → (t < now → test e ≡ false)
      → count test log ≤ limit
      → (now ≤ t → count test es + count test (e ∷ []) ≤ limit)
      → count test (log ++ e ∷ []) ≤ limit
  unfolding count
  count-pushed limit log split past out early before recent = elim (Bool-cases (ltb t now)) [
    | inl yes' ↦
        let no_more = early (ground arith) in
        let both = count-append test log (e ∷ []) in ground arith
    | inr no' ↦
        let none_old = count-past test now t old (λ x. out x (ground arith)) past in
        let both = count-append test log (e ∷ []) in
        let parts = count-append test old es in
        let same = ap (count test) split in let all' = recent (ground arith) in ground arith
  ]

pub IsPaced-push :
    (now : ℕ) (required : Bool) (es log : List Emission)
    → (leb 10 (length es) || (not required && leb 4 (ordinary_count es))) ≡ false
    → IsPaced now es log
    → IsPaced now
        (es ++ record { time = now; required = required } ∷ [])
        (log ++ record { time = now; required = required } ∷ [])
unfolding count ordinary_count
IsPaced-push now required es log room i =
    let e : Emission = record { time = now; required = required } in
    record {
      old = i.old;
      split = ap (λ x. x ++ e ∷ []) i.split ∙ append_assoc i.old es (e ∷ []);
      past = i.past;
      few = let n = length-append es (e ∷ []) in ground arith;
      few_ordinary =
          let n = ordinary_count-append es (e ∷ []) in let k = i.few_ordinary in ground arith;
      rate = λ t.
          count-pushed (in_second t) now t i.old es e 10 log i.split i.past (λ x h p. ground arith)
            (λ h. ground arith) (i.rate t) (λ h. let n = count_within t es in ground arith);
      ordinary_rate = λ t.
          count-pushed (λ x. in_second t x && not x.required) now t i.old es e 4 log i.split i.past
            (λ x h p. ground arith) (λ h. ground arith) (i.ordinary_rate t)
            (λ h. let n = ordinary_within t es in let k = i.few_ordinary in ground arith);
    }
