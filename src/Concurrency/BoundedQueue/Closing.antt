-- ===== src/Concurrency/BoundedQueue/Closing.antt =====
-- How a queue ends: what closing it and requesting stop do to the calls on it.
use mathlib.Core.Path.{subst}
use mathlib.Core.Option
use file_vault.Common.{
  ℕ, zero, suc, ◌<◌, length, ap, sym, ◌∙◌, ◌≡◌, ◌≢◌, refl, Bool, true, false, Option, none, some,
  List, [], ◌∷◌, arith,
}
use file_vault.Concurrency.BoundedQueue.{
  BoundedQueue, Item, Outcome, blocked, returned, Stops, push_impl, is_empty, take_front, wait, pop,
  close, wrapping_sub,
}
use file_vault.Concurrency.BoundedQueue.Invariant.{values}

module _ {A : Type 0} where
  abbrev taken : (BoundedQueue A → Option (List A)) → Outcome A (Option A) → Option (List A)
  taken rest blocked = none
  taken rest (returned none q) = some []
  taken rest (returned (some value) q) = Option.map (◌∷◌ value) (rest q)

  -- The values that pops take from a queue, one after the other, until one returns nothing; none if a
  -- pop waits, or if none has returned nothing before the fuel runs out.
  unfoldable pub drain : ℕ → BoundedQueue A → Option (List A)
  drain zero q = none
  drain (suc fuel) q = taken (drain fuel) (pop false q)

  pop_closed :
      (q : BoundedQueue A) (front : Item A) (rest : List (Item A))
      → q.closed ≡ true
      → q.items ≡ front ∷ rest
      → pop false q
        ≡ returned
            (some front.value)
            (record q { items = rest; bytes_used = wrapping_sub q.bytes_used front.bytes })
  unfolding pop take_front is_empty wait
  pop_closed q front rest c e = ground arith

  pop_finished :
      (q : BoundedQueue A) → q.closed ≡ true → q.items ≡ [] → pop false q ≡ returned none q
  unfolding pop take_front is_empty wait
  pop_finished q c e = ground arith

  -- Pops without a stop request take from a closed queue all that it holds, in order, and the next one
  -- returns nothing; none of them waits.
  pub drain_closed :
      (fuel : ℕ) (q : BoundedQueue A)
      → q.closed ≡ true
      → length q.items < fuel
      → drain fuel q ≡ some (values q.items)
  unfolding drain
  drain_closed zero q c h = absurd (omega arith)
  drain_closed (suc fuel) q c h = by_items q.items refl (λ front rest short.
      drain_closed fuel
        (record q { items = rest; bytes_used = wrapping_sub q.bytes_used front.bytes }) c short)
    where
      by_items :
          (items : List (Item A))
          → q.items ≡ items
          → ((front : Item A) (rest : List (Item A))
              → length rest < fuel
              → drain fuel
                  (record q { items = rest; bytes_used = wrapping_sub q.bytes_used front.bytes })
                ≡ some (values rest))
          → drain (suc fuel) q ≡ some (values q.items)
      by_items [] e k =
          ap (taken (drain fuel)) (pop_finished q c e) ∙ sym (ap (λ i. some (values i)) e)
      by_items (front ∷ rest) e k =
          let short : suc (length rest) < suc fuel = subst (λ i. length i < suc fuel) e h in
          ap (taken (drain fuel)) (pop_closed q front rest c e)
          ∙ ap (Option.map (◌∷◌ front.value)) (k front rest (omega arith))
          ∙ sym (ap (λ i. some (values i)) e)

  -- Once the queue is closed, a push returns false and changes nothing, and no pop waits. With stop
  -- requested, neither a push nor a pop moves an item, and neither waits.
  pub closed_or_stopped :
      (stop : Stops) (value : A) (q : BoundedQueue A)
      → (push_impl stop value (close q) ≡ returned false (close q))
        × ((s : Bool) → pop s (close q) ≢ blocked)
        × (stop.woken ≡ true → push_impl stop value q ≡ returned false q)
        × (pop true q ≡ returned none q)
  unfolding push_impl pop close wait
  closed_or_stopped stop value q =
      (ground arith, λ s. ground arith, λ h. ground arith, ground arith)
