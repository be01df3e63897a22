-- ===== src/Concurrency/BoundedQueue/Invariant.antt =====
-- What every schedule of calls on a queue keeps.
use mathlib.Core.Path.{subst}
use mathlib.Core.Logic.{◌⊎◌, inl, inr}
use file_vault.Common.{
  ℕ, suc, ◌+◌, ◌-◌, ◌^◌, ◌%◌, ◌≤◌, ◌<◌, ◌≡◌, refl, sym, ap, ◌∙◌, Bool, true, false, Option, none,
  some, List, [], ◌∷◌, ◌++◌, map, length, length-append, append_assoc, u64_max, arith, Bool-cases,
}
use file_vault.Concurrency.BoundedQueue.{
  BoundedQueue, Item, Outcome, blocked, returned, Stops, wrapping_add, wrapping_sub, has_capacity,
  size_of, wait, push_impl, is_empty, take_front, fits, pop, close,
}

-- A call by some thread.
pub data Call (A : Type 0) : Type 0 where
  push : Stops → A → Call A
  take_one : Bool → Call A
  shut : Call A

-- A queue, with what its callers have sent and received, in order.
pub record System (A : Type 0) : Type 0 where
  pub queue : BoundedQueue A
  pub sent : List A
  pub received : List A

abbrev pub Within : Option ℕ → ℕ → ℕ → Type 0
Within none used bytes = Unit
Within (some capacity) used bytes = (used ≡ bytes) × (bytes ≤ capacity) × (capacity ≤ u64_max)

kept_on_add :
    (c : Option ℕ) (used bytes n : ℕ)
    → fits c used n ≡ true
    → Within c used bytes
    → Within c (wrapping_add used n) (bytes + n)
unfolding fits wrapping_add wrapping_sub
kept_on_add none used bytes n h k = tt
kept_on_add (some c) used bytes n h (e, le, small) =
    let room : n ≤ (c + 2 ^ 64 - used) % 2 ^ 64 = ground arith in (omega arith, omega arith, small)

kept_on_remove :
    (c : Option ℕ) (used bytes n : ℕ)
    → Within c used (n + bytes)
    → Within c (wrapping_sub used n) bytes
unfolding wrapping_sub
kept_on_remove none used bytes n k = tt
kept_on_remove (some c) used bytes n (e, le, small) = (omega arith, omega arith, small)

module _ {A : Type 0} where
  abbrev pub values : List (Item A) → List A
  values = map (λ item. item.value)

  abbrev pub total : List (Item A) → ℕ
  total [] = 0
  total (item ∷ rest) = item.bytes + total rest

  abbrev after_push : A → System A → Outcome A Bool → System A
  after_push value s blocked = s
  after_push value s (returned false q) = record s { queue = q }
  after_push value s (returned true q) = record s { queue = q; sent = s.sent ++ (value ∷ []) }

  abbrev after_pop : System A → Outcome A (Option A) → System A
  after_pop s blocked = s
  after_pop s (returned none q) = record s { queue = q }
  after_pop s (returned (some value) q) = record s {
    queue = q;
    received = s.received ++ (value ∷ []);
  }

  -- A call that waits changes nothing until it is scheduled again.
  unfoldable pub step : Call A → System A → System A
  unfolding push_impl pop close
  step (push stop value) s = after_push value s (push_impl stop value s.queue)
  step (take_one stop) s = after_pop s (pop stop s.queue)
  step shut s = record s { queue = close s.queue }

  unfoldable pub run : List (Call A) → System A → System A
  run [] s = s
  run (c ∷ cs) s = run cs (step c s)

  -- The items are within both budgets, the byte count is their sum without any wrap-around, and what was
  -- sent is what was received followed by what the queue holds.
  pub record IsValid (s : System A) : Type 0 where
    pub item_bound : length s.queue.items ≤ s.queue.item_capacity
    pub byte_bound : Within s.queue.byte_capacity s.queue.bytes_used (total s.queue.items)
    pub fifo : s.sent ≡ s.received ++ values s.queue.items

  abbrev pub appended : A → BoundedQueue A → BoundedQueue A
  appended value q = record q {
    items = q.items ++ (record { bytes = size_of q.size_function value; value = value } ∷ []);
    bytes_used = wrapping_add q.bytes_used (size_of q.size_function value);
  }

  -- How a push ends.
  pub push-cases :
      (stop : Stops) (value : A) (q : BoundedQueue A)
      → (push_impl stop value q ≡ blocked)
        ⊎ (push_impl stop value q ≡ returned false q)
        ⊎ ((has_capacity q (size_of q.size_function value) ≡ true)
            × (q.closed ≡ false)
            × (push_impl stop value q ≡ returned true (appended value q)))
  unfolding push_impl
  push-cases stop value q = ground arith

  total_append : (xs : List (Item A)) (x : Item A) → total (xs ++ (x ∷ [])) ≡ total xs + x.bytes
  total_append [] x = omega arith
  total_append (y ∷ ys) x = omega (arith, total_append ys x)

  values_append :
      (xs : List (Item A)) (x : Item A) → values (xs ++ (x ∷ [])) ≡ values xs ++ (x.value ∷ [])
  values_append [] x = refl
  values_append (y ∷ ys) x = ap (◌∷◌ y.value) (values_append ys x)

  capacity_items :
      (q : BoundedQueue A) (n : ℕ) → has_capacity q n ≡ true → length q.items < q.item_capacity
  unfolding has_capacity
  capacity_items q n h = ground arith

  capacity_bytes :
      (q : BoundedQueue A) (n : ℕ)
      → has_capacity q n ≡ true
      → fits q.byte_capacity q.bytes_used n ≡ true
  unfolding has_capacity
  capacity_bytes q n h = ground arith

  appended-IsValid :
      (value : A) (s : System A)
      → has_capacity s.queue (size_of s.queue.size_function value) ≡ true
      → IsValid s
      → IsValid (record s { queue = appended value s.queue; sent = s.sent ++ (value ∷ []) })
  appended-IsValid value s h v = record {
    item_bound = omega (
      arith,
      capacity_items s.queue _ h,
      v.item_bound,
      length-append s.queue.items
          (record { bytes = size_of s.queue.size_function value; value = value } ∷ []),
    );
    byte_bound = rw (total_append s.queue.items) (
        kept_on_add s.queue.byte_capacity s.queue.bytes_used (total s.queue.items) _
          (capacity_bytes s.queue _ h) v.byte_bound);
    fifo =
        ap (λ l. l ++ (value ∷ [])) v.fifo
        ∙ append_assoc s.received _ _
        ∙ ap (◌++◌ s.received) (sym (values_append s.queue.items _));
  }

  front-IsValid :
      (front : Item A) (rest : List (Item A)) (s : System A)
      → s.queue.items ≡ front ∷ rest
      → IsValid s
      → IsValid (record s {
        queue = record s.queue {
          items = rest;
          bytes_used = wrapping_sub s.queue.bytes_used front.bytes;
        };
        received = s.received ++ (front.value ∷ []);
      })
  front-IsValid front rest s e v = record {
    item_bound =
        let b : suc (length rest) ≤ s.queue.item_capacity =
          subst (λ i. length i ≤ s.queue.item_capacity) e v.item_bound in
        omega arith;
    byte_bound =
        kept_on_remove s.queue.byte_capacity s.queue.bytes_used (total rest) front.bytes
          (subst (λ i. Within s.queue.byte_capacity s.queue.bytes_used (total i)) e v.byte_bound);
    fifo =
        v.fifo
        ∙ ap (λ i. s.received ++ values i) e
        ∙ sym (append_assoc s.received (front.value ∷ []) (values rest));
  }

  -- How a pop ends.
  pub pop-cases :
      (stop : Bool) (q : BoundedQueue A)
      → (pop stop q ≡ blocked)
        ⊎ (pop stop q ≡ returned none q)
        ⊎ ((front : Item A) × (rest : List (Item A)) × (q.items ≡ front ∷ rest)
            × (pop stop q
                ≡ returned (some front.value) (record q {
                  items = rest;
                  bytes_used = wrapping_sub q.bytes_used front.bytes;
                })))
  unfolding pop take_front is_empty wait
  pop-cases stop q = by_items q.items refl
    where
      by_items :
          (items : List (Item A))
          → q.items ≡ items
          → (pop stop q ≡ blocked)
            ⊎ (pop stop q ≡ returned none q)
            ⊎ ((front : Item A) × (rest : List (Item A)) × (q.items ≡ front ∷ rest)
                × (pop stop q
                    ≡ returned (some front.value) (record q {
                      items = rest;
                      bytes_used = wrapping_sub q.bytes_used front.bytes;
                    })))
      by_items [] e = ground arith
      by_items (front ∷ rest) e = elim (Bool-cases stop) [
        | inl t ↦ inr (inl (ground arith))
        | inr f ↦ inr (inr (front, rest, e, ground arith))
      ]

  step-IsValid : (c : Call A) (s : System A) → IsValid s → IsValid (step c s)
  unfolding step
  step-IsValid (push stop value) s v = elim (push-cases stop value s.queue) [
    | inl e ↦ rw e v
    | inr (inl e) ↦
        rw e (record { item_bound = v.item_bound; byte_bound = v.byte_bound; fifo = v.fifo })
    | inr (inr (h, _, e)) ↦ rw e (appended-IsValid value s h v)
  ]
  step-IsValid (take_one stop) s v = elim (pop-cases stop s.queue) [
    | inl e ↦ rw e v
    | inr (inl e) ↦
        rw e (record { item_bound = v.item_bound; byte_bound = v.byte_bound; fifo = v.fifo })
    | inr (inr (front, rest, h, e)) ↦ rw e (front-IsValid front rest s h v)
  ]
  step-IsValid shut s v =
      unfold close in record { item_bound = v.item_bound; byte_bound = v.byte_bound; fifo = v.fifo }

  -- Whatever pushes, pops and closings of any threads run, in any order and with stop requested at any
  -- point, a queue that is valid at the start stays within its budgets, its byte count is the exact sum of
  -- its items if it has a byte budget, and what
  -- was received is in order what was sent, but for the items that still wait.
  pub run-IsValid : (cs : List (Call A)) (s : System A) → IsValid s → IsValid (run cs s)
  unfolding run
  run-IsValid [] s v = v
  run-IsValid (c ∷ cs) s v = run-IsValid cs (step c s) (step-IsValid c s v)

  abbrev pub started : BoundedQueue A → System A
  started q = record { queue = q; sent = []; received = [] }
