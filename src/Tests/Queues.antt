-- ===== src/Tests/Queues.antt =====
-- A queue of two numbers with a byte budget.
use file_vault.Common.{
  ℕ, Option, ◌≡◌, ◌≢◌, refl, Bool, true, false, some, none, List, [], ◌∷◌, ok, err,
  invalid_argument, ◌⊎◌, arith,
}
use file_vault.Concurrency.BoundedQueue.{
  BoundedQueue, Stops, make_with_bytes, push_impl, pop, close, returned, blocked,
}
use file_vault.Concurrency.BoundedQueue.Invariant.{
  Call, push, take_one, shut, IsValid, run, step, started, run-IsValid,
}
use file_vault.Concurrency.BoundedQueue.Making.{IsReady, make_with_bytes-IsReady}
use file_vault.Concurrency.BoundedQueue.Closing.{drain, drain_closed, closed_or_stopped}

abbrev two : BoundedQueue ℕ
two = record {
  item_capacity = 2;
  byte_capacity = some 10;
  size_function = some (λ n. n);
  items = [];
  bytes_used = 0;
  closed = false;
}

abbrev going : Stops
going = record { entered = false; locked = false; woken = false }

abbrev calls : List (Call ℕ)
calls = push going 4 ∷ push going 6 ∷ push going 1 ∷ take_one false ∷ push going 11 ∷ shut ∷ []

made : make_with_bytes 2 10 (some (λ (n : ℕ). n)) ≡ ok two
unfolding make_with_bytes
made = refl

-- The third push waits, and the fourth is over the budget.
four_received : (run calls (started two)).received ≡ 4 ∷ []
unfolding run step
four_received = refl

two-IsValid : IsValid (started two)
two-IsValid = record {
  item_bound = omega arith;
  byte_bound = (refl, omega arith, omega arith);
  fifo = refl;
}

make_with_bytes-IsReady_example :
    ((size : ℕ → ℕ) × (q : BoundedQueue ℕ) × (◌≢◌ {A = ℕ} 2 0)
      × (◌≢◌ {A = ℕ} 10 0)
      × (◌≡◌ {A = Option (ℕ → ℕ)} (some (λ n. n)) (some size))
      × (make_with_bytes 2 10 (some (λ (n : ℕ). n)) ≡ ok q)
      × IsReady 10 size q)
    ⊎ (((◌≡◌ {A = ℕ} 2 0) ⊎ (◌≡◌ {A = ℕ} 10 0) ⊎ (◌≡◌ {A = Option (ℕ → ℕ)} (some (λ n. n)) none))
        × (make_with_bytes 2 10 (some (λ (n : ℕ). n)) ≡ err invalid_argument))
make_with_bytes-IsReady_example = make_with_bytes-IsReady 2 10 (some (λ (n : ℕ). n)) (omega arith)

run-IsValid_example : IsValid (run calls (started two))
run-IsValid_example = run-IsValid calls (started two) two-IsValid

abbrev full : BoundedQueue ℕ
full = record two {
  items = record { bytes = 4; value = 4 } ∷ record { bytes = 6; value = 6 } ∷ [];
  bytes_used = 10;
  closed = true;
}

drain_closed_example : drain 3 full ≡ some (4 ∷ 6 ∷ [])
drain_closed_example = drain_closed 3 full refl (omega arith)

closed_or_stopped_example :
    (push_impl going 1 (close two) ≡ returned false (close two))
    × ((s : Bool) → pop s (close two) ≢ blocked)
    × (false ≡ true → push_impl going 1 two ≡ returned false two)
    × (pop true two ≡ returned none two)
closed_or_stopped_example = closed_or_stopped going 1 two
