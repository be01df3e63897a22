-- ===== src/Concurrency/BoundedQueue/Making.antt =====
-- Which queues the constructor with a byte budget makes.
use file_vault.Common.{
  ℕ, zero, suc, ◌≤◌, ◌<◌, ◌≡◌, ◌≢◌, ◌⊎◌, inl, inr, refl, true, false, Option, none, some, [],
  u64_max, ok, err, invalid_argument, arith, nat_eq,
}
use file_vault.Concurrency.BoundedQueue.{
  BoundedQueue, returned, Stops, make_with_bytes, is_some, push_impl, has_capacity, fits, size_of,
  exceeds, wait, wrapping_sub,
}
use file_vault.Concurrency.BoundedQueue.Invariant.{IsValid, started, appended}

module _ {A : Type 0} where
  abbrev fresh : ℕ → ℕ → (A → ℕ) → BoundedQueue A
  fresh items bytes size = record {
    item_capacity = items;
    byte_capacity = some bytes;
    size_function = some size;
    items = [];
    bytes_used = 0;
    closed = false;
  }

  -- A queue that takes at once each item within the budget, if stop is not requested, and refuses each
  -- other one.
  pub record IsReady (bytes : ℕ) (size : A → ℕ) (q : BoundedQueue A) : Type 0 where
    pub valid : IsValid (started q)
    pub takes :
        (value : A)
        → size value ≤ bytes
        → push_impl (record { entered = false; locked = false; woken = false }) value q
          ≡ returned true (appended value q)
    pub refuses :
        (stop : Stops) (value : A) → bytes < size value → push_impl stop value q ≡ returned false q

  fresh-IsReady :
      (items bytes : ℕ) (size : A → ℕ)
      → items ≢ 0
      → bytes ≤ u64_max
      → IsReady bytes size (fresh items bytes size)
  unfolding push_impl has_capacity fits size_of exceeds wait wrapping_sub
  fresh-IsReady items bytes size positive small = record {
    valid = record {
      item_bound = omega arith;
      byte_bound = (refl, omega arith, small);
      fifo = refl;
    };
    takes = λ value fit. ground arith;
    refuses = λ stop value over. ground arith;
  }

  -- With a byte budget of at most 2^64 - 1, either the capacities are positive and there is a size
  -- function, and a queue is made that keeps the invariant, takes at once each item within the byte
  -- budget if stop is not requested, and refuses each other one; or one of the three is missing, and
  -- making a queue fails with `invalid_argument`.
  pub make_with_bytes-IsReady :
      (items bytes : ℕ) (size_function : Option (A → ℕ))
      → bytes ≤ u64_max
      → ((size : A → ℕ) × (q : BoundedQueue A) × (items ≢ 0)
          × (bytes ≢ 0)
          × (size_function ≡ some size)
          × (make_with_bytes items bytes size_function ≡ ok q)
          × IsReady bytes size q)
        ⊎ (((items ≡ 0) ⊎ (bytes ≡ 0) ⊎ (size_function ≡ none))
            × (make_with_bytes items bytes size_function ≡ err invalid_argument))
  unfolding make_with_bytes is_some
  make_with_bytes-IsReady zero bytes f small = inr (inl refl, ground arith)
  make_with_bytes-IsReady (suc items) zero f small = inr (inr (inl refl), ground arith)
  make_with_bytes-IsReady (suc items) (suc bytes) none small = inr (inr (inr refl), ground arith)
  make_with_bytes-IsReady (suc items) (suc bytes) (some size) small = inl (
    size,
    fresh (suc items) (suc bytes) size,
    omega arith,
    omega arith,
    refl,
    ground arith,
    fresh-IsReady (suc items) (suc bytes) size (omega arith) small,
  )
