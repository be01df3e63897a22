-- ===== src/Concurrency/BoundedQueue.antt =====
-- src/core/concurrency/bounded_queue.hpp: the queue between the scanner, the workers and the writer. A call
-- runs under the mutex, except while it waits; it is modelled at the moment at which its wait ends.
pub mod Invariant
pub mod Closing
pub mod Making
use file_vault.Common.{
  ℕ, suc, ◌+◌, ◌-◌, ◌^◌, ◌%◌, ◌≡◌, Bool, true, false, not, ◌&&◌, ◌||◌, Option, none, some, List, [],
  ◌∷◌, ◌++◌, length, ltb, leb, ◌==◌, nat_eq, if◌then◌else◌, Result, ok, err, invalid_argument,
}

-- Arithmetic of std::size_t
unfoldable pub wrapping_add : ℕ → ℕ → ℕ
wrapping_add a b = (a + b) % 2 ^ 64

unfoldable pub wrapping_sub : ℕ → ℕ → ℕ
wrapping_sub a b = (a + 2 ^ 64 - b) % 2 ^ 64

pub record Item (A : Type 0) : Type 0 where
  pub bytes : ℕ
  pub value : A

pub record BoundedQueue (A : Type 0) : Type 0 where
  pub item_capacity : ℕ
  pub byte_capacity : Option ℕ
  pub size_function : Option (A → ℕ)
  pub items : List (Item A)
  pub bytes_used : ℕ
  pub closed : Bool

-- What a call comes to: it waits on, or returns with the queue as it leaves it.
pub data Outcome (A B : Type 0) : Type 0 where
  blocked : Outcome A B
  returned : B → BoundedQueue A → Outcome A B

-- Whether stop is requested when each of the tests in a call is made.
pub record Stops : Type 0 where
  pub entered : Bool
  pub locked : Bool
  pub woken : Bool

unfoldable pub fits : Option ℕ → ℕ → ℕ → Bool
unfolding wrapping_sub
fits none bytes_used item_bytes = true
fits (some capacity) bytes_used item_bytes = leb item_bytes (wrapping_sub capacity bytes_used)

unfoldable pub exceeds : Option ℕ → ℕ → Bool
exceeds none item_bytes = false
exceeds (some capacity) item_bytes = ltb capacity item_bytes

module _ {A : Type 0} where
  -- The two constructors; the optional function of the second may be empty.
  unfoldable pub make : ℕ → Result (BoundedQueue A)
  make item_capacity =
      if item_capacity == 0
      then err invalid_argument
      else ok (record {
        item_capacity = item_capacity;
        byte_capacity = none;
        size_function = none;
        items = [];
        bytes_used = 0;
        closed = false;
      })

  is_some : Option (A → ℕ) → Bool
  is_some none = false
  is_some (some f) = true

  unfoldable pub make_with_bytes : ℕ → ℕ → Option (A → ℕ) → Result (BoundedQueue A)
  unfolding is_some
  make_with_bytes item_capacity byte_capacity size_function =
      if item_capacity == 0
      then err invalid_argument
      else if byte_capacity == 0 || not (is_some size_function)
      then err invalid_argument
      else ok (record {
        item_capacity = item_capacity;
        byte_capacity = some byte_capacity;
        size_function = size_function;
        items = [];
        bytes_used = 0;
        closed = false;
      })

  unfoldable pub has_capacity : BoundedQueue A → ℕ → Bool
  unfolding fits
  has_capacity q item_bytes =
      if leb q.item_capacity (length q.items)
      then false
      else fits q.byte_capacity q.bytes_used item_bytes

  unfoldable pub size_of : Option (A → ℕ) → A → ℕ
  size_of none value = 0
  size_of (some f) value = f value

  -- `wait` of a condition variable on a stop token: the predicate's value, if it holds or stop is
  -- requested; otherwise the thread sleeps.
  unfoldable pub wait : {B : Type 0} → Bool → Bool → (Bool → Outcome A B) → Outcome A B
  wait predicate stop_requested continuation =
      if predicate || stop_requested then continuation predicate else blocked

  unfoldable pub push_impl : Stops → A → BoundedQueue A → Outcome A Bool
  unfolding wait has_capacity size_of exceeds wrapping_add
  push_impl stop value q =
      let item_bytes = size_of q.size_function value in
      if stop.entered
      then returned false q
      else if stop.locked || exceeds q.byte_capacity item_bytes
      then returned false q
      else wait (q.closed || has_capacity q item_bytes) stop.woken (λ ready.
        if not ready || stop.woken || q.closed
        then returned false q
        else returned true (record q {
          items = q.items ++ (record { bytes = item_bytes; value = value } ∷ []);
          bytes_used = wrapping_add q.bytes_used item_bytes;
        }))

  unfoldable pub is_empty : List (Item A) → Bool
  is_empty [] = true
  is_empty (x ∷ xs) = false

  take_front : BoundedQueue A → List (Item A) → Outcome A (Option A)
  unfolding wrapping_sub
  take_front q [] = returned none q
  take_front q (front ∷ rest) =
      returned (some front.value)
        (record q { items = rest; bytes_used = wrapping_sub q.bytes_used front.bytes })

  unfoldable pub pop : Bool → BoundedQueue A → Outcome A (Option A)
  unfolding wait is_empty take_front
  pop stop_requested q = wait (q.closed || not (is_empty q.items)) stop_requested (λ ready.
      if not ready || stop_requested || is_empty q.items
      then returned none q
      else take_front q q.items)

  unfoldable pub close : BoundedQueue A → BoundedQueue A
  close q = record q { closed = true }
