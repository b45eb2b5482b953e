-- ===== src/Events/Bucket.antt =====
-- events/cache.go: `CachedBucket`, the fixed-size store of the last events.
pub mod Laws
pub mod Recent
use eventnative.Base.{
  ℕ, zero, suc, ◌+◌, ◌-◌, Bool, true, false, Option, none, some, List, [], ◌∷◌, ◌++◌, ◌==◌, nat_eq,
  leb, if◌then◌else◌,
}
use eventnative.Base.Lists.{length, get_elem?, set, take}

-- Generic over the events.
pub record Bucket {ℓ} (E : Type ℓ) : Type ℓ where
  pub events : List E
  pub swap_pointer : ℕ
  pub capacity : ℕ

-- `ce.swapPointer += 1`, back to 0 at `ce.capacity - 1`, which is negative for the capacity 0.
unfoldable pub next_pointer : ℕ → ℕ → ℕ
next_pointer capacity swap_pointer = if swap_pointer + 2 == capacity then 0 else swap_pointer + 1

module _ {ℓ} {E : Type ℓ} where
  unfoldable pub new_bucket : ℕ → Bucket E
  new_bucket capacity = record { events = []; swap_pointer = 0; capacity = capacity }

  -- The writes to a full bucket; `none` is a panic, of an index out of range.
  unfoldable pub overwrite : Bucket E → E → Option (Bucket E)
  unfolding next_pointer
  overwrite b value = elim (get_elem? b.events b.swap_pointer) [
    | none ↦ none
    | some _ ↦ elim (get_elem? b.events (length b.events - 1)) [
      | none ↦ none
      | some last ↦ some (record b {
        events = set (set b.events b.swap_pointer last) (length b.events - 1) value;
        swap_pointer = next_pointer b.capacity b.swap_pointer;
      })
    ]
  ]

  -- `Put`
  unfoldable pub put : Bucket E → E → Option (Bucket E)
  unfolding overwrite
  put b value =
      if length b.events == b.capacity
      then overwrite b value
      else some (record b { events = b.events ++ value ∷ [] })

  -- `GetN`
  unfoldable pub get_n : Bucket E → ℕ → List E
  get_n b n = if leb (length b.events) n then b.events else take n b.events
