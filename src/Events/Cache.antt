-- ===== src/Events/Cache.antt =====
-- events/cache.go: `Cache`, the last events of every key and of all keys. `Put` and `GetN` are run one
-- at a time here; the channel of `PutAsync` is not modelled.
pub mod Recent
use eventnative.Base.{ℕ, Bool, true, false, Option, none, some, List, [], text_eq}
use eventnative.Base.Dict.{Dict, lookup, insert}
use eventnative.Base.Text.{Text}
use eventnative.Events.Bucket.{Bucket, new_bucket, put, get_n}

pub record Cache {ℓ} (E : Type ℓ) : Type ℓ where
  pub per_api_key : Dict Text (Bucket E)
  pub all : Bucket E
  pub capacity_per_key : ℕ
  pub closed : Bool

module _ {ℓ} {E : Type ℓ} where
  unfoldable pub new_cache : ℕ → Cache E
  unfolding new_bucket
  new_cache capacity_per_key = record {
    per_api_key = [];
    all = new_bucket capacity_per_key;
    capacity_per_key = capacity_per_key;
    closed = false;
  }

  -- The bucket of a key, made when it is missing.
  unfoldable pub element_of : Cache E → Text → Bucket E
  unfolding lookup new_bucket
  element_of c key = elim (lookup key c.per_api_key) [
    | some b ↦ b
    | none ↦ new_bucket c.capacity_per_key
  ]

  -- `Cache.Put`; `none` is a panic.
  unfoldable pub put_event : Cache E → Text → E → Option (Cache E)
  unfolding element_of put insert
  put_event c key value = elim (put c.all value) [
    | none ↦ none
    | some all' ↦ elim (put (element_of c key) value) [
      | none ↦ none
      | some element ↦
          some (record c { all = all'; per_api_key = insert key element c.per_api_key })
    ]
  ]

  -- `Cache.GetN` and `Cache.GetAll`
  unfoldable pub get_events : Cache E → Text → ℕ → List E
  unfolding lookup get_n
  get_events c key n = elim (lookup key c.per_api_key) [ some b ↦ get_n b n | none ↦ [] ]

  unfoldable pub get_all : Cache E → ℕ → List E
  unfolding get_n
  get_all c n = get_n c.all n

  unfoldable pub close : Cache E → Cache E
  close c = record c { closed = true }
