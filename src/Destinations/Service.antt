-- ===== src/Destinations/Service.antt =====
-- destinations/service.go: how the destinations follow their configuration.
use eventnative.Base.{
  zero, suc, Bool, true, false, Option, none, some, List, [], ◌∷◌, ◌++◌, text_eq, if◌then◌else◌,
}
use eventnative.Base.Dict.{Dict, keys, lookup, insert, erase}
use eventnative.Base.Int.{ℤ, pos, negsuc}
use eventnative.Base.Text.{Text}
use eventnative.Destinations.{Tokenized, under}

-- `storages.DestinationConfig`, as far as the service reads it.
pub record DestinationConfig : Type 0 where
  pub only_tokens : List Text
  pub stream_mode : Bool
  pub config : Text

-- The proxies, queues and loggers are made elsewhere.
pub record Parts : Type 1 where
  pub Proxy : Type 0
  pub Queue : Type 0
  pub Logger : Type 0
  pub get_hash : Text → DestinationConfig → Text
  pub create : Text → DestinationConfig → Option (Proxy × Option Queue)
  pub create_logger : Text → Logger

-- What is closed, in order.
pub data Closed : Type 0 where
  closed_logger closed_unit : Text → Closed

module _ (K : Parts) where
  open K use {Proxy, Queue, Logger, get_hash, create, create_logger}

  pub data Consumer : Type 0 where
    queue : Option Queue → Consumer
    logger : Logger → Consumer

  pub record DestinationUnit : Type 0 where
    pub event_queue : Option Queue
    pub storage : Proxy
    pub token_ids : List Text
    pub hash : Text

  pub record LoggerUsage : Type 0 where
    pub logger : Logger
    pub usage : ℤ

  pub record Service : Type 0 where
    pub units_by_name : Dict Text DestinationUnit
    pub loggers_usage : Dict Text LoggerUsage
    pub consumers : Tokenized Consumer
    pub storages : Tokenized Proxy
    pub ids : Tokenized Bool
    pub closed : List Closed

-- The values that a loop over a map visits.
unfoldable pub values {ℓ} : {V : Type ℓ} → Dict Text V → List V
values [] = []
values ((_, v) ∷ d) = v ∷ values d

-- `usage -= 1`
unfoldable pub decrement : ℤ → ℤ
decrement (pos zero) = negsuc 0
decrement (pos (suc n)) = pos n
decrement (negsuc n) = negsuc (suc n)

-- `usage += 1`
unfoldable pub increment : ℤ → ℤ
increment (pos n) = pos (suc n)
increment (negsuc zero) = pos 0
increment (negsuc (suc n)) = negsuc n

unfoldable pub is_zero : ℤ → Bool
is_zero (pos zero) = true
is_zero _ = false

-- A map that a deletion has left empty is deleted itself.
unfoldable pub put_back {ℓ} : {V : Type ℓ} → Text → Dict Text V → Tokenized V → Tokenized V
unfolding insert erase
put_back token_id [] m = erase token_id m
put_back token_id (p ∷ d) m = insert token_id (p ∷ d) m

-- The storages and the ids of a token lose a destination.
unfoldable pub forget {ℓ} : {V : Type ℓ} → Text → Text → Tokenized V → Tokenized V
unfolding put_back lookup erase
forget name token_id m = elim (lookup token_id m) [
  | none ↦ m
  | some old ↦ put_back token_id (erase name old) m
]

module _ (K : Parts) where
  open K use {Proxy, Queue, Logger, get_hash, create, create_logger}

  -- The consumers of a token lose the queue, or the logger with its last use; a token without a
  -- logger is a nil dereference.
  unfoldable pub remove_consumer : Text → Option Queue → Text → Service K → Option (Service K)
  unfolding under put_back erase insert lookup decrement is_zero
  remove_consumer name event_queue token_id s =
      let old = under token_id s.consumers in
      elim event_queue [
        | some q ↦ some (record s { consumers = put_back token_id (erase name old) s.consumers })
        | none ↦ elim (lookup token_id s.loggers_usage) [
          | none ↦ none
          | some lu ↦
              let lu' : LoggerUsage K = record lu { usage = decrement lu.usage } in
              if is_zero lu'.usage
              then some (record s {
                consumers = put_back token_id (erase token_id old) s.consumers;
                loggers_usage = erase token_id s.loggers_usage;
                closed = s.closed ++ closed_logger token_id ∷ [];
              })
              else some (record s {
                consumers = put_back token_id old s.consumers;
                loggers_usage = insert token_id lu' s.loggers_usage;
              })
        ]
      ]

  -- One round of the loop of `remove`.
  unfoldable pub remove_token : Text → Option Queue → Text → Service K → Option (Service K)
  unfolding remove_consumer forget
  remove_token name event_queue token_id s = elim (remove_consumer name event_queue token_id s) [
    | none ↦ none
    | some s' ↦ some (record s' {
      storages = forget name token_id s'.storages;
      ids = forget name token_id s'.ids;
    })
  ]

  unfoldable pub remove_tokens : Text → Option Queue → List Text → Service K → Option (Service K)
  unfolding remove_token
  remove_tokens name event_queue [] s = some s
  remove_tokens name event_queue (t ∷ ts) s = elim (remove_token name event_queue t s) [
    | none ↦ none
    | some s' ↦ remove_tokens name event_queue ts s'
  ]

  -- `remove`
  unfoldable pub remove : Text → DestinationUnit K → Service K → Option (Service K)
  unfolding remove_tokens erase
  remove name unit s = elim (remove_tokens name unit.event_queue unit.token_ids s) [
    | none ↦ none
    | some s' ↦ some (record s' {
      closed = s'.closed ++ closed_unit name ∷ [];
      units_by_name = erase name s'.units_by_name;
    })
  ]

  -- The first loop of `init`.
  unfoldable pub to_delete :
      Dict Text DestinationConfig → Dict Text (DestinationUnit K) → Dict Text (DestinationUnit K)
  unfolding lookup
  to_delete dc [] = []
  to_delete dc ((name, unit) ∷ units) =
      let rest = to_delete dc units in
      elim (lookup name dc) [ none ↦ (name, unit) ∷ rest | some _ ↦ rest ]

  unfoldable pub remove_all : Dict Text (DestinationUnit K) → Service K → Option (Service K)
  unfolding remove
  remove_all [] s = some s
  remove_all ((name, unit) ∷ units) s = elim (remove name unit s) [
    | none ↦ none
    | some s' ↦ remove_all units s'
  ]

  unfoldable pub get_consumers : Text → Service K → List (Consumer K)
  unfolding under values
  get_consumers token_id s = values (under token_id s.consumers)

  unfoldable pub get_storage_by_id : Text → Service K → Option Proxy
  unfolding lookup
  get_storage_by_id id s = elim (lookup id s.units_by_name) [
    | none ↦ none
    | some unit ↦ some unit.storage
  ]

  unfoldable pub get_storages : Text → Service K → List Proxy
  unfolding under values
  get_storages token_id s = values (under token_id s.storages)

  unfoldable pub get_destination_ids : Text → Service K → List Text
  unfolding under keys
  get_destination_ids token_id s = keys (under token_id s.ids)
