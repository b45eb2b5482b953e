-- ===== src/Destinations/Creation.antt =====
-- destinations/service.go: how `init` creates and recreates destinations.
use eventnative.Base.{Bool, true, Option, none, some, List, [], ◌∷◌, ◌==◌, text_eq, if◌then◌else◌}
use eventnative.Base.Dict.{Dict, lookup, insert}
use eventnative.Base.Int.{pos}
use eventnative.Base.Text.{Text}
use eventnative.Authorization.{TokensHolder, get_all_ids_by_token, get_all_token_ids}
use eventnative.Destinations.{Tokenized, add, add_all}
use eventnative.Destinations.Service.{
  DestinationConfig, Parts, Consumer, queue, logger, DestinationUnit, Service, increment, remove,
  to_delete, remove_all,
}

module _ (K : Parts) where
  open K use {Proxy, Queue, Logger, get_hash, create, create_logger}

  -- The collections of the new destinations.
  pub record Fresh : Type 0 where
    pub new_consumers : Tokenized (Consumer K)
    pub new_storages : Tokenized Proxy
    pub new_ids : Tokenized Bool

  -- The logger of a token, with one more use.
  unfoldable pub use_logger : Text → Service K → Logger × Service K
  unfolding lookup insert increment
  use_logger token_id s = elim (lookup token_id s.loggers_usage) [
    | some lu ↦ (
      lu.logger,
      record s {
        loggers_usage = insert token_id (record lu { usage = increment lu.usage }) s.loggers_usage;
      },
    )
    | none ↦ (
      create_logger token_id,
      record s {
        loggers_usage =
            insert token_id (record { logger = create_logger token_id; usage = pos 1 })
              s.loggers_usage;
      },
    )
  ]

  -- The loop over the tokens of a new destination.
  unfoldable pub create_tokens :
      Text → Bool → Option Queue → Proxy → List Text → Service K × Fresh → Service K × Fresh
  unfolding add use_logger
  create_tokens name stream event_queue proxy [] (s, f) = (s, f)
  create_tokens name stream event_queue proxy (t ∷ ts) (s, f) =
      let f' : Fresh = record f { new_ids = add t name true f.new_ids } in
      let (l, s') = use_logger t s in
      create_tokens name stream event_queue proxy ts (
        if stream
        then (s, record f' { new_consumers = add t name (queue event_queue) f'.new_consumers })
        else (
          s',
          record f' {
            new_consumers = add t t (logger l) f'.new_consumers;
            new_storages = add t name proxy f'.new_storages;
          },
        ))

  -- A new destination, unless its tokens are not loaded or it cannot be created; from its tokens and
  -- what the factory has returned.
  unfoldable pub add_created :
      Text
      → DestinationConfig
      → List Text
      → Option (Proxy × Option Queue)
      → Service K × Fresh
      → Service K × Fresh
  unfolding create_tokens insert
  add_created name d [] made r = r
  add_created name d (t ∷ ts) none r = r
  add_created name d (t ∷ ts) (some (proxy, event_queue)) (s, f) =
      let unit : DestinationUnit K = record {
        event_queue = event_queue;
        storage = proxy;
        token_ids = t ∷ ts;
        hash = get_hash name d;
      } in
      create_tokens name d.stream_mode event_queue proxy (t ∷ ts)
        (record s { units_by_name = insert name unit s.units_by_name }, f)

  unfoldable pub create_destination :
      Text → DestinationConfig → Service K × Fresh → Service K × Fresh
  unfolding add_created
  create_destination name d r = add_created name d d.only_tokens (create name d) r

  -- The tokens of a destination, by the authorization service.
  unfoldable pub with_tokens : TokensHolder → DestinationConfig → DestinationConfig
  unfolding get_all_ids_by_token get_all_token_ids
  with_tokens th d = elim d.only_tokens [
    | [] ↦ record d { only_tokens = get_all_token_ids th }
    | t ∷ ts ↦ record d { only_tokens = get_all_ids_by_token th (t ∷ ts) }
  ]

  -- One round of the second loop of `init`.
  unfoldable pub init_destination :
      TokensHolder → Text → DestinationConfig → Service K × Fresh → Option (Service K × Fresh)
  unfolding with_tokens lookup remove create_destination
  init_destination th name d0 (s, f) =
      let d = with_tokens th d0 in
      elim (lookup name s.units_by_name) [
        | none ↦ some (create_destination name d (s, f))
        | some unit ↦
            if unit.hash == get_hash name d then some (s, f) else elim (remove K name unit s) [
              | none ↦ none
              | some s' ↦ some (create_destination name d (s', f))
            ]
      ]

  unfoldable pub init_destinations :
      TokensHolder → Dict Text DestinationConfig → Service K × Fresh → Option (Service K × Fresh)
  unfolding init_destination
  init_destinations th [] r = some r
  init_destinations th ((name, d) ∷ dc) r = elim (init_destination th name d r) [
    | none ↦ none
    | some r' ↦ init_destinations th dc r'
  ]

  abbrev pub nothing_new : Fresh
  nothing_new = record { new_consumers = []; new_storages = []; new_ids = [] }

  -- `init`
  unfoldable pub init : TokensHolder → Dict Text DestinationConfig → Service K → Option (Service K)
  unfolding to_delete remove_all init_destinations add_all
  init th dc s = elim (remove_all K (to_delete K dc s.units_by_name) s) [
    | none ↦ none
    | some s' ↦ elim (init_destinations th dc (s', nothing_new)) [
      | none ↦ none
      | some (s'', f) ↦ some (record s'' {
        consumers = add_all s''.consumers f.new_consumers;
        storages = add_all s''.storages f.new_storages;
        ids = add_all s''.ids f.new_ids;
      })
    ]
  ]

  -- `updateDestinations`, with the parser; a payload that is malformed changes nothing.
  unfoldable pub update_destinations :
      (Text → Option (Dict Text DestinationConfig))
      → TokensHolder
      → Text
      → Service K
      → Option (Service K)
  unfolding init
  update_destinations parse th payload s = elim (parse payload) [
    | none ↦ some s
    | some dc ↦ init th dc s
  ]
