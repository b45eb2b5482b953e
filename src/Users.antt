-- ===== src/Users.antt =====
-- users/service.go: retrospective recognition of users. Events of anonymous users are kept in the meta
-- storage; when the user of an anonymous id is known, they are stored again with the user's id. The
-- queue between `Event` and the goroutine is not modelled: a payload is handled as it was made.
pub mod Pending
use eventnative.Base.{
  ℕ, Bool, true, false, not, Option, none, some, List, [], ◌∷◌, ◌==◌, text_eq, if◌then◌else◌,
}
use eventnative.Base.Dict.{Dict, insert}
use eventnative.Base.Result.{Result, ok, err}
use eventnative.Base.Text.{Text}
use eventnative.Value.{Value, text, Object}
use eventnative.Typing.{GoLibrary}
use eventnative.JsonPath as JsonPath
use eventnative.JsonPath.{JsonPath}
use eventnative.Events.Extractor.{extract_event_id}
use eventnative.Meta.{MetaError}
use eventnative.Storages.Store.{StoreError}

-- `UserRecognitionConfiguration`
pub record Configuration : Type 0 where
  pub enabled : Bool
  pub anonymous_id_json_path : JsonPath
  pub user_id_json_path : JsonPath

-- `GetUsersRecognition` and `SyncStore` of a storage.
pub record StorageHandle (World : Type 0) : Type 0 where
  pub users_recognition : Option Configuration
  pub sync_store : Text → List Object → Text → World → Result (StoreError × ℕ) ℕ × World

-- The meta storage, the destination service (a destination that is not initialized has no handle),
-- and `json.Unmarshal`.
pub record Surroundings : Type 1 where
  pub World : Type 0
  pub get_storage_by_id : Text → World → Option (Option (StorageHandle World))
  pub get_anonymous_events : Text → Text → World → Result MetaError (Dict Text Text) × World
  pub save_anonymous_event :
      Text → Text → Text → Text → World → Result {0, 0} MetaError Unit × World
  pub delete_anonymous_event : Text → Text → Text → World → Result {0, 0} MetaError Unit × World
  pub recognition_configuration : Configuration
  pub unmarshal : Text → Option Object

pub record EventIdentifiers : Type 0 where
  pub anonymous_id : Text
  pub event_id : Text
  pub user_id : Text

module _ (U : Surroundings) where
  open U use {
    World, get_storage_by_id, get_anonymous_events, save_anonymous_event, delete_anonymous_event,
    recognition_configuration, unmarshal,
  }

  -- The storage's configuration, or the global one.
  unfoldable pub configuration_of : StorageHandle World → Configuration
  configuration_of storage = elim storage.users_recognition [
    | none ↦ recognition_configuration
    | some configuration ↦ configuration
  ]

  -- The identifiers of an event, for a configuration that is enabled.
  unfoldable pub identifiers_of : GoLibrary → Configuration → Object → Option EventIdentifiers
  unfolding JsonPath.get extract_event_id
  identifiers_of go c event =
      if c.enabled
      then elim (JsonPath.get c.anonymous_id_json_path event) [
        | none ↦ none
        | some anonymous_id ↦ some (record {
          anonymous_id = go.sprint anonymous_id;
          event_id = extract_event_id go event;
          user_id = elim (JsonPath.get c.user_id_json_path event) [
            | none ↦ []
            | some user_id ↦ go.sprint user_id
          ];
        })
      ]
      else none

  -- `getDestinationsForRecognition`
  unfoldable pub get_destinations_for_recognition :
      GoLibrary
      → World
      → Object
      → List Text
      → Dict Text EventIdentifiers
      → Dict Text EventIdentifiers
  unfolding configuration_of identifiers_of insert
  get_destinations_for_recognition go w event [] identifiers = identifiers
  get_destinations_for_recognition go w event (id ∷ ids) identifiers =
      get_destinations_for_recognition go w event ids (elim (get_storage_by_id id w) [
        | none ↦ identifiers
        | some found ↦ elim found [
          | none ↦ identifiers
          | some storage ↦ elim (identifiers_of go (configuration_of storage) event) [
            | none ↦ identifiers
            | some i ↦ insert id i identifiers
          ]
        ]
      ])

  -- An event with the user's id is stored, and deleted from the meta storage behind that; errors are
  -- logged, and the event stays.
  unfoldable pub store_recognized :
      Text → EventIdentifiers → Text → Object → StorageHandle World → World → World
  store_recognized destination_id i stored_id event storage w =
      let (r, w') = storage.sync_store [] (event ∷ []) [] w in
      elim r [
        | err e ↦ w'
        | ok _ ↦ (delete_anonymous_event destination_id i.anonymous_id stored_id w').1
      ]

  -- Behind the parsing of a stored event.
  unfoldable pub recognize_in :
      Text → EventIdentifiers → Text → Object → StorageHandle World → World → World
  unfolding configuration_of store_recognized JsonPath.set
  recognize_in destination_id i stored_id event storage w =
      let c = configuration_of storage in
      let (event', done) = JsonPath.set c.user_id_json_path event (text i.user_id) in
      if c.enabled
      then if done then store_recognized destination_id i stored_id event' storage w else w
      else w

  unfoldable pub recognize_found :
      Text
      → EventIdentifiers
      → Text
      → Object
      → Option (Option (StorageHandle World))
      → World
      → World
  unfolding recognize_in
  recognize_found destination_id i stored_id event none w = w
  recognize_found destination_id i stored_id event (some none) w = w
  recognize_found destination_id i stored_id event (some (some storage)) w =
      recognize_in destination_id i stored_id event storage w

  -- The loop of `runPipeline`.
  unfoldable pub recognize_event : Text → EventIdentifiers → Text × Text → World → World
  unfolding recognize_found
  recognize_event destination_id i (stored_id, serialized) w = elim (unmarshal serialized) [
    | none ↦ w
    | some event ↦
        recognize_found destination_id i stored_id event (get_storage_by_id destination_id w) w
  ]

  unfoldable pub recognize_events : Text → EventIdentifiers → Dict Text Text → World → World
  unfolding recognize_event
  recognize_events destination_id i [] w = w
  recognize_events destination_id i (stored ∷ events) w =
      recognize_events destination_id i events (recognize_event destination_id i stored w)

  -- `runPipeline`
  unfoldable pub run_pipeline :
      Text → EventIdentifiers → World → Result {0, 0} MetaError Unit × World
  unfolding recognize_events
  run_pipeline destination_id i w =
      let (r, w') = get_anonymous_events destination_id i.anonymous_id w in
      elim r [
        | err e ↦ (err e, w')
        | ok events ↦ (ok tt, recognize_events destination_id i events w')
      ]

  -- What the goroutine does with a payload: errors are logged.
  unfoldable pub handle_payload : Text → Dict Text EventIdentifiers → World → World
  unfolding run_pipeline
  handle_payload event_bytes [] w = w
  handle_payload event_bytes ((id, i) ∷ identifiers) w = handle_payload event_bytes identifiers (
      if i.user_id == []
      then (save_anonymous_event id i.anonymous_id i.event_id event_bytes w).1
      else (run_pipeline id i w).1)
