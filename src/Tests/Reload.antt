-- ===== src/Tests/Reload.antt =====
-- The removal of a destination (destinations/service.go), run.
use eventnative.Base.{
  ◌≡◌, refl, true, false, ◌&&◌, Option, none, some, [], ◌∷◌, ◌==◌, text_eq, if◌then◌else◌,
}
use eventnative.Base.Dict.{Dict, lookup}
use eventnative.Base.Int.{pos}
use eventnative.Base.Text.{Text, codes}
use eventnative.Destinations.{under}
use eventnative.Destinations.Creation.{init}
use eventnative.Destinations.Service.{
  Parts, logger, DestinationUnit, Service, DestinationConfig, remove,
}
use eventnative.Authorization.{TokensHolder, no_tokens}
use eventnative.Destinations.Reload.{init-unit_of}
use eventnative.Destinations.Removal.{remove-Loses, listed}

abbrev parts : Parts
parts = record {
  Proxy = Text;
  Queue = Text;
  Logger = Text;
  get_hash = λ name d. name;
  create = λ name d. some (name, none);
  create_logger = λ t. t;
}

-- Two batch destinations of one token, which share its logger.
abbrev batch : DestinationUnit parts
batch = record { event_queue = none; storage = codes "d"; token_ids = codes "t" ∷ []; hash = [] }

abbrev service : Service parts
service = record {
  units_by_name = (codes "d", batch) ∷ (codes "e", record batch { storage = codes "e" }) ∷ [];
  loggers_usage = (codes "t", record { logger = codes "t"; usage = pos 2 }) ∷ [];
  consumers = (codes "t", (codes "t", logger (codes "t")) ∷ []) ∷ [];
  storages = (codes "t", (codes "d", codes "d") ∷ (codes "e", codes "e") ∷ []) ∷ [];
  ids = (codes "t", (codes "d", true) ∷ (codes "e", true) ∷ []) ∷ [];
  closed = [];
}

abbrev service_of : Option (Service parts) → Service parts
service_of none = service
service_of (some s) = s

abbrev left : Service parts
left = service_of (remove parts (codes "d") batch service)

removed : remove parts (codes "d") batch service ≡ some left
unfolding remove text_eq
removed = refl

-- The logger is still in use.
logger_kept : under (codes "t") left.consumers ≡ (codes "t", logger (codes "t")) ∷ []
unfolding remove text_eq under
logger_kept = refl

remove-Loses_example :
    (lookup (codes "d") (under (codes "t") left.storages) ≡ (
      if codes "d" == codes "d" && listed (codes "t") batch.token_ids
      then none
      else lookup (codes "d") (under (codes "t") service.storages)))
    × (lookup (codes "d") (under (codes "t") left.ids) ≡ (
        if codes "d" == codes "d" && listed (codes "t") batch.token_ids
        then none
        else lookup (codes "d") (under (codes "t") service.ids)))
    × (lookup (codes "d") left.units_by_name
        ≡ (if codes "d" == codes "d" then none else lookup (codes "d") service.units_by_name))
remove-Loses_example =
    remove-Loses parts (codes "d") batch service left (codes "t") (codes "d") removed

-- The new configuration has the second destination and a third one.
abbrev config : Dict Text DestinationConfig
config =
    (codes "e", record { only_tokens = []; stream_mode = false; config = [] })
    ∷ (codes "g", record { only_tokens = []; stream_mode = false; config = [] })
    ∷ []

abbrev holder : TokensHolder
holder = record no_tokens { ids = codes "t" ∷ [] }

abbrev reloaded : Service parts
reloaded = service_of (init parts holder config service)

reloads : init parts holder config service ≡ some reloaded
unfolding init text_eq
reloads = refl

-- The third destination gets the token and its logger.
ids_after : under (codes "t") reloaded.ids ≡ (codes "e", true) ∷ (codes "g", true) ∷ []
unfolding init text_eq under
ids_after = refl

init-unit_of_example : lookup (codes "d") reloaded.units_by_name ≡ none
unfolding lookup text_eq
init-unit_of_example = init-unit_of parts holder config service reloaded (codes "d") reloads refl
