-- ===== src/Tests/Tasks.antt =====
-- A synchronization (sources/sync_task.go), run.
use eventnative.Base.{◌≡◌, refl, true, some, List, [], ◌∷◌, text_eq, nat_eq}
use eventnative.Base.Text.{Text, codes}
use eventnative.Value.{empty}
use eventnative.Drivers.{Calendar, TimeInterval, all, new_time_interval}
use eventnative.Sources.{Call, saved_status, saved_log, saved_signature, World, SyncTask, sync}
use eventnative.Sources.Order.{IsBacked, sync-IsBacked}

-- Times are days; a layout prints the year and the month only, as "2006-01-01" does.
abbrev calendar : Calendar
calendar = record {
  year_of = λ t. 2021;
  month_of = λ t. 1;
  day_of = λ t. t;
  date = λ y m d. d;
  add_date = λ y m d t. t;
  truncate_day = λ t. t;
  format_time = λ layout t. codes "2021-01-01";
}

abbrev interval : TimeInterval
interval = new_time_interval all 3

abbrev world : World
world = record {
  calendar = calendar;
  now = 5;
  now_utc = codes "now";
  get_hash = λ o. codes "hash";
  intervals = some (interval ∷ []);
  collection_table = codes "users";
  get_objects_for = λ i. some (empty ∷ []);
  get_signature = λ s c i. some (codes "old");
  sync_store = λ calls d table objects i. true;
}

abbrev task : SyncTask
task = record { source_id = codes "s"; collection = codes "c"; destinations = codes "d" ∷ [] }

sync-IsBacked_example : IsBacked world task (sync world task)
sync-IsBacked_example = sync-IsBacked world task

-- Every interval is synchronized, and the last status is FAILED all the same.
abbrev last_status : List Call → Text
last_status [] = []
last_status (saved_status s ∷ []) = s
last_status (saved_status s ∷ saved_log l ∷ []) = s
last_status (c ∷ calls) = last_status calls

abbrev signatures : List Call → List Text
signatures [] = []
signatures (saved_signature i s ∷ calls) = i ∷ signatures calls
signatures (c ∷ calls) = signatures calls

ends_failed : last_status (sync world task) ≡ codes "FAILED"
unfolding sync new_time_interval text_eq
ends_failed = refl

saves_signature : signatures (sync world task) ≡ codes "UTC_ALL_ALL" ∷ []
unfolding sync new_time_interval text_eq
saves_signature = refl
