-- ===== src/Tests/Files.antt =====
-- Log files (logfiles/), the fallback (fallback/service.go), the cache of events
-- (caching/events_cache.go) and the recognition of users (users/service.go), run.
use eventnative.Base.{
  ℕ, ◌≡◌, refl, suc, true, false, none, some, List, [], ◌∷◌, ◌++◌, ◌⊎◌, inl, inr, text_eq, nat_eq,
}
use eventnative.Base.Dict as Dict
use eventnative.Base.Dict.{Dict, lookup, NodupKeys}
use eventnative.Base.Result.{Result, ok}
use eventnative.Base.Text.{Text, codes, contains_char, has_prefix, replace_text, replace_text_from}
use eventnative.Value.{as_text}
use eventnative.Value.Objects as Objects
use eventnative.Typing.{data_type_eq}
use eventnative.Schema.BatchHeader.{exists}
use eventnative.Schema.Flattener.{reformat, is_special, replace_special}
use eventnative.Schema.Processor.{
  Progress, ProcessError, process_file_payload, process_lines, terminated_lines, process_line,
  settle, process_object, extract, process_named, format_name, add_row,
}
use eventnative.Events.Extractor.{extract_event_id, nested_event_id}
use eventnative.Storages.Store.{StoreResult}
use eventnative.LogFiles.{
  FileSystem, StatusManager, get_tables_statuses, of_file, of_storage, status_of, put_status,
  already_uploaded_tables,
}
use eventnative.LogFiles.Once.{Update, put_statuses, NoFailure, put_status-once}
use eventnative.LogFiles.Uploader.{
  StorageHandle, Node, Uploading, upload_to_all, upload_payload, archive_file,
}
use eventnative.LogFiles.Uploader.Archived.{Stored, upload_payload-Stored}
use eventnative.LogFiles.Fallback.{Service, Replaying, replay}
use eventnative.LogFiles.Fallback.Locks.{replay-locks}
use eventnative.Tests.Fixtures.{sample_go, sample_processor, sample_parse, sample_event}
use eventnative.Tests.Pipeline.{payload, progress_of}

-- Before the first result of a file.
abbrev manager : StatusManager
manager = record { files_dir = codes "incoming"; statuses = [] }

unique : NodupKeys (get_tables_statuses manager (codes "f") (codes "db"))
unfolding get_tables_statuses of_file of_storage lookup
unique = tt

-- Behind the table, another one failed.
abbrev later : List Update
later =
    record {
      file_name = codes "f";
      storage = codes "db";
      table = codes "users";
      error = some (codes "refused");
    }
    ∷ []

harmless : NoFailure (codes "f") (codes "db") (codes "events") later
unfolding text_eq nat_eq
harmless = (inr (inr (inl refl)), tt)

abbrev uploaded : StatusManager
uploaded = put_statuses later (put_status manager (codes "f") (codes "db") (codes "events") none)

abbrev again : Result ProcessError Progress
again =
    process_file_payload sample_go sample_processor (codes "f")
      (already_uploaded_tables (get_tables_statuses uploaded (codes "f") (codes "db"))) sample_parse
      payload

processed_again : again ≡ ok (progress_of again)
unfolding process_file_payload nat_eq process_line sample_parse settle process_object extract
    text_eq process_named format_name Dict.lookup contains_char has_prefix replace_text
    replace_text_from extract_event_id nested_event_id exists is_special reformat replace_special
    add_row process_lines terminated_lines Objects.insert Objects.lookup as_text get_tables_statuses
    of_file of_storage put_status status_of already_uploaded_tables Dict.insert
processed_again = refl

put_status-once_example : lookup (codes "events") (progress_of again).0 ≡ none
put_status-once_example =
    put_status-once (codes "f") (codes "db") (codes "events") sample_go sample_processor manager
      later payload sample_parse (progress_of again).0 (progress_of again).1 unique harmless
      processed_again

-- A file system that counts the files that were removed.
abbrev files : FileSystem
files = record {
  World = ℕ;
  base = λ p. p;
  join_path = λ d n. d ++ n;
  read_file = λ p w. some (codes "line");
  write_file = λ p b w. (w, true);
  remove = λ p w. (suc w, true);
  mkdir = λ p w. w;
  marshal_statuses = λ s. some [];
  gzip = λ b. some b;
  extract_date = λ p. none;
}

abbrev results : Dict Text StoreResult
results = (codes "events", record { error = none; rows_count = 1 }) ∷ []

abbrev handle : StorageHandle ℕ
handle = record { name = codes "db"; store = λ f b u w. (ok results, w) }

abbrev node : Node
node = record {
  files = files;
  incoming_dir = codes "incoming/";
  archive_dir = codes "archive/";
  extract_token = λ n. some (codes "token");
  get_storages = λ t w. some handle ∷ [];
  message = λ e. codes "error";
}

abbrev uploading : Uploading node
uploading = record { world = 0; manager = manager }

upload_payload-Stored_example :
    (upload_payload node (codes "f") payload (some handle ∷ []) uploading
      ≡ (upload_to_all node (codes "f") payload (some handle ∷ []) (true, uploading)).1)
    ⊎ (mid : Uploading node) × Stored node (codes "f") payload (some handle ∷ []) uploading mid
      × (upload_payload node (codes "f") payload (some handle ∷ []) uploading
          ≡ archive_file node (codes "f") mid)
upload_payload-Stored_example =
    upload_payload-Stored node (codes "f") payload (some handle ∷ []) uploading

abbrev service : Service
service = record {
  files = files;
  fallback_dir = codes "failed/";
  archive_dir = codes "archive/";
  extract_destination = λ n. none;
  get_storage_by_id = λ id w.
      some (
        some
          (record { name = codes "db"; store_with_parse_func = λ f b u p w'. (ok results, w') }));
  message = λ e. codes "error";
  parse_json = λ l. some sample_event;
}

abbrev replaying : Replaying service
replaying = record { world = 0; manager = manager; locks = (codes "g", true) ∷ [] }

replay-locks_example :
    lookup (codes "f") (replay service (codes "f") (codes "db") false replaying).1.locks
    ≡ lookup (codes "f") replaying.locks
replay-locks_example = replay-locks service (codes "f") (codes "db") false replaying (codes "f")
