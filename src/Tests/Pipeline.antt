-- ===== src/Tests/Pipeline.antt =====
-- The processing of a payload (schema/processor.go), run.
use eventnative.Base.{◌≡◌, refl, Bool, Option, none, some, [], text_eq, nat_eq}
use eventnative.Base.Dict as Dict
use eventnative.Base.Dict.{Dict}
use eventnative.Base.Lists.{length, get_elem?}
use eventnative.Base.Int.{pos}
use eventnative.Base.Result.{Result, ok, err}
use eventnative.Base.Text.{Text, codes}
use eventnative.Value.{Value, integer, int64, Object, empty}
use eventnative.Value.Objects as Objects
use eventnative.Typing.{type_from_value}
use eventnative.Typing.Converter.{convert}
use eventnative.Schema.BatchHeader.Columns.{column_type}
use eventnative.Schema.Processor.{ProcessedFile, Progress, process_file_payload, ProcessError}
use eventnative.Schema.Processor.Rows.{IsFile}
use eventnative.Schema.Processor.Sound.{process_file_payload-IsSound}
use eventnative.Schema.Processor.Typed.{process_file_payload-convert}
use eventnative.Schema.Processor.Accounting.{
  process_file_payload-counts, row_count, count_lines, is_stored, is_failed,
}
use eventnative.Tests.Fixtures.{sample_go, sample_processor, sample_parse}
use eventnative.Schema.Processor.{
  process_line, settle, process_object, extract, process_named, format_name, map_step, enrich,
  copy_map, add_row, append_row, process_lines, terminated_lines,
}
use eventnative.Schema.MappingStep.{execute, type_fields, flatten_mapped, map_object, type_field}
use eventnative.Base.Int.{format_int}
use eventnative.Base.Text.{contains_char, has_prefix, replace_text, replace_text_from}
use eventnative.Events.Extractor.{extract_event_id, nested_event_id}
use eventnative.Schema.BatchHeader.{add_types, exists, merge, merge_field, new_field}
use eventnative.Schema.Flattener.{
  flatten, flatten_object, inner_key, is_special, reformat, replace_special,
}
use eventnative.Schema.MapObject.{map}
use eventnative.Typing.Converter.{convert, convert_rule, default_type}
use eventnative.Typing.{data_type_eq, reformat_value, type_from_value}
use eventnative.Value.Objects.{erase}
use eventnative.Value.{as_object, as_text}
use native.Mathlib.Decide.{ℕ_discrete}

-- Two events of one table, and a line without a timestamp between them.
abbrev pub payload : Text
payload = codes "a\nx\nb\n"

abbrev pub outcome : Result ProcessError Progress
outcome = process_file_payload sample_go sample_processor (codes "f") [] sample_parse payload

abbrev pub progress_of : Result ProcessError Progress → Progress
progress_of (ok p) = p
progress_of (err e) = ([], [])

abbrev no_file : ProcessedFile
no_file = record {
  file_name = [];
  batch_header = record { table_name = []; fields = [] };
  payload = [];
}

abbrev file_of : Option ProcessedFile → ProcessedFile
file_of none = no_file
file_of (some f) = f

abbrev row_of : Option Object → Object
row_of none = empty
row_of (some row) = row

abbrev progress : Progress
progress = progress_of outcome

abbrev file : ProcessedFile
file = file_of (Dict.lookup (codes "events") progress.0)

abbrev second_row : Object
second_row = row_of (get_elem? file.payload 1)

two_rows : row_count progress.0 ≡ 2
unfolding row_count process_file_payload nat_eq process_line sample_parse settle process_object
    extract text_eq process_named format_name Dict.lookup map_step execute enrich copy_map
    type_fields Dict.insert format_int contains_char has_prefix replace_text replace_text_from
    extract_event_id nested_event_id add_types exists merge merge_field new_field flatten
    flatten_object inner_key is_special reformat replace_special map flatten_mapped map_object
    type_field add_row append_row process_lines terminated_lines convert convert_rule default_type
    data_type_eq reformat_value type_from_value erase Objects.insert Objects.lookup as_object
    as_text ℕ_discrete
two_rows = refl

one_failure : length progress.1 ≡ 1
unfolding row_count process_file_payload nat_eq process_line sample_parse settle process_object
    extract text_eq process_named format_name Dict.lookup map_step execute enrich copy_map
    type_fields Dict.insert format_int contains_char has_prefix replace_text replace_text_from
    extract_event_id nested_event_id add_types exists merge merge_field new_field flatten
    flatten_object inner_key is_special reformat replace_special map flatten_mapped map_object
    type_field add_row append_row process_lines terminated_lines convert convert_rule default_type
    data_type_eq reformat_value type_from_value erase Objects.insert Objects.lookup as_object
    as_text ℕ_discrete
one_failure = refl

pub processed : outcome ≡ ok progress
unfolding row_count process_file_payload nat_eq process_line sample_parse settle process_object
    extract text_eq process_named format_name Dict.lookup map_step execute enrich copy_map
    type_fields Dict.insert format_int contains_char has_prefix replace_text replace_text_from
    extract_event_id nested_event_id add_types exists merge merge_field new_field flatten
    flatten_object inner_key is_special reformat replace_special map flatten_mapped map_object
    type_field add_row append_row process_lines terminated_lines convert convert_rule default_type
    data_type_eq reformat_value type_from_value erase Objects.insert Objects.lookup as_object
    as_text ℕ_discrete
processed = refl

has_file : Dict.lookup (codes "events") progress.0 ≡ some file
unfolding row_count process_file_payload nat_eq process_line sample_parse settle process_object
    extract text_eq process_named format_name Dict.lookup map_step execute enrich copy_map
    type_fields Dict.insert format_int contains_char has_prefix replace_text replace_text_from
    extract_event_id nested_event_id add_types exists merge merge_field new_field flatten
    flatten_object inner_key is_special reformat replace_special map flatten_mapped map_object
    type_field add_row append_row process_lines terminated_lines convert convert_rule default_type
    data_type_eq reformat_value type_from_value erase Objects.insert Objects.lookup as_object
    as_text ℕ_discrete
has_file = refl

has_row : get_elem? file.payload 1 ≡ some second_row
unfolding row_count process_file_payload nat_eq process_line sample_parse settle process_object
    extract text_eq process_named format_name Dict.lookup map_step execute enrich copy_map
    type_fields Dict.insert format_int contains_char has_prefix replace_text replace_text_from
    extract_event_id nested_event_id add_types exists merge merge_field new_field flatten
    flatten_object inner_key is_special reformat replace_special map flatten_mapped map_object
    type_field add_row append_row process_lines terminated_lines convert convert_rule default_type
    data_type_eq reformat_value type_from_value erase Objects.insert Objects.lookup as_object
    as_text ℕ_discrete
has_row = refl

has_value : Objects.lookup (codes "user_id") second_row ≡ some (integer int64 (pos 7))
unfolding row_count process_file_payload nat_eq process_line sample_parse settle process_object
    extract text_eq process_named format_name Dict.lookup map_step execute enrich copy_map
    type_fields Dict.insert format_int contains_char has_prefix replace_text replace_text_from
    extract_event_id nested_event_id add_types exists merge merge_field new_field flatten
    flatten_object inner_key is_special reformat replace_special map flatten_mapped map_object
    type_field add_row append_row process_lines terminated_lines convert convert_rule default_type
    data_type_eq reformat_value type_from_value erase Objects.insert Objects.lookup as_object
    as_text ℕ_discrete
has_value = refl

process_file_payload-IsSound_example :
    IsFile (codes "events") file × (Dict.lookup {V = Bool} (codes "events") [] ≡ none)
process_file_payload-IsSound_example =
    process_file_payload-IsSound sample_go sample_processor (codes "f") [] sample_parse payload
      progress.0 progress.1 (codes "events") file processed has_file

process_file_payload-convert_example :
    (w : Value) × (convert sample_go
        (column_type (codes "user_id") file.batch_header.fields)
        (integer int64 (pos 7))
      ≡ some w)
    × (type_from_value w ≡ some (column_type (codes "user_id") file.batch_header.fields))
process_file_payload-convert_example =
    process_file_payload-convert sample_go sample_processor (codes "f") [] sample_parse payload
      progress.0 progress.1 (codes "events") file 1 second_row (codes "user_id")
      (integer int64 (pos 7)) processed has_file has_row has_value

process_file_payload-counts_example :
    (row_count progress.0
      ≡ count_lines sample_go sample_processor
          (codes "f")
          []
          sample_parse
          is_stored
          (terminated_lines [] payload))
    × (length progress.1
        ≡ count_lines sample_go sample_processor
            (codes "f")
            []
            sample_parse
            is_failed
            (terminated_lines [] payload))
process_file_payload-counts_example =
    process_file_payload-counts sample_go sample_processor (codes "f") [] sample_parse payload
      progress.0 progress.1 processed
