-- ===== src/Tests/Fixtures.antt =====
-- Concrete instances of what the program takes from elsewhere.
use eventnative.Base.{Option, some, [], false, if◌then◌else◌}
use eventnative.Base.Int.{pos}
use eventnative.Base.Text.{Text, codes, has_prefix}
use eventnative.Value.{text, integer, int64, object, Object, empty, field}
use eventnative.Typing.{GoLibrary}
use eventnative.Schema.Processor.{Processor}
use eventnative.Schema.FieldMapper.{dummy}

-- Every text is the same time, every number is the same float, and letters are in lower case.
abbrev pub sample_go : GoLibrary
sample_go = record {
  parse_time = λ layout s. some 0;
  format_time = λ layout t. codes "2020-01-01T00:00:00.000000Z";
  float_of_int = λ i. 0;
  widen = λ f. f;
  format_float = λ f. codes "0";
  parse_float = λ s. some 0;
  parse_int = λ s. some (pos 0);
  marshal = λ v. some (codes "[]");
  lower = λ c. c;
  sprint = λ v. codes "1";
}

-- An event with a timestamp and a nested object.
abbrev pub sample_event : Object
sample_event =
    field (codes "_timestamp") (text (codes "2020-01-01T00:00:00.000000Z"))
      (field (codes "user") (object (field (codes "id") (integer int64 (pos 7)) empty)) empty)

-- The lines of a payload are events but for one that has no timestamp.
unfoldable pub sample_parse : Text → Option Object
unfolding has_prefix
sample_parse s = if has_prefix s (codes "x") then some empty else some sample_event

abbrev pub sample_processor : Processor
sample_processor = record {
  template = λ o. some (codes "events");
  rules = [];
  mapper = dummy;
  break_on_error = false;
}
