-- ===== src/Schema/Marshaller.antt =====
-- schema/marshaller.go, and how schema/processed_file.go turns rows into the bytes of a file.
pub mod Lines
use eventnative.Base.{
  ℕ, ◌-◌, suc, Bool, true, false, ◌&&◌, Option, none, some, List, [], ◌∷◌, ◌++◌, ◌==◌, nat_eq, leb,
  ltb, if◌then◌else◌,
}
use eventnative.Base.Lists.{length, drop}
use eventnative.Base.Text.{Text, codes, join, ends_with, drop_last}
use eventnative.Value.{Value, object, Object}
use eventnative.Value.Objects.{lookup}
use eventnative.Typing.{GoLibrary}
use eventnative.Schema.BatchHeader.{header}
use eventnative.Schema.Processor.{ProcessedFile}

pub data Marshaller : Type 0 where
  json_marshaller csv_marshaller : Marshaller

unfoldable pub need_header : Marshaller → Bool
need_header json_marshaller = false
need_header csv_marshaller = true

-- `b[0] == quotaByteValue`
unfoldable pub begins_with : Text → ℕ → Bool
begins_with [] c = false
begins_with (b ∷ s) c = b == c

-- The quotes around a text are not written.
unfoldable pub strip_quotes : Text → Text
unfolding begins_with ends_with drop_last
strip_quotes b =
    if leb 2 (length b) && (begins_with b b'"' && ends_with b b'"') then drop_last (drop 1 b) else b

module _ (go : GoLibrary) where
  -- The value of a field; one that cannot be marshalled is written as nothing.
  unfoldable pub cell : Object → Text → Text
  unfolding lookup strip_quotes
  cell o name = elim (lookup name o) [
    | none ↦ []
    | some v ↦ elim (go.marshal v) [ none ↦ strip_quotes [] | some b ↦ strip_quotes b ]
  ]

  -- The loop of `CsvMarshaller.Marshal`, with `len(fields) - 1` and the counter.
  unfoldable pub csv_loop : ℕ → Object → ℕ → List Text → Text
  unfolding cell
  csv_loop last o i [] = []
  csv_loop last o i (name ∷ fields) =
      cell o name ++ ((if ltb i last then codes "||" else []) ++ csv_loop last o (suc i) fields)

  -- `Marshal`; `none` is an error.
  unfoldable pub marshal : Marshaller → List Text → Object → Option Text
  unfolding csv_loop
  marshal json_marshaller fields o = go.marshal (object o)
  marshal csv_marshaller fields o = some (csv_loop (length fields - 1) o 0 fields)

  -- One round of the loop over the payload: the first bytes make the buffer.
  unfoldable pub write_line : Option Text → Option Text → Option Text
  write_line buf none = buf
  write_line none (some b) = some b
  write_line (some buf) (some b) = some (buf ++ 10 ∷ b)

  unfoldable pub write_payload : Marshaller → List Text → List Object → Option Text → Option Text
  unfolding marshal write_line
  write_payload m fields [] buf = buf
  write_payload m fields (o ∷ payload) buf =
      write_payload m fields payload (write_line buf (marshal m fields o))

  -- `GetPayloadBytesWithHeader`; no bytes are the panic of a buffer that was never made.
  unfoldable pub get_payload_bytes_with_header :
      ProcessedFile → Marshaller → Option Text × List Text
  unfolding need_header header join write_payload
  get_payload_bytes_with_header pf m =
      if need_header m
      then (
        write_payload m (header pf.batch_header.fields) pf.payload
            (some (join (header pf.batch_header.fields) (codes "||"))),
        header pf.batch_header.fields,
      )
      else (write_payload m [] pf.payload none, [])

  unfoldable pub get_payload_bytes : ProcessedFile → Marshaller → Option Text
  unfolding get_payload_bytes_with_header
  get_payload_bytes pf m = (get_payload_bytes_with_header pf m).0

unfoldable pub get_payload_len : ProcessedFile → ℕ
get_payload_len pf = length pf.payload
