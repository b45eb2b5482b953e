-- ===== src/Schema/Marshaller/Lines.antt =====
-- The bytes of a file are its lines.
use mathlib.Core.List.{append_assoc, append-nil}
use eventnative.Base.{
  ℕ, ◌+◌, ◌-◌, suc, ◌≡◌, refl, ap, ◌∙◌, Option, none, some, List, [], ◌∷◌, ◌++◌, arith, map,
  Option-cases, Bool-cases, inl, inr, ltb,
}
use eventnative.Base.Lists.{length}
use eventnative.Base.Text.{Text, codes, join}
use eventnative.Value.{object, Object}
use eventnative.Typing.{GoLibrary}
use eventnative.Schema.BatchHeader.{header}
use eventnative.Schema.Processor.{ProcessedFile}
use eventnative.Schema.Marshaller.{
  json_marshaller, csv_marshaller, need_header, cell, csv_loop, marshal, write_line, write_payload,
  get_payload_bytes_with_header,
}

-- The lines of the objects that can be marshalled.
unfoldable pub marshalled : GoLibrary → List Object → List Text
marshalled go [] = []
marshalled go (o ∷ os) =
    let rest = marshalled go os in elim (go.marshal (object o)) [ none ↦ rest | some b ↦ b ∷ rest ]

-- Lines, joined by the new line, if there is one.
unfoldable pub lines_text : List Text → Option Text
unfolding join
lines_text [] = none
lines_text (l ∷ ls) = some (join (l ∷ ls) (codes "\n"))

csv_loop-join :
    (go : GoLibrary) (o : Object) (last i : ℕ) (fields : List Text)
    → last + 1 ≡ i + length fields
    → csv_loop go last o i fields ≡ join (map (cell go o) fields) (codes "||")
unfolding csv_loop join
csv_loop-join go o last i [] h = refl
csv_loop-join go o last i (name ∷ []) h = elim (Bool-cases (ltb i last)) [
  | inl more ↦ absurd (ground arith)
  | inr no_more ↦ rw no_more (append-nil (cell go o name))
]
csv_loop-join go o last i (name ∷ f ∷ fields) h = elim (Bool-cases (ltb i last)) [
  | inl more ↦ rw more (rw (csv_loop-join go o last (suc i) (f ∷ fields) (omega arith)) refl)
  | inr no_more ↦ absurd (ground arith)
]

csv_row :
    (go : GoLibrary) (o : Object) (fields : List Text)
    → marshal go csv_marshaller fields o ≡ some (join (map (cell go o) fields) (codes "||"))
unfolding marshal csv_loop join
csv_row go o [] = refl
csv_row go o (f ∷ fields) =
    ap some (csv_loop-join go o (length (f ∷ fields) - 1) 0 (f ∷ fields) (omega arith))

join-append :
    (l b : Text) (ls : List Text)
    → join ((l ++ (10 ∷ b)) ∷ ls) (codes "\n") ≡ join (l ∷ b ∷ ls) (codes "\n")
unfolding join
join-append l b [] = refl
join-append l b (m ∷ ls) = append_assoc l (10 ∷ b) (10 ∷ join (m ∷ ls) (codes "\n"))

write_payload_csv :
    (go : GoLibrary) (fields : List Text) (os : List Object) (l : Text)
    → write_payload go csv_marshaller fields os (some l)
      ≡ some (join (l ∷ map (λ o. join (map (cell go o) fields) (codes "||")) os) (codes "\n"))
unfolding write_payload write_line join
write_payload_csv go fields [] l = refl
write_payload_csv go fields (o ∷ os) l =
    let row = join (map (cell go o) fields) (codes "||") in
    ap (λ b. write_payload go csv_marshaller fields os (write_line go (some l) b))
      (csv_row go o fields)
    ∙ (write_payload_csv go fields os (l ++ 10 ∷ row)
        ∙ ap some (join-append l row (map (λ o. join (map (cell go o) fields) (codes "||")) os)))

write_payload_json :
    (go : GoLibrary) (os : List Object) (l : Text)
    → write_payload go json_marshaller [] os (some l)
      ≡ some (join (l ∷ marshalled go os) (codes "\n"))
unfolding write_payload marshal write_line join marshalled
write_payload_json go [] l = refl
write_payload_json go (o ∷ os) l = elim (Option-cases (go.marshal (object o))) [
  | inl lost ↦
      rw (lost, write_payload, marshal, write_line, marshalled) (write_payload_json go os l)
  | inr (b, kept) ↦
      rw (kept, write_payload, marshal, write_line, marshalled)
        (write_payload_json go os (l ++ 10 ∷ b) ∙ ap some (join-append l b (marshalled go os)))
]

write_payload_json_none :
    (go : GoLibrary) (os : List Object)
    → write_payload go json_marshaller [] os none ≡ lines_text (marshalled go os)
unfolding write_payload marshal write_line marshalled lines_text
write_payload_json_none go [] = refl
write_payload_json_none go (o ∷ os) = elim (Option-cases (go.marshal (object o))) [
  | inl lost ↦
      rw (lost, write_payload, marshal, write_line, marshalled) (write_payload_json_none go os)
  | inr (b, kept) ↦
      rw (kept, write_payload, marshal, write_line, marshalled, lines_text)
        (write_payload_json go os b)
]

-- A csv file is a header and one line for each row, each with the fields of the header in its order
-- between double bars. A json file is one line for each row that can be marshalled, and there is no
-- file where no row can be.
pub get_payload_bytes_with_header_lines :
    (go : GoLibrary) (pf : ProcessedFile)
    → (get_payload_bytes_with_header go pf csv_marshaller ≡ (
      lines_text (
          join (header pf.batch_header.fields) (codes "||")
          ∷ map
              (λ o. join (map (cell go o) (header pf.batch_header.fields)) (codes "||"))
              pf.payload),
      header pf.batch_header.fields,
    ))
      × (get_payload_bytes_with_header go pf json_marshaller
          ≡ (lines_text (marshalled go pf.payload), []))
unfolding get_payload_bytes_with_header need_header lines_text
get_payload_bytes_with_header_lines go pf =
    let fields = header pf.batch_header.fields in
    (
      rw (write_payload_csv go fields pf.payload (join fields (codes "||"))) refl,
      rw (write_payload_json_none go pf.payload) refl,
    )
