-- ===== src/LogFiles/Fallback/Replayed.antt =====
-- When a replayed file is archived.
use eventnative.Base.{
  ◌≡◌, refl, sym, ap, ◌∙◌, Option, none, some, List, [], ◌∷◌, ◌++◌, inl, inr, ◌⊎◌,
}
use mathlib.Core.List.{append-nil, append_assoc}
use eventnative.Base.Dict.{Dict}
use eventnative.Base.Result.{Result, ok, err, Result-cases}
use eventnative.Base.Text.{Text}
use eventnative.Value.{Object}
use eventnative.Storages.Store.{StoreError, StoreResult}
use eventnative.LogFiles.{get_tables_statuses, already_uploaded_tables, update_status}
use eventnative.LogFiles.Fallback.{
  ReplayHandle, Service, store_failed, Replaying, error_text, append_error, save_results, finish,
  replay_to,
}

-- The errors of the tables, in their order.
unfoldable pub errors_of : Dict Text StoreResult → List StoreError
errors_of [] = []
errors_of ((_, result) ∷ results) =
    let rest = errors_of results in elim result.error [ none ↦ rest | some e ↦ e ∷ rest ]

module _ (V : Service) (file_name file_path payload : Text) (parse : Text → Option Object) where
  append_error-errors_of :
      (errors : List StoreError) (e : Option StoreError) (rest : List StoreError)
      → append_error V errors e ++ rest ≡ errors ++ (elim e [ none ↦ rest | some e ↦ e ∷ rest ])
  unfolding append_error
  append_error-errors_of errors none rest = refl
  append_error-errors_of errors (some e) rest = append_assoc errors (e ∷ []) rest

  save_results-errors :
      (storage : Text) (results : Dict Text StoreResult) (errors : List StoreError)
      (s : Replaying V)
      → (save_results V file_name storage results (errors, s)).0 ≡ errors ++ errors_of results
  unfolding save_results errors_of append_error
  save_results-errors storage [] errors s = sym (append-nil errors)
  save_results-errors storage ((table, result) ∷ results) errors s =
      let (manager, w) =
        update_status V.files file_name storage table (error_text V result.error) s.manager
          s.world in
      save_results-errors storage results (append_error V errors result.error)
        (record s { world = w; manager = manager })
      ∙ append_error-errors_of errors result.error (errors_of results)

  -- What a storage's `StoreWithParseFunc` is given and gives in a replay.
  abbrev pub taken :
      ReplayHandle V.files.World
      → Replaying V
      → Result StoreError (Dict Text StoreResult) × V.files.World
  taken storage s =
      storage.store_with_parse_func file_name payload
        (already_uploaded_tables (get_tables_statuses s.manager file_name storage.name)) parse
        s.world

  -- A replay into a storage either returns the storage's error and ends there, or ends, behind the
  -- statuses of all tables, with the errors of all tables that failed, in their order: with none, the
  -- file is archived and no error is returned.
  pub replay_to-errors :
      (storage : ReplayHandle V.files.World) (s : Replaying V)
      → ((e : StoreError) × ((taken storage s).0 ≡ err e)
          × (replay_to V file_name file_path payload parse storage s
              ≡ (err (store_failed e), record s { world = (taken storage s).1 })))
        ⊎ (results : Dict Text StoreResult) × ((taken storage s).0 ≡ ok results)
          × (replay_to V file_name file_path payload parse storage s
              ≡ finish V file_name file_path (
                errors_of results,
                (save_results V file_name storage.name results
                    ([], record s { world = (taken storage s).1 })).1,
              ))
  unfolding replay_to
  replay_to-errors storage s =
      let (r, w) = taken storage s in
      elim (Result-cases r) [
        | inr (e, failed) ↦ inl (e, failed, rw (replay_to, failed) refl)
        | inl (results, good) ↦
            let s' : Replaying V = record s { world = w } in
            inr (
              results,
              good,
              rw (replay_to, good)
                  (ap
                    (λ errors.
                      finish V file_name file_path
                        (errors, (save_results V file_name storage.name results ([], s')).1))
                    (save_results-errors storage.name results [] s')),
            )
      ]
