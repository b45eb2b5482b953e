-- ===== src/Storages/TableHelper/Schema.antt =====
-- The schema that `EnsureTable` returns offers what the data needs, whatever the database answers.
use mathlib.Core.Path.{subst}
use eventnative.Base.{
  ℕ, ◌≡◌, refl, Bool, true, false, not, ◌&&◌, none, [], ◌∷◌, ◌==◌, nat_eq, text_eq, arith,
  if◌then◌else◌, Option-cases, Bool-cases, inl, inr,
}
use eventnative.Base.Dict.{Dict, lookup, insert, lookup-insert}
use eventnative.Base.Result.{Result, ok, err, Result-cases}
use eventnative.Base.Text.{Text}
use eventnative.Adapters.Table.{Columns, Table, is_nil, exists, diff, new_columns, same_keys}
use eventnative.Adapters.Table.Laws.{
  SameKeys, Offers, lookup-new_columns, same_keys-SameKeys, diff-nothing,
}
use eventnative.Storages.TableHelper.{
  EnsureError, Backend, State, current, M, with_lock, refresh_table_schema, add_columns, save,
  patch, patch_if_different, follow_version, ensure_locked, ensure_known, ensure_table,
}

lookup-add_columns :
    (k : Text) (columns others : Columns)
    → lookup k (add_columns columns others) ≡ none
    → (lookup k columns ≡ none) × (lookup k others ≡ none)
unfolding add_columns lookup
lookup-add_columns k columns [] h = (h, refl)
lookup-add_columns k columns ((j, v) ∷ others) h =
    ground (arith, lookup-add_columns k (insert j v columns) others h, lookup-insert k j v columns)

-- The keys asked for by the difference, and those that are saved of it.
abbrev asked : Dict Text Bool → Dict Text Bool → Dict Text Bool
asked ks ls = if not (is_nil ks) && is_nil ls then [] else if same_keys ks ls then [] else ls

abbrev saved : Dict Text Bool → Dict Text Bool → Dict Text Bool
saved ks ls =
    if not (is_nil ks) && is_nil ls then [] else if is_nil (asked ks ls) then ks else asked ks ls

saved-SameKeys : (ks ls : Dict Text Bool) → SameKeys (saved ks ls) ls
unfolding is_nil
saved-SameKeys [] [] = (λ k h. ground arith, λ k h. ground arith)
saved-SameKeys (p ∷ ks) [] = (λ k h. h, λ k h. h)
saved-SameKeys [] (q ∷ ls) = elim (Bool-cases (same_keys [] (q ∷ ls))) [
  | inl same ↦ rw same (same_keys-SameKeys [] (q ∷ ls) same)
  | inr differ ↦ rw differ (λ k h. h, λ k h. h)
]
saved-SameKeys (p ∷ ks) (q ∷ ls) = elim (Bool-cases (same_keys (p ∷ ks) (q ∷ ls))) [
  | inl same ↦ rw same (same_keys-SameKeys (p ∷ ks) (q ∷ ls) same)
  | inr differ ↦ rw differ (λ k h. h, λ k h. h)
]

-- Once its difference is saved, a table offers what was asked for.
save-Offers :
    (db data_schema : Table) (ver : ℕ)
    → exists data_schema ≡ true
    → Offers (save db (diff db data_schema) ver) data_schema
unfolding save diff
save-Offers db data_schema ver full = record {
  columns = λ k absent. ground (
    arith,
    lookup-add_columns k db.columns (new_columns db.columns data_schema.columns) (ground arith),
    lookup-new_columns k db.columns data_schema.columns,
  );
  keys = rw full (saved-SameKeys db.pk_fields data_schema.pk_fields);
}

module _ (B : Backend) (destination : Text) (data_schema : Table)
    (full : exists data_schema ≡ true) where
  -- A result that is no error offers what the data needs.
  abbrev Sufficient : Result EnsureError Table → Type 0
  Sufficient (ok t) = Offers t data_schema
  Sufficient (err e) = Unit

  patch-Sufficient :
      (in_memory : Bool) (db : Table) (s : State B)
      → Sufficient (patch B destination in_memory db (diff db data_schema) s).0
  unfolding patch
  patch-Sufficient in_memory db s =
      let change = diff db data_schema in
      let w = (B.patch_table_schema change s.world).0 in
      elim (Bool-cases (B.patch_table_schema change s.world).1) [
        | inr failed ↦ rw (failed, patch) tt
        | inl patched ↦ elim (Option-cases (B.increment_version destination change.name w).1) [
          | inl lost ↦ rw (patched, lost, patch) tt
          | inr (ver, found) ↦ rw (patched, found, patch) (save-Offers db data_schema ver full)
        ]
      ]

  patch_if_different-Sufficient :
      (in_memory : Bool) (db : Table) (s : State B)
      → Sufficient (patch_if_different B destination in_memory db data_schema s).0
  unfolding patch_if_different
  patch_if_different-Sufficient in_memory db s = elim (Bool-cases (exists (diff db data_schema))) [
    | inl differ ↦ rw (differ, patch_if_different) (patch-Sufficient in_memory db s)
    | inr same ↦ rw (same, patch_if_different) (diff-nothing db data_schema full same)
  ]

  follow_version-Sufficient :
      (db : Table) (ver : ℕ) (s : State B)
      → Sufficient (follow_version B destination db data_schema ver s).0
  unfolding follow_version
  follow_version-Sufficient db ver s = elim (Bool-cases (ver == db.version)) [
    | inl same ↦ rw (same, follow_version) (patch_if_different-Sufficient true db s)
    | inr newer ↦ elim (Option-cases (B.get_table_schema db.name s.world).1) [
      | inl lost ↦ rw (newer, lost, follow_version) tt
      | inr (fresh, found) ↦
          rw (newer, found, follow_version) (patch_if_different-Sufficient false _ _)
    ]
  ]

  ensure_locked-Sufficient :
      (db : Table) (s : State B) → Sufficient (ensure_locked B destination db data_schema s).0
  unfolding ensure_locked
  ensure_locked-Sufficient db0 s =
      let db = current B db0 s in
      elim (Bool-cases (exists (diff db data_schema))) [
        | inr same ↦ rw (same, ensure_locked) (diff-nothing db data_schema full same)
        | inl differ ↦ elim (Option-cases (B.get_version destination db.name s.world).1) [
          | inl lost ↦ rw (differ, lost, ensure_locked) tt
          | inr (ver, found) ↦
              rw (differ, found, ensure_locked) (follow_version-Sufficient db ver _)
        ]
      ]

  with_lock-Sufficient :
      (name : Text) (body : M B) (s : State B)
      → ((s' : State B) → Sufficient (body s').0)
      → Sufficient (with_lock B destination name body s).0
  unfolding with_lock
  with_lock-Sufficient name body s h =
      elim (Bool-cases (B.lock destination name s.world s.tables).2) [
        | inl locked ↦ rw (locked, with_lock) (h _)
        | inr refused ↦ rw (refused, with_lock) tt
      ]

  ensure_known-Sufficient :
      (db : Table) (s : State B) → Sufficient (ensure_known B destination db data_schema s).0
  unfolding ensure_known
  ensure_known-Sufficient db s = elim (Bool-cases (exists (diff db data_schema))) [
    | inr same ↦ rw (same, ensure_known) (diff-nothing db data_schema full same)
    | inl differ ↦
        rw (differ, ensure_known)
          (with_lock-Sufficient db.name (ensure_locked B destination db data_schema) s
            (ensure_locked-Sufficient db))
  ]

  ensure_table-Sufficient : (s : State B) → Sufficient (ensure_table B destination data_schema s).0
  unfolding ensure_table
  ensure_table-Sufficient s = elim (Option-cases (lookup data_schema.name s.tables)) [
    | inr (db, known) ↦ rw (known, ensure_table) (ensure_known-Sufficient db s)
    | inl unknown_yet ↦ elim (Result-cases (refresh_table_schema B destination data_schema s).0) [
      | inl (db, read) ↦ rw (unknown_yet, read, ensure_table) (ensure_known-Sufficient db _)
      | inr (e, failed) ↦ rw (unknown_yet, failed, ensure_table) tt
    ]
  ]

-- For a data schema that exists, whatever the database and the other nodes answer, and whatever
-- other goroutines change while a lock is waited for: a schema that `EnsureTable` returns has
-- every column of the data's schema, and the same primary keys.
pub ensure_table-Offers :
    (B : Backend) (destination : Text) (data_schema t : Table) (s : State B)
    → exists data_schema ≡ true
    → (ensure_table B destination data_schema s).0 ≡ ok t
    → Offers t data_schema
ensure_table-Offers B destination data_schema t s full h =
    subst (Sufficient B destination data_schema full) h
      (ensure_table-Sufficient B destination data_schema full s)
