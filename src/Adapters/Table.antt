-- ===== src/Adapters/Table.antt =====
-- adapters/table.go: table schemas and their differences.
pub mod Laws
use eventnative.Base.{
  ℕ, Bool, true, false, not, ◌&&◌, ◌||◌, Option, none, some, List, [], ◌∷◌, ◌==◌, text_eq,
  if◌then◌else◌,
}
use eventnative.Base.Dict.{Dict, keys, lookup}
use eventnative.Base.Text.{Text}

-- Sql types by column name.
abbrev pub Columns : Type 0
Columns = Dict Text Text

pub record Table : Type 0 where
  pub name : Text
  pub columns : Columns
  pub pk_fields : Dict Text Bool
  pub delete_pk_fields : Bool
  pub version : ℕ

unfoldable pub is_nil {ℓ} : {A : Type ℓ} → List A → Bool
is_nil [] = true
is_nil (x ∷ xs) = false

-- `Exists`, of a table that is not nil.
unfoldable pub exists : Table → Bool
unfolding is_nil
exists t = not (is_nil t.columns) || (not (is_nil t.pk_fields) || t.delete_pk_fields)

unfoldable pub get_pk_fields : Table → List Text
unfolding keys
get_pk_fields t = keys t.pk_fields

-- The columns of the second map that the first has not.
unfoldable pub new_columns : Columns → Columns → Columns
unfolding lookup
new_columns have [] = []
new_columns have ((name, column) ∷ others) =
    let rest = new_columns have others in
    elim (lookup name have) [ some _ ↦ rest | none ↦ (name, column) ∷ rest ]

-- `reflect.DeepEqual` of two sets of keys, whose values are all true.
unfoldable pub includes : Dict Text Bool → Dict Text Bool → Bool
unfolding lookup
includes ks [] = true
includes ks ((k, _) ∷ others) =
    elim (lookup k ks) [ none ↦ false | some _ ↦ true ] && includes ks others

unfoldable pub same_keys : Dict Text Bool → Dict Text Bool → Bool
unfolding includes
same_keys ks ls = includes ks ls && includes ls ks

abbrev pub no_change : Text → Table
no_change name = record {
  name = name;
  columns = [];
  pk_fields = [];
  delete_pk_fields = false;
  version = 0;
}

-- `Diff`
unfoldable pub diff : Table → Table → Table
unfolding exists new_columns same_keys is_nil
diff t another = if not (exists another) then no_change t.name else record (no_change t.name) {
  columns = new_columns t.columns another.columns;
  pk_fields =
      if not (is_nil t.pk_fields) && is_nil another.pk_fields
      then []
      else if same_keys t.pk_fields another.pk_fields
      then []
      else another.pk_fields;
  delete_pk_fields = not (is_nil t.pk_fields) && is_nil another.pk_fields;
}
