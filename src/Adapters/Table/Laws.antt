-- ===== src/Adapters/Table/Laws.antt =====
-- What a difference says.
use eventnative.Base.{◌≡◌, refl, Bool, true, false, none, some, [], ◌∷◌, text_eq, arith}
use eventnative.Base.Dict.{Dict, lookup}
use eventnative.Base.Text.{Text}
use eventnative.Adapters.Table.{
  Columns, Table, is_nil, exists, new_columns, includes, same_keys, diff,
}

-- Every column of the second map is in the first.
abbrev pub Covers : Columns → Columns → Type 0
Covers have want = (k : Text) → lookup k have ≡ none → lookup k want ≡ none

pub lookup-new_columns :
    (k : Text) (have others : Columns)
    → lookup k (new_columns have others)
      ≡ elim (lookup k have) [ some _ ↦ none | none ↦ lookup k others ]
unfolding new_columns lookup
lookup-new_columns k have [] = ground arith
lookup-new_columns k have ((name, column) ∷ others) =
    ground (arith, lookup-new_columns k have others)

nil_lookup : (k : Text) (have want : Columns) → is_nil want ≡ true → lookup k want ≡ none
unfolding is_nil lookup
nil_lookup k have [] h = refl
nil_lookup k have (p ∷ want) h = cc

new_columns-Covers :
    (have want : Columns) → is_nil (new_columns have want) ≡ true → Covers have want
new_columns-Covers have want h k absent =
    ground (arith, lookup-new_columns k have want, nil_lookup k have (new_columns have want) h)

-- The same keys, as a relation.
abbrev pub SameKeys : Dict Text Bool → Dict Text Bool → Type 0
SameKeys ks ls =
    ((k : Text) → lookup k ks ≡ none → lookup k ls ≡ none)
    × ((k : Text) → lookup k ls ≡ none → lookup k ks ≡ none)

includes-absent :
    (ks ls : Dict Text Bool)
    → includes ks ls ≡ true
    → (k : Text) → lookup k ks ≡ none
    → lookup k ls ≡ none
unfolding includes lookup
includes-absent ks [] h k absent = refl
includes-absent ks ((j, b) ∷ ls) h k absent =
    ground (arith, includes-absent ks ls (ground arith) k absent)

pub same_keys-SameKeys : (ks ls : Dict Text Bool) → same_keys ks ls ≡ true → SameKeys ks ls
unfolding same_keys
same_keys-SameKeys ks ls h =
    (includes-absent ks ls (ground arith), includes-absent ls ks (ground arith))

same_keys_nil :
    (ks ls : Dict Text Bool) → is_nil ks ≡ true → is_nil ls ≡ true → same_keys ks ls ≡ true
unfolding same_keys includes is_nil
same_keys_nil [] [] h k = refl
same_keys_nil (p ∷ ks) ls h k = cc
same_keys_nil [] (p ∷ ls) h k = cc

-- What a table is to offer for the rows of another: its columns, and the same primary keys.
pub record Offers (t another : Table) : Type 0 where
  pub columns : Covers t.columns another.columns
  pub keys : SameKeys t.pk_fields another.pk_fields

-- A table that nothing has to be added to, for another table that exists, has all the columns
-- of that one, and the same primary keys.
pub diff-nothing :
    (t another : Table) → exists another ≡ true → exists (diff t another) ≡ false → Offers t another
unfolding diff exists
diff-nothing t another full h = record {
  columns = new_columns-Covers t.columns another.columns (ground arith);
  keys =
      same_keys-SameKeys t.pk_fields another.pk_fields
        (ground (arith, same_keys_nil t.pk_fields another.pk_fields));
}
