-- ===== src/Adapters/Statements/Numbered.antt =====
-- The names, the numbered placeholders and the values of a statement stand in one order.
use mathlib.Core.List.{reverse, reverse-append, reverse-reverse, append_assoc, append-nil}
use eventnative.Base.{
  ℕ, suc, ◌≡◌, refl, sym, ap, ◌∙◌, true, false, List, [], ◌∷◌, ◌++◌, nat_eq, arith,
}
use eventnative.Base.Dict.{keys}
use eventnative.Base.Int.{pos, format_int}
use eventnative.Base.Lists.{All}
use eventnative.Base.Split.{NoSeparator, split-join}
use eventnative.Base.Text.{Text, codes, join, ends_with, drop_last, trim_space, trim_left, is_space}
use eventnative.Value.{Value, Object, empty, field}
use eventnative.Adapters.Table.{Columns}
use eventnative.Adapters.Statements.{
  Casts, remove_last_comma, placeholder, insert_parts, column_placeholders, update_loop,
  update_section,
}

-- The placeholders of names, numbered from `i`.
unfoldable pub numbered : Casts → ℕ → List Text → List Text
unfolding placeholder
numbered casts i [] = []
numbered casts i (name ∷ names) = placeholder casts i name ∷ numbered casts (suc i) names

unfoldable pub names_of : Object → List Text
names_of empty = []
names_of (field k _ o) = k ∷ names_of o

unfoldable pub values_of : Object → List Value
values_of empty = []
values_of (field _ v o) = v ∷ values_of o

-- Every part with a comma behind it.
abbrev pub terminated : List Text → Text
terminated [] = []
terminated (x ∷ xs) = x ++ (codes "," ++ terminated xs)

-- `name=$i`, numbered from `i`.
unfoldable pub assignments : ℕ → List Text → List Text
unfolding format_int
assignments i [] = []
assignments i (name ∷ names) =
    (name ++ (codes "=$" ++ format_int (pos i))) ∷ assignments (suc i) names

ends_with_last : (xs : Text) (c : ℕ) → ends_with (xs ++ c ∷ []) c ≡ true
unfolding ends_with
ends_with_last [] c = ground arith
ends_with_last (a ∷ []) c = ground arith
ends_with_last (a ∷ b ∷ xs) c = ends_with_last (b ∷ xs) c

drop_last_last : (xs : Text) (c : ℕ) → drop_last (xs ++ c ∷ []) ≡ xs
unfolding drop_last
drop_last_last [] c = refl
drop_last_last (a ∷ []) c = refl
drop_last_last (a ∷ b ∷ xs) c = ap (λ l. a ∷ l) (drop_last_last (b ∷ xs) c)

terminated-join :
    (x : Text) (xs : List Text) → terminated (x ∷ xs) ≡ join (x ∷ xs) (codes ",") ++ codes ","
unfolding join
terminated-join x [] = refl
terminated-join x (y ∷ ys) =
    rw (terminated-join y ys)
      (sym (append_assoc x (codes "," ++ join (y ∷ ys) (codes ",")) (codes ",")))

pub remove_last_comma-terminated :
    (xs : List Text) → remove_last_comma (terminated xs) ≡ join xs (codes ",")
unfolding remove_last_comma join ends_with
remove_last_comma-terminated [] = refl
remove_last_comma-terminated (x ∷ xs) =
    rw (terminated-join x xs, ends_with_last (join (x ∷ xs) (codes ",")) b',', remove_last_comma)
      (drop_last_last (join (x ∷ xs) (codes ",")) b',')

pub insert_parts-terminated :
    (casts : Casts) (i : ℕ) (o : Object)
    → insert_parts casts i o
      ≡ (terminated (names_of o), terminated (numbered casts i (names_of o)), values_of o)
unfolding insert_parts numbered names_of values_of
insert_parts-terminated casts i empty = refl
insert_parts-terminated casts i (field k v o) = rw (insert_parts-terminated casts (suc i) o) refl

pub column_placeholders-terminated :
    (casts : Casts) (i : ℕ) (columns : Columns)
    → column_placeholders casts i columns ≡ terminated (numbered casts i (keys columns))
unfolding column_placeholders numbered keys
column_placeholders-terminated casts i [] = refl
column_placeholders-terminated casts i ((k, _) ∷ columns) =
    ap (λ t. placeholder casts i k ++ (codes "," ++ t))
      (column_placeholders-terminated casts (suc i) columns)

-- A text that white space is not trimmed from: it ends with a comma.
abbrev IsTight : Text → Type 0
IsTight r = (c : ℕ) × (s : Text) × (r ≡ (c ∷ s) ++ b',' ∷ []) × (is_space c ≡ false)

trim_left_tight : (c : ℕ) (s : Text) → is_space c ≡ false → trim_left (c ∷ s) ≡ c ∷ s
unfolding trim_left
trim_left_tight c s h = rw (h, trim_left) refl

trim_space-IsTight : (r : Text) → IsTight r → trim_space r ≡ r
unfolding trim_space is_space nat_eq
trim_space-IsTight r (c, s, same, no_space) =
    let r' = (c ∷ s) ++ b',' ∷ [] in
    let turned = reverse-append (c ∷ s) (b',' ∷ []) in
    rw same (
      ap (λ t. reverse (trim_left (reverse t))) (trim_left_tight c (s ++ b',' ∷ []) no_space)
      ∙ ap (λ t. reverse (trim_left t)) turned
      ∙ ap reverse (trim_left_tight b',' (reverse (c ∷ s)) refl)
      ∙ sym (ap reverse turned)
      ∙ reverse-reverse r')

piece : ℕ → Text → Text
unfolding format_int
piece i name = name ++ (codes "=$" ++ format_int (pos i))

piece_comma :
    (i : ℕ) (name : Text)
    → name ++ (codes "=$" ++ (format_int (pos i) ++ codes ",")) ≡ piece i name ++ codes ","
unfolding piece format_int
piece_comma i name =
    ap (λ t. name ++ t) (sym (append_assoc (codes "=$") (format_int (pos i)) (codes ",")))
    ∙ sym (append_assoc name (codes "=$" ++ format_int (pos i)) (codes ","))

IsTight-grow : (r p : Text) → IsTight r → IsTight (r ++ (p ++ codes ","))
IsTight-grow r p (c, s, same, no_space) = (
  c,
  (s ++ b',' ∷ []) ++ p,
  rw same (sym (append_assoc ((c ∷ s) ++ b',' ∷ []) p (codes ","))),
  no_space,
)

update_loop-terminated :
    (i : ℕ) (r : Text) (names : List Text)
    → IsTight r
    → update_loop i r names ≡ r ++ terminated (assignments i names)
unfolding update_loop assignments piece
update_loop-terminated i r [] t = sym (append-nil r)
update_loop-terminated i r (name ∷ names) t =
    let new = name ++ (codes "=$" ++ (format_int (pos i) ++ codes ",")) in
    let grown : trim_space r ++ new ≡ r ++ (piece i name ++ codes ",") =
      rw (trim_space-IsTight r t, piece_comma i name) refl in
    rw grown (
      update_loop-terminated (suc i) (r ++ (piece i name ++ codes ",")) names
        (IsTight-grow r (piece i name) t)
      ∙ append_assoc r (piece i name ++ codes ",") (terminated (assignments (suc i) names))
      ∙ ap (λ t. r ++ t)
          (append_assoc (piece i name) (codes ",") (terminated (assignments (suc i) names))))

-- The section of a merge statement that sets the columns repeats the numbers of the placeholders:
-- for a header of names without commas, the first of which begins with a character that is not white
-- space, it is `name=$i` for the `i`-th name, joined by commas.
pub update_section-assignments :
    (c : ℕ) (name : Text) (names : List Text)
    → is_space c ≡ false
    → All (NoSeparator b',') ((c ∷ name) ∷ names)
    → update_section (join ((c ∷ name) ∷ names) (codes ","))
      ≡ join (assignments 1 ((c ∷ name) ∷ names)) (codes ",")
unfolding update_section update_loop assignments trim_space trim_left is_space piece
update_section-assignments c name names no_space free =
    let p = piece 1 (c ∷ name) in
    let regrouped = piece_comma 1 (c ∷ name) in
    let rest = terminated (assignments 2 names) in
    rw (split-join b',' (c ∷ name) names free) (
      rw regrouped (
        rw
          (update_loop-terminated 2 (p ++ codes ",") names
            (c, name ++ (codes "=$" ++ format_int (pos 1)), refl, no_space))
          (ap remove_last_comma (append_assoc p (codes ",") rest)
            ∙ remove_last_comma-terminated (assignments 1 ((c ∷ name) ∷ names)))))
