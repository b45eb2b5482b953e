-- ===== src/Base/Text.antt =====
-- Go's strings as lists of code points, and what the program uses of the package `strings`.
use Prim.Native.Nat.{ℕ, zero, suc, ◌-◌}
use Prim.Native.Char.{code}
use Prim.Native.String.{String}
use mathlib.Core.Bool.{Bool, true, false, ◌&&◌, ◌||◌}
use mathlib.Core.List.{List, [], ◌∷◌, ◌++◌, reverse}
use eventnative.Base.Lists.{length}
use eventnative.Base.Tests.{◌==◌, nat_eq, leb, if◌then◌else◌}

abbrev pub Text : Type 0
Text = List ℕ

-- The text of a literal.
abbrev pub codes : String → Text
codes String.[] = []
codes (String.◌∷◌ c s) = code c ∷ codes s

-- `strings.HasPrefix`
unfoldable pub has_prefix : Text → Text → Bool
has_prefix s [] = true
has_prefix [] (q ∷ t) = false
has_prefix (p ∷ s) (q ∷ t) = p == q && has_prefix s t

-- `strings.HasSuffix(s, c)` for a single character, and the text without its last character.
unfoldable pub ends_with : Text → ℕ → Bool
ends_with [] c = false
ends_with (a ∷ []) c = a == c
ends_with (a ∷ b ∷ s) c = ends_with (b ∷ s) c

unfoldable pub drop_last : Text → Text
drop_last [] = []
drop_last (a ∷ []) = []
drop_last (a ∷ b ∷ s) = a ∷ drop_last (b ∷ s)

-- `strings.Contains` for a single character.
unfoldable pub contains_char : Text → ℕ → Bool
contains_char [] c = false
contains_char (a ∷ s) c = a == c || contains_char s c

-- `strings.Split` by a single character, with the part that is being read.
unfoldable pub split_from : Text → ℕ → Text → List Text
split_from cur sep [] = cur ∷ []
split_from cur sep (a ∷ s) =
    let closed = cur ∷ split_from [] sep s in
    let longer = split_from (cur ++ a ∷ []) sep s in if a == sep then closed else longer

unfoldable pub split : Text → ℕ → List Text
unfolding split_from
split s sep = split_from [] sep s

-- `strings.Join`
unfoldable pub join : List Text → Text → Text
join [] sep = []
join (a ∷ []) sep = a
join (a ∷ b ∷ parts) sep = a ++ (sep ++ join (b ∷ parts) sep)

-- `strings.ReplaceAll` of one character by a text.
unfoldable pub replace_char : ℕ → Text → Text → Text
replace_char c new [] = []
replace_char c new (a ∷ s) =
    let rest = replace_char c new s in if a == c then new ++ rest else a ∷ rest

-- `unicode.IsSpace`, as `strings.TrimSpace` reads it.
unfoldable pub is_space : ℕ → Bool
is_space c =
    (leb 9 c && leb c 13)
    || c == 32
    || c == 0x85
    || c == 0xA0
    || c == 0x1680
    || (leb 0x2000 c && leb c 0x200A)
    || c == 0x2028
    || c == 0x2029
    || c == 0x202F
    || c == 0x205F
    || c == 0x3000

unfoldable pub trim_left : Text → Text
unfolding is_space
trim_left [] = []
trim_left (a ∷ s) = let rest = trim_left s in if is_space a then rest else a ∷ s

unfoldable pub trim_space : Text → Text
unfolding trim_left
trim_space s = reverse (trim_left (reverse (trim_left s)))

module _ (sep : Text) where
  -- `strings.Split` by a text: `skip` characters of a separator are still to be passed over.
  unfoldable pub split_text_from : Text → ℕ → Text → List Text
  unfolding has_prefix
  split_text_from cur skip [] = cur ∷ []
  split_text_from cur (suc skip) (a ∷ s) = split_text_from cur skip s
  split_text_from cur zero (a ∷ s) =
      let closed = cur ∷ split_text_from [] (length sep - 1) s in
      let longer = split_text_from (cur ++ a ∷ []) zero s in
      if has_prefix (a ∷ s) sep then closed else longer

  -- `strings.ReplaceAll` of a text.
  unfoldable pub replace_text_from : Text → ℕ → Text → Text
  unfolding has_prefix
  replace_text_from new skip [] = []
  replace_text_from new (suc skip) (a ∷ s) = replace_text_from new skip s
  replace_text_from new zero (a ∷ s) =
      let replaced = new ++ replace_text_from new (length sep - 1) s in
      let kept = a ∷ replace_text_from new zero s in
      if has_prefix (a ∷ s) sep then replaced else kept

unfoldable pub split_text : Text → Text → List Text
unfolding split_text_from
split_text s sep = split_text_from sep [] 0 s

unfoldable pub replace_text : Text → Text → Text → Text
unfolding replace_text_from
replace_text old new s = replace_text_from old new 0 s
