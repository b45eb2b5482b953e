-- ===== src/Adapters/Snowflake/Identifiers.antt =====
-- The identifiers that statements for Snowflake hold (adapters/snowflake.go).
use eventnative.Base.{
  ℕ, ◌≡◌, ◌≤◌, refl, true, false, ◌&&◌, nat_eq, [], ◌∷◌, arith, Bool-cases, inl, inr, ◌⊎◌,
}
use eventnative.Base.Lists.{All}
use eventnative.Base.Text.{Text}
use eventnative.Adapters.Snowflake.{
  is_not_letter_or_underscore, is_not_number_or_dollar, has_special, in_quotes, reformat_value,
}

-- What Snowflake documents of an identifier without quotes: it begins with a letter or an underscore
-- and holds letters, underscores, digits and dollar signs.
abbrev pub Letter : ℕ → Type 0
Letter c = (b'A' ≤ c) × (c ≤ b'Z') ⊎ (b'a' ≤ c) × (c ≤ b'z') ⊎ (c ≡ b'_')

abbrev pub Plain : ℕ → Type 0
Plain c = Letter c ⊎ (b'0' ≤ c) × (c ≤ b'9') ⊎ (c ≡ b'$')

abbrev pub IsUnquoted : Text → Type 0
IsUnquoted [] = Unit
IsUnquoted (c ∷ s) = Letter c × All Plain s

letter : (c : ℕ) → is_not_letter_or_underscore c ≡ false → Letter c
unfolding is_not_letter_or_underscore
letter c h = grind arith

not-Letter : (c : ℕ) → is_not_letter_or_underscore c ≡ true → Letter c → ⊥
unfolding is_not_letter_or_underscore
not-Letter c h l = grind arith

plain : (c : ℕ) → (is_not_letter_or_underscore c && is_not_number_or_dollar c) ≡ false → Plain c
unfolding is_not_letter_or_underscore is_not_number_or_dollar
plain c h = grind arith

not-Plain :
    (c : ℕ) → (is_not_letter_or_underscore c && is_not_number_or_dollar c) ≡ true → Plain c → ⊥
unfolding is_not_letter_or_underscore is_not_number_or_dollar
not-Plain c h p = grind arith

has_special-Plain : (s : Text) → has_special s ≡ false → All Plain s
unfolding has_special
has_special-Plain [] h = tt
has_special-Plain (c ∷ s) h = (plain c (ground arith), has_special-Plain s (ground arith))

has_special-not-All : (s : Text) → has_special s ≡ true → All Plain s → ⊥
unfolding has_special
has_special-not-All [] h a = cc
has_special-not-All (c ∷ s) h (p, a) =
    elim (Bool-cases (is_not_letter_or_underscore c && is_not_number_or_dollar c)) [
      | inl special ↦ not-Plain c special p
      | inr other ↦ has_special-not-All s (ground arith) a
    ]

-- A reformatted name is the name itself where that is a valid identifier without quotes (or empty), and
-- the name between double quotes where it is not.
pub reformat_value-IsUnquoted :
    (s : Text)
    → (reformat_value s ≡ s) × IsUnquoted s ⊎ (reformat_value s ≡ in_quotes s) × (IsUnquoted s → ⊥)
unfolding reformat_value has_special
reformat_value-IsUnquoted [] = inl (refl, tt)
reformat_value-IsUnquoted (c ∷ s) = elim (Bool-cases (is_not_letter_or_underscore c)) [
  | inl special ↦ inr (rw (reformat_value, special) refl, λ (l, _). not-Letter c special l)
  | inr is_letter ↦ elim (Bool-cases (has_special s)) [
    | inl special ↦ inr (
      rw (reformat_value, is_letter) (rw special refl),
      λ (_, a). has_special-not-All s special a,
    )
    | inr none_special ↦ inl (
      rw (reformat_value, is_letter) (rw none_special refl),
      (letter c is_letter, has_special-Plain s none_special),
    )
  ]
]
