-- ===== src/Schema/Flattener/Laws.antt =====
-- What flattening yields: formatted keys, flat values, and the leaves of the nested object.
use eventnative.Base.{
  ℕ, ◌≡◌, refl, inl, inr, Bool, true, false, some, [], ◌∷◌, nat_eq, text_eq, arith, Option-cases,
}
use mathlib.Core.Option.{some-injective}
use eventnative.Base.Lists.{All}
use eventnative.Base.Text.{Text}
use eventnative.Value.{
  Value, nothing, boolean, text, integer, floating, instant, number, slice, object, Object, empty,
  field,
}
use eventnative.Value.Objects.{lookup, insert, lookup-insert, NodupKeys, insert-NodupKeys}
use eventnative.Typing.{GoLibrary}
use eventnative.Schema.Flattener.{
  is_special, replace_special, reformat, inner_key, flatten, flatten_fields, flatten_object,
}

-- What `unicode.ToLower` does: a letter in lower case stays, and so does the underscore.
pub record LowerLaws (go : GoLibrary) : Type 0 where
  pub lower_idem : (c : ℕ) → go.lower (go.lower c) ≡ go.lower c
  pub lower_underscore : go.lower b'_' ≡ b'_'

is_special_underscore : is_special b'_' ≡ false
unfolding is_special
is_special_underscore = refl

replace_special-plain : (c : ℕ) → is_special (replace_special c) ≡ false
unfolding replace_special
replace_special-plain c = ground (arith, is_special_underscore)

module _ (go : GoLibrary) where
  reformat_char_idem :
      LowerLaws go
      → (c : ℕ)
      → replace_special (go.lower (replace_special (go.lower c))) ≡ replace_special (go.lower c)
  unfolding replace_special
  reformat_char_idem l c = ground (arith, l.lower_idem c, l.lower_underscore, is_special_underscore)

  -- Where lowering a letter twice is lowering it once, and the underscore stays: reformatting a
  -- key a second time changes nothing.
  pub reformat_idem : LowerLaws go → (key : Text) → reformat go (reformat go key) ≡ reformat go key
  unfolding reformat
  reformat_idem l [] = refl
  reformat_idem l (c ∷ key) = cc (reformat_char_idem l c, reformat_idem l key)

  -- A reformatted key holds no special character.
  pub reformat-plain : (key : Text) → All (λ c. is_special c ≡ false) (reformat go key)
  unfolding reformat
  reformat-plain [] = tt
  reformat-plain (c ∷ key) = (replace_special-plain (go.lower c), reformat-plain key)

-- A value that a column holds: neither nil, nor an object, nor a slice.
unfoldable pub is_flat : Value → Bool
is_flat nothing = false
is_flat (object o) = false
is_flat (slice items) = false
is_flat _ = true

-- Keys are unique and hold no special character, and values are flat.
pub record Holds (k : Text) (v : Value) : Type 0 where
  pub plain : All (λ c. is_special c ≡ false) k
  pub flat : is_flat v ≡ true

abbrev pub IsRow : Object → Type 0
IsRow o = NodupKeys o × ((k : Text) (v : Value) → lookup k o ≡ some v → Holds k v)

insert-IsRow :
    (go : GoLibrary) (key : Text) (v : Value) (o : Object)
    → is_flat v ≡ true
    → IsRow o
    → IsRow (insert (reformat go key) v o)
insert-IsRow go key v o f (u, h) = (
  insert-NodupKeys (reformat go key) v o u,
  λ k w e. elim (text_eq.dec k (reformat go key)) [
    | yes p ↦
        let same : v ≡ w = ground (arith, lookup-insert k (reformat go key) v o) in
        record { plain = rw p (reformat-plain go key); flat = rw (← same) f }
    | no n ↦ h k w (ground (arith, lookup-insert k (reformat go key) v o))
  ],
)

-- Flattening keeps what every write of a flat value under a reformatted key keeps.
module _ {ℓ} (go : GoLibrary) (P : Object → Type ℓ)
    (keep : (key : Text) (v : Value) (d : Object)
      → is_flat v ≡ true
      → P d
      → P (insert (reformat go key) v d)) where
  mutual
    unfolding flatten is_flat

    flatten-keeps :
        (v : Value) (key : Text) (d d' : Object) → P d → flatten go v key d ≡ some d' → P d'
    flatten-keeps nothing key d d' h e = rw (← some-injective _ _ e) h
    flatten-keeps (slice items) key d d' h e = elim (Option-cases (go.marshal (slice items))) [
      | inl failed ↦ cc
      | inr (b, done) ↦
          let same : insert (reformat go key) (text b) d ≡ d' = ground arith in
          rw (← same) (keep key (text b) d refl h)
    ]
    flatten-keeps (object o) key d d' h e = flatten_fields-keeps o (reformat go key) d d' h e
    flatten-keeps (boolean b) key d d' h e =
        rw (← some-injective _ _ e) (keep key (boolean b) d refl h)
    flatten-keeps (text s) key d d' h e = rw (← some-injective _ _ e) (keep key (text s) d refl h)
    flatten-keeps (integer k i) key d d' h e =
        rw (← some-injective _ _ e) (keep key (integer k i) d refl h)
    flatten-keeps (floating k f) key d d' h e =
        rw (← some-injective _ _ e) (keep key (floating k f) d refl h)
    flatten-keeps (instant t) key d d' h e =
        rw (← some-injective _ _ e) (keep key (instant t) d refl h)
    flatten-keeps (number s) key d d' h e =
        rw (← some-injective _ _ e) (keep key (number s) d refl h)

    flatten_fields-keeps :
        (o : Object) (key : Text) (d d' : Object) → P d → flatten_fields go o key d ≡ some d' → P d'
    flatten_fields-keeps empty key d d' h e = rw (← some-injective _ _ e) h
    flatten_fields-keeps (field k v o) key d d' h e =
        elim (Option-cases (flatten go v (inner_key key k) d)) [
          | inl stop ↦ ground arith
          | inr (m, step) ↦
              flatten_fields-keeps o key m d' (flatten-keeps v (inner_key key k) d m h step)
                (ground arith)
        ]

-- A flattened object is a row: its keys are unique and hold no special character, and its values
-- are flat.
pub flatten_object-IsRow :
    (go : GoLibrary) (o row : Object) → flatten_object go o ≡ some row → IsRow row
unfolding flatten_object lookup
flatten_object-IsRow go o row e =
    flatten-keeps go IsRow (insert-IsRow go) (object o) [] empty row (tt, λ k v h. cc) e
