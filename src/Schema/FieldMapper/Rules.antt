-- ===== src/Schema/FieldMapper/Rules.antt =====
-- The rules that a configuration yields.
use eventnative.Base.{
  ◌≡◌, refl, Bool, true, Option, List, [], ◌∷◌, ◌++◌, ◌==◌, text_eq, arith, inl, inr, Bool-cases,
  nat_eq,
}
use mathlib.Core.Path.{subst}
use eventnative.Base.Dict.{Dict}
use eventnative.Base.Lists.{All, All-concat}
use eventnative.Base.Result.{Result, ok, >>=-eq-ok, ok-injective}
use eventnative.Base.Text.{Text, split, contains_char}
use eventnative.Schema.Mappings.{
  is_known, MappingField, Mapping, MappingError, FieldMappingType, validate,
}
use eventnative.Schema.FieldMapper.{
  MappingRule, Mapper, dummy, field_mapper, Collected, read_field, read_fields, read_parts,
  read_cast, plain_rule, read_mappings, read_old_style, read_new_style, new_field_mapper,
  given_fields, keeps_unmapped,
}

abbrev pub KnowsActions : List MappingRule → Type 0
KnowsActions rules = All (λ r. is_known r.action ≡ true) rules

validate-is_known : (mf : MappingField) → validate mf ≡ ok tt → is_known mf.action ≡ true
unfolding validate
validate-is_known mf h = ground arith

read_field-KnowsActions :
    (mf : MappingField) (rules rules' : List MappingRule) (casts casts' : Dict Text Text)
    → KnowsActions rules
    → read_field mf (rules, casts) ≡ ok (rules', casts')
    → KnowsActions rules'
unfolding read_field
read_field-KnowsActions mf rules rules' casts casts' h e =
    let (_, valid, step) = >>=-eq-ok (validate mf) _ e in
    subst (λ c. KnowsActions c.0) (ok-injective step)
      (All-concat (λ (r : MappingRule). is_known r.action ≡ true) rules h
        (validate-is_known mf valid))

read_fields-KnowsActions :
    (mfs : List MappingField) (rules rules' : List MappingRule) (casts casts' : Dict Text Text)
    → KnowsActions rules
    → read_fields mfs (rules, casts) ≡ ok (rules', casts')
    → KnowsActions rules'
unfolding read_fields
read_fields-KnowsActions [] rules rules' casts casts' h e =
    subst (λ c. KnowsActions c.0) (ok-injective e) h
read_fields-KnowsActions (mf ∷ mfs) rules rules' casts casts' h e =
    let ((more, casts''), step, rest) = >>=-eq-ok (read_field mf (rules, casts)) _ e in
    read_fields-KnowsActions mfs more rules' casts'' casts'
      (read_field-KnowsActions mf rules more casts casts'' h step) rest

plain_rule-is_known : (s d : Text) → is_known (plain_rule s d).action ≡ true
unfolding plain_rule is_known
plain_rule-is_known s d = ground arith

read_cast-KnowsActions :
    (m s : Text) (parts : List Text) (rules rules' : List MappingRule)
    (casts casts' : Dict Text Text)
    → KnowsActions rules
    → read_cast m s parts (rules, casts) ≡ ok (rules', casts')
    → KnowsActions rules'
unfolding read_cast is_known
read_cast-KnowsActions m s (c ∷ p ∷ []) rules rules' casts casts' h e =
    subst (λ c. KnowsActions c.0) (ok-injective e)
      (All-concat (λ (r : MappingRule). is_known r.action ≡ true) rules h refl)
read_cast-KnowsActions m s _ rules rules' casts casts' h e = cc

read_parts-KnowsActions :
    (m : Text) (parts : List Text) (rules rules' : List MappingRule) (casts casts' : Dict Text Text)
    → KnowsActions rules
    → read_parts m parts (rules, casts) ≡ ok (rules', casts')
    → KnowsActions rules'
unfolding read_parts
read_parts-KnowsActions m (s ∷ d ∷ []) rules rules' casts casts' h e = elim (Bool-cases (s == [])) [
  | inl bare ↦ ground arith
  | inr named ↦ elim (Bool-cases (contains_char d b')')) [
    | inl typed ↦
        read_cast-KnowsActions m s (split d b')') rules rules' casts casts' h (ground arith)
    | inr plain ↦
        let same : ◌≡◌ {A = Result MappingError Collected}
            (ok (rules ++ plain_rule s d ∷ [], casts)) (ok (rules', casts')) =
          ground arith in
        subst (λ c. KnowsActions c.0) (ok-injective same)
          (All-concat (λ (r : MappingRule). is_known r.action ≡ true) rules h
            (plain_rule-is_known s d))
  ]
]
read_parts-KnowsActions m _ rules rules' casts casts' h e = cc

read_mappings-KnowsActions :
    (ms : List Text) (rules rules' : List MappingRule) (casts casts' : Dict Text Text)
    → KnowsActions rules
    → read_mappings ms (rules, casts) ≡ ok (rules', casts')
    → KnowsActions rules'
unfolding read_mappings
read_mappings-KnowsActions [] rules rules' casts casts' h e =
    subst (λ c. KnowsActions c.0) (ok-injective e) h
read_mappings-KnowsActions (m ∷ ms) rules rules' casts casts' h e =
    let ((more, casts''), step, rest) = >>=-eq-ok (read_parts m _ (rules, casts)) _ e in
    read_mappings-KnowsActions ms more rules' casts'' casts'
      (read_parts-KnowsActions m _ rules more casts casts'' h step) rest

-- What a mapper's rules may do.
abbrev pub MapperKnowsActions : Mapper → Type 0
MapperKnowsActions dummy = Unit
MapperKnowsActions (field_mapper rules keep) = KnowsActions rules

read_old_style-KnowsActions :
    (style : FieldMappingType) (ms : List Text) (m : Mapper) (casts : Dict Text Text)
    → read_old_style style ms ≡ ok (m, casts)
    → MapperKnowsActions m
unfolding read_old_style
read_old_style-KnowsActions style [] m casts e =
    subst (λ c. MapperKnowsActions c.0) (ok-injective e) tt
read_old_style-KnowsActions style (s ∷ ms) m casts e =
    let ((rules, found), step, rest) = >>=-eq-ok (read_mappings (s ∷ ms) ([], [])) _ e in
    subst (λ c. MapperKnowsActions c.0) (ok-injective rest)
      (read_mappings-KnowsActions (s ∷ ms) [] rules [] found tt step)

read_new_style-KnowsActions :
    (keep : Bool) (mfs : List MappingField) (m : Mapper) (casts : Dict Text Text)
    → read_new_style keep mfs ≡ ok (m, casts)
    → MapperKnowsActions m
unfolding read_new_style
read_new_style-KnowsActions keep mfs m casts e =
    let ((rules, found), step, rest) = >>=-eq-ok (read_fields mfs ([], [])) _ e in
    subst (λ c. MapperKnowsActions c.0) (ok-injective rest)
      (read_fields-KnowsActions mfs [] rules [] found tt step)

-- Whatever the configuration, the rules of the mapper that it yields have one of the four actions.
pub new_field_mapper-KnowsActions :
    (style : FieldMappingType) (ms : List Text) (mapping : Option Mapping) (m : Mapper)
    (casts : Dict Text Text)
    → new_field_mapper style ms mapping ≡ ok (m, casts)
    → MapperKnowsActions m
unfolding new_field_mapper
new_field_mapper-KnowsActions style ms mapping m casts e = by_fields (given_fields mapping) refl
  where
    by_fields : (mfs : List MappingField) → given_fields mapping ≡ mfs → MapperKnowsActions m
    by_fields [] none_given =
        read_old_style-KnowsActions style ms m casts (rw (none_given, new_field_mapper) at e)
    by_fields (mf ∷ mfs) given =
        read_new_style-KnowsActions (keeps_unmapped mapping) (mf ∷ mfs) m casts
          (rw (given, new_field_mapper) at e)
