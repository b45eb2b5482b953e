-- ===== src/Schema/MapObject/Strict.antt =====
-- The strict mode: what stays of an object besides the mapped fields.
use eventnative.Base.{
  ◌≡◌, refl, ◌∙◌, ◌||◌, inl, inr, Option-cases, Bool, true, false, Option, none, some, List, [],
  ◌∷◌, ◌==◌, text_eq, arith, if◌then◌else◌,
}
use eventnative.Base.Lists.{All}
use eventnative.Base.Result.{ok, >>=-eq-ok, ok-injective}
use eventnative.Base.Text.{Text}
use eventnative.Value.{Value, Object, empty}
use eventnative.Value.Objects.{lookup, insert, lookup-insert}
use eventnative.JsonPath.{JsonPath, get_and_remove, get_and_remove_parts, set, set_parts}
use eventnative.JsonPath.Frame.{set_parts-lookup, removed_parts-lookup}
use eventnative.Schema.Mappings.{Action, move, remove, cast, constant, other_action}
use eventnative.Schema.FieldMapper.{MappingRule, field_mapper, system_fields}
use eventnative.Schema.MapObject.{
  Targets, separate, source_of, destination_of, take_source, set_destination, put_found, apply_rule,
  apply_mapping, copy_fields, map,
}

-- Whether a path begins at the field.
abbrev pub begins : Text → JsonPath → Bool
begins f p = elim p.parts [ [] ↦ false | k ∷ ps ↦ f == k ]

get_and_remove-lookup_at :
    (f : Text) (ps : List Text) (o : Object)
    → begins f (record { parts = ps }) ≡ false
    → lookup f (get_and_remove_parts ps o true).0 ≡ lookup f o
unfolding get_and_remove_parts
get_and_remove-lookup_at f [] o h = refl
get_and_remove-lookup_at f (k ∷ ps) o h = removed_parts-lookup f k ps o (ground arith)

set-lookup_at :
    (f : Text) (ps : List Text) (o : Object) (v : Value)
    → begins f (record { parts = ps }) ≡ false
    → lookup f (set_parts ps o v).0 ≡ lookup f o
unfolding set_parts
set-lookup_at f [] o v h = refl
set-lookup_at f (k ∷ ps) o v h = set_parts-lookup f k ps o v (ground arith)

-- What a step leaves alone: the two maps stay apart, and so does the field in the source if the
-- rule's source does not begin there, and in the destination if the rule's destination does not.
module _ (f : Text) (s d : Object) where
  abbrev Keeps : Bool → Bool → Targets → Type 0
  Keeps reads writes t =
      (t ≡ separate (source_of t) (destination_of t))
      × (reads ≡ false → lookup f (source_of t) ≡ lookup f s)
      × (writes ≡ false → lookup f (destination_of t) ≡ lookup f d)

  put_found-Keeps :
      (p : JsonPath) (found : Option Value) (reads : Bool) (s' : Object) (t : Targets)
      → (reads ≡ false → lookup f s' ≡ lookup f s)
      → put_found p found (separate s' d) ≡ ok t
      → Keeps reads (begins f p) t
  unfolding put_found set_destination set
  put_found-Keeps p none reads s' t k h = ground arith
  put_found-Keeps p (some v) reads s' t k h = ground (arith, set-lookup_at f p.parts d v)

  apply_rule-Keeps :
      (a : Action) (r : MappingRule) (t : Targets)
      → r.action ≡ a
      → apply_rule r (separate s d) ≡ ok t
      → Keeps (begins f r.source) (begins f r.destination) t
  unfolding apply_rule take_source get_and_remove
  apply_rule-Keeps move r t same h =
      put_found-Keeps r.destination _ (begins f r.source)
        (get_and_remove_parts r.source.parts s true).0 t
        (get_and_remove-lookup_at f r.source.parts s) (rw (same, apply_rule) at h)
  apply_rule-Keeps remove r t same h = ground (arith, get_and_remove-lookup_at f r.source.parts s)
  apply_rule-Keeps cast r t same h = ground arith
  apply_rule-Keeps constant r t same h =
      let (a, b, c) =
        put_found-Keeps r.destination (some r.value) false s t (λ _. refl)
          (unfold put_found in (rw (same, apply_rule) at h)) in
      (a, λ _. b refl, c)
  apply_rule-Keeps (other_action x) r t same h = cc

abbrev pub NoneReads : Text → List MappingRule → Type 0
NoneReads f rules = All (λ r. begins f r.source ≡ false) rules

abbrev pub NoneWrites : Text → List MappingRule → Type 0
NoneWrites f rules = All (λ r. begins f r.destination ≡ false) rules

module _ (f : Text) where
  apply_mapping-source :
      (rules : List MappingRule) (s d : Object) (t : Targets)
      → NoneReads f rules
      → apply_mapping rules (separate s d) ≡ ok t
      → lookup f (source_of t) ≡ lookup f s
  unfolding apply_mapping
  apply_mapping-source [] s d t k h = ground arith
  apply_mapping-source (r ∷ rules) s d t (k, ks) h =
      let (t', step, rest) = >>=-eq-ok (apply_rule r (separate s d)) _ h in
      let (apart, reads, _) = apply_rule-Keeps f s d r.action r t' refl step in
      apply_mapping-source rules _ _ t ks (rw apart at rest) ∙ reads k

  apply_mapping-destination :
      (rules : List MappingRule) (s d : Object) (t : Targets)
      → NoneWrites f rules
      → apply_mapping rules (separate s d) ≡ ok t
      → lookup f (destination_of t) ≡ lookup f d
  unfolding apply_mapping
  apply_mapping-destination [] s d t k h = ground arith
  apply_mapping-destination (r ∷ rules) s d t (k, ks) h =
      let (t', step, rest) = >>=-eq-ok (apply_rule r (separate s d)) _ h in
      let (apart, _, writes) = apply_rule-Keeps f s d r.action r t' refl step in
      apply_mapping-destination rules _ _ t ks (rw apart at rest) ∙ writes k

  abbrev pub listed : List Text → Bool
  listed [] = false
  listed (name ∷ names) = f == name || listed names

  copy_fields-lookup :
      (names : List Text) (o m : Object)
      → lookup f (copy_fields names o m) ≡ (
          if listed names
          then elim (lookup f o) [ none ↦ lookup f m | some v ↦ some v ]
          else lookup f m)
  unfolding copy_fields
  copy_fields-lookup [] o m = refl
  copy_fields-lookup (name ∷ names) o m = elim (Option-cases (lookup name o)) [
    | inl absent ↦ ground (arith, copy_fields-lookup names o m)
    | inr (v, present) ↦
        ground (arith, copy_fields-lookup names o (insert name v m), lookup-insert f name v m)
  ]

module _ (f : Text) (rules : List MappingRule) (o m : Object) where
  -- In the strict mode, unless the mapping fails, a system field that no rule takes from stays
  -- as it was.
  pub map-strict_system :
      (v : Value)
      → map (field_mapper rules false) o ≡ ok m
      → NoneReads f rules
      → listed f system_fields ≡ true
      → lookup f o ≡ some v
      → lookup f m ≡ some v
  unfolding map
  map-strict_system v h spared is_system e =
      let (t, mapped, copied) = >>=-eq-ok (apply_mapping rules (separate o empty)) _ h in
      let kept = apply_mapping-source f rules o empty t spared mapped in
      rw (← ok-injective copied, copy_fields-lookup, is_system, kept, e) refl

  -- In the strict mode, unless the mapping fails, a field that is no system field, and that no
  -- rule writes to, is dropped.
  pub map-strict_dropped :
      map (field_mapper rules false) o ≡ ok m
      → NoneWrites f rules
      → listed f system_fields ≡ false
      → lookup f m ≡ none
  unfolding map lookup
  map-strict_dropped h unwritten not_system =
      let (t, mapped, copied) = >>=-eq-ok (apply_mapping rules (separate o empty)) _ h in
      let kept = apply_mapping-destination f rules o empty t unwritten mapped in
      rw (← ok-injective copied, copy_fields-lookup, not_system) kept
