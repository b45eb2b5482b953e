-- ===== src/Schema/MapObject/Laws.antt =====
-- What a mapping does to an object.
use eventnative.Base.{
  ◌≡◌, refl, inl, inr, ◌⊎◌, true, false, Option, none, some, List, [], ◌∷◌, text_eq, arith,
}
use eventnative.Base.Result.{ok, err, Result-cases, >>=-eq-err}
use eventnative.Value.{Value, Object, empty}
use eventnative.JsonPath.{JsonPath, get, get_and_remove, is_empty}
use eventnative.JsonPath.Laws.{get_and_remove_lem, get-set, is_blocked, set-eq-is_blocked}
use eventnative.Schema.Mappings.{
  Action, move, remove, cast, constant, other_action, is_known, MappingError, blocked,
}
use eventnative.Schema.FieldMapper.{MappingRule, Mapper, dummy, field_mapper}
use eventnative.Schema.FieldMapper.Rules.{KnowsActions, MapperKnowsActions}
use eventnative.Schema.MapObject.{
  Targets, shared, separate, source_of, destination_of, take_source, set_destination, apply_rule,
  put_found, apply_mapping, map,
}

set_destination-blocked :
    (p : JsonPath) (v : Value) (t : Targets) (e : MappingError)
    → set_destination p v t ≡ err e
    → (e ≡ blocked p.parts) × (is_blocked p.parts (destination_of t) ≡ true)
unfolding set_destination
set_destination-blocked p v (shared o) e h =
    let eq = set-eq-is_blocked p o v in (ground arith, ground (arith, eq))
set_destination-blocked p v (separate s d) e h =
    let eq = set-eq-is_blocked p d v in (ground arith, ground (arith, eq))

-- The object that a rule writes to, at that moment: a move has taken its source away.
abbrev written_to : MappingRule → Targets → Object
written_to r t = elim r.action [
  | move ↦ destination_of (take_source r.source t).0
  | _ ↦ destination_of t
]

-- The error of a rule whose destination cannot be written, since a proper prefix of it leads to a value
-- that is no object.
abbrev pub IsBlocked : MappingRule → Targets → MappingError → Type 0
IsBlocked r t e =
    (e ≡ blocked r.destination.parts) × (is_blocked r.destination.parts (written_to r t) ≡ true)

-- The first rule that fails, behind those that were applied.
abbrev pub FailsAt : List MappingRule → Targets → MappingError → Type 0
FailsAt [] t e = ⊥
FailsAt (r ∷ rules) t e =
    IsBlocked r t e ⊎ ((t' : Targets) × (apply_rule r t ≡ ok t') × FailsAt rules t' e)

abbrev pub MapperFailsAt : Mapper → Object → MappingError → Type 0
MapperFailsAt dummy o e = ⊥
MapperFailsAt (field_mapper rules true) o e = FailsAt rules (shared o) e
MapperFailsAt (field_mapper rules false) o e = FailsAt rules (separate o empty) e

put_found-blocked :
    (p : JsonPath) (found : Option Value) (t : Targets) (e : MappingError)
    → put_found p found t ≡ err e
    → (e ≡ blocked p.parts) × (is_blocked p.parts (destination_of t) ≡ true)
unfolding put_found
put_found-blocked p none t e h = cc
put_found-blocked p (some v) t e h = set_destination-blocked p v t e h

apply_rule_of :
    (a : Action) (r : MappingRule) (t : Targets) (e : MappingError)
    → r.action ≡ a
    → is_known a ≡ true
    → apply_rule r t ≡ err e
    → IsBlocked r t e
unfolding apply_rule is_known
apply_rule_of move r t e same k h =
    rw same (put_found-blocked r.destination _ _ e (rw (same, apply_rule) at h))
apply_rule_of remove r t e same k h = absurd (ground arith)
apply_rule_of cast r t e same k h = absurd (ground arith)
apply_rule_of constant r t e same k h =
    rw same (set_destination-blocked r.destination r.value t e (rw (same, apply_rule) at h))
apply_rule_of (other_action a) r t e same k h = cc

apply_mapping-blocked :
    (rules : List MappingRule) (t : Targets) (e : MappingError)
    → KnowsActions rules
    → apply_mapping rules t ≡ err e
    → FailsAt rules t e
unfolding apply_mapping
apply_mapping-blocked [] t e k h = cc
apply_mapping-blocked (r ∷ rules) t e (k, ks) h = elim (Result-cases (apply_rule r t)) [
  | inl (t', step) ↦
      inr (t', step, apply_mapping-blocked rules t' e ks (rw (step, apply_mapping) at h))
  | inr (e', step) ↦
      let same : e' ≡ e = ground arith in
      inl (apply_rule_of r.action r t e refl k (rw same at step))
]

-- A mapper whose rules have known actions fails only at a rule before which all rules succeed, with
-- the path of its destination, and there a proper prefix of that path leads, in the object that is
-- written, to a value that is no object.
pub map-blocked :
    (m : Mapper) (o : Object) (e : MappingError)
    → MapperKnowsActions m
    → map m o ≡ err e
    → MapperFailsAt m o e
unfolding map
map-blocked dummy o e k h = cc
map-blocked (field_mapper rules true) o e k h =
    apply_mapping-blocked rules (shared o) e k (>>=-eq-err _ _ (λ t. λ c. cc) h)
map-blocked (field_mapper rules false) o e k h =
    apply_mapping-blocked rules (separate o empty) e k (>>=-eq-err _ _ (λ t. λ c. cc) h)

-- A move to a destination that is not empty puts the value of its source there, in both modes,
-- unless it fails.
pub apply_rule_move :
    (r : MappingRule) (t t' : Targets) (v : Value)
    → r.action ≡ move
    → get r.source (source_of t) ≡ some v
    → is_empty r.destination ≡ false
    → apply_rule r t ≡ ok t'
    → get r.destination (destination_of t') ≡ some v
unfolding apply_rule take_source set_destination put_found
apply_rule_move r (shared o) t' v same found full h =
    let removed = (get_and_remove_lem r.source o).0 in
    ground (arith, removed, get-set r.destination (get_and_remove r.source o).0 v full)
apply_rule_move r (separate s d) t' v same found full h =
    let removed = (get_and_remove_lem r.source s).0 in
    ground (arith, removed, get-set r.destination d v full)
