-- ===== src/Schema/Mappings.antt =====
-- schema/mappings.go: the mapping configuration and its validation.
use eventnative.Base.{
  Bool, true, false, not, ◌&&◌, Option, List, [], ◌==◌, text_eq, if◌then◌else◌, Eq,
}
use native.Mathlib.Decide.{ℕ_discrete}
use eventnative.Base.Result.{Result, ok, err}
use eventnative.Base.Text.{Text}
use eventnative.Value.{Value}

-- `MOVE`, `REMOVE`, `CAST`, `CONSTANT`, or a text that is none of the four.
pub data Action : Type 0 where
  move remove cast constant : Action
  other_action : Text → Action

-- `Default`, `Strict`, or another text.
pub data FieldMappingType : Type 0 where
  default strict other_type : FieldMappingType

pub record MappingField : Type 0 where
  pub src : Text
  pub dst : Text
  pub action : Action
  pub cast_type : Text
  pub value : Value

pub record Mapping : Type 0 where
  pub keep_unmapped : Option Bool
  pub fields : List MappingField

pub data MappingError : Type 0 where
  unknown_action : Action → MappingError
  src_required type_required dst_required : MappingError
  malformed empty_source malformed_cast : Text → MappingError
  blocked : List Text → MappingError

unfoldable pub is_known : Action → Bool
is_known (other_action s) = false
is_known _ = true

action_discrete : Discrete Action
action_discrete = hlevel ℕ_discrete

instance unfoldable pub action_eq : Eq Action
unfolding action_discrete
action_eq = record { dec = action_discrete }

-- `Validate`
unfoldable pub validate : MappingField → Result MappingError (Unit {0})
unfolding is_known
validate mf =
    if not (is_known mf.action)
    then err (unknown_action mf.action)
    else if (mf.src == []) && (not (mf.action == constant) && not (mf.action == cast))
    then err src_required
    else if (mf.cast_type == []) && (mf.action == cast)
    then err type_required
    else if (mf.dst == []) && not (mf.action == remove)
    then err dst_required
    else ok tt
