-- ===== src/Typing/Lattice.antt =====
-- `GetCommonAncestorType` as the join of a semilattice.
use eventnative.Base.{◌≡◌, ◌≢◌, true, arith}
use eventnative.Typing.{DataType, unknown, GoLibrary, data_type_eq}
use eventnative.Typing.Converter.{get_common_ancestor_type as join, is_convertible}

-- The order of the types does not matter.
pub join_comm : (t u : DataType) → join t u ≡ join u t
unfolding join
join_comm t u = ground arith

-- The common ancestor of three types does not depend on how they are grouped.
pub join_assoc : (t u v : DataType) → join (join t u) v ≡ join t (join u v)
unfolding join
join_assoc t u v = ground arith

pub join_idem : (t : DataType) → join t t ≡ t
unfolding join
join_idem t = ground arith

-- A known type converts to its common ancestor with another known type.
pub is_convertible-join :
    (go : GoLibrary) (t u : DataType)
    → t ≢ unknown
    → u ≢ unknown
    → is_convertible go t (join t u) ≡ true
unfolding join is_convertible data_type_eq
is_convertible-join go t u h k = ground arith

-- Whatever two types both convert to, their common ancestor converts to.
pub join_least :
    (go : GoLibrary) (t u w : DataType)
    → is_convertible go t w ≡ true
    → is_convertible go u w ≡ true
    → is_convertible go (join t u) w ≡ true
unfolding join is_convertible data_type_eq
join_least go t u w h k = ground arith
