-- ===== src/Schema/BatchHeader/Types.antt =====
-- The type of a field is the join of the types that occurred, in whatever order the map yields them.
use eventnative.Base.{◌≡◌, refl, sym, ap, ◌∙◌, ◌≢◌, Bool, true, false, none, some, [], ◌∷◌, arith}
use eventnative.Base.Dict.{Dict, lookup}
use eventnative.Typing.{DataType, data_type_eq}
use eventnative.Typing.Converter.{get_common_ancestor_type as join}
use eventnative.Typing.Lattice.{join_comm, join_assoc, join_idem}
use eventnative.Schema.BatchHeader.{common_type, common_of}

-- Whether a type is a key of the map.
unfoldable pub occurs : DataType → Dict DataType Bool → Bool
occurs t types = elim (lookup t types) [ none ↦ false | some _ ↦ true ]

below_left : (c t x : DataType) → join (join c t) x ≡ x → join c x ≡ x
below_left c t x h =
    let expanded : join c x ≡ join c (join (join c t) x) = ap (join c) (sym h) in
    let folded : join c (join c t) ≡ join c t =
      sym (join_assoc c c t) ∙ ap (λ a. join a t) (join_idem c) in
    expanded ∙ (sym (join_assoc c (join c t) x) ∙ (ap (λ a. join a x) folded ∙ h))

below_right : (c t x : DataType) → join (join c t) x ≡ x → join t x ≡ x
below_right c t x h = below_left t c x (ap (λ a. join a x) (join_comm t c) ∙ h)

common_type-upper :
    (c : DataType) (types : Dict DataType Bool) → join c (common_type c types) ≡ common_type c types
unfolding common_type
common_type-upper c [] = join_idem c
common_type-upper c ((t, _) ∷ types) = below_left c t _ (common_type-upper (join c t) types)

common_type-occurs :
    (c u : DataType) (types : Dict DataType Bool)
    → occurs u types ≡ true
    → join u (common_type c types) ≡ common_type c types
unfolding common_type occurs lookup
common_type-occurs c u [] h = cc
common_type-occurs c u ((t, _) ∷ types) h = ground (
  arith,
  below_right c t _ (common_type-upper (join c t) types),
  common_type-occurs (join c t) u types,
)

join_least : (c t w : DataType) → join c w ≡ w → join t w ≡ w → join (join c t) w ≡ w
join_least c t w h k = join_assoc c t w ∙ (ap (join c) k ∙ h)

occurs-head :
    (t : DataType) (b : Bool) (types : Dict DataType Bool) → occurs t ((t, b) ∷ types) ≡ true
unfolding occurs lookup
occurs-head t b types = ground arith

occurs-tail :
    (u t : DataType) (b : Bool) (types : Dict DataType Bool)
    → occurs u types ≡ true
    → occurs u ((t, b) ∷ types) ≡ true
unfolding occurs lookup
occurs-tail u t b types h = ground arith

common_type-least :
    (c w : DataType) (types : Dict DataType Bool)
    → join c w ≡ w
    → ((u : DataType) → occurs u types ≡ true → join u w ≡ w)
    → join (common_type c types) w ≡ w
unfolding common_type
common_type-least c w [] h all = h
common_type-least c w ((t, b) ∷ types) h all =
    common_type-least (join c t) w types (join_least c t w h (all t (occurs-head t b types)))
      (λ u e. all u (occurs-tail u t b types e))

-- Of a map that is not empty: above all that occurs, and below all that is above that.
pub common_of-occurs :
    (u : DataType) (types : Dict DataType Bool)
    → occurs u types ≡ true
    → join u (common_of types) ≡ common_of types
unfolding common_of occurs lookup
common_of-occurs u [] h = cc
common_of-occurs u ((t, b) ∷ types) h =
    ground (arith, common_type-upper t types, common_type-occurs t u types)

common_of-least :
    (w : DataType) (p : DataType × Bool) (types : Dict DataType Bool)
    → ((u : DataType) → occurs u (p ∷ types) ≡ true → join u w ≡ w)
    → join (common_of (p ∷ types)) w ≡ w
unfolding common_of
common_of-least w (t, b) types all =
    common_type-least t w types (all t (occurs-head t b types))
      (λ u e. all u (occurs-tail u t b types e))

common_of-below :
    (xs ys : Dict DataType Bool)
    → ((u : DataType) → occurs u xs ≡ true → occurs u ys ≡ true)
    → xs ≢ []
    → join (common_of xs) (common_of ys) ≡ common_of ys
common_of-below [] ys h full = absurd (full refl)
common_of-below (p ∷ xs) ys h full =
    common_of-least (common_of ys) p xs (λ u e. common_of-occurs u ys (h u e))

nil_of_no_occurs : (ys : Dict DataType Bool) → ((u : DataType) → occurs u ys ≡ false) → ys ≡ []
nil_of_no_occurs [] h = refl
nil_of_no_occurs ((t, b) ∷ ys) h = ground (arith, h t, occurs-head t b ys)

-- The common type depends on the set of the types alone, and on no order among them.
pub common_of_ext :
    (xs ys : Dict DataType Bool)
    → ((u : DataType) → occurs u xs ≡ occurs u ys)
    → common_of xs ≡ common_of ys
unfolding occurs lookup
common_of_ext [] ys h = ap common_of (sym (nil_of_no_occurs ys (λ u. sym (h u))))
common_of_ext (p ∷ xs) [] h = ap common_of (nil_of_no_occurs (p ∷ xs) h)
common_of_ext (p ∷ xs) (q ∷ ys) h =
    sym (common_of-below (q ∷ ys) (p ∷ xs) (λ u e. h u ∙ e) (λ e. cc))
    ∙ (join_comm _ _ ∙ common_of-below (p ∷ xs) (q ∷ ys) (λ u e. sym (h u) ∙ e) (λ e. cc))
