-- ===== src/JsonPath/Syntax.antt =====
-- The written form of a path.
use eventnative.Base.{ℕ, ◌≡◌, refl, ◌≢◌, ◌∙◌, false, List, [], ◌∷◌, ◌++◌, nat_eq, arith}
use eventnative.Base.Lists.{All}
use eventnative.Base.Split.{split-join}
use eventnative.Base.Text.{Text, codes, join, ends_with}
use eventnative.JsonPath.{new_json_path, path_parts, to_text}

abbrev pub NoSlash : Text → Type 0
NoSlash s = All (λ c. c ≢ b'/') s

-- The last part is not empty.
abbrev pub EndsFilled : List Text → Type 0
EndsFilled [] = Unit
EndsFilled (p ∷ []) = p ≢ []
EndsFilled (p ∷ q ∷ ps) = EndsFilled (q ∷ ps)

ends_with_part : (p : Text) → NoSlash p → ends_with p b'/' ≡ false
unfolding ends_with
ends_with_part [] _ = refl
ends_with_part (c ∷ []) (h, _) = ground arith
ends_with_part (c ∷ d ∷ p) (_, hs) = ends_with_part (d ∷ p) hs

ends_with-append : (s : Text) (c d : ℕ) (t : Text) → ends_with (s ++ d ∷ t) c ≡ ends_with (d ∷ t) c
unfolding ends_with
ends_with-append [] c d t = refl
ends_with-append (a ∷ []) c d t = refl
ends_with-append (a ∷ b ∷ s) c d t = ends_with-append (b ∷ s) c d t

ends_with_separator : (p t : Text) → t ≢ [] → ends_with (p ++ b'/' ∷ t) b'/' ≡ ends_with t b'/'
unfolding ends_with
ends_with_separator p [] h = absurd (h refl)
ends_with_separator p (c ∷ t) h = ends_with-append p b'/' b'/' (c ∷ t)

join-ne-nil : (p : Text) (ps : List Text) → EndsFilled (p ∷ ps) → join (p ∷ ps) (codes "/") ≢ []
unfolding join
join-ne-nil p [] h = h
join-ne-nil [] (q ∷ ps) h = cc
join-ne-nil (c ∷ p) (q ∷ ps) h = cc

ends_with-join :
    (p : Text) (ps : List Text)
    → All NoSlash (p ∷ ps)
    → EndsFilled (p ∷ ps)
    → ends_with (join (p ∷ ps) (codes "/")) b'/' ≡ false
unfolding join
ends_with-join p [] (h, _) f = ends_with_part p h
ends_with-join p (q ∷ ps) (h, hs) f =
    ends_with_separator p (join (q ∷ ps) (codes "/")) (join-ne-nil q ps f)
    ∙ ends_with-join q ps hs f

path_parts_of_EndsFilled :
    (p : Text) (ps : List Text) → EndsFilled (p ∷ ps) → path_parts (p ∷ ps) ≡ p ∷ ps
unfolding path_parts
path_parts_of_EndsFilled [] [] h = absurd (h refl)
path_parts_of_EndsFilled [] (q ∷ ps) h = refl
path_parts_of_EndsFilled (c ∷ p) ps h = refl

-- A path whose parts hold no slash and whose last part is not empty is read back from its text.
pub new_json_path-to_text :
    (p : Text) (ps : List Text)
    → All NoSlash (p ∷ ps)
    → EndsFilled (p ∷ ps)
    → new_json_path (to_text (record { parts = p ∷ ps })) ≡ record { parts = p ∷ ps }
unfolding new_json_path to_text
new_json_path-to_text p ps h f =
    rw (ends_with-join p ps h f, split-join b'/' p ps h, path_parts_of_EndsFilled p ps f) refl
