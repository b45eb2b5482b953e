-- ===== src/Base/Split.antt =====
-- Splitting a joined text gives the parts back.
use mathlib.Core.Path.{◌≡◌, refl, ap, ◌∙◌}
use mathlib.Core.Logic.{◌≢◌}
use mathlib.Core.List.{List, [], ◌∷◌, ◌++◌, append_assoc, append-nil}
use Prim.Native.Nat.{ℕ}
use native.Mathlib.Omega.{arith}
use eventnative.Base.Tests.{nat_eq}
use eventnative.Base.Lists.{All}
use eventnative.Base.Text.{Text, split_from, split, join}

module _ (sep : ℕ) where
  abbrev pub NoSeparator : Text → Type 0
  NoSeparator s = All (λ c. c ≢ sep) s

  split_from_part :
      (cur part rest : Text)
      → NoSeparator part
      → split_from cur sep (part ++ sep ∷ rest) ≡ (cur ++ part) ∷ split_from [] sep rest
  unfolding split_from
  split_from_part cur [] rest _ = rw append-nil (ground arith)
  split_from_part cur (c ∷ part) rest (h, hs) =
      ground (arith, split_from_part (cur ++ c ∷ []) part rest hs, append_assoc cur (c ∷ []) part)

  split_from_last :
      (cur part : Text) → NoSeparator part → split_from cur sep part ≡ (cur ++ part) ∷ []
  unfolding split_from
  split_from_last cur [] _ = rw append-nil refl
  split_from_last cur (c ∷ part) (h, hs) =
      ground (arith, split_from_last (cur ++ c ∷ []) part hs, append_assoc cur (c ∷ []) part)

  pub split-join :
      (p : Text) (ps : List Text)
      → All NoSeparator (p ∷ ps)
      → split (join (p ∷ ps) (sep ∷ [])) sep ≡ p ∷ ps
  unfolding split join
  split-join p [] (h, _) = split_from_last [] p h
  split-join p (q ∷ ps) (h, hs) =
      split_from_part [] p (join (q ∷ ps) (sep ∷ [])) h ∙ ap (λ l. p ∷ l) (split-join q ps hs)
