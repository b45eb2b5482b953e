-- ===== src/Destinations.antt =====
-- destinations/collections.go: the maps by token and by destination. The three types of the file
-- differ in their values only.
pub mod Service
pub mod Creation
pub mod Reload
pub mod Removal
use eventnative.Base.{Option, none, some, List, [], ◌∷◌, text_eq}
use eventnative.Base.Dict.{Dict, lookup, insert}
use eventnative.Base.Text.{Text}

abbrev pub Tokenized {ℓ} : Type ℓ → Type ℓ
Tokenized V = Dict Text (Dict Text V)

module _ {ℓ} {V : Type ℓ} where
  -- What is under a token; a missing map is empty.
  unfoldable pub under : Text → Tokenized V → Dict Text V
  unfolding lookup
  under token_id m = elim (lookup token_id m) [ none ↦ [] | some d ↦ d ]

  -- `Add`
  unfoldable pub add : Text → Text → V → Tokenized V → Tokenized V
  unfolding under insert
  add token_id name proxy m = insert token_id (insert name proxy (under token_id m)) m

  -- `AddAll`, with its inner loop.
  unfoldable pub add_under : Text → Dict Text V → Tokenized V → Tokenized V
  unfolding add
  add_under token_id [] m = m
  add_under token_id ((name, v) ∷ d) m = add_under token_id d (add token_id name v m)

  unfoldable pub add_all : Tokenized V → Tokenized V → Tokenized V
  unfolding add_under
  add_all m [] = m
  add_all m ((token_id, d) ∷ other) = add_all (add_under token_id d m) other
