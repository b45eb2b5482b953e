-- ===== src/Destinations/Removal.antt =====
-- What a removal takes from the collections by token (destinations/service.go).
use eventnative.Base.{
  ◌≡◌, refl, ◌∙◌, Bool, false, ◌&&◌, ◌||◌, Option, none, some, List, [], ◌∷◌, ◌==◌, text_eq, arith,
  if◌then◌else◌, Option-cases, inl, inr,
}
use eventnative.Base.Dict.{Dict, lookup, erase, lookup-insert, lookup-erase}
use eventnative.Base.Text.{Text}
use eventnative.Destinations.{Tokenized, under}
use eventnative.Destinations.Service.{
  Parts, DestinationUnit, Service, put_back, forget, remove_consumer, remove_token, remove_tokens,
  remove,
}

abbrev pub listed : Text → List Text → Bool
listed t [] = false
listed t (u ∷ us) = t == u || listed t us

module _ {ℓ} {V : Type ℓ} where
  under-put_back :
      (t k : Text) (d : Dict Text V) (m : Tokenized V)
      → under t (put_back k d m) ≡ (if t == k then d else under t m)
  unfolding under put_back
  under-put_back t k [] m = ground (arith, lookup-erase t k m)
  under-put_back t k (p ∷ d) m = ground (arith, lookup-insert t k (p ∷ d) m)

  under-found : (k : Text) (d : Dict Text V) (m : Tokenized V) → lookup k m ≡ some d → under k m ≡ d
  unfolding under
  under-found k d m present = rw (under, present) refl

  under-missing : (k : Text) (m : Tokenized V) → lookup k m ≡ none → under k m ≡ []
  unfolding under
  under-missing k m missing = rw (under, missing) refl

  under-forget :
      (t name k : Text) (m : Tokenized V)
      → under t (forget name k m) ≡ (if t == k then erase name (under k m) else under t m)
  unfolding forget erase
  under-forget t name k m = elim (Option-cases (lookup k m)) [
    | inl missing ↦ ground (arith, under-missing k m missing, missing)
    | inr (old, present) ↦
        ground (arith, under-put_back t k (erase name old) m, under-found k old m present, present)
  ]

  pub lookup-forget :
      (t n name k : Text) (m : Tokenized V)
      → lookup n (under t (forget name k m))
        ≡ (if n == name && t == k then none else lookup n (under t m))
  lookup-forget t n name k m =
      ground (arith, under-forget t name k m, lookup-erase n name (under k m))

module _ (K : Parts) where
  -- The collections that a destination leaves.
  abbrev storage_at : Text → Text → Service K → Option K.Proxy
  storage_at t n s = lookup n (under t s.storages)

  abbrev id_at : Text → Text → Service K → Option Bool
  id_at t n s = lookup n (under t s.ids)

  remove_consumer-storages :
      (name t : Text) (q : Option K.Queue) (s s' : Service K)
      → remove_consumer K name q t s ≡ some s'
      → (s'.storages ≡ s.storages) × (s'.ids ≡ s.ids)
  unfolding remove_consumer
  remove_consumer-storages name t q s s' done = ground arith

  -- The storages and the ids of a token after a removal from some tokens.
  abbrev Loses : Text → List Text → Service K → Service K → Text → Text → Type 0
  Loses name ts s s' t n =
      (storage_at t n s' ≡ (if n == name && listed t ts then none else storage_at t n s))
      × (id_at t n s' ≡ (if n == name && listed t ts then none else id_at t n s))

  remove_token-Loses :
      (name u : Text) (q : Option K.Queue) (s s' : Service K) (t n : Text)
      → remove_token K name q u s ≡ some s'
      → (storage_at t n s' ≡ (if n == name && t == u then none else storage_at t n s))
        × (id_at t n s' ≡ (if n == name && t == u then none else id_at t n s))
  unfolding remove_token
  remove_token-Loses name u q s s' t n done = elim (Option-cases (remove_consumer K name q u s)) [
    | inl panics ↦ ground arith
    | inr (s1, removed) ↦
        let (same, same') = remove_consumer-storages name u q s s1 removed in
        ground (
          arith,
          lookup-forget t n name u s1.storages,
          lookup-forget t n name u s1.ids,
          same,
          same',
        )
  ]

  remove_tokens-Loses :
      (name : Text) (q : Option K.Queue) (ts : List Text) (s s' : Service K) (t n : Text)
      → remove_tokens K name q ts s ≡ some s'
      → Loses name ts s s' t n
  unfolding remove_tokens
  remove_tokens-Loses name q [] s s' t n done = ground arith
  remove_tokens-Loses name q (u ∷ ts) s s' t n done =
      elim (Option-cases (remove_token K name q u s)) [
        | inl panics ↦ ground arith
        | inr (s1, removed) ↦
            let (first, first') = remove_token-Loses name u q s s1 t n removed in
            let (rest, rest') = remove_tokens-Loses name q ts s1 s' t n (ground arith) in
            ground arith
      ]

  remove_token-units :
      (name u : Text) (q : Option K.Queue) (s s' : Service K)
      → remove_token K name q u s ≡ some s'
      → s'.units_by_name ≡ s.units_by_name
  unfolding remove_token remove_consumer
  remove_token-units name u q s s' done = ground arith

  remove_tokens-units :
      (name : Text) (q : Option K.Queue) (ts : List Text) (s s' : Service K)
      → remove_tokens K name q ts s ≡ some s'
      → s'.units_by_name ≡ s.units_by_name
  unfolding remove_tokens
  remove_tokens-units name q [] s s' done = ground arith
  remove_tokens-units name q (u ∷ ts) s s' done = elim (Option-cases (remove_token K name q u s)) [
    | inl panics ↦ ground arith
    | inr (s1, removed) ↦
        remove_tokens-units name q ts s1 s' (ground arith)
        ∙ remove_token-units name u q s s1 removed
  ]

  -- Unless it panics, a removal takes the destination from the storages and the ids of each of its
  -- tokens, and leaves all others: those of other destinations, and of other tokens.
  pub remove-Loses :
      (name : Text) (unit : DestinationUnit K) (s s' : Service K) (t n : Text)
      → remove K name unit s ≡ some s'
      → (lookup n (under t s'.storages)
          ≡ (if n == name && listed t unit.token_ids then none else lookup n (under t s.storages)))
        × (lookup n (under t s'.ids)
            ≡ (if n == name && listed t unit.token_ids then none else lookup n (under t s.ids)))
        × (lookup n s'.units_by_name ≡ (if n == name then none else lookup n s.units_by_name))
  unfolding remove
  remove-Loses name unit s s' t n done =
      elim (Option-cases (remove_tokens K name unit.event_queue unit.token_ids s)) [
        | inl panics ↦ ground arith
        | inr (s1, removed) ↦
            let (left, left') =
              remove_tokens-Loses name unit.event_queue unit.token_ids s s1 t n removed in
            let units = remove_tokens-units name unit.event_queue unit.token_ids s s1 removed in
            ground (arith, left, left', units, lookup-erase n name s1.units_by_name)
      ]
