-- ===== src/Destinations/Reload.antt =====
-- No destination outlives its configuration (destinations/service.go, `init`).
use eventnative.Base.{
  ◌≡◌, refl, ap, ◌∙◌, Bool, true, false, Option, none, some, List, [], ◌∷◌, ◌==◌, text_eq, arith,
  if◌then◌else◌, Bool-cases, Option-cases, inl, inr,
}
use eventnative.Base.Dict.{Dict, lookup, insert, lookup-insert}
use eventnative.Base.Text.{Text}
use eventnative.Authorization.{TokensHolder}
use eventnative.Destinations.Creation.{
  Fresh, use_logger, with_tokens, create_tokens, create_destination, add_created, init_destination,
  init_destinations, init, nothing_new,
}
use eventnative.Destinations.Service.{
  Parts, DestinationConfig, DestinationUnit, Service, remove, remove_all, to_delete,
}
use eventnative.Destinations.Removal.{remove-Loses}

module _ (K : Parts) where
  abbrev unit_of : Text → Service K → Option (DestinationUnit K)
  unit_of n s = lookup n s.units_by_name

  remove-unit_of :
      (n name : Text) (unit : DestinationUnit K) (s s' : Service K)
      → remove K name unit s ≡ some s'
      → unit_of n s' ≡ (if n == name then none else unit_of n s)
  remove-unit_of n name unit s s' done = (remove-Loses K name unit s s' n n done).2

  -- What stays gone, and what the loop removes.
  remove_all-unit_of :
      (n : Text) (units : Dict Text (DestinationUnit K)) (s s' : Service K)
      → remove_all K units s ≡ some s'
      → unit_of n s' ≡ elim (lookup n units) [ some _ ↦ none | none ↦ unit_of n s ]
  unfolding remove_all lookup
  remove_all-unit_of n [] s s' done = ground arith
  remove_all-unit_of n ((name, unit) ∷ units) s s' done =
      elim (Option-cases (remove K name unit s)) [
        | inl panics ↦ ground arith
        | inr (s1, removed) ↦
            let rest = remove_all-unit_of n units s1 s' (ground arith) in
            ground (arith, rest, remove-unit_of n name unit s s1 removed)
      ]

  lookup-to_delete :
      (n : Text) (dc : Dict Text DestinationConfig) (units : Dict Text (DestinationUnit K))
      → lookup n dc ≡ none
      → lookup n (to_delete K dc units) ≡ lookup n units
  unfolding to_delete lookup
  lookup-to_delete n dc [] gone = refl
  lookup-to_delete n dc ((name, unit) ∷ units) gone =
      ground (arith, lookup-to_delete n dc units gone)

  use_logger-units :
      (t : Text) (s : Service K) → (use_logger K t s).1.units_by_name ≡ s.units_by_name
  unfolding use_logger
  use_logger-units t s = ground arith

  create_tokens-units :
      (name : Text) (stream : Bool) (q : Option K.Queue) (p : K.Proxy) (ts : List Text)
      (s : Service K) (f : Fresh K)
      → (create_tokens K name stream q p ts (s, f)).0.units_by_name ≡ s.units_by_name
  unfolding create_tokens
  create_tokens-units name stream q p [] s f = refl
  create_tokens-units name true q p (t ∷ ts) s f = create_tokens-units name true q p ts s _
  create_tokens-units name false q p (t ∷ ts) s f =
      create_tokens-units name false q p ts (use_logger K t s).1 _ ∙ use_logger-units t s

  -- A destination that is created changes no other unit.
  add_created-unit_of :
      (n name : Text) (d : DestinationConfig) (ts : List Text)
      (made : Option (K.Proxy × Option K.Queue)) (s : Service K) (f : Fresh K)
      → (n == name) ≡ false
      → unit_of n (add_created K name d ts made (s, f)).0 ≡ unit_of n s
  unfolding add_created
  add_created-unit_of n name d [] made s f differ = refl
  add_created-unit_of n name d (t ∷ ts) none s f differ = refl
  add_created-unit_of n name d (t ∷ ts) (some (p, q)) s f differ =
      let unit : DestinationUnit K = record {
        event_queue = q;
        storage = p;
        token_ids = t ∷ ts;
        hash = K.get_hash name d;
      } in
      ap (lookup n) (
        create_tokens-units name d.stream_mode q p (t ∷ ts)
          (record s { units_by_name = insert name unit s.units_by_name }) f)
      ∙ ground (arith, lookup-insert n name unit s.units_by_name, differ)

  create_destination-unit_of :
      (n name : Text) (d : DestinationConfig) (s : Service K) (f : Fresh K)
      → (n == name) ≡ false
      → unit_of n (create_destination K name d (s, f)).0 ≡ unit_of n s
  unfolding create_destination
  create_destination-unit_of n name d s f differ =
      add_created-unit_of n name d d.only_tokens (K.create name d) s f differ

  -- One round of the second loop brings back no other unit.
  init_destination-unit_of :
      (n name : Text) (th : TokensHolder) (d0 : DestinationConfig) (s s' : Service K)
      (f f' : Fresh K)
      → (n == name) ≡ false
      → unit_of n s ≡ none
      → init_destination K th name d0 (s, f) ≡ some (s', f')
      → unit_of n s' ≡ none
  unfolding init_destination
  init_destination-unit_of n name th d0 s s' f f' differ gone done =
      let d = with_tokens K th d0 in
      elim (Option-cases (lookup name s.units_by_name)) [
        | inl new ↦ ground (arith, create_destination-unit_of n name d s f differ)
        | inr (unit, known) ↦ elim (Bool-cases (unit.hash == K.get_hash name d)) [
          | inl same ↦ ground arith
          | inr changed ↦ elim (Option-cases (remove K name unit s)) [
            | inl panics ↦ ground arith
            | inr (s1, removed) ↦ ground (
              arith,
              create_destination-unit_of n name d s1 f differ,
              remove-unit_of n name unit s s1 removed,
            )
          ]
        ]
      ]

  init_destinations-unit_of :
      (n : Text) (th : TokensHolder) (dc : Dict Text DestinationConfig) (s s' : Service K)
      (f f' : Fresh K)
      → lookup n dc ≡ none
      → unit_of n s ≡ none
      → init_destinations K th dc (s, f) ≡ some (s', f')
      → unit_of n s' ≡ none
  unfolding init_destinations lookup
  init_destinations-unit_of n th [] s s' f f' out gone done = ground arith
  init_destinations-unit_of n th ((name, d) ∷ dc) s s' f f' out gone done =
      elim (Option-cases (init_destination K th name d (s, f))) [
        | inl panics ↦ ground arith
        | inr ((s1, f1), made) ↦
            init_destinations-unit_of n th dc s1 s' f1 f' (ground arith)
              (init_destination-unit_of n name th d s s1 f f1 (ground arith) gone made)
              (ground arith)
      ]

  -- Unless the reload panics, no unit is left afterwards whose name is not in the new configuration.
  pub init-unit_of :
      (th : TokensHolder) (dc : Dict Text DestinationConfig) (s s' : Service K) (n : Text)
      → init K th dc s ≡ some s'
      → lookup n dc ≡ none
      → lookup n s'.units_by_name ≡ none
  unfolding init
  init-unit_of th dc s s' n done out =
      elim (Option-cases (remove_all K (to_delete K dc s.units_by_name) s)) [
        | inl panics ↦ ground arith
        | inr (s1, removed) ↦ elim (Option-cases (init_destinations K th dc (s1, nothing_new K))) [
          | inl panics ↦ ground arith
          | inr ((s2, f), made) ↦
              let kept =
                init_destinations-unit_of n th dc s1 s2 (nothing_new K) f out (gone s1 removed)
                  made in
              ground arith
        ]
      ]
    where
      gone :
          (s1 : Service K)
          → remove_all K (to_delete K dc s.units_by_name) s ≡ some s1
          → unit_of n s1 ≡ none
      gone s1 removed = ground (
        arith,
        remove_all-unit_of n (to_delete K dc s.units_by_name) s s1 removed,
        lookup-to_delete n dc s.units_by_name out,
      )
