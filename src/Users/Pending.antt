-- ===== src/Users/Pending.antt =====
-- No anonymous event is deleted before it is stored.
use mathlib.Core.List.{append_assoc, append-nil}
use mathlib.Core.Path.{subst}
use eventnative.Base.{
  ℕ, ◌≡◌, refl, sym, ap, ◌∙◌, true, false, Option, none, some, List, [], ◌∷◌, ◌++◌, ◌==◌, text_eq,
  Option-cases, Bool-cases, ==_true, inl, inr, ◌⊎◌,
}
use eventnative.Base.Dict.{Dict}
use eventnative.Base.Result.{ok, err, Result-cases}
use eventnative.Base.Text.{Text}
use eventnative.Value.{text, Object}
use eventnative.JsonPath as JsonPath
use eventnative.JsonPath.{JsonPath}
use eventnative.Storages.Store.{StoreError}
use eventnative.Users.{
  StorageHandle, Surroundings, EventIdentifiers, configuration_of, store_recognized, recognize_in,
  recognize_found, recognize_event, recognize_events, run_pipeline,
}

abbrev pub Holds : {A : Type 0} → A → List A → Type 0
Holds x [] = ⊥
Holds x (y ∷ ys) = (x ≡ y) ⊎ Holds x ys

Holds-append : {A : Type 0} (x : A) (xs ys : List A) → Holds x xs → Holds x (xs ++ ys)
Holds-append x [] ys h = absurd h
Holds-append x (y ∷ xs) ys (inl same) = inl same
Holds-append x (y ∷ xs) ys (inr later) = inr (Holds-append x xs ys later)

Holds-last : {A : Type 0} (xs : List A) (x : A) → Holds x (xs ++ x ∷ [])
Holds-last [] x = inl refl
Holds-last (y ∷ xs) x = inr (Holds-last xs x)

-- What is kept of the anonymous events, by destination, anonymous id and event id, and what the storage
-- of a destination has taken: the objects of each `SyncStore` that ended without an error, behind
-- those from before; one that fails may have taken some of its objects. Only a deletion changes what
-- is kept, at its id.
pub record RecognitionLaws (U : Surroundings) : Type 0 where
  pub pending : Text → Text → U.World → Text → Option Text
  pub stored : Text → U.World → List Object
  pub get_pending :
      (d a j : Text) (w : U.World)
      → pending d a (U.get_anonymous_events d a w).1 j ≡ pending d a w j
  pub sync_pending :
      (d a j : Text) (h : StorageHandle U.World) (os : List Object) (w0 w : U.World)
      → U.get_storage_by_id d w0 ≡ some (some h)
      → pending d a (h.sync_store [] os [] w).1 j ≡ pending d a w j
  pub sync_ok :
      (d : Text) (h : StorageHandle U.World) (os : List Object) (w0 w : U.World) (n : ℕ)
      → U.get_storage_by_id d w0 ≡ some (some h)
      → (h.sync_store [] os [] w).0 ≡ ok n
      → stored d (h.sync_store [] os [] w).1 ≡ stored d w ++ os
  pub sync_err :
      (d : Text) (h : StorageHandle U.World) (os : List Object) (w0 w : U.World)
      (e : StoreError × ℕ)
      → U.get_storage_by_id d w0 ≡ some (some h)
      → (h.sync_store [] os [] w).0 ≡ err e
      → (more : List Object) × (stored d (h.sync_store [] os [] w).1 ≡ stored d w ++ more)
  pub delete_pending :
      (d a id j : Text) (w : U.World)
      → (j == id) ≡ false
      → pending d a (U.delete_anonymous_event d a id w).1 j ≡ pending d a w j
  pub delete_stored :
      (d a id : Text) (w : U.World) → stored d (U.delete_anonymous_event d a id w).1 ≡ stored d w

module _ (U : Surroundings) (L : RecognitionLaws U) (d : Text) (i : EventIdentifiers) where
  -- The event of a payload with the user's id, written without a failure at the place that the
  -- configuration of the destination's storage says.
  abbrev pub Recognized : Text → Object → Type 0
  Recognized payload o =
      (w : U.World) × (h : StorageHandle U.World) × (event : Object) × (U.get_storage_by_id d w
        ≡ some (some h))
      × ((configuration_of U h).enabled ≡ true)
      × (U.unmarshal payload ≡ some event)
      × ((JsonPath.set (configuration_of U h).user_id_json_path event (text i.user_id)).1 ≡ true)
      × (o ≡ (JsonPath.set (configuration_of U h).user_id_json_path event (text i.user_id)).0)

  abbrev kept : U.World → Text → Option Text
  kept w j = L.pending d i.anonymous_id w j

  abbrev Grows : U.World → U.World → Type 0
  Grows w w' = (more : List Object) × (L.stored d w' ≡ L.stored d w ++ more)

  -- From one world to another with an event in between: it is kept or stored.
  abbrev OneSafe : Text → (Object → Type 0) → U.World → U.World → Type 0
  OneSafe id R w w' =
      Grows w w'
      × ((j : Text)
          → (kept w' j ≡ kept w j) ⊎ ((j ≡ id) × (o : Object) × R o × Holds o (L.stored d w')))

  same-OneSafe : (id : Text) (R : Object → Type 0) (w : U.World) → OneSafe id R w w
  same-OneSafe id R w = (([], sym (append-nil (L.stored d w))), λ j. inl refl)

  store_recognized-OneSafe :
      (id : Text) (event : Object) (h : StorageHandle U.World) (w0 w : U.World)
      → U.get_storage_by_id d w0 ≡ some (some h)
      → OneSafe id (λ o. o ≡ event) w (store_recognized U d i id event h w)
  unfolding store_recognized
  store_recognized-OneSafe id event h w0 w found =
      let w1 = (h.sync_store [] (event ∷ []) [] w).1 in
      let w2 = (U.delete_anonymous_event d i.anonymous_id id w1).1 in
      elim (Result-cases (h.sync_store [] (event ∷ []) [] w).0) [
        | inr (e, failed) ↦
            rw (store_recognized, failed)
              (
                L.sync_err d h (event ∷ []) w0 w e found failed,
                λ j. inl (L.sync_pending d i.anonymous_id j h (event ∷ []) w0 w found),
              )
        | inl (n, good) ↦
            let grown : L.stored d w2 ≡ L.stored d w ++ event ∷ [] =
              L.delete_stored d i.anonymous_id id w1
              ∙ L.sync_ok d h (event ∷ []) w0 w n found good in
            rw (store_recognized, good)
              (
                (event ∷ [], grown),
                λ j. elim (Bool-cases (j == id)) [
                  | inl same ↦
                      inr (==_true same, event, refl, rw grown (Holds-last (L.stored d w) event))
                  | inr differ ↦ inl (
                      L.delete_pending d i.anonymous_id id j w1 differ
                      ∙ L.sync_pending d i.anonymous_id j h (event ∷ []) w0 w found)
                ],
              )
      ]

  recognize_in-OneSafe :
      (id payload : Text) (event : Object) (h : StorageHandle U.World) (w0 w : U.World)
      → U.unmarshal payload ≡ some event
      → U.get_storage_by_id d w0 ≡ some (some h)
      → OneSafe id (Recognized payload) w (recognize_in U d i id event h w)
  unfolding recognize_in
  recognize_in-OneSafe id payload event h w0 w parsed found =
      let c = configuration_of U h in
      let (event', done) = JsonPath.set c.user_id_json_path event (text i.user_id) in
      elim (Bool-cases c.enabled) [
        | inr off ↦ rw (recognize_in, off) (same-OneSafe id (Recognized payload) w)
        | inl on ↦ elim (Bool-cases done) [
          | inr not_set ↦
              rw (recognize_in, on) (rw not_set (same-OneSafe id (Recognized payload) w))
          | inl is_set ↦
              let (grows, safe) = store_recognized-OneSafe id event' h w0 w found in
              rw (recognize_in, on)
                (rw is_set (
                  grows,
                  λ j. elim (safe j) [
                    | inl same ↦ inl same
                    | inr (at, o, is_event, holds) ↦
                        inr (at, o, (w0, h, event, found, on, parsed, is_set, is_event), holds)
                  ],
                ))
        ]
      ]

  recognize_found-OneSafe :
      (id payload : Text) (event : Object) (found : Option (Option (StorageHandle U.World)))
      (w : U.World)
      → U.unmarshal payload ≡ some event
      → U.get_storage_by_id d w ≡ found
      → OneSafe id (Recognized payload) w (recognize_found U d i id event found w)
  unfolding recognize_found
  recognize_found-OneSafe id payload event none w parsed is_found =
      same-OneSafe id (Recognized payload) w
  recognize_found-OneSafe id payload event (some none) w parsed is_found =
      same-OneSafe id (Recognized payload) w
  recognize_found-OneSafe id payload event (some (some h)) w parsed is_found =
      recognize_in-OneSafe id payload event h w w parsed is_found

  recognize_event-OneSafe :
      (id payload : Text) (w : U.World)
      → OneSafe id (Recognized payload) w (recognize_event U d i (id, payload) w)
  unfolding recognize_event
  recognize_event-OneSafe id payload w = elim (Option-cases (U.unmarshal payload)) [
    | inl malformed ↦
        let step : recognize_event U d i (id, payload) w ≡ w =
          rw (recognize_event, malformed) refl in
        subst (λ w'. OneSafe id (Recognized payload) w w') (sym step)
          (same-OneSafe id (Recognized payload) w)
    | inr (event, parsed) ↦
        let found = U.get_storage_by_id d w in
        let step : recognize_event U d i (id, payload) w ≡ recognize_found U d i id event found w =
          rw (recognize_event, parsed) refl in
        subst (λ w'. OneSafe id (Recognized payload) w w') (sym step)
          (recognize_found-OneSafe id payload event found w parsed refl)
  ]

  -- An event that is no longer kept was among those that were read, and is stored with the user's id.
  abbrev pub IsStored : Dict Text Text → U.World → Text → Type 0
  IsStored events w j =
      (payload : Text) × (o : Object) × Holds (j, payload) events
      × Recognized payload o
      × Holds o (L.stored d w)

  recognize_events-IsStored :
      (events : Dict Text Text) (w : U.World)
      → Grows w (recognize_events U d i events w)
        × ((j : Text)
            → (kept (recognize_events U d i events w) j ≡ kept w j)
              ⊎ IsStored events (recognize_events U d i events w) j)
  unfolding recognize_events
  recognize_events-IsStored [] w = (([], sym (append-nil (L.stored d w))), λ j. inl refl)
  recognize_events-IsStored ((id, payload) ∷ events) w =
      let w1 = recognize_event U d i (id, payload) w in
      let ((more, grown), one) = recognize_event-OneSafe id payload w in
      let ((more', grown'), rest) = recognize_events-IsStored events w1 in
      (
        (
          more ++ more',
          grown' ∙ ap (λ l. l ++ more') grown ∙ append_assoc (L.stored d w) more more',
        ),
        λ j. elim (rest j) [
          | inr (p, o, held, recognized, holds) ↦ inr (p, o, inr held, recognized, holds)
          | inl same' ↦ elim (one j) [
            | inl same ↦ inl (same' ∙ same)
            | inr (at, o, recognized, holds) ↦ inr (
              payload,
              o,
              inl (rw at refl),
              recognized,
              rw grown' (Holds-append o (L.stored d w1) more' holds),
            )
          ]
        ],
      )

  -- Where only a deletion changes what the meta storage keeps, at its id, and a `SyncStore` without an
  -- error adds its objects to those that the storage of a destination has taken, and none takes any
  -- away: behind `runPipeline`, an anonymous event is kept in the meta storage as it was before, or it
  -- was one of the events that the meta storage returned, and the storage of the destination has
  -- taken that event, with the user's id written into it where the configuration of that storage says.
  pub run_pipeline-IsStored :
      (w : U.World) (j : Text)
      → (kept (run_pipeline U d i w).1 j ≡ kept w j)
        ⊎ (events : Dict Text Text) × ((U.get_anonymous_events d i.anonymous_id w).0 ≡ ok events)
          × IsStored events (run_pipeline U d i w).1 j
  unfolding run_pipeline
  run_pipeline-IsStored w j =
      let (r, w1) = U.get_anonymous_events d i.anonymous_id w in
      elim (Result-cases r) [
        | inr (e, failed) ↦ inl (rw (run_pipeline, failed) (L.get_pending d i.anonymous_id j w))
        | inl (events, good) ↦ elim ((recognize_events-IsStored events w1).1 j) [
          | inl same ↦ inl (rw (run_pipeline, good) (same ∙ L.get_pending d i.anonymous_id j w))
          | inr stored ↦ inr (events, good, rw (run_pipeline, good) stored)
        ]
      ]
