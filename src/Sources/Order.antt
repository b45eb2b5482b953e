-- ===== src/Sources/Order.antt =====
-- The order of the effects of a synchronization (sources/sync_task.go).
use mathlib.Core.List.{append_assoc}
use mathlib.Core.Path.{subst}
use eventnative.Base.{
  some, ◌≡◌, refl, sym, ap, ◌∙◌, Bool, true, false, List, [], ◌∷◌, ◌++◌, ◌⊎◌, inl, inr, arith, map,
  Bool-cases, Option-cases,
}
use eventnative.Base.Lists.{All}
use eventnative.Base.Text.{Text, codes}
use eventnative.Value.{Object}
use eventnative.Drivers.{TimeInterval, to_text, calculate_signature_from}
use eventnative.Sources.{
  Call, saved_status, saved_log, stored, saved_signature, World, SyncTask, select, store_all,
  enrich_object, save_signature, sync_interval, sync_intervals, body, sync,
  update_collection_status,
}

-- A destination has stored these objects of an interval.
abbrev pub Stored : Text → List Object → Text → List Call → Type 0
Stored interval objects d [] = ⊥
Stored interval objects d (stored e i os true ∷ calls) =
    ((e ≡ d) × (i ≡ interval) × (os ≡ objects)) ⊎ Stored interval objects d calls
Stored interval objects d (_ ∷ calls) = Stored interval objects d calls

-- The sequences of calls in which the signature of an interval is saved only when all the destinations
-- have stored before, enriched, the objects that the driver returns for that interval.
pub data IsBacked (w : World) (st : SyncTask) : List Call → Type 0 where
  start : IsBacked w st []
  status :
      {calls : List Call} (s : Text)
      → IsBacked w st calls
      → IsBacked w st (calls ++ saved_status s ∷ [])
  log :
      {calls : List Call} (s : Text)
      → IsBacked w st calls
      → IsBacked w st (calls ++ saved_log s ∷ [])
  store :
      {calls : List Call} (d i : Text) (objects : List Object) (done : Bool)
      → IsBacked w st calls
      → IsBacked w st (calls ++ stored d i objects done ∷ [])
  signature :
      {calls : List Call} (interval : TimeInterval) (objects : List Object)
      → w.get_objects_for interval ≡ some objects
      → All
          (λ d.
            Stored
              (to_text w.calendar interval)
              (map (enrich_object w st interval) objects)
              d
              calls)
          st.destinations
      → IsBacked w st calls
      → IsBacked w st (
          calls
          ++ saved_signature
              (to_text w.calendar interval)
              (calculate_signature_from w.calendar interval w.now)
            ∷ [])

Stored-more :
    (i : Text) (os : List Object) (d : Text) (calls more : List Call)
    → Stored i os d calls
    → Stored i os d (calls ++ more)
Stored-more i os d [] more h = elim h [ ]
Stored-more i os d (stored e j ps true ∷ calls) more (inl h) = inl h
Stored-more i os d (stored e j ps true ∷ calls) more (inr h) = inr (Stored-more i os d calls more h)
Stored-more i os d (stored e j ps false ∷ calls) more h = Stored-more i os d calls more h
Stored-more i os d (saved_status s ∷ calls) more h = Stored-more i os d calls more h
Stored-more i os d (saved_log s ∷ calls) more h = Stored-more i os d calls more h
Stored-more i os d (saved_signature j s ∷ calls) more h = Stored-more i os d calls more h

Stored-last :
    (i d : Text) (objects : List Object) (calls : List Call)
    → Stored i objects d (calls ++ stored d i objects true ∷ [])
Stored-last i d objects [] = inl (refl, refl, refl)
Stored-last i d objects (stored e j os true ∷ calls) = inr (Stored-last i d objects calls)
Stored-last i d objects (stored e j os false ∷ calls) = Stored-last i d objects calls
Stored-last i d objects (saved_status s ∷ calls) = Stored-last i d objects calls
Stored-last i d objects (saved_log s ∷ calls) = Stored-last i d objects calls
Stored-last i d objects (saved_signature j s ∷ calls) = Stored-last i d objects calls

module _ (w : World) (st : SyncTask) where
  -- The loop keeps the calls backed, and the calls that there were.
  store_all-IsBacked :
      (i : Text) (objects : List Object) (ds : List Text) (calls : List Call)
      → IsBacked w st calls
      → IsBacked w st (store_all w st i objects ds calls).0
  unfolding store_all
  store_all-IsBacked i objects [] calls h = h
  store_all-IsBacked i objects (d ∷ ds) calls h =
      elim (Bool-cases (w.sync_store calls d w.collection_table objects i)) [
        | inl e ↦ rw e (
            store_all-IsBacked i objects ds (calls ++ stored d i objects true ∷ [])
              (store d i objects true h))
        | inr e ↦ rw e (store d i objects false h)
      ]

  store_all-Stored :
      (d i : Text) (objects : List Object) (ds : List Text) (calls : List Call)
      → Stored i objects d calls
      → Stored i objects d (store_all w st i objects ds calls).0
  unfolding store_all
  store_all-Stored d i objects [] calls h = h
  store_all-Stored d i objects (e ∷ ds) calls h =
      elim (Bool-cases (w.sync_store calls e w.collection_table objects i)) [
        | inl s ↦ rw s (
            store_all-Stored d i objects ds (calls ++ stored e i objects true ∷ [])
              (Stored-more i objects d calls (stored e i objects true ∷ []) h))
        | inr s ↦ rw s (Stored-more i objects d calls (stored e i objects false ∷ []) h)
      ]

  store_all-done :
      (i : Text) (objects : List Object) (d : Text) (ds : List Text) (calls : List Call)
      → w.sync_store calls d w.collection_table objects i ≡ true
      → store_all w st i objects (d ∷ ds) calls
        ≡ store_all w st i objects ds (calls ++ stored d i objects true ∷ [])
  unfolding store_all
  store_all-done i objects d ds calls s = rw s refl

  store_all-undone :
      (i : Text) (objects : List Object) (d : Text) (ds : List Text) (calls : List Call)
      → w.sync_store calls d w.collection_table objects i ≡ false
      → (store_all w st i objects (d ∷ ds) calls).1 ≡ false
  unfolding store_all
  store_all-undone i objects d ds calls s = rw s refl

  -- When the loop ends well, every destination has stored.
  store_all-All :
      (i : Text) (objects : List Object) (ds : List Text) (calls calls' : List Call)
      → store_all w st i objects ds calls ≡ (calls', true)
      → All (λ d. Stored i objects d calls') ds
  store_all-All i objects [] calls calls' h = tt
  store_all-All i objects (d ∷ ds) calls calls' h =
      elim (Bool-cases (w.sync_store calls d w.collection_table objects i)) [
        | inl s ↦
            let rest = sym (store_all-done i objects d ds calls s) ∙ h in
            (
              subst (Stored i objects d) (ap (λ r. r.0) rest) (
                  store_all-Stored d i objects ds (calls ++ stored d i objects true ∷ [])
                    (Stored-last i d objects calls)),
              store_all-All i objects ds (calls ++ stored d i objects true ∷ []) calls' rest,
            )
        | inr s ↦
            absurd (ground (arith, sym (store_all-undone i objects d ds calls s) ∙ ap (λ r. r.1) h))
      ]

  sync_interval-IsBacked :
      (interval : TimeInterval) (calls : List Call)
      → IsBacked w st calls
      → IsBacked w st (sync_interval w st interval calls).0
  unfolding sync_interval save_signature
  sync_interval-IsBacked interval calls h = elim (Option-cases (w.get_objects_for interval)) [
    | inl none_read ↦ rw (sync_interval, none_read) h
    | inr (objects, read) ↦
        rw (sync_interval, read)
          (finish objects read
            (store_all w st (to_text w.calendar interval)
              (map (enrich_object w st interval) objects) st.destinations calls)
            refl)
  ]
    where
      finish :
          (objects : List Object)
          → w.get_objects_for interval ≡ some objects
          → (r : List Call × Bool)
          → store_all w st
              (to_text w.calendar interval)
              (map (enrich_object w st interval) objects)
              st.destinations
              calls
            ≡ r
          → IsBacked w st (save_signature w st interval r).0
      finish objects read (calls', true) e =
          let enriched = map (enrich_object w st interval) objects in
          signature interval objects read
            (store_all-All (to_text w.calendar interval) enriched st.destinations calls calls' e)
            (subst (λ r. IsBacked w st r.0) e
              (store_all-IsBacked (to_text w.calendar interval) enriched st.destinations calls h))
      finish objects read (calls', false) e =
          subst (λ r. IsBacked w st r.0) e
            (store_all-IsBacked (to_text w.calendar interval)
              (map (enrich_object w st interval) objects) st.destinations calls h)

  sync_intervals-IsBacked :
      (intervals : List TimeInterval) (calls : List Call)
      → IsBacked w st calls
      → IsBacked w st (sync_intervals w st intervals calls)
  unfolding sync_intervals
  sync_intervals-IsBacked [] calls h = h
  sync_intervals-IsBacked (interval ∷ intervals) calls h =
      let calls' = (sync_interval w st interval calls).0 in
      let h' = sync_interval-IsBacked interval calls h in
      elim (Bool-cases (sync_interval w st interval calls).1) [
        | inl e ↦ rw e (sync_intervals-IsBacked intervals calls' h')
        | inr e ↦ rw e h'
      ]

  body-IsBacked : (calls : List Call) → IsBacked w st calls → IsBacked w st (body w st calls)
  unfolding body
  body-IsBacked calls h = elim (Option-cases w.intervals) [
    | inl e ↦
        let step : body w st calls ≡ calls = ground (arith, e) in subst (IsBacked w st) (sym step) h
    | inr (intervals, e) ↦ elim (Option-cases (select w st intervals)) [
      | inl f ↦
          let step : body w st calls ≡ calls = ground (arith, e, f) in
          subst (IsBacked w st) (sym step) h
      | inr (to_sync, f) ↦
          let step : body w st calls ≡ sync_intervals w st to_sync calls = ground (arith, e, f) in
          subst (IsBacked w st) (sym step) (sync_intervals-IsBacked to_sync calls h)
    ]
  ]

  -- Whatever the driver, the storage and the destinations answer, a task saves the signature of an
  -- interval only after all its destinations have stored the objects of that interval: all that the
  -- driver returned for it, enriched.
  pub sync-IsBacked : IsBacked w st (sync w st)
  unfolding sync update_collection_status
  sync-IsBacked =
      subst (IsBacked w st)
        (append_assoc
          (body w st (saved_status (codes "LOADING") ∷ saved_log (codes "Still Running..") ∷ []))
          (saved_status (codes "FAILED") ∷ []) (saved_log [] ∷ []))
        (log [] (
          status (codes "FAILED") (
            body-IsBacked
              (saved_status (codes "LOADING") ∷ saved_log (codes "Still Running..") ∷ [])
              (log (codes "Still Running..") (status (codes "LOADING") start)))))
