-- ===== src/Events/Cache/Recent.antt =====
-- The bucket of a key holds the last events of that key, whatever the order of the puts.
use eventnative.Base.{
  ℕ, ◌≤◌, ◌≡◌, refl, sym, ap, true, Option, none, some, List, [], ◌∷◌, ◌++◌, ◌==◌, text_eq, arith,
  if◌then◌else◌, inl, inr, Bool-cases, ==_true,
}
use mathlib.Core.Path.{subst, subst₂}
use mathlib.Core.List.{Perm, append-nil, append_assoc}
use eventnative.Base.Dict.{lookup, insert, lookup-insert}
use eventnative.Base.Lists.{last_of}
use eventnative.Base.Text.{Text}
use eventnative.Events.Bucket.{Bucket, put}
use eventnative.Events.Bucket.Recent.{Holds, put-Holds, new_bucket-Holds, View-Perm}
use eventnative.Events.Cache.{Cache, new_cache, element_of, put_event}

module _ {ℓ} {E : Type ℓ} where
  abbrev pub put_events : List (Text × E) → Cache E → Option (Cache E)
  put_events [] c = some c
  put_events ((k, v) ∷ puts) c = elim (put_event c k v) [
    | none ↦ none
    | some c' ↦ put_events puts c'
  ]

  -- The events that were put, and those of one key.
  abbrev pub events_of : List (Text × E) → List E
  events_of [] = []
  events_of ((_, v) ∷ puts) = v ∷ events_of puts

  abbrev pub of_key : Text → List (Text × E) → List E
  of_key k [] = []
  of_key k ((j, v) ∷ puts) = let rest = of_key k puts in if k == j then v ∷ rest else rest

  events_of-snoc :
      (puts : List (Text × E)) (k : Text) (v : E)
      → events_of (puts ++ (k, v) ∷ []) ≡ events_of puts ++ v ∷ []
  events_of-snoc [] k v = refl
  events_of-snoc ((_, w) ∷ puts) k v = ap (λ l. w ∷ l) (events_of-snoc puts k v)

  of_key-snoc :
      (i : Text) (puts : List (Text × E)) (k : Text) (v : E)
      → of_key i (puts ++ (k, v) ∷ []) ≡ (if i == k then of_key i puts ++ v ∷ [] else of_key i puts)
  of_key-snoc i [] k v = ground arith
  of_key-snoc i ((j, w) ∷ puts) k v = ground (arith, of_key-snoc i puts k v)

  abbrev Held : ℕ → Cache E → List (Text × E) → Type ℓ
  Held capacity c puts =
      (c.capacity_per_key ≡ capacity)
      × Holds capacity c.all (events_of puts)
      × ((k : Text) → Holds capacity (element_of c k) (of_key k puts))

  element_of-insert :
      (c : Cache E) (all' element : Bucket E) (i k : Text)
      → element_of (record c { all = all'; per_api_key = insert k element c.per_api_key }) i
        ≡ (if i == k then element else element_of c i)
  unfolding element_of
  element_of-insert c all' element i k = ground (arith, lookup-insert i k element c.per_api_key)

  put_event-some :
      (c : Cache E) (all' element : Bucket E) (k : Text) (v : E)
      → put c.all v ≡ some all'
      → put (element_of c k) v ≡ some element
      → put_event c k v
        ≡ some (record c { all = all'; per_api_key = insert k element c.per_api_key })
  unfolding put_event
  put_event-some c all' element k v one two = rw (put_event, one, two) refl

  put_event-Held :
      (capacity : ℕ) (c : Cache E) (puts : List (Text × E)) (k : Text) (v : E)
      → 2 ≤ capacity
      → Held capacity c puts
      → (c' : Cache E) × (put_event c k v ≡ some c') × Held capacity c' (puts ++ (k, v) ∷ [])
  put_event-Held capacity c puts k v roomy (sized, everything, keyed) =
      let (all', put_all', all_held) =
        put-Holds capacity c.all (events_of puts) v roomy everything in
      let (b, put_b, b_held) =
        put-Holds capacity (element_of c k) (of_key k puts) v roomy (keyed k) in
      (
        record c { all = all'; per_api_key = insert k b c.per_api_key },
        put_event-some c all' b k v put_all' put_b,
        (
          sized,
          subst (Holds capacity all') (sym (events_of-snoc puts k v)) all_held,
          λ i. elim (Bool-cases (i == k)) [
            | inl e ↦
                subst₂ (Holds capacity) (sym (ground (arith, element_of-insert c all' b i k, e)))
                  (sym (key_of i e)) b_held
            | inr e ↦
                subst₂ (Holds capacity) (sym (ground (arith, element_of-insert c all' b i k, e)))
                  (sym (ground (arith, of_key-snoc i puts k v, e))) (keyed i)
          ],
        ),
      )
    where
      key_of :
          (i : Text) → (i == k) ≡ true → of_key i (puts ++ (k, v) ∷ []) ≡ of_key k puts ++ v ∷ []
      key_of i e = rw (of_key-snoc i puts k v, e) (ap (λ j. of_key j puts ++ v ∷ []) (==_true e))

  put_events-Held :
      (capacity : ℕ) (c : Cache E) (before puts : List (Text × E))
      → 2 ≤ capacity
      → Held capacity c before
      → (c' : Cache E) × (put_events puts c ≡ some c') × Held capacity c' (before ++ puts)
  put_events-Held capacity c before [] roomy h =
      (c, refl, subst (Held capacity c) (sym (append-nil before)) h)
  put_events-Held capacity c before ((k, v) ∷ puts) roomy h =
      let (c1, done, h1) = put_event-Held capacity c before k v roomy h in
      let (c2, rest, h2) = put_events-Held capacity c1 (before ++ (k, v) ∷ []) puts roomy h1 in
      (
        c2,
        rw (put_events, done) rest,
        subst (Held capacity c2) (append_assoc before ((k, v) ∷ []) puts) h2,
      )

  new_cache-Held : (capacity : ℕ) → 2 ≤ capacity → Held capacity (new_cache capacity) []
  unfolding new_cache element_of lookup
  new_cache-Held capacity roomy =
      (refl, new_bucket-Holds capacity roomy, λ k. new_bucket-Holds capacity roomy)

  -- With a capacity of two or more no put panics, and after any puts into a new cache the common bucket
  -- holds the last events, and the bucket of each key the last events of this key, as many as the
  -- capacity, in some order.
  pub put_events-Perm :
      (capacity : ℕ) (puts : List (Text × E)) (k : Text)
      → 2 ≤ capacity
      → (c : Cache E) × (put_events puts (new_cache capacity) ≡ some c)
        × Perm c.all.events (last_of capacity (events_of puts))
        × Perm (element_of c k).events (last_of capacity (of_key k puts))
  put_events-Perm capacity puts k roomy =
      let (c, done, (_, (_, everything), keyed)) =
        put_events-Held capacity (new_cache capacity) [] puts roomy
          (new_cache-Held capacity roomy) in
      let (_, mine) = keyed k in
      (c, done, View-Perm c.all _ everything, View-Perm (element_of c k) _ mine)
