-- ===== src/Caching/Bounded.antt =====
-- The number of events that the cache keeps for a destination.
use eventnative.Base.{
  ℕ, ◌+◌, ◌-◌, ◌≤◌, zero, suc, ◌≡◌, ◌≢◌, refl, ap, ◌∙◌, ◌⊎◌, Option, none, some, List, [], ◌∷◌,
  ◌==◌, text_eq, arith, Option-cases, Bool-cases, inl, inr,
}
use eventnative.Base.Action.{Action, Keeps, then_do}
use eventnative.Base.Lists.{get_elem?}
use eventnative.Base.Result.{ok, err, Result-cases, ok-injective}
use eventnative.Base.Text.{Text, codes}
use eventnative.Value.{object, Object}
use eventnative.Typing.{GoLibrary}
use eventnative.Meta.{
  Redis, MetaError, RedisError, err_nil, other, Moment, last_events_key, last_events_index_key,
  or_zero, add_event, delete_popped, remove_last_event,
}
use eventnative.Caching.{SucceedEvent, logged, remove_oldest, put}

-- What Redis documents of the commands on the index of a destination. A reply of `ZPOPMIN` with an
-- element has taken one from the set; a deletion of another key leaves the set alone.
pub record IndexLaws (R : Redis) : Type 0 where
  pub size : Text → R.World → ℕ
  pub counted :
      (k : Text) (n : ℕ) (w : R.World) → (R.zcount k w).0 ≡ ok n → size k (R.zcount k w).1 ≡ n
  pub never_nil : (k : Text) (w : R.World) → (R.zcount k w).0 ≢ err err_nil
  pub popped :
      (k id score : Text) (w : R.World)
      → (R.zpopmin k w).0 ≡ ok (id ∷ score ∷ [])
      → size k (R.zpopmin k w).1 + 1 ≡ size k w
  pub deleted : (j k : Text) → j ≢ k → Keeps (size k) (R.del j)

event-key-ne-index : (d id : Text) → last_events_key d id ≢ last_events_index_key d
event-key-ne-index d id same =
    let h : ◌≡◌ {A = ℕ} b':' b'_' =
      ap (λ t. elim (get_elem? t 11) [ none ↦ 0 | some c ↦ c ]) same in
    absurd (omega (arith, h))

or_zero-ok :
    {W A : Type 0} (zero_value a : A) (act : Action W RedisError A) (w : W)
    → (or_zero zero_value act w).0 ≡ ok a
    → ((act w).0 ≡ ok a) ⊎ (((act w).0 ≡ err err_nil) × (zero_value ≡ a))
unfolding or_zero
or_zero-ok zero_value a act w h = elim (Result-cases (act w).0) [
  | inl (b, good) ↦ inl (good ∙ ap ok (ok-injective (rw (or_zero, good) at h)))
  | inr (err_nil, failed) ↦ inr (failed, ok-injective (rw (or_zero, failed) at h))
  | inr (other e, failed) ↦ absurd (ground arith)
]

nil-ne-cons : {A : Type 0} {x : A} {xs : List A} → ◌≡◌ {A = List A} [] (x ∷ xs) → ⊥
nil-ne-cons h = cc

module _ (go : GoLibrary) (marshal_succeed : SucceedEvent → Option Text) (R : Redis)
    (L : IndexLaws R) where
  abbrev index_size : Text → R.World → ℕ
  index_size d w = L.size (last_events_index_key d) w

  delete_popped-size :
      (d : Text) (values : List Text) (w : R.World)
      → (delete_popped R d values w).0 ≡ ok tt
      → (id : Text) × (score : Text) × (values ≡ id ∷ score ∷ [])
        × (index_size d (delete_popped R d values w).1 ≡ index_size d w)
  unfolding delete_popped or_zero
  delete_popped-size d [] w h = absurd (ground arith)
  delete_popped-size d (id ∷ []) w h = absurd (ground arith)
  delete_popped-size d (id ∷ score ∷ []) w h = (
    id,
    score,
    refl,
    L.deleted (last_events_key d id) (last_events_index_key d) (event-key-ne-index d id) w,
  )
  delete_popped-size d (id ∷ score ∷ more ∷ values) w h = absurd (ground arith)

  remove_last_event-size :
      (d : Text) (w : R.World)
      → (remove_last_event R d w).0 ≡ ok tt
      → index_size d (remove_last_event R d w).1 + 1 ≡ index_size d w
  unfolding remove_last_event
  remove_last_event-size d w h =
      let k = last_events_index_key d in
      let pop = or_zero [] (R.zpopmin k) in
      elim (Result-cases (pop w).0) [
        | inr (e, failed) ↦ absurd (ground arith)
        | inl (values, replied) ↦
            let (id, score, same, kept) =
              delete_popped-size d values (R.zpopmin k w).1
                (rw (remove_last_event, replied) at h) in
            let taken : index_size d (R.zpopmin k w).1 + 1 ≡ index_size d w =
              elim (or_zero-ok [] values (R.zpopmin k) w replied) [
                | inl popped ↦ L.popped k id score w (popped ∙ ap ok same)
                | inr (_, no_values) ↦ absurd (nil-ne-cons (no_values ∙ same))
              ] in
            rw (remove_last_event, replied) (omega (arith, kept, taken))
      ]

  logged-ok :
      {A : Type 0} {a : A} (act : Action R.World MetaError A) (w : R.World)
      → (logged go marshal_succeed R act w).0 ≡ ok a
      → (act w).0 ≡ ok a
  unfolding logged
  logged-ok act w h = elim (Result-cases (act w).0) [
    | inl (b, good) ↦ good ∙ ap ok (ok-injective (rw (logged, good) at h))
    | inr (e, failed) ↦ absurd (ground arith)
  ]

  remove_oldest-size :
      (d : Text) (n : ℕ) (w : R.World)
      → (remove_oldest go marshal_succeed R d n w).0 ≡ ok tt
      → index_size d (remove_oldest go marshal_succeed R d n w).1 + n ≡ index_size d w
  unfolding remove_oldest logged
  remove_oldest-size d zero w h = omega arith
  remove_oldest-size d (suc n) w h =
      elim (Result-cases (logged go marshal_succeed R (remove_last_event R d) w).0) [
        | inr (e, failed) ↦ absurd (ground arith)
        | inl (t, removed) ↦
            let w' = (remove_last_event R d w).1 in
            let rest = remove_oldest-size d n w' (rw (remove_oldest, removed) at h) in
            let one = remove_last_event-size d w (logged-ok (remove_last_event R d) w removed) in
            rw (remove_oldest, removed) (omega (arith, rest, one))
      ]

  last_count :
      (k : Text) (n : ℕ) (w : R.World)
      → (or_zero 0 (R.zcount k) w).0 ≡ ok n
      → L.size k (or_zero 0 (R.zcount k) w).1 ≡ n
  unfolding or_zero
  last_count k n w h = elim (or_zero-ok 0 n (R.zcount k) w h) [
    | inl counted ↦ L.counted k n w counted
    | inr (no_reply, _) ↦ absurd (L.never_nil k w no_reply)
  ]

  add_event-size :
      (d event_id b : Text) (now : Moment) (n : ℕ) (w : R.World)
      → (add_event R d event_id b now w).0 ≡ ok n
      → index_size d (add_event R d event_id b now w).1 ≡ n
  unfolding add_event
  add_event-size d event_id b now n w h =
      let k = last_events_index_key d in
      let first = or_zero tt (R.hset (last_events_key d event_id) (codes "original") b) in
      let second = or_zero tt (R.zadd k now.unix event_id) in
      elim (Result-cases (first w).0) [
        | inr (e, failed) ↦ absurd (ground arith)
        | inl (t, written) ↦ elim (Result-cases (second (first w).1).0) [
          | inr (e, failed) ↦ absurd (ground arith)
          | inl (t', indexed) ↦
              let h1 = rw (add_event, written) at h in
              rw (add_event, written)
                (rw indexed (last_count k n (second (first w).1).1 (rw indexed at h1)))
        ]
      ]

  put_named :
      (capacity : ℕ) (d event_id b : Text) (now : Moment) (w : R.World)
      → (then_do
          (logged go marshal_succeed R (add_event R d event_id b now))
          (λ n. remove_oldest go marshal_succeed R d (n - capacity))
          w).0
        ≡ ok tt
      → index_size d
          (then_do
            (logged go marshal_succeed R (add_event R d event_id b now))
            (λ n. remove_oldest go marshal_succeed R d (n - capacity))
            w).1
        ≤ capacity
  unfolding logged
  put_named capacity d event_id b now w h =
      elim (Result-cases (logged go marshal_succeed R (add_event R d event_id b now) w).0) [
        | inr (e, failed) ↦ absurd (ground arith)
        | inl (n, added) ↦
            let w' = (add_event R d event_id b now w).1 in
            let size =
              add_event-size d event_id b now n w
                (logged-ok (add_event R d event_id b now) w added) in
            let rest = remove_oldest-size d (n - capacity) w' (rw (then_do, added) at h) in
            rw (then_do, added) (omega (arith, size, rest))
      ]

  -- Where the commands on the index of a destination do what Redis documents: when an event is put into
  -- the cache without an error, its destination has at most as many events in the index as the
  -- capacity.
  pub put-bounded :
      (capacity : ℕ) (d event_id : Text) (value : Object) (now : Moment) (w : R.World)
      → (put go marshal_succeed R capacity d event_id value now w).0 ≡ ok tt
      → index_size d (put go marshal_succeed R capacity d event_id value now w).1 ≤ capacity
  unfolding put logged add_event
  put-bounded capacity d event_id value now w h =
      let k = last_events_index_key d in
      elim (Bool-cases (event_id == [])) [
        | inl no_id ↦ absurd (ground arith)
        | inr named ↦ elim (Option-cases (go.marshal (object value))) [
          | inl lost ↦ absurd (ground arith)
          | inr (b, marshalled) ↦
              let h1 = rw (put, named) at h in
              rw (put, named)
                (rw marshalled (put_named capacity d event_id b now w (rw marshalled at h1)))
        ]
      ]
