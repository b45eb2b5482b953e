-- ===== src/Events/Bucket/Laws.antt =====
-- A bucket holds the last events, as many as its capacity.
use mathlib.Core.List.{append_assoc}
use mathlib.Core.Path.{subst}
use eventnative.Base.{
  ℕ, ◌+◌, ◌-◌, ◌≤◌, ◌<◌, ◌≡◌, refl, sym, ap, ◌∙◌, some, List, [], ◌∷◌, ◌++◌, ◌==◌, nat_eq, arith,
  if◌then◌else◌, Bool-cases, inl, inr,
}
use eventnative.Base.Lists.{length, length-append, get_elem?, get_elem?_middle, set, set_middle}
use eventnative.Events.Bucket.{Bucket, next_pointer, overwrite, put}

module _ {ℓ} {E : Type ℓ} where
  -- The events of a bucket in the order in which they came. A full bucket holds newer events before
  -- the pointer, older ones from there on, and the newest at the end.
  pub data View (b : Bucket E) (recent : List E) : Type ℓ where
    filling : b.swap_pointer ≡ 0 → length b.events < b.capacity → recent ≡ b.events → View b recent
    full :
        (newer : List E) (x : E) (older : List E) (z : E)
        → b.events ≡ newer ++ x ∷ (older ++ z ∷ [])
        → b.swap_pointer ≡ length newer
        → length b.events ≡ b.capacity
        → recent ≡ x ∷ (older ++ (newer ++ z ∷ []))
        → View b recent

  at_end : (xs : List E) (z : E) → length (xs ++ z ∷ []) - 1 ≡ length xs
  at_end xs z = omega (arith, length-append xs (z ∷ []))

  get_last : (xs : List E) (z : E) → get_elem? (xs ++ z ∷ []) (length (xs ++ z ∷ []) - 1) ≡ some z
  get_last xs z = rw at_end (get_elem?_middle xs z [])

  set_last : (xs : List E) (z v : E) (n : ℕ) → n ≡ length xs → set (xs ++ z ∷ []) n v ≡ xs ++ v ∷ []
  set_last xs z v n e = rw e (set_middle xs z [] v)

  overwrite_events :
      (newer : List E) (x : E) (older : List E) (z v : E) (capacity : ℕ)
      → overwrite
          (record {
            events = newer ++ x ∷ (older ++ z ∷ []);
            swap_pointer = length newer;
            capacity = capacity;
          })
          v
        ≡ some (record {
          events = newer ++ z ∷ (older ++ v ∷ []);
          swap_pointer = next_pointer capacity (length newer);
          capacity = capacity;
        })
  unfolding overwrite
  overwrite_events newer x older z v capacity =
      let n : ℕ = length (newer ++ x ∷ (older ++ z ∷ [])) - 1 in
      let found : get_elem? (newer ++ x ∷ (older ++ z ∷ [])) n ≡ some z =
        rw (sym (append_assoc newer (x ∷ older) (z ∷ []))) (get_last (newer ++ x ∷ older) z) in
      let reach : n ≡ length (newer ++ z ∷ older) = omega (
        arith,
        length-append newer (x ∷ (older ++ z ∷ [])),
        length-append older (z ∷ []),
        length-append newer (z ∷ older),
      ) in
      let written : set (newer ++ z ∷ (older ++ z ∷ [])) n v ≡ newer ++ z ∷ (older ++ v ∷ []) =
        ap (λ l. set l n v) (sym (append_assoc newer (z ∷ older) (z ∷ [])))
        ∙ (set_last (newer ++ z ∷ older) z v n reach ∙ append_assoc newer (z ∷ older) (v ∷ [])) in
      ground (
        arith,
        get_elem?_middle newer x (older ++ z ∷ []),
        found,
        set_middle newer x (older ++ z ∷ []) z,
        written,
      )

  -- The oldest event makes room in a full bucket.
  pub push_recent : ℕ → List E → E → List E
  push_recent capacity [] v = v ∷ []
  push_recent capacity (x ∷ recent) v =
      if length (x ∷ recent) == capacity then recent ++ v ∷ [] else x ∷ (recent ++ v ∷ [])

  put-View_full :
      (newer : List E) (x : E) (older : List E) (z v : E) (capacity : ℕ)
      → length (newer ++ x ∷ (older ++ z ∷ [])) ≡ capacity
      → View
          (record {
            events = newer ++ z ∷ (older ++ v ∷ []);
            swap_pointer = next_pointer capacity (length newer);
            capacity = capacity;
          })
          ((older ++ (newer ++ z ∷ [])) ++ v ∷ [])
  unfolding next_pointer
  put-View_full [] x [] z v capacity full_now =
      full [] z [] v refl (ground arith) (omega arith) refl
  put-View_full (n ∷ newer) x [] z v capacity full_now =
      full [] n (newer ++ z ∷ []) v (ap (λ l. n ∷ l) (sym (append_assoc newer (z ∷ []) (v ∷ []))))
        (ground (arith, length-append newer (x ∷ z ∷ [])))
        (omega (arith, length-append newer (x ∷ z ∷ []), length-append newer (z ∷ v ∷ []))) refl
  put-View_full newer x (y ∷ older) z v capacity full_now =
      full (newer ++ z ∷ []) y older v (sym (append_assoc newer (z ∷ []) (y ∷ (older ++ v ∷ []))))
        (ground (
          arith,
          length-append newer (z ∷ []),
          length-append newer (x ∷ (y ∷ (older ++ z ∷ []))),
          length-append older (z ∷ []),
        ))
        (omega (
          arith,
          length-append newer (x ∷ (y ∷ (older ++ z ∷ []))),
          length-append newer (z ∷ (y ∷ (older ++ v ∷ []))),
          length-append older (z ∷ []),
          length-append older (v ∷ []),
        ))
        (ap (λ l. y ∷ l) (append_assoc older (newer ++ z ∷ []) (v ∷ [])))

  append-View :
      (events : List E) (v : E) (capacity : ℕ)
      → 2 ≤ capacity
      → length events < capacity
      → View
          (record { events = events ++ v ∷ []; swap_pointer = 0; capacity = capacity })
          (events ++ v ∷ [])
  append-View [] v capacity roomy space = filling refl (omega arith) refl
  append-View (x ∷ older) v capacity roomy space =
      elim (Bool-cases (length (x ∷ older) + 1 == capacity)) [
        | inl now ↦ full [] x older v refl refl (ground (arith, length-append older (v ∷ []))) refl
        | inr later ↦ filling refl (ground (arith, length-append older (v ∷ []))) refl
      ]

  pub push_recent-filling :
      (capacity : ℕ) (recent : List E) (v : E)
      → length recent < capacity
      → push_recent capacity recent v ≡ recent ++ v ∷ []
  unfolding push_recent
  push_recent-filling capacity [] v h = refl
  push_recent-filling capacity (x ∷ recent) v h = ground arith

  pub push_recent-full :
      (capacity : ℕ) (x : E) (recent : List E) (v : E)
      → length (x ∷ recent) ≡ capacity
      → push_recent capacity (x ∷ recent) v ≡ recent ++ v ∷ []
  unfolding push_recent
  push_recent-full capacity x recent v h = ground arith

  -- A put into a bucket of a capacity of two or more never panics, keeps the capacity, and adds the
  -- event as the newest, in place of the oldest if the bucket is full.
  abbrev pub PutView : Bucket E → List E → E → Type ℓ
  PutView b recent v =
      (b' : Bucket E) × (put b v ≡ some b')
      × (b'.capacity ≡ b.capacity)
      × View b' (push_recent b.capacity recent v)

  put-View_filling :
      (events : List E) (capacity : ℕ) (v : E)
      → 2 ≤ capacity
      → length events < capacity
      → PutView (record { events = events; swap_pointer = 0; capacity = capacity }) events v
  unfolding put
  put-View_filling events capacity v roomy space = (
    record { events = events ++ v ∷ []; swap_pointer = 0; capacity = capacity },
    ground arith,
    refl,
    rw (push_recent-filling capacity events v space) (append-View events v capacity roomy space),
  )

  put-View_overwriting :
      (newer : List E) (x : E) (older : List E) (z v : E) (capacity : ℕ)
      → length (newer ++ x ∷ (older ++ z ∷ [])) ≡ capacity
      → PutView
          (record {
            events = newer ++ x ∷ (older ++ z ∷ []);
            swap_pointer = length newer;
            capacity = capacity;
          })
          (x ∷ (older ++ (newer ++ z ∷ [])))
          v
  unfolding put push_recent
  put-View_overwriting newer x older z v capacity size = (
    record {
      events = newer ++ z ∷ (older ++ v ∷ []);
      swap_pointer = next_pointer capacity (length newer);
      capacity = capacity;
    },
    ground (arith, overwrite_events newer x older z v capacity),
    refl,
    rw (if_full size) (put-View_full newer x older z v capacity size),
  )
    where
      if_full :
          length (newer ++ x ∷ (older ++ z ∷ [])) ≡ capacity
          → (if length (x ∷ (older ++ (newer ++ z ∷ []))) == capacity
              then (older ++ (newer ++ z ∷ [])) ++ v ∷ []
              else x ∷ ((older ++ (newer ++ z ∷ [])) ++ v ∷ []))
            ≡ (older ++ (newer ++ z ∷ [])) ++ v ∷ []
      if_full same = ground (
        arith,
        length-append newer (x ∷ (older ++ z ∷ [])),
        length-append older (z ∷ []),
        length-append older (newer ++ z ∷ []),
        length-append newer (z ∷ []),
      )

  pub put-View :
      (b : Bucket E) (recent : List E) (v : E) → 2 ≤ b.capacity → View b recent → PutView b recent v
  put-View b recent v roomy (filling start space same) =
      let is_b : record { events = b.events; swap_pointer = 0; capacity = b.capacity } ≡ b =
        ground arith in
      subst (λ c. PutView c recent v) is_b
        (rw same (put-View_filling b.events b.capacity v roomy space))
  put-View b recent v roomy (full newer x older z events pointer size same) =
      let is_b : record {
        events = newer ++ x ∷ (older ++ z ∷ []);
        swap_pointer = length newer;
        capacity = b.capacity;
      }
          ≡ b =
        ground arith in
      subst (λ c. PutView c recent v) is_b
        (rw same (put-View_overwriting newer x older z v b.capacity (rw events at size)))
