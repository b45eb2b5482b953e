-- ===== src/Events/Bucket/Recent.antt =====
-- After any puts a bucket holds the last of them, in some order.
use mathlib.Core.List.{append-nil, append_assoc, perm_append_comm}
use mathlib.Core.Path.{subst, subst₂}
use mathlib.Core.List.{Perm}
use mathlib.Core.List.Perm
use eventnative.Base.{
  ℕ, zero, suc, ◌-◌, ◌≤◌, ◌<◌, ◌≡◌, refl, sym, ap, ◌∙◌, true, false, Option, none, some, List, [],
  ◌∷◌, ◌++◌, nat_eq, arith, inl, inr, Bool-cases, ltb,
}
use eventnative.Base.Lists.{
  length, length-append, drop, last_of, length-drop, drop-concat, drop-suc,
}
use eventnative.Events.Bucket.{Bucket, new_bucket, put}
use eventnative.Events.Bucket.Laws.{
  View, filling, full, push_recent, push_recent-filling, push_recent-full, put-View,
}

module _ {ℓ} {E : Type ℓ} where
  -- What is recent after one more put is the end of the longer history.
  push_recent-last_of :
      (capacity : ℕ) (history : List E) (v : E)
      → 1 ≤ capacity
      → push_recent capacity (last_of capacity history) v ≡ last_of capacity (history ++ v ∷ [])
  push_recent-last_of capacity history v h = elim (Bool-cases (ltb (length history) capacity)) [
    | inl space ↦
        let (shift, short) : (length (history ++ v ∷ []) - capacity ≡ length history - capacity)
            × (length (last_of capacity history) < capacity) =
          room space in
        push_recent-filling capacity (last_of capacity history) v short
        ∙ (sym (drop-concat (length history - capacity) history v (omega arith))
            ∙ ap (λ n. drop n (history ++ v ∷ [])) (sym shift))
    | inr none_left ↦ by_recent (last_of capacity history) refl (no_room none_left)
  ]
    where
      room :
          ltb (length history) capacity ≡ true
          → (length (history ++ v ∷ []) - capacity ≡ length history - capacity)
            × (length (last_of capacity history) < capacity)
      room space =
          ground
            (arith, length-append history (v ∷ []), length-drop (length history - capacity) history)

      no_room : ltb (length history) capacity ≡ false → capacity ≤ length history
      no_room e = ground arith

      by_recent :
          (recent : List E)
          → last_of capacity history ≡ recent
          → capacity ≤ length history
          → push_recent capacity recent v ≡ last_of capacity (history ++ v ∷ [])
      by_recent [] e le =
          absurd (omega (arith, ap length e, length-drop (length history - capacity) history))
      by_recent (x ∷ recent) e le =
          let shift : length (history ++ v ∷ []) - capacity ≡ suc (length history - capacity) =
            omega (arith, length-append history (v ∷ [])) in
          push_recent-full capacity x recent v
            (omega (arith, ap length e, length-drop (length history - capacity) history))
          ∙ (ap (λ l. l ++ v ∷ []) (sym (drop-suc (length history - capacity) history x recent e))
              ∙ (sym (drop-concat (suc (length history - capacity)) history v (omega arith))
                  ∙ ap (λ n. drop n (history ++ v ∷ [])) (sym shift)))

  pub View-Perm : (b : Bucket E) (recent : List E) → View b recent → Perm b.events recent
  View-Perm b recent (filling start space same) = rw same (Perm.refl b.events)
  View-Perm b recent (full newer x older z events pointer size same) =
      rw (events, same)
        (subst₂ Perm (append_assoc newer (x ∷ older) (z ∷ []))
          (append_assoc (x ∷ older) newer (z ∷ []))
          (Perm.append_right (z ∷ []) (perm_append_comm newer (x ∷ older))))

  unfoldable pub put_all : List E → Bucket E → Option (Bucket E)
  put_all [] b = some b
  put_all (v ∷ vs) b = elim (put b v) [ none ↦ none | some b' ↦ put_all vs b' ]

  -- The bucket represents the end of the history.
  abbrev pub Holds : ℕ → Bucket E → List E → Type ℓ
  Holds capacity b history = (b.capacity ≡ capacity) × View b (last_of capacity history)

  pub put-Holds :
      (capacity : ℕ) (b : Bucket E) (history : List E) (v : E)
      → 2 ≤ capacity
      → Holds capacity b history
      → (b' : Bucket E) × (put b v ≡ some b') × Holds capacity b' (history ++ v ∷ [])
  put-Holds capacity b history v roomy (sized, view) =
      let (b', done, kept, after) = put-View b _ v (rw sized roomy) view in
      (b', done, (kept ∙ sized, subst (View b') (pushed sized) after))
    where
      pushed :
          b.capacity ≡ capacity
          → push_recent b.capacity (last_of capacity history) v
            ≡ last_of capacity (history ++ v ∷ [])
      pushed e = rw e (push_recent-last_of capacity history v (omega arith))

  put_all-Holds :
      (capacity : ℕ) (b : Bucket E) (history vs : List E)
      → 2 ≤ capacity
      → Holds capacity b history
      → (b' : Bucket E) × (put_all vs b ≡ some b') × Holds capacity b' (history ++ vs)
  unfolding put_all
  put_all-Holds capacity b history [] roomy h =
      (b, refl, subst (Holds capacity b) (sym (append-nil history)) h)
  put_all-Holds capacity b history (v ∷ vs) roomy h =
      let (b1, done, h1) = put-Holds capacity b history v roomy h in
      let (b2, rest, h2) = put_all-Holds capacity b1 (history ++ v ∷ []) vs roomy h1 in
      (b2, rw (done, put_all) rest, subst (Holds capacity b2) (append_assoc history (v ∷ []) vs) h2)

  drop_nil : (n : ℕ) → drop {A = E} n [] ≡ []
  drop_nil zero = refl
  drop_nil (suc n) = refl

  pub new_bucket-Holds : (capacity : ℕ) → 2 ≤ capacity → Holds capacity (new_bucket capacity) []
  unfolding new_bucket
  new_bucket-Holds capacity roomy = (refl, filling refl (omega arith) (drop_nil (0 - capacity)))

  -- With a capacity of two or more no put panics, and after any puts into a new bucket its events are
  -- the last ones that were put, as many as the capacity, in some order.
  pub put_all-Perm :
      (capacity : ℕ) (vs : List E)
      → 2 ≤ capacity
      → (b : Bucket E) × (put_all vs (new_bucket capacity) ≡ some b)
        × Perm b.events (last_of capacity vs)
  put_all-Perm capacity vs roomy =
      let (b, done, (_, view)) =
        put_all-Holds capacity (new_bucket capacity) [] vs roomy
          (new_bucket-Holds capacity roomy) in
      (b, done, View-Perm b _ view)
