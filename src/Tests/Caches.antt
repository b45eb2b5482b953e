-- ===== src/Tests/Caches.antt =====
-- The caches of the last events (events/cache.go), run.
use mathlib.Core.List.{Perm}
use eventnative.Base.{ℕ, ◌≡◌, refl, none, some, List, [], ◌∷◌, nat_eq, text_eq, arith}
use eventnative.Base.Lists.{last_of}
use eventnative.Base.Text.{Text, codes}
use eventnative.Events.Bucket.{Bucket, new_bucket, put, overwrite, next_pointer}
use eventnative.Events.Bucket.Recent.{put_all, put_all-Perm}
use eventnative.Events.Cache.{Cache, new_cache, element_of}
use eventnative.Events.Cache.Recent.{put_events, put_events-Perm, events_of, of_key}

-- The example in the comment of `Put`.
four_puts :
    put_all {E = ℕ} (1 ∷ 2 ∷ 3 ∷ 4 ∷ 5 ∷ []) (new_bucket 3)
    ≡ some (record { events = 3 ∷ 4 ∷ 5 ∷ []; swap_pointer = 0; capacity = 3 })
unfolding put_all put overwrite next_pointer new_bucket nat_eq
four_puts = refl

-- A full bucket of capacity one panics at its second overwriting.
one_panics : put_all {E = ℕ} (1 ∷ 2 ∷ 3 ∷ []) (new_bucket 1) ≡ none
unfolding put_all put overwrite next_pointer new_bucket nat_eq
one_panics = refl

put_all-Perm_example :
    (b : Bucket ℕ) × (put_all (1 ∷ 2 ∷ 3 ∷ 4 ∷ []) (new_bucket 3) ≡ some b)
    × Perm b.events (last_of 3 (1 ∷ 2 ∷ 3 ∷ 4 ∷ []))
put_all-Perm_example = put_all-Perm 3 (1 ∷ 2 ∷ 3 ∷ 4 ∷ []) (omega arith)

abbrev puts : List (Text × ℕ)
puts = (codes "a", 1) ∷ (codes "b", 2) ∷ (codes "a", 3) ∷ (codes "a", 4) ∷ []

put_events-Perm_example :
    (c : Cache ℕ) × (put_events puts (new_cache 2) ≡ some c)
    × Perm c.all.events (last_of 2 (events_of puts))
    × Perm (element_of c (codes "a")).events (last_of 2 (of_key (codes "a") puts))
put_events-Perm_example = put_events-Perm 2 puts (codes "a") (omega arith)
