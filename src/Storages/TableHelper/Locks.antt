-- ===== src/Storages/TableHelper/Locks.antt =====
-- Every lock that is taken is given back, on every path (storages/table_helper.go).
use mathlib.Core.List.{append_assoc, append-nil}
use mathlib.Core.Path.{subst}
use eventnative.Base.{
  ℕ, Bool, ◌≡◌, refl, sym, ap, ◌∙◌, true, false, List, [], ◌∷◌, ◌++◌, nat_eq, text_eq, arith,
  Option-cases, Bool-cases, inl, inr, if◌then◌else◌,
}
use eventnative.Base.Dict.{lookup}
use eventnative.Base.Result.{Result, err, Result-cases}
use eventnative.Base.Text.{Text}
use eventnative.Adapters.Table.{Table, exists, diff}
use eventnative.Storages.TableHelper.{
  EnsureError, Tables, Backend, State, M, current, with_lock, create_new, read_version, remember,
  get_or_create_locked, get_or_create, refresh_table_schema, patch, patch_if_different,
  follow_version, ensure_locked, ensure_known, ensure_table,
}

-- A lock that was granted, and one that was given back, by its keys.
pub data LockCall : Type 0 where
  took gave : Text → Text → LockCall

-- Each lock is given back before another is taken, and none is given back that was not taken.
abbrev pub Paired : List LockCall → Type 0
Paired [] = Unit
Paired (took d n ∷ gave e m ∷ calls) = (d ≡ e) × (n ≡ m) × Paired calls
Paired (took d n ∷ []) = ⊥
Paired (took d n ∷ took e m ∷ calls) = ⊥
Paired (gave d n ∷ calls) = ⊥

Paired-append : (xs ys : List LockCall) → Paired xs → Paired ys → Paired (xs ++ ys)
Paired-append [] ys p q = q
Paired-append (took d n ∷ []) ys p q = absurd p
Paired-append (took d n ∷ gave e m ∷ xs) ys (a, b, p) q = (a, b, Paired-append xs ys p q)
Paired-append (took d n ∷ took e m ∷ xs) ys p q = absurd p
Paired-append (gave d n ∷ xs) ys p q = absurd p

-- A backend with the sequence of the locks that were granted and given back through it. All that it
-- answers, and its world, are those of the backend.
abbrev pub watched : Backend → Backend
watched B = record {
  World = B.World × List LockCall;
  lock = λ d n w ts.
      let (w', ts', granted) = B.lock d n w.0 ts in
      ((w', if granted then w.1 ++ took d n ∷ [] else w.1), ts', granted);
  unlock = λ d n w. (B.unlock d n w.0, w.1 ++ gave d n ∷ []);
  get_table_schema = λ n w. let (w', r) = B.get_table_schema n w.0 in ((w', w.1), r);
  create_table = λ t w. let (w', r) = B.create_table t w.0 in ((w', w.1), r);
  patch_table_schema = λ t w. let (w', r) = B.patch_table_schema t w.0 in ((w', w.1), r);
  get_version = λ d n w. let (w', r) = B.get_version d n w.0 in ((w', w.1), r);
  increment_version = λ d n w. let (w', r) = B.increment_version d n w.0 in ((w', w.1), r);
}

-- What a call does to a sequence of the locks.
record LockLog (B : Backend) : Type 0 where
  log : B.World → List LockCall
  granted :
      (d n : Text) (w : B.World) (ts : Tables)
      → (B.lock d n w ts).2 ≡ true
      → log (B.lock d n w ts).0 ≡ log w ++ took d n ∷ []
  refused :
      (d n : Text) (w : B.World) (ts : Tables)
      → (B.lock d n w ts).2 ≡ false
      → log (B.lock d n w ts).0 ≡ log w
  released : (d n : Text) (w : B.World) → log (B.unlock d n w) ≡ log w ++ gave d n ∷ []
  read : (n : Text) (w : B.World) → log (B.get_table_schema n w).0 ≡ log w
  created : (t : Table) (w : B.World) → log (B.create_table t w).0 ≡ log w
  patched : (t : Table) (w : B.World) → log (B.patch_table_schema t w).0 ≡ log w
  versioned : (d n : Text) (w : B.World) → log (B.get_version d n w).0 ≡ log w
  incremented : (d n : Text) (w : B.World) → log (B.increment_version d n w).0 ≡ log w

abbrev watched-LockLog : (B : Backend) → LockLog (watched B)
watched-LockLog B = record {
  log = λ w. w.1;
  granted = λ d n w ts h. rw h refl;
  refused = λ d n w ts h. rw h refl;
  released = λ d n w. refl;
  read = λ n w. refl;
  created = λ t w. refl;
  patched = λ t w. refl;
  versioned = λ d n w. refl;
  incremented = λ d n w. refl;
}

module _ (B : Backend) (L : LockLog B) (destination : Text) (data_schema : Table) where
  abbrev Quiet : State B → Result EnsureError Table × State B → Type 0
  Quiet s r = L.log r.1.world ≡ L.log s.world

  create_new-Quiet :
      (db : Table) (s : State B) → Quiet s (create_new B destination data_schema db s)
  unfolding create_new
  create_new-Quiet db s = grind (arith, L.created, L.incremented)

  read_version-Quiet : (db : Table) (s : State B) → Quiet s (read_version B destination db s)
  unfolding read_version
  read_version-Quiet db s = grind (arith, L.versioned)

  get_or_create_locked-Quiet :
      (s : State B) → Quiet s (get_or_create_locked B destination data_schema s)
  unfolding get_or_create_locked
  get_or_create_locked-Quiet s = grind (arith, L.read, read_version-Quiet, create_new-Quiet)

  -- The calls behind a state are some more, that are paired.
  abbrev Balanced : State B → Result EnsureError Table × State B → Type 0
  Balanced s r = (calls : List LockCall) × (L.log r.1.world ≡ L.log s.world ++ calls) × Paired calls

  nothing_taken : (s : State B) (r : Result EnsureError Table × State B) → Quiet s r → Balanced s r
  nothing_taken s r same = ([], same ∙ sym (append-nil (L.log s.world)), tt)

  then-Balanced :
      (s mid : State B) (r r' : Result EnsureError Table × State B)
      → L.log mid.world ≡ L.log r.1.world
      → Balanced s r
      → Balanced mid r'
      → Balanced s r'
  then-Balanced s mid r r' same (xs, first, p) (ys, second, q) = (
    xs ++ ys,
    second ∙ ap (λ l. l ++ ys) (same ∙ first) ∙ append_assoc (L.log s.world) xs ys,
    Paired-append xs ys p q,
  )

  -- The deferred unlock gives back what the lock took.
  with_lock-Balanced :
      (name : Text) (body : M B) (s : State B)
      → ((s' : State B) → Quiet s' (body s'))
      → Balanced s (with_lock B destination name body s)
  unfolding with_lock
  with_lock-Balanced name body s h =
      let (w, tables, locked) = B.lock destination name s.world s.tables in
      let inside = h (record { world = w; tables = tables }) in
      let end : B.World = (body (record { world = w; tables = tables })).1.world in
      elim (Bool-cases locked) [
        | inl yes_locked ↦
            let taken = L.granted destination name s.world s.tables yes_locked in
            let all : L.log (B.unlock destination name end)
                ≡ L.log s.world ++ took destination name ∷ gave destination name ∷ [] =
              L.released destination name end
              ∙ ap (λ l. l ++ gave destination name ∷ []) (inside ∙ taken)
              ∙ append_assoc (L.log s.world) (took destination name ∷ [])
                  (gave destination name ∷ []) in
            rw (yes_locked, with_lock)
              (took destination name ∷ gave destination name ∷ [], all, (refl, refl, tt))
        | inr not_locked ↦
            rw (not_locked, with_lock)
              (
                [],
                L.refused destination name s.world s.tables not_locked
                    ∙ sym (append-nil (L.log s.world)),
                tt,
              )
      ]

  patch-Quiet :
      (in_memory : Bool) (db change : Table) (s : State B)
      → Quiet s (patch B destination in_memory db change s)
  unfolding patch
  patch-Quiet in_memory db change s = grind (arith, L.patched, L.incremented)

  patch_if_different-Quiet :
      (in_memory : Bool) (db : Table) (s : State B)
      → Quiet s (patch_if_different B destination in_memory db data_schema s)
  unfolding patch_if_different
  patch_if_different-Quiet in_memory db s =
      ground (arith, patch-Quiet in_memory db (diff db data_schema) s)

  follow_version-Quiet :
      (db : Table) (ver : ℕ) (s : State B)
      → Quiet s (follow_version B destination db data_schema ver s)
  unfolding follow_version
  follow_version-Quiet db ver s = grind (arith, L.read, patch_if_different-Quiet)

  ensure_locked-Quiet :
      (db : Table) (s : State B) → Quiet s (ensure_locked B destination db data_schema s)
  unfolding ensure_locked
  ensure_locked-Quiet db0 s =
      let db = current B db0 s in
      let known = L.versioned destination db.name s.world in
      elim (Bool-cases (exists (diff db data_schema))) [
        | inr same ↦ rw (same, ensure_locked) refl
        | inl differ ↦ elim (Option-cases (B.get_version destination db.name s.world).1) [
          | inl lost ↦ rw (differ, lost, ensure_locked) known
          | inr (ver, found) ↦
              rw (differ, found, ensure_locked) (follow_version-Quiet db ver _ ∙ known)
        ]
      ]

  ensure_known-Balanced :
      (db : Table) (s : State B) → Balanced s (ensure_known B destination db data_schema s)
  unfolding ensure_known
  ensure_known-Balanced db s = elim (Bool-cases (exists (diff db data_schema))) [
    | inl differ ↦
        rw (differ, ensure_known)
          (with_lock-Balanced db.name (ensure_locked B destination db data_schema) s
            (ensure_locked-Quiet db))
    | inr same ↦ rw (same, ensure_known) ([], sym (append-nil (L.log s.world)), tt)
  ]

  ensure_table-Balanced : (s : State B) → Balanced s (ensure_table B destination data_schema s)
  unfolding ensure_table refresh_table_schema get_or_create
  ensure_table-Balanced s = elim (Option-cases (lookup data_schema.name s.tables)) [
    | inr (db, known) ↦ rw (known, ensure_table) (ensure_known-Balanced db s)
    | inl unknown ↦
        let created =
          with_lock-Balanced data_schema.name (get_or_create_locked B destination data_schema) s
            get_or_create_locked-Quiet in
        let r = get_or_create B destination data_schema s in
        elim (Result-cases r.0) [
          | inr (e, failed) ↦
              let step : ensure_table B destination data_schema s ≡ (err e, r.1) =
                ground (arith, unknown, failed) in
              subst (Balanced s) (sym step) created
          | inl (db, good) ↦
              let after : State B = remember B db r.1 in
              let known = ensure_known B destination db data_schema after in
              let step : ensure_table B destination data_schema s ≡ known =
                ground (arith, unknown, good) in
              subst (Balanced s) (sym step)
                (then-Balanced s after r known refl created (ensure_known-Balanced db after))
        ]
  ]

-- Whatever the database, the other nodes and the monitor keeper answer, and whatever happens inside,
-- also on every error: of the locks that `EnsureTable` is granted each is given back, under its own
-- name, before another is taken and before `EnsureTable` returns, and no other lock is given back.
pub ensure_table-Paired :
    (B : Backend) (destination : Text) (data_schema : Table) (s : State (watched B))
    → (calls : List LockCall) × ((ensure_table (watched B) destination data_schema s).1.world.1
        ≡ s.world.1 ++ calls)
      × Paired calls
ensure_table-Paired B destination data_schema s =
    ensure_table-Balanced (watched B) (watched-LockLog B) destination data_schema s
