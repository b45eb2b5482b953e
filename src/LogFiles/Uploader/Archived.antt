-- ===== src/LogFiles/Uploader/Archived.antt =====
-- A file is archived only when every storage has stored it.
use eventnative.Base.{
  ◌≡◌, ◌≢◌, refl, Bool, true, false, ◌&&◌, Option, none, some, List, [], ◌∷◌, arith, Bool-cases,
  inl, inr, ◌⊎◌,
}
use eventnative.Base.Dict.{Dict}
use eventnative.Base.Result.{ok, Result-cases}
use eventnative.Base.Text.{Text}
use eventnative.Storages.Store.{StoreError, StoreResult}
use eventnative.Storages.Store.Fallbacks.{NoErrors}
use eventnative.LogFiles.{FileSystem, get_tables_statuses, already_uploaded_tables, update_status}
use eventnative.LogFiles.Uploader.{
  StorageHandle, Node, Uploading, error_text, is_clean, save_results, upload_to, upload_to_all,
  archive_file, upload_payload,
}

module _ (N : Node) (file_name payload : Text) where
  abbrev Handle : Type 0
  Handle = StorageHandle (FileSystem.World N.files)

  -- The states between the storages when every one is ready, stores the file without an error, and
  -- has no table with one.
  pub data Stored : List (Option Handle) → Uploading N → Uploading N → Type 0 where
    all_stored : (u : Uploading N) → Stored [] u u
    stored :
        (h : Handle) (proxies : List (Option Handle)) (u t : Uploading N)
        (results : Dict Text StoreResult)
        → (h.store file_name payload
            (already_uploaded_tables (get_tables_statuses u.manager file_name h.name))
            u.world).0
          ≡ ok results
        → NoErrors results
        → Stored proxies (upload_to N file_name payload (some h) (true, u)).1 t
        → Stored (some h ∷ proxies) u t

  is_clean-none : (e : Option StoreError) → is_clean N e ≡ true → e ≡ none
  unfolding is_clean
  is_clean-none none h = refl
  is_clean-none (some e) h = cc

  abbrev saved : Text → Text → StoreResult → Uploading N → Uploading N
  saved storage table result u =
      let (manager, w) =
        update_status N.files file_name storage table (error_text N result.error) u.manager
          u.world in
      record { world = w; manager = manager }

  save_results-NoErrors :
      (storage : Text) (results : Dict Text StoreResult) (b : Bool) (u : Uploading N)
      → (save_results N file_name storage results (b, u)).0 ≡ true
      → (b ≡ true) × NoErrors results
  unfolding save_results is_clean
  save_results-NoErrors storage [] b u h = (h, tt)
  save_results-NoErrors storage ((table, result) ∷ results) b u h =
      let (w', clean) =
        save_results-NoErrors storage results (b && is_clean N result.error)
          (saved storage table result u) h in
      (ground arith, (is_clean-none result.error (ground arith), clean))

  upload_to-some-NoErrors :
      (handle : Handle) (b : Bool) (u : Uploading N)
      → (upload_to N file_name payload (some handle) (b, u)).0 ≡ true
      → (results : Dict Text StoreResult) × ((handle.store file_name payload
            (already_uploaded_tables (get_tables_statuses u.manager file_name handle.name))
            u.world).0
          ≡ ok results)
        × NoErrors results
        × (b ≡ true)
  unfolding upload_to
  upload_to-some-NoErrors handle b u h =
      let (r, w) =
        handle.store file_name payload
          (already_uploaded_tables (get_tables_statuses u.manager file_name handle.name)) u.world in
      elim (Result-cases r) [
        | inr (e, failed) ↦ absurd (ground arith)
        | inl (results, good) ↦
            let (was, clean) =
              save_results-NoErrors handle.name results b (record u { world = w })
                (rw (upload_to, good) at h) in
            (results, good, clean, was)
      ]

  upload_to-flag :
      (proxy : Option Handle) (b : Bool) (u : Uploading N)
      → (upload_to N file_name payload proxy (b, u)).0 ≡ true
      → (proxy ≢ none) × (b ≡ true)
  unfolding upload_to
  upload_to-flag none b u h = absurd (ground arith)
  upload_to-flag (some handle) b u h =
      let (_, _, _, was) = upload_to-some-NoErrors handle b u h in (λ same. cc, was)

  upload_to_all-flag :
      (proxies : List (Option Handle)) (b : Bool) (u : Uploading N)
      → (upload_to_all N file_name payload proxies (b, u)).0 ≡ true
      → b ≡ true
  unfolding upload_to_all
  upload_to_all-flag [] b u h = h
  upload_to_all-flag (proxy ∷ proxies) b u h =
      let (b', u') = upload_to N file_name payload proxy (b, u) in
      (upload_to-flag proxy b u (upload_to_all-flag proxies b' u' h)).1

  upload_to_all-Stored :
      (proxies : List (Option Handle)) (b : Bool) (u : Uploading N)
      → (upload_to_all N file_name payload proxies (b, u)).0 ≡ true
      → Stored proxies u (upload_to_all N file_name payload proxies (b, u)).1
  unfolding upload_to_all
  upload_to_all-Stored [] b u h = all_stored u
  upload_to_all-Stored (proxy ∷ proxies) false u h =
      let impossible = upload_to_all-flag (proxy ∷ proxies) false u h in absurd cc
  upload_to_all-Stored (none ∷ proxies) true u h =
      let (b', u') = upload_to N file_name payload none (true, u) in
      absurd ((upload_to-flag none true u (upload_to_all-flag proxies b' u' h)).0 refl)
  upload_to_all-Stored (some handle ∷ proxies) true u h =
      let (b', u') = upload_to N file_name payload (some handle) (true, u) in
      let (results, good, clean, _) =
        upload_to-some-NoErrors handle true u (upload_to_all-flag proxies b' u' h) in
      stored handle proxies u (upload_to_all N file_name payload proxies (b', u')).1 results good
        clean (upload_to_all-Stored proxies b' u' h)

  -- A file whose storages are known is either left where it is, with the statuses of its tables saved,
  -- or archived; and it is archived only when every storage was ready, stored it without an error,
  -- and had no table with one.
  pub upload_payload-Stored :
      (proxies : List (Option Handle)) (u : Uploading N)
      → (upload_payload N file_name payload proxies u
          ≡ (upload_to_all N file_name payload proxies (true, u)).1)
        ⊎ (mid : Uploading N) × Stored proxies u mid
          × (upload_payload N file_name payload proxies u ≡ archive_file N file_name mid)
  unfolding upload_payload
  upload_payload-Stored proxies u =
      let (flag, mid) = upload_to_all N file_name payload proxies (true, u) in
      elim (Bool-cases flag) [
        | inl good ↦
            inr (mid, upload_to_all-Stored proxies true u good, rw (upload_payload, good) refl)
        | inr bad ↦ inl (rw (upload_payload, bad) refl)
      ]
