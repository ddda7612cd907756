-- ===== src/Storage/Versioned.antt =====
-- storage/mongo.go: the callbacks that create, update, patch and delete versions of a document.
-- The code has each twice, for components and for workflows; here the kind is an interface.
pub mod Keys
pub mod Latest
pub mod Tags
pub mod Put
pub mod Transactions
pub mod Newest
pub mod Updates
pub mod Reads
pub mod Found
pub mod Patches
use flowify_workflows_server.Common.{
  ℕ, String, Bool, true, false, not, ◌||◌, List, [], ◌∷◌, ◌++◌, ◌==◌, nat_eq, Option, none, some,
  if◌then◌else◌,
}
use flowify_workflows_server.Common.Int.{ℤ, pos, negsuc, int_eq, increment}
use flowify_workflows_server.Common.Result.{
  Result, ok, err, Error, not_found, newer_document_exists, message, wrap, wrapped, fail_if, ◌>>=◌,
  ◌>>◌,
}
use flowify_workflows_server.Models.{Metadata, Document, Time}
use flowify_workflows_server.Models.Versions.{
  ComponentReference, nil_reference, VersionNumber, CRefVersion, Version, no_version, is_zero,
  set_latest_tag, version_tag_latest, initialize_new,
}
use flowify_workflows_server.Storage.Driver.{
  Condition, uid_is, current_is, current_is_not, tags_meet, Filter, match, project, sort, limit,
  Driver,
}

-- The identifier of a document to read: the `interface{}` that the getters take.
pub data Identifier : Type 0 where
  by_reference : ComponentReference → Identifier
  by_version : CRefVersion → Identifier
  of_other_type : Identifier

-- The first result of the cursor. With none the code wraps an error that is nil: it returns the
-- zero version and no error.
unfoldable pub first_version : List Version → Version
first_version [] = no_version
first_version (v ∷ vs) = v

-- The filter of the getters: with version 0 it names no version.
abbrev pub document_filter : CRefVersion → Filter
document_filter vcref =
    if vcref.version == pos 0
    then uid_is vcref.uid ∷ []
    else uid_is vcref.uid ∷ current_is vcref.version ∷ []

abbrev pub latest_filter : ComponentReference → VersionNumber → Filter
latest_filter id current =
    uid_is id ∷ tags_meet (version_tag_latest ∷ []) ∷ current_is_not current ∷ []

module _ {D : Type 0} ⦃doc : Document D⦄ where
  -- The document that an update stores, given the latest version.
  unfoldable pub next_version : D → Version → D
  next_version d latest =
      let m = doc.metadata d in
      doc.with_metadata
        (record m {
          version = set_latest_tag (record m.version {
            current = increment latest.current;
            previous = record { version = latest.current; uid = nil_reference };
          });
        })
        d

module _ {D : Type 0} ⦃doc : Document D⦄ (driver : Driver D) where
  unfoldable pub get_latest_version : ComponentReference → List D → Result Version
  unfolding first_version
  get_latest_version cref ds = do
    vs ← wrap "Error getting latest document version from storage" (
        driver.aggregate_versions
          (match (uid_is cref ∷ [])
            ∷ project ("version" ∷ [])
            ∷ sort (("version.current", negsuc 0) ∷ [])
            ∷ limit 1
            ∷ [])
          ds)
    ok (first_version vs)

  unfoldable pub get_cref_version : Identifier → List D → Result CRefVersion
  get_cref_version (by_reference uid) ds = do
    tmp ← wrap "cannot get latest version of component" (get_latest_version uid ds)
    ok (record { version = tmp.current; uid = uid })
  get_cref_version (by_version cref) ds =
      if cref.version == pos 0
      then (wrap "cannot get latest version of component" (get_latest_version cref.uid ds)
          >>= λ tmp. ok (record cref { version = tmp.current }))
      else ok cref
  get_cref_version of_other_type ds = err (message "Cannot convert to CRefVersion object")

  unfoldable pub replace_latest_tag : ComponentReference → VersionNumber → List D → Result (List D)
  replace_latest_tag id current ds =
      wrap "cannot clear 'latest' tag"
        (driver.pull_tags (latest_filter id current) (version_tag_latest ∷ []) ds)

  unfoldable pub update_callback : D → List D → Result (D × List D)
  update_callback d ds = do
    latest ←
        wrap "cannot get previous document version" (get_latest_version (doc.metadata d).uid ds)
    let node = next_version d latest
    ds₁ ← wrap "cannot put document" (driver.insert_one node ds)
    ds₂ ←
        wrap "cannot set latest tag on updated document"
          (replace_latest_tag (doc.metadata d).uid (doc.metadata node).version.current ds₁)
    ok (node, ds₂)

  unfoldable pub stored_timestamp : Option D → Result Time
  stored_timestamp none =
      err (wrapped "cannot get document timestamp" (message "no documents in result"))
  stored_timestamp (some d) = ok (doc.metadata d).timestamp

  -- A failed update is a result too: it is looked at after the transaction.
  unfoldable pub after_update : Result (D × List D) → List D → Result D × List D
  after_update (err e) ds = (err e, ds)
  after_update (ok (d, ds')) ds = (ok d, ds')

  unfoldable pub patch_callback : D → Time → List D → Result (Result D × List D)
  unfolding stored_timestamp after_update
  patch_callback d node_timestamp ds = do
    let m = doc.metadata d
    latest ← wrap "cannot get document version" (get_latest_version m.uid ds)
    fail_if (not (m.version.current == latest.current))
        (message "only latest version of document can be patched")
    let filter = uid_is m.uid ∷ current_is m.version.current ∷ []
    found ← wrap "cannot get document timestamp" (driver.find_one filter ds)
    timestamp ← stored_timestamp found
    fail_if (not (timestamp == node_timestamp)) newer_document_exists
    ok (after_update (driver.set_document filter d ds) ds)

  -- `session.WithTransaction`: an error of the callback or of the commit leaves the collection.
  unfoldable pub commit_result : {A : Type 0} → Result (A × List D) → List D → Result A × List D
  commit_result (err e) ds = (err e, ds)
  commit_result (ok (a, ds')) ds = elim driver.commit [ ok _ ↦ (ok a, ds') | err e ↦ (err e, ds) ]

  -- A session around a transaction, with the text that the caller puts in front of its error.
  unfoldable pub with_transaction :
      {A : Type 0} → String → (List D → Result (A × List D)) → List D → Result A × List D
  unfolding commit_result
  with_transaction text callback ds = elim driver.start_session [
    | err e ↦ (err (wrapped "cannot start DB session" e), ds)
    | ok _ ↦ let (result, ds') = commit_result (callback ds) ds in (wrap text result, ds')
  ]

  -- The part of `PutComponent` and `PutWorkflow` that updates.
  unfoldable pub put_document : D → List D → Result D × List D
  unfolding with_transaction
  put_document d ds =
      if is_zero (doc.metadata d).uid
      then (err (message "cannot store document with zero Uid"), ds)
      else with_transaction "update document transaction fail" (update_callback d) ds

  -- `PatchComponent` and `PatchWorkflow`.
  unfoldable pub patch_document : D → Time → List D → Result D × List D
  unfolding with_transaction
  patch_document d old_timestamp ds =
      let (result, ds') =
        with_transaction "patch document transaction fail" (patch_callback d old_timestamp) ds in
      (result >>= λ r. r, ds')

  -- `GetComponent`; `GetWorkflow` looks at the workspace afterwards.
  unfoldable pub found_or_error : Result (Option D) → Result D
  found_or_error (ok none) = err not_found
  found_or_error (ok (some d)) = ok d
  found_or_error (err e) = err (wrapped "Error getting document from storage" e)

  unfoldable pub get_document : Identifier → List D → Result D
  unfolding found_or_error
  get_document id ds = do
    vcref ← wrap "error retriving component." (get_cref_version id ds)
    found_or_error (driver.find_one (document_filter vcref) ds)

  -- The part of `CreateComponent` and `CreateWorkflow` that stores.
  unfoldable pub insert_new : D → List D → Result (List D)
  insert_new d ds = do
    let m = doc.metadata d
    version ← wrap "cannot create document" (initialize_new m.version)
    wrap "cannot insert node"
        (driver.insert_one (doc.with_metadata (record m { version = version }) d) ds)
