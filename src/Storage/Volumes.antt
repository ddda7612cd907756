-- ===== src/Storage/Volumes.antt =====
-- storage/mongovolumestorage.go: the volumes of the workspaces, one document each, without versions.
pub mod Access
pub mod Listing
use flowify_workflows_server.Common.{
  Bool, ℕ, String, List, [], ◌∷◌, ◌++◌, not, true, Option, none, some, if◌then◌else◌, ◌==◌, nat_eq,
  In, All, ◌≡◌, ◌⊎◌, inl, inr, refl, sym, ◌∙◌, ap, Bool-cases, arith, nat_beq_iff, false,
}
use flowify_workflows_server.Common.Result.{
  Result, ok, err, message, wrapped, wrap, not_found, no_access, fail_if, ◌>>=◌, ◌>>◌, >>=-eq-ok,
  wrap-eq-ok, ok-injective, ok≢err, Error, Result-cases,
}
use flowify_workflows_server.Models.Versions.{ComponentReference, is_zero}
use flowify_workflows_server.Storage.Access.{Context, check_workspace_access}

-- The Kubernetes volume is kept as its text.
pub record FlowifyVolume : Type 0 where
  pub uid : ComponentReference
  pub workspace : String
  pub volume : String

-- The calls of the driver of MongoDB on the collection, each with the filter on "uid". The count of
-- `delete_one` is `DeletedCount`.
pub record VolumeDriver : Type 0 where
  pub find_one : ComponentReference → List FlowifyVolume → Result (Option FlowifyVolume)
  pub insert_one : FlowifyVolume → List FlowifyVolume → Result (List FlowifyVolume)
  pub replace_one :
      ComponentReference → FlowifyVolume → List FlowifyVolume → Result (List FlowifyVolume)
  pub delete_one : ComponentReference → List FlowifyVolume → Result (ℕ × List FlowifyVolume)

abbrev pub OtherUid : ComponentReference → FlowifyVolume → Type 0
OtherUid id v = ¬ (v.uid ≡ id)

-- A document with the uid stands at a place of the collection, between the others.
abbrev pub Replaced :
    ComponentReference → List FlowifyVolume → List FlowifyVolume → List FlowifyVolume → Type 0
Replaced id new vs vs' =
    (before : List FlowifyVolume) × (old : FlowifyVolume) × (after : List FlowifyVolume) × (old.uid
      ≡ id)
    × (vs ≡ before ++ old ∷ after)
    × (vs' ≡ before ++ (new ++ after))

-- What MongoDB documents of the calls.
pub record IsVolumeStore (driver : VolumeDriver) : Type 0 where
  pub found :
      (id : ComponentReference) (vs : List FlowifyVolume) (v : FlowifyVolume)
      → driver.find_one id vs ≡ ok (some v)
      → In v vs × (v.uid ≡ id)
  pub missed :
      (id : ComponentReference) (vs : List FlowifyVolume)
      → driver.find_one id vs ≡ ok none
      → All (OtherUid id) vs
  pub inserted :
      (v : FlowifyVolume) (vs vs' : List FlowifyVolume)
      → driver.insert_one v vs ≡ ok vs'
      → vs' ≡ vs ++ v ∷ []
  pub replaced :
      (id : ComponentReference) (v : FlowifyVolume) (vs vs' : List FlowifyVolume)
      → driver.replace_one id v vs ≡ ok vs'
      → (All (OtherUid id) vs × (vs' ≡ vs)) ⊎ Replaced id (v ∷ []) vs vs'
  pub deleted :
      (id : ComponentReference) (vs vs' : List FlowifyVolume) (n : ℕ)
      → driver.delete_one id vs ≡ ok (n, vs')
      → ((n ≡ 0) × (vs' ≡ vs)) ⊎ ((n ≡ 1) × Replaced id [] vs vs')

module _ (driver : VolumeDriver) where
  volume_or_error : Result (Option FlowifyVolume) → Result FlowifyVolume
  volume_or_error (ok none) = err not_found
  volume_or_error (ok (some v)) = ok v
  volume_or_error (err e) = err (wrapped "Error getting component from storage" e)

  unfoldable pub get_volume :
      Context → ComponentReference → List FlowifyVolume → Result FlowifyVolume
  unfolding volume_or_error
  get_volume ctx id vs = do
    result ← volume_or_error (driver.find_one id vs)
    fail_if (not (check_workspace_access ctx result.workspace)) no_access
    ok result

  -- `err == ErrNotFound`: any other error of the read leads to a replacement.
  abbrev pub is_missing : Result FlowifyVolume → Bool
  is_missing (err not_found) = true
  is_missing _ = false

  unfoldable pub put_volume :
      Context → FlowifyVolume → List FlowifyVolume → Result (List FlowifyVolume)
  unfolding get_volume
  put_volume ctx vol vs = do
    fail_if (is_zero vol.uid) (message "uid required")
    fail_if (not (check_workspace_access ctx vol.workspace)) no_access
    wrap "could put node" (
        if is_missing (get_volume ctx vol.uid vs)
        then driver.insert_one vol vs
        else driver.replace_one vol.uid vol vs)

  -- The count is looked at when the document is gone: the collection is returned with the result.
  abbrev pub counted :
      List FlowifyVolume → Result (ℕ × List FlowifyVolume) → Result (Unit {0}) × List FlowifyVolume
  counted vs (err e) = (err (wrapped "error deleting volume from storage" e), vs)
  counted vs (ok (n, vs')) = (fail_if (not (n == 1)) (message "unexpected delete count"), vs')

  unfoldable pub delete_volume :
      Context → ComponentReference → List FlowifyVolume → Result (Unit {0}) × List FlowifyVolume
  unfolding get_volume
  delete_volume ctx id vs = elim (get_volume ctx id vs) [
    | err e ↦ (err (wrapped "could not delete volume" e), vs)
    | ok vol ↦
        let rest = counted vs (driver.delete_one id vs) in
        if check_workspace_access ctx vol.workspace then rest else (err no_access, vs)
  ]
