-- ===== src/Examples/Volumes.antt =====
-- A collection of volumes in memory, with a volume of a user and one of somebody else.
use flowify_workflows_server.Auth.Permissions.{IsAdminOf, FirstNamed}
use mathlib.Core.Bool.{false≢true}
use mathlib.Core.Path.{subst}
use flowify_workflows_server.Common.{
  false, ℕ, true, List, [], ◌∷◌, ◌++◌, Option, none, some, In, All, ◌≡◌, ◌==◌, nat_eq, nat_beq_iff,
  if◌then◌else◌, ◌⊎◌, inl, inr, refl, sym, ◌∙◌, ap, Bool-cases, arith, contains,
}
use flowify_workflows_server.Common.Result.{ok, ok-injective}
use flowify_workflows_server.Workspace.{user_has_access, user_has_admin_access}
use flowify_workflows_server.Auth.{volumes, write, authorize, get_workspace_permissions}
use flowify_workflows_server.Models.Versions.{ComponentReference}
use flowify_workflows_server.Storage.Access.{check_workspace_access}
use flowify_workflows_server.Storage.Volumes.{
  FlowifyVolume, VolumeDriver, IsVolumeStore, OtherUid, Replaced, get_volume, put_volume,
  delete_volume,
}
use flowify_workflows_server.Storage.Volumes.Access.{IsShelved, HasDistinctUids, put_volume-foreign}
use flowify_workflows_server.Rest.{authorization_context, path_authorization, volume_put_handler}
use flowify_workflows_server.Rest.Middleware.{authorization_context-check}
use flowify_workflows_server.Rest.Volumes.{volume_put-admin}
use flowify_workflows_server.Examples.{ada, lab}
use flowify_workflows_server.Examples.Documents.{request}

unfoldable find_volume : ComponentReference → List FlowifyVolume → Option FlowifyVolume
find_volume id [] = none
find_volume id (v ∷ vs) = let rest = find_volume id vs in if v.uid == id then some v else rest

abbrev after_first : FlowifyVolume → Option (List FlowifyVolume) → Option (List FlowifyVolume)
after_first v none = none
after_first v (some vs) = some (v ∷ vs)

-- New documents in place of the first one with the uid.
unfoldable swap :
    ComponentReference → List FlowifyVolume → List FlowifyVolume → Option (List FlowifyVolume)
swap id new [] = none
swap id new (v ∷ vs) =
    let rest = after_first v (swap id new vs) in if v.uid == id then some (new ++ vs) else rest

abbrev Found : ComponentReference → List FlowifyVolume → Option FlowifyVolume → Type 0
Found id vs none = All (OtherUid id) vs
Found id vs (some v) = In v vs × (v.uid ≡ id)

find_volume-Found :
    (id : ComponentReference) (vs : List FlowifyVolume) → Found id vs (find_volume id vs)
unfolding find_volume
find_volume-Found id [] = tt
find_volume-Found id (v ∷ vs) = elim (Bool-cases (v.uid == id)) [
  | inl same ↦ rw same (inl refl, (nat_beq_iff v.uid id).0 same)
  | inr other ↦ rw other (
      later (find_volume id vs) (λ is. false≢true (sym other ∙ (nat_beq_iff v.uid id).1 is))
        (find_volume-Found id vs))
]
  where
    later : (o : Option FlowifyVolume) → OtherUid id v → Found id vs o → Found id (v ∷ vs) o
    later none miss h = (miss, h)
    later (some w) miss (m, is) = (inr m, is)

abbrev Swapped :
    ComponentReference
    → List FlowifyVolume
    → List FlowifyVolume
    → Option (List FlowifyVolume)
    → Type 0
Swapped id new vs none = All (OtherUid id) vs
Swapped id new vs (some vs') = Replaced id new vs vs'

swap-Swapped :
    (id : ComponentReference) (new vs : List FlowifyVolume) → Swapped id new vs (swap id new vs)
unfolding swap
swap-Swapped id new [] = tt
swap-Swapped id new (v ∷ vs) = elim (Bool-cases (v.uid == id)) [
  | inl same ↦ rw same ([], v, vs, (nat_beq_iff v.uid id).0 same, refl, refl)
  | inr other ↦ rw other (
      later (swap id new vs) (λ is. false≢true (sym other ∙ (nat_beq_iff v.uid id).1 is))
        (swap-Swapped id new vs))
]
  where
    later :
        (o : Option (List FlowifyVolume))
        → OtherUid id v
        → Swapped id new vs o
        → Swapped id new (v ∷ vs) (after_first v o)
    later none miss h = (miss, h)
    later (some ws) miss (before, old, after, uid, was, is) =
        (v ∷ before, old, after, uid, ap (λ xs. v ∷ xs) was, ap (λ xs. v ∷ xs) is)

abbrev or_same : List FlowifyVolume → Option (List FlowifyVolume) → List FlowifyVolume
or_same vs none = vs
or_same vs (some vs') = vs'

abbrev count_and : List FlowifyVolume → Option (List FlowifyVolume) → ℕ × List FlowifyVolume
count_and vs none = (0, vs)
count_and vs (some vs') = (1, vs')

abbrev shelf_driver : VolumeDriver
shelf_driver = record {
  find_one = λ id vs. ok (find_volume id vs);
  insert_one = λ v vs. ok (vs ++ v ∷ []);
  replace_one = λ id v vs. ok (or_same vs (swap id (v ∷ []) vs));
  delete_one = λ id vs. ok (count_and vs (swap id [] vs));
}

or_same-lem :
    (id : ComponentReference) (new vs : List FlowifyVolume) (o : Option (List FlowifyVolume))
    → Swapped id new vs o
    → (All (OtherUid id) vs × (or_same vs o ≡ vs)) ⊎ Replaced id new vs (or_same vs o)
or_same-lem id new vs none h = inl (h, refl)
or_same-lem id new vs (some ws) h = inr h

count_and-lem :
    (id : ComponentReference) (vs vs' : List FlowifyVolume) (n : ℕ)
    (o : Option (List FlowifyVolume))
    → Swapped id [] vs o
    → count_and vs o ≡ (n, vs')
    → ((n ≡ 0) × (vs' ≡ vs)) ⊎ ((n ≡ 1) × Replaced id [] vs vs')
count_and-lem id vs vs' n none h e = inl (sym (ap (λ r. r.0) e), sym (ap (λ r. r.1) e))
count_and-lem id vs vs' n (some ws) h e =
    inr (sym (ap (λ r. r.0) e), subst (Replaced id [] vs) (ap (λ r. r.1) e) h)

shelf_driver-IsVolumeStore : IsVolumeStore shelf_driver
shelf_driver-IsVolumeStore = record {
  found = λ id vs v e. subst (Found id vs) (ok-injective e) (find_volume-Found id vs);
  missed = λ id vs e. subst (Found id vs) (ok-injective e) (find_volume-Found id vs);
  inserted = λ v vs vs' e. sym (ok-injective e);
  replaced = λ id v vs vs' e.
      subst (λ x. (All (OtherUid id) vs × (x ≡ vs)) ⊎ Replaced id (v ∷ []) vs x) (ok-injective e)
        (or_same-lem id (v ∷ []) vs (swap id (v ∷ []) vs) (swap-Swapped id (v ∷ []) vs));
  deleted = λ id vs vs' n e.
      count_and-lem id vs vs' n (swap id [] vs) (swap-Swapped id [] vs) (ok-injective e);
}

abbrev of_lab : FlowifyVolume
of_lab = record { uid = 1; workspace = "lab"; volume = "disk" }

abbrev of_others : FlowifyVolume
of_others = record { uid = 2; workspace = "vault"; volume = "gold" }

abbrev stolen : FlowifyVolume
stolen = record { uid = 2; workspace = "lab"; volume = "lead" }

abbrev two_volumes : List FlowifyVolume
two_volumes = of_lab ∷ of_others ∷ []

two_volumes-HasDistinctUids : HasDistinctUids two_volumes
two_volumes-HasDistinctUids = (((λ same. omega (arith, same)), tt), (tt, tt))

first_deleted : delete_volume shelf_driver request 1 two_volumes ≡ (ok tt, of_others ∷ [])
unfolding delete_volume get_volume find_volume swap check_workspace_access user_has_access contains
first_deleted = refl

abbrev taped : FlowifyVolume
taped = record { uid = 1; workspace = "lab"; volume = "tape" }

first_stored : put_volume shelf_driver request taped two_volumes ≡ ok (taped ∷ of_others ∷ [])
unfolding put_volume get_volume find_volume swap check_workspace_access user_has_access contains
first_stored = refl

may_use_lab : check_workspace_access request "lab" ≡ true
unfolding check_workspace_access user_has_access contains
may_use_lab = refl

vault_is_closed : check_workspace_access request "vault" ≡ false
unfolding check_workspace_access user_has_access contains
vault_is_closed = refl

others_found : shelf_driver.find_one 2 two_volumes ≡ ok (some of_others)
unfolding find_volume
others_found = refl

others_replaced : shelf_driver.replace_one 2 stolen two_volumes ≡ ok (of_lab ∷ stolen ∷ [])
unfolding swap
others_replaced = refl

put_volume-foreign_example :
    (put_volume shelf_driver request stolen two_volumes ≡ ok (of_lab ∷ stolen ∷ []))
    × ((before : List FlowifyVolume) × (after : List FlowifyVolume) × (two_volumes
          ≡ before ++ of_others ∷ after)
        × (of_lab ∷ stolen ∷ [] ≡ before ++ stolen ∷ after))
put_volume-foreign_example =
    put_volume-foreign shelf_driver shelf_driver-IsVolumeStore request of_others stolen two_volumes
      (of_lab ∷ stolen ∷ []) (some of_others) two_volumes-HasDistinctUids (inr (inl refl)) refl
      vault_is_closed refl may_use_lab others_found others_replaced

authorization_context-check_example :
    check_workspace_access (authorization_context (lab ∷ []) ada) "lab"
    ≡ (get_workspace_permissions (lab ∷ []) "lab" ada).user
authorization_context-check_example = authorization_context-check (lab ∷ []) ada "lab" (tt, tt)

served :
    path_authorization
      (lab ∷ [])
      volumes
      write
      ada
      (some "lab")
      (volume_put_handler shelf_driver request "lab" (some 1) (ok taped))
      two_volumes
    ≡ (204, taped ∷ of_others ∷ [])
unfolding path_authorization authorize get_workspace_permissions volume_put_handler put_volume
    get_volume find_volume swap check_workspace_access user_has_access user_has_admin_access
    contains
served = refl

volume_put-admin_example :
    FirstNamed "lab" (IsAdminOf ada) (lab ∷ [])
    × ((r : FlowifyVolume) × (ok taped ≡ ok r)
        × (r.workspace ≡ "lab")
        × (some 1 ≡ some r.uid)
        × IsShelved shelf_driver shelf_driver-IsVolumeStore r two_volumes (taped ∷ of_others ∷ []))
    × HasDistinctUids (taped ∷ of_others ∷ [])
volume_put-admin_example =
    volume_put-admin shelf_driver (lab ∷ []) request ada "lab" (some 1) (ok taped) two_volumes
      (taped ∷ of_others ∷ []) shelf_driver-IsVolumeStore two_volumes-HasDistinctUids served
