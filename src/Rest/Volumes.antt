-- ===== src/Rest/Volumes.antt =====
-- rest/volumes.go: the handlers of the volumes behind the path check.
use flowify_workflows_server.Common.{
  ℕ, String, List, ◌==◌, string_eq, nat_eq, Option, none, some, ◌≡◌, arith, refl, sym, ap, ◌∙◌, inl,
  inr, Bool-cases, eq_iff, nat_beq_iff,
}
use flowify_workflows_server.Common.Result.{Result, ok, err, ok-injective}
use flowify_workflows_server.User.{User}
use flowify_workflows_server.Workspace.{Workspace}
use flowify_workflows_server.Auth.{volumes, write}
use flowify_workflows_server.Auth.Permissions.{IsAdminOf, FirstNamed, authorize_changing}
use flowify_workflows_server.Models.Versions.{ComponentReference}
use flowify_workflows_server.Storage.Access.{Context}
use flowify_workflows_server.Storage.Volumes.{
  FlowifyVolume, VolumeDriver, IsVolumeStore, put_volume,
}
use flowify_workflows_server.Storage.Volumes.Access.{
  put_volume-IsShelved, IsShelved, HasDistinctUids, put_volume-HasDistinctUids,
}
use flowify_workflows_server.Rest.{path_authorization, put_response, volume_put_handler}
use flowify_workflows_server.Rest.Middleware.{path_authorization-cases}

not_stored :
    (vs vs' : List FlowifyVolume) → ◌≡◌ {A = ℕ × List FlowifyVolume} (400, vs) (204, vs') → ⊥
not_stored vs vs' h = let same : ◌≡◌ {A = ℕ} 400 204 = ap (λ r. r.0) h in omega arith

module _ (driver : VolumeDriver) (ctx : Context) (ws : String) where
  put_response-stored :
      (vs vs' : List FlowifyVolume) (r : Result (List FlowifyVolume))
      → put_response driver ctx ws 204 vs r ≡ (204, vs')
      → r ≡ ok vs'
  put_response-stored vs vs' (ok ws') e = ap ok (ap (λ r. r.1) e)
  put_response-stored vs vs' (err x) e = absurd (not_stored vs vs' e)

  volume_put_handler-stored :
      (id : Option ComponentReference) (body : Result FlowifyVolume) (vs vs' : List FlowifyVolume)
      → volume_put_handler driver ctx ws id body vs ≡ (204, vs')
      → (request : FlowifyVolume) × (body ≡ ok request)
        × (request.workspace ≡ ws)
        × (id ≡ some request.uid)
        × (put_volume driver ctx request vs ≡ ok vs')
  unfolding volume_put_handler
  volume_put_handler-stored none body vs vs' e = absurd (not_stored vs vs' e)
  volume_put_handler-stored (some id) (err x) vs vs' e = absurd (not_stored vs vs' e)
  volume_put_handler-stored (some id) (ok request) vs vs' e =
      elim (Bool-cases (request.workspace == ws)) [
        | inr moved ↦ absurd (not_stored vs vs' (rw (volume_put_handler, moved) at e))
        | inl same ↦ elim (Bool-cases (request.uid == id)) [
          | inr other ↦ absurd (not_stored vs vs' (rw (volume_put_handler, same, other) at e))
          | inl is ↦ (
            request,
            refl,
            (eq_iff request.workspace ws).0 same,
            ap some (sym ((nat_beq_iff request.uid id).0 is)),
            put_response-stored vs vs' _ (rw (volume_put_handler, same, is) at e),
          )
        ]
      ]

-- A volume that is stored at the request of a user is the one of the request, in the workspace of
-- the path and under the uid of the path: the collection holds it behind the others or in the
-- place of the one with its uid, or no document had the uid and the collection is as it was. The
-- user is an admin of the first workspace with that name, and the uids stay distinct.
pub volume_put-admin :
    (driver : VolumeDriver) (wss : List Workspace) (ctx : Context) (u : User) (ws : String)
    (id : Option ComponentReference) (body : Result FlowifyVolume) (vs vs' : List FlowifyVolume)
    → (store : IsVolumeStore driver) → HasDistinctUids vs
    → path_authorization wss volumes write u (some ws) (volume_put_handler driver ctx ws id body) vs
      ≡ (204, vs')
    → FirstNamed ws (IsAdminOf u) wss
      × ((request : FlowifyVolume) × (body ≡ ok request)
          × (request.workspace ≡ ws)
          × (id ≡ some request.uid)
          × IsShelved driver store request vs vs')
      × HasDistinctUids vs'
volume_put-admin driver wss ctx u ws id body vs vs' store distinct e =
    let (granted, served) =
      path_authorization-cases wss volumes write u ws (volume_put_handler driver ctx ws id body) vs
        204 vs' e (λ h. omega arith) in
    let (request, is, here, at, stored) =
      volume_put_handler-stored driver ctx ws id body vs vs' served in
    let (b, decided, iff) = authorize_changing wss volumes write u ws (inr refl) (inl refl) in
    (
      iff.0 (ok-injective (sym decided ∙ granted)),
      (request, is, here, at, put_volume-IsShelved driver store ctx request vs vs' stored),
      (put_volume-HasDistinctUids driver store ctx request vs vs' distinct stored).1,
    )
