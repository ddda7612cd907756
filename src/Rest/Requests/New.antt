-- ===== src/Rest/Requests/New.antt =====
-- rest/components.go: what `InitializeMetadata` makes of the metadata of a new document.
use flowify_workflows_server.Storage.Driver.{IsMongo, Driver}
use flowify_workflows_server.Storage.Versioned.{insert_new}
use flowify_workflows_server.Common.{
  [], ◌∷◌, ◌++◌, List, true, In, ◌≡◌, refl, sym, inl, inr, Bool-cases,
}
use mathlib.Core.Path.{subst}
use flowify_workflows_server.Common.Result.{wrap-eq-ok, wrap, ok, >>=-eq-ok, ok-injective, ok≢err}
use flowify_workflows_server.Models.{Document, Metadata, Time}
use flowify_workflows_server.Models.Versions.{
  ComponentReference, is_zero, initialize_new, initialize_new_sound, version_init,
  version_tag_latest,
}
use flowify_workflows_server.Storage.Access.{Context}
use flowify_workflows_server.Rest.Requests.{touch_metadata, initialize_metadata}

-- The metadata are those of a new document: version 1 with the tag `latest`, under the new
-- reference, by the user of the request at the time.
abbrev pub IsNew : Context → ComponentReference → Time → Metadata → Type 0
IsNew ctx new_uid now m =
    (m.uid ≡ new_uid)
    × (m.timestamp ≡ now)
    × (m.modified_by.oid ≡ ctx.user.uid)
    × (m.version.current ≡ version_init)
    × In version_tag_latest m.version.tags

pub initialize_metadata-IsNew :
    (ctx : Context) (new_uid : ComponentReference) (now : Time) (meta m : Metadata)
    → initialize_metadata ctx new_uid now meta ≡ ok m
    → (is_zero meta.uid ≡ true) × IsNew ctx new_uid now m
unfolding initialize_metadata
initialize_metadata-IsNew ctx new_uid now meta m e = elim (Bool-cases (is_zero meta.uid)) [
  | inr other ↦ absurd (ok≢err (sym (rw (initialize_metadata, other) at e)))
  | inl unset ↦
      let (v, made, same) =
        >>=-eq-ok (initialize_new meta.version) _ (rw (initialize_metadata, unset) at e) in
      let (_, current, tagged, _) = initialize_new_sound meta.version v made in
      let fresh : IsNew ctx new_uid now
          (touch_metadata ctx now (record meta { uid = new_uid; version = v })) =
        (refl, refl, refl, current, tagged) in
      (unset, subst (IsNew ctx new_uid now) (ok-injective same) fresh)
]

-- A document with new metadata is stored with new metadata, and no other change, behind the
-- others.
pub insert_new-IsNew :
    {D : Type 0} ⦃doc : Document D⦄ (driver : Driver D)
    → IsMongo driver
    → (ctx : Context) (new_uid : ComponentReference) (now : Time) (d : D) (ds ds' : List D)
    → IsNew ctx new_uid now (doc.metadata d)
    → insert_new driver d ds ≡ ok ds'
    → (m : Metadata) × (ds' ≡ ds ++ doc.with_metadata m d ∷ [])
      × IsNew ctx new_uid now (doc.metadata (doc.with_metadata m d))
unfolding insert_new
insert_new-IsNew ⦃doc⦄ driver mongo ctx new_uid now d ds ds' (named, at, by, _, _) e =
    let (v, made, inserted) =
      >>=-eq-ok (wrap "cannot create document" (initialize_new (doc.metadata d).version)) _ e in
    let (_, one, tagged, _) =
      initialize_new_sound (doc.metadata d).version v (wrap-eq-ok _ _ made) in
    let m = record (doc.metadata d) { version = v } in
    let fresh : IsNew ctx new_uid now m = (named, at, by, one, tagged) in
    (
      m,
      mongo.inserted _ ds ds' (wrap-eq-ok _ _ inserted),
      subst (IsNew ctx new_uid now) (sym (doc.metadata-with m d)) fresh,
    )
