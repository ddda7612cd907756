-- ===== src/Rest/Components.antt =====
-- rest/components.go: the handlers of components.
pub mod Patches
pub mod Creation
use flowify_workflows_server.Common.{
  ℕ, String, Bool, true, false, not, List, [], ◌∷◌, ◌==◌, nat_eq, Option, none, some, if◌then◌else◌,
}
use flowify_workflows_server.Common.Int.{ℤ, pos, negsuc, ltb_ℤ, int_eq}
use flowify_workflows_server.Common.Result.{
  Result, ok, err, Error, message, wrap, wrapped, is_newer_document, fail_if, ◌>>=◌, ◌>>◌,
}
use flowify_workflows_server.Models.{
  Component, component, base, ComponentBase, Implementation, no_implementation, any, brick, graph,
  map, conditional, Time, component_document, set_base,
}
use flowify_workflows_server.Models.Versions.{
  ComponentReference, CRefVersion, is_zero, is_zero_cref, initialize_new,
}
use flowify_workflows_server.Storage.Access.{Context}
use flowify_workflows_server.Storage.Driver.{Driver}
use flowify_workflows_server.Storage.Versioned.{
  by_version, get_document, insert_new, put_document, patch_document,
}
use flowify_workflows_server.Storage.Documents.{Database, Drivers, component_kind, delete_document}
use flowify_workflows_server.Rest.Requests.{
  Response, answer, answer_with, Route, Parsers, get_id_from_muxer_path,
  get_version_no_from_muxer_path, bad_version, touch_metadata, initialize_metadata, unwrap,
}

abbrev pub lacks_implementation : Component → Bool
lacks_implementation (component b no_implementation) = true
lacks_implementation (component b any) = false
lacks_implementation (component b (brick k)) = false
lacks_implementation (component b (graph nodes edges ins outs)) = false
lacks_implementation (component b (map c ins outs)) = false
lacks_implementation (component b (conditional x c d ins outs)) = false

unfoldable pub initialize_component :
    Context → ComponentReference → Time → Component → Result Component
unfolding initialize_metadata
initialize_component ctx new_uid now cmp =
    wrap "cannot initialize component" (initialize_metadata ctx new_uid now (base cmp).metadata)
    >>= λ meta.
        if lacks_implementation cmp
        then err (message "cannot create a component with nil implementation")
        else ok (set_base meta cmp)

abbrev pub touched_component : Context → Time → Component → Component
touched_component ctx now cmp = set_base (touch_metadata ctx now (base cmp).metadata) cmp

-- The codes for a deletion: a zero reference is answered twice.
abbrev pub deleted_response : {B : Type 0} → CRefVersion → B → Response B
deleted_response crefver uid =
    if is_zero_cref crefver
    then record { codes = 404 ∷ 204 ∷ []; body = some uid }
    else answer_with 204 uid

module _ (driver : Driver Component) where
  unfoldable pub create_component : Component → List Component → Result (List Component)
  unfolding insert_new
  create_component node ds =
      if is_zero (base node).uid
      then err (message "cannot store component with zero Uid")
      else insert_new driver node ds

  unfoldable pub store_component :
      Component → List Component → Result (ComponentReference × List Component)
  unfolding create_component
  store_component cmp ds =
      if is_zero (base cmp).uid
      then err (message "cannot store a component without uid set")
      else if lacks_implementation cmp
      then err (message "cannot store a component with nil implementation")
      else (create_component cmp ds >>= λ ds'. ok ((base cmp).uid, ds'))

  unfoldable pub put_component :
      Context → Time → Component → List Component → Result Component × List Component
  unfolding put_document
  put_component ctx now cmp ds =
      if is_zero (base cmp).uid
      then (err (message "cannot put a component without uid set"), ds)
      else let (result, ds') = put_document driver (touched_component ctx now cmp) ds in
        (wrap "storage could not put component" result, ds')

  -- What `PatchComponent` makes of an error of the storage.
  unfoldable pub patch_error : Error → Error
  unfolding is_newer_document
  patch_error e = elim (unwrap e) [
    | some uerr ↦
        if is_newer_document uerr then uerr else wrapped "storage could not patch component" e
    | none ↦ wrapped "storage could not patch component" e
  ]

  unfoldable pub patched_or_error : Result Component → Result Component
  unfolding patch_error
  patched_or_error (ok cmp) = ok cmp
  patched_or_error (err e) = err (patch_error e)

  unfoldable pub patch_component :
      Context → Time → Component → List Component → Result Component × List Component
  unfolding patch_document patched_or_error
  patch_component ctx now cmp ds =
      let (result, ds') =
        patch_document driver (touched_component ctx now cmp) (base cmp).timestamp ds in
      (patched_or_error result, ds')

  module _ (parsers : Parsers) (ctx : Context) (now : Time) where
    abbrev pub component_response : {B : Type 0} → Result B → Response B
    component_response (ok b) = answer_with 200 b
    component_response (err e) = answer 500

    unfoldable pub component_get_handler : Route → List Component → Response Component
    unfolding get_id_from_muxer_path get_version_no_from_muxer_path get_document
    component_get_handler route ds = elim (get_id_from_muxer_path parsers route) [
      | err e ↦ answer 400
      | ok id ↦
          let (version, failure) = get_version_no_from_muxer_path parsers route in
          let wanted = if ltb_ℤ (negsuc 0) version then version else pos 0 in
          if version == negsuc 1
          then bad_version failure
          else component_response
              (get_document driver (by_version (record { uid = id; version = wanted })) ds)
    ]

    -- `body` is what is decoded from the body of the request, and `new_uid` the new reference.
    unfoldable pub component_create_handler :
        (new_uid : ComponentReference)
        → Result Component
        → List Component
        → Response Component × List Component
    unfolding initialize_component store_component
    component_create_handler new_uid (err e) ds = (answer 400, ds)
    component_create_handler new_uid (ok request) ds =
        elim (initialize_component ctx new_uid now request) [
          | err e ↦ (answer 500, ds)
          | ok cmp ↦ elim (store_component cmp ds) [
            | err e ↦ (answer 500, ds)
            | ok stored ↦ (answer_with 201 cmp, stored.1)
          ]
        ]

    abbrev pub component_put_response :
        {B : Type 0} → Result B × List Component → Response B × List Component
    component_put_response (ok _, ds) = (answer 204, ds)
    component_put_response (err e, ds) = (answer 500, ds)

    -- The text of a variable of the path, empty if there is none.
    abbrev pub variable : Option String → String
    variable none = ""
    variable (some text) = text

    unfoldable pub component_put_handler :
        Route → Result Component → List Component → Response Component × List Component
    unfolding put_component
    component_put_handler route (err e) ds = (answer 400, ds)
    component_put_handler route (ok request) ds = elim (parsers.parse_uuid (variable route.id)) [
      | err e ↦ (answer 400, ds)
      | ok id ↦
          if not (id == (base request).uid)
          then (answer 400, ds)
          else component_put_response (put_component ctx now request ds)
    ]

    abbrev pub patch_response :
        Result Component × List Component → Response Component × List Component
    patch_response (ok cmp, ds) = (answer_with 200 cmp, ds)
    patch_response (err e, ds) = (if is_newer_document e then answer 409 else answer 500, ds)

    unfoldable pub component_patch_handler :
        Route → Result Component → List Component → Response Component × List Component
    unfolding get_id_from_muxer_path patch_component is_newer_document
    component_patch_handler route (err e) ds = (answer 400, ds)
    component_patch_handler route (ok request) ds = elim (get_id_from_muxer_path parsers route) [
      | err e ↦ (answer 400, ds)
      | ok id ↦
          if not (id == (base request).uid)
          then (answer 400, ds)
          else patch_response (patch_component ctx now request ds)
    ]

module _ (drivers : Drivers) (parsers : Parsers) (ctx : Context) where
  unfoldable pub component_delete_handler : Route → Database → Response CRefVersion × Database
  unfolding get_id_from_muxer_path get_version_no_from_muxer_path delete_document is_zero_cref
  component_delete_handler route db = elim (get_id_from_muxer_path parsers route) [
    | err e ↦ (answer 400, db)
    | ok id ↦
        let (version, failure) = get_version_no_from_muxer_path parsers route in
        let uid : CRefVersion = record { uid = id; version = version } in
        if version == negsuc 1
        then (bad_version failure, db)
        else let (result, db') = delete_document drivers ctx component_kind uid db in
          elim result [
            | err e ↦ (answer 500, db')
            | ok crefver ↦ (deleted_response crefver uid, db')
          ]
  ]
