-- ===== src/Rest/Workflows.antt =====
-- rest/workflows.go: the handlers of workflows.
pub mod Answers
pub mod Patches
use flowify_workflows_server.Common.{
  ℕ, String, Bool, true, false, not, List, [], ◌∷◌, ◌==◌, nat_eq, Option, none, some, if◌then◌else◌,
}
use flowify_workflows_server.Common.Int.{ℤ, pos, negsuc, int_eq}
use flowify_workflows_server.Common.Result.{
  Result, ok, err, Error, message, wrap, wrapped, is_newer_document, ◌>>=◌,
}
use flowify_workflows_server.Models.{
  Component, component, no_implementation, Workflow, Time, Metadata, workflow_document,
}
use flowify_workflows_server.Models.Versions.{
  ComponentReference, CRefVersion, is_zero, is_zero_cref, nil_reference, no_version,
}
use flowify_workflows_server.Storage.Access.{Context}
use flowify_workflows_server.Storage.Versioned.{Identifier, by_reference, by_version}
use flowify_workflows_server.Storage.Documents.{
  Database, Drivers, workflow_kind, create_workflow, get_workflow, put_workflow, patch_workflow,
  delete_document,
}
use flowify_workflows_server.Rest.Requests.{
  Response, answer, answer_with, Route, Parsers, get_id_from_muxer_path,
  get_version_no_from_muxer_path, bad_version, touch_metadata, initialize_metadata, unwrap,
}
use flowify_workflows_server.Rest.Components.{deleted_response}

abbrev pub zero_metadata : Metadata
zero_metadata = record {
  name = "";
  description = "";
  modified_by = record { oid = ""; email = "" };
  uid = nil_reference;
  version = no_version;
  timestamp = 0;
}

-- `models.Workflow{}`
abbrev pub zero_workflow : Workflow
zero_workflow = record {
  metadata = zero_metadata;
  component =
      component (record { metadata = zero_metadata; inputs = []; outputs = []; type = "" })
        no_implementation;
  type = "";
  workspace = "";
}

-- A code that is written before a response.
abbrev pub after_code : {B : Type 0} → ℕ → Response B → Response B
after_code code r = record r { codes = code ∷ r.codes }

unfoldable pub initialize_workflow :
    Context → ComponentReference → Time → Workflow → Result Workflow
unfolding initialize_metadata
initialize_workflow ctx new_uid now workflow =
    wrap "cannot initialize workflow" (initialize_metadata ctx new_uid now workflow.metadata)
    >>= λ meta. ok (record workflow { metadata = meta })

abbrev pub touched_workflow : Context → Time → Workflow → Workflow
touched_workflow ctx now workflow = record workflow {
  metadata = touch_metadata ctx now workflow.metadata;
}

-- The identifier to read, by the version in the path.
abbrev pub wanted_version : ComponentReference → ℤ → Identifier
wanted_version id version =
    if version == negsuc 0
    then by_reference id
    else by_version (record { uid = id; version = version })

module _ (drivers : Drivers) where
  unfoldable pub store_workflow :
      Context → Workflow → List Workflow → Result (ComponentReference × List Workflow)
  unfolding create_workflow
  store_workflow ctx workflow ds =
      if is_zero workflow.uid
      then err (message "cannot store a component without uid set")
      else (create_workflow drivers ctx workflow ds >>= λ ds'. ok (workflow.uid, ds'))

  -- The function `PutWorkflow` of the handlers, around that of the storage, where no other request
  -- comes between the read and the transaction.
  unfoldable pub put_request :
      Context → Time → Workflow → List Workflow → Result Workflow × List Workflow
  unfolding put_workflow
  put_request ctx now workflow ds =
      if is_zero workflow.uid
      then (err (message "cannot put a component without uid set"), ds)
      else let (result, ds') = put_workflow drivers ctx (touched_workflow ctx now workflow) ds ds in
        (wrap "storage could not put component" result, ds')

  unfoldable pub workflow_patch_error : Error → Error
  unfolding is_newer_document
  workflow_patch_error e = elim (unwrap e) [
    | some uerr ↦
        if is_newer_document uerr then uerr else wrapped "storage could not patch component" e
    | none ↦ wrapped "storage could not patch component" e
  ]

  unfoldable pub patched_workflow_or_error : Result Workflow → Result Workflow
  unfolding workflow_patch_error
  patched_workflow_or_error (ok wf) = ok wf
  patched_workflow_or_error (err e) = err (workflow_patch_error e)

  -- The function `PatchWorkflow` of the handlers, around that of the storage.
  unfoldable pub patch_request :
      Context → Time → Workflow → List Workflow → Result Workflow × List Workflow
  unfolding patched_workflow_or_error
  patch_request ctx now workflow ds =
      let (result, ds') =
        patch_workflow drivers (touched_workflow ctx now workflow) workflow.timestamp ds in
      (patched_workflow_or_error result, ds')

  module _ (parsers : Parsers) (ctx : Context) (now : Time) where
    abbrev pub workflow_response : {B : Type 0} → Result B → Response B
    workflow_response (ok b) = answer_with 200 b
    workflow_response (err e) = answer 500

    unfoldable pub workflow_get_handler : Route → List Workflow → Response Workflow
    unfolding get_id_from_muxer_path get_version_no_from_muxer_path get_workflow
    workflow_get_handler route ds = elim (get_id_from_muxer_path parsers route) [
      | err e ↦ answer 400
      | ok id ↦
          let (version, failure) = get_version_no_from_muxer_path parsers route in
          if version == negsuc 1
          then bad_version failure
          else workflow_response (get_workflow drivers ctx (wanted_version id version) ds)
    ]

    unfoldable pub workflow_delete_handler : Route → Database → Response CRefVersion × Database
    unfolding get_id_from_muxer_path get_version_no_from_muxer_path delete_document is_zero_cref
    workflow_delete_handler route db = elim (get_id_from_muxer_path parsers route) [
      | err e ↦ (answer 400, db)
      | ok id ↦
          let (version, failure) = get_version_no_from_muxer_path parsers route in
          let uid : CRefVersion = record { uid = id; version = version } in
          if version == negsuc 1
          then (bad_version failure, db)
          else let (result, db') = delete_document drivers ctx workflow_kind uid db in
            elim result [
              | err e ↦ (answer 500, db')
              | ok crefver ↦ (deleted_response crefver uid, db')
            ]
    ]

    abbrev pub put_answer : Result Workflow × List Workflow → Response Workflow × List Workflow
    put_answer (ok _, ds) = (answer 204, ds)
    put_answer (err e, ds) = (answer 500, ds)

    -- The text of a variable of the path, empty if there is none.
    abbrev pub path_variable : Option String → String
    path_variable none = ""
    path_variable (some text) = text

    unfoldable pub workflow_put_handler :
        Route → Result Workflow → List Workflow → Response Workflow × List Workflow
    unfolding put_request
    workflow_put_handler route (err e) ds = (answer 400, ds)
    workflow_put_handler route (ok request) ds =
        elim (parsers.parse_uuid (path_variable route.id)) [
          | err e ↦ (answer 400, ds)
          | ok id ↦
              if not (id == request.uid)
              then (answer 400, ds)
              else put_answer (put_request ctx now request ds)
        ]

    -- The answer 409 is followed by the answer 500.
    abbrev pub patch_answer : Result Workflow × List Workflow → Response Workflow × List Workflow
    patch_answer (ok wf, ds) = (answer_with 200 wf, ds)
    patch_answer (err e, ds) =
        (if is_newer_document e then after_code 409 (answer 500) else answer 500, ds)

    unfoldable pub workflow_patch_handler :
        Route → Result Workflow → List Workflow → Response Workflow × List Workflow
    unfolding get_id_from_muxer_path patch_request is_newer_document
    workflow_patch_handler route (err e) ds = (answer 400, ds)
    workflow_patch_handler route (ok request) ds = elim (get_id_from_muxer_path parsers route) [
      | err e ↦ (answer 400, ds)
      | ok id ↦
          if not (id == request.uid)
          then (answer 400, ds)
          else patch_answer (patch_request ctx now request ds)
    ]

    -- What follows the initialization: the workflow is stored and answered.
    unfoldable pub store_answer : Workflow → List Workflow → Response Workflow × List Workflow
    unfolding store_workflow
    store_answer workflow ds = elim (store_workflow ctx workflow ds) [
      | err e ↦ (answer 500, ds)
      | ok stored ↦ (answer_with 201 workflow, stored.1)
    ]

    -- After an error of the initialization, the handler goes on with the zero workflow.
    unfoldable pub workflow_post_handler :
        (new_uid : ComponentReference)
        → Result Workflow
        → List Workflow
        → Response Workflow × List Workflow
    unfolding initialize_workflow store_answer
    workflow_post_handler new_uid (err e) ds = (answer 400, ds)
    workflow_post_handler new_uid (ok request) ds =
        elim (initialize_workflow ctx new_uid now request) [
          | err e ↦ let (r, ds') = store_answer zero_workflow ds in (after_code 400 r, ds')
          | ok workflow ↦ store_answer workflow ds
        ]
