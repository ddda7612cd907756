-- ===== src/Rest/Workflows/Answers.antt =====
-- rest/workflows.go: the responses to the creation and to the patch of a workflow, some of which
-- are written twice.
use flowify_workflows_server.Common.{true, List, [], ◌∷◌, ◌++◌, ◌≡◌, ◌⊎◌, nat_eq}
use flowify_workflows_server.Common.Result.{Result, ok}
use flowify_workflows_server.Models.{Metadata, Workflow, Time, workflow_document}
use flowify_workflows_server.Models.Versions.{ComponentReference}
use flowify_workflows_server.Storage.Access.{Context, check_workspace_access}
use flowify_workflows_server.Storage.Driver.{IsMongo}
use flowify_workflows_server.Storage.Documents.{Drivers}
use flowify_workflows_server.Rest.Requests.{Response, answer_with, Parsers}
use flowify_workflows_server.Rest.Requests.New.{IsNew}

module _ (drivers : Drivers) (mongo : IsMongo drivers.workflows) where
  module _ (parsers : Parsers) (ctx : Context) (now : Time) (new_uid : ComponentReference) where
    -- The response to a creation, and what becomes of the collection.
    abbrev pub IsPost : Result Workflow → List Workflow → Response Workflow × List Workflow → Type 0
    IsPost body ds out =
        ((request : Workflow) × (shown : Metadata) × (kept : Metadata) × (body ≡ ok request)
          × (check_workspace_access ctx request.workspace ≡ true)
          × (out.0 ≡ answer_with 201 (record request { metadata = shown }))
          × IsNew ctx new_uid now shown
          × (out.1 ≡ ds ++ record request { metadata = kept } ∷ [])
          × IsNew ctx new_uid now kept)
        ⊎ (((out.0.codes ≡ 400 ∷ []) ⊎ (out.0.codes ≡ 400 ∷ 500 ∷ []) ⊎ (out.0.codes ≡ 500 ∷ []))
            × (out.1 ≡ ds))
