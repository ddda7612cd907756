-- ===== src/Rest/Workflows/Patches.antt =====
-- rest/workflows.go: the responses to the patch of a workflow. A conflict is answered twice.
use flowify_workflows_server.Common.Int.{◌≤ℤ◌}
use mathlib.Core.Path.{subst}
use flowify_workflows_server.Common.{
  All, In, ◌++◌, List, [], ◌∷◌, ◌≡◌, refl, sym, ◌∙◌, ap, ◌⊎◌, inl, inr, Bool-cases, ◌==◌, nat_eq,
  nat_beq_iff,
}
use flowify_workflows_server.Common.Result.{Result, ok, err, Error, Result-cases, is_newer_document}
use flowify_workflows_server.Models.{Workflow, Time, workflow_document}
use flowify_workflows_server.Storage.Access.{Context}
use flowify_workflows_server.Storage.Driver.{IsMongo}
use flowify_workflows_server.Storage.Versioned.{patch_document}
use flowify_workflows_server.Storage.Versioned.Patches.{
  patch_document-err, patch_document-Patched, Patched,
}
use flowify_workflows_server.Storage.Documents.{Drivers, patch_workflow}
use flowify_workflows_server.Rest.Requests.{
  Response, answer_with, Route, Parsers, get_id_from_muxer_path,
}
use flowify_workflows_server.Rest.Requests.Answers.{pair_of}
use flowify_workflows_server.Rest.Workflows.{
  touched_workflow, patch_request, patched_workflow_or_error, patch_answer, workflow_patch_handler,
}

module _ (drivers : Drivers) (mongo : IsMongo drivers.workflows) where
  patched_workflow-cases :
      (r : Result Workflow)
      → ((wf : Workflow) × (r ≡ ok wf) × (patched_workflow_or_error drivers r ≡ ok wf))
        ⊎ ((x : Error) × (y : Error) × (r ≡ err x) × (patched_workflow_or_error drivers r ≡ err y))
  unfolding patched_workflow_or_error
  patched_workflow-cases (ok wf) = inl (wf, refl, refl)
  patched_workflow-cases (err x) = inr (x, _, refl, refl)

  module _ (parsers : Parsers) (ctx : Context) (now : Time) (route : Route) where
    -- A workflow has taken the place of the version that the request was made from, the last one:
    -- that version still had the time stamp of the request.
    abbrev pub IsRevision : Workflow → List Workflow → Workflow → List Workflow → Type 0
    IsRevision request ds wf ds' =
        ((before : List Workflow) × (old : Workflow) × (after : List Workflow) × (ds
            ≡ before ++ old ∷ after)
          × (ds' ≡ before ++ wf ∷ after)
          × (old.uid ≡ request.uid)
          × (old.version.current ≡ request.version.current))
        × ((read : Workflow) × In read ds
            × (read.uid ≡ request.uid)
            × (read.version.current ≡ request.version.current)
            × (read.timestamp ≡ request.timestamp))
        × All (λ (x : Workflow). x.uid ≡ request.uid → x.version.current ≤ℤ request.version.current)
            ds
        × (wf.uid ≡ request.uid)
        × (wf.version.current ≡ request.version.current)
        × (wf.timestamp ≡ now)

    Patched-IsRevision :
        (request wf : Workflow) (ds ds' : List Workflow)
        → Patched drivers.workflows mongo
            (touched_workflow ctx now request)
            request.timestamp
            ds
            wf
            ds'
        → IsRevision request ds wf ds'
    Patched-IsRevision request wf ds ds' p =
        let r = p.replaced in
        (
          (r.before, r.old, r.after, r.was, r.is, p.key.0, p.key.1),
          (p.read, p.was_read.0, p.was_read.1.0, p.was_read.1.1, p.unchanged),
          p.newest,
          p.same_key.0,
          p.same_key.1,
          p.stamped,
        )

    -- The response to a patch, and what becomes of the collection.
    abbrev pub IsPatch :
        Result Workflow → List Workflow → Response Workflow × List Workflow → Type 0
    IsPatch body ds out =
        ((request : Workflow) × (wf : Workflow) × (body ≡ ok request)
          × (get_id_from_muxer_path parsers route ≡ ok request.uid)
          × IsRevision request ds wf out.1
          × (out.0 ≡ answer_with 200 wf))
        ⊎ (((out.0.codes ≡ 400 ∷ []) ⊎ (out.0.codes ≡ 409 ∷ 500 ∷ []) ⊎ (out.0.codes ≡ 500 ∷ []))
            × (out.1 ≡ ds))

    patch_answer-err :
        (request : Workflow) (ds ds' : List Workflow) (x : Error)
        → ds' ≡ ds
        → IsPatch (ok request) ds (patch_answer drivers parsers ctx now (err x, ds'))
    patch_answer-err request ds ds' x same = elim (Bool-cases (is_newer_document x)) [
      | inl newer ↦ inr (inr (inl (rw newer refl)), same)
      | inr other ↦ inr (inr (inr (rw other refl)), same)
    ]

    patch_answer-IsPatch :
        (request : Workflow) (ds : List Workflow)
        → get_id_from_muxer_path parsers route ≡ ok request.uid
        → IsPatch
            (ok request)
            ds
            (patch_answer drivers parsers ctx now (patch_request drivers ctx now request ds))
    unfolding patch_request patch_workflow
    patch_answer-IsPatch request ds at =
        let made =
          patch_document drivers.workflows (touched_workflow ctx now request) request.timestamp
            ds in
        let r = patch_request drivers ctx now request ds in
        elim (patched_workflow-cases made.0) [
          | inl (wf, fine, answered) ↦
              let whole : r ≡ (ok wf, made.1) = pair_of r answered refl in
              let patched : IsPatch (ok request) ds (answer_with 200 wf, made.1) = inl (
                request,
                wf,
                refl,
                at,
                Patched-IsRevision request wf ds made.1 (
                    patch_document-Patched drivers.workflows mongo
                      (touched_workflow ctx now request) request.timestamp ds wf made.1
                      (pair_of made fine refl)),
                refl,
              ) in
              subst (λ x. IsPatch (ok request) ds (patch_answer drivers parsers ctx now x))
                (sym whole) patched
          | inr (x, y, failed, answered) ↦
              let whole : r ≡ (err y, made.1) = pair_of r answered refl in
              subst (λ z. IsPatch (ok request) ds (patch_answer drivers parsers ctx now z))
                (sym whole)
                (patch_answer-err request ds made.1 y (
                  patch_document-err drivers.workflows mongo (touched_workflow ctx now request)
                    request.timestamp ds made.1 x (pair_of made failed refl)))
        ]

    -- A patch of a workflow is answered by 200 with a workflow under the uid of the path and the
    -- version number of the request, with the time of the patch as its time stamp. It has replaced
    -- one stored workflow with this uid and number, no version of the uid has a larger number, and
    -- a stored one with the number still had the time stamp of the request. Or the collection is as
    -- it was, and the handler writes 400, 500, or both 409 and 500.
    pub workflow_patch_handler-IsPatch :
        (body : Result Workflow) (ds : List Workflow)
        → IsPatch body ds (workflow_patch_handler drivers parsers ctx now route body ds)
    unfolding workflow_patch_handler
    workflow_patch_handler-IsPatch (err e) ds = inr (inl refl, refl)
    workflow_patch_handler-IsPatch (ok request) ds =
        elim (Result-cases (get_id_from_muxer_path parsers route)) [
          | inr (e, failed) ↦ rw (workflow_patch_handler, failed) (inr (inl refl, refl))
          | inl (id, found) ↦ elim (Bool-cases (id == request.uid)) [
            | inr other ↦ rw (workflow_patch_handler, found, other) (inr (inl refl, refl))
            | inl same ↦
                let named = (nat_beq_iff id request.uid).0 same in
                let made : workflow_patch_handler drivers parsers ctx now route (ok request) ds
                    ≡ patch_answer drivers parsers ctx now
                        (patch_request drivers ctx now request ds) =
                  rw (workflow_patch_handler, found, same) refl in
                subst (IsPatch (ok request) ds) (sym made)
                  (patch_answer-IsPatch request ds (found ∙ ap ok named))
          ]
        ]
