-- ===== src/Rest/Components/Creation.antt =====
-- rest/components.go: the creation of a component, from the request to the collection.
use mathlib.Core.Path.{subst}
use flowify_workflows_server.Common.{
  true, List, [], ◌∷◌, ◌++◌, ◌≡◌, refl, sym, ◌∙◌, ap, ◌⊎◌, inl, inr, Bool-cases,
}
use flowify_workflows_server.Common.Result.{
  Result, ok, err, wrap, Result-cases, >>=-eq-ok, wrap-eq-ok, ok-injective, ok≢err,
}
use flowify_workflows_server.Models.{
  Component, base, Time, component_document, set_base, set_base_lem,
}
use flowify_workflows_server.Models.Versions.{ComponentReference, is_zero}
use flowify_workflows_server.Storage.Access.{Context}
use flowify_workflows_server.Storage.Driver.{Driver, IsMongo}
use flowify_workflows_server.Storage.Versioned.{insert_new}
use flowify_workflows_server.Rest.Requests.{
  Response, answer, answer_with, Parsers, initialize_metadata,
}
use flowify_workflows_server.Rest.Requests.New.{IsNew, initialize_metadata-IsNew, insert_new-IsNew}
use flowify_workflows_server.Rest.Components.{
  lacks_implementation, initialize_component, create_component, store_component,
  component_create_handler,
}

initialize_component-IsNew :
    (ctx : Context) (new_uid : ComponentReference) (now : Time) (request cmp : Component)
    → initialize_component ctx new_uid now request ≡ ok cmp
    → (is_zero (base request).uid ≡ true) × IsNew ctx new_uid now (base cmp).metadata
unfolding initialize_component
initialize_component-IsNew ctx new_uid now request cmp e =
    let (meta, made, rest) =
      >>=-eq-ok
        (wrap "cannot initialize component"
          (initialize_metadata ctx new_uid now (base request).metadata))
        _ e in
    let (unset, fresh) =
      initialize_metadata-IsNew ctx new_uid now (base request).metadata meta
        (wrap-eq-ok _ _ made) in
    elim (Bool-cases (lacks_implementation request)) [
      | inl lacks ↦ absurd (ok≢err (sym (rw lacks at rest)))
      | inr has ↦
          let is : set_base meta request ≡ cmp = ok-injective (rw has at rest) in
          (
            unset,
            subst (IsNew ctx new_uid now)
                (sym (set_base_lem meta request) ∙ ap (λ x. (base x).metadata) is) fresh,
          )
    ]

module _ (driver : Driver Component) (mongo : IsMongo driver) where
  store_component-IsNew :
      (ctx : Context) (new_uid uid : ComponentReference) (now : Time) (cmp : Component)
      (ds ds' : List Component)
      → IsNew ctx new_uid now (base cmp).metadata
      → store_component driver cmp ds ≡ ok (uid, ds')
      → (stored : Component) × (ds' ≡ ds ++ stored ∷ [])
        × IsNew ctx new_uid now (base stored).metadata
  unfolding store_component
  store_component-IsNew ctx new_uid uid now cmp ds ds' fresh e =
      elim (Bool-cases (is_zero (base cmp).uid)) [
        | inl zero_uid ↦ absurd (ok≢err (sym (rw (store_component, zero_uid) at e)))
        | inr given ↦ elim (Bool-cases (lacks_implementation cmp)) [
          | inl lacks ↦ absurd (ok≢err (sym (rw (store_component, given, lacks) at e)))
          | inr has ↦
              let (made, inserted, same) =
                >>=-eq-ok (insert_new driver cmp ds) _
                  (rw (store_component, create_component, given, has) at e) in
              let is : made ≡ ds' = ap (λ x. x.1) (ok-injective same) in
              let (m, added, kept) =
                insert_new-IsNew driver mongo ctx new_uid now cmp ds ds' fresh
                  (inserted ∙ ap ok is) in
              (component_document.with_metadata m cmp, added, kept)
        ]
      ]

  module _ (parsers : Parsers) (ctx : Context) (now : Time) (new_uid : ComponentReference) where
    -- The response to a creation, and what becomes of the collection.
    abbrev pub IsCreation :
        Result Component → List Component → Response Component × List Component → Type 0
    IsCreation body ds out =
        ((request : Component) × (cmp : Component) × (stored : Component) × (body ≡ ok request)
          × (is_zero (base request).uid ≡ true)
          × (out.0 ≡ answer_with 201 cmp)
          × (out.1 ≡ ds ++ stored ∷ [])
          × IsNew ctx new_uid now (base stored).metadata)
        ⊎ (((out.0 ≡ answer 400) ⊎ (out.0 ≡ answer 500)) × (out.1 ≡ ds))

    -- A request to create a component is answered by 201, and then the collection has one component
    -- more: version 1 with the tag `latest`, under the new reference, by the user and at the time of
    -- the request, which gave no uid. Or it is answered by 400 or 500, and nothing is stored.
    pub component_create_handler-IsCreation :
        (body : Result Component) (ds : List Component)
        → IsCreation body ds (component_create_handler driver parsers ctx now new_uid body ds)
    unfolding component_create_handler
    component_create_handler-IsCreation (err e) ds = inr (inl refl, refl)
    component_create_handler-IsCreation (ok request) ds =
        elim (Result-cases (initialize_component ctx new_uid now request)) [
          | inr (x, bad) ↦ rw (component_create_handler, bad) (inr (inr refl, refl))
          | inl (cmp, e₁) ↦ elim (Result-cases (store_component driver cmp ds)) [
            | inr (x, bad) ↦ rw (component_create_handler, e₁, bad) (inr (inr refl, refl))
            | inl (stored, e₂) ↦
                let (uid, ds') = stored in
                let (unset, fresh) = initialize_component-IsNew ctx new_uid now request cmp e₁ in
                let (kept, added, new_kept) =
                  store_component-IsNew ctx new_uid uid now cmp ds ds' fresh e₂ in
                rw (component_create_handler, e₁, e₂)
                  (inl (request, cmp, kept, refl, unset, refl, added, new_kept))
          ]
        ]
