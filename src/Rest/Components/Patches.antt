-- ===== src/Rest/Components/Patches.antt =====
-- rest/components.go: a patch of a component, from the request to the collection.
use mathlib.Core.Path.{subst}
use flowify_workflows_server.Common.{
  List, ◌≡◌, ◌≢◌, refl, sym, ◌∙◌, ap, ◌⊎◌, inl, inr, ◌==◌, nat_eq, Bool-cases, nat_beq_iff, arith,
}
use flowify_workflows_server.Common.Result.{
  Result, ok, err, Error, is_newer_document, Result-cases, ok≢err, ok-injective,
}
use flowify_workflows_server.Models.{Component, component, base, Time, component_document}
use flowify_workflows_server.Storage.Access.{Context}
use flowify_workflows_server.Storage.Driver.{Driver, IsMongo}
use flowify_workflows_server.Storage.Versioned.{patch_document}
use flowify_workflows_server.Storage.Versioned.Keys.{HasDistinctKeys, SameKey}
use flowify_workflows_server.Storage.Versioned.Patches.{
  patch_document-lost_update, patch_document-err,
}
use flowify_workflows_server.Rest.Requests.{
  Response, answer, answer_with, Route, Parsers, get_id_from_muxer_path,
}
use flowify_workflows_server.Rest.Requests.Answers.{pair_of, answer_with-code, answered_body}
use flowify_workflows_server.Rest.Components.{
  touched_component, patched_or_error, patch_component, patch_response, component_patch_handler,
}

module _ (driver : Driver Component) (mongo : IsMongo driver) where
  patched_or_error-ok :
      (r : Result Component) (c : Component) → patched_or_error driver r ≡ ok c → r ≡ ok c
  unfolding patched_or_error
  patched_or_error-ok (ok x) c e = e
  patched_or_error-ok (err x) c e = absurd (ok≢err (sym e))

  patched_or_error-err :
      (r : Result Component) (x : Error)
      → patched_or_error driver r ≡ err x
      → (y : Error) × (r ≡ err y)
  unfolding patched_or_error
  patched_or_error-err (ok c) x e = absurd (ok≢err e)
  patched_or_error-err (err y) x e = (y, refl)

  module _ (parsers : Parsers) (ctx : Context) (now : Time) where
    -- The patch that the request asks for has been made.
    abbrev pub IsPatched : Route → Component → List Component → Component → List Component → Type 0
    IsPatched route request ds cmp ds' =
        (get_id_from_muxer_path parsers route ≡ ok (base request).uid)
        × (patch_document driver (touched_component ctx now request) (base request).timestamp ds
            ≡ (ok cmp, ds'))

    patch_component-ok :
        (request cmp : Component) (ds ds' : List Component)
        → patch_component driver ctx now request ds ≡ (ok cmp, ds')
        → patch_document driver (touched_component ctx now request) (base request).timestamp ds
          ≡ (ok cmp, ds')
    unfolding patch_component
    patch_component-ok request cmp ds ds' e =
        let r =
          patch_document driver (touched_component ctx now request) (base request).timestamp ds in
        pair_of r (patched_or_error-ok r.0 cmp (ap (λ x. x.0) e)) (ap (λ x. x.1) e)

    patch_component-err :
        (request : Component) (ds ds' : List Component) (x : Error)
        → patch_component driver ctx now request ds ≡ (err x, ds')
        → ds' ≡ ds
    unfolding patch_component
    patch_component-err request ds ds' x e =
        let r =
          patch_document driver (touched_component ctx now request) (base request).timestamp ds in
        let (y, failed) = patched_or_error-err r.0 x (ap (λ z. z.0) e) in
        patch_document-err driver mongo (touched_component ctx now request) (base request).timestamp
          ds ds' y (pair_of r failed (ap (λ z. z.1) e))

    -- The response to a patch: what is written, and what becomes of the collection.
    abbrev pub IsPatchOf :
        Route → Result Component → List Component → Response Component × List Component → Type 0
    IsPatchOf route body ds out =
        ((request : Component) × (cmp : Component) × (body ≡ ok request)
          × (out.0 ≡ answer_with 200 cmp)
          × IsPatched route request ds cmp out.1)
        ⊎ (((out.0 ≡ answer 400) ⊎ (out.0 ≡ answer 409) ⊎ (out.0 ≡ answer 500)) × (out.1 ≡ ds))

    patch_response-IsPatchOf :
        (route : Route) (request : Component) (ds : List Component)
        → get_id_from_muxer_path parsers route ≡ ok (base request).uid
        → IsPatchOf route
            (ok request)
            ds
            (patch_response driver parsers ctx now (patch_component driver ctx now request ds))
    patch_response-IsPatchOf route request ds at =
        let r = patch_component driver ctx now request ds in
        elim (Result-cases r.0) [
          | inl (cmp, fine) ↦
              let whole : r ≡ (ok cmp, r.1) = pair_of r fine refl in
              let made : IsPatchOf route (ok request) ds (answer_with 200 cmp, r.1) =
                inl (request, cmp, refl, refl, (at, patch_component-ok request cmp ds r.1 whole)) in
              subst (λ x. IsPatchOf route (ok request) ds (patch_response driver parsers ctx now x))
                (sym whole) made
          | inr (x, failed) ↦
              let whole : r ≡ (err x, r.1) = pair_of r failed refl in
              let unchanged = patch_component-err request ds r.1 x whole in
              let refused : IsPatchOf route (ok request) ds
                  (patch_response driver parsers ctx now (err x, r.1)) =
                elim (Bool-cases (is_newer_document x)) [
                  | inl newer ↦ inr (inr (inl (rw newer refl)), unchanged)
                  | inr other ↦ inr (inr (inr (rw other refl)), unchanged)
                ] in
              subst (λ x. IsPatchOf route (ok request) ds (patch_response driver parsers ctx now x))
                (sym whole) refused
        ]

    -- A patch is answered by 200, with the component that has replaced the version that it was made
    -- from, or by 400, 409 or 500, and then the collection is as it was.
    pub component_patch_handler_lem :
        (route : Route) (body : Result Component) (ds : List Component)
        → IsPatchOf route body ds (component_patch_handler driver parsers ctx now route body ds)
    unfolding component_patch_handler
    component_patch_handler_lem route (err e) ds = inr (inl refl, refl)
    component_patch_handler_lem route (ok request) ds =
        elim (Result-cases (get_id_from_muxer_path parsers route)) [
          | inr (e, failed) ↦ rw (component_patch_handler, failed) (inr (inl refl, refl))
          | inl (id, found) ↦ elim (Bool-cases (id == (base request).uid)) [
            | inr other ↦ rw (component_patch_handler, found, other) (inr (inl refl, refl))
            | inl same ↦
                let named = (nat_beq_iff id (base request).uid).0 same in
                let made : component_patch_handler driver parsers ctx now route (ok request) ds
                    ≡ patch_response driver parsers ctx now
                        (patch_component driver ctx now request ds) =
                  rw (component_patch_handler, found, same) refl in
                subst (IsPatchOf route (ok request) ds) (sym made)
                  (patch_response-IsPatchOf route request ds (found ∙ ap ok named))
          ]
        ]

  -- What is answered by 200 has been patched.
  answered-IsPatched :
      (parsers : Parsers) (ctx : Context) (now : Time) (route : Route) (request cmp : Component)
      (ds ds' : List Component)
      → component_patch_handler driver parsers ctx now route (ok request) ds
        ≡ (answer_with 200 cmp, ds')
      → patch_document driver (touched_component ctx now request) (base request).timestamp ds
        ≡ (ok cmp, ds')
  answered-IsPatched parsers ctx now route request cmp ds ds' e =
      elim (subst (IsPatchOf parsers ctx now route (ok request) ds) e
        (component_patch_handler_lem parsers ctx now route (ok request) ds)) [
          | inl (r, c, same, answered, (_, made)) ↦
              let one = answered_body 200 cmp c answered in
              subst
                (λ x.
                  patch_document driver (touched_component ctx now x) (base x).timestamp ds
                  ≡ (ok cmp, ds'))
                (sym (ok-injective same)) (made ∙ (λ j. (ok (sym one j), ds')))
          | inr (other, _) ↦ elim other [
            | inl bad ↦ absurd (answer_with-code 200 400 cmp _ refl (λ p. omega arith) bad)
            | inr (inl old) ↦ absurd (answer_with-code 200 409 cmp _ refl (λ p. omega arith) old)
            | inr (inr x) ↦ absurd (answer_with-code 200 500 cmp _ refl (λ p. omega arith) x)
          ]
        ]

  -- No update is lost between requests: of two requests to patch one version from the same time
  -- stamp, by any users, the second is not answered by 200 after the first was, where the time of
  -- the first differs from the time stamp and the keys were distinct.
  pub component_patch_handler-lost_update :
      (parsers : Parsers) (ctx ctx₂ : Context) (now now₂ : Time) (route route₂ : Route)
      (request request₂ cmp cmp₂ : Component) (ds ds₁ ds₂ : List Component)
      → HasDistinctKeys ds
      → component_patch_handler driver parsers ctx now route (ok request) ds
        ≡ (answer_with 200 cmp, ds₁)
      → now ≢ (base request).timestamp
      → SameKey request₂ request
      → (base request₂).timestamp ≡ (base request).timestamp
      → ¬ (
          component_patch_handler driver parsers ctx₂ now₂ route₂ (ok request₂) ds₁
          ≡ (answer_with 200 cmp₂, ds₂))
  component_patch_handler-lost_update parsers ctx ctx₂ now now₂ route route₂ (component b i)
        (component b₂ i₂) cmp cmp₂ ds ds₁ ds₂ h first changed same_key same_time second =
      let patched =
        answered-IsPatched parsers ctx₂ now₂ route₂ (component b₂ i₂) cmp₂ ds₁ ds₂ second in
      patch_document-lost_update driver mongo (touched_component ctx now (component b i))
        (touched_component ctx₂ now₂ (component b₂ i₂)) b.timestamp ds ds₁ ds₂ cmp cmp₂ h
        (answered-IsPatched parsers ctx now route (component b i) cmp ds ds₁ first) changed same_key
        (subst
          (λ t.
            patch_document driver (touched_component ctx₂ now₂ (component b₂ i₂)) t ds₁
            ≡ (ok cmp₂, ds₂))
          same_time patched)
