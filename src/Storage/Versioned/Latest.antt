-- ===== src/Storage/Versioned/Latest.antt =====
-- What the aggregation for the latest version returns.
use mathlib.Core.Path.{subst}
use flowify_workflows_server.Common.{
  List, [], ◌∷◌, nat_eq, nat_beq_iff, All, All-map, Any, Any-map, ◌≡◌, ◌≢◌, refl, ◌⊎◌, inl, inr,
  arith,
}
use flowify_workflows_server.Common.Int.{negsuc, ◌≤ℤ◌}
use flowify_workflows_server.Common.Result.{ok, wrap, >>=-eq-ok, wrap-eq-ok, ok-injective}
use flowify_workflows_server.Models.{Document}
use flowify_workflows_server.Models.Versions.{ComponentReference, Version, no_version}
use flowify_workflows_server.Storage.Driver.{uid_is, match, project, sort, limit, Driver, IsMongo}
use flowify_workflows_server.Storage.Versioned.{first_version, get_latest_version}

module _ {D : Type 0} ⦃doc : Document D⦄ (driver : Driver D) (mongo : IsMongo driver) where
  -- There is no document of the uid and the zero version is returned, or the version is that of
  -- a stored document, and no document of the uid has a larger one.
  abbrev pub IsLatestOf : ComponentReference → List D → Version → Type 0
  IsLatestOf uid ds v =
      All (λ d. (doc.metadata d).uid ≢ uid) ds × (v ≡ no_version)
      ⊎ Any (λ d. ((doc.metadata d).uid ≡ uid) × ((doc.metadata d).version ≡ v)) ds
        × All (λ d. (doc.metadata d).uid ≡ uid → (doc.metadata d).version.current ≤ℤ v.current) ds

  IsLatestOf-versions :
      (uid : ComponentReference) (ds : List D) (vs : List Version)
      → driver.aggregate_versions
          (match (uid_is uid ∷ [])
            ∷ project ("version" ∷ [])
            ∷ sort (("version.current", negsuc 0) ∷ [])
            ∷ limit 1
            ∷ [])
          ds
        ≡ ok vs
      → IsLatestOf uid ds (first_version vs)
  unfolding first_version
  IsLatestOf-versions uid ds [] e = inl (
    All-map (λ d p. ground (arith, nat_beq_iff (doc.metadata d).uid uid)) ds
        (mongo.latest_none (uid_is uid ∷ []) ds e),
    refl,
  )
  IsLatestOf-versions uid ds (v ∷ vs) e =
      let l = mongo.latest_some (uid_is uid ∷ []) ds v vs e in
      inr (
        Any-map (λ d p. (ground (arith, nat_beq_iff (doc.metadata d).uid uid), p.1)) ds l.stored,
        All-map (λ d p same. p (ground (arith, nat_beq_iff (doc.metadata d).uid uid))) ds l.largest,
      )

  pub get_latest_version-IsLatestOf :
      (uid : ComponentReference) (ds : List D) (v : Version)
      → get_latest_version driver uid ds ≡ ok v
      → IsLatestOf uid ds v
  unfolding get_latest_version
  get_latest_version-IsLatestOf uid ds v e =
      let (vs, wrapped, same) = >>=-eq-ok (wrap _ (driver.aggregate_versions _ ds)) _ e in
      subst (IsLatestOf uid ds) (ok-injective same)
        (IsLatestOf-versions uid ds vs (wrap-eq-ok _ _ wrapped))

  -- No document of the uid has a larger version.
  pub get_latest_version-largest :
      (uid : ComponentReference) (ds : List D) (v : Version)
      → get_latest_version driver uid ds ≡ ok v
      → All (λ d. (doc.metadata d).uid ≡ uid → (doc.metadata d).version.current ≤ℤ v.current) ds
  get_latest_version-largest uid ds v e = elim (get_latest_version-IsLatestOf uid ds v e) [
    | inl (none, _) ↦ All-map (λ d other same. absurd (other same)) ds none
    | inr (_, largest) ↦ largest
  ]
