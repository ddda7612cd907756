-- ===== src/Storage/Versioned/Newest.antt =====
-- What `PutComponent` and `PutWorkflow` promise: the version that they store is the newest of its
-- document, and the only one with the tag `latest`.
use mathlib.Core.Path.{subst}
use flowify_workflows_server.Common.{
  In-last, Any-witness, List, [], ◌∷◌, ◌++◌, nat_eq, In, All, All-append, All-map, All-In, ◌≡◌,
  refl, sym, ◌∙◌, ap, ◌⊎◌, inl, inr, arith,
}
use flowify_workflows_server.Common.Int.{
  ≤-<-trans_ℤ, <-irrefl_ℤ, ◌<ℤ◌, max_int, increment, lt-increment,
}
use flowify_workflows_server.Models.{Document}
use flowify_workflows_server.Models.Versions.{
  ComponentReference, Version, version_tag_latest, set_latest_tag-In, set_latest_tag-current,
  set_latest_tag-previous,
}
use flowify_workflows_server.Storage.Driver.{Driver, IsMongo}
use flowify_workflows_server.Storage.Versioned.{latest_filter, next_version}
use flowify_workflows_server.Storage.Versioned.Keys.{
  pull-All, uid_of, current_of, SameKey, HasDistinctKeys, HasDistinctKeys-snoc,
  pull-HasDistinctKeys, same_of_SameKey,
}
use flowify_workflows_server.Storage.Versioned.Latest.{
  IsLatestOf, get_latest_version-IsLatestOf, get_latest_version-largest,
}
use flowify_workflows_server.Storage.Versioned.Put.{Updated}
use flowify_workflows_server.Storage.Versioned.Tags.{
  HasLatest, cleared-only, cleared-In, latest_only,
}

module _ {D : Type 0} ⦃doc : Document D⦄ where
  pub next-uid : (d : D) (latest : Version) → uid_of (next_version d latest) ≡ uid_of d
  unfolding next_version
  next-uid d latest = ap (λ m. m.uid) (doc.metadata-with _ d)

  pub next-current :
      (d : D) (latest : Version) → current_of (next_version d latest) ≡ increment latest.current
  unfolding next_version
  next-current d latest =
      ap (λ m. m.version.current) (doc.metadata-with _ d) ∙ set_latest_tag-current _

  pub next-previous :
      (d : D) (latest : Version)
      → (doc.metadata (next_version d latest)).version.previous.version ≡ latest.current
  unfolding next_version
  next-previous d latest =
      ap (λ m. m.version.previous.version) (doc.metadata-with _ d)
      ∙ ap (λ p. p.version) (set_latest_tag-previous _)

  pub next-HasLatest : (d : D) (latest : Version) → HasLatest (next_version d latest)
  unfolding next_version
  next-HasLatest d latest =
      subst (λ m. In version_tag_latest m.version.tags) (sym (doc.metadata-with _ d))
        (set_latest_tag-In _)

  -- No version of the document has the largest number of an `int`.
  abbrev pub HasRoom : ComponentReference → List D → Type 0
  HasRoom uid ds = All (λ e. uid_of e ≡ uid → current_of e <ℤ max_int) ds

module _ {D : Type 0} ⦃doc : Document D⦄ (driver : Driver D) (mongo : IsMongo driver) where
  pub latest_below_max :
      (uid : ComponentReference) (ds : List D) (v : Version)
      → IsLatestOf driver mongo uid ds v
      → HasRoom uid ds
      → v.current <ℤ max_int
  latest_below_max uid ds v (inl (_, zero)) room = rw zero (omega arith)
  latest_below_max uid ds v (inr (stored, _)) room =
      let (e, m, p) = Any-witness ds stored in
      subst (λ w. w.current <ℤ max_int) p.1 (All-In _ ds room m p.0)

  module _ (d : D) (ds : List D) (node : D) (ds' : List D) (u : Updated driver mongo d ds node ds')
      (room : HasRoom (uid_of d) ds) where
    pub node-uid : uid_of node ≡ uid_of d
    node-uid = ap (λ x. uid_of x) u.stored ∙ next-uid d u.latest

    pub node-HasLatest : HasLatest node
    node-HasLatest = subst (λ x. HasLatest x) (sym u.stored) (next-HasLatest d u.latest)

    pub node-larger : u.latest.current <ℤ current_of node
    node-larger =
        subst (λ c. u.latest.current <ℤ c)
          (sym (ap (λ x. current_of x) u.stored ∙ next-current d u.latest))
          (lt-increment u.latest.current (
            latest_below_max (uid_of d) ds u.latest
              (get_latest_version-IsLatestOf driver mongo _ ds _ u.was_latest) room))

    older : All (λ e. uid_of e ≡ uid_of d → current_of e <ℤ current_of node) ds
    older =
        All-map
          (λ e le same.
            ≤-<-trans_ℤ (current_of e) u.latest.current (current_of node) (le same) (node-larger))
          ds (get_latest_version-largest driver mongo (uid_of d) ds u.latest u.was_latest)

    fresh : All (λ e. ¬ SameKey e node) ds
    fresh =
        All-map
          (λ e lt same. <-irrefl_ℤ (current_of e) (current_of node) (lt (same.0 ∙ node-uid)) same.1)
          ds older

    pub updated-HasDistinctKeys : HasDistinctKeys ds → HasDistinctKeys ds'
    updated-HasDistinctKeys h = subst HasDistinctKeys (sym u.after) (
        pull-HasDistinctKeys (latest_filter (uid_of d) (current_of node)) latest_only
          (ds ++ node ∷ []) (HasDistinctKeys-snoc ds node h fresh))

    pub updated-In : In node ds'
    updated-In = subst (In node) (sym u.after) (
        cleared-In (uid_of d) (current_of node) (ds ++ node ∷ []) node (inr refl) (In-last ds node))

    -- Any document of the uid is the new one, or it is older and has not the tag.
    pub updated-newest :
        (e : D)
        → HasDistinctKeys ds
        → In e ds'
        → uid_of e ≡ uid_of d
        → (e ≡ node) ⊎ (current_of e <ℤ current_of node) × (¬ HasLatest e)
    updated-newest e h m same =
        let bounded =
          subst
            (All (λ x.
              uid_of x ≡ uid_of d
              → (current_of x ≡ current_of node) ⊎ (current_of x <ℤ current_of node)))
            (sym u.after)
            (pull-All (λ i c. i ≡ uid_of d → (c ≡ current_of node) ⊎ (c <ℤ current_of node))
              (latest_filter (uid_of d) (current_of node)) latest_only (ds ++ node ∷ [])
              (All-append _ ds (node ∷ []) (All-map (λ x lt p. inr (lt p)) ds older)
                (λ p. inl refl, tt))) in
        let cleared =
          subst (All (λ x. uid_of x ≡ uid_of d → HasLatest x → current_of x ≡ current_of node))
            (sym u.after) (cleared-only (uid_of d) (current_of node) (ds ++ node ∷ [])) in
        elim (All-In _ ds' bounded m same) [
          | inl equal ↦ inl (
              same_of_SameKey ds' e node (updated-HasDistinctKeys h) m updated-In
                (same ∙ sym node-uid, equal))
          | inr lt ↦ inr (
            lt,
            λ l. <-irrefl_ℤ (current_of e) (current_of node) lt (All-In _ ds' cleared m same l),
          )
        ]
