-- ===== src/Storage/Versioned/Reads.antt =====
-- What `GetComponent` and the read of `GetWorkflow` promise.
use flowify_workflows_server.Storage.Versioned.Updates.{get_latest_version-answers}
use flowify_workflows_server.Storage.Versioned.Latest.{get_latest_version-IsLatestOf}
use flowify_workflows_server.Models.Versions.{ComponentReference, VersionNumber}
use mathlib.Core.Path.{subst}
use mathlib.Core.Bool.{false≢true}
use flowify_workflows_server.Common.{
  Option-cases, nat_beq_iff, true, All-In, Any-witness, some, nat_eq, string_eq, arith, false, ◌==◌,
  List, [], ◌∷◌, In, All, ◌≡◌, ◌≢◌, refl, sym, ◌∙◌, ap, inl, inr,
}
use flowify_workflows_server.Common.Int.{
  <-irrefl_ℤ, ≤-antisym_ℤ, int_eq, int_beq_iff, ◌≤ℤ◌, pos, ◌<ℤ◌,
}
use flowify_workflows_server.Common.Result.{ok}
use flowify_workflows_server.Models.{Document}
use flowify_workflows_server.Storage.Driver.{current_is, uid_is, matches, Driver, IsMongo, Answers}
use flowify_workflows_server.Storage.Versioned.{
  by_reference, by_version, get_cref_version, get_document,
}
use flowify_workflows_server.Storage.Versioned.Keys.{
  same_of_SameKey, uid_of, current_of, HasDistinctKeys,
}

nonzero : (v : VersionNumber) → v ≢ pos 0 → (v == pos 0) ≡ false
nonzero v h = ground (arith, int_beq_iff v (pos 0))

module _ {D : Type 0} ⦃doc : Document D⦄ where
  -- The stored versions of the document are numbered from 1.
  abbrev pub IsPositive : ComponentReference → List D → Type 0
  IsPositive uid ds = All (λ e. uid_of e ≡ uid → pos 0 <ℤ current_of e) ds

  versioned-matches :
      (uid : ComponentReference) (v : VersionNumber) (e : D)
      → uid_of e ≡ uid
      → current_of e ≡ v
      → matches (uid_is uid ∷ current_is v ∷ []) (doc.metadata e) ≡ true
  versioned-matches uid v e p q =
      ground (arith, nat_beq_iff (uid_of e) uid, int_beq_iff (current_of e) v)

  versioned-matches-keys :
      (uid : ComponentReference) (v : VersionNumber) (e : D)
      → matches (uid_is uid ∷ current_is v ∷ []) (doc.metadata e) ≡ true
      → (uid_of e ≡ uid) × (current_of e ≡ v)
  versioned-matches-keys uid v e h =
      ground (arith, nat_beq_iff (uid_of e) uid, int_beq_iff (current_of e) v)

module _ {D : Type 0} ⦃doc : Document D⦄ (driver : Driver D) (mongo : IsMongo driver)
    (a : Answers driver) where
  find_one_unique :
      (ds : List D) (e : D)
      → HasDistinctKeys ds
      → In e ds
      → driver.find_one (uid_is (uid_of e) ∷ current_is (current_of e) ∷ []) ds ≡ ok (some e)
  find_one_unique ds e h m =
      let filter = uid_is (uid_of e) ∷ current_is (current_of e) ∷ [] in
      let (o, answer) = a.finds filter ds in
      elim (Option-cases o) [
        | inl missing ↦ absurd (
            false≢true (
              sym (All-In _ ds (mongo.missed filter ds (rw missing at answer)) m)
              ∙ versioned-matches (uid_of e) (current_of e) e refl refl))
        | inr (x, is_x) ↦
            let answer' : driver.find_one filter ds ≡ ok (some x) = rw is_x at answer in
            let hit = mongo.found filter ds x answer' in
            let keys = versioned-matches-keys (uid_of e) (current_of e) x hit.1 in
            answer' ∙ ap (λ y. ok (some y)) (same_of_SameKey ds x e h hit.0 m keys)
      ]

  -- Reading a stored document by its uid and version number returns it, provided that the number
  -- is not 0, the keys are distinct and the collection answers.
  pub get_document-by_version :
      (ds : List D) (e : D)
      → HasDistinctKeys ds
      → In e ds
      → current_of e ≢ pos 0
      → get_document driver (by_version (record { version = current_of e; uid = uid_of e })) ds
        ≡ ok e
  unfolding get_document get_cref_version
  get_document-by_version ds e h m numbered =
      rw
        (nonzero (current_of e) numbered, nonzero (current_of e) numbered, find_one_unique ds e h m)

  -- Reading a document by its uid alone returns its version with the largest number, provided
  -- that the numbers of its versions are above 0, the keys are distinct and the collection answers.
  pub get_document-by_reference :
      (ds : List D) (e : D)
      → HasDistinctKeys ds
      → IsPositive (uid_of e) ds
      → In e ds
      → All (λ x. uid_of x ≡ uid_of e → current_of x ≤ℤ current_of e) ds
      → get_document driver (by_reference (uid_of e)) ds ≡ ok e
  unfolding get_document get_cref_version
  get_document-by_reference ds e h positive m largest =
      let (v, read) = get_latest_version-answers driver mongo a ds (uid_of e) in
      let same : v.current ≡ current_of e =
        elim (get_latest_version-IsLatestOf driver mongo (uid_of e) ds v read) [
          | inl (none_stored, _) ↦ absurd (All-In _ ds none_stored m refl)
          | inr (stored, bound) ↦
              let (x, m', p) = Any-witness ds stored in
              ≤-antisym_ℤ v.current (current_of e)
                (subst (λ w. w.current ≤ℤ current_of e) p.1 (All-In _ ds largest m' p.0))
                (All-In _ ds bound m refl)
        ] in
      rw (
        read,
        same,
        nonzero (current_of e)
            (λ p. <-irrefl_ℤ (pos 0) (current_of e) (All-In _ ds positive m refl) (sym p)),
        find_one_unique ds e h m,
      )
