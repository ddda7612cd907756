-- ===== src/Storage/Versioned/Found.antt =====
-- What a successful read of a document says of the collection, without an assumption on it.
use flowify_workflows_server.Common.{
  List, ◌==◌, nat_eq, nat_beq_iff, string_eq, Option, none, some, In, ◌≡◌, sym, ◌∙◌, ap, inl, inr,
  arith, true, Bool-cases,
}
use flowify_workflows_server.Common.Int.{pos, int_eq}
use flowify_workflows_server.Common.Result.{
  Result, ok, err, wrap, >>=-eq-ok, wrap-eq-ok, ok-injective,
}
use flowify_workflows_server.Models.{Document}
use flowify_workflows_server.Models.Versions.{ComponentReference, CRefVersion}
use flowify_workflows_server.Storage.Driver.{Driver, IsMongo, matches}
use flowify_workflows_server.Storage.Versioned.{
  Identifier, by_reference, by_version, of_other_type, document_filter, get_cref_version,
  get_latest_version, get_document, found_or_error,
}
use flowify_workflows_server.Storage.Versioned.Keys.{uid_of}

module _ {D : Type 0} ⦃doc : Document D⦄ (driver : Driver D) where
  found_or_error-eq-ok :
      (r : Result (Option D)) (d : D) → found_or_error driver r ≡ ok d → r ≡ ok (some d)
  unfolding found_or_error
  found_or_error-eq-ok (ok none) d e = cc
  found_or_error-eq-ok (ok (some x)) d e = cc
  found_or_error-eq-ok (err x) d e = cc

  -- The uid that an identifier names.
  abbrev pub named_uid : Identifier → Option ComponentReference
  named_uid (by_reference uid) = some uid
  named_uid (by_version cref) = some cref.uid
  named_uid of_other_type = none

  get_cref_version-uid :
      (id : Identifier) (ds : List D) (v : CRefVersion)
      → get_cref_version driver id ds ≡ ok v
      → named_uid id ≡ some v.uid
  unfolding get_cref_version
  get_cref_version-uid (by_reference uid) ds v e =
      let (latest, _, same) =
        >>=-eq-ok (wrap "cannot get latest version of component" (get_latest_version driver uid ds))
          _ e in
      ap (λ c. some c.uid) (ok-injective same)
  get_cref_version-uid (by_version cref) ds v e = elim (Bool-cases (cref.version == pos 0)) [
    | inl zero ↦
        let (latest, _, same) =
          >>=-eq-ok
            (wrap "cannot get latest version of component" (get_latest_version driver cref.uid ds))
            _ (rw zero at e) in
        ap (λ c. some c.uid) (ok-injective same)
    | inr numbered ↦ ap (λ c. some c.uid) (ok-injective (rw numbered at e))
  ]
  get_cref_version-uid of_other_type ds v e = cc

  document_filter-uid :
      (v : CRefVersion) (d : D)
      → matches (document_filter v) (doc.metadata d) ≡ true
      → uid_of d ≡ v.uid
  document_filter-uid v d h = ground (arith, nat_beq_iff (uid_of d) v.uid)

  -- A document that is read is in the collection, under the uid that the identifier names.
  pub get_document-In :
      IsMongo driver
      → (id : Identifier) (ds : List D) (d : D) → get_document driver id ds ≡ ok d
      → In d ds × (named_uid id ≡ some (uid_of d))
  unfolding get_document
  get_document-In mongo id ds d e =
      let (v, resolved, rest) =
        >>=-eq-ok (wrap "error retriving component." (get_cref_version driver id ds)) _ e in
      let (m, selected) = mongo.found (document_filter v) ds d (found_or_error-eq-ok _ d rest) in
      (
        m,
        get_cref_version-uid id ds v (wrap-eq-ok _ _ resolved)
            ∙ ap some (sym (document_filter-uid v d selected)),
      )
