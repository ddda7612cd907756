-- ===== src/Storage/Versioned/Updates.antt =====
-- What `PutComponent` and `PutWorkflow` promise when they update a document.
use flowify_workflows_server.Storage.Versioned.Latest.{get_latest_version-IsLatestOf, IsLatestOf}
use flowify_workflows_server.Storage.Versioned.Transactions.{
  with_transaction-answers, with_transaction-ok, with_transaction-err,
}
use mathlib.Core.Path.{subst}
use flowify_workflows_server.Common.{
  nat_beq_iff, false, List, [], ◌∷◌, ◌++◌, In, In-left, In-append, ◌≡◌, ◌≢◌, sym, ◌∙◌, ap, ◌⊎◌, ◌↔◌,
  inl, inr, Bool-cases,
}
use flowify_workflows_server.Common.Result.{ok≢err, ok, err, Error}
use flowify_workflows_server.Models.{Document}
use flowify_workflows_server.Models.Versions.{Version, nil_reference, is_zero, ComponentReference}
use flowify_workflows_server.Storage.Driver.{
  match, uid_is, project, sort, limit, Driver, IsMongo, Answers, pull,
}
use flowify_workflows_server.Storage.Versioned.{
  first_version, latest_filter, get_latest_version, replace_latest_tag, next_version, put_document,
  update_callback,
}
use flowify_workflows_server.Storage.Versioned.Keys.{uid_of, current_of, HasDistinctKeys}
use flowify_workflows_server.Storage.Versioned.Newest.{
  next-previous, next-current, node-HasLatest, next-uid, node-uid, updated-In, updated-newest,
  updated-HasDistinctKeys, HasRoom,
}
use flowify_workflows_server.Storage.Versioned.Tags.{
  cleared-In-other, cleared-stays, cleared-In, latest_only, HasLatest,
}
use flowify_workflows_server.Common.Int.{negsuc, increment, ◌<ℤ◌}
use flowify_workflows_server.Storage.Versioned.Put.{Updated, update_callback-Updated}

module _ {D : Type 0} ⦃doc : Document D⦄ (driver : Driver D) (mongo : IsMongo driver) where
  pub put_document-Updated :
      (d : D) (ds ds' : List D) (node : D)
      → put_document driver d ds ≡ (ok node, ds')
      → Updated driver mongo d ds node ds'
  unfolding put_document
  put_document-Updated d ds ds' node e = elim (Bool-cases (is_zero (uid_of d))) [
    | inl nil ↦ absurd (ok≢err (sym (ap (λ x. x.0) (rw nil at e))))
    | inr some_uid ↦ update_callback-Updated driver mongo d ds node ds' (
        with_transaction-ok driver "update document transaction fail" (update_callback driver d) ds
          ds' node (rw some_uid at e))
  ]

  -- The update keeps that no two documents have the same uid and version number, provided that
  -- no stored version of the document has the largest 64-bit number. The new document is in
  -- the collection, under the uid that was given, with the tag `latest`.
  pub put_document-HasDistinctKeys :
      (d : D) (ds ds' : List D) (node : D)
      → HasDistinctKeys ds
      → HasRoom (uid_of d) ds
      → put_document driver d ds ≡ (ok node, ds')
      → HasDistinctKeys ds' × In node ds' × (uid_of node ≡ uid_of d) × HasLatest node
  put_document-HasDistinctKeys d ds ds' node h room e =
      let u = put_document-Updated d ds ds' node e in
      (
        updated-HasDistinctKeys driver mongo d ds node ds' u room h,
        updated-In driver mongo d ds node ds' u room,
        node-uid driver mongo d ds node ds' u room,
        node-HasLatest driver mongo d ds node ds' u room,
      )

  -- After the update each document of the uid in the collection is the new one, or it has a
  -- smaller version number and has not the tag `latest`. The keys were distinct before, and no
  -- stored version of the document had the largest 64-bit number.
  pub put_document-newest :
      (d : D) (ds ds' : List D) (node e : D)
      → HasDistinctKeys ds
      → HasRoom (uid_of d) ds
      → put_document driver d ds ≡ (ok node, ds')
      → In e ds'
      → uid_of e ≡ uid_of d
      → (e ≡ node) ⊎ (current_of e <ℤ current_of node) × (¬ HasLatest e)
  put_document-newest d ds ds' node e h room put =
      updated-newest driver mongo d ds node ds' (put_document-Updated d ds ds' node put) room e h

  -- An update neither changes, adds nor removes a document of another uid.
  pub put_document-others :
      (d : D) (ds ds' : List D) (node e : D)
      → put_document driver d ds ≡ (ok node, ds')
      → uid_of e ≢ uid_of d
      → In e ds ↔ In e ds'
  put_document-others d ds ds' node e put other =
      let u = put_document-Updated d ds ds' node put in
      (
        λ m. subst (In e) (sym u.after) (
            cleared-In (uid_of d) (current_of node) (ds ++ node ∷ []) e (inl other)
              (In-left ds _ e m)),
        λ m.
            elim (In-append ds (node ∷ []) e (
              cleared-In-other (uid_of d) (current_of node) (ds ++ node ∷ []) e other
                (subst (In e) u.after m))) [
                  | inl before ↦ before
                  | inr (inl is_node) ↦
                      absurd
                        (other (ap (λ x. uid_of x) (sym is_node ∙ u.stored) ∙ next-uid d u.latest))
                  | inr (inr m') ↦ elim m' [ ]
                ],
      )

  -- An update loses no version: each stored document is in the collection afterwards, as it was
  -- or without the tag `latest`.
  pub put_document-keeps :
      (d : D) (ds ds' : List D) (node e : D)
      → put_document driver d ds ≡ (ok node, ds')
      → In e ds
      → In e ds' ⊎ In (pull latest_only e) ds'
  put_document-keeps d ds ds' node e put m =
      let u = put_document-Updated d ds ds' node put in
      subst (λ x. In e x ⊎ In (pull latest_only e) x) (sym u.after)
        (cleared-stays (uid_of d) (current_of node) (ds ++ node ∷ []) e (In-left ds _ e m))

  -- The version that an update stores follows the one with the largest number of its uid: its
  -- number is that plus one (a 64-bit increment), and it names it as the previous one. With
  -- none stored, the previous number is 0.
  pub put_document-follows :
      (d : D) (ds ds' : List D) (node : D)
      → put_document driver d ds ≡ (ok node, ds')
      → (latest : Version) × IsLatestOf driver mongo (uid_of d) ds latest
        × (current_of node ≡ increment latest.current)
        × ((doc.metadata node).version.previous.version ≡ latest.current)
  put_document-follows d ds ds' node put =
      let u = put_document-Updated d ds ds' node put in
      (
        u.latest,
        get_latest_version-IsLatestOf driver mongo _ ds _ u.was_latest,
        ap (λ x. current_of x) u.stored ∙ next-current d u.latest,
        ap (λ x. (doc.metadata x).version.previous.version) u.stored ∙ next-previous d u.latest,
      )

  -- An update that returns an error leaves the collection as it was.
  pub put_document-err :
      (d : D) (ds ds' : List D) (e : Error) → put_document driver d ds ≡ (err e, ds') → ds' ≡ ds
  unfolding put_document
  put_document-err d ds ds' e h = elim (Bool-cases (is_zero (uid_of d))) [
    | inl nil ↦ sym (ap (λ x. x.1) (rw nil at h))
    | inr some_uid ↦
        with_transaction-err driver "update document transaction fail" (update_callback driver d) ds
          ds' e (rw some_uid at h)
  ]

  module _ (a : Answers driver) (ds : List D) where
    pub get_latest_version-answers :
        (uid : ComponentReference) → (v : Version) × (get_latest_version driver uid ds ≡ ok v)
    unfolding get_latest_version
    get_latest_version-answers uid =
        let (vs, answer) =
          a.aggregates
            (match (uid_is uid ∷ [])
              ∷ project ("version" ∷ [])
              ∷ sort (("version.current", negsuc 0) ∷ [])
              ∷ limit 1
              ∷ [])
            ds in
        (first_version vs, rw answer)

    update_callback-answers :
        (d : D) → (node : D) × (ds' : List D) × (update_callback driver d ds ≡ ok (node, ds'))
    unfolding update_callback replace_latest_tag
    update_callback-answers d =
        let (latest, read) = get_latest_version-answers (uid_of d) in
        let node = next_version d latest in
        let (ds₁, inserted) = a.inserts node ds in
        let (ds₂, pulled) = a.pulls (latest_filter (uid_of d) (current_of node)) latest_only ds₁ in
        (node, ds₂, rw (read, inserted, pulled))

    -- With a collection that answers, an update of a document whose uid is not zero succeeds.
    pub put_document-answers :
        (d : D)
        → uid_of d ≢ nil_reference
        → (node : D) × (ds' : List D) × (put_document driver d ds ≡ (ok node, ds'))
    unfolding put_document
    put_document-answers d some_uid =
        let (node, ds', done) = update_callback-answers d in
        let not_zero : is_zero (uid_of d) ≡ false = elim (Bool-cases (is_zero (uid_of d))) [
          | inl nil ↦ absurd (some_uid ((nat_beq_iff (uid_of d) nil_reference).0 nil))
          | inr other ↦ other
        ] in
        (
          node,
          ds',
          rw not_zero (
              with_transaction-answers driver "update document transaction fail"
                (update_callback driver d) ds ds' node a.starts a.commits done),
        )
