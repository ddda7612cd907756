-- ===== src/Storage/Versioned/Transactions.antt =====
-- `session.WithTransaction` as the code calls it: a transaction that fails leaves the collection.
use flowify_workflows_server.Common.{String, List, ◌≡◌, refl, sym, ◌∙◌, ap, inl, inr}
use flowify_workflows_server.Common.Result.{
  Result, ok, err, Error, wrap, wrap-eq-ok, ok-injective, Result-cases, ok≢err,
}
use flowify_workflows_server.Models.{Document}
use flowify_workflows_server.Storage.Driver.{Driver}
use flowify_workflows_server.Storage.Versioned.{commit_result, with_transaction}

module _ {D : Type 0} ⦃doc : Document D⦄ (driver : Driver D) {A : Type 0} where
  commit_result-ok :
      (r : Result (A × List D)) (ds ds' : List D) (a : A)
      → commit_result driver r ds ≡ (ok a, ds')
      → r ≡ ok (a, ds')
  unfolding commit_result
  commit_result-ok (err e) ds ds' a h = absurd (ok≢err (sym (ap (λ x. x.0) h)))
  commit_result-ok (ok (b, es)) ds ds' a h = elim (Result-cases driver.commit) [
    | inl (_, committed) ↦
        let h' : (ok b, es) ≡ (ok a, ds') = rw committed at h in
        ap ok (
          ap (λ x. (x, es)) (ok-injective (ap (λ x. x.0) h')) ∙ ap (λ x. (a, x)) (ap (λ x. x.1) h'))
    | inr (e, failed) ↦
        let h' : (err e, ds) ≡ (ok a, ds') = rw failed at h in
        absurd (ok≢err (sym (ap (λ x. x.0) h')))
  ]

  commit_result-err :
      (r : Result (A × List D)) (ds ds' : List D) (e : Error)
      → commit_result driver r ds ≡ (err e, ds')
      → ds' ≡ ds
  unfolding commit_result
  commit_result-err (err e') ds ds' e h = sym (ap (λ x. x.1) h)
  commit_result-err (ok (b, es)) ds ds' e h = elim (Result-cases driver.commit) [
    | inl (_, committed) ↦
        let h' : (ok b, es) ≡ (err e, ds') = rw committed at h in absurd (ok≢err (ap (λ x. x.0) h'))
    | inr (e', failed) ↦
        let h' : (err e', ds) ≡ (err e, ds') = rw failed at h in sym (ap (λ x. x.1) h')
  ]

  wrap-err :
      (text : String) (r : Result A) (e : Error) → wrap text r ≡ err e → (e' : Error) × (r ≡ err e')
  wrap-err text (ok a) e h = absurd (ok≢err h)
  wrap-err text (err e') e h = (e', refl)

  -- A transaction that succeeds has run its callback.
  pub with_transaction-ok :
      (text : String) (callback : List D → Result (A × List D)) (ds ds' : List D) (a : A)
      → with_transaction driver text callback ds ≡ (ok a, ds')
      → callback ds ≡ ok (a, ds')
  unfolding with_transaction
  with_transaction-ok text callback ds ds' a h = elim (Result-cases driver.start_session) [
    | inl (_, started) ↦
        let r = commit_result driver (callback ds) ds in
        let h' : (wrap text r.0, r.1) ≡ (ok a, ds') = rw started at h in
        commit_result-ok (callback ds) ds ds' a (
          ap (λ x. (x, r.1)) (wrap-eq-ok text r.0 (ap (λ x. x.0) h'))
          ∙ ap (λ x. (ok a, x)) (ap (λ x. x.1) h'))
    | inr (e, failed) ↦ absurd (ok≢err (sym (ap (λ x. x.0) (rw failed at h))))
  ]

  -- One that fails leaves the collection as it was.
  pub with_transaction-err :
      (text : String) (callback : List D → Result (A × List D)) (ds ds' : List D) (e : Error)
      → with_transaction driver text callback ds ≡ (err e, ds')
      → ds' ≡ ds
  unfolding with_transaction
  with_transaction-err text callback ds ds' e h = elim (Result-cases driver.start_session) [
    | inl (_, started) ↦
        let r = commit_result driver (callback ds) ds in
        let h' : (wrap text r.0, r.1) ≡ (err e, ds') = rw started at h in
        let (e', failed) = wrap-err text r.0 e (ap (λ x. x.0) h') in
        commit_result-err (callback ds) ds ds' e'
          (ap (λ x. (x, r.1)) failed ∙ ap (λ x. (err e', x)) (ap (λ x. x.1) h'))
    | inr (e', failed) ↦ sym (ap (λ x. x.1) (rw failed at h))
  ]

  -- With a session and a commit that answer, the callback decides.
  pub with_transaction-answers :
      (text : String) (callback : List D → Result (A × List D)) (ds ds' : List D) (a : A)
      → driver.start_session ≡ ok tt
      → driver.commit ≡ ok tt
      → callback ds ≡ ok (a, ds')
      → with_transaction driver text callback ds ≡ (ok a, ds')
  unfolding with_transaction commit_result
  with_transaction-answers text callback ds ds' a started committed done =
      rw (started, done, committed)
