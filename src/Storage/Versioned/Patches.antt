-- ===== src/Storage/Versioned/Patches.antt =====
-- `patchCallback`, `PatchComponent` and `PatchWorkflow`: changes of the latest version in place, which
-- fail when another change came first.
use flowify_workflows_server.Storage.Versioned.Transactions.{
  with_transaction-err, with_transaction-ok,
}
use flowify_workflows_server.Storage.Versioned.Latest.{get_latest_version-largest}
use mathlib.Core.Path.{subst}
use flowify_workflows_server.Common.{
  String, In-middle, List, [], ◌∷◌, ◌++◌, ◌==◌, not, nat_eq, nat_beq_iff, Bool, true, false, Option,
  none, some, In, All, ◌≡◌, ◌≢◌, refl, sym, ◌∙◌, ap, inl, inr, arith,
}
use flowify_workflows_server.Common.Int.{int_eq, int_beq_iff, ◌≤ℤ◌}
use flowify_workflows_server.Common.Result.{
  Result-cases, Result, ok, err, Error, fail_if, wrap, newer_document_exists, ◌>>=◌, >>=-eq-ok,
  wrap-eq-ok, ok-injective, ok≢err,
}
use flowify_workflows_server.Models.{Document, Time}
use flowify_workflows_server.Storage.Driver.{Driver, IsMongo, uid_is, current_is, Selects}
use flowify_workflows_server.Storage.Versioned.{
  with_transaction, get_latest_version, patch_callback, patch_document, stored_timestamp,
  after_update,
}
use flowify_workflows_server.Storage.Versioned.Keys.{
  replaced-HasDistinctKeys, uid_of, current_of, HasDistinctKeys, SameKey, same_of_SameKey,
}

fail_if-eq-ok : (b : Bool) (x : Error) {u : Unit {0}} → fail_if b x ≡ ok u → b ≡ false
fail_if-eq-ok true x e = absurd (ok≢err (sym e))
fail_if-eq-ok false x e = refl

module _ {D : Type 0} ⦃doc : Document D⦄ where
  abbrev pub timestamp_of : D → Time
  timestamp_of d = (doc.metadata d).timestamp

  -- A stored document is replaced by another.
  pub record Replaced (ds : List D) (e : D) (ds' : List D) : Type 0 where
    pub before : List D
    pub old : D
    pub after : List D
    pub was : ds ≡ before ++ old ∷ after
    pub is : ds' ≡ before ++ e ∷ after

module _ {D : Type 0} ⦃doc : Document D⦄ (driver : Driver D) (mongo : IsMongo driver) where
  -- The facts of a successful patch.
  pub record Patched (d : D) (base_timestamp : Time) (ds : List D) (e : D) (ds' : List D)
      : Type 0 where
    pub newest : All (λ x. uid_of x ≡ uid_of d → current_of x ≤ℤ current_of d) ds
    pub read : D
    pub was_read : In read ds × SameKey read d
    pub unchanged : timestamp_of read ≡ base_timestamp
    pub replaced : Replaced ds e ds'
    pub key : SameKey replaced.old d
    pub same_key : SameKey e d
    pub stamped : timestamp_of e ≡ timestamp_of d

  stored_timestamp-eq-ok :
      (o : Option D) (t : Time)
      → stored_timestamp driver o ≡ ok t
      → (x : D) × (o ≡ some x) × (timestamp_of x ≡ t)
  unfolding stored_timestamp
  stored_timestamp-eq-ok none t e = absurd (ok≢err (sym e))
  stored_timestamp-eq-ok (some x) t e = (x, refl, ok-injective e)

  after_update-ok :
      (r : Result (D × List D)) (ds ds' : List D) (e : D)
      → after_update driver r ds ≡ (ok e, ds')
      → r ≡ ok (e, ds')
  unfolding after_update
  after_update-ok (err x) ds ds' e h = absurd (ok≢err (sym (ap (λ y. y.0) h)))
  after_update-ok (ok (y, es)) ds ds' e h =
      ap ok
        (ap (λ x. (x, es)) (ok-injective (ap (λ x. x.0) h)) ∙ ap (λ x. (e, x)) (ap (λ x. x.1) h))

  key_filter :
      (d x : D) → Selects (uid_is (uid_of d) ∷ current_is (current_of d) ∷ []) x → SameKey x d
  key_filter d x h =
      ground (arith, nat_beq_iff (uid_of x) (uid_of d), int_beq_iff (current_of x) (current_of d))

  patch_callback-Patched :
      (d : D) (t : Time) (ds : List D) (e : D) (ds' : List D)
      → patch_callback driver d t ds ≡ ok (ok e, ds')
      → Patched d t ds e ds'
  unfolding patch_callback
  patch_callback-Patched d t ds e ds' h =
      let filter = uid_is (uid_of d) ∷ current_is (current_of d) ∷ [] in
      let (latest, got, h₁) =
        >>=-eq-ok (wrap "cannot get document version" (get_latest_version driver (uid_of d) ds)) _
          h in
      let (_, is_latest, h₂) = >>=-eq-ok (fail_if (not (current_of d == latest.current)) _) _ h₁ in
      let (o, found, h₃) =
        >>=-eq-ok (wrap "cannot get document timestamp" (driver.find_one filter ds)) _ h₂ in
      let (s, stamp, h₄) = >>=-eq-ok (stored_timestamp driver o) _ h₃ in
      let (_, fresh, h₅) = >>=-eq-ok (fail_if (not (s == t)) newer_document_exists) _ h₄ in
      let set = after_update-ok (driver.set_document filter d ds) ds ds' e (ok-injective h₅) in
      let (x, is_x, at_x) = stored_timestamp-eq-ok o s stamp in
      let (m, selected) = mongo.found filter ds x (wrap-eq-ok _ _ found ∙ ap ok is_x) in
      let (before, old, after, was, hit, same_uid, same_version, same_time, is) =
        mongo.set filter d e ds ds' set in
      let current : current_of d ≡ latest.current = (int_beq_iff (current_of d) latest.current).0 (
        let t' = fail_if-eq-ok (not (current_of d == latest.current)) _ is_latest in
        ground arith) in
      record {
        newest =
            subst (λ c. All (λ x. uid_of x ≡ uid_of d → current_of x ≤ℤ c) ds) (sym current)
              (get_latest_version-largest driver mongo (uid_of d) ds latest (wrap-eq-ok _ _ got));
        read = x;
        was_read = (m, key_filter d x selected);
        unchanged =
            at_x
            ∙ (nat_beq_iff s t).0 (let t' = fail_if-eq-ok (not (s == t)) _ fresh in ground arith);
        replaced = record { before = before; old = old; after = after; was = was; is = is };
        key = key_filter d old hit;
        same_key = (same_uid, ap (λ v. v.current) same_version);
        stamped = same_time;
      }

  pub patch_document-Patched :
      (d : D) (t : Time) (ds : List D) (e : D) (ds' : List D)
      → patch_document driver d t ds ≡ (ok e, ds')
      → Patched d t ds e ds'
  unfolding patch_document
  patch_document-Patched d t ds e ds' h =
      let text : String = "patch document transaction fail" in
      let r = with_transaction driver text (patch_callback driver d t) ds in
      let (inner, done, same) = >>=-eq-ok r.0 _ (ap (λ x. x.0) h) in
      patch_callback-Patched d t ds e ds' (
        with_transaction-ok driver text (patch_callback driver d t) ds ds' (ok e)
          (ap (λ x. (x, r.1)) (done ∙ ap ok same) ∙ ap (λ x. (ok (ok e), x)) (ap (λ x. x.1) h)))

  -- A patch that succeeds replaces one stored document, the one with the uid and the version number
  -- of the patch, by a document with this key and with the time stamp of the patch. The number
  -- was the largest of the uid. The keys were distinct before, and are so after.
  pub patch_document-HasDistinctKeys :
      (d : D) (t : Time) (ds : List D) (e : D) (ds' : List D)
      → HasDistinctKeys ds
      → patch_document driver d t ds ≡ (ok e, ds')
      → HasDistinctKeys ds'
        × Replaced ds e ds'
        × SameKey e d
        × (timestamp_of e ≡ timestamp_of d)
        × All (λ x. uid_of x ≡ uid_of d → current_of x ≤ℤ current_of d) ds
  patch_document-HasDistinctKeys d t ds e ds' h patch =
      let p = patch_document-Patched d t ds e ds' patch in
      let r = p.replaced in
      (
        subst HasDistinctKeys (sym r.is) (
            replaced-HasDistinctKeys r.before r.after r.old e
              (p.same_key.0 ∙ sym p.key.0, p.same_key.1 ∙ sym p.key.1)
              (subst HasDistinctKeys r.was h)),
        r,
        p.same_key,
        p.stamped,
        p.newest,
      )

  -- A patch needs a stored document with its key whose time stamp is the one that the client had
  -- read.
  pub patch_document-unchanged :
      (d : D) (t : Time) (ds : List D) (e : D) (ds' : List D)
      → patch_document driver d t ds ≡ (ok e, ds')
      → (read : D) × In read ds × SameKey read d × (timestamp_of read ≡ t)
  patch_document-unchanged d t ds e ds' patch =
      let p = patch_document-Patched d t ds e ds' patch in
      (p.read, p.was_read.0, p.was_read.1, p.unchanged)

  -- No update is lost: of two patches of one version from the same time stamp, the second does
  -- not succeed, provided that the first one changed the time stamp. The keys were distinct.
  pub patch_document-lost_update :
      (d d₂ : D) (t : Time) (ds ds₁ ds₂ : List D) (e e₂ : D)
      → HasDistinctKeys ds
      → patch_document driver d t ds ≡ (ok e, ds₁)
      → timestamp_of d ≢ t
      → SameKey d₂ d
      → ¬ (patch_document driver d₂ t ds₁ ≡ (ok e₂, ds₂))
  patch_document-lost_update d d₂ t ds ds₁ ds₂ e e₂ h first changed same second =
      let (distinct, r, key, stamped, _) = patch_document-HasDistinctKeys d t ds e ds₁ h first in
      let (read, m, read_key, at_t) = patch_document-unchanged d₂ t ds₁ e₂ ds₂ second in
      let stored : In e ds₁ = subst (In e) (sym r.is) (In-middle r.before r.after e) in
      let one =
        same_of_SameKey ds₁ read e distinct m stored
          (read_key.0 ∙ same.0 ∙ sym key.0, read_key.1 ∙ same.1 ∙ sym key.1) in
      changed (sym stamped ∙ ap (λ x. timestamp_of x) (sym one) ∙ at_t)

  after_update-err :
      (r : Result (D × List D)) (ds ds' : List D) (x : Error)
      → after_update driver r ds ≡ (err x, ds')
      → ds' ≡ ds
  unfolding after_update
  after_update-err (err y) ds ds' x h = sym (ap (λ z. z.1) h)
  after_update-err (ok (y, es)) ds ds' x h = absurd (ok≢err (ap (λ z. z.0) h))

  -- The last step of the callback.
  patch_callback-update :
      (d : D) (t : Time) (ds ds' : List D) (r : Result D)
      → patch_callback driver d t ds ≡ ok (r, ds')
      → after_update driver
          (driver.set_document (uid_is (uid_of d) ∷ current_is (current_of d) ∷ []) d ds)
          ds
        ≡ (r, ds')
  unfolding patch_callback
  patch_callback-update d t ds ds' r h =
      let filter = uid_is (uid_of d) ∷ current_is (current_of d) ∷ [] in
      let (latest, _, h₁) =
        >>=-eq-ok (wrap "cannot get document version" (get_latest_version driver (uid_of d) ds)) _
          h in
      let (_, _, h₂) = >>=-eq-ok (fail_if (not (current_of d == latest.current)) _) _ h₁ in
      let (o, _, h₃) =
        >>=-eq-ok (wrap "cannot get document timestamp" (driver.find_one filter ds)) _ h₂ in
      let (s, _, h₄) = >>=-eq-ok (stored_timestamp driver o) _ h₃ in
      let (_, _, h₅) = >>=-eq-ok (fail_if (not (s == t)) newer_document_exists) _ h₄ in
      ok-injective h₅

  join-err : (inner : Result D) (x : Error) → (ok inner >>= λ r. r) ≡ err x → inner ≡ err x
  join-err inner x h = h

  -- A patch that returns an error leaves the collection as it was.
  pub patch_document-err :
      (d : D) (t : Time) (ds ds' : List D) (x : Error)
      → patch_document driver d t ds ≡ (err x, ds')
      → ds' ≡ ds
  unfolding patch_document
  patch_document-err d t ds ds' x h =
      let text : String = "patch document transaction fail" in
      let r = with_transaction driver text (patch_callback driver d t) ds in
      let is_after : r.1 ≡ ds' = ap (λ z. z.1) h in
      let refused : (r.0 >>= λ z. z) ≡ err x = ap (λ z. z.0) h in
      elim (Result-cases r.0) [
        | inr (y, failed) ↦
            sym is_after
            ∙ with_transaction-err driver text (patch_callback driver d t) ds r.1 y
                (ap (λ z. (z, r.1)) failed)
        | inl (inner, done) ↦
            let failed = join-err inner x (ap (λ z. z >>= λ w. w) (sym done) ∙ refused) in
            let ran =
              with_transaction-ok driver text (patch_callback driver d t) ds r.1 inner
                (ap (λ z. (z, r.1)) done) in
            sym is_after
            ∙ after_update-err _ ds r.1 x
                (patch_callback-update d t ds r.1 inner ran ∙ ap (λ z. (z, r.1)) failed)
      ]
