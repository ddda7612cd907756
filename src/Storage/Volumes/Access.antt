-- ===== src/Storage/Volumes/Access.antt =====
-- storage/mongovolumestorage.go: what the checks of the workspaces guard, and what they do not.
use mathlib.Core.Bool.{false≢true}
use mathlib.Core.Path.{subst}
use flowify_workflows_server.Common.{
  ◌⊎◌, In-middle, All-In, Bool, ℕ, List, [], ◌∷◌, ◌++◌, true, false, Option, none, some, In, All,
  All-append, ◌≡◌, inl, inr, refl, sym, ◌∙◌, ap, Bool-cases, not,
}
use flowify_workflows_server.Common.Result.{
  Result, ok, err, no_access, message, fail_if, >>=-eq-ok, wrap-eq-ok, ok-injective, ok≢err,
  Result-cases,
}
use flowify_workflows_server.Models.Versions.{ComponentReference, is_zero}
use flowify_workflows_server.Storage.Access.{Context, check_workspace_access}
use flowify_workflows_server.Storage.Volumes.{
  FlowifyVolume, VolumeDriver, IsVolumeStore, OtherUid, Replaced, volume_or_error, get_volume,
  is_missing, put_volume, counted, delete_volume,
}

-- No two documents have the same uid.
abbrev pub HasDistinctUids : List FlowifyVolume → Type 0
HasDistinctUids [] = Unit
HasDistinctUids (v ∷ vs) = All (OtherUid v.uid) vs × HasDistinctUids vs

snoc-HasDistinctUids :
    (vs : List FlowifyVolume) (v : FlowifyVolume)
    → HasDistinctUids vs
    → All (OtherUid v.uid) vs
    → HasDistinctUids (vs ++ v ∷ [])
snoc-HasDistinctUids [] v h new = (tt, tt)
snoc-HasDistinctUids (w ∷ vs) v (apart, h) (fresh, new) = (
  All-append (OtherUid w.uid) vs (v ∷ []) apart ((λ same. fresh (sym same)), tt),
  snoc-HasDistinctUids vs v h new,
)

replaced-All :
    (P : FlowifyVolume → Type 0) (before after : List FlowifyVolume) (old new : FlowifyVolume)
    → (P old → P new)
    → All P (before ++ old ∷ after)
    → All P (before ++ new ∷ after)
replaced-All P [] after old new f (p, h) = (f p, h)
replaced-All P (x ∷ before) after old new f (p, h) = (p, replaced-All P before after old new f h)

replaced-HasDistinctUids :
    (before after : List FlowifyVolume) (old new : FlowifyVolume)
    → old.uid ≡ new.uid
    → HasDistinctUids (before ++ old ∷ after)
    → HasDistinctUids (before ++ new ∷ after)
replaced-HasDistinctUids [] after old new same (apart, h) =
    (subst (λ u. All (OtherUid u) after) same apart, h)
replaced-HasDistinctUids (x ∷ before) after old new same (apart, h) = (
  replaced-All (OtherUid x.uid) before after old new (λ p q. p (same ∙ q)) apart,
  replaced-HasDistinctUids before after old new same h,
)

-- Two stored volumes with one uid are the same.
same_of_uid :
    (vs : List FlowifyVolume) (v w : FlowifyVolume)
    → HasDistinctUids vs
    → In v vs
    → In w vs
    → v.uid ≡ w.uid
    → v ≡ w
same_of_uid [] v w h m n same = elim m [ ]
same_of_uid (x ∷ vs) v w (apart, h) (inl p) (inl q) same = sym p ∙ q
same_of_uid (x ∷ vs) v w (apart, h) (inl p) (inr n) same =
    absurd (All-In (OtherUid x.uid) vs apart n (sym same ∙ ap (λ y. y.uid) (sym p)))
same_of_uid (x ∷ vs) v w (apart, h) (inr m) (inl q) same =
    absurd (All-In (OtherUid x.uid) vs apart m (same ∙ ap (λ y. y.uid) (sym q)))
same_of_uid (x ∷ vs) v w (apart, h) (inr m) (inr n) same = same_of_uid vs v w h m n same

allowed : (b : Bool) → fail_if (not b) no_access ≡ ok tt → b ≡ true
allowed true e = refl
allowed false e = absurd (ok≢err (sym e))

module _ (driver : VolumeDriver) (store : IsVolumeStore driver) where
  volume_or_error-eq-ok :
      (r : Result (Option FlowifyVolume)) (v : FlowifyVolume)
      → volume_or_error driver r ≡ ok v
      → r ≡ ok (some v)
  unfolding volume_or_error
  volume_or_error-eq-ok (ok none) v e = cc
  volume_or_error-eq-ok (ok (some x)) v e = cc
  volume_or_error-eq-ok (err x) v e = cc

  get_volume-eq-ok :
      (ctx : Context) (id : ComponentReference) (vs : List FlowifyVolume) (v : FlowifyVolume)
      → get_volume driver ctx id vs ≡ ok v
      → In v vs × (v.uid ≡ id) × (check_workspace_access ctx v.workspace ≡ true)
  unfolding get_volume
  get_volume-eq-ok ctx id vs v e =
      let (x, read, rest) = >>=-eq-ok (volume_or_error driver (driver.find_one id vs)) _ e in
      let (_, may, same) =
        >>=-eq-ok (fail_if (not (check_workspace_access ctx x.workspace)) no_access) _ rest in
      let (m, is) = store.found id vs x (volume_or_error-eq-ok _ x read) in
      subst (λ y. In y vs × (y.uid ≡ id) × (check_workspace_access ctx y.workspace ≡ true))
        (ok-injective same) (m, is, allowed _ may)

  counted-Replaced :
      (id : ComponentReference) (vs vs' : List FlowifyVolume) (r : Result (ℕ × List FlowifyVolume))
      → driver.delete_one id vs ≡ r
      → counted driver vs r ≡ (ok tt, vs')
      → Replaced id [] vs vs'
  counted-Replaced id vs vs' (err x) called e = absurd (ok≢err (sym (ap (λ r. r.0) e)))
  counted-Replaced id vs vs' (ok (n, ws)) called e = elim (store.deleted id vs ws n called) [
    | inl (zero_count, _) ↦ absurd (ok≢err (sym (rw zero_count at (ap (λ r. r.0) e))))
    | inr (_, removed) ↦ subst (Replaced id [] vs) (ap (λ r. r.1) e) removed
  ]

  -- A deletion of a volume that succeeds removes one document with the uid, and takes access to
  -- the workspace of a stored volume with that uid.
  pub delete_volume-access :
      (ctx : Context) (id : ComponentReference) (vs vs' : List FlowifyVolume)
      → delete_volume driver ctx id vs ≡ (ok tt, vs')
      → Replaced id [] vs vs'
        × ((v : FlowifyVolume) × In v vs
            × (v.uid ≡ id)
            × (check_workspace_access ctx v.workspace ≡ true))
  unfolding delete_volume
  delete_volume-access ctx id vs vs' e = elim (Result-cases (get_volume driver ctx id vs)) [
    | inl (v, read) ↦
        let (m, is, may) = get_volume-eq-ok ctx id vs v read in
        (
          counted-Replaced id vs vs' (driver.delete_one id vs) refl
              (rw (delete_volume, read, may) at e),
          (v, m, is, may),
        )
    | inr (x, unread) ↦ absurd (ok≢err (sym (ap (λ r. r.0) (rw (delete_volume, unread) at e))))
  ]

  missing-OtherUid :
      (ctx : Context) (id : ComponentReference) (vs : List FlowifyVolume)
      → is_missing driver (get_volume driver ctx id vs) ≡ true
      → All (OtherUid id) vs
  unfolding get_volume volume_or_error
  missing-OtherUid ctx id vs e = elim (Result-cases (driver.find_one id vs)) [
    | inl (none, called) ↦ store.missed id vs called
    | inl (some v, called) ↦ absurd (elim (Bool-cases (check_workspace_access ctx v.workspace)) [
      | inl may ↦ false≢true (rw (get_volume, volume_or_error, called, may) at e)
      | inr foreign ↦ false≢true (rw (get_volume, volume_or_error, called, foreign) at e)
    ])
    | inr (x, failed) ↦ absurd (false≢true (rw (get_volume, volume_or_error, failed) at e))
  ]

  -- Storing a volume takes access to the workspace that it names, and keeps that no two volumes
  -- have the same uid.
  pub put_volume-HasDistinctUids :
      (ctx : Context) (vol : FlowifyVolume) (vs vs' : List FlowifyVolume)
      → HasDistinctUids vs
      → put_volume driver ctx vol vs ≡ ok vs'
      → (check_workspace_access ctx vol.workspace ≡ true) × HasDistinctUids vs'
  unfolding put_volume
  put_volume-HasDistinctUids ctx vol vs vs' distinct e =
      let (_, _, rest) = >>=-eq-ok (fail_if (is_zero vol.uid) (message "uid required")) _ e in
      let (_, may, written) =
        >>=-eq-ok (fail_if (not (check_workspace_access ctx vol.workspace)) no_access) _ rest in
      (
        allowed _ may,
        elim (Bool-cases (is_missing driver (get_volume driver ctx vol.uid vs))) [
          | inl new ↦
              subst HasDistinctUids
                (sym (store.inserted vol vs vs' (wrap-eq-ok _ _ (rw new at written))))
                (snoc-HasDistinctUids vs vol distinct (missing-OtherUid ctx vol.uid vs new))
          | inr there ↦
              elim (store.replaced vol.uid vol vs vs' (wrap-eq-ok _ _ (rw there at written))) [
                | inl (_, same) ↦ subst HasDistinctUids (sym same) distinct
                | inr (before, old, after, uid, was, is) ↦ subst HasDistinctUids (sym is) (
                    replaced-HasDistinctUids before after old vol uid
                      (subst HasDistinctUids was distinct))
              ]
        ],
      )

  -- What the collection holds when a volume has been stored: it stands behind the others, or at
  -- the place of the one that had its uid; or no document had the uid, and nothing was replaced.
  abbrev pub IsShelved : FlowifyVolume → List FlowifyVolume → List FlowifyVolume → Type 0
  IsShelved vol vs vs' =
      (All (OtherUid vol.uid) vs × (vs' ≡ vs ++ vol ∷ []))
      ⊎ Replaced vol.uid (vol ∷ []) vs vs'
      ⊎ (All (OtherUid vol.uid) vs × (vs' ≡ vs))

  pub put_volume-IsShelved :
      (ctx : Context) (vol : FlowifyVolume) (vs vs' : List FlowifyVolume)
      → put_volume driver ctx vol vs ≡ ok vs'
      → IsShelved vol vs vs'
  unfolding put_volume
  put_volume-IsShelved ctx vol vs vs' e =
      let (_, _, rest) = >>=-eq-ok (fail_if (is_zero vol.uid) (message "uid required")) _ e in
      let (_, _, written) =
        >>=-eq-ok (fail_if (not (check_workspace_access ctx vol.workspace)) no_access) _ rest in
      elim (Bool-cases (is_missing driver (get_volume driver ctx vol.uid vs))) [
        | inl new ↦ inl (
          missing-OtherUid ctx vol.uid vs new,
          store.inserted vol vs vs' (wrap-eq-ok _ _ (rw new at written)),
        )
        | inr there ↦
            elim (store.replaced vol.uid vol vs vs' (wrap-eq-ok _ _ (rw there at written))) [
              | inl unchanged ↦ inr (inr unchanged)
              | inr replaced ↦ inr (inl replaced)
            ]
      ]

  -- A stored volume in a workspace that the user has no access to cannot be read.
  foreign_unread :
      (ctx : Context) (v : FlowifyVolume) (id : ComponentReference) (vs : List FlowifyVolume)
      (o : Option FlowifyVolume)
      → HasDistinctUids vs
      → In v vs
      → v.uid ≡ id
      → check_workspace_access ctx v.workspace ≡ false
      → driver.find_one id vs ≡ ok o
      → get_volume driver ctx id vs ≡ err no_access
  unfolding get_volume volume_or_error
  foreign_unread ctx v id vs none distinct m at foreign found =
      absurd (All-In (OtherUid id) vs (store.missed id vs found) m at)
  foreign_unread ctx v id vs (some w) distinct m at foreign found =
      let (n, is) = store.found id vs w found in
      let same = same_of_uid vs w v distinct n m (is ∙ sym at) in
      let shut : check_workspace_access ctx w.workspace ≡ false =
        ap (λ x. check_workspace_access ctx x.workspace) same ∙ foreign in
      rw (get_volume, volume_or_error, found, shut) refl

  -- A volume that the user has no access to is lost: where it is stored, in a workspace that the
  -- user has no access to, storing another volume under its uid, in a workspace that the user
  -- does have access to, succeeds and puts that volume in its place. The uids are distinct, the
  -- uid is not zero, and the driver answers the search and the replacement.
  pub put_volume-foreign :
      (ctx : Context) (v vol : FlowifyVolume) (vs vs' : List FlowifyVolume)
      (o : Option FlowifyVolume)
      → HasDistinctUids vs
      → In v vs
      → v.uid ≡ vol.uid
      → check_workspace_access ctx v.workspace ≡ false
      → is_zero vol.uid ≡ false
      → check_workspace_access ctx vol.workspace ≡ true
      → driver.find_one vol.uid vs ≡ ok o
      → driver.replace_one vol.uid vol vs ≡ ok vs'
      → (put_volume driver ctx vol vs ≡ ok vs')
        × ((before : List FlowifyVolume) × (after : List FlowifyVolume) × (vs ≡ before ++ v ∷ after)
            × (vs' ≡ before ++ vol ∷ after))
  unfolding put_volume
  put_volume-foreign ctx v vol vs vs' o distinct m at foreign uid may found done =
      let unread = foreign_unread ctx v vol.uid vs o distinct m at foreign found in
      (
        rw (uid, may, unread, done),
        elim (store.replaced vol.uid vol vs vs' done) [
          | inl (none_has_it, _) ↦ absurd (All-In (OtherUid vol.uid) vs none_has_it m at)
          | inr (before, old, after, named, was, is) ↦
              let n = subst (In old) (sym was) (In-middle before after old) in
              let same = same_of_uid vs old v distinct n m (named ∙ sym at) in
              (before, after, was ∙ ap (λ x. before ++ x ∷ after) same, is)
        ],
      )
