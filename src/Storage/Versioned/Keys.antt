-- ===== src/Storage/Versioned/Keys.antt =====
-- The invariant of a versioned collection: no two documents have the same uid and version.
use mathlib.Core.Path.{subst, subst₂}
use flowify_workflows_server.Common.{
  String, Bool, true, false, List, [], ◌∷◌, ◌++◌, nat_eq, if◌then◌else◌, In, All, All-append,
  All-left, All-right, All-In, All-map, ◌≡◌, refl, sym, ◌∙◌, ap, inl, inr,
}
use flowify_workflows_server.Common.Int.{int_eq}
use flowify_workflows_server.Models.{Document}
use flowify_workflows_server.Models.Versions.{ComponentReference, VersionNumber}
use flowify_workflows_server.Storage.Driver.{Filter, matches, pull, update_if}

module _ {D : Type 0} ⦃doc : Document D⦄ where
  abbrev pub uid_of : D → ComponentReference
  uid_of d = (doc.metadata d).uid

  abbrev pub current_of : D → VersionNumber
  current_of d = (doc.metadata d).version.current

  abbrev pub SameKey : D → D → Type 0
  SameKey d e = (uid_of d ≡ uid_of e) × (current_of d ≡ current_of e)

  abbrev pub HasDistinctKeys : List D → Type 0
  HasDistinctKeys [] = Unit
  HasDistinctKeys (d ∷ ds) = All (λ e. ¬ SameKey d e) ds × HasDistinctKeys ds

  pub HasDistinctKeys-snoc :
      (ds : List D) (n : D)
      → HasDistinctKeys ds
      → All (λ e. ¬ SameKey e n) ds
      → HasDistinctKeys (ds ++ n ∷ [])
  HasDistinctKeys-snoc [] n h new = (tt, tt)
  HasDistinctKeys-snoc (d ∷ ds) n (apart, h) (fresh, new) = (
    All-append (λ e. ¬ SameKey d e) ds (n ∷ []) apart (fresh, tt),
    HasDistinctKeys-snoc ds n h new,
  )

  -- Pulling tags changes neither key.
  pull-SameKey : (tags : List String) (d : D) → SameKey (pull tags d) d
  pull-SameKey tags d =
      (ap (λ m. m.uid) (doc.metadata-with _ d), ap (λ m. m.version.current) (doc.metadata-with _ d))

  SameKey-trans : (d e f : D) → SameKey d e → SameKey e f → SameKey d f
  SameKey-trans d e f p q = (p.0 ∙ q.0, p.1 ∙ q.1)

  SameKey-sym : (d e : D) → SameKey d e → SameKey e d
  SameKey-sym d e p = (sym p.0, sym p.1)

  module _ (f : Filter) (g : D → D) (keeps : (d : D) → SameKey (g d) d) where
    if-SameKey : (b : Bool) (d : D) → SameKey (if b then g d else d) d
    if-SameKey true d = keeps d
    if-SameKey false d = (refl, refl)

    update_if-apart :
        (d' d : D) (ds : List D)
        → SameKey d' d
        → All (λ e. ¬ SameKey d e) ds
        → All (λ e. ¬ SameKey d' e) (update_if f g ds)
    update_if-apart d' d [] same h = tt
    update_if-apart d' d (e ∷ ds) same (apart, h) = (
      λ p. apart (
          SameKey-trans d d' e (SameKey-sym d' d same)
            (SameKey-trans d' _ e p (if-SameKey (matches f (doc.metadata e)) e))),
      update_if-apart d' d ds same h,
    )

    pub update_if-HasDistinctKeys :
        (ds : List D) → HasDistinctKeys ds → HasDistinctKeys (update_if f g ds)
    update_if-HasDistinctKeys [] h = tt
    update_if-HasDistinctKeys (d ∷ ds) (apart, h) = (
      update_if-apart _ d ds (if-SameKey (matches f (doc.metadata d)) d) apart,
      update_if-HasDistinctKeys ds h,
    )

  pub pull-HasDistinctKeys :
      (f : Filter) (tags : List String) (ds : List D)
      → HasDistinctKeys ds
      → HasDistinctKeys (update_if f (pull tags) ds)
  pull-HasDistinctKeys f tags = update_if-HasDistinctKeys f (pull tags) (pull-SameKey tags)

  -- Nor does it change what holds of the keys.
  pub pull-All :
      (P : ComponentReference → VersionNumber → Type 0) (f : Filter) (tags : List String)
      (ds : List D)
      → All (λ e. P (uid_of e) (current_of e)) ds
      → All (λ e. P (uid_of e) (current_of e)) (update_if f (pull tags) ds)
  pull-All P f tags [] h = tt
  pull-All P f tags (d ∷ ds) (p, h) =
      let same = if-SameKey f (pull tags) (pull-SameKey tags) (matches f (doc.metadata d)) d in
      (subst₂ P (sym same.0) (sym same.1) p, pull-All P f tags ds h)

  -- A replacement of one document by another under the same key.
  pub replaced-HasDistinctKeys :
      (before after : List D) (old new : D)
      → SameKey new old
      → HasDistinctKeys (before ++ old ∷ after)
      → HasDistinctKeys (before ++ new ∷ after)
  replaced-HasDistinctKeys [] after old new same (apart, h) = (
    All-map (λ e differ p. differ (SameKey-trans old new e (SameKey-sym new old same) p)) after
        apart,
    h,
  )
  replaced-HasDistinctKeys (d ∷ before) after old new same (apart, h) = (
    All-append (λ e. ¬ SameKey d e) before (new ∷ after) (All-left _ before (old ∷ after) apart)
        (
          λ p. (All-right _ before (old ∷ after) apart).0 (SameKey-trans d new old p same),
          (All-right _ before (old ∷ after) apart).1,
        ),
    replaced-HasDistinctKeys before after old new same h,
  )

  -- Of two documents in the collection with one key, there is one.
  pub same_of_SameKey :
      (ds : List D) (d e : D) → HasDistinctKeys ds → In d ds → In e ds → SameKey d e → d ≡ e
  same_of_SameKey [] d e h m n same = elim m [ ]
  same_of_SameKey (x ∷ ds) d e h (inl p) (inl q) same = sym p ∙ q
  same_of_SameKey (x ∷ ds) d e h (inl p) (inr n) same =
      absurd (All-In (λ y. ¬ SameKey x y) ds h.0 n (subst (λ y. SameKey y e) (sym p) same))
  same_of_SameKey (x ∷ ds) d e h (inr m) (inl q) same = absurd (
      All-In (λ y. ¬ SameKey x y) ds h.0 m
        (SameKey-sym d x (subst (λ y. SameKey d y) (sym q) same)))
  same_of_SameKey (x ∷ ds) d e h (inr m) (inr n) same = same_of_SameKey ds d e h.1 m n same
