-- ===== src/Examples/Database.antt =====
-- A database in memory that keeps the laws of the driver, and an update of a component in it.
use mathlib.Core.Path.{subst}
use mathlib.Core.Bool.{false≢true}
use flowify_workflows_server.Common.{
  ◌⊎◌, ap, ℕ, false, if◌then◌else◌, refl, All-map, arith, ◌∙◌, In, inl, inr, some, Bool-cases, ◌≡◌,
  [], none, ◌∷◌, All, ◌∷◌, List, sym, Option, ◌++◌, nat_eq, string_eq,
}
use flowify_workflows_server.Common.Int.{ℤ, ◌≤ℤ◌, ltb_ℤ}
use flowify_workflows_server.Common.Result.{Result, ok, err, message, ok-injective, ok≢err}
use flowify_workflows_server.Models.{Document}
use flowify_workflows_server.Models.Versions.{Version}
use flowify_workflows_server.Storage.Driver.{
  Filter, Stage, match, Driver, IsMongo, IsLatest, Answers, Selects, Passes, matches, pull,
  update_if,
}

abbrev pub better : Version → Option Version → Version
better v none = v
better v (some w) = if ltb_ℤ v.current w.current then w else v

abbrev pub versions_of : Option Version → List Version
versions_of none = []
versions_of (some v) = v ∷ []

module _ {D : Type 0} ⦃doc : Document D⦄ where
  unfoldable pub first_match : Filter → List D → Option D
  first_match f [] = none
  first_match f (d ∷ ds) =
      let rest = first_match f ds in if matches f (doc.metadata d) then some d else rest

  unfoldable pub newest : Filter → List D → Option Version
  newest f [] = none
  newest f (d ∷ ds) =
      let rest = newest f ds in
      if matches f (doc.metadata d) then some (better (doc.metadata d).version rest) else rest

  unfoldable pub run : List Stage → List D → List Version
  unfolding newest
  run (match f ∷ stages) ds = versions_of (newest f ds)
  run _ ds = []

  FoundIn : Filter → List D → Option D → Type 0
  FoundIn f ds none = All (Passes f) ds
  FoundIn f ds (some d) = In d ds × Selects f d

  first_match-FoundIn : (f : Filter) (ds : List D) → FoundIn f ds (first_match f ds)
  unfolding first_match FoundIn
  first_match-FoundIn f [] = tt
  first_match-FoundIn f (d ∷ ds) = elim (Bool-cases (matches f (doc.metadata d))) [
    | inl hit ↦ rw hit (inl refl, hit)
    | inr miss ↦ rw miss (later (first_match f ds) miss (first_match-FoundIn f ds))
  ]
    where
      later : (o : Option D) → Passes f d → FoundIn f ds o → FoundIn f (d ∷ ds) o
      later none miss h = (miss, h)
      later (some e) miss h = (inr h.0, h.1)

  NewestOf : Filter → List D → Option Version → Type 0
  NewestOf f ds none = All (Passes f) ds
  NewestOf f ds (some v) = IsLatest f ds v

  NewestOf-miss :
      (f : Filter) (d : D) (ds : List D) (o : Option Version)
      → Passes f d
      → NewestOf f ds o
      → NewestOf f (d ∷ ds) o
  unfolding NewestOf
  NewestOf-miss f d ds none miss h = (miss, h)
  NewestOf-miss f d ds (some v) miss h = record {
    stored = inr h.stored;
    largest = (λ hit. absurd (false≢true (sym miss ∙ hit)), h.largest);
  }

  NewestOf-hit :
      (f : Filter) (d : D) (ds : List D) (o : Option Version)
      → Selects f d
      → NewestOf f ds o
      → NewestOf f (d ∷ ds) (some (better (doc.metadata d).version o))
  unfolding NewestOf
  NewestOf-hit f d ds none hit h = record {
    stored = inl (hit, refl);
    largest = (λ _. omega arith, All-map (λ e miss s. absurd (false≢true (sym miss ∙ s))) ds h);
  }
  NewestOf-hit f d ds (some w) hit h =
      elim (Bool-cases (ltb_ℤ (doc.metadata d).version.current w.current)) [
        | inl lt ↦
            rw lt (record { stored = inr h.stored; largest = (λ _. ground arith, h.largest) })
        | inr ge ↦ rw ge (record {
          stored = inl (hit, refl);
          largest = (
            λ _. omega arith,
            All-map
                (λ e le s.
                  below (doc.metadata e).version.current w.current (doc.metadata d).version.current
                    ge (le s))
                ds h.largest,
          );
        })
      ]
    where
      below : (a b c : ℤ) → ltb_ℤ c b ≡ false → a ≤ℤ b → a ≤ℤ c
      below a b c ge le = ground arith

  newest-NewestOf : (f : Filter) (ds : List D) → NewestOf f ds (newest f ds)
  unfolding newest NewestOf
  newest-NewestOf f [] = tt
  newest-NewestOf f (d ∷ ds) = elim (Bool-cases (matches f (doc.metadata d))) [
    | inl hit ↦ rw hit (NewestOf-hit f d ds (newest f ds) hit (newest-NewestOf f ds))
    | inr miss ↦ rw miss (NewestOf-miss f d ds (newest f ds) miss (newest-NewestOf f ds))
  ]

  -- The first selected document, replaced by others or by none.
  unfoldable pub replace_first : Filter → List D → List D → Option (List D)
  replace_first f new [] = none
  replace_first f new (d ∷ ds) =
      let rest = replace_first f new ds in
      if matches f (doc.metadata d)
      then some (new ++ ds)
      else elim rest [ none ↦ none | some es ↦ some (d ∷ es) ]

  abbrev pub replaced_by : D → Option (List D) → Result (D × List D)
  replaced_by e none = err (message "no document")
  replaced_by e (some es) = ok (e, es)

  abbrev pub deleted_from : List D → Option (List D) → ℕ × List D
  deleted_from ds none = (0, ds)
  deleted_from ds (some es) = (1, es)

  ReplacedIn : Filter → List D → List D → Option (List D) → Type 0
  ReplacedIn f new ds none = All (Passes f) ds
  ReplacedIn f new ds (some es) =
      (before : List D) × (old : D) × (after : List D) × (ds ≡ before ++ old ∷ after)
      × Selects f old
      × (es ≡ before ++ (new ++ after))

  replace_first-ReplacedIn :
      (f : Filter) (new ds : List D) → ReplacedIn f new ds (replace_first f new ds)
  unfolding replace_first ReplacedIn
  replace_first-ReplacedIn f new [] = tt
  replace_first-ReplacedIn f new (d ∷ ds) = elim (Bool-cases (matches f (doc.metadata d))) [
    | inl hit ↦ rw hit ([], d, ds, refl, hit, refl)
    | inr miss ↦ rw miss (later (replace_first f new ds) miss (replace_first-ReplacedIn f new ds))
  ]
    where
      later :
          (o : Option (List D))
          → Passes f d
          → ReplacedIn f new ds o
          → ReplacedIn f new (d ∷ ds) (elim o [ none ↦ none | some es ↦ some (d ∷ es) ])
      later none miss h = (miss, h)
      later (some es) miss (before, old, after, was, hit, is) =
          (d ∷ before, old, after, ap (λ xs. d ∷ xs) was, hit, ap (λ xs. d ∷ xs) is)

  replaced_by-lem :
      (f : Filter) (d e : D) (ds ds' : List D) (o : Option (List D))
      → ReplacedIn f (d ∷ []) ds o
      → replaced_by d o ≡ ok (e, ds')
      → (before : List D) × (old : D) × (after : List D) × (ds ≡ before ++ old ∷ after)
        × Selects f old
        × ((doc.metadata e).uid ≡ (doc.metadata d).uid)
        × ((doc.metadata e).version ≡ (doc.metadata d).version)
        × ((doc.metadata e).timestamp ≡ (doc.metadata d).timestamp)
        × (ds' ≡ before ++ e ∷ after)
  unfolding ReplacedIn
  replaced_by-lem f d e ds ds' none h r = absurd (ok≢err (sym r))
  replaced_by-lem f d e ds ds' (some es) (before, old, after, was, hit, is) r =
      let same : d ≡ e = ap (λ x. x.0) (ok-injective r) in
      let is_after : es ≡ ds' = ap (λ x. x.1) (ok-injective r) in
      (
        before,
        old,
        after,
        was,
        hit,
        ap (λ x. (doc.metadata x).uid) (sym same),
        ap (λ x. (doc.metadata x).version) (sym same),
        ap (λ x. (doc.metadata x).timestamp) (sym same),
        sym is_after ∙ is ∙ ap (λ x. before ++ x ∷ after) same,
      )

  deleted_from-lem :
      (f : Filter) (ds ds' : List D) (n : ℕ) (o : Option (List D))
      → ReplacedIn f [] ds o
      → deleted_from ds o ≡ (n, ds')
      → (n ≡ 0) × (ds' ≡ ds) × All (Passes f) ds
        ⊎ (n ≡ 1)
          × ((before : List D) × (d : D) × (after : List D) × (ds ≡ before ++ d ∷ after)
              × Selects f d
              × (ds' ≡ before ++ after))
  unfolding ReplacedIn
  deleted_from-lem f ds ds' n none h r = inl (sym (ap (λ x. x.0) r), sym (ap (λ x. x.1) r), h)
  deleted_from-lem f ds ds' n (some es) (before, old, after, was, hit, is) r =
      inr (sym (ap (λ x. x.0) r), (before, old, after, was, hit, sym (ap (λ x. x.1) r) ∙ is))

  abbrev pub in_memory : Driver D
  in_memory = record {
    insert_one = λ d ds. ok (ds ++ d ∷ []);
    find_one = λ f ds. ok (first_match f ds);
    aggregate_versions = λ p ds. ok (run p ds);
    pull_tags = λ f tags ds. ok (update_if f (pull tags) ds);
    set_document = λ f d ds. replaced_by d (replace_first f (d ∷ []) ds);
    delete_one = λ f ds. ok (deleted_from ds (replace_first f [] ds));
    start_session = ok tt;
    commit = ok tt;
  }

  versions-none :
      (f : Filter) (ds : List D) (o : Option Version)
      → NewestOf f ds o
      → versions_of o ≡ []
      → All (Passes f) ds
  unfolding NewestOf
  versions-none f ds none h e = h
  versions-none f ds (some v) h e = cc

  versions-some :
      (f : Filter) (ds : List D) (o : Option Version) (v : Version) (vs : List Version)
      → NewestOf f ds o
      → versions_of o ≡ v ∷ vs
      → IsLatest f ds v
  unfolding NewestOf
  versions-some f ds none v vs h e = cc
  versions-some f ds (some w) v vs h e = subst (IsLatest f ds) (cc) h

  pub in_memory-Answers : Answers in_memory
  in_memory-Answers = record {
    inserts = λ d ds. (ds ++ d ∷ [], refl);
    finds = λ f ds. (first_match f ds, refl);
    aggregates = λ p ds. (run p ds, refl);
    pulls = λ f tags ds. (update_if f (pull tags) ds, refl);
    starts = refl;
    commits = refl;
  }

  pub in_memory-IsMongo : IsMongo in_memory
  unfolding run FoundIn
  in_memory-IsMongo = record {
    inserted = λ d ds ds' e. sym (ok-injective e);
    found = λ f ds d e. subst (FoundIn f ds) (ok-injective e) (first_match-FoundIn f ds);
    missed = λ f ds e. subst (FoundIn f ds) (ok-injective e) (first_match-FoundIn f ds);
    latest_none =
        λ f ds e. versions-none f ds (newest f ds) (newest-NewestOf f ds) (ok-injective e);
    latest_some = λ f ds v vs e.
        versions-some f ds (newest f ds) v vs (newest-NewestOf f ds) (ok-injective e);
    pulled = λ f tags ds ds' e. sym (ok-injective e);
    set = λ f d e ds ds' h.
        replaced_by-lem f d e ds ds' (replace_first f (d ∷ []) ds)
          (replace_first-ReplacedIn f (d ∷ []) ds) h;
    deleted = λ f ds ds' n h.
        deleted_from-lem f ds ds' n (replace_first f [] ds) (replace_first-ReplacedIn f [] ds)
          (ok-injective h);
  }
