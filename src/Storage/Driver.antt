-- ===== src/Storage/Driver.antt =====
-- The MongoDB driver, go.mongodb.org/mongo-driver, as a parameter: the queries that the code
-- writes, the calls that it makes on a collection, and what MongoDB documents of them. A
-- collection is the list of its documents, the last inserted at the end.
use flowify_workflows_server.Common.{
  ℕ, String, Bool, true, false, not, ◌&&◌, ◌||◌, List, [], ◌∷◌, ◌++◌, ◌==◌, nat_eq, string_eq,
  Option, none, some, contains, if◌then◌else◌, In, Any, All, ◌≡◌, ◌⊎◌,
}
use flowify_workflows_server.Common.Int.{ℤ, negsuc, int_eq, ◌≤ℤ◌}
use flowify_workflows_server.Common.Result.{Result, ok}
use flowify_workflows_server.Models.{Metadata, Document}
use flowify_workflows_server.Models.Versions.{ComponentReference, VersionNumber, Version}

-- The conditions of the `bson.D` filters on "uid", "version.current" and "version.tags".
pub data Condition : Type 0 where
  uid_is : ComponentReference → Condition
  current_is : VersionNumber → Condition
  current_is_not : VersionNumber → Condition
  tags_meet : List String → Condition

abbrev pub Filter : Type 0
Filter = List Condition

-- The stages of an aggregation pipeline.
pub data Stage : Type 0 where
  match : Filter → Stage
  project : List String → Stage
  sort : List (String × ℤ) → Stage
  limit : ℕ → Stage

-- The calls on one collection. Each may fail, and a failed call has no effect. `pull_tags` is
-- `UpdateMany` with `$pull` of the listed tags from "version.tags". `set_document` is
-- `FindOneAndUpdate` with `$set` of a whole document, which returns the document after the
-- update. Marshalling to BSON is part of `insert_one`.
pub record Driver (D : Type 0) : Type 0 where
  pub insert_one : D → List D → Result (List D)
  pub find_one : Filter → List D → Result (Option D)
  pub aggregate_versions : List Stage → List D → Result (List Version)
  pub pull_tags : Filter → List String → List D → Result (List D)
  pub set_document : Filter → D → List D → Result (D × List D)
  pub delete_one : Filter → List D → Result (ℕ × List D)
  pub start_session : Result (Unit {0})
  pub commit : Result (Unit {0})

-- What a filter means.
abbrev pub some_in : List String → List String → Bool
some_in wanted [] = false
some_in wanted (tag ∷ tags) = contains wanted tag || some_in wanted tags

abbrev pub holds : Condition → Metadata → Bool
holds (uid_is u) m = m.uid == u
holds (current_is v) m = m.version.current == v
holds (current_is_not v) m = not (m.version.current == v)
holds (tags_meet wanted) m = some_in wanted m.version.tags

abbrev pub matches : Filter → Metadata → Bool
matches [] m = true
matches (c ∷ f) m = holds c m && matches f m

-- The tags without those in a list.
abbrev pub without : List String → List String → List String
without wanted [] = []
without wanted (tag ∷ tags) =
    let rest = without wanted tags in if contains wanted tag then rest else tag ∷ rest

module _ {D : Type 0} ⦃doc : Document D⦄ where
  abbrev pub Selects : Filter → D → Type 0
  Selects f d = matches f (doc.metadata d) ≡ true

  abbrev pub Passes : Filter → D → Type 0
  Passes f d = matches f (doc.metadata d) ≡ false

  abbrev pub pull : List String → D → D
  pull wanted d =
      let m = doc.metadata d in
      doc.with_metadata
        (record m { version = record m.version { tags = without wanted m.version.tags } }) d

  abbrev pub update_if : Filter → (D → D) → List D → List D
  update_if f g [] = []
  update_if f g (d ∷ ds) = (if matches f (doc.metadata d) then g d else d) ∷ update_if f g ds

  -- The version with the largest number among the selected documents.
  pub record IsLatest (f : Filter) (ds : List D) (v : Version) : Type 0 where
    pub stored : Any (λ d. Selects f d × ((doc.metadata d).version ≡ v)) ds
    pub largest : All (λ d. Selects f d → (doc.metadata d).version.current ≤ℤ v.current) ds

  -- What MongoDB documents of the calls, on a collection of documents that decode to what was
  -- encoded: an insertion adds the document itself. A document that its own type decodes to another
  -- one, or not at all, is not such: a component with a volume among its results (`Result`'s
  -- `UnmarshalBSON` in models/models.go makes a file of it), or with an implementation of an unknown
  -- type. A replacement promises only the uid, the version and the time stamp.
  pub record IsMongo (driver : Driver D) : Type 0 where
    pub inserted : (d : D) (ds ds' : List D) → driver.insert_one d ds ≡ ok ds' → ds' ≡ ds ++ d ∷ []
    pub found :
        (f : Filter) (ds : List D) (d : D)
        → driver.find_one f ds ≡ ok (some d)
        → In d ds × Selects f d
    pub missed : (f : Filter) (ds : List D) → driver.find_one f ds ≡ ok none → All (Passes f) ds
    pub latest_none :
        (f : Filter) (ds : List D)
        → driver.aggregate_versions
            (match f
              ∷ project ("version" ∷ [])
              ∷ sort (("version.current", negsuc 0) ∷ [])
              ∷ limit 1
              ∷ [])
            ds
          ≡ ok []
        → All (Passes f) ds
    pub latest_some :
        (f : Filter) (ds : List D) (v : Version) (vs : List Version)
        → driver.aggregate_versions
            (match f
              ∷ project ("version" ∷ [])
              ∷ sort (("version.current", negsuc 0) ∷ [])
              ∷ limit 1
              ∷ [])
            ds
          ≡ ok (v ∷ vs)
        → IsLatest f ds v
    pub pulled :
        (f : Filter) (tags : List String) (ds ds' : List D)
        → driver.pull_tags f tags ds ≡ ok ds'
        → ds' ≡ update_if f (pull tags) ds
    pub set :
        (f : Filter) (d e : D) (ds ds' : List D)
        → driver.set_document f d ds ≡ ok (e, ds')
        → (before : List D) × (old : D) × (after : List D) × (ds ≡ before ++ old ∷ after)
          × Selects f old
          × ((doc.metadata e).uid ≡ (doc.metadata d).uid)
          × ((doc.metadata e).version ≡ (doc.metadata d).version)
          × ((doc.metadata e).timestamp ≡ (doc.metadata d).timestamp)
          × (ds' ≡ before ++ e ∷ after)
    pub deleted :
        (f : Filter) (ds ds' : List D) (n : ℕ)
        → driver.delete_one f ds ≡ ok (n, ds')
        → (n ≡ 0) × (ds' ≡ ds) × All (Passes f) ds
          ⊎ (n ≡ 1)
            × ((before : List D) × (d : D) × (after : List D) × (ds ≡ before ++ d ∷ after)
                × Selects f d
                × (ds' ≡ before ++ after))

  -- A collection whose calls do not fail: the network is up, and an update finds its document.
  pub record Answers (driver : Driver D) : Type 0 where
    pub inserts : (d : D) (ds : List D) → (ds' : List D) × (driver.insert_one d ds ≡ ok ds')
    pub finds : (f : Filter) (ds : List D) → (o : Option D) × (driver.find_one f ds ≡ ok o)
    pub aggregates :
        (p : List Stage) (ds : List D)
        → (vs : List Version) × (driver.aggregate_versions p ds ≡ ok vs)
    pub pulls :
        (f : Filter) (tags : List String) (ds : List D)
        → (ds' : List D) × (driver.pull_tags f tags ds ≡ ok ds')
    pub starts : driver.start_session ≡ ok tt
    pub commits : driver.commit ≡ ok tt
