-- ===== src/Storage/Versioned/Tags.antt =====
-- Clearing the tag `latest` from the older versions of a document.
use mathlib.Core.Bool.{false≢true}
use flowify_workflows_server.Common.{
  String, true, false, List, [], ◌∷◌, ◌==◌, nat_eq, nat_beq_iff, string_eq, contains, if◌then◌else◌,
  In, All, ◌≡◌, ◌≢◌, refl, sym, ◌∙◌, ap, ◌⊎◌, inl, inr, arith, Bool-cases, contains_of_In,
}
use flowify_workflows_server.Common.Int.{ℤ, int_eq, int_beq_iff}
use flowify_workflows_server.Models.{Document}
use flowify_workflows_server.Models.Versions.{ComponentReference, VersionNumber, version_tag_latest}
use flowify_workflows_server.Storage.Driver.{matches, some_in, without, pull, update_if}
use flowify_workflows_server.Storage.Versioned.{latest_filter}
use flowify_workflows_server.Storage.Versioned.Keys.{uid_of, current_of}

abbrev pub latest_only : List String
latest_only = version_tag_latest ∷ []

-- A tag that is looked for is not left.
not-In-without :
    (wanted tags : List String) (tag : String) → In tag wanted → ¬ In tag (without wanted tags)
not-In-without wanted [] tag w m = elim m [ ]
not-In-without wanted (t ∷ tags) tag w m = elim (Bool-cases (contains wanted t)) [
  | inl gone ↦ not-In-without wanted tags tag w (rw gone at m)
  | inr kept ↦ elim (rw kept at m) [
    | inl same ↦ absurd (false≢true (sym kept ∙ rw same (contains_of_In wanted tag w)))
    | inr later ↦ not-In-without wanted tags tag w later
  ]
]

some_in_of_In :
    (wanted tags : List String) (tag : String)
    → In tag wanted
    → In tag tags
    → some_in wanted tags ≡ true
some_in_of_In wanted [] tag w m = elim m [ ]
some_in_of_In wanted (t ∷ tags) tag w (inl same) = rw (same, contains_of_In wanted tag w)
some_in_of_In wanted (t ∷ tags) tag w (inr m) = ground (arith, some_in_of_In wanted tags tag w m)

int_eq_or : (a b : ℤ) → (a ≡ b) ⊎ (a ≢ b)
int_eq_or a b = elim (Bool-cases (a == b)) [
  | inl same ↦ inl ((int_beq_iff a b).0 same)
  | inr other ↦ inr λ p. false≢true (sym other ∙ (int_beq_iff a b).1 p)
]

module _ {D : Type 0} ⦃doc : Document D⦄ where
  abbrev pub HasLatest : D → Type 0
  HasLatest d = In version_tag_latest (doc.metadata d).version.tags

  pull_loses : (d : D) → ¬ HasLatest (pull latest_only d)
  pull_loses d m =
      not-In-without latest_only (doc.metadata d).version.tags version_tag_latest (inl refl)
        (rw (doc.metadata-with _ d) at m)

  -- One document after the update: of this uid and another version, it has not the tag.
  selected_old :
      (uid : ComponentReference) (current : VersionNumber) (d : D)
      → uid_of d ≡ uid
      → current_of d ≢ current
      → HasLatest d
      → matches (latest_filter uid current) (doc.metadata d) ≡ true
  selected_old uid current d same other m =
      let tagged =
        some_in_of_In latest_only (doc.metadata d).version.tags version_tag_latest (inl refl) m in
      ground (arith, nat_beq_iff (uid_of d) uid, int_beq_iff (current_of d) current)

  cleared_one :
      (uid : ComponentReference) (current : VersionNumber) (d : D)
      → uid_of d ≡ uid
      → current_of d ≢ current
      → ¬ HasLatest
          (if matches (latest_filter uid current) (doc.metadata d) then pull latest_only d else d)
  cleared_one uid current d same other =
      elim (Bool-cases (matches (latest_filter uid current) (doc.metadata d))) [
        | inl hit ↦ rw hit (pull_loses d)
        | inr miss ↦ rw miss λ m. false≢true (sym miss ∙ selected_old uid current d same other m)
      ]

  passed :
      (uid : ComponentReference) (current : VersionNumber) (d : D)
      → (uid_of d ≢ uid) ⊎ (current_of d ≡ current)
      → matches (latest_filter uid current) (doc.metadata d) ≡ false
  passed uid current d (inl other) =
      ground (arith, nat_beq_iff (uid_of d) uid, int_beq_iff (current_of d) current)
  passed uid current d (inr same) =
      ground (arith, nat_beq_iff (uid_of d) uid, int_beq_iff (current_of d) current)

  kept_one :
      (uid : ComponentReference) (current : VersionNumber) (d : D)
      → (uid_of d ≢ uid) ⊎ (current_of d ≡ current)
      → (if matches (latest_filter uid current) (doc.metadata d) then pull latest_only d else d) ≡ d
  kept_one uid current d h = rw (passed uid current d h)

  cleared_uid :
      (uid : ComponentReference) (current : VersionNumber) (d : D)
      → uid_of
          (if matches (latest_filter uid current) (doc.metadata d) then pull latest_only d else d)
        ≡ uid_of d
  cleared_uid uid current d =
      elim (Bool-cases (matches (latest_filter uid current) (doc.metadata d))) [
        | inl hit ↦ rw hit (ap (λ m. m.uid) (doc.metadata-with _ d))
        | inr miss ↦ rw miss
      ]

  cleared_current :
      (uid : ComponentReference) (current : VersionNumber) (d : D)
      → current_of
          (if matches (latest_filter uid current) (doc.metadata d) then pull latest_only d else d)
        ≡ current_of d
  cleared_current uid current d =
      elim (Bool-cases (matches (latest_filter uid current) (doc.metadata d))) [
        | inl hit ↦ rw hit (ap (λ m. m.version.current) (doc.metadata-with _ d))
        | inr miss ↦ rw miss
      ]

  -- After the update no document of the uid has the tag, but the one of the version.
  pub cleared-only :
      (uid : ComponentReference) (current : VersionNumber) (ds : List D)
      → All
          (λ d. uid_of d ≡ uid → HasLatest d → current_of d ≡ current)
          (update_if (latest_filter uid current) (pull latest_only) ds)
  cleared-only uid current [] = tt
  cleared-only uid current (d ∷ ds) = (
    λ same m. elim (int_eq_or (current_of d) current) [
      | inl equal ↦ cleared_current uid current d ∙ equal
      | inr other ↦
          absurd (cleared_one uid current d (sym (cleared_uid uid current d) ∙ same) other m)
    ],
    cleared-only uid current ds,
  )

  -- A document of another uid, or of the version itself, is not changed.
  pub cleared-In :
      (uid : ComponentReference) (current : VersionNumber) (ds : List D) (d : D)
      → (uid_of d ≢ uid) ⊎ (current_of d ≡ current)
      → In d ds
      → In d (update_if (latest_filter uid current) (pull latest_only) ds)
  cleared-In uid current [] d h m = elim m [ ]
  cleared-In uid current (x ∷ ds) d h (inl same) = inl (rw same (kept_one uid current d h))
  cleared-In uid current (x ∷ ds) d h (inr m) = inr (cleared-In uid current ds d h m)

  -- Nothing but the clearing has made a document of another uid.
  pub cleared-In-other :
      (uid : ComponentReference) (current : VersionNumber) (ds : List D) (d : D)
      → uid_of d ≢ uid
      → In d (update_if (latest_filter uid current) (pull latest_only) ds)
      → In d ds
  cleared-In-other uid current [] d h m = elim m [ ]
  cleared-In-other uid current (x ∷ ds) d h (inl same) = inl (
      sym (
        kept_one uid current x
          (inl λ p. h (ap (λ y. uid_of y) (sym same) ∙ cleared_uid uid current x ∙ p)))
      ∙ same)
  cleared-In-other uid current (x ∷ ds) d h (inr m) = inr (cleared-In-other uid current ds d h m)

  -- A document is still there, with the tag or without.
  pub cleared-stays :
      (uid : ComponentReference) (current : VersionNumber) (ds : List D) (d : D)
      → In d ds
      → In d (update_if (latest_filter uid current) (pull latest_only) ds)
        ⊎ In (pull latest_only d) (update_if (latest_filter uid current) (pull latest_only) ds)
  cleared-stays uid current [] d m = elim m [ ]
  cleared-stays uid current (x ∷ ds) d (inl same) =
      elim (Bool-cases (matches (latest_filter uid current) (doc.metadata x))) [
        | inl hit ↦ inr (inl (rw (hit, same)))
        | inr miss ↦ inl (inl (rw (miss, same)))
      ]
  cleared-stays uid current (x ∷ ds) d (inr m) = elim (cleared-stays uid current ds d m) [
    | inl now ↦ inl (inr now)
    | inr pulled ↦ inr (inr pulled)
  ]
