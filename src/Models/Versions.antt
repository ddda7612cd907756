-- ===== src/Models/Versions.antt =====
-- models/models.go: references, version numbers and version tags.
use flowify_workflows_server.Common.{
  ℕ, ◌++◌, String, Bool, ◌&&◌, List, [], ◌∷◌, ◌==◌, nat_eq, string_eq, contains, if◌then◌else◌, In,
  ◌≡◌, ◌⊎◌, inl, inr, arith, ap, ◌∙◌, In-of_contains, Bool-cases, In-last,
}
use flowify_workflows_server.Common.Int.{ℤ, pos, int_eq, int_beq_iff}
use flowify_workflows_server.Common.Result.{Result, ok, err, message}

-- A UUID, as the number that its 16 bytes spell.
abbrev pub ComponentReference : Type 0
ComponentReference = ℕ

-- `uuid.Nil`
abbrev pub nil_reference : ComponentReference
nil_reference = 0

abbrev pub VersionNumber : Type 0
VersionNumber = ℤ

pub record CRefVersion : Type 0 where
  pub version : VersionNumber
  pub uid : ComponentReference

pub record Version : Type 0 where
  pub current : VersionNumber
  pub tags : List String
  pub previous : CRefVersion

abbrev pub version_init : VersionNumber
version_init = pos 1

abbrev pub version_tag_latest : String
version_tag_latest = "latest"

abbrev pub no_version : Version
no_version = record { current = pos 0; tags = []; previous = record { version = pos 0; uid = 0 } }

-- `ComponentReference.IsZero`
abbrev pub is_zero : ComponentReference → Bool
is_zero id = id == nil_reference

-- `CRefVersion.IsZero`
unfoldable pub is_zero_cref : CRefVersion → Bool
is_zero_cref c = is_zero c.uid && c.version == pos 0

unfoldable pub set_tag : String → Version → Version
set_tag tag v = if contains v.tags tag then v else record v { tags = v.tags ++ tag ∷ [] }

unfoldable pub set_latest_tag : Version → Version
unfolding set_tag
set_latest_tag v = set_tag version_tag_latest v

unfoldable pub initialize_new : Version → Result Version
unfolding set_latest_tag
initialize_new v =
    if v.current == version_init
    then ok (set_latest_tag v)
    else if v.current == pos 0
    then ok (set_latest_tag (record v { current = version_init }))
    else err (message "cannot initialize new version")

set_tag-current : (tag : String) (v : Version) → (set_tag tag v).current ≡ v.current
unfolding set_tag
set_tag-current tag v = ground arith

set_tag-In : (tag : String) (v : Version) → In tag (set_tag tag v).tags
unfolding set_tag
set_tag-In tag v = elim (Bool-cases (contains v.tags tag)) [
  | inl has ↦ rw has (In-of_contains v.tags tag has)
  | inr lacks ↦ rw lacks (In-last v.tags tag)
]

pub set_latest_tag-In : (v : Version) → In version_tag_latest (set_latest_tag v).tags
unfolding set_latest_tag
set_latest_tag-In v = set_tag-In version_tag_latest v

pub set_latest_tag-current : (v : Version) → (set_latest_tag v).current ≡ v.current
unfolding set_latest_tag
set_latest_tag-current v = set_tag-current version_tag_latest v

set_tag-previous : (tag : String) (v : Version) → (set_tag tag v).previous ≡ v.previous
unfolding set_tag
set_tag-previous tag v = ground arith

pub set_latest_tag-previous : (v : Version) → (set_latest_tag v).previous ≡ v.previous
unfolding set_latest_tag
set_latest_tag-previous v = set_tag-previous version_tag_latest v

initialize_new-eq-ok :
    (v v' : Version)
    → initialize_new v ≡ ok v'
    → ((v.current ≡ pos 0) ⊎ (v.current ≡ version_init))
      × ((v' ≡ set_latest_tag v) × (v.current ≡ version_init)
          ⊎ (v' ≡ set_latest_tag (record v { current = version_init })))
unfolding initialize_new
initialize_new-eq-ok v v' e = elim (Bool-cases (v.current == version_init)) [
  | inl one ↦ let c = (int_beq_iff v.current version_init).0 one in (inr c, inl (ground arith, c))
  | inr other ↦ elim (Bool-cases (v.current == pos 0)) [
    | inl zero ↦ (inl ((int_beq_iff v.current (pos 0)).0 zero), inr (ground arith))
    | inr neither ↦ absurd (ground arith)
  ]
]

-- Only a version numbered 0 or 1 is initialised. The result is version 1, with the tag `latest`.
pub initialize_new_sound :
    (v v' : Version)
    → initialize_new v ≡ ok v'
    → ((v.current ≡ pos 0) ⊎ (v.current ≡ version_init))
      × (v'.current ≡ version_init)
      × In version_tag_latest v'.tags
      × (v'.previous ≡ v.previous)
initialize_new_sound v v' e =
    let (small, result) = initialize_new-eq-ok v v' e in
    elim result [
      | inl (same, one) ↦ (
        small,
        ap (λ x. x.current) same ∙ set_latest_tag-current v ∙ one,
        rw same (set_latest_tag-In v),
        ap (λ x. x.previous) same ∙ set_latest_tag-previous v,
      )
      | inr same ↦ (
        small,
        ap (λ x. x.current) same ∙ set_latest_tag-current (record v { current = version_init }),
        rw same (set_latest_tag-In (record v { current = version_init })),
        ap (λ x. x.previous) same ∙ set_latest_tag-previous (record v { current = version_init }),
      )
    ]

-- Every version numbered 0 or 1 is initialised.
pub initialize_new_total :
    (v : Version)
    → (v.current ≡ pos 0) ⊎ (v.current ≡ version_init)
    → (v' : Version) × (initialize_new v ≡ ok v')
unfolding initialize_new
initialize_new_total v (inl e) = (set_latest_tag (record v { current = version_init }), rw e)
initialize_new_total v (inr e) = (set_latest_tag v, rw e)
