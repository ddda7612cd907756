-- ===== src/Transpiler/Submission/Values.antt =====
-- transpiler/transpiler.go, `GetArgoWorkflow`: what the values of a job are used for.
use mathlib.Core.Bool.{false≢true}
use mathlib.Core.Path.{subst}
use flowify_workflows_server.Common.{
  String, List, [], ◌∷◌, Option, none, some, All, Any, ◌≡◌, refl, sym, ◌∙◌, ap, inl, inr,
  Bool-cases, ◌==◌, string_eq, eq_iff, if◌then◌else◌, ◌⊎◌,
}
use flowify_workflows_server.Common.Result.{
  ok, ◌>>=◌, >>=-eq-ok, ok-injective, ok≢err, some-injective,
}
use flowify_workflows_server.Models.{Data, Value, JobValue, text, texts}
use flowify_workflows_server.Transpiler.{Map, empty, insert}
use flowify_workflows_server.Transpiler.Submission.{job_secret, found_secret, secret_values}

-- A value of the job gives the text to the input with the name.
abbrev pub Gives : String → String → Value → Type 0
Gives name s v = (v.target ≡ name) × (v.value ≡ text s)

abbrev pub GivenBy : List Value → String → String → Type 0
GivenBy values name s = Any (Gives name s) values

JobValue-cases :
    (x : JobValue) → ((s : String) × (x ≡ text s)) ⊎ ((ss : List String) × (x ≡ texts ss))
JobValue-cases (text s) = inl (s, refl)
JobValue-cases (texts ss) = inr (ss, refl)

-- `found` is what the values before gave.
job_secret-GivenBy :
    (name s : String) (values : List Value) (found : Option String)
    → job_secret name values found ≡ ok (some s)
    → (found ≡ some s) ⊎ GivenBy values name s
unfolding job_secret
job_secret-GivenBy name s [] found e = inl (ok-injective e)
job_secret-GivenBy name s (v ∷ values) found e = elim (Bool-cases (name == v.target)) [
  | inl same ↦ elim (JobValue-cases v.value) [
    | inl (t, is) ↦
        elim (job_secret-GivenBy name s values (some t) (rw (job_secret, same, is) at e)) [
          | inl here ↦
              inr (inl (sym ((eq_iff name v.target).0 same), is ∙ ap text (some-injective here)))
          | inr later ↦ inr (inr later)
        ]
    | inr (ts, is) ↦ absurd (ok≢err (sym (rw (job_secret, same, is) at e)))
  ]
  | inr other ↦ elim (job_secret-GivenBy name s values found (rw (job_secret, other) at e)) [
    | inl here ↦ inl here
    | inr later ↦ inr (inr later)
  ]
]

found_secret-ok :
    (name : String) (m given : Map String) (found : Option String)
    → found_secret name m found ≡ ok given
    → (s : String) × (found ≡ some s) × (insert name s m ≡ given)
found_secret-ok name m given none e = absurd (ok≢err (sym e))
found_secret-ok name m given (some s) e = (s, refl, ok-injective e)

-- The input is a secret under the name.
abbrev pub IsSecret : String → Data → Type 0
IsSecret key i = (i.name ≡ key) × (i.type ≡ "env_secret")

module _ (values : List Value) where
  -- The secret under a name is given by a value.
  abbrev pub Holds : Map String → String → Type 0
  Holds m name = (s : String) × (m name ≡ some s) × GivenBy values name s

  Holds-insert :
      (m : Map String) (key s name : String)
      → GivenBy values key s
      → Holds m name
      → Holds (insert key s m) name
  Holds-insert m key s name given (t, found, from) = elim (Bool-cases (key == name)) [
    | inl same ↦ (s, rw same refl, subst (λ x. GivenBy values x s) ((eq_iff key name).0 same) given)
    | inr other ↦ (t, rw other found, from)
  ]

  inserted-Holds :
      (m : Map String) (key s : String) → GivenBy values key s → Holds (insert key s m) key
  inserted-Holds m key s given = (s, rw ((eq_iff key key).1 refl) refl, given)

  unfoldable Keeps : Map String → Map String → List Data → Type 0
  Keeps m given inputs =
      ((name : String) → Holds m name → Holds given name)
      × ((key s : String)
          → given key ≡ some s
          → (m key ≡ some s) ⊎ (GivenBy values key s × Any (IsSecret key) inputs))

  found-Keeps :
      (i : Data) (m given : Map String)
      → i.type ≡ "env_secret"
      → (job_secret i.name values none >>= found_secret i.name m) ≡ ok given
      → Holds given i.name × Keeps m given (i ∷ [])
  unfolding Keeps
  found-Keeps i m given is e =
      let (found, e₁, e₂) = >>=-eq-ok (job_secret i.name values none) _ e in
      let (s, has, same) = found_secret-ok i.name m given found e₂ in
      elim (job_secret-GivenBy i.name s values none (e₁ ∙ ap ok has)) [
        | inl nothing ↦ cc
        | inr from ↦
            subst (λ x. Holds x i.name × Keeps m x (i ∷ [])) same
              (
                inserted-Holds m i.name s from,
                (
                  λ name h. Holds-insert m i.name s name from h,
                  λ key t f. elim (Bool-cases (i.name == key)) [
                    | inl this ↦
                        let named = (eq_iff i.name key).0 this in
                        let value : s ≡ t = some-injective (rw this at f) in
                        inr (
                          subst (λ x. GivenBy values key x) value
                              (subst (λ x. GivenBy values x s) named from),
                          inl (named, is),
                        )
                    | inr other ↦ inl (rw other at f)
                  ],
                ),
              )
      ]

  -- The loop goes on: what the first input and the others do together.
  Keeps-cons :
      (i : Data) (inputs : List Data) (m between given : Map String)
      → Keeps m between (i ∷ [])
      → Keeps between given inputs
      → Keeps m given (i ∷ inputs)
  unfolding Keeps
  Keeps-cons i inputs m between given (h, before) (k, after) = (
    λ name held. k name (h name held),
    λ key s f. elim (after key s f) [
      | inr (from, m₂) ↦ inr (from, inr m₂)
      | inl there ↦ elim (before key s there) [
        | inl old ↦ inl old
        | inr (from, here) ↦
            inr (from, elim here [ inl x ↦ inl x | inr none_left ↦ elim none_left [ ] ])
      ]
    ],
  )

  Keeps-refl : (m : Map String) (inputs : List Data) → Keeps m m inputs
  unfolding Keeps
  Keeps-refl m inputs = (λ name h. h, λ key s f. inl f)

  secret_values-Keeps :
      (inputs : List Data) (m given : Map String)
      → secret_values inputs values m ≡ ok given
      → All (λ (i : Data). i.type ≡ "env_secret" → Holds given i.name) inputs × Keeps m given inputs
  unfolding secret_values Keeps
  secret_values-Keeps [] m given e =
      (tt, subst (λ x. Keeps m x []) (ok-injective e) (Keeps-refl m []))
  secret_values-Keeps (i ∷ inputs) m given e =
      let (between, e₁, e₂) =
        >>=-eq-ok
          (if i.type == "env_secret"
            then (job_secret i.name values none >>= found_secret i.name m)
            else ok m)
          _ e in
      let (all, kept_after) = secret_values-Keeps inputs between given e₂ in
      elim (Bool-cases (i.type == "env_secret")) [
        | inl is ↦
            let (held, kept) =
              found-Keeps i m between ((eq_iff i.type "env_secret").0 is) (rw is at e₁) in
            (
              (λ _. kept_after.0 i.name held, all),
              Keeps-cons i inputs m between given kept kept_after,
            )
        | inr other ↦
            let unchanged : m ≡ between = ok-injective (rw other at e₁) in
            let kept = subst (λ x. Keeps m x (i ∷ [])) unchanged (Keeps-refl m (i ∷ [])) in
            (
              (λ is. absurd (false≢true (sym other ∙ (eq_iff i.type "env_secret").1 is)), all),
              Keeps-cons i inputs m between given kept kept_after,
            )
      ]

-- When the secrets of a job are found, every input of the component that is a secret has one, given
-- by a value of the job that is a text, and every secret is given by a value of the job to an input
-- that is a secret.
pub secret_values_lem :
    (inputs : List Data) (values : List Value) (secrets : Map String)
    → secret_values inputs values empty ≡ ok secrets
    → All (λ (i : Data). i.type ≡ "env_secret" → Holds values secrets i.name) inputs
      × ((key s : String) → secrets key ≡ some s → GivenBy values key s × Any (IsSecret key) inputs)
unfolding Keeps
secret_values_lem inputs values secrets e =
    let (all, (_, from)) = secret_values-Keeps values inputs empty secrets e in
    (all, λ key s f. elim (from key s f) [ inl nothing ↦ cc | inr given ↦ given ])
