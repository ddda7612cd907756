-- ===== src/Storage/Local.antt =====
-- storage/local.go: the store in memory. A Go map is a list of keys and values, in the order in
-- which a loop over it happens to go; the map of the jobs is never made.
use flowify_workflows_server.Common.{
  ℕ, suc, false, not, ◌&&◌, List, [], ◌∷◌, ◌==◌, nat_eq, if◌then◌else◌, length, ltb, Option, none,
  some, ◌≡◌, refl, sym, ◌∙◌, inl, inr, Bool-cases, arith, nat_beq_iff, ◌≤◌, ◌<◌, ◌+◌,
}
use mathlib.Core.Bool.{false≢true}
use mathlib.Core.Path.{subst}
use flowify_workflows_server.Common.Result.{Result, ok, err, message}
use flowify_workflows_server.Models.{
  Component, Workflow, Job, Metadata, Document, component_document, workflow_document, job_document,
}
use flowify_workflows_server.Models.Versions.{ComponentReference}

abbrev GoMap : Type 0 → Type 0
GoMap D = List (ComponentReference × D)

pub record LocalStorage : Type 0 where
  pub c_store : GoMap Component
  pub wf_store : GoMap Workflow

module _ {D : Type 0} where
  -- `m[key] = node`
  unfoldable assign : ComponentReference → D → GoMap D → GoMap D
  assign key node [] = (key, node) ∷ []
  assign key node ((k, d) ∷ m) =
      let rest = (k, d) ∷ assign key node m in if k == key then (key, node) ∷ m else rest

  unfoldable lookup : ComponentReference → GoMap D → Option D
  lookup key [] = none
  lookup key ((k, d) ∷ m) = let rest = lookup key m in if k == key then some d else rest

  abbrev present : Option D → Result D
  present none = err (message "not found")
  present (some d) = ok d

  -- What is assigned is found under its key, and the other keys keep what they had.
  assign-lookup :
      (key k : ComponentReference) (node : D) (m : GoMap D)
      → lookup k (assign key node m) ≡ (if key == k then some node else lookup k m)
  unfolding assign lookup
  assign-lookup key k node [] = refl
  assign-lookup key k node ((a, d) ∷ m) = elim (Bool-cases (a == key)) [
    | inl same ↦
        let is : a ≡ key = (nat_beq_iff a key).0 same in
        elim (Bool-cases (key == k)) [
          | inl hit ↦ rw (same, hit) refl
          | inr miss ↦
              let away : (a == k) ≡ false = subst (λ x. (x == k) ≡ false) (sym is) miss in
              rw (same, miss, away) refl
        ]
    | inr other ↦ elim (Bool-cases (a == k)) [
      | inr away ↦ rw (other, away) (assign-lookup key k node m)
      | inl here ↦
          let is : a ≡ k = (nat_beq_iff a k).0 here in
          elim (Bool-cases (key == k)) [
            | inr miss ↦ rw (other, here, miss) refl
            | inl hit ↦
                let clash = (nat_beq_iff a key).1 (is ∙ sym ((nat_beq_iff key k).0 hit)) in
                absurd (false≢true (sym other ∙ clash))
          ]
    ]
  ]

module _ {D : Type 0} ⦃doc : Document D⦄ where
  -- The loop of a listing; `place` and `i` are its counters. A negative number acts as 0 would.
  unfoldable page_from : (skip limit place i : ℕ) → GoMap D → List Metadata
  page_from skip limit place i [] = []
  page_from skip limit place i ((k, d) ∷ m) =
      let taken = doc.metadata d ∷ page_from skip limit (suc place) (suc i) m in
      let rest = page_from skip limit (suc place) i m in
      if not (ltb place skip) && ltb i limit then taken else rest

  unfoldable list_metadata : (skip limit : ℕ) → GoMap D → List Metadata
  unfolding page_from
  list_metadata skip limit m = page_from skip limit 0 0 m

  page_from-limit :
      (skip limit place i : ℕ) (m : GoMap D)
      → i ≤ limit
      → length (page_from skip limit place i m) + i ≤ limit
  unfolding page_from length
  page_from-limit skip limit place i [] h = omega arith
  page_from-limit skip limit place i ((k, d) ∷ m) h =
      let kept = page_from-limit skip limit (suc place) i m h in
      elim (Bool-cases (not (ltb place skip) && ltb i limit)) [
        | inr out ↦ rw out kept
        | inl fits ↦
            let room : i < limit = ground arith in
            let more = page_from-limit skip limit (suc place) (suc i) m room in
            rw fits (omega arith)
      ]

  -- A page has no more items than its limit.
  list_metadata-limit : (skip limit : ℕ) (m : GoMap D) → length (list_metadata skip limit m) ≤ limit
  unfolding list_metadata
  list_metadata-limit skip limit m =
      let whole = page_from-limit skip limit 0 0 m (omega arith) in omega arith

unfoldable create_in_c_store : Component → LocalStorage → LocalStorage
unfolding assign
create_in_c_store node s = record s {
  c_store = assign (component_document.metadata node).uid node s.c_store;
}

unfoldable get_from_c_store : ComponentReference → LocalStorage → Result Component
unfolding lookup
get_from_c_store id s = present (lookup id s.c_store)

unfoldable create_in_wf_store : Workflow → LocalStorage → LocalStorage
unfolding assign
create_in_wf_store node s = record s { wf_store = assign node.uid node s.wf_store }

unfoldable get_from_wf_store : ComponentReference → LocalStorage → Result Workflow
unfolding lookup
get_from_wf_store id s = present (lookup id s.wf_store)

-- The map of the jobs is nil: nothing is found in it, and writing to it panics.
unfoldable create_in_job_store : Job → LocalStorage → Result LocalStorage
create_in_job_store node s = err (message "assignment to entry in nil map")

unfoldable get_from_job_store : ComponentReference → LocalStorage → Result Job
get_from_job_store id s = present none

-- A workflow that is created is read under its uid, and the others as before.
create_in_wf_store-get :
    (node : Workflow) (id : ComponentReference) (s : LocalStorage)
    → get_from_wf_store id (create_in_wf_store node s)
      ≡ (if node.uid == id then ok node else get_from_wf_store id s)
unfolding get_from_wf_store create_in_wf_store
create_in_wf_store-get node id s = elim (Bool-cases (node.uid == id)) [
  | inl same ↦ rw (assign-lookup node.uid id node s.wf_store, same) refl
  | inr other ↦ rw (assign-lookup node.uid id node s.wf_store, other) refl
]
