-- ===== src/Examples/Patches.antt =====
-- Two patches of one component from the same time stamp.
use flowify_workflows_server.Common.{String, List, All, ◌≡◌, refl, arith, ℕ, [], ◌∷◌}
use flowify_workflows_server.Common.Int.{pos, ◌≤ℤ◌}
use flowify_workflows_server.Common.Result.{newer_document_exists, wrapped, err, Error, ok}
use flowify_workflows_server.Models.{Component, component_document, set_base, base}
use flowify_workflows_server.Storage.Versioned.{get_latest_version, patch_document, patch_callback}
use flowify_workflows_server.Storage.Versioned.Keys.{HasDistinctKeys, SameKey, uid_of, current_of}
use flowify_workflows_server.Storage.Versioned.Patches.{
  timestamp_of, Replaced, patch_document-HasDistinctKeys, patch_document-lost_update,
}
use flowify_workflows_server.Examples.Database.{
  replace_first, first_match, run, in_memory, in_memory-IsMongo,
}
use flowify_workflows_server.Examples.Updates.{store, old, other_step, store-HasDistinctKeys}

-- The stored time stamp is 5.
abbrev pub described : String → ℕ → Component
described text stamp =
    set_base (record (base old).metadata { description = text; timestamp = stamp }) old

abbrev patched_store : List Component
patched_store = described "first" 6 ∷ other_step ∷ []

first_patch :
    patch_document in_memory (described "first" 6) 5 store
    ≡ (ok (described "first" 6), patched_store)
unfolding patch_document patch_callback get_latest_version run first_match replace_first
first_patch = refl

patch_document-HasDistinctKeys_example :
    HasDistinctKeys patched_store
    × Replaced store (described "first" 6) patched_store
    × SameKey (described "first" 6) (described "first" 6)
    × (timestamp_of (described "first" 6) ≡ timestamp_of (described "first" 6))
    × All (λ x. uid_of x ≡ 7 → current_of x ≤ℤ pos 1) store
patch_document-HasDistinctKeys_example =
    patch_document-HasDistinctKeys in_memory in_memory-IsMongo (described "first" 6) 5 store
      (described "first" 6) patched_store store-HasDistinctKeys first_patch

patch_document-lost_update_example : ¬ (
    patch_document in_memory (described "second" 7) 5 patched_store
    ≡ (ok (described "second" 7), described "second" 7 ∷ other_step ∷ []))
patch_document-lost_update_example =
    patch_document-lost_update in_memory in_memory-IsMongo (described "first" 6)
      (described "second" 7) 5 store patched_store (described "second" 7 ∷ other_step ∷ [])
      (described "first" 6) (described "second" 7) store-HasDistinctKeys first_patch
      (λ p. omega arith) (refl, refl)

second_patch :
    (x : Error) × (patch_document in_memory (described "second" 7) 5 patched_store
      ≡ (err x, patched_store))
unfolding patch_document patch_callback get_latest_version run first_match
second_patch = (wrapped "patch document transaction fail" newer_document_exists, refl)
