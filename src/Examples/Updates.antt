-- ===== src/Examples/Updates.antt =====
-- An update of a stored component, and reads of it.
use flowify_workflows_server.Common.{
  contains, String, List, [], ◌∷◌, In, ◌≡◌, refl, ◌⊎◌, ◌↔◌, inl, inr, arith, ℕ,
}
use flowify_workflows_server.Common.Int.{ℤ, pos, ◌<ℤ◌, increment}
use flowify_workflows_server.Common.Result.{ok}
use flowify_workflows_server.Models.{Component, component, no_implementation, component_document}
use flowify_workflows_server.Models.Versions.{set_latest_tag, Version}
use flowify_workflows_server.Storage.Versioned.{
  update_callback, get_latest_version, replace_latest_tag, next_version, put_document, get_document,
  by_reference, by_version,
}
use flowify_workflows_server.Storage.Versioned.Keys.{uid_of, current_of, HasDistinctKeys}
use flowify_workflows_server.Storage.Versioned.Latest.{IsLatestOf}
use flowify_workflows_server.Storage.Versioned.Newest.{HasRoom}
use flowify_workflows_server.Storage.Versioned.Tags.{HasLatest, latest_only}
use flowify_workflows_server.Storage.Versioned.Updates.{
  put_document-HasDistinctKeys, put_document-newest, put_document-others, put_document-follows,
  put_document-answers,
}
use flowify_workflows_server.Storage.Versioned.Reads.{
  IsPositive, get_document-by_version, get_document-by_reference,
}
use flowify_workflows_server.Examples.Database.{
  run, in_memory, in_memory-IsMongo, in_memory-Answers,
}

abbrev pub stored : ℕ → ℤ → List String → ℤ → Component
stored u c given before =
    component
      (record {
        metadata = record {
          name = "step";
          description = "";
          modified_by = record { oid = ""; email = "" };
          uid = u;
          version = record {
            current = c;
            tags = given;
            previous = record { version = before; uid = 0 };
          };
          timestamp = 5;
        };
        inputs = [];
        outputs = [];
        type = "component";
      })
      no_implementation

abbrev pub old : Component
old = stored 7 (pos 1) latest_only (pos 0)

abbrev pub other_step : Component
other_step = stored 8 (pos 1) latest_only (pos 0)

abbrev pub renewed : Component
renewed = stored 7 (pos 2) latest_only (pos 1)

abbrev pub untagged : Component
untagged = stored 7 (pos 1) [] (pos 0)

abbrev pub store : List Component
store = old ∷ other_step ∷ []

abbrev pub updated_store : List Component
updated_store = untagged ∷ other_step ∷ renewed ∷ []

pub store-HasDistinctKeys : HasDistinctKeys store
store-HasDistinctKeys = (((λ p. omega arith), tt), (tt, tt))

store-HasRoom : HasRoom 7 store
store-HasRoom = ((λ _. omega arith), ((λ _. omega arith), tt))

updated_store-IsPositive : IsPositive 7 updated_store
updated_store-IsPositive = ((λ _. omega arith), ((λ _. omega arith), ((λ _. omega arith), tt)))

old-updated : put_document in_memory old store ≡ (ok renewed, updated_store)
unfolding put_document update_callback get_latest_version replace_latest_tag next_version contains
    set_latest_tag increment run
old-updated = refl

updated_store-HasDistinctKeys : HasDistinctKeys updated_store
updated_store-HasDistinctKeys =
    (put_document-HasDistinctKeys in_memory in_memory-IsMongo old store updated_store renewed
      store-HasDistinctKeys store-HasRoom old-updated).0

put_document-HasDistinctKeys_example :
    HasDistinctKeys updated_store
    × In renewed updated_store
    × (uid_of renewed ≡ uid_of old)
    × HasLatest renewed
put_document-HasDistinctKeys_example =
    put_document-HasDistinctKeys in_memory in_memory-IsMongo old store updated_store renewed
      store-HasDistinctKeys store-HasRoom old-updated

put_document-newest_example :
    (untagged ≡ renewed) ⊎ (current_of untagged <ℤ current_of renewed) × (¬ HasLatest untagged)
put_document-newest_example =
    put_document-newest in_memory in_memory-IsMongo old store updated_store renewed untagged
      store-HasDistinctKeys store-HasRoom old-updated (inl refl) refl

put_document-others_example : In other_step store ↔ In other_step updated_store
put_document-others_example =
    put_document-others in_memory in_memory-IsMongo old store updated_store renewed other_step
      old-updated (λ p. omega arith)

put_document-follows_example :
    (latest : Version) × IsLatestOf in_memory in_memory-IsMongo 7 store latest
    × (pos 2 ≡ increment latest.current)
    × (pos 1 ≡ latest.current)
put_document-follows_example =
    put_document-follows in_memory in_memory-IsMongo old store updated_store renewed old-updated

put_document-answers_example :
    (node : Component) × (ds' : List Component) × (put_document in_memory old store
      ≡ (ok node, ds'))
put_document-answers_example =
    put_document-answers in_memory in_memory-IsMongo in_memory-Answers store old (λ p. omega arith)

get_document-by_reference_example :
    get_document in_memory (by_reference 7) updated_store ≡ ok renewed
get_document-by_reference_example =
    get_document-by_reference in_memory in_memory-IsMongo in_memory-Answers updated_store renewed
      updated_store-HasDistinctKeys updated_store-IsPositive (inr (inr (inl refl)))
      ((λ _. omega arith), ((λ _. omega arith), ((λ _. omega arith), tt)))

get_document-by_version_example :
    get_document in_memory (by_version (record { version = pos 1; uid = 8 })) store ≡ ok other_step
get_document-by_version_example =
    get_document-by_version in_memory in_memory-IsMongo in_memory-Answers store other_step
      store-HasDistinctKeys (inr (inl refl)) (λ p. ground arith)
