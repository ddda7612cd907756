-- ===== src/Storage/Versioned/Put.antt =====
-- `updateCallback` and `PutComponent`: a new version of a document.
use mathlib.Core.Path.{subst, subst₂}
use flowify_workflows_server.Common.{List, [], ◌∷◌, ◌++◌, nat_eq, string_eq, ◌≡◌, sym, ap}
use flowify_workflows_server.Common.Result.{ok, wrap, >>=-eq-ok, wrap-eq-ok, ok-injective}
use flowify_workflows_server.Models.{Document}
use flowify_workflows_server.Models.Versions.{Version, version_tag_latest}
use flowify_workflows_server.Storage.Driver.{Driver, IsMongo, pull, update_if}
use flowify_workflows_server.Storage.Versioned.{
  get_latest_version, latest_filter, replace_latest_tag, next_version, update_callback,
}
use flowify_workflows_server.Storage.Versioned.Keys.{uid_of, current_of}

module _ {D : Type 0} ⦃doc : Document D⦄ (driver : Driver D) (mongo : IsMongo driver) where
  -- The latest version before the update, and the collection after it.
  pub record Updated (d : D) (ds : List D) (node : D) (ds' : List D) : Type 0 where
    pub latest : Version
    pub was_latest : get_latest_version driver (uid_of d) ds ≡ ok latest
    pub stored : node ≡ next_version d latest
    pub after :
        ds'
        ≡ update_if
            (latest_filter (uid_of d) (current_of node))
            (pull (version_tag_latest ∷ []))
            (ds ++ node ∷ [])

  pub update_callback-Updated :
      (d : D) (ds : List D) (node : D) (ds' : List D)
      → update_callback driver d ds ≡ ok (node, ds')
      → Updated d ds node ds'
  unfolding update_callback replace_latest_tag
  update_callback-Updated d ds node ds' e =
      let (latest, read, rest) = >>=-eq-ok (wrap _ (get_latest_version driver (uid_of d) ds)) _ e in
      let n = next_version d latest in
      let (ds₁, inserted, rest₂) = >>=-eq-ok (wrap _ (driver.insert_one n ds)) _ rest in
      let (ds₂, tagged, same) =
        >>=-eq-ok (wrap _ (replace_latest_tag driver (uid_of d) (current_of n) ds₁)) _ rest₂ in
      let is_node : n ≡ node = ap (λ r. r.0) (ok-injective same) in
      let is_after : ds₂ ≡ ds' = ap (λ r. r.1) (ok-injective same) in
      let pulled = mongo.pulled _ _ ds₁ ds₂ (wrap-eq-ok _ _ (wrap-eq-ok _ _ tagged)) in
      let appended = mongo.inserted n ds ds₁ (wrap-eq-ok _ _ inserted) in
      record {
        latest = latest;
        was_latest = wrap-eq-ok _ _ read;
        stored = sym is_node;
        after =
            subst₂
              (λ x y.
                x
                ≡ update_if (latest_filter (uid_of d) (current_of y))
                    (pull (version_tag_latest ∷ [])) (ds ++ y ∷ []))
              is_after is_node
              (subst
                (λ x.
                  ds₂
                  ≡ update_if (latest_filter (uid_of d) (current_of n))
                      (pull (version_tag_latest ∷ [])) x)
                appended pulled);
      }
