-- ===== src/Workspace/Configs.antt =====
-- pkg/workspace/workspace.go: the workspaces in the config maps of Kubernetes, how they are listed,
-- created, updated and deleted. `S` is the state of the cluster.
use Prim.Native.String.{◌++◌}
use flowify_workflows_server.Common.{
  String, Bool, List, [], ◌∷◌, In, Any, if◌then◌else◌, ltb, ◌≡◌, sym, ap, ◌∙◌, ◌↔◌, ◌⊎◌, inl, inr,
}
use flowify_workflows_server.Common.Text.{count_of}
use flowify_workflows_server.Common.Result.{
  Result, ok, err, Error, message, wrap, ◌>>=◌, Result-cases, ok≢err, ok-injective,
}
use flowify_workflows_server.User.{Role}
use flowify_workflows_server.Workspace.{Workspace}

-- The texts under the keys of `Data` that the code reads or writes, empty if a key is missing.
pub record ConfigMap : Type 0 where
  pub name : String
  pub namespace : String
  pub labels : List (String × String)
  pub roles : String
  pub project_name : String
  pub hide_for_unauthorized : String
  pub description : String

-- `workspace.Data`
pub record CreationData : Type 0 where
  pub name : String
  pub roles : List String
  pub hide_for_unauthorized : String
  pub labels : List (String × String)
  pub namespace : String

-- `json.Unmarshal` to a list of roles, to a list of such lists, and to a Boolean, which stays false
-- when the text is none.
pub record JsonDecoder : Type 0 where
  pub roles : String → Result (List Role)
  pub lists_of_roles : String → Result (List (List Role))
  pub flag : String → Bool

-- The loop that writes the roles, with the cut of the last comma. Without a role, the cut panics.
abbrev pub written_roles : String → List String → String
written_roles role [] = "\"" ++ role ++ "\""
written_roles role (next ∷ roles) = "\"" ++ role ++ "\", " ++ written_roles next roles

abbrev pub roles_text : List String → Result String
roles_text [] = err (message "slice bounds out of range")
roles_text (role ∷ roles) = ok ("[" ++ written_roles role roles ++ "]")

module _ (json : JsonDecoder) where
  unfoldable get_access_tokens : ConfigMap → Result (List (List Role))
  unfolding count_of
  get_access_tokens cm =
      if ltb 1 (count_of cm.roles "[")
      then wrap "cannot unmarshal token array of arrays" (json.lists_of_roles cm.roles)
      else (wrap "cannot unmarshal token array of arrays" (json.roles cm.roles) >>= λ tokens.
          ok (tokens ∷ []))

  abbrev workspace_of : ConfigMap → List (List Role) → Workspace
  workspace_of cm roles = record {
    name = cm.name;
    description = cm.description;
    hide_for_unauthorized = json.flag cm.hide_for_unauthorized;
    roles = roles;
  }

  -- The loop over the config maps with the label: those whose roles cannot be read are skipped.
  unfoldable list_workspace_config_maps : List ConfigMap → List Workspace
  unfolding get_access_tokens
  list_workspace_config_maps [] = []
  list_workspace_config_maps (cm ∷ config_maps) =
      let newlist = list_workspace_config_maps config_maps in
      elim (get_access_tokens cm) [ err e ↦ newlist | ok roles ↦ workspace_of cm roles ∷ newlist ]

-- The calls of the client, each with the state after it where it succeeds. A namespace is its
-- labels. `get_config_map` gives the empty config map next to an error, which the code ignores.
pub record KubernetesClient (S : Type 0) : Type 0 where
  pub get_namespace : String → S → Result (List (String × String))
  pub create_namespace : String → (labels : List (String × String)) → S → Result S
  pub update_namespace : String → (labels : List (String × String)) → S → Result S
  pub delete_namespace : String → S → Result S
  pub create_config_map : ConfigMap → S → Result S
  pub get_config_map : (namespace name : String) → S → ConfigMap
  pub update_config_map : ConfigMap → S → Result S
  pub delete_config_map : (namespace name : String) → S → Result S

abbrev workspace_labels : List (String × String)
workspace_labels =
    ("app.kubernetes.io/component", "workspace-config")
    ∷ ("app.kubernetes.io/part-of", "flowify")
    ∷ []

-- The config map that is created, without a description.
abbrev config_map_of : CreationData → String → ConfigMap
config_map_of data' roles = record {
  name = data'.name;
  namespace = data'.namespace;
  labels = workspace_labels;
  roles = roles;
  project_name = data'.name;
  hide_for_unauthorized = data'.hide_for_unauthorized;
  description = "";
}

module _ {S : Type 0} (k8s : KubernetesClient S) where
  -- A step that fails leaves the state as it was before it.
  abbrev or_keep : {A : Type 0} → Result A → S → (A → Result String × S) → Result String × S
  or_keep (err e) s next = (err e, s)
  or_keep (ok a) s next = next a

  unfoldable create_workspace : CreationData → S → Result String × S
  create_workspace data' s = or_keep (k8s.get_namespace data'.namespace s) s λ labels.
      or_keep (k8s.create_namespace data'.name labels s) s λ s₁.
        or_keep (roles_text data'.roles) s₁ λ roles.
          or_keep (k8s.create_config_map (config_map_of data' roles) s₁) s₁
            λ s₂. (ok "The workspace has been created", s₂)

  -- The data of the config map are replaced: a description is lost.
  unfoldable update_workspace : CreationData → S → Result String × S
  update_workspace data' s = or_keep (k8s.get_namespace data'.name s) s λ _.
      or_keep (k8s.update_namespace data'.name data'.labels s) s λ s₁.
        or_keep (roles_text data'.roles) s₁ λ roles.
          or_keep
            (k8s.update_config_map
              (record (config_map_of data' roles) {
                labels = (k8s.get_config_map data'.namespace data'.name s₁).labels;
              })
              s₁)
            s₁ λ s₂. (ok "The workspace has been updated", s₂)

  unfoldable delete_workspace : (namespace ws_name : String) → S → Result String × S
  delete_workspace namespace ws_name s =
      or_keep (k8s.delete_namespace ws_name s) s
        λ s₁. or_keep (k8s.delete_config_map namespace ws_name s₁) s₁ λ s₂. (ok "Success", s₂)

  -- A deletion that fails has changed nothing, or has deleted the namespace and kept the config map.
  delete_workspace-err :
      (namespace ws_name : String) (s s' : S) (e : Error)
      → delete_workspace namespace ws_name s ≡ (err e, s')
      → (s' ≡ s) ⊎ (k8s.delete_namespace ws_name s ≡ ok s')
  unfolding delete_workspace
  delete_workspace-err namespace ws_name s s' e same =
      elim (Result-cases (k8s.delete_namespace ws_name s)) [
        | inr (x, bad) ↦ inl (sym (ap (λ r. r.1) (rw (delete_workspace, bad) at same)))
        | inl (s₁, gone) ↦ elim (Result-cases (k8s.delete_config_map namespace ws_name s₁)) [
          | inr (x, bad) ↦
              inr (gone ∙ ap ok (ap (λ r. r.1) (rw (delete_workspace, gone, bad) at same)))
          | inl (s₂, done) ↦
              absurd (ok≢err (ap (λ r. r.0) (rw (delete_workspace, gone, done) at same)))
        ]
      ]

module _ (json : JsonDecoder) where
  -- The workspace is that of the config map, whose roles can be read.
  abbrev IsConfigured : Workspace → ConfigMap → Type 0
  IsConfigured ws cm =
      (roles : List (List Role)) × (get_access_tokens json cm ≡ ok roles)
      × (workspace_of json cm roles ≡ ws)

  -- What is listed are the workspaces of the config maps whose roles can be read.
  list_workspace_config_maps_iff :
      (ws : Workspace) (config_maps : List ConfigMap)
      → In ws (list_workspace_config_maps json config_maps) ↔ Any (IsConfigured ws) config_maps
  unfolding list_workspace_config_maps
  list_workspace_config_maps_iff ws [] = (λ m. m, λ m. m)
  list_workspace_config_maps_iff ws (cm ∷ config_maps) =
      let (to, from) = list_workspace_config_maps_iff ws config_maps in
      elim (Result-cases (get_access_tokens json cm)) [
        | inr (x, bad) ↦ (
          λ m. inr (to (rw (list_workspace_config_maps, bad) at m)),
          λ m. elim m [
            | inl (roles, read, _) ↦ absurd (ok≢err (sym read ∙ bad))
            | inr later ↦ rw (list_workspace_config_maps, bad) (from later)
          ],
        )
        | inl (roles, read) ↦ (
          λ m.
              let there : In ws
                  (workspace_of json cm roles ∷ list_workspace_config_maps json config_maps) =
                rw (list_workspace_config_maps, read) at m in
              elim there [ inl here ↦ inl (roles, read, here) | inr later ↦ inr (to later) ],
          λ m. elim m [
            | inl (rs, again, is) ↦
                let same : roles ≡ rs = ok-injective (sym read ∙ again) in
                rw (list_workspace_config_maps, read) (inl (ap (workspace_of json cm) same ∙ is))
            | inr later ↦ rw (list_workspace_config_maps, read) (inr (from later))
          ],
        )
      ]
