-- ===== src/Storage/Listing/Projection.antt =====
-- storage/mongo.go: the projection of a listing, from the BSON tags of the fields of a Go type.
use Prim.Native.Char.{code}
use flowify_workflows_server.Common.{
  String, List, [], ◌∷◌, ◌++◌, map, ◌==◌, nat_eq, if◌then◌else◌, ◌≡◌, refl,
}
use flowify_workflows_server.Common.Text.{has_substring}

-- The fields of a struct, as `reflect` gives them: a field that is a struct itself, or another.
pub data StructFields : Type 0 where
  end : StructFields
  plain : (tag : String) → StructFields → StructFields
  struct : (tag : String) → (inner : StructFields) → StructFields → StructFields

-- Recursively flattens the fields that are in line.
unfoldable pub flattened_fields : StructFields → List String
unfolding has_substring
flattened_fields end = []
flattened_fields (plain tag rest) = tag ∷ flattened_fields rest
flattened_fields (struct tag inner rest) =
    let within = flattened_fields inner in
    let after = flattened_fields rest in
    if has_substring tag "inline" then within ++ after else tag ∷ after

-- The tag up to the first comma.
unfoldable pub before_comma : String → String
before_comma String.[] = String.[]
before_comma (String.◌∷◌ c s) =
    let rest = before_comma s in if code c == b',' then String.[] else String.◌∷◌ c rest

unfoldable pub projection_from_bson_tags : List String → List String
unfolding before_comma
projection_from_bson_tags tags = map before_comma tags

-- The types `models.Metadata` and `models.MetadataWorkspace`.
abbrev pub metadata_type : StructFields
metadata_type = plain "name,omitempty" (
    plain "description,omitempty" (
      struct "modifiedBy,omitempty" (plain "oid" (plain "email,omitempty" end))
        (plain "uid,omitempty" (struct "version,omitempty" end (struct "timestamp" end end)))))

abbrev pub metadata_workspace_type : StructFields
metadata_workspace_type = struct ",inline" metadata_type (plain "workspace" end)

unfoldable pub metadata_projection : List String
unfolding projection_from_bson_tags flattened_fields
metadata_projection = projection_from_bson_tags (flattened_fields metadata_type)

unfoldable pub metadata_workspace_projection : List String
unfolding projection_from_bson_tags flattened_fields
metadata_workspace_projection = projection_from_bson_tags (flattened_fields metadata_workspace_type)

-- The listings read each field of `Metadata`, and the workspace.
metadata_workspace_projection_lem :
    metadata_workspace_projection
    ≡ "name" ∷ "description" ∷ "modifiedBy" ∷ "uid" ∷ "version" ∷ "timestamp" ∷ "workspace" ∷ []
unfolding metadata_workspace_projection
metadata_workspace_projection_lem = refl
