-- ===== src/View/Save.antt =====
-- `save_connections` of rightmemory/shared_view_models.py: the lines of `shared_views.toml`. `render` is
-- `json.dumps` of a string.
use right_memory.Common.{
  Option, none, some, List, [], ◌∷◌, ◌++◌, map, Text, codes, text_eq, sorted_set, if◌then◌else◌,
  Result, ok, err, ◌>>=◌,
}
use right_memory.Common.Toml.{toml_key, string_line, optional_line, file_text}
use right_memory.View.Models.{
  ViewError, bad_heading_id, SharedViewTarget, SharedViewConnection, validate_connection,
}
use right_memory.View.Registry.{Connections}

-- `connections[heading_id]`, where the key is there
unfoldable pub connection_at : Text → Connections → Option SharedViewConnection
connection_at key [] = none
connection_at key ((k, c) ∷ cs) = if text_eq k key then some c else connection_at key cs

module _ (render : Text → Text) where
  unfoldable pub target_lines : Text → SharedViewTarget → List Text
  target_lines key target =
      if text_eq target.kind (codes "none")
      then []
      else ([]
          ∷ (codes "[connections." ++ key ++ codes ".target]")
          ∷ string_line render (codes "kind") target.kind
          ∷ [])
        ++ optional_line render (codes "view_id") target.view_id
        ++ optional_line render (codes "base_url") target.base_url
        ++ optional_line render (codes "credential_id") target.credential_id
        ++ optional_line render (codes "question_base_url") target.question_base_url
        ++ optional_line render (codes "question_credential_id") target.question_credential_id
        ++ optional_line render (codes "git_url") target.git_url
        ++ optional_line render (codes "git_branch") target.git_branch
        ++ optional_line render (codes "git_share_id") target.git_share_id
        ++ optional_line render (codes "version_id") target.version_id
        ++ optional_line render (codes "accepted_from_url") target.accepted_from_url

  unfoldable pub connection_lines : Text → SharedViewConnection → List Text
  unfolding target_lines
  connection_lines heading_id c =
      ((codes "[connections." ++ toml_key render heading_id ++ codes "]")
        ∷ string_line render (codes "type") c.view_type
        ∷ string_line render (codes "ref") c.ref
        ∷ string_line render (codes "relationship") c.relationship
        ∷ [])
      ++ optional_line render (codes "maintainer") c.maintainer
      ++ optional_line render (codes "description") c.description
      ++ optional_line render (codes "accepted_from") c.accepted_from
      ++ target_lines (toml_key render heading_id) c.target
      ++ [] ∷ []

  unfoldable pub append_connection :
      Text
      → Option SharedViewConnection
      → Result ViewError (List Text)
      → Result ViewError (List Text)
  append_connection heading_id none rest = err (bad_heading_id heading_id)
  append_connection heading_id (some c) rest = do
    connection ← validate_connection heading_id c
    lines ← rest
    ok (connection_lines heading_id connection ++ lines)

  unfoldable pub registry_lines : List Text → Connections → Result ViewError (List Text)
  unfolding append_connection
  registry_lines [] connections = ok []
  registry_lines (heading_id ∷ ids) connections =
      append_connection heading_id (connection_at heading_id connections)
        (registry_lines ids connections)

  unfoldable pub save_connections : Connections → Result ViewError Text
  save_connections connections = do
    lines ← registry_lines (sorted_set (map (λ e. e.0) connections)) connections
    ok (file_text (codes "# RightMemory shared view registry" ∷ [] ∷ lines))
