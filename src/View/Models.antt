-- ===== src/View/Models.antt =====
-- The records of rightmemory/shared_view_models.py and their validation.
use right_memory.Common.{
  String, Bool, true, false, not, ◌&&◌, ◌||◌, Option, none, some, List, [], ◌∷◌, Text, codes,
  text_eq, text_in, strip, if◌then◌else◌, ◌==◌, Result, ok, err, require, ◌>>=◌, ◌>>◌,
}
use right_memory.Share.Fields.{is_share_id}

-- The `ValueError`s, by what they speak of
pub data ViewError : Type 0 where
  bad_heading_id : Text → ViewError
  key_mismatch unknown_view_type unknown_relationship unknown_kind path_not_supported : ViewError
  wrong_view_type missing_target_field bad_base_url not_a_view_table : ViewError
  missing_field : String → ViewError

pub record SharedViewTarget : Type 0 where
  pub kind : Text
  pub path : Option Text
  pub view_id : Option Text
  pub base_url : Option Text
  pub credential_id : Option Text
  pub question_base_url : Option Text
  pub question_credential_id : Option Text
  pub git_url : Option Text
  pub git_branch : Option Text
  pub git_share_id : Option Text
  pub version_id : Option Text
  pub accepted_from_url : Option Text

pub record SharedViewConnection : Type 0 where
  pub heading_id : Text
  pub view_type : Text
  pub ref : Text
  pub relationship : Text
  pub maintainer : Option Text
  pub description : Option Text
  pub accepted_from : Option Text
  pub target : SharedViewTarget

abbrev pub view_types : List Text
view_types = codes "file" ∷ codes "question" ∷ []

abbrev pub target_kinds : List Text
target_kinds =
    codes "none"
    ∷ codes "http-file"
    ∷ codes "http-question"
    ∷ codes "git-file"
    ∷ codes "revoked"
    ∷ []

abbrev pub relationships : List Text
relationships = codes "human" ∷ codes "owned-agent" ∷ codes "team-space" ∷ codes "external" ∷ []

-- The pattern of the ids is that of the ids of shares.
unfoldable pub validate_heading_id : Text → Result ViewError Text
validate_heading_id value =
    if is_share_id (strip value) then ok (strip value) else err (bad_heading_id value)

-- The truth value of an optional string
unfoldable pub is_given : Option Text → Bool
is_given none = false
is_given (some []) = false
is_given (some (c ∷ cs)) = true

-- `value.startswith(prefix)`
unfoldable pub starts_with : Text → Text → Bool
starts_with value [] = true
starts_with [] (p ∷ ps) = false
starts_with (c ∷ cs) (p ∷ ps) = if c == p then starts_with cs ps else false

unfoldable pub is_http_base_url : Option Text → Bool
unfolding starts_with
is_http_base_url none = false
is_http_base_url (some value) =
    starts_with value (codes "http://") || starts_with value (codes "https://")

-- A condition that only holds for targets of some kinds
unfoldable pub check_when : Bool → Bool → ViewError → Result ViewError (Unit {0})
check_when false condition error = ok tt
check_when true condition error = require condition error

unfoldable pub check_target : Text → SharedViewTarget → Result ViewError (Unit {0})
unfolding is_given is_http_base_url check_when
check_target view_type target = do
  let http_file = text_eq target.kind (codes "http-file")
  let http_question = text_eq target.kind (codes "http-question")
  let git_file = text_eq target.kind (codes "git-file")
  require (text_in target.kind target_kinds) unknown_kind
  require (not (is_given target.path)) path_not_supported
  check_when http_file (text_eq view_type (codes "file")) wrong_view_type
  check_when http_question (text_eq view_type (codes "question")) wrong_view_type
  check_when git_file (text_eq view_type (codes "file")) wrong_view_type
  check_when (http_file || http_question)
      (is_given target.base_url && is_given target.credential_id) missing_target_field
  check_when (http_file || http_question) (is_http_base_url target.base_url) bad_base_url
  check_when http_question
      (is_given target.question_base_url && is_given target.question_credential_id)
      missing_target_field
  check_when http_question (is_http_base_url target.question_base_url) bad_base_url
  check_when git_file
      (is_given target.git_url && is_given target.view_id && is_given target.git_share_id)
      missing_target_field

unfoldable pub validate_connection :
    Text → SharedViewConnection → Result ViewError SharedViewConnection
validate_connection key connection = do
  heading_id ← validate_heading_id connection.heading_id
  require (text_eq key heading_id) key_mismatch
  require (text_in connection.view_type view_types) unknown_view_type
  require (text_in connection.relationship relationships) unknown_relationship
  check_target connection.view_type connection.target
  ok connection
