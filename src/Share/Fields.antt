-- ===== src/Share/Fields.antt =====
-- rightmemory/share_models.py: the records of a share, the values of a TOML table, and the checks of
-- single fields.
use right_memory.Common.{
  ℕ, String, Bool, false, ◌&&◌, ◌||◌, Option, none, some, List, [], ◌∷◌, Text, codes, text_in,
  strip, all, leb, ◌==◌, if◌then◌else◌, Result, ok, err, ◌>>=◌,
}

-- The `ValueError`s, by what they speak of; the message has the id of the share too.
pub data ShareError : Type 0 where
  bad_share_id : Text → ShareError
  required : String → ShareError
  invalid : String → Text → ShareError
  not_a_string not_a_list not_a_table no_parts : ShareError
  not_a_boolean : String → ShareError
  missing_part : String → ShareError
  file_parts_only : ShareError

-- What `raw.get(key)` gives. An element of an array is a string or something else.
pub data Item : Type 0 where
  text_item : Text → Item
  other_item : Item

pub data Value : Type 0 where
  nothing other : Value
  text : Text → Value
  flag : Bool → Value
  array : List Item → Value

pub record ShareFilePart : Type 0 where
  pub view_id : Option Text
  pub intent : Option Text
  pub heading_id : Option Text
  pub approved : Bool

pub record ShareQuestionPart : Type 0 where
  pub view_id : Option Text
  pub intent : Option Text
  pub heading_id : Option Text
  pub question_base_url : Option Text
  pub approved : Bool

pub record ShareRelationship : Type 0 where
  pub share_id : Text
  pub role : Text
  pub title : Text
  pub state : Text
  pub parts : List Text
  pub transport : Text
  pub provider_id : Option Text
  pub hub_url : Option Text
  pub credential_id : Option Text
  pub git_url : Option Text
  pub git_branch : Option Text
  pub accepted_from : Option Text
  pub file : Option ShareFilePart
  pub question : Option ShareQuestionPart

abbrev pub share_roles : List Text
share_roles = codes "provider" ∷ codes "consumer" ∷ []

abbrev pub share_states : List Text
share_states = codes "draft" ∷ codes "approved" ∷ codes "published" ∷ codes "joined" ∷ []

abbrev pub share_parts : List Text
share_parts = codes "file" ∷ codes "question" ∷ []

abbrev pub share_transports : List Text
share_transports = codes "http" ∷ codes "git" ∷ []

-- `[A-Za-z0-9_.-]`
is_id_char : ℕ → Bool
is_id_char c =
    leb b'A' c && leb c b'Z'
    || leb b'a' c && leb c b'z'
    || leb b'0' c && leb c b'9'
    || c == b'_'
    || c == b'.'
    || c == b'-'

unfoldable pub is_share_id : Text → Bool
unfolding is_id_char
is_share_id [] = false
is_share_id (c ∷ cs) = all is_id_char (c ∷ cs)

unfoldable pub validate_share_id : Text → Result ShareError Text
validate_share_id value =
    if is_share_id (strip value) then ok (strip value) else err (bad_share_id value)

-- `clean or None` of a stripped text
unfoldable pub clean_or_none : Text → Option Text
clean_or_none [] = none
clean_or_none (c ∷ cs) = some (c ∷ cs)

-- `_optional_string` of a text, of an optional text, and of any value
unfoldable pub clean_text : Text → Option Text
unfolding clean_or_none
clean_text value = clean_or_none (strip value)

unfoldable pub clean_optional : Option Text → Option Text
unfolding clean_text
clean_optional none = none
clean_optional (some value) = clean_text value

unfoldable pub optional_string : Value → Result ShareError (Option Text)
unfolding clean_text
optional_string nothing = ok none
optional_string (text value) = ok (clean_text value)
optional_string value = err not_a_string

unfoldable pub optional_item : Item → Result ShareError (Option Text)
unfolding clean_text
optional_item (text_item value) = ok (clean_text value)
optional_item other_item = err not_a_string

unfoldable pub required_string : Option Text → String → Result ShareError Text
required_string none label = err (required label)
required_string (some value) label = ok value

unfoldable pub required_choice : Option Text → List Text → String → Result ShareError Text
unfolding required_string
required_choice value allowed label = do
  clean ← required_string value label
  if text_in clean allowed then ok clean else err (invalid label clean)

-- `value or default`
unfoldable pub or_default : Option Text → Text → Option Text
or_default none default = some default
or_default (some value) default = some value

unfoldable pub optional_bool : Value → String → Result ShareError Bool
optional_bool (flag b) label = ok b
optional_bool value label = err (not_a_boolean label)
