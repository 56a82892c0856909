-- ===== src/Share/Load.antt =====
-- `_load_share` of rightmemory/share_models.py: a share from its TOML table.
pub mod Sound
use right_memory.Common.{
  String, Bool, true, false, Option, none, some, List, [], ◌∷◌, Text, codes, text_in, str_eq,
  if◌then◌else◌, Result, ok, err, require, traverse, ◌>>=◌, ◌>>◌,
}
use right_memory.Share.Fields.{
  ShareError, not_a_list, not_a_table, not_a_string, missing_part, Item, text_item, other_item,
  Value, nothing, other, text, flag, array, ShareFilePart, ShareQuestionPart, ShareRelationship,
  share_roles, share_states, share_transports, clean_text, optional_string, required_string,
  required_choice, or_default, optional_bool,
}
use right_memory.Share.Validate.{normalize_parts, validate_share}

abbrev pub Table : Type 0
Table = List (String × Value)

-- `raw.get(key)`
unfoldable pub get : Table → String → Value
get [] key = nothing
get ((k, v) ∷ t) key = if str_eq k key then v else get t key

-- The value of `file` or `question`: not there, no table, or a table.
pub data RawPart : Type 0 where
  no_part : RawPart
  part_not_table : RawPart
  part_table : Table → RawPart

pub data RawShare : Type 0 where
  share_not_table : RawShare
  share_table : Table → RawPart → RawPart → RawShare

unfoldable pub load_parts : Value → Result ShareError (List Text)
load_parts (array items) = normalize_parts items
load_parts value = err not_a_list

-- `raw.get("approved", False)`
unfoldable pub approved_value : Value → Value
approved_value nothing = flag false
approved_value value = value

unfoldable pub load_file_part : RawPart → Bool → Result ShareError (Option ShareFilePart)
unfolding approved_value
load_file_part no_part required_ = if required_ then err (missing_part "file") else ok none
load_file_part part_not_table required_ = err not_a_table
load_file_part (part_table t) required_ = do
  view_id ← optional_string (get t "view_id")
  intent ← optional_string (get t "intent")
  heading_id ← optional_string (get t "heading_id")
  approved ← optional_bool (approved_value (get t "approved")) "file part approved"
  ok (
      some (record {
        view_id = view_id;
        intent = intent;
        heading_id = heading_id;
        approved = approved;
      }))

unfoldable pub load_question_part : RawPart → Bool → Result ShareError (Option ShareQuestionPart)
unfolding approved_value
load_question_part no_part required_ = if required_ then err (missing_part "question") else ok none
load_question_part part_not_table required_ = err not_a_table
load_question_part (part_table t) required_ = do
  view_id ← optional_string (get t "view_id")
  intent ← optional_string (get t "intent")
  heading_id ← optional_string (get t "heading_id")
  question_base_url ← optional_string (get t "question_base_url")
  approved ← optional_bool (approved_value (get t "approved")) "question part approved"
  ok (
      some (record {
        view_id = view_id;
        intent = intent;
        heading_id = heading_id;
        question_base_url = question_base_url;
        approved = approved;
      }))

unfoldable pub load_share : Text → RawShare → Result ShareError ShareRelationship
load_share share_id share_not_table = err not_a_table
load_share share_id (share_table t file_ question_) = do
  raw_role ← optional_string (get t "role")
  role ← required_choice raw_role share_roles "share role"
  raw_title ← optional_string (get t "title")
  title ← required_string raw_title "share title"
  raw_state ← optional_string (get t "state")
  state ← required_choice raw_state share_states "share state"
  raw_transport ← optional_string (get t "transport")
  transport ←
      required_choice (or_default raw_transport (codes "http")) share_transports "share transport"
  parts ← load_parts (get t "parts")
  file_part ← load_file_part file_ (text_in (codes "file") parts)
  question_part ← load_question_part question_ (text_in (codes "question") parts)
  provider_id ← optional_string (get t "provider_id")
  hub_url ← optional_string (get t "hub_url")
  credential_id ← optional_string (get t "credential_id")
  git_url ← optional_string (get t "git_url")
  git_branch ← optional_string (get t "git_branch")
  accepted_from ← optional_string (get t "accepted_from")
  validate_share (record {
    share_id = share_id;
    role = role;
    title = title;
    state = state;
    parts = parts;
    transport = transport;
    provider_id = provider_id;
    hub_url = hub_url;
    credential_id = credential_id;
    git_url = git_url;
    git_branch = git_branch;
    accepted_from = accepted_from;
    file = file_part;
    question = question_part;
  })
