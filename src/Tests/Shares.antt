-- ===== src/Tests/Shares.antt =====
-- A git share of a file, and the registry entry that it is loaded from.
use right_memory.Common.{lstrip}
use right_memory.Share.Fields.{
  clean_optional, clean_or_none, clean_text, is_share_id, optional_bool, optional_string,
  or_default, required_string, validate_share_id,
}
use right_memory.Share.Load.{approved_value, get, load_file_part, load_parts, load_question_part}
use right_memory.Share.Validate.{
  append_new, check_file, check_git, check_part_fields, check_question,
}
use right_memory.Common.{is_space, strip, text_eq}
use right_memory.Share.Fields.{optional_item, required_choice}
use right_memory.Share.Validate.{normalize_loop}
use right_memory.Common.{◌≡◌, ◌≢◌, refl, true, none, some, [], ◌∷◌, codes, ok}
use right_memory.Share.Fields.{text_item, text, flag, array, ShareRelationship}
use right_memory.Share.Validate.{normalize_parts, validate_share}
use right_memory.Share.Validate.Sound.{IsParts, IsShare, normalize_parts-IsParts}
use right_memory.Share.Validate.Normal.{validate_share-IsShare, validate_share_idem}
use right_memory.Share.Load.{RawShare, share_table, part_table, no_part, load_share}
use right_memory.Share.Load.Sound.{load_share-IsShare}

abbrev git_share : ShareRelationship
git_share = record {
  share_id = codes "notes";
  role = codes "consumer";
  title = codes "Notes";
  state = codes "joined";
  parts = codes "file" ∷ [];
  transport = codes "git";
  provider_id = none;
  hub_url = none;
  credential_id = none;
  git_url = some (codes "u");
  git_branch = none;
  accepted_from = none;
  file =
      some
        (record { view_id = none; intent = none; heading_id = some (codes "h"); approved = true });
  question = none;
}

-- The same with spaces and a repeated part
abbrev loose_share : ShareRelationship
loose_share = record git_share {
  title = codes " Notes ";
  parts = codes "file" ∷ codes "file " ∷ [];
  git_branch = some (codes " ");
}

loose_run : validate_share loose_share ≡ ok git_share
unfolding validate_share validate_share_id is_share_id strip is_space required_choice clean_text
    text_eq or_default normalize_parts normalize_loop optional_item check_git clean_optional
    check_file check_part_fields check_question lstrip clean_or_none required_string append_new
loose_run = refl

validate_share_example : IsShare git_share
validate_share_example = validate_share-IsShare loose_share loose_run

idem_example : validate_share git_share ≡ ok git_share
idem_example = validate_share_idem loose_share loose_run

parts_run :
    normalize_parts (text_item (codes "file") ∷ text_item (codes " file") ∷ [])
    ≡ ok (codes "file" ∷ [])
unfolding normalize_parts normalize_loop optional_item required_choice strip is_space text_eq
parts_run = refl

parts_example : IsParts (codes "file" ∷ []) × ((codes "file" ∷ []) ≢ [])
parts_example =
    normalize_parts-IsParts (text_item (codes "file") ∷ text_item (codes " file") ∷ []) parts_run

abbrev raw_share : RawShare
raw_share =
    share_table
      (("role", text (codes "consumer"))
        ∷ ("title", text (codes "Notes "))
        ∷ ("state", text (codes "joined"))
        ∷ ("transport", text (codes "git"))
        ∷ ("git_url", text (codes "u"))
        ∷ ("parts", array (text_item (codes "file") ∷ []))
        ∷ [])
      (part_table (("heading_id", text (codes "h")) ∷ ("approved", flag true) ∷ [])) no_part

load_run : load_share (codes "notes") raw_share ≡ ok git_share
unfolding load_share optional_string get required_choice strip is_space text_eq or_default
    load_parts normalize_parts normalize_loop optional_item load_file_part optional_bool
    load_question_part validate_share validate_share_id lstrip clean_optional clean_or_none
    clean_text is_share_id required_string approved_value append_new check_file check_git
    check_part_fields check_question
load_run = refl

load_share_example : IsShare git_share × (validate_share git_share ≡ ok git_share)
load_share_example = load_share-IsShare (codes "notes") raw_share load_run
