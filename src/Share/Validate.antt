-- ===== src/Share/Validate.antt =====
-- `_validate_share` and `_normalize_parts` of rightmemory/share_models.py.
pub mod Sound
pub mod Normal
use right_memory.Common.{
  String, Bool, true, false, not, Option, none, some, List, [], ◌∷◌, ◌++◌, map, Text, codes,
  text_eq, text_in, if◌then◌else◌, Result, ok, err, require, ◌>>=◌, ◌>>◌,
}
use right_memory.Share.Fields.{
  ShareError, Item, text_item, optional_item, required, no_parts, missing_part, file_parts_only,
  ShareFilePart, ShareQuestionPart, ShareRelationship, share_roles, share_states, share_parts,
  share_transports, validate_share_id, clean_text, clean_optional, required_string, required_choice,
  or_default,
}

-- `if part not in parts: parts.append(part)`
unfoldable pub append_new : List Text → Text → List Text
append_new parts part = if text_in part parts then parts else parts ++ part ∷ []

-- The loop over the raw parts, from the parts already there.
unfoldable pub normalize_loop : List Text → List Item → Result ShareError (List Text)
unfolding append_new
normalize_loop parts [] = ok parts
normalize_loop parts (raw ∷ raws) = do
  value ← optional_item raw
  part ← required_choice value share_parts "share part"
  normalize_loop (append_new parts part) raws

nonempty_parts : List Text → Result ShareError (List Text)
nonempty_parts [] = err no_parts
nonempty_parts (p ∷ ps) = ok (p ∷ ps)

unfoldable pub normalize_parts : List Item → Result ShareError (List Text)
unfolding nonempty_parts
normalize_parts raws = do parts ← normalize_loop [] raws; nonempty_parts parts

-- `if transport == "git"`
unfoldable pub check_git : Text → Option Text → List Text → Result ShareError (Unit {0})
check_git transport git_url parts =
    if text_eq transport (codes "git")
    then (do
      required_string git_url "git_url"
      require (not (text_in (codes "question") parts)) file_parts_only)
    else ok tt

-- The fields that the role asks for.
unfoldable pub check_part_fields :
    Text → Option Text → Option Text → Option Text → Result ShareError (Unit {0})
check_part_fields role view_id intent heading_id =
    if text_eq role (codes "provider")
    then (do
      required_string (clean_optional view_id) "part view_id"
      required_string (clean_optional intent) "part intent"
      ok tt)
    else (do required_string (clean_optional heading_id) "part heading_id"; ok tt)

check_present_file : Text → Option ShareFilePart → Result ShareError (Unit {0})
check_present_file role none = err (missing_part "file")
check_present_file role (some part) =
    check_part_fields role part.view_id part.intent part.heading_id

unfoldable pub check_file : Text → List Text → Option ShareFilePart → Result ShareError (Unit {0})
unfolding check_present_file
check_file role parts part =
    if text_in (codes "file") parts then check_present_file role part else ok tt

check_present_question : Text → Option ShareQuestionPart → Result ShareError (Unit {0})
check_present_question role none = err (missing_part "question")
check_present_question role (some part) =
    check_part_fields role part.view_id part.intent part.heading_id

unfoldable pub check_question :
    Text → List Text → Option ShareQuestionPart → Result ShareError (Unit {0})
unfolding check_present_question
check_question role parts part =
    if text_in (codes "question") parts then check_present_question role part else ok tt

unfoldable pub validate_share : ShareRelationship → Result ShareError ShareRelationship
validate_share share = do
  share_id ← validate_share_id share.share_id
  role ← required_choice (clean_text share.role) share_roles "share role"
  title ← required_string (clean_text share.title) "share title"
  state ← required_choice (clean_text share.state) share_states "share state"
  transport ←
      required_choice (or_default (clean_text share.transport) (codes "http")) share_transports
        "share transport"
  parts ← normalize_parts (map text_item share.parts)
  let git_url = clean_optional share.git_url
  check_git transport git_url parts
  check_file role parts share.file
  check_question role parts share.question
  ok (record {
    share_id = share_id;
    role = role;
    title = title;
    state = state;
    parts = parts;
    transport = transport;
    provider_id = clean_optional share.provider_id;
    hub_url = clean_optional share.hub_url;
    credential_id = clean_optional share.credential_id;
    git_url = git_url;
    git_branch = clean_optional share.git_branch;
    accepted_from = clean_optional share.accepted_from;
    file = share.file;
    question = share.question;
  })
