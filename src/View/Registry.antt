-- ===== src/View/Registry.antt =====
-- `load_connections` and `save_connections` of rightmemory/shared_view_models.py. `render` is `json.dumps`
-- of a string, and `to_text` is `str` of a value that is no string.
pub mod Sound
use right_memory.Common.{
  ℕ, String, Bool, true, false, not, ◌&&◌, ◌||◌, Option, none, some, List, [], ◌∷◌, ◌++◌, Text,
  codes, text_eq, all, leb, ◌==◌, text_in, text_ltb, strip, sorted_set, if◌then◌else◌, Result, ok,
  err, require, ◌>>=◌, ◌>>◌,
}
use right_memory.Share.Fields.{Value, nothing, other, text, flag, array, clean_text}
use right_memory.Share.Load.{Table, get, RawPart, no_part, part_not_table, part_table}
use right_memory.View.Models.{
  ViewError, missing_field, not_a_view_table, SharedViewTarget, SharedViewConnection,
  validate_heading_id, is_given, validate_connection,
}

abbrev pub Connections : Type 0
Connections = List (Text × SharedViewConnection)

abbrev pub no_target : SharedViewTarget
no_target = record {
  kind = codes "none";
  path = none;
  view_id = none;
  base_url = none;
  credential_id = none;
  question_base_url = none;
  question_credential_id = none;
  git_url = none;
  git_branch = none;
  git_share_id = none;
  version_id = none;
  accepted_from_url = none;
}

unfoldable pub view_optional_string : Value → Option Text
view_optional_string (text value) = clean_text value
view_optional_string value = none

unfoldable pub view_required_string : Table → String → Result ViewError Text
unfolding view_optional_string
view_required_string t key = elim (view_optional_string (get t key)) [
  | none ↦ err (missing_field key)
  | some clean ↦ ok clean
]

unfoldable pub optional_heading_id : Value → Result ViewError (Option Text)
unfolding view_optional_string
optional_heading_id value = elim (view_optional_string value) [
  | none ↦ ok none
  | some clean ↦ do id ← validate_heading_id clean; ok (some id)
]

-- `str(raw.get(key, default)).strip()`
unfoldable pub stripped_or : (Value → Text) → Value → Text → Text
stripped_or to_text nothing default = strip default
stripped_or to_text (text value) default = strip value
stripped_or to_text value default = strip (to_text value)

-- `value or default`
unfoldable pub nonempty_or : Text → Text → Text
nonempty_or [] default = default
nonempty_or (c ∷ cs) default = c ∷ cs

unfoldable pub load_target : (Value → Text) → RawPart → Result ViewError SharedViewTarget
unfolding view_optional_string stripped_or nonempty_or
load_target to_text no_part = ok no_target
load_target to_text part_not_table = err not_a_view_table
load_target to_text (part_table []) = ok no_target
load_target to_text (part_table (entry ∷ entries)) = do
  let t : Table = entry ∷ entries
  view_id ← optional_heading_id (get t "view_id")
  credential_id ← optional_heading_id (get t "credential_id")
  question_credential_id ← optional_heading_id (get t "question_credential_id")
  git_share_id ← optional_heading_id (get t "git_share_id")
  version_id ← optional_heading_id (get t "version_id")
  ok (record {
    kind = nonempty_or (stripped_or to_text (get t "kind") (codes "none")) (codes "none");
    path = view_optional_string (get t "path");
    view_id = view_id;
    base_url = view_optional_string (get t "base_url");
    credential_id = credential_id;
    question_base_url = view_optional_string (get t "question_base_url");
    question_credential_id = question_credential_id;
    git_url = view_optional_string (get t "git_url");
    git_branch = view_optional_string (get t "git_branch");
    git_share_id = git_share_id;
    version_id = version_id;
    accepted_from_url = view_optional_string (get t "accepted_from_url");
  })

-- An entry of the table `connections`: no table, or its fields and its `target`.
pub data RawConnection : Type 0 where
  connection_not_table : RawConnection
  connection_table : Table → RawPart → RawConnection

unfoldable pub load_connection :
    (Value → Text) → Text → RawConnection → Result ViewError SharedViewConnection
load_connection to_text heading_id connection_not_table = err not_a_view_table
load_connection to_text heading_id (connection_table t raw_target) = do
  view_type ← view_required_string t "type"
  ref ← view_required_string t "ref"
  target ← load_target to_text raw_target
  validate_connection heading_id (record {
    heading_id = heading_id;
    view_type = view_type;
    ref = ref;
    relationship = stripped_or to_text (get t "relationship") (codes "human");
    maintainer = view_optional_string (get t "maintainer");
    description = view_optional_string (get t "description");
    accepted_from = view_optional_string (get t "accepted_from");
    target = target;
  })

-- `connections[key] = connection`
unfoldable pub put_connection : Text → SharedViewConnection → Connections → Connections
put_connection key c [] = (key, c) ∷ []
put_connection key c ((k, old) ∷ cs) =
    if text_eq k key then (k, c) ∷ cs else (k, old) ∷ put_connection key c cs

unfoldable pub load_connections :
    (Value → Text) → List (Text × RawConnection) → Connections → Result ViewError Connections
load_connections to_text [] found = ok found
load_connections to_text ((raw_id, raw) ∷ raws) found = do
  heading_id ← validate_heading_id raw_id
  connection ← load_connection to_text heading_id raw
  load_connections to_text raws (put_connection heading_id connection found)
