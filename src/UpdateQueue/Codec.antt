-- ===== src/UpdateQueue/Codec.antt =====
-- rightmemory/update_queue.py: the wire format, `_candidate_json` and its like, and the strict
-- parsers of decoded JSON.
pub mod RoundTrip
pub mod Exact
pub mod Loads
use right_memory.Common.{
  ℕ, zero, suc, String, Bool, true, false, not, ◌||◌, Option, none, some, List, [], ◌∷◌, Text,
  if◌then◌else◌, ◌==◌, Result, ok, err, ◌>>=◌, ◌>>◌,
}
use right_memory.Common.Json.{
  ℤ, pos, negsuc, Json, null, boolean, integer, real, constant, string, array, object, Items, nil,
  cons, Fields, end, field, lookup, keys, has_key, texts,
}
use right_memory.UpdateQueue.Formats.{
  QueueError, format_error, missing_fields, unsupported_fields, duplicate_field, invalid_number,
  key_error, json_error,
}
use right_memory.UpdateQueue.Records.{
  Platform, UpdateCandidate, UpdateQueueLease, UpdateQueueRecovery, PublicationMarker,
  new_candidate, new_lease, new_recovery, new_marker,
}

abbrev pub schema_version : ℤ
schema_version = pos 3

abbrev optional_json : Option Text → Json
optional_json none = null
optional_json (some t) = string t

abbrev pub candidate_fields : UpdateCandidate → Fields
candidate_fields c = field "schema_version" (integer schema_version) (
    field "uid" (string c.uid) (
      field "session_id" (string c.session_id) (
        field "display_id" (integer c.display_id)
          (field "message" (string c.message) (field "submitted_at" (string c.submitted_at) end)))))

abbrev pub lease_fields : UpdateQueueLease → Fields
lease_fields l = field "schema_version" (integer schema_version) (
    field "holder" (string l.holder) (
      field "token" (string l.token) (
        field "base_commit" (string l.base_commit) (
          field "batch_id" (string l.batch_id) (
            field "candidate_uids" (array (texts l.candidate_uids))
              (field "expires_at" (string l.expires_at) end))))))

abbrev pub recovery_fields : UpdateQueueRecovery → Fields
recovery_fields r = field "schema_version" (integer schema_version) (
    field "batch_id" (string r.batch_id) (
      field "candidate_uids" (array (texts r.candidate_uids)) (
        field "attempts" (integer r.attempts) (
          field "reason_code" (string r.reason_code) (
            field "retry_at" (optional_json r.retry_at)
              (field "manual_recovery" (boolean r.manual_recovery) end))))))

abbrev pub marker_fields : PublicationMarker → Fields
marker_fields m = field "schema_version" (integer schema_version) (
    field "candidate_uid" (string m.candidate_uid) (
      field "attempt_id" (string m.attempt_id) (
        field "attempted_at" (string m.attempted_at) (
          field "candidate_sha256" (string m.candidate_sha256)
            (field "proposed_commit" (optional_json m.proposed_commit) end)))))

-- The names of `wanted` that `given` lacks.
unfoldable pub without : List String → List String → List String
without given [] = []
without given (k ∷ ks) = let rest = without given ks in if has_key k given then rest else k ∷ rest

-- `_exact_object`. The exceptions list the names in the order of the set or of the text, where
-- the message sorts them.
check_names : String → List String → List String → Fields → Result QueueError Fields
check_names label (k ∷ ks) unknown fs = err (missing_fields label (k ∷ ks))
check_names label [] (k ∷ ks) fs = err (unsupported_fields label (k ∷ ks))
check_names label [] [] fs = ok fs

unfoldable pub exact_object : Json → List String → String → Result QueueError Fields
unfolding without check_names
exact_object (object fs) names label =
    check_names label (without (keys fs) names) (without names (keys fs)) fs
exact_object data_ names label = err (format_error label "must be a JSON object")

-- `data[key]`
abbrev get_item : Fields → String → Result QueueError Json
get_item fs k = elim (lookup k fs) [ none ↦ err (key_error k) | some v ↦ ok v ]

abbrev as_string : String → Json → Result QueueError Text
as_string label (string t) = ok t
as_string label value = err (format_error label "must be a string")

abbrev as_int : String → Json → Result QueueError ℤ
as_int label (integer n) = ok n
as_int label value = err (format_error label "must be an integer")

abbrev as_texts : String → Items → Result QueueError (List Text)
as_texts label nil = ok []
as_texts label (cons (string t) items) = do ts ← as_texts label items; ok (t ∷ ts)
as_texts label (cons value items) = err (format_error label "must be a list of strings")

abbrev as_string_tuple : String → Json → Result QueueError (List Text)
as_string_tuple label (array items) = as_texts label items
as_string_tuple label value = err (format_error label "must be a list of strings")

-- `value is not None and not isinstance(value, str)`
abbrev as_optional_string : String → Json → Result QueueError (Option Text)
as_optional_string label null = ok none
as_optional_string label (string t) = ok (some t)
as_optional_string label value = err (format_error label "must be a string or null")

abbrev as_bool : String → Json → Result QueueError Bool
as_bool label (boolean b) = ok b
as_bool label value = err (format_error label "must be a boolean")

abbrev is_schema_version : Json → Bool
is_schema_version (integer (pos n)) = n == 3
is_schema_version value = false

abbrev require_schema : Fields → String → Result QueueError (Unit {0})
require_schema fs label = do
  version ← get_item fs "schema_version"
  if is_schema_version version then ok tt else err (format_error label "schema_version must be 3")

abbrev required_string_field : Fields → String → String → Result QueueError Text
required_string_field fs key label = do value ← get_item fs key; as_string label value

abbrev required_int_field : Fields → String → String → Result QueueError ℤ
required_int_field fs key label = do value ← get_item fs key; as_int label value

abbrev required_string_tuple_field : Fields → String → String → Result QueueError (List Text)
required_string_tuple_field fs key label = do value ← get_item fs key; as_string_tuple label value

abbrev candidate_names : List String
candidate_names =
    "schema_version" ∷ "uid" ∷ "session_id" ∷ "display_id" ∷ "message" ∷ "submitted_at" ∷ []

abbrev lease_names : List String
lease_names =
    "schema_version" ∷ "holder" ∷ "token" ∷ "base_commit" ∷ "batch_id" ∷ "candidate_uids"
    ∷ "expires_at" ∷ []

abbrev recovery_names : List String
recovery_names =
    "schema_version" ∷ "batch_id" ∷ "candidate_uids" ∷ "attempts" ∷ "reason_code" ∷ "retry_at"
    ∷ "manual_recovery" ∷ []

abbrev marker_names : List String
marker_names =
    "schema_version" ∷ "candidate_uid" ∷ "attempt_id" ∷ "attempted_at" ∷ "candidate_sha256"
    ∷ "proposed_commit" ∷ []

module _ (p : Platform) where
  unfoldable pub candidate_json : UpdateCandidate → Result QueueError Json
  candidate_json c = do valid ← new_candidate p c; ok (object (candidate_fields valid))

  unfoldable pub lease_json : UpdateQueueLease → Result QueueError Json
  lease_json l = do valid ← new_lease p l; ok (object (lease_fields valid))

  unfoldable pub recovery_json : UpdateQueueRecovery → Result QueueError Json
  recovery_json r = do valid ← new_recovery p r; ok (object (recovery_fields valid))

  unfoldable pub publication_json : PublicationMarker → Result QueueError Json
  publication_json m = do valid ← new_marker p m; ok (object (marker_fields valid))

  unfoldable pub parse_candidate : Json → Result QueueError UpdateCandidate
  unfolding exact_object
  parse_candidate data_ = do
    value ← exact_object data_ candidate_names "candidate"
    require_schema value "candidate"
    uid ← required_string_field value "uid" "candidate uid"
    session_id ← required_string_field value "session_id" "candidate session_id"
    display_id ← required_int_field value "display_id" "candidate display_id"
    message ← required_string_field value "message" "candidate message"
    submitted_at ← required_string_field value "submitted_at" "candidate submitted_at"
    new_candidate p (record {
      uid = uid;
      session_id = session_id;
      display_id = display_id;
      message = message;
      submitted_at = submitted_at;
    })

  unfoldable pub parse_lease : Json → Result QueueError UpdateQueueLease
  unfolding exact_object
  parse_lease data_ = do
    value ← exact_object data_ lease_names "lease"
    require_schema value "lease"
    holder ← required_string_field value "holder" "lease holder"
    token ← required_string_field value "token" "lease token"
    base_commit ← required_string_field value "base_commit" "lease base_commit"
    batch_id ← required_string_field value "batch_id" "lease batch_id"
    candidate_uids ← required_string_tuple_field value "candidate_uids" "lease candidate_uids"
    expires_at ← required_string_field value "expires_at" "lease expires_at"
    new_lease p (record {
      holder = holder;
      token = token;
      base_commit = base_commit;
      batch_id = batch_id;
      candidate_uids = candidate_uids;
      expires_at = expires_at;
    })

  unfoldable pub parse_recovery : Json → Result QueueError UpdateQueueRecovery
  unfolding exact_object
  parse_recovery data_ = do
    value ← exact_object data_ recovery_names "recovery"
    require_schema value "recovery"
    retry ← get_item value "retry_at"
    retry_at ← as_optional_string "recovery retry_at" retry
    manual ← get_item value "manual_recovery"
    manual_recovery ← as_bool "recovery manual_recovery" manual
    batch_id ← required_string_field value "batch_id" "recovery batch_id"
    candidate_uids ← required_string_tuple_field value "candidate_uids" "recovery candidate_uids"
    attempts ← required_int_field value "attempts" "recovery attempts"
    reason_code ← required_string_field value "reason_code" "recovery reason_code"
    new_recovery p (record {
      batch_id = batch_id;
      candidate_uids = candidate_uids;
      attempts = attempts;
      reason_code = reason_code;
      retry_at = retry_at;
      manual_recovery = manual_recovery;
    })

  unfoldable pub parse_publication_marker : Json → Result QueueError PublicationMarker
  unfolding exact_object
  parse_publication_marker data_ = do
    value ← exact_object data_ marker_names "publication marker"
    require_schema value "publication marker"
    proposed ← get_item value "proposed_commit"
    commit ← as_optional_string "publication marker proposed_commit" proposed
    candidate_uid ← required_string_field value "candidate_uid" "publication marker candidate_uid"
    attempt_id ← required_string_field value "attempt_id" "publication marker attempt_id"
    attempted_at ← required_string_field value "attempted_at" "publication marker attempted_at"
    sha256 ← required_string_field value "candidate_sha256" "publication marker candidate_sha256"
    new_marker p (record {
      candidate_uid = candidate_uid;
      attempt_id = attempt_id;
      attempted_at = attempted_at;
      candidate_sha256 = sha256;
      proposed_commit = commit;
    })
