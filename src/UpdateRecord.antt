-- ===== src/UpdateRecord.antt =====
-- rightmemory/update_record.py: the batches of candidates that are retained as provenance, each in an
-- immutable file that is named by the identity of the batch.
pub mod Immutable
use mathlib.Core.List.{reverse}
use right_memory.Common.{
  after_prefix, ℕ, String, ◌≡◌, Bool, true, false, not, ◌&&◌, ◌||◌, Option, none, some, List, [],
  ◌∷◌, ◌++◌, map, Text, codes, text_eq, text_ltb, length, ◌==◌, if◌then◌else◌, sorted_set, Result,
  ok, err, require, traverse, ◌>>=◌, ◌>>◌,
}
use right_memory.Common.Json.{
  ℤ, pos, negsuc, Json, integer, string, array, object, Items, nil, cons, Fields, end, field,
  lookup, keys,
}
use right_memory.UpdateQueue.Formats.{QueueError, is_batch_id}
use right_memory.UpdateQueue.Records.{Platform, UpdateCandidate, new_candidate}
use right_memory.UpdateQueue.Codec.{without, candidate_json, parse_candidate}
use right_memory.UpdateQueue.Codec.Loads.{loads_json}
use right_memory.UpdateQueue.Batch.{int_ltb, update_candidate_batch_id}
use right_memory.UpdateQueue.Disk.{
  Node, regular, Folder, absent, occupied, directory, Entries, json_name, node_at, write_json,
}
use right_memory.UpdateQueue.Store.{candidate_evidence_matches, int_eq}

-- `UpdateRecordFormatError` by its message, that of a candidate that cannot be parsed, what the decoder of
-- the JSON raises, and what the functions of the update queue and of the disk raise
pub data RecordError : Type 0 where
  record_format : String → RecordError
  wrong_fields : List String → List String → RecordError
  invalid_candidate : QueueError → RecordError
  loading : QueueError → RecordError
  raised : QueueError → RecordError

unfoldable pub from_queue {ℓ} : {A : Type ℓ} → Result QueueError A → Result RecordError A
from_queue (ok a) = ok a
from_queue (err e) = err (raised e)

unfoldable pub from_load {ℓ} : {A : Type ℓ} → Result QueueError A → Result RecordError A
from_load (ok a) = ok a
from_load (err e) = err (loading e)

pub record UpdateRecord : Type 0 where
  pub operation_id : Text
  pub candidates : List UpdateCandidate
  pub schema_version : ℤ

abbrev pub record_schema : ℤ
record_schema = pos 1

-- The order of the retained candidates
unfoldable pub retained_before : UpdateCandidate → UpdateCandidate → Bool
unfolding int_ltb
retained_before a b =
    if text_ltb a.session_id b.session_id
    then true
    else if text_ltb b.session_id a.session_id
    then false
    else if int_ltb a.display_id b.display_id
    then true
    else if int_ltb b.display_id a.display_id
    then false
    else if text_ltb a.submitted_at b.submitted_at
    then true
    else if text_ltb b.submitted_at a.submitted_at
    then false
    else text_ltb a.uid b.uid

unfoldable pub insert_retained : UpdateCandidate → List UpdateCandidate → List UpdateCandidate
unfolding retained_before
insert_retained c [] = c ∷ []
insert_retained c (d ∷ ds) =
    let rest = insert_retained c ds in if retained_before d c then d ∷ rest else c ∷ d ∷ ds

unfoldable pub sort_retained : List UpdateCandidate → List UpdateCandidate
unfolding insert_retained
sort_retained [] = []
sort_retained (c ∷ cs) = insert_retained c (sort_retained cs)

unfoldable pub is_filled : List UpdateCandidate → Bool
is_filled [] = false
is_filled (c ∷ cs) = true

abbrev pub uids : List UpdateCandidate → List Text
uids cs = map (λ c. c.uid) cs

-- `UpdateRecordStore.record_path`, as the name of the file
unfoldable pub record_name : Text → Result RecordError Text
record_name id = do
  require (is_batch_id id) (record_format "invalid update record operation id")
  ok (json_name id)

abbrev pub record_names : List String
record_names = "schema_version" ∷ "operation_id" ∷ "candidates" ∷ []

unfoldable pub check_fields : List String → List String → Fields → Result RecordError Fields
check_fields [] [] fs = ok fs
check_fields missing extra fs = err (wrong_fields missing extra)

unfoldable pub as_fields : Json → Result RecordError Fields
unfolding without check_fields
as_fields (object fs) =
    check_fields (without (keys fs) record_names) (without record_names (keys fs)) fs
as_fields value = err (record_format "must be a JSON object")

unfoldable pub as_schema : Option Json → Result RecordError ℤ
as_schema (some (integer n)) = ok n
as_schema value = err (record_format "schema_version must be an integer")

unfoldable pub as_operation_id : Option Json → Result RecordError Text
as_operation_id (some (string t)) = ok t
as_operation_id value = err (record_format "operation_id must be a string")

unfoldable pub as_items : Option Json → Result RecordError Items
as_items (some (array items)) = ok items
as_items value = err (record_format "candidates must be a list")

unfoldable pub invalid {ℓ} : {A : Type ℓ} → Result QueueError A → Result RecordError A
invalid (ok a) = ok a
invalid (err e) = err (invalid_candidate e)

unfoldable pub candidates_eq : List UpdateCandidate → List UpdateCandidate → Bool
candidates_eq [] [] = true
candidates_eq (c ∷ cs) (d ∷ ds) = candidate_evidence_matches c d && candidates_eq cs ds
candidates_eq cs ds = false

-- `existing == valid`
unfoldable pub record_eq : UpdateRecord → UpdateRecord → Bool
unfolding candidates_eq int_eq
record_eq a b =
    text_eq a.operation_id b.operation_id
    && candidates_eq a.candidates b.candidates
    && int_eq a.schema_version b.schema_version

module _ (p : Platform) where
  -- `UpdateRecord.__post_init__`
  unfoldable pub new_record : UpdateRecord → Result RecordError UpdateRecord
  unfolding from_queue sort_retained is_filled int_eq
  new_record r = do
    require (int_eq r.schema_version record_schema) (record_format "unsupported schema version")
    valid ← from_queue (traverse (new_candidate p) r.candidates)
    require (is_filled (sort_retained valid)) (record_format "no candidate")
    require (length (sorted_set (uids (sort_retained valid))) == length (sort_retained valid))
        (record_format "candidate uids must be unique")
    expected ← from_queue (update_candidate_batch_id p (sort_retained valid))
    require (text_eq r.operation_id expected) (record_format "operation id does not match")
    ok (record r { candidates = sort_retained valid })

  unfoldable pub from_candidates : List UpdateCandidate → Result RecordError UpdateRecord
  unfolding new_record
  from_candidates items = do
    require (is_filled items) (record_format "no candidate")
    id ← from_queue (update_candidate_batch_id p items)
    new_record (record { operation_id = id; candidates = items; schema_version = record_schema })

  unfoldable pub candidates_data : List UpdateCandidate → Result QueueError Items
  candidates_data [] = ok nil
  candidates_data (c ∷ cs) = do
    value ← candidate_json p c
    values ← candidates_data cs
    ok (cons value values)

  -- `UpdateRecord.to_data`
  unfoldable pub to_data : UpdateRecord → Result RecordError Json
  unfolding candidates_data from_queue
  to_data r = do
    items ← from_queue (candidates_data r.candidates)
    ok (
        object (
          field "schema_version" (integer r.schema_version)
            (field "operation_id" (string r.operation_id) (field "candidates" (array items) end))))

  unfoldable pub parse_items : Items → Result RecordError (List UpdateCandidate)
  unfolding invalid
  parse_items nil = ok []
  parse_items (cons item items) = do
    c ← invalid (parse_candidate p item)
    cs ← parse_items items
    ok (c ∷ cs)

  unfoldable pub parse_record : Json → Result RecordError UpdateRecord
  unfolding as_fields as_schema as_operation_id as_items parse_items new_record
  parse_record value = do
    fs ← as_fields value
    schema ← as_schema (lookup "schema_version" fs)
    id ← as_operation_id (lookup "operation_id" fs)
    items ← as_items (lookup "candidates" fs)
    cs ← parse_items items
    new_record (record { operation_id = id; candidates = cs; schema_version = schema })

  -- `_read_record`
  unfoldable pub read_file : Node → Result RecordError UpdateRecord
  unfolding from_load parse_record
  read_file (regular raw) = do value ← from_load (loads_json raw); parse_record value
  read_file node = err (record_format "must be a regular file")

  unfoldable pub write_at : Folder → Text → UpdateRecord → Option Node → Result RecordError Folder
  unfolding read_file record_eq to_data from_queue
  write_at folder name valid none = do
    value ← to_data valid
    from_queue (write_json folder name value)
  write_at folder name valid (some node) = do
    existing ← read_file node
    require (record_eq existing valid) (record_format "contains different evidence")
    ok folder

  -- `UpdateRecordStore.write`
  unfoldable pub write_record : Folder → UpdateRecord → Result RecordError Folder
  unfolding new_record record_name write_at
  write_record folder r = do
    valid ← new_record r
    name ← record_name valid.operation_id
    write_at folder name valid (node_at folder name)

  unfoldable pub read_at : Option Node → Result RecordError (Option UpdateRecord)
  unfolding read_file
  read_at none = ok none
  read_at (some node) = do r ← read_file node; ok (some r)

  -- `UpdateRecordStore.read`
  unfoldable pub read_update_record : Folder → Text → Result RecordError (Option UpdateRecord)
  unfolding record_name read_at
  read_update_record folder id = do name ← record_name id; read_at (node_at folder name)

-- The diagnostics of `validate_update_records`, each with the name of the file
pub data RecordDiagnostic : Type 0 where
  not_directory : RecordDiagnostic
  not_canonical wrong_name : Text → RecordDiagnostic
  unreadable : Text → RecordError → RecordDiagnostic

-- The operation id in a name that `UPDATE_RECORD_PATH_RE` matches
unfoldable pub checked_id : Option Text → Option Text
checked_id none = none
checked_id (some id) = if is_batch_id (reverse id) then some (reverse id) else none

unfoldable pub record_id : Text → Option Text
unfolding checked_id after_prefix
record_id name = checked_id (after_prefix (reverse (codes ".json")) (reverse name))

module _ (p : Platform) where
  unfoldable pub name_diagnostics : Text → Text → Result RecordError (List RecordDiagnostic)
  unfolding record_name
  name_diagnostics name id = do
    expected ← record_name id
    ok (if text_eq name expected then [] else wrong_name name ∷ [])

  -- An error that the loop does not catch goes on.
  unfoldable pub read_diagnostics :
      Text → Result RecordError UpdateRecord → Result RecordError (List RecordDiagnostic)
  unfolding name_diagnostics
  read_diagnostics name (ok r) = name_diagnostics name r.operation_id
  read_diagnostics name (err (raised e)) = err (raised e)
  read_diagnostics name (err e) = ok (unreadable name e ∷ [])

  unfoldable pub file_diagnostics :
      Text → Node → Option Text → Result RecordError (List RecordDiagnostic)
  unfolding read_diagnostics read_file
  file_diagnostics name node none = ok (not_canonical name ∷ [])
  file_diagnostics name node (some id) = read_diagnostics name (read_file p node)

  unfoldable pub entries_diagnostics : Entries → Result RecordError (List RecordDiagnostic)
  unfolding file_diagnostics record_id
  entries_diagnostics [] = ok []
  entries_diagnostics ((name, node) ∷ es) = do
    here ← file_diagnostics name node (record_id name)
    rest ← entries_diagnostics es
    ok (here ++ rest)

  -- `validate_update_records`, over a folder whose entries are listed by name
  unfoldable pub validate_update_records : Folder → Result RecordError (List RecordDiagnostic)
  unfolding entries_diagnostics
  validate_update_records absent = ok []
  validate_update_records occupied = ok (not_directory ∷ [])
  validate_update_records (directory true es) = ok (not_directory ∷ [])
  validate_update_records (directory false es) = entries_diagnostics es
