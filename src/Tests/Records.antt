-- ===== src/Tests/Records.antt =====
-- A retained batch of one candidate.
use right_memory.Common.{
  after_prefix, insert_unique, is_space, lstrip, sorted_set, strip, text_eq, text_ltb, traverse,
}
use right_memory.Common.Json.{has_key, keys, lookup}
use right_memory.UpdateQueue.Batch.{
  batch_json, insert_job, int_ltb, job_before, of_session, sort_jobs, update_candidate_batch_id,
}
use right_memory.UpdateQueue.Codec.{candidate_json, exact_object, parse_candidate, without}
use right_memory.UpdateQueue.Codec.Loads.{load, loads_json}
use right_memory.UpdateQueue.Disk.{find, put, write_json}
use right_memory.UpdateQueue.Formats.{
  format_hex, hex_text, int_hex, is_batch_id, is_hex, require_nonempty_string, require_positive_int,
  require_session_id, require_uid, require_utc_time, uuid_hex,
}
use right_memory.UpdateQueue.Records.{new_candidate}
use right_memory.UpdateQueue.Store.{candidate_evidence_matches, int_eq}
use right_memory.UpdateRecord.{
  as_fields, as_items, as_operation_id, as_schema, candidates_data, candidates_eq, check_fields,
  from_load, from_queue, insert_retained, invalid, is_filled, parse_items, parse_record, read_file,
  record_eq, record_name, retained_before, sort_retained, write_at,
}
use right_memory.Common.{◌≡◌, refl, false, none, some, [], ◌∷◌, Text, codes, ok}
use right_memory.Common.Json.{pos, object, field, integer, string, array, cons, nil, end}
use right_memory.UpdateQueue.Disk.{Folder, regular, directory, json_name, node_at}
use right_memory.UpdateQueue.Codec.{candidate_fields}
use right_memory.UpdateRecord.{UpdateRecord, new_record, to_data, write_record}
use right_memory.UpdateRecord.Immutable.{write_record-held}
use right_memory.Tests.Queue.{platform, batch, candidate}

abbrev retained : UpdateRecord
retained = record { operation_id = batch; candidates = candidate ∷ []; schema_version = pos 1 }

abbrev older : Text
older = codes "older.json"

abbrev folder : Folder
folder = directory false ((older, regular none) ∷ [])

abbrev written : Folder
written = directory false (
    (older, regular none)
    ∷ (
      json_name batch,
      regular (
          some (
            object (
              field "schema_version" (integer (pos 1)) (
                field "operation_id" (string batch) (
                  field "candidates" (array (cons (object (candidate_fields candidate)) nil))
                    end))))),
    )
    ∷ [])

record_run : new_record platform retained ≡ ok retained
unfolding new_record traverse new_candidate require_uid hex_text is_hex text_eq uuid_hex
    require_session_id strip is_space require_positive_int require_nonempty_string require_utc_time
    sorted_set update_candidate_batch_id
record_run = refl

write_run : write_record platform folder retained ≡ ok written
unfolding write_record traverse new_candidate require_uid hex_text is_hex text_eq uuid_hex
    require_session_id strip is_space require_positive_int require_nonempty_string require_utc_time
    sorted_set update_candidate_batch_id is_batch_id has_key keys lookup insert_unique text_ltb
    after_prefix lstrip batch_json insert_job int_ltb job_before of_session sort_jobs load
    loads_json candidate_json exact_object parse_candidate without find node_at put write_json
    format_hex int_hex candidate_evidence_matches int_eq as_fields as_items as_operation_id
    as_schema candidates_data candidates_eq check_fields from_load from_queue insert_retained
    invalid is_filled new_record parse_items parse_record read_file record_eq record_name
    retained_before sort_retained to_data write_at
write_run = refl

older_run : node_at folder older ≡ some (regular none)
unfolding node_at text_eq
older_run = refl

held_example : node_at written older ≡ some (regular none)
held_example =
    write_record-held platform folder written retained older (regular none) older_run write_run
