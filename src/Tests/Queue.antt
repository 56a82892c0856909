-- ===== src/Tests/Queue.antt =====
-- The update queue with one candidate.
use right_memory.Common.{is_space, lstrip, sorted_set, strip, text_eq, text_ltb, traverse}
use right_memory.Common.Json.{has_key, keys, lookup}
use right_memory.UpdateQueue.Codec.{exact_object, without}
use right_memory.UpdateQueue.Codec.Loads.{load, loads_json}
use right_memory.UpdateQueue.Disk.{
  find, keep_existing, put, read_record, write_immutable, write_json,
}
use right_memory.UpdateQueue.Formats.{
  format_hex, int_hex, is_batch_id, is_hex, is_reason_code, require_batch_id,
  require_nonempty_string, require_nonnegative_int, require_oid, require_positive_int,
  require_session_id, require_sha256, require_utc_time, uuid_hex,
}
use right_memory.UpdateQueue.Records.{new_lease, new_marker, new_recovery}
use right_memory.UpdateQueue.Store.{make_queue}
use right_memory.Common.{
  ◌≡◌, refl, true, false, none, some, [], ◌∷◌, Text, codes, if◌then◌else◌, ok, err,
}
use right_memory.Common.Json.{pos, Fields, object}
use right_memory.UpdateQueue.Formats.{
  in_utc, require_uid, hex_text, format_error, file_exists, require_uid_tuple,
}
use right_memory.UpdateQueue.Formats.Hex.{require_uid_lem}
use right_memory.UpdateQueue.Formats.Uids.{IsUidTuple, require_uid_tuple_sound}
use right_memory.UpdateQueue.Records.{
  Platform, UpdateCandidate, UpdateQueueLease, UpdateQueueRecovery, PublicationMarker,
  new_candidate,
}
use right_memory.UpdateQueue.Codec.{
  candidate_fields, lease_fields, recovery_fields, marker_fields, candidate_json, lease_json,
  recovery_json, publication_json, parse_candidate, parse_lease, parse_recovery,
  parse_publication_marker,
}
use right_memory.UpdateQueue.Codec.RoundTrip.{
  parse_candidate-candidate_json, parse_lease-lease_json, parse_recovery-recovery_json,
  parse_marker-publication_json,
}
use right_memory.UpdateQueue.Codec.Exact.{SameFields, parse_candidate_sound}
use right_memory.UpdateQueue.Disk.{regular, absent, directory, json_name, node_at}
use right_memory.UpdateQueue.Store.{
  Store, candidate_evidence_matches, write_candidate, read_candidate, write_outbox, read_outbox,
}
use right_memory.UpdateQueue.Store.Immutable.{
  read_outbox-write_outbox, write_outbox_held, read_candidate-write_candidate, write_candidate_held,
}

abbrev pub digest : Text
digest = codes "0000000000000000000000000000000000000000000000000000000000000000"

abbrev pub platform : Platform
platform = record {
  utc_iso = λ t. in_utc t;
  sha256_hex = λ v. digest;
  sha256_canonical = λ v. digest;
  process_exists = λ pid. false;
}

abbrev pub uid_a : Text
uid_a = codes "00000000000040008000000000000001"

abbrev pub uid_f : Text
uid_f = codes "ffffffffffff4fffbfffffffffffffff"

abbrev pub oid : Text
oid = codes "1111111111111111111111111111111111111111"

abbrev pub batch : Text
batch = codes "update-batch-0000000000000000000000000000000000000000000000000000000000000000"

abbrev pub time : Text
time = codes "2026-01-01T00:00:00+00:00"

abbrev pub candidate : UpdateCandidate
candidate = record {
  uid = uid_a;
  session_id = codes "s";
  display_id = pos 1;
  message = codes "m";
  submitted_at = time;
}

abbrev pub candidate_later : UpdateCandidate
candidate_later = record candidate { message = codes "n" }

abbrev pub lease : UpdateQueueLease
lease = record {
  holder = uid_f;
  token = uid_f;
  base_commit = oid;
  batch_id = batch;
  candidate_uids = uid_a ∷ [];
  expires_at = time;
}

abbrev pub recovery : UpdateQueueRecovery
recovery = record {
  batch_id = batch;
  candidate_uids = uid_a ∷ [];
  attempts = pos 1;
  reason_code = codes "busy";
  retry_at = none;
  manual_recovery = true;
}

abbrev pub marker : PublicationMarker
marker = record {
  candidate_uid = uid_a;
  attempt_id = uid_f;
  attempted_at = time;
  candidate_sha256 = digest;
  proposed_commit = none;
}

abbrev pub empty_store : Store
empty_store = record {
  queue_files = absent;
  candidates = absent;
  recovery = absent;
  outbox = absent;
  publication = absent;
}

abbrev pub outbox_store : Store
outbox_store = record empty_store {
  outbox =
      directory false
        ((json_name uid_a, regular (some (object (candidate_fields candidate)))) ∷ []);
}

abbrev pub queue_store : Store
queue_store = record empty_store {
  queue_files = directory false [];
  candidates =
      directory false
        ((json_name uid_a, regular (some (object (candidate_fields candidate)))) ∷ []);
}

abbrev pub begun_store : Store
begun_store = record outbox_store {
  publication =
      directory false ((json_name uid_a, regular (some (object (marker_fields marker)))) ∷ []);
}

abbrev pub recorded_store : Store
recorded_store = record outbox_store {
  publication = directory false (
      (
        json_name uid_a,
        regular (some (object (marker_fields (record marker { proposed_commit = some oid })))),
      )
      ∷ []);
}

uid_example : require_uid "holder" (codes "0") ≡ (
    if hex_text 32 (codes "0")
    then ok (codes "0")
    else err (format_error "holder" "must be lowercase UUID hex"))
uid_example = require_uid_lem "holder" (codes "0")

uids_run : require_uid_tuple "candidate_uids" (uid_a ∷ uid_f ∷ []) ≡ ok (uid_a ∷ uid_f ∷ [])
unfolding require_uid_tuple traverse require_uid hex_text is_hex text_eq uuid_hex sorted_set
    text_ltb
uids_run = refl

uids_example : ((uid_a ∷ uid_f ∷ []) ≡ (uid_a ∷ uid_f ∷ [])) × IsUidTuple (uid_a ∷ uid_f ∷ [])
uids_example = require_uid_tuple_sound "candidate_uids" (uid_a ∷ uid_f ∷ []) uids_run

candidate_run : candidate_json platform candidate ≡ ok (object (candidate_fields candidate))
unfolding candidate_json new_candidate require_uid hex_text is_hex text_eq uuid_hex
    require_session_id strip is_space require_positive_int require_nonempty_string require_utc_time
candidate_run = refl

candidate_example : parse_candidate platform (object (candidate_fields candidate)) ≡ ok candidate
candidate_example = parse_candidate-candidate_json platform candidate candidate_run

lease_run : lease_json platform lease ≡ ok (object (lease_fields lease))
unfolding lease_json new_lease require_uid hex_text is_hex text_eq uuid_hex require_oid
    require_batch_id is_batch_id require_uid_tuple traverse sorted_set require_utc_time
lease_run = refl

lease_example : parse_lease platform (object (lease_fields lease)) ≡ ok lease
lease_example = parse_lease-lease_json platform lease lease_run

recovery_run : recovery_json platform recovery ≡ ok (object (recovery_fields recovery))
unfolding recovery_json new_recovery require_batch_id is_batch_id hex_text is_hex require_uid_tuple
    traverse require_uid text_eq uuid_hex sorted_set require_nonnegative_int is_reason_code
recovery_run = refl

recovery_example : parse_recovery platform (object (recovery_fields recovery)) ≡ ok recovery
recovery_example = parse_recovery-recovery_json platform recovery recovery_run

marker_run : publication_json platform marker ≡ ok (object (marker_fields marker))
unfolding publication_json new_marker require_uid hex_text is_hex text_eq uuid_hex require_utc_time
    require_sha256
marker_run = refl

marker_example : parse_publication_marker platform (object (marker_fields marker)) ≡ ok marker
marker_example = parse_marker-publication_json platform marker marker_run

exact_example :
    (fs : Fields) × (object (candidate_fields candidate) ≡ object fs)
    × SameFields fs (candidate_fields candidate)
    × (new_candidate platform candidate ≡ ok candidate)
exact_example =
    parse_candidate_sound platform (object (candidate_fields candidate)) candidate_example

outbox_run : write_outbox platform candidate empty_store ≡ ok outbox_store
unfolding write_outbox candidate_json new_candidate require_uid hex_text is_hex text_eq uuid_hex
    require_session_id strip is_space require_positive_int require_nonempty_string require_utc_time
    write_immutable node_at write_json has_key keys lookup lstrip load loads_json exact_object
    parse_candidate without find keep_existing put read_record format_hex int_hex
    candidate_evidence_matches
outbox_run = refl

outbox_example : read_outbox platform uid_a outbox_store ≡ ok (some candidate)
outbox_example = read_outbox-write_outbox platform candidate empty_store outbox_run

later_run : new_candidate platform candidate_later ≡ ok candidate_later
unfolding new_candidate require_uid hex_text is_hex text_eq uuid_hex require_session_id strip
    is_space require_positive_int require_nonempty_string require_utc_time
later_run = refl

outbox_held_example : write_outbox platform candidate_later outbox_store ≡ (
    if candidate_evidence_matches candidate candidate_later
    then ok outbox_store
    else err file_exists)
outbox_held_example =
    write_outbox_held platform candidate candidate_later empty_store outbox_run later_run refl

queue_run : write_candidate platform candidate empty_store ≡ ok queue_store
unfolding write_candidate require_uid hex_text is_hex text_eq uuid_hex candidate_json new_candidate
    require_session_id strip is_space require_positive_int require_nonempty_string require_utc_time
    write_immutable node_at write_json has_key keys lookup lstrip load loads_json exact_object
    parse_candidate without find keep_existing put read_record format_hex int_hex
    candidate_evidence_matches make_queue
queue_run = refl

queue_example : read_candidate platform uid_a queue_store ≡ ok (some candidate)
queue_example = read_candidate-write_candidate platform candidate empty_store queue_run

queue_held_example : write_candidate platform candidate_later queue_store ≡ (
    if candidate_evidence_matches candidate candidate_later
    then ok queue_store
    else err file_exists)
queue_held_example =
    write_candidate_held platform candidate candidate_later empty_store queue_run later_run refl
