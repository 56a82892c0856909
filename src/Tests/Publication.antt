-- ===== src/Tests/Publication.antt =====
-- The publication of one candidate, and a queue with a lease and a recovery of it.
use right_memory.Common.{insert_unique, is_space, lstrip, sorted_set, strip, text_ltb, traverse}
use right_memory.Common.Json.{has_key, keys, lookup}
use right_memory.UpdateQueue.Batch.{
  batch_json, insert_job, job_before, of_session, sort_jobs, update_candidate_batch_id,
}
use right_memory.UpdateQueue.Codec.{
  candidate_json, exact_object, parse_candidate, parse_publication_marker, publication_json,
  without,
}
use right_memory.UpdateQueue.Codec.Loads.{load, loads_json}
use right_memory.UpdateQueue.Disk.{find, put, read_record, write_json}
use right_memory.UpdateQueue.Formats.{
  format_hex, int_hex, require_nonempty_string, require_oid, require_positive_int,
  require_session_id, require_sha256, require_utc_time, texts_eq,
}
use right_memory.UpdateQueue.Inspect.{
  by_uid, lease_member_errors, lease_recovery_errors, member_errors, missing_from, overlap_batches,
  own_recoveries, own_uids, owner, recovery_member_errors, same_recovery, uids_of,
}
use right_memory.UpdateQueue.Records.{new_candidate, new_marker, require_proposed_commit}
use right_memory.UpdateQueue.Store.{
  candidate_sha256, named, present, read_at, resume_publication, start_publication,
}
use right_memory.Common.{text_eq}
use right_memory.UpdateQueue.Disk.{unlink}
use right_memory.UpdateQueue.Formats.{hex_text, is_hex, uuid_hex}
use right_memory.Common.{◌≡◌, refl, true, false, none, some, [], ◌∷◌, codes, ok}
use right_memory.UpdateQueue.Formats.{require_uid}
use right_memory.UpdateQueue.Records.{PublicationMarker}
use right_memory.UpdateQueue.Disk.{regular, link, directory, node_at}
use right_memory.UpdateQueue.Store.{
  Store, read_outbox, remove_outbox, begin_publication, read_publication_marker,
  record_publication_commit, clear_publication_marker, publication_state, attempted,
  never_attempted, missing,
}
use right_memory.UpdateQueue.Store.Publication.{begin_publication_again, begin_publication_marker}
use right_memory.UpdateQueue.Store.States.{
  publication_state-begin_publication, publication_state-clear, publication_state-settled,
  record_publication_commit_lem,
}
use right_memory.UpdateQueue.Inspect.{link_errors}
use right_memory.UpdateQueue.Inspect.Sound.{IsLinked, link_errors_sound}
use right_memory.UpdateQueue.Outbox.{outbox_candidates, temp_pid}
use right_memory.UpdateQueue.Outbox.Kept.{outbox_candidates-kept}
use right_memory.Tests.Queue.{
  platform, uid_a, uid_f, oid, time, candidate, lease, recovery, marker, empty_store, outbox_store,
  begun_store, recorded_store,
}

abbrev cleared_store : Store
cleared_store = record outbox_store { publication = directory false [] }

abbrev settled_store : Store
settled_store = record cleared_store { outbox = directory false [] }

begin_run : begin_publication platform uid_a time none uid_f outbox_store ≡ ok (marker, begun_store)
unfolding begin_publication read_outbox require_uid hex_text is_hex text_eq uuid_hex node_at
    read_record loads_json load keys has_key parse_candidate lookup new_candidate require_session_id
    is_space lstrip strip candidate_json exact_object parse_publication_marker publication_json
    without find put write_json format_hex int_hex require_nonempty_string require_oid
    require_positive_int require_sha256 require_utc_time new_marker require_proposed_commit
    candidate_sha256 named present read_at read_publication_marker resume_publication
    start_publication
begin_run = refl

again_example :
    begin_publication platform uid_a (codes "2026-01-02T00:00:00+00:00") none uid_a begun_store
    ≡ ok (marker, begun_store)
again_example =
    begin_publication_again platform uid_a time none uid_f outbox_store begin_run
      (codes "2026-01-02T00:00:00+00:00") none uid_a

marker_kept_example :
    (require_uid "candidate uid" uid_a ≡ ok uid_a)
    × (read_publication_marker platform uid_a begun_store ≡ ok (some marker))
marker_kept_example = begin_publication_marker platform uid_a time none uid_f outbox_store begin_run

attempted_example : publication_state platform uid_a begun_store ≡ ok attempted
attempted_example =
    publication_state-begin_publication platform uid_a time none uid_f outbox_store begin_run

read_run : read_outbox platform uid_a begun_store ≡ ok (some candidate)
unfolding read_outbox require_uid hex_text is_hex text_eq uuid_hex node_at read_record loads_json
    load keys has_key parse_candidate lookup new_candidate require_session_id strip is_space lstrip
    exact_object without find format_hex int_hex require_nonempty_string require_positive_int
    require_utc_time named read_at
read_run = refl

clear_run : clear_publication_marker platform uid_a begun_store ≡ ok cleared_store
unfolding clear_publication_marker require_uid hex_text is_hex text_eq uuid_hex unlink
clear_run = refl

cleared_example : publication_state platform uid_a cleared_store ≡ ok never_attempted
cleared_example = publication_state-clear platform uid_a begun_store read_run clear_run

remove_run : remove_outbox platform uid_a cleared_store ≡ ok settled_store
unfolding remove_outbox require_uid hex_text is_hex text_eq uuid_hex unlink
remove_run = refl

settled_example : publication_state platform uid_a settled_store ≡ ok missing
settled_example = publication_state-settled platform uid_a begun_store clear_run remove_run

record_run :
    record_publication_commit platform uid_a oid begun_store
    ≡ ok (record marker { proposed_commit = some oid }, recorded_store)
unfolding record_publication_commit require_uid hex_text is_hex text_eq uuid_hex require_oid
    read_publication_marker node_at read_record loads_json load keys has_key
    parse_publication_marker lookup new_marker exact_object publication_json without find put
    write_json format_hex int_hex require_sha256 require_utc_time require_proposed_commit named
    present read_at
record_run = refl

record_example :
    (m : PublicationMarker) × (read_publication_marker platform uid_a begun_store ≡ ok (some m))
    × (record marker { proposed_commit = some oid } ≡ record m { proposed_commit = some oid })
    × (read_publication_marker platform uid_a recorded_store
        ≡ ok (some (record marker { proposed_commit = some oid })))
    × (recorded_store.outbox ≡ begun_store.outbox)
record_example = record_publication_commit_lem platform uid_a oid begun_store record_run

link_run : link_errors platform (candidate ∷ []) (some lease) (recovery ∷ []) ≡ ok []
unfolding link_errors lease_member_errors member_errors sorted_set missing_from uids_of text_eq
    traverse by_uid update_candidate_batch_id new_candidate require_uid hex_text is_hex uuid_hex
    require_session_id strip insert_unique text_ltb is_space lstrip batch_json insert_job job_before
    of_session sort_jobs format_hex int_hex require_nonempty_string require_positive_int
    require_utc_time texts_eq lease_recovery_errors overlap_batches own_recoveries own_uids owner
    recovery_member_errors same_recovery
link_run = refl

link_example : IsLinked (candidate ∷ []) (some lease) (recovery ∷ [])
link_example = link_errors_sound platform (candidate ∷ []) (some lease) (recovery ∷ []) link_run

-- An outbox with a file that is left from a killed process, a wrong name and a candidate
abbrev littered_store : Store
littered_store = record empty_store {
  outbox = directory false ((codes ".x.json.7.tmp", regular none) ∷ (codes "README", link) ∷ []);
}

name_run : temp_pid (codes "README") ≡ none
unfolding temp_pid
name_run = refl

kept_example :
    node_at (outbox_candidates platform true littered_store).1.outbox (codes "README")
    ≡ node_at littered_store.outbox (codes "README")
kept_example = outbox_candidates-kept platform true littered_store (codes "README") name_run
