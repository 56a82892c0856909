-- ===== src/UpdateQueue/Records/Sound.antt =====
-- The record classes of rightmemory/update_queue.py keep the fields that they are given.
use right_memory.Common.{◌≡◌, arith, ok}
use right_memory.UpdateQueue.Formats.Uids.{require_uid_tuple_cases}
use right_memory.UpdateQueue.Records.{
  Platform, UpdateCandidate, UpdateQueueLease, UpdateQueueRecovery, PublicationMarker,
  new_candidate, new_lease, new_recovery, new_marker,
}

module _ (p : Platform) where
  pub new_candidate_sound :
      (c : UpdateCandidate) {c' : UpdateCandidate} → new_candidate p c ≡ ok c' → c' ≡ c
  unfolding new_candidate
  new_candidate_sound c h = ground arith

  pub new_marker_sound :
      (m : PublicationMarker) {m' : PublicationMarker} → new_marker p m ≡ ok m' → m' ≡ m
  unfolding new_marker
  new_marker_sound m h = ground arith

  pub new_lease_sound :
      (l : UpdateQueueLease) {l' : UpdateQueueLease} → new_lease p l ≡ ok l' → l' ≡ l
  unfolding new_lease
  new_lease_sound l h =
      ground (arith, require_uid_tuple_cases "lease candidate_uids" l.candidate_uids)

  pub new_recovery_sound :
      (r : UpdateQueueRecovery) {r' : UpdateQueueRecovery} → new_recovery p r ≡ ok r' → r' ≡ r
  unfolding new_recovery
  new_recovery_sound r h =
      ground (arith, require_uid_tuple_cases "recovery candidate_uids" r.candidate_uids)
