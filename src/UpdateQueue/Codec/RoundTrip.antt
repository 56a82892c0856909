-- ===== src/UpdateQueue/Codec/RoundTrip.antt =====
-- What a record class writes, its parser reads back (rightmemory/update_queue.py).
use right_memory.Common.{◌≡◌, refl, Option, none, some, List, [], ◌∷◌, Text, arith, ok, >>=-eq-ok}
use right_memory.Common.Json.{Json, object, lookup, keys, has_key, texts}
use right_memory.UpdateQueue.Records.{
  Platform, UpdateCandidate, UpdateQueueLease, UpdateQueueRecovery, PublicationMarker,
  new_candidate, new_lease, new_recovery, new_marker,
}
use right_memory.UpdateQueue.Records.Sound.{
  new_candidate_sound, new_lease_sound, new_recovery_sound, new_marker_sound,
}
use right_memory.UpdateQueue.Codec.{
  candidate_json, lease_json, recovery_json, publication_json, parse_candidate, parse_lease,
  parse_recovery, parse_publication_marker, candidate_fields, lease_fields, recovery_fields,
  marker_fields, without, as_texts, as_optional_string, optional_json,
}

as_texts-texts : (ts : List Text) (label : _) → as_texts label (texts ts) ≡ ok ts
unfolding texts
as_texts-texts [] label = refl
as_texts-texts (t ∷ ts) label = rw (as_texts-texts ts label)

as_optional_string-optional_json :
    (o : Option Text) (label : _) → as_optional_string label (optional_json o) ≡ ok o
as_optional_string-optional_json none label = refl
as_optional_string-optional_json (some t) label = refl

module _ (p : Platform) where
  parse_candidate_fields :
      (c : UpdateCandidate) → parse_candidate p (object (candidate_fields c)) ≡ new_candidate p c
  unfolding parse_candidate lookup keys has_key without
  parse_candidate_fields c = refl

  parse_lease_fields :
      (l : UpdateQueueLease) → parse_lease p (object (lease_fields l)) ≡ new_lease p l
  unfolding parse_lease lookup keys has_key without
  parse_lease_fields l = rw as_texts-texts

  parse_recovery_fields :
      (r : UpdateQueueRecovery) → parse_recovery p (object (recovery_fields r)) ≡ new_recovery p r
  unfolding parse_recovery lookup keys has_key without
  parse_recovery_fields r = rw (as_optional_string-optional_json, as_texts-texts)

  parse_marker_fields :
      (m : PublicationMarker)
      → parse_publication_marker p (object (marker_fields m)) ≡ new_marker p m
  unfolding parse_publication_marker lookup keys has_key without
  parse_marker_fields m = rw as_optional_string-optional_json

  -- The JSON that is written for a candidate is parsed to that candidate.
  pub parse_candidate-candidate_json :
      (c : UpdateCandidate) {data_ : Json}
      → candidate_json p c ≡ ok data_
      → parse_candidate p data_ ≡ ok c
  unfolding candidate_json
  parse_candidate-candidate_json c h =
      let (v, checked, written) = >>=-eq-ok (new_candidate p c) _ h in
      ground (arith, parse_candidate_fields c, new_candidate_sound p c checked)

  -- The JSON that is written for a lease is parsed to that lease.
  pub parse_lease-lease_json :
      (l : UpdateQueueLease) {data_ : Json} → lease_json p l ≡ ok data_ → parse_lease p data_ ≡ ok l
  unfolding lease_json
  parse_lease-lease_json l h =
      let (v, checked, written) = >>=-eq-ok (new_lease p l) _ h in
      ground (arith, parse_lease_fields l, new_lease_sound p l checked)

  -- The JSON that is written for a recovery is parsed to that recovery.
  pub parse_recovery-recovery_json :
      (r : UpdateQueueRecovery) {data_ : Json}
      → recovery_json p r ≡ ok data_
      → parse_recovery p data_ ≡ ok r
  unfolding recovery_json
  parse_recovery-recovery_json r h =
      let (v, checked, written) = >>=-eq-ok (new_recovery p r) _ h in
      ground (arith, parse_recovery_fields r, new_recovery_sound p r checked)

  -- The JSON that is written for a publication marker is parsed to that marker.
  pub parse_marker-publication_json :
      (m : PublicationMarker) {data_ : Json}
      → publication_json p m ≡ ok data_
      → parse_publication_marker p data_ ≡ ok m
  unfolding publication_json
  parse_marker-publication_json m h =
      let (v, checked, written) = >>=-eq-ok (new_marker p m) _ h in
      ground (arith, parse_marker_fields m, new_marker_sound p m checked)
