-- ===== src/UpdateQueue/Store/Immutable.antt =====
-- Written candidates of rightmemory/update_queue.py can be read back and are never replaced.
use right_memory.Common.{
  ◌≡◌, ◌∙◌, ap, true, some, text_eq_iff, text_eq_refl, arith, if◌then◌else◌, ok, err, >>=-eq-ok,
  Option-cases, inl, inr, ◌↔◌,
}
use right_memory.Common.Json.{ℤ, pos, negsuc, Json, object}
use right_memory.UpdateQueue.Formats.{file_exists, require_uid}
use right_memory.UpdateQueue.Formats.Hex.{require_uid_lem}
use right_memory.UpdateQueue.Records.{Platform, UpdateCandidate, new_candidate}
use right_memory.UpdateQueue.Records.Sound.{new_candidate_sound}
use right_memory.UpdateQueue.Codec.{candidate_json, candidate_fields, parse_candidate}
use right_memory.UpdateQueue.Codec.RoundTrip.{parse_candidate-candidate_json}
use right_memory.UpdateQueue.Codec.Loads.{loads_json, load-candidate_fields}
use right_memory.UpdateQueue.Disk.{
  Folder, json_name, node_at, read_record, write_json, write_immutable, regular, keep_existing,
}
use right_memory.UpdateQueue.Disk.Laws.{node_at-write_json, keep_existing_sound}
use right_memory.UpdateQueue.Store.{
  Store, int_eq, candidate_evidence_matches, read_at, make_queue, write_candidate, read_candidate,
  write_outbox, read_outbox,
}

int_eq_sound : (a b : ℤ) → int_eq a b ≡ true → a ≡ b
unfolding int_eq
int_eq_sound (pos a) (pos b) h = ground arith
int_eq_sound (pos a) (negsuc b) h = cc
int_eq_sound (negsuc a) (pos b) h = cc
int_eq_sound (negsuc a) (negsuc b) h = ground arith

int_eq_refl : (a : ℤ) → int_eq a a ≡ true
unfolding int_eq
int_eq_refl (pos a) = ground arith
int_eq_refl (negsuc a) = ground arith

-- The comparison of two candidates is true exactly if they are equal.
candidate_evidence_matches_iff :
    (a b : UpdateCandidate) → (candidate_evidence_matches a b ≡ true) ↔ (a ≡ b)
unfolding candidate_evidence_matches
candidate_evidence_matches_iff a b = (
  λ h. ground (
    arith,
    text_eq_iff a.uid b.uid,
    text_eq_iff a.session_id b.session_id,
    int_eq_sound a.display_id b.display_id,
    text_eq_iff a.message b.message,
    text_eq_iff a.submitted_at b.submitted_at,
  ),
  λ h. rw h (
      ground (
        arith,
        text_eq_refl b.uid,
        text_eq_refl b.session_id,
        int_eq_refl b.display_id,
        text_eq_refl b.message,
        text_eq_refl b.submitted_at,
      )),
)

module _ (p : Platform) where
  -- What `write_immutable` leaves at the path of a candidate is read as that candidate.
  abbrev Holds : Folder → UpdateCandidate → Type 0
  Holds f c = read_at f c.uid (parse_candidate p) ≡ ok (some c)

  loads_written :
      (c : UpdateCandidate) {value : Json}
      → candidate_json p c ≡ ok value
      → loads_json (some value) ≡ ok value
  unfolding candidate_json loads_json
  loads_written c h =
      let (v, checked, written) = >>=-eq-ok (new_candidate p c) _ h in
      ground (arith, load-candidate_fields v)

  read_written :
      (f : Folder) (c : UpdateCandidate) {value : Json}
      → candidate_json p c ≡ ok value
      → node_at f (json_name c.uid) ≡ some (regular (some value))
      → Holds f c
  unfolding read_at read_record
  read_written f c h there = ground (arith, loads_written c h, parse_candidate-candidate_json p c h)

  write_immutable-Holds :
      (f : Folder) (c : UpdateCandidate) {value : Json} {g : Folder}
      → candidate_json p c ≡ ok value
      → write_immutable f (json_name c.uid) value (parse_candidate p) candidate_evidence_matches
        ≡ ok g
      → Holds g c
  unfolding write_immutable
  write_immutable-Holds f c {value} {g} h w = elim (Option-cases (node_at f (json_name c.uid))) [
    | inl free ↦
        let w' : write_json f (json_name c.uid) value ≡ ok g = ground arith in
        read_written g c h (
          node_at-write_json f (json_name c.uid) (json_name c.uid) value w'
          ∙ rw (text_eq_refl (json_name c.uid)))
    | inr (node, taken) ↦
        let w' : keep_existing f node value (parse_candidate p) candidate_evidence_matches ≡ ok g =
          ground arith in
        let (existing, requested, read, parsed, same, kept) =
          keep_existing_sound f node value (parse_candidate p) candidate_evidence_matches w' in
        unfold read_at in
        ground (
          arith,
          candidate_evidence_matches_iff existing requested,
          parse_candidate-candidate_json p c h,
        )
  ]

  -- A second write at a path that is held: silent for the same candidate, refused for another.
  write_immutable_held :
      (f : Folder) (c c' : UpdateCandidate) {value : Json}
      → Holds f c
      → candidate_json p c' ≡ ok value
      → c'.uid ≡ c.uid
      → write_immutable f (json_name c'.uid) value (parse_candidate p) candidate_evidence_matches
        ≡ (if candidate_evidence_matches c c' then ok f else err file_exists)
  unfolding write_immutable read_at keep_existing
  write_immutable_held f c c' held h same_uid =
      rw same_uid (ground (arith, parse_candidate-candidate_json p c' h))

  new_candidate-uid :
      (c : UpdateCandidate)
      → new_candidate p c ≡ ok c
      → require_uid "candidate uid" c.uid ≡ ok c.uid
  unfolding new_candidate
  new_candidate-uid c h = ground (arith, require_uid_lem "candidate uid" c.uid)

  candidate_json-valid :
      (c : UpdateCandidate) {value : Json}
      → candidate_json p c ≡ ok value
      → new_candidate p c ≡ ok c
  unfolding candidate_json
  candidate_json-valid c h =
      let (v, checked, written) = >>=-eq-ok (new_candidate p c) _ h in
      checked ∙ ap ok (new_candidate_sound p c checked)

  written_outbox :
      (c : UpdateCandidate) (s : Store) {s' : Store}
      → write_outbox p c s ≡ ok s'
      → (value : Json) × (candidate_json p c ≡ ok value)
        × (write_immutable s.outbox
              (json_name c.uid)
              value
              (parse_candidate p)
              candidate_evidence_matches
            ≡ ok s'.outbox)
        × (s' ≡ record s { outbox = s'.outbox })
  unfolding write_outbox
  written_outbox c s h =
      let (value, json, k) = >>=-eq-ok (candidate_json p c) _ h in
      let (folder, put, k') = >>=-eq-ok (write_immutable s.outbox _ value _ _) _ k in
      (value, json, ground arith, ground arith)

  -- A candidate that was written to the outbox is read back from it.
  pub read_outbox-write_outbox :
      (c : UpdateCandidate) (s : Store) {s' : Store}
      → write_outbox p c s ≡ ok s'
      → read_outbox p c.uid s' ≡ ok (some c)
  unfolding read_outbox
  read_outbox-write_outbox c s {s'} h =
      let (value, json, put, rest) = written_outbox c s h in
      rw (new_candidate-uid c (candidate_json-valid c json))
        (rw (write_immutable-Holds s.outbox c json put) (rw (text_eq_refl c.uid)))

  -- While a candidate lies in the outbox, a write of the same candidate changes nothing and a write
  -- of another candidate under its uid is refused.
  pub write_outbox_held :
      (c c' : UpdateCandidate) (s : Store) {s' : Store}
      → write_outbox p c s ≡ ok s'
      → new_candidate p c' ≡ ok c'
      → c'.uid ≡ c.uid
      → write_outbox p c' s' ≡ (if candidate_evidence_matches c c' then ok s' else err file_exists)
  unfolding write_outbox candidate_json
  write_outbox_held c c' s {s'} h valid same_uid =
      let (value, json, put, rest) = written_outbox c s h in
      let held = write_immutable-Holds s.outbox c json put in
      let json' : candidate_json p c' ≡ ok (object (candidate_fields c')) = rw valid in
      rw valid (rw (write_immutable_held s'.outbox c c' held json' same_uid) (ground arith))

  written_candidate :
      (c : UpdateCandidate) (s : Store) {s' : Store}
      → write_candidate p c s ≡ ok s'
      → (value : Json) × (candidate_json p c ≡ ok value)
        × (write_immutable s.candidates
              (json_name c.uid)
              value
              (parse_candidate p)
              candidate_evidence_matches
            ≡ ok s'.candidates)
        × (make_queue s'.queue_files ≡ ok s'.queue_files)
  unfolding write_candidate make_queue
  written_candidate c s {s'} h =
      let (uid, checked, k₁) = >>=-eq-ok (require_uid "candidate uid" c.uid) _ h in
      let (value, json, k₂) = >>=-eq-ok (candidate_json p c) _ k₁ in
      let (queue, made, k₃) = >>=-eq-ok (make_queue s.queue_files) _ k₂ in
      let (folder, put, k₄) = >>=-eq-ok (write_immutable s.candidates _ value _ _) _ k₃ in
      let same_uid : uid ≡ c.uid = ground (arith, require_uid_lem "candidate uid" c.uid) in
      (value, json, rw (← same_uid) (put ∙ ground arith), ground arith)

  -- A candidate that was written to the tracked queue is read back from it.
  pub read_candidate-write_candidate :
      (c : UpdateCandidate) (s : Store) {s' : Store}
      → write_candidate p c s ≡ ok s'
      → read_candidate p c.uid s' ≡ ok (some c)
  unfolding read_candidate
  read_candidate-write_candidate c s {s'} h =
      let (value, json, put, made) = written_candidate c s h in
      rw (new_candidate-uid c (candidate_json-valid c json))
        (rw (write_immutable-Holds s.candidates c json put) (rw (text_eq_refl c.uid)))

  -- A tracked candidate is immutable: a second write under its uid is silent or refused.
  pub write_candidate_held :
      (c c' : UpdateCandidate) (s : Store) {s' : Store}
      → write_candidate p c s ≡ ok s'
      → new_candidate p c' ≡ ok c'
      → c'.uid ≡ c.uid
      → write_candidate p c' s'
        ≡ (if candidate_evidence_matches c c' then ok s' else err file_exists)
  unfolding write_candidate candidate_json
  write_candidate_held c c' s {s'} h valid same_uid =
      let (value, json, put, made) = written_candidate c s h in
      let held = write_immutable-Holds s.candidates c json put in
      let json' : candidate_json p c' ≡ ok (object (candidate_fields c')) = rw valid in
      rw (new_candidate-uid c' valid, valid, made)
        (rw (write_immutable_held s'.candidates c c' held json' same_uid) (ground arith))
