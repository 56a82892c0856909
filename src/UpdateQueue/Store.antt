-- ===== src/UpdateQueue/Store.antt =====
-- `UpdateQueueStore` of rightmemory/update_queue.py. A method that only reads returns its result or
-- the exception; a method that writes returns the new store beside its result.
-- The `.gitignore` that `_ensure_runtime_gitignore` writes is left out, and so are texts with lone
-- surrogates, which cannot be encoded.
pub mod Immutable
pub mod Publication
pub mod States
use right_memory.Common.{
  ◌≡◌, Bool, true, false, ◌&&◌, Option, none, some, List, [], ◌∷◌, Text, codes, text_eq, ◌==◌,
  if◌then◌else◌, Result, ok, err, require, ◌>>=◌, ◌>>◌,
}
use right_memory.Common.Json.{ℤ, Json, pos, negsuc}
use right_memory.UpdateQueue.Formats.{
  QueueError, format_error, file_not_found, os_error, require_uid, require_oid, require_batch_id,
  texts_eq,
}
use right_memory.UpdateQueue.Records.{
  Platform, UpdateCandidate, UpdateQueueLease, UpdateQueueRecovery, PublicationMarker, new_marker,
}
use right_memory.UpdateQueue.Codec.{
  candidate_json, lease_json, recovery_json, publication_json, parse_candidate, parse_lease,
  parse_recovery, parse_publication_marker,
}
use right_memory.UpdateQueue.Disk.{
  Node, Folder, absent, occupied, directory, Entries, json_name, node_at, read_record, write_json,
  write_immutable, unlink,
}

-- `queue_files` is the folder `update_queue` less its two folders of records, which stand beside
-- it: the lease, and whatever else lies there.
pub record Store : Type 0 where
  pub queue_files : Folder
  pub candidates : Folder
  pub recovery : Folder
  pub outbox : Folder
  pub publication : Folder

abbrev pub lease_name : Text
lease_name = json_name (codes "lease")

-- `==` of two candidates
unfoldable pub int_eq : ℤ → ℤ → Bool
int_eq (pos a) (pos b) = a == b
int_eq (negsuc a) (negsuc b) = a == b
int_eq a b = false

unfoldable pub candidate_evidence_matches : UpdateCandidate → UpdateCandidate → Bool
unfolding int_eq
candidate_evidence_matches left right =
    text_eq left.uid right.uid
    && text_eq left.session_id right.session_id
    && int_eq left.display_id right.display_id
    && text_eq left.message right.message
    && text_eq left.submitted_at right.submitted_at

-- A folder of records, made below `update_queue`, which is made first.
unfoldable pub make_queue : Folder → Result QueueError Folder
make_queue absent = ok (directory false [])
make_queue occupied = err os_error
make_queue (directory linked es) = ok (directory linked es)

-- The record at a path, read by its parser: none if the path is free.
unfoldable pub read_at :
    {A : Type 0} → Folder → Text → (Json → Result QueueError A) → Result QueueError (Option A)
read_at folder stem parser = elim (node_at folder (json_name stem)) [
  | none ↦ ok none
  | some node ↦ do record_ ← read_record node parser; ok (some record_)
]

-- A record that was read must carry the uid of its file's name.
unfoldable pub named : {A : Type 0} → (A → Text) → Text → Option A → Result QueueError (Option A)
named identity uid none = ok none
named identity uid (some r) =
    if text_eq (identity r) uid
    then ok (some r)
    else err (format_error "filename" "does not match the embedded uid")

module _ (p : Platform) where
  unfoldable pub write_candidate : UpdateCandidate → Store → Result QueueError Store
  unfolding make_queue
  write_candidate c s = do
    uid ← require_uid "candidate uid" c.uid
    value ← candidate_json p c
    queue ← make_queue s.queue_files
    folder ←
        write_immutable s.candidates (json_name uid) value (parse_candidate p)
          candidate_evidence_matches
    ok (record s { queue_files = queue; candidates = folder })

  unfoldable pub read_candidate : Text → Store → Result QueueError (Option UpdateCandidate)
  unfolding read_at named
  read_candidate uid s = do
    clean ← require_uid "candidate uid" uid
    found ← read_at s.candidates clean (parse_candidate p)
    named (λ c. c.uid) clean found

  unfoldable pub remove_candidate : Text → Store → Result QueueError Store
  remove_candidate uid s = do
    clean ← require_uid "candidate uid" uid
    folder ← unlink s.candidates (json_name clean)
    ok (record s { candidates = folder })

  unfoldable pub write_lease : UpdateQueueLease → Store → Result QueueError Store
  write_lease l s = do
    value ← lease_json p l
    folder ← write_json s.queue_files lease_name value
    ok (record s { queue_files = folder })

  unfoldable pub remove_lease : Store → Result QueueError Store
  remove_lease s = do
    folder ← unlink s.queue_files lease_name
    ok (record s { queue_files = folder })

  -- The members of a batch never change: only its attempts and its state do.
  same_members : Option UpdateQueueRecovery → UpdateQueueRecovery → Bool
  same_members none r = true
  same_members (some existing) r = texts_eq existing.candidate_uids r.candidate_uids

  unfoldable pub write_recovery : UpdateQueueRecovery → Store → Result QueueError Store
  unfolding make_queue read_at same_members
  write_recovery r s = do
    batch ← require_batch_id r.batch_id
    existing ← read_at s.recovery batch (parse_recovery p)
    require (same_members existing r)
        (format_error "recovery candidate_uids" "cannot change for an existing batch")
    value ← recovery_json p r
    queue ← make_queue s.queue_files
    folder ← write_json s.recovery (json_name batch) value
    ok (record s { queue_files = queue; recovery = folder })

  unfoldable pub remove_recovery : Text → Store → Result QueueError Store
  remove_recovery batch_id s = do
    batch ← require_batch_id batch_id
    folder ← unlink s.recovery (json_name batch)
    ok (record s { recovery = folder })

  unfoldable pub write_outbox : UpdateCandidate → Store → Result QueueError Store
  write_outbox c s = do
    value ← candidate_json p c
    folder ←
        write_immutable s.outbox (json_name c.uid) value (parse_candidate p)
          candidate_evidence_matches
    ok (record s { outbox = folder })

  unfoldable pub read_outbox : Text → Store → Result QueueError (Option UpdateCandidate)
  unfolding read_at named
  read_outbox uid s = do
    clean ← require_uid "candidate uid" uid
    found ← read_at s.outbox clean (parse_candidate p)
    named (λ c. c.uid) clean found

  unfoldable pub remove_outbox : Text → Store → Result QueueError Store
  remove_outbox uid s = do
    clean ← require_uid "candidate uid" uid
    folder ← unlink s.outbox (json_name clean)
    ok (record s { outbox = folder })

  -- The digest of the bytes that are written for a candidate.
  unfoldable pub candidate_sha256 : UpdateCandidate → Result QueueError Text
  candidate_sha256 c = do value ← candidate_json p c; ok (p.sha256_hex value)

  unfoldable pub read_publication_marker :
      Text → Store → Result QueueError (Option PublicationMarker)
  unfolding read_at named
  read_publication_marker uid s = do
    clean ← require_uid "candidate uid" uid
    found ← read_at s.publication clean (parse_publication_marker p)
    named (λ m. m.candidate_uid) clean found

  -- `if record is None: raise FileNotFoundError`
  unfoldable pub present : {A : Type 0} → Option A → Result QueueError A
  present none = err file_not_found
  present (some a) = ok a

  -- `attempt_id or uuid.uuid4().hex`
  choose_attempt : Option Text → Text → Text
  choose_attempt none fresh = fresh
  choose_attempt (some []) fresh = fresh
  choose_attempt (some (c ∷ cs)) fresh = c ∷ cs

  -- The branch of `begin_publication` where a marker stands at the path.
  unfoldable pub resume_publication :
      UpdateCandidate → Store → Result QueueError (PublicationMarker × Store)
  unfolding present
  resume_publication c s = do
    found ← read_publication_marker c.uid s
    marker ← present found
    digest ← candidate_sha256 c
    require (text_eq marker.candidate_sha256 digest)
        (format_error "publication marker" "does not match its local candidate")
    ok (marker, s)

  -- The branch where the path is free.
  unfoldable pub start_publication :
      UpdateCandidate → Text → Text → Store → Result QueueError (PublicationMarker × Store)
  start_publication c attempted_at attempt_id s = do
    digest ← candidate_sha256 c
    marker ← new_marker p (record {
      candidate_uid = c.uid;
      attempt_id = attempt_id;
      attempted_at = attempted_at;
      candidate_sha256 = digest;
      proposed_commit = none;
    })
    value ← publication_json p marker
    folder ← write_json s.publication (json_name c.uid) value
    ok (marker, record s { publication = folder })

  -- `fresh` is the `uuid.uuid4().hex` of the call.
  unfoldable pub begin_publication :
      Text → Text → Option Text → Text → Store → Result QueueError (PublicationMarker × Store)
  unfolding present choose_attempt
  begin_publication uid attempted_at attempt_id fresh s = do
    found ← read_outbox uid s
    candidate ← present found
    elim (node_at s.publication (json_name candidate.uid)) [
      | none ↦ start_publication candidate attempted_at (choose_attempt attempt_id fresh) s
      | some node ↦ resume_publication candidate s
    ]

  unfoldable pub record_publication_commit :
      Text → Text → Store → Result QueueError (PublicationMarker × Store)
  unfolding present
  record_publication_commit uid commit s = do
    clean ← require_uid "candidate uid" uid
    require_oid "publication proposed_commit" commit
    found ← read_publication_marker clean s
    marker ← present found
    updated ← new_marker p (record marker { proposed_commit = some commit })
    value ← publication_json p updated
    folder ← write_json s.publication (json_name clean) value
    ok (updated, record s { publication = folder })

  unfoldable pub clear_publication_marker : Text → Store → Result QueueError Store
  clear_publication_marker uid s = do
    clean ← require_uid "candidate uid" uid
    folder ← unlink s.publication (json_name clean)
    ok (record s { publication = folder })

pub data PublicationState : Type 0 where
  missing never_attempted attempted : PublicationState

publication_state_of :
    {A B : Type 0} → Option A → Result QueueError (Option B) → Result QueueError PublicationState
publication_state_of (some marker) outbox = ok attempted
publication_state_of none outbox = do
  found ← outbox
  elim found [ none ↦ ok missing | some candidate ↦ ok never_attempted ]

unfoldable pub publication_state : Platform → Text → Store → Result QueueError PublicationState
unfolding publication_state_of
publication_state p uid s = do
  clean ← require_uid "candidate uid" uid
  marker ← read_publication_marker p clean s
  publication_state_of marker (read_outbox p clean s)
