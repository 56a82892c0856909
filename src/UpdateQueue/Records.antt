-- ===== src/UpdateQueue/Records.antt =====
-- rightmemory/update_queue.py: the record classes. A class called with its fields checks them in
-- `__post_init__` and raises or returns the record: that call is the function `new` of the class.
pub mod Sound
use right_memory.Common.{
  ℕ, String, Bool, true, false, Option, none, some, List, [], ◌∷◌, Text, if◌then◌else◌, Result, ok,
  err, require, ◌>>=◌, ◌>>◌,
}
use right_memory.Common.Json.{ℤ, Json}
use right_memory.UpdateQueue.Formats.{
  QueueError, format_error, IsoTime, is_reason_code, require_uid, require_uid_tuple, require_oid,
  require_sha256, require_batch_id, require_session_id, require_nonempty_string,
  require_positive_int, require_nonnegative_int, require_utc_time,
}

-- What the module takes from the interpreter: the reading of ISO times, the SHA-256 digests in hex
-- of a JSON value as the module writes it to a file and in its compact form, and whether a process
-- lives.
pub record Platform : Type 0 where
  pub utc_iso : Text → IsoTime
  pub sha256_hex : Json → Text
  pub sha256_canonical : Json → Text
  pub process_exists : ℕ → Bool

pub record UpdateCandidate : Type 0 where
  pub uid : Text
  pub session_id : Text
  pub display_id : ℤ
  pub message : Text
  pub submitted_at : Text

pub record UpdateQueueLease : Type 0 where
  pub holder : Text
  pub token : Text
  pub base_commit : Text
  pub batch_id : Text
  pub candidate_uids : List Text
  pub expires_at : Text

pub record UpdateQueueRecovery : Type 0 where
  pub batch_id : Text
  pub candidate_uids : List Text
  pub attempts : ℤ
  pub reason_code : Text
  pub retry_at : Option Text
  pub manual_recovery : Bool

pub record PublicationMarker : Type 0 where
  pub candidate_uid : Text
  pub attempt_id : Text
  pub attempted_at : Text
  pub candidate_sha256 : Text
  pub proposed_commit : Option Text

module _ (p : Platform) where
  unfoldable pub new_candidate : UpdateCandidate → Result QueueError UpdateCandidate
  new_candidate c = do
    require_uid "candidate uid" c.uid
    require_session_id c.session_id
    require_positive_int "candidate display_id" c.display_id
    require_nonempty_string "candidate message" c.message
    require_utc_time p.utc_iso "candidate submitted_at" c.submitted_at
    ok c

  unfoldable pub new_lease : UpdateQueueLease → Result QueueError UpdateQueueLease
  new_lease l = do
    require_uid "lease holder" l.holder
    require_uid "lease token" l.token
    require_oid "lease base_commit" l.base_commit
    require_batch_id l.batch_id
    uids ← require_uid_tuple "lease candidate_uids" l.candidate_uids
    require_utc_time p.utc_iso "lease expires_at" l.expires_at
    ok (record l { candidate_uids = uids })

  -- The retry time of a recovery: none under manual recovery, and a canonical one otherwise.
  unfoldable pub require_retry_at : Bool → Option Text → Result QueueError (Unit {0})
  require_retry_at true none = ok tt
  require_retry_at true (some t) = err (format_error "manual recovery" "must not contain retry_at")
  require_retry_at false none = err (format_error "automatic recovery" "requires retry_at")
  require_retry_at false (some t) = do require_utc_time p.utc_iso "recovery retry_at" t; ok tt

  unfoldable pub new_recovery : UpdateQueueRecovery → Result QueueError UpdateQueueRecovery
  unfolding require_retry_at
  new_recovery r = do
    require_batch_id r.batch_id
    uids ← require_uid_tuple "recovery candidate_uids" r.candidate_uids
    require_nonnegative_int "recovery attempts" r.attempts
    require (is_reason_code r.reason_code)
        (format_error "recovery reason_code" "must be a lowercase machine-readable code")
    require_retry_at r.manual_recovery r.retry_at
    ok (record r { candidate_uids = uids })

  -- `if self.proposed_commit is not None`
  unfoldable pub require_proposed_commit : Option Text → Result QueueError (Unit {0})
  require_proposed_commit none = ok tt
  require_proposed_commit (some commit) = do require_oid "publication proposed_commit" commit; ok tt

  unfoldable pub new_marker : PublicationMarker → Result QueueError PublicationMarker
  unfolding require_proposed_commit
  new_marker m = do
    require_uid "publication candidate_uid" m.candidate_uid
    require_uid "publication attempt_id" m.attempt_id
    require_utc_time p.utc_iso "publication attempted_at" m.attempted_at
    require_sha256 "publication candidate_sha256" m.candidate_sha256
    require_proposed_commit m.proposed_commit
    ok m

pub record UpdateQueueSnapshot : Type 0 where
  pub candidates : List UpdateCandidate
  pub lease : Option UpdateQueueLease
  pub recoveries : List UpdateQueueRecovery

abbrev pub empty_snapshot : UpdateQueueSnapshot
empty_snapshot = record { candidates = []; lease = none; recoveries = [] }
