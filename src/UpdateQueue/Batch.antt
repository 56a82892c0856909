-- ===== src/UpdateQueue/Batch.antt =====
-- `update_candidate_batch_id` of rightmemory/update_queue.py: the identity of a batch, from the
-- evidence of its candidates grouped by session.
use right_memory.Common.{
  Bool, true, false, List, [], ◌∷◌, ◌++◌, map, Text, codes, text_eq, text_ltb, ltb, if◌then◌else◌,
  sorted_set, Result, ok, err, traverse, ◌>>=◌,
}
use right_memory.Common.Json.{
  ℤ, pos, negsuc, Json, string, integer, array, object, Items, nil, cons, end, field,
}
use right_memory.UpdateQueue.Formats.{QueueError, format_error}
use right_memory.UpdateQueue.Records.{Platform, UpdateCandidate, new_candidate}

unfoldable pub int_ltb : ℤ → ℤ → Bool
int_ltb (pos a) (pos b) = ltb a b
int_ltb (pos a) (negsuc b) = false
int_ltb (negsuc a) (pos b) = true
int_ltb (negsuc a) (negsuc b) = ltb b a

-- The order of the jobs of a session: by display id, then by time, then by uid.
unfoldable pub job_before : UpdateCandidate → UpdateCandidate → Bool
unfolding int_ltb
job_before a b =
    if int_ltb a.display_id b.display_id
    then true
    else if int_ltb b.display_id a.display_id
    then false
    else if text_ltb a.submitted_at b.submitted_at
    then true
    else if text_ltb b.submitted_at a.submitted_at
    then false
    else text_ltb a.uid b.uid

-- `sorted` is stable: an element goes behind those that are not after it.
unfoldable pub insert_job : UpdateCandidate → List UpdateCandidate → List UpdateCandidate
insert_job c [] = c ∷ []
insert_job c (d ∷ ds) =
    let rest = insert_job c ds in if job_before d c then d ∷ rest else c ∷ d ∷ ds

unfoldable pub sort_jobs : List UpdateCandidate → List UpdateCandidate
unfolding insert_job
sort_jobs [] = []
sort_jobs (c ∷ cs) = insert_job c (sort_jobs cs)

unfoldable pub of_session : Text → List UpdateCandidate → List UpdateCandidate
of_session session [] = []
of_session session (c ∷ cs) =
    let rest = of_session session cs in if text_eq c.session_id session then c ∷ rest else rest

-- The keys of the objects are in the order of `sort_keys=True`.
job_json : UpdateCandidate → Json
job_json c = object (
    field "candidate_uid" (string c.uid) (
      field "id" (integer c.display_id)
        (field "message" (string c.message) (field "submitted_at" (string c.submitted_at) end))))

jobs_json : List UpdateCandidate → Items
jobs_json [] = nil
jobs_json (c ∷ cs) = cons (job_json c) (jobs_json cs)

participants : List UpdateCandidate → List Text → Items
participants cs [] = nil
participants cs (session ∷ sessions) =
    cons
      (object (
        field "jobs" (array (jobs_json (sort_jobs (of_session session cs))))
          (field "session_id" (string session) end)))
      (participants cs sessions)

unfoldable pub batch_json : List UpdateCandidate → Json
unfolding sort_jobs of_session job_json jobs_json participants
batch_json cs = array (participants cs (sorted_set (map (λ c. c.session_id) cs)))

unfoldable pub update_candidate_batch_id : Platform → List UpdateCandidate → Result QueueError Text
update_candidate_batch_id p [] = err (format_error "candidate batch" "must not be empty")
update_candidate_batch_id p (c ∷ cs) = do
  valid ← traverse (new_candidate p) (c ∷ cs)
  ok (codes "update-batch-" ++ p.sha256_canonical (batch_json valid))
