-- ===== src/UpdateQueue/Inspect.antt =====
-- `_inspect_update_queue` of rightmemory/update_queue.py: the records of the queue, and the checks of
-- how they refer to one another. The code sorts the messages at the end and drops repeated ones.
pub mod Sound
use right_memory.Common.{
  String, Bool, true, false, not, ◌&&◌, ◌||◌, Option, none, some, List, [], ◌∷◌, ◌++◌, map, Text,
  codes, text_eq, text_in, all, any, if◌then◌else◌, sorted_set, Result, ok, err, traverse, ◌>>=◌,
  ◌>>◌,
}
use right_memory.Common.Json.{Json}
use right_memory.UpdateQueue.Formats.{QueueError, texts_eq, key_error, overflow_error}
use right_memory.UpdateQueue.Records.{
  Platform, UpdateCandidate, UpdateQueueLease, UpdateQueueRecovery, UpdateQueueSnapshot,
}
use right_memory.UpdateQueue.Codec.{parse_candidate, parse_lease, parse_recovery}
use right_memory.UpdateQueue.Disk.{
  Node, regular, link, subfolder, Entries, Folder, absent, occupied, directory, find, json_name,
  read_record,
}
use right_memory.UpdateQueue.Store.{Store, lease_name}
use right_memory.UpdateQueue.Batch.{update_candidate_batch_id}

pub data Diagnostic : Type 0 where
  must_be_directory : Text → Diagnostic
  unexpected_path : Text → Diagnostic
  must_be_regular : Text → Diagnostic
  bad_record : Text → QueueError → Diagnostic
  name_mismatch : Text → Diagnostic
  missing_candidates : Text → List Text → Diagnostic
  batch_id_mismatch : Text → Diagnostic
  owned_twice : Text → Text → Text → Diagnostic
  lease_conflict : List Text → Diagnostic
  lease_differs : Diagnostic

unfoldable pub names_of : Entries → List Text
names_of [] = []
names_of ((name, node) ∷ es) = name ∷ names_of es

-- What the inspection catches: OSError, UnicodeError, JSONDecodeError and UpdateQueueFormatError. The
-- OverflowError of a time and a KeyError leave it.
unfoldable pub is_caught : QueueError → Bool
is_caught overflow_error = false
is_caught (key_error label) = false
is_caught e = true

-- One path of `_inspect_record_directory`: a record, or a diagnostic.
module _ {A : Type 0} (parser : Json → Result QueueError A) (expected_name : A → Text) where
  check_name : Text → Result QueueError A → Result QueueError (List A × List Diagnostic)
  unfolding is_caught
  check_name name (err e) = if is_caught e then ok ([], bad_record name e ∷ []) else err e
  check_name name (ok r) =
      ok (if text_eq name (expected_name r) then (r ∷ [], []) else ([], name_mismatch name ∷ []))

  inspect_node : Text → Option Node → Result QueueError (List A × List Diagnostic)
  inspect_node name (some (regular raw)) = check_name name (read_record (regular raw) parser)
  inspect_node name other = ok ([], must_be_regular name ∷ [])

  inspect_names : Entries → List Text → Result QueueError (List A × List Diagnostic)
  inspect_names es [] = ok ([], [])
  inspect_names es (name ∷ names) = do
    first ← inspect_node name (find name es)
    others ← inspect_names es names
    ok (first.0 ++ others.0, first.1 ++ others.1)

  unfoldable pub inspect_record_directory :
      Text → Folder → Result QueueError (List A × List Diagnostic)
  unfolding check_name inspect_node inspect_names names_of
  inspect_record_directory label absent = ok ([], [])
  inspect_record_directory label occupied = ok ([], must_be_directory label ∷ [])
  inspect_record_directory label (directory true es) = ok ([], must_be_directory label ∷ [])
  inspect_record_directory label (directory false es) = inspect_names es (sorted_set (names_of es))

-- `set(uids) - candidate_uids`
unfoldable pub missing_from : List Text → List Text → List Text
missing_from known [] = []
missing_from known (u ∷ us) =
    let rest = missing_from known us in if text_in u known then rest else u ∷ rest

-- `by_uid[uid]`; a uid is that of one file, so of one candidate.
unfoldable pub by_uid : List UpdateCandidate → Text → Result QueueError UpdateCandidate
by_uid [] uid = err (key_error "uid")
by_uid (c ∷ cs) uid = if text_eq c.uid uid then ok c else by_uid cs uid

unfoldable pub uids_of : List UpdateCandidate → List Text
uids_of cs = map (λ (c : UpdateCandidate). c.uid) cs

module _ (p : Platform) (cs : List UpdateCandidate) where
  -- The members of a batch are there, and give its id.
  identity_errors : Text → Text → List Text → Result QueueError (List Diagnostic)
  identity_errors path batch_id uids = do
    members ← traverse (by_uid cs) uids
    actual ← update_candidate_batch_id p members
    ok (if text_eq actual batch_id then [] else batch_id_mismatch path ∷ [])

  unfoldable pub member_errors : Text → Text → List Text → Result QueueError (List Diagnostic)
  unfolding identity_errors
  member_errors path batch_id uids = elim (sorted_set (missing_from (uids_of cs) uids)) [
    | [] ↦ identity_errors path batch_id uids
    | u ∷ us ↦ ok (missing_candidates path (u ∷ us) ∷ [])
  ]

  unfoldable pub lease_member_errors : Option UpdateQueueLease → Result QueueError (List Diagnostic)
  lease_member_errors none = ok []
  lease_member_errors (some l) = member_errors lease_name l.batch_id l.candidate_uids

  unfoldable pub recovery_member_errors :
      List UpdateQueueRecovery → Result QueueError (List Diagnostic)
  recovery_member_errors [] = ok []
  recovery_member_errors (r ∷ rs) = do
    ds ← member_errors (json_name r.batch_id) r.batch_id r.candidate_uids
    ds' ← recovery_member_errors rs
    ok (ds ++ ds')

-- `recovery_owners`, the batch that owns a candidate.
abbrev pub Owners : Type 0
Owners = List (Text × Text)

unfoldable pub owner : Text → Owners → Option Text
owner uid [] = none
owner uid ((u, batch) ∷ os) = if text_eq u uid then some batch else owner uid os

-- `previous = recovery_owners.setdefault(uid, batch_id)`, and the test of it
conflict : Text → Text → Option Text → List Diagnostic
conflict batch uid none = []
conflict batch uid (some previous) =
    if text_eq previous batch then [] else owned_twice batch uid previous ∷ []

claim : Text → Text → Option Text → Owners → Owners
claim batch uid none os = (uid, batch) ∷ os
claim batch uid (some previous) os = os

unfoldable pub own_uids : Text → List Text → Owners → Owners × List Diagnostic
unfolding owner conflict claim
own_uids batch [] os = (os, [])
own_uids batch (u ∷ us) os =
    let (os', ds) = own_uids batch us (claim batch u (owner u os) os) in
    (os', conflict batch u (owner u os) ++ ds)

unfoldable pub own_recoveries : List UpdateQueueRecovery → Owners → Owners × List Diagnostic
unfolding own_uids
own_recoveries [] os = (os, [])
own_recoveries (r ∷ rs) os =
    let (os', ds) = own_uids r.batch_id r.candidate_uids os in
    let (os'', ds') = own_recoveries rs os' in (os'', ds ++ ds')

-- The batches, other than the lease's, that own a candidate of the lease.
foreign : Text → Option Text → List Text
foreign batch none = []
foreign batch (some other) = if text_eq other batch then [] else other ∷ []

unfoldable pub overlap_batches : Text → List Text → Owners → List Text
unfolding foreign owner
overlap_batches batch [] os = []
overlap_batches batch (u ∷ us) os = foreign batch (owner u os) ++ overlap_batches batch us os

unfoldable pub same_recovery : Text → List UpdateQueueRecovery → Option UpdateQueueRecovery
same_recovery batch [] = none
same_recovery batch (r ∷ rs) = if text_eq r.batch_id batch then some r else same_recovery batch rs

overlap_errors : List Text → List Diagnostic
overlap_errors [] = []
overlap_errors (b ∷ bs) = lease_conflict (sorted_set (b ∷ bs)) ∷ []

membership_errors : List Text → Option UpdateQueueRecovery → List Diagnostic
membership_errors uids none = []
membership_errors uids (some r) = if texts_eq r.candidate_uids uids then [] else lease_differs ∷ []

unfoldable pub lease_recovery_errors :
    Option UpdateQueueLease → List UpdateQueueRecovery → Owners → List Diagnostic
unfolding overlap_batches overlap_errors same_recovery membership_errors
lease_recovery_errors none rs os = []
lease_recovery_errors (some l) rs os =
    overlap_errors (overlap_batches l.batch_id l.candidate_uids os)
    ++ membership_errors l.candidate_uids (same_recovery l.batch_id rs)

-- The checks across records, in the order of the code.
unfoldable pub link_errors :
    Platform
    → List UpdateCandidate
    → Option UpdateQueueLease
    → List UpdateQueueRecovery
    → Result QueueError (List Diagnostic)
unfolding own_recoveries
link_errors p cs lease rs = do
  leased ← lease_member_errors p cs lease
  members ← recovery_member_errors p cs rs
  let (owners, doubled) = own_recoveries rs []
  ok (leased ++ members ++ doubled ++ lease_recovery_errors lease rs owners)

-- The lease file.
lease_outcome :
    Result QueueError UpdateQueueLease
    → Result QueueError (Option UpdateQueueLease × List Diagnostic)
unfolding is_caught
lease_outcome (ok l) = ok (some l, [])
lease_outcome (err e) = if is_caught e then ok (none, bad_record lease_name e ∷ []) else err e

unfoldable pub inspect_lease :
    Platform → Option Node → Result QueueError (Option UpdateQueueLease × List Diagnostic)
unfolding lease_outcome
inspect_lease p none = ok (none, [])
inspect_lease p (some (regular raw)) = lease_outcome (read_record (regular raw) (parse_lease p))
inspect_lease p (some node) = ok (none, must_be_regular lease_name ∷ [])

-- What else lies in the folder of the queue.
unfoldable pub unexpected : List Text → List Diagnostic
unexpected [] = []
unexpected (name ∷ names) =
    let rest = unexpected names in
    if text_eq name lease_name then rest else unexpected_path name ∷ rest

snapshot_of :
    List UpdateCandidate → Option UpdateQueueLease → List UpdateQueueRecovery → UpdateQueueSnapshot
snapshot_of cs lease rs = record { candidates = cs; lease = lease; recoveries = rs }

inspect_entries :
    Platform → Entries → Store → Result QueueError (UpdateQueueSnapshot × List Diagnostic)
inspect_entries p es s = do
  candidates ←
      inspect_record_directory (parse_candidate p) (λ c. json_name c.uid) (codes "candidates")
        s.candidates
  recoveries ←
      inspect_record_directory (parse_recovery p) (λ r. json_name r.batch_id) (codes "recovery")
        s.recovery
  leased ← inspect_lease p (find lease_name es)
  let (cs, ds) = candidates
  let (rs, ds') = recoveries
  let (lease, ds'') = leased
  links ← link_errors p cs lease rs
  ok (snapshot_of cs lease rs, unexpected (sorted_set (names_of es)) ++ ds ++ ds' ++ ds'' ++ links)

unfoldable pub inspect_update_queue :
    Platform → Store → Result QueueError (UpdateQueueSnapshot × List Diagnostic)
unfolding snapshot_of inspect_entries inspect_record_directory inspect_lease link_errors unexpected
inspect_update_queue p s = elim s.queue_files [
  | absent ↦ ok (snapshot_of [] none [], [])
  | occupied ↦ ok (snapshot_of [] none [], must_be_directory (codes "update_queue") ∷ [])
  | directory linked es ↦
      if linked
      then ok (snapshot_of [] none [], must_be_directory (codes "update_queue") ∷ [])
      else inspect_entries p es s
]
