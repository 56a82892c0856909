-- ===== src/UpdateQueue/Entry.antt =====
-- The functions of rightmemory/update_queue.py that other modules call: reports and texts of records.
use right_memory.Common.{List, [], ◌∷◌, Option, Result, ok, err, ◌>>=◌}
use right_memory.Common.Json.{Json}
use right_memory.UpdateQueue.Formats.{QueueError, diagnostics}
use right_memory.UpdateQueue.Records.{
  Platform, UpdateCandidate, UpdateQueueLease, UpdateQueueSnapshot,
}
use right_memory.UpdateQueue.Codec.{candidate_json, parse_candidate, parse_lease}
use right_memory.UpdateQueue.Codec.Loads.{loads_json}
use right_memory.UpdateQueue.Inspect.{Diagnostic, inspect_update_queue}
use right_memory.UpdateQueue.Store.{Store}

unfoldable pub without_errors :
    UpdateQueueSnapshot → List Diagnostic → Result QueueError UpdateQueueSnapshot
without_errors snapshot [] = ok snapshot
without_errors snapshot (error ∷ errors) = err diagnostics

module _ (p : Platform) where
  -- `UpdateQueueStore.snapshot`
  unfoldable pub read_snapshot : Store → Result QueueError UpdateQueueSnapshot
  unfolding without_errors
  read_snapshot s = do found ← inspect_update_queue p s; without_errors found.0 found.1

  unfoldable pub validate_update_queue : Store → Result QueueError (List Diagnostic)
  validate_update_queue s = do found ← inspect_update_queue p s; ok found.1

  -- The text as the json module decodes it
  unfoldable pub parse_update_candidate_json : Option Json → Result QueueError UpdateCandidate
  parse_update_candidate_json raw = do value ← loads_json raw; parse_candidate p value

  abbrev pub parse_update_candidate_data : Json → Result QueueError UpdateCandidate
  parse_update_candidate_data value = parse_candidate p value

  abbrev pub update_candidate_data : UpdateCandidate → Result QueueError Json
  update_candidate_data candidate = candidate_json p candidate

  unfoldable pub parse_update_queue_lease_json : Option Json → Result QueueError UpdateQueueLease
  parse_update_queue_lease_json raw = do value ← loads_json raw; parse_lease p value
