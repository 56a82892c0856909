-- ===== src/Tests/Insights.antt =====
-- The insight trigger with natural numbers for the points.
use right_memory.Common.Json.{texts}
use right_memory.Insight.{
  fields_state, json_active, json_active_points, json_ids, json_points, json_result, json_time,
  last_value, state_from_json,
}
use right_memory.Common.{lstrip}
use right_memory.Insight.{distinct}
use right_memory.Insight.Store.{recover}
use right_memory.Common.{is_space, strip, text_eq, traverse}
use right_memory.Insight.{
  nonnegative_finite, operation_id, operation_ids, optional_operation_id, optional_points,
  optional_time,
}
use right_memory.Common.{
  ℕ, ◌≡◌, refl, true, false, not, Option, none, some, [], ◌∷◌, codes, leb, ◌==◌, ◌+◌, ◌-◌, ok,
}
use right_memory.Common.Json.{Json, integer, pos, object, end}
use right_memory.Insight.{
  Platform, InsightTriggerState, no_file, file_text, state_json, state_of, Disk, positive_finite,
  optional_result, validate_state,
}
use right_memory.Insight.Store.{
  write_state, read_state, read_file, apply_once, increment_once, claim_operation,
  complete_operation, complete_read, is_active, claimed_amount,
}
use right_memory.Insight.{state_from_json}
use right_memory.Insight.Sound.{state_from_json-state_json}
use right_memory.Insight.Store.Laws.{increment_once-increment_once}
use right_memory.Insight.Store.Claims.{
  claim_operation-claim_operation, complete_operation-complete_operation,
}
use right_memory.Insight.Store.Keeps.{
  reach_start, reach_step, claim_step, IsReadable, text_readable, Reach-IsReadable,
}

abbrev counting_float : Json → Option ℕ
counting_float (integer (pos n)) = some n
counting_float v = none

abbrev counting : Platform
counting = record {
  Number = ℕ;
  zero_points = 0;
  add = λ a b. a + b;
  sub = λ a b. a - b;
  less = λ a b. not (leb b a);
  is_finite = λ a. true;
  is_zero = λ a. a == 0;
  as_float = counting_float;
  as_json = λ n. integer (pos n);
  is_iso_time = λ t. true;
  as_float-as_json = λ n h. refl;
  as_float-null = refl;
}

abbrev fresh_disk : Disk counting
fresh_disk = record { file = no_file; backups = 0 }

abbrev counted : InsightTriggerState counting
counted = record {
  points = 5;
  updated_at = some (codes "t1");
  last_successful_insight_at = none;
  last_successful_insight_result = none;
  last_recovery_at = none;
  applied_operation_ids = codes "op" ∷ [];
  active_operation_id = none;
  active_operation_points = none;
}

abbrev counted_disk : Disk counting
counted_disk = record { file = file_text (some (state_json counting counted)); backups = 0 }

increment_run :
    increment_once counting (codes "op") 5 (codes "t1") fresh_disk ≡ (ok counted, counted_disk)
unfolding increment_once operation_id text_eq strip is_space positive_finite read_state apply_once
    validate_state nonnegative_finite optional_time optional_result operation_ids traverse
    optional_operation_id optional_points
increment_run = refl

increment_once_example :
    increment_once counting (codes "op") 7 (codes "t2") counted_disk ≡ (ok counted, counted_disk)
unfolding positive_finite
increment_once_example =
    increment_once-increment_once counting (codes "op") 5 7 (codes "t1") (codes "t2") fresh_disk
      increment_run refl

counted_read : state_of counting (some (state_json counting counted)) ≡ ok counted
unfolding state_of state_json json_points nonnegative_finite json_time optional_time json_result
    optional_result json_ids texts operation_ids traverse operation_id text_eq strip is_space
    json_active optional_operation_id lstrip distinct fields_state json_active_points last_value
    positive_finite state_from_json
counted_read = refl

abbrev claimed : InsightTriggerState counting
claimed = record counted {
  updated_at = some (codes "t3");
  active_operation_id = some (codes "insight-watch-f");
  active_operation_points = some 4;
}

abbrev claimed_disk : Disk counting
claimed_disk = record { file = file_text (some (state_json counting claimed)); backups = 0 }

claim_run :
    claim_operation counting 4 (codes "t3") (codes "f") counted_disk
    ≡ (ok (some (codes "insight-watch-f")), claimed_disk)
unfolding claim_operation positive_finite read_state validate_state nonnegative_finite optional_time
    optional_result operation_ids traverse operation_id text_eq strip is_space optional_operation_id
    optional_points state_of state_json json_points json_time json_result json_ids texts json_active
    json_active_points
claim_run = refl

claim_operation_example :
    claim_operation counting 9 (codes "t4") (codes "g") claimed_disk
    ≡ (ok (some (codes "insight-watch-f")), claimed_disk)
unfolding positive_finite
claim_operation_example =
    claim_operation-claim_operation counting 4 9 (codes "t3") (codes "f") (codes "t4") (codes "g")
      counted_disk claim_run refl

abbrev completed : InsightTriggerState counting
completed = record counted {
  points = 1;
  updated_at = some (codes "t5");
  last_successful_insight_at = some (codes "t5");
  last_successful_insight_result = some (codes "noop");
}

abbrev completed_disk : Disk counting
completed_disk = record { file = file_text (some (state_json counting completed)); backups = 0 }

complete_run :
    complete_operation counting
      (codes "insight-watch-f")
      9
      (some (codes "noop"))
      (codes "t5")
      claimed_disk
    ≡ (ok true, completed_disk)
unfolding complete_operation operation_id text_eq strip is_space positive_finite optional_result
    read_state is_active claimed_amount validate_state nonnegative_finite optional_time
    operation_ids traverse optional_operation_id optional_points lstrip complete_read read_file
    recover write_state distinct state_of state_json json_points json_time json_result json_ids
    texts json_active json_active_points
complete_run = refl

complete_operation_example :
    complete_operation counting (codes "insight-watch-f") 3 none (codes "t6") completed_disk
    ≡ (ok false, completed_disk)
unfolding positive_finite optional_result
complete_operation_example =
    complete_operation-complete_operation counting (codes "insight-watch-f") 9 3
      (some (codes "noop")) none (codes "t5") (codes "t6") claimed_disk complete_run refl refl

-- A claim, where the file holds what an increment has written.
reach_example :
    IsReadable counting (claim_operation counting 4 (codes "t3") (codes "f") counted_disk).1.file
    × ((claim_operation counting 4 (codes "t3") (codes "f") counted_disk).1.backups ≡ 0)
reach_example =
    Reach-IsReadable counting
      (reach_step (claim_step 4 (codes "t3") (codes "f") counted_disk) reach_start)
      (text_readable _ counted counted_read)

-- An object without points is no state: the file is moved aside, and the balance is empty.
recover_run :
    (read_state counting
      (codes "t1")
      (record { file = file_text (some (object end)); backups = 0 })).1.backups
    ≡ 1
unfolding read_state state_of json_points validate_state nonnegative_finite optional_time
    optional_result operation_ids traverse optional_operation_id optional_points
recover_run = refl

counted_valid : validate_state counting counted ≡ ok tt
unfolding validate_state nonnegative_finite optional_time optional_result operation_ids traverse
    operation_id text_eq strip is_space optional_operation_id optional_points
counted_valid = refl

-- The state after the increment, through its written form
written_example : state_from_json counting (state_json counting counted) ≡ ok counted
written_example = state_from_json-state_json counting counted counted_valid
