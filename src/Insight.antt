-- ===== src/Insight.antt =====
-- rightmemory/insight_trigger.py: the points that accumulate towards an insight, and the operation that
-- spends them. Each public method runs under the lock of the file, so it is one step.
pub mod Sound
pub mod Store
use right_memory.Common.{
  ℕ, ◌≡◌, String, Bool, true, false, not, ◌&&◌, ◌||◌, Option, none, some, List, [], ◌∷◌, ◌++◌, Text,
  codes, text_eq, text_in, strip, any, all, ◌==◌, if◌then◌else◌, Result, ok, err, require, traverse,
  ◌>>=◌, ◌>>◌,
}
use right_memory.Common.Json.{
  Json, null, string, array, object, Items, nil, cons, Fields, end, field, texts,
}
use text.Mathlib.Text.{◌==◌ as str_eq}

-- What the module uses of Python's floats and of `datetime`: `as_float` is `float(value)` of a number
-- that is no `bool`, if it is one and does not overflow, and `as_json` the number that `json.dumps`
-- writes. A finite float is written by its `repr`, which reads back as the same float.
pub record Platform : Type 1 where
  pub Number : Type 0
  pub zero_points : Number
  pub add : Number → Number → Number
  pub sub : Number → Number → Number
  pub less : Number → Number → Bool
  pub is_finite : Number → Bool
  pub is_zero : Number → Bool
  pub as_float : Json → Option Number
  pub as_json : Number → Json
  pub is_iso_time : Text → Bool
  pub as_float-as_json : (n : Number) → is_finite n ≡ true → as_float (as_json n) ≡ some n
  pub as_float-null : as_float null ≡ none

pub data InsightError : Type 0 where
  value_error : String → InsightError
  runtime_error : InsightError

module _ (p : Platform) where
  open p use {
    Number, zero_points, add, sub, less, is_finite, is_zero, as_float, as_json, is_iso_time,
  }

  pub record InsightTriggerState : Type 0 where
    pub points : Number
    pub updated_at : Option Text
    pub last_successful_insight_at : Option Text
    pub last_successful_insight_result : Option Text
    pub last_recovery_at : Option Text
    pub applied_operation_ids : List Text
    pub active_operation_id : Option Text
    pub active_operation_points : Option Number

  abbrev pub initial : InsightTriggerState
  initial = record {
    points = zero_points;
    updated_at = none;
    last_successful_insight_at = none;
    last_successful_insight_result = none;
    last_recovery_at = none;
    applied_operation_ids = [];
    active_operation_id = none;
    active_operation_points = none;
  }

  -- `_finite_number` of a number, and its two forms
  unfoldable pub positive_finite : Number → String → Result InsightError Number
  positive_finite n label =
      if is_finite n && less zero_points n then ok n else err (value_error label)

  unfoldable pub nonnegative_finite : Number → String → Result InsightError Number
  nonnegative_finite n label =
      if is_finite n && not (less n zero_points) then ok n else err (value_error label)

  is_line_break : ℕ → Bool
  is_line_break c = c == 10 || c == 13

  unfoldable pub operation_id : Text → Result InsightError Text
  unfolding is_line_break
  operation_id value =
      if text_eq value [] || not (text_eq value (strip value)) || any is_line_break value
      then err (value_error "operation_id")
      else ok value

  unfoldable pub distinct : List Text → Bool
  distinct [] = true
  distinct (t ∷ ts) = not (text_in t ts) && distinct ts

  unfoldable pub operation_ids : List Text → Result InsightError (List Text)
  unfolding distinct
  operation_ids values = do
    ids ← traverse operation_id values
    if distinct ids then ok ids else err (value_error "applied_operation_ids")

  unfoldable pub optional_operation_id : Option Text → Result InsightError (Option Text)
  optional_operation_id none = ok none
  optional_operation_id (some value) = do clean ← operation_id value; ok (some clean)

  unfoldable pub optional_time : Option Text → String → Result InsightError (Option Text)
  optional_time none label = ok none
  optional_time (some t) label = if is_iso_time t then ok (some t) else err (value_error label)

  unfoldable pub optional_result : Option Text → Result InsightError (Option Text)
  optional_result none = ok none
  optional_result (some t) =
      if text_in t (codes "artifact" ∷ codes "noop" ∷ [])
      then ok (some t)
      else err (value_error "result")

  unfoldable pub optional_points : Option Number → Result InsightError (Option Number)
  optional_points none = ok none
  optional_points (some n) = do m ← positive_finite n "active_operation_points"; ok (some m)

  unfoldable pub validate_state : InsightTriggerState → Result InsightError (Unit {0})
  validate_state s = do
    nonnegative_finite s.points "points"
    optional_time s.updated_at "updated_at"
    optional_time s.last_successful_insight_at "last_successful_insight_at"
    optional_result s.last_successful_insight_result
    optional_time s.last_recovery_at "last_recovery_at"
    operation_ids s.applied_operation_ids
    optional_operation_id s.active_operation_id
    optional_points s.active_operation_points
    ok tt

  -- The value of a key, the last one if the text repeats it
  unfoldable pub last_value : String → Fields → Option Json
  last_value key end = none
  last_value key (field k v fs) = elim (last_value key fs) [
    | some w ↦ some w
    | none ↦ if str_eq k key then some v else none
  ]

  -- `data.get(key)`, where null and a missing key are alike
  get_value : Fields → String → Json
  unfolding last_value
  get_value fs key = elim (last_value key fs) [ none ↦ null | some v ↦ v ]

  as_number : Json → String → Result InsightError Number
  as_number v label = elim (as_float v) [ none ↦ err (value_error label) | some n ↦ ok n ]

  as_text : Json → String → Result InsightError (Option Text)
  as_text null label = ok none
  as_text (string t) label = ok (some t)
  as_text v label = err (value_error label)

  as_ids : Items → Result InsightError (List Text)
  as_ids nil = ok []
  as_ids (cons (string t) items) = do ts ← as_ids items; ok (t ∷ ts)
  as_ids (cons v items) = err (value_error "operation_id")

  -- `data.get("applied_operation_ids", [])`
  ids_value : Option Json → Result InsightError (List Text)
  ids_value none = ok []
  ids_value (some (array items)) = as_ids items
  ids_value (some v) = err (value_error "applied_operation_ids")

  unfoldable pub json_points : Json → Result InsightError Number
  unfolding as_number
  json_points v = do n ← as_number v "points"; nonnegative_finite n "points"

  unfoldable pub json_time : Json → String → Result InsightError (Option Text)
  unfolding as_text
  json_time v label = do t ← as_text v label; optional_time t label

  unfoldable pub json_result : Json → Result InsightError (Option Text)
  unfolding as_text
  json_result v = do t ← as_text v "result"; optional_result t

  unfoldable pub json_ids : Option Json → Result InsightError (List Text)
  unfolding ids_value as_ids
  json_ids v = do ts ← ids_value v; operation_ids ts

  unfoldable pub json_active : Json → Result InsightError (Option Text)
  unfolding as_text
  json_active v = do t ← as_text v "operation_id"; optional_operation_id t

  is_null : Json → Bool
  is_null null = true
  is_null v = false

  unfoldable pub json_active_points : Json → Result InsightError (Option Number)
  unfolding as_number is_null
  json_active_points v = if is_null v then ok none else do
    n ← as_number v "active_operation_points"
    m ← positive_finite n "active_operation_points"
    ok (some m)

  -- Each field is converted and checked in turn, in the order of the code.
  unfoldable pub fields_state : Fields → Result InsightError InsightTriggerState
  unfolding get_value last_value
  fields_state fs = do
    points ← json_points (get_value fs "points")
    updated_at ← json_time (get_value fs "updated_at") "updated_at"
    insight_at ← json_time (get_value fs "last_successful_insight_at") "last_successful_insight_at"
    result ← json_result (get_value fs "last_successful_insight_result")
    recovery_at ← json_time (get_value fs "last_recovery_at") "last_recovery_at"
    ids ← json_ids (last_value "applied_operation_ids" fs)
    active ← json_active (get_value fs "active_operation_id")
    active_points ← json_active_points (get_value fs "active_operation_points")
    ok record {
      points = points;
      updated_at = updated_at;
      last_successful_insight_at = insight_at;
      last_successful_insight_result = result;
      last_recovery_at = recovery_at;
      applied_operation_ids = ids;
      active_operation_id = active;
      active_operation_points = active_points;
    }

  unfoldable pub state_from_json : Json → Result InsightError InsightTriggerState
  unfolding fields_state
  state_from_json (object fs) = fields_state fs
  state_from_json data_ = err (value_error "insight trigger state")

  optional_text : Option Text → Json
  optional_text none = null
  optional_text (some t) = string t

  optional_number : Option Number → Json
  optional_number none = null
  optional_number (some n) = as_json n

  -- What `_write_locked` writes of a state: `asdict`, with its keys sorted
  unfoldable pub state_json : InsightTriggerState → Json
  unfolding optional_text optional_number
  state_json s = object (
      field "active_operation_id" (optional_text s.active_operation_id) (
        field "active_operation_points" (optional_number s.active_operation_points) (
          field "applied_operation_ids" (array (texts s.applied_operation_ids)) (
            field "last_recovery_at" (optional_text s.last_recovery_at) (
              field "last_successful_insight_at" (optional_text s.last_successful_insight_at) (
                field "last_successful_insight_result"
                  (optional_text s.last_successful_insight_result)
                  (field "points" (as_json s.points)
                    (field "updated_at" (optional_text s.updated_at) end))))))))

  -- A file as its text decodes: `json.loads` fails if there is no value.
  unfoldable pub state_of : Option Json → Result InsightError InsightTriggerState
  unfolding state_from_json
  state_of none = err (value_error "JSON")
  state_of (some v) = state_from_json v

  -- The state file: not there, or with a text, by the JSON value that the text has, if any. `backups`
  -- counts the corrupt files that were moved aside.
  pub data StateFile : Type 0 where
    no_file : StateFile
    file_text : Option Json → StateFile

  pub record Disk : Type 0 where
    pub file : StateFile
    pub backups : ℕ

  abbrev pub Exec : Type 0 → Type 0
  Exec A = Disk → Result InsightError A × Disk
