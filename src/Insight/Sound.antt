-- ===== src/Insight/Sound.antt =====
-- What `_write_locked` of rightmemory/insight_trigger.py writes of a valid state is read back by
-- `_state_from_json` as that state.
use right_memory.Common.{
  ◌≡◌, refl, String, true, false, Option, none, some, List, [], ◌∷◌, Text, ok, ok_injective,
  >>=-eq-ok, arith, traverse,
}
use right_memory.Common.Json.{
  Json, null, boolean, integer, real, constant, string, array, object, texts,
}
use right_memory.Insight.{
  Platform, InsightTriggerState, positive_finite, nonnegative_finite, operation_ids,
  optional_operation_id, optional_time, optional_result, optional_points, validate_state, as_number,
  as_text, as_ids, ids_value, operation_id, get_value, last_value, is_null, json_points, json_time,
  json_result, json_ids, json_active, json_active_points, optional_text, optional_number,
  fields_state, state_from_json, state_json,
}

module _ (p : Platform) where
  as_text-optional_text :
      (t : Option Text) (label : String) → as_text p (optional_text p t) label ≡ ok t
  unfolding as_text optional_text
  as_text-optional_text none label = refl
  as_text-optional_text (some t) label = refl

  as_ids-texts : (ts : List Text) → as_ids p (texts ts) ≡ ok ts
  unfolding as_ids texts
  as_ids-texts [] = refl
  as_ids-texts (t ∷ ts) = rw (as_ids-texts ts)

  json_points-as_json :
      (n : p.Number) {m : p.Number}
      → nonnegative_finite p n "points" ≡ ok m
      → json_points p (p.as_json n) ≡ ok n
  unfolding json_points as_number nonnegative_finite
  json_points-as_json n h = let q = p.as_float-as_json n in ground arith

  json_time-optional_text :
      (t : Option Text) (label : String) {u : Option Text}
      → optional_time p t label ≡ ok u
      → json_time p (optional_text p t) label ≡ ok t
  unfolding json_time optional_time
  json_time-optional_text none label h = rw (as_text-optional_text none label)
  json_time-optional_text (some t) label h =
      let q = as_text-optional_text (some t) label in ground arith

  json_result-optional_text :
      (t : Option Text) {u : Option Text}
      → optional_result p t ≡ ok u
      → json_result p (optional_text p t) ≡ ok t
  unfolding json_result optional_result
  json_result-optional_text none h = rw (as_text-optional_text none "result")
  json_result-optional_text (some t) h =
      let q = as_text-optional_text (some t) "result" in ground arith

  json_ids-texts :
      (ts : List Text) {us : List Text}
      → operation_ids p ts ≡ ok us
      → json_ids p (some (array (texts ts))) ≡ operation_ids p ts
  unfolding json_ids ids_value
  json_ids-texts ts h = rw (as_ids-texts ts)

  operation_id-unchanged : (t : Text) {u : Text} → operation_id p t ≡ ok u → t ≡ u
  unfolding operation_id
  operation_id-unchanged t h = ground arith

  traverse-unchanged :
      (ts : List Text) {us : List Text} → traverse (operation_id p) ts ≡ ok us → ts ≡ us
  unfolding traverse
  traverse-unchanged [] h = ground arith
  traverse-unchanged (t ∷ ts) h =
      let (u, q, k) = >>=-eq-ok (operation_id p t) _ h in
      let (us, q', k') = >>=-eq-ok (traverse (operation_id p) ts) _ k in
      let head = operation_id-unchanged t q in
      let tail = traverse-unchanged ts q' in let whole = ok_injective k' in cc

  operation_ids-unchanged :
      (ts : List Text) {us : List Text} → operation_ids p ts ≡ ok us → operation_ids p ts ≡ ok ts
  unfolding operation_ids
  operation_ids-unchanged ts h =
      let (us, q, k) = >>=-eq-ok (traverse (operation_id p) ts) _ h in
      let same = traverse-unchanged ts q in ground arith

  json_active-optional_text :
      (t : Option Text) {u : Option Text}
      → optional_operation_id p t ≡ ok u
      → json_active p (optional_text p t) ≡ ok t
  unfolding json_active optional_operation_id
  json_active-optional_text none h = rw (as_text-optional_text none "operation_id")
  json_active-optional_text (some t) h =
      let (u, q, k) = >>=-eq-ok (operation_id p t) _ h in
      let same = operation_id-unchanged t q in
      let r = as_text-optional_text (some t) "operation_id" in ground arith

  is_null-number : (v : Json) {n : p.Number} → p.as_float v ≡ some n → is_null p v ≡ false
  unfolding is_null
  is_null-number null h = let q = p.as_float-null in ground arith
  is_null-number (boolean b) h = refl
  is_null-number (integer n) h = refl
  is_null-number (real t) h = refl
  is_null-number (constant t) h = refl
  is_null-number (string t) h = refl
  is_null-number (array vs) h = refl
  is_null-number (object fs) h = refl

  json_active_points-as_json :
      (n : p.Number) {m : p.Number}
      → positive_finite p n "active_operation_points" ≡ ok m
      → p.is_finite n ≡ true
      → json_active_points p (p.as_json n) ≡ ok (some n)
  unfolding json_active_points as_number positive_finite
  json_active_points-as_json n h finite =
      let q = p.as_float-as_json n finite in let r = is_null-number (p.as_json n) q in ground arith

  positive-finite :
      (n : p.Number) (label : String) {m : p.Number}
      → positive_finite p n label ≡ ok m
      → p.is_finite n ≡ true
  unfolding positive_finite
  positive-finite n label h = ground arith

  json_active_points-optional_number :
      (n : Option p.Number) {m : Option p.Number}
      → optional_points p n ≡ ok m
      → json_active_points p (optional_number p n) ≡ ok n
  unfolding optional_points optional_number json_active_points is_null
  json_active_points-optional_number none h = refl
  json_active_points-optional_number (some n) h =
      let (m, q, k) = >>=-eq-ok (positive_finite p n "active_operation_points") _ h in
      json_active_points-as_json n q (positive-finite n _ q)

  -- A state that passes `_validate_state` is read back from what is written of it.
  pub state_from_json-state_json :
      (s : InsightTriggerState p)
      → validate_state p s ≡ ok tt
      → state_from_json p (state_json p s) ≡ ok s
  unfolding validate_state state_from_json state_json fields_state get_value last_value
  state_from_json-state_json s h =
      let (a₁, q₁, k₁) = >>=-eq-ok (nonnegative_finite p s.points "points") _ h in
      let (a₂, q₂, k₂) = >>=-eq-ok (optional_time p s.updated_at "updated_at") _ k₁ in
      let (a₃, q₃, k₃) =
        >>=-eq-ok (optional_time p s.last_successful_insight_at "last_successful_insight_at") _
          k₂ in
      let (a₄, q₄, k₄) = >>=-eq-ok (optional_result p s.last_successful_insight_result) _ k₃ in
      let (a₅, q₅, k₅) = >>=-eq-ok (optional_time p s.last_recovery_at "last_recovery_at") _ k₄ in
      let (a₆, q₆, k₆) = >>=-eq-ok (operation_ids p s.applied_operation_ids) _ k₅ in
      let (a₇, q₇, k₇) = >>=-eq-ok (optional_operation_id p s.active_operation_id) _ k₆ in
      let (a₈, q₈, k₈) = >>=-eq-ok (optional_points p s.active_operation_points) _ k₇ in
      rw (
        json_points-as_json s.points q₁,
        json_time-optional_text s.updated_at "updated_at" q₂,
        json_time-optional_text s.last_successful_insight_at "last_successful_insight_at" q₃,
        json_result-optional_text s.last_successful_insight_result q₄,
        json_time-optional_text s.last_recovery_at "last_recovery_at" q₅,
        json_ids-texts s.applied_operation_ids q₆,
        operation_ids-unchanged s.applied_operation_ids q₆,
        json_active-optional_text s.active_operation_id q₇,
        json_active_points-optional_number s.active_operation_points q₈,
      )
