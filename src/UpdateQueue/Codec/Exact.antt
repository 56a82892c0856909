-- ===== src/UpdateQueue/Codec/Exact.antt =====
-- What `_parse_candidate` of rightmemory/update_queue.py accepts.
use right_memory.Common.{
  String, ◌≡◌, refl, sym, ◌∙◌, Bool, false, Option, none, some, List, [], ◌∷◌, Text, arith, ok,
  >>=-eq-ok, str_eq_iff, ap,
}
use right_memory.Common.Json.{
  ℤ, Json, null, boolean, integer, real, constant, string, array, object, Items, nil, cons, Fields,
  end, field, lookup, keys, has_key, texts,
}
use right_memory.UpdateQueue.Records.{Platform, UpdateCandidate, new_candidate}
use right_memory.UpdateQueue.Records.Sound.{new_candidate_sound}
use right_memory.UpdateQueue.Codec.{
  without, check_names, exact_object, get_item, as_texts, as_string_tuple, as_optional_string,
  as_bool, require_schema, required_string_field, required_int_field, required_string_tuple_field,
  optional_json, candidate_names, candidate_fields, parse_candidate, schema_version,
}

-- Two objects with the same fields, in whatever order.
pub record SameFields (fs gs : Fields) : Type 0 where
  pub at : (k : String) → lookup k fs ≡ lookup k gs

check_names_sound :
    (label : String) (missing unknown : List String) (gs : Fields) {fs : Fields}
    → check_names label missing unknown gs ≡ ok fs
    → (fs ≡ gs) × (unknown ≡ [])
unfolding check_names
check_names_sound label (k ∷ ks) unknown gs h = cc
check_names_sound label [] (k ∷ ks) gs h = cc
check_names_sound label [] [] gs h = ground arith

-- An object that passes has no field but the named ones.
exact_object_sound :
    (data_ : Json) (names : List String) (label : String) {fs : Fields}
    → exact_object data_ names label ≡ ok fs
    → (data_ ≡ object fs) × (without names (keys fs) ≡ [])
unfolding exact_object
exact_object_sound (object gs) names label h =
    let (same, known) = check_names_sound label _ (without names (keys gs)) gs h in
    (ap object (sym same), rw same known)
exact_object_sound null names label h = cc
exact_object_sound (boolean b) names label h = cc
exact_object_sound (integer n) names label h = cc
exact_object_sound (real t) names label h = cc
exact_object_sound (constant t) names label h = cc
exact_object_sound (string t) names label h = cc
exact_object_sound (array t) names label h = cc

lookup-eq-none :
    (names : List String) (fs : Fields) (k : String)
    → without names (keys fs) ≡ []
    → has_key k names ≡ false
    → lookup k fs ≡ none
unfolding without keys lookup
lookup-eq-none names end k h absent = refl
lookup-eq-none names (field j v fs) k h absent =
    ground (arith, str_eq_iff j k, lookup-eq-none names fs k)

-- The checks of one field, inverted.
required_string_field_sound :
    (fs : Fields) (key label : String) {t : Text}
    → required_string_field fs key label ≡ ok t
    → lookup key fs ≡ some (string t)
required_string_field_sound fs key label h = ground arith

required_int_field_sound :
    (fs : Fields) (key label : String) {n : ℤ}
    → required_int_field fs key label ≡ ok n
    → lookup key fs ≡ some (integer n)
required_int_field_sound fs key label h = ground arith

as_texts_sound :
    (label : String) (items : Items) {ts : List Text}
    → as_texts label items ≡ ok ts
    → items ≡ texts ts
unfolding texts
as_texts_sound label nil {ts} h = let e : ts ≡ [] = ground arith in rw e
as_texts_sound label (cons (string t) items) {ts} h =
    let (us, read, k) = >>=-eq-ok (as_texts label items) _ h in
    let e : ts ≡ t ∷ us = ground arith in rw (e, as_texts_sound label items read)
as_texts_sound label (cons _ items) h = cc

require_schema_sound :
    (fs : Fields) (label : String) {u : Unit {0}}
    → require_schema fs label ≡ ok u
    → lookup "schema_version" fs ≡ some (integer schema_version)
require_schema_sound fs label h = ground arith

get_item_sound :
    (fs : Fields) (key : String) {v : Json} → get_item fs key ≡ ok v → lookup key fs ≡ some v
get_item_sound fs key h = ground arith

as_string_tuple_sound :
    (label : String) (v : Json) {ts : List Text}
    → as_string_tuple label v ≡ ok ts
    → v ≡ array (texts ts)
as_string_tuple_sound label (array items) h = ap array (as_texts_sound label items h)
as_string_tuple_sound label null h = cc
as_string_tuple_sound label _ h = cc

required_string_tuple_field_sound :
    (fs : Fields) (key label : String) {ts : List Text}
    → required_string_tuple_field fs key label ≡ ok ts
    → lookup key fs ≡ some (array (texts ts))
required_string_tuple_field_sound fs key label h =
    let (v, found, read) = >>=-eq-ok (get_item fs key) _ h in
    get_item_sound fs key found ∙ ap some (as_string_tuple_sound label v read)

optional_sound :
    (fs : Fields) (key label : String) (v : Json) {o : Option Text}
    → get_item fs key ≡ ok v
    → as_optional_string label v ≡ ok o
    → lookup key fs ≡ some (optional_json o)
optional_sound fs key label v {o = none} found read = ground arith
optional_sound fs key label v {o = some t} found read = ground arith

bool_sound :
    (fs : Fields) (key label : String) (v : Json) {b : Bool}
    → get_item fs key ≡ ok v
    → as_bool label v ≡ ok b
    → lookup key fs ≡ some (boolean b)
bool_sound fs key label v found read = ground arith

candidate_SameFields :
    (fs : Fields) (c : UpdateCandidate)
    → without candidate_names (keys fs) ≡ []
    → lookup "schema_version" fs ≡ some (integer schema_version)
    → lookup "uid" fs ≡ some (string c.uid)
    → lookup "session_id" fs ≡ some (string c.session_id)
    → lookup "display_id" fs ≡ some (integer c.display_id)
    → lookup "message" fs ≡ some (string c.message)
    → lookup "submitted_at" fs ≡ some (string c.submitted_at)
    → SameFields fs (candidate_fields c)
unfolding lookup has_key
candidate_SameFields fs c known e₀ e₁ e₂ e₃ e₄ e₅ = record {
  at = λ k. ground (
    arith,
    str_eq_iff "schema_version" k,
    str_eq_iff "uid" k,
    str_eq_iff "session_id" k,
    str_eq_iff "display_id" k,
    str_eq_iff "message" k,
    str_eq_iff "submitted_at" k,
    lookup-eq-none candidate_names fs k,
  );
}

module _ (p : Platform) where
  -- An accepted object is the written form of the candidate, up to the order of its fields.
  pub parse_candidate_sound :
      (data_ : Json) {c : UpdateCandidate}
      → parse_candidate p data_ ≡ ok c
      → (fs : Fields) × (data_ ≡ object fs)
        × SameFields fs (candidate_fields c)
        × (new_candidate p c ≡ ok c)
  unfolding parse_candidate
  parse_candidate_sound data_ {c} h =
      let (fs, is_object, h₁) = >>=-eq-ok (exact_object data_ candidate_names "candidate") _ h in
      let (u, version, h₂) = >>=-eq-ok (require_schema fs "candidate") _ h₁ in
      let (uid, e₁, h₃) = >>=-eq-ok (required_string_field fs "uid" "candidate uid") _ h₂ in
      let (sid, e₂, h₄) =
        >>=-eq-ok (required_string_field fs "session_id" "candidate session_id") _ h₃ in
      let (n, e₃, h₅) =
        >>=-eq-ok (required_int_field fs "display_id" "candidate display_id") _ h₄ in
      let (message, e₄, h₆) =
        >>=-eq-ok (required_string_field fs "message" "candidate message") _ h₅ in
      let (at, e₅, h₇) =
        >>=-eq-ok (required_string_field fs "submitted_at" "candidate submitted_at") _ h₆ in
      let same = new_candidate_sound p _ h₇ in
      let (shape, known) = exact_object_sound data_ candidate_names "candidate" is_object in
      (
        fs,
        shape,
        rw same (
            candidate_SameFields fs _ known (require_schema_sound fs "candidate" version)
              (required_string_field_sound fs "uid" "candidate uid" e₁)
              (required_string_field_sound fs "session_id" "candidate session_id" e₂)
              (required_int_field_sound fs "display_id" "candidate display_id" e₃)
              (required_string_field_sound fs "message" "candidate message" e₄)
              (required_string_field_sound fs "submitted_at" "candidate submitted_at" e₅)),
        ap (new_candidate p) same ∙ h₇,
      )
