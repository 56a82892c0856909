-- ===== src/UpdateQueue/Codec/Loads.antt =====
-- `_loads_json` of rightmemory/update_queue.py: a decoder that refuses repeated fields and numbers
-- that are not finite.
use right_memory.Common.{
  String, ◌≡◌, refl, Option, none, some, List, [], ◌∷◌, Text, if◌then◌else◌, Result, ok, err, ◌>>=◌,
  ◌>>◌,
}
use right_memory.Common.Json.{
  Json, null, boolean, integer, real, constant, string, array, object, Items, nil, cons, Fields,
  end, field, keys, has_key, texts,
}
use right_memory.UpdateQueue.Formats.{QueueError, duplicate_field, invalid_number, json_error}
use right_memory.UpdateQueue.Records.{
  UpdateCandidate, UpdateQueueLease, UpdateQueueRecovery, PublicationMarker,
}
use right_memory.UpdateQueue.Codec.{
  candidate_fields, lease_fields, recovery_fields, marker_fields, optional_json,
}

-- `reject_duplicate_fields`: the loop over the pairs of an object, past the keys `seen`.
reject_duplicates : List String → List String → Result QueueError (Unit {0})
reject_duplicates seen [] = ok tt
reject_duplicates seen (k ∷ ks) =
    let rest = reject_duplicates (k ∷ seen) ks in
    if has_key k seen then err (duplicate_field k) else rest

-- The hooks are called as the decoder leaves a value, so the inner objects come first.
unfoldable mutual
  unfolding reject_duplicates

  pub load : Json → Result QueueError Json
  load null = ok null
  load (boolean b) = ok (boolean b)
  load (integer n) = ok (integer n)
  load (real t) = ok (real t)
  load (constant t) = err (invalid_number t)
  load (string t) = ok (string t)
  load (array items) = do values ← load_items items; ok (array values)
  load (object fs) = do gs ← load_fields fs; reject_duplicates [] (keys gs); ok (object gs)

  pub load_items : Items → Result QueueError Items
  load_items nil = ok nil
  load_items (cons v items) = do w ← load v; ws ← load_items items; ok (cons w ws)

  pub load_fields : Fields → Result QueueError Fields
  load_fields end = ok end
  load_fields (field k v fs) = do w ← load v; gs ← load_fields fs; ok (field k w gs)

-- The text of a file decodes to a value with its pairs as written, or is no JSON text.
unfoldable pub loads_json : Option Json → Result QueueError Json
loads_json none = err json_error
loads_json (some raw) = load raw

load_items-texts : (ts : List Text) → load_items (texts ts) ≡ ok (texts ts)
unfolding load texts
load_items-texts [] = refl
load_items-texts (t ∷ ts) = rw (load_items-texts ts)

load-optional_json : (o : Option Text) → load (optional_json o) ≡ ok (optional_json o)
unfolding load
load-optional_json none = refl
load-optional_json (some t) = refl

-- What the record classes write has no repeated field and is read as it stands.
pub load-candidate_fields :
    (c : UpdateCandidate) → load (object (candidate_fields c)) ≡ ok (object (candidate_fields c))
unfolding load keys has_key
load-candidate_fields c = refl

pub load-lease_fields :
    (l : UpdateQueueLease) → load (object (lease_fields l)) ≡ ok (object (lease_fields l))
unfolding load keys has_key
load-lease_fields l = rw load_items-texts

pub load-recovery_fields :
    (r : UpdateQueueRecovery) → load (object (recovery_fields r)) ≡ ok (object (recovery_fields r))
unfolding load keys has_key
load-recovery_fields r = rw (load_items-texts, load-optional_json)

pub load-marker_fields :
    (m : PublicationMarker) → load (object (marker_fields m)) ≡ ok (object (marker_fields m))
unfolding load keys has_key
load-marker_fields m = rw load-optional_json
