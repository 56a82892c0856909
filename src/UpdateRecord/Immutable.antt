-- ===== src/UpdateRecord/Immutable.antt =====
-- What the store of rightmemory/update_record.py keeps.
use right_memory.Common.{
  ◌≡◌, refl, sym, ◌∙◌, ap, Bool, true, false, none, some, Text, text_eq, text_eq_iff, Bool-cases,
  Option-cases, inl, inr, Result, ok, err, require, >>=-eq-ok, ok_injective,
}
use right_memory.UpdateQueue.Formats.{QueueError}
use right_memory.UpdateQueue.Records.{Platform}
use right_memory.UpdateQueue.Disk.{Node, Folder, node_at, write_json}
use right_memory.UpdateQueue.Disk.Laws.{node_at-write_json}
use right_memory.UpdateRecord.{
  RecordError, record_format, from_queue, UpdateRecord, new_record, record_name, write_at,
  write_record, to_data, read_file, record_eq,
}

from_queue-eq-ok {ℓ} :
    {A : Type ℓ} (o : Result QueueError A) {a : A} → from_queue o ≡ ok a → o ≡ ok a
unfolding from_queue
from_queue-eq-ok (ok a) h = cc
from_queue-eq-ok (err e) h = cc

required : (b : Bool) (e : RecordError) (u : Unit {0}) → require b e ≡ ok u → b ≡ true
required true e u h = refl
required false e u h = cc

clash : {n : Node} → none ≡ some n → ⊥
clash h = cc

module _ (p : Platform) where
  write_at-held :
      (folder folder' : Folder) (name other : Text) (valid : UpdateRecord) (node : Node)
      → node_at folder other ≡ some node
      → write_at p folder name valid (node_at folder name) ≡ ok folder'
      → node_at folder' other ≡ some node
  unfolding write_at
  write_at-held folder folder' name other valid node k h =
      elim (Option-cases (node_at folder name)) [
        | inr (old, q) ↦
            let (e, p1, h1) = >>=-eq-ok (read_file p old) _ (rw q at h) in
            let (u, p2, h2) = >>=-eq-ok (require (record_eq e valid) (record_format _)) _ h1 in
            ap (λ f. node_at f other) (sym (ok_injective h2)) ∙ k
        | inl q ↦
            let (value, p1, h1) = >>=-eq-ok (to_data p valid) _ (rw q at h) in
            let put = from_queue-eq-ok (write_json folder name value) h1 in
            elim (Bool-cases (text_eq name other)) [
              | inl e ↦
                  absurd (clash (sym q ∙ ap (node_at folder) ((text_eq_iff name other).0 e) ∙ k))
              | inr e ↦ node_at-write_json folder name other value put ∙ rw e k
            ]
      ]

  -- A file that lies in the folder stays as it is, whatever record is written.
  pub write_record-held :
      (folder folder' : Folder) (r : UpdateRecord) (name : Text) (node : Node)
      → node_at folder name ≡ some node
      → write_record p folder r ≡ ok folder'
      → node_at folder' name ≡ some node
  unfolding write_record
  write_record-held folder folder' r name node k h =
      let (valid, p1, h1) = >>=-eq-ok (new_record p r) _ h in
      let (own, p2, h2) = >>=-eq-ok (record_name valid.operation_id) _ h1 in
      write_at-held folder folder' own name valid node k h2
