-- ===== src/UpdateQueue/Formats/Uids.antt =====
-- What `_require_uid_tuple` of rightmemory/update_queue.py accepts.
use right_memory.Common.{
  String, ◌≡◌, refl, ap, ◌⊎◌, ◌∙◌, ◌≢◌, true, List, [], ◌∷◌, all, Text, text_eq_iff, arith, inl,
  inr, Result, ok, err, traverse, >>=-eq-ok, sorted_set, IsSorted, sorted_set-IsSorted,
  sorted_set_fixed,
}
use right_memory.UpdateQueue.Formats.{
  QueueError, hex_text, require_uid, texts_eq, require_uid_tuple,
}
use right_memory.UpdateQueue.Formats.Hex.{require_uid_lem}

texts_eq_sound : (xs ys : List Text) → texts_eq xs ys ≡ true → xs ≡ ys
unfolding texts_eq
texts_eq_sound [] [] h = refl
texts_eq_sound [] (y ∷ ys) h = cc
texts_eq_sound (x ∷ xs) [] h = cc
texts_eq_sound (x ∷ xs) (y ∷ ys) h = ground (arith, text_eq_iff x y, texts_eq_sound xs ys)

texts_eq_refl : (xs : List Text) → texts_eq xs xs ≡ true
unfolding texts_eq
texts_eq_refl [] = refl
texts_eq_refl (x ∷ xs) = ground (arith, text_eq_iff x x, texts_eq_refl xs)

-- The tuple holds uids, sorted and without repetition.
pub record IsUidTuple (uids : List Text) : Type 0 where
  pub nonempty : uids ≢ []
  pub hex : all (hex_text 32) uids ≡ true
  pub sorted : IsSorted uids

traverse-require_uid :
    (label : String) (xs : List Text)
    → all (hex_text 32) xs ≡ true
    → traverse (require_uid label) xs ≡ ok xs
unfolding traverse
traverse-require_uid label [] h = refl
traverse-require_uid label (x ∷ xs) h =
    ground (arith, require_uid_lem label x, traverse-require_uid label xs)

traverse-require_uid_sound :
    (label : String) (xs : List Text) {ys : List Text}
    → traverse (require_uid label) xs ≡ ok ys
    → (ys ≡ xs) × (all (hex_text 32) xs ≡ true)
unfolding traverse
traverse-require_uid_sound label [] h = ground arith
traverse-require_uid_sound label (x ∷ xs) {ys} h =
    let (y, read, k) = >>=-eq-ok (require_uid label x) _ h in
    let (zs, reads, k') = >>=-eq-ok (traverse (require_uid label) xs) _ k in
    ground (arith, require_uid_lem label x, traverse-require_uid_sound label xs reads)

require_uid_tuple_complete :
    (label : String) (uids : List Text) → IsUidTuple uids → require_uid_tuple label uids ≡ ok uids
unfolding require_uid_tuple
require_uid_tuple_complete label [] v = absurd (v.nonempty refl)
require_uid_tuple_complete label (x ∷ xs) v = rw (
  traverse-require_uid label (x ∷ xs) v.hex,
  sorted_set_fixed (x ∷ xs) v.sorted,
  texts_eq_refl (x ∷ xs),
)

IsSorted-of_test : (r : List Text) → texts_eq r (sorted_set r) ≡ true → IsSorted r
IsSorted-of_test r h = rw (texts_eq_sound r (sorted_set r) h) (sorted_set-IsSorted r)

-- A tuple that `_require_uid_tuple` lets through is returned as given, and is well formed.
pub require_uid_tuple_sound :
    (label : String) (values : List Text) {uids : List Text}
    → require_uid_tuple label values ≡ ok uids
    → (uids ≡ values) × IsUidTuple uids
unfolding require_uid_tuple
require_uid_tuple_sound label [] h = cc
require_uid_tuple_sound label (x ∷ xs) {uids} h =
    let (r, reads, k) = >>=-eq-ok (traverse (require_uid label) (x ∷ xs)) _ h in
    let (same, hex) = traverse-require_uid_sound label (x ∷ xs) reads in
    let test : texts_eq r (sorted_set r) ≡ true = ground arith in
    let e : uids ≡ r = ground arith in
    (
      e ∙ same,
      record {
        nonempty = ground arith;
        hex = rw (e ∙ same) hex;
        sorted = rw e (IsSorted-of_test r test);
      },
    )

-- The check returns the tuple that it is given, or raises.
pub require_uid_tuple_cases :
    (label : String) (values : List Text)
    → (require_uid_tuple label values ≡ ok values)
      ⊎ ((e : QueueError) × (require_uid_tuple label values ≡ err e))
require_uid_tuple_cases label values = split (require_uid_tuple label values) refl
  where
    split :
        (r : Result QueueError (List Text))
        → require_uid_tuple label values ≡ r
        → (require_uid_tuple label values ≡ ok values)
          ⊎ ((e : QueueError) × (require_uid_tuple label values ≡ err e))
    split (ok uids) h = inl (h ∙ ap ok (require_uid_tuple_sound label values h).0)
    split (err e) h = inr (e, h)
