-- ===== src/Graph/Validate/Focus.antt =====
-- What the focus references have if `_validate_focus` of rightmemory/graph.py reports nothing.
use right_memory.Common.{
  ℕ, ◌≡◌, refl, true, false, some, List, [], ◌∷◌, ◌++◌, map, Text, text_eq, text_in, text_eq_iff,
  Bool-cases, Option-cases, inl, inr, arith, All, append-eq-nil,
}
use right_memory.Graph.Model.{GraphItem, GraphError, is_memory, find_item}
use right_memory.Graph.Model.Grows.{AllDistinct}
use right_memory.Graph.Validate.{focus_error, focus_errors}

abbrev pub Reference : Type 0
Reference = Text × Text × ℕ

-- The reference names an item, and that item is a heading of the pursuits.
pub record IsGoodFocus (items : List GraphItem) (r : Reference) : Type 0 where
  pub target : GraphItem
  pub found : find_item r.0 items ≡ some target
  pub is_heading : target.is_heading_item ≡ true
  pub of_pursuits : is_memory target.item_family ≡ false

abbrev pub names_of : List Reference → List Text
names_of rs = map (λ r. r.0) rs

reported : {e : GraphError} {es : List GraphError} → (e ∷ []) ++ es ≡ [] → ⊥
reported h = cc

focus_error-IsGoodFocus :
    (items : List GraphItem) (id name : Text) (n : ℕ)
    → focus_error id name n (find_item id items) ≡ []
    → IsGoodFocus items (id, name, n)
unfolding focus_error
focus_error-IsGoodFocus items id name n h = elim (Option-cases (find_item id items)) [
  | inl q ↦ absurd (reported (rw q at h))
  | inr (item, q) ↦
      let k : focus_error id name n (some item) ≡ [] = rw q at h in
      record { target = item; found = q; is_heading = ground arith; of_pursuits = ground arith }
]

-- No name is among those that were seen before.
abbrev AreFresh : List Text → List Reference → Type 0
AreFresh seen rs = All (λ r. text_in r.0 seen ≡ false) rs

fresh-AreFresh :
    (id : Text) (seen : List Text) (rs : List Reference)
    → AreFresh (id ∷ seen) rs
    → (text_in id (names_of rs) ≡ false) × AreFresh seen rs
fresh-AreFresh id seen [] h = (refl, tt)
fresh-AreFresh id seen ((a, name, n) ∷ rs) h =
    let (k, rest) = fresh-AreFresh id seen rs h.1 in
    let here = h.0 in
    let apart : text_eq id a ≡ false = ground (arith, text_eq_iff id a, text_eq_iff a id) in
    (ground arith, (ground arith, rest))

pub focus_errors_sound :
    (items : List GraphItem) (seen : List Text) (rs : List Reference)
    → focus_errors items seen rs ≡ []
    → AllDistinct (names_of rs) × (AreFresh seen rs × All (IsGoodFocus items) rs)
unfolding focus_errors
focus_errors_sound items seen [] h = (tt, (tt, tt))
focus_errors_sound items seen ((id, name, n) ∷ rs) h = elim (Bool-cases (text_in id seen)) [
  | inl k ↦ absurd (reported (rw k at h))
  | inr k ↦
      let (p, q) =
        append-eq-nil (focus_error id name n (find_item id items))
          (focus_errors items (id ∷ seen) rs) (rw k at h) in
      let (a, (b, c)) = focus_errors_sound items (id ∷ seen) rs q in
      let (d, f) = fresh-AreFresh id seen rs b in
      ((d, a), ((k, f), (focus_error-IsGoodFocus items id name n p, c)))
]
