-- ===== src/Graph/Validate/Ancestors.antt =====
-- The walk of rightmemory/graph.py from an item to the headings around it.
pub mod Fuel
use right_memory.Common.{
  ℕ, zero, suc, ◌≡◌, refl, sym, ap, ◌&&◌, Bool, true, false, Option, none, some, List, Text,
  text_eq_iff, Bool-cases, Option-cases, ◌↔◌, inl, inr, arith,
}
use right_memory.Graph.Model.{BlockKey, DocumentBlock, is_heading, find_block}
use right_memory.Graph.Validate.{is_id, has_ancestor}

-- The block is a heading with the id.
pub record IsHeadingOf (target : Text) (b : DocumentBlock) : Type 0 where
  pub heading : is_heading b.kind ≡ true
  pub named : b.item_id ≡ some target

module _ (bs : List DocumentBlock) (target : Text) where
  -- Some block from this one upwards is a heading with the id.
  pub data IsInside : Option BlockKey → Type 0 where
    here :
        (key : BlockKey) (b : DocumentBlock)
        → find_block key bs ≡ some b
        → IsHeadingOf target b
        → IsInside (some key)
    above :
        (key : BlockKey) (b : DocumentBlock)
        → find_block key bs ≡ some b
        → IsInside b.logical_parent
        → IsInside (some key)

  -- The way upwards from this block ends, and no block on it is a heading with the id.
  pub data IsOutside : Option BlockKey → Type 0 where
    top : IsOutside none
    step :
        (key : BlockKey) (b : DocumentBlock)
        → find_block key bs ≡ some b
        → (IsHeadingOf target b → ⊥)
        → IsOutside b.logical_parent
        → IsOutside (some key)

  is_id_iff : (id : Option Text) → (is_id id target ≡ true) ↔ (id ≡ some target)
  unfolding is_id
  is_id_iff none = ((λ h. cc), (λ h. cc))
  is_id_iff (some t) =
      ((λ h. ap some ((text_eq_iff t target).0 h)), (λ h. ground (arith, text_eq_iff t target)))

  is_id-IsHeadingOf :
      (b : DocumentBlock)
      → (is_heading b.kind && is_id b.item_id target ≡ true) ↔ IsHeadingOf target b
  is_id-IsHeadingOf b = (
    (λ h. record { heading = ground arith; named = (is_id_iff b.item_id).0 (ground arith) }),
    (λ h. let q = h.heading in let r = (is_id_iff b.item_id).1 h.named in ground arith),
  )

  no_answer : {a : Bool} → none ≡ some a → ⊥
  no_answer h = cc

  other_answer : some true ≡ some false → ⊥
  other_answer h = cc

  pub has_ancestor-IsOutside :
      (fuel : ℕ) (key : Option BlockKey)
      → has_ancestor fuel bs key target ≡ some false
      → IsOutside key
  unfolding has_ancestor
  has_ancestor-IsOutside zero key h = absurd (no_answer h)
  has_ancestor-IsOutside (suc fuel) none h = top
  has_ancestor-IsOutside (suc fuel) (some key) h = elim (Option-cases (find_block key bs)) [
    | inl q ↦ absurd (no_answer (rw (has_ancestor, q) at h))
    | inr (b, q) ↦ elim (Bool-cases (is_heading b.kind && is_id b.item_id target)) [
      | inl e ↦ absurd (other_answer (rw (has_ancestor, q, e) at h))
      | inr e ↦
          step key b q (λ i. let r = (is_id-IsHeadingOf b).1 i in ground arith)
            (has_ancestor-IsOutside fuel b.logical_parent (rw (has_ancestor, q, e) at h))
    ]
  ]

  pub has_ancestor-IsInside :
      (fuel : ℕ) (key : Option BlockKey)
      → has_ancestor fuel bs key target ≡ some true
      → IsInside key
  unfolding has_ancestor
  has_ancestor-IsInside zero key h = absurd (no_answer h)
  has_ancestor-IsInside (suc fuel) none h = absurd (other_answer (sym h))
  has_ancestor-IsInside (suc fuel) (some key) h = elim (Option-cases (find_block key bs)) [
    | inl q ↦ absurd (no_answer (rw (has_ancestor, q) at h))
    | inr (b, q) ↦ elim (Bool-cases (is_heading b.kind && is_id b.item_id target)) [
      | inl e ↦ here key b q ((is_id-IsHeadingOf b).0 e)
      | inr e ↦
          above key b q (has_ancestor-IsInside fuel b.logical_parent (rw (has_ancestor, q, e) at h))
    ]
  ]
