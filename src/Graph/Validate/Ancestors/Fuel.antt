-- ===== src/Graph/Validate/Ancestors/Fuel.antt =====
-- The number of steps that the walk of rightmemory/graph.py to the enclosing headings needs.
use mathlib.Core.Option.{some_inj}
use right_memory.Common.{
  ℕ, zero, suc, ◌<◌, ◌≤◌, ◌≡◌, refl, sym, ◌∙◌, ap, ◌&&◌, Bool, true, false, Option, none, some,
  List, [], ◌∷◌, Text, text_eq_iff, Bool-cases, inl, inr, ◌⊎◌, arith, if◌then◌else◌, length,
}
use right_memory.Graph.Model.{BlockKey, key_eq, DocumentBlock, is_heading, find_block}
use right_memory.Graph.Validate.{is_id, has_ancestor}
use right_memory.Graph.Validate.Ancestors.{
  IsHeadingOf, IsInside, here, above, IsOutside, top, step, has_ancestor-IsInside,
  has_ancestor-IsOutside,
}
use mathlib.Core.Path.{subst}

-- The way upwards from a block meets only blocks that are there, and ends.
pub data EndsAbove (bs : List DocumentBlock) : Option BlockKey → Type 0 where
  root_end : EndsAbove bs none
  next_up :
      (key : BlockKey) (b : DocumentBlock)
      → find_block key bs ≡ some b
      → EndsAbove bs b.logical_parent
      → EndsAbove bs (some key)

height : {bs : List DocumentBlock} {key : Option BlockKey} → EndsAbove bs key → ℕ
height root_end = 0
height (next_up key b q rest) = suc (height rest)

-- The height is that of the block, whichever way it is reached.
height_unique :
    (bs : List DocumentBlock) {k j : Option BlockKey} (d : EndsAbove bs k) (e : EndsAbove bs j)
    → k ≡ j
    → height d ≡ height e
unfolding height
height_unique bs root_end root_end h = refl
height_unique bs root_end (next_up key b q rest) h = cc
height_unique bs (next_up key b q rest) root_end h = cc
height_unique bs (next_up key b q rest) (next_up key' b' q' rest') h =
    let same : key ≡ key' = some_inj.0 h in
    let found : b ≡ b' = some_inj.0 (sym q ∙ ap (λ k. find_block k bs) same ∙ q') in
    ap suc (height_unique bs rest rest' (ap (λ (c : DocumentBlock). c.logical_parent) found))

key_eq_sound : (k j : BlockKey) → key_eq k j ≡ true → k ≡ j
unfolding key_eq
key_eq_sound (p, n) (q, m) h = ground (arith, text_eq_iff p q)

without : BlockKey → List DocumentBlock → List DocumentBlock
without key [] = []
without key (b ∷ bs) = let rest = without key bs in if key_eq b.key key then rest else b ∷ rest

without-le : (key : BlockKey) (bs : List DocumentBlock) → length (without key bs) ≤ length bs
unfolding without
without-le key [] = omega arith
without-le key (b ∷ bs) = ground (arith, without-le key bs)

without-lt :
    (key : BlockKey) (bs : List DocumentBlock) {b : DocumentBlock}
    → find_block key bs ≡ some b
    → length (without key bs) < length bs
unfolding without find_block
without-lt key [] h = cc
without-lt key (b ∷ bs) h = elim (Bool-cases (key_eq b.key key)) [
  | inl e ↦ ground (arith, without-le key bs)
  | inr e ↦ let below = without-lt key bs (rw (find_block, e) at h) in ground arith
]

find_block-without :
    (key k : BlockKey) (bs : List DocumentBlock)
    → key_eq k key ≡ false
    → find_block k (without key bs) ≡ find_block k bs
unfolding without find_block
find_block-without key k [] h = refl
find_block-without key k (b ∷ bs) h = elim (Bool-cases (key_eq b.key key)) [
  | inr e ↦ elim (Bool-cases (key_eq b.key k)) [
    | inl f ↦ rw (without, find_block, e, f) refl
    | inr f ↦ rw (without, find_block, e, f) (find_block-without key k bs h)
  ]
  | inl e ↦ elim (Bool-cases (key_eq b.key k)) [
    | inl f ↦
        let same : b.key ≡ k = key_eq_sound b.key k f in
        let clash : key_eq b.key key ≡ false = ap (λ x. key_eq x key) same ∙ h in ground arith
    | inr f ↦ rw (without, find_block, e, f) (find_block-without key k bs h)
  ]
]

-- What lies below the height of a block does not pass it.
lower :
    (bs : List DocumentBlock) (key : BlockKey) (e : EndsAbove bs (some key)) {k : Option BlockKey}
    (d : EndsAbove bs k)
    → height d < height e
    → (d' : EndsAbove (without key bs) k) × (height d' ≡ height d)
unfolding height
lower bs key e root_end h = (root_end, refl)
lower bs key e (next_up k b q rest) h = elim (Bool-cases (key_eq k key)) [
  | inl f ↦
      let same = height_unique bs (next_up k b q rest) e (ap some (key_eq_sound k key f)) in
      absurd (omega arith)
  | inr f ↦
      let (rest', r) = lower bs key e rest (omega arith) in
      (next_up k b (find_block-without key k bs f ∙ q) rest', ap suc r)
]

-- No way upwards is longer than there are blocks.
height-le :
    (n : ℕ) (bs : List DocumentBlock) {k : Option BlockKey} (d : EndsAbove bs k)
    → height d ≡ n
    → n ≤ length bs
unfolding height
height-le zero bs d h = omega arith
height-le (suc n) bs root_end h = omega arith
height-le (suc n) bs (next_up key b q rest) h =
    let (rest', r) = lower bs key (next_up key b q rest) rest (omega arith) in
    let short = height-le n (without key bs) rest' (omega arith) in
    let fewer = without-lt key bs q in omega arith

walk-returns :
    (bs : List DocumentBlock) (target : Text) (fuel : ℕ) {k : Option BlockKey} (d : EndsAbove bs k)
    → height d < fuel
    → (a : Bool) × (has_ancestor fuel bs k target ≡ some a)
unfolding height has_ancestor
walk-returns bs target zero d h = absurd (omega arith)
walk-returns bs target (suc fuel) root_end h = (false, refl)
walk-returns bs target (suc fuel) (next_up key b q rest) h =
    let (a, r) = walk-returns bs target fuel rest (omega arith) in
    elim (Bool-cases (is_heading b.kind && is_id b.item_id target)) [
      | inl e ↦ (true, rw (has_ancestor, q, e) refl)
      | inr e ↦ (a, rw (has_ancestor, q, e) r)
    ]

-- Where the way upwards from a block ends, the walk comes to an answer with one step more than there are
-- blocks: it finds the target if some block from there upwards is a heading with that id, and it finds none
-- if no block on the way is one.
pub has_ancestor-decides :
    (bs : List DocumentBlock) (target : Text) (key : Option BlockKey)
    → EndsAbove bs key
    → ((has_ancestor (suc (length bs)) bs key target ≡ some true) × IsInside bs target key)
      ⊎ ((has_ancestor (suc (length bs)) bs key target ≡ some false) × IsOutside bs target key)
has_ancestor-decides bs target key d =
    let short = height-le (height d) bs d refl in
    let (a, r) = walk-returns bs target (suc (length bs)) d (omega arith) in go a r
  where
    go :
        (a : Bool)
        → has_ancestor (suc (length bs)) bs key target ≡ some a
        → ((has_ancestor (suc (length bs)) bs key target ≡ some true) × IsInside bs target key)
          ⊎ ((has_ancestor (suc (length bs)) bs key target ≡ some false) × IsOutside bs target key)
    go true r = inl (r, has_ancestor-IsInside bs target _ key r)
    go false r = inr (r, has_ancestor-IsOutside bs target _ key r)

IsOutside-EndsAbove :
    (bs : List DocumentBlock) (target : Text) (key : Option BlockKey)
    → IsOutside bs target key
    → EndsAbove bs key
IsOutside-EndsAbove bs target none i = root_end
IsOutside-EndsAbove bs target (some k) (step key b q apart rest) =
    next_up key b q (IsOutside-EndsAbove bs target b.logical_parent rest)

IsOutside-IsInside :
    (bs : List DocumentBlock) (target : Text) {k j : Option BlockKey}
    → IsOutside bs target k
    → IsInside bs target j
    → k ≡ j
    → ⊥
IsOutside-IsInside bs target top (here key b q i) h = cc
IsOutside-IsInside bs target top (above key b q rest) h = cc
IsOutside-IsInside bs target (step key b q apart rest) (here key' b' q' i) h =
    let found : b' ≡ b = some_inj.0 (sym q' ∙ ap (λ k. find_block k bs) (sym (some_inj.0 h)) ∙ q) in
    apart (subst (IsHeadingOf target) found i)
IsOutside-IsInside bs target (step key b q apart rest) (above key' b' q' rest') h =
    let found : b ≡ b' = some_inj.0 (sym q ∙ ap (λ k. find_block k bs) (some_inj.0 h) ∙ q') in
    IsOutside-IsInside bs target rest rest' (ap (λ (c : DocumentBlock). c.logical_parent) found)

-- The walk from a block without such a heading above it finds none.
pub IsOutside-has_ancestor :
    (bs : List DocumentBlock) (target : Text) (key : Option BlockKey)
    → IsOutside bs target key
    → has_ancestor (suc (length bs)) bs key target ≡ some false
IsOutside-has_ancestor bs target key i =
    elim (has_ancestor-decides bs target key (IsOutside-EndsAbove bs target key i)) [
      | inl (r, inside) ↦ absurd (IsOutside-IsInside bs target i inside refl)
      | inr (r, outside) ↦ r
    ]
