-- ===== src/Graph/Headings/Replace.antt =====
-- `replace_heading_title` of rightmemory/graph.py changes the title of a rendered heading and nothing else.
use mathlib.Core.List.{append_assoc, reverse, reverse-append}
use right_memory.Common.{
  ℕ, zero, suc, ◌≡◌, refl, sym, ◌∙◌, ap, false, some, List, [], ◌∷◌, ◌++◌, Text, strip, strip-last,
  is_space, span, length, inl, inr, ok,
}
use right_memory.Graph.Grammar.{AnchorKind, Anchor}
use right_memory.Graph.Grammar.Edges.{span-append}
use right_memory.Graph.Headings.{
  marks, trailing_space, leading, dropped, patch_title, replace_heading_title, render_heading_line,
}
use right_memory.Graph.Headings.Anchors.{edges_part}
use right_memory.Graph.Headings.Lines.{without_newline-closed}
use right_memory.Graph.Headings.RoundTrip.{
  IsTitle, anchor_part, heading_text, heading_text-IsClosed, match_anchor-heading_text,
  render_heading_line-IsRendered,
}

leading-marks : (n : ℕ) (s : Text) → leading n (marks n ++ s) ≡ marks n
unfolding leading marks
leading-marks zero s = refl
leading-marks (suc n) s = ap (λ t. b'#' ∷ t) (leading-marks n s)

dropped-marks : (n : ℕ) (s : Text) → dropped n (marks n ++ s) ≡ s
unfolding dropped marks
dropped-marks zero s = refl
dropped-marks (suc n) s = dropped-marks n s

dropped-length : (t s : Text) → dropped (length t) (t ++ s) ≡ s
unfolding dropped
dropped-length [] s = refl
dropped-length (c ∷ t) s = dropped-length t s

-- The one space behind a title
trailing_space-title :
    (front : Text) (c : ℕ)
    → is_space c ≡ false
    → trailing_space ((front ++ c ∷ []) ++ b' ' ∷ []) ≡ b' ' ∷ []
unfolding trailing_space is_space
trailing_space-title front c h =
    rw (reverse-append (front ++ c ∷ []) (b' ' ∷ []), reverse-append front (c ∷ []))
      (ap (λ x. reverse x.0) (span-append is_space (b' ' ∷ []) c (reverse front) refl h))

no_first : {c : ℕ} {cs : Text} → c ∷ cs ≡ [] → ⊥
no_first h = cc

trailing_space-IsTitle : (t : Text) → IsTitle t → trailing_space (t ++ b' ' ∷ []) ≡ b' ' ∷ []
trailing_space-IsTitle t h = elim (strip-last t) [
  | inl q ↦ absurd (no_first (sym h.text_is ∙ sym h.trimmed ∙ q))
  | inr (front, c, q, k) ↦
      ap (λ u. trailing_space (u ++ b' ' ∷ [])) (sym h.trimmed ∙ q) ∙ trailing_space-title front c k
]

span-title : (t r : Text) → IsTitle t → span is_space (b' ' ∷ (t ++ r)) ≡ (b' ' ∷ [], t ++ r)
unfolding is_space
span-title t r h =
    rw h.text_is (span-append is_space (b' ' ∷ []) h.first (h.others ++ r) refl h.solid)

patch_title-heading_text :
    (depth : ℕ) (old new : Text) (kind : AnchorKind) (id : Text) (edges : List (Text × Text))
    → (anchor : Anchor) → IsTitle old
    → patch_title
        (heading_text depth old kind id edges)
        new
        (some (depth, old ++ b' ' ∷ [], anchor))
      ≡ ok (heading_text depth new kind id edges)
unfolding patch_title
patch_title-heading_text depth old new kind id edges anchor h =
    let rest = anchor_part kind id edges in
    rw
      (
        dropped-marks depth (b' ' ∷ (old ++ b' ' ∷ rest)),
        leading-marks depth (b' ' ∷ (old ++ b' ' ∷ rest)),
        span-title old (b' ' ∷ rest) h,
        trailing_space-IsTitle old h,
        sym (append_assoc old (b' ' ∷ []) rest),
        dropped-length (old ++ b' ' ∷ []) rest,
      )
      refl

-- Replacing the title of a rendered heading gives the heading that is rendered with the new title, where
-- that can be rendered.
pub replace_heading_title-render_heading_line :
    (old new : Text) (kind : AnchorKind) (id : Text) (edges : List (Text × Text)) (depth : ℕ)
    → (line line' : Text) → render_heading_line old kind id edges depth ≡ ok line
    → render_heading_line new kind id edges depth ≡ ok line'
    → replace_heading_title line new ≡ ok line'
unfolding replace_heading_title
replace_heading_title-render_heading_line old new kind id edges depth line line' h k =
    let (a, p) = render_heading_line-IsRendered old kind id edges depth line h in
    let (b, q) = render_heading_line-IsRendered new kind id edges depth line' k in
    let found =
      match_anchor-heading_text (strip old) kind id edges a.above a.good_title a.good_id
        a.good_edges in
    rw
      (
        b.checked_title,
        sym p,
        sym q,
        without_newline-closed _ (heading_text-IsClosed depth (strip old) kind id edges),
        a.depth_is,
        found,
      )
      (patch_title-heading_text (suc a.above) (strip old) (strip new) kind id edges
        (record { kind = kind; id = id; edges = edges_part edges }) a.good_title)
