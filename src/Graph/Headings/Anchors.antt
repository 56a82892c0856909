-- ===== src/Graph/Headings/Anchors.antt =====
-- How `ANCHOR_RE` of rightmemory/graph.py reads the anchor that `render_heading_line` writes.
use mathlib.Core.List.{reverse, reverse-append, reverse-reverse}
use right_memory.Common.{
  ℕ, ◌≡◌, refl, ◌∙◌, ap, Bool, true, false, not, Option, none, some, List, [], ◌∷◌, ◌++◌, map, Text,
  codes, lstrip, is_space, is_letter, is_digit, span, join, all, any, arith, ◌==◌, All,
  after_prefix,
}
use right_memory.Graph.Grammar.{
  is_item_char, is_valid_item_id, AnchorKind, file, memory_file, skill, shared, question, plain,
  kind_text, kind_at, arrow_at, last_bracket, before_bracket, list_at, edges_at, suffix_at,
  close_anchor, anchor_at,
}
use right_memory.Graph.Grammar.Edges.{span-append, all-reverse, IsPlainEdge}
use right_memory.Graph.Headings.{edge_text, edges_suffix}
use right_memory.Graph.Headings.Edges.{valid_id-all, join-not_newline}

kind_at-kind_text :
    (k : AnchorKind) (c : ℕ) (r : Text) → kind_at (kind_text k ++ c ∷ r) ≡ some (k, c ∷ r)
unfolding kind_at kind_text after_prefix
kind_at-kind_text file c r = refl
kind_at-kind_text memory_file c r = refl
kind_at-kind_text skill c r = refl
kind_at-kind_text shared c r = refl
kind_at-kind_text question c r = refl
kind_at-kind_text plain c r = refl

any_none : (p : ℕ → Bool) (xs : Text) → all (λ c. not (p c)) xs ≡ true → any p xs ≡ false
any_none p [] h = refl
any_none p (x ∷ xs) h = ground (arith, any_none p xs)

last_bracket-cons :
    (t : Text) → any (λ d. d == 10) t ≡ false → last_bracket (b']' ∷ t) ≡ some (reverse t)
unfolding last_bracket
last_bracket-cons t h = rw h refl

before_bracket-snoc :
    (t : Text) → all (λ c. not (c == 10)) t ≡ true → before_bracket (t ++ codes "]") ≡ some t
unfolding before_bracket lstrip is_space
before_bracket-snoc t h =
    ap (λ u. last_bracket (lstrip u)) (reverse-append t (codes "]"))
    ∙ last_bracket-cons (reverse t)
        (any_none (λ d. d == 10) (reverse t) (all-reverse (λ c. not (c == 10)) t h))
    ∙ ap some (reverse-reverse t)

-- The list of edges as the anchor has it
abbrev pub edges_part : List (Text × Text) → Option Text
edges_part [] = none
edges_part (e ∷ es) = some (join (codes ", ") (map edge_text (e ∷ es)))

suffix_at-edges_suffix :
    (es : List (Text × Text))
    → All IsPlainEdge es
    → suffix_at (edges_suffix es) ≡ some (edges_part es)
unfolding suffix_at edges_suffix edges_at arrow_at list_at lstrip is_space
suffix_at-edges_suffix [] h = refl
suffix_at-edges_suffix (e ∷ es) (p, ps) =
    rw
      (before_bracket-snoc (join (codes ", ") (map edge_text (e ∷ es)))
        (join-not_newline e es p ps))
      refl

close_anchor-id :
    (k : AnchorKind) (id : Text) (es : List (Text × Text))
    → is_valid_item_id id ≡ true
    → All IsPlainEdge es
    → close_anchor k (id, b'}' ∷ edges_suffix es)
      ≡ some (record { kind = k; id = id; edges = edges_part es })
unfolding close_anchor is_valid_item_id
close_anchor-id k [] es v h = cc
close_anchor-id k (c ∷ cs) es v h = rw (suffix_at-edges_suffix es h) refl

anchor_text_at :
    (k : AnchorKind) (c : ℕ) (r : Text)
    → anchor_at (b'{' ∷ (kind_text k ++ c ∷ r)) ≡ close_anchor k (span is_item_char (c ∷ r))
unfolding anchor_at
anchor_text_at k c r = rw (kind_at-kind_text k c r) refl

anchor_cons :
    (k : AnchorKind) (id r : Text)
    → is_valid_item_id id ≡ true
    → anchor_at (b'{' ∷ (kind_text k ++ (id ++ r))) ≡ close_anchor k (span is_item_char (id ++ r))
unfolding is_valid_item_id
anchor_cons k [] r v = cc
anchor_cons k (c ∷ cs) r v = anchor_text_at k c (cs ++ r)

-- The anchor that is written is read.
pub anchor_at-written :
    (k : AnchorKind) (id : Text) (es : List (Text × Text))
    → is_valid_item_id id ≡ true
    → All IsPlainEdge es
    → anchor_at (b'{' ∷ (kind_text k ++ (id ++ b'}' ∷ edges_suffix es)))
      ≡ some (record { kind = k; id = id; edges = edges_part es })
unfolding is_item_char is_letter is_digit
anchor_at-written k id es v h =
    anchor_cons k id (b'}' ∷ edges_suffix es) v
    ∙ ap (close_anchor k)
        (span-append is_item_char id b'}' (edges_suffix es) (valid_id-all id v) refl)
    ∙ close_anchor-id k id es v h
