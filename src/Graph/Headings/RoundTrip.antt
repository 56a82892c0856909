-- ===== src/Graph/Headings/RoundTrip.antt =====
-- A heading that `render_heading_line` of rightmemory/graph.py writes is read by `parse_addressable_heading`.
use mathlib.Core.Path.{subst}
use right_memory.Common.{
  ℕ, zero, suc, ◌≡◌, refl, sym, ◌∙◌, ap, Bool, true, false, not, ◌&&◌, some, List, [], ◌∷◌, ◌++◌,
  Text, text_eq, text_in, text_eq_iff, strip, strip_idem, lstrip, is_space, splitlines, all, any,
  leb, ◌==◌, Bool-cases, inl, inr, arith, All, Result, ok, err, require, >>=-eq-ok, ok_injective,
  strip-snoc_space, strip-IsSolid, IsSolid, strip-last, split_on,
}
use right_memory.Graph.Grammar.{
  is_valid_item_id, known_edge_types, AnchorKind, kind_text, is_terminal, candidate_at, first_match,
  parse_edges, parse_tokens, add_token,
}
use right_memory.Graph.Grammar.Edges.{IsPlainEdge, known-IsPlainEdge}
use right_memory.Graph.Headings.{
  HeadingError, bad_title, anchor_in_title, bad_depth, unknown_edge, validate_item_id,
  AddressableHeading, search_anchor, match_anchor, edges_text, addressable,
  parse_addressable_heading, is_none, has_no_anchor, fits_one_line, validate_heading_title,
  check_edges, edges_suffix, marks, render_heading_line,
}
use right_memory.Graph.Headings.Edges.{parse_edges-join}
use right_memory.Graph.Headings.Anchors.{edges_part, anchor_at-written}
use right_memory.Graph.Headings.Lines.{
  heading_at-marks, IsClosed, append-IsClosed, cons-IsClosed, edges_suffix-IsClosed,
  without_newline-closed, one_line,
}
use right_memory.Graph.Headings.Titles.{first_match-title}

-- What a title has that may stand in a heading
pub record IsTitle (t : Text) : Type 0 where
  pub first : ℕ
  pub others : Text
  pub text_is : t ≡ first ∷ others
  pub solid : is_space first ≡ false
  pub trimmed : strip t ≡ t
  pub one_row : all (λ c. not (c == 10)) t ≡ true
  pub no_anchor : is_none (first_match candidate_at t) ≡ true

require-ok : (b : Bool) (e : HeadingError) (u : Unit {0}) → require b e ≡ ok u → b ≡ true
require-ok true e u h = refl
require-ok false e u h = cc

refused {ℓ κ} : {E : Type ℓ} {A : Type κ} {e : E} {a : A} → ◌≡◌ {A = Result E A} (err e) (ok a) → ⊥
refused h = cc

validate_item_id-ok : (id v : Text) → validate_item_id id ≡ ok v → is_valid_item_id id ≡ true
unfolding validate_item_id
validate_item_id-ok id v h = elim (Bool-cases (is_valid_item_id id)) [
  | inl e ↦ e
  | inr e ↦ absurd (refused (rw e at h))
]

check_edges-All :
    (es : List (Text × Text)) (u : Unit {0}) → check_edges es ≡ ok u → All IsPlainEdge es
unfolding check_edges
check_edges-All [] u h = tt
check_edges-All ((kind, target) ∷ es) u h =
    let (a, p, h1) = >>=-eq-ok (require (text_in kind known_edge_types) (unknown_edge kind)) _ h in
    let (b, q, h2) = >>=-eq-ok (validate_item_id target) _ h1 in
    (
      known-IsPlainEdge kind target (require-ok _ _ a p) (validate_item_id-ok target b q),
      check_edges-All es u h2,
    )

solid_parts :
    (t : Text)
    → (t ≡ [] → ⊥)
    → IsSolid t
    → (c : ℕ) × (cs : Text) × (t ≡ c ∷ cs) × (is_space c ≡ false)
solid_parts [] f h = absurd (f refl)
solid_parts (c ∷ cs) f h = (c, cs, refl, h)

not_empty : (t : Text) → not (text_eq t []) ≡ true → t ≡ [] → ⊥
not_empty t h q = ground (arith, text_eq_iff t [])

strip-IsTitle :
    (title : Text)
    → not (text_eq (strip title) []) ≡ true
    → fits_one_line (splitlines (strip title)) ≡ true
    → is_none (first_match candidate_at (strip title)) ≡ true
    → IsTitle (strip title)
strip-IsTitle title filled row clear =
    let (c, cs, e, h) = solid_parts (strip title) (not_empty _ filled) (strip-IsSolid title) in
    record {
      first = c;
      others = cs;
      text_is = e;
      solid = h;
      trimmed = strip_idem title;
      one_row = elim (strip-last title) [
        | inl q ↦ absurd (not_empty _ filled q)
        | inr (front, d, q, k) ↦
            ap (all (λ x. not (x == 10))) q
            ∙ one_line front d k (sym (ap (λ x. fits_one_line (splitlines x)) q) ∙ row)
      ];
      no_anchor = clear;
    }

pub validate_heading_title-IsTitle :
    (title clean : Text)
    → validate_heading_title title ≡ ok clean
    → IsTitle clean × (strip title ≡ clean)
unfolding validate_heading_title has_no_anchor
validate_heading_title-IsTitle title clean h =
    let t = strip title in
    let (a, p, h1) = >>=-eq-ok (require (not (text_eq t [])) bad_title) _ h in
    let (b, q, h2) =
      >>=-eq-ok (require (fits_one_line (splitlines t) && not (any (λ c. c == 0) t)) bad_title) _
        h1 in
    let (c, r, h3) = >>=-eq-ok (require (has_no_anchor t) anchor_in_title) _ h2 in
    let same : t ≡ clean = ok_injective h3 in
    let filled : not (text_eq t []) ≡ true = require-ok _ _ a p in
    let row : fits_one_line (splitlines t) ≡ true = ground (arith, require-ok _ _ b q) in
    let clear : is_none (first_match candidate_at t) ≡ true = ground (arith, require-ok _ _ c r) in
    (subst IsTitle same (strip-IsTitle title filled row clear), same)

-- The anchor of a heading, and what follows it
abbrev pub anchor_part : AnchorKind → Text → List (Text × Text) → Text
anchor_part kind id edges = b'{' ∷ (kind_text kind ++ (id ++ b'}' ∷ edges_suffix edges))

-- The heading that is written
abbrev pub heading_text : ℕ → Text → AnchorKind → Text → List (Text × Text) → Text
heading_text depth title kind id edges =
    marks depth ++ b' ' ∷ (title ++ b' ' ∷ anchor_part kind id edges)

abbrev pub heading_read : ℕ → Text → AnchorKind → Text → List (Text × Text) → AddressableHeading
heading_read depth title kind id edges = record {
  depth = depth;
  title = title;
  anchor_kind = kind;
  id = id;
  edges = edges;
  malformed_edges = [];
}

edges_part-read :
    (es : List (Text × Text))
    → All IsPlainEdge es
    → parse_edges (edges_text (edges_part es)) ≡ record { edges = es; malformed = [] }
unfolding parse_edges parse_tokens add_token edges_text split_on strip lstrip
edges_part-read [] h = refl
edges_part-read (e ∷ es) (p, ps) = parse_edges-join e es p ps

pub heading_text-IsClosed :
    (depth : ℕ) (title : Text) (kind : AnchorKind) (id : Text) (edges : List (Text × Text))
    → IsClosed (heading_text depth title kind id edges)
heading_text-IsClosed depth title kind id edges = append-IsClosed (marks depth) _ (
    cons-IsClosed b' ' _ (
      append-IsClosed title _ (
        cons-IsClosed b' ' _ (
          cons-IsClosed b'{' _ (
            append-IsClosed (kind_text kind) _
              (append-IsClosed id _ (edges_suffix-IsClosed edges)))))))

lstrip-title : (t r : Text) → IsTitle t → lstrip (t ++ r) ≡ t ++ r
unfolding lstrip
lstrip-title t r h = rw (h.text_is, h.solid) refl

module _ (title : Text) (kind : AnchorKind) (id : Text) (edges : List (Text × Text)) where
  pub match_anchor-heading_text :
      (n : ℕ)
      → IsTitle title
      → is_valid_item_id id ≡ true
      → All IsPlainEdge edges
      → match_anchor (heading_text (suc n) title kind id edges)
        ≡ some
            (suc n, title ++ b' ' ∷ [], record { kind = kind; id = id; edges = edges_part edges })
  unfolding match_anchor search_anchor
  match_anchor-heading_text n h v es =
      rw
        (
          heading_at-marks n (title ++ b' ' ∷ anchor_part kind id edges),
          lstrip-title title (b' ' ∷ anchor_part kind id edges) h,
          search_anchor,
          first_match-title title (anchor_part kind id edges) _ h.no_anchor h.one_row
              (anchor_at-written kind id edges v es),
        )
        refl

  heading_text-read :
      (n : ℕ)
      → IsTitle title
      → is_valid_item_id id ≡ true
      → All IsPlainEdge edges
      → parse_addressable_heading (heading_text (suc n) title kind id edges)
        ≡ some (heading_read (suc n) title kind id edges)
  unfolding parse_addressable_heading addressable
  heading_text-read n h v es =
      rw
        (
          parse_addressable_heading,
          without_newline-closed _ (heading_text-IsClosed (suc n) title kind id edges),
          match_anchor-heading_text n h v es,
          edges_part-read edges es,
          strip-snoc_space title,
          h.trimmed,
        )
        refl

at_least_one : (n : ℕ) → leb 1 n ≡ true → (k : ℕ) × (n ≡ suc k)
at_least_one zero h = ground arith
at_least_one (suc k) h = (k, refl)

-- A heading that was rendered is the text of its parts, each of which passed its check.
pub record IsRendered (title : Text) (id : Text) (edges : List (Text × Text)) (depth : ℕ)
    : Type 0 where
  pub good_title : IsTitle (strip title)
  pub checked_title : validate_heading_title title ≡ ok (strip title)
  pub good_id : is_valid_item_id id ≡ true
  pub good_edges : All IsPlainEdge edges
  pub above : ℕ
  pub depth_is : depth ≡ suc above

pub render_heading_line-IsRendered :
    (title : Text) (kind : AnchorKind) (id : Text) (edges : List (Text × Text)) (depth : ℕ)
    → (line : Text) → render_heading_line title kind id edges depth ≡ ok line
    → IsRendered title id edges depth × (heading_text depth (strip title) kind id edges ≡ line)
unfolding render_heading_line
render_heading_line-IsRendered title kind id edges depth line h =
    let (clean, p, h1) = >>=-eq-ok (validate_heading_title title) _ h in
    let (v, q, h2) = >>=-eq-ok (validate_item_id id) _ h1 in
    let (u, r, h3) =
      >>=-eq-ok
        (require (leb 1 depth && leb depth 4 && not (depth == 4 && not (is_terminal kind)))
          bad_depth)
        _ h2 in
    let (w, s, h4) = >>=-eq-ok (check_edges edges) _ h3 in
    let (good, same) = validate_heading_title-IsTitle title clean p in
    let (k, e) = at_least_one depth (ground (arith, require-ok _ _ u r)) in
    (
      record {
        good_title = subst IsTitle (sym same) good;
        checked_title = p ∙ ap ok (sym same);
        good_id = validate_item_id-ok id v q;
        good_edges = check_edges-All edges w s;
        above = k;
        depth_is = e;
      },
      ap (λ t. heading_text depth t kind id edges) same ∙ ok_injective h4,
    )

-- A heading that was rendered is read as an addressable heading of the same depth, kind, id and edges,
-- with the stripped title and no malformed edge.
pub parse_addressable_heading-render_heading_line :
    (title : Text) (kind : AnchorKind) (id : Text) (edges : List (Text × Text)) (depth : ℕ)
    → (line : Text) → render_heading_line title kind id edges depth ≡ ok line
    → parse_addressable_heading line ≡ some (heading_read depth (strip title) kind id edges)
parse_addressable_heading-render_heading_line title kind id edges depth line h =
    let (good, e) = render_heading_line-IsRendered title kind id edges depth line h in
    rw (sym e, good.depth_is)
      (heading_text-read (strip title) kind id edges good.above good.good_title good.good_id
        good.good_edges)
