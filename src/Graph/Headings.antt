-- ===== src/Graph/Headings.antt =====
-- The headings and nodes of rightmemory/graph.py, read, rendered and patched.
pub mod Edges
pub mod Anchors
pub mod Lines
pub mod Titles
pub mod RoundTrip
pub mod Replace
use mathlib.Core.List.{reverse}
use right_memory.Common.{
  ℕ, zero, suc, Bool, true, false, not, ◌&&◌, ◌||◌, Option, none, some, List, [], ◌∷◌, ◌++◌, map,
  Text, codes, text_eq, text_in, strip, lstrip, is_space, span, split_on, join, splitlines, any,
  length, leb, ◌==◌, if◌then◌else◌, Result, ok, err, require, ◌>>=◌, ◌>>◌,
}
use right_memory.Graph.Grammar.{
  is_valid_item_id, known_edge_types, AnchorKind, kind_text, is_terminal, Anchor, anchor_at,
  candidate_at, marker_at, arrow_at, list_at, first_match, heading_at, edge_of, parse_edges,
}
use right_memory.Graph.Nodes.{
  is_not_tick, close_tick, open_tick, after_dash, item_at, space_follows, node_candidate,
  node_edges_at, NodeMatch, node_match, node_prose,
}

pub data HeadingError : Type 0 where
  bad_id bad_title anchor_in_title bad_depth not_a_heading : HeadingError
  unknown_edge : Text → HeadingError

unfoldable pub validate_item_id : Text → Result HeadingError Text
validate_item_id value = if is_valid_item_id value then ok value else err bad_id

pub record AddressableHeading : Type 0 where
  pub depth : ℕ
  pub title : Text
  pub anchor_kind : AnchorKind
  pub id : Text
  pub edges : List (Text × Text)
  pub malformed_edges : List Text

-- `line.rstrip("\r\n")`
unfoldable pub is_newline : ℕ → Bool
is_newline c = c == 10 || c == 13

unfoldable pub without_newline : Text → Text
unfolding is_newline span
without_newline line = reverse (span is_newline (reverse line)).1

-- `ANCHOR_RE`: the depth, the text before the anchor, and the anchor
unfoldable pub search_anchor : Option (ℕ × Text) → Option (ℕ × Text × Anchor)
unfolding first_match anchor_at
search_anchor none = none
search_anchor (some (depth, body)) = elim (first_match anchor_at body) [
  | none ↦ none
  | some (before, anchor) ↦ some (depth, before, anchor)
]

unfoldable pub match_anchor : Text → Option (ℕ × Text × Anchor)
unfolding search_anchor heading_at
match_anchor line = search_anchor (heading_at line)

-- `match.group(4) or ""`
unfoldable pub edges_text : Option Text → Text
edges_text none = []
edges_text (some t) = t

unfoldable pub addressable : ℕ × Text × Anchor → AddressableHeading
unfolding edges_text parse_edges strip
addressable (depth, before, anchor) =
    let found = parse_edges (edges_text anchor.edges) in
    record {
      depth = depth;
      title = strip before;
      anchor_kind = anchor.kind;
      id = anchor.id;
      edges = found.edges;
      malformed_edges = found.malformed;
    }

unfoldable pub parse_addressable_heading : Text → Option AddressableHeading
unfolding match_anchor without_newline addressable
parse_addressable_heading line = elim (match_anchor (without_newline line)) [
  | none ↦ none
  | some found ↦ some (addressable found)
]

unfoldable pub plain_title : Option (ℕ × Text) → Result HeadingError Text
plain_title none = err not_a_heading
plain_title (some (depth, body)) = ok (strip body)

unfoldable pub heading_title : Text → Result HeadingError Text
unfolding parse_addressable_heading plain_title heading_at
heading_title line = elim (parse_addressable_heading line) [
  | some heading ↦ ok heading.title
  | none ↦ plain_title (heading_at line)
]

unfoldable pub is_none {ℓ} : {A : Type ℓ} → Option A → Bool
is_none none = true
is_none (some a) = false

-- No anchor, valid or not, begins in the text.
unfoldable pub has_no_anchor : Text → Bool
unfolding first_match candidate_at marker_at is_none
has_no_anchor title =
    is_none (first_match candidate_at title) && is_none (first_match marker_at title)

unfoldable pub fits_one_line : List Text → Bool
fits_one_line (line ∷ []) = true
fits_one_line _ = false

-- The title stripped, where it may stand in a heading. `\s+` of the probe takes no part of it.
unfoldable pub validate_heading_title : Text → Result HeadingError Text
unfolding fits_one_line has_no_anchor strip
validate_heading_title title = do
  let clean = strip title
  require (not (text_eq clean [])) bad_title
  require (fits_one_line (splitlines clean) && not (any (λ c. c == 0) clean)) bad_title
  require (has_no_anchor clean) anchor_in_title
  ok clean

unfoldable pub check_edges : List (Text × Text) → Result HeadingError (Unit {0})
unfolding validate_item_id
check_edges [] = ok tt
check_edges ((kind, target) ∷ edges) = do
  require (text_in kind known_edge_types) (unknown_edge kind)
  validate_item_id target
  check_edges edges

unfoldable pub edge_text : Text × Text → Text
edge_text (kind, target) = kind ++ b':' ∷ target

unfoldable pub edges_suffix : List (Text × Text) → Text
unfolding edge_text join
edges_suffix [] = []
edges_suffix (edge ∷ edges) =
    b' ' ∷ 8594 ∷ b' ' ∷ b'[' ∷ (join (codes ", ") (map edge_text (edge ∷ edges)) ++ codes "]")

unfoldable pub marks : ℕ → Text
marks zero = []
marks (suc n) = b'#' ∷ marks n

unfoldable pub render_heading_line :
    Text → AnchorKind → Text → List (Text × Text) → ℕ → Result HeadingError Text
unfolding validate_heading_title validate_item_id check_edges edges_suffix marks kind_text
render_heading_line title kind item_id edges depth = do
  clean ← validate_heading_title title
  validate_item_id item_id
  require (leb 1 depth && leb depth 4 && not (depth == 4 && not (is_terminal kind))) bad_depth
  check_edges edges
  ok (
      marks depth
      ++ b' ' ∷ (clean ++ b' ' ∷ b'{' ∷ (kind_text kind ++ (item_id ++ b'}' ∷ edges_suffix edges))))

-- The space at the end of the old title stays.
unfoldable pub trailing_space : Text → Text
unfolding span
trailing_space s = reverse (span is_space (reverse s)).0

unfoldable pub leading : ℕ → Text → Text
leading zero s = []
leading (suc n) [] = []
leading (suc n) (c ∷ s) = c ∷ leading n s

unfoldable pub dropped : ℕ → Text → Text
dropped zero s = s
dropped (suc n) [] = []
dropped (suc n) (c ∷ s) = dropped n s

-- `line[:heading.end()]`, and what follows
unfoldable pub patch_title : Text → Text → Option (ℕ × Text × Anchor) → Result HeadingError Text
unfolding trailing_space leading dropped span heading_at
patch_title line title none = err not_a_heading
patch_title line title (some (depth, before, anchor)) =
    let (head, body) = span is_space (dropped depth line) in
    ok (
      leading depth line
      ++ (head ++ (title ++ (trailing_space before ++ dropped (length before) body))))

unfoldable pub replace_heading_title : Text → Text → Result HeadingError Text
unfolding validate_heading_title patch_title match_anchor without_newline
replace_heading_title line title = do
  clean ← validate_heading_title title
  patch_title line clean (match_anchor (without_newline line))

-- The tokens that `remove_edge_targets` keeps
unfoldable pub is_deleted : List Text → Text → Bool
unfolding edge_of
is_deleted deleted token = elim (edge_of token) [
  | none ↦ false
  | some (kind, target) ↦ text_in target deleted
]

unfoldable pub kept_tokens : List Text → List Text → List Text
unfolding is_deleted
kept_tokens deleted [] = []
kept_tokens deleted (t ∷ ts) =
    let rest = kept_tokens deleted ts in if is_deleted deleted t then rest else t ∷ rest

-- `match.group(4)` of an anchor, or else `match.group(2)` of a node
unfoldable pub edge_group : Text → Option Text
unfolding match_anchor node_match
edge_group source = elim (match_anchor source) [
  | some (depth, before, anchor) ↦ anchor.edges
  | none ↦ elim (node_match source) [ none ↦ none | some node ↦ some node.edges ]
]

-- The line with other text in its list of edges, which is the last thing in it
unfoldable pub with_edges : Text → Text → Text → Text
unfolding span dropped
with_edges line old new =
    let (space, rest) = span is_space (reverse line) in
    reverse (dropped (length old) (dropped 1 rest)) ++ (new ++ b']' ∷ reverse space)

unfoldable pub remove_edge_targets : Text → List Text → Text
unfolding edge_group kept_tokens with_edges without_newline split_on join
remove_edge_targets line deleted = elim (edge_group (without_newline line)) [
  | none ↦ line
  | some edges ↦
      if length (kept_tokens deleted (split_on b',' edges)) == length (split_on b',' edges)
      then line
      else with_edges line edges (join (codes ",") (kept_tokens deleted (split_on b',' edges)))
]
