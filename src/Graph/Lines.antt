-- ===== src/Graph/Lines.antt =====
-- The line tests of `_parse_document` of rightmemory/graph.py that read no state.
use right_memory.Common.{
  ℕ, zero, suc, ◌+◌, Bool, true, false, ◌&&◌, ◌||◌, Option, none, some, [], ◌∷◌, Text, codes,
  text_eq, strip, lstrip, leb, ◌==◌, if◌then◌else◌,
}
use right_memory.Graph.Grammar.{
  is_valid_item_id, AnchorKind, anchor_at, candidate_at, marker_at, first_match,
}
use right_memory.Graph.Headings.{edges_text}
use right_memory.Graph.Model.{GraphError, malformed_edge_list, unsupported_marker, bad_heading_id}

-- `FENCE_RE`: the character of the fence, and its length
unfoldable pub run_of : ℕ → Text → ℕ
run_of mark [] = 0
run_of mark (c ∷ s) = let rest = run_of mark s in if c == mark then suc rest else 0

unfoldable pub fence_mark : Text → Option (ℕ × ℕ)
unfolding run_of
fence_mark [] = none
fence_mark (c ∷ s) =
    if (c == b'`' || c == b'~') && leb 2 (run_of c s) then some (c, suc (run_of c s)) else none

unfoldable pub fence_after : ℕ → Text → Option (ℕ × ℕ)
unfolding fence_mark
fence_after spaces [] = none
fence_after zero (c ∷ s) = fence_mark (c ∷ s)
fence_after (suc n) (c ∷ s) =
    let rest = fence_after n s in if c == b' ' then rest else fence_mark (c ∷ s)

abbrev pub fence_at : Text → Option (ℕ × ℕ)
fence_at line = fence_after 3 line

-- `re.IGNORECASE` for the letters of the words below
unfoldable pub fold_char : ℕ → ℕ
fold_char c = if leb b'A' c && leb c b'Z' then c + 32 else if c == 383 then b's' else c

unfoldable pub after_folded : Text → Text → Option Text
unfolding fold_char
after_folded [] s = some s
after_folded (p ∷ ps) [] = none
after_folded (p ∷ ps) (c ∷ s) = if fold_char c == p then after_folded ps s else none

unfoldable pub closes_field : Option Text → Bool
closes_field none = false
closes_field (some (c ∷ d ∷ e ∷ s)) = c == b':' && d == b'*' && e == b'*'
closes_field (some _) = false

-- `LEGACY_PURSUIT_FIELD_RE`: whether the field is `Next`
unfoldable pub field_word : Text → Option Bool
unfolding after_folded closes_field
field_word s =
    if closes_field (after_folded (codes "next") s)
    then some true
    else if closes_field (after_folded (codes "state") s)
        || closes_field (after_folded (codes "done when") s)
        || closes_field (after_folded (codes "status") s)
    then some false
    else none

unfoldable pub field_mark : Text → Option Bool
unfolding field_word
field_mark (c ∷ d ∷ s) = if c == b'*' && d == b'*' then field_word s else none
field_mark _ = none

unfoldable pub legacy_field : Text → Option Bool
unfolding field_mark lstrip
legacy_field line = field_mark (lstrip line)

unfoldable pub only_space : Option Text → Bool
unfolding lstrip
only_space none = false
only_space (some s) = text_eq (lstrip s) []

-- `FOCUS_HEADING_RE`, of the parts that `HEADING_RE` gives
unfoldable pub is_focus_heading : ℕ → Text → Bool
unfolding only_space after_folded
is_focus_heading depth body = depth == 2 && only_space (after_folded (codes "focus") body)

-- What a heading line says of its anchor
pub record HeadingInfo : Type 0 where
  pub marker : Option AnchorKind
  pub id : Option Text
  pub edge_text : Text
  pub title : Text
  pub problem : Option GraphError

unfoldable pub candidate_info : Text → ℕ → Text → AnchorKind × Text → HeadingInfo
unfolding strip is_valid_item_id
candidate_info name n before (kind, id) =
    if is_valid_item_id id
    then record {
      marker = some kind;
      id = some id;
      edge_text = [];
      title = strip before;
      problem = some (malformed_edge_list name n);
    }
    else record {
      marker = some kind;
      id = none;
      edge_text = [];
      title = strip before;
      problem = some (bad_heading_id id name n);
    }

unfoldable pub plain_info : Text → ℕ → Text → Option (Text × Text) → HeadingInfo
unfolding strip
plain_info name n body none = record {
  marker = none;
  id = none;
  edge_text = [];
  title = strip body;
  problem = none;
}
plain_info name n body (some (before, marker)) = record {
  marker = none;
  id = none;
  edge_text = [];
  title = strip before;
  problem = some (unsupported_marker name n);
}

unfoldable pub heading_info : Text → ℕ → Text → HeadingInfo
unfolding first_match anchor_at candidate_at marker_at candidate_info plain_info strip edges_text
heading_info name n body = elim (first_match anchor_at body) [
  | some (before, anchor) ↦ record {
    marker = some anchor.kind;
    id = some anchor.id;
    edge_text = edges_text anchor.edges;
    title = strip before;
    problem = none;
  }
  | none ↦ elim (first_match candidate_at body) [
    | some (before, found) ↦ candidate_info name n before found
    | none ↦ plain_info name n body (first_match marker_at body)
  ]
]
