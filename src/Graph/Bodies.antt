-- ===== src/Graph/Bodies.antt =====
-- What `_parse_document` of rightmemory/graph.py does with a line that is no heading: a node, a focus
-- reference, or text.
use right_memory.Common.{
  ℕ, false, not, ◌&&◌, Option, none, some, List, [], ◌∷◌, ◌++◌, Text, strip, if◌then◌else◌,
}
use right_memory.Graph.Grammar.{is_valid_item_id, parse_edges}
use right_memory.Graph.Nodes.{node_candidate, node_match, NodeMatch, node_prose}
use right_memory.Graph.Lines.{legacy_field}
use right_memory.Graph.Model.{
  Family, memory, pursuit, is_memory, BlockKind, node_block, focus_block, DocumentBlock, GraphItem,
  bad_focus_id, bad_node_id, node_without_edges, node_of_file, node_of_terminal, add_error,
  error_if, append_text, add_block, record_item,
}
use right_memory.Graph.State.{
  OpenHeading, ParseState, change, parent_line, under_file, under_terminal,
}

abbrev pub leaf_block :
    Text
    → Family
    → ℕ
    → List OpenHeading
    → Text
    → BlockKind
    → Text
    → Text
    → Option Text
    → Option Text
    → DocumentBlock
leaf_block name family n stack line kind title prose id target = record {
  key = (name, n);
  kind = kind;
  family = family;
  line = line;
  title = title;
  prose = prose;
  depth = 0;
  end_line = n;
  body_span = none;
  item_id = id;
  anchor_kind = none;
  focus_target = target;
  physical_parent = some (name, parent_line stack);
  logical_parent = some (name, parent_line stack);
  physical_children = [];
  logical_children = [];
  physical_parts = [];
  logical_parts = [];
  logical_text = [];
  traversal_rank = none;
}

abbrev pub text_line : Text → ℕ → Text → ParseState → ParseState
text_line name n line s = change (append_text (name, parent_line s.stack) line n) s

unfoldable pub focus_line : Text → Family → ℕ → Text → Text → ParseState → ParseState
unfolding is_valid_item_id append_text add_block parent_line
focus_line name family n line id s =
    if not (is_valid_item_id id)
    then text_line name n line (change (add_error (bad_focus_id id name n)) s)
    else change
        (λ m.
          let placed =
            add_block (name, parent_line s.stack)
              (leaf_block name family n s.stack line focus_block [] [] none (some id)) m in
          record placed {
            focus_ids = placed.focus_ids ++ (id, name, n) ∷ [];
            focus_blocks = placed.focus_blocks ++ (name, n) ∷ [];
          })
        s

-- `prose or node_id`
unfoldable pub or_id : Text → Text → Text
or_id [] id = id
or_id (c ∷ prose) id = c ∷ prose

abbrev pub node_item : Text → Family → ℕ → List OpenHeading → Text → NodeMatch → GraphItem
node_item name family n stack id node =
    let found = parse_edges node.edges in
    record {
      id = id;
      file_name = name;
      line_number = n;
      item_family = family;
      is_heading_item = false;
      marker = none;
      edges = found.edges;
      malformed_edges = found.malformed;
      item_title = or_id (node_prose node) id;
      item_prose = node_prose node;
      block_key = (name, n);
      item_end = n;
      item_body = none;
      item_parent = some (name, parent_line stack);
      item_logical_parent = some (name, parent_line stack);
      item_rank = none;
    }

unfoldable pub node_line : Text → Family → ℕ → Text → Text → ParseState → ParseState
unfolding is_valid_item_id append_text add_block record_item node_match or_id under_file
    under_terminal parse_edges strip parent_line
node_line name family n line id s =
    let s' =
      change
        (λ m.
          error_if (under_file s.stack) (node_of_file name n)
            (error_if (under_terminal s.stack) (node_of_terminal name n) m))
        s in
    if not (is_valid_item_id id)
    then text_line name n line (change (add_error (bad_node_id id name n)) s')
    else elim (node_match line) [
      | none ↦ text_line name n line (change (add_error (node_without_edges id name n)) s')
      | some node ↦
          change
            (λ m. record_item (node_item name family n s.stack id node) (
              add_block (name, parent_line s.stack)
                (leaf_block name family n s.stack line node_block (or_id (node_prose node) id)
                  (node_prose node) (some id) none)
                m))
            s'
    ]

-- A line that is no heading, after the tests for legacy fields and for focus references
unfoldable pub item_line : Text → Family → ℕ → Text → ParseState → ParseState
unfolding is_memory node_candidate node_line append_text parent_line
item_line name family n line s =
    if not (is_memory family) && s.in_pursuit_next
    then text_line name n line s
    else elim (node_candidate line) [
      | none ↦ text_line name n line s
      | some id ↦ node_line name family n line id s
    ]

unfoldable pub focus_or_item : Text → Family → ℕ → Text → ParseState → ParseState
unfolding node_candidate focus_line item_line
focus_or_item name family n line s =
    if s.in_focus
    then elim (node_candidate line) [
      | none ↦ item_line name family n line s
      | some id ↦ focus_line name family n line id s
    ]
    else item_line name family n line s

unfoldable pub body_line : Text → Family → ℕ → Text → ParseState → ParseState
unfolding legacy_field focus_or_item append_text parent_line
body_line name memory n line s = focus_or_item name memory n line s
body_line name pursuit n line s = elim (legacy_field line) [
  | some next ↦ text_line name n line (record s { in_pursuit_next = next })
  | none ↦ focus_or_item name pursuit n line s
]
