-- ===== src/Graph/Parse.antt =====
-- `_parse_document` of rightmemory/graph.py: the loop over the lines of one document.
pub mod Grows
pub mod Stack
use right_memory.Common.{
  ℕ, zero, suc, ◌+◌, ◌-◌, Bool, true, false, not, ◌&&◌, ◌||◌, Option, none, some, List, [], ◌∷◌,
  ◌++◌, Text, codes, text_eq, strip, leb, ltb, ◌==◌, length, any, if◌then◌else◌,
}
use right_memory.Graph.Grammar.{
  is_valid_item_id, AnchorKind, file, is_terminal, heading_at, parse_edges,
}
use right_memory.Graph.Nodes.{node_candidate, node_match, NodeMatch, node_prose}
use right_memory.Graph.Lines.{fence_at, legacy_field, is_focus_heading, HeadingInfo, heading_info}
use right_memory.Graph.Model.{
  Family, memory, pursuit, is_memory, BlockKey, BlockKind, heading_block, node_block, focus_block,
  DocumentBlock, GraphItem, BackingReference, GraphError, bad_focus_id, bad_node_id,
  node_without_edges, child_of_file, node_of_file, child_of_terminal, node_of_terminal, too_deep,
  not_terminal, not_under_depth_three, kind_not_allowed, memory_only, reserved_id, GraphManifest,
  add_error, error_if, change_block, append_text, add_block, record_item, backing_reference,
  record_backing, kind_eq, update_block,
}
use right_memory.Graph.State.{
  ParseProfile, Files, OpenHeading, ParseState, change, initial_state, parent_line, parent_depth,
  is_file_marker, is_terminal_marker, under_file, under_terminal,
}
use right_memory.Graph.Sections.{
  close_headings, check_depth, heading_of, heading_item, is_memory_only, add_reference,
  back_heading, enter_item, record_heading, problem_error, enters_focus, heading_line,
}
use right_memory.Graph.Bodies.{
  leaf_block, text_line, focus_line, or_id, node_item, node_line, item_line, focus_or_item,
  body_line,
}

-- Outside of a fence one opens; inside, one of the same character that is at least as long closes it.
unfoldable pub next_fence : Option (ℕ × ℕ) → ℕ × ℕ → Option (ℕ × ℕ)
next_fence none (mark, n) = some (mark, n)
next_fence (some (mark, n)) (mark', n') = if mark' == mark && leb n n' then none else some (mark, n)

unfoldable pub unfenced_line :
    Files → ParseProfile → Text → Family → ℕ → Text → ParseState → ParseState
unfolding heading_at heading_line body_line
unfenced_line fs profile name family n line s = elim (heading_at line) [
  | some found ↦ heading_line fs profile name family n line found s
  | none ↦ body_line name family n line s
]

unfoldable pub parse_line :
    Files → ParseProfile → Text → Family → ℕ → Text → ParseState → ParseState
unfolding next_fence append_text unfenced_line parent_line
parse_line fs profile name family n line s = elim (fence_at line) [
  | some found ↦ record (text_line name n line s) { fence = next_fence s.fence found }
  | none ↦ elim s.fence [
    | some open_fence ↦ text_line name n line s
    | none ↦ unfenced_line fs profile name family n line s
  ]
]

unfoldable pub parse_lines :
    Files → ParseProfile → Text → Family → ℕ → List Text → ParseState → ParseState
unfolding parse_line
parse_lines fs profile name family n [] s = s
parse_lines fs profile name family n (line ∷ lines) s =
    parse_lines fs profile name family (suc n) lines (parse_line fs profile name family n line s)

unfoldable pub close_all : Text → ℕ → List OpenHeading → GraphManifest → GraphManifest
unfolding update_block
close_all name n [] m = m
close_all name n (h ∷ hs) m =
    close_all name n hs (change_block (name, h.line_number) (λ b. record b { end_line = n }) m)

-- The manifest after the document, and its references to files of the graph
unfoldable pub parse_document :
    Files
    → ParseProfile
    → Text
    → Family
    → List Text
    → GraphManifest
    → GraphManifest × List (BlockKey × BackingReference)
unfolding parse_lines close_all
parse_document fs profile name family lines m =
    let s = parse_lines fs profile name family 1 lines (initial_state m) in
    (close_all name (length lines) s.stack s.manifest, s.references)
