-- ===== src/Graph/Sections.antt =====
-- What `_parse_document` of rightmemory/graph.py does with a heading line.
use right_memory.Common.{
  ℕ, ◌-◌, Bool, true, false, not, ◌&&◌, Option, none, some, List, [], ◌∷◌, ◌++◌, Text, codes,
  text_eq, leb, ltb, ◌==◌, if◌then◌else◌,
}
use right_memory.Graph.Grammar.{AnchorKind, file, is_terminal, parse_edges}
use right_memory.Graph.Lines.{is_focus_heading, HeadingInfo, heading_info}
use right_memory.Graph.Model.{
  Family, is_memory, BlockKey, heading_block, DocumentBlock, GraphItem, BackingReference,
  GraphError, child_of_file, child_of_terminal, too_deep, not_terminal, not_under_depth_three,
  kind_not_allowed, memory_only, reserved_id, GraphManifest, add_error, error_if, change_block,
  add_block, record_item, backing_reference, record_backing, kind_eq, update_block,
}
use right_memory.Graph.State.{
  ParseProfile, Files, OpenHeading, ParseState, change, parent_line, parent_depth,
  is_terminal_marker, under_file, under_terminal,
}

-- `while stack and blocks[stack[-1]].depth >= depth: ...`
unfoldable pub close_headings :
    Text → ℕ → ℕ → List OpenHeading → GraphManifest → List OpenHeading × GraphManifest
unfolding update_block
close_headings name depth n [] m = ([], m)
close_headings name depth n (h ∷ hs) m =
    let closed =
      close_headings name depth n hs
        (change_block (name, h.line_number) (λ b. record b { end_line = n - 1 }) m) in
    if leb depth h.depth then closed else (h ∷ hs, m)

unfoldable pub check_depth :
    Text → ℕ → ℕ → List OpenHeading → HeadingInfo → GraphManifest → GraphManifest
unfolding is_terminal_marker parent_depth
check_depth name n depth stack info m =
    if ltb 4 depth
    then add_error (too_deep name n) m
    else if depth == 4
    then error_if (not (parent_depth stack == 3)) (not_under_depth_three name n) (
        error_if
          (not (is_terminal_marker info.marker && elim info.id [ none ↦ false | some id ↦ true ]))
          (not_terminal name n) m)
    else m

abbrev pub heading_of :
    Text → Family → ℕ → ℕ → List OpenHeading → Text → HeadingInfo → DocumentBlock
heading_of name family n depth stack line info = record {
  key = (name, n);
  kind = heading_block;
  family = family;
  line = line;
  title = info.title;
  prose = [];
  depth = depth;
  end_line = n;
  body_span = none;
  item_id = info.id;
  anchor_kind = info.marker;
  focus_target = none;
  physical_parent = some (name, parent_line stack);
  logical_parent = some (name, parent_line stack);
  physical_children = [];
  logical_children = [];
  physical_parts = [];
  logical_parts = [];
  logical_text = [];
  traversal_rank = none;
}

abbrev pub heading_item :
    Text → Family → ℕ → List OpenHeading → HeadingInfo → Text → AnchorKind → GraphItem
heading_item name family n stack info id kind =
    let found = parse_edges info.edge_text in
    record {
      id = id;
      file_name = name;
      line_number = n;
      item_family = family;
      is_heading_item = true;
      marker = some kind;
      edges = found.edges;
      malformed_edges = found.malformed;
      item_title = info.title;
      item_prose = [];
      block_key = (name, n);
      item_end = 0;
      item_body = none;
      item_parent = some (name, parent_line stack);
      item_logical_parent = some (name, parent_line stack);
      item_rank = none;
    }

-- `MEMORY_ONLY_ANCHOR_KINDS`
unfoldable pub is_memory_only : AnchorKind → Bool
unfolding kind_eq is_terminal
is_memory_only kind = is_terminal kind && not (kind_eq kind file)

unfoldable pub add_reference :
    BlockKey
    → BackingReference
    → List (BlockKey × BackingReference)
    → List (BlockKey × BackingReference)
unfolding kind_eq
add_reference key r rs = if kind_eq r.backed_kind file then rs ++ (key, r) ∷ [] else rs

-- The backing file of a heading, if its kind has one
unfoldable pub back_heading : Files → AnchorKind → GraphItem → ParseState → ParseState
unfolding backing_reference record_backing add_reference
back_heading fs kind item s = elim (backing_reference kind item) [
  | none ↦ s
  | some r ↦ record s {
    manifest = record_backing fs.is_regular fs.casefold r s.manifest;
    references = add_reference item.block_key r s.references;
  }
]

unfoldable pub enter_item :
    Files → ParseProfile → Family → AnchorKind → GraphItem → ParseState → ParseState
unfolding record_item is_memory_only back_heading is_memory kind_eq
enter_item fs profile family kind item s =
    let recorded =
      change
        (λ m.
          error_if (is_memory_only kind && not (is_memory family))
            (memory_only item.id item.file_name item.line_number)
            (error_if (not (profile.is_allowed kind) && is_memory family)
              (kind_not_allowed item.id item.file_name item.line_number) (record_item item m)))
        s in
    if kind_eq kind file && not (is_memory family) && text_eq (fs.casefold item.id) (codes "rules")
    then change (add_error (reserved_id item.id item.file_name item.line_number)) recorded
    else back_heading fs kind item recorded

unfoldable pub record_heading :
    Files
    → ParseProfile
    → Text
    → Family
    → ℕ
    → List OpenHeading
    → HeadingInfo
    → ParseState
    → ParseState
unfolding enter_item parse_edges parent_line
record_heading fs profile name family n stack info s = elim info.id [
  | none ↦ s
  | some id ↦ elim info.marker [
    | none ↦ s
    | some kind ↦
        enter_item fs profile family kind (heading_item name family n stack info id kind) s
  ]
]

unfoldable pub problem_error : Option GraphError → GraphManifest → GraphManifest
problem_error none m = m
problem_error (some e) m = add_error e m

unfoldable pub enters_focus : ParseProfile → Family → ℕ → Text → Bool → Bool
unfolding is_memory is_focus_heading
enters_focus profile family depth body old =
    if not (is_memory family) && leb depth 2
    then profile.allow_focus && is_focus_heading depth body
    else old

unfoldable pub heading_line :
    Files → ParseProfile → Text → Family → ℕ → Text → ℕ × Text → ParseState → ParseState
unfolding close_headings heading_info problem_error add_block under_file under_terminal check_depth
    enters_focus record_heading is_memory parent_line
heading_line fs profile name family n line (depth, body) s =
    let (stack, m) = close_headings name depth n s.stack s.manifest in
    let info = heading_info name n body in
    let placed =
      add_block (name, parent_line stack) (heading_of name family n depth stack line info)
        (problem_error info.problem m) in
    let checked = check_depth name n depth stack info (
      error_if (under_terminal stack) (child_of_terminal name n)
        (error_if (under_file stack) (child_of_file name n) placed)) in
    let s' = record_heading fs profile name family n stack info (record s {
      manifest = checked;
      in_focus = enters_focus profile family depth body s.in_focus;
      in_pursuit_next = if is_memory family then s.in_pursuit_next else false;
    }) in
    record s' { stack = (record { line_number = n; depth = depth; marker = info.marker }) ∷ stack }
