-- ===== src/Graph/Load.antt =====
-- `_load_document`, `_finalize_document` and `_attach_detail_document` of rightmemory/graph.py: a document
-- with the files that its `F#` headings name, one below the other.
pub mod Grows
use right_memory.Common.{
  ℕ, zero, suc, ◌+◌, ◌-◌, Bool, true, false, not, ◌&&◌, ◌||◌, Option, none, some, List, [], ◌∷◌,
  ◌++◌, map, Text, codes, text_eq, text_in, strip, splitlines, leb, ltb, ◌==◌, length,
  if◌then◌else◌,
}
use right_memory.Graph.Model.{
  Family, BlockKey, key_eq, BlockKind, root_block, heading_block, is_heading, is_root, Part,
  line_part, block_part, Span, DocumentBlock, GraphItem, BackingReference, GraphError,
  not_a_regular_file, cyclic_backing, attached_twice, ParsedDocument, GraphManifest, add_error,
  find_block, update_block, change_block, update_item,
}
use right_memory.Graph.State.{ParseProfile, Files}
use right_memory.Graph.Parse.{parse_document}

-- The line of the first child that is a heading
unfoldable pub first_heading : List DocumentBlock → List BlockKey → Option ℕ
unfolding find_block is_heading
first_heading bs [] = none
first_heading bs (k ∷ ks) =
    let rest = first_heading bs ks in
    elim (find_block k bs) [ none ↦ rest | some b ↦ if is_heading b.kind then some k.1 else rest ]

unfoldable pub span_of : ℕ → ℕ → Option Span
span_of start stop = if leb start stop then some (start, stop) else none

unfoldable pub body_end : Option ℕ → ℕ → ℕ
body_end none stop = stop
body_end (some n) stop = n - 1

unfoldable pub root_span : List DocumentBlock → DocumentBlock → Option Span
unfolding first_heading span_of body_end
root_span bs b = span_of 1 (body_end (first_heading bs b.physical_children) b.end_line)

unfoldable pub heading_span : List DocumentBlock → DocumentBlock → Option Span
unfolding first_heading span_of body_end
heading_span bs b =
    span_of (suc b.key.1) (body_end (first_heading bs b.physical_children) b.end_line)

unfoldable pub finalize_block : Text → List DocumentBlock → DocumentBlock → DocumentBlock
unfolding root_span heading_span is_root is_heading
finalize_block name bs b =
    if not (text_eq b.key.0 name)
    then b
    else if is_root b.kind
    then record b { body_span = root_span bs b }
    else if is_heading b.kind
    then record b { body_span = heading_span bs b }
    else b

unfoldable pub finalize_item : Text → List DocumentBlock → GraphItem → GraphItem
unfolding find_block
finalize_item name bs i =
    if text_eq i.block_key.0 name
    then elim (find_block i.block_key bs) [
      | none ↦ i
      | some b ↦ record i { item_end = b.end_line; item_body = b.body_span }
    ]
    else i

-- `_finalize_document`
unfoldable pub finalize_document : Text → GraphManifest → GraphManifest
unfolding finalize_block finalize_item
finalize_document name m =
    let bs = map (finalize_block name m.blocks) m.blocks in
    record m { blocks = bs; items = map (finalize_item name bs) m.items }

-- Whether an empty line goes between the text of a heading and the document that is put under it
unfoldable pub needs_gap : List Part → Bool
unfolding strip
needs_gap [] = true
needs_gap (line_part t ∷ []) = not (text_eq (strip t) [])
needs_gap (block_part k ∷ []) = true
needs_gap (p ∷ q ∷ ps) = needs_gap (q ∷ ps)

abbrev pub put_part : Part → DocumentBlock → DocumentBlock
put_part p b = record b { logical_parts = b.logical_parts ++ p ∷ [] }

unfoldable pub is_parent : Option BlockKey → BlockKey → Bool
unfolding key_eq
is_parent none key = false
is_parent (some k) key = key_eq k key

unfoldable pub same_key : Option Text → BlockKey → GraphItem → Bool
unfolding key_eq
same_key none key i = false
same_key (some id) key i = text_eq i.id id && key_eq i.block_key key

-- `_update_item_logical_parent`
unfoldable pub move_item : DocumentBlock → BlockKey → List GraphItem → List GraphItem
unfolding same_key
move_item child owner [] = []
move_item child owner (i ∷ is) =
    (if same_key child.item_id child.key i
      then record i { item_logical_parent = some owner }
      else i)
    ∷ move_item child owner is

unfoldable pub attach_child :
    BlockKey → BlockKey → BlockKey → DocumentBlock → GraphManifest → GraphManifest
unfolding is_parent update_block move_item
attach_child owner detail key child m =
    if is_parent child.logical_parent detail || is_parent child.logical_parent owner
    then record m {
      blocks =
          update_block owner
            (λ b.
              put_part (block_part key)
                (record b { logical_children = b.logical_children ++ key ∷ [] }))
            (update_block key (λ b. record b { logical_parent = some owner }) m.blocks);
      items = move_item child owner m.items;
    }
    else add_error (attached_twice child.key.0 owner.0 owner.1) m

unfoldable pub attach_parts : BlockKey → BlockKey → List Part → GraphManifest → GraphManifest
unfolding update_block find_block attach_child
attach_parts owner detail [] m = m
attach_parts owner detail (line_part t ∷ ps) m =
    attach_parts owner detail ps (change_block owner (put_part (line_part t)) m)
attach_parts owner detail (block_part key ∷ ps) m =
    attach_parts owner detail ps (elim (find_block key m.blocks) [
      | none ↦ m
      | some child ↦ attach_child owner detail key child m
    ])

unfoldable pub attach_text : BlockKey → DocumentBlock → GraphManifest → GraphManifest
unfolding update_block
attach_text owner detail m =
    change_block owner (λ b. record b { logical_text = b.logical_text ++ detail.logical_text }) m

unfoldable pub attach_below :
    BlockKey → DocumentBlock → DocumentBlock → GraphManifest → GraphManifest
unfolding needs_gap attach_parts attach_text update_block
attach_below key owner detail m =
    let spaced : GraphManifest =
      if needs_gap owner.logical_parts then change_block key (put_part (line_part [])) m else m in
    attach_text key detail (attach_parts key detail.key detail.logical_parts spaced)

-- `_attach_detail_document`
unfoldable pub attach_detail_document : BlockKey → BlockKey → GraphManifest → GraphManifest
unfolding find_block attach_below
attach_detail_document key root m = elim (find_block key m.blocks) [
  | none ↦ m
  | some owner ↦ elim (find_block root m.blocks) [
    | none ↦ m
    | some detail ↦ elim detail.logical_parts [ [] ↦ m | _ ∷ _ ↦ attach_below key owner detail m ]
  ]
]

unfoldable pub is_loaded : Text → List ParsedDocument → Bool
is_loaded name [] = false
is_loaded name (d ∷ ds) = text_eq d.name name || is_loaded name ds

abbrev pub root_of : Text → Family → ℕ → DocumentBlock
root_of name family lines = record {
  key = (name, 0);
  kind = root_block;
  family = family;
  line = [];
  title = [];
  prose = [];
  depth = 0;
  end_line = lines;
  body_span = none;
  item_id = none;
  anchor_kind = none;
  focus_target = none;
  physical_parent = none;
  logical_parent = none;
  physical_children = [];
  logical_children = [];
  physical_parts = [];
  logical_parts = [];
  logical_text = [];
  traversal_rank = none;
}

abbrev pub with_document : Text → Family → Text → List Text → GraphManifest → GraphManifest
with_document name family text lines m = record m {
  blocks = m.blocks ++ root_of name family (length lines) ∷ [];
  documents =
      m.documents
      ++ (record { name = name; text = text; lines = lines; document_family = family }) ∷ [];
  graph_files = m.graph_files ++ name ∷ [];
}

-- `none` means that the fuel ran out, or that the text of a file was not read: `_read_text` raises then.
abbrev pub Loader : Type 0
Loader = Text → Family → List Text → GraphManifest → Option (Option BlockKey × GraphManifest)

unfoldable pub attach_loaded : BlockKey → Option BlockKey × GraphManifest → GraphManifest
unfolding attach_detail_document
attach_loaded owner (none, m) = m
attach_loaded owner (some root, m) = attach_detail_document owner root m

-- The loop over the references: a file that is missing or would make a cycle is passed over.
unfoldable pub load_references :
    Loader
    → Files
    → List Text
    → List (BlockKey × BackingReference)
    → GraphManifest
    → Option GraphManifest
unfolding attach_loaded
load_references load fs stack [] m = some m
load_references load fs stack ((owner, r) ∷ rs) m =
    if not (fs.is_regular r.path)
    then load_references load fs stack rs m
    else if text_in r.path stack
    then load_references load fs stack rs (add_error (cyclic_backing r.path owner.0 owner.1) m)
    else elim (load r.path r.backed_family stack m) [
      | none ↦ none
      | some found ↦ load_references load fs stack rs (attach_loaded owner found)
    ]

unfoldable pub rooted : Text → Option GraphManifest → Option (Option BlockKey × GraphManifest)
rooted name none = none
rooted name (some m) = some (some (name, 0), m)

-- A new document with its text: its lines, then its references
unfoldable pub load_text : Loader → Files → ParseProfile → Text → Loader
unfolding load_references finalize_document parse_document rooted
load_text load fs profile text name family stack m =
    let lines = splitlines text in
    let (parsed, references) =
      parse_document fs profile name family lines (with_document name family text lines m) in
    rooted name (load_references load fs (name ∷ stack) references (finalize_document name parsed))

unfoldable pub load_new : Loader → Files → ParseProfile → Loader
unfolding load_text
load_new load fs profile name family stack m = elim (fs.read_text name) [
  | none ↦ none
  | some text ↦ load_text load fs profile text name family stack m
]

-- `_load_document`; the stack of paths has the innermost first.
unfoldable pub load_document : ℕ → Files → ParseProfile → Loader
unfolding load_new is_loaded
load_document zero fs profile name family stack m = none
load_document (suc fuel) fs profile name family stack m =
    if not (fs.is_regular name)
    then some (none, add_error (not_a_regular_file name) m)
    else if is_loaded name m.documents
    then some (some (name, 0), m)
    else load_new (load_document fuel fs profile) fs profile name family stack m
