-- ===== src/Graph/Model.antt =====
-- The records of rightmemory/graph.py, and the changes of a manifest that the parser makes. The documents
-- lie in one folder, so a path is the name of a file in it.
pub mod Grows
use right_memory.Common.{
  ℕ, zero, suc, ◌+◌, ◌-◌, Bool, true, false, not, ◌&&◌, ◌||◌, Option, none, some, List, [], ◌∷◌,
  ◌++◌, Text, codes, text_eq, text_in, ◌==◌, if◌then◌else◌,
}
use right_memory.Graph.Grammar.{AnchorKind, file, memory_file, skill, plain, kind_text}

pub data Family : Type 0 where
  memory pursuit : Family

unfoldable pub is_memory : Family → Bool
is_memory memory = true
is_memory pursuit = false

-- The file of a block, and the number of its line; the root of a document has line 0.
abbrev pub BlockKey : Type 0
BlockKey = Text × ℕ

unfoldable pub key_eq : BlockKey → BlockKey → Bool
key_eq (p, n) (q, m) = text_eq p q && n == m

pub data BlockKind : Type 0 where
  root_block heading_block node_block focus_block : BlockKind

unfoldable pub is_heading : BlockKind → Bool
is_heading heading_block = true
is_heading _ = false

unfoldable pub is_root : BlockKind → Bool
is_root root_block = true
is_root _ = false

pub data Part : Type 0 where
  line_part : Text → Part
  block_part : BlockKey → Part

abbrev pub Span : Type 0
Span = ℕ × ℕ

pub record DocumentBlock : Type 0 where
  pub key : BlockKey
  pub kind : BlockKind
  pub family : Family
  pub line : Text
  pub title : Text
  pub prose : Text
  pub depth : ℕ
  pub end_line : ℕ
  pub body_span : Option Span
  pub item_id : Option Text
  pub anchor_kind : Option AnchorKind
  pub focus_target : Option Text
  pub physical_parent : Option BlockKey
  pub logical_parent : Option BlockKey
  pub physical_children : List BlockKey
  pub logical_children : List BlockKey
  pub physical_parts : List Part
  pub logical_parts : List Part
  pub logical_text : List (Text × ℕ × Text)
  pub traversal_rank : Option ℕ

pub record GraphItem : Type 0 where
  pub id : Text
  pub file_name : Text
  pub line_number : ℕ
  pub item_family : Family
  pub is_heading_item : Bool
  pub marker : Option AnchorKind
  pub edges : List (Text × Text)
  pub malformed_edges : List Text
  pub item_title : Text
  pub item_prose : Text
  pub block_key : BlockKey
  pub item_end : ℕ
  pub item_body : Option Span
  pub item_parent : Option BlockKey
  pub item_logical_parent : Option BlockKey
  pub item_rank : Option ℕ

pub record BackingReference : Type 0 where
  pub backed_id : Text
  pub backed_kind : AnchorKind
  pub backed_family : Family
  pub source_file : Text
  pub source_line : ℕ
  pub path : Text

-- The errors of a manifest, by the message and what it speaks of
pub data GraphError : Type 0 where
  missing_root not_a_regular_file : Text → GraphError
  malformed_edge_list unsupported_marker : Text → ℕ → GraphError
  bad_heading_id bad_focus_id bad_node_id node_without_edges : Text → Text → ℕ → GraphError
  child_of_file node_of_file child_of_terminal node_of_terminal : Text → ℕ → GraphError
  too_deep not_terminal not_under_depth_three : Text → ℕ → GraphError
  kind_not_allowed memory_only reserved_id : Text → Text → ℕ → GraphError
  duplicate_id : Text → Text → ℕ → GraphError
  claimed_twice : Text → Text → ℕ → GraphError
  missing_backing : Text → Text → ℕ → GraphError
  cyclic_backing attached_twice : Text → Text → ℕ → GraphError
  malformed_edge duplicate_edge self_edge unknown_edge_type dangling_edge containment_edge :
      Text → Text × Text → GraphError
  duplicate_focus dangling_focus focus_not_heading : Text → Text → ℕ → GraphError
  unaddressed_prose : Text → ℕ → GraphError

pub record ParsedDocument : Type 0 where
  pub name : Text
  pub text : Text
  pub lines : List Text
  pub document_family : Family

pub record GraphManifest : Type 0 where
  pub graph_files : List Text
  pub non_graph_files : List Text
  pub documents : List ParsedDocument
  pub blocks : List DocumentBlock
  pub root_blocks : List BlockKey
  pub items : List GraphItem
  pub backing : List BackingReference
  pub backing_paths : List (Text × BackingReference)
  pub focus_ids : List (Text × Text × ℕ)
  pub focus_blocks : List BlockKey
  pub duplicates : List Text
  pub errors : List GraphError

abbrev pub empty_manifest : GraphManifest
empty_manifest = record {
  graph_files = [];
  non_graph_files = [];
  documents = [];
  blocks = [];
  root_blocks = [];
  items = [];
  backing = [];
  backing_paths = [];
  focus_ids = [];
  focus_blocks = [];
  duplicates = [];
  errors = [];
}

unfoldable pub add_error : GraphError → GraphManifest → GraphManifest
add_error e m = record m { errors = m.errors ++ e ∷ [] }

-- An error where a condition holds
unfoldable pub error_if : Bool → GraphError → GraphManifest → GraphManifest
unfolding add_error
error_if b e m = if b then add_error e m else m

-- `manifest.blocks[key]`
unfoldable pub find_block : BlockKey → List DocumentBlock → Option DocumentBlock
unfolding key_eq
find_block key [] = none
find_block key (b ∷ bs) = if key_eq b.key key then some b else find_block key bs

unfoldable pub update_block :
    BlockKey → (DocumentBlock → DocumentBlock) → List DocumentBlock → List DocumentBlock
unfolding key_eq
update_block key f [] = []
update_block key f (b ∷ bs) = (if key_eq b.key key then f b else b) ∷ update_block key f bs

-- `manifest.items.get(id)`
unfoldable pub find_item : Text → List GraphItem → Option GraphItem
find_item id [] = none
find_item id (i ∷ is) = if text_eq i.id id then some i else find_item id is

unfoldable pub update_item : Text → (GraphItem → GraphItem) → List GraphItem → List GraphItem
update_item id f [] = []
update_item id f (i ∷ is) = (if text_eq i.id id then f i else i) ∷ update_item id f is

abbrev pub change_block : BlockKey → (DocumentBlock → DocumentBlock) → GraphManifest → GraphManifest
change_block key f m = record m { blocks = update_block key f m.blocks }

-- `_append_text`
abbrev pub with_line : Text → ℕ → DocumentBlock → DocumentBlock
with_line line number b = record b {
  physical_parts = b.physical_parts ++ line_part line ∷ [];
  logical_parts = b.logical_parts ++ line_part line ∷ [];
  logical_text = b.logical_text ++ (b.key.0, number, line) ∷ [];
}

unfoldable pub append_text : BlockKey → Text → ℕ → GraphManifest → GraphManifest
unfolding update_block
append_text key line number m = change_block key (with_line line number) m

-- `_append_child`
abbrev pub with_child : BlockKey → DocumentBlock → DocumentBlock
with_child child b = record b {
  physical_children = b.physical_children ++ child ∷ [];
  logical_children = b.logical_children ++ child ∷ [];
  physical_parts = b.physical_parts ++ block_part child ∷ [];
  logical_parts = b.logical_parts ++ block_part child ∷ [];
}

-- A new block under its parent
unfoldable pub add_block : BlockKey → DocumentBlock → GraphManifest → GraphManifest
unfolding update_block
add_block parent b m =
    change_block parent (with_child b.key) (record m { blocks = m.blocks ++ b ∷ [] })

-- `manifest.items[item.id] = item`; a dictionary keeps the place of a key that it has.
unfoldable pub put_item : GraphItem → List GraphItem → List GraphItem
put_item item [] = item ∷ []
put_item item (i ∷ is) =
    let rest = put_item item is in if text_eq i.id item.id then item ∷ is else i ∷ rest

-- `_record_item`: the first item with an id stays, a further one is an error.
unfoldable pub record_item : GraphItem → GraphManifest → GraphManifest
unfolding find_item put_item
record_item item m = elim (find_item item.id m.items) [
  | none ↦ record m { items = put_item item m.items }
  | some previous ↦
      add_error (duplicate_id item.id item.file_name item.line_number)
        (record m { duplicates = item.id ∷ m.duplicates })
]

-- `_backing_reference`
unfoldable pub backing_name : AnchorKind → Family → Text → Option Text
backing_name file memory id = some (codes "MEMORY_" ++ (id ++ codes ".md"))
backing_name file pursuit id = some (codes "PURSUIT_" ++ (id ++ codes ".md"))
backing_name memory_file family id = some (codes "MEMORY_" ++ (id ++ codes ".md"))
backing_name skill family id = some (codes "MEMORY_SKILL_" ++ (id ++ codes ".md"))
backing_name _ family id = none

unfoldable pub backing_reference : AnchorKind → GraphItem → Option BackingReference
unfolding backing_name
backing_reference kind item = elim (backing_name kind item.item_family item.id) [
  | none ↦ none
  | some path ↦ some (record {
    backed_id = item.id;
    backed_kind = kind;
    backed_family = item.item_family;
    source_file = item.file_name;
    source_line = item.line_number;
    path = path;
  })
]

unfoldable pub kind_eq : AnchorKind → AnchorKind → Bool
unfolding kind_text
kind_eq a b = text_eq (kind_text a) (kind_text b)

unfoldable pub has_backing : Text → List BackingReference → Bool
has_backing id [] = false
has_backing id (r ∷ rs) = text_eq r.backed_id id || has_backing id rs

unfoldable pub find_path : Text → List (Text × BackingReference) → Option BackingReference
find_path key [] = none
find_path key ((k, r) ∷ rs) = if text_eq k key then some r else find_path key rs

unfoldable pub put_path :
    Text → BackingReference → List (Text × BackingReference) → List (Text × BackingReference)
put_path key r [] = (key, r) ∷ []
put_path key r ((k, old) ∷ rs) = if text_eq k key then (k, r) ∷ rs else (k, old) ∷ put_path key r rs

unfoldable pub claim_path : Text → BackingReference → GraphManifest → GraphManifest
unfolding find_path put_path kind_eq
claim_path key r m = elim (find_path key m.backing_paths) [
  | none ↦ record m { backing_paths = put_path key r m.backing_paths }
  | some previous ↦
      if text_eq previous.backed_id r.backed_id && kind_eq previous.backed_kind r.backed_kind
      then record m { backing_paths = put_path key r m.backing_paths }
      else add_error (claimed_twice r.path r.source_file r.source_line) m
]

-- `_record_backing`; `is_regular` is `_is_regular_file_under_root`, `casefold` is `str.casefold`.
unfoldable pub record_backing :
    (Text → Bool) → (Text → Text) → BackingReference → GraphManifest → GraphManifest
unfolding claim_path has_backing kind_eq
record_backing is_regular casefold r m =
    let m' : GraphManifest =
      if has_backing r.backed_id m.backing then m else record m { backing = m.backing ++ r ∷ [] } in
    let claimed = claim_path (casefold r.path) r m' in
    if not (is_regular r.path)
    then add_error (missing_backing r.path r.source_file r.source_line) claimed
    else if kind_eq r.backed_kind file
    then claimed
    else record claimed { non_graph_files = claimed.non_graph_files ++ r.path ∷ [] }
