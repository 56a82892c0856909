-- ===== src/Graph/Validate.antt =====
-- The checks of rightmemory/graph.py over a whole manifest, and `_build_manifest` up to the assignment
-- of ranks and hashes.
pub mod Ends
pub mod Sound
pub mod Ancestors
pub mod Complete
pub mod Roots
pub mod Focus
pub mod Whole
use right_memory.Common.{
  ℕ, zero, suc, ◌+◌, ◌-◌, Bool, true, false, not, ◌&&◌, ◌||◌, Option, none, some, List, [], ◌∷◌,
  ◌++◌, map, Text, codes, text_eq, text_in, strip, sorted_set, leb, ltb, ◌==◌, length,
  if◌then◌else◌,
}
use right_memory.Graph.Grammar.{known_edge_types}
use right_memory.Graph.Model.{
  Family, is_memory, BlockKey, key_eq, is_heading, is_root, BlockKind, node_block, focus_block,
  DocumentBlock, GraphItem, GraphError, missing_root, malformed_edge, duplicate_edge, self_edge,
  unknown_edge_type, dangling_edge, containment_edge, duplicate_focus, dangling_focus,
  focus_not_heading, unaddressed_prose, ParsedDocument, GraphManifest, empty_manifest, add_error,
  find_block, find_item,
}
use right_memory.Graph.State.{ParseProfile, Files}
use right_memory.Graph.Load.{load_document}

abbrev pub Edge : Type 0
Edge = Text × Text

unfoldable pub edge_eq : Edge → Edge → Bool
edge_eq (k, t) (l, u) = text_eq k l && text_eq t u

unfoldable pub edge_in : Edge → List Edge → Bool
unfolding edge_eq
edge_in e [] = false
edge_in e (f ∷ fs) = edge_eq f e || edge_in e fs

unfoldable pub has_item : Text → List GraphItem → Bool
has_item id [] = false
has_item id (i ∷ is) = text_eq i.id id || has_item id is

unfoldable pub is_id : Option Text → Text → Bool
is_id none target = false
is_id (some id) target = text_eq id target

-- `_has_logical_ancestor_heading`, for at most so many steps. There is no result if they are too few, or
-- if a block is not there, where the code raises a KeyError.
unfoldable pub has_ancestor : ℕ → List DocumentBlock → Option BlockKey → Text → Option Bool
unfolding find_block is_heading is_id
has_ancestor zero bs key target = none
has_ancestor (suc fuel) bs none target = some false
has_ancestor (suc fuel) bs (some key) target = elim (find_block key bs) [
  | none ↦ none
  | some b ↦
      let rest = has_ancestor fuel bs b.logical_parent target in
      if is_heading b.kind && is_id b.item_id target then some true else rest
]

unfoldable pub is_contained : GraphManifest → GraphItem → Edge → Option Bool
unfolding has_ancestor
is_contained m item (kind, target) =
    if text_eq kind (codes "rel")
    then has_ancestor (suc (length m.blocks)) m.blocks item.item_logical_parent target
    else some false

containment_errors : GraphItem → Edge → Option Bool → Option (List GraphError)
containment_errors item e none = none
containment_errors item e (some true) = some (containment_edge item.id e ∷ [])
containment_errors item e (some false) = some []

-- The errors of two checks, one after the other
unfoldable pub joined :
    Option (List GraphError) → Option (List GraphError) → Option (List GraphError)
joined none fs = none
joined (some es) none = none
joined (some es) (some fs) = some (es ++ fs)

-- The error of an edge that stands for the first time
unfoldable pub edge_errors : GraphManifest → GraphItem → Edge → Option (List GraphError)
unfolding has_item is_contained containment_errors
edge_errors m item (kind, target) =
    if text_eq target item.id
    then some (self_edge item.id (kind, target) ∷ [])
    else if not (text_in kind known_edge_types)
    then some (unknown_edge_type item.id (kind, target) ∷ [])
    else if not (has_item target m.items)
    then some (dangling_edge item.id (kind, target) ∷ [])
    else containment_errors item (kind, target) (is_contained m item (kind, target))

unfoldable pub edges_errors :
    GraphManifest → GraphItem → List Edge → List Edge → Option (List GraphError)
unfolding edge_in edge_errors joined
edges_errors m item seen [] = some []
edges_errors m item seen (e ∷ es) =
    joined (if edge_in e seen then some (duplicate_edge item.id e ∷ []) else edge_errors m item e)
      (edges_errors m item (if edge_in e seen then seen else e ∷ seen) es)

unfoldable pub malformed_errors : GraphItem → List Text → List GraphError
malformed_errors item [] = []
malformed_errors item (t ∷ ts) = malformed_edge item.id (t, []) ∷ malformed_errors item ts

unfoldable pub item_errors : GraphManifest → GraphItem → Option (List GraphError)
unfolding malformed_errors edges_errors
item_errors m item =
    joined (some (malformed_errors item item.malformed_edges)) (edges_errors m item [] item.edges)

unfoldable pub items_errors : GraphManifest → List GraphItem → Option (List GraphError)
unfolding item_errors
items_errors m [] = some []
items_errors m (i ∷ is) = joined (item_errors m i) (items_errors m is)

-- `_validate_items`
unfoldable pub validate_items : GraphManifest → Option GraphManifest
unfolding items_errors
validate_items m = elim (items_errors m m.items) [
  | none ↦ none
  | some es ↦ some (record m { errors = m.errors ++ es })
]

unfoldable pub focus_error : Text → Text → ℕ → Option GraphItem → List GraphError
unfolding is_memory
focus_error id name n none = dangling_focus id name n ∷ []
focus_error id name n (some item) =
    if not item.is_heading_item || is_memory item.item_family
    then focus_not_heading id name n ∷ []
    else []

unfoldable pub focus_errors : List GraphItem → List Text → List (Text × Text × ℕ) → List GraphError
unfolding focus_error find_item
focus_errors items seen [] = []
focus_errors items seen ((id, name, n) ∷ fs) =
    (if text_in id seen
      then duplicate_focus id name n ∷ []
      else focus_error id name n (find_item id items))
    ++ focus_errors items (if text_in id seen then seen else id ∷ seen) fs

-- `_validate_focus`
unfoldable pub validate_focus : GraphManifest → GraphManifest
unfolding focus_errors
validate_focus m = record m { errors = m.errors ++ focus_errors m.items [] m.focus_ids }

unfoldable pub is_structured : BlockKind → Bool
is_structured node_block = true
is_structured focus_block = true
is_structured _ = false

-- A line that belongs to a node or to a focus reference
unfoldable pub structured_line : Text → ℕ → List DocumentBlock → Bool
unfolding key_eq is_structured
structured_line name n [] = false
structured_line name n (b ∷ bs) =
    key_eq b.key (name, n) && is_structured b.kind || structured_line name n bs

-- `_first_nonblank_body_line`, over the lines from number `n` on that are left of the document
unfoldable pub first_nonblank : Text → List DocumentBlock → ℕ → ℕ → ℕ → List Text → Option ℕ
unfolding structured_line strip
first_nonblank name bs start stop n [] = none
first_nonblank name bs start stop n (line ∷ lines) =
    let rest = first_nonblank name bs start stop (suc n) lines in
    if leb start n && leb n stop && not (structured_line name n bs) && not (text_eq (strip line) [])
    then some n
    else rest

-- The blocks whose own text needs an addressable heading around it
unfoldable pub is_unaddressed : Text → DocumentBlock → Bool
unfolding is_heading is_root
is_unaddressed name b =
    text_eq b.key.0 name
    && (is_root b.kind || is_heading b.kind && elim b.item_id [ none ↦ true | some id ↦ false ])

unfoldable pub prose_error : ParsedDocument → List DocumentBlock → DocumentBlock → List GraphError
unfolding is_unaddressed first_nonblank
prose_error d bs b = elim b.body_span [
  | none ↦ []
  | some (start, stop) ↦
      if is_unaddressed d.name b
      then elim (first_nonblank d.name bs start stop 1 d.lines) [
        | none ↦ []
        | some n ↦ unaddressed_prose d.name n ∷ []
      ]
      else []
]

unfoldable pub document_errors :
    ParsedDocument → List DocumentBlock → List DocumentBlock → List GraphError
unfolding prose_error
document_errors d bs [] = []
document_errors d bs (b ∷ rest) = prose_error d bs b ++ document_errors d bs rest

unfoldable pub body_errors : List ParsedDocument → List DocumentBlock → List GraphError
unfolding document_errors
body_errors [] bs = []
body_errors (d ∷ ds) bs = document_errors d bs bs ++ body_errors ds bs

-- `_validate_addressed_body`
unfoldable pub validate_addressed_body : GraphManifest → GraphManifest
unfolding body_errors
validate_addressed_body m = record m { errors = m.errors ++ body_errors m.documents m.blocks }

unfoldable pub add_root : Option BlockKey × GraphManifest → GraphManifest
add_root (none, m) = m
add_root (some key, m) = record m { root_blocks = m.root_blocks ++ key ∷ [] }

-- `path.exists()` is a parameter beside the files.
unfoldable pub load_roots :
    ℕ
    → Files
    → (Text → Bool)
    → ParseProfile
    → List (Text × Family)
    → GraphManifest
    → Option GraphManifest
unfolding load_document add_root
load_roots fuel fs path_exists profile [] m = some m
load_roots fuel fs path_exists profile ((name, family) ∷ roots) m =
    if not (path_exists name)
    then load_roots fuel fs path_exists profile roots (add_error (missing_root name) m)
    else elim (load_document fuel fs profile name family [] m) [
      | none ↦ none
      | some found ↦ load_roots fuel fs path_exists profile roots (add_root found)
    ]

-- The checks after that of the items
unfoldable pub check_rest : ParseProfile → GraphManifest → GraphManifest
unfolding validate_focus validate_addressed_body
check_rest profile m =
    let with_focus : GraphManifest = if profile.allow_focus then validate_focus m else m in
    if profile.require_addressed_body then validate_addressed_body with_focus else with_focus

unfoldable pub check_manifest : ParseProfile → GraphManifest → Option GraphManifest
unfolding validate_items check_rest
check_manifest profile m = elim (validate_items m) [
  | none ↦ none
  | some with_items ↦ some (check_rest profile with_items)
]

-- `_build_manifest` before `_assign_logical_metadata`: the roots are loaded, and the manifest is checked.
unfoldable pub load_and_check : ℕ → Files → (Text → Bool) → ParseProfile → Option GraphManifest
unfolding load_roots check_manifest
load_and_check fuel fs path_exists profile =
    elim (load_roots fuel fs path_exists profile profile.roots empty_manifest) [
      | none ↦ none
      | some m ↦ check_manifest profile m
    ]
