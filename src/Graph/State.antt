-- ===== src/Graph/State.antt =====
-- The state of `_parse_document` of rightmemory/graph.py, and the headings that are open in it.
use right_memory.Common.{ℕ, Bool, false, ◌&&◌, Option, none, some, List, [], ◌∷◌, Text, ◌==◌, any}
use right_memory.Graph.Grammar.{AnchorKind, file, is_terminal}
use right_memory.Graph.Model.{Family, BlockKey, BackingReference, GraphManifest, kind_eq}

-- What a profile allows
pub record ParseProfile : Type 0 where
  pub roots : List (Text × Family)
  pub is_allowed : AnchorKind → Bool
  pub allow_focus : Bool
  pub require_addressed_body : Bool

-- A file system: `_is_regular_file_under_root`, the text of a file, and `str.casefold`
pub record Files : Type 0 where
  pub is_regular : Text → Bool
  pub read_text : Text → Option Text
  pub casefold : Text → Text

-- An open heading: what the loop reads of its block
pub record OpenHeading : Type 0 where
  pub line_number : ℕ
  pub depth : ℕ
  pub marker : Option AnchorKind

pub record ParseState : Type 0 where
  pub manifest : GraphManifest
  pub stack : List OpenHeading
  pub in_focus : Bool
  pub in_pursuit_next : Bool
  pub fence : Option (ℕ × ℕ)
  pub references : List (BlockKey × BackingReference)

abbrev pub change : (GraphManifest → GraphManifest) → ParseState → ParseState
change f s = record s { manifest = f s.manifest }

unfoldable pub parent_line : List OpenHeading → ℕ
parent_line [] = 0
parent_line (h ∷ hs) = h.line_number

unfoldable pub parent_depth : List OpenHeading → ℕ
parent_depth [] = 0
parent_depth (h ∷ hs) = h.depth

unfoldable pub is_file_marker : Option AnchorKind → Bool
unfolding kind_eq
is_file_marker none = false
is_file_marker (some kind) = kind_eq kind file

unfoldable pub is_terminal_marker : Option AnchorKind → Bool
is_terminal_marker none = false
is_terminal_marker (some kind) = is_terminal kind

-- The two uses of `_nearest_ancestor`
unfoldable pub under_file : List OpenHeading → Bool
unfolding is_file_marker
under_file stack = any (λ h. is_file_marker h.marker) stack

unfoldable pub under_terminal : List OpenHeading → Bool
unfolding is_terminal_marker
under_terminal stack = any (λ h. h.depth == 4 && is_terminal_marker h.marker) stack

abbrev pub initial_state : GraphManifest → ParseState
initial_state m = record {
  manifest = m;
  stack = [];
  in_focus = false;
  in_pursuit_next = false;
  fence = none;
  references = [];
}
