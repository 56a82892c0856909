-- ===== src/Graph/Nodes.antt =====
-- The node lines of rightmemory/graph.py.
use right_memory.Common.{
  ℕ, Bool, not, Option, none, some, [], ◌∷◌, Text, strip, lstrip, is_space, span, ◌==◌,
  if◌then◌else◌,
}
use right_memory.Graph.Grammar.{arrow_at, list_at, first_match}

-- The start of `NODE_RE`: a dash, space, and an id in backticks; then what follows
unfoldable pub is_not_tick : ℕ → Bool
is_not_tick c = not (c == b'`')

unfoldable pub close_tick : Text × Text → Option (Text × Text)
close_tick ([], rest) = none
close_tick (c ∷ cs, []) = none
close_tick (c ∷ cs, d ∷ rest) = some (c ∷ cs, rest)

unfoldable pub open_tick : Text → Option (Text × Text)
unfolding close_tick span is_not_tick
open_tick [] = none
open_tick (c ∷ s) = if c == b'`' then close_tick (span is_not_tick s) else none

unfoldable pub after_dash : Text → Option (Text × Text)
unfolding open_tick lstrip
after_dash [] = none
after_dash (c ∷ s) = if is_space c then open_tick (lstrip s) else none

unfoldable pub item_at : Text → Option (Text × Text)
unfolding after_dash lstrip
item_at line = elim (lstrip line) [ [] ↦ none | c ∷ s ↦ if c == b'-' then after_dash s else none ]

-- `NODE_CANDIDATE_RE` and `FOCUS_CANDIDATE_RE`: the id
unfoldable pub space_follows : Text × Text → Option Text
space_follows (id, []) = some id
space_follows (id, c ∷ rest) = if is_space c then some id else none

unfoldable pub node_candidate : Text → Option Text
unfolding item_at space_follows
node_candidate line = elim (item_at line) [ none ↦ none | some found ↦ space_follows found ]

-- `\s(?:→|->)\s*\[(.*?)\]\s*$`
unfoldable pub node_edges_at : Text → Option Text
unfolding arrow_at list_at lstrip
node_edges_at [] = none
node_edges_at (c ∷ s) =
    if is_space c
    then elim (arrow_at s) [ none ↦ none | some rest ↦ list_at (lstrip rest) ]
    else none

pub record NodeMatch : Type 0 where
  pub id : Text
  pub before : Text
  pub edges : Text

-- `NODE_RE`: the id, the text between the id and the arrow, and the edges
unfoldable pub node_match : Text → Option NodeMatch
unfolding item_at first_match node_edges_at
node_match line = elim (item_at line) [
  | none ↦ none
  | some (id, rest) ↦ elim (first_match node_edges_at rest) [
    | none ↦ none
    | some (before, edges) ↦ some (record { id = id; before = before; edges = edges })
  ]
]

-- `_node_prose`: the arrow and the space around it are cut off.
abbrev pub node_prose : NodeMatch → Text
node_prose node = strip node.before
