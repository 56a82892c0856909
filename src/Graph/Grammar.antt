-- ===== src/Graph/Grammar.antt =====
-- The line grammar of rightmemory/graph.py. A regular expression is a function by clauses that finds the
-- match that `re` finds: the first place where a lazy `.*?` can stop, and the longest run of a class.
pub mod Edges
use right_memory.Common.{
  ℕ, zero, suc, Bool, true, false, not, ◌&&◌, ◌||◌, Option, none, some, List, [], ◌∷◌, ◌++◌, Text,
  codes, strip, lstrip, is_space, is_letter, is_digit, span, split_on, after_prefix, all, any, ◌==◌,
  if◌then◌else◌,
}
use mathlib.Core.List.{reverse}

-- `[A-Za-z0-9_.-]`
unfoldable pub is_item_char : ℕ → Bool
unfolding is_letter is_digit
is_item_char c = is_letter c || is_digit c || c == b'_' || c == b'.' || c == b'-'

-- `is_valid_item_id`
unfoldable pub is_valid_item_id : Text → Bool
is_valid_item_id [] = false
is_valid_item_id (c ∷ cs) = all is_item_char (c ∷ cs)

abbrev pub known_edge_types : List Text
known_edge_types =
    codes "dep"
    ∷ codes "emb"
    ∷ codes "bak"
    ∷ codes "agg"
    ∷ codes "ver"
    ∷ codes "ext"
    ∷ codes "up"
    ∷ codes "rel"
    ∷ codes "loc"
    ∷ codes "run"
    ∷ codes "cfg"
    ∷ codes "out"
    ∷ codes "in"
    ∷ codes "doc"
    ∷ codes "todo"
    ∷ []

-- The marker of a heading: `F#`, `M#`, `S#`, `MF#`, `MQ#`, or `#` for `plain`.
pub data AnchorKind : Type 0 where
  file memory_file skill shared question plain : AnchorKind

unfoldable pub kind_text : AnchorKind → Text
kind_text file = codes "F#"
kind_text memory_file = codes "M#"
kind_text skill = codes "S#"
kind_text shared = codes "MF#"
kind_text question = codes "MQ#"
kind_text plain = codes "#"

-- `TERMINAL_HEADING_KINDS`
unfoldable pub is_terminal : AnchorKind → Bool
is_terminal plain = false
is_terminal _ = true

-- What follows the `M` of `MF#` or `MQ#`
unfoldable pub long_kind : Option Text → Option Text → Option (AnchorKind × Text)
long_kind (some rest) q = some (shared, rest)
long_kind none (some rest) = some (question, rest)
long_kind none none = none

-- `(F#|M#|S#|MF#|MQ#|#)`: no text starts with two of these.
unfoldable pub kind_at : Text → Option (AnchorKind × Text)
unfolding long_kind
kind_at [] = none
kind_at (c ∷ []) = if c == b'#' then some (plain, []) else none
kind_at (c ∷ d ∷ s) =
    if c == b'#'
    then some (plain, d ∷ s)
    else if c == b'F' && d == b'#'
    then some (file, s)
    else if c == b'S' && d == b'#'
    then some (skill, s)
    else if not (c == b'M')
    then none
    else if d == b'#'
    then some (memory_file, s)
    else long_kind (after_prefix (codes "F#") (d ∷ s)) (after_prefix (codes "Q#") (d ∷ s))

-- `(?:→|->)`
unfoldable pub arrow_at : Text → Option Text
unfolding after_prefix
arrow_at [] = none
arrow_at (c ∷ s) = if c == 8594 then some s else after_prefix (codes "->") (c ∷ s)

-- `(.*?)\]\s*$` after the opening bracket: up to the last bracket, if only space follows it
unfoldable pub last_bracket : Text → Option Text
last_bracket [] = none
last_bracket (c ∷ cs) = if c == b']' && not (any (λ d. d == 10) cs) then some (reverse cs) else none

unfoldable pub before_bracket : Text → Option Text
unfolding last_bracket lstrip
before_bracket s = last_bracket (lstrip (reverse s))

unfoldable pub list_at : Text → Option Text
unfolding before_bracket
list_at [] = none
list_at (c ∷ s) = if c == b'[' then before_bracket s else none

-- `\s*(?:→|->)\s*\[(.*?)\]\s*$`
unfoldable pub edges_at : Text → Option Text
unfolding arrow_at lstrip list_at
edges_at s = elim (arrow_at (lstrip s)) [ none ↦ none | some rest ↦ list_at (lstrip rest) ]

-- What may follow the closing brace of an anchor: nothing but space, or a list of edges
unfoldable pub suffix_at : Text → Option (Option Text)
unfolding edges_at
suffix_at s = elim (lstrip s) [
  | [] ↦ some none
  | _ ∷ _ ↦ elim (edges_at s) [ none ↦ none | some edges ↦ some (some edges) ]
]

pub record Anchor : Type 0 where
  pub kind : AnchorKind
  pub id : Text
  pub edges : Option Text

unfoldable pub close_anchor : AnchorKind → Text × Text → Option Anchor
unfolding suffix_at
close_anchor kind ([], rest) = none
close_anchor kind (c ∷ id, []) = none
close_anchor kind (c ∷ id, d ∷ rest) =
    if d == b'}'
    then elim (suffix_at rest) [
      | none ↦ none
      | some edges ↦ some (record { kind = kind; id = c ∷ id; edges = edges })
    ]
    else none

-- The part of `ANCHOR_RE` from the opening brace on
unfoldable pub anchor_at : Text → Option Anchor
unfolding close_anchor span kind_at is_item_char
anchor_at [] = none
anchor_at (c ∷ s) =
    if c == b'{'
    then elim (kind_at s) [
      | none ↦ none
      | some (kind, rest) ↦ close_anchor kind (span is_item_char rest)
    ]
    else none

unfoldable pub is_not_brace : ℕ → Bool
is_not_brace c = not (c == b'}')

unfoldable pub close_candidate : AnchorKind → Text × Text → Option (AnchorKind × Text)
close_candidate kind (id, []) = none
close_candidate kind (id, d ∷ rest) = some (kind, id)

-- The part of `ANCHOR_CANDIDATE_RE` from the opening brace on
unfoldable pub candidate_at : Text → Option (AnchorKind × Text)
unfolding close_candidate span kind_at is_not_brace
candidate_at [] = none
candidate_at (c ∷ s) =
    if c == b'{'
    then elim (kind_at s) [
      | none ↦ none
      | some (kind, rest) ↦ close_candidate kind (span is_not_brace rest)
    ]
    else none

unfoldable pub close_marker : Text × Text → Option Text
unfolding span is_not_brace
close_marker ([], rest) = none
close_marker (c ∷ cs, []) = none
close_marker (c ∷ cs, d ∷ rest) =
    if d == b'#'
    then elim (span is_not_brace rest).1 [ [] ↦ none | _ ∷ _ ↦ some (c ∷ cs ++ codes "#") ]
    else none

-- The part of `UNSUPPORTED_ANCHOR_RE` from the opening brace on: the marker
unfoldable pub marker_at : Text → Option Text
unfolding close_marker is_letter span
marker_at [] = none
marker_at (c ∷ s) = if c == b'{' then close_marker (span is_letter s) else none

-- `.*?` before a part of the expression: the text before the first place where the part matches
module _ {A : Type 0} where
  unfoldable pub prepend : ℕ → Option (Text × A) → Option (Text × A)
  prepend c none = none
  prepend c (some (before, a)) = some (c ∷ before, a)

  unfoldable pub first_match : (Text → Option A) → Text → Option (Text × A)
  unfolding prepend
  first_match at [] = elim (at []) [ none ↦ none | some a ↦ some ([], a) ]
  first_match at (c ∷ s) =
      let rest = first_match at s in
      elim (at (c ∷ s)) [ some a ↦ some ([], a) | none ↦ if c == 10 then none else prepend c rest ]

-- `HEADING_RE`: the depth, and what follows the space behind the marks
unfoldable pub hashes : Text → ℕ × Text
hashes [] = (0, [])
hashes (c ∷ s) = let (n, rest) = hashes s in if c == b'#' then (suc n, rest) else (0, c ∷ s)

unfoldable pub heading_body : ℕ × Text → Option (ℕ × Text)
unfolding lstrip
heading_body (zero, rest) = none
heading_body (suc n, []) = none
heading_body (suc n, c ∷ s) = if is_space c then some (suc n, lstrip s) else none

unfoldable pub heading_at : Text → Option (ℕ × Text)
unfolding hashes heading_body
heading_at line = heading_body (hashes line)

-- `EDGE_RE`, on a text
unfoldable pub is_edge_char : ℕ → Bool
unfolding is_letter is_digit
is_edge_char c = is_letter c || is_digit c || c == b'_' || c == b'-'

unfoldable pub edge_target : Text → Text × Text → Option (Text × Text)
unfolding lstrip
edge_target kind ([], rest) = none
edge_target kind (c ∷ cs, rest) = elim (lstrip rest) [ [] ↦ some (kind, c ∷ cs) | _ ∷ _ ↦ none ]

unfoldable pub edge_colon : Text × Text → Option (Text × Text)
unfolding edge_target is_item_char span
edge_colon ([], rest) = none
edge_colon (c ∷ cs, []) = none
edge_colon (c ∷ cs, d ∷ rest) =
    if is_letter c && d == b':'
    then edge_target (c ∷ cs) (span is_item_char (lstrip rest))
    else none

unfoldable pub edge_of : Text → Option (Text × Text)
unfolding edge_colon is_edge_char span lstrip
edge_of value = edge_colon (span is_edge_char (lstrip value))

-- `_parse_edges`: the edges, and the malformed ones
pub record EdgeList : Type 0 where
  pub edges : List (Text × Text)
  pub malformed : List Text

unfoldable pub add_token : Text → EdgeList → EdgeList
unfolding edge_of
add_token [] l = l
add_token (c ∷ cs) l = elim (edge_of (c ∷ cs)) [
  | none ↦ record l { malformed = (c ∷ cs) ∷ l.malformed }
  | some edge ↦ record l { edges = edge ∷ l.edges }
]

unfoldable pub parse_tokens : List Text → EdgeList
unfolding add_token strip
parse_tokens [] = record { edges = []; malformed = [] }
parse_tokens (raw ∷ raws) = add_token (strip raw) (parse_tokens raws)

unfoldable pub parse_edges : Text → EdgeList
unfolding parse_tokens split_on
parse_edges text = parse_tokens (split_on b',' text)
