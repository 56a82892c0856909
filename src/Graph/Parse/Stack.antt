-- ===== src/Graph/Parse/Stack.antt =====
-- The headings that `_parse_document` of rightmemory/graph.py has open.
use right_memory.Common.{
  ℕ, suc, ◌+◌, ◌≤◌, ◌<◌, ◌≡◌, refl, Bool, true, false, not, ◌&&◌, List, [], ◌∷◌, Text, Bool-cases,
  Option-cases, inl, inr, leb, length, arith, if◌then◌else◌,
}
use right_memory.Graph.Grammar.{heading_at, is_valid_item_id}
use right_memory.Graph.Nodes.{node_candidate, node_match}
use right_memory.Graph.Lines.{fence_at, legacy_field}
use right_memory.Graph.Model.{Family, memory, pursuit, is_memory, GraphManifest}
use right_memory.Graph.State.{ParseProfile, Files, OpenHeading, ParseState, initial_state}
use right_memory.Graph.Sections.{close_headings, heading_line}
use right_memory.Graph.Bodies.{focus_line, node_line, item_line, focus_or_item, body_line}
use right_memory.Graph.Parse.{unfenced_line, parse_line, parse_lines}

-- From the innermost heading outwards, the depths and the lines get smaller, below the bounds.
abbrev pub IsNested : ℕ → ℕ → List OpenHeading → Type 0
IsNested depth n [] = Unit
IsNested depth n (h ∷ hs) =
    (h.depth < depth)
    × (1 ≤ h.line_number)
    × (h.line_number < n)
    × IsNested h.depth h.line_number hs

IsNested-le :
    (d e n k : ℕ) (hs : List OpenHeading) → d ≤ e → n ≤ k → IsNested d n hs → IsNested e k hs
IsNested-le d e n k [] p q h = tt
IsNested-le d e n k (x ∷ xs) p q (a, b, c, rest) = (omega arith, b, omega arith, rest)

-- The headings that stay open are less deep than the new one.
close_headings-IsNested :
    (name : Text) (depth top n : ℕ) (hs : List OpenHeading) (m : GraphManifest)
    → IsNested top n hs
    → IsNested depth n (close_headings name depth n hs m).0
unfolding close_headings
close_headings-IsNested name depth top n [] m h = tt
close_headings-IsNested name depth top n (x ∷ xs) m (a, b, c, rest) =
    elim (Bool-cases (leb depth x.depth)) [
      | inl e ↦ rw e (
          close_headings-IsNested name depth x.depth n xs _
            (IsNested-le x.depth x.depth x.line_number n xs (omega arith) (omega arith) rest))
      | inr e ↦ rw e (ground arith, b, c, rest)
    ]

-- A line that is no heading leaves the open headings as they are.
focus_line-stack :
    (name : Text) (family : Family) (n : ℕ) (line id : Text) (s : ParseState)
    → (focus_line name family n line id s).stack ≡ s.stack
unfolding focus_line
focus_line-stack name family n line id s = elim (Bool-cases (is_valid_item_id id)) [
  | inl e ↦ rw (focus_line, e) refl
  | inr e ↦ rw (focus_line, e) refl
]

node_line-stack :
    (name : Text) (family : Family) (n : ℕ) (line id : Text) (s : ParseState)
    → (node_line name family n line id s).stack ≡ s.stack
unfolding node_line
node_line-stack name family n line id s = elim (Bool-cases (is_valid_item_id id)) [
  | inr e ↦ rw (node_line, e) refl
  | inl e ↦ elim (Option-cases (node_match line)) [
    | inl q ↦ rw (node_line, e, q) refl
    | inr (node, q) ↦ rw (node_line, e, q) refl
  ]
]

item_line-stack :
    (name : Text) (family : Family) (n : ℕ) (line : Text) (s : ParseState)
    → (item_line name family n line s).stack ≡ s.stack
unfolding item_line
item_line-stack name family n line s =
    elim (Bool-cases (not (is_memory family) && s.in_pursuit_next)) [
      | inl e ↦ rw (item_line, e) refl
      | inr e ↦ elim (Option-cases (node_candidate line)) [
        | inl q ↦ rw (item_line, e, q) refl
        | inr (id, q) ↦ rw (item_line, e, q) (node_line-stack name family n line id s)
      ]
    ]

choose-stack :
    (s t u : ParseState) (b : Bool)
    → t.stack ≡ s.stack
    → u.stack ≡ s.stack
    → (if b then t else u).stack ≡ s.stack
choose-stack s t u true p q = p
choose-stack s t u false p q = q

focus_or_item-stack :
    (name : Text) (family : Family) (n : ℕ) (line : Text) (s : ParseState)
    → (focus_or_item name family n line s).stack ≡ s.stack
unfolding focus_or_item
focus_or_item-stack name family n line s =
    choose-stack s _ _ s.in_focus
      (elim (Option-cases (node_candidate line)) [
        | inl q ↦ rw q (item_line-stack name family n line s)
        | inr (id, q) ↦ rw q (focus_line-stack name family n line id s)
      ])
      (item_line-stack name family n line s)

body_line-stack :
    (name : Text) (family : Family) (n : ℕ) (line : Text) (s : ParseState)
    → (body_line name family n line s).stack ≡ s.stack
unfolding body_line
body_line-stack name memory n line s = focus_or_item-stack name memory n line s
body_line-stack name pursuit n line s = elim (Option-cases (legacy_field line)) [
  | inl q ↦ rw (body_line, q) (focus_or_item-stack name pursuit n line s)
  | inr (next, q) ↦ rw (body_line, q) refl
]

parse_line-IsNested :
    (fs : Files) (profile : ParseProfile) (name : Text) (family : Family) (n : ℕ) (line : Text)
    → (s : ParseState) → 1 ≤ n
    → (top : ℕ) × IsNested top n s.stack
    → (top : ℕ) × IsNested top (suc n) (parse_line fs profile name family n line s).stack
unfolding parse_line unfenced_line heading_line
parse_line-IsNested fs profile name family n line s p (top, h) =
    let kept = IsNested-le top top n (suc n) s.stack (omega arith) (omega arith) h in
    elim (Option-cases (fence_at line)) [
      | inr (found, q) ↦ rw (parse_line, q) (top, kept)
      | inl q ↦ elim (Option-cases s.fence) [
        | inr (mark, k) ↦ rw (parse_line, q, k) (top, kept)
        | inl k ↦ elim (Option-cases (heading_at line)) [
          | inl e ↦
              rw (parse_line, q, k, unfenced_line, e, body_line-stack name family n line s)
                (top, kept)
          | inr ((depth, body), e) ↦
              rw (parse_line, q, k, unfenced_line, e)
                (
                  suc depth,
                  (
                    omega arith,
                    p,
                    omega arith,
                    close_headings-IsNested name depth top n s.stack s.manifest h,
                  ),
                )
        ]
      ]
    ]

lines-IsNested :
    (fs : Files) (profile : ParseProfile) (name : Text) (family : Family) (n : ℕ)
    → (lines : List Text) (s : ParseState) → 1 ≤ n
    → (top : ℕ) × IsNested top n s.stack
    → (top : ℕ) × IsNested top
        (n + length lines)
        (parse_lines fs profile name family n lines s).stack
unfolding parse_lines
lines-IsNested fs profile name family n [] s p (top, h) =
    (top, IsNested-le top top n (n + 0) s.stack (omega arith) (omega arith) h)
lines-IsNested fs profile name family n (line ∷ lines) s p h =
    let (top, k) =
      lines-IsNested fs profile name family (suc n) lines
        (parse_line fs profile name family n line s) (omega arith)
        (parse_line-IsNested fs profile name family n line s p h) in
    (
      top,
      IsNested-le top top (suc n + length lines) (n + suc (length lines)) _ (omega arith)
          (omega arith) k,
    )

-- Whatever the lines, the headings that are open after them get less deep from the innermost outwards,
-- and each is at a line of the document, before the lines of those inside it.
pub parse_lines-IsNested :
    (fs : Files) (profile : ParseProfile) (name : Text) (family : Family) (lines : List Text)
    → (m : GraphManifest)
    → (top : ℕ) × IsNested top
        (1 + length lines)
        (parse_lines fs profile name family 1 lines (initial_state m)).stack
parse_lines-IsNested fs profile name family lines m =
    lines-IsNested fs profile name family 1 lines (initial_state m) (omega arith) (0, tt)
