-- ===== src/Graph/Parse/Grows.antt =====
-- Each step of `_parse_document` of rightmemory/graph.py extends the manifest.
use right_memory.Common.{
  ℕ, suc, ◌-◌, refl, Bool, true, false, not, ◌&&◌, Option, none, some, List, [], ◌∷◌, Text, codes,
  text_eq, Bool-cases, Option-cases, inl, inr, leb, ◌==◌, ltb, if◌then◌else◌, length,
}
use right_memory.Graph.Grammar.{AnchorKind, is_valid_item_id, file, heading_at}
use right_memory.Graph.Nodes.{node_candidate, node_match}
use right_memory.Graph.Lines.{HeadingInfo, heading_info, fence_at, legacy_field}
use right_memory.Graph.Model.{
  Family, memory, pursuit, is_memory, GraphItem, GraphError, GraphManifest, change_block, kind_eq,
  backing_reference, focus_block,
}
use right_memory.Graph.Model.Grows.{
  Grows, Grows-refl, Grows-trans, Grows-kept, choose-Grows, add_error-Grows, error_if-Grows,
  append_text-Grows, add_block-Grows, record_item-Grows, record_backing-Grows,
}
use right_memory.Graph.State.{
  ParseProfile, Files, OpenHeading, ParseState, parent_line, initial_state,
}
use right_memory.Graph.Sections.{
  close_headings, check_depth, heading_item, back_heading, enter_item, record_heading,
  problem_error, heading_line,
}
use right_memory.Graph.Bodies.{
  text_line, focus_line, node_line, item_line, focus_or_item, body_line, leaf_block,
}
use right_memory.Graph.Parse.{unfenced_line, parse_line, parse_lines, close_all, parse_document}

-- The state that a step leads to has a larger manifest.
abbrev pub Advances : ParseState → ParseState → Type 0
Advances s t = Grows s.manifest t.manifest

choose-Advances :
    (s t u : ParseState) (b : Bool) → Advances s t → Advances s u → Advances s (if b then t else u)
choose-Advances s t u true g h = g
choose-Advances s t u false g h = h

close_headings-Grows :
    (name : Text) (depth n : ℕ) (hs : List OpenHeading) (m : GraphManifest)
    → Grows m (close_headings name depth n hs m).1
unfolding close_headings
close_headings-Grows name depth n [] m = Grows-refl m
close_headings-Grows name depth n (h ∷ hs) m = elim (Bool-cases (leb depth h.depth)) [
  | inr e ↦ rw e (Grows-refl m)
  | inl e ↦ rw e (
      Grows-trans
        (Grows-kept m (change_block (name, h.line_number) (λ b. record b { end_line = n - 1 }) m)
          refl refl refl)
        (close_headings-Grows name depth n hs _))
]

problem_error-Grows : (p : Option GraphError) (m : GraphManifest) → Grows m (problem_error p m)
unfolding problem_error
problem_error-Grows none m = Grows-refl m
problem_error-Grows (some e) m = add_error-Grows e m

check_depth-Grows :
    (name : Text) (n depth : ℕ) (stack : List OpenHeading) (info : HeadingInfo) (m : GraphManifest)
    → Grows m (check_depth name n depth stack info m)
unfolding check_depth
check_depth-Grows name n depth stack info m =
    choose-Grows m _ _ (ltb 4 depth) (add_error-Grows _ m) (
      choose-Grows m _ _ (depth == 4) (Grows-trans (error_if-Grows _ _ m) (error_if-Grows _ _ _))
        (Grows-refl m))

back_heading-Advances :
    (fs : Files) (kind : AnchorKind) (item : GraphItem) (s : ParseState)
    → Advances s (back_heading fs kind item s)
unfolding back_heading
back_heading-Advances fs kind item s = elim (Option-cases (backing_reference kind item)) [
  | inl q ↦ rw (back_heading, q) (Grows-refl s.manifest)
  | inr (r, q) ↦ rw (back_heading, q) (record_backing-Grows fs.is_regular fs.casefold r s.manifest)
]

enter_item-Advances :
    (fs : Files) (profile : ParseProfile) (family : Family) (kind : AnchorKind) (item : GraphItem)
    → (s : ParseState) → Advances s (enter_item fs profile family kind item s)
unfolding enter_item
enter_item-Advances fs profile family kind item s =
    let recorded =
      Grows-trans (record_item-Grows item s.manifest)
        (Grows-trans (error_if-Grows _ _ _) (error_if-Grows _ _ _)) in
    choose-Advances s _ _
      (kind_eq kind file && not (is_memory family) && text_eq (fs.casefold item.id) (codes "rules"))
      (Grows-trans recorded (add_error-Grows _ _))
      (Grows-trans recorded (back_heading-Advances fs kind item _))

record_heading-Advances :
    (fs : Files) (profile : ParseProfile) (name : Text) (family : Family) (n : ℕ)
    → (stack : List OpenHeading) (info : HeadingInfo) (s : ParseState)
    → Advances s (record_heading fs profile name family n stack info s)
unfolding record_heading
record_heading-Advances fs profile name family n stack info s = elim (Option-cases info.id) [
  | inl q ↦ rw (record_heading, q) (Grows-refl s.manifest)
  | inr (id, q) ↦ elim (Option-cases info.marker) [
    | inl k ↦ rw (record_heading, q, k) (Grows-refl s.manifest)
    | inr (kind, k) ↦
        rw (record_heading, q, k)
          (enter_item-Advances fs profile family kind
            (heading_item name family n stack info id kind) s)
  ]
]

heading_line-Advances :
    (fs : Files) (profile : ParseProfile) (name : Text) (family : Family) (n : ℕ) (line : Text)
    → (depth : ℕ) (body : Text) (s : ParseState)
    → Advances s (heading_line fs profile name family n line (depth, body) s)
unfolding heading_line
heading_line-Advances fs profile name family n line depth body s =
    let closed = close_headings name depth n s.stack s.manifest in
    let info = heading_info name n body in
    let placed =
      Grows-trans (close_headings-Grows name depth n s.stack s.manifest)
        (Grows-trans (problem_error-Grows info.problem closed.1) (add_block-Grows _ _ _)) in
    let checked = Grows-trans placed (
      Grows-trans (error_if-Grows _ _ _)
        (Grows-trans (error_if-Grows _ _ _) (check_depth-Grows name n depth closed.0 info _))) in
    Grows-trans checked (record_heading-Advances fs profile name family n closed.0 info _)

text_line-Advances :
    (name : Text) (n : ℕ) (line : Text) (s : ParseState) → Advances s (text_line name n line s)
text_line-Advances name n line s = append_text-Grows (name, parent_line s.stack) line n s.manifest

focus_line-Advances :
    (name : Text) (family : Family) (n : ℕ) (line id : Text) (s : ParseState)
    → Advances s (focus_line name family n line id s)
unfolding focus_line
focus_line-Advances name family n line id s =
    choose-Advances s _ _ (not (is_valid_item_id id))
      (Grows-trans (add_error-Grows _ s.manifest) (append_text-Grows _ _ _ _))
      (Grows-trans
        (add_block-Grows (name, parent_line s.stack)
          (leaf_block name family n s.stack line focus_block [] [] none (some id)) s.manifest)
        (Grows-kept _ _ refl refl refl))

node_line-Advances :
    (name : Text) (family : Family) (n : ℕ) (line id : Text) (s : ParseState)
    → Advances s (node_line name family n line id s)
unfolding node_line
node_line-Advances name family n line id s =
    let marked = Grows-trans (error_if-Grows _ _ s.manifest) (error_if-Grows _ _ _) in
    elim (Bool-cases (is_valid_item_id id)) [
      | inr e ↦
          rw (node_line, e)
            (Grows-trans marked (Grows-trans (add_error-Grows _ _) (append_text-Grows _ _ _ _)))
      | inl e ↦ elim (Option-cases (node_match line)) [
        | inl q ↦
            rw (node_line, e, q)
              (Grows-trans marked (Grows-trans (add_error-Grows _ _) (append_text-Grows _ _ _ _)))
        | inr (node, q) ↦
            rw (node_line, e, q)
              (Grows-trans marked (Grows-trans (add_block-Grows _ _ _) (record_item-Grows _ _)))
      ]
    ]

item_line-Advances :
    (name : Text) (family : Family) (n : ℕ) (line : Text) (s : ParseState)
    → Advances s (item_line name family n line s)
unfolding item_line
item_line-Advances name family n line s =
    choose-Advances s _ _ (not (is_memory family) && s.in_pursuit_next)
      (text_line-Advances name n line s)
      (elim (Option-cases (node_candidate line)) [
        | inl q ↦ rw q (text_line-Advances name n line s)
        | inr (id, q) ↦ rw q (node_line-Advances name family n line id s)
      ])

focus_or_item-Advances :
    (name : Text) (family : Family) (n : ℕ) (line : Text) (s : ParseState)
    → Advances s (focus_or_item name family n line s)
unfolding focus_or_item
focus_or_item-Advances name family n line s =
    choose-Advances s _ _ s.in_focus
      (elim (Option-cases (node_candidate line)) [
        | inl q ↦ rw q (item_line-Advances name family n line s)
        | inr (id, q) ↦ rw q (focus_line-Advances name family n line id s)
      ])
      (item_line-Advances name family n line s)

body_line-Advances :
    (name : Text) (family : Family) (n : ℕ) (line : Text) (s : ParseState)
    → Advances s (body_line name family n line s)
unfolding body_line
body_line-Advances name memory n line s = focus_or_item-Advances name memory n line s
body_line-Advances name pursuit n line s = elim (Option-cases (legacy_field line)) [
  | inl q ↦ rw (body_line, q) (focus_or_item-Advances name pursuit n line s)
  | inr (next, q) ↦ rw (body_line, q) (text_line-Advances name n line s)
]

pub parse_line-Advances :
    (fs : Files) (profile : ParseProfile) (name : Text) (family : Family) (n : ℕ) (line : Text)
    → (s : ParseState) → Advances s (parse_line fs profile name family n line s)
unfolding parse_line unfenced_line
parse_line-Advances fs profile name family n line s = elim (Option-cases (fence_at line)) [
  | inr (found, q) ↦ rw (parse_line, q) (text_line-Advances name n line s)
  | inl q ↦ elim (Option-cases s.fence) [
    | inr (mark, k) ↦ rw (parse_line, q, k) (text_line-Advances name n line s)
    | inl k ↦ elim (Option-cases (heading_at line)) [
      | inl h ↦ rw (parse_line, q, k, unfenced_line, h) (body_line-Advances name family n line s)
      | inr ((depth, body), h) ↦
          rw (parse_line, q, k, unfenced_line, h)
            (heading_line-Advances fs profile name family n line depth body s)
    ]
  ]
]

parse_lines-Advances :
    (fs : Files) (profile : ParseProfile) (name : Text) (family : Family) (n : ℕ)
    → (lines : List Text) (s : ParseState)
    → Advances s (parse_lines fs profile name family n lines s)
unfolding parse_lines
parse_lines-Advances fs profile name family n [] s = Grows-refl s.manifest
parse_lines-Advances fs profile name family n (line ∷ lines) s =
    Grows-trans (parse_line-Advances fs profile name family n line s)
      (parse_lines-Advances fs profile name family (suc n) lines _)

close_all-Grows :
    (name : Text) (n : ℕ) (hs : List OpenHeading) (m : GraphManifest)
    → Grows m (close_all name n hs m)
unfolding close_all
close_all-Grows name n [] m = Grows-refl m
close_all-Grows name n (h ∷ hs) m =
    Grows-trans
      (Grows-kept m (change_block (name, h.line_number) (λ b. record b { end_line = n }) m) refl
        refl refl)
      (close_all-Grows name n hs _)

pub parse_document-Grows :
    (fs : Files) (profile : ParseProfile) (name : Text) (family : Family) (lines : List Text)
    → (m : GraphManifest) → Grows m (parse_document fs profile name family lines m).0
unfolding parse_document
parse_document-Grows fs profile name family lines m =
    let s = parse_lines fs profile name family 1 lines (initial_state m) in
    Grows-trans (parse_lines-Advances fs profile name family 1 lines (initial_state m))
      (close_all-Grows name (length lines) s.stack s.manifest)
