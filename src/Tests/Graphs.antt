-- ===== src/Tests/Graphs.antt =====
-- A memory of three documents: a heading with a backing file, an edge, and a focus reference.
use right_memory.Graph.Grammar.{is_item_char, is_valid_item_id}
use right_memory.Common.{
  ℕ, ◌≡◌, refl, Bool, true, false, Option, none, some, List, [], ◌∷◌, Text, codes, if◌then◌else◌,
  text_eq, text_in, is_space, lines_from, All,
}
use right_memory.Graph.Lines.{fence_after}
use right_memory.Graph.Model.{memory, pursuit, BlockKey, GraphManifest, empty_manifest, error_if}
use right_memory.Graph.Model.Grows.{AllDistinct, places, block_of}
use right_memory.Graph.State.{Files, initial_state}
use right_memory.Graph.Parse.{parse_lines}
use right_memory.Graph.Parse.Stack.{IsNested, parse_lines-IsNested}
use right_memory.Graph.Load.{is_loaded, load_document}
use right_memory.Graph.Load.Grows.{load_document-Kept}
use right_memory.Graph.Entry.{local_profile}
use right_memory.Graph.Validate.{load_and_check, load_roots, has_ancestor}
use right_memory.Common.{◌↔◌}
use right_memory.Graph.Validate.Ancestors.{IsInside, IsOutside}
use right_memory.Graph.Validate.Ancestors.Fuel.{EndsAbove, next_up, root_end, has_ancestor-decides}
use right_memory.Graph.Validate.Complete.{items_errors_iff}
use right_memory.Graph.Validate.{items_errors}
use right_memory.Graph.Model.{find_block, DocumentBlock, heading_block, node_block}
use right_memory.Graph.Load.{root_of}
use right_memory.Common.{◌⊎◌}
use right_memory.Graph.Validate.Ends.{load_roots-ends}
use right_memory.Graph.Validate.Sound.{IsGoodItem}
use right_memory.Graph.Validate.Focus.{IsGoodFocus, names_of}
use right_memory.Graph.Validate.Roots.{IsAccounted}
use right_memory.Graph.Validate.Whole.{
  load_and_check-IsAccounted, load_and_check-IsGoodItem, load_and_check-IsGoodFocus,
}
use right_memory.Common.{ok, strip, ◌++◌}
use right_memory.Graph.Grammar.{file}
use right_memory.Graph.Headings.{
  render_heading_line, parse_addressable_heading, replace_heading_title,
}
use right_memory.Graph.Headings.RoundTrip.{
  heading_read, parse_addressable_heading-render_heading_line,
}
use right_memory.Graph.Headings.Replace.{replace_heading_title-render_heading_line}

abbrev names : List Text
names = codes "MEMORY.md" ∷ codes "PURSUITS.md" ∷ codes "MEMORY_f.md" ∷ []

abbrev text_of : Text → Text
text_of name =
    if text_eq name (codes "MEMORY.md")
    then codes "# A {F#f}\n"
    else if text_eq name (codes "PURSUITS.md")
    then codes "## P {#p} -> [dep:f]\n## Focus\n- `p`\n"
    else codes "- `n` x -> [rel:p]\n"

abbrev files : Files
files = record {
  is_regular = λ name. text_in name names;
  read_text = λ name. some (text_of name);
  casefold = λ t. t;
}

abbrev exists_here : Text → Bool
exists_here name = text_in name names

abbrev manifest_of : Option GraphManifest → GraphManifest
manifest_of none = empty_manifest
manifest_of (some m) = m

abbrev graph : GraphManifest
graph = manifest_of (load_and_check 4 files exists_here local_profile)

is_built : Option GraphManifest → Bool
is_built none = false
is_built (some m) = true

known : (o : Option GraphManifest) → is_built o ≡ true → o ≡ some (manifest_of o)
unfolding is_built
known none h = cc
known (some x) h = refl

built : load_and_check 4 files exists_here local_profile ≡ some graph
unfolding load_and_check error_if fence_after text_eq is_space lines_from is_built
built = known (load_and_check 4 files exists_here local_profile) refl

silent : graph.errors ≡ []
unfolding load_and_check error_if fence_after text_eq is_space lines_from
silent = refl

ends_example :
    (m : GraphManifest) × (load_roots 4 files exists_here local_profile local_profile.roots
        empty_manifest
      ≡ some m)
ends_example =
    load_roots-ends files local_profile names (λ name h. (h, (text_of name, refl))) exists_here
      local_profile.roots empty_manifest

abbrev doubled : Files
doubled = record {
  is_regular = λ name. text_in name names;
  read_text = λ name.
      some (if text_eq name (codes "MEMORY.md") then codes "# A {#a}\n" else codes "# B {#a}\n");
  casefold = λ t. t;
}

abbrev first_loaded : Option (Option BlockKey × GraphManifest)
first_loaded = load_document 4 doubled local_profile (codes "MEMORY.md") memory [] empty_manifest

abbrev found_of : Option (Option BlockKey × GraphManifest) → Option BlockKey × GraphManifest
found_of none = (none, empty_manifest)
found_of (some found) = found

abbrev second_loaded : Option (Option BlockKey × GraphManifest)
second_loaded =
    load_document 4 doubled local_profile (codes "PURSUITS.md") pursuit [] (found_of first_loaded).1

is_found : Option (Option BlockKey × GraphManifest) → Bool
is_found none = false
is_found (some found) = true

known_found :
    (o : Option (Option BlockKey × GraphManifest)) → is_found o ≡ true → o ≡ some (found_of o)
unfolding is_found
known_found none h = cc
known_found (some x) h = refl

second_run : second_loaded ≡ some (found_of second_loaded)
unfolding load_document error_if fence_after text_eq is_space lines_from is_found
second_run = known_found second_loaded refl

first_place :
    block_of (codes "a") (places (found_of first_loaded).1.items) ≡ some (codes "MEMORY.md", 1)
unfolding load_document error_if fence_after text_eq is_space lines_from block_of
first_place = refl

kept_place_example :
    block_of (codes "a") (places (found_of second_loaded).1.items) ≡ some (codes "MEMORY.md", 1)
kept_place_example =
    load_document-Kept 4 doubled local_profile (codes "PURSUITS.md") pursuit []
      (found_of first_loaded).1 (found_of second_loaded) second_run (codes "a")
      (codes "MEMORY.md", 1) first_place

roots_example : All (IsAccounted graph) local_profile.roots
roots_example = load_and_check-IsAccounted 4 files exists_here local_profile graph built

items_example :
    All (λ r. is_loaded r.0 graph.documents ≡ true) local_profile.roots
    × All (IsGoodItem graph) graph.items
items_example = load_and_check-IsGoodItem 4 files exists_here local_profile graph built silent

focus_example :
    AllDistinct (names_of graph.focus_ids) × All (IsGoodFocus graph.items) graph.focus_ids
focus_example = load_and_check-IsGoodFocus 4 files exists_here local_profile graph built silent refl

abbrev page : List Text
page = codes "# A {#a}" ∷ codes "## B" ∷ codes "text" ∷ codes "### C {F#c}" ∷ codes "## D" ∷ []

stack_example :
    (top : ℕ) × IsNested top 6
      (parse_lines files local_profile
        (codes "MEMORY.md")
        memory
        1
        page
        (initial_state empty_manifest)).stack
stack_example =
    parse_lines-IsNested files local_profile (codes "MEMORY.md") memory page empty_manifest

abbrev goal_edges : List (Text × Text)
goal_edges = (codes "dep", codes "f") ∷ (codes "rel", codes "a.b") ∷ []

abbrev goal_line : Text
goal_line = b'#' ∷ b'#' ∷ codes " My goal {F#g} " ++ 8594 ∷ codes " [dep:f, rel:a.b]"

abbrev aim_line : Text
aim_line = b'#' ∷ b'#' ∷ codes " An aim {F#g} " ++ 8594 ∷ codes " [dep:f, rel:a.b]"

goal_run : render_heading_line (codes " My goal ") file (codes "g") goal_edges 2 ≡ ok goal_line
unfolding render_heading_line text_eq is_space lines_from is_valid_item_id is_item_char
goal_run = refl

aim_run : render_heading_line (codes "An aim") file (codes "g") goal_edges 2 ≡ ok aim_line
unfolding render_heading_line text_eq is_space lines_from is_valid_item_id is_item_char
aim_run = refl

heading_example :
    parse_addressable_heading goal_line
    ≡ some (heading_read 2 (strip (codes " My goal ")) file (codes "g") goal_edges)
heading_example =
    parse_addressable_heading-render_heading_line (codes " My goal ") file (codes "g") goal_edges 2
      goal_line goal_run

replace_example : replace_heading_title goal_line (codes "An aim") ≡ ok aim_line
replace_example =
    replace_heading_title-render_heading_line (codes " My goal ") (codes "An aim") file (codes "g")
      goal_edges 2 goal_line aim_line goal_run aim_run

validation_example : (items_errors graph graph.items ≡ some []) ↔ All (IsGoodItem graph) graph.items
validation_example = items_errors_iff graph graph.items

-- A node below a heading, which is below the root of its document
abbrev top_block : DocumentBlock
top_block = root_of (codes "MEMORY.md") memory 3

abbrev middle_block : DocumentBlock
middle_block = record top_block {
  key = (codes "MEMORY.md", 1);
  kind = heading_block;
  item_id = some (codes "f");
  logical_parent = some (codes "MEMORY.md", 0);
}

abbrev low_block : DocumentBlock
low_block = record top_block {
  key = (codes "MEMORY.md", 2);
  kind = node_block;
  item_id = some (codes "n");
  logical_parent = some (codes "MEMORY.md", 1);
}

abbrev few_blocks : List DocumentBlock
few_blocks = top_block ∷ middle_block ∷ low_block ∷ []

upwards : EndsAbove few_blocks (some (codes "MEMORY.md", 2))
unfolding find_block text_eq
upwards =
    next_up (codes "MEMORY.md", 2) low_block refl
      (next_up (codes "MEMORY.md", 1) middle_block refl
        (next_up (codes "MEMORY.md", 0) top_block refl root_end))

ancestor_example :
    ((has_ancestor 4 few_blocks (some (codes "MEMORY.md", 2)) (codes "f") ≡ some true)
      × IsInside few_blocks (codes "f") (some (codes "MEMORY.md", 2)))
    ⊎ ((has_ancestor 4 few_blocks (some (codes "MEMORY.md", 2)) (codes "f") ≡ some false)
        × IsOutside few_blocks (codes "f") (some (codes "MEMORY.md", 2)))
ancestor_example = has_ancestor-decides few_blocks (codes "f") (some (codes "MEMORY.md", 2)) upwards
