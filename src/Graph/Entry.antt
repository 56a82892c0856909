-- ===== src/Graph/Entry.antt =====
-- The profiles of rightmemory/graph.py, with which a memory is loaded.
use right_memory.Common.{true, false, List, [], ◌∷◌, Text, codes, text_in}
use right_memory.Graph.Grammar.{kind_text}
use right_memory.Graph.Model.{Family, memory, pursuit}
use right_memory.Graph.State.{ParseProfile}

-- `ROOT_FILES`
abbrev pub root_files : List (Text × Family)
root_files = (codes "MEMORY.md", memory) ∷ (codes "PURSUITS.md", pursuit) ∷ []

abbrev pub local_kinds : List Text
local_kinds = codes "#" ∷ codes "F#" ∷ codes "M#" ∷ codes "S#" ∷ codes "MF#" ∷ codes "MQ#" ∷ []

abbrev pub mf_kinds : List Text
mf_kinds = codes "#" ∷ codes "F#" ∷ codes "M#" ∷ codes "S#" ∷ []

abbrev pub local_profile : ParseProfile
local_profile = record {
  roots = root_files;
  is_allowed = λ kind. text_in (kind_text kind) local_kinds;
  allow_focus = true;
  require_addressed_body = false;
}

abbrev pub mf_profile : ParseProfile
mf_profile = record {
  roots = (codes "MEMORY.md", memory) ∷ [];
  is_allowed = λ kind. text_in (kind_text kind) mf_kinds;
  allow_focus = false;
  require_addressed_body = true;
}
