-- ===== src/Common/Toml.antt =====
-- The rendering of TOML that rightmemory/share_models.py and rightmemory/shared_view_models.py share.
-- `render` is `json.dumps` of a string.
use mathlib.Core.List.{reverse}
use right_memory.Common.{
  ℕ, Bool, ◌||◌, ◌&&◌, Option, none, some, List, [], ◌∷◌, ◌++◌, Text, codes, lstrip, all, leb, ◌==◌,
  if◌then◌else◌,
}

-- `[A-Za-z0-9_-]+`
is_bare_char : ℕ → Bool
is_bare_char c =
    leb b'A' c && leb c b'Z'
    || leb b'a' c && leb c b'z'
    || leb b'0' c && leb c b'9'
    || c == b'_'
    || c == b'-'

module _ (render : Text → Text) where
  unfoldable pub toml_key : Text → Text
  unfolding is_bare_char
  toml_key [] = render []
  toml_key (c ∷ cs) = if all is_bare_char (c ∷ cs) then c ∷ cs else render (c ∷ cs)

  unfoldable pub string_line : Text → Text → Text
  string_line key value = key ++ codes " = " ++ render value

  -- A line where the value is given and not empty
  unfoldable pub optional_line : Text → Option Text → List Text
  unfolding string_line
  optional_line key none = []
  optional_line key (some []) = []
  optional_line key (some (c ∷ cs)) = string_line key (c ∷ cs) ∷ []

join_lines : List Text → Text
join_lines [] = []
join_lines (l ∷ []) = l
join_lines (l ∷ m ∷ ls) = l ++ codes "\n" ++ join_lines (m ∷ ls)

-- `"\n".join(lines).rstrip() + "\n"`
unfoldable pub file_text : List Text → Text
unfolding join_lines
file_text lines = reverse (lstrip (reverse (join_lines lines))) ++ codes "\n"
