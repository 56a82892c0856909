-- ===== src/Share/Save.antt =====
-- `save_shares` of rightmemory/share_models.py: the lines of `shares.toml`. `render` is `json.dumps` of a
-- string.
use right_memory.Common.{
  Bool, true, false, Option, none, some, List, [], ◌∷◌, ◌++◌, map, Text, codes, text_eq, sorted_set,
  if◌then◌else◌, Result, ok, err, ◌>>=◌,
}
use right_memory.Common.Toml.{toml_key, string_line, optional_line, file_text}
use right_memory.Share.Fields.{
  ShareError, bad_share_id, ShareFilePart, ShareQuestionPart, ShareRelationship, validate_share_id,
}
use right_memory.Share.Load.{RawShare, load_share}
use right_memory.Share.Validate.{validate_share}

abbrev pub Shares : Type 0
Shares = List (Text × ShareRelationship)

unfoldable pub put_share : Text → ShareRelationship → Shares → Shares
put_share key s [] = (key, s) ∷ []
put_share key s ((k, old) ∷ ss) =
    if text_eq k key then (k, s) ∷ ss else (k, old) ∷ put_share key s ss

-- `load_shares`, from the table `shares`
unfoldable pub load_shares : List (Text × RawShare) → Shares → Result ShareError Shares
load_shares [] shares = ok shares
load_shares ((raw_id, raw) ∷ raws) shares = do
  share_id ← validate_share_id raw_id
  share ← load_share share_id raw
  load_shares raws (put_share share_id share shares)

-- `shares[share_id]`, where the key is there
unfoldable pub share_at : Text → Shares → Option ShareRelationship
share_at key [] = none
share_at key ((k, s) ∷ ss) = if text_eq k key then some s else share_at key ss

-- `str(approved).lower()`
unfoldable pub approved_line : Bool → Text
approved_line true = codes "approved = true"
approved_line false = codes "approved = false"

module _ (render : Text → Text) where
  comma_separated : List Text → Text
  comma_separated [] = []
  comma_separated (t ∷ []) = render t
  comma_separated (t ∷ u ∷ ts) = render t ++ codes ", " ++ comma_separated (u ∷ ts)

  unfoldable pub toml_array : List Text → Text
  unfolding comma_separated
  toml_array values = codes "[" ++ comma_separated values ++ codes "]"

  unfoldable pub file_lines : Text → Option ShareFilePart → List Text
  unfolding approved_line
  file_lines key none = []
  file_lines key (some part) =
      ([] ∷ (codes "[shares." ++ key ++ codes ".file]") ∷ [])
      ++ optional_line render (codes "view_id") part.view_id
      ++ optional_line render (codes "heading_id") part.heading_id
      ++ optional_line render (codes "intent") part.intent
      ++ approved_line part.approved ∷ []

  unfoldable pub question_lines : Text → Option ShareQuestionPart → List Text
  unfolding approved_line
  question_lines key none = []
  question_lines key (some part) =
      ([] ∷ (codes "[shares." ++ key ++ codes ".question]") ∷ [])
      ++ optional_line render (codes "view_id") part.view_id
      ++ optional_line render (codes "heading_id") part.heading_id
      ++ optional_line render (codes "intent") part.intent
      ++ optional_line render (codes "question_base_url") part.question_base_url
      ++ approved_line part.approved ∷ []

  unfoldable pub share_lines : ShareRelationship → List Text
  unfolding file_lines question_lines toml_array
  share_lines share =
      let key = toml_key render share.share_id in
      ((codes "[shares." ++ key ++ codes "]")
        ∷ codes "version = 1"
        ∷ string_line render (codes "role") share.role
        ∷ string_line render (codes "title") share.title
        ∷ [])
      ++ optional_line render (codes "provider_id") share.provider_id
      ++ optional_line render (codes "hub_url") share.hub_url
      ++ optional_line render (codes "credential_id") share.credential_id
      ++ (if text_eq share.transport (codes "http")
          then []
          else string_line render (codes "transport") share.transport ∷ [])
      ++ optional_line render (codes "git_url") share.git_url
      ++ optional_line render (codes "git_branch") share.git_branch
      ++ (string_line render (codes "state") share.state
          ∷ (codes "parts = " ++ toml_array share.parts)
          ∷ [])
      ++ optional_line render (codes "accepted_from") share.accepted_from
      ++ file_lines key share.file
      ++ question_lines key share.question
      ++ [] ∷ []

  unfoldable pub shares_lines : List Text → Shares → Result ShareError (List Text)
  shares_lines [] shares = ok []
  shares_lines (share_id ∷ ids) shares = elim (share_at share_id shares) [
    | none ↦ err (bad_share_id share_id)
    | some s ↦ do
      share ← validate_share s
      rest ← shares_lines ids shares
      ok (share_lines share ++ rest)
  ]

  unfoldable pub save_shares : Shares → Result ShareError Text
  save_shares shares = do
    lines ← shares_lines (sorted_set (map (λ e. e.0) shares)) shares
    ok (file_text (codes "# RightMemory share relationship registry" ∷ [] ∷ lines))
