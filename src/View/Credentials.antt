-- ===== src/View/Credentials.antt =====
-- The store of credentials of rightmemory/shared_view_models.py, `credentials.toml`, as its table. An entry
-- is a table or something else.
use right_memory.Common.{
  String, Option, none, some, List, [], ◌∷◌, ◌++◌, map, Text, codes, text_eq, strip, sorted_set,
  if◌then◌else◌, ◌==◌, Result, ok, err, require, ◌>>=◌, ◌>>◌,
}
use right_memory.Common.Toml.{toml_key, optional_line, file_text}
use right_memory.Share.Fields.{Value, text, clean_optional}
use right_memory.Share.Load.{Table, get}
use right_memory.View.Models.{
  ViewError, missing_field, bad_base_url, bad_heading_id, not_a_view_table, validate_heading_id,
  is_given, is_http_base_url,
}
use mathlib.Core.List.{reverse}

pub data Credential : Type 0 where
  no_credential_table : Credential
  credential_table : Table → Credential

abbrev pub Credentials : Type 0
Credentials = List (Text × Credential)

strip_slashes : Text → Text
strip_slashes [] = []
strip_slashes (c ∷ cs) = if c == b'/' then strip_slashes cs else c ∷ cs

-- `clean_base_url.rstrip("/")`, and the check of what is left
unfoldable pub clean_base_url : Option Text → Result ViewError (Option Text)
unfolding strip_slashes
clean_base_url none = ok none
clean_base_url (some url) = do
  let clean = reverse (strip_slashes (reverse url))
  require (is_http_base_url (some clean)) bad_base_url
  ok (some clean)

unfoldable pub given_id : Option Text → Result ViewError (Option Text)
given_id none = ok none
given_id (some []) = ok none
given_id (some (c ∷ cs)) = do id ← validate_heading_id (c ∷ cs); ok (some id)

unfoldable pub given_field : String → Option Text → Table
given_field key none = []
given_field key (some value) = (key, text value) ∷ []

-- `credentials[key] = entry`
unfoldable pub put_credential : Text → Credential → Credentials → Credentials
put_credential key c [] = (key, c) ∷ []
put_credential key c ((k, old) ∷ cs) =
    if text_eq k key then (k, c) ∷ cs else (k, old) ∷ put_credential key c cs

unfoldable pub credential_at : Text → Credentials → Credential
credential_at key [] = no_credential_table
credential_at key ((k, c) ∷ cs) = if text_eq k key then c else credential_at key cs

-- `now` is the time of the call.
unfoldable pub save_shared_view_credential :
    Text
    → Text
    → Text
    → Option Text
    → Option Text
    → Option Text
    → Text
    → Credentials
    → Result ViewError Credentials
unfolding clean_base_url given_id given_field
save_shared_view_credential credential_id kind token base_url view_id provider_id now credentials =
    do
      clean_id ← validate_heading_id credential_id
      require (is_given (some (strip kind))) (missing_field "kind")
      require (is_given (some token)) (missing_field "token")
      url ← clean_base_url (clean_optional base_url)
      view ← given_id view_id
      provider ← given_id provider_id
      let entry : Table =
          (("kind", text (strip kind)) ∷ ("token", text token) ∷ ("created_at", text now) ∷ [])
          ++ given_field "base_url" url
          ++ given_field "view_id" view
          ++ given_field "provider_id" provider
      ok (put_credential clean_id (credential_table entry) credentials)

-- The fields of a table that are strings
unfoldable pub string_fields : Table → List (String × Text)
string_fields [] = []
string_fields ((k, text value) ∷ t) = (k, value) ∷ string_fields t
string_fields ((k, value) ∷ t) = string_fields t

unfoldable pub check_string : Value → Result ViewError (Unit {0})
check_string (text value) = ok tt
check_string value = err not_a_view_table

unfoldable pub load_credential_entry : Text → Credential → Result ViewError (List (String × Text))
unfolding string_fields check_string
load_credential_entry clean_id no_credential_table = err (bad_heading_id clean_id)
load_credential_entry clean_id (credential_table t) = do
  check_string (get t "kind")
  check_string (get t "token")
  ok (string_fields t)

unfoldable pub load_shared_view_credential :
    Text → Credentials → Result ViewError (List (String × Text))
unfolding load_credential_entry
load_shared_view_credential credential_id credentials = do
  clean_id ← validate_heading_id credential_id
  load_credential_entry clean_id (credential_at clean_id credentials)

-- A field of a summary: a string that is not empty
unfoldable pub summary_field : Table → String → List (String × Text)
summary_field t key = elim (get t key) [
  | text value ↦ if is_given (some value) then (key, value) ∷ [] else []
  | _ ↦ []
]

unfoldable pub summary_fields : Table → List String → List (String × Text)
unfolding summary_field
summary_fields t [] = []
summary_fields t (key ∷ ks) = summary_field t key ++ summary_fields t ks

-- The summaries of the entries that are tables, by sorted ids; the token is not in them.
unfoldable pub list_summaries :
    List Text → Credentials → Result ViewError (List (List (String × Text)))
list_summaries [] credentials = ok []
list_summaries (id ∷ ids) credentials = elim (credential_at id credentials) [
  | no_credential_table ↦ list_summaries ids credentials
  | credential_table t ↦ do
    clean ← validate_heading_id id
    rest ← list_summaries ids credentials
    ok (
        (("credential_id", clean)
          ∷ summary_fields t ("kind" ∷ "base_url" ∷ "provider_id" ∷ "view_id" ∷ "created_at" ∷ []))
        ∷ rest)
]

unfoldable pub list_shared_view_credentials :
    Credentials → Result ViewError (List (List (String × Text)))
list_shared_view_credentials credentials =
    list_summaries (sorted_set (map (λ e. e.0) credentials)) credentials

as_given : Value → Option Text
as_given (text value) = some value
as_given value = none

module _ (render : Text → Text) where
  field_lines : Table → List String → List Text
  field_lines t [] = []
  field_lines t (key ∷ ks) =
      optional_line render (codes key) (as_given (get t key)) ++ field_lines t ks

  unfoldable pub credential_lines : List Text → Credentials → List Text
  unfolding field_lines as_given
  credential_lines [] credentials = []
  credential_lines (id ∷ ids) credentials = elim (credential_at id credentials) [
    | no_credential_table ↦ credential_lines ids credentials
    | credential_table t ↦
        ((codes "[credentials." ++ toml_key render id ++ codes "]") ∷ [])
        ++ field_lines t
            ("kind" ∷ "token" ∷ "base_url" ∷ "view_id" ∷ "provider_id" ∷ "created_at" ∷ [])
        ++ [] ∷ credential_lines ids credentials
  ]

  unfoldable pub write_credentials : Credentials → Text
  write_credentials credentials = file_text (
      codes "# RightMemory shared view credentials"
      ∷ []
      ∷ credential_lines (sorted_set (map (λ e. e.0) credentials)) credentials)
