-- ===== src/UpdateQueue/Disk.antt =====
-- The folders of rightmemory/update_queue.py, as `pathlib` shows them, and the module's helpers on
-- paths: `_read_record`, `_write_immutable`, `_write_json` and `_unlink`.
pub mod Laws
use right_memory.Common.{
  String, Bool, true, false, not, Option, none, some, List, [], ◌∷◌, ◌++◌, Text, codes, text_eq,
  if◌then◌else◌, Result, ok, err, ◌>>=◌,
}
use right_memory.Common.Json.{Json}
use right_memory.UpdateQueue.Formats.{QueueError, format_error, file_exists, os_error}
use right_memory.UpdateQueue.Codec.Loads.{loads_json}

-- A path in a folder: a regular file with its decoded text, a symbolic link, or a directory.
pub data Node : Type 0 where
  regular : Option Json → Node
  link : Node
  subfolder : Node

abbrev pub Entries : Type 0
Entries = List (Text × Node)

-- A folder that is not there, a path that is taken by something else, or a directory, which may
-- be reached through a symbolic link.
pub data Folder : Type 0 where
  absent : Folder
  occupied : Folder
  directory : Bool → Entries → Folder

unfoldable pub find : Text → Entries → Option Node
find name [] = none
find name ((n, node) ∷ es) = if text_eq n name then some node else find name es

unfoldable pub put : Text → Node → Entries → Entries
put name node [] = (name, node) ∷ []
put name node ((n, old) ∷ es) =
    if text_eq n name then (name, node) ∷ es else (n, old) ∷ put name node es

unfoldable pub discard : Text → Entries → Entries
discard name [] = []
discard name ((n, node) ∷ es) =
    let rest = discard name es in if text_eq n name then rest else (n, node) ∷ rest

-- `path.exists() or path.is_symlink()`, with what stands there
unfoldable pub node_at : Folder → Text → Option Node
unfolding find
node_at absent name = none
node_at occupied name = none
node_at (directory linked es) name = find name es

abbrev pub json_name : Text → Text
json_name stem = stem ++ codes ".json"

unfoldable pub read_record {ℓ} :
    {A : Type ℓ} → Node → (Json → Result QueueError A) → Result QueueError A
read_record (regular raw) parser = do value ← loads_json raw; parser value
read_record link parser = err (format_error "record" "must be a regular file")
read_record subfolder parser = err (format_error "record" "must be a regular file")

-- `os.replace` puts a file in place of a file or a link, and fails on a directory.
replace : Option Node → Bool → Entries → Text → Json → Result QueueError Folder
replace (some subfolder) linked es name value = err os_error
replace old linked es name value = ok (directory linked (put name (regular (some value)) es))

-- `_write_json`, which makes the folder if it is not there.
unfoldable pub write_json : Folder → Text → Json → Result QueueError Folder
unfolding replace put find
write_json absent name value = ok (directory false ((name, regular (some value)) ∷ []))
write_json occupied name value = err os_error
write_json (directory linked es) name value = replace (find name es) linked es name value

-- `_unlink`, which is silent on a path that is not there.
remove_node : Option Node → Bool → Entries → Text → Result QueueError Folder
remove_node none linked es name = ok (directory linked es)
remove_node (some subfolder) linked es name = err os_error
remove_node (some node) linked es name = ok (directory linked (discard name es))

unfoldable pub unlink : Folder → Text → Result QueueError Folder
unfolding remove_node discard find
unlink absent name = ok absent
unlink occupied name = err os_error
unlink (directory linked es) name = remove_node (find name es) linked es name

-- The branch of `_write_immutable` where a record is there already: it must be the requested one.
unfoldable pub keep_existing {ℓ} :
    {A : Type ℓ}
    → Folder
    → Node
    → Json
    → (Json → Result QueueError A)
    → (A → A → Bool)
    → Result QueueError Folder
keep_existing folder node value parser same = do
  existing ← read_record node parser
  requested ← parser value
  if same existing requested then ok folder else err file_exists

unfoldable pub write_immutable {ℓ} :
    {A : Type ℓ}
    → Folder
    → Text
    → Json
    → (Json → Result QueueError A)
    → (A → A → Bool)
    → Result QueueError Folder
write_immutable folder name value parser same = elim (node_at folder name) [
  | none ↦ write_json folder name value
  | some node ↦ keep_existing folder node value parser same
]
