-- ===== src/UpdateQueue/Outbox.antt =====
-- `outbox_candidates` of rightmemory/update_queue.py: the walk over the local outbox, which clears the
-- temporary files that dead processes have left.
pub mod Kept
use right_memory.Common.{
  after_prefix, is_digit, ℕ, zero, suc, ◌+◌, ◌*◌, ◌-◌, String, Bool, true, false, not, ◌&&◌, Option,
  none, some, List, [], ◌∷◌, ◌++◌, Text, codes, text_eq, text_ltb, length, all, leb, ◌==◌,
  if◌then◌else◌, sorted_set, Result, ok, err, ◌>>=◌, ◌>>◌,
}
use right_memory.Common.Json.{Json}
use right_memory.UpdateQueue.Formats.{QueueError, format_error, os_error, hex_text, is_hex}
use right_memory.UpdateQueue.Records.{Platform, UpdateCandidate}
use right_memory.UpdateQueue.Codec.{parse_candidate}
use right_memory.UpdateQueue.Disk.{
  Node, regular, link, subfolder, Entries, Folder, absent, occupied, directory, find, discard,
  json_name, read_record, unlink,
}
use right_memory.UpdateQueue.Store.{Store}
use right_memory.UpdateQueue.Inspect.{names_of}

-- The text up to the first full stop, and what follows it.
unfoldable pub before_dot : Text → Option (Text × Text)
before_dot [] = none
before_dot (c ∷ cs) =
    let rest = before_dot cs in
    if c == b'.' then some ([], cs) else elim rest [ none ↦ none | some (a, b) ↦ some (c ∷ a, b) ]

-- `[1-9][0-9]*`
is_pid : Text → Bool
is_pid [] = false
is_pid (c ∷ cs) = leb b'1' c && leb c b'9' && all is_digit cs

-- `int(digits)`, from the digits already read
int_of : ℕ → Text → ℕ
int_of acc [] = acc
int_of acc (c ∷ cs) = int_of (acc * 10 + (c - b'0')) cs

-- `<pid>.<32 hex digits>.tmp`
temp_tail : Text → Option ℕ
temp_tail t = elim (before_dot t) [
  | none ↦ none
  | some (pid, rest) ↦ elim (before_dot rest) [
    | none ↦ none
    | some (token, suffix) ↦
        if is_pid pid && hex_text 32 token && text_eq suffix (codes "tmp")
        then some (int_of 0 pid)
        else none
  ]
]

-- `[0-9a-f]{32}\.json\.` before it, where the name has that. The digits after it are no `json`, so
-- the choice never has to be taken back.
skip_record_name : Text → Text
skip_record_name t = elim (before_dot t) [
  | none ↦ t
  | some (stem, rest) ↦ elim (after_prefix (codes "json.") rest) [
    | none ↦ t
    | some tail ↦ if hex_text 32 stem then tail else t
  ]
]

-- The process that a temporary file of the outbox belongs to, by its name.
unfoldable pub temp_pid : Text → Option ℕ
unfolding temp_tail skip_record_name before_dot after_prefix is_pid is_digit int_of
temp_pid name = elim (after_prefix (codes ".") name) [
  | none ↦ none
  | some t ↦ temp_tail (skip_record_name t)
]

-- `[0-9a-f]{32}\.json`
unfoldable pub is_record_name : Text → Bool
unfolding before_dot
is_record_name name = elim (before_dot name) [
  | none ↦ false
  | some (stem, suffix) ↦ hex_text 32 stem && text_eq suffix (codes "json")
]

insert_uid : UpdateCandidate → List UpdateCandidate → List UpdateCandidate
insert_uid c [] = c ∷ []
insert_uid c (d ∷ ds) =
    let rest = insert_uid c ds in if text_ltb d.uid c.uid then d ∷ rest else c ∷ d ∷ ds

unfoldable pub sort_by_uid : List UpdateCandidate → List UpdateCandidate
unfolding insert_uid
sort_by_uid [] = []
sort_by_uid (c ∷ cs) = insert_uid c (sort_by_uid cs)

-- A temporary file: it must be a regular file, and goes if its process does.
unfoldable pub sweep : Bool → Bool → Text → Option Node → Folder → Result QueueError Folder
sweep cleanup lives name (some (regular raw)) f =
    if cleanup && not lives then unlink f name else ok f
sweep cleanup lives name other f =
    err (format_error "local outbox temporary artifact" "must be a regular file")

module _ (p : Platform) where
  unfoldable pub read_outbox_record : Text → Option Node → Result QueueError UpdateCandidate
  read_outbox_record name none = err os_error
  read_outbox_record name (some node) = do
    c ← read_record node (parse_candidate p)
    if text_eq name (json_name c.uid)
        then ok c
        else err (format_error "local outbox" "filename does not match candidate uid")

  -- The loop over the sorted names. What was cleared stays cleared when a later path raises.
  unfoldable pub outbox_loop :
      Bool → Entries → List Text → Folder → Result QueueError (List UpdateCandidate) × Folder
  outbox_loop cleanup es [] f = (ok [], f)
  outbox_loop cleanup es (name ∷ names) f = elim (temp_pid name) [
    | some pid ↦ elim (sweep cleanup (p.process_exists pid) name (find name es) f) [
      | err e ↦ (err e, f)
      | ok g ↦ outbox_loop cleanup es names g
    ]
    | none ↦
        if not (is_record_name name)
        then (err (format_error "local outbox" "unexpected local outbox path"), f)
        else elim (read_outbox_record name (find name es)) [
          | err e ↦ (err e, f)
          | ok c ↦
              let (rest, g) = outbox_loop cleanup es names f in ((do cs ← rest; ok (c ∷ cs)), g)
        ]
  ]

  unfoldable pub outbox_candidates : Bool → Store → Result QueueError (List UpdateCandidate) × Store
  unfolding outbox_loop read_outbox_record names_of sort_by_uid
  outbox_candidates cleanup s = elim s.outbox [
    | absent ↦ (ok [], s)
    | occupied ↦ (err (format_error "local outbox" "must be a directory"), s)
    | directory linked es ↦
        if linked
        then (err (format_error "local outbox" "must be a directory"), s)
        else let (found, f) =
            outbox_loop cleanup es (sorted_set (names_of es)) (directory false es) in
          ((do cs ← found; ok (sort_by_uid cs)), record s { outbox = f })
  ]
