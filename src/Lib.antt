-- ===== src/Lib.antt =====
-- RightMemory: a memory for agents that is kept in files and Git. This library models six of its
-- parts: five that keep their state in files that several processes use, and the graph that the
-- Markdown documents hold.
--
-- UpdateQueue (rightmemory/update_queue.py): the records of updates that wait to be merged. Formats
-- has the validators (`_require_uid` and the others), Records the record classes with the checks of
-- `__post_init__`, Codec the JSON of each record (`_candidate_json`, `_parse_candidate` and the
-- others) with `_loads_json` in Codec.Loads, Disk the folders and the helpers on paths, Store the
-- class `UpdateQueueStore`, Outbox its `outbox_candidates`, Batch `update_candidate_batch_id`, and
-- Inspect `_inspect_update_queue`, which checks that the records fit together; Entry has the
-- functions that other modules call.
--
-- UpdateRecord (rightmemory/update_record.py): the batches of candidates that are retained after
-- their update. It has the class `UpdateRecord`, the store, and `validate_update_records`, and uses
-- the candidates, the batch identity and the folders of UpdateQueue.
--
-- Share (rightmemory/share_models.py): the registry of shares. Fields has the records and the
-- checks of one field, Validate `_validate_share` and `_normalize_parts`, Load `_load_share` from a
-- TOML table, Save `load_shares` and `save_shares`.
--
-- View (rightmemory/shared_view_models.py): the registry of shared views. Models has the records
-- and `validate_connection`, View.Registry `load_connections`, View.Save `save_connections`,
-- Credentials the store of credentials. Common.Toml has the rendering that both registries use.
--
-- Insight (rightmemory/insight_trigger.py): the points towards the next insight. The module has the
-- state, its validation, and its JSON: `state_json` is what `_write_locked` writes, and
-- `state_from_json` (`_state_from_json`) what reads it, on every call. Insight.Store has the class
-- `InsightTriggerStore`. The state file holds the JSON value of its text, or a text that is none.
-- Each public method holds the lock of the file while it runs, so a call is one step, and a
-- sequence of calls of several processes is a sequence of steps.
--
-- Graph (rightmemory/graph.py): the items that the documents hold, and their edges. Grammar has the
-- regular expressions of a line, Nodes those of a node line, Headings the functions that read,
-- render and patch a heading, Model the records and the changes of a manifest, Lines, State,
-- Sections, Bodies and Parse `_parse_document`, Load `_load_document` with the backing files of a
-- document, Validate the checks and, as `load_and_check`, `_build_manifest` up to the call of
-- `_assign_logical_metadata`, Entry the profiles of `build_graph_manifest` and `build_mf_manifest`.
-- `load_and_check` has no result (`none`) where the fuel runs out, the text of a file is not read,
-- or a block is missing on the way upwards from an item; there the code raises or does not return.
-- Where `_finalize_document` and `_attach_detail_document` look up keys that the parser has
-- recorded itself, a missing block is passed over. The blocks of a manifest are a list with their
-- keys, in the order in which they were added.
--
-- Common has the shared names: text as its code points, sorted sets of texts, results of code that
-- may raise, JSON values. Tests runs the models on concrete inputs.
--
-- Each Python function is one function by clauses; a function that raises returns a Result, and a
-- method that writes returns the new state beside its result, so that what was written before a
-- raise is seen. Loops are structural recursion over the lists that they run through. There is fuel
-- in two places. `load_document` has the depth of the nested documents, and one more than the
-- number of regular files is enough for it. `has_ancestor` has the number of steps upwards, one
-- more than there are blocks, which is enough for every way upwards that ends; on one that does not
-- end, where the code would not return, there is no manifest. Integers are unbounded, as in Python.
-- Code outside the repository is a parameter: of UpdateQueue the reading of ISO times, SHA-256, and
-- whether a process lives; of the registries the rendering of a string by the json module and the
-- text of a value that is no string; of Insight the floating point numbers and the reading of ISO
-- times; of Graph the files (which names are regular files or exist, and their text) and
-- `str.casefold`. The new uuid and the time of a call are arguments.
--
-- Not modelled: the text of JSON and TOML, which libraries read and write (a file holds a decoded
-- value, and a written file is read as its value); failures of the disk (but for a text of the
-- graph that cannot be read), the `.gitignore` that `_ensure_runtime_gitignore` puts into the
-- runtime folder before the local files are written, and links that point nowhere; arguments of a
-- type that the annotations exclude; the texts of messages beyond their labels; texts with lone
-- surrogates, for which the encoding of a record as UTF-8 (`_json_bytes`, `candidate_sha256`)
-- raises. `sorted(root.iterdir())` runs by file name, and as every accepted file is named by its
-- record, this is the order by uid and by batch id. Of the graph, what `_assign_logical_metadata`
-- adds (the ranks of the traversal and the content hashes), the functions that return a manifest
-- with it, and the texts of spans are left out, and the documents lie in one folder, where a path
-- is a file name. The other parts of the program, among them its calls of Git, of language models
-- and of HTTP, are not modelled.
pub mod Common
pub mod UpdateQueue
pub mod Share
pub mod View
pub mod Graph
pub mod UpdateRecord
pub mod Insight
pub mod Tests
