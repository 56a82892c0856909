-- ===== src/UpdateQueue/Outbox/Kept.antt =====
-- The clearing of temporary files in rightmemory/update_queue.py touches no record of the outbox.
use right_memory.Common.{
  ◌≡◌, refl, ◌∙◌, Bool, true, false, Option, none, some, List, [], ◌∷◌, Text, text_eq, text_eq_iff,
  arith, ok, Option-cases, Bool-cases, Result-cases, sorted_set, inl, inr,
}
use right_memory.UpdateQueue.Records.{Platform}
use right_memory.UpdateQueue.Disk.{
  Node, regular, link, subfolder, Entries, Folder, absent, occupied, directory, find, node_at,
  unlink,
}
use right_memory.UpdateQueue.Disk.Laws.{node_at-unlink}
use right_memory.UpdateQueue.Store.{Store}
use right_memory.UpdateQueue.Inspect.{names_of}
use right_memory.UpdateQueue.Outbox.{temp_pid, sweep, outbox_loop, outbox_candidates}

unlink-kept :
    (f : Folder) (name j : Text) {g : Folder}
    → unlink f name ≡ ok g
    → text_eq name j ≡ false
    → node_at g j ≡ node_at f j
unlink-kept f name j h ne = node_at-unlink f name j h ∙ rw ne

sweep-kept :
    (cleanup lives : Bool) (name : Text) (node : Option Node) (f : Folder) {g : Folder} (j : Text)
    → sweep cleanup lives name node f ≡ ok g
    → text_eq name j ≡ false
    → node_at g j ≡ node_at f j
unfolding sweep
sweep-kept true false name (some (regular raw)) f j h ne = unlink-kept f name j h ne
sweep-kept true true name (some (regular raw)) f j h ne = ground arith
sweep-kept false lives name (some (regular raw)) f j h ne = ground arith
sweep-kept cleanup lives name none f j h ne = cc
sweep-kept cleanup lives name (some link) f j h ne = cc
sweep-kept cleanup lives name (some subfolder) f j h ne = cc

-- A name that is no temporary one differs from each that is.
temporary_ne :
    (name j : Text) {pid : _}
    → temp_pid name ≡ some pid
    → temp_pid j ≡ none
    → text_eq name j ≡ false
temporary_ne name j h k = elim (Bool-cases (text_eq name j)) [
  | inl same ↦ absurd (clash ((text_eq_iff name j).0 same))
  | inr differ ↦ differ
]
  where
    clash : name ≡ j → ⊥
    clash e = cc

module _ (p : Platform) where
  outbox_loop-kept :
      (cleanup : Bool) (es : Entries) (names : List Text) (f : Folder) (j : Text)
      → temp_pid j ≡ none
      → node_at (outbox_loop p cleanup es names f).1 j ≡ node_at f j
  unfolding outbox_loop
  outbox_loop-kept cleanup es [] f j h = refl
  outbox_loop-kept cleanup es (name ∷ names) f j h = elim (Option-cases (temp_pid name)) [
    | inl record_ ↦ ground (arith, outbox_loop-kept cleanup es names f j)
    | inr (pid, temporary) ↦
        elim (Result-cases (sweep cleanup (p.process_exists pid) name (find name es) f)) [
          | inl (g, swept) ↦ ground (
            arith,
            temporary_ne name j temporary h,
            sweep-kept cleanup (p.process_exists pid) name (find name es) f j swept,
            outbox_loop-kept cleanup es names g j,
          )
          | inr (e, failed) ↦ ground arith
        ]
  ]

  -- Listing the outbox, with or without the clearing and whether it returns or raises, leaves what
  -- lies at every path that is not the name of a temporary file.
  pub outbox_candidates-kept :
      (cleanup : Bool) (s : Store) (j : Text)
      → temp_pid j ≡ none
      → node_at (outbox_candidates p cleanup s).1.outbox j ≡ node_at s.outbox j
  unfolding outbox_candidates
  outbox_candidates-kept cleanup s j h = kept s.outbox refl
    where
      kept :
          (f : Folder)
          → s.outbox ≡ f
          → node_at (outbox_candidates p cleanup s).1.outbox j ≡ node_at s.outbox j
      kept absent e = ground arith
      kept occupied e = ground arith
      kept (directory true es) e = ground arith
      kept (directory false es) e =
          ground
            (arith, outbox_loop-kept cleanup es (sorted_set (names_of es)) (directory false es) j)
