-- ===== src/UpdateQueue/Disk/Laws.antt =====
-- What a write or a removal leaves at every path of a folder (rightmemory/update_queue.py).
use right_memory.Common.{
  ◌≡◌, refl, true, Option, none, some, [], ◌∷◌, Text, text_eq, text_eq_iff, arith, if◌then◌else◌,
  Result, ok, Bool, >>=-eq-ok,
}
use right_memory.Common.Json.{Json}
use right_memory.UpdateQueue.Formats.{QueueError}
use right_memory.UpdateQueue.Disk.{
  Node, regular, link, subfolder, Entries, Folder, absent, occupied, directory, find, put, discard,
  node_at, replace, write_json, remove_node, unlink, read_record, keep_existing,
}

find-put :
    (n j : Text) (node : Node) (es : Entries)
    → find j (put n node es) ≡ (if text_eq n j then some node else find j es)
unfolding find put
find-put n j node [] = refl
find-put n j node ((i, old) ∷ es) =
    ground (arith, text_eq_iff n j, text_eq_iff i n, text_eq_iff i j, find-put n j node es)

find-discard :
    (n j : Text) (es : Entries) → find j (discard n es) ≡ (if text_eq n j then none else find j es)
unfolding find discard
find-discard n j [] = ground arith
find-discard n j ((i, old) ∷ es) =
    ground (arith, text_eq_iff n j, text_eq_iff i n, text_eq_iff i j, find-discard n j es)

node_at-replace :
    (old : Option Node) (linked : _) (es : Entries) (n j : Text) (value : Json) {g : Folder}
    → replace old linked es n value ≡ ok g
    → node_at g j ≡ (if text_eq n j then some (regular (some value)) else find j es)
unfolding replace node_at
node_at-replace (some subfolder) linked es n j value h = cc
node_at-replace none linked es n j value h = ground (arith, find-put n j (regular (some value)) es)
node_at-replace (some (regular raw)) linked es n j value h =
    ground (arith, find-put n j (regular (some value)) es)
node_at-replace (some link) linked es n j value h =
    ground (arith, find-put n j (regular (some value)) es)

-- After a write the path holds the value, and every other path what it held.
pub node_at-write_json :
    (f : Folder) (n j : Text) (value : Json) {g : Folder}
    → write_json f n value ≡ ok g
    → node_at g j ≡ (if text_eq n j then some (regular (some value)) else node_at f j)
unfolding write_json
node_at-write_json absent n j value h = unfold node_at in ground arith
node_at-write_json occupied n j value h = cc
node_at-write_json (directory linked es) n j value h =
    unfold node_at in node_at-replace (find n es) linked es n j value h

node_at-remove_node :
    (linked : _) (es : Entries) (n j : Text) {g : Folder}
    → remove_node (find n es) linked es n ≡ ok g
    → node_at g j ≡ (if text_eq n j then none else find j es)
unfolding remove_node node_at
node_at-remove_node linked es n j h = ground (arith, find-discard n j es, text_eq_iff n j)

-- After a removal the path is free, and every other path holds what it held.
pub node_at-unlink :
    (f : Folder) (n j : Text) {g : Folder}
    → unlink f n ≡ ok g
    → node_at g j ≡ (if text_eq n j then none else node_at f j)
unfolding unlink
node_at-unlink absent n j h = unfold node_at in ground arith
node_at-unlink occupied n j h = cc
node_at-unlink (directory linked es) n j h = unfold node_at in node_at-remove_node linked es n j h

-- A record that stays in place was read, and is the same as the requested one.
pub keep_existing_sound {ℓ} :
    {A : Type ℓ} (f : Folder) (node : Node) (value : Json) (parser : Json → Result QueueError A)
    (same : A → A → Bool) {g : Folder}
    → keep_existing f node value parser same ≡ ok g
    → (existing requested : A) × (read_record node parser ≡ ok existing)
      × (parser value ≡ ok requested)
      × (same existing requested ≡ true)
      × (g ≡ f)
unfolding keep_existing
keep_existing_sound f node value parser same h =
    let (existing, read, k) = >>=-eq-ok (read_record node parser) _ h in
    let (requested, parsed, k') = >>=-eq-ok (parser value) _ k in
    (existing, requested, read, parsed, ground arith, ground arith)
