-- ===== src/Graph/Model/Grows.antt =====
-- How the changes of a manifest in rightmemory/graph.py extend it: no error and no document is lost, and
-- an id stays that of the block for which it was recorded first.
use mathlib.Core.List.{append_assoc, append-nil}
use right_memory.Common.{
  ℕ, ◌≡◌, refl, sym, ◌∙◌, ap, Bool, true, false, not, ◌&&◌, none, List, [], ◌∷◌, ◌++◌, map, Text,
  text_eq, text_in, Option, some, Option-cases, Bool-cases, inl, inr, arith, if◌then◌else◌,
}
use right_memory.Graph.Grammar.{file}
use right_memory.Graph.Model.{
  BlockKey, DocumentBlock, GraphItem, GraphError, BackingReference, ParsedDocument, GraphManifest,
  add_error, error_if, duplicate_id, append_text, add_block, record_item, put_item, find_item,
  record_backing, claim_path, has_backing, kind_eq, find_path,
}

-- No text stands twice.
abbrev pub AllDistinct : List Text → Type 0
AllDistinct [] = Unit
AllDistinct (t ∷ ts) = (text_in t ts ≡ false) × AllDistinct ts

-- The id of an item, with the block that carries it
abbrev pub place_of : GraphItem → Text × BlockKey
place_of i = (i.id, i.block_key)

abbrev pub places : List GraphItem → List (Text × BlockKey)
places is = map place_of is

unfoldable pub block_of : Text → List (Text × BlockKey) → Option BlockKey
block_of id [] = none
block_of id ((t, key) ∷ ps) = if text_eq t id then some key else block_of id ps

-- Every id of the first items has the same block among the second ones.
abbrev pub Kept : List GraphItem → List GraphItem → Type 0
Kept is js =
    (id : Text) (key : BlockKey)
    → block_of id (places is) ≡ some key
    → block_of id (places js) ≡ some key

pub record Grows (m m' : GraphManifest) : Type 0 where
  pub more_errors : (es : List GraphError) × (m'.errors ≡ m.errors ++ es)
  pub more_documents : (ds : List ParsedDocument) × (m'.documents ≡ m.documents ++ ds)
  pub kept : Kept m.items m'.items

pub Grows-refl : (m : GraphManifest) → Grows m m
Grows-refl m = record {
  more_errors = ([], sym (append-nil m.errors));
  more_documents = ([], sym (append-nil m.documents));
  kept = λ id key h. h;
}

extended {ℓ} :
    {A : Type ℓ} (xs ys zs : List A)
    → (es : List A) × (ys ≡ xs ++ es)
    → (es : List A) × (zs ≡ ys ++ es)
    → (es : List A) × (zs ≡ xs ++ es)
extended xs ys zs (es, p) (fs, q) = (es ++ fs, q ∙ ap (λ l. l ++ fs) p ∙ append_assoc xs es fs)

pub Grows-trans : {m n o : GraphManifest} → Grows m n → Grows n o → Grows m o
Grows-trans g h = record {
  more_errors = extended _ _ _ g.more_errors h.more_errors;
  more_documents = extended _ _ _ g.more_documents h.more_documents;
  kept = λ id key k. h.kept id key (g.kept id key k);
}

-- A change of other fields only
pub Grows-kept :
    (m n : GraphManifest)
    → n.errors ≡ m.errors
    → n.documents ≡ m.documents
    → places n.items ≡ places m.items
    → Grows m n
Grows-kept m n p q r = record {
  more_errors = ([], p ∙ sym (append-nil m.errors));
  more_documents = ([], q ∙ sym (append-nil m.documents));
  kept = λ id key h. rw r h;
}

pub add_error-Grows : (e : GraphError) (m : GraphManifest) → Grows m (add_error e m)
unfolding add_error
add_error-Grows e m = record {
  more_errors = (e ∷ [], refl);
  more_documents = ([], sym (append-nil m.documents));
  kept = λ id key h. h;
}

pub error_if-Grows : (b : Bool) (e : GraphError) (m : GraphManifest) → Grows m (error_if b e m)
unfolding error_if
error_if-Grows true e m = add_error-Grows e m
error_if-Grows false e m = Grows-refl m

pub append_text-Grows :
    (key : BlockKey) (line : Text) (n : ℕ) (m : GraphManifest) → Grows m (append_text key line n m)
unfolding append_text
append_text-Grows key line n m = Grows-kept m _ refl refl refl

pub add_block-Grows :
    (parent : BlockKey) (b : DocumentBlock) (m : GraphManifest) → Grows m (add_block parent b m)
unfolding add_block
add_block-Grows parent b m = Grows-kept m _ refl refl refl

-- A new id leaves the others.
put_item-Kept :
    (item : GraphItem) (is : List GraphItem)
    → find_item item.id is ≡ none
    → Kept is (put_item item is)
unfolding put_item find_item block_of
put_item-Kept item [] q id key h = ground arith
put_item-Kept item (i ∷ is) q id key h = elim (Bool-cases (text_eq i.id item.id)) [
  | inl e ↦ ground arith
  | inr e ↦ let below = put_item-Kept item is in ground (arith, below (ground arith) id key)
]

pub record_item-Grows : (item : GraphItem) (m : GraphManifest) → Grows m (record_item item m)
unfolding record_item
record_item-Grows item m = elim (Option-cases (find_item item.id m.items)) [
  | inl q ↦
      rw (record_item, q)
        (record {
          more_errors = ([], sym (append-nil m.errors));
          more_documents = ([], sym (append-nil m.documents));
          kept = put_item-Kept item m.items q;
        })
  | inr (i, q) ↦
      rw (record_item, q)
        (Grows-trans
          (Grows-kept m (record m { duplicates = item.id ∷ m.duplicates }) refl refl refl)
          (add_error-Grows (duplicate_id item.id item.file_name item.line_number) _))
]

pub choose-Grows :
    (m n o : GraphManifest) (b : Bool) → Grows m n → Grows m o → Grows m (if b then n else o)
choose-Grows m n o true g h = g
choose-Grows m n o false g h = h

claim_path-Grows :
    (key : Text) (r : BackingReference) (m : GraphManifest) → Grows m (claim_path key r m)
unfolding claim_path
claim_path-Grows key r m = elim (Option-cases (find_path key m.backing_paths)) [
  | inl q ↦ rw (claim_path, q) (Grows-kept m _ refl refl refl)
  | inr (p, q) ↦
      rw (claim_path, q)
        (choose-Grows m _ _ (text_eq p.backed_id r.backed_id && kind_eq p.backed_kind r.backed_kind)
          (Grows-kept m _ refl refl refl) (add_error-Grows _ m))
]

pub record_backing-Grows :
    (is_regular : Text → Bool) (casefold : Text → Text) (r : BackingReference) (m : GraphManifest)
    → Grows m (record_backing is_regular casefold r m)
unfolding record_backing
record_backing-Grows is_regular casefold r m =
    let m' : GraphManifest =
      if has_backing r.backed_id m.backing then m else record m { backing = m.backing ++ r ∷ [] } in
    let claimed = claim_path (casefold r.path) r m' in
    let g : Grows m claimed =
      Grows-trans
        (choose-Grows m m _ (has_backing r.backed_id m.backing) (Grows-refl m)
          (Grows-kept m _ refl refl refl))
        (claim_path-Grows (casefold r.path) r m') in
    choose-Grows m _ _ (not (is_regular r.path)) (Grows-trans g (add_error-Grows _ claimed)) (
      choose-Grows m _ _ (kind_eq r.backed_kind file) g
        (Grows-trans g (Grows-kept claimed _ refl refl refl)))
