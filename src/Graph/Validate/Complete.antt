-- ===== src/Graph/Validate/Complete.antt =====
-- The validation of rightmemory/graph.py reports nothing for items that have all that it asks for.
use right_memory.Common.{
  ◌≡◌, ◌≢◌, refl, sym, ◌↔◌, true, false, List, [], ◌∷◌, some, codes, Text, text_eq, text_eq_iff,
  Bool-cases, inl, inr, arith, All,
}
use right_memory.Graph.Model.{GraphItem, GraphManifest}
use right_memory.Graph.Validate.{
  Edge, edge_eq, edge_in, has_item, is_contained, containment_errors, joined, edge_errors,
  edges_errors, malformed_errors, item_errors, items_errors,
}
use right_memory.Graph.Validate.Ancestors.{IsOutside}
use right_memory.Graph.Validate.Ancestors.Fuel.{IsOutside-has_ancestor}
use right_memory.Graph.Validate.Sound.{
  HasItem, IsGoodEdge, NoRepeat, IsGoodItem, edge_eq_sound, items_errors_sound,
}

has_item_complete : (id : Text) (is : List GraphItem) → HasItem id is → has_item id is ≡ true
unfolding has_item
has_item_complete id [] h = absurd h
has_item_complete id (i ∷ is) (inl e) = ground (arith, text_eq_iff i.id id)
has_item_complete id (i ∷ is) (inr h) = ground (arith, has_item_complete id is h)

different : (a b : Text) → a ≢ b → text_eq a b ≡ false
different a b h = elim (Bool-cases (text_eq a b)) [
  | inl e ↦ absurd (h ((text_eq_iff a b).0 e))
  | inr e ↦ e
]

IsOutside-is_contained :
    (m : GraphManifest) (item : GraphItem) (kind target : Text)
    → (kind ≡ codes "rel" → IsOutside m.blocks target item.item_logical_parent)
    → is_contained m item (kind, target) ≡ some false
unfolding is_contained
IsOutside-is_contained m item kind target h = elim (Bool-cases (text_eq kind (codes "rel"))) [
  | inl e ↦
      rw (is_contained, e)
        (IsOutside-has_ancestor m.blocks target item.item_logical_parent
          (h ((text_eq_iff kind (codes "rel")).0 e)))
  | inr e ↦ rw (is_contained, e) refl
]

IsGoodEdge-edge_errors :
    (m : GraphManifest) (item : GraphItem) (e : Edge)
    → IsGoodEdge m item e
    → edge_errors m item e ≡ some []
unfolding edge_errors containment_errors
IsGoodEdge-edge_errors m item (kind, target) h =
    rw
      (
        different target item.id h.no_loop,
        h.known,
        has_item_complete target m.items h.present,
        IsOutside-is_contained m item kind target h.not_contained,
      )
      refl

-- An edge that stands in neither list
edge_in-fresh :
    (e f : Edge) (seen : List Edge) → edge_in f seen ≡ false → f ≢ e → edge_in f (e ∷ seen) ≡ false
unfolding edge_in
edge_in-fresh e f seen h k = elim (Bool-cases (edge_eq e f)) [
  | inl q ↦ absurd (k (sym (edge_eq_sound e f q)))
  | inr q ↦ ground arith
]

fresh_edges :
    (e : Edge) (seen es : List Edge)
    → All (λ f. f ≢ e) es
    → All (λ f. edge_in f seen ≡ false) es
    → All (λ f. edge_in f (e ∷ seen) ≡ false) es
fresh_edges e seen [] h k = tt
fresh_edges e seen (f ∷ fs) h k = (edge_in-fresh e f seen k.0 h.0, fresh_edges e seen fs h.1 k.1)

edges_errors_complete :
    (m : GraphManifest) (item : GraphItem) (seen es : List Edge)
    → NoRepeat es
    → All (λ f. edge_in f seen ≡ false) es
    → All (IsGoodEdge m item) es
    → edges_errors m item seen es ≡ some []
unfolding edges_errors joined
edges_errors_complete m item seen [] n f h = refl
edges_errors_complete m item seen (e ∷ es) n f h =
    rw
      (
        f.0,
        IsGoodEdge-edge_errors m item e h.0,
        edges_errors_complete m item (e ∷ seen) es n.1 (fresh_edges e seen es n.0 f.1) h.1,
      )
      refl

none_seen : (es : List Edge) → All (λ f. edge_in f [] ≡ false) es
unfolding edge_in
none_seen [] = tt
none_seen (e ∷ es) = (refl, none_seen es)

items_errors_complete :
    (m : GraphManifest) (is : List GraphItem) → All (IsGoodItem m) is → items_errors m is ≡ some []
unfolding items_errors item_errors malformed_errors joined
items_errors_complete m [] h = refl
items_errors_complete m (i ∷ is) h =
    let good = h.0 in
    rw
      (
        good.well_formed,
        edges_errors_complete m i [] i.edges good.no_repeat (none_seen i.edges) good.good_edges,
        items_errors_complete m is h.1,
      )
      refl

-- The validation of the items reports nothing exactly if every item has well-formed edges of known types,
-- no edge twice, each to another item of the manifest, and for an edge of type `rel` the way upwards from
-- the item ends without a heading of the target.
pub items_errors_iff :
    (m : GraphManifest) (is : List GraphItem)
    → (items_errors m is ≡ some []) ↔ All (IsGoodItem m) is
items_errors_iff m is = (items_errors_sound m is, items_errors_complete m is)
