-- ===== src/Graph/Validate/Sound.antt =====
-- What a manifest without errors of rightmemory/graph.py has: edges that lead to items, each once.
use right_memory.Common.{
  suc, ◌≡◌, ◌≢◌, refl, sym, ap, true, false, Bool, Option, none, some, codes, length, List, [], ◌∷◌,
  Text, text_eq, text_in, text_eq_iff, Bool-cases, ◌⊎◌, inl, inr, arith, All, append-eq-nil,
}
use right_memory.Graph.Grammar.{known_edge_types}
use right_memory.Graph.Model.{GraphItem, GraphError, duplicate_edge, GraphManifest}
use right_memory.Graph.Validate.{
  Edge, edge_eq, edge_in, has_item, is_contained, edge_errors, edges_errors, malformed_errors,
  item_errors, items_errors, containment_errors, joined,
}
use right_memory.Graph.Validate.Ancestors.{IsOutside, has_ancestor-IsOutside}
use mathlib.Core.Option.{some_inj}

-- Some item of the list has the id.
abbrev pub HasItem : Text → List GraphItem → Type 0
HasItem id [] = ⊥
HasItem id (i ∷ is) = (i.id ≡ id) ⊎ HasItem id is

has_item_sound : (id : Text) (is : List GraphItem) → has_item id is ≡ true → HasItem id is
unfolding has_item
has_item_sound id [] h = cc
has_item_sound id (i ∷ is) h = elim (Bool-cases (text_eq i.id id)) [
  | inl e ↦ inl ((text_eq_iff i.id id).0 e)
  | inr e ↦ inr (has_item_sound id is (ground arith))
]

-- An edge of a known type to another item that is there, and not of type `rel` from an item to a heading
-- around it
pub record IsGoodEdge (m : GraphManifest) (item : GraphItem) (e : Edge) : Type 0 where
  pub known : text_in e.0 known_edge_types ≡ true
  pub present : HasItem e.1 m.items
  pub no_loop : e.1 ≢ item.id
  pub not_contained : e.0 ≡ codes "rel" → IsOutside m.blocks e.1 item.item_logical_parent

silent-not_contained :
    (item : GraphItem) (e : Edge) (o : Option Bool)
    → containment_errors item e o ≡ some []
    → o ≡ some false
unfolding containment_errors
silent-not_contained item e none h = cc
silent-not_contained item e (some true) h = ground arith
silent-not_contained item e (some false) h = refl

contained-IsOutside :
    (m : GraphManifest) (item : GraphItem) (kind target : Text)
    → is_contained m item (kind, target) ≡ some false
    → kind ≡ codes "rel"
    → IsOutside m.blocks target item.item_logical_parent
unfolding is_contained
contained-IsOutside m item kind target h q =
    has_ancestor-IsOutside m.blocks target (suc (length m.blocks)) item.item_logical_parent
      (rw (is_contained, (text_eq_iff kind (codes "rel")).1 q) at h)

edge_errors-IsGoodEdge :
    (m : GraphManifest) (item : GraphItem) (e : Edge)
    → edge_errors m item e ≡ some []
    → IsGoodEdge m item e
unfolding edge_errors
edge_errors-IsGoodEdge m item (kind, target) h = elim (Bool-cases (text_eq target item.id)) [
  | inl a ↦ ground arith
  | inr a ↦ elim (Bool-cases (text_in kind known_edge_types)) [
    | inr b ↦ ground arith
    | inl b ↦ elim (Bool-cases (has_item target m.items)) [
      | inr c ↦ ground arith
      | inl c ↦
          let d =
            silent-not_contained item (kind, target) (is_contained m item (kind, target))
              (rw (edge_errors, a, b, c) at h) in
          record {
            known = b;
            present = has_item_sound target m.items c;
            no_loop = λ q. ground (arith, text_eq_iff target item.id);
            not_contained = contained-IsOutside m item kind target d;
          }
    ]
  ]
]

-- Both checks are silent if both together are.
pub joined-nil :
    (a b : Option (List GraphError)) → joined a b ≡ some [] → (a ≡ some []) × (b ≡ some [])
unfolding joined
joined-nil none b h = cc
joined-nil (some es) none h = cc
joined-nil (some es) (some fs) h =
    let (p, q) = append-eq-nil es fs (some_inj.0 h) in (ap some p, ap some q)

-- No edge stands twice.
abbrev pub NoRepeat : List Edge → Type 0
NoRepeat [] = Unit
NoRepeat (e ∷ es) = All (λ f. f ≢ e) es × NoRepeat es

pub edge_eq_sound : (e f : Edge) → edge_eq e f ≡ true → e ≡ f
unfolding edge_eq
edge_eq_sound (k, t) (l, u) h = ground (arith, text_eq_iff k l, text_eq_iff t u)

edge_eq_refl : (e : Edge) → edge_eq e e ≡ true
unfolding edge_eq
edge_eq_refl (k, t) = ground (arith, text_eq_iff k k, text_eq_iff t t)

fresh-NoRepeat :
    (e : Edge) (seen es : List Edge)
    → All (λ f. edge_in f (e ∷ seen) ≡ false) es
    → All (λ f. f ≢ e) es × All (λ f. edge_in f seen ≡ false) es
unfolding edge_in
fresh-NoRepeat e seen [] h = (tt, tt)
fresh-NoRepeat e seen (f ∷ fs) h =
    let (a, b) = fresh-NoRepeat e seen fs h.1 in
    let apart : edge_eq e f ≡ false = ground arith in
    let rest : edge_in f seen ≡ false = ground arith in
    ((λ q. ground (arith, edge_eq_refl e, sym (ap (edge_eq e) q)), a), (rest, b))

reported : {e : GraphError} → some (e ∷ []) ≡ some [] → ⊥
reported h = cc

edges_errors_sound :
    (m : GraphManifest) (item : GraphItem) (seen es : List Edge)
    → edges_errors m item seen es ≡ some []
    → NoRepeat es × All (λ f. edge_in f seen ≡ false) es × All (IsGoodEdge m item) es
unfolding edges_errors
edges_errors_sound m item seen [] h = (tt, tt, tt)
edges_errors_sound m item seen (e ∷ es) h = elim (Bool-cases (edge_in e seen)) [
  | inl k ↦
      let (p, q) =
        joined-nil (some (duplicate_edge item.id e ∷ [])) (edges_errors m item seen es)
          (rw (edges_errors, k) at h) in
      absurd (reported p)
  | inr k ↦
      let (p, q) =
        joined-nil (edge_errors m item e) (edges_errors m item (e ∷ seen) es)
          (rw (edges_errors, k) at h) in
      let (a, b, c) = edges_errors_sound m item (e ∷ seen) es q in
      let (d, f) = fresh-NoRepeat e seen es b in
      ((d, a), (k, f), (edge_errors-IsGoodEdge m item e p, c))
]

-- An item whose edges are all well formed, lead somewhere, and stand once
pub record IsGoodItem (m : GraphManifest) (item : GraphItem) : Type 0 where
  pub well_formed : item.malformed_edges ≡ []
  pub good_edges : All (IsGoodEdge m item) item.edges
  pub no_repeat : NoRepeat item.edges

malformed_errors-nil : (item : GraphItem) (ts : List Text) → malformed_errors item ts ≡ [] → ts ≡ []
unfolding malformed_errors
malformed_errors-nil item [] h = refl
malformed_errors-nil item (t ∷ ts) h = cc

-- If the validation of the items reports nothing, no item has a malformed edge, a repeated edge, an edge
-- of an unknown type, to itself, to no item, or a `rel` edge to a heading that contains it.
pub items_errors_sound :
    (m : GraphManifest) (is : List GraphItem) → items_errors m is ≡ some [] → All (IsGoodItem m) is
unfolding items_errors item_errors
items_errors_sound m [] h = tt
items_errors_sound m (i ∷ is) h =
    let (here, rest) = joined-nil (item_errors m i) (items_errors m is) h in
    let (p, q) =
      joined-nil (some (malformed_errors i i.malformed_edges)) (edges_errors m i [] i.edges) here in
    let (a, b, c) = edges_errors_sound m i [] i.edges q in
    (
      record {
        well_formed = malformed_errors-nil i i.malformed_edges (some_inj.0 p);
        good_edges = c;
        no_repeat = a;
      },
      items_errors_sound m is rest,
    )
