-- ===== src/Graph/Load/Grows.antt =====
-- The loading of documents in rightmemory/graph.py extends the manifest.
use mathlib.Core.Option.{some_inj}
use mathlib.Core.Path.{subst}
use mathlib.Core.List.{append-nil}
use right_memory.Common.{
  ℕ, zero, suc, ◌≡◌, refl, sym, true, ◌||◌, Option, none, some, List, [], ◌∷◌, ◌++◌, map, Text,
  text_eq, text_in, Bool-cases, Option-cases, inl, inr, splitlines, ◌⊎◌, arith, text_eq_iff,
}
use right_memory.Graph.Model.{
  Family, BlockKey, Part, line_part, block_part, DocumentBlock, GraphItem, BackingReference,
  ParsedDocument, GraphManifest, change_block, find_block,
}
use right_memory.Graph.Model.Grows.{
  Grows, Grows-refl, Grows-trans, Grows-kept, choose-Grows, add_error-Grows, places, place_of, Kept,
}
use right_memory.Graph.State.{ParseProfile, Files}
use right_memory.Graph.Parse.{parse_document}
use right_memory.Graph.Parse.Grows.{parse_document-Grows}
use right_memory.Graph.Load.{
  finalize_item, finalize_document, put_part, is_parent, same_key, move_item, attach_child,
  attach_parts, attach_text, attach_below, attach_detail_document, is_loaded, with_document, Loader,
  attach_loaded, load_references, rooted, load_text, load_new, load_document, needs_gap,
}

finalize_item-place :
    (name : Text) (bs : List DocumentBlock) (i : GraphItem)
    → place_of (finalize_item name bs i) ≡ place_of i
unfolding finalize_item
finalize_item-place name bs i = elim (Bool-cases (text_eq i.block_key.0 name)) [
  | inr e ↦ rw (finalize_item, e) refl
  | inl e ↦ elim (Option-cases (find_block i.block_key bs)) [
    | inl q ↦ rw (finalize_item, e, q) refl
    | inr (b, q) ↦ rw (finalize_item, e, q) refl
  ]
]

places-finalize_item :
    (name : Text) (bs : List DocumentBlock) (is : List GraphItem)
    → places (map (finalize_item name bs) is) ≡ places is
places-finalize_item name bs [] = refl
places-finalize_item name bs (i ∷ is) =
    rw (finalize_item-place name bs i, places-finalize_item name bs is) refl

finalize_document-Grows : (name : Text) (m : GraphManifest) → Grows m (finalize_document name m)
unfolding finalize_document
finalize_document-Grows name m = Grows-kept m _ refl refl (places-finalize_item name _ m.items)

places-move_item :
    (child : DocumentBlock) (owner : BlockKey) (is : List GraphItem)
    → places (move_item child owner is) ≡ places is
unfolding move_item
places-move_item child owner [] = refl
places-move_item child owner (i ∷ is) = elim (Bool-cases (same_key child.item_id child.key i)) [
  | inl e ↦ rw (e, places-move_item child owner is) refl
  | inr e ↦ rw (e, places-move_item child owner is) refl
]

attach_child-Grows :
    (owner detail key : BlockKey) (child : DocumentBlock) (m : GraphManifest)
    → Grows m (attach_child owner detail key child m)
unfolding attach_child
attach_child-Grows owner detail key child m =
    choose-Grows m _ _
      (is_parent child.logical_parent detail || is_parent child.logical_parent owner)
      (Grows-kept m _ refl refl (places-move_item child owner m.items)) (add_error-Grows _ m)

attach_parts-Grows :
    (owner detail : BlockKey) (ps : List Part) (m : GraphManifest)
    → Grows m (attach_parts owner detail ps m)
unfolding attach_parts
attach_parts-Grows owner detail [] m = Grows-refl m
attach_parts-Grows owner detail (line_part t ∷ ps) m =
    Grows-trans (Grows-kept m (change_block owner (put_part (line_part t)) m) refl refl refl)
      (attach_parts-Grows owner detail ps _)
attach_parts-Grows owner detail (block_part key ∷ ps) m =
    elim (Option-cases (find_block key m.blocks)) [
      | inl q ↦ rw (attach_parts, q) (attach_parts-Grows owner detail ps m)
      | inr (child, q) ↦
          rw (attach_parts, q)
            (Grows-trans (attach_child-Grows owner detail key child m)
              (attach_parts-Grows owner detail ps _))
    ]

attach_below-Grows :
    (key : BlockKey) (owner detail : DocumentBlock) (m : GraphManifest)
    → Grows m (attach_below key owner detail m)
unfolding attach_below attach_text
attach_below-Grows key owner detail m =
    Grows-trans
      (choose-Grows m (change_block key (put_part (line_part [])) m) m
        (needs_gap owner.logical_parts) (Grows-kept m _ refl refl refl) (Grows-refl m))
      (Grows-trans (attach_parts-Grows key detail.key detail.logical_parts _)
        (Grows-kept _ _ refl refl refl))

parts-cases : (ps : List Part) → (ps ≡ []) ⊎ ((p : Part) × (qs : List Part) × (ps ≡ p ∷ qs))
parts-cases [] = inl refl
parts-cases (p ∷ ps) = inr (p, ps, refl)

attach_detail_document-Grows :
    (key root : BlockKey) (m : GraphManifest) → Grows m (attach_detail_document key root m)
unfolding attach_detail_document
attach_detail_document-Grows key root m = elim (Option-cases (find_block key m.blocks)) [
  | inl q ↦ rw (attach_detail_document, q) (Grows-refl m)
  | inr (owner, q) ↦ elim (Option-cases (find_block root m.blocks)) [
    | inl k ↦ rw (attach_detail_document, q, k) (Grows-refl m)
    | inr (detail, k) ↦ elim (parts-cases detail.logical_parts) [
      | inl e ↦ rw (attach_detail_document, q, k, e) (Grows-refl m)
      | inr (p, ps, e) ↦
          rw (attach_detail_document, q, k, e) (attach_below-Grows key owner detail m)
    ]
  ]
]

attach_loaded-Grows :
    (owner : BlockKey) (found : Option BlockKey × GraphManifest)
    → Grows found.1 (attach_loaded owner found)
unfolding attach_loaded
attach_loaded-Grows owner (none, m) = Grows-refl m
attach_loaded-Grows owner (some root, m) = attach_detail_document-Grows owner root m

-- Every result of the loader extends the manifest that it was given.
abbrev pub LoadGrows : Loader → Type 0
LoadGrows load =
    (name : Text) (family : Family) (stack : List Text) (m : GraphManifest)
    (found : Option BlockKey × GraphManifest)
    → load name family stack m ≡ some found
    → Grows m found.1

pub ran_out {ℓ} : {A : Type ℓ} {a : A} → none ≡ some a → ⊥
ran_out h = cc

load_references-Grows :
    (load : Loader)
    → LoadGrows load
    → (fs : Files) (stack : List Text) (rs : List (BlockKey × BackingReference))
      (m m' : GraphManifest)
    → load_references load fs stack rs m ≡ some m'
    → Grows m m'
unfolding load_references
load_references-Grows load g fs stack [] m m' h =
    subst (λ x. Grows m x) (some_inj.0 h) (Grows-refl m)
load_references-Grows load g fs stack ((owner, r) ∷ rs) m m' h =
    elim (Bool-cases (fs.is_regular r.path)) [
      | inr e ↦ load_references-Grows load g fs stack rs m m' (rw (load_references, e) at h)
      | inl e ↦ elim (Bool-cases (text_in r.path stack)) [
        | inl k ↦
            Grows-trans (add_error-Grows _ m)
              (load_references-Grows load g fs stack rs _ m' (rw (load_references, e, k) at h))
        | inr k ↦ elim (Option-cases (load r.path r.backed_family stack m)) [
          | inl q ↦ absurd (ran_out (rw (load_references, e, k, q) at h))
          | inr (found, q) ↦ Grows-trans (g r.path r.backed_family stack m found q) (
              Grows-trans (attach_loaded-Grows owner found) (
                load_references-Grows load g fs stack rs (attach_loaded owner found) m'
                  (rw (load_references, e, k, q) at h)))
        ]
      ]
    ]

rooted-Grows :
    (name : Text) (m : GraphManifest) (o : Option GraphManifest)
    (found : Option BlockKey × GraphManifest)
    → ((m' : GraphManifest) → o ≡ some m' → Grows m m')
    → rooted name o ≡ some found
    → Grows m found.1
unfolding rooted
rooted-Grows name m none found g h = absurd (ran_out h)
rooted-Grows name m (some m') found g h = subst (λ x. Grows m x.1) (some_inj.0 h) (g m' refl)

load_text-Grows :
    (load : Loader)
    → LoadGrows load
    → (fs : Files) (profile : ParseProfile) (text name : Text) (family : Family) (stack : List Text)
      (m : GraphManifest) (found : Option BlockKey × GraphManifest)
    → load_text load fs profile text name family stack m ≡ some found
    → Grows (with_document name family text (splitlines text) m) found.1
unfolding load_text
load_text-Grows load g fs profile text name family stack m found h =
    let lines = splitlines text in
    let opened = with_document name family text lines m in
    let parsed = parse_document fs profile name family lines opened in
    rooted-Grows name opened
      (load_references load fs (name ∷ stack) parsed.1 (finalize_document name parsed.0)) found
      (λ m' q. Grows-trans (parse_document-Grows fs profile name family lines opened) (
        Grows-trans (finalize_document-Grows name parsed.0) (
          load_references-Grows load g fs (name ∷ stack) parsed.1 (finalize_document name parsed.0)
            m' q)))
      h

-- A new document is added with its text, and nothing is lost after that.
load_new-Grows :
    (load : Loader)
    → LoadGrows load
    → (fs : Files) (profile : ParseProfile) (name : Text) (family : Family) (stack : List Text)
      (m : GraphManifest) (found : Option BlockKey × GraphManifest)
    → load_new load fs profile name family stack m ≡ some found
    → (text : Text) × Grows (with_document name family text (splitlines text) m) found.1
unfolding load_new
load_new-Grows load g fs profile name family stack m found h =
    elim (Option-cases (fs.read_text name)) [
      | inl q ↦ absurd (ran_out (rw (load_new, q) at h))
      | inr (text, q) ↦ (
        text,
        load_text-Grows load g fs profile text name family stack m found (rw (load_new, q) at h),
      )
    ]

with_document-Grows :
    (name : Text) (family : Family) (text : Text) (lines : List Text) (m : GraphManifest)
    → Grows m (with_document name family text lines m)
with_document-Grows name family text lines m = record {
  more_errors = ([], sym (append-nil m.errors));
  more_documents = (_, refl);
  kept = λ id key h. h;
}

pub load_document-Grows :
    (fuel : ℕ) (fs : Files) (profile : ParseProfile) → LoadGrows (load_document fuel fs profile)
unfolding load_document
load_document-Grows zero fs profile name family stack m found h = absurd (ran_out h)
load_document-Grows (suc fuel) fs profile name family stack m found h =
    elim (Bool-cases (fs.is_regular name)) [
      | inr e ↦
          subst (λ x. Grows m x.1) (some_inj.0 (rw (load_document, e) at h)) (add_error-Grows _ m)
      | inl e ↦ elim (Bool-cases (is_loaded name m.documents)) [
        | inl l ↦
            subst (λ x. Grows m x.1) (some_inj.0 (rw (load_document, e, l) at h)) (Grows-refl m)
        | inr l ↦
            let (text, g) =
              load_new-Grows (load_document fuel fs profile) (load_document-Grows fuel fs profile)
                fs profile name family stack m found (rw (load_document, e, l) at h) in
            Grows-trans (with_document-Grows name family text (splitlines text) m) g
      ]
    ]

is_loaded-append :
    (name : Text) (ds es : List ParsedDocument)
    → is_loaded name ds ≡ true
    → is_loaded name (ds ++ es) ≡ true
unfolding is_loaded
is_loaded-append name [] es h = cc
is_loaded-append name (d ∷ ds) es h = ground (arith, is_loaded-append name ds es)

-- What is loaded stays loaded.
pub is_loaded-Grows :
    (name : Text) (m m' : GraphManifest)
    → Grows m m'
    → is_loaded name m.documents ≡ true
    → is_loaded name m'.documents ≡ true
is_loaded-Grows name m m' g h =
    rw g.more_documents.1 (is_loaded-append name m.documents g.more_documents.0 h)

is_loaded-snoc :
    (ds : List ParsedDocument) (d : ParsedDocument) → is_loaded d.name (ds ++ d ∷ []) ≡ true
unfolding is_loaded
is_loaded-snoc [] d = ground (arith, text_eq_iff d.name d.name)
is_loaded-snoc (e ∷ ds) d = ground (arith, is_loaded-snoc ds d)

-- A regular file that is loaded is among the documents afterwards.
pub load_document-is_loaded :
    (fuel : ℕ) (fs : Files) (profile : ParseProfile) (name : Text) (family : Family)
    (stack : List Text) (m : GraphManifest) (found : Option BlockKey × GraphManifest)
    → fs.is_regular name ≡ true
    → load_document fuel fs profile name family stack m ≡ some found
    → is_loaded name found.1.documents ≡ true
unfolding load_document
load_document-is_loaded zero fs profile name family stack m found e h = absurd (ran_out h)
load_document-is_loaded (suc fuel) fs profile name family stack m found e h =
    elim (Bool-cases (is_loaded name m.documents)) [
      | inl l ↦
          subst (λ x. is_loaded name x.1.documents ≡ true)
            (some_inj.0 (rw (load_document, e, l) at h)) l
      | inr l ↦
          let (text, g) =
            load_new-Grows (load_document fuel fs profile) (load_document-Grows fuel fs profile) fs
              profile name family stack m found (rw (load_document, e, l) at h) in
          is_loaded-Grows name _ found.1 g (is_loaded-snoc m.documents _)
    ]

-- Whatever a document and its backing files hold, an id that was recorded before stays that of the same
-- block: a later item with the id does not take its place.
pub load_document-Kept :
    (fuel : ℕ) (fs : Files) (profile : ParseProfile) (name : Text) (family : Family)
    (stack : List Text) (m : GraphManifest) (found : Option BlockKey × GraphManifest)
    → load_document fuel fs profile name family stack m ≡ some found
    → Kept m.items found.1.items
load_document-Kept fuel fs profile name family stack m found h =
    (load_document-Grows fuel fs profile name family stack m found h).kept
