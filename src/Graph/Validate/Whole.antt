-- ===== src/Graph/Validate/Whole.antt =====
-- What a manifest has that `_build_manifest` of rightmemory/graph.py has loaded and checked, before it
-- assigns the ranks and hashes.
use mathlib.Core.List.{Memᴰ}
use mathlib.Core.List.Memᴰ
use mathlib.Core.Path.{subst}
use right_memory.Common.{
  ℕ, ◌≡◌, refl, sym, ◌∙◌, ap, Bool, true, List, [], ◌∷◌, some, Text, Bool-cases, inl, inr, All,
  append-eq-nil, if◌then◌else◌,
}
use right_memory.Graph.Model.{Family, GraphItem, GraphError, GraphManifest}
use right_memory.Graph.Model.Grows.{AllDistinct}
use right_memory.Graph.State.{ParseProfile, Files}
use right_memory.Graph.Load.{is_loaded}
use right_memory.Graph.Validate.{
  Edge, check_rest, load_and_check, validate_focus, validate_addressed_body, focus_errors,
  body_errors,
}
use right_memory.Graph.Validate.Sound.{IsGoodEdge, IsGoodItem, items_errors_sound}
use right_memory.Graph.Validate.Focus.{IsGoodFocus, names_of, focus_errors_sound}
use right_memory.Graph.Validate.Roots.{
  IsAccounted, with_errors, load_and_check-checked, load_and_check-Grows,
}

none_among : {e : GraphError} {es : List GraphError} → es ≡ [] → Memᴰ e es → ⊥
none_among h k = Memᴰ.not-nil (subst (Memᴰ _) h k)

-- Without errors, neither the checks before nor, where focus is allowed, the validation of the focus
-- references has reported one.
check_rest-silent :
    (profile : ParseProfile) (m : GraphManifest)
    → (check_rest profile m).errors ≡ []
    → (m.errors ≡ []) × (profile.allow_focus ≡ true → focus_errors m.items [] m.focus_ids ≡ [])
unfolding check_rest validate_focus validate_addressed_body
check_rest-silent profile m h =
    let focused : GraphManifest = if profile.allow_focus then validate_focus m else m in
    let k : focused.errors ≡ [] = elim (Bool-cases profile.require_addressed_body) [
      | inl e ↦
          (append-eq-nil focused.errors (body_errors focused.documents focused.blocks)
            (rw e at h)).0
      | inr e ↦ rw e at h
    ] in
    elim (Bool-cases profile.allow_focus) [
      | inl e ↦
          let (a, b) = append-eq-nil m.errors (focus_errors m.items [] m.focus_ids) (rw e at k) in
          (a, λ _. b)
      | inr e ↦ (rw e at k, λ f. absurd (cc))
    ]

-- The checks change nothing but the errors.
check_rest-errors :
    (profile : ParseProfile) (m : GraphManifest)
    → (es : List GraphError) × (check_rest profile m ≡ record m { errors = es })
unfolding check_rest validate_focus validate_addressed_body
check_rest-errors profile m = elim (Bool-cases profile.allow_focus) [
  | inl e ↦ elim (Bool-cases profile.require_addressed_body) [
    | inl f ↦ rw (check_rest, e, f) (_, refl)
    | inr f ↦ rw (check_rest, e, f) (_, refl)
  ]
  | inr e ↦ elim (Bool-cases profile.require_addressed_body) [
    | inl f ↦ rw (check_rest, e, f) (_, refl)
    | inr f ↦ rw (check_rest, e, f) (_, refl)
  ]
]

edge_of_other-IsGoodEdge :
    (m : GraphManifest) (es : List GraphError) (item : GraphItem) (edges : List Edge)
    → All (IsGoodEdge m item) edges
    → All (IsGoodEdge (record m { errors = es }) item) edges
edge_of_other-IsGoodEdge m es item [] h = tt
edge_of_other-IsGoodEdge m es item (e ∷ edges) h = (
  record {
    known = h.0.known;
    present = h.0.present;
    no_loop = h.0.no_loop;
    not_contained = h.0.not_contained;
  },
  edge_of_other-IsGoodEdge m es item edges h.1,
)

with_errors-IsGoodItem :
    (m : GraphManifest) (es : List GraphError) (items : List GraphItem)
    → All (IsGoodItem m) items
    → All (IsGoodItem (record m { errors = es })) items
with_errors-IsGoodItem m es [] h = tt
with_errors-IsGoodItem m es (i ∷ is) h = (
  record {
    well_formed = h.0.well_formed;
    good_edges = edge_of_other-IsGoodEdge m es i i.edges h.0.good_edges;
    no_repeat = h.0.no_repeat;
  },
  with_errors-IsGoodItem m es is h.1,
)

roots_loaded :
    (m : GraphManifest) (roots : List (Text × Family))
    → m.errors ≡ []
    → All (IsAccounted m) roots
    → All (λ r. is_loaded r.0 m.documents ≡ true) roots
roots_loaded m [] h a = tt
roots_loaded m ((name, family) ∷ roots) h ((inl l), rest) = (l, roots_loaded m roots h rest)
roots_loaded m ((name, family) ∷ roots) h ((inr (inl e)), rest) = absurd (none_among h e)
roots_loaded m ((name, family) ∷ roots) h ((inr (inr e)), rest) = absurd (none_among h e)

module _ (fuel : ℕ) (fs : Files) (path_exists : Text → Bool) (profile : ParseProfile) where
  -- Every root of the profile is among the documents of a manifest that was loaded and checked, or the
  -- manifest has an error that tells that the root is missing or no regular file.
  pub load_and_check-IsAccounted :
      (m : GraphManifest)
      → load_and_check fuel fs path_exists profile ≡ some m
      → All (IsAccounted m) profile.roots
  load_and_check-IsAccounted m h = (load_and_check-Grows fuel fs path_exists profile m h).1

  -- In a manifest that was loaded and checked without errors every root of the profile is loaded, and
  -- each item has well-formed edges of known types, no edge twice, each to another item of the manifest,
  -- and for an edge of type `rel` the way upwards from the item ends without a heading of the target.
  pub load_and_check-IsGoodItem :
      (m : GraphManifest)
      → load_and_check fuel fs path_exists profile ≡ some m
      → m.errors ≡ []
      → All (λ r. is_loaded r.0 m.documents ≡ true) profile.roots × All (IsGoodItem m) m.items
  load_and_check-IsGoodItem m h silent =
      let (loaded, es, q, k, c) = load_and_check-checked fuel fs path_exists profile m h in
      let (later, d) = check_rest-errors profile (with_errors loaded es) in
      let quiet =
        check_rest-silent profile (with_errors loaded es) (ap (λ x. x.errors) c ∙ silent) in
      let none_found = (append-eq-nil loaded.errors es quiet.0).1 in
      (
        roots_loaded m profile.roots silent (load_and_check-IsAccounted m h),
        subst (λ x. All (IsGoodItem x) x.items) (sym d ∙ c)
            (with_errors-IsGoodItem loaded later loaded.items
              (items_errors_sound loaded loaded.items (k ∙ ap some none_found))),
      )

  -- In a manifest that was loaded and checked without errors, with focus references allowed, each of them
  -- names a heading of the pursuits, and no two name the same.
  pub load_and_check-IsGoodFocus :
      (m : GraphManifest)
      → load_and_check fuel fs path_exists profile ≡ some m
      → m.errors ≡ []
      → profile.allow_focus ≡ true
      → AllDistinct (names_of m.focus_ids) × All (IsGoodFocus m.items) m.focus_ids
  load_and_check-IsGoodFocus m h silent allowed =
      let (loaded, es, q, k, c) = load_and_check-checked fuel fs path_exists profile m h in
      let (later, d) = check_rest-errors profile (with_errors loaded es) in
      let quiet =
        check_rest-silent profile (with_errors loaded es) (ap (λ x. x.errors) c ∙ silent) in
      let (a, b) = focus_errors_sound loaded.items [] loaded.focus_ids (quiet.1 allowed) in
      subst (λ x. AllDistinct (names_of x.focus_ids) × All (IsGoodFocus x.items) x.focus_ids)
        (sym d ∙ c) (a, b.1)
