-- ===== src/Graph/Validate/Roots.antt =====
-- What `_build_manifest` of rightmemory/graph.py does with each root document, and what it keeps on the way.
use mathlib.Core.List.{Memᴰ, append-nil}
use mathlib.Core.List.Memᴰ
use mathlib.Core.Option.{some_inj}
use mathlib.Core.Path.{subst}
use right_memory.Common.{
  ℕ, zero, suc, ◌≡◌, refl, sym, Bool, true, Option, none, some, List, [], ◌∷◌, ◌++◌, Text,
  Bool-cases, Option-cases, ◌⊎◌, inl, inr, All,
}
use right_memory.Graph.Model.{
  Family, BlockKey, GraphError, missing_root, not_a_regular_file, GraphManifest, add_error,
  empty_manifest,
}
use right_memory.Graph.Model.Grows.{
  Grows, Grows-refl, Grows-trans, Grows-kept, choose-Grows, add_error-Grows,
}
use right_memory.Graph.State.{ParseProfile, Files}
use right_memory.Graph.Load.{load_document, is_loaded}
use right_memory.Graph.Load.Grows.{
  ran_out, load_document-Grows, is_loaded-Grows, load_document-is_loaded,
}
use right_memory.Graph.Validate.{
  add_root, load_roots, validate_items, validate_focus, validate_addressed_body, check_rest,
  check_manifest, load_and_check, items_errors,
}

-- A root is loaded, or an error tells that its file is missing or no regular file.
abbrev pub IsAccounted : GraphManifest → Text × Family → Type 0
IsAccounted m (name, family) =
    (is_loaded name m.documents ≡ true)
    ⊎ (Memᴰ (missing_root name) m.errors ⊎ Memᴰ (not_a_regular_file name) m.errors)

Grows-errors :
    (e : GraphError) (m m' : GraphManifest) → Grows m m' → Memᴰ e m.errors → Memᴰ e m'.errors
Grows-errors e m m' g h = rw g.more_errors.1 (Memᴰ.append_left g.more_errors.0 h)

Grows-IsAccounted :
    (m m' : GraphManifest) (root : Text × Family)
    → Grows m m'
    → IsAccounted m root
    → IsAccounted m' root
Grows-IsAccounted m m' (name, family) g (inl h) = inl (is_loaded-Grows name m m' g h)
Grows-IsAccounted m m' (name, family) g (inr (inl h)) = inr (inl (Grows-errors _ m m' g h))
Grows-IsAccounted m m' (name, family) g (inr (inr h)) = inr (inr (Grows-errors _ m m' g h))

roots-IsAccounted :
    (m m' : GraphManifest)
    → Grows m m'
    → (roots : List (Text × Family)) → All (IsAccounted m) roots
    → All (IsAccounted m') roots
roots-IsAccounted m m' g [] h = tt
roots-IsAccounted m m' g (root ∷ roots) h =
    (Grows-IsAccounted m m' root g h.0, roots-IsAccounted m m' g roots h.1)

added-error : (e : GraphError) (m : GraphManifest) → Memᴰ e (add_error e m).errors
unfolding add_error
added-error e m = Memᴰ.append_right m.errors (Memᴰ.head refl)

add_root-Grows : (found : Option BlockKey × GraphManifest) → Grows found.1 (add_root found)
unfolding add_root
add_root-Grows (none, m) = Grows-refl m
add_root-Grows (some key, m) = Grows-kept m _ refl refl refl

load_document-IsAccounted :
    (fuel : ℕ) (fs : Files) (profile : ParseProfile) (name : Text) (family : Family)
    (m : GraphManifest) (found : Option BlockKey × GraphManifest)
    → load_document fuel fs profile name family [] m ≡ some found
    → IsAccounted found.1 (name, family)
unfolding load_document
load_document-IsAccounted zero fs profile name family m found h = absurd (ran_out h)
load_document-IsAccounted (suc fuel) fs profile name family m found h =
    elim (Bool-cases (fs.is_regular name)) [
      | inl e ↦ inl (load_document-is_loaded (suc fuel) fs profile name family [] m found e h)
      | inr e ↦ inr (
          inr (
            subst (λ x. Memᴰ (not_a_regular_file name) x.1.errors)
              (some_inj.0 (rw (load_document, e) at h)) (added-error (not_a_regular_file name) m)))
    ]

load_roots-IsAccounted :
    (fuel : ℕ) (fs : Files) (path_exists : Text → Bool) (profile : ParseProfile)
    (roots : List (Text × Family)) (m m' : GraphManifest)
    → load_roots fuel fs path_exists profile roots m ≡ some m'
    → Grows m m' × All (IsAccounted m') roots
unfolding load_roots
load_roots-IsAccounted fuel fs path_exists profile [] m m' h =
    (subst (λ x. Grows m x) (some_inj.0 h) (Grows-refl m), tt)
load_roots-IsAccounted fuel fs path_exists profile ((name, family) ∷ roots) m m' h =
    elim (Bool-cases (path_exists name)) [
      | inr e ↦
          let noted = add_error (missing_root name) m in
          let (g, rest) =
            load_roots-IsAccounted fuel fs path_exists profile roots noted m'
              (rw (load_roots, e) at h) in
          (
            Grows-trans (add_error-Grows (missing_root name) m) g,
            (
              Grows-IsAccounted noted m' (name, family) g
                  (inr (inl (added-error (missing_root name) m))),
              rest,
            ),
          )
      | inl e ↦ elim (Option-cases (load_document fuel fs profile name family [] m)) [
        | inl q ↦ absurd (ran_out (rw (load_roots, e, q) at h))
        | inr (found, q) ↦
            let (g, rest) =
              load_roots-IsAccounted fuel fs path_exists profile roots (add_root found) m'
                (rw (load_roots, e, q) at h) in
            let from = Grows-trans (add_root-Grows found) g in
            (
              Grows-trans (load_document-Grows fuel fs profile name family [] m found q) from,
              (
                Grows-IsAccounted found.1 m' (name, family) from
                    (load_document-IsAccounted fuel fs profile name family m found q),
                rest,
              ),
            )
      ]
    ]

more_errors-Grows :
    (m : GraphManifest) (es : List GraphError) → Grows m (record m { errors = m.errors ++ es })
more_errors-Grows m es = record {
  more_errors = (es, refl);
  more_documents = ([], sym (append-nil m.documents));
  kept = λ id key h. h;
}

check_rest-Grows : (profile : ParseProfile) (m : GraphManifest) → Grows m (check_rest profile m)
unfolding check_rest validate_focus validate_addressed_body
check_rest-Grows profile m =
    let focused =
      choose-Grows m (validate_focus m) m profile.allow_focus (more_errors-Grows _ _)
        (Grows-refl m) in
    choose-Grows m _ _ profile.require_addressed_body (Grows-trans focused (more_errors-Grows _ _))
      focused

-- The manifest with these errors after its own
abbrev pub with_errors : GraphManifest → List GraphError → GraphManifest
with_errors m es = record m { errors = m.errors ++ es }

-- A manifest that was checked, with the errors of its items
pub check_manifest-cases :
    (profile : ParseProfile) (m m' : GraphManifest)
    → check_manifest profile m ≡ some m'
    → (es : List GraphError) × (items_errors m m.items ≡ some es)
      × (check_rest profile (with_errors m es) ≡ m')
unfolding check_manifest validate_items
check_manifest-cases profile m m' h = elim (Option-cases (items_errors m m.items)) [
  | inl q ↦ absurd (ran_out (rw (check_manifest, validate_items, q) at h))
  | inr (es, q) ↦ (es, q, some_inj.0 (rw (check_manifest, validate_items, q) at h))
]

-- The manifest that was loaded and then checked
pub load_and_check-checked :
    (fuel : ℕ) (fs : Files) (path_exists : Text → Bool) (profile : ParseProfile) (m : GraphManifest)
    → load_and_check fuel fs path_exists profile ≡ some m
    → (loaded : GraphManifest) × (es : List GraphError) × (load_roots fuel fs path_exists profile
          profile.roots empty_manifest
        ≡ some loaded)
      × (items_errors loaded loaded.items ≡ some es)
      × (check_rest profile (with_errors loaded es) ≡ m)
unfolding load_and_check
load_and_check-checked fuel fs path_exists profile m h =
    elim (Option-cases (load_roots fuel fs path_exists profile profile.roots empty_manifest)) [
      | inl q ↦ absurd (ran_out (rw (load_and_check, q) at h))
      | inr (loaded, q) ↦
          let (es, k, c) = check_manifest-cases profile loaded m (rw (load_and_check, q) at h) in
          (loaded, es, q, k, c)
    ]

pub load_and_check-Grows :
    (fuel : ℕ) (fs : Files) (path_exists : Text → Bool) (profile : ParseProfile) (m : GraphManifest)
    → load_and_check fuel fs path_exists profile ≡ some m
    → Grows empty_manifest m × All (IsAccounted m) profile.roots
load_and_check-Grows fuel fs path_exists profile m h =
    let (loaded, es, q, k, c) = load_and_check-checked fuel fs path_exists profile m h in
    let (g, roots) =
      load_roots-IsAccounted fuel fs path_exists profile profile.roots empty_manifest loaded q in
    let last : Grows loaded m =
      subst (Grows loaded) c
        (Grows-trans (more_errors-Grows loaded es) (check_rest-Grows profile _)) in
    (Grows-trans g last, roots-IsAccounted loaded m last profile.roots roots)
