-- ===== src/Graph/Validate/Ends.antt =====
-- The loading of documents in rightmemory/graph.py: a file that is open is not entered again.
use right_memory.Common.{
  ℕ, zero, suc, ◌+◌, ◌≤◌, ◌<◌, ◌≡◌, refl, Bool, true, false, Option, some, List, [], ◌∷◌, Text,
  text_eq, text_in, text_eq_iff, Bool-cases, inl, inr, arith, if◌then◌else◌, splitlines, length,
}
use right_memory.Graph.Model.{
  Family, BlockKey, BackingReference, GraphManifest, add_error, cyclic_backing, missing_root,
}
use right_memory.Graph.Validate.{add_root, load_roots}
use right_memory.Graph.State.{ParseProfile, Files}
use right_memory.Graph.Parse.{parse_document}
use right_memory.Graph.Load.{
  Loader, attach_loaded, load_references, load_text, load_new, load_document, is_loaded,
  finalize_document, with_document,
}

-- How many of the names are not on the stack
abbrev pub outside : List Text → List Text → ℕ
outside [] stack = 0
outside (n ∷ ns) stack = (if text_in n stack then 0 else 1) + outside ns stack

outside-le : (ns stack : List Text) (f : Text) → outside ns (f ∷ stack) ≤ outside ns stack
outside-le [] stack f = omega arith
outside-le (n ∷ ns) stack f = ground (arith, outside-le ns stack f)

outside-lt :
    (ns stack : List Text) (f : Text)
    → text_in f ns ≡ true
    → text_in f stack ≡ false
    → outside ns (f ∷ stack) < outside ns stack
outside-lt [] stack f h k = cc
outside-lt (n ∷ ns) stack f h k = elim (Bool-cases (text_eq f n)) [
  | inl e ↦
      let q = (text_eq_iff f n).0 e in
      ground (arith, outside-le ns stack f, text_eq_iff f n, text_eq_iff n f, text_eq_iff n n)
  | inr e ↦ ground (arith, outside-lt ns stack f, outside-le ns stack f)
]

outside-le-length : (ns : List Text) → outside ns [] ≤ length ns
outside-le-length [] = omega arith
outside-le-length (n ∷ ns) = omega (arith, outside-le-length ns)

-- If the loader ends for every name that is not on the stack, so does the loop.
references-end :
    (load : Loader) (fs : Files) (stack : List Text)
    → ((name : Text) (family : Family) (m : GraphManifest)
        → text_in name stack ≡ false
        → (found : Option BlockKey × GraphManifest) × (load name family stack m ≡ some found))
    → (rs : List (BlockKey × BackingReference)) (m : GraphManifest)
    → (m' : GraphManifest) × (load_references load fs stack rs m ≡ some m')
unfolding load_references
references-end load fs stack ends [] m = (m, refl)
references-end load fs stack ends ((owner, r) ∷ rs) m = elim (Bool-cases (fs.is_regular r.path)) [
  | inr e ↦ rw e (references-end load fs stack ends rs m)
  | inl e ↦ elim (Bool-cases (text_in r.path stack)) [
    | inl k ↦
        rw (e, k)
          (references-end load fs stack ends rs
            (add_error (cyclic_backing r.path owner.0 owner.1) m))
    | inr k ↦
        let (found, q) = ends r.path r.backed_family m k in
        rw (e, k, q) (references-end load fs stack ends rs (attach_loaded owner found))
  ]
]

load_text-ends :
    (load : Loader) (fs : Files) (profile : ParseProfile) (text name : Text) (family : Family)
    → (stack : List Text) (m : GraphManifest)
    → ((name' : Text) (family' : Family) (m' : GraphManifest)
        → text_in name' (name ∷ stack) ≡ false
        → (found : Option BlockKey × GraphManifest) × (load name' family' (name ∷ stack) m'
            ≡ some found))
    → (found : Option BlockKey × GraphManifest) × (load_text load fs profile text name family stack
          m
        ≡ some found)
unfolding load_text
load_text-ends load fs profile text name family stack m ends =
    let lines = splitlines text in
    let parsed =
      parse_document fs profile name family lines (with_document name family text lines m) in
    let (m', q) =
      references-end load fs (name ∷ stack) ends parsed.1 (finalize_document name parsed.0) in
    ((some (name, 0), m'), rw q refl)

-- Every regular file is among the names, and its text is read.
abbrev pub IsReadable : Files → List Text → Type 0
IsReadable fs names =
    (name : Text)
    → fs.is_regular name ≡ true
    → (text_in name names ≡ true) × ((text : Text) × (fs.read_text name ≡ some text))

module _ (fs : Files) (profile : ParseProfile) (names : List Text)
    (readable : IsReadable fs names) where
  -- Where the regular files are among finitely many names, a depth of one more than the number of
  -- those that are not open is enough to load a document.
  pub load_document-ends :
      (fuel : ℕ) (name : Text) (family : Family) (stack : List Text) (m : GraphManifest)
      → text_in name stack ≡ false
      → outside names stack < fuel
      → (found : Option BlockKey × GraphManifest) × (load_document fuel fs profile name family stack
            m
          ≡ some found)
  unfolding load_document load_new
  load_document-ends zero name family stack m k h = absurd (omega arith)
  load_document-ends (suc fuel) name family stack m k h = elim (Bool-cases (fs.is_regular name)) [
    | inr e ↦ rw e (_, refl)
    | inl e ↦ elim (Bool-cases (is_loaded name m.documents)) [
      | inl l ↦ rw (e, l) (_, refl)
      | inr l ↦
          let below : outside names (name ∷ stack) < outside names stack =
            outside-lt names stack name (readable name e).0 k in
          let (text, q) = (readable name e).1 in
          rw (load_new, e, l, q)
            (load_text-ends (load_document fuel fs profile) fs profile text name family stack m
              (λ name' family' m' k'.
                load_document-ends fuel name' family' (name ∷ stack) m' k' (omega arith)))
    ]
  ]

  -- Where the regular files are among finitely many names and their texts are read, a depth of one more
  -- than the number of the names is enough: the loading of the roots ends with a manifest, whatever the
  -- files refer to, in cycles too.
  pub load_roots-ends :
      (path_exists : Text → Bool) (roots : List (Text × Family)) (m : GraphManifest)
      → (m' : GraphManifest) × (load_roots (suc (length names)) fs path_exists profile roots m
          ≡ some m')
  unfolding load_roots
  load_roots-ends path_exists [] m = (m, refl)
  load_roots-ends path_exists ((name, family) ∷ roots) m = elim (Bool-cases (path_exists name)) [
    | inr e ↦ rw e (load_roots-ends path_exists roots (add_error (missing_root name) m))
    | inl e ↦
        let (found, q) =
          load_document-ends (suc (length names)) name family [] m refl
            (omega (arith, outside-le-length names)) in
        rw (e, q) (load_roots-ends path_exists roots (add_root found))
  ]
