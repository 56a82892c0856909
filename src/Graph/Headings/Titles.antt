-- ===== src/Graph/Headings/Titles.antt =====
-- A title of rightmemory/graph.py in which no anchor begins is passed over by the search for the anchor.
use right_memory.Common.{
  ℕ, ◌≡◌, refl, ◌∙◌, ap, true, false, not, ◌&&◌, Option, none, some, [], ◌∷◌, ◌++◌, Text, codes,
  is_letter, is_digit, span, all, Bool-cases, Option-cases, inl, inr, arith, ◌==◌, after_prefix,
}
use right_memory.Graph.Grammar.{
  is_item_char, AnchorKind, long_kind, kind_at, Anchor, close_anchor, anchor_at, is_not_brace,
  close_candidate, candidate_at, prepend, first_match,
}
use right_memory.Graph.Headings.{is_none}

-- A text that a kind began to be read from, with a space and more behind it
extended : Text → Option (AnchorKind × Text) → Option (AnchorKind × Text)
extended u none = none
extended u (some (k, rest)) = some (k, rest ++ u)

prefix_behind : Text → Option Text → Option Text
prefix_behind u none = none
prefix_behind u (some t) = some (t ++ u)

after_prefix-space :
    (p : ℕ) (s r : Text)
    → (p == b' ') ≡ false
    → after_prefix (p ∷ codes "#") (s ++ b' ' ∷ r)
      ≡ prefix_behind (b' ' ∷ r) (after_prefix (p ∷ codes "#") s)
unfolding after_prefix prefix_behind
after_prefix-space p [] r h = rw h refl
after_prefix-space p (c ∷ []) r h = elim (Bool-cases (p == c)) [
  | inl e ↦ rw e refl
  | inr e ↦ rw e refl
]
after_prefix-space p (c ∷ d ∷ s) r h = elim (Bool-cases (p == c)) [
  | inr e ↦ rw e refl
  | inl e ↦ elim (Bool-cases (b'#' == d)) [ inl f ↦ rw (e, f) refl | inr f ↦ rw (e, f) refl ]
]

long_kind-space :
    (u : Text) (f q : Option Text)
    → long_kind (prefix_behind u f) (prefix_behind u q) ≡ extended u (long_kind f q)
unfolding long_kind prefix_behind extended
long_kind-space u none none = refl
long_kind-space u none (some t) = refl
long_kind-space u (some t) q = refl

one_letter : (c : ℕ) (r : Text) → (c == b'#') ≡ false → kind_at (c ∷ b' ' ∷ r) ≡ none
unfolding kind_at after_prefix long_kind
one_letter c r e = elim (Bool-cases (c == b'F')) [
  | inl f ↦ ground arith
  | inr f ↦ elim (Bool-cases (c == b'S')) [
    | inl g ↦ ground arith
    | inr g ↦ elim (Bool-cases (c == b'M')) [
      | inl h ↦ rw (e, f, g, h) refl
      | inr h ↦ rw (e, f, g, h) refl
    ]
  ]
]

-- A kind is found in front of a space or not at all.
kind_at-space : (s r : Text) → kind_at (s ++ b' ' ∷ r) ≡ extended (b' ' ∷ r) (kind_at s)
unfolding kind_at extended
kind_at-space [] [] = refl
kind_at-space [] (d ∷ r) = refl
kind_at-space (c ∷ []) r = elim (Bool-cases (c == b'#')) [
  | inl e ↦ rw e refl
  | inr e ↦ one_letter c r e ∙ rw e refl
]
kind_at-space (c ∷ d ∷ s) r = elim (Bool-cases (c == b'#')) [
  | inl e ↦ rw e refl
  | inr e ↦ elim (Bool-cases (c == b'F' && d == b'#')) [
    | inl f ↦ rw (e, f) refl
    | inr f ↦ elim (Bool-cases (c == b'S' && d == b'#')) [
      | inl g ↦ rw (e, f, g) refl
      | inr g ↦ elim (Bool-cases (c == b'M')) [
        | inr h ↦ rw (e, f, g, h) refl
        | inl h ↦ elim (Bool-cases (d == b'#')) [
          | inl i ↦ rw (e, f, g, h, i) refl
          | inr i ↦
              rw
                (
                  e,
                  f,
                  g,
                  h,
                  i,
                  after_prefix-space b'F' (d ∷ s) r refl,
                  after_prefix-space b'Q' (d ∷ s) r refl,
                )
                (long_kind-space (b' ' ∷ r) _ _)
        ]
      ]
    ]
  ]
]

closed_some {ℓ} : {A : Type ℓ} {a : A} → some a ≡ none → ⊥
closed_some h = cc

unclosed_tail :
    (k : AnchorKind) (c : ℕ) (found : Text × Text)
    → close_candidate k (c ∷ found.0, found.1) ≡ none
    → close_candidate k found ≡ none
unfolding close_candidate
unclosed_tail k c (xs, []) h = refl
unclosed_tail k c (xs, d ∷ ys) h = cc

unclosed :
    (k : AnchorKind) (rest : Text)
    → close_candidate k (span is_not_brace rest) ≡ none
    → all is_not_brace rest ≡ true
unfolding close_candidate span
unclosed k [] h = refl
unclosed k (c ∷ cs) h = elim (Bool-cases (is_not_brace c)) [
  | inr e ↦ absurd (closed_some (rw e at h))
  | inl e ↦ rw e (unclosed k cs (unclosed_tail k c (span is_not_brace cs) (rw e at h)))
]

-- In front of a space a run of item characters does not end at a closing brace.
run_ends :
    (rest r : Text)
    → all is_not_brace rest ≡ true
    → (xs : Text) × (d : ℕ) × (ys : Text) × (span is_item_char (rest ++ b' ' ∷ r) ≡ (xs, d ∷ ys))
      × ((d == b'}') ≡ false)
unfolding span is_item_char is_letter is_digit is_not_brace
run_ends [] r h = ([], b' ', r, refl, refl)
run_ends (c ∷ cs) r h =
    let (xs, d, ys, p, q) = run_ends cs r (ground arith) in
    elim (Bool-cases (is_item_char c)) [
      | inl e ↦ (c ∷ xs, d, ys, rw (p, e) refl, q)
      | inr e ↦ ([], c, cs ++ b' ' ∷ r, rw (p, e) refl, ground arith)
    ]

close_anchor-other :
    (k : AnchorKind) (xs ys : Text) (d : ℕ)
    → (d == b'}') ≡ false
    → close_anchor k (xs, d ∷ ys) ≡ none
unfolding close_anchor
close_anchor-other k [] ys d h = refl
close_anchor-other k (x ∷ xs) ys d h = rw h refl

close_anchor-open :
    (k : AnchorKind) (rest r : Text)
    → all is_not_brace rest ≡ true
    → close_anchor k (span is_item_char (rest ++ b' ' ∷ r)) ≡ none
close_anchor-open k rest r h =
    let (xs, d, ys, p, q) = run_ends rest r h in
    ap (close_anchor k) p ∙ close_anchor-other k xs ys d q

-- Where not even a candidate begins, no anchor begins with a space and more behind the text.
no_anchor : (t r : Text) → candidate_at t ≡ none → anchor_at (t ++ b' ' ∷ r) ≡ none
unfolding candidate_at anchor_at
no_anchor [] r h = refl
no_anchor (c ∷ s) r h = elim (Bool-cases (c == b'{')) [
  | inr e ↦ rw e refl
  | inl e ↦ elim (Option-cases (kind_at s)) [
    | inl q ↦
        let behind : kind_at (s ++ b' ' ∷ r) ≡ none =
          kind_at-space s r ∙ ap (extended (b' ' ∷ r)) q ∙ unfold extended in refl in
        rw (e, behind) refl
    | inr ((k, rest), q) ↦
        let behind : kind_at (s ++ b' ' ∷ r) ≡ some (k, rest ++ b' ' ∷ r) =
          kind_at-space s r ∙ ap (extended (b' ' ∷ r)) q ∙ unfold extended in refl in
        rw (e, behind) (close_anchor-open k rest r (unclosed k rest (rw (e, q) at h)))
  ]
]

no_text : (a : Anchor) → anchor_at [] ≡ some a → ⊥
unfolding anchor_at
no_text a h = cc

no_candidate : candidate_at [] ≡ none
unfolding candidate_at
no_candidate = refl

first_match-here :
    (r : Text) (a : Anchor) → anchor_at r ≡ some a → first_match anchor_at r ≡ some ([], a)
unfolding first_match
first_match-here [] a q = absurd (no_text a q)
first_match-here (c ∷ s) a q = rw (first_match, q) refl

found_none :
    (found : AnchorKind × Text)
    → is_none {A = Text × (AnchorKind × Text)} (some ([], found)) ≡ true
    → ⊥
unfolding is_none
found_none found h = cc

unfound :
    (c : ℕ) (o : Option (Text × (AnchorKind × Text)))
    → is_none (prepend c o) ≡ true
    → is_none o ≡ true
unfolding is_none prepend
unfound c none h = refl
unfound c (some x) h = cc

-- The search for an anchor passes the title and the space behind it.
pub first_match-title :
    (t r : Text) (a : Anchor)
    → is_none (first_match candidate_at t) ≡ true
    → all (λ c. not (c == 10)) t ≡ true
    → anchor_at r ≡ some a
    → first_match anchor_at (t ++ b' ' ∷ r) ≡ some (t ++ b' ' ∷ [], a)
unfolding first_match prepend
first_match-title [] r a h k q =
    rw (first_match, no_anchor [] r no_candidate, first_match-here r a q) refl
first_match-title (c ∷ s) r a h k q = elim (Option-cases (candidate_at (c ∷ s))) [
  | inr (found, e) ↦ absurd (found_none found (rw (first_match, e) at h))
  | inl e ↦
      let line : (c == 10) ≡ false = ground arith in
      let clear = no_anchor (c ∷ s) r e in
      let rest =
        first_match-title s r a
          (unfound c (first_match candidate_at s) (rw (first_match, e, line) at h)) (ground arith)
          q in
      rw (first_match, clear, line, rest) refl
]
