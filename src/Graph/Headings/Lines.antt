-- ===== src/Graph/Headings/Lines.antt =====
-- The line that `render_heading_line` of rightmemory/graph.py writes, as `HEADING_RE` and `rstrip` read it.
use mathlib.Core.List.{append_assoc, reverse, reverse-append, reverse-cons, reverse-reverse}
use right_memory.Common.{
  ℕ, zero, suc, ◌≡◌, refl, sym, ◌∙◌, ap, Bool, true, false, not, ◌&&◌, some, List, [], ◌∷◌, ◌++◌,
  Text, lstrip, is_space, span, all, Bool-cases, inl, inr, arith, ◌==◌, is_line_break, lines_from,
  cons_first, splitlines,
}
use right_memory.Graph.Grammar.{hashes, heading_body, heading_at}
use right_memory.Graph.Headings.{marks, is_newline, without_newline, fits_one_line, edges_suffix}

hashes-marks : (n : ℕ) (s : Text) → hashes (marks n ++ b' ' ∷ s) ≡ (n, b' ' ∷ s)
unfolding hashes marks
hashes-marks zero s = refl
hashes-marks (suc n) s = rw (hashes-marks n s) refl

pub heading_at-marks :
    (n : ℕ) (s : Text) → heading_at (marks (suc n) ++ b' ' ∷ s) ≡ some (suc n, lstrip s)
unfolding heading_at heading_body is_space
heading_at-marks n s = ap heading_body (hashes-marks (suc n) s)

-- The last character is no line ending.
abbrev pub IsClosed : Text → Type 0
IsClosed t = (front : Text) × (c : ℕ) × (t ≡ front ++ c ∷ []) × (is_newline c ≡ false)

pub append-IsClosed : (xs t : Text) → IsClosed t → IsClosed (xs ++ t)
append-IsClosed xs t (front, c, e, h) =
    (xs ++ front, c, ap (λ u. xs ++ u) e ∙ sym (append_assoc xs front (c ∷ [])), h)

pub cons-IsClosed : (x : ℕ) (t : Text) → IsClosed t → IsClosed (x ∷ t)
cons-IsClosed x t h = append-IsClosed (x ∷ []) t h

pub edges_suffix-IsClosed : (es : List (Text × Text)) → IsClosed (b'}' ∷ edges_suffix es)
unfolding edges_suffix is_newline
edges_suffix-IsClosed [] = ([], b'}', refl, refl)
edges_suffix-IsClosed (e ∷ es) = (b'}' ∷ b' ' ∷ 8594 ∷ b' ' ∷ b'[' ∷ _, b']', refl, refl)

pub without_newline-closed : (t : Text) → IsClosed t → without_newline t ≡ t
unfolding without_newline span
without_newline-closed t (front, c, e, h) =
    rw (e, reverse-append front (c ∷ []), h, reverse-cons c (reverse front), reverse-reverse front)
      refl

space_newline : (c : ℕ) → is_space c ≡ false → (c == 10) ≡ false
unfolding is_space
space_newline c h = ground arith

break_space : (c : ℕ) → is_space c ≡ false → is_line_break c ≡ true → ⊥
unfolding is_space is_line_break
break_space c h k = ground arith

break_newline : (c : ℕ) → is_line_break c ≡ false → ((c == 10) ≡ false) × ((c == 13) ≡ false)
unfolding is_line_break
break_newline c h = (ground arith, ground arith)

two_lines : (t : Text) (ts : List Text) → fits_one_line ([] ∷ t ∷ ts) ≡ true → ⊥
unfolding fits_one_line
two_lines t ts h = cc

fits_tail :
    (x : ℕ) (t : Text) (ts : List Text)
    → fits_one_line (cons_first x (t ∷ ts)) ≡ true
    → fits_one_line (t ∷ ts) ≡ true
unfolding fits_one_line cons_first
fits_tail x t [] h = refl
fits_tail x t (u ∷ us) h = cc

some_line :
    (cr : Bool) (xs : Text) (c : ℕ)
    → is_space c ≡ false
    → (t : Text) × (ts : List Text) × (lines_from cr (xs ++ c ∷ []) ≡ t ∷ ts)
unfolding lines_from cons_first
some_line cr [] c h = elim (Bool-cases (is_line_break c)) [
  | inl e ↦ absurd (break_space c h e)
  | inr e ↦ (c ∷ [], [], ground (arith, break_newline c))
]
some_line cr (x ∷ xs) c h =
    let (t, ts, p) = some_line (x == 13) xs c h in
    elim (Bool-cases (cr && x == 10)) [
      | inl e ↦ (t, ts, rw (e, p) refl)
      | inr e ↦ elim (Bool-cases (is_line_break x)) [
        | inl f ↦ ([], t ∷ ts, rw (e, f, p) refl)
        | inr f ↦ (x ∷ t, ts, rw (e, f, p) refl)
      ]
    ]

-- A text on one line, with no space at its end, has no newline.
pub one_line :
    (xs : Text) (c : ℕ)
    → is_space c ≡ false
    → fits_one_line (splitlines (xs ++ c ∷ [])) ≡ true
    → all (λ d. not (d == 10)) (xs ++ c ∷ []) ≡ true
unfolding lines_from
one_line [] c h k = ground (arith, space_newline c)
one_line (x ∷ xs) c h k = elim (Bool-cases (is_line_break x)) [
  | inl e ↦ let (t, ts, p) = some_line (x == 13) xs c h in absurd (two_lines t ts (rw (e, p) at k))
  | inr e ↦
      let (t, ts, p) = some_line false xs c h in
      let plain = break_newline x e in
      let q : fits_one_line (cons_first x (t ∷ ts)) ≡ true = rw (e, plain.1, p) at k in
      let rest = one_line xs c h (ap fits_one_line p ∙ fits_tail x t ts q) in ground (arith, plain)
]
