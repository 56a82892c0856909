-- ===== src/Common/Strip.antt =====
-- `str.strip` is idempotent, and what the ends of a stripped text are.
use Prim.Native.Nat.{ℕ}
use mathlib.Core.Path.{◌≡◌, refl, ◌∙◌, ap, sym, subst}
use mathlib.Core.Bool.{false}
use mathlib.Core.List.{[], ◌∷◌, ◌++◌, reverse, reverse-cons, reverse-reverse, reverse-append}
use mathlib.Core.Logic.{◌⊎◌, inl, inr}
use native.Mathlib.Omega.{arith}
use right_memory.Common.Tests.{Bool-cases}
use right_memory.Common.Texts.{Text, is_space, lstrip, strip}

lstrip_idem : (s : Text) → lstrip (lstrip s) ≡ lstrip s
unfolding lstrip
lstrip_idem [] = refl
lstrip_idem (c ∷ s) = elim (Bool-cases (is_space c)) [
  | inl e ↦ rw e (lstrip_idem s)
  | inr e ↦ rw (e, lstrip) (rw e)
]

-- What is left of a text when a character stands behind it.
followed_by : Text → ℕ → Text
followed_by [] c = lstrip (c ∷ [])
followed_by (d ∷ r) c = d ∷ r ++ c ∷ []

lstrip-snoc : (s : Text) (c : ℕ) → lstrip (s ++ c ∷ []) ≡ followed_by (lstrip s) c
unfolding lstrip followed_by
lstrip-snoc [] c = refl
lstrip-snoc (d ∷ s) c = ground (arith, lstrip-snoc s c)

-- The text is empty, or its first character is no space.
abbrev pub IsSolid : Text → Type 0
IsSolid [] = Unit
IsSolid (c ∷ s) = is_space c ≡ false

lstrip-IsSolid : (s : Text) → IsSolid (lstrip s)
unfolding lstrip
lstrip-IsSolid [] = tt
lstrip-IsSolid (c ∷ s) = elim (Bool-cases (is_space c)) [
  | inl e ↦ rw e (lstrip-IsSolid s)
  | inr e ↦ rw e e
]

lstrip_solid : (s : Text) → IsSolid s → lstrip s ≡ s
unfolding lstrip
lstrip_solid [] h = refl
lstrip_solid (c ∷ s) h = rw h

rstrip-cons :
    (c : ℕ) (r : Text) → is_space c ≡ false → (left : Text) → IsSolid (reverse (followed_by left c))
unfolding followed_by lstrip
rstrip-cons c r h [] = rw h h
rstrip-cons c r h (d ∷ q) = rw (reverse-append (d ∷ q) (c ∷ [])) h

rstrip-IsSolid : (s : Text) → IsSolid s → IsSolid (reverse (lstrip (reverse s)))
rstrip-IsSolid [] h = unfold lstrip in tt
rstrip-IsSolid (c ∷ r) h =
    subst (λ t. IsSolid (reverse t))
      (sym (ap lstrip (reverse-append (c ∷ []) r) ∙ lstrip-snoc (reverse r) c))
      (rstrip-cons c r h (lstrip (reverse r)))

-- A stripped text is stripped.
pub strip_idem : (s : Text) → strip (strip s) ≡ strip s
unfolding strip
strip_idem s =
    let solid = rstrip-IsSolid (lstrip s) (lstrip-IsSolid s) in
    ap (λ t. reverse (lstrip (reverse t))) (lstrip_solid _ solid)
    ∙ ap (λ t. reverse (lstrip t)) (reverse-reverse (lstrip (reverse (lstrip s))))
    ∙ ap reverse (lstrip_idem (reverse (lstrip s)))

followed_space :
    (t : Text) → reverse (lstrip (reverse (followed_by t b' '))) ≡ reverse (lstrip (reverse t))
unfolding followed_by lstrip is_space
followed_space [] = refl
followed_space (d ∷ r) = ap (λ u. reverse (lstrip u)) (reverse-append (d ∷ r) (b' ' ∷ []))

-- A space behind a text is stripped too.
pub strip-snoc_space : (s : Text) → strip (s ++ b' ' ∷ []) ≡ strip s
unfolding strip
strip-snoc_space s =
    ap (λ t. reverse (lstrip (reverse t))) (lstrip-snoc s b' ') ∙ followed_space (lstrip s)

-- A stripped text begins and ends with no space.
pub strip-IsSolid : (s : Text) → IsSolid (strip s)
unfolding strip
strip-IsSolid s = rstrip-IsSolid (lstrip s) (lstrip-IsSolid s)

pub reverse-strip-IsSolid : (s : Text) → IsSolid (reverse (strip s))
unfolding strip
reverse-strip-IsSolid s =
    subst IsSolid (sym (reverse-reverse (lstrip (reverse (lstrip s)))))
      (lstrip-IsSolid (reverse (lstrip s)))

last_of :
    (t : Text) → IsSolid t → (t ≡ []) ⊎ ((c : ℕ) × (r : Text) × (t ≡ c ∷ r) × (is_space c ≡ false))
last_of [] h = inl refl
last_of (c ∷ r) h = inr (c, r, refl, h)

-- A stripped text is empty, or its last character is no space.
pub strip-last :
    (s : Text)
    → (strip s ≡ [])
      ⊎ ((front : Text) × (c : ℕ) × (strip s ≡ front ++ c ∷ []) × (is_space c ≡ false))
strip-last s = elim (last_of (reverse (strip s)) (reverse-strip-IsSolid s)) [
  | inl e ↦ inl (sym (reverse-reverse (strip s)) ∙ ap reverse e)
  | inr (c, r, e, h) ↦
      inr (reverse r, c, sym (reverse-reverse (strip s)) ∙ ap reverse e ∙ reverse-cons c r, h)
]
