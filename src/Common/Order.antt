-- ===== src/Common/Order.antt =====
-- The order of texts, and `sorted(set(xs))`.
use mathlib.Core.Path.{◌≡◌, refl}
use mathlib.Core.Bool.{Bool, true, false}
use mathlib.Core.List.{List, [], ◌∷◌}
use native.Mathlib.Omega.{arith}
use right_memory.Common.Tests.{ltb, ◌==◌, if◌then◌else◌}
use right_memory.Common.Texts.{Text, text_eq, text_in, text_eq_iff}

-- `a < b`, by code points
unfoldable pub text_ltb : Text → Text → Bool
text_ltb [] [] = false
text_ltb [] (y ∷ ys) = true
text_ltb (x ∷ xs) [] = false
text_ltb (x ∷ xs) (y ∷ ys) =
    let rest = text_ltb xs ys in if ltb x y then true else if x == y then rest else false

pub text_ltb_irrefl : (a : Text) → text_ltb a a ≡ false
unfolding text_ltb
text_ltb_irrefl [] = refl
text_ltb_irrefl (x ∷ xs) = ground (arith, text_ltb_irrefl xs)

-- Two texts that are not less than one another are one text.
pub text_ltb_total : (a b : Text) → text_ltb a b ≡ false → text_eq a b ≡ false → text_ltb b a ≡ true
unfolding text_ltb text_eq
text_ltb_total [] [] h k = cc
text_ltb_total [] (y ∷ ys) h k = cc
text_ltb_total (x ∷ xs) [] h k = refl
text_ltb_total (x ∷ xs) (y ∷ ys) h k = ground (arith, text_ltb_total xs ys)

pub text_ltb_trans :
    (a b c : Text) → text_ltb a b ≡ true → text_ltb b c ≡ true → text_ltb a c ≡ true
unfolding text_ltb
text_ltb_trans [] [] c h k = cc
text_ltb_trans [] (y ∷ ys) [] h k = cc
text_ltb_trans [] (y ∷ ys) (z ∷ zs) h k = refl
text_ltb_trans (x ∷ xs) [] c h k = cc
text_ltb_trans (x ∷ xs) (y ∷ ys) [] h k = cc
text_ltb_trans (x ∷ xs) (y ∷ ys) (z ∷ zs) h k = ground (arith, text_ltb_trans xs ys zs)

unfoldable pub insert_unique : Text → List Text → List Text
insert_unique x [] = x ∷ []
insert_unique x (y ∷ ys) =
    let rest = insert_unique x ys in
    if text_ltb x y then x ∷ y ∷ ys else if text_eq x y then y ∷ ys else y ∷ rest

-- `sorted(set(xs))`
unfoldable pub sorted_set : List Text → List Text
unfolding insert_unique
sorted_set [] = []
sorted_set (x ∷ xs) = insert_unique x (sorted_set xs)

abbrev pub IsSorted : List Text → Type 0
IsSorted [] = Unit
IsSorted (x ∷ []) = Unit
IsSorted (x ∷ y ∷ ys) = (text_ltb x y ≡ true) × IsSorted (y ∷ ys)

insert_unique-IsSorted_above :
    (b x : Text) (xs : List Text)
    → text_ltb b x ≡ true
    → IsSorted (b ∷ xs)
    → IsSorted (b ∷ insert_unique x xs)
unfolding insert_unique
insert_unique-IsSorted_above b x [] h s = (h, tt)
insert_unique-IsSorted_above b x (y ∷ ys) h s =
    ground (arith, text_ltb_total x y, text_eq_iff x y, insert_unique-IsSorted_above y x ys)

pub insert_unique-IsSorted :
    (x : Text) (xs : List Text) → IsSorted xs → IsSorted (insert_unique x xs)
unfolding insert_unique
insert_unique-IsSorted x [] s = tt
insert_unique-IsSorted x (y ∷ ys) s =
    ground (arith, text_ltb_total x y, insert_unique-IsSorted_above y x ys)

pub sorted_set-IsSorted : (xs : List Text) → IsSorted (sorted_set xs)
unfolding sorted_set
sorted_set-IsSorted [] = tt
sorted_set-IsSorted (x ∷ xs) = insert_unique-IsSorted x (sorted_set xs) (sorted_set-IsSorted xs)

insert_unique_below : (x : Text) (xs : List Text) → IsSorted (x ∷ xs) → insert_unique x xs ≡ x ∷ xs
unfolding insert_unique
insert_unique_below x [] s = refl
insert_unique_below x (y ∷ ys) s = ground arith

IsSorted-tail : (x : Text) (xs : List Text) → IsSorted (x ∷ xs) → IsSorted xs
IsSorted-tail x [] s = tt
IsSorted-tail x (y ∷ ys) s = s.1

-- A list that is sorted and has no repetition is left alone.
pub sorted_set_fixed : (xs : List Text) → IsSorted xs → sorted_set xs ≡ xs
unfolding sorted_set
sorted_set_fixed [] s = refl
sorted_set_fixed (x ∷ xs) s =
    rw (sorted_set_fixed xs (IsSorted-tail x xs s)) (insert_unique_below x xs s)

text_in-insert_unique :
    (a x : Text) (xs : List Text) → text_in a (insert_unique x xs) ≡ text_in a (x ∷ xs)
unfolding insert_unique
text_in-insert_unique a x [] = refl
text_in-insert_unique a x (y ∷ ys) =
    ground (arith, text_eq_iff x y, text_eq_iff a x, text_eq_iff a y, text_in-insert_unique a x ys)

-- `set` and `sorted` change no membership.
pub text_in-sorted_set : (a : Text) (xs : List Text) → text_in a (sorted_set xs) ≡ text_in a xs
unfolding sorted_set
text_in-sorted_set a [] = refl
text_in-sorted_set a (x ∷ xs) =
    rw (text_in-insert_unique a x (sorted_set xs)) (ground (arith, text_in-sorted_set a xs))
