-- ===== src/Graph/Grammar/Edges.antt =====
-- The list of edges that rightmemory/graph.py writes is read back by `_parse_edges`.
use right_memory.Common.{
  ℕ, ◌≡◌, refl, ◌∙◌, ap, Bool, true, false, not, ◌&&◌, ◌||◌, List, [], ◌∷◌, ◌++◌, Text, text_in,
  text_eq, text_eq_iff, strip, lstrip, is_space, is_letter, is_digit, span, split_on, all,
  Bool-cases, inl, inr, arith, ◌==◌, cons_first,
}
use mathlib.Core.List.{reverse, reverse-cons, reverse-reverse}
use right_memory.Graph.Grammar.{is_item_char, is_valid_item_id, known_edge_types, is_edge_char}

-- A run of a class, up to a character outside of it
pub span-append :
    (p : ℕ → Bool) (xs : Text) (c : ℕ) (r : Text)
    → all p xs ≡ true
    → p c ≡ false
    → span p (xs ++ c ∷ r) ≡ (xs, c ∷ r)
unfolding span
span-append p [] c r h k = rw k refl
span-append p (x ∷ xs) c r h k =
    let here : p x ≡ true = ground arith in
    let rest : all p xs ≡ true = ground arith in rw (span-append p xs c r rest k, here) refl

pub span-all : (p : ℕ → Bool) (xs : Text) → all p xs ≡ true → span p xs ≡ (xs, [])
unfolding span
span-all p [] h = refl
span-all p (x ∷ xs) h =
    let here : p x ≡ true = ground arith in
    let rest : all p xs ≡ true = ground arith in rw (span-all p xs rest, here) refl

pub split_alone :
    (sep : ℕ) (t : Text) → all (λ c. not (c == sep)) t ≡ true → split_on sep t ≡ t ∷ []
unfolding split_on cons_first
split_alone sep [] h = refl
split_alone sep (c ∷ s) h = elim (Bool-cases (c == sep)) [
  | inl e ↦ ground arith
  | inr e ↦
      let rest : all (λ d. not (d == sep)) s ≡ true = ground arith in
      rw (split_alone sep s rest, e) refl
]

pub split_first :
    (sep : ℕ) (t r : Text)
    → all (λ c. not (c == sep)) t ≡ true
    → split_on sep (t ++ sep ∷ r) ≡ t ∷ split_on sep r
unfolding split_on cons_first
split_first sep [] r h = ground arith
split_first sep (c ∷ s) r h = elim (Bool-cases (c == sep)) [
  | inl e ↦ ground arith
  | inr e ↦
      let rest : all (λ d. not (d == sep)) s ≡ true = ground arith in
      rw (split_first sep s r rest, e) refl
]

-- The characters of an edge, its colon among them
unfoldable pub is_token_char : ℕ → Bool
unfolding is_item_char
is_token_char c = is_item_char c || c == b':'

pub is_token_char-not_comma : (c : ℕ) → is_token_char c ≡ true → not (c == b',') ≡ true
unfolding is_token_char is_item_char is_letter is_digit
is_token_char-not_comma c h = ground arith

pub is_token_char-not_space : (c : ℕ) → is_token_char c ≡ true → is_space c ≡ false
unfolding is_token_char is_item_char is_letter is_digit is_space
is_token_char-not_space c h = ground arith

pub all_append :
    (p : ℕ → Bool) (xs ys : Text) → all p xs ≡ true → all p ys ≡ true → all p (xs ++ ys) ≡ true
all_append p [] ys h k = k
all_append p (x ∷ xs) ys h k =
    let rest : all p xs ≡ true = ground arith in ground (arith, all_append p xs ys rest k)

pub all-reverse : (p : ℕ → Bool) (xs : Text) → all p xs ≡ true → all p (reverse xs) ≡ true
all-reverse p [] h = refl
all-reverse p (x ∷ xs) h =
    let rest : all p xs ≡ true = ground arith in
    rw (reverse-cons x xs)
      (all_append p (reverse xs) (x ∷ []) (all-reverse p xs rest) (ground arith))

pub all_imp :
    (p q : ℕ → Bool) (xs : Text)
    → ((c : ℕ) → p c ≡ true → q c ≡ true)
    → all p xs ≡ true
    → all q xs ≡ true
all_imp p q [] f h = refl
all_imp p q (x ∷ xs) f h =
    let here = f x (ground arith) in let rest = all_imp p q xs f (ground arith) in ground arith

pub lstrip_tokens : (t : Text) → all is_token_char t ≡ true → lstrip t ≡ t
unfolding lstrip
lstrip_tokens [] h = refl
lstrip_tokens (c ∷ s) h = rw (is_token_char-not_space c (ground arith)) refl

pub strip_tokens : (t : Text) → all is_token_char t ≡ true → strip t ≡ t
unfolding strip
strip_tokens t h =
    rw (lstrip_tokens t h, lstrip_tokens (reverse t) (all-reverse is_token_char t h))
      (reverse-reverse t)

-- An edge that may be written: its type a word, its target an id
pub record IsPlainEdge (e : Text × Text) : Type 0 where
  pub start : ℕ
  pub others : Text
  pub kind_is : e.0 ≡ start ∷ others
  pub starts : is_letter start ≡ true
  pub word : all is_edge_char (start ∷ others) ≡ true
  pub target : is_valid_item_id e.1 ≡ true

is_word : Text → Bool
is_word [] = false
is_word (c ∷ cs) = is_letter c && all is_edge_char (c ∷ cs)

known_is_word :
    (p : Text → Bool) (k : Text) (ks : List Text)
    → all p ks ≡ true
    → text_in k ks ≡ true
    → p k ≡ true
known_is_word p k [] h q = cc
known_is_word p k (x ∷ xs) h q = elim (Bool-cases (text_eq k x)) [
  | inl e ↦
      let same = (text_eq_iff k x).0 e in let here : p x ≡ true = ground arith in ap p same ∙ here
  | inr e ↦ known_is_word p k xs (ground arith) (ground arith)
]

words : all is_word known_edge_types ≡ true
unfolding is_word is_edge_char is_letter is_digit
words = refl

word_parts :
    (k target : Text) → is_word k ≡ true → is_valid_item_id target ≡ true → IsPlainEdge (k, target)
unfolding is_word
word_parts [] target h v = cc
word_parts (c ∷ cs) target h v = record {
  start = c;
  others = cs;
  kind_is = refl;
  starts = ground arith;
  word = ground arith;
  target = v;
}

pub known-IsPlainEdge :
    (k target : Text)
    → text_in k known_edge_types ≡ true
    → is_valid_item_id target ≡ true
    → IsPlainEdge (k, target)
known-IsPlainEdge k target h v =
    word_parts k target (known_is_word is_word k known_edge_types words h) v
