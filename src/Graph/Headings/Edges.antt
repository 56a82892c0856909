-- ===== src/Graph/Headings/Edges.antt =====
-- The edges that `render_heading_line` of rightmemory/graph.py writes, and how `_parse_edges` reads them.
use right_memory.Common.{
  ℕ, ◌≡◌, refl, ◌∙◌, ap, true, not, some, List, [], ◌∷◌, ◌++◌, map, Text, codes, strip, lstrip,
  is_space, is_letter, is_digit, span, split_on, join, all, arith, ◌==◌, All, cons_first,
}
use right_memory.Graph.Grammar.{
  is_item_char, is_valid_item_id, is_edge_char, edge_target, edge_colon, edge_of, EdgeList,
  add_token, parse_tokens, parse_edges,
}
use right_memory.Graph.Grammar.Edges.{
  span-append, span-all, split_alone, split_first, is_token_char, is_token_char-not_comma,
  all_append, all_imp, strip_tokens, lstrip_tokens, IsPlainEdge,
}
use right_memory.Graph.Headings.{edge_text}

is_edge_char-token : (c : ℕ) → is_edge_char c ≡ true → is_token_char c ≡ true
unfolding is_edge_char is_token_char is_item_char
is_edge_char-token c h = ground arith

is_item_char-token : (c : ℕ) → is_item_char c ≡ true → is_token_char c ≡ true
unfolding is_token_char
is_item_char-token c h = ground arith

pub valid_id-all : (id : Text) → is_valid_item_id id ≡ true → all is_item_char id ≡ true
unfolding is_valid_item_id
valid_id-all [] h = cc
valid_id-all (c ∷ cs) h = h

edge_text-tokens : (e : Text × Text) → IsPlainEdge e → all is_token_char (edge_text e) ≡ true
unfolding edge_text is_token_char
edge_text-tokens (k, t) p =
    all_append is_token_char k (b':' ∷ t)
      (ap (all is_token_char) p.kind_is
        ∙ all_imp is_edge_char is_token_char (p.start ∷ p.others) is_edge_char-token p.word)
      (all_append is_token_char (b':' ∷ []) t refl
        (all_imp is_item_char is_token_char t is_item_char-token (valid_id-all t p.target)))

edge_target-id :
    (kind t : Text) → is_valid_item_id t ≡ true → edge_target kind (t, []) ≡ some (kind, t)
unfolding edge_target is_valid_item_id lstrip
edge_target-id kind [] h = cc
edge_target-id kind (c ∷ cs) h = refl

edge_colon-word :
    (start : ℕ) (others t : Text)
    → is_letter start ≡ true
    → is_valid_item_id t ≡ true
    → edge_colon (start ∷ others, b':' ∷ t) ≡ some (start ∷ others, t)
unfolding edge_colon
edge_colon-word start others t h v =
    let chars = valid_id-all t v in
    let tokens = all_imp is_item_char is_token_char t is_item_char-token chars in
    rw (h, lstrip_tokens t tokens, span-all is_item_char t chars)
      (edge_target-id (start ∷ others) t v)

edge_of-edge_text : (e : Text × Text) → IsPlainEdge e → edge_of (edge_text e) ≡ some e
unfolding edge_of edge_text is_edge_char
edge_of-edge_text (k, t) p =
    let q = edge_text-tokens (k, t) p in
    rw
      (
        lstrip_tokens (k ++ b':' ∷ t) q,
        p.kind_is,
        span-append is_edge_char (p.start ∷ p.others) b':' t p.word refl,
      )
      (edge_colon-word p.start p.others t p.starts p.target)

add_token-some :
    (c : ℕ) (cs : Text) (e : Text × Text) (l : EdgeList)
    → edge_of (c ∷ cs) ≡ some e
    → add_token (c ∷ cs) l ≡ record l { edges = e ∷ l.edges }
unfolding add_token
add_token-some c cs e l h = rw (add_token, h) refl

nonempty_token :
    (t : Text) (e : Text × Text) (l : EdgeList)
    → edge_of t ≡ some e
    → add_token t l ≡ record l { edges = e ∷ l.edges }
unfolding edge_of edge_colon span lstrip
nonempty_token [] e l h = cc
nonempty_token (c ∷ cs) e l h = add_token-some c cs e l h

add_token-edge_text :
    (e : Text × Text) (l : EdgeList)
    → IsPlainEdge e
    → add_token (edge_text e) l ≡ record l { edges = e ∷ l.edges }
add_token-edge_text e l p = nonempty_token (edge_text e) e l (edge_of-edge_text e p)

-- The tokens behind the first one begin with a space.
abbrev spaced : List (Text × Text) → List Text
spaced es = map (λ e. b' ' ∷ edge_text e) es

strip-space : (t : Text) → strip (b' ' ∷ t) ≡ strip t
unfolding strip lstrip is_space
strip-space t = refl

parse_tokens-spaced :
    (es : List (Text × Text))
    → All IsPlainEdge es
    → parse_tokens (spaced es) ≡ record { edges = es; malformed = [] }
unfolding parse_tokens
parse_tokens-spaced [] h = refl
parse_tokens-spaced (e ∷ es) (p, ps) =
    rw
      (
        parse_tokens-spaced es ps,
        strip-space (edge_text e),
        strip_tokens (edge_text e) (edge_text-tokens e p),
      )
      (add_token-edge_text e _ p)

not_comma : (t : Text) → all is_token_char t ≡ true → all (λ c. not (c == b',')) t ≡ true
not_comma t h = all_imp is_token_char (λ c. not (c == b',')) t is_token_char-not_comma h

split_on-space :
    (s u : Text) (ts : List Text)
    → split_on b',' s ≡ u ∷ ts
    → split_on b',' (b' ' ∷ s) ≡ (b' ' ∷ u) ∷ ts
unfolding split_on cons_first
split_on-space s u ts h = rw h refl

split_on-join :
    (e : Text × Text) (es : List (Text × Text))
    → IsPlainEdge e
    → All IsPlainEdge es
    → split_on b',' (join (codes ", ") (map edge_text (e ∷ es))) ≡ edge_text e ∷ spaced es
unfolding join
split_on-join e [] p h = split_alone b',' (edge_text e) (not_comma _ (edge_text-tokens e p))
split_on-join e (f ∷ es) p (q, qs) =
    split_first b',' (edge_text e) (b' ' ∷ join (codes ", ") (map edge_text (f ∷ es)))
      (not_comma _ (edge_text-tokens e p))
    ∙ ap (λ ts. edge_text e ∷ ts)
        (split_on-space _ (edge_text f) (spaced es) (split_on-join f es q qs))

-- The edges that are written are read back, each of them and none malformed.
pub parse_edges-join :
    (e : Text × Text) (es : List (Text × Text))
    → IsPlainEdge e
    → All IsPlainEdge es
    → parse_edges (join (codes ", ") (map edge_text (e ∷ es)))
      ≡ record { edges = e ∷ es; malformed = [] }
unfolding parse_edges parse_tokens
parse_edges-join e es p h =
    rw
      (
        split_on-join e es p h,
        parse_tokens-spaced es h,
        strip_tokens (edge_text e) (edge_text-tokens e p),
      )
      (add_token-edge_text e _ p)

is_token_char-not_newline : (c : ℕ) → is_token_char c ≡ true → not (c == 10) ≡ true
unfolding is_token_char is_item_char is_letter is_digit
is_token_char-not_newline c h = ground arith

pub join-not_newline :
    (e : Text × Text) (es : List (Text × Text))
    → IsPlainEdge e
    → All IsPlainEdge es
    → all (λ c. not (c == 10)) (join (codes ", ") (map edge_text (e ∷ es))) ≡ true
unfolding join
join-not_newline e [] p h =
    all_imp is_token_char (λ c. not (c == 10)) (edge_text e) is_token_char-not_newline
      (edge_text-tokens e p)
join-not_newline e (f ∷ es) p (q, qs) =
    all_append (λ c. not (c == 10)) (edge_text e) _
      (all_imp is_token_char (λ c. not (c == 10)) (edge_text e) is_token_char-not_newline
        (edge_text-tokens e p))
      (join-not_newline f es q qs)
