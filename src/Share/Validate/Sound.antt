-- ===== src/Share/Validate/Sound.antt =====
-- What `_validate_share` of rightmemory/share_models.py guarantees of the share that it returns.
use right_memory.Common.{
  String, ◌≡◌, refl, sym, ◌≢◌, true, false, Option, none, some, List, [], ◌∷◌, ◌++◌, Text, codes,
  text_eq, text_eq_iff, text_in, strip, strip_idem, All, arith, ok, >>=-eq-ok, ok_injective,
  Bool-cases, inl, inr,
}
use right_memory.Share.Fields.{
  Item, optional_item, ShareFilePart, ShareQuestionPart, ShareRelationship, share_roles,
  share_states, share_parts, share_transports, clean_or_none, clean_text, clean_optional,
  required_string, required_choice,
}
use right_memory.Share.Validate.{
  append_new, normalize_loop, nonempty_parts, normalize_parts, check_git, check_file,
  check_question,
}

-- The text has nothing to strip, and is not empty.
abbrev pub IsClean : Text → Type 0
IsClean t = clean_text t ≡ some t

clean_or_none-IsClean : (t : Text) {u : Text} → strip t ≡ t → clean_or_none t ≡ some u → IsClean u
unfolding clean_or_none clean_text
clean_or_none-IsClean [] e h = cc
clean_or_none-IsClean (c ∷ t) e h = ground arith

pub clean_text-IsClean : (t : Text) {u : Text} → clean_text t ≡ some u → IsClean u
clean_text-IsClean t h = clean_or_none-IsClean (strip t) (strip_idem t) (unfold clean_text in h)

pub clean_optional_idem : (o : Option Text) → clean_optional (clean_optional o) ≡ clean_optional o
unfolding clean_optional
clean_optional_idem none = refl
clean_optional_idem (some t) = clean_again (clean_text t) refl
  where
    clean_again : (r : Option Text) → clean_text t ≡ r → clean_optional r ≡ r
    clean_again none e = refl
    clean_again (some u) e = clean_text-IsClean t e

pub required_choice_sound :
    (o : Option Text) (allowed : List Text) (label : String) {t : Text}
    → required_choice o allowed label ≡ ok t
    → (o ≡ some t) × (text_in t allowed ≡ true)
unfolding required_choice
required_choice_sound none allowed label h = cc
required_choice_sound (some u) allowed label h = ground arith

-- Each part is known, and none is listed twice.
abbrev pub NodupTexts : List Text → Type 0
NodupTexts [] = Unit
NodupTexts (t ∷ ts) = (text_in t ts ≡ false) × NodupTexts ts

nodup_snoc :
    (ts : List Text) (t : Text) → NodupTexts ts → text_in t ts ≡ false → NodupTexts (ts ++ t ∷ [])
nodup_snoc [] t n h = (refl, tt)
nodup_snoc (u ∷ ts) t n h = (
  absent_snoc ts u t n.0 (ground (arith, text_eq_iff u t, text_eq_iff t u)),
  nodup_snoc ts t n.1 (ground arith),
)
  where
    absent_snoc :
        (us : List Text) (a b : Text)
        → text_in a us ≡ false
        → text_eq a b ≡ false
        → text_in a (us ++ b ∷ []) ≡ false
    absent_snoc [] a b h k = ground arith
    absent_snoc (v ∷ us) a b h k = ground (arith, absent_snoc us a b)

abbrev pub IsParts : List Text → Type 0
IsParts ts = All (λ t. text_in t share_parts ≡ true) ts × NodupTexts ts

All-snoc {ℓ κ} :
    {A : Type ℓ} (P : A → Type κ) (xs : List A) (x : A) → All P xs → P x → All P (xs ++ x ∷ [])
All-snoc P [] x h p = (p, tt)
All-snoc P (y ∷ xs) x h p = (h.0, All-snoc P xs x h.1 p)

append_new-IsParts :
    (ts : List Text) (t : Text)
    → IsParts ts
    → text_in t share_parts ≡ true
    → IsParts (append_new ts t)
unfolding append_new
append_new-IsParts ts t h known = elim (Bool-cases (text_in t ts)) [
  | inl there ↦ rw there h
  | inr new ↦
      rw new (All-snoc (λ u. text_in u share_parts ≡ true) ts t h.0 known, nodup_snoc ts t h.1 new)
]

normalize_loop-IsParts :
    (ts : List Text) (raws : List Item) {us : List Text}
    → IsParts ts
    → normalize_loop ts raws ≡ ok us
    → IsParts us
unfolding normalize_loop
normalize_loop-IsParts ts [] h k = rw (sym (ok_injective k)) h
normalize_loop-IsParts ts (raw ∷ raws) h k =
    let (value, read, k₁) = >>=-eq-ok (optional_item raw) _ k in
    let (part, chosen, k₂) = >>=-eq-ok (required_choice value share_parts "share part") _ k₁ in
    normalize_loop-IsParts (append_new ts part) raws
      (append_new-IsParts ts part h (required_choice_sound value share_parts _ chosen).1) k₂

nonempty_parts_sound :
    (ts : List Text) {us : List Text} → nonempty_parts ts ≡ ok us → (us ≡ ts) × (us ≢ [])
unfolding nonempty_parts
nonempty_parts_sound [] h = cc
nonempty_parts_sound (t ∷ ts) h = ground arith

-- The parts are known ones, at least one, and none twice.
pub normalize_parts-IsParts :
    (raws : List Item) {ts : List Text} → normalize_parts raws ≡ ok ts → IsParts ts × (ts ≢ [])
unfolding normalize_parts
normalize_parts-IsParts raws {ts} h =
    let (us, looped, k) = >>=-eq-ok (normalize_loop [] raws) _ h in
    let (same, some_) = nonempty_parts_sound us k in
    (rw same (normalize_loop-IsParts [] raws (tt, tt) looped), some_)

-- A share in normal form.
pub record IsShare (s : ShareRelationship) : Type 0 where
  pub role_known : text_in s.role share_roles ≡ true
  pub state_known : text_in s.state share_states ≡ true
  pub transport_known : text_in s.transport share_transports ≡ true
  pub parts_known : IsParts s.parts
  pub parts_there : s.parts ≢ []
  pub git_has_url : text_eq s.transport (codes "git") ≡ true → s.git_url ≢ none
  pub git_files_only :
      text_eq s.transport (codes "git") ≡ true → text_in (codes "question") s.parts ≡ false
  pub file_there : text_in (codes "file") s.parts ≡ true → s.file ≢ none
  pub question_there : text_in (codes "question") s.parts ≡ true → s.question ≢ none

pub check_git_sound :
    (transport : Text) (git_url : Option Text) (parts : List Text) {u : Unit {0}}
    → check_git transport git_url parts ≡ ok u
    → text_eq transport (codes "git") ≡ true
    → (git_url ≢ none) × (text_in (codes "question") parts ≡ false)
unfolding check_git required_string
check_git_sound transport git_url parts h git = ground arith

pub check_file_sound :
    (role : Text) (parts : List Text) (part : Option ShareFilePart) {u : Unit {0}}
    → check_file role parts part ≡ ok u
    → text_in (codes "file") parts ≡ true
    → part ≢ none
unfolding check_file
check_file_sound role parts none h there = ground arith
check_file_sound role parts (some x) h there = ground arith

pub check_question_sound :
    (role : Text) (parts : List Text) (part : Option ShareQuestionPart) {u : Unit {0}}
    → check_question role parts part ≡ ok u
    → text_in (codes "question") parts ≡ true
    → part ≢ none
unfolding check_question
check_question_sound role parts none h there = ground arith
check_question_sound role parts (some x) h there = ground arith
