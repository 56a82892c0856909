-- ===== src/Share/Validate/Normal.antt =====
-- `_validate_share` of rightmemory/share_models.py returns a share in normal form, which it then accepts
-- as it stands.
use mathlib.Core.Path.{subst}
use mathlib.Core.List.{append_assoc, append-nil}
use right_memory.Common.{
  String, ◌≡◌, refl, sym, ◌∙◌, ap, ◌≢◌, true, false, Option, none, some, List, [], ◌∷◌, ◌++◌, map,
  Text, codes, text_eq, text_eq_iff, text_in, strip, lstrip, is_space, strip_idem, All, arith, ok,
  >>=-eq-ok, ok_injective, Bool-cases, inl, inr,
}
use right_memory.Share.Fields.{
  text_item, optional_item, ShareRelationship, validate_share_id, clean_text, clean_optional,
  share_roles, share_states, share_parts, share_transports, required_string, required_choice,
  or_default,
}
use right_memory.Share.Validate.{
  append_new, normalize_loop, nonempty_parts, normalize_parts, check_git, check_file,
  check_question, validate_share,
}
use right_memory.Share.Validate.Sound.{
  IsClean, clean_text-IsClean, clean_optional_idem, required_choice_sound, NodupTexts, IsParts,
  IsShare, normalize_parts-IsParts, check_git_sound, check_file_sound, check_question_sound,
}

-- The checks that a returned share has passed.
record Validated (s s' : ShareRelationship) : Type 0 where
  share_id : validate_share_id s.share_id ≡ ok s'.share_id
  role : required_choice (clean_text s.role) share_roles "share role" ≡ ok s'.role
  title : required_string (clean_text s.title) "share title" ≡ ok s'.title
  state : required_choice (clean_text s.state) share_states "share state" ≡ ok s'.state
  transport :
      required_choice
        (or_default (clean_text s.transport) (codes "http"))
        share_transports
        "share transport"
      ≡ ok s'.transport
  parts : normalize_parts (map text_item s.parts) ≡ ok s'.parts
  git : check_git s'.transport s'.git_url s'.parts ≡ ok tt
  file : check_file s'.role s'.parts s'.file ≡ ok tt
  question : check_question s'.role s'.parts s'.question ≡ ok tt
  provider_id : s'.provider_id ≡ clean_optional s.provider_id
  hub_url : s'.hub_url ≡ clean_optional s.hub_url
  credential_id : s'.credential_id ≡ clean_optional s.credential_id
  git_url : s'.git_url ≡ clean_optional s.git_url
  git_branch : s'.git_branch ≡ clean_optional s.git_branch
  accepted_from : s'.accepted_from ≡ clean_optional s.accepted_from

validate_share-Validated :
    (s : ShareRelationship) {s' : ShareRelationship} → validate_share s ≡ ok s' → Validated s s'
unfolding validate_share
validate_share-Validated s {s'} h =
    let (share_id, e₁, k₁) = >>=-eq-ok (validate_share_id s.share_id) _ h in
    let (role, e₂, k₂) =
      >>=-eq-ok (required_choice (clean_text s.role) share_roles "share role") _ k₁ in
    let (title, e₃, k₃) = >>=-eq-ok (required_string (clean_text s.title) "share title") _ k₂ in
    let (state, e₄, k₄) =
      >>=-eq-ok (required_choice (clean_text s.state) share_states "share state") _ k₃ in
    let (transport, e₅, k₅) =
      >>=-eq-ok
        (required_choice (or_default (clean_text s.transport) (codes "http")) share_transports
          "share transport")
        _ k₄ in
    let (parts, e₆, k₆) = >>=-eq-ok (normalize_parts (map text_item s.parts)) _ k₅ in
    let (u, e₇, k₇) = >>=-eq-ok (check_git transport (clean_optional s.git_url) parts) _ k₆ in
    let (v, e₈, k₈) = >>=-eq-ok (check_file role parts s.file) _ k₇ in
    let (w, e₉, k₉) = >>=-eq-ok (check_question role parts s.question) _ k₈ in
    subst (λ x. Validated s x) (ok_injective k₉)
      (record {
        share_id = e₁;
        role = e₂;
        title = e₃;
        state = e₄;
        transport = e₅;
        parts = e₆;
        git = e₇;
        file = e₈;
        question = e₉;
        provider_id = refl;
        hub_url = refl;
        credential_id = refl;
        git_url = refl;
        git_branch = refl;
        accepted_from = refl;
      })

-- A returned share has a known role, state and transport, distinct known parts and at least one of
-- them, an URL and no question part if it goes by git, and the record of each of its parts.
pub validate_share-IsShare :
    (s : ShareRelationship) {s' : ShareRelationship} → validate_share s ≡ ok s' → IsShare s'
validate_share-IsShare s {s'} h =
    let v = validate_share-Validated s h in
    let parts = normalize_parts-IsParts (map text_item s.parts) v.parts in
    record {
      role_known = (required_choice_sound _ share_roles _ v.role).1;
      state_known = (required_choice_sound _ share_states _ v.state).1;
      transport_known = (required_choice_sound _ share_transports _ v.transport).1;
      parts_known = parts.0;
      parts_there = parts.1;
      git_has_url = λ git. (check_git_sound s'.transport s'.git_url s'.parts v.git git).0;
      git_files_only = λ git. (check_git_sound s'.transport s'.git_url s'.parts v.git git).1;
      file_there = check_file_sound s'.role s'.parts s'.file v.file;
      question_there = check_question_sound s'.role s'.parts s'.question v.question;
    }

share_id_idem : (t : Text) {u : Text} → validate_share_id t ≡ ok u → validate_share_id u ≡ ok u
unfolding validate_share_id
share_id_idem t h = ground (arith, strip_idem t)

title_idem :
    (t : Text) (label : String) {u : Text}
    → required_string (clean_text t) label ≡ ok u
    → required_string (clean_text u) label ≡ ok u
unfolding required_string
title_idem t label {u} h = again (clean_text t) refl h
  where
    again :
        (o : Option Text)
        → clean_text t ≡ o
        → required_string o label ≡ ok u
        → required_string (clean_text u) label ≡ ok u
    again none e k = cc
    again (some v) e k = rw (← ok_injective k) (rw (clean_text-IsClean t e))

-- A chosen word is clean, since each word that may be chosen is.
choice_idem :
    (o : Option Text) (allowed : List Text) (label : String) {u : Text}
    → ((t : Text) → text_in t allowed ≡ true → IsClean t)
    → required_choice o allowed label ≡ ok u
    → required_choice (clean_text u) allowed label ≡ ok u
unfolding required_choice required_string
choice_idem o allowed label {u} clean h =
    let known = (required_choice_sound o allowed label h).1 in rw (clean u known, known)

known-IsClean :
    (words : List Text) → All IsClean words → (t : Text) → text_in t words ≡ true → IsClean t
known-IsClean [] h t m = cc
known-IsClean (w ∷ words) h t m = elim (Bool-cases (text_eq t w)) [
  | inl e ↦ subst IsClean (sym ((text_eq_iff t w).0 e)) h.0
  | inr e ↦ known-IsClean words h.1 t (rw e at m)
]

roles-IsClean : All IsClean share_roles
unfolding clean_text strip lstrip is_space
roles-IsClean = (refl, (refl, tt))

states-IsClean : All IsClean share_states
unfolding clean_text strip lstrip is_space
states-IsClean = (refl, (refl, (refl, (refl, tt))))

parts-IsClean : All IsClean share_parts
unfolding clean_text strip lstrip is_space
parts-IsClean = (refl, (refl, tt))

transports-IsClean : All IsClean share_transports
unfolding clean_text strip lstrip is_space
transports-IsClean = (refl, (refl, tt))

-- Parts in normal form, appended to others without a repetition, go through the loop as they are.
nodup-absent :
    (acc : List Text) (t : Text) (ts : List Text)
    → NodupTexts (acc ++ t ∷ ts)
    → text_in t acc ≡ false
nodup-absent [] t ts n = refl
nodup-absent (u ∷ acc) t ts n = ground (
  arith,
  text_eq_iff t u,
  text_eq_iff u t,
  nodup-absent acc t ts n.1,
  absent-middle u acc t ts n.0,
)
  where
    absent-middle :
        (a : Text) (us : List Text) (b : Text) (vs : List Text)
        → text_in a (us ++ b ∷ vs) ≡ false
        → text_eq a b ≡ false
    absent-middle a [] b vs h = ground arith
    absent-middle a (v ∷ us) b vs h = absent-middle a us b vs (ground arith)

normalize_loop_fixed :
    (acc ts : List Text)
    → All (λ t. text_in t share_parts ≡ true) ts
    → NodupTexts (acc ++ ts)
    → normalize_loop acc (map text_item ts) ≡ ok (acc ++ ts)
unfolding normalize_loop required_choice required_string optional_item append_new
normalize_loop_fixed acc [] known n = rw append-nil
normalize_loop_fixed acc (t ∷ ts) known n =
    rw (known-IsClean share_parts parts-IsClean t known.0, known.0, nodup-absent acc t ts n)
      (normalize_loop_fixed (acc ++ t ∷ []) ts known.1 (rw (append_assoc acc (t ∷ []) ts) n)
        ∙ ap ok (append_assoc acc (t ∷ []) ts))

parts_idem : (ts : List Text) → IsParts ts → ts ≢ [] → normalize_parts (map text_item ts) ≡ ok ts
unfolding normalize_parts nonempty_parts
parts_idem [] h some_ = absurd (some_ refl)
parts_idem (t ∷ ts) h some_ = rw (normalize_loop_fixed [] (t ∷ ts) h.0 h.1)

transport_idem :
    (o : Option Text) {u : Text}
    → required_choice o share_transports "share transport" ≡ ok u
    → required_choice (or_default (clean_text u) (codes "http")) share_transports "share transport"
      ≡ ok u
unfolding required_choice required_string or_default
transport_idem o {u} h =
    let known = (required_choice_sound o share_transports "share transport" h).1 in
    rw (known-IsClean share_transports transports-IsClean u known, known)

cleaned_again : (o : Option Text) {r : Option Text} → r ≡ clean_optional o → clean_optional r ≡ r
cleaned_again o e = rw e (clean_optional_idem o)

-- Validation is idempotent: what it returns, it accepts and returns unchanged.
pub validate_share_idem :
    (s : ShareRelationship) {s' : ShareRelationship}
    → validate_share s ≡ ok s'
    → validate_share s' ≡ ok s'
unfolding validate_share
validate_share_idem s {s'} h =
    let v = validate_share-Validated s h in
    let parts = normalize_parts-IsParts (map text_item s.parts) v.parts in
    rw (
      share_id_idem s.share_id v.share_id,
      choice_idem _ share_roles _ (known-IsClean share_roles roles-IsClean) v.role,
      title_idem s.title _ v.title,
      choice_idem _ share_states _ (known-IsClean share_states states-IsClean) v.state,
      transport_idem _ v.transport,
      parts_idem s'.parts parts.0 parts.1,
      cleaned_again s.git_url v.git_url,
      v.git,
      v.file,
      v.question,
      cleaned_again s.provider_id v.provider_id,
      cleaned_again s.hub_url v.hub_url,
      cleaned_again s.credential_id v.credential_id,
      cleaned_again s.git_branch v.git_branch,
      cleaned_again s.accepted_from v.accepted_from,
    )
