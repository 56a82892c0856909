-- ===== src/Share/Load/Sound.antt =====
-- A share that `_load_share` of rightmemory/share_models.py returns has been validated.
use right_memory.Common.{◌≡◌, Text, codes, text_in, Result, ok, >>=-eq-ok, ◌>>=◌, arith}
use right_memory.Share.Fields.{
  ShareError, ShareRelationship, share_roles, share_states, share_transports, optional_string,
  required_string, required_choice, or_default,
}
use right_memory.Share.Load.{
  get, RawShare, share_not_table, share_table, load_parts, load_file_part, load_question_part,
  load_share,
}
use right_memory.Share.Validate.{validate_share}
use right_memory.Share.Validate.Sound.{IsShare}
use right_memory.Share.Validate.Normal.{validate_share-IsShare, validate_share_idem}

-- Every value that the program returns is a result of `validate_share`.
IsValidated : Result ShareError ShareRelationship → Type 0
IsValidated r =
    (s : ShareRelationship) → r ≡ ok s → (t : ShareRelationship) × (validate_share t ≡ ok s)

bind-IsValidated :
    {A : Type 0} (m : Result ShareError A) (f : A → Result ShareError ShareRelationship)
    → ((a : A) → IsValidated (f a))
    → IsValidated (m >>= f)
unfolding IsValidated
bind-IsValidated m f hf s h = let (a, e, k) = >>=-eq-ok m f h in hf a s k

validate_share-IsValidated : (t : ShareRelationship) → IsValidated (validate_share t)
unfolding IsValidated
validate_share-IsValidated t s h = (t, h)

load_share-IsValidated : (share_id : Text) (raw : RawShare) → IsValidated (load_share share_id raw)
unfolding IsValidated load_share
load_share-IsValidated share_id share_not_table = λ s h. ground arith
load_share-IsValidated share_id (share_table t file_ question_) =
    bind-IsValidated (optional_string (get t "role")) _ λ raw_role.
      bind-IsValidated (required_choice raw_role share_roles "share role") _ λ role.
        bind-IsValidated (optional_string (get t "title")) _ λ raw_title.
          bind-IsValidated (required_string raw_title "share title") _ λ title.
            bind-IsValidated (optional_string (get t "state")) _ λ raw_state.
              bind-IsValidated (required_choice raw_state share_states "share state") _ λ state.
                bind-IsValidated (optional_string (get t "transport")) _ λ raw_transport.
                  bind-IsValidated
                    (required_choice (or_default raw_transport (codes "http")) share_transports
                      "share transport")
                    _
                    λ transport. bind-IsValidated (load_parts (get t "parts")) _ λ parts.
                      bind-IsValidated (load_file_part file_ (text_in (codes "file") parts)) _
                        λ file_part.
                          bind-IsValidated
                            (load_question_part question_ (text_in (codes "question") parts)) _
                            λ question_part.
                              bind-IsValidated (optional_string (get t "provider_id")) _
                                λ provider_id.
                                  bind-IsValidated (optional_string (get t "hub_url")) _ λ hub_url.
                                    bind-IsValidated (optional_string (get t "credential_id")) _
                                      λ credential_id.
                                        bind-IsValidated (optional_string (get t "git_url")) _
                                          λ git_url.
                                            bind-IsValidated (optional_string (get t "git_branch"))
                                              _
                                              λ git_branch.
                                                bind-IsValidated
                                                  (optional_string (get t "accepted_from")) _
                                                  λ accepted_from. validate_share-IsValidated _

-- A share that was loaded is well formed, and validation leaves it as it is.
pub load_share-IsShare :
    (share_id : Text) (raw : RawShare) {s : ShareRelationship}
    → load_share share_id raw ≡ ok s
    → IsShare s × (validate_share s ≡ ok s)
unfolding IsValidated
load_share-IsShare share_id raw {s} h =
    let (t, e) = load_share-IsValidated share_id raw s h in
    (validate_share-IsShare t e, validate_share_idem t e)
