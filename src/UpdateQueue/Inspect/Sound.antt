-- ===== src/UpdateQueue/Inspect/Sound.antt =====
-- What the inspection of rightmemory/update_queue.py establishes when it reports nothing.
use right_memory.Common.{
  append-eq-nil, ◌≡◌, refl, ◌∙◌, ap, true, Option, none, some, List, [], ◌∷◌, ◌++◌, Text,
  text_eq_iff, text_in, text_in-sorted_set, All, arith, sorted_set, ok, >>=-eq-ok, ok_injective,
}
use right_memory.UpdateQueue.Records.{
  Platform, UpdateCandidate, UpdateQueueLease, UpdateQueueRecovery,
}
use right_memory.UpdateQueue.Inspect.{
  missing_from, uids_of, member_errors, lease_member_errors, recovery_member_errors, Owners, owner,
  conflict, claim, own_uids, own_recoveries, foreign, overlap_batches, lease_recovery_errors,
  overlap_errors, link_errors,
}

All-map {ℓ κ ι} :
    {A : Type ℓ} {P : A → Type κ} {Q : A → Type ι} (xs : List A)
    → ((x : A) → P x → Q x)
    → All P xs
    → All Q xs
All-map [] f h = tt
All-map (x ∷ xs) f h = (f x h.0, All-map xs f h.1)

-- Every uid is that of a candidate.
abbrev pub AllPresent : List UpdateCandidate → List Text → Type 0
AllPresent cs uids = All (λ u. text_in u (uids_of cs) ≡ true) uids

missing_from-nil :
    (cs : List UpdateCandidate) (uids : List Text)
    → missing_from (uids_of cs) uids ≡ []
    → AllPresent cs uids
unfolding missing_from
missing_from-nil cs [] h = tt
missing_from-nil cs (u ∷ us) h = ground (arith, missing_from-nil cs us)

sorted_set-nil : (xs : List Text) → sorted_set xs ≡ [] → xs ≡ []
sorted_set-nil [] h = refl
sorted_set-nil (x ∷ xs) h =
    let present = text_in-sorted_set x (x ∷ xs) in ground (arith, text_eq_iff x x)

member_errors-nil :
    (p : Platform) (cs : List UpdateCandidate) (path batch_id : Text) (uids : List Text)
    → member_errors p cs path batch_id uids ≡ ok []
    → AllPresent cs uids
unfolding member_errors
member_errors-nil p cs path batch_id uids h =
    missing_from-nil cs uids (sorted_set-nil (missing_from (uids_of cs) uids) (ground arith))

lease_member_errors-nil :
    (p : Platform) (cs : List UpdateCandidate) (l : UpdateQueueLease)
    → lease_member_errors p cs (some l) ≡ ok []
    → AllPresent cs l.candidate_uids
unfolding lease_member_errors
lease_member_errors-nil p cs l h = member_errors-nil p cs _ l.batch_id l.candidate_uids h

recovery_member_errors-nil :
    (p : Platform) (cs : List UpdateCandidate) (rs : List UpdateQueueRecovery)
    → recovery_member_errors p cs rs ≡ ok []
    → All (λ r. AllPresent cs r.candidate_uids) rs
unfolding recovery_member_errors
recovery_member_errors-nil p cs [] h = tt
recovery_member_errors-nil p cs (r ∷ rs) h =
    let (ds, first, k) = >>=-eq-ok (member_errors p cs _ r.batch_id r.candidate_uids) _ h in
    let (ds', others, k') = >>=-eq-ok (recovery_member_errors p cs rs) _ k in
    let (e, e') = append-eq-nil ds ds' (ok_injective k') in
    (
      member_errors-nil p cs _ r.batch_id r.candidate_uids (first ∙ ap ok e),
      recovery_member_errors-nil p cs rs (others ∙ ap ok e'),
    )

-- The batch owns each of the uids.
abbrev Owned : Owners → Text → List Text → Type 0
Owned os batch uids = (u : Text) → text_in u uids ≡ true → owner u os ≡ some batch

-- What was owned stays owned by the same batch.
abbrev Grows : Owners → Owners → Type 0
Grows os os' = (u batch : Text) → owner u os ≡ some batch → owner u os' ≡ some batch

claim-Grows : (batch u : Text) (os : Owners) → Grows os (claim batch u (owner u os) os)
unfolding claim owner
claim-Grows batch u os v b h = ground (arith, text_eq_iff u v)

own_uids-Grows : (batch : Text) (us : List Text) (os : Owners) → Grows os (own_uids batch us os).0
unfolding own_uids
own_uids-Grows batch [] os v b h = h
own_uids-Grows batch (u ∷ us) os v b h =
    own_uids-Grows batch us _ v b (claim-Grows batch u os v b h)

claimed_by :
    (batch u : Text) (o : Option Text) (os : Owners)
    → owner u os ≡ o
    → conflict batch u o ≡ []
    → owner u (claim batch u o os) ≡ some batch
unfolding conflict claim owner
claimed_by batch u none os e h = ground (arith, text_eq_iff u u)
claimed_by batch u (some previous) os e h = ground (arith, text_eq_iff previous batch)

own_uids-Owned :
    (batch : Text) (us : List Text) (os : Owners)
    → (own_uids batch us os).1 ≡ []
    → Owned (own_uids batch us os).0 batch us
unfolding own_uids
own_uids-Owned batch [] os h v m = cc
own_uids-Owned batch (u ∷ us) os h v m =
    let (here, later) = append-eq-nil (conflict batch u (owner u os)) _ h in
    let mine = claimed_by batch u (owner u os) os refl here in
    let kept = own_uids-Grows batch us (claim batch u (owner u os) os) u batch mine in
    ground (arith, text_eq_iff v u, own_uids-Owned batch us (claim batch u (owner u os) os) later v)

own_recoveries-Grows :
    (rs : List UpdateQueueRecovery) (os : Owners) → Grows os (own_recoveries rs os).0
unfolding own_recoveries
own_recoveries-Grows [] os v b h = h
own_recoveries-Grows (r ∷ rs) os v b h =
    own_recoveries-Grows rs (own_uids r.batch_id r.candidate_uids os).0 v b
      (own_uids-Grows r.batch_id r.candidate_uids os v b h)

own_recoveries-Owned :
    (rs : List UpdateQueueRecovery) (os : Owners)
    → (own_recoveries rs os).1 ≡ []
    → All (λ r. Owned (own_recoveries rs os).0 r.batch_id r.candidate_uids) rs
unfolding own_recoveries
own_recoveries-Owned [] os h = tt
own_recoveries-Owned (r ∷ rs) os h =
    let (here, later) = append-eq-nil (own_uids r.batch_id r.candidate_uids os).1 _ h in
    (
      λ u m.
          own_recoveries-Grows rs _ u r.batch_id
            (own_uids-Owned r.batch_id r.candidate_uids os here u m),
      own_recoveries-Owned rs _ later,
    )

overlap_batches-nil :
    (batch : Text) (us : List Text) (os : Owners)
    → overlap_batches batch us os ≡ []
    → (u other : Text) → text_in u us ≡ true
    → owner u os ≡ some other
    → other ≡ batch
unfolding overlap_batches foreign
overlap_batches-nil batch [] os h u other m o = cc
overlap_batches-nil batch (v ∷ us) os h u other m o =
    let (here, later) = append-eq-nil (foreign batch (owner v os)) _ h in
    ground (
      arith,
      text_eq_iff u v,
      text_eq_iff other batch,
      overlap_batches-nil batch us os later u other,
    )

overlap_errors-nil : (bs : List Text) → overlap_errors bs ≡ [] → bs ≡ []
unfolding overlap_errors
overlap_errors-nil [] h = refl
overlap_errors-nil (b ∷ bs) h = cc

-- A uid of both is in one batch.
abbrev pub Apart : Text → List Text → Text → List Text → Type 0
Apart batch uids batch' uids' =
    (u : Text) → text_in u uids ≡ true → text_in u uids' ≡ true → batch ≡ batch'

-- The lease and the recoveries refer to candidates that are there, and no candidate belongs to
-- two batches.
pub record IsLinked (cs : List UpdateCandidate) (lease : Option UpdateQueueLease)
    (rs : List UpdateQueueRecovery) : Type 0 where
  pub lease_present : (l : UpdateQueueLease) → lease ≡ some l → AllPresent cs l.candidate_uids
  pub recoveries_present : All (λ r. AllPresent cs r.candidate_uids) rs
  pub recoveries_apart :
      All (λ r. All (λ r'. Apart r.batch_id r.candidate_uids r'.batch_id r'.candidate_uids) rs) rs
  pub lease_apart :
      (l : UpdateQueueLease)
      → lease ≡ some l
      → All (λ r. Apart r.batch_id r.candidate_uids l.batch_id l.candidate_uids) rs

some_injective_at : {a b : Text} {o : Option Text} → o ≡ some a → o ≡ some b → a ≡ b
some_injective_at h k = cc

recoveries-Apart_of :
    (os : Owners) (rs : List UpdateQueueRecovery)
    → All (λ r. Owned os r.batch_id r.candidate_uids) rs
    → All (λ r. All (λ r'. Apart r.batch_id r.candidate_uids r'.batch_id r'.candidate_uids) rs) rs
recoveries-Apart_of os rs owned =
    All-map rs (λ r o. All-map rs (λ r' o' u m m'. some_injective_at (o u m) (o' u m')) owned) owned

lease_recovery_errors-nil :
    (l : UpdateQueueLease) (rs : List UpdateQueueRecovery) (os : Owners)
    → lease_recovery_errors (some l) rs os ≡ []
    → All (λ r. Owned os r.batch_id r.candidate_uids) rs
    → All (λ r. Apart r.batch_id r.candidate_uids l.batch_id l.candidate_uids) rs
unfolding lease_recovery_errors
lease_recovery_errors-nil l rs os h owned =
    let (overlap, members) =
      append-eq-nil (overlap_errors (overlap_batches l.batch_id l.candidate_uids os)) _ h in
    let none_foreign = overlap_errors-nil _ overlap in
    All-map rs
      (λ r o u m m'.
        overlap_batches-nil l.batch_id l.candidate_uids os none_foreign u r.batch_id m' (o u m))
      owned

-- If the checks across the records report nothing, the lease and every recovery name only candidates
-- that are there, no candidate is in two different recovery batches, and none of the lease's
-- candidates is in a recovery of another batch than the lease's.
pub link_errors_sound :
    (p : Platform) (cs : List UpdateCandidate) (lease : Option UpdateQueueLease)
    (rs : List UpdateQueueRecovery)
    → link_errors p cs lease rs ≡ ok []
    → IsLinked cs lease rs
unfolding link_errors
link_errors_sound p cs lease rs h =
    let (leased, e₁, k₁) = >>=-eq-ok (lease_member_errors p cs lease) _ h in
    let (members, e₂, k₂) = >>=-eq-ok (recovery_member_errors p cs rs) _ k₁ in
    let doubled = (own_recoveries rs []).1 in
    let (most, n₄) = append-eq-nil (leased ++ members ++ doubled) _ (ok_injective k₂) in
    let (both, n₃) = append-eq-nil (leased ++ members) doubled most in
    let (n₁, n₂) = append-eq-nil leased members both in
    let owned = own_recoveries-Owned rs [] n₃ in
    record {
      lease_present = λ l e. lease_member_errors-nil p cs l (rw e at (e₁ ∙ ap ok n₁));
      recoveries_present = recovery_member_errors-nil p cs rs (e₂ ∙ ap ok n₂);
      recoveries_apart = recoveries-Apart_of _ rs owned;
      lease_apart = λ l e. lease_recovery_errors-nil l rs _ (rw e at n₄) owned;
    }
