-- ===== src/Insight/Store/Claims.antt =====
-- The claim and the completion of an operation in rightmemory/insight_trigger.py.
use right_memory.Common.{
  ◌≡◌, refl, sym, ◌∙◌, ap, true, false, not, Option, none, some, Text, arith, ok, require, inl, inr,
}
use right_memory.Insight.{
  Platform, InsightTriggerState, positive_finite, operation_id, optional_result, Disk, Exec,
  runtime_error,
}
use right_memory.Insight.Store.{
  read_state, claim_active, claim_new, claim_operation, claimed_amount, is_active, complete_read,
  complete_operation,
}
use right_memory.Insight.Store.Laws.{
  exec_cases, lift_cases, operation_id-same, read_written, write_cases, read_again, if_cases,
  read_return,
}

module _ (p : Platform) where
  -- The file after a claim: active is the operation that the claim returned, and its points are kept.
  Claimed : Text → Text → Disk p → Type 0
  Claimed now id d =
      (s : InsightTriggerState p) × (n : p.Number) × (read_state p now d ≡ (ok s, d))
      × (s.active_operation_id ≡ some id)
      × (s.active_operation_points ≡ some n)

  claim_new_leaves :
      (amount : p.Number) (now fresh now' : Text) (t : InsightTriggerState p) (e : Disk p)
      → {id : Text} {d' : Disk p} → claim_new p amount now fresh t e ≡ (ok (some id), d')
      → Claimed now' id d'
  unfolding claim_new Claimed
  claim_new_leaves amount now fresh now' t e h = elim (if_cases (p.less t.points amount) _ _ e h) [
    | inl (y, k) ↦ ground arith
    | inr (y, k) ↦
        let (id_eq, f_eq) = write_cases p _ _ e k in
        (_, amount, read_written p now' _ _ f_eq, sym id_eq, refl)
  ]

  claim_active_leaves :
      (active : Text) (points : Option p.Number) (amount : p.Number) (now now' : Text)
      → (t : InsightTriggerState p) (e : Disk p) {id : Text} {d' : Disk p}
      → t.active_operation_id ≡ some active
      → t.active_operation_points ≡ points
      → read_state p now' e ≡ (ok t, e)
      → claim_active p active points amount now t e ≡ (ok (some id), d')
      → Claimed now' id d'
  unfolding claim_active Claimed
  claim_active_leaves active (some n) amount now now' t e q r again h =
      let (id_eq, k) = read_return now' t (some active) _ e _ again h in (t, n, k, q ∙ id_eq, r)
  claim_active_leaves active none amount now now' t e q r again h =
      let (id_eq, f_eq) = write_cases p _ _ e h in
      (_, amount, read_written p now' _ _ f_eq, q ∙ sym id_eq, refl)

  claim_leaves :
      (threshold : p.Number) (now fresh now' : Text) (d : Disk p) {id : Text} {d' : Disk p}
      → claim_operation p threshold now fresh d ≡ (ok (some id), d')
      → Claimed now' id d'
  unfolding claim_operation read_state
  claim_leaves threshold now fresh now' d h =
      let (amount, q1, k1) = lift_cases (positive_finite p threshold "threshold") _ d h in
      let (t, e, q2, k2) = exec_cases (read_state p now) _ d k1 in
      let again : read_state p now' e ≡ (ok t, e) = read_again p now now' d d.file refl q2 in
      go amount t e again t.active_operation_id refl k2
    where
      go :
          (amount : p.Number) (t : InsightTriggerState p) (e : Disk p)
          → read_state p now' e ≡ (ok t, e)
          → (o : Option Text) → t.active_operation_id ≡ o
          → {id : Text} {d' : Disk p}
          → elim o as (λ _. Exec p (Option Text)) [
            | some id ↦ claim_active p id t.active_operation_points amount now t
            | none ↦ claim_new p amount now fresh t
          ]
              e
            ≡ (ok (some id), d')
          → Claimed now' id d'
      go amount t e again (some active) q h =
          claim_active_leaves active _ amount now now' t e q refl again h
      go amount t e again none q h = claim_new_leaves amount now fresh now' t e h

  claim_settled :
      (threshold : p.Number) (now fresh : Text) (s : InsightTriggerState p) (d : Disk p)
      → (id : Text) {n m : p.Number} → positive_finite p threshold "threshold" ≡ ok n
      → read_state p now d ≡ (ok s, d)
      → s.active_operation_id ≡ some id
      → s.active_operation_points ≡ some m
      → claim_operation p threshold now fresh d ≡ (ok (some id), d)
  unfolding claim_operation claim_active
  claim_settled threshold now fresh s d id hn r q_id q_points = rw (hn, r, q_id, q_points)

  -- Where a claim has returned an operation, a claim with any valid threshold and at any time returns
  -- the same operation and leaves the file as it is.
  pub claim_operation-claim_operation :
      (threshold threshold' : p.Number) (now fresh now' fresh' : Text) (d : Disk p)
      → {id : Text} {d' : Disk p} {n : p.Number}
      → claim_operation p threshold now fresh d ≡ (ok (some id), d')
      → positive_finite p threshold' "threshold" ≡ ok n
      → claim_operation p threshold' now' fresh' d' ≡ (ok (some id), d')
  unfolding Claimed
  claim_operation-claim_operation threshold threshold' now fresh now' fresh' d {id} {d'} h hn =
      let (s, m, r, q_id, q_points) = claim_leaves threshold now fresh now' d h in
      claim_settled threshold' now' fresh' s d' id hn r q_id q_points

  complete_at :
      (id : Text) (fallback : p.Number) (result : Option Text) (now now' : Text)
      → (t : InsightTriggerState p) (e : Disk p) {d' : Disk p}
      → complete_read p id fallback result now t e ≡ (ok true, d')
      → (s : InsightTriggerState p) × (read_state p now' d' ≡ (ok s, d'))
        × (s.active_operation_id ≡ none)
  unfolding complete_read
  complete_at id fallback result now now' t e h =
      elim (if_cases (not (is_active p t.active_operation_id id)) _ _ e h) [
        | inl (y, k) ↦ ground arith
        | inr (y, k) ↦
            let (u, q, k') =
              lift_cases
                (require
                  (not (p.less t.points (claimed_amount p t.active_operation_points fallback)))
                  runtime_error)
                _ e k in
            let (b_eq, f_eq) = write_cases p _ _ e k' in (_, read_written p now' _ _ f_eq, refl)
      ]

  complete_settled :
      (id : Text) (threshold : p.Number) (result : Option Text) (now : Text)
      → (s : InsightTriggerState p) (d : Disk p) {n : p.Number} {clean : Option Text}
      → operation_id p id ≡ ok id
      → positive_finite p threshold "threshold" ≡ ok n
      → optional_result p result ≡ ok clean
      → read_state p now d ≡ (ok s, d)
      → s.active_operation_id ≡ none
      → complete_operation p id threshold result now d ≡ (ok false, d)
  unfolding complete_operation complete_read is_active
  complete_settled id threshold result now s d hid hn hr r q_id = rw (hid, hn, hr, r, q_id)

  -- After a completion that returned true, the same completion with any valid threshold and result
  -- returns false and leaves the file as it is: the points are spent once.
  pub complete_operation-complete_operation :
      (id : Text) (threshold threshold' : p.Number) (result result' : Option Text) (now now' : Text)
      → (d : Disk p) {d' : Disk p} {n : p.Number} {clean : Option Text}
      → complete_operation p id threshold result now d ≡ (ok true, d')
      → positive_finite p threshold' "threshold" ≡ ok n
      → optional_result p result' ≡ ok clean
      → complete_operation p id threshold' result' now' d' ≡ (ok false, d')
  unfolding complete_operation
  complete_operation-complete_operation id threshold threshold' result result' now now' d {d'} h hn
        hr =
      let (clean_id, q1, k1) = lift_cases (operation_id p id) _ d h in
      let (fallback, q2, k2) = lift_cases (positive_finite p threshold "threshold") _ d k1 in
      let (clean, q3, k3) = lift_cases (optional_result p result) _ d k2 in
      let (t, e, q4, k4) = exec_cases (read_state p now) _ d k3 in
      let (s, r, q_id) = complete_at clean_id fallback clean now now' t e k4 in
      complete_settled id threshold' result' now' s d' (q1 ∙ ap ok (operation_id-same p id q1)) hn
        hr r q_id
