-- ===== src/Insight/Store/Laws.antt =====
-- A repeated `increment_once` of rightmemory/insight_trigger.py, and lemmas on reading what was written.
use right_memory.Common.{
  ◌≡◌, refl, sym, ◌∙◌, ap, Bool, true, false, Option, some, List, [], ◌∷◌, ◌++◌, Text, text_eq_iff,
  text_in, arith, if◌then◌else◌, Result, ok, err, require, ok_injective, ◌⊎◌, inl, inr,
}
use mathlib.Core.Path.{subst}
use right_memory.Insight.{
  Platform, InsightError, InsightTriggerState, initial, positive_finite, operation_id, value_error,
  validate_state, state_json, state_of, StateFile, no_file, file_text, Disk, Exec,
}
use right_memory.Insight.Store.{
  continue, ◌>>=◌, ◌>>◌, pure, lift, write_state, read_state, read_file, state_or_recovered,
  recover, apply_once, increment_once,
}
use right_memory.Insight.Sound.{state_from_json-state_json}
use right_memory.Common.Json.{Json}

text_in-snoc : (t : Text) (ts : List Text) → text_in t (ts ++ t ∷ []) ≡ true
text_in-snoc t [] = ground (arith, text_eq_iff t t)
text_in-snoc t (u ∷ ts) = ground (arith, text_in-snoc t ts)

module _ {p : Platform} {A B : Type 0} where
  continue_cases :
      (r : Result InsightError A) (e : Disk p) (f : A → Exec p B) {b : B} {d' : Disk p}
      → continue r f e ≡ (ok b, d')
      → (a : A) × (r ≡ ok a) × (f a e ≡ (ok b, d'))
  continue_cases (ok a) e f h = (a, refl, h)
  continue_cases (err x) e f h = ground arith

  -- A success of a sequence is one of both parts.
  pub exec_cases :
      (m : Exec p A) (f : A → Exec p B) (d : Disk p) {b : B} {d' : Disk p}
      → (m >>= f) d ≡ (ok b, d')
      → (a : A) × (e : Disk p) × (m d ≡ (ok a, e)) × (f a e ≡ (ok b, d'))
  exec_cases m f d h =
      let (a, q, k) = continue_cases (m d).0 (m d).1 f h in
      (a, (m d).1, ap (λ r. (r, (m d).1)) q, k)

  pub lift_cases :
      (r : Result InsightError A) (f : A → Exec p B) (d : Disk p) {b : B} {d' : Disk p}
      → (lift r >>= f) d ≡ (ok b, d')
      → (a : A) × (r ≡ ok a) × (f a d ≡ (ok b, d'))
  lift_cases (ok a) f d h = (a, refl, h)
  lift_cases (err x) f d h = ground arith

module _ {p : Platform} {A : Type 0} where
  pub if_cases :
      (b : Bool) (m k : Exec p A) (d : Disk p) {r : Result InsightError A × Disk p}
      → (if b then m else k) d ≡ r
      → ((b ≡ true) × (m d ≡ r)) ⊎ ((b ≡ false) × (k d ≡ r))
  if_cases true m k d h = inl (refl, h)
  if_cases false m k d h = inr (refl, h)

  -- A state that was read and returned is read again.
  pub read_return :
      (now : Text) (s : InsightTriggerState p) (a b : A) (d d' : Disk p)
      → read_state p now d ≡ (ok s, d)
      → pure a d ≡ (ok b, d')
      → (a ≡ b) × (read_state p now d' ≡ (ok s, d'))
  read_return now s a b d d' h k = (
    ok_injective (ap (λ r. r.0) k),
    subst (λ x. read_state p now x ≡ (ok s, x)) (ap (λ r. r.1) k) h,
  )

module _ (p : Platform) where
  pub operation_id-same : (t : Text) → {u : Text} → operation_id p t ≡ ok u → u ≡ t
  unfolding operation_id
  operation_id-same t h = ground arith

  -- The file has the text of a state, which passes `_validate_state`.
  abbrev pub Holds : InsightTriggerState p → Disk p → Type 0
  Holds s d = (d.file ≡ file_text (some (state_json p s))) × (validate_state p s ≡ ok tt)

  pub written :
      (s : InsightTriggerState p) (d : Disk p) {d' : Disk p} {u : Unit {0}}
      → write_state p s d ≡ (ok u, d')
      → Holds s d'
  unfolding write_state
  written s d {d'} {u} h = go (validate_state p s) refl h
    where
      go :
          (r : Result InsightError (Unit {0}))
          → validate_state p s ≡ r
          → elim r as (λ _. Result InsightError (Unit {0}) × Disk p) [
            | err e ↦ (err e, d)
            | ok v ↦ (ok tt, record d { file = file_text (some (state_json p s)) })
          ]
            ≡ (ok u, d')
          → Holds s d'
      go (err e) q k = ground arith
      go (ok v) q k = (sym (ap (λ r. r.1.file) k), q)

  read_held :
      (now : Text) (s : InsightTriggerState p) (f : StateFile p) (d : Disk p)
      → f ≡ file_text (some (state_json p s))
      → validate_state p s ≡ ok tt
      → read_file p f now d ≡ (ok s, d)
  unfolding read_file state_or_recovered state_of
  read_held now s f d h v = rw (h, state_from_json-state_json p s v)

  pub read_written :
      (now : Text) (s : InsightTriggerState p) (d : Disk p)
      → Holds s d
      → read_state p now d ≡ (ok s, d)
  unfolding read_state
  read_written now s d (q, v) = read_held now s d.file d q v

  -- What a write and the return of what was written leave.
  pub write_cases :
      {A : Type 0} (t : InsightTriggerState p) (a : A) (d : Disk p) {b : A} {d' : Disk p}
      → (write_state p t >> pure a) d ≡ (ok b, d')
      → (b ≡ a) × Holds t d'
  write_cases t a d {b} {d'} h =
      let (u, e, q, k) = exec_cases (write_state p t) (λ _. pure a) d h in
      let b_eq : b ≡ a = ok_injective (sym (ap (λ r. r.0) k)) in
      let d_eq : e ≡ d' = ap (λ r. r.1) k in (b_eq, subst (Holds t) d_eq (written t d q))

  -- A successful `apply_once` leaves a file with the receipt.
  apply_once_receipt :
      (id : Text) (amount : p.Number) (now : Text) (t : InsightTriggerState p) (d : Disk p)
      → {s : InsightTriggerState p} {d' : Disk p} → apply_once p id amount now t d ≡ (ok s, d')
      → Holds s d' × (text_in id s.applied_operation_ids ≡ true)
  unfolding apply_once
  apply_once_receipt id amount now t d {s} {d'} h =
      let (u, q, k) =
        lift_cases (require (p.is_finite (p.add t.points amount)) (value_error "points")) _ d h in
      let (s_eq, f_eq) = write_cases _ _ d k in
      (
        subst (λ x. Holds x d') (sym s_eq) f_eq,
        subst (λ x. text_in id x.applied_operation_ids ≡ true) (sym s_eq)
            (text_in-snoc id t.applied_operation_ids),
      )

  text_again :
      (now now' : Text) (d : Disk p) (v : Option Json)
      → d.file ≡ file_text v
      → (r : Result InsightError (InsightTriggerState p)) → state_of p v ≡ r
      → {s : InsightTriggerState p} {d' : Disk p} → state_or_recovered p r now d ≡ (ok s, d')
      → read_state p now' d' ≡ (ok s, d')
  unfolding read_state read_file state_or_recovered recover
  text_again now now' d v q (ok t) q' {s} {d'} h =
      let s_eq : t ≡ s = ok_injective (ap (λ r. r.0) h) in
      let d_eq : d ≡ d' = ap (λ r. r.1) h in
      subst (λ x. read_state p now' x ≡ (ok s, x)) d_eq (rw (q, q', s_eq))
  text_again now now' d v q (err e) q' {s} {d'} h =
      let (s_eq, f_eq) = write_cases _ _ _ h in
      read_written now' s d' (subst (λ x. Holds x d') (sym s_eq) f_eq)

  -- A state that was read is read again.
  pub read_again :
      (now now' : Text) (d : Disk p) (f : StateFile p) {s : InsightTriggerState p} {d' : Disk p}
      → d.file ≡ f
      → read_file p f now d ≡ (ok s, d')
      → read_state p now' d' ≡ (ok s, d')
  unfolding read_state read_file recover
  read_again now now' d no_file {s} {d'} q h =
      let s_eq : initial p ≡ s = ok_injective (ap (λ r. r.0) h) in
      let d_eq : d ≡ d' = ap (λ r. r.1) h in
      subst (λ x. read_state p now' x ≡ (ok s, x)) d_eq (rw (q, s_eq))
  read_again now now' d (file_text v) q h = text_again now now' d v q (state_of p v) refl h

  increment_once-settled :
      (id : Text) (points : p.Number) (now : Text) (d : Disk p)
      → {s : InsightTriggerState p} {n : p.Number} → operation_id p id ≡ ok id
      → positive_finite p points "points" ≡ ok n
      → read_state p now d ≡ (ok s, d)
      → text_in id s.applied_operation_ids ≡ true
      → increment_once p id points now d ≡ (ok s, d)
  unfolding increment_once
  increment_once-settled id points now d hid hn hr hin = rw (hid, hn, hr, hin)

  -- `increment_once` after its checks and the read.
  once_leaves :
      (id : Text) (amount : p.Number) (now now' : Text) (t : InsightTriggerState p) (e : Disk p)
      → {s : InsightTriggerState p} {d' : Disk p} → read_state p now' e ≡ (ok t, e)
      → (if text_in id t.applied_operation_ids then pure t else apply_once p id amount now t) e
        ≡ (ok s, d')
      → (read_state p now' d' ≡ (ok s, d')) × (text_in id s.applied_operation_ids ≡ true)
  once_leaves id amount now now' t e {s} {d'} again h =
      elim (if_cases (text_in id t.applied_operation_ids) _ _ e h) [
        | inl (y, k) ↦
            let (s_eq, r) = read_return now' t t s e d' again k in
            (
              r ∙ ap (λ x. (ok x, d')) s_eq,
              subst (λ x. text_in id x.applied_operation_ids ≡ true) s_eq y,
            )
        | inr (y, k) ↦
            let (f_eq, i_eq) = apply_once_receipt id amount now t e k in
            (read_written now' s d' f_eq, i_eq)
      ]

  -- For every success of `increment_once`: the same identifier again, with any amount that is valid
  -- and at any time, returns the same state and leaves the same file, so the points are added once.
  pub increment_once-increment_once :
      (id : Text) (points points' : p.Number) (now now' : Text) (d : Disk p)
      → {s : InsightTriggerState p} {d' : Disk p} {n : p.Number}
      → increment_once p id points now d ≡ (ok s, d')
      → positive_finite p points' "points" ≡ ok n
      → increment_once p id points' now' d' ≡ (ok s, d')
  unfolding increment_once read_state
  increment_once-increment_once id points points' now now' d {s} {d'} h hn =
      let (clean, q1, k1) = lift_cases (operation_id p id) _ d h in
      let (amount, q2, k2) = lift_cases (positive_finite p points "points") _ d k1 in
      let (t, e, q3, k3) = exec_cases (read_state p now) _ d k2 in
      let id_eq : clean ≡ id = operation_id-same id q1 in
      let again : read_state p now' e ≡ (ok t, e) = read_again now now' d d.file refl q3 in
      let (r, i) = once_leaves clean amount now now' t e again k3 in
      increment_once-settled id points' now' d' (q1 ∙ ap ok id_eq) hn r
        (subst (λ x. text_in x s.applied_operation_ids ≡ true) id_eq i)
