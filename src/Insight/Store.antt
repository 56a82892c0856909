-- ===== src/Insight/Store.antt =====
-- `InsightTriggerStore` of rightmemory/insight_trigger.py. A call reads the clock once here, `now`, and
-- takes the `uuid` that it may use, `fresh`; what it writes is written before a later raise. The
-- `.gitignore` that `_locked` ensures is left out.
pub mod Laws
pub mod Claims
pub mod Keeps
use right_memory.Common.{
  ℕ, suc, String, Bool, true, false, not, ◌&&◌, Option, none, some, List, [], ◌∷◌, ◌++◌, Text,
  codes, text_eq, text_in, if◌then◌else◌, Result, ok, err, require,
}
use right_memory.Insight.{
  Platform, InsightError, value_error, runtime_error, InsightTriggerState, initial, positive_finite,
  operation_id, optional_result, validate_state, state_json, state_of, StateFile, no_file,
  file_text, Disk, Exec,
}

module _ {p : Platform} {A B : Type 0} where
  abbrev pub continue : Result InsightError A → (A → Exec p B) → Exec p B
  continue (ok a) f d = f a d
  continue (err e) f d = (err e, d)

  infixl 5 ◌>>=◌ ◌>>◌
  abbrev pub ◌>>=◌ : Exec p A → (A → Exec p B) → Exec p B
  ◌>>=◌ m f d = let (r, d') = m d in continue r f d'

  abbrev pub ◌>>◌ : Exec p A → Exec p B → Exec p B
  m >> k = m >>= λ _. k

module _ {p : Platform} {A : Type 0} where
  abbrev pub pure : A → Exec p A
  pure a d = (ok a, d)

  abbrev pub lift : Result InsightError A → Exec p A
  lift r d = (r, d)

module _ (p : Platform) where
  open p use {Number, zero_points, add, sub, less, is_finite, is_zero}

  -- `_write_locked`: `json.dumps` writes a finite number only, and the state was validated before.
  unfoldable pub write_state : InsightTriggerState p → Exec p (Unit {0})
  write_state s d = elim (validate_state p s) [
    | err e ↦ (err e, d)
    | ok u ↦ (ok tt, record d { file = file_text (some (state_json p s)) })
  ]

  -- `_recover_locked`: the corrupt file is moved aside, and an empty balance takes its place.
  unfoldable pub recover : Text → Exec p (InsightTriggerState p)
  unfolding write_state
  recover now d =
      let s : InsightTriggerState p = record (initial p) { last_recovery_at = some now } in
      (write_state s >> pure s) (record d { file = no_file; backups = suc d.backups })

  state_or_recovered :
      Result InsightError (InsightTriggerState p) → Text → Exec p (InsightTriggerState p)
  unfolding recover
  state_or_recovered (ok s) now = pure s
  state_or_recovered (err e) now = recover now

  unfoldable pub read_file : StateFile p → Text → Exec p (InsightTriggerState p)
  unfolding state_or_recovered
  read_file no_file now = pure (initial p)
  read_file (file_text v) now = state_or_recovered (state_of p v) now

  -- `_read_locked`
  unfoldable pub read_state : Text → Exec p (InsightTriggerState p)
  unfolding read_file
  read_state now d = read_file d.file now d

  unfoldable pub increment : Number → Text → Exec p (InsightTriggerState p)
  increment points now = do
    amount ← lift (positive_finite p points "points")
    state ← read_state now
    let next = add state.points amount
    lift (require (is_finite next) (value_error "points"))
    let s : InsightTriggerState p = record state { points = next; updated_at = some now }
    write_state s
    pure s

  -- The part of `increment_once` after the test of the receipt.
  unfoldable pub apply_once :
      Text → Number → Text → InsightTriggerState p → Exec p (InsightTriggerState p)
  apply_once id amount now state = do
    let next = add state.points amount
    lift (require (is_finite next) (value_error "points"))
    let s : InsightTriggerState p = record state {
      points = next;
      updated_at = some now;
      applied_operation_ids = state.applied_operation_ids ++ id ∷ [];
    }
    write_state s
    pure s

  unfoldable pub increment_once : Text → Number → Text → Exec p (InsightTriggerState p)
  increment_once id points now = do
    clean ← lift (operation_id p id)
    amount ← lift (positive_finite p points "points")
    state ← read_state now
    if text_in clean state.applied_operation_ids
        then pure state
        else apply_once clean amount now state

  unfoldable pub remove_id : Text → List Text → List Text
  remove_id id [] = []
  remove_id id (t ∷ ts) = let rest = remove_id id ts in if text_eq t id then rest else t ∷ rest

  unfoldable pub forget_operation : Text → Text → Exec p (Unit {0})
  forget_operation id now = do
    clean ← lift (operation_id p id)
    state ← read_state now
    if text_in clean state.applied_operation_ids
        then write_state
            (record state { applied_operation_ids = remove_id clean state.applied_operation_ids })
        else pure tt

  -- The balance after a success, with the time and the result of the insight.
  abbrev pub spend : InsightTriggerState p → Number → Text → Option Text → InsightTriggerState p
  spend state amount now result = record state {
    points = sub state.points amount;
    updated_at = some now;
    last_successful_insight_at = some now;
    last_successful_insight_result = result;
  }

  unfoldable pub consume_if_available : Number → Option Text → Text → Exec p Bool
  consume_if_available threshold result now = do
    amount ← lift (positive_finite p threshold "threshold")
    clean ← lift (optional_result p result)
    state ← read_state now
    if less state.points amount
        then pure false
        else write_state (spend state amount now clean) >> pure true

  -- `claim_operation` where an operation is active: a claim from before amounts were kept gets one.
  unfoldable pub claim_active :
      Text → Option Number → Number → Text → InsightTriggerState p → Exec p (Option Text)
  claim_active id (some points) amount now state = pure (some id)
  claim_active id none amount now state =
      write_state (record state { active_operation_points = some amount; updated_at = some now })
      >> pure (some id)

  -- Where none is active
  unfoldable pub claim_new : Number → Text → Text → InsightTriggerState p → Exec p (Option Text)
  claim_new amount now fresh state =
      if less state.points amount
      then pure none
      else write_state (record state {
        active_operation_id = some (codes "insight-watch-" ++ fresh);
        active_operation_points = some amount;
        updated_at = some now;
      })
        >> pure (some (codes "insight-watch-" ++ fresh))

  unfoldable pub claim_operation : Number → Text → Text → Exec p (Option Text)
  unfolding claim_active claim_new
  claim_operation threshold now fresh = do
    amount ← lift (positive_finite p threshold "threshold")
    state ← read_state now
    elim state.active_operation_id [
      | some id ↦ claim_active id state.active_operation_points amount now state
      | none ↦ claim_new amount now fresh state
    ]

  -- `state.active_operation_points or fallback_amount`
  unfoldable pub claimed_amount : Option Number → Number → Number
  claimed_amount none fallback = fallback
  claimed_amount (some n) fallback = if is_zero n then fallback else n

  -- `state.active_operation_id != operation_id`
  unfoldable pub is_active : Option Text → Text → Bool
  is_active none id = false
  is_active (some active) id = text_eq active id

  -- `complete_operation` after its checks and the read.
  unfoldable pub complete_read :
      Text → Number → Option Text → Text → InsightTriggerState p → Exec p Bool
  complete_read id fallback result now state =
      if not (is_active state.active_operation_id id) then pure false else do
        let amount = claimed_amount state.active_operation_points fallback
        lift (require (not (less state.points amount)) runtime_error)
        write_state (record (spend state amount now result) {
          active_operation_id = none;
          active_operation_points = none;
        })
        pure true

  unfoldable pub complete_operation : Text → Number → Option Text → Text → Exec p Bool
  unfolding complete_read
  complete_operation id threshold result now = do
    clean ← lift (operation_id p id)
    fallback ← lift (positive_finite p threshold "threshold")
    clean_result ← lift (optional_result p result)
    state ← read_state now
    complete_read clean fallback clean_result now state
