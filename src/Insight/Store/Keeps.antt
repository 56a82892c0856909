-- ===== src/Insight/Store/Keeps.antt =====
-- Every operation of `InsightTriggerStore` of rightmemory/insight_trigger.py keeps the state file
-- readable.
use right_memory.Common.{
  ℕ, ◌≡◌, refl, sym, Bool, true, false, not, Option, none, some, Text, text_in, if◌then◌else◌,
  Result, ok, err,
}
use mathlib.Core.Path.{subst}
use right_memory.Common.Json.{Json}
use right_memory.Insight.{
  Platform, InsightError, InsightTriggerState, positive_finite, operation_id, optional_result,
  validate_state, state_json, state_of, StateFile, no_file, file_text, Disk, Exec,
}
use right_memory.Insight.Sound.{state_from_json-state_json}
use right_memory.Insight.Store.{
  continue, ◌>>=◌, ◌>>◌, pure, lift, write_state, state_or_recovered, read_file, read_state,
  increment, apply_once, increment_once, forget_operation, consume_if_available, claim_active,
  claim_new, claim_operation, is_active, complete_read, complete_operation, spend,
}

module _ (p : Platform) where
  -- A file that is missing, or has a text that `_state_from_json` reads without an error.
  pub data IsReadable : StateFile p → Type 0 where
    none_readable : IsReadable no_file
    text_readable :
        (v : Option Json) (s : InsightTriggerState p)
        → state_of p v ≡ ok s
        → IsReadable (file_text v)

  -- The file is readable, and that many files were moved aside so far.
  Fine : ℕ → Disk p → Type 0
  Fine b d = IsReadable d.file × (d.backups ≡ b)

  -- The program leaves a readable file readable and moves none aside, whether it returns or raises.
  Keeps : {A : Type 0} → Exec p A → Type 0
  Keeps m = (b : ℕ) (d : Disk p) → Fine b d → Fine b (m d).1

  pure-Keeps : {A : Type 0} (a : A) → Keeps (pure a)
  unfolding Keeps
  pure-Keeps a b d v = v

  bind-Keeps :
      {A B : Type 0} (m : Exec p A) (f : A → Exec p B)
      → Keeps m
      → ((a : A) → Keeps (f a))
      → Keeps (m >>= f)
  unfolding Keeps
  bind-Keeps {A} {B} m f hm hf b d v = go (m d).0 (m d).1 (hm b d v)
    where
      go : (r : Result InsightError A) (e : Disk p) → Fine b e → Fine b (continue {B = B} r f e).1
      go (ok a) e w = hf a b e w
      go (err x) e w = w

  lift-Keeps :
      {A B : Type 0} (r : Result InsightError A) (f : A → Exec p B)
      → ((a : A) → Keeps (f a))
      → Keeps (lift r >>= f)
  unfolding Keeps
  lift-Keeps r f hf = bind-Keeps (lift r) f (λ b d v. v) hf

  if-Keeps :
      {A : Type 0} (b : Bool) (m k : Exec p A) → Keeps m → Keeps k → Keeps (if b then m else k)
  unfolding Keeps
  if-Keeps true m k hm hk = hm
  if-Keeps false m k hm hk = hk

  write_state-Keeps : (s : InsightTriggerState p) → Keeps (write_state p s)
  unfolding Keeps write_state Fine state_of
  write_state-Keeps s b d v = go (validate_state p s) refl
    where
      go :
          (r : Result InsightError (Unit {0}))
          → validate_state p s ≡ r
          → Fine b
              (elim r as (λ _. Result InsightError (Unit {0}) × Disk p) [
                | err e ↦ (err e, d)
                | ok u ↦ (ok tt, record d { file = file_text (some (state_json p s)) })
              ]).1
      go (err x) q = v
      go (ok tt) q = (text_readable _ s (state_from_json-state_json p s q), v.1)

  written-Keeps :
      {A : Type 0} (s : InsightTriggerState p) (a : A) → Keeps (write_state p s >> pure a)
  written-Keeps s a =
      bind-Keeps (write_state p s) (λ _. pure a) (write_state-Keeps s) (λ _. pure-Keeps a)

  text-Keeps :
      (now : Text) (b : ℕ) (d : Disk p) (v : Option Json)
      → IsReadable (file_text v)
      → Fine b d
      → Fine b (state_or_recovered p (state_of p v) now d).1
  unfolding state_or_recovered
  text-Keeps now b d v (text_readable x s q) w =
      subst (λ r. Fine b (state_or_recovered p r now d).1) (sym q) w

  read_state-Keeps : (now : Text) → Keeps (read_state p now)
  unfolding Keeps read_state read_file Fine
  read_state-Keeps now b d v = go d.file v.0
    where
      go : (f : StateFile p) → IsReadable f → Fine b (read_file p f now d).1
      go no_file w = v
      go (file_text x) w = text-Keeps now b d x w v

  increment-Keeps : (points : p.Number) (now : Text) → Keeps (increment p points now)
  unfolding increment
  increment-Keeps points now =
      lift-Keeps _ _ λ amount.
        bind-Keeps _ _ (read_state-Keeps now) λ state. lift-Keeps _ _ λ _. written-Keeps _ _

  apply_once-Keeps :
      (id : Text) (amount : p.Number) (now : Text) (s : InsightTriggerState p)
      → Keeps (apply_once p id amount now s)
  unfolding apply_once
  apply_once-Keeps id amount now s = lift-Keeps _ _ λ _. written-Keeps _ _

  increment_once-Keeps :
      (id : Text) (points : p.Number) (now : Text) → Keeps (increment_once p id points now)
  unfolding increment_once
  increment_once-Keeps id points now = lift-Keeps (operation_id p id) _ λ clean.
      lift-Keeps (positive_finite p points "points") _ λ amount.
        bind-Keeps _ _ (read_state-Keeps now) λ state.
          if-Keeps (text_in clean state.applied_operation_ids) _ _ (pure-Keeps state)
            (apply_once-Keeps clean amount now state)

  forget_operation-Keeps : (id : Text) (now : Text) → Keeps (forget_operation p id now)
  unfolding forget_operation
  forget_operation-Keeps id now = lift-Keeps (operation_id p id) _ λ clean.
      bind-Keeps _ _ (read_state-Keeps now) λ state.
        if-Keeps (text_in clean state.applied_operation_ids) _ _ (write_state-Keeps _)
          (pure-Keeps tt)

  consume-Keeps :
      (threshold : p.Number) (result : Option Text) (now : Text)
      → Keeps (consume_if_available p threshold result now)
  unfolding consume_if_available
  consume-Keeps threshold result now =
      lift-Keeps (positive_finite p threshold "threshold") _ λ amount.
        lift-Keeps (optional_result p result) _ λ clean.
          bind-Keeps _ _ (read_state-Keeps now) λ state.
            if-Keeps (p.less state.points amount) _ _ (pure-Keeps false)
              (written-Keeps (spend p state amount now clean) true)

  claim_at-Keeps :
      (amount : p.Number) (now fresh : Text) (s : InsightTriggerState p) (active : Option Text)
      → Keeps (elim active as (λ _. Exec p (Option Text)) [
        | some id ↦ claim_active p id s.active_operation_points amount now s
        | none ↦ claim_new p amount now fresh s
      ])
  unfolding claim_new claim_active
  claim_at-Keeps amount now fresh s none =
      if-Keeps (p.less s.points amount) _ _ (pure-Keeps none) (written-Keeps _ _)
  claim_at-Keeps amount now fresh s (some id) = go s.active_operation_points
    where
      go : (points : Option p.Number) → Keeps (claim_active p id points amount now s)
      go (some n) = pure-Keeps (some id)
      go none = written-Keeps _ _

  claim_operation-Keeps :
      (threshold : p.Number) (now fresh : Text) → Keeps (claim_operation p threshold now fresh)
  unfolding claim_operation
  claim_operation-Keeps threshold now fresh =
      lift-Keeps (positive_finite p threshold "threshold") _ λ amount.
        bind-Keeps _ _ (read_state-Keeps now)
          λ state. claim_at-Keeps amount now fresh state state.active_operation_id

  complete_read-Keeps :
      (id : Text) (fallback : p.Number) (result : Option Text) (now : Text)
      (s : InsightTriggerState p)
      → Keeps (complete_read p id fallback result now s)
  unfolding complete_read
  complete_read-Keeps id fallback result now s =
      if-Keeps (not (is_active p s.active_operation_id id)) _ _ (pure-Keeps false)
        (lift-Keeps _ _ λ _. written-Keeps _ true)

  complete_operation-Keeps :
      (id : Text) (threshold : p.Number) (result : Option Text) (now : Text)
      → Keeps (complete_operation p id threshold result now)
  unfolding complete_operation
  complete_operation-Keeps id threshold result now = lift-Keeps (operation_id p id) _ λ clean.
      lift-Keeps (positive_finite p threshold "threshold") _ λ fallback.
        lift-Keeps (optional_result p result) _ λ clean_result.
          bind-Keeps _ _ (read_state-Keeps now)
            λ state. complete_read-Keeps clean fallback clean_result now state

  -- One call of a public method, whatever it returns or raises.
  pub data Step : Disk p → Disk p → Type 0 where
    load_step : (now : Text) (d : Disk p) → Step d (read_state p now d).1
    increment_step :
        (points : p.Number) (now : Text) (d : Disk p) → Step d (increment p points now d).1
    increment_once_step :
        (id : Text) (points : p.Number) (now : Text) (d : Disk p)
        → Step d (increment_once p id points now d).1
    forget_step : (id now : Text) (d : Disk p) → Step d (forget_operation p id now d).1
    consume_step :
        (threshold : p.Number) (result : Option Text) (now : Text) (d : Disk p)
        → Step d (consume_if_available p threshold result now d).1
    claim_step :
        (threshold : p.Number) (now fresh : Text) (d : Disk p)
        → Step d (claim_operation p threshold now fresh d).1
    complete_step :
        (id : Text) (threshold : p.Number) (result : Option Text) (now : Text) (d : Disk p)
        → Step d (complete_operation p id threshold result now d).1

  -- The disks after a sequence of calls on the disk `start`
  pub data Reach (start : Disk p) : Disk p → Type 0 where
    reach_start : Reach start start
    reach_step :
        {before after : Disk p} → Step before after → Reach start before → Reach start after

  Step-Fine : (b : ℕ) {d e : Disk p} → Step d e → Fine b d → Fine b e
  unfolding Keeps
  Step-Fine b (load_step now d) v = read_state-Keeps now b d v
  Step-Fine b (increment_step points now d) v = increment-Keeps points now b d v
  Step-Fine b (increment_once_step id points now d) v = increment_once-Keeps id points now b d v
  Step-Fine b (forget_step id now d) v = forget_operation-Keeps id now b d v
  Step-Fine b (consume_step threshold result now d) v = consume-Keeps threshold result now b d v
  Step-Fine b (claim_step threshold now fresh d) v = claim_operation-Keeps threshold now fresh b d v
  Step-Fine b (complete_step id threshold result now d) v =
      complete_operation-Keeps id threshold result now b d v

  Reach-Fine : (b : ℕ) {d e : Disk p} → Reach d e → Fine b d → Fine b e
  Reach-Fine b reach_start v = v
  Reach-Fine b (reach_step s r) v = Step-Fine b s (Reach-Fine b r v)

  -- Where the state file is missing or is read without an error, so it is after any sequence of calls of the
  -- public methods, those that raise included, and none of these calls moves a file aside as corrupt.
  pub Reach-IsReadable :
      {start d : Disk p}
      → Reach start d
      → IsReadable start.file
      → IsReadable d.file × (d.backups ≡ start.backups)
  unfolding Fine
  Reach-IsReadable r v = Reach-Fine _ r (v, refl)
