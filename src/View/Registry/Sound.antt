-- ===== src/View/Registry/Sound.antt =====
-- What `load_connections` of rightmemory/shared_view_models.py returns is valid, and can be saved.
use mathlib.Core.Path.{subst}
use right_memory.Common.{
  ◌≡◌, refl, sym, ◌∙◌, true, some, List, [], ◌∷◌, ◌++◌, codes, map, Text, text_eq, text_eq_iff,
  text_in, text_in-sorted_set, All, sorted_set, Result, ok, require, >>=-eq-ok, ok_injective, ◌>>=◌,
  Bool-cases, inl, inr, arith,
}
use right_memory.Common.Toml.{file_text}
use right_memory.Share.Fields.{Value}
use right_memory.View.Models.{
  ViewError, SharedViewConnection, validate_heading_id, validate_connection, key_mismatch,
  unknown_view_type, unknown_relationship, check_target, view_types, relationships,
}
use right_memory.View.Registry.{
  Connections, RawConnection, connection_not_table, connection_table, view_required_string,
  load_target, load_connection, put_connection, load_connections,
}
use right_memory.View.Save.{
  connection_at, append_connection, connection_lines, registry_lines, save_connections,
}

validate_connection-same :
    (key : Text) (c : SharedViewConnection) {c' : SharedViewConnection}
    → validate_connection key c ≡ ok c'
    → c ≡ c'
unfolding validate_connection
validate_connection-same key c h =
    let (id, e₁, k₁) = >>=-eq-ok (validate_heading_id c.heading_id) _ h in
    let (u₂, e₂, k₂) = >>=-eq-ok (require (text_eq key id) key_mismatch) _ k₁ in
    let (u₃, e₃, k₃) =
      >>=-eq-ok (require (text_in c.view_type view_types) unknown_view_type) _ k₂ in
    let (u₄, e₄, k₄) =
      >>=-eq-ok (require (text_in c.relationship relationships) unknown_relationship) _ k₃ in
    let (u₅, e₅, k₅) = >>=-eq-ok (check_target c.view_type c.target) _ k₄ in ok_injective k₅

-- Every connection that the program returns is valid under the key.
IsValidFor : Text → Result ViewError SharedViewConnection → Type 0
IsValidFor key r = (c : SharedViewConnection) → r ≡ ok c → validate_connection key c ≡ ok c

bind-IsValidFor :
    {A : Type 0} (key : Text) (m : Result ViewError A)
    (f : A → Result ViewError SharedViewConnection)
    → ((a : A) → IsValidFor key (f a))
    → IsValidFor key (m >>= f)
unfolding IsValidFor
bind-IsValidFor key m f hf c h = let (a, e, k) = >>=-eq-ok m f h in hf a c k

validate_connection-IsValidFor :
    (key : Text) (c : SharedViewConnection) → IsValidFor key (validate_connection key c)
unfolding IsValidFor
validate_connection-IsValidFor key c c' h =
    subst (λ x. validate_connection key x ≡ ok c') (validate_connection-same key c h) h

load_connection-IsValidFor :
    (to_text : Value → Text) (key : Text) (raw : RawConnection)
    → IsValidFor key (load_connection to_text key raw)
unfolding IsValidFor load_connection
load_connection-IsValidFor to_text key connection_not_table = λ c h. ground arith
load_connection-IsValidFor to_text key (connection_table t raw_target) =
    bind-IsValidFor key (view_required_string t "type") _ λ view_type.
      bind-IsValidFor key (view_required_string t "ref") _ λ ref.
        bind-IsValidFor key (load_target to_text raw_target) _
          λ target. validate_connection-IsValidFor key _

-- Each connection is valid under its key.
unfoldable pub AreValid : Connections → Type 0
AreValid cs = All (λ e. validate_connection e.0 e.1 ≡ ok e.1) cs

put_connection-AreValid :
    (key : Text) (c : SharedViewConnection) (cs : Connections)
    → validate_connection key c ≡ ok c
    → AreValid cs
    → AreValid (put_connection key c cs)
unfolding AreValid put_connection
put_connection-AreValid key c [] h v = (h, tt)
put_connection-AreValid key c ((k, old) ∷ cs) h v = elim (Bool-cases (text_eq k key)) [
  | inl e ↦
      rw e (subst (λ x. validate_connection x c ≡ ok c) (sym ((text_eq_iff k key).0 e)) h, v.1)
  | inr e ↦ rw e (v.0, put_connection-AreValid key c cs h v.1)
]

load_connections-AreValid :
    (to_text : Value → Text) (raws : List (Text × RawConnection)) (found : Connections)
    → AreValid found
    → {cs : Connections} → load_connections to_text raws found ≡ ok cs
    → AreValid cs
unfolding load_connections IsValidFor
load_connections-AreValid to_text [] found v h = subst AreValid (ok_injective h) v
load_connections-AreValid to_text ((raw_id, raw) ∷ raws) found v h =
    let (id, e₁, k₁) = >>=-eq-ok (validate_heading_id raw_id) _ h in
    let (c, e₂, k₂) = >>=-eq-ok (load_connection to_text id raw) _ k₁ in
    load_connections-AreValid to_text raws (put_connection id c found)
      (put_connection-AreValid id c found (load_connection-IsValidFor to_text id raw c e₂) v) k₂

connection_at-valid :
    (id : Text) (cs : Connections)
    → AreValid cs
    → text_in id (map (λ e. e.0) cs) ≡ true
    → (c : SharedViewConnection) × (connection_at id cs ≡ some c)
      × (validate_connection id c ≡ ok c)
unfolding AreValid connection_at
connection_at-valid id [] v h = ground arith
connection_at-valid id ((k, c) ∷ cs) v h = elim (Bool-cases (text_eq k id)) [
  | inl e ↦ (c, rw e refl, subst (λ x. validate_connection x c ≡ ok c) ((text_eq_iff k id).0 e) v.0)
  | inr e ↦
      let (c', q, w) =
        connection_at-valid id cs v.1 (ground (arith, text_eq_iff k id, text_eq_iff id k)) in
      (c', rw e q, w)
]

module _ (render : Text → Text) where
  registry_lines_step :
      (id : Text) (ids : List Text) (cs : Connections) (c : SharedViewConnection)
      (lines : List Text)
      → connection_at id cs ≡ some c
      → validate_connection id c ≡ ok c
      → registry_lines render ids cs ≡ ok lines
      → registry_lines render (id ∷ ids) cs ≡ ok (connection_lines render id c ++ lines)
  unfolding registry_lines append_connection
  registry_lines_step id ids cs c lines q w r = rw (q, w, r)

  registry_lines-total :
      (ids : List Text) (cs : Connections)
      → AreValid cs
      → ((id : Text) → text_in id ids ≡ true → text_in id (map (λ e. e.0) cs) ≡ true)
      → (lines : List Text) × (registry_lines render ids cs ≡ ok lines)
  unfolding registry_lines
  registry_lines-total [] cs v h = ([], refl)
  registry_lines-total (id ∷ ids) cs v h =
      let (c, q, w) = connection_at-valid id cs v (h id (ground (arith, text_eq_iff id id))) in
      let (lines, r) = registry_lines-total ids cs v (λ i m. h i (ground arith)) in
      (connection_lines render id c ++ lines, registry_lines_step id ids cs c lines q w r)

  -- A registry that was loaded is valid and is saved without an error.
  pub save_connections-load_connections :
      (to_text : Value → Text) (raws : List (Text × RawConnection)) {cs : Connections}
      → load_connections to_text raws [] ≡ ok cs
      → AreValid cs × ((content : Text) × (save_connections render cs ≡ ok content))
  unfolding AreValid save_connections
  save_connections-load_connections to_text raws {cs} h =
      let v = load_connections-AreValid to_text raws [] tt h in
      let (lines, r) =
        registry_lines-total (sorted_set (map (λ e. e.0) cs)) cs v
          (λ id m. sym (text_in-sorted_set id (map (λ e. e.0) cs)) ∙ m) in
      (v, (file_text (codes "# RightMemory shared view registry" ∷ [] ∷ lines), rw r refl))
