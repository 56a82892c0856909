-- ===== src/UpdateQueue/Store/Publication.antt =====
-- The publication marker of rightmemory/update_queue.py: it is written once for a candidate, and
-- every later attempt resumes it.
use mathlib.Core.Path.{subst}
use right_memory.Common.{
  ok_injective, ◌≡◌, refl, sym, ◌∙◌, ap, Option, none, some, Text, text_eq, text_eq_iff,
  text_eq_refl, arith, ok, require, >>=-eq-ok, Option-cases, ◌⊎◌, inl, inr,
}
use right_memory.Common.Json.{Json}
use right_memory.UpdateQueue.Formats.{require_uid}
use right_memory.UpdateQueue.Formats.Hex.{require_uid_lem}
use right_memory.UpdateQueue.Records.{Platform, UpdateCandidate, PublicationMarker, new_marker}
use right_memory.UpdateQueue.Records.Sound.{new_marker_sound}
use right_memory.UpdateQueue.Codec.{parse_candidate, publication_json, parse_publication_marker}
use right_memory.UpdateQueue.Codec.RoundTrip.{parse_marker-publication_json}
use right_memory.UpdateQueue.Codec.Loads.{loads_json, load-marker_fields}
use right_memory.UpdateQueue.Disk.{
  Node, Folder, json_name, node_at, read_record, write_json, regular,
}
use right_memory.UpdateQueue.Disk.Laws.{node_at-write_json}
use right_memory.UpdateQueue.Store.{
  Store, read_at, named, read_outbox, candidate_sha256, read_publication_marker, present,
  choose_attempt, resume_publication, start_publication, begin_publication,
}

named-identity :
    {A : Type 0} (identity : A → Text) (uid : Text) (o : Option A) {a : A}
    → named identity uid o ≡ ok (some a)
    → identity a ≡ uid
unfolding named
named-identity identity uid none h = cc
named-identity identity uid (some r) h = ground (arith, text_eq_iff (identity r) uid)

module _ (p : Platform) where
  loads_written :
      (m : PublicationMarker) {value : Json}
      → publication_json p m ≡ ok value
      → loads_json (some value) ≡ ok value
  unfolding publication_json loads_json
  loads_written m h =
      let (v, checked, written) = >>=-eq-ok (new_marker p m) _ h in
      ground (arith, load-marker_fields v)

  -- What a write of the marker leaves is read as that marker.
  read_written :
      (f : Folder) (m : PublicationMarker) {value : Json}
      → publication_json p m ≡ ok value
      → node_at f (json_name m.candidate_uid) ≡ some (regular (some value))
      → read_at f m.candidate_uid (parse_publication_marker p) ≡ ok (some m)
  unfolding read_at read_record
  read_written f m h there = ground (arith, loads_written m h, parse_marker-publication_json p m h)

  new_marker-uid :
      (m : PublicationMarker) {m' : PublicationMarker}
      → new_marker p m ≡ ok m'
      → require_uid "candidate uid" m.candidate_uid ≡ ok m.candidate_uid
  unfolding new_marker
  new_marker-uid m h = ground (
    arith,
    require_uid_lem "candidate uid" m.candidate_uid,
    require_uid_lem "publication candidate_uid" m.candidate_uid,
  )

  pub stored_marker :
      (f : Folder) (m : PublicationMarker) {value : Json} {g : Folder}
      → publication_json p m ≡ ok value
      → write_json f (json_name m.candidate_uid) value ≡ ok g
      → read_at g m.candidate_uid (parse_publication_marker p) ≡ ok (some m)
  stored_marker f m {value} {g} json put = read_written g m json (
      node_at-write_json f (json_name m.candidate_uid) (json_name m.candidate_uid) value put
      ∙ rw (text_eq_refl (json_name m.candidate_uid)))

  pub read_publication_marker_lem :
      (m : PublicationMarker) (s : Store) {m' : PublicationMarker}
      → new_marker p m ≡ ok m'
      → read_at s.publication m.candidate_uid (parse_publication_marker p) ≡ ok (some m)
      → read_publication_marker p m.candidate_uid s ≡ ok (some m)
  unfolding read_publication_marker
  read_publication_marker_lem m s valid there =
      rw (new_marker-uid m valid, there, text_eq_refl m.candidate_uid)

  -- What a first attempt leaves: the marker is stored, holds the digest of its candidate, and is
  -- read back; nothing but the publication folder has changed.
  record Started (c : UpdateCandidate) (m : PublicationMarker) (s s' : Store) : Type 0 where
    uid : m.candidate_uid ≡ c.uid
    digest : candidate_sha256 p c ≡ ok m.candidate_sha256
    others : s' ≡ record s { publication = s'.publication }
    stored : read_publication_marker p c.uid s' ≡ ok (some m)
    taken : (node : Node) × (node_at s'.publication (json_name c.uid) ≡ some node)

  pub publication_json-valid :
      (m : PublicationMarker) {value : Json}
      → publication_json p m ≡ ok value
      → new_marker p m ≡ ok m
  unfolding publication_json
  publication_json-valid m h =
      let (v, checked, written) = >>=-eq-ok (new_marker p m) _ h in
      checked ∙ ap ok (new_marker_sound p m checked)

  Started-of :
      (c : UpdateCandidate) (m : PublicationMarker) (s : Store) {value : Json} {folder : Folder}
      → m.candidate_uid ≡ c.uid
      → candidate_sha256 p c ≡ ok m.candidate_sha256
      → publication_json p m ≡ ok value
      → write_json s.publication (json_name c.uid) value ≡ ok folder
      → Started c m s (record s { publication = folder })
  Started-of c m s {value} {folder} uid digest json put =
      let put' : write_json s.publication (json_name m.candidate_uid) value ≡ ok folder =
        rw uid put in
      record {
        uid = uid;
        digest = digest;
        others = refl;
        stored = rw (← uid) (
            read_publication_marker_lem m (record s { publication = folder })
              (publication_json-valid m json) (stored_marker s.publication m json put'));
        taken = (
          regular (some value),
          node_at-write_json s.publication (json_name c.uid) (json_name c.uid) value put
              ∙ rw (text_eq_refl (json_name c.uid)),
        );
      }

  start_publication-Started :
      (c : UpdateCandidate) (attempted_at attempt_id : Text) (s : Store) {m : PublicationMarker}
      {s' : Store}
      → start_publication p c attempted_at attempt_id s ≡ ok (m, s')
      → Started c m s s'
  unfolding start_publication
  start_publication-Started c attempted_at attempt_id s {m} {s'} h =
      let (digest, hashed, k₁) = >>=-eq-ok (candidate_sha256 p c) _ h in
      let (marker, checked, k₂) = >>=-eq-ok (new_marker p _) _ k₁ in
      let (value, json, k₃) = >>=-eq-ok (publication_json p marker) _ k₂ in
      let (folder, put, k₄) = >>=-eq-ok (write_json s.publication _ value) _ k₃ in
      let shape = new_marker_sound p _ checked in
      let uid = ap (λ (x : PublicationMarker). x.candidate_uid) shape in
      let same = ap (λ (x : PublicationMarker). x.candidate_sha256) shape in
      subst (λ (r : PublicationMarker × Store). Started c r.0 s r.1) (ok_injective k₄)
        (Started-of c marker s uid (hashed ∙ ap ok (sym same)) json put)

  -- Where a marker stands, an attempt returns it and writes nothing.
  resume_publication-Started :
      (c : UpdateCandidate) (m : PublicationMarker) (s s' : Store)
      → Started c m s s'
      → resume_publication p c s' ≡ ok (m, s')
  unfolding resume_publication
  resume_publication-Started c m s s' t = rw (t.stored, t.digest, text_eq_refl m.candidate_sha256)

  resume_publication_same :
      (c : UpdateCandidate) (s : Store) {m : PublicationMarker} {s' : Store}
      → resume_publication p c s ≡ ok (m, s')
      → s' ≡ s
  unfolding resume_publication
  resume_publication_same c s h =
      let (found, read, k₁) = >>=-eq-ok (read_publication_marker p c.uid s) _ h in
      let (marker, there, k₂) = >>=-eq-ok (present p found) _ k₁ in
      let (digest, hashed, k₃) = >>=-eq-ok (candidate_sha256 p c) _ k₂ in
      let (u, matched, k₄) = >>=-eq-ok (require (text_eq marker.candidate_sha256 digest) _) _ k₃ in
      sym (ap (λ (r : PublicationMarker × Store). r.1) (ok_injective k₄))

  resume_publication-marker :
      (c : UpdateCandidate) (s : Store) {m : PublicationMarker} {s' : Store}
      → resume_publication p c s ≡ ok (m, s')
      → read_publication_marker p c.uid s ≡ ok (some m)
  unfolding resume_publication
  resume_publication-marker c s {m} h =
      let (found, read, k₁) = >>=-eq-ok (read_publication_marker p c.uid s) _ h in
      let (marker, there, k₂) = >>=-eq-ok (present p found) _ k₁ in
      let (digest, hashed, k₃) = >>=-eq-ok (candidate_sha256 p c) _ k₂ in
      let (u, matched, k₄) = >>=-eq-ok (require (text_eq marker.candidate_sha256 digest) _) _ k₃ in
      let e : marker ≡ m = ap (λ (r : PublicationMarker × Store). r.0) (ok_injective k₄) in
      let e' : found ≡ some marker = ground arith in read ∙ ap ok (e' ∙ ap some e)

  begin_publication_resumes :
      (uid attempted_at : Text) (attempt_id : Option Text) (fresh : Text) (s : Store)
      {c : UpdateCandidate} {node : Node}
      → read_outbox p uid s ≡ ok (some c)
      → node_at s.publication (json_name c.uid) ≡ some node
      → begin_publication p uid attempted_at attempt_id fresh s ≡ resume_publication p c s
  unfolding begin_publication
  begin_publication_resumes uid attempted_at attempt_id fresh s found taken = ground arith

  -- The two ways in which an attempt succeeds, with the candidate that it publishes.
  begin_publication_cases :
      (uid attempted_at : Text) (attempt_id : Option Text) (fresh : Text) (s : Store)
      {m : PublicationMarker} {s' : Store}
      → begin_publication p uid attempted_at attempt_id fresh s ≡ ok (m, s')
      → (c : UpdateCandidate) × (read_outbox p uid s ≡ ok (some c))
        × (((node : Node) × (node_at s.publication (json_name c.uid) ≡ some node)
              × (resume_publication p c s ≡ ok (m, s')))
            ⊎ Started c m s s')
  unfolding begin_publication
  begin_publication_cases uid attempted_at attempt_id fresh s {m} {s'} h =
      let (found, read, k₁) = >>=-eq-ok (read_outbox p uid s) _ h in
      let (c, there, k₂) = >>=-eq-ok (present p found) _ k₁ in
      let e : found ≡ some c = ground arith in
      (
        c,
        read ∙ ap ok e,
        elim (Option-cases (node_at s.publication (json_name c.uid))) [
          | inl free ↦ inr (
              start_publication-Started c attempted_at (choose_attempt p attempt_id fresh) s
                (ground arith))
          | inr (node, taken) ↦ inl (node, taken, ground arith)
        ],
      )

  read_outbox-Started :
      (uid : Text) (c : UpdateCandidate) (m : PublicationMarker) (s s' : Store)
      → Started c m s s'
      → read_outbox p uid s' ≡ read_outbox p uid s
  unfolding read_outbox
  read_outbox-Started uid c m s s' t = rw (ap (λ (x : Store). x.outbox) t.others)

  -- A publication is begun once: after a successful attempt, a further attempt for the uid, whatever
  -- its time and attempt id, returns the same marker and leaves the store as it is.
  pub begin_publication_again :
      (uid attempted_at : Text) (attempt_id : Option Text) (fresh : Text) (s : Store)
      {m : PublicationMarker} {s' : Store}
      → begin_publication p uid attempted_at attempt_id fresh s ≡ ok (m, s')
      → (later : Text) (attempt_id' : Option Text) (fresh' : Text)
      → begin_publication p uid later attempt_id' fresh' s' ≡ ok (m, s')
  begin_publication_again uid attempted_at attempt_id fresh s {m} {s'} h later attempt_id' fresh' =
      let (c, read, way) = begin_publication_cases uid attempted_at attempt_id fresh s h in
      elim way [
        | inl (node, taken, resumed) ↦ rw (resume_publication_same c s resumed) (
            begin_publication_resumes uid later attempt_id' fresh' s read taken
            ∙ resumed
            ∙ ap (λ x. ok (m, x)) (resume_publication_same c s resumed))
        | inr t ↦
            begin_publication_resumes uid later attempt_id' fresh' s'
              (read_outbox-Started uid c m s s' t ∙ read) t.taken.1
            ∙ resume_publication-Started c m s s' t
      ]

  read_outbox-uid :
      (uid : Text) (s : Store) {c : UpdateCandidate}
      → read_outbox p uid s ≡ ok (some c)
      → (require_uid "candidate uid" uid ≡ ok uid) × (c.uid ≡ uid)
  unfolding read_outbox
  read_outbox-uid uid s {c} h =
      let (clean, checked, k) = >>=-eq-ok (require_uid "candidate uid" uid) _ h in
      let (found, read, k') = >>=-eq-ok (read_at s.outbox clean (parse_candidate p)) _ k in
      let e : clean ≡ uid = ground (arith, require_uid_lem "candidate uid" uid) in
      (checked ∙ ap ok e, named-identity (λ (x : UpdateCandidate). x.uid) clean found k' ∙ e)

  -- The marker that an attempt returns is the stored one.
  pub begin_publication_marker :
      (uid attempted_at : Text) (attempt_id : Option Text) (fresh : Text) (s : Store)
      {m : PublicationMarker} {s' : Store}
      → begin_publication p uid attempted_at attempt_id fresh s ≡ ok (m, s')
      → (require_uid "candidate uid" uid ≡ ok uid)
        × (read_publication_marker p uid s' ≡ ok (some m))
  begin_publication_marker uid attempted_at attempt_id fresh s {m} {s'} h =
      let (c, read, way) = begin_publication_cases uid attempted_at attempt_id fresh s h in
      let (valid, e) = read_outbox-uid uid s read in
      (
        valid,
        elim way [
          | inl (node, taken, resumed) ↦
              rw (resume_publication_same c s resumed)
                (rw (← e) (resume_publication-marker c s resumed))
          | inr t ↦ rw (← e) t.stored
        ],
      )

  pub read_publication_marker-uid :
      (uid : Text) (s : Store) {m : PublicationMarker}
      → read_publication_marker p uid s ≡ ok (some m)
      → m.candidate_uid ≡ uid
  unfolding read_publication_marker
  read_publication_marker-uid uid s h =
      let (clean, checked, k) = >>=-eq-ok (require_uid "candidate uid" uid) _ h in
      let (found, read, k') = >>=-eq-ok (read_at s.publication clean _) _ k in
      let e : clean ≡ uid = ground (arith, require_uid_lem "candidate uid" uid) in
      named-identity (λ (x : PublicationMarker). x.candidate_uid) clean found k' ∙ e
