-- ===== src/UpdateQueue/Store/States.antt =====
-- The states of a publication in rightmemory/update_queue.py: missing, never attempted, attempted.
use mathlib.Core.Path.{subst}
use right_memory.Common.{
  ◌≡◌, sym, ◌∙◌, ap, Option, none, some, Text, text_eq_refl, arith, ok, >>=-eq-ok, ok_injective,
}
use right_memory.UpdateQueue.Formats.{require_uid, require_oid}
use right_memory.UpdateQueue.Formats.Hex.{require_uid_lem}
use right_memory.UpdateQueue.Records.{Platform, UpdateCandidate, PublicationMarker, new_marker}
use right_memory.UpdateQueue.Records.Sound.{new_marker_sound}
use right_memory.UpdateQueue.Codec.{publication_json}
use right_memory.UpdateQueue.Disk.{json_name, node_at, unlink, write_json}
use right_memory.UpdateQueue.Disk.Laws.{node_at-unlink}
use right_memory.UpdateQueue.Store.{
  Store, read_outbox, read_publication_marker, present, begin_publication, publication_state,
  never_attempted, attempted, missing, clear_publication_marker, remove_outbox,
  record_publication_commit,
}
use right_memory.UpdateQueue.Store.Publication.{
  begin_publication_marker, stored_marker, read_publication_marker_lem, read_publication_marker-uid,
  publication_json-valid,
}

module _ (p : Platform) where
  -- After a successful attempt the candidate counts as attempted.
  pub publication_state-begin_publication :
      (uid attempted_at : Text) (attempt_id : Option Text) (fresh : Text) (s : Store)
      {m : PublicationMarker} {s' : Store}
      → begin_publication p uid attempted_at attempt_id fresh s ≡ ok (m, s')
      → publication_state p uid s' ≡ ok attempted
  unfolding publication_state
  publication_state-begin_publication uid attempted_at attempt_id fresh s h =
      let (valid, there) = begin_publication_marker p uid attempted_at attempt_id fresh s h in
      rw (valid, there)

  cleared :
      (uid : Text) (s : Store) {s' : Store}
      → clear_publication_marker p uid s ≡ ok s'
      → (require_uid "candidate uid" uid ≡ ok uid)
        × (node_at s'.publication (json_name uid) ≡ none)
        × (s'.outbox ≡ s.outbox)
  unfolding clear_publication_marker
  cleared uid s h =
      let (clean, checked, k) = >>=-eq-ok (require_uid "candidate uid" uid) _ h in
      let e : clean ≡ uid = ground (arith, require_uid_lem "candidate uid" uid) in
      let (folder, gone, k') = >>=-eq-ok (unlink s.publication (json_name clean)) _ k in
      (
        checked ∙ ap ok e,
        rw (← ap (λ (x : Store). x.publication) (ok_injective k')) (
            node_at-unlink s.publication (json_name clean) (json_name uid) gone
            ∙ rw (e, text_eq_refl (json_name uid))),
        sym (ap (λ (x : Store). x.outbox) (ok_injective k')),
      )

  marker_gone :
      (uid : Text) (s : Store)
      → require_uid "candidate uid" uid ≡ ok uid
      → node_at s.publication (json_name uid) ≡ none
      → read_publication_marker p uid s ≡ ok none
  unfolding read_publication_marker
  marker_gone uid s valid gone = ground arith

  read_outbox_same :
      (uid : Text) (s s' : Store)
      → s'.outbox ≡ s.outbox
      → read_outbox p uid s' ≡ read_outbox p uid s
  unfolding read_outbox
  read_outbox_same uid s s' same = rw same

  -- Clearing the marker of a candidate that lies in the outbox makes it never attempted again.
  pub publication_state-clear :
      (uid : Text) (s : Store) {s' : Store} {c : UpdateCandidate}
      → read_outbox p uid s ≡ ok (some c)
      → clear_publication_marker p uid s ≡ ok s'
      → publication_state p uid s' ≡ ok never_attempted
  unfolding publication_state
  publication_state-clear uid s {s'} read h =
      let (valid, gone, same) = cleared uid s h in
      ground (arith, marker_gone uid s' valid gone, read_outbox_same uid s s' same)

  removed :
      (uid : Text) (s : Store) {s' : Store}
      → remove_outbox p uid s ≡ ok s'
      → (read_outbox p uid s' ≡ ok none) × (s'.publication ≡ s.publication)
  unfolding remove_outbox read_outbox
  removed uid s {s'} h =
      let (clean, checked, k) = >>=-eq-ok (require_uid "candidate uid" uid) _ h in
      let e : clean ≡ uid = ground (arith, require_uid_lem "candidate uid" uid) in
      let (folder, gone, k') = >>=-eq-ok (unlink s.outbox (json_name clean)) _ k in
      let free : node_at s'.outbox (json_name uid) ≡ none =
        rw (← ap (λ (x : Store). x.outbox) (ok_injective k')) (
          node_at-unlink s.outbox (json_name clean) (json_name uid) gone
          ∙ rw (e, text_eq_refl (json_name uid))) in
      (ground arith, sym (ap (λ (x : Store). x.publication) (ok_injective k')))

  -- Settling a candidate, the marker first and the outbox then, leaves nothing of it.
  pub publication_state-settled :
      (uid : Text) (s : Store) {s' s'' : Store}
      → clear_publication_marker p uid s ≡ ok s'
      → remove_outbox p uid s' ≡ ok s''
      → publication_state p uid s'' ≡ ok missing
  unfolding publication_state
  publication_state-settled uid s {s'} {s''} h r =
      let (valid, gone, same) = cleared uid s h in
      let (away, kept) = removed uid s' r in
      let gone' : node_at s''.publication (json_name uid) ≡ none = rw kept gone in
      ground (arith, marker_gone uid s'' valid gone')

  -- Recording the proposed commit keeps the attempt, its time and the digest of the candidate, and
  -- the updated marker is the one that is read from then on.
  pub record_publication_commit_lem :
      (uid commit : Text) (s : Store) {m' : PublicationMarker} {s' : Store}
      → record_publication_commit p uid commit s ≡ ok (m', s')
      → (m : PublicationMarker) × (read_publication_marker p uid s ≡ ok (some m))
        × (m' ≡ record m { proposed_commit = some commit })
        × (read_publication_marker p uid s' ≡ ok (some m'))
        × (s'.outbox ≡ s.outbox)
  unfolding record_publication_commit
  record_publication_commit_lem uid commit s {m'} {s'} h =
      let (clean, checked, k₁) = >>=-eq-ok (require_uid "candidate uid" uid) _ h in
      let e : clean ≡ uid = ground (arith, require_uid_lem "candidate uid" uid) in
      let (u, is_oid, k₂) = >>=-eq-ok (require_oid "publication proposed_commit" commit) _ k₁ in
      let (found, read, k₃) = >>=-eq-ok (read_publication_marker p clean s) _ k₂ in
      let (m, there, k₄) = >>=-eq-ok (present p found) _ k₃ in
      let (updated, made, k₅) = >>=-eq-ok (new_marker p _) _ k₄ in
      let (value, json, k₆) = >>=-eq-ok (publication_json p updated) _ k₅ in
      let (folder, put, k₇) = >>=-eq-ok (write_json s.publication _ value) _ k₆ in
      let e' : found ≡ some m = ground arith in
      let same = new_marker_sound p _ made in
      let owner = read_publication_marker-uid p clean s (read ∙ ap ok e') in
      let uid_of : updated.candidate_uid ≡ clean =
        ap (λ (x : PublicationMarker). x.candidate_uid) same ∙ owner in
      let put' : write_json s.publication (json_name updated.candidate_uid) value ≡ ok folder =
        rw uid_of put in
      let result = ok_injective k₇ in
      let marker = ap (λ (r : PublicationMarker × Store). r.0) result in
      let store = ap (λ (r : PublicationMarker × Store). r.1) result in
      let stored =
        read_publication_marker_lem p updated (record s { publication = folder })
          (publication_json-valid p updated json)
          (stored_marker p s.publication updated json put') in
      (
        m,
        rw (← e) (read ∙ ap ok e'),
        sym marker ∙ same,
        subst (λ (r : PublicationMarker × Store). read_publication_marker p uid r.1 ≡ ok (some r.0))
            result
            (subst
              (λ u.
                read_publication_marker p u (record s { publication = folder }) ≡ ok (some updated))
              (uid_of ∙ e) stored),
        sym (ap (λ (x : Store). x.outbox) store),
      )
