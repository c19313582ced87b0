-- ===== src/PaidResponses/Store.antt =====
-- `PaidResponseStore` of paid_response_store.py: its state and its calls.
use model_forensics_value_le.Prelude.{String, true, not, ◌||◌, Option, none, some, ◌∷◌}
use model_forensics_value_le.Prelude.Outcome.{Result, ok, err, ◌>>=◌, ◌>>◌, raise_if}
use model_forensics_value_le.PaidResponses.Records.{
  StoreError, not_anchored, bad_hash, bad_status, empty_name, not_canonical, different_content,
  reconciliation_mismatch, no_checkpoint, PaidFields, Paid, MarkerFields, Marker, Digests, is_text,
  paid_eq, marker_eq, File, object, read_object, validate_record, validate_uncertain_record,
}
use model_forensics_value_le.PaidResponses.Files.{
  find_file, unlink, World, Call, after_write, is_hash, no_name, open_store, checked_resolution,
  Response, Attempt, is_status,
}

module _ (digests : Digests) where
  -- A checkpoint that is there, validated.
  unfoldable pub read_checkpoint : String → String → File Paid → Result StoreError Paid
  read_checkpoint key fingerprint f = read_object f >>= validate_record digests key fingerprint

  unfoldable pub read_marker : String → String → File Marker → Result StoreError Marker
  read_marker key fingerprint f =
      read_object f >>= validate_uncertain_record digests key fingerprint

  -- The end of `load`, on the file under the key.
  unfoldable pub load_file :
      World → String → String → Option (File Paid) → Result StoreError (Option Paid)
  load_file w key fingerprint none = ok none
  load_file w key fingerprint (some f) = do
    p ← read_checkpoint key fingerprint f
    raise_if (not w.anchored_after) not_anchored
    ok (some p)

  -- `load`
  unfoldable pub load : World → String → String → Call (Option Paid)
  load w key fingerprint s =
      (open_store w key >>= λ _. load_file w key fingerprint (find_file key s.checkpoints), s)

  unfoldable pub load_marker_file :
      World → String → String → Option (File Marker) → Result StoreError (Option Marker)
  load_marker_file w key fingerprint none = ok none
  load_marker_file w key fingerprint (some f) = do
    m ← read_marker key fingerprint f
    raise_if (not w.anchored_after) not_anchored
    ok (some m)

  -- `load_uncertain_attempt`
  unfoldable pub load_uncertain_attempt : World → String → String → Call (Option Marker)
  load_uncertain_attempt w key fingerprint s =
      (open_store w key >>= λ _. load_marker_file w key fingerprint (find_file key s.markers), s)

  unfoldable pub paid_fields : Response → String → PaidFields
  paid_fields q body = record {
    version = true;
    store_key = some q.key;
    request_fingerprint = some q.fingerprint;
    logical_request_hash = some q.logical_request_hash;
    model_id = some q.model_id;
    purpose = some q.purpose;
    http_status = q.http_status;
    body = some body;
    body_hash = some (digests.body body);
    others = "";
  }

  abbrev pub sealed : PaidFields → Paid
  sealed fields = record { fields = fields; record_hash = some (digests.paid fields) }

  -- The record of `commit`, or what its tests raise.
  unfoldable pub checked_response : World → Response → Result StoreError Paid
  checked_response w q = do
    open_store w q.key
    raise_if (not (is_hash q.fingerprint) || not (is_hash q.logical_request_hash)) bad_hash
    raise_if (not (is_status q.http_status)) bad_status
    raise_if (no_name q.model_id q.purpose) empty_name
    body ← elim q.body [ none ↦ err not_canonical | some body ↦ ok body ]
    ok (sealed (paid_fields q body))

  -- A checkpoint that is there already must be the same.
  unfoldable pub same_checkpoint : String → String → Paid → File Paid → Result StoreError Paid
  same_checkpoint key fingerprint p f = do
    observed ← read_checkpoint key fingerprint f
    raise_if (not (paid_eq observed p)) different_content
    ok observed

  -- The part of `commit` under the lock.
  unfoldable pub commit_checkpoint : World → String → String → Paid → Call Paid
  commit_checkpoint w key fingerprint p s = elim (find_file key s.checkpoints) [
    | some f ↦ (same_checkpoint key fingerprint p f, s)
    | none ↦
        after_write w.disk w.anchored_after p s
          (record s { checkpoints = (key, object p) ∷ s.checkpoints })
  ]

  -- `commit`
  unfoldable pub commit : World → Response → Call Paid
  commit w q s = elim (checked_response w q) [
    | err e ↦ (err e, s)
    | ok p ↦ commit_checkpoint w q.key q.fingerprint p s
  ]

  unfoldable pub marker_fields : Attempt → MarkerFields
  marker_fields q = record {
    version = true;
    store_key = some q.key;
    request_fingerprint = some q.fingerprint;
    logical_request_hash = some q.logical_request_hash;
    model_id = some q.model_id;
    purpose = some q.purpose;
    reservation_id = some q.reservation_id;
    started = true;
    others = "";
  }

  abbrev pub sealed_marker : MarkerFields → Marker
  sealed_marker fields = record { fields = fields; record_hash = some (digests.marker fields) }

  unfoldable pub checked_attempt : World → Attempt → Result StoreError Marker
  checked_attempt w q = do
    raise_if
        (not (is_hash q.fingerprint)
          || (not (is_hash q.logical_request_hash) || not (is_hash q.reservation_id)))
        bad_hash
    raise_if (no_name q.model_id q.purpose) empty_name
    open_store w q.key
    ok (sealed_marker (marker_fields q))

  unfoldable pub same_marker : String → String → Marker → File Marker → Result StoreError Marker
  same_marker key fingerprint m f = do
    observed ← read_marker key fingerprint f
    raise_if (not (marker_eq observed m)) different_content
    ok observed

  unfoldable pub place_marker : World → String → String → Marker → Call Marker
  place_marker w key fingerprint m s = elim (find_file key s.markers) [
    | some f ↦ (same_marker key fingerprint m f, s)
    | none ↦
        after_write w.disk w.anchored_after m s (record s { markers = (key, object m) ∷ s.markers })
  ]

  -- `mark_uncertain_attempt`
  unfoldable pub mark_uncertain_attempt : World → Attempt → Call Marker
  mark_uncertain_attempt w q s = elim (checked_attempt w q) [
    | err e ↦ (err e, s)
    | ok m ↦ place_marker w q.key q.fingerprint m s
  ]

  -- The tests of `resolve_uncertain_attempt` on a marker that is there.
  unfoldable pub check_resolution :
      String → String → String → File Marker → Option (File Paid) → Result StoreError (Unit {0})
  check_resolution key fingerprint expected f checkpoint = do
    m ← read_marker key fingerprint f
    raise_if (not (is_text m.record_hash expected)) reconciliation_mismatch
    c ← elim checkpoint [ none ↦ err no_checkpoint | some c ↦ ok c ]
    _ ← read_checkpoint key fingerprint c
    ok tt

  -- The part of `resolve_uncertain_attempt` under the lock.
  unfoldable pub clear_marker : World → String → String → String → Call (Unit {0})
  clear_marker w key fingerprint expected s = elim (find_file key s.markers) [
    | none ↦ (ok tt, s)
    | some f ↦ elim (check_resolution key fingerprint expected f (find_file key s.checkpoints)) [
      | err e ↦ (err e, s)
      | ok _ ↦
          after_write w.disk w.anchored_after tt s (record s { markers = unlink key s.markers })
    ]
  ]

  -- `resolve_uncertain_attempt`
  unfoldable pub resolve_uncertain_attempt : World → String → String → String → Call (Unit {0})
  resolve_uncertain_attempt w key fingerprint expected s =
      elim (checked_resolution w key expected) [
        | err e ↦ (err e, s)
        | ok _ ↦ clear_marker w key fingerprint expected s
      ]
