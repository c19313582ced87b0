-- ===== src/PaidResponses/Records.antt =====
-- The two kinds of record of paid_response_store.py and their validation. A record is its fields and
-- its hash; a field is `none` where the value is no text, or is missing, and `others` is the
-- canonical text of the keys that no call reads. The hashes are parameters.
use model_forensics_value_le.Prelude.{
  ℕ, ◌≡◌, String, Bool, true, false, not, ◌&&◌, ◌||◌, Option, none, some, ◌==◌, str_eq,
}
use model_forensics_value_le.Prelude.Outcome.{Result, ok, err, ◌>>=◌, ◌>>◌, raise_if}
use model_forensics_value_le.Prelude.Text.{codes}
use model_forensics_value_le.Prelude.Digest.{hash_matches}

-- Each `raise` of the module.
pub data StoreError : Type 0 where
  not_anchored bad_key bad_hash bad_status empty_name not_canonical : StoreError
  not_regular not_json write_failed : StoreError
  not_an_object protocol_mismatch key_mismatch fingerprint_mismatch : StoreError
  not_a_body body_hash_mismatch record_hash_mismatch state_invalid : StoreError
  different_content reconciliation_mismatch no_checkpoint : StoreError

-- A checkpoint without its hash; `body` is the canonical text of the response body.
pub record PaidFields : Type 0 where
  pub version : Bool
  pub store_key : Option String
  pub request_fingerprint : Option String
  pub logical_request_hash : Option String
  pub model_id : Option String
  pub purpose : Option String
  pub http_status : Option ℕ
  pub body : Option String
  pub body_hash : Option String
  pub others : String

pub record Paid : Type 0 where
  pub fields : PaidFields
  pub record_hash : Option String

-- A write-ahead marker without its hash; `started` says that its state is
-- `dispatch_started_outcome_unknown`.
pub record MarkerFields : Type 0 where
  pub version : Bool
  pub store_key : Option String
  pub request_fingerprint : Option String
  pub logical_request_hash : Option String
  pub model_id : Option String
  pub purpose : Option String
  pub reservation_id : Option String
  pub started : Bool
  pub others : String

pub record Marker : Type 0 where
  pub fields : MarkerFields
  pub record_hash : Option String

-- `stable_hash` of the values that the module hashes.
pub record Digests : Type 0 where
  pub request : String → String
  pub key : String → String → String → String
  pub body : String → String
  pub paid : PaidFields → String
  pub marker : MarkerFields → String
  pub marker_hex : (fields : MarkerFields) → hash_matches (codes (marker fields)) ≡ true

-- `value == text`
unfoldable pub is_text : Option String → String → Bool
is_text none text = false
is_text (some value) text = str_eq value text

unfoldable pub texts_eq : Option String → Option String → Bool
texts_eq none none = true
texts_eq none (some value) = false
texts_eq (some value) other = is_text other value

unfoldable pub counts_eq : Option ℕ → Option ℕ → Bool
counts_eq none none = true
counts_eq none (some n) = false
counts_eq (some m) none = false
counts_eq (some m) (some n) = m == n

-- `observed == record` of two checkpoints that are validated.
unfoldable pub paid_eq : Paid → Paid → Bool
paid_eq a b =
    texts_eq a.fields.store_key b.fields.store_key
    && (texts_eq a.fields.request_fingerprint b.fields.request_fingerprint
        && (texts_eq a.fields.logical_request_hash b.fields.logical_request_hash
            && (texts_eq a.fields.model_id b.fields.model_id
                && (texts_eq a.fields.purpose b.fields.purpose
                    && (counts_eq a.fields.http_status b.fields.http_status
                        && (texts_eq a.fields.body b.fields.body
                            && (texts_eq a.fields.body_hash b.fields.body_hash
                                && (str_eq a.fields.others b.fields.others
                                    && texts_eq a.record_hash b.record_hash))))))))

-- `observed == record` of two markers that are validated.
unfoldable pub marker_eq : Marker → Marker → Bool
marker_eq a b =
    texts_eq a.fields.store_key b.fields.store_key
    && (texts_eq a.fields.request_fingerprint b.fields.request_fingerprint
        && (texts_eq a.fields.logical_request_hash b.fields.logical_request_hash
            && (texts_eq a.fields.model_id b.fields.model_id
                && (texts_eq a.fields.purpose b.fields.purpose
                    && (texts_eq a.fields.reservation_id b.fields.reservation_id
                        && (str_eq a.fields.others b.fields.others
                            && texts_eq a.record_hash b.record_hash))))))

-- What a name in a directory is: no regular file, a file that is no JSON, JSON that is no object,
-- or an object.
pub data File {ℓ} (A : Type ℓ) : Type ℓ where
  irregular unreadable not_object : File A
  object : A → File A

-- `_entry_exists_at` of a name that is there, and `_read_json_at`, with the test for an object.
unfoldable pub read_object : {A : Type 0} → File A → Result StoreError A
read_object irregular = err not_regular
read_object unreadable = err not_json
read_object not_object = err not_an_object
read_object (object a) = ok a

module _ (digests : Digests) where
  -- `_validate_record` of an object.
  unfoldable pub validate_record : String → String → Paid → Result StoreError Paid
  validate_record key fingerprint p = do
    raise_if (not p.fields.version) protocol_mismatch
    raise_if (not (is_text p.fields.store_key key)) key_mismatch
    raise_if (not (is_text p.fields.request_fingerprint fingerprint)) fingerprint_mismatch
    body ← elim p.fields.body [ none ↦ err not_a_body | some body ↦ ok body ]
    raise_if (not (is_text p.fields.body_hash (digests.body body))) body_hash_mismatch
    raise_if (not (is_text p.record_hash (digests.paid p.fields))) record_hash_mismatch
    ok p

  -- `_validate_uncertain_record` of an object.
  unfoldable pub validate_uncertain_record : String → String → Marker → Result StoreError Marker
  validate_uncertain_record key fingerprint m = do
    raise_if (not m.fields.version) protocol_mismatch
    raise_if (not (is_text m.fields.store_key key)) key_mismatch
    raise_if (not (is_text m.fields.request_fingerprint fingerprint)) fingerprint_mismatch
    raise_if (not m.fields.started) state_invalid
    raise_if (not (is_text m.record_hash (digests.marker m.fields))) record_hash_mismatch
    ok m

  -- `key`
  unfoldable pub store_key : String → String → String → Result StoreError String
  store_key request_id model_id purpose = do
    raise_if (str_eq request_id "" || (str_eq model_id "" || str_eq purpose "")) empty_name
    ok (digests.key (digests.request request_id) model_id purpose)
