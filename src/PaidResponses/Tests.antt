-- ===== src/PaidResponses/Tests.antt =====
-- The store of paid_response_store.py on a small directory, and its theorems at it.
use model_forensics_value_le.Prelude.{◌≡◌, ◌⊎◌, refl, String, true, none, some, List, [], ◌∷◌}
use model_forensics_value_le.Prelude.Outcome.{ok, err}
use model_forensics_value_le.Prelude.Text.{codes}
use model_forensics_value_le.Prelude.Digest.{hash_matches, match_prefix, all_codes, is_hex}
use model_forensics_value_le.PaidResponses.Records.{
  Paid, Marker, Digests, object, no_checkpoint, is_text, paid_eq, texts_eq, counts_eq, read_object,
  validate_record, validate_uncertain_record,
}
use model_forensics_value_le.PaidResponses.Files.{
  find_file, Store, World, unsynced, written, after_write, open_store, Response, Attempt,
  checked_resolution,
}
use model_forensics_value_le.PaidResponses.Store.{
  read_checkpoint, read_marker, paid_fields, checked_response, same_checkpoint, commit_checkpoint,
  commit, load, marker_fields, checked_attempt, place_marker, mark_uncertain_attempt,
  check_resolution, clear_marker, resolve_uncertain_attempt,
}
use model_forensics_value_le.PaidResponses.Effects.{IsPaidFor}
use model_forensics_value_le.PaidResponses.History.{
  Request, commit_of, mark_of, resolve_of, load_of, run, run-Guarded,
}
use model_forensics_value_le.PaidResponses.Replay.{load-commit, commit-again}
use model_forensics_value_le.PaidResponses.Attempts.{resolve_uncertain_attempt-returns}

abbrev digest : String
digest = "sha256:0123456789abcdef0123456789abcdef0123456789abcdef0123456789abcdef"

digest_hex : hash_matches (codes digest) ≡ true
unfolding hash_matches match_prefix all_codes is_hex
digest_hex = refl

-- Digests that are all the same.
abbrev digests : Digests
digests = record {
  request = λ t. digest;
  key = λ t m p. digest;
  body = λ t. digest;
  paid = λ f. digest;
  marker = λ f. digest;
  marker_hex = λ f. digest_hex;
}

abbrev fine : World
fine = record { anchored_before = true; anchored_after = true; disk = written }

-- A write that reached the disk and raised.
abbrev broken : World
broken = record fine { disk = unsynced }

abbrev attempt : Attempt
attempt = record {
  key = digest;
  fingerprint = digest;
  logical_request_hash = digest;
  model_id = "judge";
  purpose = "adjudication";
  reservation_id = digest;
}

abbrev response : Response
response = record {
  key = digest;
  fingerprint = digest;
  logical_request_hash = digest;
  model_id = "judge";
  purpose = "adjudication";
  http_status = some 200;
  body = some "{}";
}

abbrev paid : Paid
paid = record {
  fields = record {
    version = true;
    store_key = some digest;
    request_fingerprint = some digest;
    logical_request_hash = some digest;
    model_id = some "judge";
    purpose = some "adjudication";
    http_status = some 200;
    body = some "{}";
    body_hash = some digest;
    others = "";
  };
  record_hash = some digest;
}

abbrev marker : Marker
marker = record {
  fields = record {
    version = true;
    store_key = some digest;
    request_fingerprint = some digest;
    logical_request_hash = some digest;
    model_id = some "judge";
    purpose = some "adjudication";
    reservation_id = some digest;
    started = true;
    others = "";
  };
  record_hash = some digest;
}

abbrev empty_store : Store
empty_store = record { checkpoints = []; markers = [] }

abbrev marked : Store
marked = record { checkpoints = []; markers = (digest, object marker) ∷ [] }

abbrev answered : Store
answered = record {
  checkpoints = (digest, object paid) ∷ [];
  markers = (digest, object marker) ∷ [];
}

marking : mark_uncertain_attempt digests fine attempt empty_store ≡ (ok marker, marked)
unfolding mark_uncertain_attempt checked_attempt open_store hash_matches match_prefix all_codes
    is_hex place_marker find_file marker_fields after_write
marking = refl

committing : commit digests fine response marked ≡ (ok paid, answered)
unfolding commit checked_response open_store hash_matches match_prefix all_codes is_hex
    commit_checkpoint find_file paid_fields after_write
committing = refl

-- An attempt without a response does not resolve.
resolve_unpaid :
    resolve_uncertain_attempt digests fine digest digest digest marked ≡ (err no_checkpoint, marked)
unfolding resolve_uncertain_attempt checked_resolution open_store hash_matches match_prefix
    all_codes is_hex clear_marker find_file check_resolution read_marker read_object
    validate_uncertain_record is_text
resolve_unpaid = refl

abbrev calls : List Request
calls =
    mark_of fine attempt
    ∷ commit_of broken (record response { body = some "[]" })
    ∷ resolve_of fine digest digest digest
    ∷ load_of fine digest digest
    ∷ []

run-Guarded_example :
    (find_file digest (run digests calls marked).markers ≡ some (object marker))
    ⊎ IsPaidFor digests digest
        (object marker)
        (find_file digest (run digests calls marked).checkpoints)
unfolding find_file
run-Guarded_example = run-Guarded digests calls marked digest (object marker) refl

load-commit_example :
    let after = run digests calls answered in
    load digests fine digest digest after ≡ (ok (some paid), after)
load-commit_example =
    load-commit digests fine fine response calls paid marked answered committing refl refl

commit_again : commit digests broken response answered ≡ (ok paid, answered)
unfolding commit checked_response open_store hash_matches match_prefix all_codes is_hex
    commit_checkpoint find_file paid_fields same_checkpoint read_checkpoint read_object
    validate_record is_text paid_eq texts_eq counts_eq
commit_again = refl

commit-again_example : (paid ≡ paid) × (answered ≡ run digests [] answered)
unfolding run
commit-again_example =
    commit-again digests fine broken response response [] paid paid marked answered answered
      committing refl commit_again

resolve_uncertain_attempt-returns_example :
    (t : Store) × (resolve_uncertain_attempt digests fine digest digest digest answered
      ≡ (ok tt, t))
    × (find_file digest t.markers ≡ none)
    × (find_file digest t.checkpoints ≡ some (object paid))
resolve_uncertain_attempt-returns_example =
    resolve_uncertain_attempt-returns digests fine fine fine attempt response marker paid digest
      empty_store marked answered marking committing refl refl refl refl refl refl
