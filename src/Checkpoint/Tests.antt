-- ===== src/Checkpoint/Tests.antt =====
-- Commits of two rows.
use model_forensics_value_le.Prelude.{◌≡◌, refl, String, false, none, some, Option, List, [], ◌∷◌}
use model_forensics_value_le.Prelude.Outcome.{ok, err}
use model_forensics_value_le.Checkpoint.Store.{
  different_content, hash_mismatch, plan_mismatch, inventory_mismatch, Row, Files, row_eq,
  find_file, insert_file, row_ids_repeat, texts_repeat, row_at, rows_at, validate_row,
  validate_file, commit_row, commit, validate_files, load_records, final_rows, freeze_plan,
}
use model_forensics_value_le.Checkpoint.Commits.{run_commits, run_commits-refused}
use model_forensics_value_le.Checkpoint.Finish.{
  Manifest, Finished, agree_or_write, manifest_of, finalize, load_final,
}
use model_forensics_value_le.Checkpoint.Reload.{load_final-finalize}

-- A digest of a text: here the text itself.
abbrev row_hash : String → String
row_hash text = text

abbrev record_name : String → String
record_name identifier = identifier

abbrev first_row : Row
first_row = record { identifier = some "a"; fields = "x"; record_hash = some "x" }

abbrev second_row : Row
second_row = record { identifier = some "b"; fields = "y"; record_hash = some "y" }

abbrev changed_row : Row
changed_row = record { identifier = some "a"; fields = "z"; record_hash = some "z" }

abbrev two_files : Files
two_files = ("a", some first_row) ∷ ("b", some second_row) ∷ []

committed :
    commit row_hash record_name [] (some first_row) ≡ ok (first_row, ("a", some first_row) ∷ [])
unfolding commit commit_row validate_row find_file insert_file
committed = refl

unhashed :
    commit row_hash record_name [] (some (record first_row { fields = "w" })) ≡ err hash_mismatch
unfolding commit commit_row validate_row find_file insert_file
unhashed = refl

frozen : freeze_plan (some "p") "q" ≡ err plan_mismatch
unfolding freeze_plan
frozen = refl

merged :
    final_rows row_hash record_name two_files ("b" ∷ "a" ∷ []) ≡ ok (second_row ∷ first_row ∷ [])
unfolding final_rows texts_repeat load_records validate_files validate_file validate_row
    row_ids_repeat rows_at row_at
merged = refl

missing : final_rows row_hash record_name two_files ("b" ∷ "c" ∷ []) ≡ err inventory_mismatch
unfolding final_rows texts_repeat load_records validate_files validate_file validate_row
    row_ids_repeat rows_at row_at
missing = refl

changed_row_valid : validate_row row_hash record_name (some changed_row) ≡ ok changed_row
unfolding validate_row
changed_row_valid = refl

rows_differ : row_eq first_row changed_row ≡ false
unfolding row_eq
rows_differ = refl

run_commits-refused_example :
    commit row_hash record_name
      (run_commits row_hash record_name (("a", some first_row) ∷ []) (some second_row ∷ []))
      (some changed_row)
    ≡ err different_content
run_commits-refused_example =
    run_commits-refused row_hash record_name [] (some first_row)
      (first_row, ("a", some first_row) ∷ []) (some second_row ∷ []) changed_row committed
      changed_row_valid refl rows_differ

abbrev ids_hash : List String → String
ids_hash ids = "i"

abbrev hashes_hash : List (Option String) → String
hashes_hash hashes = "h"

abbrev rows_digest : List Row → String
rows_digest rows = "r"

abbrev unfinished : Finished
unfinished = record { merged = none; manifest = none }

abbrev made : Manifest
made = record {
  plan_hash = "p";
  row_count = 2;
  expected_ids_hash = "i";
  record_hashes_hash = "h";
  rows_sha256 = "r";
}

abbrev finished : Finished
finished = record { merged = some (second_row ∷ first_row ∷ []); manifest = some made }

finalized :
    finalize row_hash record_name ids_hash hashes_hash rows_digest "p" two_files unfinished
      ("b" ∷ "a" ∷ [])
    ≡ ok (second_row ∷ first_row ∷ [], finished)
unfolding finalize final_rows texts_repeat load_records validate_files validate_file validate_row
    row_ids_repeat rows_at row_at agree_or_write manifest_of
finalized = refl

load_final-finalize_example :
    load_final row_hash record_name ids_hash hashes_hash rows_digest "p" two_files finished
      ("b" ∷ "a" ∷ [])
    ≡ ok (second_row ∷ first_row ∷ [])
load_final-finalize_example =
    load_final-finalize row_hash record_name ids_hash hashes_hash rows_digest "p" two_files
      unfinished ("b" ∷ "a" ∷ []) (second_row ∷ first_row ∷ [], finished) finalized
