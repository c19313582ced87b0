-- ===== src/Checkpoint/Finish.antt =====
-- `finalize` and `load_final` of record_checkpoint.py: the merged file and the manifest.
use model_forensics_value_le.Prelude.{
  ℕ, ◌≡◌, refl, String, Bool, true, false, not, ◌&&◌, ◌||◌, Option, none, some, List, [], ◌∷◌, map,
  length, ◌==◌, str_eq, eq_iff, arith,
}
use model_forensics_value_le.Prelude.Outcome.{Result, ok, err, ◌>>=◌, ◌>>◌, raise_if}
use model_forensics_value_le.Checkpoint.Store.{
  Error, merged_mismatch, manifest_mismatch, manifest_absent, manifest_disagrees,
  merged_hash_mismatch, merged_order_mismatch, merged_inventory_mismatch, records_disagree, Row,
  Files, text_of, row_eq, row_at, validate_row, load_records, final_rows,
}

-- The manifest, less its constant fields and its own hash.
pub record Manifest : Type 0 where
  pub plan_hash : String
  pub row_count : ℕ
  pub expected_ids_hash : String
  pub record_hashes_hash : String
  pub rows_sha256 : String

-- `checkpoint_rows.jsonl` and `checkpoint_manifest.json`, where they exist.
pub record Finished : Type 0 where
  pub merged : Option (List Row)
  pub manifest : Option Manifest

unfoldable pub rows_eq : List Row → List Row → Bool
rows_eq [] [] = true
rows_eq [] (s ∷ ss) = false
rows_eq (r ∷ rs) [] = false
rows_eq (r ∷ rs) (s ∷ ss) = row_eq r s && rows_eq rs ss

unfoldable pub texts_eq : List String → List String → Bool
texts_eq [] [] = true
texts_eq [] (s ∷ ss) = false
texts_eq (r ∷ rs) [] = false
texts_eq (r ∷ rs) (s ∷ ss) = str_eq r s && texts_eq rs ss

unfoldable pub manifest_eq : Manifest → Manifest → Bool
manifest_eq a b =
    str_eq a.plan_hash b.plan_hash
    && (a.row_count == b.row_count
        && (str_eq a.expected_ids_hash b.expected_ids_hash
            && (str_eq a.record_hashes_hash b.record_hashes_hash
                && str_eq a.rows_sha256 b.rows_sha256)))

-- A file that exists must hold the value; else it is written.
unfoldable pub agree_or_write :
    {A : Type 0} → (A → A → Bool) → Error → Option A → A → Result Error (Unit {0})
agree_or_write same raised none value = ok tt
agree_or_write same raised (some observed) value = raise_if (not (same observed value)) raised

module _ (row_hash record_name : String → String) (ids_hash : List String → String)
    (hashes_hash : List (Option String) → String) (rows_digest : List Row → String)
    (plan_hash : String) where
  -- The manifest of rows and identifiers.
  unfoldable pub manifest_of : List String → List Row → Manifest
  manifest_of expected rows = record {
    plan_hash = plan_hash;
    row_count = length rows;
    expected_ids_hash = ids_hash expected;
    record_hashes_hash = hashes_hash (map (λ r. r.record_hash) rows);
    rows_sha256 = rows_digest rows;
  }

  -- `finalize`
  unfoldable pub finalize : Files → Finished → List String → Result Error (List Row × Finished)
  finalize files done expected = do
    rows ← final_rows row_hash record_name files expected
    agree_or_write rows_eq merged_mismatch done.merged rows
    let manifest = manifest_of expected rows
    agree_or_write manifest_eq manifest_mismatch done.manifest manifest
    ok (rows, record { merged = some rows; manifest = some manifest })

  unfoldable pub validate_rows : List Row → Result Error (List Row)
  validate_rows [] = ok []
  validate_rows (r ∷ rs) = do
    row ← validate_row row_hash record_name (some r)
    rest ← validate_rows rs
    ok (row ∷ rest)

  -- Some record file disagrees with the merged row of its identifier.
  unfoldable pub any_differs : List Row → List Row → Bool
  any_differs current [] = false
  any_differs current (r ∷ rs) =
      (elim (row_at (text_of r.identifier) current) [
        | none ↦ true
        | some found ↦ not (row_eq found r)
      ])
      || any_differs current rs

  abbrev no_rows : List Row → Bool
  no_rows [] = true
  no_rows (r ∷ rs) = false

  -- The part of `load_final` with both files.
  unfoldable pub load_merged : Files → Manifest → List Row → List String → Result Error (List Row)
  load_merged files manifest merged expected = do
    raise_if (not (str_eq (rows_digest merged) manifest.rows_sha256)) merged_hash_mismatch
    rows ← validate_rows merged
    raise_if (not (texts_eq (map (λ r. text_of r.identifier) rows) expected)) merged_order_mismatch
    raise_if
        (not (
          length rows == manifest.row_count
          && str_eq (hashes_hash (map (λ r. r.record_hash) rows)) manifest.record_hashes_hash))
        merged_inventory_mismatch
    current ← load_records row_hash record_name files
    raise_if (not (no_rows current) && any_differs current rows) records_disagree
    ok rows

  -- `load_final`
  unfoldable pub load_final : Files → Finished → List String → Result Error (List Row)
  load_final files done expected = elim done.manifest [
    | none ↦ err manifest_absent
    | some manifest ↦ do
      raise_if
          (not (
            str_eq manifest.plan_hash plan_hash
            && str_eq manifest.expected_ids_hash (ids_hash expected)))
          manifest_disagrees
      merged ← elim done.merged [ none ↦ err merged_hash_mismatch | some rows ↦ ok rows ]
      load_merged files manifest merged expected
  ]

  pub manifest_eq_refl : (a : Manifest) → manifest_eq a a ≡ true
  unfolding manifest_eq
  manifest_eq_refl a = rw ((eq_iff a.plan_hash a.plan_hash).1 refl) (
      ground (
        arith,
        eq_iff a.expected_ids_hash a.expected_ids_hash,
        eq_iff a.record_hashes_hash a.record_hashes_hash,
        eq_iff a.rows_sha256 a.rows_sha256,
      ))
