-- ===== src/Checkpoint/Store.antt =====
-- `RecordCheckpointStore` of record_checkpoint.py. A row is its canonical JSON text without the
-- record hash, with the value of its ID field. Hashing is a parameter: the digest of such a text,
-- and the file name that the digest of an identifier gives.
use model_forensics_value_le.Prelude.{
  ℕ, String, Bool, true, false, not, ◌&&◌, ◌||◌, Option, none, some, List, [], ◌∷◌, any, ltb, ◌==◌,
  if◌then◌else◌, str_eq,
}
use model_forensics_value_le.Prelude.Outcome.{Result, ok, err, ◌>>=◌, ◌>>◌, raise_if}
use model_forensics_value_le.Prelude.Text.{codes}

pub data Error : Type 0 where
  plan_mismatch not_an_object no_identifier hash_mismatch wrong_filename : Error
  different_content duplicate_ids bad_expected_ids inventory_mismatch : Error
  merged_mismatch manifest_mismatch manifest_absent manifest_disagrees merged_hash_mismatch : Error
  merged_order_mismatch merged_inventory_mismatch records_disagree : Error

-- `none` in the place of the identifier or of the hash is a missing value or no text.
pub record Row : Type 0 where
  pub identifier : Option String
  pub fields : String
  pub record_hash : Option String

-- The files under `records`, in the order of their names; `none` is JSON that is no object.
abbrev pub Files : Type 0
Files = List (String × Option Row)

-- `_freeze_plan`: plans are compared by their hashes, and the first one is kept.
unfoldable pub freeze_plan : Option String → String → Result Error String
freeze_plan none plan = ok plan
freeze_plan (some observed) plan = if str_eq observed plan then ok observed else err plan_mismatch

abbrev pub text_of : Option String → String
text_of none = ""
text_of (some text) = text

abbrev pub has_text : Option String → String → Bool
has_text none expected = false
has_text (some text) expected = str_eq text expected

abbrev pub same_text : Option String → Option String → Bool
same_text none none = true
same_text none (some text) = false
same_text (some text) other = has_text other text

-- `observed == row`
unfoldable pub row_eq : Row → Row → Bool
row_eq observed row =
    same_text observed.identifier row.identifier
    && str_eq observed.fields row.fields
    && same_text observed.record_hash row.record_hash

-- `path.exists()` and `read_json(path)`
unfoldable pub find_file : String → Files → Option (Option Row)
find_file name [] = none
find_file name (f ∷ fs) = let rest = find_file name fs in if str_eq f.0 name then some f.1 else rest

-- Two texts in the order of their code points.
unfoldable pub name_leb : List ℕ → List ℕ → Bool
name_leb [] ds = true
name_leb (c ∷ cs) [] = false
name_leb (c ∷ cs) (d ∷ ds) = let rest = name_leb cs ds in if c == d then rest else ltb c d

-- A new file takes its place in the sorted directory.
unfoldable pub insert_file : String → Option Row → Files → Files
insert_file name value [] = (name, value) ∷ []
insert_file name value (f ∷ fs) =
    let rest = insert_file name value fs in
    if name_leb (codes name) (codes f.0) then (name, value) ∷ f ∷ fs else f ∷ rest

unfoldable pub row_ids_repeat : List Row → Bool
row_ids_repeat [] = false
row_ids_repeat (r ∷ rs) =
    any (λ s. str_eq (text_of r.identifier) (text_of s.identifier)) rs || row_ids_repeat rs

unfoldable pub texts_repeat : List String → Bool
texts_repeat [] = false
texts_repeat (t ∷ ts) = any (str_eq t) ts || texts_repeat ts

-- `by_id[identifier]`; a later row of the same identifier replaces an earlier one.
unfoldable pub row_at : String → List Row → Option Row
row_at identifier [] = none
row_at identifier (r ∷ rs) = elim (row_at identifier rs) [
  | some later ↦ some later
  | none ↦ if str_eq (text_of r.identifier) identifier then some r else none
]

-- `tuple(by_id[identifier] for identifier in expected)`
unfoldable pub rows_at : List String → List Row → Result Error (List Row)
rows_at [] rows = ok []
rows_at (t ∷ ts) rows = do
  r ← elim (row_at t rows) [ none ↦ err inventory_mismatch | some r ↦ ok r ]
  rest ← rows_at ts rows
  ok (r ∷ rest)

abbrev no_texts : List String → Bool
no_texts [] = true
no_texts (t ∷ ts) = false

module _ (row_hash : String → String) (record_name : String → String) where
  -- `_validate_row` without a path.
  unfoldable pub validate_row : Option Row → Result Error Row
  validate_row none = err not_an_object
  validate_row (some row) = do
    raise_if (str_eq (text_of row.identifier) "") no_identifier
    raise_if (not (has_text row.record_hash (row_hash row.fields))) hash_mismatch
    ok row

  -- `_validate_row` with a path.
  unfoldable pub validate_file : String → Option Row → Result Error Row
  validate_file name value = do
    row ← validate_row value
    raise_if (not (str_eq name (record_name (text_of row.identifier)))) wrong_filename
    ok row

  -- The part of `commit` under the lock.
  unfoldable pub commit_row : Files → Row → Result Error (Row × Files)
  commit_row files row =
      let name = record_name (text_of row.identifier) in
      elim (find_file name files) [
        | none ↦ ok (row, insert_file name (some row) files)
        | some value ↦ do
          observed ← validate_file name value
          raise_if (not (row_eq observed row)) different_content
          ok (observed, files)
      ]

  -- `commit`
  unfoldable pub commit : Files → Option Row → Result Error (Row × Files)
  commit files source = validate_row source >>= commit_row files

  unfoldable pub validate_files : Files → Result Error (List Row)
  validate_files [] = ok []
  validate_files (f ∷ fs) = do
    row ← validate_file f.0 f.1
    rows ← validate_files fs
    ok (row ∷ rows)

  -- `load_records`
  unfoldable pub load_records : Files → Result Error (List Row)
  load_records files = do
    rows ← validate_files files
    raise_if (row_ids_repeat rows) duplicate_ids
    ok rows

  -- The rows that `finalize` merges.
  unfoldable pub final_rows : Files → List String → Result Error (List Row)
  final_rows files expected = do
    raise_if (no_texts expected || (texts_repeat expected || any (str_eq "") expected))
        bad_expected_ids
    rows ← load_records files
    raise_if (any (λ r. not (any (str_eq (text_of r.identifier)) expected)) rows) inventory_mismatch
    rows_at expected rows
