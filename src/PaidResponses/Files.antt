-- ===== src/PaidResponses/Files.antt =====
-- The directories of the store of paid_response_store.py, the arguments of its calls, and what a call
-- meets.
use model_forensics_value_le.Prelude.{
  ℕ, String, Bool, false, not, ◌&&◌, ◌||◌, Option, none, some, List, [], ◌∷◌, leb, str_eq,
  if◌then◌else◌,
}
use model_forensics_value_le.Prelude.Outcome.{Result, ok, err, ◌>>◌, raise_if}
use model_forensics_value_le.Prelude.Text.{codes}
use model_forensics_value_le.Prelude.Digest.{hash_matches}
use model_forensics_value_le.PaidResponses.Records.{
  StoreError, not_anchored, bad_key, bad_hash, write_failed, Paid, Marker, File,
}

-- The files of a directory under their keys; the newest is first.
abbrev pub Files : Type 0 → Type 0
Files A = List (String × File A)

unfoldable pub find_file : {A : Type 0} → String → Files A → Option (File A)
find_file key [] = none
find_file key (f ∷ fs) = let rest = find_file key fs in if str_eq f.0 key then some f.1 else rest

-- `os.unlink`
unfoldable pub unlink : {A : Type 0} → String → Files A → Files A
unlink key [] = []
unlink key (f ∷ fs) = let rest = unlink key fs in if str_eq f.0 key then rest else f ∷ rest

pub record Store : Type 0 where
  pub checkpoints : Files Paid
  pub markers : Files Marker

-- How a write ended: it raised and left the directory alone, raised after the name was replaced,
-- or returned.
pub data Disk : Type 0 where
  untouched unsynced written : Disk

-- What a call meets: whether `identity` holds at its start and at its end, and how its write ends.
pub record World : Type 0 where
  pub anchored_before : Bool
  pub anchored_after : Bool
  pub disk : Disk

abbrev pub Call : Type 0 → Type 0
Call A = Store → Result StoreError A × Store

-- The end of a call that wrote.
unfoldable pub after_write :
    {A : Type 0} → Disk → Bool → A → Store → Store → Result StoreError A × Store
after_write untouched anchored a old new = (err write_failed, old)
after_write unsynced anchored a old new = (err write_failed, new)
after_write written anchored a old new = (if anchored then ok a else err not_anchored, new)

abbrev pub is_hash : String → Bool
is_hash value = hash_matches (codes value)

abbrev pub no_name : String → String → Bool
no_name model_id purpose = str_eq model_id "" || str_eq purpose ""

-- `self.identity()` and `self._path(key)`
unfoldable pub open_store : World → String → Result StoreError (Unit {0})
open_store w key = do
  raise_if (not w.anchored_before) not_anchored
  raise_if (not (is_hash key)) bad_key

-- The tests of `resolve_uncertain_attempt` before the lock.
unfoldable pub checked_resolution : World → String → String → Result StoreError (Unit {0})
checked_resolution w key expected = do raise_if (not (is_hash expected)) bad_hash; open_store w key

-- The arguments of `commit`; `none` is a status that is no integer, a body that is no JSON.
pub record Response : Type 0 where
  pub key : String
  pub fingerprint : String
  pub logical_request_hash : String
  pub model_id : String
  pub purpose : String
  pub http_status : Option ℕ
  pub body : Option String

-- The arguments of `mark_uncertain_attempt`.
pub record Attempt : Type 0 where
  pub key : String
  pub fingerprint : String
  pub logical_request_hash : String
  pub model_id : String
  pub purpose : String
  pub reservation_id : String

abbrev pub is_status : Option ℕ → Bool
is_status none = false
is_status (some n) = leb 100 n && leb n 599
