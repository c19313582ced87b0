-- ===== src/Budget/Document.antt =====
-- The ledger document: `BudgetLimits`, `totals`, `_assert_limits`, and the validation that
-- `_load_unlocked` makes of whatever the file holds.
use model_forensics_value_le.Prelude.{
  ℕ, ◌+◌, String, Bool, true, false, not, ◌&&◌, ◌||◌, Option, none, some, List, [], ◌∷◌, ltb, ◌==◌,
  if◌then◌else◌, str_eq,
}
use model_forensics_value_le.Prelude.Outcome.{Result, ok, err, ◌>>=◌, ◌>>◌, raise_if}
use model_forensics_value_le.Budget.Entry.{
  Kind, gpu, api, storage, other, Status, is_estimated, gpu_cap, api_cap, total_cap, Error,
  bad_limits, limits_not_positive, invalid_ledger, invalid_protocol, hard_stops_disagree,
  entry_not_mapping, entry_schema, entry_kind, entry_amount, entry_description, entry_status,
  entry_stamp, entry_stamp_naive, entry_id_invalid, duplicate_entry_ids, budget_exceeded, Amount,
  micros, numeral_text, negative, nonfinite, boolean, not_number, Stamp, empty, aware, naive,
  malformed, not_text, Entry, some_or, visible_text, is_id,
}

-- Hard stops, in millionths of a dollar.
pub record BudgetLimits : Type 0 where
  pub gpu_limit : ℕ
  pub api_limit : ℕ
  pub total_limit : ℕ

limit_amount : Amount → Result Error ℕ
limit_amount (micros n) = ok n
limit_amount (numeral_text n) = ok n
limit_amount negative = err bad_limits
limit_amount nonfinite = err bad_limits
limit_amount boolean = err bad_limits
limit_amount not_number = err bad_limits

-- `BudgetLimits.__post_init__`
unfoldable pub budget_limits : Amount → Amount → Amount → Result Error BudgetLimits
unfolding limit_amount
budget_limits g a t = do
  gpu_limit ← limit_amount g
  api_limit ← limit_amount a
  total_limit ← limit_amount t
  raise_if (gpu_limit == 0 || total_limit == 0) limits_not_positive
  ok (record { gpu_limit = gpu_limit; api_limit = api_limit; total_limit = total_limit })

-- The dictionary that `totals` accumulates, before it adds `total`.
pub record Sums : Type 0 where
  pub gpu_sum : ℕ
  pub api_sum : ℕ
  pub storage_sum : ℕ
  pub other_sum : ℕ

pub record Totals : Type 0 where
  pub gpu : ℕ
  pub api : ℕ
  pub storage : ℕ
  pub other : ℕ
  pub total : ℕ

unfoldable pub add_cost : Sums → Kind → ℕ → Sums
add_cost s gpu n = record s { gpu_sum = s.gpu_sum + n }
add_cost s api n = record s { api_sum = s.api_sum + n }
add_cost s storage n = record s { storage_sum = s.storage_sum + n }
add_cost s other n = record s { other_sum = s.other_sum + n }

-- The loop of `totals`.
unfoldable pub sum_entries : Bool → Sums → List Entry → Sums
unfolding add_cost
sum_entries include_estimates s [] = s
sum_entries include_estimates s (e ∷ es) =
    sum_entries include_estimates
      (if is_estimated e.status && not include_estimates then s else add_cost s e.kind e.amount) es

abbrev pub no_costs : Sums
no_costs = record { gpu_sum = 0; api_sum = 0; storage_sum = 0; other_sum = 0 }

-- `CostLedger.totals`
unfoldable pub totals : Bool → List Entry → Totals
totals include_estimates es =
    let s = sum_entries include_estimates no_costs es in
    record {
      gpu = s.gpu_sum;
      api = s.api_sum;
      storage = s.storage_sum;
      other = s.other_sum;
      total = s.gpu_sum + s.api_sum + s.storage_sum + s.other_sum;
    }

-- `CostLedger._assert_limits`
unfoldable pub assert_limits : BudgetLimits → Totals → Result Error (Unit {0})
assert_limits limits t = do
  raise_if (ltb limits.gpu_limit t.gpu) (budget_exceeded gpu_cap)
  raise_if (ltb limits.api_limit t.api) (budget_exceeded api_cap)
  raise_if (ltb limits.total_limit t.total) (budget_exceeded total_cap)

-- The value under the key `entry_id`; a missing key and `null` are both `None`.
pub data RawId : Type 0 where
  no_id : RawId
  text_id : String → RawId
  other_id : RawId

-- An item of the list under `entries`, as the YAML reader returns it.
pub record RawEntry : Type 0 where
  pub has_required_keys : Bool
  pub has_other_keys : Bool
  pub kind : Option Kind
  pub amount_usd : Amount
  pub description : Option String
  pub status : Option Status
  pub occurred_at : Stamp
  pub entry_id : RawId

pub data RawItem : Type 0 where
  mapping : RawEntry → RawItem
  not_mapping : RawItem

-- `hard_stops` and `entries` are `none` where the file has no mapping of the three hard stops,
-- or no list.
pub record RawDocument : Type 0 where
  pub schema_version : ℕ
  pub currency : String
  pub hard_stops : Option BudgetLimits
  pub entries : Option (List RawItem)

pub data RawFile : Type 0 where
  document : RawDocument → RawFile
  not_document : RawFile

unfoldable pub checked_amount : Amount → Result Error ℕ
checked_amount (micros n) = ok n
checked_amount (numeral_text n) = err entry_amount
checked_amount negative = err entry_amount
checked_amount nonfinite = err entry_amount
checked_amount boolean = err entry_amount
checked_amount not_number = err entry_amount

unfoldable pub checked_stamp : Stamp → Result Error String
checked_stamp empty = err entry_stamp
checked_stamp (aware s) = ok s
checked_stamp (naive s) = err entry_stamp_naive
checked_stamp (malformed s) = err entry_stamp
checked_stamp not_text = err entry_stamp

unfoldable pub checked_id : RawId → Result Error (Option String)
checked_id no_id = ok none
checked_id (text_id i) = if is_id i then ok (some i) else err entry_id_invalid
checked_id other_id = err entry_id_invalid

-- The body of the loop over `value["entries"]` in `_load_unlocked`.
unfoldable pub checked_entry : RawItem → Result Error Entry
unfolding checked_amount checked_stamp checked_id some_or visible_text
checked_entry not_mapping = err entry_not_mapping
checked_entry (mapping r) = do
  raise_if (not r.has_required_keys || r.has_other_keys) entry_schema
  kind ← some_or r.kind entry_kind
  amount ← checked_amount r.amount_usd
  description ← visible_text r.description entry_description
  status ← some_or r.status entry_status
  occurred_at ← checked_stamp r.occurred_at
  entry_id ← checked_id r.entry_id
  ok (record {
    kind = kind;
    amount = amount;
    description = description;
    status = status;
    occurred_at = occurred_at;
    entry_id = entry_id;
  })

unfoldable pub checked_entries : List RawItem → Result Error (List Entry)
unfolding checked_entry
checked_entries [] = ok []
checked_entries (i ∷ is) = do e ← checked_entry i; es ← checked_entries is; ok (e ∷ es)

unfoldable pub contains_id : String → List Entry → Bool
contains_id i [] = false
contains_id i (e ∷ es) =
    (elim e.entry_id [ none ↦ false | some j ↦ str_eq j i ]) || contains_id i es

-- `len(entry_ids) != len(set(entry_ids))`
unfoldable pub ids_repeat : List Entry → Bool
unfolding contains_id
ids_repeat [] = false
ids_repeat (e ∷ es) =
    (elim e.entry_id [ none ↦ false | some i ↦ contains_id i es ]) || ids_repeat es

unfoldable pub limits_eq : BudgetLimits → BudgetLimits → Bool
limits_eq a b =
    a.gpu_limit == b.gpu_limit && a.api_limit == b.api_limit && a.total_limit == b.total_limit

unfoldable pub checked_items :
    BudgetLimits → Option BudgetLimits → List RawItem → Result Error (List Entry)
checked_items limits hard_stops items = do
  raise_if (elim hard_stops [ none ↦ true | some l ↦ not (limits_eq l limits) ]) hard_stops_disagree
  es ← checked_entries items
  raise_if (ids_repeat es) duplicate_entry_ids
  assert_limits limits (totals true es)
  ok es

-- `CostLedger._load_unlocked`: `none` is a path that does not exist.
unfoldable pub load_document : BudgetLimits → Option RawFile → Result Error (List Entry)
unfolding checked_items
load_document limits none = ok []
load_document limits (some not_document) = err invalid_ledger
load_document limits (some (document d)) = elim d.entries [
  | none ↦ err invalid_ledger
  | some items ↦ do
    raise_if (not (d.schema_version == 1) || not (str_eq d.currency "USD")) invalid_protocol
    checked_items limits d.hard_stops items
]

-- What the YAML reader returns of an entry that the ledger has written.
unfoldable pub raw_entry : Entry → RawItem
raw_entry e = mapping (record {
  has_required_keys = true;
  has_other_keys = false;
  kind = some e.kind;
  amount_usd = micros e.amount;
  description = some e.description;
  status = some e.status;
  occurred_at = aware e.occurred_at;
  entry_id = elim e.entry_id [ none ↦ no_id | some i ↦ text_id i ];
})
