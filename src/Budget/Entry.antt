-- ===== src/Budget/Entry.antt =====
-- The entries of the cost ledger: `CostEntry`, its `normalized`, and what a YAML file may hold in
-- the place of an entry. Amounts are whole millionths of a dollar, the precision of the ledger.
use model_forensics_value_le.Prelude.{
  ℕ, String, Bool, true, false, not, ◌&&◌, Option, none, some, if◌then◌else◌, ◌==◌, str_eq,
}
use model_forensics_value_le.Prelude.Outcome.{Result, ok, err, ◌>>=◌}
use model_forensics_value_le.Prelude.Text.{codes, has_visible}

-- `CostKind`
pub data Kind : Type 0 where
  gpu api storage other : Kind

pub data Status : Type 0 where
  estimated incurred : Status

pub data Cap : Type 0 where
  gpu_cap api_cap total_cap : Cap

-- Each `raise` of the module.
pub data Error : Type 0 where
  bad_cost bad_cost_kind bad_cost_status blank_description : Error
  stamp_not_text stamp_not_iso stamp_naive : Error
  bad_limits limits_not_positive : Error
  invalid_ledger invalid_protocol hard_stops_disagree : Error
  entry_not_mapping entry_schema entry_kind entry_amount entry_description entry_status : Error
  entry_stamp entry_stamp_naive entry_id_invalid duplicate_entry_ids : Error
  bad_entry_id not_estimated not_incurred : Error
  settled_kind_differs content_differs missing_reservation settlement_kind_differs : Error
  settled_content_differs : Error
  batch_content_differs required_ids_repeat unmatched_response checkpoint_absent : Error
  unknown_ceiling bad_ceiling : Error
  id_already_used outstanding_kind : Error
  budget_exceeded : Cap → Error
  ceiling_exceeded : Error

-- A value where a cost is expected. `numeral_text` is a text that `float` reads.
pub data Amount : Type 0 where
  micros numeral_text : ℕ → Amount
  negative nonfinite boolean not_number : Amount

-- A value where a time stamp is expected, by what `datetime.fromisoformat` makes of it.
pub data Stamp : Type 0 where
  empty : Stamp
  aware naive malformed : String → Stamp
  not_text : Stamp

-- `none` is any value outside the listed ones, in the place of a kind, a status or a text.
pub record CostEntry : Type 0 where
  pub kind : Option Kind
  pub amount_usd : Amount
  pub description : Option String
  pub status : Option Status
  pub occurred_at : Stamp

-- An entry of a validated document; `asdict(entry.normalized())` with an optional `entry_id`.
pub record Entry : Type 0 where
  pub kind : Kind
  pub amount : ℕ
  pub description : String
  pub status : Status
  pub occurred_at : String
  pub entry_id : Option String

abbrev pub kind_eq : Kind → Kind → Bool
kind_eq gpu gpu = true
kind_eq api api = true
kind_eq storage storage = true
kind_eq other other = true
kind_eq _ _ = false

abbrev pub is_estimated : Status → Bool
is_estimated estimated = true
is_estimated incurred = false

-- `float(self.amount_usd)` and the tests on it.
unfoldable pub cost_amount : Amount → Result Error ℕ
cost_amount (micros n) = ok n
cost_amount (numeral_text n) = ok n
cost_amount negative = err bad_cost
cost_amount nonfinite = err bad_cost
cost_amount boolean = err bad_cost
cost_amount not_number = err bad_cost

unfoldable pub some_or {ℓ} : {A : Type ℓ} → Option A → Error → Result Error A
some_or none e = err e
some_or (some a) e = ok a

-- `self.occurred_at or datetime.now(UTC).isoformat()`, and the tests on it.
unfoldable pub stamp_or_now : String → Stamp → Result Error String
stamp_or_now now empty = ok now
stamp_or_now now (aware s) = ok s
stamp_or_now now (naive s) = err stamp_naive
stamp_or_now now (malformed s) = err stamp_not_iso
stamp_or_now now not_text = err stamp_not_text

unfoldable pub visible_text : Option String → Error → Result Error String
unfolding has_visible
visible_text none e = err e
visible_text (some d) e = if has_visible (codes d) then ok d else err e

-- `CostEntry.normalized`; `now` is the clock's reading.
unfoldable pub normalized : String → CostEntry → Result Error Entry
unfolding cost_amount some_or visible_text stamp_or_now
normalized now c = do
  amount ← cost_amount c.amount_usd
  kind ← some_or c.kind bad_cost_kind
  status ← some_or c.status bad_cost_status
  description ← visible_text c.description blank_description
  occurred_at ← stamp_or_now now c.occurred_at
  ok (record {
    kind = kind;
    amount = amount;
    description = description;
    status = status;
    occurred_at = occurred_at;
    entry_id = none;
  })

-- `CostLedger._same_entry_content`
unfoldable pub same_entry_content : Entry → Entry → Bool
same_entry_content a b =
    kind_eq a.kind b.kind
    && a.amount == b.amount
    && str_eq a.description b.description
    && (if is_estimated a.status then is_estimated b.status else not (is_estimated b.status))

-- `item.get("entry_id") == entry_id`
abbrev pub has_id : String → Entry → Bool
has_id i e = elim e.entry_id [ none ↦ false | some j ↦ str_eq j i ]

-- `isinstance(entry_id, str) and entry_id`
abbrev pub is_id : String → Bool
is_id i = not (str_eq i "")
