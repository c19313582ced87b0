-- ===== src/Budget/BatchCall.antt =====
-- `CostLedger.reserve_batch` (budget.py): every missing item of one inventory is reserved, or none is.
use model_forensics_value_le.Prelude.{String, true, false, List, [], ◌∷◌, ◌++◌}
use model_forensics_value_le.Budget.Entry.{CostEntry, Entry}
use model_forensics_value_le.Budget.Document.{BudgetLimits, Totals, totals, assert_limits}
use model_forensics_value_le.Budget.Store.{Yaml, Action, ◌>>=◌, ◌>>◌, pure, lift, load, write}
use model_forensics_value_le.Budget.Batch.{Plan, batch_entries, batch_plan}

pub record BatchReservationSnapshot : Type 0 where
  pub incurred_before : Totals
  pub committed_before : Totals
  pub committed_after : Totals
  pub created_entry_ids : List String
  pub covered_entry_ids : List String
  pub document_before_hash : String
  pub document_after_hash : String

abbrev pub batch_snapshot :
    (List Entry → String) → Plan → List Entry → List Entry → BatchReservationSnapshot
batch_snapshot hash p es candidate = record {
  incurred_before = totals false es;
  committed_before = totals true es;
  committed_after = totals true candidate;
  created_entry_ids = p.created;
  covered_entry_ids = p.covered;
  document_before_hash = hash es;
  document_after_hash = hash candidate;
}

-- `hash` is `stable_hash` of the document that holds the entries.
module _ (yaml : Yaml) (limits : BudgetLimits) (hash : List Entry → String) (now : String) where
  -- `if additions: atomic_write_text(…)`
  abbrev pub write_additions : List Entry → List Entry → Action yaml.Text (Unit {0})
  write_additions [] candidate = pure tt
  write_additions (_ ∷ _) candidate = write yaml limits candidate

  -- The end of `reserve_batch`, with the plan made.
  unfoldable pub commit_batch : Plan → List Entry → Action yaml.Text BatchReservationSnapshot
  commit_batch p es = do
    let candidate = es ++ p.additions
    lift (assert_limits limits (totals true candidate))
    write_additions p.additions candidate
    pure (batch_snapshot hash p es candidate)

  -- `CostLedger.reserve_batch`
  unfoldable pub reserve_batch :
      List (String × CostEntry)
      → List String
      → List String
      → Action yaml.Text BatchReservationSnapshot
  reserve_batch reservations required_ids reject_incurred_ids = do
    news ← lift (batch_entries now reservations required_ids reject_incurred_ids)
    es ← load yaml limits
    p ← lift (batch_plan es news required_ids reject_incurred_ids)
    commit_batch p es
