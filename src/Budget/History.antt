-- ===== src/Budget/History.antt =====
-- A history of calls on one ledger file of budget.py, each of which may raise.
use model_forensics_value_le.Prelude.{String, Bool, Option, List, [], ◌∷◌, inl, inr}
use model_forensics_value_le.Prelude.Outcome.{Result}
use model_forensics_value_le.Budget.Entry.{Amount, CostEntry, Entry, Error}
use model_forensics_value_le.Budget.Document.{BudgetLimits}
use model_forensics_value_le.Budget.Ceilings.{TotalKey}
use model_forensics_value_le.Budget.Store.{Yaml}
use model_forensics_value_le.Budget.Ledger.{
  append, reserve, reserve_once, settle_reservation, assert_estimate_fits,
}
use model_forensics_value_le.Budget.BatchCall.{reserve_batch}
use model_forensics_value_le.Budget.Change.{Changes, here, Changes-trans}
use model_forensics_value_le.Budget.Calls.Frame.{Loads, Leaves}
use model_forensics_value_le.Budget.Calls.Reserve.{
  append-Leaves, reserve-Leaves, assert_estimate_fits-Leaves,
}
use model_forensics_value_le.Budget.Calls.Once.{reserve_once-Leaves}
use model_forensics_value_le.Budget.Calls.Settle.{settle_reservation-Leaves}
use model_forensics_value_le.Budget.Calls.Batch.{reserve_batch-Leaves}

-- A call with its arguments.
pub data Request : Type 0 where
  append_entry estimate_fits : CostEntry → Request
  reserve_entry settle_entry : String → CostEntry → Request
  reserve_entry_once : String → CostEntry → List (Option TotalKey × Amount) → Bool → Request
  reserve_entries : List (String × CostEntry) → List String → List String → Request

-- How a call left the file, whatever it returned.
after : {T A : Type 0} → Result Error A × Option T → Option T
after r = r.1

module _ (yaml : Yaml) (limits : BudgetLimits) (hash : List Entry → String) where
  -- One call, at the time that the clock reads.
  unfoldable pub call : String → Request → Option yaml.Text → Option yaml.Text
  unfolding after
  call now (append_entry c) s = after (append yaml limits now c s)
  call now (estimate_fits c) s = after (assert_estimate_fits yaml limits now c s)
  call now (reserve_entry i c) s = after (reserve yaml limits now i c s)
  call now (settle_entry i c) s = after (settle_reservation yaml limits now i c s)
  call now (reserve_entry_once i c most alone) s =
      after (reserve_once yaml limits now i c most alone s)
  call now (reserve_entries batch required reject) s =
      after (reserve_batch yaml limits hash now batch required reject s)

  unfoldable pub run : List (String × Request) → Option yaml.Text → Option yaml.Text
  unfolding call
  run [] s = s
  run ((now, r) ∷ rs) s = run rs (call now r s)

  -- The file loads, with entries that the steps of the ledger lead to.
  abbrev pub Continues : List Entry → Option yaml.Text → Type 0
  Continues es s = (fs : List Entry) × Loads yaml limits s fs × Changes es fs

  Leaves-Continues :
      {A : Type 0} (s : Option yaml.Text) (es : List Entry) (r : Result Error A × Option yaml.Text)
      → Loads yaml limits s es
      → Leaves yaml limits s es r
      → Continues es r.1
  Leaves-Continues s es r loads (inl (x, same)) = (es, rw same loads, here)
  Leaves-Continues s es r loads (inr (a, fs, returned, loads', steps)) = (fs, loads', steps)

  call-Continues :
      (now : String) (r : Request) (s : Option yaml.Text) (es : List Entry)
      → Loads yaml limits s es
      → Continues es (call now r s)
  unfolding call
  call-Continues now (append_entry c) s es h =
      Leaves-Continues s es _ h (append-Leaves yaml limits now s es h c)
  call-Continues now (estimate_fits c) s es h =
      Leaves-Continues s es _ h (assert_estimate_fits-Leaves yaml limits now s es h c)
  call-Continues now (reserve_entry i c) s es h =
      Leaves-Continues s es _ h (reserve-Leaves yaml limits now s es h i c)
  call-Continues now (settle_entry i c) s es h =
      Leaves-Continues s es _ h (settle_reservation-Leaves yaml limits now s es h i c)
  call-Continues now (reserve_entry_once i c most alone) s es h =
      Leaves-Continues s es _ h (reserve_once-Leaves yaml limits now s es h i c most alone)
  call-Continues now (reserve_entries batch required reject) s es h =
      Leaves-Continues s es _ h
        (reserve_batch-Leaves yaml limits hash now s es h batch required reject)

  pub run-Continues :
      (rs : List (String × Request)) (s : Option yaml.Text) (es : List Entry)
      → Loads yaml limits s es
      → Continues es (run rs s)
  unfolding run
  run-Continues [] s es h = (es, h, here)
  run-Continues ((now, r) ∷ rs) s es h =
      let (fs, loads, steps) = call-Continues now r s es h in
      let (gs, loads', more) = run-Continues rs (call now r s) fs loads in
      (gs, loads', Changes-trans steps more)
