-- ===== src/Budget/Settlement.antt =====
-- What `settle_reservation` of budget.py does to an estimate.
use model_forensics_value_le.Prelude.{
  ℕ, ◌+◌, String, ◌≡◌, refl, Bool, true, false, Option, some, List, inl, inr, arith,
}
use model_forensics_value_le.Prelude.Outcome.{ok, Result-cases}
use model_forensics_value_le.Budget.Entry.{
  Kind, gpu, api, storage, other, kind_eq, CostEntry, Entry, estimated, incurred, is_id, normalized,
}
use model_forensics_value_le.Budget.Document.{BudgetLimits, Totals, totals, assert_limits}
use model_forensics_value_le.Budget.Store.{Yaml, read_file, ledger_document}
use model_forensics_value_le.Budget.Ledger.{
  find_id, replace_id, with_id, settle_reservation, settle_estimate,
}
use model_forensics_value_le.Budget.Totals.{cost_of, totals-spent, spent-replace_id}
use model_forensics_value_le.Budget.Valid.{load_document-IsValid}
use model_forensics_value_le.Budget.Calls.Frame.{Loads, written-Loads, normalized-facts}
use model_forensics_value_le.Budget.Calls.Settle.{replace_id-IsValid, kind_eq-eq}

cost_sum : Bool → Entry → ℕ
cost_sum inc e = cost_of inc gpu e + cost_of inc api e + cost_of inc storage e + cost_of inc other e

cost_of_all : (e : Entry) → cost_sum true e ≡ e.amount
unfolding cost_sum cost_of
cost_of_all e = ground arith

cost_of_paid : (e : Entry) → e.status ≡ incurred → cost_sum false e ≡ e.amount
unfolding cost_sum cost_of
cost_of_paid e h = ground arith

cost_of_due : (e : Entry) → e.status ≡ estimated → cost_sum false e ≡ 0
unfolding cost_sum cost_of
cost_of_due e h = ground arith

-- Replacing an estimate by an incurred cost of its kind exchanges the two amounts in the committed
-- total, and adds the cost to the incurred one.
total-replace_id :
    (i : String) (new old : Entry) (es : List Entry)
    → find_id i es ≡ some old
    → old.status ≡ estimated
    → new.status ≡ incurred
    → new.kind ≡ old.kind
    → let fs = replace_id i new es in
      ((totals true fs).total + old.amount ≡ (totals true es).total + new.amount)
      × ((totals false fs).total ≡ (totals false es).total + new.amount)
unfolding cost_sum
total-replace_id i new old es found due paid kind =
    let fs = replace_id i new es in
    let moved = λ (inc : Bool) (k : Kind). spent-replace_id inc k i new old es found in
    let free = cost_of_due old due in
    (
      omega (
        arith,
        totals-spent true es,
        totals-spent true fs,
        moved true gpu,
        moved true api,
        moved true storage,
        moved true other,
        cost_of_all new,
        cost_of_all old,
      ),
      omega (
        arith,
        totals-spent false es,
        totals-spent false fs,
        moved false gpu,
        moved false api,
        moved false storage,
        moved false other,
        cost_of_paid new paid,
        free,
      ),
    )

module _ (yaml : Yaml) (limits : BudgetLimits) (now : String) where
  settle-returned :
      (s s' : Option yaml.Text) (es : List Entry) (i : String) (c : CostEntry) (t : Totals)
      (old : Entry)
      → Loads yaml limits s es
      → find_id i es ≡ some old
      → old.status ≡ estimated
      → settle_reservation yaml limits now i c s ≡ (ok t, s')
      → (e : Entry) × (normalized now c ≡ ok e)
        × (is_id i ≡ true)
        × (e.status ≡ incurred)
        × (settle_estimate yaml limits now i old (with_id i e) es s ≡ (ok t, s'))
  unfolding settle_reservation
  settle-returned s s' es i c t old loads found due h = elim (Result-cases (normalized now c)) [
    | inl (x, bad) ↦ absurd (ground arith)
    | inr (e, good) ↦
        (e, good, ground arith, ground (arith, normalized-facts now c good), ground arith)
  ]

  settle_estimate-returned :
      (s s' : Option yaml.Text) (es : List Entry) (i : String) (old e : Entry) (t : Totals)
      → settle_estimate yaml limits now i old e es s ≡ (ok t, s')
      → let fs = replace_id i e es in
        (kind_eq old.kind e.kind ≡ true)
        × (assert_limits limits (totals true fs) ≡ ok tt)
        × (t ≡ totals false fs)
        × (s' ≡ some (yaml.safe_dump (ledger_document limits fs)))
  unfolding settle_estimate
  settle_estimate-returned s s' es i old e t h =
      elim (Result-cases (assert_limits limits (totals true (replace_id i e es)))) [
        | inl (x, over) ↦ absurd (ground arith)
        | inr (_, fits) ↦ (ground arith, fits, ground arith, ground arith)
      ]

  -- A settlement that returns, of an ID whose entry is an estimate, leaves a file that loads and in
  -- which the first entry with the ID is the incurred cost, of the estimate's kind. It returns the
  -- incurred totals. The committed total loses the estimate and gains the cost, and the incurred
  -- total gains the cost.
  pub settle_reservation-estimate :
      (s s' : Option yaml.Text) (es : List Entry) (i : String) (c : CostEntry) (t : Totals)
      (old : Entry)
      → Loads yaml limits s es
      → find_id i es ≡ some old
      → old.status ≡ estimated
      → settle_reservation yaml limits now i c s ≡ (ok t, s')
      → (e : Entry) × (normalized now c ≡ ok e)
        × (e.kind ≡ old.kind)
        × (e.status ≡ incurred)
        × Loads yaml limits s' (replace_id i (with_id i e) es)
        × (t ≡ totals false (replace_id i (with_id i e) es))
        × ((totals true (replace_id i (with_id i e) es)).total + old.amount
            ≡ (totals true es).total + e.amount)
        × ((totals false (replace_id i (with_id i e) es)).total
            ≡ (totals false es).total + e.amount)
  settle_reservation-estimate s s' es i c t old loads found due h =
      let (e, good, named, paid, call) = settle-returned s s' es i c t old loads found due h in
      let new = with_id i e in
      let (same, fits, result, stored) = settle_estimate-returned s s' es i old new t call in
      let kind = kind_eq-eq old.kind e.kind same in
      let before = load_document-IsValid limits (read_file yaml limits s) loads in
      let valid =
        replace_id-IsValid limits i new es before
          (record { described = (normalized-facts now c good).0; identified = named }) refl fits in
      let (committed, incurred_total) = total-replace_id i new old es found due paid kind in
      (
        e,
        good,
        kind,
        paid,
        rw stored (written-Loads yaml limits (replace_id i new es) valid),
        result,
        committed,
        incurred_total,
      )
