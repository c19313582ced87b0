-- ===== src/Budget/Calls/Settle.antt =====
-- `settle_reservation` of budget.py, on every branch.
use model_forensics_value_le.Prelude.{
  String, ◌≡◌, ◌⊎◌, refl, true, false, Option, some, List, ◌∙◌, arith, inl, inr, Bool-cases,
  Option-cases,
}
use model_forensics_value_le.Prelude.Outcome.{ok, Result-cases}
use model_forensics_value_le.Prelude.Text.{codes, has_visible}
use model_forensics_value_le.Budget.Entry.{
  Kind, Status, estimated, incurred, is_id, bad_entry_id, settlement_kind_differs,
  missing_reservation, not_incurred, kind_eq, CostEntry, Entry, normalized,
}
use model_forensics_value_le.Budget.Document.{BudgetLimits, totals, assert_limits}
use model_forensics_value_le.Budget.Store.{Yaml, read_file}
use model_forensics_value_le.Budget.Ledger.{
  find_id, replace_id, with_id, has_status, settle_reservation, settle_again, settle_estimate,
}
use model_forensics_value_le.Budget.Totals.{Fits-assert_limits}
use model_forensics_value_le.Budget.Valid.{IsWellFormed, IsValid, load_document-IsValid}
use model_forensics_value_le.Budget.Change.{
  settled, here, next, ids_repeat-replace_id, All-replace_id,
}
use model_forensics_value_le.Budget.Calls.Frame.{
  Loads, Refuses, Leaves, normalized-facts, Stores-Leaves, unchanged-Leaves,
}

Status-cases : (t : Status) → (t ≡ estimated) ⊎ (t ≡ incurred)
Status-cases estimated = inl refl
Status-cases incurred = inr refl

pub kind_eq-eq : (a b : Kind) → kind_eq a b ≡ true → b ≡ a
kind_eq-eq a b h = ground arith

pub replace_id-IsValid :
    (limits : BudgetLimits) (i : String) (e : Entry) (es : List Entry)
    → IsValid limits es
    → IsWellFormed e
    → e.entry_id ≡ some i
    → assert_limits limits (totals true (replace_id i e es)) ≡ ok tt
    → IsValid limits (replace_id i e es)
replace_id-IsValid limits i e es v w named fits = record {
  well_formed = All-replace_id i e es w v.well_formed;
  distinct = ids_repeat-replace_id i e es named ∙ v.distinct;
  within = Fits-assert_limits limits (totals true (replace_id i e es)) fits;
}

module _ (yaml : Yaml) (limits : BudgetLimits) (now : String) (s : Option yaml.Text)
    (es : List Entry) (loads : Loads yaml limits s es) where
  settle_again-same : (old e : Entry) → (settle_again yaml limits now old e es s).1 ≡ s
  unfolding settle_again
  settle_again-same old e = ground arith

  settle_estimate-Leaves :
      (i : String) (old e : Entry)
      → is_id i ≡ true
      → has_visible (codes e.description) ≡ true
      → e.status ≡ incurred
      → e.entry_id ≡ some i
      → find_id i es ≡ some old
      → old.status ≡ estimated
      → Leaves yaml limits s es (settle_estimate yaml limits now i old e es s)
  unfolding settle_estimate
  settle_estimate-Leaves i old e named described paid own found due =
      elim (Bool-cases (kind_eq old.kind e.kind)) [
        | inr differs ↦ inl (settlement_kind_differs, ground arith)
        | inl same ↦ elim (Result-cases (assert_limits limits (totals true (replace_id i e es)))) [
          | inl (x, over) ↦ inl (x, ground arith)
          | inr (_, fits) ↦
              let v = load_document-IsValid limits (read_file yaml limits s) loads in
              Stores-Leaves yaml limits s es loads (replace_id i e es) _
                (totals false (replace_id i e es), ground arith, fits)
                (replace_id-IsValid limits i e es v
                  (record { described = described; identified = rw own named }) own fits)
                (next here (settled i old e found due paid (kind_eq-eq old.kind e.kind same) own))
        ]
      ]

  -- Past its own checks `settle_reservation` goes on by the status of the entry that it found.
  pub settle_reservation-cases :
      (i : String) (entry : CostEntry)
      → Refuses yaml limits s (settle_reservation yaml limits now i entry s)
        ⊎ ((e old : Entry) × (normalized now entry ≡ ok e)
            × (is_id i ≡ true)
            × (entry.status ≡ some incurred)
            × (find_id i es ≡ some old)
            × (((old.status ≡ incurred)
                  × (settle_reservation yaml limits now i entry s
                      ≡ settle_again yaml limits now old (with_id i e) es s))
                ⊎ ((old.status ≡ estimated)
                    × (settle_reservation yaml limits now i entry s
                        ≡ settle_estimate yaml limits now i old (with_id i e) es s))))
  unfolding settle_reservation
  settle_reservation-cases i entry = elim (Bool-cases (is_id i)) [
    | inr blank ↦ inl (bad_entry_id, ground arith)
    | inl named ↦ elim (Bool-cases (has_status incurred entry.status)) [
      | inr other ↦ inl (not_incurred, ground arith)
      | inl paid ↦ elim (Option-cases (find_id i es)) [
        | inl absent ↦ inl (missing_reservation, ground arith)
        | inr (old, found) ↦ elim (Result-cases (normalized now entry)) [
          | inl (x, bad) ↦ inl (x, ground arith)
          | inr (e, good) ↦ inr (
            e,
            old,
            good,
            named,
            ground arith,
            found,
            elim (Status-cases old.status) [
              | inl due ↦ inr (due, ground arith)
              | inr done ↦ inl (done, ground arith)
            ],
          )
        ]
      ]
    ]
  ]

  pub settle_reservation-Leaves :
      (i : String) (entry : CostEntry)
      → Leaves yaml limits s es (settle_reservation yaml limits now i entry s)
  settle_reservation-Leaves i entry = elim (settle_reservation-cases i entry) [
    | inl refused ↦ inl refused
    | inr (e, old, good, named, paid, found, inl (done, same)) ↦
        unchanged-Leaves yaml limits s es loads _ (rw same (settle_again-same old (with_id i e)))
    | inr (e, old, good, named, paid, found, inr (due, same)) ↦
        let (described, _, status) = normalized-facts now entry good in
        rw same (settle_estimate-Leaves i old (with_id i e) named described (cc) refl found due)
  ]
