-- ===== src/Budget/Calls/Batch.antt =====
-- `reserve_batch` of budget.py, on every branch.
use model_forensics_value_le.Prelude.{
  String, ◌≡◌, refl, subst, ◌⊎◌, true, Option, List, [], ◌∷◌, ◌++◌, All, All-append, arith, inl,
  inr, List-cases,
}
use model_forensics_value_le.Prelude.Outcome.{ok, Result-cases}
use model_forensics_value_le.Budget.Entry.{Entry, CostEntry}
use model_forensics_value_le.Budget.Document.{BudgetLimits, ids_repeat}
use model_forensics_value_le.Budget.Change.{here}
use model_forensics_value_le.Budget.Fresh.{ids_repeat-append, Changes-append}
use model_forensics_value_le.Budget.Valid.{IsWellFormed}
use model_forensics_value_le.Budget.Batch.{
  Plan, normalize_all, plan_batch, keyed, batch_entries, batch_plan,
}
use model_forensics_value_le.Budget.BatchCall.{reserve_batch, commit_batch}
use model_forensics_value_le.Budget.Document.{totals, assert_limits}
use model_forensics_value_le.Budget.Store.{Yaml, read_file}
use model_forensics_value_le.Budget.Totals.{Fits-assert_limits}
use model_forensics_value_le.Budget.Valid.{IsValid, load_document-IsValid}
use model_forensics_value_le.Budget.Inventory.{
  IsNamed, IsInventory, IsNew, plan_batch-IsNew, normalize_all-IsInventory,
}
use model_forensics_value_le.Budget.BatchCall.{batch_snapshot}
use model_forensics_value_le.Budget.Calls.Frame.{
  Loads, Stores, Leaves, Stores-Leaves, unchanged-Leaves,
}

batch_entries-normalized :
    (now : String) (reservations : List (String × CostEntry)) (required reject : List String)
    {ns : List Entry}
    → batch_entries now reservations required reject ≡ ok ns
    → normalize_all now reservations [] ≡ ok ns
unfolding batch_entries
batch_entries-normalized now reservations required reject h = ground arith

nothing-IsInventory : IsInventory []
unfolding ids_repeat
nothing-IsInventory = record { named = tt; distinct = refl }

batch_entries-IsInventory :
    (now : String) (reservations : List (String × CostEntry)) (required reject : List String)
    {ns : List Entry}
    → batch_entries now reservations required reject ≡ ok ns
    → IsInventory ns
batch_entries-IsInventory now reservations required reject h =
    normalize_all-IsInventory now reservations [] nothing-IsInventory
      (batch_entries-normalized now reservations required reject h)

batch_plan-planned :
    (es ns : List Entry) (required reject : List String) {p : Plan}
    → batch_plan es ns required reject ≡ ok p
    → plan_batch es (keyed ns) ≡ ok p
unfolding batch_plan
batch_plan-planned es ns required reject h = ground arith

IsNamed-IsWellFormed : (es : List Entry) → All IsNamed es → All IsWellFormed es
IsNamed-IsWellFormed [] named = tt
IsNamed-IsWellFormed (e ∷ es) named = (
  record { described = named.0.described; identified = rw named.0.has_it named.0.good_id },
  IsNamed-IsWellFormed es named.1,
)

-- The ledger with the additions of a plan.
append-IsValid :
    (limits : BudgetLimits) (es ns new : List Entry)
    → IsValid limits es
    → IsNew es ns new
    → assert_limits limits (totals true (es ++ new)) ≡ ok tt
    → IsValid limits (es ++ new)
append-IsValid limits es ns new v q fits = record {
  well_formed = All-append IsWellFormed es new v.well_formed (IsNamed-IsWellFormed new q.named);
  distinct = ids_repeat-append es new v.distinct q.distinct q.fresh;
  within = Fits-assert_limits limits (totals true (es ++ new)) fits;
}

module _ (yaml : Yaml) (limits : BudgetLimits) (hash : List Entry → String) (now : String)
    (s : Option yaml.Text) (es : List Entry) (loads : Loads yaml limits s es) where
  commit_batch-cases :
      (p : Plan)
      → ((commit_batch yaml limits hash now p es s).1 ≡ s)
        ⊎ Stores yaml limits (es ++ p.additions) (commit_batch yaml limits hash now p es s)
  unfolding commit_batch
  commit_batch-cases p =
      let candidate : List Entry = es ++ p.additions in
      elim (Result-cases (assert_limits limits (totals true candidate))) [
        | inl (x, over) ↦ inl (ground arith)
        | inr (_, fits) ↦ elim (List-cases p.additions) [
          | inl nothing_new ↦ inl (ground arith)
          | inr (e, rest, some_new) ↦ inr (batch_snapshot hash p es candidate, ground arith, fits)
        ]
      ]

  commit_batch-Leaves :
      (ns : List Entry) (p : Plan)
      → IsNew es ns p.additions
      → Leaves yaml limits s es (commit_batch yaml limits hash now p es s)
  commit_batch-Leaves ns p q = elim (commit_batch-cases p) [
    | inl same ↦ unchanged-Leaves yaml limits s es loads _ same
    | inr stores ↦
        let before = load_document-IsValid limits (read_file yaml limits s) loads in
        let after = append-IsValid limits es ns p.additions before q stores.2 in
        Stores-Leaves yaml limits s es loads (es ++ p.additions) _ stores after
          (Changes-append es es p.additions after.distinct here)
  ]

  pub reserve_batch-Leaves :
      (reservations : List (String × CostEntry)) (required reject : List String)
      → Leaves yaml limits s es (reserve_batch yaml limits hash now reservations required reject s)
  unfolding reserve_batch
  reserve_batch-Leaves reservations required reject =
      elim (Result-cases (batch_entries now reservations required reject)) [
        | inl (x, bad) ↦ inl (x, ground arith)
        | inr (ns, good) ↦ elim (Result-cases (batch_plan es ns required reject)) [
          | inl (x, bad) ↦ inl (x, ground arith)
          | inr (p, planned) ↦
              subst (Leaves yaml limits s es) {x = commit_batch yaml limits hash now p es s}
                (ground arith)
                (commit_batch-Leaves ns p (
                  plan_batch-IsNew es ns
                    (batch_entries-IsInventory now reservations required reject good)
                    (batch_plan-planned es ns required reject planned)))
        ]
      ]
