-- ===== src/Budget/Safety.antt =====
-- What no history of calls on the ledger of budget.py can break.
use model_forensics_value_le.Prelude.{
  ◌≤◌, String, ◌≡◌, sym, ◌∙◌, subst, Bool, true, false, Option, some, List, [], ◌∷◌, inl, inr,
  arith,
}
use model_forensics_value_le.Prelude.Outcome.{err}
use model_forensics_value_le.Budget.Entry.{
  Kind, gpu, api, storage, other, Amount, CostEntry, Entry, Error, estimated, incurred,
}
use model_forensics_value_le.Budget.Document.{BudgetLimits, totals, contains_id}
use model_forensics_value_le.Budget.Ceilings.{TotalKey}
use model_forensics_value_le.Budget.Store.{Yaml}
use model_forensics_value_le.Budget.Ledger.{find_id, reserve_once}
use model_forensics_value_le.Budget.Totals.{
  Fits, spent, cost_of, totals-spent, spent-snoc, spent-replace_id,
}
use model_forensics_value_le.Budget.Valid.{load_document-IsValid}
use model_forensics_value_le.Budget.Change.{
  Change, added, settled, Changes, here, next, find_id-append, find_id-replace_id_ne, any-has_id,
  contains_id-snoc, contains_id-replace_id,
}
use model_forensics_value_le.Budget.Calls.Frame.{Loads}
use model_forensics_value_le.Budget.Calls.Once.{reserve_once-cases}
use model_forensics_value_le.Budget.History.{Request, run, run-Continues}

Change-incurred :
    {es fs : List Entry} (i : String) (e : Entry)
    → Change es fs
    → find_id i es ≡ some e
    → e.status ≡ incurred
    → find_id i fs ≡ some e
Change-incurred {es = es} i e (added n fresh) found paid = find_id-append i e es (n ∷ []) found
Change-incurred {es = es} i e (settled j old new has due now kind own) found paid =
    find_id-replace_id_ne i j new e es own found
      (λ same. cc (subst (λ k. find_id k es ≡ some old) same has))

Changes-incurred :
    {es fs : List Entry} (i : String) (e : Entry)
    → Changes es fs
    → find_id i es ≡ some e
    → e.status ≡ incurred
    → find_id i fs ≡ some e
Changes-incurred i e here found paid = found
Changes-incurred i e (next steps step) found paid =
    Change-incurred i e step (Changes-incurred i e steps found paid) paid

cost_of_estimate : (k : Kind) (e : Entry) → e.status ≡ estimated → cost_of false k e ≡ 0
unfolding cost_of
cost_of_estimate k e h = ground arith

Change-spent : {es fs : List Entry} (k : Kind) → Change es fs → spent false k es ≤ spent false k fs
Change-spent {es = es} k (added n fresh) = omega (arith, spent-snoc false k es n)
Change-spent {es = es} k (settled i old new has due now kind own) =
    omega (arith, spent-replace_id false k i new old es has, cost_of_estimate k old due)

Changes-spent :
    {es fs : List Entry} (k : Kind) → Changes es fs → spent false k es ≤ spent false k fs
Changes-spent k here = omega arith
Changes-spent k (next steps step) = omega (arith, Changes-spent k steps, Change-spent k step)

Change-contains_id :
    {es fs : List Entry} (i : String)
    → Change es fs
    → contains_id i es ≡ true
    → contains_id i fs ≡ true
Change-contains_id {es = es} i (added n fresh) h = rw (contains_id-snoc i es n, h)
Change-contains_id {es = es} i (settled j old new has due now kind own) h =
    contains_id-replace_id i j new es own ∙ h

Changes-contains_id :
    {es fs : List Entry} (i : String)
    → Changes es fs
    → contains_id i es ≡ true
    → contains_id i fs ≡ true
Changes-contains_id i here h = h
Changes-contains_id i (next steps step) h =
    Change-contains_id i step (Changes-contains_id i steps h)

module _ (yaml : Yaml) (limits : BudgetLimits) (hash : List Entry → String)
    (rs : List (String × Request)) (s : Option yaml.Text) (es : List Entry)
    (loads : Loads yaml limits s es) where
  -- From a ledger file that loads, any sequence of calls, failed ones included, ends in a file
  -- that loads and whose committed totals, estimates included, are within the GPU, the API and
  -- the total hard stop.
  pub run-Fits :
      (fs : List Entry) × Loads yaml limits (run yaml limits hash rs s) fs
      × Fits limits (totals true fs)
  run-Fits =
      let (fs, loads', steps) = run-Continues yaml limits hash rs s es loads in
      (fs, loads', (load_document-IsValid limits _ loads').within)

  -- An incurred entry that is found under an ID is still found, unchanged, after any sequence of
  -- calls.
  pub run-find_id_incurred :
      (i : String) (e : Entry)
      → find_id i es ≡ some e
      → e.status ≡ incurred
      → (fs : List Entry) × Loads yaml limits (run yaml limits hash rs s) fs
        × (find_id i fs ≡ some e)
  run-find_id_incurred i e found paid =
      let (fs, loads', steps) = run-Continues yaml limits hash rs s es loads in
      (fs, loads', Changes-incurred i e steps found paid)

  -- No sequence of calls lowers the incurred total of a kind, or that of all kinds.
  pub run-totals_incurred :
      (fs : List Entry) × Loads yaml limits (run yaml limits hash rs s) fs
      × ((totals false es).gpu ≤ (totals false fs).gpu)
      × ((totals false es).api ≤ (totals false fs).api)
      × ((totals false es).storage ≤ (totals false fs).storage)
      × ((totals false es).other ≤ (totals false fs).other)
      × ((totals false es).total ≤ (totals false fs).total)
  run-totals_incurred =
      let (fs, loads', steps) = run-Continues yaml limits hash rs s es loads in
      let (g, a, st, o, t) = totals-spent false es in
      let (g', a', st', o', t') = totals-spent false fs in
      let pg = Changes-spent gpu steps in
      let pa = Changes-spent api steps in
      let ps = Changes-spent storage steps in
      let po = Changes-spent other steps in
      (fs, loads', omega arith, omega arith, omega arith, omega arith, omega arith)

  -- Once the ledger has an entry under an ID, no later `reserve_once` under it returns, whatever
  -- calls came between and whatever its other arguments are: it raises and leaves the file alone.
  pub run-reserve_once_used :
      (i now : String) (entry : CostEntry) (most : List (Option TotalKey × Amount)) (alone : Bool)
      → contains_id i es ≡ true
      → let s' = run yaml limits hash rs s in
        (x : Error) × (reserve_once yaml limits now i entry most alone s' ≡ (err x, s'))
  run-reserve_once_used i now entry most alone used =
      let (fs, loads', steps) = run-Continues yaml limits hash rs s es loads in
      let s' = run yaml limits hash rs s in
      elim (reserve_once-cases yaml limits now s' fs loads' i entry most alone) [
        | inl refused ↦ refused
        | inr (ceilings, e, good, named, free, idle, same) ↦
            absurd (clash (sym (any-has_id i fs) ∙ free) (Changes-contains_id i steps used))
      ]
    where
      clash : {b : Bool} → b ≡ false → b ≡ true → ⊥
      clash p q = cc
