-- ===== src/GpuBudget/Refused.antt =====
-- The reservations that gpu_budget.py refuses.
use model_forensics_value_le.Prelude.{
  ◌≡◌, sym, String, true, Option, some, List, [], ◌∷◌, arith, inl, inr, subst,
}
use model_forensics_value_le.Prelude.Outcome.{ok, err, Result-cases}
use model_forensics_value_le.Budget.Entry
use model_forensics_value_le.Budget.Entry.{has_id}
use model_forensics_value_le.Budget.Document.{BudgetLimits, contains_id}
use model_forensics_value_le.Budget.Ceilings.{kind_total}
use model_forensics_value_le.Budget.Store.{Yaml}
use model_forensics_value_le.Budget.Ledger.{reserve_once}
use model_forensics_value_le.Budget.Calls.Frame.{Loads}
use model_forensics_value_le.Budget.History.{Request, run}
use model_forensics_value_le.Budget.Safety.{run-reserve_once_used}
use model_forensics_value_le.GpuBudget.Receipt.{GpuError, ledger_error, Digests, Receipt}
use model_forensics_value_le.GpuBudget.Reserve.{
  GpuRequest, Checked, checked_request, phase_entry, reserve_checked, reserve_gpu_phase_budget,
}
use model_forensics_value_le.GpuBudget.Checked.{IsChecked, checked_request-IsChecked}
use model_forensics_value_le.GpuBudget.Granted.{
  ledger_entry, entries_after, reserve_gpu_phase_budget-IsGranted,
}
use model_forensics_value_le.GpuBudget.Accepted.{text_eq_refl}

module _ (yaml : Yaml) (limits : BudgetLimits) (digests : Digests) (now : String) where
  -- A refused reservation of the ledger is a refused request.
  refused_of_reserve_once :
      (request : GpuRequest) (q : Checked) (s : Option yaml.Text) (x : Entry.Error)
      → checked_request digests limits request ≡ ok q
      → reserve_once yaml limits now q.reservation_id
          (phase_entry q)
          ((some (kind_total Entry.gpu), Entry.micros q.ceiling) ∷ [])
          true
          s
        ≡ (err x, s)
      → (x : GpuError) × (reserve_gpu_phase_budget yaml limits digests now request s ≡ (err x, s))
  unfolding reserve_gpu_phase_budget reserve_checked
  refused_of_reserve_once request q s x checked refused =
      (ledger_error x, rw (reserve_gpu_phase_budget, checked, refused))

  refused_of_checked_request :
      (request : GpuRequest) (s : Option yaml.Text) (x : GpuError)
      → checked_request digests limits request ≡ err x
      → reserve_gpu_phase_budget yaml limits digests now request s ≡ (err x, s)
  unfolding reserve_gpu_phase_budget
  refused_of_checked_request request s x bad = rw (reserve_gpu_phase_budget, bad)

  ledger_entry-contains_id :
      (es : List Entry.Entry) (q : Checked)
      → contains_id q.reservation_id (entries_after yaml limits digests now es q) ≡ true
  unfolding contains_id ledger_entry
  ledger_entry-contains_id [] q = ground (arith, text_eq_refl q.reservation_id)
  ledger_entry-contains_id (e ∷ es) q = ground (arith, ledger_entry-contains_id es q)

  -- Two requests of the same phase and session have the same ID.
  same_id :
      (request request' : GpuRequest) (q q' : Checked)
      → IsChecked digests limits request q
      → IsChecked digests limits request' q'
      → request.phase ≡ request'.phase
      → request.session_id ≡ request'.session_id
      → q'.reservation_id ≡ q.reservation_id
  same_id request request' q q' c c' phases sessions =
      let same_phase : q'.phase ≡ q.phase = ground (arith, c.phase_given, c'.phase_given) in
      let same_session : c'.session ≡ c.session =
        ground (arith, c.session_given, c'.session_given) in
      let made = c.reservation_id in
      let made' = c'.reservation_id in rw (made, made', same_phase, same_session)

module _ (yaml : Yaml) (limits : BudgetLimits) (digests : Digests)
    (hash : List Entry.Entry → String) where
  -- Once a reservation was returned, each later request of the same phase and session raises and
  -- leaves the file alone, whatever its amounts are and whatever calls of the ledger, settlements
  -- included, came between.
  pub reserve_gpu_phase_budget-again :
      (now now' : String) (request request' : GpuRequest) (rs : List (String × Request))
      (s s' : Option yaml.Text) (es : List Entry.Entry) (r : Receipt)
      → Loads yaml limits s es
      → reserve_gpu_phase_budget yaml limits digests now request s ≡ (ok r, s')
      → request.phase ≡ request'.phase
      → request.session_id ≡ request'.session_id
      → let after = run yaml limits hash rs s' in
        (x : GpuError) × (reserve_gpu_phase_budget yaml limits digests now' request' after
          ≡ (err x, after))
  reserve_gpu_phase_budget-again now now' request request' rs s s' es r loads h phases sessions =
      let g =
        reserve_gpu_phase_budget-IsGranted yaml limits digests now request s s' es r loads h in
      let after = run yaml limits hash rs s' in
      elim (Result-cases (checked_request digests limits request')) [
        | inl (x, bad) ↦
            (x, refused_of_checked_request yaml limits digests now' request' after x bad)
        | inr (q', good) ↦
            let c = checked_request-IsChecked digests limits request g.q g.checked in
            let c' = checked_request-IsChecked digests limits request' q' good in
            let same =
              same_id yaml limits digests now request request' g.q q' c c' phases sessions in
            let used = ledger_entry-contains_id yaml limits digests now es g.q in
            let (x, refused) =
              run-reserve_once_used yaml limits hash rs s'
                (entries_after yaml limits digests now es g.q) g.stored q'.reservation_id now'
                (phase_entry q') ((some (kind_total Entry.gpu), Entry.micros q'.ceiling) ∷ []) true
                (subst (λ i. contains_id i (entries_after yaml limits digests now es g.q) ≡ true)
                  (sym same) used) in
            refused_of_reserve_once yaml limits digests now' request' q' after x good refused
      ]
