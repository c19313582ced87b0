-- ===== src/GpuBudget/Granted.antt =====
-- A reservation that gpu_budget.py returned: what it left in the ledger.
use model_forensics_value_le.Prelude.{
  ℕ, ◌≤◌, ◌≡◌, refl, sym, ap, ◌∙◌, subst, String, true, false, Option, some, List, [], ◌∷◌, ◌++◌,
  any, ◌==◌, arith, inl, inr, Bool-cases,
}
use model_forensics_value_le.Prelude.Outcome.{ok, Result-cases, ok-injective}
use model_forensics_value_le.Prelude.Text.{codes, has_visible}
use model_forensics_value_le.Budget.Entry
use model_forensics_value_le.Budget.Entry.{
  CostEntry, Amount, is_id, has_id, normalized, cost_amount, some_or, visible_text, stamp_or_now,
}
use model_forensics_value_le.Budget.Document.{BudgetLimits, totals}
use model_forensics_value_le.Budget.Ceilings.{kind_total, read_ceilings, assert_ceilings}
use model_forensics_value_le.Budget.Store.{Yaml, read_file}
use model_forensics_value_le.Budget.Ledger.{ReservationSnapshot, outstanding, with_id}
use model_forensics_value_le.Budget.Totals.{Fits, Fits-assert_limits}
use model_forensics_value_le.Budget.Valid.{IsValid, load_document-IsValid}
use model_forensics_value_le.Budget.Change.{any-has_id}
use model_forensics_value_le.Budget.Calls.Frame.{
  Loads, normalized-facts, snoc-IsValid, written-Loads,
}
use model_forensics_value_le.Budget.Calls.Returned.{
  snapshot_of, commit_once-returned, reserve_once-IsReserved,
}
use model_forensics_value_le.GpuBudget.Receipt.{GpuError, Digests, Receipt, reservation_description}
use model_forensics_value_le.GpuBudget.Reserve.{
  GpuRequest, Checked, checked_request, phase_entry, receipt_of, issue_receipt, reserve_checked,
  reserve_gpu_phase_budget,
}

-- The entry of a phase, as the ledger holds it.
unfoldable pub ledger_entry : String → Checked → Entry.Entry
ledger_entry now q = record {
  kind = Entry.gpu;
  amount = q.phase_maximum;
  description = reservation_description q.phase q.session_hash;
  status = Entry.estimated;
  occurred_at = now;
  entry_id = some q.reservation_id;
}

phase_entry-normalized :
    (now : String) (q : Checked) (e : Entry.Entry)
    → normalized now (phase_entry q) ≡ ok e
    → with_id q.reservation_id e ≡ ledger_entry now q
unfolding normalized phase_entry ledger_entry
phase_entry-normalized now q e h =
    elim (Bool-cases (has_visible (codes (reservation_description q.phase q.session_hash)))) [
      | inl b ↦ ground arith
      | inr b ↦ absurd (ground arith)
    ]

module _ (yaml : Yaml) (limits : BudgetLimits) (digests : Digests) (now : String) where
  -- The entries after a reservation.
  abbrev pub entries_after : List Entry.Entry → Checked → List Entry.Entry
  entries_after es q = es ++ ledger_entry now q ∷ []

  -- What holds when a reservation is returned on a ledger with these entries.
  pub record IsGranted (request : GpuRequest) (es : List Entry.Entry) (r : Receipt)
      (s' : Option yaml.Text) : Type 0 where
    pub q : Checked
    pub checked : checked_request digests limits request ≡ ok q
    pub free : any (has_id q.reservation_id) es ≡ false
    pub idle : outstanding Entry.gpu es ≡ false
    pub before : Fits limits (totals true es)
    pub after : Fits limits (totals true (entries_after es q))
    pub low : (totals true (entries_after es q)).gpu ≤ q.ceiling
    pub receipt : receipt_of limits q (snapshot_of es (ledger_entry now q)) ≡ r
    pub runs : (r.maximum_safe_runtime == 0) ≡ false
    pub stored : Loads yaml limits s' (entries_after es q)

  ceilings_of :
      (n : ℕ) (es : List Entry.Entry)
      → assert_ceilings ((kind_total Entry.gpu, n) ∷ []) (totals true es) ≡ ok tt
      → (totals true es).gpu ≤ n
  unfolding assert_ceilings
  ceilings_of n es h = ground arith

  issue_receipt-eq :
      (q : Checked) (t : ReservationSnapshot) (r : Receipt)
      → issue_receipt limits q t ≡ ok r
      → (receipt_of limits q t ≡ r) × ((r.maximum_safe_runtime == 0) ≡ false)
  unfolding issue_receipt
  issue_receipt-eq q t r h = elim (Bool-cases ((receipt_of limits q t).maximum_safe_runtime == 0)) [
    | inl z ↦ absurd (ground arith)
    | inr p ↦
        let e : receipt_of limits q t ≡ r = ok-injective {E = GpuError} (ground arith) in
        (e, subst (λ (r : Receipt). (r.maximum_safe_runtime == 0) ≡ false) e p)
  ]

  read_gpu_ceiling :
      (n : ℕ)
      → read_ceilings ((some (kind_total Entry.gpu), Entry.micros n) ∷ [])
        ≡ ok ((kind_total Entry.gpu, n) ∷ [])
  unfolding read_ceilings
  read_gpu_ceiling n = refl

  -- A reservation that is returned, by its call of the ledger.
  reserve_checked-IsGranted :
      (request : GpuRequest) (s s' : Option yaml.Text) (es : List Entry.Entry) (q : Checked)
      (t : ReservationSnapshot) (r : Receipt)
      → Loads yaml limits s es
      → checked_request digests limits request ≡ ok q
      → reserve_checked yaml limits digests now q s ≡ (ok t, s')
      → issue_receipt limits q t ≡ ok r
      → IsGranted request es r s'
  unfolding reserve_checked ledger_entry
  reserve_checked-IsGranted request s s' es q t r loads checked reserved issued =
      let v =
        reserve_once-IsReserved yaml limits now s s' es loads q.reservation_id (phase_entry q)
          ((some (kind_total Entry.gpu), Entry.micros q.ceiling) ∷ []) true t reserved in
      let same = phase_entry-normalized now q v.e v.normal in
      let read = ok-injective {E = Entry.Error} (sym (read_gpu_ceiling q.ceiling) ∙ v.read) in
      let (snap, fits, low, written) =
        commit_once-returned yaml limits now s s' es loads v.ceilings (with_id q.reservation_id v.e)
          t v.committed in
      let (made, runs) = issue_receipt-eq q t r issued in
      let new = with_id q.reservation_id v.e in
      let before = load_document-IsValid limits (read_file yaml limits s) loads in
      let valid : IsValid limits (es ++ new ∷ []) =
        snoc-IsValid limits es new before
          (record {
            described = (normalized-facts now (phase_entry q) v.normal).0;
            identified = v.named;
          })
          (rw (sym (any-has_id q.reservation_id es) ∙ v.free)) fits in
      let loads' : Loads yaml limits s' (es ++ new ∷ []) =
        rw written (written-Loads yaml limits (es ++ new ∷ []) valid) in
      let low' : assert_ceilings ((kind_total Entry.gpu, q.ceiling) ∷ [])
            (totals true (entries_after es q))
          ≡ ok tt =
        subst
          (λ e.
            assert_ceilings ((kind_total Entry.gpu, q.ceiling) ∷ []) (totals true (es ++ e ∷ []))
            ≡ ok tt)
          same
          (subst (λ c. assert_ceilings c (totals true (es ++ new ∷ [])) ≡ ok tt) (sym read) low) in
      record {
        q = q;
        checked = checked;
        free = v.free;
        idle = subst (λ k. outstanding k es ≡ false) (ap (λ (e : Entry.Entry). e.kind) same) v.idle;
        before = before.within;
        after =
            subst (λ e. Fits limits (totals true (es ++ e ∷ []))) same
              (Fits-assert_limits limits (totals true (es ++ new ∷ [])) fits);
        low = ceilings_of q.ceiling (entries_after es q) low';
        receipt = sym (ap (receipt_of limits q) (snap ∙ ap (snapshot_of es) same)) ∙ made;
        runs = runs;
        stored = subst (λ e. Loads yaml limits s' (es ++ e ∷ [])) same loads';
      }

  -- A reservation that is returned passed its tests, and its entry is the last of the ledger.
  pub reserve_gpu_phase_budget-IsGranted :
      (request : GpuRequest) (s s' : Option yaml.Text) (es : List Entry.Entry) (r : Receipt)
      → Loads yaml limits s es
      → reserve_gpu_phase_budget yaml limits digests now request s ≡ (ok r, s')
      → IsGranted request es r s'
  unfolding reserve_gpu_phase_budget
  reserve_gpu_phase_budget-IsGranted request s s' es r loads h =
      elim (Result-cases (checked_request digests limits request)) [
        | inl (x, f) ↦ absurd (ground arith)
        | inr (q, f) ↦ elim (Result-cases (reserve_checked yaml limits digests now q s).0) [
          | inl (x, g) ↦ absurd (ground arith)
          | inr (t, g) ↦
              let left : (reserve_checked yaml limits digests now q s).1 ≡ s' = ground arith in
              let both : reserve_checked yaml limits digests now q s ≡ (ok t, s') =
                λ i. (g i, left i) in
              reserve_checked-IsGranted request s s' es q t r loads f both (ground arith)
        ]
      ]
