-- ===== src/GpuBudget/Settled.antt =====
-- What a settlement of gpu_budget.py leaves for the tests on the receipt.
use model_forensics_value_le.Prelude.{
  ℕ, ◌≡◌, ◌∙◌, refl, ap, String, true, false, Option, some, List, [], ◌∷◌, arith, inl, inr, subst,
  ◌⊎◌,
}
use model_forensics_value_le.Prelude.Outcome.{ok, err, Result-cases}
use model_forensics_value_le.Budget.Entry
use model_forensics_value_le.Budget.Entry.{
  has_id, kind_eq, CostEntry, normalized, same_entry_content,
}
use model_forensics_value_le.Budget.Document.{BudgetLimits, Totals}
use model_forensics_value_le.Budget.Store.{Yaml}
use model_forensics_value_le.Budget.Ledger.{
  find_id, replace_id, with_id, settle_reservation, settle_again,
}
use model_forensics_value_le.Budget.Settlement.{settle_reservation-estimate}
use model_forensics_value_le.Budget.Calls.Frame.{Loads}
use model_forensics_value_le.GpuBudget.Receipt.{
  already_settled, Digests, Receipt, validate_receipt_invariants,
}
use model_forensics_value_le.GpuBudget.Resume.{
  with_entry_id, check_stops, entry_in_ledger, validated_ledger_entry, settlement_entry,
  settle_gpu_phase_budget,
}
use model_forensics_value_le.GpuBudget.Accepted.{text_eq_refl}
use model_forensics_value_le.GpuBudget.Paid.{
  invoice, IsPaid, invoice-IsPaid, same_entry_content-IsPaid, with_entry_id-find_id,
  with_entry_id-replace_id, entry_in_ledger_paid, entry_in_ledger-only,
}

Status-cases : (t : Entry.Status) → (t ≡ Entry.estimated) ⊎ (t ≡ Entry.incurred)
Status-cases Entry.estimated = inl refl
Status-cases Entry.incurred = inr refl

module _ (yaml : Yaml) (limits : BudgetLimits) (digests : Digests) where
  -- What the file says of a receipt whose cost is settled.
  pub record IsSettled (r : Receipt) (n : ℕ) (s : Option yaml.Text) : Type 0 where
    pub e : Entry.Entry
    pub found : validated_ledger_entry yaml limits digests r false s ≡ ok e
    pub paid : IsPaid r n e
    pub closed : validated_ledger_entry yaml limits digests r true s ≡ err already_settled

  validated_ledger_entry-parts :
      (r : Receipt) (e : Entry.Entry) (s : Option yaml.Text) (es : List Entry.Entry)
      → Loads yaml limits s es
      → validated_ledger_entry yaml limits digests r false s ≡ ok e
      → (check_stops limits r ≡ ok tt) × (entry_in_ledger r false es ≡ ok e)
  unfolding validated_ledger_entry
  validated_ledger_entry-parts r e s es loads h = elim (Result-cases (check_stops limits r)) [
    | inl (x, f) ↦ absurd (ground arith)
    | inr (_, f) ↦ (f, ground arith)
  ]

  validated_ledger_entry_paid :
      (r : Receipt) (n : ℕ) (e : Entry.Entry) (s : Option yaml.Text) (es : List Entry.Entry)
      → Loads yaml limits s es
      → check_stops limits r ≡ ok tt
      → with_entry_id r.reservation_id es ≡ e ∷ []
      → IsPaid r n e
      → IsSettled r n s
  unfolding validated_ledger_entry
  validated_ledger_entry_paid r n e s es loads stops only p =
      let (free, active) = entry_in_ledger_paid r n e es only p in
      record {
        e = e;
        found = rw (stops, loads, free);
        paid = p;
        closed = rw (stops, loads, active);
      }

  settle_again-parts :
      (now : String) (r : Receipt) (n : ℕ) (s s' : Option yaml.Text) (es : List Entry.Entry)
      (old : Entry.Entry) (t : Totals)
      → Loads yaml limits s es
      → find_id r.reservation_id es ≡ some old
      → old.status ≡ Entry.incurred
      → settle_reservation yaml limits now r.reservation_id (invoice r n) s ≡ (ok t, s')
      → (s ≡ s') × IsPaid r n old
  unfolding settle_reservation settle_again
  settle_again-parts now r n s s' es old t loads found paid h =
      elim (Result-cases (normalized now (invoice r n))) [
        | inl (x, bad) ↦ absurd (ground arith)
        | inr (e, good) ↦
            let same : same_entry_content old (with_id r.reservation_id e) ≡ true = ground arith in
            (
              ground arith,
              same_entry_content-IsPaid r n r.reservation_id old e (invoice-IsPaid now r n e good)
                  same,
            )
      ]

  settle_gpu_phase_budget-parts :
      (now : String) (r : Receipt) (n : ℕ) (s s' : Option yaml.Text) (t : Totals)
      → settle_gpu_phase_budget yaml limits digests now r (Entry.micros n) s ≡ (ok t, s')
      → (old : Entry.Entry) × (validated_ledger_entry yaml limits digests r false s ≡ ok old)
        × (settle_reservation yaml limits now r.reservation_id (invoice r n) s ≡ (ok t, s'))
  unfolding settle_gpu_phase_budget settlement_entry
  settle_gpu_phase_budget-parts now r n s s' t h =
      elim (Result-cases (validate_receipt_invariants digests r)) [
        | inl (x, f) ↦ absurd (ground arith)
        | inr (_, f) ↦ elim (Result-cases (validated_ledger_entry yaml limits digests r false s)) [
          | inl (x, g) ↦ absurd (ground arith)
          | inr (old, g) ↦
              elim (Result-cases
                (settle_reservation yaml limits now r.reservation_id (invoice r n) s).0) [
                  | inl (x, k) ↦ absurd (ground arith)
                  | inr (u, k) ↦
                      let same : u ≡ t = ground arith in
                      let left : (settle_reservation yaml limits now r.reservation_id (invoice r n)
                            s).1
                          ≡ s' =
                        ground arith in
                      (old, g, λ i. ((k ∙ ap (λ t. ok t) same) i, left i))
                ]
        ]
      ]

  -- After a settlement that returned, the ledger has under the ID of the receipt the incurred cost
  -- that was given: a validation of the receipt returns that entry, and one that requires an active
  -- reservation raises, so the phase cannot be resumed. This holds of a first settlement and of one
  -- that finds the cost settled.
  pub settle_gpu_phase_budget-IsSettled :
      (now : String) (r : Receipt) (n : ℕ) (s s' : Option yaml.Text) (es : List Entry.Entry)
      (t : Totals)
      → Loads yaml limits s es
      → settle_gpu_phase_budget yaml limits digests now r (Entry.micros n) s ≡ (ok t, s')
      → IsSettled r n s'
  settle_gpu_phase_budget-IsSettled now r n s s' es t loads h =
      let (old, valid, call) = settle_gpu_phase_budget-parts now r n s s' t h in
      let (stops, inside) = validated_ledger_entry-parts r old s es loads valid in
      let only = entry_in_ledger-only r old es inside in
      let found = with_entry_id-find_id r.reservation_id old es only in
      elim (Status-cases old.status) [
        | inl due ↦
            let (e, good, kind, paid, loads', _, _, _) =
              settle_reservation-estimate yaml limits now s s' es r.reservation_id (invoice r n) t
                old loads found due call in
            let p = invoice-IsPaid now r n e good in
            let new = with_id r.reservation_id e in
            validated_ledger_entry_paid r n new s' (replace_id r.reservation_id new es) loads' stops
              (with_entry_id-replace_id r.reservation_id new old es only
                (text_eq_refl r.reservation_id))
              (record {
                kind = p.kind;
                amount = p.amount;
                description = p.description;
                status = p.status;
              })
        | inr paid ↦
            let (kept, p) = settle_again-parts now r n s s' es old t loads found paid call in
            subst (IsSettled r n) kept (validated_ledger_entry_paid r n old s es loads stops only p)
      ]
