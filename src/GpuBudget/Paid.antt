-- ===== src/GpuBudget/Paid.antt =====
-- The entry of a settled phase of gpu_budget.py, and the tests that it passes.
use model_forensics_value_le.Prelude.{
  ℕ, ◌≡◌, ◌∙◌, ap, String, true, false, some, List, [], ◌∷◌, arith, inl, inr, eq_iff, Bool-cases,
}
use model_forensics_value_le.Prelude.Outcome.{ok, err, Result-cases}
use model_forensics_value_le.Prelude.Text.{codes, has_visible}
use model_forensics_value_le.Budget.Entry
use model_forensics_value_le.Budget.Entry.{
  has_id, kind_eq, CostEntry, normalized, same_entry_content,
}
use model_forensics_value_le.Budget.Document.{totals}
use model_forensics_value_le.Budget.Ledger.{find_id, replace_id, with_id}
use model_forensics_value_le.GpuBudget.Receipt.{already_settled, Receipt, reservation_description}
use model_forensics_value_le.GpuBudget.Resume.{
  with_entry_id, only_one, check_entry, entry_in_ledger,
}
use model_forensics_value_le.GpuBudget.Accepted.{text_eq_refl}

-- The incurred cost of a phase, as the settlement gives it to the ledger.
abbrev pub invoice : Receipt → ℕ → CostEntry
invoice r n = record {
  kind = some Entry.gpu;
  amount_usd = Entry.micros n;
  description = some (reservation_description r.phase r.session_hash);
  status = some Entry.incurred;
  occurred_at = Entry.empty;
}

-- The entry is the incurred cost `n` of the phase of the receipt.
pub record IsPaid (r : Receipt) (n : ℕ) (e : Entry.Entry) : Type 0 where
  pub kind : e.kind ≡ Entry.gpu
  pub amount : e.amount ≡ n
  pub description : e.description ≡ reservation_description r.phase r.session_hash
  pub status : e.status ≡ Entry.incurred

pub invoice-IsPaid :
    (now : String) (r : Receipt) (n : ℕ) (e : Entry.Entry)
    → normalized now (invoice r n) ≡ ok e
    → IsPaid r n e
unfolding normalized
invoice-IsPaid now r n e h =
    elim (Bool-cases (has_visible (codes (reservation_description r.phase r.session_hash)))) [
      | inl b ↦ record {
        kind = ground arith;
        amount = ground arith;
        description = ground arith;
        status = ground arith;
      }
      | inr b ↦ absurd (ground arith)
    ]

pub same_entry_content-IsPaid :
    (r : Receipt) (n : ℕ) (i : String) (old e : Entry.Entry)
    → IsPaid r n e
    → same_entry_content old (with_id i e) ≡ true
    → IsPaid r n old
unfolding same_entry_content
same_entry_content-IsPaid r n i old e paid h = record {
  kind = ground (arith, paid.kind);
  amount = ground (arith, paid.amount);
  description = ground (arith, paid.description, eq_iff old.description e.description);
  status = ground (arith, paid.status);
}

pub with_entry_id-find_id :
    (i : String) (old : Entry.Entry) (es : List Entry.Entry)
    → with_entry_id i es ≡ old ∷ []
    → find_id i es ≡ some old
unfolding with_entry_id find_id
with_entry_id-find_id i old [] h = ground arith
with_entry_id-find_id i old (e ∷ es) h = ground (arith, with_entry_id-find_id i old es)

pub with_entry_id-replace_id :
    (i : String) (new old : Entry.Entry) (es : List Entry.Entry)
    → with_entry_id i es ≡ old ∷ []
    → has_id i new ≡ true
    → with_entry_id i (replace_id i new es) ≡ new ∷ []
unfolding with_entry_id replace_id
with_entry_id-replace_id i new old [] h k = ground arith
with_entry_id-replace_id i new old (e ∷ es) h k =
    ground (arith, with_entry_id-replace_id i new old es)

check_entry_paid :
    (r : Receipt) (n : ℕ) (e : Entry.Entry) (total : ℕ)
    → IsPaid r n e
    → (check_entry r false e total ≡ ok tt) × (check_entry r true e total ≡ err already_settled)
unfolding check_entry
check_entry_paid r n e total p =
    let d = text_eq_refl (reservation_description r.phase r.session_hash) in
    (rw (p.kind, p.description, p.status, d), rw (p.kind, p.description, p.status, d))

pub entry_in_ledger_paid :
    (r : Receipt) (n : ℕ) (e : Entry.Entry) (es : List Entry.Entry)
    → with_entry_id r.reservation_id es ≡ e ∷ []
    → IsPaid r n e
    → (entry_in_ledger r false es ≡ ok e) × (entry_in_ledger r true es ≡ err already_settled)
unfolding entry_in_ledger
entry_in_ledger_paid r n e es only p =
    let (free, active) = check_entry_paid r n e (totals true es).gpu p in
    (rw (only, free), rw (only, active))

only_one-eq : (es : List Entry.Entry) (e : Entry.Entry) → only_one es ≡ ok e → es ≡ e ∷ []
only_one-eq es e h = ground arith

pub entry_in_ledger-only :
    (r : Receipt) (e : Entry.Entry) (es : List Entry.Entry)
    → entry_in_ledger r false es ≡ ok e
    → with_entry_id r.reservation_id es ≡ e ∷ []
unfolding entry_in_ledger
entry_in_ledger-only r e es h = elim (Result-cases (only_one (with_entry_id r.reservation_id es))) [
  | inl (x, f) ↦ absurd (ground arith)
  | inr (old, f) ↦ elim (Result-cases (check_entry r false old (totals true es).gpu)) [
    | inl (x, g) ↦ absurd (ground arith)
    | inr (_, g) ↦
        let same : old ≡ e = ground arith in
        only_one-eq (with_entry_id r.reservation_id es) e (f ∙ ap (λ e. ok e) same)
  ]
]
