-- ===== src/GpuBudget/Accepted.antt =====
-- The receipts that gpu_budget.py issues, against the tests that it makes when the phase is resumed.
use model_forensics_value_le.Prelude.{
  ℕ, ◌+◌, ◌-◌, ◌≤◌, ◌≡◌, refl, String, true, false, Option, some, List, [], ◌∷◌, ◌++◌, arith, inl,
  inr, Bool-cases, ◌==◌, any, eq_iff, subst, ap, sym, str_eq,
}
use model_forensics_value_le.Prelude.Outcome.{ok}
use model_forensics_value_le.Prelude.Text.{codes, has_visible}
use model_forensics_value_le.Budget.Entry
use model_forensics_value_le.Budget.Entry.{has_id}
use model_forensics_value_le.Budget.Document.{BudgetLimits, totals}
use model_forensics_value_le.Budget.Store.{Yaml}
use model_forensics_value_le.Budget.Ledger.{ReservationSnapshot}
use model_forensics_value_le.Budget.Totals.{spent-le, totals-spent, totals-snoc_gpu}
use model_forensics_value_le.Budget.Calls.Frame.{Loads}
use model_forensics_value_le.Budget.Calls.Returned.{snapshot_of}
use model_forensics_value_le.Prelude.Digest.{hash_matches}
use model_forensics_value_le.GpuBudget.Texts.{is_session_id}
use model_forensics_value_le.GpuBudget.Receipt.{
  Digests, Receipt, reservation_description, apart, check_identity, validate_receipt_invariants,
}
use model_forensics_value_le.GpuBudget.Reserve.{
  GpuRequest, Checked, receipt_of, reserve_gpu_phase_budget,
}
use model_forensics_value_le.GpuBudget.Resume.{
  with_entry_id, check_entry, check_stops, entry_in_ledger, validated_ledger_entry,
  validate_existing,
}
use model_forensics_value_le.GpuBudget.Checked.{IsChecked, checked_request-IsChecked}
use model_forensics_value_le.GpuBudget.Balanced.{IsBalanced, IsBalanced-check_accounts, apart_near}
use model_forensics_value_le.GpuBudget.Granted.{
  ledger_entry, entries_after, IsGranted, reserve_gpu_phase_budget-IsGranted,
}

pub text_eq_refl : (s : String) → str_eq s s ≡ true
text_eq_refl s = ground (arith, eq_iff s s)

apart_refl : (n : ℕ) → apart 1 n n ≡ false
apart_refl n = apart_near n n (omega arith) (omega arith)

with_entry_id-snoc :
    (i : String) (es : List Entry.Entry) (e : Entry.Entry)
    → any (has_id i) es ≡ false
    → has_id i e ≡ true
    → with_entry_id i (es ++ e ∷ []) ≡ e ∷ []
unfolding with_entry_id
with_entry_id-snoc i [] e h k = ground arith
with_entry_id-snoc i (x ∷ es) e h k = ground (arith, with_entry_id-snoc i es e)

names_itself : (now : String) (q : Checked) → has_id q.reservation_id (ledger_entry now q) ≡ true
unfolding ledger_entry
names_itself now q = text_eq_refl q.reservation_id

blank : is_session_id (codes "") ≡ true → ⊥
unfolding is_session_id has_visible
blank h = ground arith

named : (session : String) → is_session_id (codes session) ≡ true → str_eq session "" ≡ false
named session h = elim (Bool-cases (str_eq session "")) [
  | inl same ↦
      let e : session ≡ "" = ground (arith, eq_iff session "") in
      absurd (blank (subst (λ x. is_session_id (codes x) ≡ true) e h))
  | inr other ↦ other
]

module _ (yaml : Yaml) (limits : BudgetLimits) (digests : Digests) (now : String) where
  -- The snapshot that a granted request was given.
  abbrev snapshot : List Entry.Entry → Checked → ReservationSnapshot
  snapshot es q = snapshot_of es (ledger_entry now q)

  added :
      (es : List Entry.Entry) (q : Checked)
      → ((totals true (entries_after yaml limits digests now es q)).gpu
          ≡ (totals true es).gpu + q.phase_maximum)
        × ((totals true (entries_after yaml limits digests now es q)).total
            ≡ (totals true es).total + q.phase_maximum)
  unfolding ledger_entry
  added es q = totals-snoc_gpu es (ledger_entry now q) refl

  prior_le : (es : List Entry.Entry) → (totals false es).gpu ≤ (totals true es).gpu
  prior_le es = omega (arith, totals-spent true es, totals-spent false es, spent-le Entry.gpu es)

  pub IsGranted-IsBalanced :
      (request : GpuRequest) (es : List Entry.Entry) (r : Receipt) (s' : Option yaml.Text)
      (g : IsGranted yaml limits digests now request es r s')
      → IsBalanced limits g.q (snapshot es g.q)
  IsGranted-IsBalanced request es r s' g =
      let c = checked_request-IsChecked digests limits request g.q g.checked in
      record {
        ceiling = c.ceiling;
        prior = prior_le es;
        after = (added es g.q).0;
        low = g.low;
        total_after = (added es g.q).1;
        total_low = g.after.total_fits;
        maximum_pos = c.maximum_pos;
        runtime_pos = c.runtime_pos;
        rate_pos = c.rate_pos;
        margin_pos = c.margin_pos;
        margin_lt = c.margin_lt;
        runs =
            subst (λ (r : Receipt). (r.maximum_safe_runtime == 0) ≡ false) (sym g.receipt) g.runs;
      }

  check_identity_of :
      (request : GpuRequest) (q : Checked) (t : ReservationSnapshot)
      → IsChecked digests limits request q
      → check_identity digests (receipt_of limits q t) ≡ ok tt
  unfolding check_identity receipt_of
  check_identity_of request q t c =
      let a : hash_matches (codes q.session_hash) ≡ true =
        rw c.session_hash (digests.session_hex c.session) in
      let b : str_eq q.reservation_id (digests.reservation q.phase q.session_hash) ≡ true =
        rw (c.reservation_id, c.session_hash)
          (text_eq_refl (digests.reservation q.phase (digests.session c.session))) in
      rw (c.phase_valid, a, b)

  check_entry_of :
      (es : List Entry.Entry) (q : Checked)
      → check_entry
          (receipt_of limits q (snapshot es q))
          true
          (ledger_entry now q)
          (totals true (entries_after yaml limits digests now es q)).gpu
        ≡ ok tt
  unfolding check_entry receipt_of ledger_entry
  check_entry_of es q = rw (
    text_eq_refl (reservation_description q.phase q.session_hash),
    apart_refl q.phase_maximum,
    apart_refl (totals true (entries_after yaml limits digests now es q)).gpu,
  )

  check_stops_of :
      (es : List Entry.Entry) (q : Checked)
      → (totals true es).total ≤ limits.total_limit
      → check_stops limits (receipt_of limits q (snapshot es q)) ≡ ok tt
  unfolding check_stops receipt_of
  check_stops_of es q fits = rw (
    apart_refl limits.gpu_limit,
    apart_near limits.total_limit
        ((totals true es).total + (limits.total_limit - (totals true es).total))
        (omega (arith, fits)) (omega (arith, fits)),
  )

  entry_in_ledger_of :
      (es : List Entry.Entry) (q : Checked)
      → any (has_id q.reservation_id) es ≡ false
      → entry_in_ledger
          (receipt_of limits q (snapshot es q))
          true
          (entries_after yaml limits digests now es q)
        ≡ ok (ledger_entry now q)
  unfolding entry_in_ledger receipt_of
  entry_in_ledger_of es q free = rw (
    with_entry_id-snoc q.reservation_id es (ledger_entry now q) free (names_itself now q),
    check_entry_of es q,
  )

  validated_ledger_entry_of :
      (es : List Entry.Entry) (q : Checked) (s' : Option yaml.Text)
      → any (has_id q.reservation_id) es ≡ false
      → (totals true es).total ≤ limits.total_limit
      → Loads yaml limits s' (entries_after yaml limits digests now es q)
      → validated_ledger_entry yaml limits digests (receipt_of limits q (snapshot es q)) true s'
        ≡ ok (ledger_entry now q)
  unfolding validated_ledger_entry
  validated_ledger_entry_of es q s' free fits loads =
      rw (check_stops_of es q fits, loads, entry_in_ledger_of es q free)

  validate_existing_of :
      (request : GpuRequest) (es : List Entry.Entry) (q : Checked) (s' : Option yaml.Text)
      (c : IsChecked digests limits request q)
      → IsBalanced limits q (snapshot es q)
      → any (has_id q.reservation_id) es ≡ false
      → (totals true es).total ≤ limits.total_limit
      → Loads yaml limits s' (entries_after yaml limits digests now es q)
      → validate_existing yaml limits digests
          (receipt_of limits q (snapshot es q))
          q.phase
          c.session
          true
          s'
        ≡ ok (ledger_entry now q)
  unfolding validate_existing validate_receipt_invariants receipt_of
  validate_existing_of request es q s' c b free fits loads =
      let session : str_eq (digests.session c.session) q.session_hash ≡ true =
        rw c.session_hash (text_eq_refl (digests.session c.session)) in
      rw (
        check_identity_of request q (snapshot es q) c,
        IsBalanced-check_accounts limits q (snapshot es q) b,
        text_eq_refl q.phase,
        named c.session c.session_valid,
        session,
        validated_ledger_entry_of es q s' free fits loads,
      )

  -- The receipt that a returned reservation issues is accepted when the phase is resumed: on the
  -- file that the reservation left, the validation of an existing reservation, for the same phase
  -- and session and with an active entry required, returns the estimate of the approved maximum
  -- under the ID of the receipt.
  pub validate_existing-reserve :
      (request : GpuRequest) (s s' : Option yaml.Text) (es : List Entry.Entry) (r : Receipt)
      (phase session : String)
      → Loads yaml limits s es
      → request.phase ≡ some phase
      → request.session_id ≡ some session
      → reserve_gpu_phase_budget yaml limits digests now request s ≡ (ok r, s')
      → (e : Entry.Entry) × (validate_existing yaml limits digests r phase session true s' ≡ ok e)
        × (e.entry_id ≡ some r.reservation_id)
        × (e.status ≡ Entry.estimated)
        × (e.amount ≡ r.approved_phase_maximum)
  unfolding ledger_entry receipt_of
  validate_existing-reserve request s s' es r phase session loads p n h =
      let g =
        reserve_gpu_phase_budget-IsGranted yaml limits digests now request s s' es r loads h in
      let c = checked_request-IsChecked digests limits request g.q g.checked in
      let b = IsGranted-IsBalanced request es r s' g in
      let accepted =
        validate_existing_of request es g.q s' c b g.free g.before.total_fits g.stored in
      let given = c.phase_given in
      let given' = c.session_given in
      let same_phase : g.q.phase ≡ phase = cc in
      let same_session : c.session ≡ session = cc in
      (
        ledger_entry now g.q,
        subst
            (λ r.
              validate_existing yaml limits digests r phase session true s'
              ≡ ok (ledger_entry now g.q))
            g.receipt
            (subst
              (λ x.
                validate_existing yaml limits digests (receipt_of limits g.q (snapshot es g.q))
                  phase x true s'
                ≡ ok (ledger_entry now g.q))
              same_session
              (subst
                (λ x.
                  validate_existing yaml limits digests (receipt_of limits g.q (snapshot es g.q)) x
                    c.session true s'
                  ≡ ok (ledger_entry now g.q))
                same_phase accepted)),
        ap (λ (r : Receipt). some r.reservation_id) g.receipt,
        refl,
        ap (λ (r : Receipt). r.approved_phase_maximum) g.receipt,
      )
